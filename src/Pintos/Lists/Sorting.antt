-- ===== src/Pintos/Lists/Sorting.antt =====
-- The natural merge sort of Project_3/lib/kernel/list.c: is_sorted, find_end_of_run, inplace_merge
-- and list_sort.
use system_prog.Base.{
  assert, ◌>>=◌, ℕ, zero, suc, Bool, true, false, not, ◌&&◌, Option, none, some, ◌==◌, leb,
  if◌then◌else◌,
}
use system_prog.Pintos.Lists.{
  Store, ListHead, non_null, list_begin, list_end, list_next, list_prev, list_splice,
}

-- `less`, with its auxiliary data, as a test on two elements. The loops run on fuel.
module _ (less : ℕ → ℕ → Bool) where
  unfoldable pub sorted_loop : ℕ → ℕ → ℕ → Store → Option Bool
  sorted_loop zero a b st = none
  sorted_loop (suc fuel) a b st = do
    next ← list_next a st
    elim (next == b) [
      | true ↦ some true
      | false ↦ do
        p ← list_prev next st
        elim (less next p) [ true ↦ some false | false ↦ sorted_loop fuel next b st ]
    ]

  unfoldable pub is_sorted : ℕ → ℕ → ℕ → Store → Option Bool
  is_sorted fuel a b st = if a == b then some true else sorted_loop fuel a b st

  unfoldable pub run_loop : ℕ → ℕ → ℕ → Store → Option ℕ
  run_loop zero a b st = none
  run_loop (suc fuel) a b st = do
    next ← list_next a st
    elim (next == b) [
      | true ↦ some next
      | false ↦ do
        p ← list_prev next st
        elim (less next p) [ true ↦ some next | false ↦ run_loop fuel next b st ]
    ]

  unfoldable pub find_end_of_run : ℕ → ℕ → ℕ → Store → Option ℕ
  find_end_of_run fuel a b st =
      assert (non_null a && non_null b && not (a == b)) (run_loop fuel a b st)

  unfoldable pub merge_loop : ℕ → ℕ → ℕ → ℕ → Store → Option Store
  merge_loop zero a0 a1b0 b1 st = none
  merge_loop (suc fuel) a0 a1b0 b1 st = elim (not (a0 == a1b0) && not (a1b0 == b1)) [
    | false ↦ some st
    | true ↦ elim (not (less a1b0 a0)) [
      | true ↦ do next ← list_next a0 st; merge_loop fuel next a1b0 b1 st
      | false ↦ do
        next ← list_next a1b0 st
        p ← list_prev next st
        st' ← list_splice a0 p next st
        merge_loop fuel a0 next b1 st'
    ]
  ]

  unfoldable pub inplace_merge : ℕ → ℕ → ℕ → ℕ → Store → Option Store
  inplace_merge fuel a0 a1b0 b1 st = assert (non_null a0 && non_null a1b0 && non_null b1) (do
    first ← is_sorted fuel a0 a1b0 st
    second ← is_sorted fuel a1b0 b1 st
    assert (first && second) (merge_loop fuel a0 a1b0 b1 st))

  -- The `for` loop, with `output_run_cnt`: `n` is the fuel of the loops inside it.
  unfoldable pub pass_loop : ℕ → ℕ → ListHead → ℕ → ℕ → Store → Option (ℕ × Store)
  pass_loop n zero l a0 output_run_cnt st = none
  pass_loop n (suc fuel) l a0 output_run_cnt st = elim (a0 == list_end l) [
    | true ↦ some (output_run_cnt, st)
    | false ↦ do
      a1b0 ← find_end_of_run n a0 (list_end l) st
      elim (a1b0 == list_end l) [
        | true ↦ some (suc output_run_cnt, st)
        | false ↦ do
          b1 ← find_end_of_run n a1b0 (list_end l) st
          st' ← inplace_merge n a0 a1b0 b1 st
          pass_loop n fuel l b1 (suc output_run_cnt) st'
      ]
  ]

  -- The `do` loop: a pass is repeated while it has put out more than one run.
  unfoldable pub sort_loop : ℕ → ℕ → ListHead → Store → Option Store
  sort_loop n zero l st = none
  sort_loop n (suc fuel) l st = do
    (output_run_cnt, st') ← pass_loop n n l (list_begin l st) 0 st
    elim (leb output_run_cnt 1) [ true ↦ some st' | false ↦ sort_loop n fuel l st' ]

  unfoldable pub list_sort : ℕ → ListHead → Store → Option Store
  list_sort fuel l st = do
    st' ← sort_loop fuel fuel l st
    sorted ← is_sorted fuel (list_begin l st') (list_end l) st'
    assert sorted (some st')
