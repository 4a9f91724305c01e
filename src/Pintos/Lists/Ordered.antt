-- ===== src/Pintos/Lists/Ordered.antt =====
-- Lists in the order of a test on their elements: list_insert_ordered, list_unique, list_max and
-- list_min of Project_3/lib/kernel/list.c.
use system_prog.Base.{
  ◌>>=◌, ℕ, zero, suc, Bool, true, false, not, ◌&&◌, ◌||◌, Option, none, some, ◌==◌, if◌then◌else◌,
}
use system_prog.Pintos.Lists.{
  Store, ListHead, list_begin, list_end, list_next, list_insert, list_remove, list_push_back,
  list_empty,
}

-- `less`, with its auxiliary data, as a test on two elements.
module _ (less : ℕ → ℕ → Bool) where
  unfoldable pub place_loop : ℕ → ListHead → ℕ → ℕ → Store → Option ℕ
  place_loop zero l elem e st = none
  place_loop (suc fuel) l elem e st = elim (e == list_end l || less elem e) [
    | true ↦ some e
    | false ↦ do e' ← list_next e st; place_loop fuel l elem e' st
  ]

  unfoldable pub list_insert_ordered : ℕ → ListHead → ℕ → Store → Option Store
  list_insert_ordered fuel l elem st = do
    e ← place_loop fuel l elem (list_begin l st) st
    list_insert e elem st

  -- `duplicates` is `none` for the null pointer.
  unfoldable pub move_duplicate : Option ListHead → ℕ → Store → Option Store
  move_duplicate none e st = some st
  move_duplicate (some dups) e st = list_push_back dups e st

  unfoldable pub unique_loop : ℕ → ListHead → Option ListHead → ℕ → Store → Option Store
  unique_loop zero l dups elem st = none
  unique_loop (suc fuel) l dups elem st = do
    next ← list_next elem st
    elim (next == list_end l) [
      | true ↦ some st
      | false ↦ elim (not (less elem next) && not (less next elem)) [
        | true ↦ do
          (_, st1) ← list_remove next st
          st2 ← move_duplicate dups next st1
          unique_loop fuel l dups elem st2
        | false ↦ unique_loop fuel l dups next st
      ]
    ]

  unfoldable pub list_unique : ℕ → ListHead → Option ListHead → Store → Option Store
  list_unique fuel l dups st =
      if list_empty l st then some st else unique_loop fuel l dups (list_begin l st) st

  unfoldable pub max_loop : ℕ → ListHead → ℕ → ℕ → Store → Option ℕ
  max_loop zero l max e st = none
  max_loop (suc fuel) l max e st = elim (e == list_end l) [
    | true ↦ some max
    | false ↦ do e' ← list_next e st; max_loop fuel l (if less max e then e else max) e' st
  ]

  unfoldable pub list_max : ℕ → ListHead → Store → Option ℕ
  list_max fuel l st =
      let max = list_begin l st in
      if max == list_end l then some max else (do e ← list_next max st; max_loop fuel l max e st)

  unfoldable pub min_loop : ℕ → ListHead → ℕ → ℕ → Store → Option ℕ
  min_loop zero l min e st = none
  min_loop (suc fuel) l min e st = elim (e == list_end l) [
    | true ↦ some min
    | false ↦ do e' ← list_next e st; min_loop fuel l (if less e min then e else min) e' st
  ]

  unfoldable pub list_min : ℕ → ListHead → Store → Option ℕ
  list_min fuel l st =
      let min = list_begin l st in
      if min == list_end l then some min else (do e ← list_next min st; min_loop fuel l min e st)
