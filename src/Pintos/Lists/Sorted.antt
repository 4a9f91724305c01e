-- ===== src/Pintos/Lists/Sorted.antt =====
-- list_sort of Project_3/lib/kernel/list.c.
use mathlib.Core.List.{Permᴰ}
use mathlib.Core.List.Permᴰ as PermD
use system_prog.Base.{
  ℕ, zero, suc, ◌+◌, ◌<◌, ◌≤◌, ◌≡◌, refl, ap, sym, subst, ◌∙◌, Bool, some, List, [], ◌++◌,
  append-nil, arith, leb, Bool-cases, inl, inr, length, ◌>>=◌,
}
use system_prog.Pintos.Lists.{Store, ListHead, list_begin, list_end}
use system_prog.Pintos.Lists.Sorting.{sort_loop, list_sort}
use system_prog.Pintos.Lists.Chain.{IsList}
use system_prog.Pintos.Lists.Inserting.{first_of}
use system_prog.Pintos.Lists.Walking.{IsSorted, begins}
use system_prog.Pintos.Lists.Merged.{IsOrder, Ascending, IsSorted-Ascending}
use system_prog.Pintos.Lists.Runs.{is_sorted-IsSorted, runs}
use system_prog.Pintos.Lists.Passes.{Perm-length, single_run, runs-length, pass_loop-IsPass}

module _ (less : ℕ → ℕ → Bool) where
  -- Each pass but the last leaves fewer runs.
  sort_loop-IsSorted :
      IsOrder less
      → (n fuel : ℕ) (st : Store) (l : ListHead) (xs : List ℕ) → IsList st l xs
      → length xs < n
      → runs less xs < fuel
      → (ys : List ℕ) × (st' : Store) × (sort_loop less n fuel l st ≡ some st')
        × IsList st' l ys
        × Permᴰ xs ys
        × IsSorted less ys
  unfolding sort_loop
  sort_loop-IsSorted o n zero st l xs h f g = absurd (omega arith)
  sort_loop-IsSorted o n (suc fuel) st l xs h f g =
      let (ys, c, st1, q, k, p) = pass_loop-IsPass less o n n st l [] xs 0 h f f in
      elim (Bool-cases (leb (0 + c) 1)) [
        | inl e ↦
            let few : runs less ys ≤ 1 = ground (arith, e, p.fewer) in
            (
              ys,
              st1,
              rw (begins st l xs h, q, e, sort_loop, ◌>>=◌) refl,
              k,
              p.permuted,
              single_run less ys few,
            )
        | inr e ↦
            let less_runs : runs less ys < fuel = ground (arith, e, p.fewer, p.half, g) in
            let (zs, st2, r, k2, d, s) =
              sort_loop-IsSorted o n fuel st1 l ys k (omega (arith, Perm-length p.permuted, f))
                less_runs in
            (
              zs,
              st2,
              rw (begins st l xs h, q, e, sort_loop, ◌>>=◌) r,
              k2,
              PermD.trans p.permuted d,
              s,
            )
      ]

  -- list_sort ends, its ASSERTs hold, and the list then has the same elements, none of them less
  -- than one before it, if `less` is the strict part of an order; one round more than there are elements
  -- is enough for each loop.
  pub list_sort-IsList :
      IsOrder less
      → (fuel : ℕ) (st : Store) (l : ListHead) (xs : List ℕ) → IsList st l xs
      → length xs < fuel
      → (ys : List ℕ) × (st' : Store) × (list_sort less fuel l st ≡ some st')
        × IsList st' l ys
        × Permᴰ xs ys
        × Ascending less ys
  unfolding list_sort list_end
  list_sort-IsList o fuel st l xs h f =
      let (ys, st', r, k, d, s) =
        sort_loop-IsSorted o fuel fuel st l xs h f (omega (arith, runs-length less xs, f)) in
      let b =
        is_sorted-IsSorted less fuel st' l [] ys [] (subst (IsList st' l) (sym (append-nil ys)) k) s
          (omega (arith, Perm-length d, f)) in
      let whole : list_begin l st' ≡ first_of (ys ++ []) l.tail =
        begins st' l ys k ∙ ap (λ z. first_of z l.tail) (sym (append-nil ys)) in
      (ys, st', rw (r, whole, b, ◌>>=◌) refl, k, d, IsSorted-Ascending less o ys s)
