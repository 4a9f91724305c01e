-- ===== src/Pintos/Lists/Runs.antt =====
-- is_sorted and find_end_of_run of Project_3/lib/kernel/list.c on whole lists.
use system_prog.Base.{
  ==_self, ==-false, ℕ, zero, suc, ◌<◌, ◌≤◌, ◌≡◌, ◌≢◌, refl, ap, sym, subst, Bool, true, false,
  some, List, [], ◌∷◌, ◌++◌, append_assoc, append-nil, arith, ◌==◌, Bool-cases, inl, inr, length,
  if◌then◌else◌, ◌>>=◌,
}
use system_prog.Pintos.Lists.{Store, ListHead}
use system_prog.Pintos.Lists.Sorting.{sorted_loop, is_sorted, run_loop, find_end_of_run}
use system_prog.Pintos.Lists.Chain.{IsList}
use system_prog.Pintos.Lists.Inserting.{first_of, at_tail}
use system_prog.Pintos.Lists.Removing.{IsList-Around}
use system_prog.Pintos.Lists.Walking.{IsSorted}
use system_prog.Pintos.Lists.Merging.{list_next-Around, list_prev-Around, behind-apart}

-- The elements up to and with `e` stand before the rest.
pub next_place :
    (st : Store) (l : ListHead) (us : List ℕ) (e : ℕ) (vs : List ℕ)
    → IsList st l (us ++ e ∷ vs)
    → IsList st l ((us ++ e ∷ []) ++ vs)
next_place st l us e vs h = subst (IsList st l) (sym (append_assoc us (e ∷ []) vs)) h

-- An element is not the tail.
pub tail-apart :
    (st : Store) (l : ListHead) (us : List ℕ) (e : ℕ) (vs : List ℕ)
    → IsList st l (us ++ e ∷ vs)
    → (e == l.tail) ≡ false
tail-apart st l us e vs h =
    behind-apart st l us e vs [] (subst (λ z. IsList st l (us ++ e ∷ z)) (sym (append-nil vs)) h)

module _ (less : ℕ → ℕ → Bool) where
  sorted_loop-IsSorted :
      (fuel : ℕ) (st : Store) (l : ListHead) (us : List ℕ) (e : ℕ) (xs ws : List ℕ)
      → IsList st l (us ++ e ∷ (xs ++ ws))
      → IsSorted less (e ∷ xs)
      → length xs < fuel
      → sorted_loop less fuel e (first_of ws l.tail) st ≡ some true
  unfolding sorted_loop
  sorted_loop-IsSorted zero st l us e xs ws h s f = absurd (omega arith)
  sorted_loop-IsSorted (suc fuel) st l us e [] ws h s f =
      rw (list_next-Around st l us e ws h, ==_self (first_of ws l.tail), sorted_loop, ◌>>=◌) refl
  sorted_loop-IsSorted (suc fuel) st l us e (x ∷ xs) ws h s f =
      let h' = next_place st l us e (x ∷ (xs ++ ws)) h in
      rw
        (
          list_next-Around st l us e (x ∷ (xs ++ ws)) h,
          behind-apart st l (us ++ e ∷ []) x xs ws h',
          list_prev-Around st l us e (x ∷ (xs ++ ws)) h,
          s.0,
          sorted_loop,
          ◌>>=◌,
        )
        (sorted_loop-IsSorted fuel st l (us ++ e ∷ []) x xs ws h' s.1 (omega arith))

  -- The test of a range that is in order gives true.
  pub is_sorted-IsSorted :
      (fuel : ℕ) (st : Store) (l : ListHead) (us xs ws : List ℕ)
      → IsList st l (us ++ (xs ++ ws))
      → IsSorted less xs
      → length xs ≤ fuel
      → is_sorted less fuel (first_of (xs ++ ws) l.tail) (first_of ws l.tail) st ≡ some true
  unfolding is_sorted
  is_sorted-IsSorted fuel st l us [] ws h s f = rw (==_self (first_of ws l.tail)) refl
  is_sorted-IsSorted fuel st l us (x ∷ xs) ws h s f =
      rw (behind-apart st l us x xs ws h)
        (sorted_loop-IsSorted fuel st l us x xs ws h s (omega arith))

  -- The places where an element is less than the one before it.
  abbrev pub descents : List ℕ → ℕ
  descents [] = 0
  descents (x ∷ []) = 0
  descents (x ∷ y ∷ ys) = let rest = descents (y ∷ ys) in if less y x then suc rest else rest

  -- The number of the runs.
  abbrev pub runs : List ℕ → ℕ
  runs [] = 0
  runs (x ∷ xs) = suc (descents (x ∷ xs))

  -- A run from `e` on is made of `rs`, and `ws` stand behind it.
  pub record IsRun (e : ℕ) (vs rs ws : List ℕ) : Type 0 where
    pub parts : vs ≡ rs ++ ws
    pub sorted : IsSorted less (e ∷ rs)
    pub rest : descents (e ∷ vs) ≡ runs ws

  run_loop-IsRun :
      (fuel : ℕ) (st : Store) (l : ListHead) (us : List ℕ) (e : ℕ) (vs : List ℕ)
      → IsList st l (us ++ e ∷ vs)
      → length vs < fuel
      → (rs ws : List ℕ) × (run_loop less fuel e l.tail st ≡ some (first_of ws l.tail))
        × IsRun e vs rs ws
  unfolding run_loop
  run_loop-IsRun zero st l us e vs h f = absurd (omega arith)
  run_loop-IsRun (suc fuel) st l us e [] h f = (
    [],
    [],
    rw (list_next-Around st l us e [] h, ==_self l.tail, run_loop, ◌>>=◌) refl,
    record { parts = refl; sorted = tt; rest = refl },
  )
  run_loop-IsRun (suc fuel) st l us e (v ∷ vs) h f =
      let h' = next_place st l us e (v ∷ vs) h in
      let next = list_next-Around st l us e (v ∷ vs) h in
      let back = list_prev-Around st l us e (v ∷ vs) h in
      let inner = tail-apart st l (us ++ e ∷ []) v vs h' in
      elim (Bool-cases (less v e)) [
        | inl p ↦ (
          [],
          v ∷ vs,
          rw (next, inner, back, p, run_loop, ◌>>=◌) refl,
          record { parts = refl; sorted = tt; rest = rw p refl },
        )
        | inr p ↦
            let (rs, ws, r, k) = run_loop-IsRun fuel st l (us ++ e ∷ []) v vs h' (omega arith) in
            (
              v ∷ rs,
              ws,
              rw (next, inner, back, p, run_loop, ◌>>=◌) r,
              record { parts = ap (◌∷◌ v) k.parts; sorted = (p, k.sorted); rest = rw p k.rest },
            )
      ]

  -- The run that begins at an element ends before the first element behind it that is less than
  -- the one before.
  pub find_end_of_run-IsRun :
      (fuel : ℕ) (st : Store) (l : ListHead) (us : List ℕ) (e : ℕ) (vs : List ℕ)
      → IsList st l (us ++ e ∷ vs)
      → length vs < fuel
      → (rs ws : List ℕ) × (find_end_of_run less fuel e l.tail st ≡ some (first_of ws l.tail))
        × IsRun e vs rs ws
  unfolding find_end_of_run
  find_end_of_run-IsRun fuel st l us e vs h f =
      let (rs, ws, r, k) = run_loop-IsRun fuel st l us e vs h f in
      let a = IsList-Around st l us e vs h in
      let t = at_tail (λ y. 0 ≢ y) l (us ++ e ∷ vs) h.no_null.1 in
      (
        rs,
        ws,
        rw
            (
              ==-false e 0 (λ z. a.null (sym z)),
              ==-false l.tail 0 (λ z. t (sym z)),
              tail-apart st l us e vs h,
            )
            r,
        k,
      )
