-- ===== src/Pintos/Lists/Walking.antt =====
-- Loops over a list: list_size and list_insert_ordered of Project_3/lib/kernel/list.c.
use system_prog.Base.{
  Distinct, Distinct-apart, IsFresh, ==_self, ==-false, ℕ, zero, suc, ◌+◌, ◌<◌, ◌≡◌, ◌≢◌, refl, ap,
  sym, subst, ◌∙◌, Bool, true, false, some, List, [], ◌∷◌, ◌++◌, append_assoc, arith, ◌==◌,
  if◌then◌else◌, Bool-cases, inl, inr, length,
}
use system_prog.Pintos.Lists.{
  Store, ListHead, is_head, is_interior, list_begin, list_end, list_next, size_loop, list_size,
}
use system_prog.Pintos.Lists.Ordered.{place_loop, list_insert_ordered}
use system_prog.Pintos.Lists.Chain.{behind_head, IsList}
use system_prog.Pintos.Lists.Inserting.{first_of, at_tail, list_insert-IsList}
use system_prog.Pintos.Lists.Removing.{IsList-Around, interior}

-- From the first of `vs` on, list_next leads through `vs` to the tail.
abbrev pub Walk : Store → ℕ → List ℕ → Type 0
Walk st t [] = Unit
Walk st t (v ∷ vs) = (list_next v st ≡ some (first_of vs t)) × (((v == t) ≡ false) × Walk st t vs)

pub list_next-interior :
    (st : Store) (e n : ℕ) → is_interior st e ≡ true → st.next e ≡ n → list_next e st ≡ some n
unfolding list_next
list_next-interior st e n h k = elim (Bool-cases (is_head st e)) [
  | inl p ↦ rw (p, k) refl
  | inr p ↦ rw (p, h, k) refl
]

IsList-Walk-from :
    (st : Store) (l : ListHead) (us vs : List ℕ) → IsList st l (us ++ vs) → Walk st l.tail vs
IsList-Walk-from st l us [] h = tt
IsList-Walk-from st l us (v ∷ vs) h =
    let a = IsList-Around st l us v vs h in
    let (_, d, _) =
      Distinct-apart (l.head ∷ us) (behind_head l (v ∷ vs))
        (subst (λ z. Distinct (l.head ∷ z)) (append_assoc us (v ∷ vs) (l.tail ∷ [])) h.distinct) in
    (
      list_next-interior st v (first_of vs l.tail) (interior st l us v vs a) a.next_e,
      (
        ==-false v l.tail (at_tail (λ y. v ≢ y) l vs d.0),
        IsList-Walk-from st l (us ++ v ∷ []) vs
            (subst (IsList st l) (sym (append_assoc us (v ∷ []) vs)) h),
      ),
    )

pub IsList-Walk : (st : Store) (l : ListHead) (xs : List ℕ) → IsList st l xs → Walk st l.tail xs
IsList-Walk st l xs h = IsList-Walk-from st l [] xs h

pub begins :
    (st : Store) (l : ListHead) (xs : List ℕ)
    → IsList st l xs
    → list_begin l st ≡ first_of xs l.tail
unfolding list_begin
begins st l [] h = h.linked.0
begins st l (x ∷ xs) h = h.linked.0

size_loop-Walk :
    (fuel : ℕ) (l : ListHead) (vs : List ℕ) (cnt : ℕ) (st : Store)
    → length vs < fuel
    → Walk st l.tail vs
    → size_loop fuel l (first_of vs l.tail) cnt st ≡ some (cnt + length vs)
unfolding size_loop list_end
size_loop-Walk zero l vs cnt st f w = absurd (omega arith)
size_loop-Walk (suc fuel) l [] cnt st f w = rw (==_self l.tail, size_loop) (ap some (omega arith))
size_loop-Walk (suc fuel) l (v ∷ vs) cnt st f w =
    rw (w.1.0, w.0, size_loop)
      (size_loop-Walk fuel l vs (suc cnt) st (omega arith) w.1.1 ∙ ap some (omega arith))

-- list_size counts the elements of a list; a round for each element and one more are enough.
pub list_size_lem :
    (fuel : ℕ) (st : Store) (l : ListHead) (xs : List ℕ)
    → IsList st l xs
    → length xs < fuel
    → list_size fuel l st ≡ some (length xs)
unfolding list_size
list_size_lem fuel st l xs h f =
    rw (begins st l xs h)
      (size_loop-Walk fuel l xs 0 st f (IsList-Walk st l xs h) ∙ ap some (omega arith))

module _ (less : ℕ → ℕ → Bool) where
  -- Where an element belongs: before the first element that it is less than.
  abbrev pub insert_ordered : ℕ → List ℕ → List ℕ
  insert_ordered e [] = e ∷ []
  insert_ordered e (x ∷ xs) = if less e x then e ∷ x ∷ xs else x ∷ insert_ordered e xs

  -- No element is less than the one before it.
  abbrev pub IsSorted : List ℕ → Type 0
  IsSorted [] = Unit
  IsSorted (x ∷ []) = Unit
  IsSorted (x ∷ y ∷ ys) = (less y x ≡ false) × IsSorted (y ∷ ys)

  pub insert_ordered-IsSorted :
      (e : ℕ) (xs : List ℕ)
      → ((a b : ℕ) → less a b ≡ true → less b a ≡ false)
      → IsSorted xs
      → IsSorted (insert_ordered e xs)
  insert_ordered-IsSorted e [] asym h = tt
  insert_ordered-IsSorted e (x ∷ []) asym h = elim (Bool-cases (less e x)) [
    | inl p ↦ rw p (asym e x p, tt)
    | inr p ↦ rw p (p, tt)
  ]
  insert_ordered-IsSorted e (x ∷ y ∷ ys) asym h = elim (Bool-cases (less e x)) [
    | inl p ↦ rw p (asym e x p, h)
    | inr p ↦ elim (Bool-cases (less e y)) [
      | inl q ↦ rw (p, q) (p, (asym e y q, h.1))
      | inr q ↦
          rw (p, q)
            (
              h.0,
              subst (λ b. IsSorted (if b then e ∷ y ∷ ys else y ∷ insert_ordered e ys)) q
                  (insert_ordered-IsSorted e (y ∷ ys) asym h.1),
            )
    ]
  ]

  -- The place in the list, with the elements before it and behind it.
  place_loop-Walk :
      (fuel : ℕ) (l : ListHead) (e : ℕ) (vs : List ℕ) (st : Store)
      → length vs < fuel
      → Walk st l.tail vs
      → (ms ns : List ℕ) × (vs ≡ ms ++ ns)
        × (insert_ordered e vs ≡ ms ++ e ∷ ns)
        × (place_loop less fuel l e (first_of vs l.tail) st ≡ some (first_of ns l.tail))
  unfolding place_loop list_end
  place_loop-Walk zero l e vs st f w = absurd (omega arith)
  place_loop-Walk (suc fuel) l e [] st f w =
      ([], [], refl, refl, rw (==_self l.tail, place_loop) refl)
  place_loop-Walk (suc fuel) l e (v ∷ vs) st f w = elim (Bool-cases (less e v)) [
    | inl p ↦ ([], v ∷ vs, refl, rw p refl, rw (w.1.0, p, place_loop) refl)
    | inr p ↦
        let (ms, ns, a, b, c) = place_loop-Walk fuel l e vs st (omega arith) w.1.1 in
        (v ∷ ms, ns, ap (◌∷◌ v) a, rw p (ap (◌∷◌ v) b), rw (w.1.0, p, w.0, place_loop) c)
  ]

  -- list_insert_ordered puts an element that is not in the list before the first element that it is
  -- less than, or at the end; a round for each element and one more are enough. A list that is in
  -- order stays in order, if no two elements are less than each other.
  pub list_insert_ordered-IsList :
      (fuel : ℕ) (st : Store) (l : ListHead) (e : ℕ) (xs : List ℕ)
      → ((a b : ℕ) → less a b ≡ true → less b a ≡ false)
      → IsList st l xs
      → 0 ≢ e
      → IsFresh e (l.head ∷ behind_head l xs)
      → length xs < fuel
      → (st' : Store) × (list_insert_ordered less fuel l e st ≡ some st')
        × IsList st' l (insert_ordered e xs)
        × (IsSorted xs → IsSorted (insert_ordered e xs))
  unfolding list_insert_ordered
  list_insert_ordered-IsList fuel st l e xs asym h n f k =
      let (ms, ns, a, b, c) = place_loop-Walk fuel l e xs st k (IsList-Walk st l xs h) in
      let (st', r, v) =
        list_insert-IsList st l e ms ns (subst (IsList st l) a h) n
          (subst (λ z. IsFresh e (l.head ∷ behind_head l z)) a f) in
      (
        st',
        rw (begins st l xs h, c) r,
        subst (IsList st' l) (sym b) v,
        insert_ordered-IsSorted e xs asym,
      )
