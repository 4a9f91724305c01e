-- ===== src/Pintos/Lists/Merged.antt =====
-- The loop of inplace_merge of Project_3/lib/kernel/list.c.
use mathlib.Core.List.{Permᴰ}
use mathlib.Core.List.Permᴰ as PermD
use system_prog.Base.{
  All-map, ==_self, ℕ, zero, suc, ◌+◌, ◌<◌, ◌≡◌, refl, sym, subst, Bool, true, false, some, List,
  [], ◌∷◌, ◌++◌, append_assoc, append-nil, arith, All, All-append, Bool-cases, inl, inr, length,
}
use system_prog.Pintos.Lists.{Store, ListHead}
use system_prog.Pintos.Lists.Sorting.{merge_loop}
use system_prog.Pintos.Lists.Chain.{IsList}
use system_prog.Pintos.Lists.Inserting.{first_of}
use system_prog.Pintos.Lists.Walking.{IsSorted}
use system_prog.Pintos.Lists.Merging.{
  list_next-Around, list_prev-Around, behind-apart, list_splice-IsList,
}

pub All-Perm {κ} : (P : ℕ → Type κ) {xs ys : List ℕ} → Permᴰ xs ys → All P xs → All P ys
All-Perm P Permᴰ.nil h = h
All-Perm P (Permᴰ.cons e d) h = (subst P e h.0, All-Perm P d h.1)
All-Perm P (Permᴰ.swap e f) h = (subst P f h.1.0, (subst P e h.0, h.1.1))
All-Perm P (Permᴰ.trans d f) h = All-Perm P f (All-Perm P d h)

module _ (less : ℕ → ℕ → Bool) where
  -- "Not less" is an order in which any two elements compare.
  pub record IsOrder : Type 0 where
    pub asym : (a b : ℕ) → less a b ≡ true → less b a ≡ false
    pub trans : (a b c : ℕ) → less b a ≡ false → less c b ≡ false → less c a ≡ false

  -- No element is less than any before it.
  abbrev pub Ascending : List ℕ → Type 0
  Ascending [] = Unit
  Ascending (x ∷ xs) = All (λ y. less y x ≡ false) xs × Ascending xs

  pub IsSorted-Ascending : IsOrder → (xs : List ℕ) → IsSorted less xs → Ascending xs
  IsSorted-Ascending o [] h = tt
  IsSorted-Ascending o (x ∷ []) h = (tt, tt)
  IsSorted-Ascending o (x ∷ y ∷ ys) h =
      let r = IsSorted-Ascending o (y ∷ ys) h.1 in
      (
        (
          h.0,
          All-map (λ z. less z y ≡ false) (λ z. less z x ≡ false) ys (λ z k. o.trans x y z h.0 k)
              r.0,
        ),
        r,
      )

  pub Ascending-IsSorted : (xs : List ℕ) → Ascending xs → IsSorted less xs
  Ascending-IsSorted [] h = tt
  Ascending-IsSorted (x ∷ []) h = tt
  Ascending-IsSorted (x ∷ y ∷ ys) h = (h.0.0, Ascending-IsSorted (y ∷ ys) h.1)

  -- What a merge of `xs` and `ys` gives.
  pub record IsMerge (xs ys cs : List ℕ) : Type 0 where
    pub permuted : Permᴰ (xs ++ ys) cs
    pub ascending : Ascending xs → Ascending ys → Ascending cs

  take_left-IsMerge :
      IsOrder
      → (a b : ℕ) (xs ys cs : List ℕ) → less b a ≡ false
      → IsMerge xs (b ∷ ys) cs
      → IsMerge (a ∷ xs) (b ∷ ys) (a ∷ cs)
  take_left-IsMerge o a b xs ys cs e m = record {
    permuted = Permᴰ.cons refl m.permuted;
    ascending = λ h k. (
      All-Perm (λ z. less z a ≡ false) m.permuted
          (All-append (λ z. less z a ≡ false) xs (b ∷ ys) h.0
            (
              e,
              All-map (λ z. less z b ≡ false) (λ z. less z a ≡ false) ys (λ z q. o.trans a b z e q)
                  k.0,
            )),
      m.ascending h.1 k,
    );
  }

  take_right-IsMerge :
      IsOrder
      → (a b : ℕ) (xs ys cs : List ℕ) → less b a ≡ true
      → IsMerge (a ∷ xs) ys cs
      → IsMerge (a ∷ xs) (b ∷ ys) (b ∷ cs)
  take_right-IsMerge o a b xs ys cs e m =
      let f = o.asym b a e in
      record {
        permuted = Permᴰ.trans (PermD.middle b (a ∷ xs) ys) (Permᴰ.cons refl m.permuted);
        ascending = λ h k. (
          All-Perm (λ z. less z b ≡ false) m.permuted
              (All-append (λ z. less z b ≡ false) (a ∷ xs) ys
                (
                  f,
                  All-map (λ z. less z a ≡ false) (λ z. less z b ≡ false) xs
                      (λ z q. o.trans b a z f q) h.0,
                )
                k.0),
          m.ascending h k.1,
        );
      }

  -- The elements before the two ranges and behind them stay in their places.
  pub merge_loop-IsMerge :
      IsOrder
      → (fuel : ℕ) (st : Store) (l : ListHead) (us xs ys ws : List ℕ)
      → IsList st l (us ++ (xs ++ (ys ++ ws)))
      → length xs + length ys < fuel
      → (cs : List ℕ) × (st' : Store) × (merge_loop less fuel
            (first_of (xs ++ (ys ++ ws)) l.tail)
            (first_of (ys ++ ws) l.tail)
            (first_of ws l.tail)
            st
          ≡ some st')
        × IsList st' l (us ++ (cs ++ ws))
        × IsMerge xs ys cs
  unfolding merge_loop
  merge_loop-IsMerge o zero st l us xs ys ws h f = absurd (omega arith)
  merge_loop-IsMerge o (suc fuel) st l us [] ys ws h f = (
    ys,
    st,
    rw (==_self (first_of (ys ++ ws) l.tail), merge_loop) refl,
    h,
    record { permuted = PermD.refl ys; ascending = λ p q. q },
  )
  merge_loop-IsMerge o (suc fuel) st l us (a ∷ xs) [] ws h f = (
    a ∷ xs,
    st,
    rw (behind-apart st l us a xs ws h, ==_self (first_of ws l.tail), merge_loop) refl,
    h,
    record {
      permuted = subst (λ z. Permᴰ z (a ∷ xs)) (sym (append-nil (a ∷ xs))) (PermD.refl (a ∷ xs));
      ascending = λ p q. p;
    },
  )
  merge_loop-IsMerge o (suc fuel) st l us (a ∷ xs) (b ∷ ys) ws h f =
      let h2 : IsList st l ((us ++ a ∷ xs) ++ b ∷ (ys ++ ws)) =
        subst (IsList st l) (sym (append_assoc us (a ∷ xs) (b ∷ (ys ++ ws)))) h in
      let ab = behind-apart st l us a xs (b ∷ (ys ++ ws)) h in
      let bw = behind-apart st l (us ++ a ∷ xs) b ys ws h2 in
      elim (Bool-cases (less b a)) [
        | inl e ↦
            let (st1, r, h1) = list_splice-IsList st l us a xs b (ys ++ ws) h in
            let (cs, st', q, k, m) =
              merge_loop-IsMerge o fuel st1 l (us ++ b ∷ []) (a ∷ xs) ys ws
                (subst (IsList st1 l) (sym (append_assoc us (b ∷ []) (a ∷ (xs ++ (ys ++ ws))))) h1)
                (omega arith) in
            (
              b ∷ cs,
              st',
              rw
                  (
                    ab,
                    bw,
                    e,
                    list_next-Around st l (us ++ a ∷ xs) b (ys ++ ws) h2,
                    list_prev-Around st l (us ++ a ∷ xs) b (ys ++ ws) h2,
                    r,
                    merge_loop,
                  )
                  q,
              subst (IsList st' l) (append_assoc us (b ∷ []) (cs ++ ws)) k,
              take_right-IsMerge o a b xs ys cs e m,
            )
        | inr e ↦
            let (cs, st', q, k, m) =
              merge_loop-IsMerge o fuel st l (us ++ a ∷ []) xs (b ∷ ys) ws
                (subst (IsList st l) (sym (append_assoc us (a ∷ []) (xs ++ (b ∷ (ys ++ ws))))) h)
                (omega arith) in
            (
              a ∷ cs,
              st',
              rw (ab, bw, e, list_next-Around st l us a (xs ++ b ∷ (ys ++ ws)) h, merge_loop) q,
              subst (IsList st' l) (append_assoc us (a ∷ []) (cs ++ ws)) k,
              take_left-IsMerge o a b xs ys cs e m,
            )
      ]
