-- ===== src/Pintos/Synch/Handing.antt =====
-- The statements of lock_acquire and lock_release that change the holder, and the sema_up of
-- lock_release: Project_3/threads/synch.c.
use system_prog.Base.{
  ℕ, suc, ◌≤◌, ◌≡◌, ◌≢◌, ap, sym, subst, ◌∙◌, ◌⊎◌, inl, inr, Bool, true, arith, ℕ_discrete, update,
  update_self, update_ne,
}
use system_prog.Pintos.Threads.{outside, acquired, released}
use system_prog.Pintos.Synch.Exclusion.{
  Locks, Owns, IsExclusive, away_outside, away-acquired, away-released, old_place, old_owner,
  place-PlaceFits,
}

module _ (is_lock : ℕ → Bool) (v : Locks) (h : IsExclusive is_lock v) (c : ℕ) where
  holder-cases :
      (l n x : ℕ)
      → ((l ≡ x) × (update l n v.holder x ≡ n)) ⊎ ((l ≢ x) × (update l n v.holder x ≡ v.holder x))
  holder-cases l n x = elim (ℕ_discrete l x) [
    | yes q ↦ inl (q, ap (update l n v.holder) (sym q) ∙ update_self l n v.holder)
    | no q ↦ inr (q, update_ne l n v.holder x q)
  ]

  -- `lock->holder = thread_current()`
  pub hold-IsExclusive :
      (l : ℕ)
      → is_lock l ≡ true
      → v.place c ≡ acquired l
      → IsExclusive is_lock
          (record v { place = update c outside v.place; holder = update l c v.holder })
  hold-IsExclusive l k e =
      let v' : Locks = record v {
        place = update c outside v.place;
        holder = update l c v.holder;
      } in
      let old : (x t : ℕ) → Owns v' t x → Owns v t x = λ x t o. elim o [
        | inl (a, n) ↦ elim (holder-cases l c x) [
          | inl (q, r) ↦ inr (inl (ap v.place (sym a ∙ r) ∙ e ∙ ap acquired q))
          | inr (q, r) ↦ inl (sym r ∙ a, n)
        ]
        | inr z ↦ old_owner is_lock v h c outside x t away_outside (inr z)
      ] in
      record {
        fits = place-PlaceFits is_lock v h c outside tt;
        small = h.small;
        free = λ x t j n o. h.free x t j n (old x t o);
        unique = λ x t u j o p. h.unique x t u j (old x t o) (old x u p);
        unheld = λ x t j o.
            let at : (c ≢ t) × ((v.place t ≡ acquired x) ⊎ (v.place t ≡ released x)) = elim o [
              | inl z ↦
                  let (q, r) =
                    old_place is_lock v h c outside (acquired x) t
                      (away-acquired outside x away_outside) z in
                  (q, inl r)
              | inr z ↦
                  let (q, r) =
                    old_place is_lock v h c outside (released x) t
                      (away-released outside x away_outside) z in
                  (q, inr r)
            ] in
            elim (holder-cases l c x) [
              | inl (q, r) ↦
                  absurd
                    (at.0 (h.unique l c t k (inr (inl e)) (subst (Owns v t) (sym q) (inr at.1))))
              | inr (q, r) ↦ r ∙ h.unheld x t j at.1
            ];
      }

  -- `lock->holder = NULL`
  pub drop-IsExclusive :
      (l : ℕ)
      → is_lock l ≡ true
      → 0 ≢ c
      → v.holder l ≡ c
      → IsExclusive is_lock
          (record v { place = update c (released l) v.place; holder = update l 0 v.holder })
  drop-IsExclusive l k n e =
      let v' : Locks = record v {
        place = update c (released l) v.place;
        holder = update l 0 v.holder;
      } in
      let place : (x t : ℕ)
          → (v'.place t ≡ acquired x) ⊎ (v'.place t ≡ released x)
          → ((c ≡ t) × (l ≡ x)) ⊎ ((v.place t ≡ acquired x) ⊎ (v.place t ≡ released x)) =
        λ x t o. elim (ℕ_discrete c t) [
          | yes q ↦
              let self = ap v'.place (sym q) ∙ update_self c (released l) v.place in
              elim o [
                | inl z ↦ absurd (ground (arith, z, self))
                | inr z ↦ inl (q, ground (arith, z, self))
              ]
          | no q ↦
              let same = sym (update_ne c (released l) v.place t q) in
              inr (elim o [ inl z ↦ inl (same ∙ z) | inr z ↦ inr (same ∙ z) ])
        ] in
      let old : (x t : ℕ) → Owns v' t x → Owns v t x = λ x t o. elim o [
        | inl (a, m) ↦ elim (holder-cases l 0 x) [
          | inl (q, r) ↦ absurd (m (sym r ∙ a))
          | inr (q, r) ↦ inl (sym r ∙ a, m)
        ]
        | inr z ↦ elim (place x t z) [
          | inl (q, r) ↦ inl (ap v.holder (sym r) ∙ e ∙ q, λ y. n (y ∙ sym q))
          | inr y ↦ inr y
        ]
      ] in
      record {
        fits = place-PlaceFits is_lock v h c (released l) k;
        small = h.small;
        free = λ x t j m o. h.free x t j m (old x t o);
        unique = λ x t u j o p. h.unique x t u j (old x t o) (old x u p);
        unheld = λ x t j o. elim (holder-cases l 0 x) [
          | inl (q, r) ↦ r
          | inr (q, r) ↦ elim (place x t o) [
            | inl y ↦ absurd (q y.1)
            | inr y ↦ r ∙ h.unheld x t j y
          ]
        ];
      }

  -- The value that `sema_up` gives back.
  pub give-IsExclusive :
      (l : ℕ)
      → is_lock l ≡ true
      → v.place c ≡ released l
      → IsExclusive is_lock (record v {
        place = update c outside v.place;
        value = update l (suc (v.value l)) v.value;
      })
  give-IsExclusive l k e =
      let v' : Locks = record v {
        place = update c outside v.place;
        value = update l (suc (v.value l)) v.value;
      } in
      let zero_before : v.value l ≡ 0 = elim (ℕ_discrete (v.value l) 0) [
        | yes q ↦ q
        | no q ↦ absurd (h.free l c k q (inr (inr e)))
      ] in
      let same : (x : ℕ) → l ≢ x → v'.value x ≡ v.value x =
        λ x q. update_ne l (suc (v.value l)) v.value x q in
      let old : (x t : ℕ) → Owns v' t x → Owns v t x =
        λ x t o. old_owner is_lock v h c outside x t away_outside o in
      let nobody : (t : ℕ) → Owns v' t l → ⊥ = λ t o.
        let mine = h.unique l t c k (old l t o) (inr (inr e)) in
        elim o [
          | inl (a, n) ↦ n (sym (h.unheld l c k (inr e)) ∙ a)
          | inr (inl z) ↦
              (old_place is_lock v h c outside (acquired l) t (away-acquired outside l away_outside)
                  z).0
                (sym mine)
          | inr (inr z) ↦
              (old_place is_lock v h c outside (released l) t (away-released outside l away_outside)
                  z).0
                (sym mine)
        ] in
      record {
        fits = place-PlaceFits is_lock v h c outside tt;
        small = λ x j. elim (ℕ_discrete l x) [
          | yes q ↦
              subst (λ y. v'.value y ≤ 1) q
                (subst (λ z. z ≤ 1) (sym (update_self l (suc (v.value l)) v.value))
                  (omega (arith, zero_before)))
          | no q ↦ subst (λ z. z ≤ 1) (sym (same x q)) (h.small x j)
        ];
        free = λ x t j n o. elim (ℕ_discrete l x) [
          | yes q ↦ nobody t (subst (Owns v' t) (sym q) o)
          | no q ↦ h.free x t j (λ r. n (same x q ∙ r)) (old x t o)
        ];
        unique = λ x t u j o p. h.unique x t u j (old x t o) (old x u p);
        unheld = λ x t j o. elim o [
          | inl z ↦ h.unheld x t j (
              inl
                (old_place is_lock v h c outside (acquired x) t
                  (away-acquired outside x away_outside) z).1)
          | inr z ↦ h.unheld x t j (
              inr
                (old_place is_lock v h c outside (released x) t
                  (away-released outside x away_outside) z).1)
        ];
      }
