-- ===== src/Pintos/Synch/Exclusion.antt =====
-- Who owns a lock of Project_3/threads/synch.c, and the changes that its functions make to that.
use system_prog.Base.{
  ℕ, ◌-◌, ◌≤◌, ◌≡◌, ◌≢◌, refl, ap, sym, subst, ◌∙◌, ◌⊎◌, inl, inr, Bool, true, false, arith,
  ℕ_discrete, update, update_self, update_ne,
}
use system_prog.Pintos.Threads.{Place, outside, in_down, in_acquire, acquired, released, Kernel}

-- The part of the kernel that decides who owns the locks.
pub record Locks : Type 0 where
  pub holder : ℕ → ℕ
  pub place : ℕ → Place
  pub value : ℕ → ℕ

abbrev pub locks : Kernel → Locks
locks k = record { holder = k.holder; place = k.place; value = λ s. (k.semaphore s).value }

-- A thread owns a lock from the return of sema_down in lock_acquire to the sema_up in lock_release.
abbrev pub Owns : Locks → ℕ → ℕ → Type 0
Owns v t l = ((v.holder l ≡ t) × (0 ≢ t)) ⊎ ((v.place t ≡ acquired l) ⊎ (v.place t ≡ released l))

-- The semaphore of a lock is used by the lock's functions alone.
abbrev pub PlaceFits : (ℕ → Bool) → Place → Type 0
PlaceFits is_lock outside = Unit
PlaceFits is_lock (in_down s) = is_lock s ≡ false
PlaceFits is_lock (in_acquire l) = is_lock l ≡ true
PlaceFits is_lock (acquired l) = is_lock l ≡ true
PlaceFits is_lock (released l) = is_lock l ≡ true

-- The semaphore of a lock is 0 or 1; it is 0 while the lock is owned, and it has one owner at most.
-- The owner is not yet the holder, or no longer, between two statements of the lock's functions.
pub record IsExclusive (is_lock : ℕ → Bool) (v : Locks) : Type 0 where
  pub small : (l : ℕ) → is_lock l ≡ true → v.value l ≤ 1
  pub free : (l t : ℕ) → is_lock l ≡ true → v.value l ≢ 0 → Owns v t l → ⊥
  pub unique : (l t u : ℕ) → is_lock l ≡ true → Owns v t l → Owns v u l → t ≡ u
  pub unheld :
      (l t : ℕ)
      → is_lock l ≡ true
      → (v.place t ≡ acquired l) ⊎ (v.place t ≡ released l)
      → v.holder l ≡ 0
  pub fits : (t : ℕ) → PlaceFits is_lock (v.place t)

-- A place at which a thread owns no lock.
pub data IsAway : Place → Type 0 where
  away_outside : IsAway outside
  away_down : (s : ℕ) → IsAway (in_down s)
  away_acquire : (l : ℕ) → IsAway (in_acquire l)

pub away-acquired : (w : Place) (l : ℕ) → IsAway w → w ≢ acquired l
away-acquired _ l away_outside e = ground arith
away-acquired _ l (away_down s) e = ground arith
away-acquired _ l (away_acquire m) e = ground arith

pub away-released : (w : Place) (l : ℕ) → IsAway w → w ≢ released l
away-released _ l away_outside e = ground arith
away-released _ l (away_down s) e = ground arith
away-released _ l (away_acquire m) e = ground arith

module _ (is_lock : ℕ → Bool) (v : Locks) (h : IsExclusive is_lock v) (c : ℕ) where
  pub old_place :
      (w p : Place) (t : ℕ) → w ≢ p → update c w v.place t ≡ p → (c ≢ t) × (v.place t ≡ p)
  old_place w p t n e = elim (ℕ_discrete c t) [
    | yes q ↦ absurd (n (sym (update_self c w v.place) ∙ ap (update c w v.place) q ∙ e))
    | no q ↦ (q, sym (update_ne c w v.place t q) ∙ e)
  ]

  pub place-PlaceFits :
      (w : Place) → PlaceFits is_lock w → (t : ℕ) → PlaceFits is_lock (update c w v.place t)
  place-PlaceFits w f t = elim (ℕ_discrete c t) [
    | yes q ↦
        subst (PlaceFits is_lock) (sym (ap (update c w v.place) (sym q) ∙ update_self c w v.place))
          f
    | no q ↦ subst (PlaceFits is_lock) (sym (update_ne c w v.place t q)) (h.fits t)
  ]

  -- A thread that goes to a place where it owns nothing.
  pub old_owner :
      (w : Place) (l t : ℕ)
      → IsAway w
      → Owns (record v { place = update c w v.place }) t l
      → Owns v t l
  old_owner w l t a (inl e) = inl e
  old_owner w l t a (inr (inl e)) = inr (inl (old_place w (acquired l) t (away-acquired w l a) e).1)
  old_owner w l t a (inr (inr e)) = inr (inr (old_place w (released l) t (away-released w l a) e).1)

  pub away-IsExclusive :
      (w : Place)
      → IsAway w
      → PlaceFits is_lock w
      → IsExclusive is_lock (record v { place = update c w v.place })
  away-IsExclusive w a f = record {
    fits = place-PlaceFits w f;
    small = h.small;
    free = λ l t k n o. h.free l t k n (old_owner w l t a o);
    unique = λ l t u k o p. h.unique l t u k (old_owner w l t a o) (old_owner w l u a p);
    unheld = λ l t k o. elim o [
      | inl e ↦ h.unheld l t k (inl (old_place w (acquired l) t (away-acquired w l a) e).1)
      | inr e ↦ h.unheld l t k (inr (old_place w (released l) t (away-released w l a) e).1)
    ];
  }

  -- The semaphore of no lock changes its value.
  pub value-IsExclusive :
      (s n : ℕ) → is_lock s ≡ false → IsExclusive is_lock (record v { value = update s n v.value })
  value-IsExclusive s n f =
      let same : (l : ℕ) → is_lock l ≡ true → update s n v.value l ≡ v.value l =
        λ l k. update_ne s n v.value l (λ q. ground (arith, f, k, ap is_lock q)) in
      record {
        small = λ l k. subst (λ x. x ≤ 1) (sym (same l k)) (h.small l k);
        free = λ l t k z o. h.free l t k (λ q. z (same l k ∙ q)) o;
        unique = h.unique;
        unheld = h.unheld;
        fits = h.fits;
      }

  holder-null : (l : ℕ) → is_lock l ≡ true → v.value l ≢ 0 → v.holder l ≡ 0
  holder-null l k n = elim (ℕ_discrete 0 (v.holder l)) [
    | yes q ↦ sym q
    | no q ↦ absurd (h.free l (v.holder l) k n (inl (refl, q)))
  ]

  -- The running thread takes the value of a lock.
  pub take-IsExclusive :
      (l : ℕ)
      → is_lock l ≡ true
      → v.value l ≢ 0
      → IsExclusive is_lock (record v {
        place = update c (acquired l) v.place;
        value = update l (v.value l - 1) v.value;
      })
  take-IsExclusive l k n =
      let v' : Locks = record v {
        place = update c (acquired l) v.place;
        value = update l (v.value l - 1) v.value;
      } in
      let zero_now : v'.value l ≡ 0 =
        update_self l (v.value l - 1) v.value ∙ omega (arith, h.small l k) in
      let same : (x : ℕ) → l ≢ x → v'.value x ≡ v.value x =
        λ x q. update_ne l (v.value l - 1) v.value x q in
      let old : (x t : ℕ) → l ≢ x → Owns v' t x → Owns v t x = λ x t q o. elim o [
        | inl e ↦ inl e
        | inr (inl e) ↦
            inr (inl (old_place (acquired l) (acquired x) t (λ z. ground (arith, z, q)) e).1)
        | inr (inr e) ↦ inr (inr (old_place (acquired l) (released x) t (λ z. ground arith) e).1)
      ] in
      let mine : (t : ℕ) → Owns v' t l → t ≡ c = λ t o. elim (ℕ_discrete c t) [
        | yes q ↦ sym q
        | no q ↦ absurd (
            h.free l t k n (elim o [
              | inl e ↦ inl e
              | inr (inl e) ↦ inr (inl (sym (update_ne c (acquired l) v.place t q) ∙ e))
              | inr (inr e) ↦ inr (inr (sym (update_ne c (acquired l) v.place t q) ∙ e))
            ]))
      ] in
      record {
        fits = place-PlaceFits (acquired l) k;
        small = λ x j. elim (ℕ_discrete l x) [
          | yes q ↦ subst (λ y. v'.value y ≤ 1) q (subst (λ z. z ≤ 1) (sym zero_now) (omega arith))
          | no q ↦ subst (λ z. z ≤ 1) (sym (same x q)) (h.small x j)
        ];
        free = λ x t j z o. elim (ℕ_discrete l x) [
          | yes q ↦ z (ap v'.value (sym q) ∙ zero_now)
          | no q ↦ h.free x t j (λ r. z (same x q ∙ r)) (old x t q o)
        ];
        unique = λ x t u j o p. elim (ℕ_discrete l x) [
          | yes q ↦
              mine t (subst (Owns v' t) (sym q) o) ∙ sym (mine u (subst (Owns v' u) (sym q) p))
          | no q ↦ h.unique x t u j (old x t q o) (old x u q p)
        ];
        unheld = λ x t j o. elim (ℕ_discrete l x) [
          | yes q ↦ ap v.holder (sym q) ∙ holder-null l k n
          | no q ↦ h.unheld x t j (elim o [
            | inl e ↦ inl (old_place (acquired l) (acquired x) t (λ z. ground (arith, z, q)) e).1
            | inr e ↦ inr (old_place (acquired l) (released x) t (λ z. ground arith) e).1
          ])
        ];
      }
