-- ===== src/Pintos/Synch/Locking.antt =====
-- Mutual exclusion in Project_3/threads/synch.c: no two threads own a lock, however they are
-- interleaved.
use system_prog.Base.{
  ℕ, suc, ◌-◌, ◌≡◌, ◌≢◌, refl, fun_ext, ap, sym, subst, ◌∙◌, inl, inr, Bool, true, false, not,
  Option, none, some, List, [], ◌∷◌, ◌++◌, arith, ◌==◌, if_both, Bool-cases, ℕ_discrete, update,
  update_self, update_ne, ◌>>=◌,
}
use system_prog.Pintos.Threads.{
  Place, outside, in_down, in_acquire, acquired, released, Kernel, thread_block, thread_unblock,
}
use system_prog.Pintos.Synch.{
  set_semaphore, set_place, down_round, sema_down, sema_try_down, raise_value, sema_up, set_holder,
  end_release, resume_at,
}
use system_prog.Pintos.Synch.Waking.{List-cases, taken_off}
use system_prog.Pintos.Synch.Exclusion.{
  Locks, locks, IsExclusive, PlaceFits, IsAway, away_outside, away_down, away_acquire,
  away-IsExclusive, value-IsExclusive, take-IsExclusive,
}
use system_prog.Pintos.Synch.Handing.{hold-IsExclusive, give-IsExclusive}
use system_prog.Pintos.Synch.Keeping.{
  After, Keeps, current-After, thread_block-Keeps, thread_unblock-Keeps,
}

abbrev pub values : Kernel → ℕ → ℕ
values k x = (k.semaphore x).value

-- The values after a write to one semaphore.
pub values_after :
    (s n : ℕ) (ws : List ℕ) (k : Kernel)
    → values (set_semaphore s (record { value = n; waiters = ws }) k) ≡ update s n (values k)
values_after s n ws k = fun_ext (λ x. elim (ℕ_discrete s x) [
  | yes q ↦
      ap (λ z. (update s (record { value = n; waiters = ws }) k.semaphore z).value) (sym q)
      ∙ ap (λ z. z.value) (update_self s (record { value = n; waiters = ws }) k.semaphore)
      ∙ sym (update_self s n (values k))
      ∙ ap (update s n (values k)) q
  | no q ↦
      ap (λ z. z.value) (update_ne s (record { value = n; waiters = ws }) k.semaphore x q)
      ∙ sym (update_ne s n (values k) x q)
])

pub same_values :
    (s : ℕ) (ws : List ℕ) (k : Kernel)
    → values (set_semaphore s (record (k.semaphore s) { waiters = ws }) k) ≡ values k
same_values s ws k =
    values_after s (k.semaphore s).value ws k
    ∙ fun_ext (λ x. elim (ℕ_discrete s x) [
      | yes q ↦
          ap (update s (k.semaphore s).value (values k)) (sym q)
          ∙ update_self s (k.semaphore s).value (values k)
          ∙ ap (values k) q
      | no q ↦ update_ne s (k.semaphore s).value (values k) x q
    ])

module _ (is_lock : ℕ → Bool) where
  abbrev pub Exclusive : Kernel → Type 0
  Exclusive k = IsExclusive is_lock (locks k)

  pub Keeps-Exclusive :
      (v : Locks) (o : Option Kernel)
      → IsExclusive is_lock v
      → After (Keeps v) o
      → After Exclusive o
  Keeps-Exclusive v none h m = tt
  Keeps-Exclusive v (some k) h m = subst (IsExclusive is_lock) (sym m) h

  -- The wait in the loop of sema_down.
  queue-Exclusive :
      (s : ℕ) (w : Place) (k : Kernel)
      → IsAway w
      → PlaceFits is_lock w
      → Exclusive k
      → (ws : List ℕ)
      → After Exclusive (
          thread_block
            (set_place k.current w (set_semaphore s (record (k.semaphore s) { waiters = ws }) k)))
  queue-Exclusive s w k a p h ws =
      let u = set_place k.current w (set_semaphore s (record (k.semaphore s) { waiters = ws }) k) in
      Keeps-Exclusive (locks u) (thread_block u)
        (subst
          (λ f.
            IsExclusive is_lock
              (record { holder = k.holder; place = update k.current w k.place; value = f }))
          (sym (same_values s ws k)) (away-IsExclusive is_lock (locks k) h k.current w a p))
        (thread_block-Keeps u)

  down_round-Exclusive :
      (s : ℕ) (w finished : Place) (k : Kernel)
      → IsAway w
      → PlaceFits is_lock w
      → Exclusive k
      → ((k.semaphore s).value ≢ 0
          → IsExclusive is_lock (record (locks k) {
            place = update k.current finished k.place;
            value = update s ((k.semaphore s).value - 1) (values k);
          }))
      → After Exclusive (down_round s w finished k)
  unfolding down_round
  down_round-Exclusive s w finished k a p h f =
      let v = k.semaphore s in
      let next : ℕ → Option Kernel = λ cur. elim (v.value == 0) [
        | true ↦
            thread_block
              (set_place cur w (set_semaphore s (record v { waiters = v.waiters ++ cur ∷ [] }) k))
        | false ↦
            some (set_place cur finished (set_semaphore s (record v { value = v.value - 1 }) k))
      ] in
      current-After Exclusive k next (elim (Bool-cases (v.value == 0)) [
        | inl e ↦ rw e (queue-Exclusive s w k a p h (v.waiters ++ k.current ∷ []))
        | inr e ↦ rw e (
            subst
              (λ g. IsExclusive is_lock (record {
                holder = k.holder;
                place = update k.current finished k.place;
                value = g;
              }))
              (sym (values_after s (v.value - 1) v.waiters k)) (f (λ q. ground (arith, e, q))))
      ])

  abbrev pub raised : ℕ → Locks → Locks
  raised s v = record v { value = update s (suc (v.value s)) v.value }

  raise_value-Exclusive :
      (s : ℕ) (v : Locks) (k : Kernel)
      → IsExclusive is_lock (raised s v)
      → locks k ≡ v
      → Exclusive (raise_value s k)
  unfolding raise_value
  raise_value-Exclusive s v k h e =
      subst (λ g. IsExclusive is_lock (record { holder = k.holder; place = k.place; value = g }))
        (sym (values_after s (suc (values k s)) (k.semaphore s).waiters k))
        (subst (λ u. IsExclusive is_lock (raised s u)) (sym e) h)

  bind-After :
      (P Q : Kernel → Type 0) (o : Option Kernel) (f : Kernel → Option Kernel)
      → After Q o
      → ((k : Kernel) → Q k → After P (f k))
      → After P (o >>= f)
  bind-After P Q none f h g = tt
  bind-After P Q (some k) f h g = g k h

  pub sema_up-Exclusive :
      (s : ℕ) (k : Kernel)
      → IsExclusive is_lock (raised s (locks k))
      → After Exclusive (sema_up s k)
  unfolding sema_up
  sema_up-Exclusive s k h = elim (List-cases (k.semaphore s).waiters) [
    | inl e ↦ subst (After Exclusive) (sym (empty e)) (raise_value-Exclusive s (locks k) k h refl)
    | inr (t, ts, e) ↦
        let u = taken_off s ts k in
        subst (After Exclusive) (sym (first t ts e)) (
          bind-After Exclusive (Keeps (locks u)) (thread_unblock t u)
            (λ k1. some (raise_value s k1)) (thread_unblock-Keeps t u)
            (λ k1 m. raise_value-Exclusive s (locks k) k1 h (
              m
              ∙ ap (λ g. record { holder = k.holder; place = k.place; value = g })
                  (same_values s ts k))))
  ]
    where
      empty : (k.semaphore s).waiters ≡ [] → sema_up s k ≡ some (raise_value s k)
      empty e = rw (e, sema_up) refl

      first :
          (t : ℕ) (ts : List ℕ)
          → (k.semaphore s).waiters ≡ t ∷ ts
          → sema_up s k ≡ (thread_unblock t (taken_off s ts k) >>= λ k1. some (raise_value s k1))
      first t ts e = rw (e, sema_up) refl

  -- The value of a semaphore that belongs to no lock.
  placed_value-IsExclusive :
      (s n : ℕ) (w : Place) (k : Kernel)
      → Exclusive k
      → IsAway w
      → PlaceFits is_lock w
      → is_lock s ≡ false
      → IsExclusive is_lock
          (record (locks k) { place = update k.current w k.place; value = update s n (values k) })
  placed_value-IsExclusive s n w k h a p f =
      value-IsExclusive is_lock (record (locks k) { place = update k.current w k.place })
        (away-IsExclusive is_lock (locks k) h k.current w a p) k.current s n f

  pub sema_down-Exclusive :
      (s : ℕ) (k : Kernel) → is_lock s ≡ false → Exclusive k → After Exclusive (sema_down s k)
  unfolding sema_down
  sema_down-Exclusive s k f h =
      down_round-Exclusive s (in_down s) outside k (away_down s) f h
        (λ _. placed_value-IsExclusive s ((k.semaphore s).value - 1) outside k h away_outside tt f)

  pub acquire_round-Exclusive :
      (l : ℕ) (k : Kernel)
      → is_lock l ≡ true
      → Exclusive k
      → After Exclusive (down_round l (in_acquire l) (acquired l) k)
  acquire_round-Exclusive l k f h =
      down_round-Exclusive l (in_acquire l) (acquired l) k (away_acquire l) f h
        (λ n. take-IsExclusive is_lock (locks k) h k.current l f n)

  pub try_down-Exclusive :
      (s : ℕ) (k : Kernel) → is_lock s ≡ false → Exclusive k → Exclusive (sema_try_down s k).1
  unfolding sema_try_down
  try_down-Exclusive s k f h =
      let n = (k.semaphore s).value - 1 in
      let u = set_semaphore s (record (k.semaphore s) { value = n }) k in
      if_both (λ (r : Bool × Kernel). Exclusive r.1) (not ((k.semaphore s).value == 0)) (true, u)
        (false, k)
        (λ _.
          subst
            (λ g. IsExclusive is_lock (record { holder = k.holder; place = k.place; value = g }))
            (sym (values_after s n (k.semaphore s).waiters k))
            (value-IsExclusive is_lock (locks k) h k.current s n f))
        (λ _. h)

  set_holder-Exclusive :
      (l : ℕ) (k : Kernel)
      → k.place k.current ≡ acquired l
      → Exclusive k
      → After Exclusive (set_holder l k)
  unfolding set_holder
  set_holder-Exclusive l k e h =
      current-After Exclusive k
        (λ cur. some (set_place cur outside (record k { holder = update l cur k.holder })))
        (hold-IsExclusive is_lock (locks k) h k.current l
          (subst (PlaceFits is_lock) e (h.fits k.current)) e)

  end_release-Exclusive :
      (l : ℕ) (k : Kernel)
      → k.place k.current ≡ released l
      → Exclusive k
      → After Exclusive (end_release l k)
  unfolding end_release
  end_release-Exclusive l k e h =
      current-After Exclusive k (λ cur. sema_up l (set_place cur outside k))
        (sema_up-Exclusive l (set_place k.current outside k) (
          give-IsExclusive is_lock (locks k) h k.current l
            (subst (PlaceFits is_lock) e (h.fits k.current)) e))

  pub resume_at-Exclusive :
      (w : Place) (k : Kernel)
      → k.place k.current ≡ w
      → Exclusive k
      → After Exclusive (resume_at w k)
  unfolding resume_at
  resume_at-Exclusive outside k e h = h
  resume_at-Exclusive (in_down s) k e h =
      sema_down-Exclusive s k (subst (PlaceFits is_lock) e (h.fits k.current)) h
  resume_at-Exclusive (in_acquire l) k e h =
      acquire_round-Exclusive l k (subst (PlaceFits is_lock) e (h.fits k.current)) h
  resume_at-Exclusive (acquired l) k e h = set_holder-Exclusive l k e h
  resume_at-Exclusive (released l) k e h = end_release-Exclusive l k e h
