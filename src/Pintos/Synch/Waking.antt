-- ===== src/Pintos/Synch/Waking.antt =====
-- sema_up and the functions of a lock: Project_3/threads/synch.c.
use system_prog.Base.{
  ==-false, ==_self, ℕ, suc, ◌≡◌, ◌≢◌, refl, ap, sym, subst, ◌∙◌, ◌⊎◌, inl, inr, Bool, true, false,
  not, none, some, List, [], ◌∷◌, ◌-◌, arith, All, All-map, Distinct, IsFresh, Member, ◌==◌,
  if_both, if◌then◌else◌, ℕ_discrete, update, update_self, update_ne,
}
use system_prog.Pintos.Threads.{Place, outside, acquired, released, Semaphore, Kernel, is_thread}
use system_prog.Pintos.Threads.Scheduled.{awaits, Waits, IsScheduled, Succeeds}
use system_prog.Pintos.Threads.Stopping.{current-runs}
use system_prog.Pintos.Threads.Unblocking.{IsLoose, made_ready, thread_unblock-made_ready}
use system_prog.Pintos.Synch.{
  set_semaphore, set_place, sema_try_down, raise_value, sema_up, lock_held_by_current_thread,
  set_holder, lock_try_acquire, lock_release, end_release,
}
use system_prog.Pintos.Synch.Waiting.{SameLists, IsScheduled-SameLists, value-waiters}

-- The first waiting thread is taken from the list of `s`.
abbrev pub taken_off : ℕ → List ℕ → Kernel → Kernel
taken_off s ts k = set_semaphore s (record (k.semaphore s) { waiters = ts }) k

taken_off-IsLoose :
    (s t : ℕ) (ts : List ℕ) (k : Kernel)
    → IsScheduled k
    → (k.semaphore s).waiters ≡ t ∷ ts
    → IsLoose t (taken_off s ts k)
unfolding is_thread
taken_off-IsLoose s t ts k h e =
    let u = taken_off s ts k in
    let v : Semaphore = record (k.semaphore s) { waiters = ts } in
    let other : (x : ℕ) → s ≢ x → (u.semaphore x).waiters ≡ (k.semaphore x).waiters =
      λ x q. ap (λ z. z.waiters) (update_ne s v k.semaphore x q) in
    let self : (u.semaphore s).waiters ≡ ts = ap (λ z. z.waiters) (update_self s v k.semaphore) in
    let mine : All (Waits k s) (t ∷ ts) = subst (All (Waits k s)) e (h.kept.waits s) in
    let distinct : Distinct (t ∷ ts) = subst Distinct e (h.kept.waiters_distinct s) in
    let elsewhere : (x : ℕ) → s ≢ x → IsFresh t (k.semaphore x).waiters = λ x q.
      All-map (Waits k x) (λ y. t ≢ y) (k.semaphore x).waiters
        (λ y w z. ground (arith, w.1.1, mine.0.1.1, ap k.place z, q)) (h.kept.waits x) in
    record {
      ready_ready = h.kept.ready_ready;
      ready_live = h.kept.ready_live;
      ready_distinct = h.kept.ready_distinct;
      idle_apart = h.kept.idle_apart;
      all_ready = λ x r. elim (h.kept.all_ready x r) [
        | inl m ↦ inl m
        | inr z ↦ inr (elim z [ inl y ↦ y | inr y ↦ y ])
      ];
      waits = λ x. elim (ℕ_discrete s x) [
        | yes q ↦
            subst (λ y. All (Waits k y) (u.semaphore y).waiters) q
              (subst (All (Waits k s)) (sym self) mine.1)
        | no q ↦ subst (All (Waits k x)) (sym (other x q)) (h.kept.waits x)
      ];
      waiters_distinct = λ x. elim (ℕ_discrete s x) [
        | yes q ↦
            subst (λ y. Distinct (u.semaphore y).waiters) q (subst Distinct (sym self) distinct.1)
        | no q ↦ subst Distinct (sym (other x q)) (h.kept.waiters_distinct x)
      ];
      all_waiting = λ y x n r w.
          let old = h.kept.all_waiting y x r w in
          elim (ℕ_discrete s x) [
            | yes q ↦
                subst (λ z. Member y (u.semaphore z).waiters) q
                  (subst (Member y) (sym self)
                    (elim (subst (Member y) e
                      (subst (λ z. Member y (k.semaphore z).waiters) (sym q) old)) [
                        | inl z ↦ absurd (n (sym z))
                        | inr m ↦ m
                      ]))
            | no q ↦ subst (Member y) (sym (other x q)) old
          ];
      idle_live = h.kept.idle_live;
      idle_outside = h.kept.idle_outside;
      runs = h.runs;
      live = h.live;
      alone = h.alone;
      blocked = mine.0.0;
      blocked_live = mine.0.1.0;
      waiters_apart = λ x. elim (ℕ_discrete s x) [
        | yes q ↦
            subst (λ y. IsFresh t (u.semaphore y).waiters) q
              (subst (IsFresh t) (sym self) distinct.0)
        | no q ↦ subst (IsFresh t) (sym (other x q)) (elsewhere x q)
      ];
      not_idle = λ q. ground (arith, mine.0.1.1, h.kept.idle_outside, ap k.place q);
    }

valued-SameLists :
    (s value : ℕ) (k : Kernel)
    → IsScheduled k
    → SameLists k (set_semaphore s (record (k.semaphore s) { value = value }) k)
valued-SameLists s value k h = record {
  status = refl;
  live = refl;
  ready_list = refl;
  idle = refl;
  current = refl;
  waiters = λ x. value-waiters s value x k;
  place = λ t q. refl;
  idle_place = λ q. ap (λ t. awaits (k.place t)) (sym q) ∙ h.kept.idle_outside;
}

raise_value-IsScheduled : (s : ℕ) (k : Kernel) → IsScheduled k → IsScheduled (raise_value s k)
unfolding raise_value
raise_value-IsScheduled s k h =
    IsScheduled-SameLists k (raise_value s k) (valued-SameLists s (suc (k.semaphore s).value) k h) h

pub List-cases : (xs : List ℕ) → (xs ≡ []) ⊎ ((t : ℕ) × (ts : List ℕ) × (xs ≡ t ∷ ts))
List-cases [] = inl refl
List-cases (t ∷ ts) = inr (t, ts, refl)

-- sema_up does not panic: the first waiting thread, if there is one, becomes ready.
pub sema_up-Succeeds : (s : ℕ) (k : Kernel) → IsScheduled k → Succeeds (sema_up s k)
unfolding sema_up
sema_up-Succeeds s k h = elim (List-cases (k.semaphore s).waiters) [
  | inl e ↦ (raise_value s k, rw (e, sema_up) refl, raise_value-IsScheduled s k h)
  | inr (t, ts, e) ↦
      let (r, v) =
        thread_unblock-made_ready t (taken_off s ts k) (taken_off-IsLoose s t ts k h e) in
      let u = made_ready t (taken_off s ts k) in
      (raise_value s u, rw (e, r, sema_up) refl, raise_value-IsScheduled s u v)
]

pub sema_try_down-IsScheduled :
    (s : ℕ) (k : Kernel) → IsScheduled k → IsScheduled (sema_try_down s k).1
unfolding sema_try_down
sema_try_down-IsScheduled s k h =
    let u = set_semaphore s (record (k.semaphore s) { value = (k.semaphore s).value - 1 }) k in
    if_both (λ (r : Bool × Kernel). IsScheduled r.1) (not ((k.semaphore s).value == 0)) (true, u)
      (false, k)
      (λ _. IsScheduled-SameLists k u (valued-SameLists s ((k.semaphore s).value - 1) k h) h)
      (λ _. h)

-- A change of the running thread's place, outside the loops, and of the holders.
pub moved-IsScheduled :
    (w : Place) (f : ℕ → ℕ) (k : Kernel)
    → awaits w ≡ none
    → IsScheduled k
    → IsScheduled (set_place k.current w (record k { holder = f }))
moved-IsScheduled w f k a h =
    IsScheduled-SameLists k (set_place k.current w (record k { holder = f }))
      (record {
        status = refl;
        live = refl;
        ready_list = refl;
        idle = refl;
        current = refl;
        waiters = λ x. refl;
        place = λ t q. update_ne k.current w k.place t q;
        idle_place = λ _. ap awaits (update_self k.current w k.place) ∙ a;
      })
      h

pub set_holder-Succeeds : (l : ℕ) (k : Kernel) → IsScheduled k → Succeeds (set_holder l k)
unfolding set_holder
set_holder-Succeeds l k h = rw (current-runs k h) (
  set_place k.current outside (record k { holder = update l k.current k.holder }),
  refl,
  moved-IsScheduled outside (update l k.current k.holder) k refl h,
)

pub end_release-Succeeds : (l : ℕ) (k : Kernel) → IsScheduled k → Succeeds (end_release l k)
unfolding end_release
end_release-Succeeds l k h = rw (current-runs k h) (
    sema_up-Succeeds l (set_place k.current outside k)
      (moved-IsScheduled outside k.holder k refl h))

pub lock_release-Succeeds :
    (l : ℕ) (k : Kernel) → k.holder l ≡ k.current → IsScheduled k → Succeeds (lock_release l k)
unfolding lock_release lock_held_by_current_thread
lock_release-Succeeds l k e h =
    rw (current-runs k h, e, ==_self k.current)
      (
        set_place k.current (released l) (record k { holder = update l 0 k.holder }),
        refl,
        moved-IsScheduled (released l) (update l 0 k.holder) k refl h,
      )

try_down-current : (s : ℕ) (k : Kernel) → (sema_try_down s k).1.current ≡ k.current
unfolding sema_try_down
try_down-current s k =
    if_both (λ (r : Bool × Kernel). r.1.current ≡ k.current) (not ((k.semaphore s).value == 0))
      (true, set_semaphore s (record (k.semaphore s) { value = (k.semaphore s).value - 1 }) k)
      (false, k) (λ _. refl) (λ _. refl)

-- The result of lock_try_acquire and the kernel that it leaves.
pub lock_try_acquire-Succeeds :
    (l : ℕ) (k : Kernel)
    → k.holder l ≢ k.current
    → IsScheduled k
    → (b : Bool) × (k' : Kernel) × (lock_try_acquire l k ≡ some (b, k')) × IsScheduled k'
unfolding lock_try_acquire lock_held_by_current_thread
lock_try_acquire-Succeeds l k n h =
    let r = sema_try_down l k in
    let v = sema_try_down-IsScheduled l k h in
    let k' = if r.0 then set_place k.current (acquired l) r.1 else r.1 in
    (
      r.0,
      k',
      rw (current-runs k h, ==-false (k.holder l) k.current n) refl,
      if_both IsScheduled r.0 (set_place k.current (acquired l) r.1) r.1
          (λ _.
            subst (λ t. IsScheduled (set_place t (acquired l) r.1)) (try_down-current l k)
              (moved-IsScheduled (acquired l) r.1.holder r.1 refl v))
          (λ _. v),
    )
