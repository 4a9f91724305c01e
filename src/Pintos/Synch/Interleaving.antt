-- ===== src/Pintos/Synch/Interleaving.antt =====
-- Runs of the threads of Project_3/threads/synch.c, one move after the other.
use system_prog.Base.{
  ℕ, suc, ◌-◌, ◌≡◌, ◌≢◌, refl, sym, subst, ◌∙◌, inl, inr, Bool, true, Option, none, some, arith,
  ◌==◌, ==-false, ==_self, if◌then◌else◌, Bool-cases, update,
}
use system_prog.Pintos.Threads.{
  outside, acquired, Kernel, is_thread, thread_block, thread_exit, thread_yield, thread_create,
}
use system_prog.Pintos.Threads.Scheduled.{IsScheduled}
use system_prog.Pintos.Threads.Stopping.{current-runs}
use system_prog.Pintos.Threads.Unblocking.{thread_create-IsScheduled}
use system_prog.Pintos.Synch.{
  set_place, sema_try_down, lock_acquire, lock_try_acquire, lock_held_by_current_thread,
  lock_release, resume, Move, down, up, try_down, acquire, try_acquire, release, go_on, yield, exit,
  block, create, step,
}
use system_prog.Pintos.Synch.Moves.{Allowed, step-Succeeds}
use system_prog.Pintos.Synch.Exclusion.{
  locks, Owns, IsExclusive, away_outside, away-IsExclusive, value-IsExclusive, take-IsExclusive,
}
use system_prog.Pintos.Synch.Handing.{drop-IsExclusive}
use system_prog.Pintos.Synch.Keeping.{
  After, thread_block-Keeps, thread_exit-Keeps, thread_yield-Keeps,
}
use system_prog.Pintos.Synch.Locking.{
  values, values_after, Exclusive, Keeps-Exclusive, sema_up-Exclusive, sema_down-Exclusive,
  acquire_round-Exclusive, try_down-Exclusive, resume_at-Exclusive,
}

not_null : (t : ℕ) (k : Kernel) → is_thread t k ≡ true → 0 ≢ t
unfolding is_thread
not_null t k e q = ground (arith, e, q)

module _ (is_lock : ℕ → Bool) where
  lock_acquire-Exclusive :
      (l : ℕ) (k : Kernel)
      → is_lock l ≡ true
      → k.holder l ≢ k.current
      → IsScheduled k
      → Exclusive is_lock k
      → After (Exclusive is_lock) (lock_acquire l k)
  unfolding lock_acquire lock_held_by_current_thread
  lock_acquire-Exclusive l k f n v h =
      rw (current-runs k v, ==-false (k.holder l) k.current n)
        (acquire_round-Exclusive is_lock l k f h)

  tried-Exclusive :
      (l : ℕ) (k : Kernel)
      → is_lock l ≡ true
      → Exclusive is_lock k
      → Exclusive is_lock (
          if (sema_try_down l k).0
          then set_place k.current (acquired l) (sema_try_down l k).1
          else (sema_try_down l k).1)
  unfolding sema_try_down
  tried-Exclusive l k f h = elim (Bool-cases ((k.semaphore l).value == 0)) [
    | inl e ↦ rw e h
    | inr e ↦
        let n = (k.semaphore l).value - 1 in
        rw e (
          subst
            (λ g. IsExclusive is_lock (record {
              holder = k.holder;
              place = update k.current (acquired l) k.place;
              value = g;
            }))
            (sym (values_after l n (k.semaphore l).waiters k))
            (take-IsExclusive is_lock (locks k) h k.current l f (λ q. ground (arith, e, q))))
  ]

  lock_try_acquire-Exclusive :
      (l : ℕ) (k : Kernel)
      → is_lock l ≡ true
      → k.holder l ≢ k.current
      → IsScheduled k
      → Exclusive is_lock k
      → After (Exclusive is_lock) (step (try_acquire l) k)
  unfolding step lock_try_acquire lock_held_by_current_thread
  lock_try_acquire-Exclusive l k f n v h =
      rw (current-runs k v, ==-false (k.holder l) k.current n) (tried-Exclusive l k f h)

  lock_release-Exclusive :
      (l : ℕ) (k : Kernel)
      → is_lock l ≡ true
      → k.holder l ≡ k.current
      → IsScheduled k
      → Exclusive is_lock k
      → After (Exclusive is_lock) (lock_release l k)
  unfolding lock_release lock_held_by_current_thread
  lock_release-Exclusive l k f e v h =
      rw (current-runs k v, e, ==_self k.current)
        (drop-IsExclusive is_lock (locks k) h k.current l f (not_null k.current k v.live) e)

  no_page-Exclusive :
      (priority : ℕ) (k : Kernel)
      → Exclusive is_lock k
      → After (Exclusive is_lock) (step (create none priority) k)
  unfolding step thread_create
  no_page-Exclusive priority k h = h

  create-Exclusive :
      (page : Option ℕ) (priority : ℕ) (k : Kernel)
      → Allowed is_lock (create page priority) k
      → IsScheduled k
      → Exclusive is_lock k
      → After (Exclusive is_lock) (step (create page priority) k)
  unfolding step
  create-Exclusive none priority k a v h = no_page-Exclusive priority k h
  create-Exclusive (some t) priority k a v h =
      let (e, _) = thread_create-IsScheduled t priority k a.1 a.3 a.2 v in
      rw e (away-IsExclusive is_lock (locks k) h t outside away_outside tt)

  step-Exclusive :
      (m : Move) (k : Kernel)
      → Allowed is_lock m k
      → IsScheduled k
      → Exclusive is_lock k
      → After (Exclusive is_lock) (step m k)
  unfolding step resume
  step-Exclusive (down s) k a v h = sema_down-Exclusive is_lock s k a.2 h
  step-Exclusive (up s) k a v h =
      sema_up-Exclusive is_lock s k
        (value-IsExclusive is_lock (locks k) h k.current s (suc (values k s)) a.1)
  step-Exclusive (try_down s) k a v h = try_down-Exclusive is_lock s k a.1 h
  step-Exclusive (acquire l) k a v h = lock_acquire-Exclusive l k a.2 a.3 v h
  step-Exclusive (try_acquire l) k a v h = lock_try_acquire-Exclusive l k a.1 a.2 v h
  step-Exclusive (release l) k a v h = lock_release-Exclusive l k a.1 a.2 v h
  step-Exclusive go_on k a v h = resume_at-Exclusive is_lock (k.place k.current) k refl h
  step-Exclusive yield k a v h =
      Keeps-Exclusive is_lock (locks k) (thread_yield k) h (thread_yield-Keeps k)
  step-Exclusive exit k a v h =
      Keeps-Exclusive is_lock (locks k) (thread_exit k) h (thread_exit-Keeps k)
  step-Exclusive block k a v h =
      Keeps-Exclusive is_lock (locks k) (thread_block k) h (thread_block-Keeps k)
  step-Exclusive (create page priority) k a v h = create-Exclusive page priority k a v h

  -- The kernels that the moves lead to.
  pub data Reached (k : Kernel) : Kernel → Type 0 where
    start : Reached k k
    next :
        {u w : Kernel} (m : Move)
        → Reached k u
        → Allowed is_lock m u
        → step m u ≡ some w
        → Reached k w

  some_inj : (a b : Kernel) → some a ≡ some b → a ≡ b
  some_inj a b e = ground (arith, e)

  Reached-IsScheduled :
      (k u : Kernel)
      → IsScheduled k
      → Exclusive is_lock k
      → Reached k u
      → IsScheduled u × Exclusive is_lock u
  Reached-IsScheduled k _ v h start = (v, h)
  Reached-IsScheduled k _ v h (next {u} {w} m r a e) =
      let (vu, hu) = Reached-IsScheduled k u v h r in
      let (w', f, vw) = step-Succeeds is_lock m u a vu in
      (
        subst IsScheduled (some_inj w' w (sym f ∙ e)) vw,
        subst (After (Exclusive is_lock)) e (step-Exclusive m u a vu hu),
      )

  -- Mutual exclusion: however the threads are interleaved from a kernel in which no lock is owned
  -- yet, or is owned by one thread, and whatever threads are created, end, wait and yield, at most
  -- one thread is between the return of sema_down in lock_acquire and the sema_up of lock_release of
  -- the same lock.
  pub lock_owner_unique :
      (k u : Kernel) (l t t' : ℕ)
      → IsScheduled k
      → Exclusive is_lock k
      → Reached k u
      → is_lock l ≡ true
      → Owns (locks u) t l
      → Owns (locks u) t' l
      → t ≡ t'
  lock_owner_unique k u l t t' v h r f o p = (Reached-IsScheduled k u v h r).1.unique l t t' f o p

  -- The scheduler does not get stuck: after any interleaving of allowed moves, any move that the
  -- running thread may make next is made without a failing ASSERT, one thread runs afterwards, and
  -- no ready thread is lost from the ready list, nor a blocked one from the list of its semaphore.
  pub reached_step-Succeeds :
      (k u : Kernel) (m : Move)
      → IsScheduled k
      → Exclusive is_lock k
      → Reached k u
      → Allowed is_lock m u
      → (w : Kernel) × (step m u ≡ some w) × IsScheduled w
  reached_step-Succeeds k u m v h r a =
      step-Succeeds is_lock m u a (Reached-IsScheduled k u v h r).0
