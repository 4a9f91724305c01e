-- ===== src/Pintos/Synch/Moves.antt =====
-- The threads of Project_3/threads/synch.c interleaved: every move of the running thread.
use system_prog.Base.{ℕ, ◌≤◌, ◌≡◌, ◌≢◌, refl, ap, Bool, true, false, none, some, arith, ==-false}
use system_prog.Pintos.Threads.{Place, outside, in_down, in_acquire, acquired, released, Kernel}
use system_prog.Pintos.Threads.Scheduled.{awaits, IsScheduled, Succeeds}
use system_prog.Pintos.Threads.Stopping.{
  current-runs, thread_block-Succeeds, thread_exit-Succeeds, thread_yield-Succeeds,
}
use system_prog.Pintos.Threads.Unblocking.{thread_create-IsScheduled, started, made_ready}
use system_prog.Pintos.Threads
use system_prog.Pintos.Synch.{
  sema_down, sema_try_down, lock_acquire, lock_held_by_current_thread, resume_at, resume, Move,
  down, up, try_down, acquire, try_acquire, release, go_on, yield, exit, block, create, step,
}
use system_prog.Pintos.Synch.Waiting.{down_round-Succeeds}
use system_prog.Pintos.Synch.Waking.{
  sema_up-Succeeds, sema_try_down-IsScheduled, set_holder-Succeeds, end_release-Succeeds,
  lock_release-Succeeds, lock_try_acquire-Succeeds,
}

module _ (is_lock : ℕ → Bool) where
  -- When the running thread may make a move: it is not inside a function of synch.c, the idle thread
  -- neither waits nor ends, the semaphore of a lock is used by the lock's functions alone, a lock is
  -- acquired by a thread that does not hold it and released by one that does, and a new thread gets a
  -- page that is no thread's. Where interrupts are off, the thread can only go on.
  abbrev pub Allowed : Move → Kernel → Type 0
  Allowed (down s) k =
      (k.place k.current ≡ outside) × (k.idle_thread ≢ k.current) × (is_lock s ≡ false)
  Allowed (up s) k = (k.place k.current ≡ outside) × (is_lock s ≡ false)
  Allowed (try_down s) k = (k.place k.current ≡ outside) × (is_lock s ≡ false)
  Allowed (acquire l) k =
      (k.place k.current ≡ outside)
      × (k.idle_thread ≢ k.current)
      × (is_lock l ≡ true)
      × (k.holder l ≢ k.current)
  Allowed (try_acquire l) k =
      (k.place k.current ≡ outside) × (is_lock l ≡ true) × (k.holder l ≢ k.current)
  Allowed (release l) k =
      (k.place k.current ≡ outside) × (is_lock l ≡ true) × (k.holder l ≡ k.current)
  Allowed go_on k = k.place k.current ≢ outside
  Allowed yield k = awaits (k.place k.current) ≡ none
  Allowed exit k = (k.place k.current ≡ outside) × (k.idle_thread ≢ k.current)
  Allowed block k = k.place k.current ≡ outside
  Allowed (create none priority) k = k.place k.current ≡ outside
  Allowed (create (some t) priority) k =
      (k.place k.current ≡ outside) × (0 ≢ t) × (k.live t ≡ false) × (priority ≤ 63)

  sema_down-Succeeds :
      (s : ℕ) (k : Kernel) → k.idle_thread ≢ k.current → IsScheduled k → Succeeds (sema_down s k)
  unfolding sema_down
  sema_down-Succeeds s k i h = down_round-Succeeds s (in_down s) outside k refl i h

  lock_acquire-Succeeds :
      (l : ℕ) (k : Kernel)
      → k.idle_thread ≢ k.current
      → k.holder l ≢ k.current
      → IsScheduled k
      → Succeeds (lock_acquire l k)
  unfolding lock_acquire lock_held_by_current_thread
  lock_acquire-Succeeds l k i n h =
      rw (current-runs k h, ==-false (k.holder l) k.current n)
        (down_round-Succeeds l (in_acquire l) (acquired l) k refl i h)

  -- A thread that is inside a loop of sema_down is not the idle thread.
  waiting-not_idle :
      (k : Kernel) (s : ℕ)
      → IsScheduled k
      → awaits (k.place k.current) ≡ some s
      → k.idle_thread ≢ k.current
  waiting-not_idle k s h e q = ground (arith, e, h.kept.idle_outside, ap k.place q)

  resume_at-Succeeds :
      (w : Place) (k : Kernel) → k.place k.current ≡ w → IsScheduled k → Succeeds (resume_at w k)
  unfolding resume_at
  resume_at-Succeeds outside k e h = (k, refl, h)
  resume_at-Succeeds (in_down s) k e h =
      sema_down-Succeeds s k (waiting-not_idle k s h (ap awaits e)) h
  resume_at-Succeeds (in_acquire l) k e h =
      down_round-Succeeds l (in_acquire l) (acquired l) k refl
        (waiting-not_idle k l h (ap awaits e)) h
  resume_at-Succeeds (acquired l) k e h = set_holder-Succeeds l k h
  resume_at-Succeeds (released l) k e h = end_release-Succeeds l k h

  no_page-Succeeds :
      (priority : ℕ) (k : Kernel) → IsScheduled k → Succeeds (step (create none priority) k)
  unfolding step Threads.thread_create
  no_page-Succeeds priority k h = (k, refl, h)

  -- Whatever move the running thread may make next, no ASSERT of the scheduler fails, and afterwards
  -- again exactly one thread runs, the ready list holds each ready thread once (but for the idle
  -- thread), and the list of each semaphore holds the threads that are blocked in its loop, each once.
  pub step-Succeeds : (m : Move) (k : Kernel) → Allowed m k → IsScheduled k → Succeeds (step m k)
  unfolding step resume
  step-Succeeds (down s) k a h = sema_down-Succeeds s k a.1 h
  step-Succeeds (up s) k a h = sema_up-Succeeds s k h
  step-Succeeds (try_down s) k a h = ((sema_try_down s k).1, refl, sema_try_down-IsScheduled s k h)
  step-Succeeds (acquire l) k a h = lock_acquire-Succeeds l k a.1 a.3 h
  step-Succeeds (try_acquire l) k a h =
      let (b, k', e, v) = lock_try_acquire-Succeeds l k a.2 h in (k', rw e refl, v)
  step-Succeeds (release l) k a h = lock_release-Succeeds l k a.2 h
  step-Succeeds go_on k a h = resume_at-Succeeds (k.place k.current) k refl h
  step-Succeeds yield k a h = thread_yield-Succeeds k h
  step-Succeeds exit k a h = thread_exit-Succeeds k h a.1
  step-Succeeds block k a h = thread_block-Succeeds k h (ap awaits a)
  step-Succeeds (create none priority) k a h = no_page-Succeeds priority k h
  step-Succeeds (create (some t) priority) k a h =
      let (e, v) = thread_create-IsScheduled t priority k a.1 a.3 a.2 h in
      (made_ready t (started t priority k), rw e refl, v)
