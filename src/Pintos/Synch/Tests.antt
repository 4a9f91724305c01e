-- ===== src/Pintos/Synch/Tests.antt =====
-- Tests of Project_3/threads, and its theorems at concrete inputs.
use system_prog.Base.{
  ℕ, ◌≡◌, refl, inl, inr, Bool, true, false, Option, none, some, List, [], ◌∷◌, arith, ◌==◌, update,
  ◌>>=◌,
}
use system_prog.Pintos.Threads.{
  thread_running, thread_ready, thread_blocked, thread_dying, outside, Kernel, is_thread,
  thread_current, next_thread_to_run, thread_schedule_tail, switch_threads, schedule, thread_block,
  thread_unblock, thread_yield,
}
use system_prog.Pintos.Threads.Scheduled.{IsScheduled}
use system_prog.Pintos.Synch.{
  down_round, raise_value, sema_up, lock_acquire, lock_held_by_current_thread, set_holder,
  lock_release, end_release, resume_at, resume, Move, acquire, release, go_on, yield, step,
}
use system_prog.Pintos.Synch.Exclusion.{locks, IsExclusive}
use system_prog.Pintos.Synch.Interleaving.{
  Reached, start, next, lock_owner_unique, reached_step-Succeeds,
}

-- The main thread 1 runs, 3 is ready, and 2 is the idle thread; the lock 10 is free and the
-- semaphore 20 is 0.
abbrev two_threads : Kernel
two_threads = record {
  status =
      update 1 thread_running (update 2 thread_blocked (update 3 thread_ready (λ _. thread_dying)));
  live = update 1 true (update 2 true (update 3 true (λ _. false)));
  priority = λ _. 31;
  tid = λ t. t;
  ready_list = 3 ∷ [];
  all_list = 1 ∷ 2 ∷ 3 ∷ [];
  current = 1;
  idle_thread = 2;
  initial_thread = 1;
  next_tid = 4;
  thread_ticks = 0;
  idle_ticks = 0;
  kernel_ticks = 0;
  semaphore =
      update 10 (record { value = 1; waiters = [] }) (λ _. record { value = 0; waiters = [] });
  holder = λ _. 0;
  place = λ _. outside;
}

abbrev only_lock : ℕ → Bool
only_lock l = l == 10

two_threads-IsScheduled : IsScheduled two_threads
unfolding is_thread
two_threads-IsScheduled = record {
  kept = record {
    ready_ready = (refl, tt);
    ready_live = (refl, tt);
    ready_distinct = (tt, tt);
    idle_apart = ((λ e. omega arith), tt);
    all_ready = λ t e. inl (inl (ground (arith, e)));
    waits = λ s. ground arith;
    waiters_distinct = λ s. ground arith;
    all_waiting = λ t s e w. ground (arith, w);
    idle_live = refl;
    idle_outside = refl;
  };
  runs = refl;
  live = refl;
  alone = λ t e. ground (arith, e);
}

two_threads-IsExclusive : IsExclusive only_lock (locks two_threads)
two_threads-IsExclusive = record {
  small = λ l k. ground arith;
  free = λ l t k n o. elim o [
    | inl (a, m) ↦ m a
    | inr (inl e) ↦ ground (arith, e)
    | inr (inr e) ↦ ground (arith, e)
  ];
  unique = λ l t u k o p. elim o [
    | inl (a, m) ↦ absurd (m a)
    | inr (inl e) ↦ ground (arith, e)
    | inr (inr e) ↦ ground (arith, e)
  ];
  unheld = λ l t k o. refl;
  fits = λ t. tt;
}

abbrev left_by : Option Kernel → Kernel
left_by none = two_threads
left_by (some k) = k

-- The main thread takes the lock, and before it is the holder the other thread runs.
abbrev taken : Kernel
taken = left_by (step (acquire 10) two_threads)

abbrev preempted : Kernel
preempted = left_by (step yield taken)

-- The other thread wants the lock and waits; the main thread becomes the holder and releases it.
abbrev waiting : Kernel
waiting = left_by (step (acquire 10) preempted)

unfoldable runs_on : List Move → Kernel → Option Kernel
runs_on [] k = some k
runs_on (m ∷ ms) k = do k' ← step m k; runs_on ms k'

-- Then the main thread yields, and the other one takes the lock.
unfoldable handed_over : Option (ℕ × ℕ × ℕ)
handed_over = do
  k ← runs_on (go_on ∷ release 10 ∷ go_on ∷ yield ∷ go_on ∷ go_on ∷ []) waiting
  some (k.current, k.holder 10, (k.semaphore 10).value)

handed_over_test : handed_over ≡ some (3, 3, 0)
unfolding handed_over runs_on step lock_acquire lock_held_by_current_thread thread_current is_thread
    down_round thread_yield thread_block schedule next_thread_to_run switch_threads
    thread_schedule_tail resume resume_at set_holder lock_release end_release sema_up thread_unblock
    raise_value
handed_over_test = refl

reached_preempted : Reached only_lock two_threads preempted
unfolding step lock_acquire lock_held_by_current_thread thread_current is_thread down_round
    thread_yield schedule next_thread_to_run switch_threads thread_schedule_tail
reached_preempted =
    next yield (next (acquire 10) start (refl, (λ e. omega arith), refl, (λ e. omega arith)) refl)
      refl refl

abbrev owner : ℕ
owner = 1

lock_owner_unique_example : owner ≡ owner
unfolding step lock_acquire lock_held_by_current_thread thread_current is_thread down_round
    thread_yield schedule next_thread_to_run switch_threads thread_schedule_tail
lock_owner_unique_example =
    lock_owner_unique only_lock two_threads preempted 10 owner owner two_threads-IsScheduled
      two_threads-IsExclusive reached_preempted refl (inr (inl refl)) (inr (inl refl))

reached_step-Succeeds_example :
    (w : Kernel) × (step (acquire 10) preempted ≡ some w) × IsScheduled w
unfolding step lock_acquire lock_held_by_current_thread thread_current is_thread down_round
    thread_yield schedule next_thread_to_run switch_threads thread_schedule_tail
reached_step-Succeeds_example =
    reached_step-Succeeds only_lock two_threads preempted (acquire 10) two_threads-IsScheduled
      two_threads-IsExclusive reached_preempted (refl, (λ e. omega arith), refl, (λ e. omega arith))
