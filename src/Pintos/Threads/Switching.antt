-- ===== src/Pintos/Threads/Switching.antt =====
-- The choice of the next thread: schedule of Project_3/threads/thread.c.
use system_prog.Base.{
  if_both, ==_iff, ℕ, ◌≡◌, ◌≢◌, refl, sym, subst, ◌∙◌, ◌⊎◌, inl, inr, Bool, true, false, not, ◌&&◌,
  some, List, [], ◌∷◌, arith, All, All-map, Distinct, IsFresh, Member, ◌==◌, ==-false, update,
  update_ne, assert,
}
use system_prog.Pintos.Threads.{
  Status, thread_running, thread_ready, thread_blocked, thread_dying, is_running, is_dying, Kernel,
  is_thread, next_thread_to_run, thread_schedule_tail, switch_threads, schedule,
}
use system_prog.Pintos.Threads.Scheduled.{
  Waits, IsStopped, IsChosen, run_next, run_next-IsScheduled, free-IsScheduled, Succeeds,
}

dying-status : (st : Status) → is_dying st ≡ true → st ≡ thread_dying
dying-status thread_running e = ground arith
dying-status thread_ready e = ground arith
dying-status thread_blocked e = ground arith
dying-status thread_dying e = refl

and-left : (a b : Bool) → (a && b) ≡ true → (a ≡ true) × (b ≡ true)
and-left true b e = (refl, e)
and-left false b e = ground arith

tail-Succeeds :
    (next : ℕ) (k : Kernel)
    → IsChosen next k
    → k.current ≢ next
    → (k.status k.current ≡ thread_dying → k.idle_thread ≢ k.current)
    → Succeeds (thread_schedule_tail k.current (record k { current = next }))
unfolding thread_schedule_tail
tail-Succeeds next k c n l =
    let k1 = run_next next k in
    let v = run_next-IsScheduled next k c in
    let ends =
      not (k.current == 0)
      && is_dying (k1.status k.current)
      && not (k.current == k.initial_thread) in
    if_both Succeeds ends
      (assert (not (k.current == next))
        (some (record k1 { live = update k.current false k1.live })))
      (some k1)
      (λ e.
        let dying =
          dying-status (k1.status k.current)
            (and-left (not (k.current == 0)) (is_dying (k1.status k.current))
              (and-left (not (k.current == 0) && is_dying (k1.status k.current))
                (not (k.current == k.initial_thread)) e).0).1 in
        let before =
          sym (update_ne next thread_running k.status k.current (λ z. n (sym z))) ∙ dying in
        (
          record k1 { live = update k.current false k1.live },
          rw (==-false k.current next n) refl,
          free-IsScheduled k.current k1 dying (l before) v,
        ))
      (λ _. (k1, refl, v))

pub running-false : (st : Status) → st ≢ thread_running → is_running st ≡ false
running-false thread_running n = absurd (n refl)
running-false thread_ready n = refl
running-false thread_blocked n = refl
running-false thread_dying n = refl

-- The thread that is chosen is the one that stopped, and goes on.
same-Succeeds : (k : Kernel) → IsChosen k.current k → Succeeds (thread_schedule_tail 0 k)
unfolding thread_schedule_tail
same-Succeeds k c = (run_next k.current k, refl, run_next-IsScheduled k.current k c)

switched-Succeeds :
    (next : ℕ) (k : Kernel)
    → IsChosen next k
    → (k.status k.current ≡ thread_dying → k.idle_thread ≢ k.current)
    → Succeeds (
        thread_schedule_tail
          (switch_threads k.current next k).0
          (switch_threads k.current next k).1)
unfolding switch_threads
switched-Succeeds next k c l =
    if_both (λ (r : ℕ × Kernel). Succeeds (thread_schedule_tail r.0 r.1)) (k.current == next) (0, k)
      (k.current, record k { current = next })
      (λ e. same-Succeeds k (subst (λ z. IsChosen z k) (sym ((==_iff k.current next).0 e)) c))
      (λ e. tail-Succeeds next k c (λ q. ground arith) l)

schedule-chosen :
    (next : ℕ) (ts : List ℕ) (k : Kernel)
    → next_thread_to_run k ≡ (next, record k { ready_list = ts })
    → IsChosen next (record k { ready_list = ts })
    → (k.status k.current ≡ thread_dying → k.idle_thread ≢ k.current)
    → Succeeds (schedule k)
unfolding schedule
schedule-chosen next ts k e c l =
    rw (e, running-false (k.status k.current) (c.none_runs k.current), c.next_live)
      (switched-Succeeds next (record k { ready_list = ts }) c l)

List-cases : (xs : List ℕ) → (xs ≡ []) ⊎ ((t : ℕ) × (ts : List ℕ) × (xs ≡ t ∷ ts))
List-cases [] = inl refl
List-cases (t ∷ ts) = inr (t, ts, refl)

-- Every list of waiting threads is apart from a thread that is not blocked in a loop.
pub waiters-IsFresh :
    (k : Kernel) (t : ℕ)
    → ((s : ℕ) → All (Waits k s) (k.semaphore s).waiters)
    → ((s : ℕ) → Waits k s t → ⊥)
    → (s : ℕ) → IsFresh t (k.semaphore s).waiters
waiters-IsFresh k t w n s =
    All-map (Waits k s) (λ y. t ≢ y) (k.semaphore s).waiters
      (λ y h q. n s (subst (Waits k s) (sym q) h)) (w s)

-- When the running thread has given up the processor, the scheduler does not panic: it chooses the
-- first ready thread, or the idle thread if there is none, and that thread alone runs.
pub schedule-Succeeds : (k : Kernel) → IsStopped k → Succeeds (schedule k)
unfolding next_thread_to_run is_thread
schedule-Succeeds k h = elim (List-cases k.ready_list) [
  | inl e ↦
      schedule-chosen k.idle_thread k.ready_list k (rw e refl)
        (record {
          kept = h.kept;
          none_runs = h.none_runs;
          next_live = h.kept.idle_live;
          ready_apart = h.kept.idle_apart;
          waiters_apart =
              waiters-IsFresh k k.idle_thread h.kept.waits
                (λ s w. ground (arith, w.1.1, h.kept.idle_outside));
        })
        h.leaves
  | inr (t, ts, e) ↦
      let ready : All (λ x. k.status x ≡ thread_ready) (t ∷ ts) =
        subst (All (λ x. k.status x ≡ thread_ready)) e h.kept.ready_ready in
      let lives : All (λ x. is_thread x k ≡ true) (t ∷ ts) =
        subst (All (λ x. is_thread x k ≡ true)) e h.kept.ready_live in
      let distinct : Distinct (t ∷ ts) = subst Distinct e h.kept.ready_distinct in
      let apart : IsFresh k.idle_thread (t ∷ ts) =
        subst (IsFresh k.idle_thread) e h.kept.idle_apart in
      schedule-chosen t ts k (rw e refl)
        (record {
          kept = record {
            ready_ready = ready.1;
            ready_live = lives.1;
            ready_distinct = distinct.1;
            idle_apart = apart.1;
            all_ready = λ x q. elim (h.kept.all_ready x q) [
              | inl m ↦ elim (subst (Member x) e m) [ inl z ↦ inr (inr z) | inr z ↦ inl z ]
              | inr z ↦ inr (elim z [ inl y ↦ inl y | inr y ↦ inl y ])
            ];
            waits = h.kept.waits;
            waiters_distinct = h.kept.waiters_distinct;
            all_waiting = h.kept.all_waiting;
            idle_live = h.kept.idle_live;
            idle_outside = h.kept.idle_outside;
          };
          none_runs = h.none_runs;
          next_live = lives.0;
          ready_apart = distinct.0;
          waiters_apart = waiters-IsFresh k t h.kept.waits (λ s w. ground (arith, w.0, ready.0));
        })
        h.leaves
]
