-- ===== src/Pintos/Threads/Stopping.antt =====
-- The ways in which the running thread gives up the processor: thread_block, thread_yield and
-- thread_exit of Project_3/threads/thread.c, and the wait in sema_down of Project_3/threads/synch.c.
use system_prog.Base.{
  ℕ, ◌≡◌, ◌≢◌, refl, ap, sym, subst, ◌∙◌, inl, inr, true, not, none, some, List, [], ◌∷◌, ◌++◌,
  append-nil, arith, All, All-append, All-map, All-both, Distinct, Distinct-insert, IsFresh, Member,
  Member-append, Member-last, ◌==◌, if_both, ℕ_discrete, update, update_self, update_ne,
}
use system_prog.Pintos.Threads.{
  Status, thread_running, thread_ready, thread_blocked, thread_dying, Kernel, set_status, is_thread,
  thread_current, schedule, thread_block, thread_yield, thread_exit, remove_from,
}
use system_prog.Pintos.Threads.Scheduled.{awaits, Waits, IsScheduled, IsStopped, Succeeds}
use system_prog.Pintos.Threads.Switching.{waiters-IsFresh, schedule-Succeeds}

pub current-runs : (k : Kernel) → IsScheduled k → thread_current k ≡ some k.current
unfolding thread_current
current-runs k h = rw (h.live, h.runs) refl

-- The running thread is on no list.
pub ready-IsFresh : (k : Kernel) → IsScheduled k → IsFresh k.current k.ready_list
ready-IsFresh k h =
    All-map (λ t. k.status t ≡ thread_ready) (λ t. k.current ≢ t) k.ready_list
      (λ t r q. ground (arith, r, h.runs, ap k.status q)) h.kept.ready_ready

pub current-IsFresh :
    (k : Kernel) → IsScheduled k → (s : ℕ) → IsFresh k.current (k.semaphore s).waiters
current-IsFresh k h = waiters-IsFresh k k.current h.kept.waits (λ s w. ground (arith, w.0, h.runs))

-- Another status than the new one is an old status of another thread.
pub old_status :
    (f : ℕ → Status) (c t : ℕ) (st v : Status) → v ≢ st → update c st f t ≡ v → (c ≢ t) × (f t ≡ v)
old_status f c t st v n e = elim (ℕ_discrete c t) [
  | yes q ↦ absurd (n (sym e ∙ ap (update c st f) (sym q) ∙ update_self c st f))
  | no q ↦ (q, sym (update_ne c st f t q) ∙ e)
]

pub stopped-none_runs :
    (st : Status) (k : Kernel)
    → IsScheduled k
    → st ≢ thread_running
    → (t : ℕ) → update k.current st k.status t ≢ thread_running
stopped-none_runs st k h n t e =
    let (q, r) = old_status k.status k.current t st thread_running (λ z. n (sym z)) e in
    q (sym (h.alone t r))

pub still_ready :
    (st : Status) (k : Kernel)
    → IsScheduled k
    → All (λ t. update k.current st k.status t ≡ thread_ready) k.ready_list
still_ready st k h =
    All-map (λ t. (k.current ≢ t) × (k.status t ≡ thread_ready))
      (λ t. update k.current st k.status t ≡ thread_ready) k.ready_list
      (λ t a. update_ne k.current st k.status t a.0 ∙ a.1)
      (All-both (λ t. k.current ≢ t) (λ t. k.status t ≡ thread_ready) k.ready_list
        (ready-IsFresh k h) h.kept.ready_ready)

pub still-Waits :
    (st : Status) (k : Kernel) (s : ℕ)
    → IsScheduled k
    → All (Waits (set_status k.current st k) s) (k.semaphore s).waiters
unfolding is_thread
still-Waits st k s h =
    All-map (λ t. (k.current ≢ t) × Waits k s t) (Waits (set_status k.current st k) s)
      (k.semaphore s).waiters (λ t a. (update_ne k.current st k.status t a.0 ∙ a.1.0, a.1.1))
      (All-both (λ t. k.current ≢ t) (Waits k s) (k.semaphore s).waiters (current-IsFresh k h s)
        (h.kept.waits s))

block-IsStopped :
    (k : Kernel)
    → IsScheduled k
    → awaits (k.place k.current) ≡ none
    → IsStopped (set_status k.current thread_blocked k)
unfolding is_thread
block-IsStopped k h o = record {
  kept = record {
    ready_ready = still_ready thread_blocked k h;
    ready_live = h.kept.ready_live;
    ready_distinct = h.kept.ready_distinct;
    idle_apart = h.kept.idle_apart;
    all_ready = λ t e.
        h.kept.all_ready t
          (old_status k.status k.current t thread_blocked thread_ready (λ z. ground arith) e).1;
    waits = λ s. still-Waits thread_blocked k s h;
    waiters_distinct = h.kept.waiters_distinct;
    all_waiting = λ t s e w. elim (ℕ_discrete k.current t) [
      | yes q ↦ ground (arith, w, o, ap k.place q)
      | no q ↦ h.kept.all_waiting t s (sym (update_ne k.current thread_blocked k.status t q) ∙ e) w
    ];
    idle_live = h.kept.idle_live;
    idle_outside = h.kept.idle_outside;
  };
  none_runs = stopped-none_runs thread_blocked k h (λ z. ground arith);
  leaves = λ e. ground (arith, e, update_self k.current thread_blocked k.status);
}

exit-IsStopped :
    (k : Kernel)
    → IsScheduled k
    → k.idle_thread ≢ k.current
    → IsStopped (
        set_status k.current thread_dying
          (record k { all_list = remove_from k.all_list k.current }))
unfolding is_thread
exit-IsStopped k h i = record {
  kept = record {
    ready_ready = still_ready thread_dying k h;
    ready_live = h.kept.ready_live;
    ready_distinct = h.kept.ready_distinct;
    idle_apart = h.kept.idle_apart;
    all_ready = λ t e.
        h.kept.all_ready t
          (old_status k.status k.current t thread_dying thread_ready (λ z. ground arith) e).1;
    waits = λ s. still-Waits thread_dying k s h;
    waiters_distinct = h.kept.waiters_distinct;
    all_waiting = λ t s e w.
        h.kept.all_waiting t s
          (old_status k.status k.current t thread_dying thread_blocked (λ z. ground arith) e).1 w;
    idle_live = h.kept.idle_live;
    idle_outside = h.kept.idle_outside;
  };
  none_runs = stopped-none_runs thread_dying k h (λ z. ground arith);
  leaves = λ _. i;
}

pub Distinct-snoc : (x : ℕ) (xs : List ℕ) → Distinct xs → IsFresh x xs → Distinct (xs ++ x ∷ [])
Distinct-snoc x xs d f =
    Distinct-insert x xs [] (subst Distinct (sym (append-nil xs)) d)
      (subst (IsFresh x) (sym (append-nil xs)) f)

pushed-IsStopped :
    (k : Kernel)
    → IsScheduled k
    → k.idle_thread ≢ k.current
    → IsStopped (
        set_status k.current thread_ready
          (record k { ready_list = k.ready_list ++ k.current ∷ [] }))
unfolding is_thread
pushed-IsStopped k h i = record {
  kept = record {
    ready_ready =
        All-append (λ t. update k.current thread_ready k.status t ≡ thread_ready) k.ready_list
          (k.current ∷ []) (still_ready thread_ready k h)
          (update_self k.current thread_ready k.status, tt);
    ready_live =
        All-append (λ t. is_thread t k ≡ true) k.ready_list (k.current ∷ []) h.kept.ready_live
          (h.live, tt);
    ready_distinct = Distinct-snoc k.current k.ready_list h.kept.ready_distinct (ready-IsFresh k h);
    idle_apart =
        All-append (λ t. k.idle_thread ≢ t) k.ready_list (k.current ∷ []) h.kept.idle_apart (i, tt);
    all_ready = λ t e. elim (ℕ_discrete k.current t) [
      | yes q ↦ inl (
          subst (λ x. Member x (k.ready_list ++ k.current ∷ [])) q
            (Member-last k.current k.ready_list))
      | no q ↦ elim (h.kept.all_ready t (sym (update_ne k.current thread_ready k.status t q) ∙ e)) [
        | inl m ↦ inl (Member-append t k.ready_list (k.current ∷ []) m)
        | inr z ↦ inr z
      ]
    ];
    waits = λ s. still-Waits thread_ready k s h;
    waiters_distinct = h.kept.waiters_distinct;
    all_waiting = λ t s e w.
        h.kept.all_waiting t s
          (old_status k.status k.current t thread_ready thread_blocked (λ z. ground arith) e).1 w;
    idle_live = h.kept.idle_live;
    idle_outside = h.kept.idle_outside;
  };
  none_runs = stopped-none_runs thread_ready k h (λ z. ground arith);
  leaves = λ _. i;
}

-- The idle thread that yields is on no list, but runs again when no other thread is ready.
idle-IsStopped :
    (k : Kernel)
    → IsScheduled k
    → k.current ≡ k.idle_thread
    → IsStopped (set_status k.current thread_ready k)
unfolding is_thread
idle-IsStopped k h i = record {
  kept = record {
    ready_ready = still_ready thread_ready k h;
    ready_live = h.kept.ready_live;
    ready_distinct = h.kept.ready_distinct;
    idle_apart = h.kept.idle_apart;
    all_ready = λ t e. elim (ℕ_discrete k.current t) [
      | yes q ↦ inr (inl (sym q ∙ i))
      | no q ↦ h.kept.all_ready t (sym (update_ne k.current thread_ready k.status t q) ∙ e)
    ];
    waits = λ s. still-Waits thread_ready k s h;
    waiters_distinct = h.kept.waiters_distinct;
    all_waiting = λ t s e w.
        h.kept.all_waiting t s
          (old_status k.status k.current t thread_ready thread_blocked (λ z. ground arith) e).1 w;
    idle_live = h.kept.idle_live;
    idle_outside = h.kept.idle_outside;
  };
  none_runs = stopped-none_runs thread_ready k h (λ z. ground arith);
  leaves = λ e. ground (arith, e, update_self k.current thread_ready k.status);
}

pub thread_block-Succeeds :
    (k : Kernel) → IsScheduled k → awaits (k.place k.current) ≡ none → Succeeds (thread_block k)
unfolding thread_block
thread_block-Succeeds k h o =
    rw (current-runs k h)
      (schedule-Succeeds (set_status k.current thread_blocked k) (block-IsStopped k h o))

pub thread_exit-Succeeds :
    (k : Kernel) → IsScheduled k → k.idle_thread ≢ k.current → Succeeds (thread_exit k)
unfolding thread_exit
thread_exit-Succeeds k h i = rw (current-runs k h) (
    schedule-Succeeds
      (set_status k.current thread_dying (record k { all_list = remove_from k.all_list k.current }))
      (exit-IsStopped k h i))

pub thread_yield-Succeeds : (k : Kernel) → IsScheduled k → Succeeds (thread_yield k)
unfolding thread_yield
thread_yield-Succeeds k h = rw (current-runs k h) (
    if_both (λ (u : Kernel). Succeeds (schedule (set_status k.current thread_ready u)))
      (not (k.current == k.idle_thread)) (record k { ready_list = k.ready_list ++ k.current ∷ [] })
      k
      (λ e.
        schedule-Succeeds
          (set_status k.current thread_ready
            (record k { ready_list = k.ready_list ++ k.current ∷ [] }))
          (pushed-IsStopped k h (λ q. ground arith)))
      (λ e.
        schedule-Succeeds (set_status k.current thread_ready k)
          (idle-IsStopped k h (ground arith))))
