-- ===== src/Pintos/Threads/Scheduled.antt =====
-- The scheduler of Project_3/threads/thread.c: one thread runs, and the lists hold the others.
use system_prog.Base.{
  ℕ, ◌≡◌, ◌≢◌, ap, sym, ◌∙◌, ◌⊎◌, inl, inr, true, false, not, ◌&&◌, Option, none, some, List, [],
  ◌∷◌, arith, All, All-map, All-both, Distinct, IsFresh, Member, ◌==◌, ℕ_discrete, update,
  update_self, update_ne,
}
use system_prog.Pintos.Threads.{
  Status, thread_running, thread_ready, thread_blocked, thread_dying, Place, outside, in_down,
  in_acquire, acquired, released, Kernel, set_status, is_thread,
}

-- The semaphore whose list a thread is put on at its place.
abbrev pub awaits : Place → Option ℕ
awaits outside = none
awaits (in_down s) = some s
awaits (in_acquire l) = some l
awaits (acquired l) = none
awaits (released l) = none

-- A thread on the list of the semaphore `s`.
abbrev pub Waits : Kernel → ℕ → ℕ → Type 0
Waits k s t =
    (k.status t ≡ thread_blocked) × ((is_thread t k ≡ true) × (awaits (k.place t) ≡ some s))

-- The ready list holds the threads that are ready, but for the idle thread and `next`, and the list
-- of a semaphore holds the threads that are blocked in its loop, all of them once.
pub record IsKept (next : ℕ) (k : Kernel) : Type 0 where
  pub ready_ready : All (λ t. k.status t ≡ thread_ready) k.ready_list
  pub ready_live : All (λ t. is_thread t k ≡ true) k.ready_list
  pub ready_distinct : Distinct k.ready_list
  pub idle_apart : IsFresh k.idle_thread k.ready_list
  pub all_ready :
      (t : ℕ)
      → k.status t ≡ thread_ready
      → Member t k.ready_list ⊎ ((t ≡ k.idle_thread) ⊎ (t ≡ next))
  pub waits : (s : ℕ) → All (Waits k s) (k.semaphore s).waiters
  pub waiters_distinct : (s : ℕ) → Distinct (k.semaphore s).waiters
  pub all_waiting :
      (t s : ℕ)
      → k.status t ≡ thread_blocked
      → awaits (k.place t) ≡ some s
      → Member t (k.semaphore s).waiters
  pub idle_live : is_thread k.idle_thread k ≡ true
  pub idle_outside : awaits (k.place k.idle_thread) ≡ none

-- One thread runs; no ready thread is lost.
pub record IsScheduled (k : Kernel) : Type 0 where
  pub kept : IsKept k.idle_thread k
  pub runs : k.status k.current ≡ thread_running
  pub live : is_thread k.current k ≡ true
  pub alone : (t : ℕ) → k.status t ≡ thread_running → t ≡ k.current

-- Between the change of the running thread's status and the choice of the next, none runs.
pub record IsStopped (k : Kernel) : Type 0 where
  pub kept : IsKept k.idle_thread k
  pub none_runs : (t : ℕ) → k.status t ≢ thread_running
  pub leaves : k.status k.current ≡ thread_dying → k.idle_thread ≢ k.current

-- The thread `next` has been chosen.
pub record IsChosen (next : ℕ) (k : Kernel) : Type 0 where
  pub kept : IsKept next k
  pub none_runs : (t : ℕ) → k.status t ≢ thread_running
  pub next_live : is_thread next k ≡ true
  pub ready_apart : IsFresh next k.ready_list
  pub waiters_apart : (s : ℕ) → IsFresh next (k.semaphore s).waiters

abbrev pub run_next : ℕ → Kernel → Kernel
run_next next k = record (set_status next thread_running (record k { current = next })) {
  thread_ticks = 0;
}

IsFresh-sym : (x : ℕ) (xs : List ℕ) → All (λ y. y ≢ x) xs → IsFresh x xs
IsFresh-sym x [] h = tt
IsFresh-sym x (y ∷ ys) h = ((λ e. h.0 (sym e)), IsFresh-sym x ys h.1)

pub run_next-IsScheduled : (next : ℕ) (k : Kernel) → IsChosen next k → IsScheduled (run_next next k)
unfolding is_thread
run_next-IsScheduled next k c =
    let same : (t : ℕ) → next ≢ t → update next thread_running k.status t ≡ k.status t =
      λ t h. update_ne next thread_running k.status t h in
    let self = update_self next thread_running k.status in
    let changed : (t : ℕ) (st : Status)
        → st ≢ thread_running
        → update next thread_running k.status t ≡ st
        → (next ≢ t) × (k.status t ≡ st) =
      λ t st d e. elim (ℕ_discrete next t) [
        | yes q ↦ absurd (d (sym e ∙ ap (update next thread_running k.status) (sym q) ∙ self))
        | no q ↦ (q, sym (same t q) ∙ e)
      ] in
    record {
      kept = record {
        ready_ready =
            All-map (λ t. (next ≢ t) × (k.status t ≡ thread_ready))
              (λ t. update next thread_running k.status t ≡ thread_ready) k.ready_list
              (λ t h. same t h.0 ∙ h.1)
              (All-both (λ t. next ≢ t) (λ t. k.status t ≡ thread_ready) k.ready_list c.ready_apart
                c.kept.ready_ready);
        ready_live = c.kept.ready_live;
        ready_distinct = c.kept.ready_distinct;
        idle_apart = c.kept.idle_apart;
        all_ready = λ t e.
            let (q, r) = changed t thread_ready (λ z. ground arith) e in
            elim (c.kept.all_ready t r) [
              | inl m ↦ inl m
              | inr (inl z) ↦ inr (inl z)
              | inr (inr z) ↦ absurd (q (sym z))
            ];
        waits = λ s.
            All-map (λ t. (next ≢ t) × Waits k s t) (Waits (run_next next k) s)
              (k.semaphore s).waiters (λ t h. (same t h.0 ∙ h.1.0, h.1.1))
              (All-both (λ t. next ≢ t) (Waits k s) (k.semaphore s).waiters (c.waiters_apart s)
                (c.kept.waits s));
        waiters_distinct = c.kept.waiters_distinct;
        all_waiting =
            λ t s e w. c.kept.all_waiting t s (changed t thread_blocked (λ z. ground arith) e).1 w;
        idle_live = c.kept.idle_live;
        idle_outside = c.kept.idle_outside;
      };
      runs = self;
      live = c.next_live;
      alone = λ t e. elim (ℕ_discrete next t) [
        | yes q ↦ sym q
        | no q ↦ absurd (c.none_runs t (sym (same t q) ∙ e))
      ];
    }

-- The page of a thread that has ended is given back.
pub free-IsScheduled :
    (prev : ℕ) (k : Kernel)
    → k.status prev ≡ thread_dying
    → k.idle_thread ≢ prev
    → IsScheduled k
    → IsScheduled (record k { live = update prev false k.live })
unfolding is_thread
free-IsScheduled prev k d i h =
    let k' : Kernel = record k { live = update prev false k.live } in
    let other : (t : ℕ) → prev ≢ t → is_thread t k ≡ true → is_thread t k' ≡ true =
      λ t n e. ap (λ b. not (t == 0) && b) (update_ne prev false k.live t n) ∙ e in
    let apart : (t : ℕ) (st : Status) → k.status t ≡ st → st ≢ thread_dying → prev ≢ t =
      λ t st e n q. n (sym e ∙ ap k.status (sym q) ∙ d) in
    record {
      kept = record {
        ready_ready = h.kept.ready_ready;
        ready_live =
            All-map (λ t. (k.status t ≡ thread_ready) × (is_thread t k ≡ true))
              (λ t. is_thread t k' ≡ true) k.ready_list
              (λ t a. other t (apart t thread_ready a.0 (λ z. ground arith)) a.1)
              (All-both (λ t. k.status t ≡ thread_ready) (λ t. is_thread t k ≡ true) k.ready_list
                h.kept.ready_ready h.kept.ready_live);
        ready_distinct = h.kept.ready_distinct;
        idle_apart = h.kept.idle_apart;
        all_ready = h.kept.all_ready;
        waits = λ s.
            All-map (Waits k s) (Waits k' s) (k.semaphore s).waiters
              (λ t a.
                (a.0, (other t (apart t thread_blocked a.0 (λ z. ground arith)) a.1.0, a.1.1)))
              (h.kept.waits s);
        waiters_distinct = h.kept.waiters_distinct;
        all_waiting = h.kept.all_waiting;
        idle_live = other k.idle_thread (λ z. i (sym z)) h.kept.idle_live;
        idle_outside = h.kept.idle_outside;
      };
      runs = h.runs;
      live = other k.current (apart k.current thread_running h.runs (λ z. ground arith)) h.live;
      alone = h.alone;
    }

-- The call does not panic and leaves a well-formed kernel.
abbrev pub Succeeds : Option Kernel → Type 0
Succeeds o = (k : Kernel) × (o ≡ some k) × IsScheduled k
