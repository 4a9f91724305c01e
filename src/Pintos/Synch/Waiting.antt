-- ===== src/Pintos/Synch/Waiting.antt =====
-- The wait in the loop of sema_down: Project_3/threads/synch.c.
use system_prog.Base.{
  ℕ, ◌≡◌, ◌≢◌, refl, ap, sym, subst, ◌∙◌, inl, inr, true, not, ◌&&◌, none, some, [], ◌∷◌, ◌++◌, ◌-◌,
  arith, All, All-append, All-map, All-both, Distinct, IsFresh, Member, Member-append, Member-last,
  ◌==◌, Bool-cases, ℕ_discrete, update, update_self, update_ne,
}
use system_prog.Pintos.Threads.{
  thread_ready, thread_blocked, Place, Semaphore, Kernel, set_status, is_thread, thread_current,
  thread_block,
}
use system_prog.Pintos.Threads.Scheduled.{awaits, Waits, IsScheduled, IsStopped, Succeeds}
use system_prog.Pintos.Threads.Switching.{schedule-Succeeds}
use system_prog.Pintos.Threads.Stopping.{
  current-runs, current-IsFresh, old_status, stopped-none_runs, still_ready, Distinct-snoc,
}
use system_prog.Pintos.Synch.{set_semaphore, set_place, down_round}

-- The running thread on the list of the semaphore `s`, at the place `w`.
abbrev pub queued : ℕ → Place → Kernel → Kernel
queued s w k = set_place k.current w (
    set_semaphore s (record (k.semaphore s) { waiters = (k.semaphore s).waiters ++ k.current ∷ [] })
      k)

queued-IsStopped :
    (s : ℕ) (w : Place) (k : Kernel)
    → awaits w ≡ some s
    → k.idle_thread ≢ k.current
    → IsScheduled k
    → IsStopped (set_status k.current thread_blocked (queued s w k))
unfolding is_thread
queued-IsStopped s w k a i h =
    let c = k.current in
    let u : Kernel = set_status c thread_blocked (queued s w k) in
    let v : Semaphore = record (k.semaphore s) { waiters = (k.semaphore s).waiters ++ c ∷ [] } in
    let status : (t : ℕ) → c ≢ t → u.status t ≡ k.status t =
      λ t q. update_ne c thread_blocked k.status t q in
    let place : (t : ℕ) → c ≢ t → u.place t ≡ k.place t = λ t q. update_ne c w k.place t q in
    let other : (x : ℕ) → s ≢ x → (u.semaphore x).waiters ≡ (k.semaphore x).waiters =
      λ x q. ap (λ z. z.waiters) (update_ne s v k.semaphore x q) in
    let self : (u.semaphore s).waiters ≡ (k.semaphore s).waiters ++ c ∷ [] =
      ap (λ z. z.waiters) (update_self s v k.semaphore) in
    let still : (x : ℕ) → All (Waits u x) (k.semaphore x).waiters = λ x.
      All-map (λ t. (c ≢ t) × Waits k x t) (Waits u x) (k.semaphore x).waiters
        (λ t b. (status t b.0 ∙ b.1.0, (b.1.1.0, ap awaits (place t b.0) ∙ b.1.1.1)))
        (All-both (λ t. c ≢ t) (Waits k x) (k.semaphore x).waiters (current-IsFresh k h x)
          (h.kept.waits x)) in
    let mine : Waits u s c =
      (update_self c thread_blocked k.status, (h.live, ap awaits (update_self c w k.place) ∙ a)) in
    record {
      kept = record {
        ready_ready = still_ready thread_blocked k h;
        ready_live = h.kept.ready_live;
        ready_distinct = h.kept.ready_distinct;
        idle_apart = h.kept.idle_apart;
        all_ready = λ t e.
            h.kept.all_ready t
              (old_status k.status c t thread_blocked thread_ready (λ z. ground arith) e).1;
        waits = λ x. elim (ℕ_discrete s x) [
          | yes q ↦
              subst (λ y. All (Waits u y) (u.semaphore y).waiters) q
                (subst (All (Waits u s)) (sym self)
                  (All-append (Waits u s) (k.semaphore s).waiters (c ∷ []) (still s) (mine, tt)))
          | no q ↦ subst (All (Waits u x)) (sym (other x q)) (still x)
        ];
        waiters_distinct = λ x. elim (ℕ_discrete s x) [
          | yes q ↦
              subst (λ y. Distinct (u.semaphore y).waiters) q
                (subst Distinct (sym self) (
                  Distinct-snoc c (k.semaphore s).waiters (h.kept.waiters_distinct s)
                    (current-IsFresh k h s)))
          | no q ↦ subst Distinct (sym (other x q)) (h.kept.waiters_distinct x)
        ];
        all_waiting = λ t x e b. elim (ℕ_discrete c t) [
          | yes q ↦
              let sx : s ≡ x = ground (arith, a, b, update_self c w k.place, ap u.place q) in
              subst (λ y. Member t (u.semaphore y).waiters) sx
                (subst (Member t) (sym self) (
                  subst (λ y. Member y ((k.semaphore s).waiters ++ c ∷ [])) q
                    (Member-last c (k.semaphore s).waiters)))
          | no q ↦
              let old =
                h.kept.all_waiting t x (sym (status t q) ∙ e) (ap awaits (sym (place t q)) ∙ b) in
              elim (ℕ_discrete s x) [
                | yes r ↦
                    subst (λ y. Member t (u.semaphore y).waiters) r
                      (subst (Member t) (sym self) (
                        Member-append t (k.semaphore s).waiters (c ∷ [])
                          (subst (λ y. Member t (k.semaphore y).waiters) (sym r) old)))
                | no r ↦ subst (Member t) (sym (other x r)) old
              ]
        ];
        idle_live = h.kept.idle_live;
        idle_outside = ap awaits (place k.idle_thread (λ z. i (sym z))) ∙ h.kept.idle_outside;
      };
      none_runs = stopped-none_runs thread_blocked k h (λ z. ground arith);
      leaves = λ _. i;
    }

-- A change that leaves the lists and the statuses alone, and of the places only changes the running
-- thread's.
pub record SameLists (k k' : Kernel) : Type 0 where
  pub status : k'.status ≡ k.status
  pub live : k'.live ≡ k.live
  pub ready_list : k'.ready_list ≡ k.ready_list
  pub idle : k'.idle_thread ≡ k.idle_thread
  pub current : k'.current ≡ k.current
  pub waiters : (s : ℕ) → (k'.semaphore s).waiters ≡ (k.semaphore s).waiters
  pub place : (t : ℕ) → k.current ≢ t → k'.place t ≡ k.place t
  pub idle_place : k.idle_thread ≡ k.current → awaits (k'.place k.current) ≡ none

pub IsScheduled-SameLists : (k k' : Kernel) → SameLists k k' → IsScheduled k → IsScheduled k'
unfolding is_thread
IsScheduled-SameLists k k' m h =
    let lives : (t : ℕ) → is_thread t k ≡ true → is_thread t k' ≡ true =
      λ t e. ap (λ f. not (t == 0) && f t) m.live ∙ e in
    let status : (t : ℕ) → k'.status t ≡ k.status t = λ t. ap (λ f. f t) m.status in
    record {
      kept = record {
        ready_ready = subst (All (λ t. k'.status t ≡ thread_ready)) (sym m.ready_list) (
            All-map (λ t. k.status t ≡ thread_ready) (λ t. k'.status t ≡ thread_ready) k.ready_list
              (λ t e. status t ∙ e) h.kept.ready_ready);
        ready_live = subst (All (λ t. is_thread t k' ≡ true)) (sym m.ready_list) (
            All-map (λ t. is_thread t k ≡ true) (λ t. is_thread t k' ≡ true) k.ready_list lives
              h.kept.ready_live);
        ready_distinct = subst Distinct (sym m.ready_list) h.kept.ready_distinct;
        idle_apart =
            subst (λ z. IsFresh z k'.ready_list) (sym m.idle)
              (subst (IsFresh k.idle_thread) (sym m.ready_list) h.kept.idle_apart);
        all_ready = λ t e. elim (h.kept.all_ready t (sym (status t) ∙ e)) [
          | inl n ↦ inl (subst (Member t) (sym m.ready_list) n)
          | inr (inl z) ↦ inr (inl (z ∙ sym m.idle))
          | inr (inr z) ↦ inr (inl (z ∙ sym m.idle))
        ];
        waits = λ s. subst (All (Waits k' s)) (sym (m.waiters s)) (
            All-map (λ t. (k.current ≢ t) × Waits k s t) (Waits k' s) (k.semaphore s).waiters
              (λ t a. (status t ∙ a.1.0, (lives t a.1.1.0, ap awaits (m.place t a.0) ∙ a.1.1.1)))
              (All-both (λ t. k.current ≢ t) (Waits k s) (k.semaphore s).waiters
                (current-IsFresh k h s) (h.kept.waits s)));
        waiters_distinct = λ s. subst Distinct (sym (m.waiters s)) (h.kept.waiters_distinct s);
        all_waiting = λ t s e w. elim (ℕ_discrete k.current t) [
          | yes q ↦ ground (arith, e, status t, h.runs, ap k.status q)
          | no q ↦
              subst (Member t) (sym (m.waiters s))
                (h.kept.all_waiting t s (sym (status t) ∙ e) (ap awaits (sym (m.place t q)) ∙ w))
        ];
        idle_live = ap (λ t. is_thread t k') m.idle ∙ lives k.idle_thread h.kept.idle_live;
        idle_outside =
            ap (λ t. awaits (k'.place t)) m.idle ∙ elim (ℕ_discrete k.idle_thread k.current) [
              | yes q ↦ ap (λ t. awaits (k'.place t)) q ∙ m.idle_place q
              | no q ↦ ap awaits (m.place k.idle_thread (λ z. q (sym z))) ∙ h.kept.idle_outside
            ];
      };
      runs = ap k'.status m.current ∙ status k.current ∙ h.runs;
      live = ap (λ t. is_thread t k') m.current ∙ lives k.current h.live;
      alone = λ t e. h.alone t (sym (status t) ∙ e) ∙ sym m.current;
    }

-- A new value leaves the list of a semaphore.
pub value-waiters :
    (s value x : ℕ) (k : Kernel)
    → (update s (record (k.semaphore s) { value = value }) k.semaphore x).waiters
      ≡ (k.semaphore x).waiters
value-waiters s value x k = elim (ℕ_discrete s x) [
  | yes q ↦
      subst
        (λ y.
          (update s (record (k.semaphore s) { value = value }) k.semaphore y).waiters
          ≡ (k.semaphore y).waiters)
        q
        (ap (λ z. z.waiters) (update_self s (record (k.semaphore s) { value = value }) k.semaphore))
  | no q ↦
      ap (λ z. z.waiters) (update_ne s (record (k.semaphore s) { value = value }) k.semaphore x q)
]

queued-runs :
    (s : ℕ) (w : Place) (k : Kernel)
    → IsScheduled k
    → thread_current (queued s w k) ≡ some k.current
unfolding thread_current is_thread
queued-runs s w k h = current-runs k h

-- A round of the loop of sema_down: the running thread takes a unit of the value, or is put at the
-- end of the semaphore's list and another thread runs.
pub down_round-Succeeds :
    (s : ℕ) (w finished : Place) (k : Kernel)
    → awaits w ≡ some s
    → k.idle_thread ≢ k.current
    → IsScheduled k
    → Succeeds (down_round s w finished k)
unfolding down_round thread_block
down_round-Succeeds s w finished k a i h = elim (Bool-cases ((k.semaphore s).value == 0)) [
  | inl e ↦
      rw (current-runs k h, e, queued-runs s w k h)
        (schedule-Succeeds (set_status k.current thread_blocked (queued s w k))
          (queued-IsStopped s w k a i h))
  | inr e ↦
      let value = (k.semaphore s).value - 1 in
      let k' =
        set_place k.current finished
          (set_semaphore s (record (k.semaphore s) { value = value }) k) in
      rw (current-runs k h, e)
        (
          k',
          refl,
          IsScheduled-SameLists k k'
              (record {
                status = refl;
                live = refl;
                ready_list = refl;
                idle = refl;
                current = refl;
                waiters = λ x. value-waiters s value x k;
                place = λ t q. update_ne k.current finished k.place t q;
                idle_place = λ q. absurd (i q);
              })
              h,
        )
]
