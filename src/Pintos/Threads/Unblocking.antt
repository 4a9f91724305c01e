-- ===== src/Pintos/Threads/Unblocking.antt =====
-- Threads that become ready: thread_unblock and thread_create of Project_3/threads/thread.c, and
-- sema_up of Project_3/threads/synch.c.
use system_prog.Base.{
  ap₂, ℕ, suc, ◌≤◌, ◌≡◌, ◌≢◌, refl, ap, sym, subst, ◌∙◌, ◌⊎◌, inl, inr, true, false, not, ◌&&◌,
  none, some, [], ◌∷◌, ◌++◌, arith, All, All-append, All-map, All-both, Distinct, IsFresh, Member,
  Member-append, Member-last, leb, ◌==◌, ==-false, ℕ_discrete, update, update_self, update_ne,
}
use system_prog.Pintos.Threads.{
  thread_running, thread_ready, thread_blocked, outside, Kernel, set_status, is_thread,
  thread_unblock, init_thread, allocate_tid, thread_create,
}
use system_prog.Pintos.Threads.Scheduled.{awaits, Waits, IsScheduled}
use system_prog.Pintos.Threads.Stopping.{old_status, Distinct-snoc}

-- The thread `t` is blocked and on no list; but for that the kernel is well-formed.
pub record IsLoose (t : ℕ) (k : Kernel) : Type 0 where
  pub ready_ready : All (λ x. k.status x ≡ thread_ready) k.ready_list
  pub ready_live : All (λ x. is_thread x k ≡ true) k.ready_list
  pub ready_distinct : Distinct k.ready_list
  pub idle_apart : IsFresh k.idle_thread k.ready_list
  pub all_ready : (x : ℕ) → k.status x ≡ thread_ready → Member x k.ready_list ⊎ (x ≡ k.idle_thread)
  pub waits : (s : ℕ) → All (Waits k s) (k.semaphore s).waiters
  pub waiters_distinct : (s : ℕ) → Distinct (k.semaphore s).waiters
  pub all_waiting :
      (x s : ℕ)
      → t ≢ x
      → k.status x ≡ thread_blocked
      → awaits (k.place x) ≡ some s
      → Member x (k.semaphore s).waiters
  pub idle_live : is_thread k.idle_thread k ≡ true
  pub idle_outside : awaits (k.place k.idle_thread) ≡ none
  pub runs : k.status k.current ≡ thread_running
  pub live : is_thread k.current k ≡ true
  pub alone : (x : ℕ) → k.status x ≡ thread_running → x ≡ k.current
  pub blocked : k.status t ≡ thread_blocked
  pub blocked_live : is_thread t k ≡ true
  pub waiters_apart : (s : ℕ) → IsFresh t (k.semaphore s).waiters
  pub not_idle : k.idle_thread ≢ t

abbrev pub made_ready : ℕ → Kernel → Kernel
made_ready t k = set_status t thread_ready (record k { ready_list = k.ready_list ++ t ∷ [] })

made_ready-IsScheduled : (t : ℕ) (k : Kernel) → IsLoose t k → IsScheduled (made_ready t k)
unfolding is_thread
made_ready-IsScheduled t k h =
    let fresh : IsFresh t k.ready_list =
      All-map (λ x. k.status x ≡ thread_ready) (λ x. t ≢ x) k.ready_list
        (λ x r q. ground (arith, r, h.blocked, ap k.status q)) h.ready_ready in
    let other : (x : ℕ) → t ≢ x → update t thread_ready k.status x ≡ k.status x =
      λ x n. update_ne t thread_ready k.status x n in
    record {
      kept = record {
        ready_ready =
            All-append (λ x. update t thread_ready k.status x ≡ thread_ready) k.ready_list (t ∷ [])
              (All-map (λ x. (t ≢ x) × (k.status x ≡ thread_ready))
                (λ x. update t thread_ready k.status x ≡ thread_ready) k.ready_list
                (λ x a. other x a.0 ∙ a.1)
                (All-both (λ x. t ≢ x) (λ x. k.status x ≡ thread_ready) k.ready_list fresh
                  h.ready_ready))
              (update_self t thread_ready k.status, tt);
        ready_live =
            All-append (λ x. is_thread x k ≡ true) k.ready_list (t ∷ []) h.ready_live
              (h.blocked_live, tt);
        ready_distinct = Distinct-snoc t k.ready_list h.ready_distinct fresh;
        idle_apart =
            All-append (λ x. k.idle_thread ≢ x) k.ready_list (t ∷ []) h.idle_apart (h.not_idle, tt);
        all_ready = λ x e. elim (ℕ_discrete t x) [
          | yes q ↦
              inl (subst (λ y. Member y (k.ready_list ++ t ∷ [])) q (Member-last t k.ready_list))
          | no q ↦ elim (h.all_ready x (sym (other x q) ∙ e)) [
            | inl m ↦ inl (Member-append x k.ready_list (t ∷ []) m)
            | inr z ↦ inr (inl z)
          ]
        ];
        waits = λ s.
            All-map (λ x. (t ≢ x) × Waits k s x) (Waits (made_ready t k) s) (k.semaphore s).waiters
              (λ x a. (other x a.0 ∙ a.1.0, a.1.1))
              (All-both (λ x. t ≢ x) (Waits k s) (k.semaphore s).waiters (h.waiters_apart s)
                (h.waits s));
        waiters_distinct = h.waiters_distinct;
        all_waiting = λ x s e w.
            let (q, r) =
              old_status k.status t x thread_ready thread_blocked (λ z. ground arith) e in
            h.all_waiting x s q r w;
        idle_live = h.idle_live;
        idle_outside = h.idle_outside;
      };
      runs = other k.current (λ q. ground (arith, h.blocked, h.runs, ap k.status q)) ∙ h.runs;
      live = h.live;
      alone = λ x e.
          h.alone x (old_status k.status t x thread_ready thread_running (λ z. ground arith) e).1;
    }

pub thread_unblock-made_ready :
    (t : ℕ) (k : Kernel)
    → IsLoose t k
    → (thread_unblock t k ≡ some (made_ready t k)) × IsScheduled (made_ready t k)
unfolding thread_unblock
thread_unblock-made_ready t k h =
    (rw (h.blocked_live, h.blocked) refl, made_ready-IsScheduled t k h)

-- A page that is no thread's becomes a thread.
abbrev pub started : ℕ → ℕ → Kernel → Kernel
started t priority k = record (set_status t thread_blocked k) {
  live = update t true k.live;
  priority = update t priority k.priority;
  place = update t outside k.place;
  all_list = k.all_list ++ t ∷ [];
  next_tid = suc k.next_tid;
  tid = update t k.next_tid k.tid;
}

started-IsLoose :
    (t priority : ℕ) (k : Kernel)
    → 0 ≢ t
    → k.live t ≡ false
    → IsScheduled k
    → IsLoose t (started t priority k)
unfolding is_thread
started-IsLoose t priority k n d h =
    let u = started t priority k in
    let apart : (x : ℕ) → is_thread x k ≡ true → t ≢ x =
      λ x e q. ground (arith, d, e, ap k.live q) in
    let lives : (x : ℕ) → is_thread x k ≡ true → is_thread x u ≡ true =
      λ x e. ap (λ b. not (x == 0) && b) (update_ne t true k.live x (apart x e)) ∙ e in
    let status : (x : ℕ) → t ≢ x → u.status x ≡ k.status x =
      λ x q. update_ne t thread_blocked k.status x q in
    let place : (x : ℕ) → t ≢ x → u.place x ≡ k.place x = λ x q. update_ne t outside k.place x q in
    record {
      ready_ready =
          All-map (λ x. (is_thread x k ≡ true) × (k.status x ≡ thread_ready))
            (λ x. u.status x ≡ thread_ready) k.ready_list (λ x a. status x (apart x a.0) ∙ a.1)
            (All-both (λ x. is_thread x k ≡ true) (λ x. k.status x ≡ thread_ready) k.ready_list
              h.kept.ready_live h.kept.ready_ready);
      ready_live =
          All-map (λ x. is_thread x k ≡ true) (λ x. is_thread x u ≡ true) k.ready_list lives
            h.kept.ready_live;
      ready_distinct = h.kept.ready_distinct;
      idle_apart = h.kept.idle_apart;
      all_ready = λ x e.
          elim (h.kept.all_ready x
            (old_status k.status t x thread_blocked thread_ready (λ z. ground arith) e).1) [
              | inl m ↦ inl m
              | inr z ↦ inr (elim z [ inl y ↦ y | inr y ↦ y ])
            ];
      waits = λ s.
          All-map (Waits k s) (Waits u s) (k.semaphore s).waiters
            (λ x a. (
              status x (apart x a.1.0) ∙ a.0,
              (lives x a.1.0, ap awaits (place x (apart x a.1.0)) ∙ a.1.1),
            ))
            (h.kept.waits s);
      waiters_distinct = h.kept.waiters_distinct;
      all_waiting = λ x s q e w.
          h.kept.all_waiting x s (sym (status x q) ∙ e) (ap awaits (sym (place x q)) ∙ w);
      idle_live = lives k.idle_thread h.kept.idle_live;
      idle_outside =
          ap awaits (place k.idle_thread (apart k.idle_thread h.kept.idle_live))
          ∙ h.kept.idle_outside;
      runs = status k.current (apart k.current h.live) ∙ h.runs;
      live = lives k.current h.live;
      alone = λ x e.
          h.alone x (old_status k.status t x thread_blocked thread_running (λ z. ground arith) e).1;
      blocked = update_self t thread_blocked k.status;
      blocked_live =
          ap₂ (λ a b. not a && b) (==-false t 0 (λ z. n (sym z))) (update_self t true k.live);
      waiters_apart = λ s.
          All-map (Waits k s) (λ x. t ≢ x) (k.semaphore s).waiters (λ x a. apart x a.1.0)
            (h.kept.waits s);
      not_idle = λ q. apart k.idle_thread h.kept.idle_live (sym q);
    }

-- A new thread is ready, and gets the next identifier.
pub thread_create-IsScheduled :
    (t priority : ℕ) (k : Kernel)
    → 0 ≢ t
    → priority ≤ 63
    → k.live t ≡ false
    → IsScheduled k
    → (thread_create (some t) priority k
        ≡ some (some k.next_tid, made_ready t (started t priority k)))
      × IsScheduled (made_ready t (started t priority k))
unfolding thread_create init_thread allocate_tid
thread_create-IsScheduled t priority k n p d h =
    let (e, v) =
      thread_unblock-made_ready t (started t priority k) (started-IsLoose t priority k n d h) in
    (rw (==-false t 0 (λ z. n (sym z)), leb-true priority 63 p, e) refl, v)
  where
    leb-true : (a b : ℕ) → a ≤ b → leb a b ≡ true
    leb-true a b q = ground (arith, q)
