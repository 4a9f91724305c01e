-- ===== src/Pintos/Synch/Keeping.antt =====
-- What the scheduler leaves alone: the places, holders and values of Project_3/threads/synch.c are
-- not changed by Project_3/threads/thread.c.
use system_prog.Base.{
  ℕ, ◌≡◌, refl, ◌∙◌, Bool, true, false, not, ◌&&◌, Option, none, some, List, [], ◌∷◌, ◌++◌, ◌==◌,
  if_both, if◌then◌else◌, update, assert, ◌>>=◌,
}
use system_prog.Pintos.Threads.{
  Kernel, thread_running, thread_ready, thread_blocked, thread_dying, set_status, is_thread,
  is_running, is_dying, is_blocked, thread_current, next_thread_to_run, thread_schedule_tail,
  switch_threads, schedule, thread_block, thread_unblock, thread_exit, thread_yield, remove_from,
}
use system_prog.Pintos.Synch.Exclusion.{Locks, locks}

-- If the call does not panic, the kernel that it leaves has the property.
abbrev pub After : (Kernel → Type 0) → Option Kernel → Type 0
After P none = Unit
After P (some k) = P k

pub assert-After :
    (P : Kernel → Type 0) (b : Bool) (o : Option Kernel) → After P o → After P (assert b o)
assert-After P true o h = h
assert-After P false o h = tt

-- The scheduler does not touch the locks.
abbrev pub Keeps : Locks → Kernel → Type 0
Keeps v k = locks k ≡ v

tail-Keeps :
    (v : Locks) (prev : ℕ) (k : Kernel)
    → locks k ≡ v
    → After (Keeps v) (thread_schedule_tail prev k)
unfolding thread_schedule_tail
tail-Keeps v prev k h =
    let k1 : Kernel = record (set_status k.current thread_running k) { thread_ticks = 0 } in
    let freed : Kernel = record k1 { live = update prev false k1.live } in
    if_both (After (Keeps v))
      (not (prev == 0) && is_dying (k1.status prev) && not (prev == k1.initial_thread))
      (assert (not (prev == k.current)) (some freed)) (some k1)
      (λ _. assert-After (Keeps v) (not (prev == k.current)) (some freed) h) (λ _. h)

choice-locks : (k : Kernel) → locks (next_thread_to_run k).1 ≡ locks k
unfolding next_thread_to_run
choice-locks k = go k.ready_list k refl
  where
    go : (xs : List ℕ) (u : Kernel) → u.ready_list ≡ xs → locks (next_thread_to_run u).1 ≡ locks u
    go [] u e = rw (e, next_thread_to_run) refl
    go (t ∷ ts) u e = rw (e, next_thread_to_run) refl

switch-locks : (cur next : ℕ) (k : Kernel) → locks (switch_threads cur next k).1 ≡ locks k
unfolding switch_threads
switch-locks cur next k =
    if_both (λ (r : ℕ × Kernel). locks r.1 ≡ locks k) (cur == next) (0, k)
      (cur, record k { current = next }) (λ _. refl) (λ _. refl)

schedule-Keeps : (v : Locks) (k : Kernel) → locks k ≡ v → After (Keeps v) (schedule k)
unfolding schedule
schedule-Keeps v k h =
    let c = next_thread_to_run k in
    let w = switch_threads k.current c.0 c.1 in
    assert-After (Keeps v) (not (is_running (k.status k.current)))
      (assert (is_thread c.0 c.1) (thread_schedule_tail w.0 w.1))
      (assert-After (Keeps v) (is_thread c.0 c.1) (thread_schedule_tail w.0 w.1)
        (tail-Keeps v w.0 w.1 (switch-locks k.current c.0 c.1 ∙ choice-locks k ∙ h)))

pub current-After :
    (P : Kernel → Type 0) (k : Kernel) (f : ℕ → Option Kernel)
    → After P (f k.current)
    → After P (thread_current k >>= f)
unfolding thread_current
current-After P k f h = assert-bind (is_thread k.current k) (is_running (k.status k.current)) h
  where
    assert-bind :
        (a b : Bool) → After P (f k.current) → After P (assert a (assert b (some k.current)) >>= f)
    assert-bind true true q = q
    assert-bind true false q = tt
    assert-bind false b q = tt

pub thread_block-Keeps : (k : Kernel) → After (Keeps (locks k)) (thread_block k)
unfolding thread_block
thread_block-Keeps k =
    current-After (Keeps (locks k)) k (λ cur. schedule (set_status cur thread_blocked k))
      (schedule-Keeps (locks k) (set_status k.current thread_blocked k) refl)

pub thread_exit-Keeps : (k : Kernel) → After (Keeps (locks k)) (thread_exit k)
unfolding thread_exit
thread_exit-Keeps k =
    current-After (Keeps (locks k)) k
      (λ cur.
        schedule (set_status cur thread_dying (record k { all_list = remove_from k.all_list cur })))
      (schedule-Keeps (locks k)
        (set_status k.current thread_dying
          (record k { all_list = remove_from k.all_list k.current }))
        refl)

pub thread_yield-Keeps : (k : Kernel) → After (Keeps (locks k)) (thread_yield k)
unfolding thread_yield
thread_yield-Keeps k =
    current-After (Keeps (locks k)) k
      (λ cur. schedule (
        set_status cur thread_ready (
          if not (cur == k.idle_thread)
          then record k { ready_list = k.ready_list ++ cur ∷ [] }
          else k)))
      (if_both
        (λ (u : Kernel). After (Keeps (locks k)) (schedule (set_status k.current thread_ready u)))
        (not (k.current == k.idle_thread))
        (record k { ready_list = k.ready_list ++ k.current ∷ [] }) k
        (λ _.
          schedule-Keeps (locks k)
            (set_status k.current thread_ready
              (record k { ready_list = k.ready_list ++ k.current ∷ [] }))
            refl)
        (λ _. schedule-Keeps (locks k) (set_status k.current thread_ready k) refl))

pub thread_unblock-Keeps : (t : ℕ) (k : Kernel) → After (Keeps (locks k)) (thread_unblock t k)
unfolding thread_unblock
thread_unblock-Keeps t k =
    let u = set_status t thread_ready (record k { ready_list = k.ready_list ++ t ∷ [] }) in
    assert-After (Keeps (locks k)) (is_thread t k) (assert (is_blocked (k.status t)) (some u))
      (assert-After (Keeps (locks k)) (is_blocked (k.status t)) (some u) refl)
