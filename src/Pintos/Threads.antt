-- ===== src/Pintos/Threads.antt =====
-- Kernel threads: Project_3/threads/thread.c.
pub mod Scheduled
pub mod Switching
pub mod Stopping
pub mod Unblocking
use system_prog.Base.{
  ℕ, zero, suc, ◌+◌, Bool, true, false, not, ◌&&◌, ◌||◌, Option, none, some, List, [], ◌∷◌, ◌++◌,
  leb, ◌==◌, if◌then◌else◌, update, assert, ◌>>=◌,
}

-- `enum thread_status`
pub data Status : Type 0 where
  thread_running thread_ready thread_blocked thread_dying : Status

abbrev pub is_running : Status → Bool
is_running thread_running = true
is_running _ = false

abbrev pub is_blocked : Status → Bool
is_blocked thread_blocked = true
is_blocked _ = false

abbrev pub is_dying : Status → Bool
is_dying thread_dying = true
is_dying _ = false

-- `struct semaphore`
pub record Semaphore : Type 0 where
  pub value : ℕ
  pub waiters : List ℕ

-- Where a thread stands in the functions of synch.c that may be interrupted: in the loop of
-- `sema_down`, called by itself or by `lock_acquire`, or between two statements of a lock's function.
pub data Place : Type 0 where
  outside : Place
  in_down in_acquire acquired released : ℕ → Place

-- The kernel. A thread and a semaphore are known by their addresses, NULL is 0, and a list of
-- threads is the sequence of its elements. `live` says that the magic number of a thread is intact;
-- `current` is what the stack pointer gives. A lock has the address of its semaphore.
pub record Kernel : Type 0 where
  pub status : ℕ → Status
  pub live : ℕ → Bool
  pub priority : ℕ → ℕ
  pub tid : ℕ → ℕ
  pub ready_list : List ℕ
  pub all_list : List ℕ
  pub current : ℕ
  pub idle_thread : ℕ
  pub initial_thread : ℕ
  pub next_tid : ℕ
  pub thread_ticks : ℕ
  pub idle_ticks : ℕ
  pub kernel_ticks : ℕ
  pub semaphore : ℕ → Semaphore
  pub holder : ℕ → ℕ
  pub place : ℕ → Place

abbrev pub set_status : ℕ → Status → Kernel → Kernel
set_status t st k = record k { status = update t st k.status }

unfoldable pub is_thread : ℕ → Kernel → Bool
is_thread t k = not (t == 0) && k.live t

unfoldable pub thread_current : Kernel → Option ℕ
thread_current k =
    assert (is_thread k.current k) (assert (is_running (k.status k.current)) (some k.current))

unfoldable pub next_thread_to_run : Kernel → ℕ × Kernel
next_thread_to_run k = elim k.ready_list [
  | [] ↦ (k.idle_thread, k)
  | t ∷ ts ↦ (t, record k { ready_list = ts })
]

-- `prev` is 0 when the thread goes on.
unfoldable pub thread_schedule_tail : ℕ → Kernel → Option Kernel
thread_schedule_tail prev k =
    let k1 = record (set_status k.current thread_running k) { thread_ticks = 0 } in
    if not (prev == 0) && is_dying (k1.status prev) && not (prev == k1.initial_thread)
    then assert (not (prev == k.current)) (some (record k1 { live = update prev false k1.live }))
    else some k1

-- `switch_threads` goes on as the next thread, with the thread it comes from as the result.
unfoldable pub switch_threads : ℕ → ℕ → Kernel → ℕ × Kernel
switch_threads cur next k = if cur == next then (0, k) else (cur, record k { current = next })

unfoldable pub schedule : Kernel → Option Kernel
schedule k =
    let (next, k1) = next_thread_to_run k in
    let (prev, k2) = switch_threads k.current next k1 in
    assert (not (is_running (k.status k.current)))
      (assert (is_thread next k1) (thread_schedule_tail prev k2))

unfoldable pub thread_block : Kernel → Option Kernel
thread_block k = do cur ← thread_current k; schedule (set_status cur thread_blocked k)

unfoldable pub thread_unblock : ℕ → Kernel → Option Kernel
thread_unblock t k = assert (is_thread t k) (
    assert (is_blocked (k.status t))
      (some (set_status t thread_ready (record k { ready_list = k.ready_list ++ t ∷ [] }))))

abbrev pub remove_from : List ℕ → ℕ → List ℕ
remove_from [] t = []
remove_from (x ∷ xs) t = if x == t then xs else x ∷ remove_from xs t

unfoldable pub thread_exit : Kernel → Option Kernel
thread_exit k = do
  cur ← thread_current k
  schedule (set_status cur thread_dying (record k { all_list = remove_from k.all_list cur }))

unfoldable pub thread_yield : Kernel → Option Kernel
thread_yield k = do
  cur ← thread_current k
  let k1 : Kernel =
      if not (cur == k.idle_thread) then record k { ready_list = k.ready_list ++ cur ∷ [] } else k
  schedule (set_status cur thread_ready k1)

-- `t` is the page, cleared, for the thread.
unfoldable pub init_thread : ℕ → ℕ → Kernel → Option Kernel
init_thread t priority k = assert (not (t == 0)) (
    assert (leb priority 63) (
      some (record (set_status t thread_blocked k) {
        live = update t true k.live;
        priority = update t priority k.priority;
        place = update t outside k.place;
        all_list = k.all_list ++ t ∷ [];
      })))

-- The counter under `tid_lock`.
unfoldable pub allocate_tid : Kernel → ℕ × Kernel
allocate_tid k = (k.next_tid, record k { next_tid = suc k.next_tid })

-- `page` is what `palloc_get_page` returns; the result is `none` for TID_ERROR.
unfoldable pub thread_create : Option ℕ → ℕ → Kernel → Option (Option ℕ × Kernel)
thread_create none priority k = some (none, k)
thread_create (some t) priority k = do
  k1 ← init_thread t priority k
  let new = allocate_tid k1
  k2 ← thread_unblock t (record new.1 { tid = update t new.0 (new.1).tid })
  some (some new.0, k2)

abbrev pub time_slice : ℕ
time_slice = 4

-- The flag says that the thread is to yield when the interrupt returns.
unfoldable pub thread_tick : Kernel → Option (Bool × Kernel)
thread_tick k = do
  t ← thread_current k
  let k1 : Kernel =
      if t == k.idle_thread
      then record k { idle_ticks = suc k.idle_ticks }
      else record k { kernel_ticks = suc k.kernel_ticks }
  some (leb time_slice (suc k1.thread_ticks), record k1 { thread_ticks = suc k1.thread_ticks })

unfoldable pub thread_set_priority : ℕ → Kernel → Option Kernel
thread_set_priority new_priority k = do
  t ← thread_current k
  some (record k { priority = update t new_priority k.priority })

unfoldable pub thread_get_priority : Kernel → Option ℕ
thread_get_priority k = do t ← thread_current k; some (k.priority t)
