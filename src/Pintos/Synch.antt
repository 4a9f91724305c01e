-- ===== src/Pintos/Synch.antt =====
-- Semaphores and locks: Project_3/threads/synch.c, with the threads that run them interleaved.
pub mod Waiting
pub mod Waking
pub mod Moves
pub mod Exclusion
pub mod Handing
pub mod Keeping
pub mod Locking
pub mod Interleaving
mod Tests
use system_prog.Base.{
  ℕ, zero, suc, ◌-◌, Bool, true, false, not, ◌&&◌, Option, none, some, List, [], ◌∷◌, ◌++◌, ◌==◌,
  if◌then◌else◌, update, assert, ◌>>=◌,
}
use system_prog.Pintos.Threads.{
  Kernel, Semaphore, Place, outside, in_down, in_acquire, acquired, released, thread_current,
  thread_block, thread_unblock, thread_yield, thread_exit, thread_create,
}

abbrev pub set_semaphore : ℕ → Semaphore → Kernel → Kernel
set_semaphore s v k = record k { semaphore = update s v k.semaphore }

abbrev pub set_place : ℕ → Place → Kernel → Kernel
set_place t p k = record k { place = update t p k.place }

unfoldable pub sema_init : ℕ → ℕ → Kernel → Kernel
sema_init s value k = set_semaphore s (record { value = value; waiters = [] }) k

-- The test of the loop of `sema_down` and what follows it, up to the next call of the scheduler or
-- the end: `waiting` is where the thread stands while it is blocked, `finished` when it returns.
unfoldable pub down_round : ℕ → Place → Place → Kernel → Option Kernel
down_round s waiting finished k = do
  cur ← thread_current k
  let v = k.semaphore s
  elim (v.value == 0) [
    | true ↦
        thread_block
          (set_place cur waiting (set_semaphore s (record v { waiters = v.waiters ++ cur ∷ [] }) k))
    | false ↦ some (set_place cur finished (set_semaphore s (record v { value = v.value - 1 }) k))
  ]

unfoldable pub sema_down : ℕ → Kernel → Option Kernel
sema_down s k = down_round s (in_down s) outside k

unfoldable pub sema_try_down : ℕ → Kernel → Bool × Kernel
sema_try_down s k =
    let v = k.semaphore s in
    if not (v.value == 0)
    then (true, set_semaphore s (record v { value = v.value - 1 }) k)
    else (false, k)

unfoldable pub raise_value : ℕ → Kernel → Kernel
raise_value s k = let v = k.semaphore s in set_semaphore s (record v { value = suc v.value }) k

unfoldable pub sema_up : ℕ → Kernel → Option Kernel
sema_up s k = elim (k.semaphore s).waiters [
  | [] ↦ some (raise_value s k)
  | t ∷ ts ↦ do
    k1 ← thread_unblock t (set_semaphore s (record (k.semaphore s) { waiters = ts }) k)
    some (raise_value s k1)
]

unfoldable pub lock_init : ℕ → Kernel → Kernel
lock_init l k = sema_init l 1 (record k { holder = update l 0 k.holder })

unfoldable pub lock_held_by_current_thread : ℕ → Kernel → Option Bool
lock_held_by_current_thread l k = do cur ← thread_current k; some (k.holder l == cur)

-- `lock_acquire` up to the return of `sema_down`, and its last statement.
unfoldable pub lock_acquire : ℕ → Kernel → Option Kernel
lock_acquire l k = do
  held ← lock_held_by_current_thread l k
  assert (not held) (down_round l (in_acquire l) (acquired l) k)

unfoldable pub set_holder : ℕ → Kernel → Option Kernel
set_holder l k = do
  cur ← thread_current k
  some (set_place cur outside (record k { holder = update l cur k.holder }))

unfoldable pub lock_try_acquire : ℕ → Kernel → Option (Bool × Kernel)
lock_try_acquire l k = do
  held ← lock_held_by_current_thread l k
  assert (not held) (do
    cur ← thread_current k
    let tried = sema_try_down l k
    some (tried.0, (if tried.0 then set_place cur (acquired l) tried.1 else tried.1)))

-- `lock_release` up to its `sema_up`, and the rest.
unfoldable pub lock_release : ℕ → Kernel → Option Kernel
lock_release l k = do
  held ← lock_held_by_current_thread l k
  assert held (do
    cur ← thread_current k
    some (set_place cur (released l) (record k { holder = update l 0 k.holder })))

unfoldable pub end_release : ℕ → Kernel → Option Kernel
end_release l k = do cur ← thread_current k; sema_up l (set_place cur outside k)

-- The running thread goes on where it stands.
unfoldable pub resume_at : Place → Kernel → Option Kernel
resume_at outside k = some k
resume_at (in_down s) k = sema_down s k
resume_at (in_acquire l) k = down_round l (in_acquire l) (acquired l) k
resume_at (acquired l) k = set_holder l k
resume_at (released l) k = end_release l k

unfoldable pub resume : Kernel → Option Kernel
resume k = resume_at (k.place k.current) k

-- What the running thread may do next.
pub data Move : Type 0 where
  down up try_down acquire try_acquire release : ℕ → Move
  go_on yield exit block : Move
  create : Option ℕ → ℕ → Move

unfoldable pub step : Move → Kernel → Option Kernel
step (down s) k = sema_down s k
step (up s) k = sema_up s k
step (try_down s) k = some (sema_try_down s k).1
step (acquire l) k = lock_acquire l k
step (try_acquire l) k = do r ← lock_try_acquire l k; some r.1
step (release l) k = lock_release l k
step go_on k = resume k
step yield k = thread_yield k
step exit k = thread_exit k
step block k = thread_block k
step (create page priority) k = do r ← thread_create page priority k; some r.1
