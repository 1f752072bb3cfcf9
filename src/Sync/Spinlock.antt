-- ===== src/Sync/Spinlock.antt =====
-- `spinlock` of include/kernel/spinlock.h.
pub mod Exclusion
use lun_os.Prelude.{ℕ, ◌+◌, ◌≡◌, ◌≢◌, refl, List, ltb, if◌then◌else◌}
use lun_os.Sync.Atomic.{atomic_read, atomic_set, atomic_xchg}
use lun_os.Sync.Threads.{Replaced, replicate}

-- Where a thread stands.
pub data Pc : Type 0 where
  outside : Pc
  trying : Pc  -- before the exchange of spinlock_lock
  waiting : Pc  -- in the inner loop of spinlock_lock
  holding : Pc  -- after spinlock_lock, or a try that succeeded

-- One access of one thread to the lock's word: its word and program point before and after.
pub data Move (v : ℕ) : Pc → ℕ → Pc → Type 0 where
  call : Move v outside v trying
  win : (atomic_xchg v 1).0 ≡ 0 → Move v trying (atomic_xchg v 1).1 holding
  lose : (atomic_xchg v 1).0 ≢ 0 → Move v trying (atomic_xchg v 1).1 waiting
  pause : atomic_read v ≢ 0 → Move v waiting v waiting
  retry : atomic_read v ≡ 0 → Move v waiting v trying
  try_win : (atomic_xchg v 1).0 ≡ 0 → Move v outside (atomic_xchg v 1).1 holding
  try_lose : (atomic_xchg v 1).0 ≢ 0 → Move v outside (atomic_xchg v 1).1 outside
  unlock : Move v holding (atomic_set v 0) outside

-- What `n` threads can reach from a lock after spinlock_init.
pub data Reach (n : ℕ) : ℕ → List Pc → Type 0 where
  start : Reach n (atomic_set 0 0) (replicate n outside)
  later :
      {v v' : ℕ} {p p' : Pc} {ps ps' : List Pc}
      → Reach n v ps
      → Replaced p p' ps ps'
      → Move v p v' p'
      → Reach n v' ps'

-- The order in which acquire_locks_ordered takes two locks, by their addresses.
pub acquire_order : ℕ → ℕ → ℕ × ℕ
acquire_order a b = if ltb a b then (a, b) else (b, a)
