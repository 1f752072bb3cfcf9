-- ===== src/Sync/Rwlock.antt =====
-- `rwlock` of include/kernel/spinlock.h.
pub mod Exclusion
use lun_os.Prelude.{
  ℕ, ◌+◌, ◌-◌, ◌*◌, ◌/◌, ◌%◌, ◌^◌, ◌≡◌, ◌≢◌, ◌<◌, refl, List, bit_and, arith, Bool, true, false,
  ◌==◌, not,
}
use lun_os.Sync.Atomic.{atomic_read, atomic_set, atomic_cmpxchg, atomic_dec}
use lun_os.Sync.Threads.{Replaced, replicate}

-- RWLOCK_WRITER_MASK
abbrev pub writer_mask : ℕ
writer_mask = 2 ^ 31

-- RWLOCK_READER_MASK
abbrev pub reader_mask : ℕ
reader_mask = 2 ^ 31 - 1

-- `old_val & RWLOCK_WRITER_MASK`
unfoldable pub has_writer : ℕ → Bool
has_writer v = not (bit_and v writer_mask == 0)

-- `old_val + 1`
unfoldable pub new_val : ℕ → ℕ
new_val old = (old + 1) % 2 ^ 32

-- `(new_val & RWLOCK_READER_MASK) == 0`
unfoldable pub overflows : ℕ → Bool
unfolding new_val
overflows old = bit_and (new_val old) reader_mask == 0

-- Where a thread stands, with `old_val` where it is live.
pub data Pc : Type 0 where
  outside : Pc
  read_load : Pc  -- before a read of the word in rwlock_read_lock
  read_cas : (old : ℕ) → Pc  -- before the condition of its loop
  try_cas : (old : ℕ) → Pc  -- before the end of rwlock_read_trylock
  reading : Pc
  write_cas : Pc  -- before the condition of the loop of rwlock_write_lock
  write_wait : Pc  -- in its inner loop
  writing : Pc

-- One access of one thread to the lock's word. In rwlock_read_lock the `continue` of the overflow
-- check goes to the loop's condition, like the end of the body, so it is no move of its own.
pub data Move (v : ℕ) : Pc → ℕ → Pc → Type 0 where
  read_call : Move v outside v read_load
  read_pause : has_writer (atomic_read v) ≡ true → Move v read_load v read_load
  read_go : has_writer (atomic_read v) ≡ false → Move v read_load v (read_cas (atomic_read v))
  read_win :
      {old : ℕ}
      → (atomic_cmpxchg v old (new_val old)).0 ≡ old
      → Move v (read_cas old) (atomic_cmpxchg v old (new_val old)).1 reading
  read_lose :
      {old : ℕ}
      → (atomic_cmpxchg v old (new_val old)).0 ≢ old
      → Move v (read_cas old) (atomic_cmpxchg v old (new_val old)).1 read_load
  try_busy : has_writer (atomic_read v) ≡ true → Move v outside v outside
  try_full : overflows (atomic_read v) ≡ true → Move v outside v outside
  try_go :
      has_writer (atomic_read v) ≡ false
      → overflows (atomic_read v) ≡ false
      → Move v outside v (try_cas (atomic_read v))
  try_win :
      {old : ℕ}
      → (atomic_cmpxchg v old (new_val old)).0 ≡ old
      → Move v (try_cas old) (atomic_cmpxchg v old (new_val old)).1 reading
  try_lose :
      {old : ℕ}
      → (atomic_cmpxchg v old (new_val old)).0 ≢ old
      → Move v (try_cas old) (atomic_cmpxchg v old (new_val old)).1 outside
  read_unlock : Move v reading (atomic_dec v) outside
  write_call : Move v outside v write_cas
  write_win :
      (atomic_cmpxchg v 0 writer_mask).0 ≡ 0
      → Move v write_cas (atomic_cmpxchg v 0 writer_mask).1 writing
  write_lose :
      (atomic_cmpxchg v 0 writer_mask).0 ≢ 0
      → Move v write_cas (atomic_cmpxchg v 0 writer_mask).1 write_wait
  write_pause : atomic_read v ≢ 0 → Move v write_wait v write_wait
  write_retry : atomic_read v ≡ 0 → Move v write_wait v write_cas
  try_write_win :
      (atomic_cmpxchg v 0 writer_mask).0 ≡ 0
      → Move v outside (atomic_cmpxchg v 0 writer_mask).1 writing
  try_write_lose :
      (atomic_cmpxchg v 0 writer_mask).0 ≢ 0
      → Move v outside (atomic_cmpxchg v 0 writer_mask).1 outside
  write_unlock : Move v writing (atomic_set v 0) outside

-- What `n` threads can reach from a lock after rwlock_init.
pub data Reach (n : ℕ) : ℕ → List Pc → Type 0 where
  start : Reach n (atomic_set 0 0) (replicate n outside)
  later :
      {v v' : ℕ} {p p' : Pc} {ps ps' : List Pc}
      → Reach n v ps
      → Replaced p p' ps ps'
      → Move v p v' p'
      → Reach n v' ps'
