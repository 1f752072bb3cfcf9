-- ===== src/Sync.antt =====
-- Atomic words and the locks built on them: include/kernel/atomic.h and include/kernel/spinlock.h.
pub mod Atomic
pub mod Threads
pub mod Spinlock
pub mod Masked
pub mod Ticket
pub mod Rwlock
