-- ===== src/Sync/Ticket.antt =====
-- `ticket_spinlock` of include/kernel/spinlock.h: two words, the next ticket and the one that is served.
pub mod Turns
use lun_os.Prelude.{ℕ, zero, suc, ◌+◌, ◌^◌, ◌≡◌, ◌≢◌, refl, List}
use lun_os.Sync.Atomic.{
  atomic_read, atomic_set, atomic_inc, atomic_add_return, atomic_cmpxchg, add_word, sub_word,
}
use lun_os.Sync.Threads.{Replaced, replicate}

-- Where a thread stands. A holder still has the ticket that it came in by.
pub data Pc : Type 0 where
  outside : Pc
  waiting : ℕ → Pc  -- in the loop of ticket_spinlock_lock, with my_ticket
  looked : ℕ → Pc  -- in the try, with serving
  claiming : ℕ → Pc  -- before the exchange of the try, with next
  holding : ℕ → Pc

-- `atomic_add_return(1, &lock->next_ticket) - 1`
unfoldable pub my_ticket : ℕ → ℕ
my_ticket next = sub_word 32 1 (atomic_add_return 1 next).0

-- One access of one thread to the lock: the next ticket, the served one, how many tickets have been taken
-- from the start on, and the program point, before and after.
pub data Move (next serving taken : ℕ) : Pc → ℕ → ℕ → ℕ → Pc → Type 0 where
  take :
      Move next serving taken Pc.outside
        (atomic_add_return 1 next).1
        serving
        (suc taken)
        (Pc.waiting (my_ticket next))
  spin :
      {t : ℕ}
      → atomic_read serving ≢ t
      → Move next serving taken (Pc.waiting t) next serving taken (Pc.waiting t)
  enter :
      {t : ℕ}
      → atomic_read serving ≡ t
      → Move next serving taken (Pc.waiting t) next serving taken (Pc.holding t)
  look : Move next serving taken Pc.outside next serving taken (Pc.looked (atomic_read serving))
  busy :
      {s : ℕ}
      → s ≢ atomic_read next
      → Move next serving taken (Pc.looked s) next serving taken Pc.outside
  free :
      {s : ℕ}
      → s ≡ atomic_read next
      → Move next serving taken (Pc.looked s) next serving taken (Pc.claiming (atomic_read next))
  win :
      {n : ℕ}
      → (atomic_cmpxchg next n (add_word 32 1 n)).0 ≡ n
      → Move next serving taken
          (Pc.claiming n)
          (atomic_cmpxchg next n (add_word 32 1 n)).1
          serving
          (suc taken)
          (Pc.holding n)
  lose :
      {n : ℕ}
      → (atomic_cmpxchg next n (add_word 32 1 n)).0 ≢ n
      → Move next serving taken
          (Pc.claiming n)
          (atomic_cmpxchg next n (add_word 32 1 n)).1
          serving
          taken
          Pc.outside
  unlock :
      {t : ℕ} → Move next serving taken (Pc.holding t) next (atomic_inc serving) taken Pc.outside

-- What `n` threads can reach from a lock after ticket_spinlock_init.
pub data Reach (n : ℕ) : ℕ → ℕ → ℕ → List Pc → Type 0 where
  start : Reach n (atomic_set 0 0) (atomic_set 0 0) 0 (replicate n Pc.outside)
  later :
      {next serving taken next' serving' taken' : ℕ} {p p' : Pc} {ps ps' : List Pc}
      → Reach n next serving taken ps
      → Replaced p p' ps ps'
      → Move next serving taken p next' serving' taken' p'
      → Reach n next' serving' taken' ps'
