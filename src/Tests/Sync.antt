-- ===== src/Tests/Sync.antt =====
-- Locks shared by three threads, of which one or two have got in.
use lun_os.Prelude.{
  ℕ, ◌≤◌, ◌≢◌, true, false, none, some, List, leb, ltb, ◌&&◌, if◌then◌else◌, ◌^◌, ◌≡◌, ◌⊎◌, refl,
  [], ◌∷◌, arith,
}
use lun_os.Sync.Atomic.{
  atomic_set, atomic_xchg, atomic_read, atomic_cmpxchg, atomic_add_return, add_return, add_word,
  sub_word,
}
use lun_os.Sync.Threads.{Replaced, replicate, total}
use lun_os.Sync.Spinlock
use lun_os.Sync.Spinlock.{acquire_order}
use lun_os.Sync.Spinlock.Exclusion.{holds, mutual_exclusion}
use lun_os.Sync.Masked.{Cpu, save_main, move_main, Run, begin, later, save_and_disable_interrupts}
use lun_os.Sync.Masked.Guarded.{IsGuarded, Run-IsGuarded}
use lun_os.Sync.Ticket
use lun_os.Sync.Ticket.{my_ticket}
use lun_os.Sync.Ticket.Turns
use lun_os.Sync.Ticket.Turns.{has, held, tickets_in_turn}
use lun_os.Sync.Rwlock
use lun_os.Sync.Rwlock.{has_writer, new_val, overflows}
use lun_os.Sync.Rwlock.Exclusion.{reads, writes, readers_or_writer}

-- The first thread has got the spinlock; the second has tried, and waits.
one_holds :
    Spinlock.Reach 3 1 (Spinlock.Pc.holding ∷ Spinlock.Pc.waiting ∷ Spinlock.Pc.outside ∷ [])
unfolding atomic_set atomic_xchg replicate
one_holds =
    Spinlock.Reach.later
      (Spinlock.Reach.later
        (Spinlock.Reach.later
          (Spinlock.Reach.later Spinlock.Reach.start Replaced.here Spinlock.Move.call) Replaced.here
          (Spinlock.Move.win refl))
        (Replaced.there Replaced.here) Spinlock.Move.call)
      (Replaced.there Replaced.here) (Spinlock.Move.lose (omega arith))

mutual_exclusion_example :
    ((◌≡◌ {A = ℕ} 1 0)
      × (total holds (Spinlock.Pc.holding ∷ Spinlock.Pc.waiting ∷ Spinlock.Pc.outside ∷ []) ≡ 0))
    ⊎ ((◌≡◌ {A = ℕ} 1 1)
        × (total holds (Spinlock.Pc.holding ∷ Spinlock.Pc.waiting ∷ Spinlock.Pc.outside ∷ []) ≡ 1))
mutual_exclusion_example =
    mutual_exclusion 3 1 (Spinlock.Pc.holding ∷ Spinlock.Pc.waiting ∷ Spinlock.Pc.outside ∷ [])
      one_holds

-- The first thread has got in with rwlock_read_lock, the second with rwlock_read_trylock.
two_read : Rwlock.Reach 2 2 (Rwlock.Pc.reading ∷ Rwlock.Pc.reading ∷ [])
unfolding atomic_set atomic_read atomic_cmpxchg has_writer new_val overflows replicate
two_read =
    Rwlock.Reach.later
      (Rwlock.Reach.later
        (Rwlock.Reach.later
          (Rwlock.Reach.later
            (Rwlock.Reach.later Rwlock.Reach.start Replaced.here Rwlock.Move.read_call)
            Replaced.here (Rwlock.Move.read_go refl))
          Replaced.here (Rwlock.Move.read_win refl))
        (Replaced.there Replaced.here) (Rwlock.Move.try_go refl refl))
      (Replaced.there Replaced.here) (Rwlock.Move.try_win refl)

readers_or_writer_example :
    ((2 ≡ total reads (Rwlock.Pc.reading ∷ Rwlock.Pc.reading ∷ []))
      × (total writes (Rwlock.Pc.reading ∷ Rwlock.Pc.reading ∷ []) ≡ 0))
    ⊎ ((2 ≡ 2 ^ 31)
        × (total reads (Rwlock.Pc.reading ∷ Rwlock.Pc.reading ∷ []) ≡ 0)
        × (total writes (Rwlock.Pc.reading ∷ Rwlock.Pc.reading ∷ []) ≡ 1))
readers_or_writer_example =
    readers_or_writer 2 2 (Rwlock.Pc.reading ∷ Rwlock.Pc.reading ∷ []) (omega arith) two_read

-- The first thread has got the ticket lock, and the second has the next ticket.
abbrev in_line : List Ticket.Pc
in_line = Ticket.Pc.holding 0 ∷ Ticket.Pc.waiting 1 ∷ Ticket.Pc.outside ∷ []

second_waits : Ticket.Reach 3 2 0 2 in_line
unfolding atomic_set atomic_read my_ticket atomic_add_return add_return add_word sub_word replicate
second_waits =
    Ticket.Reach.later
      (Ticket.Reach.later (Ticket.Reach.later Ticket.Reach.start Replaced.here Ticket.Move.take)
        Replaced.here (Ticket.Move.enter refl))
      (Replaced.there Replaced.here) Ticket.Move.take

tickets_in_turn_example :
    (total Turns.holds in_line ≤ 1)
    × ((k : ℕ) → k ≢ 0 → total (held k) in_line ≡ 0)
    × (0 ≤ 2)
    × ((k : ℕ) → total (has k) in_line ≡ (if leb 0 k && ltb k 2 then 1 else 0))
tickets_in_turn_example = tickets_in_turn 3 2 0 2 in_line second_waits (omega arith)

-- A processor that takes the lock with its interrupts on, gets it, and is not interrupted.
holder : Cpu
holder = record {
  enabled = false;
  main = some Spinlock.holding;
  main_flags = true;
  handler = none;
  handler_flags = false;
}

holder-Run : Run true holder
unfolding holder save_and_disable_interrupts atomic_xchg
holder-Run = later (later (begin false false) (save_main refl refl)) (
    move_main 0 1 Spinlock.trying Spinlock.holding refl refl (λ e. ground (arith, e))
      (Spinlock.win (ground arith)))

Run-IsGuarded_example : IsGuarded true holder
Run-IsGuarded_example = Run-IsGuarded true holder holder-Run
