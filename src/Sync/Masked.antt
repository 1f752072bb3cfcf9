-- ===== src/Sync/Masked.antt =====
-- The spinlock with the interrupts of the processor off: spinlock_lock_intsave and
-- spinlock_unlock_intrestore of include/kernel/spinlock.h, on one processor whose code may be
-- interrupted by a handler that takes the same lock. What the other processors do to the lock's word is
-- arbitrary.
pub mod Guarded
use lun_os.Prelude.{ℕ, ◌≡◌, ◌≢◌, Bool, true, false, Option, none, some}
use lun_os.Sync.Spinlock.{Pc, Move, outside, trying}

-- The interrupt flag is what matters of the flags: what is saved, and the flag after it.
unfoldable pub save_and_disable_interrupts : Bool → Bool × Bool
save_and_disable_interrupts enabled = (enabled, false)

unfoldable pub restore_interrupts : Bool → Bool
restore_interrupts flags = flags

-- Where code stands that takes the lock: none before it, and outside of the spinlock again before the
-- flags are restored.
abbrev pub Place : Type 0
Place = Option Pc

-- The interrupt flag, the interrupted code with the flags it saved, and the handler, if it runs, with
-- the flags that it saved.
pub record Cpu : Type 0 where
  pub enabled : Bool
  pub main : Place
  pub main_flags : Bool
  pub handler : Option Place
  pub handler_flags : Bool

-- One step of the processor. The flag is off when a handler starts, and on again when it ends.
pub data Step (c : Cpu) : Cpu → Type 0 where
  save_main :
      c.handler ≡ none
      → c.main ≡ none
      → Step c record c {
        main = some trying;
        main_flags = (save_and_disable_interrupts c.enabled).0;
        enabled = (save_and_disable_interrupts c.enabled).1;
      }
  move_main :
      (v v' : ℕ) (p p' : Pc)
      → c.handler ≡ none
      → c.main ≡ some p
      → p ≢ outside
      → Move v p v' p'
      → Step c record c { main = some p' }
  restore_main :
      c.handler ≡ none
      → c.main ≡ some outside
      → Step c record c { main = none; enabled = restore_interrupts c.main_flags }
  interrupt :
      c.handler ≡ none → c.enabled ≡ true → Step c record c { handler = some none; enabled = false }
  save_handler :
      c.handler ≡ some none
      → Step c record c {
        handler = some (some trying);
        handler_flags = (save_and_disable_interrupts c.enabled).0;
        enabled = (save_and_disable_interrupts c.enabled).1;
      }
  move_handler :
      (v v' : ℕ) (p p' : Pc)
      → c.handler ≡ some (some p)
      → p ≢ outside
      → Move v p v' p'
      → Step c record c { handler = some (some p') }
  restore_handler :
      c.handler ≡ some (some outside)
      → Step c record c { handler = some none; enabled = restore_interrupts c.handler_flags }
  interrupt_return : c.handler ≡ some none → Step c record c { handler = none; enabled = true }

-- What the processor can reach from code that neither holds nor wants the lock, no handler running.
pub data Run (b : Bool) : Cpu → Type 0 where
  begin :
      (f g : Bool)
      → Run b record { enabled = b; main = none; main_flags = f; handler = none; handler_flags = g }
  later : {c c' : Cpu} → Run b c → Step c c' → Run b c'
