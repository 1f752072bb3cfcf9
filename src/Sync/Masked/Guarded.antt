-- ===== src/Sync/Masked/Guarded.antt =====
-- A handler never waits for a lock that the code it interrupted holds.
use lun_os.Prelude.{◌≡◌, ◌≢◌, arith, Bool, true, false, none, some}
use lun_os.Sync.Masked.{
  Cpu, Step, save_main, move_main, restore_main, interrupt, save_handler, move_handler,
  restore_handler, interrupt_return, Run, begin, later, save_and_disable_interrupts,
  restore_interrupts,
}

-- Where the interrupts were enabled or not at the start, as `b` says.
pub record IsGuarded (b : Bool) (c : Cpu) : Type 0 where
  pub alone : c.handler ≢ none → c.main ≡ none
  pub masked : c.main ≢ none → c.enabled ≡ false
  pub masked_handler : c.handler ≢ none → c.enabled ≡ false
  pub given_back : c.main ≡ none → c.handler ≡ none → c.enabled ≡ b
  pub remembered : c.main ≢ none → c.main_flags ≡ b
  pub remembered_handler : c.handler ≢ none → c.handler ≢ some none → c.handler_flags ≡ false
  pub interrupted : c.handler ≢ none → b ≡ true

Step-IsGuarded : (b : Bool) (c c' : Cpu) → Step c c' → IsGuarded b c → IsGuarded b c'
unfolding save_and_disable_interrupts restore_interrupts
Step-IsGuarded b c c' (save_main h m) g = ground (arith, g, h, m)
Step-IsGuarded b c c' (move_main v v' p p' h m nz k) g = ground (arith, g, h, m)
Step-IsGuarded b c c' (restore_main h m) g = ground (arith, g, h, m)
Step-IsGuarded b c c' (interrupt h e) g = ground (arith, g, h, e)
Step-IsGuarded b c c' (save_handler h) g = ground (arith, g, h)
Step-IsGuarded b c c' (move_handler v v' p p' h nz k) g = ground (arith, g, h)
Step-IsGuarded b c c' (restore_handler h) g = ground (arith, g, h)
Step-IsGuarded b c c' (interrupt_return h) g = ground (arith, g, h)

-- In every state that a processor can reach whose code and whose interrupt handler take a spinlock with
-- the interrupts saved and disabled: while the handler runs, the code that it interrupted neither
-- holds the lock nor waits for it; while either of the two is between the save and the restore, the
-- interrupts are disabled; and with neither under way they are enabled as they were at the start.
pub Run-IsGuarded : (b : Bool) (c : Cpu) → Run b c → IsGuarded b c
Run-IsGuarded b c (begin f g) = ground arith
Run-IsGuarded b c (later {c = d} r s) = Step-IsGuarded b d c s (Run-IsGuarded b d r)
