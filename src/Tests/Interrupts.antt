-- ===== src/Tests/Interrupts.antt =====
-- The run queue of Tests.Sched, and an interrupt of its processor's timer.
use lun_os.Prelude.{arith, [], ◌∷◌, All, refl}
use lun_os.Interrupts.{InterruptFrame, Core}
use lun_os.Interrupts.Turns.{Resumed, interrupts-fair}
use lun_os.Tests.Sched.{queue-IsList, running}

abbrev core : Core
core = record {
  sched = running;
  apic = record {
    apic_base = 0xFFFF_FF80_0000_0000;
    apic_timer_frequency = 6553500;
    writes = [];
    timing = record { cpu_cycles_per_10ms = 24000000; time = 0 };
  };
}

abbrev tick : InterruptFrame
tick = record { cr2 = 0; int_no = 64; err_code = 0 }

interrupts-fair_example : All (Resumed 0 tick core 2) (1 ∷ 2 ∷ [])
interrupts-fair_example =
    interrupts-fair 0 tick core [] (2 ∷ []) refl queue-IsList tt (omega arith, omega arith)
      ((omega arith, omega arith), tt)
