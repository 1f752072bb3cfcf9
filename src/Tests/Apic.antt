-- ===== src/Tests/Apic.antt =====
-- A machine whose clock takes one read per second and whose CPUID tells nothing, with a device that
-- shows the last write to a register, and in the current count always the same.
use lun_os.Prelude.{
  ℕ, ◌+◌, ◌/◌, ◌%◌, ◌^◌, ◌<◌, ◌≡◌, ◌≢◌, refl, arith, List, [], ◌∷◌, some, ◌==◌, if◌then◌else◌,
  ℕ_discrete,
}
use lun_os.Timer.{Hardware, get_cpu_frequency_mhz}
use lun_os.Timer.Ends.{IsTicking}
use lun_os.Apic.{
  Device, Apic, apic_timer_calibrate, apic_spurious_vector, apic_timer_lvt, apic_timer_initial,
}
use lun_os.Apic.Periodic.{IsStored, IsPeriodic, apic_timer-IsPeriodic}
use lun_os.Apic.Calibrated.{IsCalibrated, apic_timer_calibrate-IsCalibrated}

abbrev machine : Hardware
machine = record {
  eax_15 = 0;
  ebx_15 = 0;
  ecx_15 = 0;
  eax_16 = 0;
  tsc = λ t. t;
  rtc = λ reg t. if reg == 0 then t % 60 else 0;
}

another_second : (t v : ℕ) → (k : ℕ) × (k < 2) × ((t + k) % 60 ≢ v)
another_second t v = elim (ℕ_discrete (t % 60) v) [
  | yes e ↦ (1, omega arith, λ f. omega (arith, e, f))
  | no ne ↦ (0, omega arith, λ f. ne (omega (arith, f)))
]

machine-IsTicking : IsTicking machine 1 1000000000
unfolding get_cpu_frequency_mhz
machine-IsTicking = record {
  settles = λ t. (0, omega arith, refl);
  changes = λ t v. let (k, l, e) = another_second t v in (k, omega (arith, l), e);
  rises = λ t l. omega arith;
  words = λ t l. omega (arith, l);
  frequency = omega arith;
}

last_write : List (ℕ × ℕ) → ℕ → ℕ
last_write [] reg = 0
last_write ((r, v) ∷ w) reg = let rest = last_write w reg in if r == reg then v else rest

abbrev device : Device
device time w reg = if reg == 0xE4 then 0xFFFF_0000 else last_write w reg

device-IsStored : (reg : ℕ) → reg / 4 ≢ 0xE4 → IsStored device reg
unfolding last_write
device-IsStored reg h = record {
  shows = λ time v w b. ground (arith, h);
  keeps = λ time r v w ne. ground (arith, h, ne);
}

current_word : (time : ℕ) (w : List (ℕ × ℕ)) → device time w 0xE4 < 2 ^ 32
current_word time w = omega arith

abbrev fresh : Apic
fresh = record {
  apic_base = 0xFFFF_FF80_0000_0000;
  apic_timer_frequency = 0;
  writes = [];
  timing = record { cpu_cycles_per_10ms = 0; time = 0 };
}

apic_timer_calibrate_example :
    (s' : Apic) × (apic_timer_calibrate 200000000 machine device fresh ≡ some s')
    × IsCalibrated machine device fresh s'
apic_timer_calibrate_example =
    apic_timer_calibrate-IsCalibrated 200000000 1 1000000000 machine device fresh machine-IsTicking
      (omega arith) (omega arith) (omega arith) (omega arith) (λ e. omega (arith, e))
      (device-IsStored apic_timer_lvt (λ e. omega (arith, e)))
      (device-IsStored apic_timer_initial (λ e. omega (arith, e))) current_word

abbrev calibrated : Apic
calibrated = record fresh { apic_timer_frequency = 6553500 }

apic_timer_example : IsPeriodic device 100 calibrated
apic_timer_example =
    apic_timer-IsPeriodic device calibrated 100
      (device-IsStored apic_spurious_vector (λ e. omega (arith, e)))
      (device-IsStored apic_timer_lvt (λ e. omega (arith, e)))
      (device-IsStored apic_timer_initial (λ e. omega (arith, e))) (λ e. omega (arith, e))
      (λ e. omega (arith, e)) (omega arith) (λ e. omega (arith, e))
