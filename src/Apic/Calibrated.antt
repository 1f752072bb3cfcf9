-- ===== src/Apic/Calibrated.antt =====
-- The timer's frequency, found by a wait of 10 ms.
use lun_os.Prelude.{
  ℕ, ◌+◌, ◌-◌, ◌*◌, ◌%◌, ◌^◌, ◌≤◌, ◌<◌, ◌≡◌, ◌≢◌, refl, ◌∙◌, arith, false, some, List, ◌∷◌, ◌==◌,
}
use lun_os.Timer.{Hardware, Timing}
use lun_os.Timer.Ends.{IsTicking}
use lun_os.Timer.Wait.{IsWaited, cpu_wait_10ms-IsWaited}
use lun_os.Apic.{
  Device, Apic, apic_read, apic_write, apic_timer_calibrate, apic_timer_lvt, apic_timer_initial,
}
use lun_os.Apic.Periodic.{IsStored}

-- The wait lasted as IsWaited says, `ticks` are what the timer counted down from 2 ^ 32 - 1 in it, the
-- frequency is a hundred times that, in 32 bits, and the timer is masked and stopped.
pub record IsCalibrated (m : Hardware) (device : Device) (s s' : Apic) : Type 0 where
  pub waited : IsWaited m s.timing s'.timing
  pub ticks : ℕ
  pub counted :
      device s'.timing.time ((0xE0, 0xFFFF_FFFF) ∷ (0xF8, 3) ∷ (0xC8, 0x10000) ∷ s.writes) 0xE4
        + ticks
      ≡ 0xFFFF_FFFF
  pub frequency : s'.apic_timer_frequency ≡ ticks * 100 % 2 ^ 32
  pub masked : apic_read device apic_timer_lvt s' ≡ 0x10000
  pub stopped : apic_read device apic_timer_initial s' ≡ 0

-- Where IsTicking and the bounds of cpu_wait_10ms-IsWaited hold, the registers are mapped, the timer's
-- vector and initial count show what was written to them and the current count is 32 bits wide,
-- apic_timer_calibrate returns, and IsCalibrated holds of the state after it.
pub apic_timer_calibrate-IsCalibrated :
    (fuel n life : ℕ) (m : Hardware) (device : Device) (s : Apic)
    → IsTicking m n life
    → n + 1 < fuel
    → 100000000 < fuel
    → s.timing.cpu_cycles_per_10ms ≤ 100000000
    → s.timing.time + 3 * n + 100000007 ≤ life
    → s.apic_base ≢ 0
    → IsStored device apic_timer_lvt
    → IsStored device apic_timer_initial
    → ((time : ℕ) (w : List (ℕ × ℕ)) → device time w 0xE4 < 2 ^ 32)
    → (s' : Apic) × (apic_timer_calibrate fuel m device s ≡ some s') × IsCalibrated m device s s'
unfolding apic_timer_calibrate apic_read apic_write
apic_timer_calibrate-IsCalibrated fuel n life m device s i h1 h2 c l mapped lvt initial current =
    let base : (s.apic_base == 0) ≡ false = ground (arith, mapped) in
    let (t, r, waited) = cpu_wait_10ms-IsWaited fuel n life m s.timing i h1 h2 c l in
    let w = (0xE0, 0xFFFF_FFFF) ∷ (0xF8, 3) ∷ (0xC8, 0x10000) ∷ s.writes in
    let now = device t.time w 0xE4 in
    let ticks = (0xFFFF_FFFF + 2 ^ 32 - now) % 2 ^ 32 in
    let s' : Apic = record {
      apic_base = s.apic_base;
      apic_timer_frequency = ticks * 100 % 2 ^ 32;
      writes = (0xE0, 0) ∷ (0xC8, 0x10000) ∷ w;
      timing = t;
    } in
    (
      s',
      ground (arith, mapped, r),
      record {
        waited = waited;
        ticks = ticks;
        counted = omega (arith, current t.time w);
        frequency = refl;
        masked = rw base (initial_last t w);
        stopped = rw base (initial.shows t.time 0 ((0xC8, 0x10000) ∷ w) (omega arith));
      },
    )
  where
    initial_last :
        (t : Timing) (w : List (ℕ × ℕ))
        → device t.time ((0xE0, 0) ∷ (0xC8, 0x10000) ∷ w) 0xC8 ≡ 0x10000
    initial_last t w =
        lvt.keeps t.time 0xE0 0 ((0xC8, 0x10000) ∷ w) (omega arith)
        ∙ lvt.shows t.time 0x10000 w (omega arith)
