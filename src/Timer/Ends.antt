-- ===== src/Timer/Ends.antt =====
-- The calibration ends.
use lun_os.Prelude.{
  ℕ, zero, suc, ◌+◌, ◌*◌, ◌/◌, ◌%◌, ◌^◌, ◌≤◌, ◌<◌, ◌≡◌, ◌≢◌, refl, ap, ◌∙◌, arith, true, false,
  some, ltb, ◌==◌, bit_and, sub64, ℕ_discrete, dec_lt,
}
use lun_os.Timer.{
  Hardware, Timing, get_cpu_frequency_mhz, rtc_seconds, rtc_register_a, update_complete,
  second_changed, calibrate_with_rtc, calibrate_with_known_frequencies, check_rtc,
  calibrate_cpu_timing,
}

-- The update of the clock is over, and the seconds show another value than `v`, within `n` reads of any
-- read; the counter rises at each read before `life` and does not wrap; CPUID tells at most 10 GHz.
pub record IsTicking (m : Hardware) (n life : ℕ) : Type 0 where
  pub settles : (t : ℕ) → (k : ℕ) × (k ≤ n) × (bit_and (m.rtc rtc_register_a (t + k)) 0x80 ≡ 0)
  pub changes : (t v : ℕ) → (k : ℕ) × (k ≤ n) × (m.rtc rtc_seconds (t + k) ≢ v)
  pub rises : (t : ℕ) → t < life → m.tsc t < m.tsc (t + 1)
  pub words : (t : ℕ) → t ≤ life → m.tsc t < 2 ^ 64
  pub frequency : get_cpu_frequency_mhz m ≤ 10000

update_complete_ends :
    (k fuel : ℕ) (m : Hardware) (t u : ℕ)
    → t + k ≡ u
    → k < fuel
    → bit_and (m.rtc rtc_register_a u) 0x80 ≡ 0
    → (t' : ℕ) × (update_complete fuel m t ≡ some t') × (t ≤ t') × (t' ≤ u + 1)
unfolding update_complete
update_complete_ends k zero m t u at_u h e = elim h [ ]
update_complete_ends zero (suc fuel) m t u at_u h e =
    let now : bit_and (m.rtc rtc_register_a t) 0x80 ≡ 0 =
      ap (λ (x : ℕ). bit_and (m.rtc rtc_register_a x) 0x80) (omega (arith, at_u)) ∙ e in
    (t + 1, rw now refl, omega arith, omega (arith, at_u))
update_complete_ends (suc k) (suc fuel) m t u at_u h e =
    let (t', r, a, b) =
      update_complete_ends k fuel m (t + 1) u (omega (arith, at_u)) (omega (arith, h)) e in
    elim (ℕ_discrete (bit_and (m.rtc rtc_register_a t) 0x80) 0) [
      | yes q ↦ (t + 1, rw q refl, omega arith, omega (arith, at_u))
      | no q ↦
          let q' : (bit_and (m.rtc rtc_register_a t) 0x80 == 0) ≡ false = ground (arith, q) in
          (t', rw q' r, omega (arith, a), b)
    ]

second_changed_ends :
    (k fuel : ℕ) (m : Hardware) (start_second current_second t u : ℕ)
    → t + k ≡ u
    → suc k < fuel
    → m.rtc rtc_seconds u ≢ start_second
    → (c t' : ℕ) × (second_changed fuel m start_second current_second t ≡ some (c, t'))
      × (t ≤ t')
      × (t' ≤ u + 1)
unfolding second_changed
second_changed_ends k zero m v c t u at_u h e = elim h [ ]
second_changed_ends zero (suc zero) m v c t u at_u h e = absurd (omega (arith, h))
second_changed_ends zero (suc (suc fuel)) m v c t u at_u h e =
    let now : m.rtc rtc_seconds t ≡ m.rtc rtc_seconds u =
      ap (λ (x : ℕ). m.rtc rtc_seconds x) (omega (arith, at_u)) in
    let q : (m.rtc rtc_seconds t == v) ≡ false = ground (arith, e, now) in
    elim (ℕ_discrete c v) [
      | yes p ↦
          let p' : (c == v) ≡ true = ground (arith, p) in
          (m.rtc rtc_seconds t, t + 1, rw (p', q) refl, omega arith, omega (arith, at_u))
      | no p ↦
          let p' : (c == v) ≡ false = ground (arith, p) in
          (c, t, rw p' refl, omega arith, omega (arith, at_u))
    ]
second_changed_ends (suc k) (suc (suc fuel)) m v c t u at_u h e =
    let (c', t', r, a, b) =
      second_changed_ends k (suc fuel) m v (m.rtc rtc_seconds t) (t + 1) u (omega (arith, at_u))
        (omega (arith, h)) e in
    elim (ℕ_discrete c v) [
      | yes p ↦
          let p' : (c == v) ≡ true = ground (arith, p) in (c', t', rw p' r, omega (arith, a), b)
      | no p ↦
          let p' : (c == v) ≡ false = ground (arith, p) in
          (c, t, rw p' refl, omega arith, omega (arith, at_u))
    ]
second_changed_ends (suc k) (suc zero) m v c t u at_u h e = absurd (omega (arith, h))

-- Enough fuel for the clock is enough for the measure.
calibrate_with_rtc_ends :
    (fuel n life : ℕ) (m : Hardware) (s : Timing)
    → IsTicking m n life
    → n + 1 < fuel
    → (s' : Timing) × (calibrate_with_rtc fuel m s ≡ some s')
      × (s.time ≤ s'.time)
      × (s'.time ≤ s.time + 3 * n + 6)
unfolding calibrate_with_rtc
calibrate_with_rtc_ends fuel n life m s i h =
    let (k1, l1, e1) = i.settles s.time in
    let (t1, r1, a1, b1) =
      update_complete_ends k1 fuel m s.time (s.time + k1) refl (omega (arith, l1, h)) e1 in
    let v = m.rtc rtc_seconds t1 in
    let (k2, l2, e2) = i.changes (t1 + 1) v in
    let (c, t2, r2, a2, b2) =
      second_changed_ends k2 fuel m v v (t1 + 1) (t1 + 1 + k2) refl (omega (arith, l2, h)) e2 in
    let (k3, l3, e3) = i.changes (t2 + 1) c in
    let (c', t3, r3, a3, b3) =
      second_changed_ends k3 fuel m c c (t2 + 1) (t2 + 1 + k3) refl (omega (arith, l3, h)) e3 in
    let s' : Timing = record {
      cpu_cycles_per_10ms = sub64 (m.tsc t3) (m.tsc t2) / 100;
      time = t3 + 1;
    } in
    (s', rw (r1, r2, r3) refl, omega (arith, a1, a2, a3), omega (arith, b1, b2, b3, l1, l2, l3))

-- What is calibrated is neither 0 nor more than 10 GHz allow.
check_rtc-bounds :
    (s : Timing)
    → (0 < (check_rtc s).cpu_cycles_per_10ms)
      × ((check_rtc s).cpu_cycles_per_10ms ≤ 100000000)
      × ((check_rtc s).time ≡ s.time)
unfolding check_rtc calibrate_with_known_frequencies
check_rtc-bounds s = ground arith

pub calibrate_cpu_timing_ends :
    (fuel n life : ℕ) (m : Hardware) (s : Timing)
    → IsTicking m n life
    → n + 1 < fuel
    → s.cpu_cycles_per_10ms ≡ 0
    → (s' : Timing) × (calibrate_cpu_timing fuel m s ≡ some s')
      × (0 < s'.cpu_cycles_per_10ms)
      × (s'.cpu_cycles_per_10ms ≤ 100000000)
      × (s.time ≤ s'.time)
      × (s'.time ≤ s.time + 3 * n + 6)
unfolding calibrate_cpu_timing
calibrate_cpu_timing_ends fuel n life m s i h z =
    let mhz = get_cpu_frequency_mhz m in
    let z' : (s.cpu_cycles_per_10ms == 0) ≡ true = ground (arith, z) in
    elim (dec_lt 0 mhz) [
      | yes pos ↦
          let pos' : ltb 0 mhz ≡ true = ground (arith, pos) in
          let s' : Timing = record s { cpu_cycles_per_10ms = mhz * 10000 % 2 ^ 64 } in
          (
            s',
            rw (z', pos') refl,
            omega (arith, pos, i.frequency),
            omega (arith, pos, i.frequency),
            omega arith,
            omega arith,
          )
      | no none_told ↦
          let q : ltb 0 mhz ≡ false = ground (arith, none_told) in
          let (s', r, a, b) = calibrate_with_rtc_ends fuel n life m s i h in
          let (pos, le, same) = check_rtc-bounds s' in
          (
            check_rtc s',
            rw (z', q, r) refl,
            pos,
            le,
            omega (arith, a, same),
            omega (arith, b, same),
          )
    ]
