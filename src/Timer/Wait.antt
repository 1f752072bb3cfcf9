-- ===== src/Timer/Wait.antt =====
-- The wait lasts as many cycles as the calibration found.
use lun_os.Prelude.{
  ℕ, zero, suc, ◌+◌, ◌-◌, ◌*◌, ◌^◌, ◌≤◌, ◌<◌, ◌≡◌, refl, ap, arith, true, false, some, ltb, ◌==◌,
  add64, ℕ_discrete, dec_lt,
}
use lun_os.Timer.{Hardware, Timing, wait_until, cpu_wait_10ms}
use lun_os.Timer.Ends.{IsTicking, calibrate_cpu_timing_ends}

grows :
    (k life t u : ℕ) (m : Hardware)
    → ((x : ℕ) → x < life → m.tsc x < m.tsc (x + 1))
    → t + k ≡ u
    → u ≤ life
    → m.tsc t + k ≤ m.tsc u
grows zero life t u m rises at_u l =
    let same : m.tsc t ≡ m.tsc u = ap (λ (x : ℕ). m.tsc x) (omega (arith, at_u)) in
    omega (arith, same)
grows (suc k) life t u m rises at_u l =
    let one : m.tsc t < m.tsc (t + 1) = rises t (omega (arith, at_u, l)) in
    let rest : m.tsc (t + 1) + k ≤ m.tsc u =
      grows k life (t + 1) u m rises (omega (arith, at_u)) l in
    omega (arith, one, rest)

wait_until_ends :
    (k fuel life target t : ℕ) (m : Hardware)
    → k < fuel
    → ((x : ℕ) → x < life → m.tsc x < m.tsc (x + 1))
    → t + k ≤ life
    → target ≤ m.tsc t + k
    → (t' : ℕ) × (wait_until fuel m target t ≡ some (t' + 1))
      × (t ≤ t')
      × (t' ≤ t + k)
      × (target ≤ m.tsc t')
unfolding wait_until
wait_until_ends k zero life target t m h rises l b = elim h [ ]
wait_until_ends k (suc fuel) life target t m h rises l b = elim (dec_lt (m.tsc t) target) [
  | no over ↦
      let q : ltb (m.tsc t) target ≡ false = ground (arith, over) in
      (t, rw q refl, omega arith, omega arith, omega (arith, over))
  | yes before ↦
      let q : ltb (m.tsc t) target ≡ true = ground (arith, before) in
      let up : m.tsc t < m.tsc (t + 1) = rises t (omega (arith, before, b, l)) in
      let (t', r, a, e, end) =
        wait_until_ends (k - 1) fuel life target (t + 1) m (omega (arith, h, before, b)) rises
          (omega (arith, l, before, b)) (omega (arith, up, b, before)) in
      (t', rw q r, omega (arith, a), omega (arith, e, before, b), end)
]

-- The counter was calibrated, or kept what it was calibrated to, and between two reads of the wait it
-- went up by that many cycles.
pub record IsWaited (m : Hardware) (s s' : Timing) : Type 0 where
  pub calibrated : (0 < s'.cpu_cycles_per_10ms) × (s'.cpu_cycles_per_10ms ≤ 100000000)
  pub kept : 0 < s.cpu_cycles_per_10ms → s'.cpu_cycles_per_10ms ≡ s.cpu_cycles_per_10ms
  pub start : ℕ
  pub last : ℕ
  pub order : (s.time ≤ start) × (start < last) × (s'.time ≡ last + 1)
  pub waited : m.tsc start + s'.cpu_cycles_per_10ms ≤ m.tsc last

-- From a calibrated counter.
wait_IsWaited :
    (fuel n life : ℕ) (m : Hardware) (s : Timing)
    → IsTicking m n life
    → 100000000 < fuel
    → (0 < s.cpu_cycles_per_10ms) × (s.cpu_cycles_per_10ms ≤ 100000000)
    → s.time + 100000001 ≤ life
    → (t' : ℕ) × (wait_until fuel m (add64 (m.tsc s.time) s.cpu_cycles_per_10ms) (s.time + 1)
        ≡ some (t' + 1))
      × (s.time < t')
      × (m.tsc s.time + s.cpu_cycles_per_10ms ≤ m.tsc t')
wait_IsWaited fuel n life m s i h (pos, le) l =
    let c = s.cpu_cycles_per_10ms in
    let up : m.tsc s.time + c ≤ m.tsc (s.time + c) =
      grows c life s.time (s.time + c) m i.rises refl (omega (arith, l, le)) in
    let word : m.tsc (s.time + c) < 2 ^ 64 = i.words (s.time + c) (omega (arith, l, le)) in
    let target : add64 (m.tsc s.time) c ≡ m.tsc s.time + c = omega (arith, up, word) in
    let one : m.tsc s.time < m.tsc (s.time + 1) = i.rises s.time (omega (arith, l)) in
    let (t', r, a, b, e) =
      wait_until_ends c fuel life (add64 (m.tsc s.time) c) (s.time + 1) m (omega (arith, h, le))
        i.rises (omega (arith, l, le)) (omega (arith, target, one)) in
    (t', r, omega (arith, a), omega (arith, e, target))

-- Where the clock shows the end of its update and another second within n reads of any read, the counter
-- rises at each read up to `life` and does not wrap until then, CPUID tells at most 10000 MHz, the
-- counter was calibrated to at most 10 ^ 8 cycles or not at all, and fuel and `life` are enough,
-- cpu_wait_10ms returns, the counter is calibrated to 1 to 10 ^ 8 cycles after it, to what it was
-- before if it was calibrated, and went up by at least that much while it waited.
pub cpu_wait_10ms-IsWaited :
    (fuel n life : ℕ) (m : Hardware) (s : Timing)
    → IsTicking m n life
    → n + 1 < fuel
    → 100000000 < fuel
    → s.cpu_cycles_per_10ms ≤ 100000000
    → s.time + 3 * n + 100000007 ≤ life
    → (s' : Timing) × (cpu_wait_10ms fuel m s ≡ some s') × IsWaited m s s'
unfolding cpu_wait_10ms
cpu_wait_10ms-IsWaited fuel n life m s i h1 h2 c l = elim (ℕ_discrete s.cpu_cycles_per_10ms 0) [
  | yes z ↦
      let z' : (s.cpu_cycles_per_10ms == 0) ≡ true = ground (arith, z) in
      let (s1, r, pos, le, a, b) = calibrate_cpu_timing_ends fuel n life m s i h1 z in
      let (t', e, order, waited) =
        wait_IsWaited fuel n life m s1 i h2 (pos, le) (omega (arith, b, l)) in
      (
        record s1 { time = t' + 1 },
        rw (z', r, e) refl,
        record {
          calibrated = (pos, le);
          kept = λ p. absurd (omega (arith, p, z));
          start = s1.time;
          last = t';
          order = (a, order, refl);
          waited = waited;
        },
      )
  | no set ↦
      let z' : (s.cpu_cycles_per_10ms == 0) ≡ false = ground (arith, set) in
      let pos : 0 < s.cpu_cycles_per_10ms = omega (arith, set) in
      let (t', e, order, waited) = wait_IsWaited fuel n life m s i h2 (pos, c) (omega (arith, l)) in
      (
        record s { time = t' + 1 },
        rw (z', e) refl,
        record {
          calibrated = (pos, c);
          kept = λ p. refl;
          start = s.time;
          last = t';
          order = (omega arith, order, refl);
          waited = waited;
        },
      )
]
