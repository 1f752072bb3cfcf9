-- ===== src/Apic/Periodic.antt =====
-- The timer of a processor from its start to its periodic interrupts.
use lun_os.Prelude.{
  ℕ, ◌+◌, ◌-◌, ◌*◌, ◌/◌, ◌%◌, ◌^◌, ◌≤◌, ◌<◌, ◌≡◌, ◌≢◌, refl, ap, subst, ◌∙◌, ◌⊎◌, inl, inr, arith,
  false, List, ◌∷◌, ◌==◌, bit_and, bit_or, success, ℕ_discrete,
}
use native.Mathlib.Nat.{div-mul-le_self, div-le_self, lt-mul-div-succ, mul_comm}
use lun_os.Prelude.Bits.{bit_and-pow, bit_or-div, bit_or_high_low, bit_or-one, bit_and_field}
use lun_os.Apic.{
  Device, Apic, apic_read, apic_write, apic_timer_init_cpu, apic_timer_set_frequency,
  apic_timer_enable, apic_timer_disable, apic_timer_lvt, apic_timer_initial, apic_spurious_vector,
}

-- The register shows at every time the last 32 bits written to it.
pub record IsStored (device : Device) (reg : ℕ) : Type 0 where
  pub shows :
      (time v : ℕ) (w : List (ℕ × ℕ)) → v < 2 ^ 32 → device time ((reg / 4, v) ∷ w) (reg / 4) ≡ v
  pub keeps :
      (time r v : ℕ) (w : List (ℕ × ℕ))
      → r ≢ reg / 4
      → device time ((r, v) ∷ w) (reg / 4) ≡ device time w (reg / 4)

-- The vector that is written with the APIC's bit 8 set.
abbrev spurious_vector : ℕ → ℕ
spurious_vector x = bit_or (bit_and (bit_or x 0x100) (2 ^ 32 - 1 - 0xFF)) 0xFF

spurious_vector_lem :
    (x : ℕ) → (bit_and (spurious_vector x) 0x100 ≡ 0x100) × (spurious_vector x < 2 ^ 32)
spurious_vector_lem x =
    let q = bit_or x 0x100 / 2 ^ 8 in
    let odd : q % 2 ≡ 1 =
      ap (λ (z : ℕ). z % 2) (bit_or-div 8 x 0x100) ∙ (bit_or-one (x / 2 ^ 8)).0 in
    let v : spurious_vector x ≡ q % 2 ^ 24 * 2 ^ 8 + 255 =
      ap (λ (z : ℕ). bit_or z 0xFF) (bit_and_field 8 24 (bit_or x 0x100))
      ∙ bit_or_high_low 8 (q % 2 ^ 24) 255 (omega arith) in
    (bit_and-pow 8 (spurious_vector x) ∙ omega (arith, v, odd), omega (arith, v))

module _ (device : Device) (s : Apic) (mapped : s.apic_base ≢ 0) where
  is_mapped : (s.apic_base == 0) ≡ false
  is_mapped = ground (arith, mapped)

  enabled_writes : List (ℕ × ℕ)
  enabled_writes =
      (0xA0, 0)
      ∷ (0xA0, 0)
      ∷ (0xDC, 0x10000)
      ∷ (0xD8, 0x10000)
      ∷ (0xD4, 0x10000)
      ∷ (0xC8, 0x10000)
      ∷ (0x3C, spurious_vector (device s.timing.time s.writes 0x3C))
      ∷ s.writes

  init_cpu_success :
      IsStored device apic_spurious_vector
      → apic_timer_init_cpu device s ≡ (success, record s { writes = (0x2C, 0) ∷ enabled_writes })
  unfolding apic_timer_init_cpu apic_read apic_write enabled_writes
  init_cpu_success stored =
      let x = device s.timing.time s.writes 0x3C in
      let (bit, word) = spurious_vector_lem x in
      let shown = stored.shows s.timing.time (spurious_vector x) s.writes word in
      let on : (bit_and (device s.timing.time ((0x3C, spurious_vector x) ∷ s.writes) 0x3C) 0x100
            == 0)
          ≡ false =
        ground (arith, ap (λ (z : ℕ). bit_and z 0x100) shown ∙ bit) in
      ground (arith, mapped, on)

  set_frequency_writes :
      (f : ℕ)
      → s.apic_timer_frequency ≢ 0
      → f ≢ 0
      → (count : ℕ) × (apic_timer_set_frequency f s ≡ record s {
        writes =
            (apic_timer_initial / 4, count) ∷ (apic_timer_lvt / 4, 0x30040) ∷ (0xF8, 3) ∷ s.writes;
      })
        × (0 < count)
        × ((count * f ≤ s.apic_timer_frequency) ⊎ (count ≡ 1))
        × (s.apic_timer_frequency < (count + 1) * f)
        × (count ≤ s.apic_timer_frequency)
  unfolding apic_timer_set_frequency apic_write
  set_frequency_writes f c z =
      let le = div-mul-le_self s.apic_timer_frequency f in
      let lt = lt-mul-div-succ s.apic_timer_frequency {b = f} (omega (arith, z)) in
      elim (ℕ_discrete (s.apic_timer_frequency / f) 0) [
        | yes high ↦
            let below : s.apic_timer_frequency < f * 1 =
              subst (λ (x : ℕ). s.apic_timer_frequency < f * (x + 1)) high lt in
            (
              1,
              ground (arith, mapped, c, z, high),
              omega arith,
              inr refl,
              omega (arith, below),
              omega (arith, c),
            )
        | no low ↦ (
          s.apic_timer_frequency / f,
          ground (arith, mapped, c, z, low),
          omega (arith, low),
          inl le,
          subst (λ (x : ℕ). s.apic_timer_frequency < x)
              (mul_comm f (s.apic_timer_frequency / f + 1)) lt,
          div-le_self s.apic_timer_frequency f,
        )
      ]

-- After the start of the processor's timer at the frequency `f`: the timer is masked until it is
-- enabled, then it is periodic with the vector 64, and its count gives at least `f` interrupts per
-- second, or is the least one, and one tick more gives fewer.
pub record IsPeriodic (device : Device) (f : ℕ) (s : Apic) : Type 0 where
  pub started : (apic_timer_init_cpu device s).0 ≡ success
  pub masked :
      apic_read device apic_timer_lvt (apic_timer_set_frequency f (apic_timer_init_cpu device s).1)
      ≡ 0x30040
  pub enabled :
      apic_read device apic_timer_lvt
        (apic_timer_enable device (apic_timer_set_frequency f (apic_timer_init_cpu device s).1))
      ≡ 0x20040
  pub disabled :
      apic_read device apic_timer_lvt (
        apic_timer_disable device
          (apic_timer_enable device (apic_timer_set_frequency f (apic_timer_init_cpu device s).1)))
      ≡ 0x30040
  pub count : ℕ
  pub initial :
      apic_read device apic_timer_initial
        (apic_timer_enable device (apic_timer_set_frequency f (apic_timer_init_cpu device s).1))
      ≡ count
  pub rate :
      (0 < count)
      × ((count * f ≤ s.apic_timer_frequency) ⊎ (count ≡ 1))
      × (s.apic_timer_frequency < (count + 1) * f)

-- From the writes on, which the registers show.
module _ (device : Device) (s : Apic) (mapped : s.apic_base ≢ 0) where
  shows_lvt :
      IsStored device apic_timer_lvt
      → (count : ℕ) (w : List (ℕ × ℕ))
      → let t : Apic = record s { writes = (0xE0, count) ∷ (0xC8, 0x30040) ∷ w } in
        (apic_read device apic_timer_lvt t ≡ 0x30040)
        × (apic_timer_enable device t ≡ record t { writes = (0xC8, 0x20040) ∷ t.writes })
  unfolding apic_timer_enable apic_read apic_write
  shows_lvt stored count w =
      let lvt : device s.timing.time ((0xE0, count) ∷ (0xC8, 0x30040) ∷ w) 0xC8 ≡ 0x30040 =
        stored.keeps s.timing.time 0xE0 count ((0xC8, 0x30040) ∷ w) (omega arith)
        ∙ stored.shows s.timing.time 0x30040 w (omega arith) in
      (ground (arith, mapped, lvt), ground (arith, mapped, lvt))

  shows_enabled :
      IsStored device apic_timer_lvt
      → IsStored device apic_timer_initial
      → (count : ℕ) (w : List (ℕ × ℕ)) → count < 2 ^ 32
      → let t : Apic = record s { writes = (0xC8, 0x20040) ∷ (0xE0, count) ∷ w } in
        (apic_read device apic_timer_lvt t ≡ 0x20040)
        × (apic_read device apic_timer_lvt (apic_timer_disable device t) ≡ 0x30040)
        × (apic_read device apic_timer_initial t ≡ count)
  unfolding apic_timer_disable apic_read apic_write
  shows_enabled stored initial count w word =
      let v = (0xE0, count) ∷ w in
      let lvt : device s.timing.time ((0xC8, 0x20040) ∷ v) 0xC8 ≡ 0x20040 =
        stored.shows s.timing.time 0x20040 v (omega arith) in
      let off : device s.timing.time ((0xC8, 0x30040) ∷ (0xC8, 0x20040) ∷ v) 0xC8 ≡ 0x30040 =
        stored.shows s.timing.time 0x30040 ((0xC8, 0x20040) ∷ v) (omega arith) in
      let kept : device s.timing.time ((0xC8, 0x20040) ∷ v) 0xE0 ≡ count =
        initial.keeps s.timing.time 0xC8 0x20040 v (omega arith)
        ∙ initial.shows s.timing.time count w word in
      (ground (arith, mapped, lvt), ground (arith, mapped, lvt, off), ground (arith, mapped, kept))

-- On a device whose spurious vector, timer's vector and initial count show what was written to them,
-- with its registers mapped, its timer calibrated to a 32-bit frequency other than 0, and `f` other than
-- 0: apic_timer_init_cpu succeeds; after it and apic_timer_set_frequency f the timer is masked, after
-- apic_timer_enable it is periodic with the vector 64 and not masked, after apic_timer_disable it is
-- masked again; its initial count gives at least `f` interrupts per second, or is 1, and one tick more
-- gives fewer than `f`.
pub apic_timer-IsPeriodic :
    (device : Device) (s : Apic) (f : ℕ)
    → IsStored device apic_spurious_vector
    → IsStored device apic_timer_lvt
    → IsStored device apic_timer_initial
    → s.apic_base ≢ 0
    → s.apic_timer_frequency ≢ 0
    → s.apic_timer_frequency < 2 ^ 32
    → f ≢ 0
    → IsPeriodic device f s
apic_timer-IsPeriodic device s f spurious lvt initial mapped c word z =
    let w = enabled_writes device s mapped in
    let s1 : Apic = record s { writes = (0x2C, 0) ∷ w } in
    let e1 = init_cpu_success device s mapped spurious in
    let (count, e2, rate1, rate2, rate3, le) = set_frequency_writes device s1 mapped f c z in
    let v = (0xF8, 3) ∷ s1.writes in
    let (masked, e3) = shows_lvt device s mapped lvt count v in
    let (on, off, first) =
      shows_enabled device s mapped lvt initial count ((0xC8, 0x30040) ∷ v)
        (omega (arith, le, word)) in
    record {
      started = rw e1 refl;
      masked = rw (e1, e2) masked;
      enabled = rw (e1, e2, e3) on;
      disabled = rw (e1, e2, e3) off;
      count = count;
      initial = rw (e1, e2, e3) first;
      rate = (rate1, rate2, rate3);
    }
