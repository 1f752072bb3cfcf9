-- ===== src/Descriptors/Fields.antt =====
-- The addresses that the fields of a descriptor give.
use lun_os.Prelude.{
  ℕ, zero, suc, ◌+◌, ◌-◌, ◌*◌, ◌/◌, ◌^◌, ◌<◌, ◌≤◌, ◌≡◌, refl, sym, ap, ◌∙◌, true, false, ◌⊎◌, inl,
  inr, arith, dec_lt, bit_and, ℕ_discrete, ◌==◌, if◌then◌else◌, ltb,
}
use lun_os.Prelude.Bits.{bit_and-mask}
use lun_os.Descriptors.{
  Gate, Idt, Gdt, TssDescriptor, TablePtr, create_gate_entry, create_gates, init_idt, reload_idt,
  no_gate, init_gdt, load_tss, set_gdt_entry,
}

-- The address that the processor makes of a gate, and of the descriptor of the task state segment.
abbrev pub handler_of : Gate → ℕ
handler_of g = g.isr_low + g.isr_mid * 2 ^ 16 + g.isr_high * 2 ^ 32

abbrev pub tss_of : TssDescriptor → ℕ
tss_of d = d.base_lower + d.base_middle * 2 ^ 16 + d.base_high * 2 ^ 24 + d.base_upper * 2 ^ 32

-- The gate leads to a handler by the kernel's code segment, is present and for the kernel alone, and
-- masks interrupts.
pub record LeadsTo (handler : ℕ) (g : Gate) : Type 0 where
  pub handler_back : handler_of g ≡ handler
  pub selector : g.kernel_cs ≡ 0x08
  pub type : g.attributes ≡ 0x8E
  pub no_stack : g.ist ≡ 0

pub split_handler :
    (a : ℕ)
    → a < 2 ^ 64
    → bit_and a 0xFFFF
        + bit_and (a / 2 ^ 16) 0xFFFF * 2 ^ 16
        + bit_and (a / 2 ^ 32) 0xFFFF_FFFF * 2 ^ 32
      ≡ a
split_handler a h =
    omega (arith, h, bit_and-mask 16 a, bit_and-mask 16 (a / 2 ^ 16), bit_and-mask 32 (a / 2 ^ 32))

module _ (isr : ℕ → ℕ) (words : (i : ℕ) → isr i < 2 ^ 64) (s : Idt) where
  made : (n i : ℕ) → i < n → LeadsTo (isr i) ((create_gates isr n s).entry i)
  unfolding create_gates create_gate_entry
  made zero i h = absurd (omega (arith, h))
  made (suc n) i h = elim (ℕ_discrete i n) [
    | yes e ↦
        let q : (i == n) ≡ true = ground (arith, e) in
        rw q (record {
          handler_back = split_handler (isr n) (words n) ∙ ap isr (sym e);
          selector = refl;
          type = refl;
          no_stack = refl;
        })
    | no ne ↦
        let q : (i == n) ≡ false = ground (arith, ne) in rw q (made n i (omega (arith, h, ne)))
  ]

  kept : (n i : ℕ) → n ≤ i → (create_gates isr n s).entry i ≡ s.entry i
  unfolding create_gates create_gate_entry
  kept zero i h = refl
  kept (suc n) i h = ground (arith, h, kept n i (omega (arith, h)))

idtr_kept : (isr : ℕ → ℕ) (s : Idt) (n : ℕ) → (create_gates isr n s).idtr ≡ s.idtr
unfolding create_gates create_gate_entry
idtr_kept isr s zero = refl
idtr_kept isr s (suc n) = idtr_kept isr s n

-- The handlers being 64-bit addresses, after init_idt each of the first 32 of the 256 gates leads to its
-- handler, by the kernel's code segment, and the others are empty; the processor has the whole table.
pub init_idt-LeadsTo :
    (idt : ℕ) (isr : ℕ → ℕ) (s : Idt) (i : ℕ)
    → ((n : ℕ) → isr n < 2 ^ 64)
    → i < 256
    → (((i < 32) × LeadsTo (isr i) ((init_idt idt isr s).entry i))
        ⊎ ((32 ≤ i) × ((init_idt idt isr s).entry i ≡ no_gate)))
      × ((init_idt idt isr s).loaded.base ≡ idt)
      × ((init_idt idt isr s).loaded.limit + 1 ≡ 256 * 16)
unfolding init_idt reload_idt
init_idt-LeadsTo idt isr s i words h =
    let cleared : Idt = record s {
      idtr = record { limit = 4095; base = idt };
      entry = λ j. if ltb j 256 then no_gate else s.entry j;
    } in
    let ptr = idtr_kept isr cleared 32 in
    (
      elim (dec_lt i 32) [
        | yes lt ↦ inl (lt, made isr words cleared 32 i lt)
        | no ge ↦
            inr (
              omega (arith, ge),
              kept isr words cleared 32 i (omega (arith, ge)) ∙ ground (arith, h),
            )
      ],
      ap (λ (q : TablePtr). q.base) ptr,
      ap (λ (q : TablePtr). q.limit + 1) ptr,
    )

-- After init_gdt the fields of the descriptor of the task state segment give that segment's address,
-- where it is a 64-bit one, and its size; the task register has the selector of the descriptor, which
-- is that behind the five entries; the processor has the whole table; and the selector that the gates
-- have is that of a present code segment of the kernel's for 64-bit code.
pub init_gdt_lem :
    (gdt tss : ℕ) (s : Gdt)
    → tss < 2 ^ 64
    → (tss_of (init_gdt gdt tss s).tss_desc ≡ tss)
      × ((init_gdt gdt tss s).tss_desc.limit_lower + 1 ≡ 104)
      × ((init_gdt gdt tss s).task_register ≡ 5 * 8)
      × ((init_gdt gdt tss s).loaded ≡ record { limit = 5 * 8 + 16 - 1; base = gdt })
      × (((init_gdt gdt tss s).entries (0x08 / 8)).access ≡ 0x9A)
      × (((init_gdt gdt tss s).entries (0x08 / 8)).granularity ≡ 0x20)
unfolding init_gdt load_tss set_gdt_entry
init_gdt_lem gdt tss s h = (
  omega
      (arith, h, bit_and-mask 16 tss, bit_and-mask 8 (tss / 2 ^ 16), bit_and-mask 8 (tss / 2 ^ 24)),
  refl,
  refl,
  refl,
  refl,
  refl,
)
