-- ===== src/Apic/Vector.antt =====
-- The interrupt table that the kernel starts with.
use lun_os.Prelude.{
  ℕ, ◌+◌, ◌*◌, ◌^◌, ◌≤◌, ◌<◌, ◌≡◌, ◌≢◌, refl, sym, ap, ◌∙◌, ◌⊎◌, inl, inr, arith, true, false, ◌==◌,
  ℕ_discrete,
}
use lun_os.Descriptors.{Idt, no_gate, create_gate_entry, init_idt, reload_idt}
use lun_os.Descriptors.Fields.{LeadsTo, split_handler, init_idt-LeadsTo}
use lun_os.Apic.{apic_timer_register_handler, start_idt}

-- What gate `i` of the table at `idt` is.
pub record IsWired (idt : ℕ) (isr : ℕ → ℕ) (i : ℕ) (t : Idt) : Type 0 where
  pub gate :
      (((i < 32) ⊎ (i ≡ 64)) × LeadsTo (isr i) (t.entry i))
      ⊎ ((32 ≤ i) × (i ≢ 64) × (t.entry i ≡ no_gate))
  pub table : t.loaded.base ≡ idt
  pub size : t.loaded.limit + 1 ≡ 256 * 16

-- The stubs being at 64-bit addresses, after the calls of init_idt, apic_timer_register_handler and
-- reload_idt each of the first 32 of the 256 gates and gate 64 leads to its stub, by the kernel's code
-- segment, and the others are empty; the processor has the whole table.
pub start_idt-IsWired :
    (idt : ℕ) (isr : ℕ → ℕ) (s : Idt) (i : ℕ)
    → ((n : ℕ) → isr n < 2 ^ 64)
    → i < 256
    → IsWired idt isr i (start_idt idt isr s)
unfolding start_idt apic_timer_register_handler create_gate_entry reload_idt init_idt
start_idt-IsWired idt isr s i words h =
    let (gate, base, limit) = init_idt-LeadsTo idt isr s i words h in
    elim (ℕ_discrete i 64) [
      | yes e ↦
          let q : (i == 64) ≡ true = ground (arith, e) in
          record {
            gate = inl (
              inr e,
              rw q record {
                handler_back = split_handler (isr 64) (words 64) ∙ ap isr (sym e);
                selector = refl;
                type = refl;
                no_stack = refl;
              },
            );
            table = base;
            size = limit;
          }
      | no ne ↦
          let q : (i == 64) ≡ false = ground (arith, ne) in
          record {
            gate = elim gate [
              | inl (l, g) ↦ inl (inl l, rw q g)
              | inr (l, g) ↦ inr (l, ne, rw q g)
            ];
            table = base;
            size = limit;
          }
    ]
