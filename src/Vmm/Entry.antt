-- ===== src/Vmm/Entry.antt =====
-- What a page table entry holds.
use lun_os.Prelude.{ℕ, ◌*◌, ◌/◌, ◌%◌, ◌^◌, ◌<◌, ◌≡◌, ap, arith, bit_or, true, ◌⊎◌, inl, inr}
use lun_os.Prelude.Bits.{
  bit_and-mask, bit_and_field, bit_or-div, bit_or-one, bit_or-zero, bit_or_low_high,
}
use lun_os.Vmm.{pte_addr, is_present, pte_present}

-- Bits 12 to 51 of an entry.
pub pte_addr_lem : (pte : ℕ) → pte_addr pte ≡ pte / 4096 % 2 ^ 40 * 4096
unfolding pte_addr
pte_addr_lem pte = bit_and_field 12 40 pte

pub is_present_lem : (pte : ℕ) → pte % 2 ≡ 1 → is_present pte ≡ true
unfolding is_present
is_present_lem pte h = ground (arith, bit_and-mask 1 pte)

-- Flags among the low 12 bits, and PTE_NX.
abbrev pub AreFlags : ℕ → Type 0
AreFlags f = (f / 4096 ≡ 0) ⊎ (f / 4096 ≡ 2 ^ 51)

module _ (paddr flags : ℕ) where
  frame_or_flags :
      paddr < 2 ^ 52 → AreFlags flags → bit_or paddr flags / 4096 % 2 ^ 40 ≡ paddr / 4096
  frame_or_flags h (inl e) = omega (
    arith,
    bit_or-div 12 paddr flags,
    ap (λ (t : ℕ). bit_or (paddr / 4096) t) e,
    bit_or-zero (paddr / 4096),
  )
  frame_or_flags h (inr e) = omega (
    arith,
    bit_or-div 12 paddr flags,
    ap (λ (t : ℕ). bit_or (paddr / 4096) t) e,
    bit_or_low_high 51 1 (paddr / 4096) (omega arith),
  )

-- An entry made of a page-aligned frame below 2 ^ 52 and of flags is present, and gives the frame.
pub entry-frame :
    (paddr flags : ℕ)
    → paddr < 2 ^ 52
    → paddr % 4096 ≡ 0
    → AreFlags flags
    → (is_present (bit_or (bit_or paddr flags) pte_present) ≡ true)
      × (pte_addr (bit_or (bit_or paddr flags) pte_present) ≡ paddr)
entry-frame paddr flags h page f =
    let (odd, rest) = bit_or-one (bit_or paddr flags) in
    (
      is_present_lem _ odd,
      omega (
        arith,
        pte_addr_lem (bit_or (bit_or paddr flags) 1),
        frame_or_flags paddr flags h f,
        rest,
      ),
    )
