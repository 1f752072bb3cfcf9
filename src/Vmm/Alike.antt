-- ===== src/Vmm/Alike.antt =====
-- Translations that read the same first entry.
use lun_os.Prelude.{
  ℕ, ◌+◌, ◌*◌, ◌<◌, ◌≡◌, ◌≢◌, refl, sym, ap, ◌∙◌, arith, inl, inr, List, [], ◌∷◌, false, none, some,
  ◌==◌, Bool-cases,
}
use lun_os.Vmm.{
  Memory, pdp_index, pd_index, pt_index, descend, walk_levels, vmm_walk_page_table, is_present,
  pte_addr, vmm_virt_to_phys, pml4_index,
}
use lun_os.Vmm.Index.{table_index_lem}
use lun_os.Vmm.Walk.{descend_present, descend_absent}

-- A walk reads nothing of its first table but the entry of the first index.
descend_alike :
    (a b : ℕ) (m : Memory) → m.entry a ≡ m.entry b → descend false a m ≡ descend false b m
descend_alike a b m e = elim (Bool-cases (is_present (m.entry a))) [
  | inl p ↦
      descend_present false a m p
      ∙ ap (λ (v : ℕ). (some (pte_addr v), m)) e
      ∙ sym (descend_present false b m (rw (sym e) p))
  | inr n ↦ descend_absent a m n ∙ sym (descend_absent b m (rw (sym e) n))
]

walk_alike :
    (i j : ℕ) (rest : List ℕ) (t u : ℕ) (m : Memory)
    → m.entry (t + 8 * i) ≡ m.entry (u + 8 * i)
    → walk_levels false (i ∷ j ∷ rest) t m ≡ walk_levels false (i ∷ j ∷ rest) u m
unfolding walk_levels
walk_alike i j rest t u m e =
    ap (λ d. elim d.0 [ none ↦ (none, d.1) | some s ↦ walk_levels false (j ∷ rest) s d.1 ])
      (descend_alike (t + 8 * i) (u + 8 * i) m e)

-- Two address spaces of which both tables have the same entry for an address translate it alike.
pub translate_alike :
    (m : Memory) (p q vaddr : ℕ)
    → p ≢ 0
    → q ≢ 0
    → (m.spaces p).pml4 ≢ 0
    → (m.spaces q).pml4 ≢ 0
    → m.entry ((m.spaces p).pml4 + 8 * pml4_index vaddr)
      ≡ m.entry ((m.spaces q).pml4 + 8 * pml4_index vaddr)
    → vmm_virt_to_phys m p vaddr ≡ vmm_virt_to_phys m q vaddr
unfolding vmm_virt_to_phys vmm_walk_page_table
translate_alike m p q vaddr hp hq rp rq e =
    let a : (p == 0) ≡ false = ground (arith, hp) in
    let b : (q == 0) ≡ false = ground (arith, hq) in
    let c : ((m.spaces p).pml4 == 0) ≡ false = ground (arith, rp) in
    let d : ((m.spaces q).pml4 == 0) ≡ false = ground (arith, rq) in
    let w =
      walk_alike (pml4_index vaddr) (pdp_index vaddr) (pd_index vaddr ∷ pt_index vaddr ∷ [])
        (m.spaces p).pml4 (m.spaces q).pml4 m e in
    rw (a, b, c, d) (rw w refl)

-- Without the first entry, an address has no translation.
pub translate_absent :
    (m : Memory) (p vaddr : ℕ)
    → p ≢ 0
    → (m.spaces p).pml4 ≢ 0
    → is_present (m.entry ((m.spaces p).pml4 + 8 * pml4_index vaddr)) ≡ false
    → vmm_virt_to_phys m p vaddr ≡ 0
unfolding vmm_virt_to_phys vmm_walk_page_table walk_levels
translate_absent m p vaddr hp rp e =
    let a : (p == 0) ≡ false = ground (arith, hp) in
    let c : ((m.spaces p).pml4 == 0) ≡ false = ground (arith, rp) in
    let d = descend_absent ((m.spaces p).pml4 + 8 * pml4_index vaddr) m e in
    rw (a, c) (rw (d, walk_levels) refl)

pub pml4_index_bound : (vaddr : ℕ) → pml4_index vaddr < 512
unfolding pml4_index
pml4_index_bound vaddr = omega (arith, table_index_lem 39 vaddr)
