-- ===== src/Vmm/Mapping.antt =====
-- Mapping a page, translating an address in it, and unmapping it.
use lun_os.Prelude.{
  ℕ, ◌^◌, ◌<◌, ◌≡◌, ◌≢◌, refl, ap, ◌∙◌, List, [], ◌∷◌, All, arith, bit_or, true, false, some, ◌==◌,
  if◌then◌else◌, ◌||◌, add64, sub64, success, failure,
}
use lun_os.Prelude.Words.{page_align_down}
use lun_os.Vmm.{
  Memory, write_entry, set_space, walk_levels, vmm_walk_page_table, vmm_map_page, vmm_unmap_page,
  vmm_virt_to_phys, write_mapping, clear_mapping, is_present, pte_addr, pte_present, pml4_index,
  pdp_index, pd_index, pt_index, page_offset,
}
use lun_os.Vmm.Index.{same_indices}
use lun_os.Vmm.Walk.{visited, walk_levels-keeps, walk_levels-create, walk_levels_agree}

abbrev pub indices : ℕ → List ℕ
indices v = pml4_index v ∷ pdp_index v ∷ pd_index v ∷ pt_index v ∷ []

-- The tables for `vaddr` are there, and its page table entry is `pte`.
pub record HasEntry (m : Memory) (sp vaddr pte : ℕ) : Type 0 where
  pub space : sp ≢ 0
  pub root : (m.spaces sp).pml4 ≢ 0
  pub leads : (walk_levels false (indices vaddr) (m.spaces sp).pml4 m).0 ≡ some pte
  pub word : vaddr < 2 ^ 64

-- No upper level of the walk for `vaddr` reads the entry `pte`.
abbrev pub Clear : Memory → ℕ → ℕ → ℕ → Type 0
Clear m sp vaddr pte = All (λ a. a ≢ pte) (visited (indices vaddr) (m.spaces sp).pml4 m)

module _ (m : Memory) (sp vaddr pte : ℕ) (t : HasEntry m sp vaddr pte) where
  checked : ((sp == 0) || ((m.spaces sp).pml4 == 0)) ≡ false
  checked = ground (arith, t.space, t.root)

  -- The walk for the page that holds `vaddr` is the walk for `vaddr`.
  same_page : indices (page_align_down vaddr) ≡ indices vaddr
  same_page = let (a, b, c, d) = same_indices vaddr t.word in cc (a, b, c, d)

  walk_create : vmm_walk_page_table m sp (page_align_down vaddr) true ≡ (some pte, m)
  unfolding vmm_walk_page_table
  walk_create =
      rw (checked, same_page) (walk_levels-create (indices vaddr) (m.spaces sp).pml4 pte m t.leads)

  walk_find : (vmm_walk_page_table m sp vaddr false).0 ≡ some pte
  unfolding vmm_walk_page_table
  walk_find = rw checked t.leads

  walk_silent : vmm_walk_page_table m sp (page_align_down vaddr) false ≡ (some pte, m)
  unfolding vmm_walk_page_table
  walk_silent =
      rw (checked, same_page) (cc (t.leads, walk_levels-keeps (indices vaddr) (m.spaces sp).pml4 m))

-- What a translation reads.
pub translation :
    (m : Memory) (sp vaddr pte : ℕ)
    → HasEntry m sp vaddr pte
    → vmm_virt_to_phys m sp vaddr ≡ (
        if is_present (m.entry pte) then bit_or (pte_addr (m.entry pte)) (page_offset vaddr) else 0)
unfolding vmm_virt_to_phys
translation m sp vaddr pte t =
    let real : (sp == 0) ≡ false = ground (arith, t.space) in
    let found = walk_find m sp vaddr pte t in rw (found, vmm_virt_to_phys, real) refl

module _ (m : Memory) (sp pte : ℕ) where
  -- The memory with the entry `pte` and the page count of the space rewritten.
  abbrev pub rewritten : ℕ → ℕ → Memory
  rewritten v count =
      set_space (write_entry m pte v) sp (record { pml4 = (m.spaces sp).pml4; total_pages = count })

  pub entry_at : (v count : ℕ) → (rewritten v count).entry pte ≡ v
  unfolding write_entry set_space
  entry_at v count = ground arith

  pub entry_elsewhere : (v count a : ℕ) → a ≢ pte → (rewritten v count).entry a ≡ m.entry a
  unfolding write_entry set_space
  entry_elsewhere v count a h = ground arith

  pub space_at :
      (v count : ℕ)
      → (rewritten v count).spaces sp ≡ record { pml4 = (m.spaces sp).pml4; total_pages = count }
  unfolding write_entry set_space
  space_at v count = ground arith

  agree :
      (v count : ℕ) (xs : List ℕ)
      → All (λ a. a ≢ pte) xs
      → All (λ a. (rewritten v count).entry a ≡ m.entry a) xs
  agree v count [] h = tt
  agree v count (a ∷ rest) h = (entry_elsewhere v count a h.0, agree v count rest h.1)

  -- An address whose walk does not read `pte` on the way still has its entry.
  pub HasEntry-rewritten :
      (v count w other : ℕ)
      → HasEntry m sp w other
      → Clear m sp w pte
      → HasEntry (rewritten v count) sp w other
  HasEntry-rewritten v count w other u clear =
      let root : ((rewritten v count).spaces sp).pml4 ≡ (m.spaces sp).pml4 =
        ap (λ s. s.pml4) (space_at v count) in
      record {
        space = u.space;
        root = rw root u.root;
        leads = rw root (
            walk_levels_agree (indices w) (m.spaces sp).pml4 m (rewritten v count)
              (agree v count _ clear)
            ∙ u.leads);
        word = u.word;
      }

  module _ (vaddr : ℕ) (t : HasEntry m sp vaddr pte) where
    real : (sp == 0) ≡ false
    real = ground (arith, t.space)

    pub mapped :
        (paddr flags : ℕ)
        → is_present (m.entry pte) ≡ false
        → vmm_map_page m sp vaddr paddr flags ≡ (
          success,
          rewritten
              (bit_or (bit_or (page_align_down paddr) flags) pte_present)
              (add64 (m.spaces sp).total_pages 1),
        )
    unfolding vmm_map_page write_mapping
    mapped paddr flags absent =
        let w = walk_create m sp vaddr pte t in rw (w, vmm_map_page, real) (rw (w, absent))

    pub refused :
        (paddr flags : ℕ)
        → is_present (m.entry pte) ≡ true
        → vmm_map_page m sp vaddr paddr flags ≡ (failure, m)
    unfolding vmm_map_page write_mapping
    refused paddr flags there =
        let w = walk_create m sp vaddr pte t in rw (w, vmm_map_page, real) (rw (w, there))

    pub unmapped :
        is_present (m.entry pte) ≡ true
        → vmm_unmap_page m sp vaddr ≡ (success, rewritten 0 (sub64 (m.spaces sp).total_pages 1))
    unfolding vmm_unmap_page clear_mapping
    unmapped there =
        let w = walk_silent m sp vaddr pte t in rw (w, vmm_unmap_page, real) (rw (w, there))
