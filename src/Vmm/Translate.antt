-- ===== src/Vmm/Translate.antt =====
-- What the mapping functions promise about translation.
use lun_os.Prelude.{
  ℕ, ◌+◌, ◌-◌, ◌*◌, ◌/◌, ◌%◌, ◌^◌, ◌<◌, ◌≡◌, ◌≢◌, refl, sym, ap, ◌∙◌, arith, bit_or, true, false,
  if◌then◌else◌, add64, sub64, Status, success, failure,
}
use lun_os.Prelude.Bits.{bit_or_high_low}
use lun_os.Prelude.Words.{page_align_down, page_align_down_lem}
use lun_os.Vmm.{
  Memory, vmm_map_page, vmm_unmap_page, vmm_virt_to_phys, is_present, pte_addr, pte_present,
  page_offset,
}
use lun_os.Vmm.Index.{page_offset_lem}
use lun_os.Vmm.Entry.{AreFlags, entry-frame}
use lun_os.Vmm.Mapping.{
  HasEntry, Clear, translation, rewritten, entry_at, entry_elsewhere, space_at, HasEntry-rewritten,
  mapped, refused, unmapped,
}

frame_sum : (f v : ℕ) → f % 4096 ≡ 0 → bit_or f (v % 4096) ≡ f + v % 4096
frame_sum f v h =
    let e : f / 4096 * 2 ^ 12 ≡ f = omega arith in
    rw e at (bit_or_high_low 12 (f / 4096) (v % 4096) (omega arith))

-- The state after a page has been mapped.
pub record Mapped (m : Memory) (sp vaddr paddr pte : ℕ) (r : Status × Memory) : Type 0 where
  pub done : r.0 ≡ success
  pub translates : vmm_virt_to_phys r.1 sp vaddr ≡ paddr - paddr % 4096 + vaddr % 4096
  pub counted : (r.1.spaces sp).total_pages ≡ add64 (m.spaces sp).total_pages 1
  pub others :
      (w other : ℕ)
      → HasEntry m sp w other
      → other ≢ pte
      → Clear m sp w pte
      → vmm_virt_to_phys r.1 sp w ≡ vmm_virt_to_phys m sp w

module _ (m : Memory) (sp vaddr pte : ℕ) where
  module _ (v count : ℕ) where
    -- Rewriting an entry changes no translation that does not read it.
    others_same :
        (w other : ℕ)
        → HasEntry m sp w other
        → other ≢ pte
        → Clear m sp w pte
        → vmm_virt_to_phys (rewritten m sp pte v count) sp w ≡ vmm_virt_to_phys m sp w
    others_same w other u ne clear =
        translation (rewritten m sp pte v count) sp w other
          (HasEntry-rewritten m sp pte v count w other u clear)
        ∙ ap (λ e. if is_present e then bit_or (pte_addr e) (page_offset w) else 0)
            (entry_elsewhere m sp pte v count other ne)
        ∙ sym (translation m sp w other u)

    own_translation :
        HasEntry m sp vaddr pte
        → Clear m sp vaddr pte
        → vmm_virt_to_phys (rewritten m sp pte v count) sp vaddr
          ≡ (if is_present v then bit_or (pte_addr v) (page_offset vaddr) else 0)
    own_translation t clear =
        translation (rewritten m sp pte v count) sp vaddr pte
          (HasEntry-rewritten m sp pte v count vaddr pte t clear)
        ∙ ap (λ e. if is_present e then bit_or (pte_addr e) (page_offset vaddr) else 0)
            (entry_at m sp pte v count)

  -- Where the tables for an address are there, its entry is not present, and the walk does not read
  -- that entry as an upper-level one, vmm_map_page of a frame below 2 ^ 52 with flags outside the
  -- frame field succeeds: the address then translates to the frame plus its page offset, the page
  -- count goes up by one, and every address with another entry that does not pass through
  -- this one translates as before.
  pub vmm_map_page-Mapped :
      (paddr flags : ℕ)
      → HasEntry m sp vaddr pte
      → Clear m sp vaddr pte
      → is_present (m.entry pte) ≡ false
      → paddr < 2 ^ 52
      → AreFlags flags
      → Mapped m sp vaddr paddr pte (vmm_map_page m sp vaddr paddr flags)
  vmm_map_page-Mapped paddr flags t clear absent small ok =
      rw (mapped m sp pte vaddr t paddr flags absent) (record {
        done = refl;
        translates = own_translation v count t clear ∙ computed;
        counted = ap (λ s. s.total_pages) (space_at m sp pte v count);
        others = others_same v count;
      })
    where
      v : ℕ
      v = bit_or (bit_or (page_align_down paddr) flags) pte_present

      count : ℕ
      count = add64 (m.spaces sp).total_pages 1

      down : page_align_down paddr ≡ paddr - paddr % 4096
      down = page_align_down_lem paddr (omega arith)

      frame : (is_present v ≡ true) × (pte_addr v ≡ page_align_down paddr)
      frame =
          entry-frame (page_align_down paddr) flags (omega (arith, down)) (omega (arith, down)) ok

      computed :
          (if is_present v then bit_or (pte_addr v) (page_offset vaddr) else 0)
          ≡ paddr - paddr % 4096 + vaddr % 4096
      computed =
          rw (frame.0, frame.1, page_offset_lem vaddr)
            (omega (arith, down, frame_sum (page_align_down paddr) vaddr (omega (arith, down))))

  -- Where the tables for an address are there and its entry is present, vmm_map_page fails and changes
  -- nothing.
  pub vmm_map_page-refused :
      (paddr flags : ℕ)
      → HasEntry m sp vaddr pte
      → is_present (m.entry pte) ≡ true
      → vmm_map_page m sp vaddr paddr flags ≡ (failure, m)
  vmm_map_page-refused paddr flags t there = refused m sp pte vaddr t paddr flags there

  -- Where the entry of an address is present, vmm_unmap_page succeeds: the address then translates to
  -- 0, the page count goes down by one, and every address with another entry that does not pass
  -- through this one translates as before.
  pub vmm_unmap_page_lem :
      HasEntry m sp vaddr pte
      → Clear m sp vaddr pte
      → is_present (m.entry pte) ≡ true
      → ((vmm_unmap_page m sp vaddr).0 ≡ success)
        × (vmm_virt_to_phys (vmm_unmap_page m sp vaddr).1 sp vaddr ≡ 0)
        × (((vmm_unmap_page m sp vaddr).1.spaces sp).total_pages
            ≡ sub64 (m.spaces sp).total_pages 1)
        × ((w other : ℕ)
            → HasEntry m sp w other
            → other ≢ pte
            → Clear m sp w pte
            → vmm_virt_to_phys (vmm_unmap_page m sp vaddr).1 sp w ≡ vmm_virt_to_phys m sp w)
  unfolding is_present
  vmm_unmap_page_lem t clear there =
      let count = sub64 (m.spaces sp).total_pages 1 in
      rw (unmapped m sp pte vaddr t there) (
        refl,
        own_translation 0 count t clear ∙ refl,
        ap (λ s. s.total_pages) (space_at m sp pte 0 count),
        others_same 0 count,
      )
