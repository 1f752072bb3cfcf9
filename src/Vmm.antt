-- ===== src/Vmm.antt =====
-- The virtual memory manager: kernel/arch/x86_64/memory/vmm.c and include/kernel/vmm.h.
-- A page table is named by its physical address (the code keeps that address plus hhdm_offset), and
-- memory is read and written in entries of 8 bytes. Flushing the TLB has no part in the state.
pub mod Index
pub mod Entry
pub mod Walk
pub mod Mapping
pub mod Translate
pub mod Alike
pub mod Space
use lun_os.Prelude.{
  ℕ, zero, suc, ◌+◌, ◌-◌, ◌*◌, ◌/◌, ◌%◌, ◌^◌, bit_and, bit_or, Bool, true, false, ◌&&◌, ◌||◌, not,
  Option, none, some, List, [], ◌∷◌, ltb, leb, ◌==◌, if◌then◌else◌, add64, sub64, page_size, Status,
  success, failure,
}
use lun_os.Prelude.Words.{page_align_down, page_align_up}
use lun_os.Buddy.{Buddy}
use lun_os.Buddy.Alloc.{buddy_alloc_page}

-- PTE_PRESENT, PTE_WRITABLE, PTE_USER
abbrev pub pte_present : ℕ
pte_present = 1

abbrev pub pte_writable : ℕ
pte_writable = 2

abbrev pub pte_user : ℕ
pte_user = 4

-- `(addr >> shift) & 0x1FF`
unfoldable pub table_index : ℕ → ℕ → ℕ
table_index shift addr = bit_and (addr / 2 ^ shift) 0x1FF

-- PML4_INDEX, PDP_INDEX, PD_INDEX, PT_INDEX and PAGE_OFFSET
unfoldable pub pml4_index : ℕ → ℕ
unfolding table_index
pml4_index = table_index 39

unfoldable pub pdp_index : ℕ → ℕ
unfolding table_index
pdp_index = table_index 30

unfoldable pub pd_index : ℕ → ℕ
unfolding table_index
pd_index = table_index 21

unfoldable pub pt_index : ℕ → ℕ
unfolding table_index
pt_index = table_index 12

unfoldable pub page_offset : ℕ → ℕ
page_offset addr = bit_and addr 0xFFF

unfoldable pub pte_addr : ℕ → ℕ
pte_addr pte = bit_and pte 0x000F_FFFF_FFFF_F000

unfoldable pub is_present : ℕ → Bool
is_present pte = not (bit_and pte pte_present == 0)

-- struct addr_space; its field `flags` is never read.
pub record AddrSpace : Type 0 where
  pub pml4 : ℕ
  pub total_pages : ℕ

-- Physical memory by entry address, the page allocator, and the address spaces by pointer.
pub record Memory : Type 0 where
  pub entry : ℕ → ℕ
  pub buddy : Buddy
  pub spaces : ℕ → AddrSpace

pub write_entry : Memory → ℕ → ℕ → Memory
write_entry m addr v = record m { entry = λ a. if a == addr then v else m.entry a }

pub set_space : Memory → ℕ → AddrSpace → Memory
set_space m p sp = record m { spaces = λ q. if q == p then sp else m.spaces q }

-- `memset(pt, 0, PAGE_SIZE)`
pub clear_page : Memory → ℕ → Memory
clear_page m phys = record m {
  entry = λ a. if leb phys a && ltb a (phys + page_size) then 0 else m.entry a;
}

-- 0 stands for NULL.
pub vmm_alloc_page_table : Memory → ℕ × Memory
unfolding clear_page
vmm_alloc_page_table m =
    let (phys, b) = buddy_alloc_page m.buddy in
    if phys == 0
    then (0, record m { buddy = b })
    else (phys, clear_page (record m { buddy = b }) phys)

-- The body of the loop of vmm_walk_page_table above the last level: the next table.
unfoldable pub descend : Bool → ℕ → Memory → Option ℕ × Memory
unfolding is_present pte_addr write_entry
descend create at_entry m =
    let (phys, m') = vmm_alloc_page_table m in
    let new = bit_or (bit_or (bit_or phys pte_present) pte_writable) pte_user in
    if is_present (m.entry at_entry)
    then (some (pte_addr (m.entry at_entry)), m)
    else if not create
    then (none, m)
    else if phys == 0
    then (none, m')
    else (some (pte_addr new), write_entry m' at_entry new)

unfoldable pub walk_levels : Bool → List ℕ → ℕ → Memory → Option ℕ × Memory
walk_levels create [] table m = (none, m)
walk_levels create (i ∷ []) table m = (some (table + 8 * i), m)
walk_levels create (i ∷ j ∷ rest) table m =
    let (next, m') = descend create (table + 8 * i) m in
    elim next [ none ↦ (none, m') | some t ↦ walk_levels create (j ∷ rest) t m' ]

-- The address of the page table entry, or NULL.
pub vmm_walk_page_table : Memory → ℕ → ℕ → Bool → Option ℕ × Memory
vmm_walk_page_table m sp vaddr create =
    if (sp == 0) || ((m.spaces sp).pml4 == 0)
    then (none, m)
    else walk_levels create
        (pml4_index vaddr ∷ pdp_index vaddr ∷ pd_index vaddr ∷ pt_index vaddr ∷ [])
        (m.spaces sp).pml4 m

-- The end of both mapping functions, once the entry has been found.
pub write_mapping : Memory → ℕ → ℕ → ℕ → ℕ → Status × Memory
write_mapping m sp pte paddr flags =
    let old = m.spaces sp in
    if is_present (m.entry pte) then (failure, m) else (
      success,
      set_space (write_entry m pte (bit_or (bit_or paddr flags) pte_present)) sp
          (record old { total_pages = add64 old.total_pages 1 }),
    )

-- vmm_map_page, and _vmm_map_page_no_flush, which differ in the flush alone
pub vmm_map_page : Memory → ℕ → ℕ → ℕ → ℕ → Status × Memory
vmm_map_page m sp vaddr paddr flags =
    let (pte, m') = vmm_walk_page_table m sp (page_align_down vaddr) true in
    let mapped : Status × Memory = elim pte [
      | none ↦ (failure, m')
      | some e ↦ write_mapping m' sp e (page_align_down paddr) flags
    ] in
    if sp == 0 then (failure, m) else mapped

-- The end of both unmapping functions.
pub clear_mapping : Memory → ℕ → ℕ → Status × Memory
clear_mapping m sp pte =
    let old = m.spaces sp in
    if is_present (m.entry pte)
    then (
      success,
      set_space (write_entry m pte 0) sp (record old { total_pages = sub64 old.total_pages 1 }),
    )
    else (failure, m)

-- vmm_unmap_page, and _vmm_unmap_page_no_flush
pub vmm_unmap_page : Memory → ℕ → ℕ → Status × Memory
vmm_unmap_page m sp vaddr =
    let (pte, m') = vmm_walk_page_table m sp (page_align_down vaddr) false in
    let unmapped : Status × Memory = elim pte [
      | none ↦ (failure, m')
      | some e ↦ clear_mapping m' sp e
    ] in
    if sp == 0 then (failure, m) else unmapped

-- The loop of vmm_unmap_range over `n` pages; what each page returns is ignored.
pub unmap_pages : ℕ → Memory → ℕ → ℕ → Memory
unmap_pages zero m sp v = m
unmap_pages (suc n) m sp v = unmap_pages n (vmm_unmap_page m sp v).1 sp (v + page_size)

pub vmm_unmap_range : Memory → ℕ → ℕ → ℕ → Status × Memory
vmm_unmap_range m sp vaddr size =
    let vstart = page_align_down vaddr in
    let vend = page_align_up (add64 vaddr size) in
    if (sp == 0) || (size == 0)
    then (failure, m)
    else (success, unmap_pages ((vend - vstart) / page_size) m sp vstart)

-- The loop of vmm_map_range over `n` pages from `v`, which undoes what it did when a page fails.
pub map_pages : ℕ → Memory → ℕ → ℕ → ℕ → ℕ → ℕ → Status × Memory
map_pages zero m sp vstart v p flags = (success, m)
map_pages (suc n) m sp vstart v p flags =
    let (st, m') = vmm_map_page m sp v p flags in
    elim st [
      | success ↦ map_pages n m' sp vstart (v + page_size) (add64 p page_size) flags
      | failure ↦ (failure, (vmm_unmap_range m' sp vstart (v - vstart)).1)
    ]

pub vmm_map_range : Memory → ℕ → ℕ → ℕ → ℕ → ℕ → Status × Memory
vmm_map_range m sp vaddr paddr size flags =
    let vstart = page_align_down vaddr in
    let vend = page_align_up (add64 vaddr size) in
    if (sp == 0) || (size == 0)
    then (failure, m)
    else map_pages ((vend - vstart) / page_size) m sp vstart vstart (page_align_down paddr) flags

pub vmm_virt_to_phys : Memory → ℕ → ℕ → ℕ
vmm_virt_to_phys m sp vaddr =
    let (pte, _) = vmm_walk_page_table m sp vaddr false in
    let translated : ℕ = elim pte [
      | none ↦ 0
      | some e ↦
          if is_present (m.entry e) then bit_or (pte_addr (m.entry e)) (page_offset vaddr) else 0
    ] in
    if sp == 0 then 0 else translated

pub vmm_is_mapped : Memory → ℕ → ℕ → Bool
vmm_is_mapped m sp vaddr = not (vmm_virt_to_phys m sp vaddr == 0)

pub vmm_pages_in_range : ℕ → ℕ → ℕ
vmm_pages_in_range start end = sub64 (page_align_up end) (page_align_down start) / page_size
