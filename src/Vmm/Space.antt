-- ===== src/Vmm/Space.antt =====
-- The making, the switching and the destruction of address spaces in
-- kernel/arch/x86_64/memory/vmm.c. The heap and the page tables draw from one page allocator.
pub mod Created
pub mod Copied
pub mod Freed
use lun_os.Prelude.{
  ℕ, zero, suc, ◌+◌, ◌*◌, Bool, ◌||◌, Option, none, some, ◌==◌, if◌then◌else◌, Status, success,
  failure,
}
use lun_os.Buddy.Free.{buddy_free_page}
use lun_os.Slab.{Heap}
use lun_os.Kmalloc.{kmalloc, kfree}
use lun_os.Vmm.{
  Memory, AddrSpace, set_space, write_entry, vmm_alloc_page_table, is_present, pte_addr,
}

-- The memory that Vmm works on, the heap, whose page allocator is that of the memory, the pointer
-- kernel_as, the table current_pml4, and the register CR3.
pub record Machine : Type 0 where
  pub memory : Memory
  pub heap : Heap
  pub kernel_as : ℕ
  pub current_pml4 : ℕ
  pub cr3 : ℕ

abbrev pub heap_of : Machine → Heap
heap_of v = record v.heap { buddy = v.memory.buddy }

abbrev pub with_heap : Heap → Machine → Machine
with_heap h v = record v { heap = h; memory = record v.memory { buddy = h.buddy } }

-- sizeof(struct addr_space)
abbrev pub addr_space_size : ℕ
addr_space_size = 24

abbrev pub empty_space : AddrSpace
empty_space = record { pml4 = 0; total_pages = 0 }

abbrev pub pointer : Option ℕ → ℕ
pointer none = 0
pointer (some p) = p

-- kmalloc of an address space; `none` if kmalloc does not end.
unfoldable pub alloc_space : Machine → Option (ℕ × Machine)
alloc_space v = elim (kmalloc addr_space_size (heap_of v)) [
  | none ↦ none
  | some (p, h) ↦ some (pointer p, with_heap h v)
]

pub get_current_pml4 : Machine → ℕ
get_current_pml4 v = if v.current_pml4 == 0 then v.cr3 else v.current_pml4

-- The memset comes before the test for NULL.
pub vmm_init : Machine → Option (Status × Machine)
vmm_init v =
    let root = get_current_pml4 v in
    elim (alloc_space record v { current_pml4 = root }) [
      | none ↦ none
      | some (p, v1) ↦
          let cleared = record v1 { kernel_as = p; memory = set_space v1.memory p empty_space } in
          let done = record v1 {
            kernel_as = p;
            memory = set_space v1.memory p (record empty_space { pml4 = root });
          } in
          some (if (p == 0) || (root == 0) then (failure, cleared) else (success, done))
    ]

-- The first `n` entries from number 256 on, of the table `from` to the table `to`.
unfoldable pub copy_upper : ℕ → ℕ → ℕ → Memory → Memory
copy_upper zero from to m = m
copy_upper (suc i) from to m =
    let before = copy_upper i from to m in
    write_entry before (to + 8 * (256 + i)) (before.entry (from + 8 * (256 + i)))

-- vmm_create_address_space once kmalloc has answered.
unfoldable pub fill_space : ℕ → Machine → ℕ × Machine
fill_space p v =
    let (table, m) = vmm_alloc_page_table (set_space v.memory p empty_space) in
    let rooted = set_space m p (record empty_space { pml4 = table }) in
    let bare = record v { memory = rooted } in
    let full = record v { memory = copy_upper 256 (rooted.spaces v.kernel_as).pml4 table rooted } in
    if p == 0
    then (0, v)
    else if table == 0
    then (0, with_heap (kfree (some p) (heap_of bare)) bare)
    else if v.kernel_as == 0
    then (p, bare)
    else (p, full)

unfoldable pub vmm_create_address_space : Machine → Option (ℕ × Machine)
vmm_create_address_space v = elim (alloc_space v) [
  | none ↦ none
  | some (p, v1) ↦ some (fill_space p v1)
]

-- pmm_free_page of a table that an entry names; its pointer, with hhdm_offset, is not NULL.
unfoldable pub give_table : ℕ → Memory → Memory
give_table table m = record m { buddy = buddy_free_page m.buddy table }

pub vmm_free_page_table : ℕ → Memory → Memory
vmm_free_page_table table m = if table == 0 then m else give_table table m

-- `free` of the table that each present one of the first `n` entries names.
unfoldable pub each_present : (ℕ → Memory → Memory) → ℕ → ℕ → Memory → Memory
each_present free zero table m = m
each_present free (suc i) table m =
    let before = each_present free i table m in
    let entry = before.entry (table + 8 * i) in
    if is_present entry then free (pte_addr entry) before else before

unfoldable pub free_pd_table : ℕ → Memory → Memory
free_pd_table pd m = give_table pd (each_present give_table 512 pd m)

unfoldable pub free_pdp_table : ℕ → Memory → Memory
free_pdp_table pdp m = give_table pdp (each_present free_pd_table 512 pdp m)

unfoldable pub vmm_destroy_address_space : ℕ → Machine → Machine
vmm_destroy_address_space p v =
    let root = (v.memory.spaces p).pml4 in
    let freed = record v {
      memory = vmm_free_page_table root (each_present free_pdp_table 256 root v.memory);
    } in
    if (p == 0) || (p == v.kernel_as) then v else with_heap (kfree (some p) (heap_of freed)) freed

pub vmm_switch_address_space : ℕ → Machine → Machine
vmm_switch_address_space p v =
    let root = (v.memory.spaces p).pml4 in
    if (p == 0) || (root == 0) then v else record v { cr3 = root }

pub get_kernel_as : Machine → ℕ
get_kernel_as v = v.kernel_as
