-- ===== src/Memmgr.antt =====
-- The memory descriptor of a task: kernel/memmgr/memmgr.c and include/kernel/memmgr.h. A region's list
-- node is the region itself, so that of kmalloc it counts here only whether it has memory; the
-- descriptor that a call is given is not NULL.
pub mod Regions
pub mod Layout
pub mod Lifetime
use lun_os.Prelude.{
  ℕ, ◌+◌, ◌-◌, ◌*◌, ◌^◌, bit_and, bit_or, Bool, true, false, ◌&&◌, ◌||◌, not, Option, none, some,
  List, [], ◌∷◌, ltb, leb, ◌==◌, if◌then◌else◌, add64, sub64, page_size, Status, success, failure,
}
use lun_os.Prelude.Words.{page_align_up}
use lun_os.Buddy.Alloc.{buddy_alloc_pages, buddy_alloc_page}
use lun_os.Buddy.Free.{buddy_free_pages}
use lun_os.Vmm.{Memory, vmm_map_page, vmm_map_range}

-- RP_READ, RP_WRITE, RP_EXEC, RP_HEAP, RP_STACK
abbrev pub rp_read : ℕ
rp_read = 1

abbrev pub rp_write : ℕ
rp_write = 2

abbrev pub rp_exec : ℕ
rp_exec = 4

abbrev pub rp_heap : ℕ
rp_heap = 8

abbrev pub rp_stack : ℕ
rp_stack = 16

abbrev pub stack_size : ℕ
stack_size = 8 * 1024 * 1024

abbrev pub stack_top : ℕ
stack_top = 0x0000_7FFF_FFFF_FFFF

abbrev pub heap_size : ℕ
heap_size = 1024 * 1024 * 1024

abbrev pub heap_grow_size : ℕ
heap_grow_size = 64 * 1024

abbrev pub heap_grow_order : ℕ
heap_grow_order = 4

abbrev pub guard_size : ℕ
guard_size = page_size

pub record MemRegion : Type 0 where
  pub start : ℕ
  pub end : ℕ
  pub flags : ℕ

pub record MemDescriptor : Type 0 where
  pub space : ℕ  -- as
  pub regions : List MemRegion
  pub brk : ℕ
  pub mmap_base : ℕ
  pub total_vm : ℕ
  pub rss : ℕ

-- At whether kmalloc has memory: the code does not test it, and writes through NULL where there is
-- none; that is `none`.
pub mm_add_region : Bool → MemDescriptor → ℕ → ℕ → ℕ → Option (Status × MemDescriptor)
mm_add_region memory mm start end flags =
    let added : MemDescriptor = record mm {
      regions = record { start = start; end = end; flags = flags } ∷ mm.regions;
    } in
    if leb end start then some (failure, mm) else if memory then some (success, added) else none

-- The loop of mm_remove_region: the list without the first region that matches, if one does.
pub remove_first : ℕ → ℕ → List MemRegion → Option (List MemRegion)
remove_first start end [] = none
remove_first start end (r ∷ rs) =
    let rest : Option (List MemRegion) = elim (remove_first start end rs) [
      | none ↦ none
      | some kept ↦ some (r ∷ kept)
    ] in
    if (r.start == start) && (r.end == end) then some rs else rest

pub mm_remove_region : MemDescriptor → ℕ → ℕ → Status × MemDescriptor
mm_remove_region mm start end =
    let removed : Status × MemDescriptor = elim (remove_first start end mm.regions) [
      | none ↦ (failure, mm)
      | some kept ↦ (success, record mm { regions = kept })
    ] in
    if leb end start then (failure, mm) else removed

-- Both ends of a region belong to it.
pub find_in : List MemRegion → ℕ → Option MemRegion
find_in [] vaddr = none
find_in (r ∷ rs) vaddr =
    let rest = find_in rs vaddr in if leb r.start vaddr && leb vaddr r.end then some r else rest

pub mm_find_region : MemDescriptor → ℕ → Option MemRegion
unfolding find_in
mm_find_region mm vaddr = find_in mm.regions vaddr

-- The calls of mm_add_region in mm_setup_executable, whose results it ignores.
pub add : Bool → ℕ → ℕ → ℕ → MemDescriptor → Option MemDescriptor
unfolding mm_add_region
add memory start end flags mm = elim (mm_add_region memory mm start end flags) [
  | none ↦ none
  | some (_, mm') ↦ some mm'
]

-- Behind a call that came back.
abbrev pub then_do :
    Option MemDescriptor → (MemDescriptor → Option MemDescriptor) → Option MemDescriptor
then_do none f = none
then_do (some mm) f = f mm

-- `memory` is whether kmalloc has memory at each of the six calls.
pub mm_setup_executable : (ℕ → Bool) → MemDescriptor → ℕ → ℕ → ℕ → Option (Status × MemDescriptor)
unfolding add
mm_setup_executable memory mm code_start code_end data_end =
    let data_start = page_align_up code_end in
    let heap_start = page_align_up data_end in
    let heap_end = sub64 (add64 heap_start heap_size) 1 in
    let guard_heap = add64 heap_end guard_size in
    let stack_bottom = stack_top - stack_size + 1 in
    let guard_stack = stack_bottom - guard_size in
    let mm1 = add (memory 0) code_start code_end (bit_or rp_read rp_exec) mm in
    let mm2 = then_do mm1 (add (memory 1) data_start data_end (bit_or rp_read rp_write)) in
    let mm3 = then_do mm2 (λ m. some (record m { brk = heap_start })) in
    let mm4 =
      then_do mm3 (add (memory 2) heap_start heap_end (bit_or (bit_or rp_read rp_write) rp_heap)) in
    let mm5 = then_do mm4 (add (memory 3) (add64 heap_end 1) guard_heap 0) in
    let mm6 = then_do mm5 (add (memory 4) guard_stack (stack_bottom - 1) 0) in
    let mm7 =
      then_do mm6
        (add (memory 5) stack_bottom stack_top (bit_or (bit_or rp_read rp_write) rp_stack)) in
    elim mm7 [ none ↦ none | some m ↦ some (success, m) ]

pub mm_check_access : MemDescriptor → ℕ → ℕ → Bool
unfolding mm_find_region
mm_check_access mm addr access_flags = elim (mm_find_region mm addr) [
  | none ↦ false
  | some r ↦ if r.flags == 0 then false else bit_and r.flags access_flags == access_flags
]

-- PTE_PRESENT | PTE_WRITABLE | PTE_USER | PTE_NX
abbrev pub user_flags : ℕ
user_flags = 2 ^ 63 + 7

pub mm_expand_stack : Memory → MemDescriptor → ℕ → Status × Memory
mm_expand_stack m mm fault_addr =
    let (phys_page, b) = buddy_alloc_page m.buddy in
    let m' = record m { buddy = b } in
    if phys_page == 0
    then (failure, m')
    else vmm_map_page m' mm.space fault_addr phys_page user_flags

-- The block is given back when it could not be mapped; the break moves up all the same.
pub grown : MemDescriptor → ℕ → Status × Memory → Status × Memory × MemDescriptor
grown mm phys_start (success, m) = (success, m, record mm { brk = add64 mm.brk heap_grow_size })
grown mm phys_start (failure, m) = (
  failure,
  record m { buddy = buddy_free_pages m.buddy phys_start heap_grow_order },
  record mm { brk = add64 mm.brk heap_grow_size },
)

pub mm_expand_heap : Memory → MemDescriptor → ℕ → Status × Memory × MemDescriptor
mm_expand_heap m mm fault_addr =
    let (phys_start, b) = buddy_alloc_pages m.buddy heap_grow_order in
    let m' = record m { buddy = b } in
    if ltb fault_addr mm.brk
    then (success, m, mm)
    else if phys_start == 0
    then (failure, m', mm)
    else grown mm phys_start (vmm_map_range m' mm.space mm.brk phys_start heap_grow_size user_flags)

-- PF_INSTR before PF_WRITE
pub err_code_to_access_flags : ℕ → ℕ
err_code_to_access_flags error_code =
    if not (bit_and error_code 16 == 0)
    then rp_exec
    else if not (bit_and error_code 2 == 0)
    then rp_write
    else rp_read
