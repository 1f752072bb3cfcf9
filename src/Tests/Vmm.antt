-- ===== src/Tests/Vmm.antt =====
-- One address space at pointer 1 whose tables for the low pages lie at 0x1000 to 0x4000.
use mathlib.Core.List.{Memᴰ}
use lun_os.Prelude.{
  ℕ, ◌≡◌, ◌≢◌, ◌⊎◌, ◌↔◌, List, Option, refl, sym, subst, ◌∙◌, inl, arith, some, [], ◌==◌,
  if◌then◌else◌, false, true, success, sub64,
}
use lun_os.Vmm.{
  Memory, walk_levels, pml4_index, pdp_index, pd_index, pt_index, vmm_map_page, vmm_unmap_page,
  vmm_virt_to_phys, is_present, pte_addr, descend,
}
use lun_os.Vmm.Entry.{AreFlags}
use lun_os.Vmm.Walk.{visited}
use lun_os.Vmm.Mapping.{HasEntry, Clear, indices}
use lun_os.Vmm.Space.{
  Machine, heap_of, with_heap, pointer, vmm_create_address_space, vmm_destroy_address_space,
}
use lun_os.Kmalloc.{kfree}
use lun_os.Kmalloc.Serve.{kmalloc-small}
use mathlib.Core.Option.{some-injective}
use lun_os.Buddy.Whole.{free_cover}
use lun_os.Buddy.Cover.{cover, hits_below}
use lun_os.Buddy.Alloc.{buddy_alloc_pages}
use lun_os.Slab.{
  Heap, slab_alloc_size, alloc_from, slab_alloc, slab_create, take_object, place_after_alloc,
  slab_allocator_init, init_caches, set_cache, set_word, slab_cache_init, slab_sizes,
  calculate_objects_per_slab, link_objects, to_full, slab_remove_from_list, set_slab,
}
use lun_os.Vmm.Space.Created.{Created, KeepsKernel, NotMade, vmm_create_address_space-Created}
use lun_os.Vmm.Space.Freed.{UserTable, giving, vmm_destroy_address_space-Freed}
use lun_os.Memmgr.{MemDescriptor}
use lun_os.Memmgr.Lifetime.{mm_alloc, Owns, mm_alloc-Owns}
use lun_os.Tests.Slab.{heap, heap-IsHeap}
use lun_os.Vmm.Translate.{Mapped, vmm_map_page-Mapped, vmm_unmap_page_lem}

-- The last entry, for the page at 0x5000, is at 0x4028 and holds `e`.
abbrev tables : ℕ → Memory
tables e = record {
  entry = λ a.
      if a == 0x1000
      then 0x2007
      else if a == 0x2000
      then 0x3007
      else if a == 0x3000
      then 0x4007
      else if a == 0x4028
      then e
      else 0;
  buddy = record { arenas = []; counter = 1 };
  spaces = λ p. record { pml4 = 0x1000; total_pages = 9 };
}

leads : (e : ℕ) → (walk_levels false (indices 0x5123) 0x1000 (tables e)).0 ≡ some 0x4028
unfolding walk_levels descend pml4_index pdp_index pd_index pt_index is_present pte_addr
leads e = refl

tables-HasEntry : (e : ℕ) → HasEntry (tables e) 1 0x5123 0x4028
tables-HasEntry e = record {
  space = omega arith;
  root = omega arith;
  leads = leads e;
  word = omega arith;
}

tables-Clear : (e : ℕ) → Clear (tables e) 1 0x5123 0x4028
unfolding visited pml4_index pdp_index pd_index pt_index is_present pte_addr
tables-Clear e = (omega arith, (omega arith, (omega arith, tt)))

unused : is_present ((tables 0).entry 0x4028) ≡ false
unfolding is_present
unused = refl

used : is_present ((tables 0x9007).entry 0x4028) ≡ true
unfolding is_present
used = refl

flags : AreFlags 6
flags = inl refl

vmm_map_page-Mapped_example :
    Mapped (tables 0) 1 0x5123 0x9000 0x4028 (vmm_map_page (tables 0) 1 0x5123 0x9000 6)
vmm_map_page-Mapped_example =
    vmm_map_page-Mapped (tables 0) 1 0x5123 0x4028 0x9000 6 (tables-HasEntry 0) (tables-Clear 0)
      unused (omega arith) flags

vmm_unmap_page_example :
    ((vmm_unmap_page (tables 0x9007) 1 0x5123).0 ≡ success)
    × (vmm_virt_to_phys (vmm_unmap_page (tables 0x9007) 1 0x5123).1 1 0x5123 ≡ 0)
    × (((vmm_unmap_page (tables 0x9007) 1 0x5123).1.spaces 1).total_pages ≡ sub64 9 1)
    × ((w other : ℕ)
        → HasEntry (tables 0x9007) 1 w other
        → other ≢ 0x4028
        → Clear (tables 0x9007) 1 w 0x4028
        → vmm_virt_to_phys (vmm_unmap_page (tables 0x9007) 1 0x5123).1 1 w
          ≡ vmm_virt_to_phys (tables 0x9007) 1 w)
vmm_unmap_page_example =
    vmm_unmap_page_lem (tables 0x9007) 1 0x5123 0x4028 (tables-HasEntry 0x9007)
      (tables-Clear 0x9007) used

-- The kernel's address space is the one at pointer 1.
abbrev machine : Machine
machine = record {
  memory = record (tables 0x9007) { buddy = heap.buddy };
  heap = heap;
  kernel_as = 1;
  current_pml4 = 0x1000;
  cr3 = 0x1000;
}

-- What the slabs give for an address space, for a descriptor, and for an address space after that.
for_space : (slab_alloc_size 24 heap).0 ≡ some 0x101FD0
unfolding slab_alloc_size alloc_from slab_alloc slab_create take_object place_after_alloc
    buddy_alloc_pages slab_allocator_init init_caches set_cache set_word slab_cache_init slab_sizes
    calculate_objects_per_slab link_objects to_full slab_remove_from_list set_slab
for_space = refl

abbrev after_descriptor : Heap
after_descriptor = (slab_alloc_size 48 heap).1

for_descriptor : (slab_alloc_size 48 heap).0 ≡ some 0x101FB0
unfolding slab_alloc_size alloc_from slab_alloc slab_create take_object place_after_alloc
    buddy_alloc_pages slab_allocator_init init_caches set_cache set_word slab_cache_init slab_sizes
    calculate_objects_per_slab link_objects to_full slab_remove_from_list set_slab
for_descriptor = refl

for_space_behind : (slab_alloc_size 24 after_descriptor).0 ≡ some 0x103FD0
unfolding slab_alloc_size alloc_from slab_alloc slab_create take_object place_after_alloc
    buddy_alloc_pages slab_allocator_init init_caches set_cache set_word slab_cache_init slab_sizes
    calculate_objects_per_slab link_objects to_full slab_remove_from_list set_slab
for_space_behind = refl

low_page : free_cover (slab_alloc_size 24 heap).1.buddy 0x1000 ≡ 0
unfolding slab_alloc_size alloc_from slab_alloc slab_create take_object place_after_alloc
    buddy_alloc_pages slab_allocator_init init_caches set_cache set_word slab_cache_init slab_sizes
    calculate_objects_per_slab link_objects to_full slab_remove_from_list set_slab free_cover cover
    hits_below
low_page = refl

low_page_behind : free_cover (slab_alloc_size 24 after_descriptor).1.buddy 0x1000 ≡ 0
unfolding slab_alloc_size alloc_from slab_alloc slab_create take_object place_after_alloc
    buddy_alloc_pages slab_allocator_init init_caches set_cache set_word slab_cache_init slab_sizes
    calculate_objects_per_slab link_objects to_full slab_remove_from_list set_slab free_cover cover
    hits_below
low_page_behind = refl

keeps :
    (v : Machine) (p : ℕ)
    → (slab_alloc_size 24 (heap_of v)).0 ≡ some p
    → v.kernel_as ≢ p
    → free_cover (slab_alloc_size 24 (heap_of v)).1.buddy (v.memory.spaces v.kernel_as).pml4 ≡ 0
    → KeepsKernel v
keeps v p e ne z r got =
    let same =
      some-injective (some p, (slab_alloc_size 24 (heap_of v)).1) r
        (sym (kmalloc-small (heap_of v) 24 (omega arith) (omega arith) p e) ∙ got) in
    subst
      (λ (q : Option ℕ × Heap).
        (v.kernel_as ≢ pointer q.0) × (free_cover q.1.buddy (v.memory.spaces v.kernel_as).pml4 ≡ 0))
      same (ne, z)

vmm_create_address_space_example :
    (p : ℕ) × (w : Machine) × (vmm_create_address_space machine ≡ some (p, w))
    × (((p ≡ 0) × NotMade machine) ⊎ Created machine p w.memory)
vmm_create_address_space_example =
    vmm_create_address_space-Created machine heap-IsHeap (omega arith) (omega arith) refl
      (keeps machine 0x101FD0 for_space (omega arith) low_page)

vmm_destroy_address_space_example :
    (r : List ℕ) × (vmm_destroy_address_space 5 machine
      ≡ with_heap (kfree (some 5) (heap_of (giving r machine))) (giving r machine))
    × ((t : ℕ) → Memᴰ t r ↔ UserTable machine.memory.entry 0x1000 t)
vmm_destroy_address_space_example =
    vmm_destroy_address_space-Freed machine 5 (omega arith) (omega arith) (omega arith)

mm_alloc-Owns_example :
    (r : Option (ℕ × MemDescriptor) × Machine) × (mm_alloc machine ≡ some r)
    × Owns (with_heap after_descriptor machine) 0x101FB0 r
mm_alloc-Owns_example =
    mm_alloc-Owns machine 0x101FB0 after_descriptor heap-IsHeap (omega arith) (omega arith) refl
      (kmalloc-small heap 48 (omega arith) (omega arith) 0x101FB0 for_descriptor) (omega arith)
      (keeps (with_heap after_descriptor machine) 0x103FD0 for_space_behind (omega arith)
        low_page_behind)
