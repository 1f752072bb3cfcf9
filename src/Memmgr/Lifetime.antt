-- ===== src/Memmgr/Lifetime.antt =====
-- The making and the freeing of a memory descriptor, over the heap and the address spaces.
use mathlib.Core.Option.{some-injective}
use lun_os.Prelude.{
  ℕ, ◌≡◌, ◌≢◌, ◌%◌, ◌⊎◌, inl, inr, refl, sym, subst, ◌∙◌, arith, Option, none, some, List, [], ◌∷◌,
  true, false, ◌==◌, if◌then◌else◌,
}
use lun_os.Kmalloc.{kmalloc, kfree}
use lun_os.Slab.{Heap}
use lun_os.Slab.Valid.{IsHeap}
use lun_os.Kmalloc.Serve.{kmalloc-KmallocResult, KmallocResult-IsHeap}
use lun_os.Vmm.Space.Created.{Created, KeepsKernel, NotMade, vmm_create_address_space-Created}
use lun_os.Memmgr.{MemDescriptor}
use lun_os.Vmm.Space.{
  Machine, heap_of, with_heap, pointer, vmm_create_address_space, vmm_destroy_address_space,
}

-- sizeof(struct mem_descriptor)
abbrev pub mem_descriptor_size : ℕ
mem_descriptor_size = 48

-- The descriptor of a new address space.
abbrev pub new_descriptor : ℕ → MemDescriptor
new_descriptor space = record {
  space = space;
  regions = [];
  brk = 0;
  mmap_base = 0;
  total_vm = 0;
  rss = 0;
}

-- The end of mm_alloc: NULL without an address space, or the pointer with the descriptor at it. The code
-- writes the descriptor through the pointer without a test; where it is NULL, that is `none`.
abbrev pub described : ℕ → ℕ → Machine → Option (Option (ℕ × MemDescriptor) × Machine)
described p space v =
    let written : Option (Option (ℕ × MemDescriptor) × Machine) =
      if p == 0 then none else some (some (p, new_descriptor space), v) in
    if space == 0 then some (none, v) else written

-- `none` also if kmalloc does not end.
pub mm_alloc : Machine → Option (Option (ℕ × MemDescriptor) × Machine)
mm_alloc v = elim (kmalloc mem_descriptor_size (heap_of v)) [
  | none ↦ none
  | some (p, h) ↦ elim (vmm_create_address_space (with_heap h v)) [
    | none ↦ none
    | some (space, w) ↦ described (pointer p) space w
  ]
]

-- `while (current)`, over the addresses of the regions.
pub free_regions : List ℕ → Machine → Machine
free_regions [] v = v
free_regions (r ∷ regions) v = free_regions regions (with_heap (kfree (some r) (heap_of v)) v)

-- mm_free of the descriptor at `mm` with its regions by their addresses; 0 stands for NULL.
pub mm_free : ℕ → MemDescriptor → List ℕ → Machine → Machine
mm_free mm descriptor regions v =
    let freed = free_regions regions (vmm_destroy_address_space descriptor.space v) in
    if mm == 0 then v else with_heap (kfree (some mm) (heap_of freed)) freed

-- The answer of mm_alloc, of the machine that was `v` once kmalloc had given `p` for the descriptor: NULL,
-- because no address space could be made, or at `p` a descriptor without regions of a new one.
abbrev pub Owns : Machine → ℕ → Option (ℕ × MemDescriptor) × Machine → Type 0
Owns v p (r, w) =
    ((r ≡ none) × NotMade v)
    ⊎ ((space : ℕ) × (r ≡ some (p, new_descriptor space)) × Created v space w.memory)

described-Owns :
    (v w : Machine) (p space : ℕ)
    → p ≢ 0
    → ((space ≡ 0) × NotMade v) ⊎ Created v space w.memory
    → (r : Option (ℕ × MemDescriptor) × Machine) × (described p space w ≡ some r) × Owns v p r
described-Owns v w p space hp (inl (z, why)) =
    let q : (space == 0) ≡ true = ground (arith, z) in ((none, w), rw q refl, inl (refl, why))
described-Owns v w p space hp (inr c) =
    let real = c.space in
    let q : (space == 0) ≡ false = ground (arith, real) in
    let q' : (p == 0) ≡ false = ground (arith, hp) in
    ((some (p, new_descriptor space), w), rw (q, q') refl, inr (space, refl, c))

alloc_by :
    (v w : Machine) (r : Option ℕ × Heap) (space : ℕ)
    → kmalloc mem_descriptor_size (heap_of v) ≡ some r
    → vmm_create_address_space (with_heap r.1 v) ≡ some (space, w)
    → mm_alloc v ≡ described (pointer r.0) space w
unfolding mm_alloc
alloc_by v w r space e f = rw (e, mm_alloc) (rw (f, mm_alloc) refl)

-- In a well-formed heap, with a kernel address space whose top table is page-aligned, where kmalloc gives
-- memory for the descriptor and, behind that, other memory than the kernel's space for the new one, the
-- page of the kernel's top table not being free: mm_alloc ends. It returns NULL only where kmalloc gives
-- no memory for the space or no page is free behind it; and otherwise a descriptor without regions at
-- the address that kmalloc gave, whose address space has the kernel's entries from number 256 on,
-- translates each address with such a number as the kernel's does, and each other one to 0.
pub mm_alloc-Owns :
    (v : Machine) (p : ℕ) (h : Heap)
    → IsHeap (heap_of v)
    → v.kernel_as ≢ 0
    → (v.memory.spaces v.kernel_as).pml4 ≢ 0
    → (v.memory.spaces v.kernel_as).pml4 % 4096 ≡ 0
    → kmalloc mem_descriptor_size (heap_of v) ≡ some (some p, h)
    → p ≢ 0
    → KeepsKernel (with_heap h v)
    → (r : Option (ℕ × MemDescriptor) × Machine) × (mm_alloc v ≡ some r) × Owns (with_heap h v) p r
mm_alloc-Owns v p h ok hk rk ak got hp keeps =
    let (r, e, result) =
      kmalloc-KmallocResult (heap_of v) mem_descriptor_size ok (omega arith) (omega arith) in
    let same : r ≡ (some p, h) = some-injective r (some p, h) (sym e ∙ got) in
    let heap_ok : IsHeap h =
      subst (λ (z : Option ℕ × Heap). IsHeap z.1) same
        (KmallocResult-IsHeap (heap_of v) mem_descriptor_size r ok result) in
    let (space, w, f, c) =
      vmm_create_address_space-Created (with_heap h v) heap_ok hk rk ak keeps in
    let (r', e', owns) = described-Owns (with_heap h v) w p space hp c in
    (r', alloc_by v w (some p, h) space got f ∙ e', owns)
