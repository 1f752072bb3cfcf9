-- ===== src/Vmm/Space/Created.antt =====
-- What vmm_create_address_space makes.
use lun_os.Prelude.{
  ℕ, ◌+◌, ◌-◌, ◌*◌, ◌%◌, ◌≤◌, ◌<◌, ◌≡◌, ◌≢◌, refl, sym, ap, ◌∙◌, arith, ◌⊎◌, inl, inr, true, false,
  Option, some, ◌==◌, ℕ_discrete,
}
use lun_os.Buddy.Alloc.Pages.{Exhausted}
use lun_os.Buddy.Whole.{IsValidBuddy, free_cover}
use lun_os.Slab.{Heap}
use lun_os.Kmalloc.{kmalloc}
use lun_os.Slab.Valid.{IsHeap}
use lun_os.Vmm.{
  Memory, AddrSpace, set_space, vmm_alloc_page_table, is_present, vmm_virt_to_phys, pml4_index,
}
use lun_os.Kmalloc.Serve.{kmalloc-KmallocResult, KmallocResult-IsHeap}
use lun_os.Vmm.Alike.{translate_alike, translate_absent, pml4_index_bound}
use lun_os.Vmm.Space.Copied.{
  copy_upper-outside, copy_upper-spaces, copy_upper-inside, upper_same, Fresh, alloc_table,
}
use lun_os.Vmm.Space.{
  Machine, heap_of, with_heap, addr_space_size, alloc_space, pointer, copy_upper, empty_space,
  fill_space, vmm_create_address_space,
}

-- The new address space at `p`, in the memory `m`, of the machine that was `v`.
pub record Created (v : Machine) (p : ℕ) (m : Memory) : Type 0 where
  pub space : p ≢ 0
  pub counted : (m.spaces p).total_pages ≡ 0
  pub kernel_entries :
      (i : ℕ)
      → 256 ≤ i
      → i < 512
      → m.entry ((m.spaces p).pml4 + 8 * i)
        ≡ v.memory.entry ((v.memory.spaces v.kernel_as).pml4 + 8 * i)
  pub elsewhere :
      (a : ℕ)
      → (a < (m.spaces p).pml4) ⊎ ((m.spaces p).pml4 + 4096 ≤ a)
      → m.entry a ≡ v.memory.entry a
  pub kernel_half :
      (vaddr : ℕ)
      → 256 ≤ pml4_index vaddr
      → vmm_virt_to_phys m p vaddr ≡ vmm_virt_to_phys m v.kernel_as vaddr
  pub user_half : (vaddr : ℕ) → pml4_index vaddr < 256 → vmm_virt_to_phys m p vaddr ≡ 0

-- kmalloc of the space gives other memory than the kernel's, and the page of the kernel's top table is
-- not free then.
abbrev pub KeepsKernel : Machine → Type 0
KeepsKernel v =
    (r : Option ℕ × Heap)
    → kmalloc addr_space_size (heap_of v) ≡ some r
    → (v.kernel_as ≢ pointer r.0) × (free_cover r.1.buddy (v.memory.spaces v.kernel_as).pml4 ≡ 0)

-- Why NULL is returned: kmalloc did, or no page is free behind it.
abbrev pub NotMade : Machine → Type 0
NotMade v =
    (r : Option ℕ × Heap) × (kmalloc addr_space_size (heap_of v) ≡ some r)
    × ((pointer r.0 ≡ 0) ⊎ Exhausted r.1.buddy.counter r.1.buddy.arenas 0)

module _ (v : Machine) (p : ℕ) (hp : p ≢ 0) (hk : v.kernel_as ≢ 0)
    (rk : (v.memory.spaces v.kernel_as).pml4 ≢ 0)
    (ak : (v.memory.spaces v.kernel_as).pml4 % 4096 ≡ 0) (ok : IsValidBuddy v.memory.buddy)
    (other : v.kernel_as ≢ p)
    (held : free_cover v.memory.buddy (v.memory.spaces v.kernel_as).pml4 ≡ 0) where
  abbrev cleared : Memory
  cleared = set_space v.memory p empty_space

  abbrev table : ℕ
  table = (vmm_alloc_page_table cleared).0

  abbrev rooted : Memory
  rooted = set_space (vmm_alloc_page_table cleared).1 p (record empty_space { pml4 = table })

  abbrev kernel_root : ℕ
  kernel_root = (rooted.spaces v.kernel_as).pml4

  abbrev made : Memory
  made = copy_upper 256 kernel_root table rooted

  own_space : made.spaces p ≡ record empty_space { pml4 = table }
  unfolding set_space
  own_space =
      ap (λ (s : ℕ → AddrSpace). s p) (copy_upper-spaces kernel_root table rooted 256)
      ∙ ground arith

  kernel_space : (made.spaces v.kernel_as).pml4 ≡ kernel_root
  kernel_space =
      ap (λ (s : ℕ → AddrSpace). (s v.kernel_as).pml4)
        (copy_upper-spaces kernel_root table rooted 256)

  kernel_root-same : kernel_root ≡ (v.memory.spaces v.kernel_as).pml4
  unfolding set_space
  kernel_root-same =
      let same = ap (λ (s : ℕ → AddrSpace). (s v.kernel_as).pml4) (alloc_table cleared ok).0 in
      ground (arith, other, same)

  made-Created : table ≢ 0 → Fresh cleared table (vmm_alloc_page_table cleared).1 → Created v p made
  unfolding is_present set_space
  made-Created ht f =
      let at = f.aligned in
      let same = kernel_root-same in
      let root : (made.spaces p).pml4 ≡ table = ap (λ (s : AddrSpace). s.pml4) own_space in
      let aligned : kernel_root % 4096 ≡ 0 = omega (arith, same, ak) in
      let real : kernel_root ≢ 0 = ground (arith, same, rk) in
      let rp : (made.spaces p).pml4 ≢ 0 = ground (arith, root, ht) in
      let ne : kernel_root ≢ table =
        λ e. omega (arith, f.was_free, ap (free_cover v.memory.buddy) (sym same ∙ e), held) in
      let apart : (kernel_root + 4096 ≤ table) ⊎ (table + 4096 ≤ kernel_root) =
        ground (arith, aligned, at, ne) in
      record {
        space = hp;
        counted = ap (λ (s : AddrSpace). s.total_pages) own_space;
        kernel_entries = λ i h k.
            let split : 256 + (i - 256) ≡ i = omega (arith, h) in
            let side : (kernel_root + 8 * i < table) ⊎ (table + 4096 ≤ kernel_root + 8 * i) =
              ground (arith, apart, k) in
            ap (λ (z : ℕ). made.entry (z + 8 * i)) root
            ∙ rw split at (
                copy_upper-inside kernel_root table rooted 256 (i - 256) apart (omega (arith, h, k))
                  (omega arith))
            ∙ f.elsewhere (kernel_root + 8 * i) side
            ∙ ap (λ (z : ℕ). v.memory.entry (z + 8 * i)) same;
        elsewhere = λ a h.
            copy_upper-outside kernel_root table rooted 256 a (ground (arith, root, h))
              (omega arith)
            ∙ f.elsewhere a (ground (arith, root, h));
        kernel_half = λ vaddr h.
            translate_alike made p v.kernel_as vaddr hp hk rp (ground (arith, kernel_space, real)) (
              ap (λ (z : ℕ). made.entry (z + 8 * pml4_index vaddr)) root
              ∙ upper_same kernel_root table rooted aligned at (pml4_index vaddr) h
                  (pml4_index_bound vaddr)
              ∙ ap (λ (z : ℕ). made.entry (z + 8 * pml4_index vaddr)) (sym kernel_space));
        user_half = λ vaddr h.
            let zero_there : made.entry ((made.spaces p).pml4 + 8 * pml4_index vaddr) ≡ 0 =
              ap (λ (z : ℕ). made.entry (z + 8 * pml4_index vaddr)) root
              ∙ copy_upper-outside kernel_root table rooted 256 (table + 8 * pml4_index vaddr)
                  (inl (omega (arith, h))) (omega arith)
              ∙ f.zeros (pml4_index vaddr) (omega (arith, h)) in
            translate_absent made p vaddr hp rp (rw zero_there refl);
      }

  fill_space-Created :
      (((fill_space p v).0 ≡ 0) × Exhausted v.memory.buddy.counter v.memory.buddy.arenas 0)
      ⊎ Created v (fill_space p v).0 (fill_space p v).1.memory
  unfolding fill_space set_space
  fill_space-Created =
      let a : (p == 0) ≡ false = ground (arith, hp) in
      let b : (v.kernel_as == 0) ≡ false = ground (arith, hk) in
      elim (alloc_table cleared ok).1 [
        | inl (e, gone) ↦
            let c : (table == 0) ≡ true = ground (arith, e) in inl (rw (a, c) (refl, gone))
        | inr f ↦
            let ne = f.positive in
            let c : (table == 0) ≡ false = ground (arith, ne) in
            inr (rw (a, c, b) (made-Created ne f))
      ]

fill_space-null : (p : ℕ) (v : Machine) → p ≡ 0 → (fill_space p v).0 ≡ 0
unfolding fill_space
fill_space-null p v z = let a : (p == 0) ≡ true = ground (arith, z) in rw a refl

create_by :
    (v : Machine) (r : Option ℕ × Heap)
    → kmalloc addr_space_size (heap_of v) ≡ some r
    → vmm_create_address_space v ≡ some (fill_space (pointer r.0) (with_heap r.1 v))
unfolding vmm_create_address_space alloc_space
create_by v r e = rw (e, vmm_create_address_space, alloc_space) refl

-- In a well-formed heap, with a kernel address space whose top table is page-aligned, where kmalloc
-- gives other memory than that space and the page of its table is not free, vmm_create_address_space
-- ends. It returns NULL only where kmalloc did or no page is free behind it. Otherwise it returns an
-- address space of no pages, whose top table has the entries from number 256 on that the kernel's had
-- before; the entries outside this table stay; each address with such a number translates as in the
-- kernel's address space, and each other one to 0.
pub vmm_create_address_space-Created :
    (v : Machine)
    → IsHeap (heap_of v)
    → v.kernel_as ≢ 0
    → (v.memory.spaces v.kernel_as).pml4 ≢ 0
    → (v.memory.spaces v.kernel_as).pml4 % 4096 ≡ 0
    → KeepsKernel v
    → (p : ℕ) × (w : Machine) × (vmm_create_address_space v ≡ some (p, w))
      × (((p ≡ 0) × NotMade v) ⊎ Created v p w.memory)
vmm_create_address_space-Created v ok hk rk ak keeps =
    let (r, e, result) =
      kmalloc-KmallocResult (heap_of v) addr_space_size ok (omega arith) (omega arith) in
    let heap_ok = KmallocResult-IsHeap (heap_of v) addr_space_size r ok result in
    let after = with_heap r.1 v in
    let (other, held) = keeps r e in
    (
      (fill_space (pointer r.0) after).0,
      (fill_space (pointer r.0) after).1,
      create_by v r e,
      elim (ℕ_discrete (pointer r.0) 0) [
        | yes z ↦ inl (fill_space-null (pointer r.0) after z, (r, e, inl z))
        | no nz ↦
            elim (fill_space-Created after (pointer r.0) nz hk rk ak heap_ok.buddy_ok other held) [
              | inl (z, gone) ↦ inl (z, (r, e, inr gone))
              | inr c ↦ inr record {
                space = c.space;
                counted = c.counted;
                kernel_entries = c.kernel_entries;
                elsewhere = c.elsewhere;
                kernel_half = c.kernel_half;
                user_half = c.user_half;
              }
            ]
      ],
    )
