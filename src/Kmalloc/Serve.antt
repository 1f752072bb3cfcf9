-- ===== src/Kmalloc/Serve.antt =====
-- kmalloc on every path.
use lun_os.Prelude.{
  ℕ, zero, suc, ◌+◌, ◌-◌, ◌^◌, ◌≤◌, ◌<◌, ◌≡◌, ◌⊎◌, inl, inr, refl, ap, ◌∙◌, arith, Option, none,
  some, true, false, leb, [], ◌==◌, ℕ_discrete, dec_lt,
}
use lun_os.Buddy.Alloc.Pages.{Exhausted}
use lun_os.Slab.{Heap, num_slab_sizes, slab_sizes, slab_alloc_size}
use lun_os.Slab.Valid.{IsHeap}
use lun_os.Slab.Take.{TakenFrom}
use lun_os.Slab.Create.{Created}
use lun_os.Slab.Serve.{slab_alloc_size-SlabAlloc}
use lun_os.Kmalloc.{alloc_header, slab_threshold, kmalloc_buddy, kmalloc}
use lun_os.Kmalloc.Order.{IsLeastOrder}
use lun_os.Kmalloc.Large.{AllocBlock, HasRoom, kmalloc_buddy-AllocBlock}

-- The least class whose objects hold `size` bytes.
pub record IsLeastClass (size k : ℕ) : Type 0 where
  pub bound : k < num_slab_sizes
  pub holds : size ≤ slab_sizes k
  pub least : (j : ℕ) → j < k → slab_sizes j < size

largest : slab_sizes 7 ≡ slab_threshold
unfolding slab_sizes
largest = refl

class_from :
    (size n k : ℕ)
    → size ≤ slab_threshold
    → k + n ≡ 7
    → ((j : ℕ) → j < k → slab_sizes j < size)
    → (c : ℕ) × IsLeastClass size c
class_from size zero k small e below =
    let last : k ≡ 7 = omega (arith, e) in
    (
      k,
      record {
        bound = omega (arith, last);
        holds = omega (arith, ap slab_sizes last, largest, small);
        least = below;
      },
    )
class_from size (suc n) k small e below = elim (dec_lt (slab_sizes k) size) [
  | no enough ↦
      (k, record { bound = omega (arith, e); holds = omega (arith, enough); least = below })
  | yes short ↦ class_from size n (suc k) small (omega (arith, e)) (λ j hj. elim (ℕ_discrete j k) [
    | yes here ↦ omega (arith, ap slab_sizes here, short)
    | no ne ↦ below j (omega (arith, hj, ne))
  ])
]

-- An object of the least class that holds `size` bytes, of a slab that was there or of a new one.
pub record SlabObject (h : Heap) (size obj : ℕ) (h' : Heap) : Type 0 where
  pub i : ℕ
  pub s : ℕ
  pub least : IsLeastClass size i
  pub taken :
      TakenFrom h i s obj h' ⊎ ((fresh : Heap) × Created h i s fresh × TakenFrom fresh i s obj h')

-- No slab can serve `size` bytes: they are more than an object holds, or the least class that holds them
-- has neither a partial nor an empty slab, and no block for a new one is free.
abbrev pub NoSlabServes : Heap → ℕ → Type 0
NoSlabServes h size =
    (slab_threshold < size)
    ⊎ ((i : ℕ) × IsLeastClass size i
        × ((h.caches i).partial_slabs ≡ [])
        × ((h.caches i).empty_slabs ≡ [])
        × Exhausted h.buddy.counter h.buddy.arenas 1)

-- What kmalloc returns.
abbrev pub KmallocResult : Heap → ℕ → Option ℕ × Heap → Type 0
KmallocResult h size (r, h') =
    ((size ≡ 0) × (r ≡ none) × (h' ≡ h))
    ⊎ (((obj : ℕ) × (0 < size)
          × (size ≤ slab_threshold)
          × (r ≡ some obj)
          × SlabObject h size obj h')
        ⊎ ((order : ℕ) × (0 < size)
            × NoSlabServes h size
            × IsLeastOrder (alloc_header + size + 4) order
            × AllocBlock h size order (r, h')))

behind_slabs :
    (h : Heap) (size : ℕ)
    → IsHeap h
    → 0 < size
    → size ≤ 2 ^ 63 - 20
    → HasRoom size
    → NoSlabServes h size
    → (result : Option ℕ × Heap) × (kmalloc_buddy size h ≡ some result)
      × KmallocResult h size result
behind_slabs h size v positive bound room unserved =
    let (order, result, e, best, got) = kmalloc_buddy-AllocBlock h size v bound room in
    (result, e, inr (inr (order, positive, unserved, best, got)))

module _ (h : Heap) (size : ℕ) (positive : 0 < size) where
  nonzero : (size == 0) ≡ false
  nonzero = ground arith

  pub kmalloc-small :
      size ≤ slab_threshold
      → (p : ℕ) → (slab_alloc_size size h).0 ≡ some p
      → kmalloc size h ≡ some (some p, (slab_alloc_size size h).1)
  unfolding kmalloc
  kmalloc-small small p e =
      let q : leb size slab_threshold ≡ true = ground (arith, small) in rw (nonzero, q, e) refl

  kmalloc-fallback :
      size ≤ slab_threshold
      → (slab_alloc_size size h).0 ≡ none
      → kmalloc size h ≡ kmalloc_buddy size (slab_alloc_size size h).1
  unfolding kmalloc
  kmalloc-fallback small e =
      let q : leb size slab_threshold ≡ true = ground (arith, small) in rw (nonzero, q, e) refl

  kmalloc-large : slab_threshold < size → kmalloc size h ≡ kmalloc_buddy size h
  unfolding kmalloc
  kmalloc-large large =
      let q : leb size slab_threshold ≡ false = ground (arith, large) in rw (nonzero, q) refl

  from_slabs :
      IsHeap h
      → size ≤ slab_threshold
      → HasRoom size
      → (result : Option ℕ × Heap) × (kmalloc size h ≡ some result) × KmallocResult h size result
  from_slabs v small room =
      let (i, least) = class_from size 7 0 small refl (λ j hj. absurd (omega (arith, hj))) in
      elim (slab_alloc_size-SlabAlloc h i size v least.bound least.holds least.least) [
        | inl (failed, same, partial_gone, empty_gone, none_left) ↦
            let (result, e, got) =
              behind_slabs h size v positive (omega (arith, small)) room
                (inr (i, least, partial_gone, empty_gone, none_left)) in
            (result, kmalloc-fallback small failed ∙ ap (kmalloc_buddy size) same ∙ e, got)
        | inr (obj, s, e, taken) ↦ (
          (some obj, (slab_alloc_size size h).1),
          kmalloc-small small obj e,
          inr (
              inl (
                obj,
                positive,
                small,
                refl,
                record { i = i; s = s; least = least; taken = taken },
              )),
        )
      ]

-- In a well-formed heap and for at most 2 ^ 63 - 20 bytes, where neither `size + 20` nor one of the three
-- numbers behind it is a multiple of 4096, kmalloc ends, with NULL for 0 bytes; with an object of the
-- least class of slabs that holds the bytes; or, only where they are more than 2048 or that class has no
-- slab with a free object and no block for a new one is free, with a block of the least order that holds
-- them, the header and four bytes more, in which the end magic lies too, and NULL where that order is 20
-- or more or no such block is free.
pub kmalloc-KmallocResult :
    (h : Heap) (size : ℕ)
    → IsHeap h
    → size ≤ 2 ^ 63 - 20
    → HasRoom size
    → (result : Option ℕ × Heap) × (kmalloc size h ≡ some result) × KmallocResult h size result
unfolding kmalloc
kmalloc-KmallocResult h size v bound room = elim (ℕ_discrete size 0) [
  | yes z ↦
      let q : (size == 0) ≡ true = ground (arith, z) in ((none, h), rw q refl, inl (z, refl, refl))
  | no nz ↦ elim (dec_lt slab_threshold size) [
    | no small ↦ from_slabs h size (omega (arith, nz)) v (omega (arith, small)) room
    | yes large ↦
        let (result, e, got) = behind_slabs h size v (omega (arith, nz)) bound room (inl large) in
        (result, kmalloc-large h size (omega (arith, nz)) large ∙ e, got)
  ]
]

-- The heap stays well-formed.
pub KmallocResult-IsHeap :
    (h : Heap) (size : ℕ) (result : Option ℕ × Heap)
    → IsHeap h
    → KmallocResult h size result
    → IsHeap result.1
KmallocResult-IsHeap h size result v (inl (_, _, same)) = rw same v
KmallocResult-IsHeap h size result v (inr (inl (_, _, _, _, o))) = elim o.taken [
  | inl t ↦ t.heap
  | inr (_, _, t) ↦ t.heap
]
KmallocResult-IsHeap h size result v (inr (inr (_, _, _, _, inl (_, same, _)))) = rw same v
KmallocResult-IsHeap h size result v (inr (inr (_, _, _, _, inr (_, _, st)))) = st.heap
