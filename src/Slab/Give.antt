-- ===== src/Slab/Give.antt =====
-- Giving an object back to its slab.
use native.Mathlib.Nat.{mul-le-mul_right}
use lun_os.Prelude.{
  ℕ, zero, suc, ◌+◌, ◌*◌, ◌%◌, ◌≤◌, ◌<◌, ◌≡◌, ◌≢◌, ◌⊎◌, inl, inr, refl, sym, ap, ◌∙◌, arith, true,
  false, List, [], ◌∷◌, length, ◌==◌, if◌then◌else◌, ℕ_discrete, add64, sub64,
}
use lun_os.Slab.{
  Slab, SlabCache, Heap, occurs, unlink, num_slab_sizes, slab_header, place_after_free, slab_free,
  set_word, set_slab, set_cache, object_poison,
}
use lun_os.Slab.Lists.{occurs-unlink, length-unlink}
use lun_os.Slab.Relist.{
  listed, over, Relisted, to_empty-Relisted, to_partial-Relisted, stay-Relisted,
}
use lun_os.Slab.Valid.{IsObject, IsSlab, IsCache, IsHeap, available, shrunk-IsHeap, other_cache}
use lun_os.Slab.Update.{updated, Relisted-IsHeap, over_here, available_here, available_elsewhere}

-- The objects that are free after `obj` has been given back to cache number `i`.
pub record GivenTo (h : Heap) (i obj : ℕ) (h' : Heap) : Type 0 where
  pub heap : IsHeap h'
  pub frees : (o : ℕ) → available h' i o ≡ available h i o + (if o == obj then 1 else 0)
  pub others : (j o : ℕ) → j < num_slab_sizes → j ≢ i → available h' j o ≡ available h j o

-- Of `n` places a list without repetitions holds at most `n`.
pub places_bound :
    (n size start : ℕ) (xs : List ℕ)
    → ((o : ℕ) → occurs o xs ≤ 1)
    → ((o : ℕ) → 0 < occurs o xs → (k : ℕ) × (k < n) × (o ≡ start + k * size))
    → length xs ≤ n
unfolding occurs
places_bound zero size start [] distinct places = omega arith
places_bound zero size start (x ∷ xs) distinct places =
    let (k, lt, _) = places x (ground arith) in absurd (omega (arith, lt))
places_bound (suc n) size start xs distinct places =
    let last = start + n * size in
    omega (
      arith,
      length-unlink last xs,
      places_bound n size start (unlink last xs)
          (λ o. omega (arith, occurs-unlink o last xs, distinct o))
          (λ o here.
            let (k, lt, e) = places o (ground (arith, occurs-unlink o last xs, here)) in
            elim (ℕ_discrete k n) [
              | yes q ↦
                  let at_last : o ≡ last = e ∙ ap (λ (z : ℕ). start + z * size) q in
                  absurd (ground (arith, occurs-unlink o last xs, distinct o, at_last, here))
              | no ne ↦ (k, omega arith, e)
            ]),
    )

module _ (h : Heap) (i s ptr : ℕ) (v : IsHeap h) (hi : i < num_slab_sizes)
    (here : 0 < listed (h.caches i) s)
    (obj : IsObject (h.caches i).object_size (h.caches i).objects_per_slab s ptr)
    (used : occurs ptr (h.slabs s).free_list ≡ 0) where
  vc : IsCache h.buddy h.word h.slabs i (h.caches i)
  vc = v.caches_ok i hi

  once : listed (h.caches i) s ≡ 1
  once = omega (arith, vc.once s, here)

  w : IsSlab h.buddy h.word (h.caches i).object_size (h.caches i).objects_per_slab i s (h.slabs s)
  w = vc.valid s here

  count : ℕ
  count = add64 (h.slabs s).free_count 1

  longer : List ℕ
  longer = ptr ∷ (h.slabs s).free_list

  longer_objects :
      (o : ℕ)
      → 0 < occurs o longer
      → IsObject (h.caches i).object_size (h.caches i).objects_per_slab s o
  unfolding longer occurs
  longer_objects o g = elim (ℕ_discrete ptr o) [
    | yes e ↦ let (k, lt, q) = obj in (k, lt, sym e ∙ q)
    | no ne ↦ w.objects o (ground (arith, g, ne))
  ]

  longer_distinct : (o : ℕ) → occurs o longer ≤ 1
  unfolding longer occurs
  longer_distinct o = elim (ℕ_discrete ptr o) [
    | yes e ↦ ground (arith, e, used, ap (λ (z : ℕ). occurs z (h.slabs s).free_list) e)
    | no ne ↦ ground (arith, w.distinct o, ne)
  ]

  -- There was room for the object.
  room : (h.slabs s).free_count < (h.caches i).objects_per_slab
  unfolding longer
  room = omega (
    arith,
    w.counted,
    places_bound (h.caches i).objects_per_slab (h.caches i).object_size (s + slab_header) longer
        longer_distinct longer_objects,
  )

  count_lem : count ≡ suc (h.slabs s).free_count
  unfolding count
  count_lem = omega (arith, room, vc.few)

  t : Slab
  t = record (h.slabs s) { free_list = longer; free_count = count }

  x : ℕ
  x = sub64 (h.caches i).allocated_objects 1

  before : SlabCache
  unfolding x
  before = record (h.caches i) { allocated_objects = x }

  d : SlabCache
  d = place_after_free s count before

  t-IsSlab : IsSlab h.buddy h.word (h.caches i).object_size (h.caches i).objects_per_slab i s t
  unfolding t longer
  t-IsSlab = record {
    magic = w.magic;
    owner = w.owner;
    place = w.place;
    positive = w.positive;
    aligned = w.aligned;
    counted = omega (arith, count_lem, w.counted);
    objects = longer_objects;
    distinct = longer_distinct;
    reserved = w.reserved;
  }

  -- Where the slab stands afterwards.
  moved :
      ((count ≡ (h.caches i).objects_per_slab) × Relisted s 0 0 1 before d)
      ⊎ ((count < (h.caches i).objects_per_slab) × Relisted s 1 0 0 before d)
  unfolding d place_after_free before listed
  moved = elim (ℕ_discrete count 1) [
    | yes z ↦
        let e : (count == 1) ≡ true = ground (arith, z) in
        inr (omega (arith, z, vc.many), rw e (to_partial-Relisted s before once))
    | no nz ↦
        let e : (count == 1) ≡ false = ground (arith, nz) in
        elim (ℕ_discrete count (h.caches i).objects_per_slab) [
          | yes q ↦
              let g : (count == (h.caches i).objects_per_slab) ≡ true = ground (arith, q) in
              inl (q, rw (e, g) (to_empty-Relisted s before once))
          | no nq ↦
              let g : (count == (h.caches i).objects_per_slab) ≡ false = ground (arith, nq) in
              inr (
                omega (arith, nq, count_lem, room),
                rw (e, g)
                    (stay-Relisted s before once
                      (ground (arith, vc.placed s, once, count_lem, room, nq, nz))),
              )
        ]
  ]

  counts :
      (now prior : ℕ)
      → now + (h.slabs s).free_count ≡ prior + t.free_count
      → add64 (h.caches i).allocated_objects prior ≡ (h.caches i).total_objects
      → add64 x now ≡ (h.caches i).total_objects
  unfolding t x
  counts now prior moved balance = omega (arith, moved, balance, count_lem)

  given-IsHeap : IsHeap (updated h i s t d)
  unfolding before t
  given-IsHeap = elim moved [
    | inl (z, r) ↦
        Relisted-IsHeap h i s t d x 0 0 1 r v hi once refl t-IsSlab
          (record {
            partial = λ g. absurd (omega arith);
            full = λ g. absurd (omega arith);
            empty = λ g. z;
          })
          counts
    | inr (lt, r) ↦
        Relisted-IsHeap h i s t d x 1 0 0 r v hi once refl t-IsSlab
          (record {
            partial = λ g. (omega (arith, count_lem), lt);
            full = λ g. absurd (omega arith);
            empty = λ g. absurd (omega arith);
          })
          counts
  ]

  frees_here :
      (o : ℕ)
      → over (λ a. occurs o ((updated h i s t d).slabs a).free_list) d
          + occurs o (h.slabs s).free_list
        ≡ available h i o + occurs o longer
  unfolding before available t
  frees_here o = elim moved [
    | inl (z, r) ↦ over_here h i s t d x 0 0 1 (λ u. occurs o u.free_list) r
    | inr (lt, r) ↦ over_here h i s t d x 1 0 0 (λ u. occurs o u.free_list) r
  ]

  given : GivenTo h i ptr (updated h i s t d)
  unfolding occurs longer
  given = record {
    heap = given-IsHeap;
    frees = λ o. ground (arith, available_here h i s t d o, frees_here o);
    others =
        λ j o hj ne. available_elsewhere h i s t d j o ne (other_cache h i j s v hi hj ne here);
  }

  -- No slab starts where an object does.
  inside_slab : (slab_header ≤ ptr % 8192) × (0 < ptr)
  inside_slab =
      let (k, lt, e) = obj in
      omega (arith, e, w.aligned, vc.fits, mul-le-mul_right (h.caches i).object_size lt, vc.sized)

  off_header :
      (j a : ℕ)
      → j < num_slab_sizes
      → 0 < listed ((updated h i s t d).caches j) a
      → (if a == ptr then object_poison else h.word a) ≡ h.word a
  off_header j a hj there =
      let aligned = ((given.heap.caches_ok j hj).valid a there).aligned in
      ground (arith, aligned, inside_slab)

  -- In a well-formed heap, an object of a slab that a cache lists, and that is not free, becomes free;
  -- every other object stays as it was, and the heap stays well-formed.
  pub slab_free-GivenTo : GivenTo h i ptr (slab_free i s ptr h)
  unfolding slab_free t d count before x longer set_cache set_slab set_word available
  slab_free-GivenTo =
      let g = given in
      record {
        heap =
            shrunk-IsHeap (updated h i s t d) h.buddy
              (λ a. if a == ptr then object_poison else h.word a) g.heap.buddy_ok (λ p. omega arith)
              off_header g.heap;
        frees = g.frees;
        others = g.others;
      }
