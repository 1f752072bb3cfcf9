-- ===== src/Slab/Take.antt =====
-- Taking an object out of a slab that has one.
use lun_os.Prelude.{
  ℕ, suc, ◌+◌, ◌≤◌, ◌<◌, ◌≡◌, ◌≢◌, ◌⊎◌, inl, inr, refl, ap, ◌∙◌, arith, some, true, false, List,
  ◌∷◌, length, ◌==◌, if◌then◌else◌, ℕ_discrete, add64, sub64, List-cases,
}
use lun_os.Slab.{Slab, SlabCache, Heap, occurs, num_slab_sizes, place_after_alloc, take_object}
use lun_os.Slab.Relist.{
  listed, over, Relisted, to_full-Relisted, to_partial-Relisted, stay-Relisted, HasSameNumbers,
}
use lun_os.Slab.Valid.{IsObject, IsSlab, IsCache, IsHeap, available, other_cache}
use lun_os.Slab.Update.{
  updated, Relisted-IsHeap, over_here, available_here, available_elsewhere, cache_there, slab_there,
}

-- What holds after `obj` of the slab at `s` has been taken from cache number `i`: it is an object in use
-- of a slab that the cache lists, and it is no longer free.
pub record TakenFrom (h : Heap) (i s obj : ℕ) (h' : Heap) : Type 0 where
  pub heap : IsHeap h'
  pub stands : 0 < listed (h'.caches i) s
  pub object : IsObject (h'.caches i).object_size (h'.caches i).objects_per_slab s obj
  pub used : occurs obj (h'.slabs s).free_list ≡ 0
  pub frees : (o : ℕ) → available h' i o + (if o == obj then 1 else 0) ≡ available h i o
  pub others : (j o : ℕ) → j < num_slab_sizes → j ≢ i → available h' j o ≡ available h j o

module _ (h : Heap) (i s : ℕ) (v : IsHeap h) (hi : i < num_slab_sizes)
    (here : 0 < listed (h.caches i) s) where
  c : SlabCache
  c = h.caches i

  vc : IsCache h.buddy h.word h.slabs i (h.caches i)
  vc = v.caches_ok i hi

  once : listed (h.caches i) s ≡ 1
  once = omega (arith, vc.once s, here)

  bounded : (h.slabs s).free_count ≤ (h.caches i).objects_per_slab
  unfolding listed
  bounded = ground (arith, vc.placed s, here)

  module _ (obj : ℕ) (rest : List ℕ) (split : (h.slabs s).free_list ≡ obj ∷ rest) where
    count : ℕ
    count = sub64 (h.slabs s).free_count 1

    long : (h.slabs s).free_count ≡ suc (length rest)
    long = (vc.valid s here).counted ∙ ap length split

    count_lem : count ≡ length rest
    unfolding count
    count_lem = omega (arith, long, bounded, vc.few)

    t : Slab
    t = record (h.slabs s) { free_list = rest; free_count = count }

    x : ℕ
    x = add64 (h.caches i).allocated_objects 1

    before : SlabCache
    unfolding x
    before = record (h.caches i) { allocated_objects = x }

    d : SlabCache
    d = place_after_alloc s count before

    t-IsSlab : IsSlab h.buddy h.word (h.caches i).object_size (h.caches i).objects_per_slab i s t
    unfolding t occurs
    t-IsSlab =
        let w = vc.valid s here in
        let more : (o : ℕ) → occurs o rest ≤ occurs o (h.slabs s).free_list =
          λ o. omega (arith, ap (occurs o) split) in
        record {
          magic = w.magic;
          owner = w.owner;
          place = w.place;
          positive = w.positive;
          aligned = w.aligned;
          counted = count_lem;
          objects = λ o g. w.objects o (omega (arith, more o, g));
          distinct = λ o. omega (arith, more o, w.distinct o);
          reserved = w.reserved;
        }

    -- Where the slab stands afterwards.
    moved : ((count ≡ 0) × Relisted s 0 1 0 before d) ⊎ ((0 < count) × Relisted s 1 0 0 before d)
    unfolding d place_after_alloc before listed
    moved = elim (ℕ_discrete count 0) [
      | yes z ↦ inl (
        z,
        let e : (count == 0) ≡ true = ground (arith, z) in rw e (to_full-Relisted s before once),
      )
      | no nz ↦
          let e : (count == 0) ≡ false = ground (arith, nz) in
          elim (ℕ_discrete count (sub64 (h.caches i).objects_per_slab 1)) [
            | yes q ↦
                let g : (count == sub64 (h.caches i).objects_per_slab 1) ≡ true =
                  ground (arith, q) in
                inr (omega arith, rw (e, g) (to_partial-Relisted s before once))
            | no nq ↦
                let g : (count == sub64 (h.caches i).objects_per_slab 1) ≡ false =
                  ground (arith, nq) in
                inr (
                  omega arith,
                  rw (e, g)
                      (stay-Relisted s before once (
                        ground
                          (arith, vc.placed s, once, count_lem, long, vc.few, vc.many, nq, nz))),
                )
          ]
    ]

    counts :
        (now prior : ℕ)
        → now + (h.slabs s).free_count ≡ prior + t.free_count
        → add64 (h.caches i).allocated_objects prior ≡ (h.caches i).total_objects
        → add64 x now ≡ (h.caches i).total_objects
    unfolding t x
    counts now prior moved balance = omega (arith, moved, balance, long, count_lem)

    taken-IsHeap : IsHeap (updated h i s t d)
    unfolding before t
    taken-IsHeap = elim moved [
      | inl (z, r) ↦
          Relisted-IsHeap h i s t d x 0 1 0 r v hi once refl t-IsSlab
            (record {
              partial = λ g. absurd (omega arith);
              full = λ g. z;
              empty = λ g. absurd (omega arith);
            })
            counts
      | inr (nz, r) ↦
          Relisted-IsHeap h i s t d x 1 0 0 r v hi once refl t-IsSlab
            (record {
              partial = λ g. (nz, omega (arith, count_lem, long, bounded));
              full = λ g. absurd (omega arith);
              empty = λ g. absurd (omega arith);
            })
            counts
    ]

    frees_here :
        (o : ℕ)
        → over (λ a. occurs o ((updated h i s t d).slabs a).free_list) d
            + occurs o (h.slabs s).free_list
          ≡ available h i o + occurs o rest
    unfolding before available t
    frees_here o = elim moved [
      | inl (z, r) ↦ over_here h i s t d x 0 1 0 (λ u. occurs o u.free_list) r
      | inr (nz, r) ↦ over_here h i s t d x 1 0 0 (λ u. occurs o u.free_list) r
    ]

    numbers : HasSameNumbers before d
    numbers = elim moved [ inl (z, r) ↦ r.numbers | inr (nz, r) ↦ r.numbers ]

    standing : listed d s ≡ 1
    unfolding listed
    standing = elim moved [
      | inl (z, r) ↦ ground (arith, r.partial s, r.full s, r.empty s)
      | inr (nz, r) ↦ ground (arith, r.partial s, r.full s, r.empty s)
    ]

    taken : TakenFrom h i s obj (updated h i s t d)
    unfolding occurs before t
    taken = record {
      heap = taken-IsHeap;
      stands = omega (arith, standing, ap (λ (k : SlabCache). listed k s) (cache_there h i s t d));
      object =
          rw (cache_there h i s t d, numbers.size, numbers.per_slab)
            ((vc.valid s here).objects obj (ground (arith, ap (occurs obj) split)));
      used =
          ap (λ (u : Slab). occurs obj u.free_list) (slab_there h i s t d)
          ∙ ground (arith, (vc.valid s here).distinct obj, ap (occurs obj) split);
      frees = λ o. ground (arith, available_here h i s t d o, frees_here o, ap (occurs o) split);
      others =
          λ j o hj ne. available_elsewhere h i s t d j o ne (other_cache h i j s v hi hj ne here);
    }

  -- In a well-formed heap, a slab that a cache lists and that has free objects gives its first one.
  pub take_object-TakenFrom :
      0 < (h.slabs s).free_count
      → (obj : ℕ) × ((take_object i s h).0 ≡ some obj) × TakenFrom h i s obj (take_object i s h).1
  unfolding take_object t d count before x occurs
  take_object-TakenFrom has = elim (List-cases (h.slabs s).free_list) [
    | inl e ↦
        let n : length (h.slabs s).free_list ≡ 0 = ap length e in
        absurd (omega (arith, (vc.valid s here).counted, n, has))
    | inr (obj, rest, e) ↦ (obj, rw (e, take_object) refl, rw (e, take_object) (taken obj rest e))
  ]
