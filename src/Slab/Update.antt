-- ===== src/Slab/Update.antt =====
-- One slab and its cache updated at a time: what stays, and when the heap stays well-formed.
use lun_os.Prelude.{ℕ, ◌+◌, ◌<◌, ◌≡◌, ◌≢◌, refl, sym, ap, ◌∙◌, arith, ℕ_discrete, add64}
use lun_os.Slab.{Slab, SlabCache, Heap, occurs, set_slab, set_cache, num_slab_sizes}
use lun_os.Slab.Lists.{sum_agree}
use lun_os.Slab.Relist.{listed, over, slab_total, Relisted}
use lun_os.Slab.Valid.{IsSlab, IsPlaced, IsCache, IsHeap, available, other_cache}

-- An update of one slab and of its cache.
module _ (h : Heap) (i s : ℕ) (t : Slab) (d : SlabCache) where
  abbrev pub updated : Heap
  updated = set_cache i d (set_slab s t h)

  pub slab_there : updated.slabs s ≡ t
  unfolding set_cache set_slab
  slab_there = ground arith

  pub slab_elsewhere : (a : ℕ) → a ≢ s → updated.slabs a ≡ h.slabs a
  unfolding set_cache set_slab
  slab_elsewhere a ne = ground arith

  pub cache_there : updated.caches i ≡ d
  unfolding set_cache set_slab
  cache_there = ground arith

  pub cache_elsewhere : (j : ℕ) → j ≢ i → updated.caches j ≡ h.caches j
  unfolding set_cache set_slab
  cache_elsewhere j ne = ground arith

  pub same_buddy : updated.buddy ≡ h.buddy
  unfolding set_cache set_slab
  same_buddy = refl

  pub same_word : updated.word ≡ h.word
  unfolding set_cache set_slab
  same_word = refl

  -- Quantities over the slabs of another cache stay.
  pub over_elsewhere :
      (f : Slab → ℕ) (c : SlabCache)
      → listed c s ≡ 0
      → over (λ a. f (updated.slabs a)) c ≡ over (λ a. f (h.slabs a)) c
  unfolding over listed
  over_elsewhere f c absent =
      let same : (a : ℕ) → a ≢ s → f (updated.slabs a) ≡ f (h.slabs a) =
        λ a ne. ap f (slab_elsewhere a ne) in
      omega (
        arith,
        sum_agree (λ a. f (h.slabs a)) (λ a. f (updated.slabs a)) s c.partial_slabs same,
        sum_agree (λ a. f (h.slabs a)) (λ a. f (updated.slabs a)) s c.full_slabs same,
        sum_agree (λ a. f (h.slabs a)) (λ a. f (updated.slabs a)) s c.empty_slabs same,
      )

  pub available_here :
      (o : ℕ) → available updated i o ≡ over (λ a. occurs o (updated.slabs a).free_list) d
  unfolding available
  available_here o = ap (over (λ a. occurs o (updated.slabs a).free_list)) cache_there

  pub available_elsewhere :
      (j o : ℕ) → j ≢ i → listed (h.caches j) s ≡ 0 → available updated j o ≡ available h j o
  unfolding available
  available_elsewhere j o ne absent =
      ap (over (λ a. occurs o (updated.slabs a).free_list)) (cache_elsewhere j ne)
      ∙ over_elsewhere (λ u. occurs o u.free_list) (h.caches j) absent

  pub IsCache-elsewhere :
      (j : ℕ)
      → IsCache h.buddy h.word h.slabs j (h.caches j)
      → listed (h.caches j) s ≡ 0
      → IsCache h.buddy h.word updated.slabs j (h.caches j)
  unfolding listed
  IsCache-elsewhere j v absent = record {
    many = v.many;
    sized = v.sized;
    of_class = v.of_class;
    fits = v.fits;
    few = v.few;
    once = v.once;
    valid = λ a here.
        let ne : a ≢ s = λ e. omega (arith, ap (λ (z : ℕ). listed (h.caches j) z) e) in
        rw (slab_elsewhere a ne) (v.valid a here);
    placed = λ a. elim (ℕ_discrete a s) [
      | yes e ↦
          let none_there : listed (h.caches j) a ≡ 0 =
            ap (λ (z : ℕ). listed (h.caches j) z) e ∙ absent in
          record {
            partial = λ p. absurd (omega arith);
            full = λ p. absurd (omega arith);
            empty = λ p. absurd (omega arith);
          }
      | no ne ↦ rw (slab_elsewhere a ne) (v.placed a)
    ];
    counted = rw (over_elsewhere (λ t. t.free_count) (h.caches j) absent) v.counted;
    tallied = v.tallied;
  }

  -- The slab's own cache, whose count of allocated objects becomes `x` and whose lists may change.
  module _ (x p f e : ℕ) where
    abbrev pub counting : SlabCache
    counting = record (h.caches i) { allocated_objects = x }

    IsCache-here :
        Relisted s p f e counting d
        → IsCache h.buddy h.word h.slabs i (h.caches i)
        → p + f + e ≡ 1
        → IsSlab h.buddy h.word (h.caches i).object_size (h.caches i).objects_per_slab i s t
        → IsPlaced (h.caches i).objects_per_slab p f e t.free_count
        → add64 x (over (λ a. (updated.slabs a).free_count) d) ≡ (h.caches i).total_objects
        → IsCache h.buddy h.word updated.slabs i d
    unfolding listed slab_total
    IsCache-here r v one ok place counts =
        let n = r.numbers in
        record {
          many = rw n.per_slab v.many;
          sized = rw n.size v.sized;
          of_class = n.size ∙ v.of_class;
          fits = rw (n.per_slab, n.size) v.fits;
          few = rw n.per_slab v.few;
          once = λ a. ground (arith, r.partial a, r.full a, r.empty a, v.once a);
          valid = λ a here. elim (ℕ_discrete a s) [
            | yes q ↦ rw (q, slab_there, n.size, n.per_slab) ok
            | no ne ↦
                rw (slab_elsewhere a ne, n.size, n.per_slab)
                  (v.valid a (ground (arith, r.partial a, r.full a, r.empty a, ne)))
          ];
          placed = λ a. elim (ℕ_discrete a s) [
            | yes q ↦
                let there : updated.slabs a ≡ t = ap updated.slabs q ∙ slab_there in
                let b : occurs a d.partial_slabs ≡ p = ground (arith, r.partial a, q) in
                let g : occurs a d.full_slabs ≡ f = ground (arith, r.full a, q) in
                let k : occurs a d.empty_slabs ≡ e = ground (arith, r.empty a, q) in
                rw (there, b, g, k, n.per_slab) place
            | no ne ↦
                let b : occurs a d.partial_slabs ≡ occurs a (h.caches i).partial_slabs =
                  ground (arith, r.partial a, ne) in
                let g : occurs a d.full_slabs ≡ occurs a (h.caches i).full_slabs =
                  ground (arith, r.full a, ne) in
                let k : occurs a d.empty_slabs ≡ occurs a (h.caches i).empty_slabs =
                  ground (arith, r.empty a, ne) in
                rw (slab_elsewhere a ne, b, g, k, n.per_slab) (v.placed a)
          ];
          counted =
              ap (λ (k : ℕ). add64 k (over (λ a. (updated.slabs a).free_count) d)) n.allocated
              ∙ counts
              ∙ sym n.objects;
          tallied = omega (arith, n.slabs, v.tallied, r.total);
        }

    -- The sums over the slab's cache after the update.
    pub over_here :
        (q : Slab → ℕ)
        → Relisted s p f e counting d
        → over (λ a. q (updated.slabs a)) d + q (h.slabs s)
          ≡ over (λ a. q (h.slabs a)) (h.caches i) + q t
    unfolding over
    over_here q r =
        let moved =
          r.sums (λ a. q (h.slabs a)) (λ a. q (updated.slabs a))
            (λ a ne. ap q (slab_elsewhere a ne)) in
        omega (arith, moved, ap q slab_there)

    -- One slab is replaced by a well-formed one and put where its free count says.
    pub Relisted-IsHeap :
        Relisted s p f e counting d
        → IsHeap h
        → i < num_slab_sizes
        → listed (h.caches i) s ≡ 1
        → p + f + e ≡ 1
        → IsSlab h.buddy h.word (h.caches i).object_size (h.caches i).objects_per_slab i s t
        → IsPlaced (h.caches i).objects_per_slab p f e t.free_count
        → ((now before : ℕ)
            → now + (h.slabs s).free_count ≡ before + t.free_count
            → add64 (h.caches i).allocated_objects before ≡ (h.caches i).total_objects
            → add64 x now ≡ (h.caches i).total_objects)
        → IsHeap updated
    Relisted-IsHeap r v hi here one ok place counts = record {
      buddy_ok = rw same_buddy v.buddy_ok;
      caches_ok = λ j hj. elim (ℕ_discrete j i) [
        | yes q ↦
            rw (q, cache_there, same_buddy, same_word)
              (IsCache-here r (v.caches_ok i hi) one ok place
                (counts _ _ (over_here (λ u. u.free_count) r) (v.caches_ok i hi).counted))
        | no ne ↦
            rw (cache_elsewhere j ne, same_buddy, same_word)
              (IsCache-elsewhere j (v.caches_ok j hj)
                (other_cache h i j s v hi hj ne (omega (arith, here))))
      ];
    }
