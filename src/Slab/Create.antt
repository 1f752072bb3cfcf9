-- ===== src/Slab/Create.antt =====
-- A new slab out of two pages of the page allocator.
use native.Mathlib.Nat.{mul-le-mul_right}
use lun_os.Prelude.{
  ℕ, zero, suc, ◌+◌, ◌*◌, ◌≤◌, ◌<◌, ◌≡◌, ◌≢◌, ◌⊎◌, inl, inr, refl, sym, ap, ◌∙◌, arith, some, true,
  false, List, ◌∷◌, length, ◌==◌, if◌then◌else◌, ℕ_discrete, add64,
}
use lun_os.Buddy.{Buddy, block_size}
use lun_os.Buddy.Cover.{hit}
use lun_os.Buddy.Whole.{free_cover, free_cover-le}
use lun_os.Buddy.Alloc.{buddy_alloc_pages}
use lun_os.Buddy.Alloc.Pages.{AllocatedPages, Exhausted, buddy_alloc_pages-AllocPages}
use lun_os.Slab.{
  Slab, SlabCache, Heap, occurs, num_slab_sizes, slab_header, slab_magic, link_objects, slab_create,
  set_slab, set_cache, set_word,
}
use lun_os.Slab.Lists.{sum}
use lun_os.Slab.Relist.{listed, over, slab_total}
use lun_os.Slab.Valid.{IsSlab, IsCache, IsHeap, available, shrunk-IsSlab, shrunk-IsHeap}
use lun_os.Slab.Update.{
  updated, IsCache-elsewhere, over_elsewhere, available_here, available_elsewhere, slab_there,
  slab_elsewhere, cache_there, cache_elsewhere,
}

length-link_objects : (n start size : ℕ) → length (link_objects n start size) ≡ n
unfolding link_objects
length-link_objects zero start size = refl
length-link_objects (suc n) start size = ap suc (length-link_objects n start size)

linked :
    (n start size o : ℕ)
    → 0 < occurs o (link_objects n start size)
    → (k : ℕ) × (k < n) × (o ≡ start + k * size)
unfolding link_objects occurs
linked zero start size o h = absurd (omega arith)
linked (suc n) start size o h = elim (ℕ_discrete (start + n * size) o) [
  | yes e ↦ (n, omega arith, sym e)
  | no ne ↦
      let (k, lt, e) = linked n start size o (ground (arith, h, ne)) in (k, omega (arith, lt), e)
]

linked_once : (n start size o : ℕ) → 0 < size → occurs o (link_objects n start size) ≤ 1
unfolding link_objects occurs
linked_once zero start size o h = omega arith
linked_once (suc n) start size o h = elim (ℕ_discrete (start + n * size) o) [
  | yes e ↦ elim (ℕ_discrete (occurs o (link_objects n start size)) 0) [
    | yes z ↦ ground (arith, e, z)
    | no nz ↦
        let (k, lt, q) = linked n start size o (omega (arith, nz)) in
        absurd (apart k lt (omega (arith, e, q)))
  ]
  | no ne ↦ ground (arith, ne, linked_once n start size o h)
]
  where
    apart : (k : ℕ) → k < n → k * size ≡ n * size → ⊥
    apart k lt e = omega (arith, mul-le-mul_right size lt)

-- The heap after a slab at `s` has been made for cache number `i`.
pub record Created (h : Heap) (i s : ℕ) (h' : Heap) : Type 0 where
  pub heap : IsHeap h'
  pub positive : 0 < s
  pub was_free : (p : ℕ) → s ≤ p → p < s + 8192 → free_cover h.buddy p ≡ 1
  pub stands : 0 < listed (h'.caches i) s
  pub whole : (h'.slabs s).free_count ≡ (h.caches i).objects_per_slab
  pub frees :
      (o : ℕ)
      → available h' i o
        ≡ available h i o
          + occurs o (
              link_objects (h.caches i).objects_per_slab (s + slab_header) (h.caches i).object_size)
  pub others : (j o : ℕ) → j < num_slab_sizes → j ≢ i → available h' j o ≡ available h j o

module _ (h : Heap) (i s : ℕ) (b : Buddy) (v : IsHeap h) (hi : i < num_slab_sizes)
    (got : AllocatedPages h.buddy 1 s b) where
  c : SlabCache
  c = h.caches i

  vc : IsCache h.buddy h.word h.slabs i (h.caches i)
  vc = v.caches_ok i hi

  pages : block_size 1 ≡ 8192
  unfolding block_size
  pages = refl

  hit_in : (p : ℕ) → s ≤ p → p < s + 8192 → hit 1 s p ≡ 1
  unfolding hit
  hit_in p lo hi = ground (arith, lo, hi, pages)

  less : (p : ℕ) → free_cover b p ≤ free_cover h.buddy p
  less p = omega (arith, got.exact p)

  w : ℕ → ℕ
  w = λ a. if a == s then slab_magic else h.word a

  was_free : (p : ℕ) → s ≤ p → p < s + 8192 → free_cover h.buddy p ≡ 1
  was_free p lo hi = omega (arith, got.exact p, hit_in p lo hi, free_cover-le h.buddy p v.buddy_ok)

  reserved : (p : ℕ) → s ≤ p → p < s + 8192 → free_cover b p ≡ 0
  reserved p lo hi = omega (arith, got.exact p, hit_in p lo hi, free_cover-le h.buddy p v.buddy_ok)

  -- No cache lists a slab there yet.
  absent : (j : ℕ) → j < num_slab_sizes → listed (h.caches j) s ≡ 0
  absent j hj = elim (ℕ_discrete (listed (h.caches j) s) 0) [
    | yes e ↦ e
    | no there ↦ absurd (
        omega (
          arith,
          ((v.caches_ok j hj).valid s (omega arith)).reserved s (omega arith) (omega arith),
          was_free s (omega arith) (omega arith),
        ))
  ]

  n : ℕ
  n = (h.caches i).objects_per_slab

  objects : List ℕ
  unfolding n
  objects = link_objects n (s + slab_header) (h.caches i).object_size

  t : Slab
  t = record { cache = some i; phys_addr = s; free_count = n; free_list = objects }

  d : SlabCache
  unfolding n
  d = record (h.caches i) {
    empty_slabs = s ∷ (h.caches i).empty_slabs;
    total_slabs = add64 (h.caches i).total_slabs 1;
    total_objects = add64 (h.caches i).total_objects n;
  }

  t-IsSlab : IsSlab b w (h.caches i).object_size (h.caches i).objects_per_slab i s t
  unfolding t objects n w
  t-IsSlab = record {
    magic = ground arith;
    owner = refl;
    place = refl;
    positive = got.positive;
    aligned = let (q, e) = got.aligned in omega (arith, e, ap (λ (z : ℕ). q * z) pages);
    counted = sym (length-link_objects n (s + slab_header) (h.caches i).object_size);
    objects = linked n (s + slab_header) (h.caches i).object_size;
    distinct = λ o. linked_once n (s + slab_header) (h.caches i).object_size o vc.sized;
    reserved = reserved;
  }

  h1 : Heap
  unfolding w
  h1 = record h { buddy = b; word = w }

  same_magic : (j a : ℕ) → j < num_slab_sizes → 0 < listed (h.caches j) a → w a ≡ h.word a
  unfolding w
  same_magic j a hj there =
      ground (arith, absent j hj, there, λ (e : a ≡ s). ap (λ (z : ℕ). listed (h.caches j) z) e)

  v1 : IsHeap h1
  unfolding h1
  v1 = shrunk-IsHeap h b w got.valid less same_magic v

  over_longer : (f : ℕ → ℕ) → over f d ≡ f s + over f (h.caches i)
  unfolding over d sum
  over_longer f = omega arith

  -- The slabs of the cache as they were, seen in the new heap.
  over_old :
      (f : Slab → ℕ)
      → over (λ a. f ((updated h1 i s t d).slabs a)) d
        ≡ f t + over (λ a. f (h.slabs a)) (h.caches i)
  unfolding h1
  over_old f = omega (
    arith,
    over_longer (λ a. f ((updated h1 i s t d).slabs a)),
    over_elsewhere h1 i s t d f (h.caches i) (absent i hi),
    ap f (slab_there h1 i s t d),
  )

  fresh-IsCache : IsCache b w (updated h1 i s t d).slabs i d
  unfolding d h1 listed occurs slab_total n t
  fresh-IsCache = record {
    many = vc.many;
    sized = vc.sized;
    of_class = vc.of_class;
    fits = vc.fits;
    few = vc.few;
    once = λ a. elim (ℕ_discrete s a) [
      | yes e ↦ ground (arith, e, absent i hi, ap (λ (z : ℕ). listed (h.caches i) z) e)
      | no ne ↦ ground (arith, ne, vc.once a)
    ];
    valid = λ a here. elim (ℕ_discrete a s) [
      | yes e ↦ rw (e, slab_there h1 i s t d) t-IsSlab
      | no ne ↦ rw (slab_elsewhere h1 i s t d a ne) (
          shrunk-IsSlab h b w less _ _ i a (h.slabs a)
            (same_magic i a hi (ground (arith, here, ne))) (vc.valid a (ground (arith, here, ne))))
    ];
    placed = λ a. elim (ℕ_discrete a s) [
      | yes e ↦
          let none_there = ap (λ (z : ℕ). listed (h.caches i) z) e ∙ absent i hi in
          record {
            partial = λ g. absurd (omega (arith, none_there, g));
            full = λ g. absurd (omega (arith, none_there, g));
            empty = λ g.
                ap (λ (z : ℕ). ((updated h1 i s t d).slabs z).free_count) e
                ∙ ap (λ (u : Slab). u.free_count) (slab_there h1 i s t d);
          }
      | no ne ↦
          let old = vc.placed a in
          let same = ap (λ (u : Slab). u.free_count) (slab_elsewhere h1 i s t d a ne) in
          record {
            partial = λ g. omega (arith, same, old.partial g);
            full = λ g. omega (arith, same, old.full g);
            empty = λ g. omega (arith, same, old.empty (ground (arith, g, ne)));
          }
    ];
    counted = omega (arith, over_old (λ u. u.free_count), vc.counted, vc.few);
    tallied = omega (arith, vc.tallied);
  }

  available_lem :
      (o : ℕ) → available h i o ≡ over (λ a. occurs o (h.slabs a).free_list) (h.caches i)
  unfolding available
  available_lem o = refl

  created : Created h i s (updated h1 i s t d)
  unfolding listed occurs h1 d t objects n set_cache set_slab available
  created = record {
    heap = record {
      buddy_ok = got.valid;
      caches_ok = λ j hj. elim (ℕ_discrete j i) [
        | yes q ↦ rw (q, cache_there h1 i s t d) fresh-IsCache
        | no ne ↦
            rw (cache_elsewhere h1 i s t d j ne)
              (IsCache-elsewhere h1 i s t d j (v1.caches_ok j hj) (absent j hj))
      ];
    };
    positive = got.positive;
    was_free = was_free;
    stands =
        let there = ap (λ (k : SlabCache). listed k s) (cache_there h1 i s t d) in
        ground (arith, there);
    whole = ap (λ (u : Slab). u.free_count) (slab_there h1 i s t d);
    frees = λ o.
        omega (
          arith,
          available_here h1 i s t d o,
          over_old (λ u. occurs o u.free_list),
          available_lem o,
        );
    others = λ j o hj ne. available_elsewhere h1 i s t d j o ne (absent j hj);
  }

-- In a well-formed heap slab_create either finds no block of two pages in the page allocator, and then
-- changes nothing, or makes a slab there, all of whose objects are free.
pub slab_create-Created :
    (h : Heap) (i : ℕ)
    → IsHeap h
    → i < num_slab_sizes
    → ((slab_create i h ≡ (0, h)) × Exhausted h.buddy.counter h.buddy.arenas 1)
      ⊎ Created h i (slab_create i h).0 (slab_create i h).1
unfolding slab_create t d h1 n objects w set_word
slab_create-Created h i v hi =
    elim (buddy_alloc_pages-AllocPages h.buddy 1 v.buddy_ok (omega arith)) [
      | inl (z, same, none_left) ↦
          let e : ((buddy_alloc_pages h.buddy 1).0 == 0) ≡ true = ground (arith, z) in
          inl (rw e (ap (λ (b : Buddy). (0, record h { buddy = b })) same), none_left)
      | inr got ↦
          let e : ((buddy_alloc_pages h.buddy 1).0 == 0) ≡ false = ground (arith, got.positive) in
          inr (
            rw e (
              created h i (buddy_alloc_pages h.buddy 1).0 (buddy_alloc_pages h.buddy 1).1 v hi got))
    ]
