-- ===== src/Slab/Start.antt =====
-- slab_allocator_init makes a well-formed heap of a valid page allocator.
use lun_os.Prelude.{ℕ, zero, suc, ◌+◌, ◌*◌, ◌≤◌, ◌<◌, ◌≡◌, refl, ap, ◌∙◌, arith, ℕ_discrete}
use lun_os.Buddy.{Buddy}
use lun_os.Buddy.Whole.{IsValidBuddy}
use lun_os.Slab.{
  Slab, Heap, occurs, num_slab_sizes, slab_header, slab_sizes, calculate_objects_per_slab,
  slab_cache_init, init_caches, slab_allocator_init, set_cache,
}
use lun_os.Slab.Lists.{sum}
use lun_os.Slab.Relist.{listed, over, slab_total}
use lun_os.Slab.Valid.{IsCache, IsHeap, available}

-- The numbers of the objects are right for every class: checked for each of the eight.
record IsClass (i : ℕ) : Type 0 where
  pub many : 2 ≤ calculate_objects_per_slab (slab_sizes i)
  pub fits : slab_header + calculate_objects_per_slab (slab_sizes i) * slab_sizes i ≤ 8192
  pub few : calculate_objects_per_slab (slab_sizes i) ≤ 8192
  pub sized : 0 < slab_sizes i

numbers : (i : ℕ) → i < num_slab_sizes → IsClass i
unfolding slab_sizes calculate_objects_per_slab
numbers zero hi = record {
  many = omega arith;
  fits = omega arith;
  few = omega arith;
  sized = omega arith;
}
numbers (suc zero) hi = record {
  many = omega arith;
  fits = omega arith;
  few = omega arith;
  sized = omega arith;
}
numbers (suc (suc zero)) hi = record {
  many = omega arith;
  fits = omega arith;
  few = omega arith;
  sized = omega arith;
}
numbers (suc (suc (suc zero))) hi = record {
  many = omega arith;
  fits = omega arith;
  few = omega arith;
  sized = omega arith;
}
numbers (suc (suc (suc (suc zero)))) hi = record {
  many = omega arith;
  fits = omega arith;
  few = omega arith;
  sized = omega arith;
}
numbers (suc (suc (suc (suc (suc zero))))) hi = record {
  many = omega arith;
  fits = omega arith;
  few = omega arith;
  sized = omega arith;
}
numbers (suc (suc (suc (suc (suc (suc zero)))))) hi = record {
  many = omega arith;
  fits = omega arith;
  few = omega arith;
  sized = omega arith;
}
numbers (suc (suc (suc (suc (suc (suc (suc zero))))))) hi = record {
  many = omega arith;
  fits = omega arith;
  few = omega arith;
  sized = omega arith;
}
numbers (suc (suc (suc (suc (suc (suc (suc (suc i)))))))) hi = absurd (omega (arith, hi))

init_caches-buddy : (n i : ℕ) (h : Heap) → (init_caches n i h).buddy ≡ h.buddy
unfolding init_caches set_cache
init_caches-buddy zero i h = refl
init_caches-buddy (suc n) i h =
    init_caches-buddy n (i + 1) (set_cache i (slab_cache_init (slab_sizes i)) h)

init_caches-below : (n i j : ℕ) (h : Heap) → j < i → (init_caches n i h).caches j ≡ h.caches j
unfolding init_caches set_cache
init_caches-below zero i j h lt = refl
init_caches-below (suc n) i j h lt =
    init_caches-below n (i + 1) j (set_cache i (slab_cache_init (slab_sizes i)) h)
      (omega (arith, lt))
    ∙ ground (arith, lt)

init_caches-at :
    (n i j : ℕ) (h : Heap)
    → i ≤ j
    → j < i + n
    → (init_caches n i h).caches j ≡ slab_cache_init (slab_sizes j)
unfolding init_caches set_cache
init_caches-at zero i j h lo hi = absurd (omega (arith, lo, hi))
init_caches-at (suc n) i j h lo hi = elim (ℕ_discrete j i) [
  | yes e ↦
      let h1 = set_cache i (slab_cache_init (slab_sizes i)) h in
      init_caches-below n (i + 1) j h1 (omega (arith, e))
      ∙ ground (arith, e, ap (λ (z : ℕ). slab_cache_init (slab_sizes z)) e)
  | no ne ↦
      init_caches-at n (i + 1) j (set_cache i (slab_cache_init (slab_sizes i)) h)
        (omega (arith, lo, ne)) (omega (arith, hi))
]

empty-IsCache :
    (b : Buddy) (w : ℕ → ℕ) (slabs : ℕ → Slab) (i : ℕ)
    → i < num_slab_sizes
    → IsCache b w slabs i (slab_cache_init (slab_sizes i))
unfolding slab_cache_init listed occurs over sum slab_total
empty-IsCache b w slabs i hi =
    let n = numbers i hi in
    record {
      many = n.many;
      sized = n.sized;
      of_class = refl;
      fits = n.fits;
      few = n.few;
      once = λ a. omega arith;
      valid = λ a here. absurd (omega (arith, here));
      placed = λ a. record {
        partial = λ p. absurd (omega (arith, p));
        full = λ p. absurd (omega (arith, p));
        empty = λ p. absurd (omega (arith, p));
      };
      counted = omega arith;
      tallied = omega arith;
    }

no_slab : (h : Heap) (i o : ℕ) → h.caches i ≡ slab_cache_init (slab_sizes i) → available h i o ≡ 0
unfolding available over sum slab_cache_init
no_slab h i o e = rw e refl

-- Over a valid page allocator slab_allocator_init makes a well-formed heap, whose eight caches have no
-- slab, with no object free, and does not touch the page allocator.
pub slab_allocator_init-IsHeap :
    (h : Heap)
    → IsValidBuddy h.buddy
    → IsHeap (slab_allocator_init h)
      × ((slab_allocator_init h).buddy ≡ h.buddy)
      × ((i o : ℕ) → i < num_slab_sizes → available (slab_allocator_init h) i o ≡ 0)
unfolding slab_allocator_init
slab_allocator_init-IsHeap h v =
    let same = init_caches-buddy num_slab_sizes 0 h in
    (
      record {
        buddy_ok = rw same v;
        caches_ok = λ i hi.
            rw (init_caches-at num_slab_sizes 0 i h (omega arith) (omega (arith, hi)))
              (empty-IsCache _ _ _ i hi);
      },
      same,
      λ i o hi. nothing i o (init_caches-at num_slab_sizes 0 i h (omega arith) (omega (arith, hi))),
    )
  where
    nothing :
        (i o : ℕ)
        → (init_caches num_slab_sizes 0 h).caches i ≡ slab_cache_init (slab_sizes i)
        → available (init_caches num_slab_sizes 0 h) i o ≡ 0
    nothing i o e = no_slab (init_caches num_slab_sizes 0 h) i o e
