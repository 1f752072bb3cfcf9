-- ===== src/Slab/Valid.antt =====
-- Well-formed slabs, caches and heaps, and the objects that are free in them.
use lun_os.Prelude.{
  ℕ, ◌+◌, ◌*◌, ◌%◌, ◌^◌, ◌≤◌, ◌<◌, ◌≡◌, ◌≢◌, sym, ◌∙◌, arith, some, length, ℕ_discrete, add64,
}
use lun_os.Buddy.{Buddy}
use lun_os.Buddy.Whole.{IsValidBuddy, free_cover}
use lun_os.Slab.{Slab, SlabCache, Heap, slab_magic, slab_header, occurs, num_slab_sizes, slab_sizes}
use lun_os.Slab.Relist.{listed, over, slab_total}

-- One of the `n` objects of `size` bytes in the slab at `a`.
abbrev pub IsObject : ℕ → ℕ → ℕ → ℕ → Type 0
IsObject size n a o = (k : ℕ) × (k < n) × (o ≡ a + slab_header + k * size)

-- The slab at `a` of cache number `i`, whose slabs have `n` objects of `size` bytes.
pub record IsSlab (b : Buddy) (w : ℕ → ℕ) (size n i a : ℕ) (s : Slab) : Type 0 where
  pub magic : w a ≡ slab_magic
  pub owner : s.cache ≡ some i
  pub place : s.phys_addr ≡ a
  pub positive : 0 < a
  pub aligned : a % 8192 ≡ 0
  pub counted : s.free_count ≡ length s.free_list
  pub objects : (o : ℕ) → 0 < occurs o s.free_list → IsObject size n a o
  pub distinct : (o : ℕ) → occurs o s.free_list ≤ 1
  pub reserved : (p : ℕ) → a ≤ p → p < a + 8192 → free_cover b p ≡ 0

-- What the list that a slab stands in says of its free objects.
pub record IsPlaced (n p f e free : ℕ) : Type 0 where
  pub partial : 0 < p → (0 < free) × (free < n)
  pub full : 0 < f → free ≡ 0
  pub empty : 0 < e → free ≡ n

pub record IsCache (b : Buddy) (w : ℕ → ℕ) (slabs : ℕ → Slab) (i : ℕ) (c : SlabCache) : Type 0 where
  pub many : 2 ≤ c.objects_per_slab
  pub sized : 0 < c.object_size
  pub of_class : c.object_size ≡ slab_sizes i
  pub fits : slab_header + c.objects_per_slab * c.object_size ≤ 8192
  pub few : c.objects_per_slab ≤ 8192
  pub once : (a : ℕ) → listed c a ≤ 1
  pub valid : (a : ℕ) → 0 < listed c a → IsSlab b w c.object_size c.objects_per_slab i a (slabs a)
  pub placed :
      (a : ℕ)
      → IsPlaced c.objects_per_slab
          (occurs a c.partial_slabs)
          (occurs a c.full_slabs)
          (occurs a c.empty_slabs)
          (slabs a).free_count
  pub counted : add64 c.allocated_objects (over (λ a. (slabs a).free_count) c) ≡ c.total_objects
  pub tallied : c.total_slabs ≡ slab_total c % 2 ^ 64

-- Every cache is well-formed: no slab is listed twice, its free objects are distinct objects of it, it
-- stands in the list that its free count says, its memory is not free in the page allocator, and the
-- counters agree.
pub record IsHeap (h : Heap) : Type 0 where
  pub buddy_ok : IsValidBuddy h.buddy
  pub caches_ok : (i : ℕ) → i < num_slab_sizes → IsCache h.buddy h.word h.slabs i (h.caches i)

-- How often an object is free in the slabs of a cache.
unfoldable pub available : Heap → ℕ → ℕ → ℕ
available h i o = over (λ a. occurs o (h.slabs a).free_list) (h.caches i)

-- With less free memory, and words changed elsewhere only, the slabs stay well-formed.
module _ (h : Heap) (b : Buddy) (w : ℕ → ℕ) where
  pub shrunk-IsSlab :
      (less : (p : ℕ) → free_cover b p ≤ free_cover h.buddy p) (size n i a : ℕ) (s : Slab)
      → w a ≡ h.word a
      → IsSlab h.buddy h.word size n i a s
      → IsSlab b w size n i a s
  shrunk-IsSlab less size n i a s same v = record {
    magic = same ∙ v.magic;
    owner = v.owner;
    place = v.place;
    positive = v.positive;
    aligned = v.aligned;
    counted = v.counted;
    objects = v.objects;
    distinct = v.distinct;
    reserved = λ p lo hi. omega (arith, less p, v.reserved p lo hi);
  }

  pub shrunk-IsHeap :
      IsValidBuddy b
      → (less : (p : ℕ) → free_cover b p ≤ free_cover h.buddy p)
      → ((i a : ℕ) → i < num_slab_sizes → 0 < listed (h.caches i) a → w a ≡ h.word a)
      → IsHeap h
      → IsHeap (record h { buddy = b; word = w })
  shrunk-IsHeap vb less same v = record {
    buddy_ok = vb;
    caches_ok = λ i hi.
        let c = v.caches_ok i hi in
        record {
          many = c.many;
          sized = c.sized;
          of_class = c.of_class;
          fits = c.fits;
          few = c.few;
          once = c.once;
          valid =
              λ a here. shrunk-IsSlab less _ _ i a (h.slabs a) (same i a hi here) (c.valid a here);
          placed = c.placed;
          counted = c.counted;
          tallied = c.tallied;
        };
  }

some-injective : (i j : ℕ) → some i ≡ some j → i ≡ j
some-injective i j e = cc

-- A slab of one cache is in no other.
pub other_cache :
    (h : Heap) (i j s : ℕ)
    → IsHeap h
    → i < num_slab_sizes
    → j < num_slab_sizes
    → j ≢ i
    → 0 < listed (h.caches i) s
    → listed (h.caches j) s ≡ 0
other_cache h i j s v hi hj ne here = elim (ℕ_discrete (listed (h.caches j) s) 0) [
  | yes e ↦ e
  | no there ↦
      let a = ((v.caches_ok i hi).valid s here).owner in
      let b = ((v.caches_ok j hj).valid s (omega arith)).owner in
      absurd (ne (some-injective j i (sym b ∙ a)))
]
