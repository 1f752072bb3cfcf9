-- ===== src/Slab/Serve.antt =====
-- slab_alloc, slab_alloc_size and finding the slab of an object.
use native.Mathlib.Nat.{mul-le-mul_right}
use lun_os.Prelude.{
  ℕ, zero, suc, ◌+◌, ◌*◌, ◌%◌, ◌≤◌, ◌<◌, ◌≡◌, ◌≢◌, ◌⊎◌, inl, inr, refl, sym, ap, ◌∙◌, arith, Option,
  none, some, true, false, List, [], ◌∷◌, ◌==◌, ℕ_discrete, leb, ltb, List-cases,
}
use lun_os.Buddy.Alloc.Pages.{Exhausted}
use lun_os.Slab.{
  SlabCache, Heap, occurs, num_slab_sizes, slab_header, slab_magic, slab_sizes, slab_create,
  slab_alloc, slab_alloc_size, alloc_from, slab_free, slab_find_containing, slab_start, in_objects,
}
use lun_os.Slab.Relist.{listed}
use lun_os.Slab.Valid.{IsObject, IsHeap, available}
use lun_os.Slab.Take.{TakenFrom, take_object-TakenFrom}
use lun_os.Slab.Give.{slab_free-GivenTo}
use lun_os.Slab.Create.{Created, slab_create-Created}

-- What slab_alloc returns: NULL, with nothing changed, where no slab of the cache has a free object and
-- the page allocator has no block of two pages; or an object of a slab that was there; or one of a new
-- slab.
abbrev pub SlabAlloc : Heap → ℕ → Option ℕ × Heap → Type 0
SlabAlloc h i (r, h') =
    ((r ≡ none)
      × (h' ≡ h)
      × ((h.caches i).partial_slabs ≡ [])
      × ((h.caches i).empty_slabs ≡ [])
      × Exhausted h.buddy.counter h.buddy.arenas 1)
    ⊎ ((obj : ℕ) × (s : ℕ) × (r ≡ some obj)
        × (TakenFrom h i s obj h'
            ⊎ ((fresh : Heap) × Created h i s fresh × TakenFrom fresh i s obj h')))

module _ (h : Heap) (i : ℕ) (v : IsHeap h) (hi : i < num_slab_sizes) where
  from_partial :
      (s : ℕ) (rest : List ℕ)
      → (h.caches i).partial_slabs ≡ s ∷ rest
      → SlabAlloc h i (slab_alloc i h)
  unfolding slab_alloc listed occurs
  from_partial s rest e =
      let there : 0 < occurs s (h.caches i).partial_slabs = ground (arith, ap (occurs s) e) in
      let free = (((v.caches_ok i hi).placed s).partial there).0 in
      let (obj, q, taken) = take_object-TakenFrom h i s v hi (omega (arith, there)) free in
      rw (e, slab_alloc) (inr (obj, s, q, inl taken))

  from_empty :
      (s : ℕ) (rest : List ℕ)
      → (h.caches i).partial_slabs ≡ []
      → (h.caches i).empty_slabs ≡ s ∷ rest
      → SlabAlloc h i (slab_alloc i h)
  unfolding slab_alloc listed occurs
  from_empty s rest p e =
      let there : 0 < occurs s (h.caches i).empty_slabs = ground (arith, ap (occurs s) e) in
      let free = ((v.caches_ok i hi).placed s).empty there in
      let (obj, q, taken) =
        take_object-TakenFrom h i s v hi (omega (arith, there))
          (omega (arith, free, (v.caches_ok i hi).many)) in
      rw (p, e, slab_alloc) (inr (obj, s, q, inl taken))

  from_new :
      (h.caches i).partial_slabs ≡ []
      → (h.caches i).empty_slabs ≡ []
      → SlabAlloc h i (slab_alloc i h)
  unfolding slab_alloc
  from_new p e = elim (slab_create-Created h i v hi) [
    | inl (same, none_left) ↦
        let z : (slab_create i h).0 ≡ 0 = ap (λ (r : ℕ × Heap). r.0) same in
        let q : ((slab_create i h).0 == 0) ≡ true = ground (arith, z) in
        rw (p, e, slab_alloc, q)
          (inl (refl, ap (λ (r : ℕ × Heap). r.1) same, refl, refl, none_left))
    | inr made ↦
        let q : ((slab_create i h).0 == 0) ≡ false = ground (arith, made.positive) in
        let (obj, r, taken) =
          take_object-TakenFrom (slab_create i h).1 i (slab_create i h).0 made.heap hi made.stands
            (omega (arith, made.whole, (v.caches_ok i hi).many)) in
        rw (p, e, slab_alloc, q)
          (inr (obj, (slab_create i h).0, r, inr ((slab_create i h).1, made, taken)))
  ]

  pub slab_alloc-SlabAlloc : SlabAlloc h i (slab_alloc i h)
  slab_alloc-SlabAlloc = elim (List-cases (h.caches i).partial_slabs) [
    | inr (s, rest, e) ↦ from_partial s rest e
    | inl p ↦ elim (List-cases (h.caches i).empty_slabs) [
      | inr (s, rest, e) ↦ from_empty s rest p e
      | inl e ↦ from_new p e
    ]
  ]

-- slab_alloc_size serves a request from the first cache whose objects are large enough.
alloc_from-first :
    (n i k size : ℕ) (h : Heap)
    → i ≤ k
    → k < i + n
    → size ≤ slab_sizes k
    → ((j : ℕ) → j < k → slab_sizes j < size)
    → alloc_from n i size h ≡ slab_alloc k h
unfolding alloc_from
alloc_from-first zero i k size h lo hi fits first = absurd (omega (arith, lo, hi))
alloc_from-first (suc n) i k size h lo hi fits first = elim (ℕ_discrete i k) [
  | yes e ↦
      let q : leb size (slab_sizes i) ≡ true = ground (arith, fits, ap slab_sizes e) in
      rw q (ap (λ (z : ℕ). slab_alloc z h) e)
  | no ne ↦
      let q : leb size (slab_sizes i) ≡ false = ground (arith, first i (omega (arith, lo, ne))) in
      rw q
        (alloc_from-first n (i + 1) k size h (omega (arith, lo, ne)) (omega (arith, hi)) fits first)
]

pub slab_alloc_size-SlabAlloc :
    (h : Heap) (k size : ℕ)
    → IsHeap h
    → k < num_slab_sizes
    → size ≤ slab_sizes k
    → ((j : ℕ) → j < k → slab_sizes j < size)
    → SlabAlloc h k (slab_alloc_size size h)
unfolding slab_alloc_size
slab_alloc_size-SlabAlloc h k size v hi fits first =
    rw (alloc_from-first num_slab_sizes 0 k size h (omega arith) (omega (arith, hi)) fits first)
      (slab_alloc-SlabAlloc h k v hi)

-- Beyond the largest class it returns NULL.
alloc_from-none :
    (n i size : ℕ) (h : Heap)
    → ((j : ℕ) → j < i + n → slab_sizes j < size)
    → alloc_from n i size h ≡ (none, h)
unfolding alloc_from
alloc_from-none zero i size h big = refl
alloc_from-none (suc n) i size h big =
    let q : leb size (slab_sizes i) ≡ false = ground (arith, big i (omega arith)) in
    rw q (alloc_from-none n (i + 1) size h (λ j lt. big j (omega (arith, lt))))

in_objects-true :
    (ptr slab : ℕ) (c : SlabCache)
    → slab + slab_header ≤ ptr
    → ptr < slab + slab_header + c.objects_per_slab * c.object_size
    → in_objects ptr slab c ≡ true
unfolding in_objects
in_objects-true ptr slab c lo hi =
    let lower : leb (slab + slab_header) ptr ≡ true = ground (arith, lo) in
    let upper : ltb ptr (slab + slab_header + c.objects_per_slab * c.object_size) ≡ true =
      ground (arith, hi) in
    rw (lower, upper) refl

slab_start-IsObject :
    (size n s ptr : ℕ)
    → 0 < size
    → s % 8192 ≡ 0
    → slab_header + n * size ≤ 8192
    → IsObject size n s ptr
    → slab_start ptr ≡ s
unfolding slab_start
slab_start-IsObject size n s ptr sized aligned fits obj =
    let (k, lt, e) = obj in omega (arith, e, mul-le-mul_right size lt)

-- An object of a slab that a cache of a well-formed heap lists is found, with the slab and the cache.
pub slab_find_containing-IsObject :
    (h : Heap) (i s ptr : ℕ)
    → IsHeap h
    → i < num_slab_sizes
    → 0 < listed (h.caches i) s
    → IsObject (h.caches i).object_size (h.caches i).objects_per_slab s ptr
    → slab_find_containing ptr h ≡ some (s, i)
unfolding slab_find_containing
slab_find_containing-IsObject h i s ptr v hi here obj =
    let c = v.caches_ok i hi in
    let w = c.valid s here in
    let (k, lt, e) = obj in
    let top = mul-le-mul_right (h.caches i).object_size lt in
    let start : slab_start ptr ≡ s = slab_start-IsObject _ _ s ptr c.sized w.aligned c.fits obj in
    let magic : (h.word s == slab_magic) ≡ true = ground (arith, w.magic) in
    let inside : in_objects ptr s (h.caches i) ≡ true =
      in_objects-true ptr s (h.caches i) (omega (arith, e)) (omega (arith, e, top, c.sized)) in
    rw (start, magic, w.owner, start, inside) refl

-- A pointer into pages whose first word is not a slab's magic number is in no slab.
pub slab_find_containing-none :
    (ptr : ℕ) (h : Heap) → h.word (slab_start ptr) ≢ slab_magic → slab_find_containing ptr h ≡ none
unfolding slab_find_containing
slab_find_containing-none ptr h ne =
    let q : (h.word (slab_start ptr) == slab_magic) ≡ false = ground (arith, ne) in rw q refl

-- An object that has just been taken is found, and giving it back makes the same objects free again.
pub slab_free-take_object :
    (h h' : Heap) (i s obj : ℕ)
    → i < num_slab_sizes
    → TakenFrom h i s obj h'
    → (slab_find_containing obj h' ≡ some (s, i))
      × IsHeap (slab_free i s obj h')
      × ((j o : ℕ) → j < num_slab_sizes → available (slab_free i s obj h') j o ≡ available h j o)
slab_free-take_object h h' i s obj hi t =
    let g = slab_free-GivenTo h' i s obj t.heap hi t.stands t.object t.used in
    (
      slab_find_containing-IsObject h' i s obj t.heap hi t.stands t.object,
      g.heap,
      λ j o hj. elim (ℕ_discrete j i) [
        | yes e ↦ goal j o e
        | no ne ↦ g.others j o hj ne ∙ t.others j o hj ne
      ],
    )
  where
    goal : (j o : ℕ) → j ≡ i → available (slab_free i s obj h') j o ≡ available h j o
    goal j o e =
        let g = slab_free-GivenTo h' i s obj t.heap hi t.stands t.object t.used in
        ap (λ (z : ℕ). available (slab_free i s obj h') z o) e
        ∙ omega (arith, g.frees o, t.frees o)
        ∙ ap (λ (z : ℕ). available h z o) (sym e)
