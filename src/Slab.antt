-- ===== src/Slab.antt =====
-- The slab allocator: kernel/arch/x86_64/memory/slab_allocator.c and its header. A slab and an object
-- are named by their physical addresses, which the code has plus a fixed offset. The `next` pointers of
-- slabs and of free objects are lists of addresses here.
pub mod Lists
pub mod Relist
pub mod Valid
pub mod Update
pub mod Take
pub mod Give
pub mod Create
pub mod Serve
pub mod Start
use lun_os.Prelude.{
  ℕ, zero, suc, ◌+◌, ◌-◌, ◌*◌, ◌/◌, ◌%◌, ◌^◌, Bool, true, false, ◌&&◌, not, Option, none, some,
  List, [], ◌∷◌, ltb, leb, ◌==◌, if◌then◌else◌, add64, sub64, page_size,
}
use lun_os.Buddy.{Buddy}
use lun_os.Buddy.Alloc.{buddy_alloc_pages}
use lun_os.Buddy.Free.{buddy_free_pages}

abbrev pub slab_magic : ℕ
slab_magic = 0xCAFE_BABE_DEAD_BABE

abbrev pub object_poison : ℕ
object_poison = 0xDEAD_DEAD_DEAD_DEAD

-- sizeof(struct slab)
abbrev pub slab_header : ℕ
slab_header = 48

-- struct slab but for its first word, the magic number, which is the word of memory at its address.
pub record Slab : Type 0 where
  pub cache : Option ℕ  -- the number of its cache, or NULL
  pub phys_addr : ℕ
  pub free_count : ℕ
  pub free_list : List ℕ

-- struct slab_cache
pub record SlabCache : Type 0 where
  pub object_size : ℕ
  pub objects_per_slab : ℕ
  pub slab_size : ℕ
  pub full_slabs : List ℕ
  pub partial_slabs : List ℕ
  pub empty_slabs : List ℕ
  pub total_objects : ℕ
  pub allocated_objects : ℕ
  pub total_slabs : ℕ

-- The page allocator, the slab headers by address, slab_caches, and the words of memory that the
-- allocators read back: the first word of each slab and object, and the fields around a kmalloc block.
pub record Heap : Type 0 where
  pub buddy : Buddy
  pub slabs : ℕ → Slab
  pub caches : ℕ → SlabCache
  pub word : ℕ → ℕ

unfoldable pub set_slab : ℕ → Slab → Heap → Heap
set_slab at s h = record h { slabs = λ a. if a == at then s else h.slabs a }

unfoldable pub set_cache : ℕ → SlabCache → Heap → Heap
set_cache i c h = record h { caches = λ j. if j == i then c else h.caches j }

unfoldable pub set_word : ℕ → ℕ → Heap → Heap
set_word at v h = record h { word = λ a. if a == at then v else h.word a }

-- slab_sizes
unfoldable pub slab_sizes : ℕ → ℕ
slab_sizes i = 16 * 2 ^ i

abbrev pub num_slab_sizes : ℕ
num_slab_sizes = 8

unfoldable pub calculate_objects_per_slab : ℕ → ℕ
calculate_objects_per_slab object_size = (2 * page_size - slab_header) / object_size

unfoldable pub slab_cache_init : ℕ → SlabCache
slab_cache_init object_size = record {
  object_size = object_size;
  objects_per_slab = calculate_objects_per_slab object_size;
  slab_size = 2 * page_size;
  full_slabs = [];
  partial_slabs = [];
  empty_slabs = [];
  total_objects = 0;
  allocated_objects = 0;
  total_slabs = 0;
}

-- The loop of slab_allocator_init over `n` caches from number `i` on.
unfoldable pub init_caches : ℕ → ℕ → Heap → Heap
init_caches zero i h = h
init_caches (suc n) i h = init_caches n (i + 1) (set_cache i (slab_cache_init (slab_sizes i)) h)

unfoldable pub slab_allocator_init : Heap → Heap
slab_allocator_init h = init_caches num_slab_sizes 0 h

-- The free list that slab_create links from `n` objects: the last one first.
unfoldable pub link_objects : ℕ → ℕ → ℕ → List ℕ
link_objects zero start size = []
link_objects (suc n) start size = (start + n * size) ∷ link_objects n start size

-- slab_create with the page allocator's answer; 0 stands for NULL.
unfoldable pub slab_create : ℕ → Heap → ℕ × Heap
slab_create i h =
    let (phys_addr, b) = buddy_alloc_pages h.buddy 1 in
    let c = h.caches i in
    let slab : Slab = record {
      cache = some i;
      phys_addr = phys_addr;
      free_count = c.objects_per_slab;
      free_list = link_objects c.objects_per_slab (phys_addr + slab_header) c.object_size;
    } in
    let c' = record c {
      empty_slabs = phys_addr ∷ c.empty_slabs;
      total_slabs = add64 c.total_slabs 1;
      total_objects = add64 c.total_objects c.objects_per_slab;
    } in
    if phys_addr == 0 then (0, record h { buddy = b }) else (
      phys_addr,
      set_cache i c'
          (set_slab phys_addr slab (set_word phys_addr slab_magic (record h { buddy = b }))),
    )

-- How often an address stands in a list.
unfoldable pub occurs : ℕ → List ℕ → ℕ
occurs a [] = 0
occurs a (x ∷ xs) = (if x == a then 1 else 0) + occurs a xs

-- The inner loop of slab_remove_from_list: the list without the first place where the slab stands.
pub unlink : ℕ → List ℕ → List ℕ
unlink s [] = []
unlink s (x ∷ xs) = let rest = unlink s xs in if x == s then xs else x ∷ rest

-- The lists are tried in this order, and the first one that has the slab loses it.
unfoldable pub slab_remove_from_list : ℕ → SlabCache → SlabCache
slab_remove_from_list slab c =
    if ltb 0 (occurs slab c.partial_slabs)
    then record c { partial_slabs = unlink slab c.partial_slabs }
    else if ltb 0 (occurs slab c.full_slabs)
    then record c { full_slabs = unlink slab c.full_slabs }
    else record c { empty_slabs = unlink slab c.empty_slabs }

unfoldable pub to_full : ℕ → SlabCache → SlabCache
to_full slab c =
    let rest = slab_remove_from_list slab c in record rest { full_slabs = slab ∷ rest.full_slabs }

unfoldable pub to_partial : ℕ → SlabCache → SlabCache
to_partial slab c =
    let rest = slab_remove_from_list slab c in
    record rest { partial_slabs = slab ∷ rest.partial_slabs }

unfoldable pub to_empty : ℕ → SlabCache → SlabCache
to_empty slab c =
    let rest = slab_remove_from_list slab c in record rest { empty_slabs = slab ∷ rest.empty_slabs }

-- The list that the cache keeps a slab in once `count` of its objects are free, after an allocation.
unfoldable pub place_after_alloc : ℕ → ℕ → SlabCache → SlabCache
place_after_alloc slab count c =
    if count == 0
    then to_full slab c
    else if count == sub64 c.objects_per_slab 1
    then to_partial slab c
    else c

-- The same after an object has been given back.
pub place_after_free : ℕ → ℕ → SlabCache → SlabCache
place_after_free slab count c =
    if count == 1
    then to_partial slab c
    else if count == c.objects_per_slab
    then to_empty slab c
    else c

-- The second part of slab_alloc: the head of the slab's free list is unlinked.
unfoldable pub take_object : ℕ → ℕ → Heap → Option ℕ × Heap
take_object i slab h =
    let s = h.slabs slab in
    let c = h.caches i in
    let count = sub64 s.free_count 1 in
    elim s.free_list [
      | [] ↦ (none, h)
      | obj ∷ rest ↦ (
        some obj,
        set_cache i
            (place_after_alloc slab count
              (record c { allocated_objects = add64 c.allocated_objects 1 }))
            (set_slab slab (record s { free_list = rest; free_count = count }) h),
      )
    ]

-- slab_alloc from cache number `i`.
unfoldable pub slab_alloc : ℕ → Heap → Option ℕ × Heap
slab_alloc i h =
    let (created, h') = slab_create i h in
    let c = h.caches i in
    let fresh : Option ℕ × Heap = if created == 0 then (none, h') else take_object i created h' in
    elim c.partial_slabs [
      | slab ∷ _ ↦ take_object i slab h
      | [] ↦ elim c.empty_slabs [ slab ∷ _ ↦ take_object i slab h | [] ↦ fresh ]
    ]

-- slab_free of an object of a slab in cache number `i`, which `slab->cache` is.
pub slab_free : ℕ → ℕ → ℕ → Heap → Heap
slab_free i slab ptr h =
    let s = h.slabs slab in
    let c = h.caches i in
    let count = add64 s.free_count 1 in
    set_cache i
      (place_after_free slab count (record c { allocated_objects = sub64 c.allocated_objects 1 }))
      (set_slab slab (record s { free_list = ptr ∷ s.free_list; free_count = count })
        (set_word ptr object_poison h))

-- `ptr & ~((2 * PAGE_FRAME_SIZE) - 1)`
unfoldable pub slab_start : ℕ → ℕ
slab_start ptr = ptr - ptr % (2 * page_size)

pub in_objects : ℕ → ℕ → SlabCache → Bool
in_objects ptr slab c =
    leb (slab + slab_header) ptr
    && ltb ptr (slab + slab_header + c.objects_per_slab * c.object_size)

-- The slab and the number of its cache.
pub slab_find_containing : ℕ → Heap → Option (ℕ × ℕ)
slab_find_containing ptr h =
    let start = slab_start ptr in
    let s = h.slabs start in
    let found : Option (ℕ × ℕ) = elim s.cache [
      | none ↦ none
      | some i ↦ if in_objects ptr start (h.caches i) then some (start, i) else none
    ] in
    if h.word start == slab_magic then found else none

pub is_slab_address : ℕ → Heap → Bool
is_slab_address ptr h = elim (slab_find_containing ptr h) [ none ↦ false | some _ ↦ true ]

-- The loop of slab_alloc_size over the `n` caches from number `i` on.
unfoldable pub alloc_from : ℕ → ℕ → ℕ → Heap → Option ℕ × Heap
alloc_from zero i size h = (none, h)
alloc_from (suc n) i size h =
    let rest = alloc_from n (i + 1) size h in
    if leb size (slab_sizes i) then slab_alloc i h else rest

unfoldable pub slab_alloc_size : ℕ → Heap → Option ℕ × Heap
slab_alloc_size size h = alloc_from num_slab_sizes 0 size h

-- The warning about objects that are still in use changes nothing.
pub slab_destroy : ℕ → ℕ → Heap → Heap
slab_destroy i slab h =
    let c = slab_remove_from_list slab (h.caches i) in
    record (set_cache i
      (record c {
        total_slabs = sub64 c.total_slabs 1;
        total_objects = sub64 c.total_objects c.objects_per_slab;
      })
      h) { buddy = buddy_free_pages h.buddy (h.slabs slab).phys_addr 1 }

-- The second loop of slab_cache_shrink over the slabs behind the ones that are kept.
pub destroy_all : ℕ → List ℕ → Heap → Heap
destroy_all i [] h = h
destroy_all i (slab ∷ rest) h = destroy_all i rest (slab_destroy i slab h)

-- The slabs behind the first `n`.
pub behind : ℕ → List ℕ → List ℕ
behind zero xs = xs
behind (suc n) [] = []
behind (suc n) (x ∷ xs) = behind n xs

-- slab_destroy also unlinks each slab, which the loop has done already.
pub slab_cache_shrink : ℕ → Heap → Heap
slab_cache_shrink i h = destroy_all i (behind 2 (h.caches i).empty_slabs) h
