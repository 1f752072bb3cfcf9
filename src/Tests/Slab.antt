-- ===== src/Tests/Slab.antt =====
-- The slab allocator over four free pages, and a slab of 16-byte objects in two of them.
use lun_os.Prelude.{ℕ, ◌<◌, ◌≡◌, inl, inr, ap, [], length, arith, some, none}
use lun_os.Buddy.{link_block, set_list}
use lun_os.Buddy.Alloc.Pages.{Exhausted}
use lun_os.Slab.{
  Heap, slab_cache_init, slab_allocator_init, slab_create, slab_alloc, slab_free, take_object,
  num_slab_sizes,
}
use lun_os.Slab.Valid.{IsHeap, available}
use lun_os.Slab.Take.{TakenFrom, take_object-TakenFrom}
use lun_os.Slab.Give.{GivenTo, slab_free-GivenTo}
use lun_os.Slab.Create.{Created, slab_create-Created}
use lun_os.Slab.Serve.{SlabAlloc, slab_alloc-SlabAlloc}
use lun_os.Slab.Start.{slab_allocator_init-IsHeap}
use lun_os.Tests.Buddy.{pool, pool-IsValid}

abbrev unused_heap : Heap
unused_heap = record {
  buddy = pool;
  slabs = λ _. record { cache = none; phys_addr = 0; free_count = 0; free_list = [] };
  caches = λ _. slab_cache_init 0;
  word = λ _. 0;
}

abbrev pub heap : Heap
heap = slab_allocator_init unused_heap

slab_allocator_init-IsHeap_example :
    IsHeap heap × (heap.buddy ≡ pool) × ((i o : ℕ) → i < num_slab_sizes → available heap i o ≡ 0)
slab_allocator_init-IsHeap_example = slab_allocator_init-IsHeap unused_heap pool-IsValid

pub heap-IsHeap : IsHeap heap
heap-IsHeap = (slab_allocator_init-IsHeap unused_heap pool-IsValid).0

pub heap-buddy : heap.buddy ≡ pool
heap-buddy = (slab_allocator_init-IsHeap unused_heap pool-IsValid).1

slab_alloc-SlabAlloc_example : SlabAlloc heap 0 (slab_alloc 0 heap)
slab_alloc-SlabAlloc_example = slab_alloc-SlabAlloc heap 0 heap-IsHeap (omega arith)

-- The pool has a block for the slab.
has_block : Exhausted pool.counter pool.arenas 1 → ⊥
unfolding link_block set_list
has_block (f, _) = absurd (omega (arith, ap length (f 2 (omega arith) (omega arith))))

made : Created heap 0 (slab_create 0 heap).0 (slab_create 0 heap).1
made = elim (slab_create-Created heap 0 heap-IsHeap (omega arith)) [
  | inl (_, left) ↦ absurd (has_block (rw heap-buddy at left))
  | inr c ↦ c
]

abbrev slab : ℕ
slab = (slab_create 0 heap).0

abbrev with_slab : Heap
with_slab = (slab_create 0 heap).1

has_objects : 0 < (with_slab.slabs slab).free_count
has_objects = omega (arith, made.whole, (heap-IsHeap.caches_ok 0 (omega arith)).many)

first :
    (obj : ℕ) × ((take_object 0 slab with_slab).0 ≡ some obj)
    × TakenFrom with_slab 0 slab obj (take_object 0 slab with_slab).1
first = take_object-TakenFrom with_slab 0 slab made.heap (omega arith) made.stands has_objects

abbrev object : ℕ
object = first.0

abbrev in_use : Heap
in_use = (take_object 0 slab with_slab).1

in_use-TakenFrom : TakenFrom with_slab 0 slab object in_use
in_use-TakenFrom = let (_, _, t) = first in t

slab_free-GivenTo_example : GivenTo in_use 0 object (slab_free 0 slab object in_use)
slab_free-GivenTo_example =
    slab_free-GivenTo in_use 0 slab object in_use-TakenFrom.heap (omega arith)
      in_use-TakenFrom.stands in_use-TakenFrom.object in_use-TakenFrom.used
