-- ===== src/Tests/Kmalloc.antt =====
-- kmalloc and kfree over the heap of four free pages.
use lun_os.Prelude.{ℕ, ◌≡◌, refl, Option, some, arith}
use lun_os.Buddy.Alloc.{buddy_alloc_pages}
use lun_os.Slab.{Heap, slab_allocator_init, init_caches, set_cache}
use lun_os.Kmalloc.{order_loop, total_size, kmalloc_buddy, kmalloc, alloc_block, write_header}
use lun_os.Kmalloc.Serve.{KmallocResult, kmalloc-KmallocResult}
use lun_os.Kmalloc.Back.{GivesBack, kfree-kmalloc}
use lun_os.Tests.Slab.{heap, heap-IsHeap}

kmalloc-KmallocResult_example :
    (result : Option ℕ × Heap) × (kmalloc 100 heap ≡ some result) × KmallocResult heap 100 result
kmalloc-KmallocResult_example =
    kmalloc-KmallocResult heap 100 heap-IsHeap (omega arith) (omega arith)

abbrev after : Heap
after = (write_header 0x100000 5000 1 record heap { buddy = (buddy_alloc_pages heap.buddy 1).1 })

block : kmalloc 5000 heap ≡ some (some 0x100010, after)
unfolding kmalloc kmalloc_buddy order_loop total_size alloc_block buddy_alloc_pages
    slab_allocator_init init_caches set_cache
block = refl

kfree-kmalloc_example : GivesBack heap 0x100010 after
kfree-kmalloc_example =
    kfree-kmalloc heap after 5000 0x100010 heap-IsHeap (omega arith) (omega arith) (omega arith)
      block
