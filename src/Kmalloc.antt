-- ===== src/Kmalloc.antt =====
-- kmalloc, kfree and the page calls of kernel/arch/x86_64/memory/pmm.c and its header, over the slab
-- allocator and the page allocator. A pointer is a physical address, or `none` for NULL.
pub mod Order
pub mod Large
pub mod Back
pub mod Serve
use lun_os.Prelude.{
  ℕ, zero, suc, ◌+◌, ◌-◌, ◌*◌, ◌/◌, ◌%◌, ◌^◌, Bool, true, false, ◌&&◌, Option, none, some, ltb, leb,
  ◌==◌, if◌then◌else◌, add64, page_size,
}
use lun_os.Buddy.{Buddy, max_supported_order, block_size}
use lun_os.Buddy.Alloc.{buddy_alloc_page, buddy_alloc_pages}
use lun_os.Buddy.Free.{buddy_free_page, buddy_free_pages, freed_block}
use lun_os.Slab.{Heap, set_word, slab_alloc_size, slab_free, slab_find_containing}

abbrev pub slab_threshold : ℕ
slab_threshold = 2048

abbrev pub alloc_magic : ℕ
alloc_magic = 0xDEAD_BEEF_CAFE_BABE

abbrev pub freed_pattern : ℕ
freed_pattern = 0xDEAD_DEAD_DEAD_DEAD

-- sizeof(struct alloc_header): `magic` is its word at offset 0, `size` the one at 8, `order` at 12.
abbrev pub alloc_header : ℕ
alloc_header = 16

-- `while (block_size < total_size)`, `n` tests of it; `none` if it still goes on then.
unfoldable pub order_loop : ℕ → ℕ → ℕ → ℕ → Option ℕ
order_loop zero order block total = none
order_loop (suc n) order block total =
    let rest = order_loop n ((order + 1) % 2 ^ 8) (block * 2 % 2 ^ 64) total in
    if ltb block total then rest else some order

-- sizeof(struct alloc_header) + size + sizeof(uint32_t)
unfoldable pub total_size : ℕ → ℕ
total_size size = add64 (add64 alloc_header size) 4

-- The header and the end magic of a block at `a`. The end magic is 8 bytes, of which the size of the block
-- counts 4.
pub write_header : ℕ → ℕ → ℕ → Heap → Heap
write_header a size order h =
    let stored = size % 2 ^ 32 in
    set_word (a + alloc_header + stored) alloc_magic
      (set_word (a + 12) order (set_word (a + 8) stored (set_word a alloc_magic h)))

-- kmalloc with a block of the order, or NULL; `none` where the end magic runs over the end of the block
-- into what is behind it.
unfoldable pub alloc_block : ℕ → ℕ → Heap → Option (Option ℕ × Heap)
alloc_block size order h =
    let (phys_addr, b) = buddy_alloc_pages h.buddy order in
    let got : Option ℕ × Heap = (
      some (phys_addr + alloc_header),
      write_header phys_addr size order (record h { buddy = b }),
    ) in
    if leb max_supported_order order
    then some (none, h)
    else if phys_addr == 0
    then some (none, record h { buddy = b })
    else if ltb (block_size order) (alloc_header + size % 2 ^ 32 + 8)
    then none
    else some got

-- The part of kmalloc behind the slab allocator; `none` also if its loop does not end.
unfoldable pub kmalloc_buddy : ℕ → Heap → Option (Option ℕ × Heap)
kmalloc_buddy size h = elim (order_loop 64 0 page_size (total_size size)) [
  | none ↦ none
  | some order ↦ alloc_block size order h
]

unfoldable pub kmalloc : ℕ → Heap → Option (Option ℕ × Heap)
kmalloc size h =
    let (ptr, h') = slab_alloc_size size h in
    let small : Option (Option ℕ × Heap) = elim ptr [
      | some p ↦ some (some p, h')
      | none ↦ kmalloc_buddy size h'
    ] in
    if size == 0
    then some (none, h)
    else if leb size slab_threshold
    then small
    else kmalloc_buddy size h

-- The words after buddy_free_pages has written the struct free_block of the block of this order and
-- address: the order over the lowest byte, the address 8 bytes behind it. Its link to the next block is
-- kept in the free lists.
unfoldable pub free_words : Option (ℕ × ℕ) → (ℕ → ℕ) → ℕ → ℕ
free_words none word a = word a
free_words (some (order, addr)) word a =
    if a == addr
    then word addr - word addr % 256 + order
    else if a == addr + 8
    then addr % 2 ^ 32
    else if a == addr + 12
    then addr / 2 ^ 32
    else word a

-- The part of kfree behind the slab allocator.
pub kfree_buddy : ℕ → Heap → Heap
unfolding free_words
kfree_buddy ptr h =
    let header = ptr - alloc_header in
    let intact : Bool =
      (h.word header == alloc_magic) && (h.word (ptr + h.word (header + 8)) == alloc_magic) in
    let order = h.word (header + 12) in
    let freed : Heap = record h {
      buddy = buddy_free_pages h.buddy header order;
      word = free_words (freed_block h.buddy header order) (set_word header freed_pattern h).word;
    } in
    if h.word header == freed_pattern then h else if intact then freed else h

pub kfree : Option ℕ → Heap → Heap
kfree none h = h
kfree (some ptr) h = elim (slab_find_containing ptr h) [
  | none ↦ kfree_buddy ptr h
  | some (slab, i) ↦ if h.word ptr == freed_pattern then h else slab_free i slab ptr h
]

pub pmm_alloc_page : Heap → ℕ × Heap
pmm_alloc_page h = let (phys, b) = buddy_alloc_page h.buddy in (phys, record h { buddy = b })

pub pmm_free_page : ℕ → Heap → Heap
pmm_free_page phys h = record h { buddy = buddy_free_page h.buddy phys }
