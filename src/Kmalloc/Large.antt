-- ===== src/Kmalloc/Large.antt =====
-- kmalloc of a block of the page allocator.
use lun_os.Prelude.{
  ℕ, ◌+◌, ◌-◌, ◌%◌, ◌^◌, ◌≤◌, ◌<◌, ◌≡◌, ◌≢◌, ◌⊎◌, inl, inr, refl, ap, arith, Option, none, some,
  true, false, leb, ◌==◌, dec_lt, page_size, ltb, ◌∙◌,
}
use lun_os.Buddy.{Buddy, block_size}
use lun_os.Buddy.Cover.{hit, block_size_bounds}
use lun_os.Buddy.Whole.{free_cover, free_cover-le}
use lun_os.Buddy.Alloc.{buddy_alloc_pages}
use lun_os.Buddy.Alloc.Pages.{AllocatedPages, Exhausted, buddy_alloc_pages-AllocPages}
use lun_os.Slab.{Heap, set_word, num_slab_sizes}
use lun_os.Slab.Relist.{listed}
use lun_os.Slab.Valid.{IsHeap, available, shrunk-IsHeap}
use lun_os.Kmalloc.{
  alloc_magic, alloc_header, order_loop, total_size, write_header, alloc_block, kmalloc_buddy,
}
use lun_os.Kmalloc.Order.{IsLeastOrder, order_loop-IsLeastOrder}

-- No multiple of 4096 is one of `size + 20` up to `size + 23`, so that a block with room for the header,
-- the bytes and four more has it for the whole end magic.
abbrev pub HasRoom : ℕ → Type 0
HasRoom size = 4 ≤ (size + 23) % 4096

room_for_magic :
    (size order : ℕ)
    → HasRoom size
    → alloc_header + size + 4 ≤ block_size order
    → alloc_header + size + 8 ≤ block_size order
unfolding block_size
room_for_magic size order room fits = omega (arith, room, fits)

-- A block of the order at `a` has been taken out of the heap `h` for `size` bytes: the header, the bytes
-- and the end magic lie in it, and the header and the end magic have been written.
pub record Stamped (h : Heap) (size order a : ℕ) (h' : Heap) : Type 0 where
  pub pages : AllocatedPages h.buddy order a h'.buddy
  pub heap : IsHeap h'
  pub same : (i o : ℕ) → available h' i o ≡ available h i o
  pub kept : h' ≡ record h { buddy = h'.buddy; word = h'.word }
  pub elsewhere : (i s : ℕ) → i < num_slab_sizes → 0 < listed (h.caches i) s → h'.word s ≡ h.word s
  pub small : order < 20
  pub fits : a + alloc_header + size + 8 ≤ a + block_size order
  pub magic : h'.word a ≡ alloc_magic
  pub size_word : h'.word (a + 8) ≡ size
  pub order_word : h'.word (a + 12) ≡ order
  pub end_magic : h'.word (a + alloc_header + size) ≡ alloc_magic

module _ (h : Heap) (size order a : ℕ) (b : Buddy) (v : IsHeap h) (small : order < 20)
    (got : AllocatedPages h.buddy order a b)
    (fits : alloc_header + size + 8 ≤ block_size order) where
  was_free : (p : ℕ) → a ≤ p → p < a + block_size order → free_cover h.buddy p ≡ 1
  unfolding hit
  was_free p lo hi = ground (arith, got.exact p, free_cover-le h.buddy p v.buddy_ok, lo, hi)

  narrow : size % 2 ^ 32 ≡ size
  narrow = omega (arith, block_size_bounds order (omega (arith, small)), fits)

  h' : Heap
  h' = write_header a size order (record h { buddy = b })

  off_slabs : (i s : ℕ) → i < num_slab_sizes → 0 < listed (h.caches i) s → h'.word s ≡ h.word s
  unfolding h' write_header set_word
  off_slabs i s hi here =
      let taken = ((v.caches_ok i hi).valid s here).reserved s (omega arith) (omega arith) in
      let apart : (d : ℕ) → d < block_size order → s ≢ a + d = λ d lt e. omega (
        arith,
        taken,
        ap (free_cover h.buddy) e,
        was_free (a + d) (omega arith) (omega (arith, lt)),
      ) in
      let bounds = block_size_bounds order (omega (arith, small)) in
      ground (
        arith,
        narrow,
        apart 0 (omega (arith, bounds)),
        apart 8 (omega (arith, bounds)),
        apart 12 (omega (arith, bounds)),
        apart (alloc_header + size) (omega (arith, fits)),
      )

  stamped : Stamped h size order a h'
  unfolding h' write_header set_word available
  stamped = record {
    pages = got;
    heap = shrunk-IsHeap h b h'.word got.valid (λ p. omega (arith, got.exact p)) off_slabs v;
    same = λ i o. refl;
    kept = refl;
    elsewhere = off_slabs;
    small = small;
    fits = omega (arith, fits);
    magic = ground arith;
    size_word = ground (arith, narrow);
    order_word = ground arith;
    end_magic = ground (arith, narrow);
  }

-- What alloc_block returns.
abbrev pub AllocBlock : Heap → ℕ → ℕ → Option ℕ × Heap → Type 0
AllocBlock h size order (r, h') =
    ((r ≡ none) × (h' ≡ h) × ((20 ≤ order) ⊎ Exhausted h.buddy.counter h.buddy.arenas order))
    ⊎ ((a : ℕ) × (r ≡ some (a + alloc_header)) × Stamped h size order a h')

alloc_block-AllocBlock :
    (h : Heap) (size order : ℕ)
    → IsHeap h
    → alloc_header + size + 8 ≤ block_size order
    → (result : Option ℕ × Heap) × (alloc_block size order h ≡ some result)
      × AllocBlock h size order result
unfolding alloc_block h'
alloc_block-AllocBlock h size order v fits = elim (dec_lt order 20) [
  | no large ↦
      let q : leb 20 order ≡ true = ground (arith, large) in
      ((none, h), rw q refl, inl (refl, refl, inl (omega (arith, large))))
  | yes small ↦
      let q : leb 20 order ≡ false = ground (arith, small) in
      elim (buddy_alloc_pages-AllocPages h.buddy order v.buddy_ok (omega (arith, small))) [
        | inl (failed, same, none_left) ↦
            let z : ((buddy_alloc_pages h.buddy order).0 == 0) ≡ true = ground (arith, failed) in
            (
              (none, record h { buddy = (buddy_alloc_pages h.buddy order).1 }),
              rw (q, z) refl,
              inl (refl, ap (λ (b : Buddy). record h { buddy = b }) same, inr none_left),
            )
        | inr got ↦
            let z : ((buddy_alloc_pages h.buddy order).0 == 0) ≡ false =
              ground (arith, got.positive) in
            let short : size % 2 ^ 32 ≡ size =
              omega (arith, block_size_bounds order (omega (arith, small)), fits) in
            let room : ltb (block_size order) (alloc_header + size % 2 ^ 32 + 8) ≡ false =
              ground (arith, short, fits) in
            (_, rw (q, z, room) refl, inr (_, refl, stamped h size order _ _ v small got fits))
      ]
]

kmalloc_buddy-some :
    (h : Heap) (size order : ℕ)
    → order_loop 64 0 page_size (total_size size) ≡ some order
    → kmalloc_buddy size h ≡ alloc_block size order h
unfolding kmalloc_buddy
kmalloc_buddy-some h size order e = rw (e, kmalloc_buddy) refl

least_order :
    (size : ℕ)
    → size ≤ 2 ^ 63 - 20
    → (order : ℕ) × (order_loop 64 0 page_size (total_size size) ≡ some order)
      × IsLeastOrder (alloc_header + size + 4) order
unfolding total_size
least_order size bound =
    let total : total_size size ≡ alloc_header + size + 4 = omega (arith, bound) in
    rw total (order_loop-IsLeastOrder (alloc_header + size + 4) (omega (arith, bound)))

-- For at most 2 ^ 63 - 20 bytes whose end magic has room, the part of kmalloc behind the slab allocator
-- ends, and asks for the least order whose block holds the header, the bytes and four more.
pub kmalloc_buddy-AllocBlock :
    (h : Heap) (size : ℕ)
    → IsHeap h
    → size ≤ 2 ^ 63 - 20
    → HasRoom size
    → (order : ℕ) × (result : Option ℕ × Heap) × (kmalloc_buddy size h ≡ some result)
      × IsLeastOrder (alloc_header + size + 4) order
      × AllocBlock h size order result
kmalloc_buddy-AllocBlock h size v bound room =
    let (order, found, best) = least_order size bound in
    let (result, e, got) =
      alloc_block-AllocBlock h size order v
        (room_for_magic size order room (omega (arith, best.holds))) in
    (order, result, kmalloc_buddy-some h size order found ∙ e, best, got)
