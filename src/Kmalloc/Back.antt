-- ===== src/Kmalloc/Back.antt =====
-- kfree of what kmalloc returned, once and twice.
use native.Mathlib.Nat.{pow-le-pow_right}
use lun_os.Prelude.{
  ℕ, zero, suc, ◌+◌, ◌-◌, ◌*◌, ◌%◌, ◌^◌, ◌≤◌, ◌<◌, ◌≡◌, ◌≢◌, ◌⊎◌, inl, inr, Option, ℕ_discrete,
  refl, sym, ap, ◌∙◌, arith, none, some, true, false, ◌==◌,
}
use lun_os.Buddy.{block_size}
use lun_os.Buddy.Cover.{hit, block_size_bounds}
use lun_os.Buddy.Valid.{Aligned}
use lun_os.Buddy.Whole.{free_cover, free_cover-le}
use lun_os.Buddy.Free.{buddy_free_pages, freed_block}
use lun_os.Buddy.Free.Block.{Linked, freed_block-Linked}
use lun_os.Buddy.Free.Pages.{FreedPages, buddy_free_pages-FreedPages}
use lun_os.Slab.{Heap, set_word, num_slab_sizes, slab_magic, slab_start, slab_find_containing}
use lun_os.Slab.Relist.{listed}
use lun_os.Slab.Valid.{IsHeap, available, shrunk-IsHeap}
use lun_os.Slab.Serve.{slab_find_containing-none}
use lun_os.Kmalloc.{
  alloc_magic, freed_pattern, alloc_header, free_words, kfree_buddy, kfree, kmalloc,
}
use lun_os.Kmalloc.Serve.{KmallocResult, kmalloc-KmallocResult}
use mathlib.Core.Option.{some-injective, some-ne-none}
use lun_os.Kmalloc.Large.{Stamped, HasRoom}

kfree_outside :
    (ptr : ℕ) (h : Heap)
    → slab_find_containing ptr h ≡ none
    → kfree (some ptr) h ≡ kfree_buddy ptr h
unfolding kfree
kfree_outside ptr h e = rw (e, kfree) refl

-- What kfree of `ptr` in `h'` leaves of an allocation in `h`.
abbrev pub GivesBack : Heap → ℕ → Heap → Type 0
GivesBack h ptr h' =
    IsHeap (kfree (some ptr) h')
    × ((p : ℕ) → free_cover (kfree (some ptr) h').buddy p ≡ free_cover h.buddy p)
    × ((i o : ℕ) → available (kfree (some ptr) h') i o ≡ available h i o)
    × (kfree (some ptr) (kfree (some ptr) h') ≡ kfree (some ptr) h')

double_page : (k : ℕ) → k < 20 → block_size (suc k) ≡ 8192 * 2 ^ k
unfolding block_size
double_page k h = omega (arith, pow-le-pow_right {n = 2} (omega arith) h)

-- A block of order 1 or more starts where a slab could, so the pointer behind its header is taken for an
-- object only if its first word is a slab's magic number.
slab_start-Aligned : (k a : ℕ) → k < 20 → Aligned (suc k) a → slab_start (a + alloc_header) ≡ a
unfolding slab_start
slab_start-Aligned k a h (q, e) =
    let there : a ≡ q * (8192 * 2 ^ k) = e ∙ ap (λ (z : ℕ). q * z) (double_page k h) in
    omega (arith, there)

magics : alloc_magic ≢ slab_magic
magics e = omega (arith, e)

-- Away from the struct free_block the words stay.
free_words-elsewhere :
    (k m s : ℕ) (word : ℕ → ℕ)
    → s ≢ m
    → s ≢ m + 8
    → s ≢ m + 12
    → free_words (some (k, m)) word s ≡ word s
unfolding free_words
free_words-elsewhere k m s word h i j = ground (arith, h, i, j)

-- On a page, the pattern stays or has its lowest byte replaced by an order.
free_words-pattern :
    (k m a : ℕ) (word : ℕ → ℕ)
    → k ≤ 20
    → m % 4096 ≡ 0
    → a % 4096 ≡ 0
    → word a ≡ freed_pattern
    → (free_words (some (k, m)) word a ≡ freed_pattern)
      ⊎ (free_words (some (k, m)) word a ≡ freed_pattern - 0xAD + k)
unfolding free_words
free_words-pattern k m a word small pm pa e = elim (ℕ_discrete a m) [
  | yes here ↦
      let q : (a == m) ≡ true = ground (arith, here) in
      let there : word m ≡ freed_pattern = ap word (sym here) ∙ e in
      inr (rw q (omega (arith, there)))
  | no ne ↦ inl (ground (arith, ne, pm, pa, e))
]

module _ (h : Heap) (size order a : ℕ) (h' : Heap) (v : IsHeap h) (st : Stamped h size order a h')
    (outside : slab_find_containing (a + alloc_header) h' ≡ none) where
  header : a + alloc_header - alloc_header ≡ a
  header = omega arith

  freed : Heap
  freed = record h' {
    buddy = buddy_free_pages h'.buddy a order;
    word = free_words (freed_block h'.buddy a order) (set_word a freed_pattern h').word;
  }

  kfree_buddy-freed : kfree_buddy (a + alloc_header) h' ≡ freed
  unfolding kfree_buddy freed
  kfree_buddy-freed =
      let intact : (h'.word a == alloc_magic) ≡ true = ground (arith, st.magic) in
      let unfreed : (h'.word a == freed_pattern) ≡ false = ground (arith, st.magic) in
      let behind : (h'.word (a + alloc_header + size) == alloc_magic) ≡ true =
        ground (arith, st.end_magic) in
      rw (header, st.size_word, st.order_word, unfreed, intact, behind) refl

  back : FreedPages h'.buddy order a freed.buddy
  unfolding freed
  back =
      buddy_free_pages-FreedPages h'.buddy a order st.pages.valid (omega (arith, st.small))
        (rw (st.pages.same_counter, st.pages.same_ranges) st.pages.held)
        (λ p. omega (arith, st.pages.exact p, free_cover-le h.buddy p v.buddy_ok))

  -- The block that is linked in the end.
  linked : (r : ℕ × ℕ) × (freed_block h'.buddy a order ≡ some r) × Linked r (free_cover freed.buddy)
  unfolding freed
  linked =
      freed_block-Linked h'.buddy a order st.pages.valid (omega (arith, st.small))
        (rw (st.pages.same_counter, st.pages.same_ranges) st.pages.held)

  word_freed :
      (s : ℕ) → freed.word s ≡ free_words (some linked.0) (set_word a freed_pattern h').word s
  unfolding freed
  word_freed s =
      ap (λ (r : Option (ℕ × ℕ)). free_words r (set_word a freed_pattern h').word s) linked.1

  -- The page allocator has what it had before.
  restored : (p : ℕ) → free_cover freed.buddy p ≡ free_cover h.buddy p
  restored p = omega (arith, back.exact p, st.pages.exact p)

  -- The first bytes of the linked block were free before, or the allocation's.
  linked_free : (d : ℕ) → d < 4096 → 1 ≤ free_cover h.buddy (linked.0.1 + d)
  unfolding hit
  linked_free d lt =
      let l = linked.2 in
      let bounds = block_size_bounds linked.0.0 l.small in
      ground (arith, l.held (linked.0.1 + d), restored (linked.0.1 + d), bounds, lt)

  off_slabs : (i s : ℕ) → i < num_slab_sizes → 0 < listed (h.caches i) s → freed.word s ≡ h.word s
  unfolding set_word hit
  off_slabs i s hi here =
      let taken = ((v.caches_ok i hi).valid s here).reserved s (omega arith) (omega arith) in
      let apart : s ≢ a =
        λ e. ground (arith, taken, ap (free_cover h.buddy) e, st.pages.exact a, st.fits) in
      let off : (d : ℕ) → d < 4096 → s ≢ linked.0.1 + d =
        λ d lt e. omega (arith, taken, ap (free_cover h.buddy) e, linked_free d lt) in
      let m = linked.0.1 in
      word_freed s
      ∙ free_words-elsewhere linked.0.0 m s (set_word a freed_pattern h').word
          (λ e. off 0 (omega arith) (omega (arith, e))) (off 8 (omega arith)) (off 12 (omega arith))
      ∙ ground (arith, apart, st.elsewhere i s hi here)

  freed-IsHeap : IsHeap freed
  unfolding freed set_word
  freed-IsHeap = rw st.kept (
      shrunk-IsHeap h freed.buddy freed.word back.valid (λ p. omega (arith, restored p)) off_slabs
        v)

  available-freed : (i o : ℕ) → available freed i o ≡ available h' i o
  unfolding freed available
  available-freed i o = refl

  marked :
      a % 4096 ≡ 0
      → (freed.word a ≡ freed_pattern)
        ⊎ ((freed.word a ≡ freed_pattern - 0xAD + linked.0.0) × (linked.0.0 ≤ 20))
  unfolding set_word
  marked page =
      let l = linked.2 in
      elim (free_words-pattern linked.0.0 linked.0.1 a (set_word a freed_pattern h').word l.small
        l.page page (ground arith)) [
          | inl e ↦ inl (word_freed a ∙ e)
          | inr e ↦ inr (word_freed a ∙ e, l.small)
        ]

  no_slab : a % 4096 ≡ 0 → freed.word a ≢ slab_magic
  no_slab page e = elim (marked page) [
    | inl p ↦ omega (arith, p, e)
    | inr (p, small) ↦ omega (arith, p, e, small)
  ]

  kfree_buddy-again : a % 4096 ≡ 0 → kfree_buddy (a + alloc_header) freed ≡ freed
  unfolding kfree_buddy
  kfree_buddy-again page = elim (marked page) [
    | inl p ↦
        let q : (freed.word a == freed_pattern) ≡ true = ground (arith, p) in rw (header, q) refl
    | inr (p, small) ↦
        let q : (freed.word a == freed_pattern) ≡ false = ground (arith, p, small) in
        let q' : (freed.word a == alloc_magic) ≡ false = ground (arith, p, small) in
        rw (header, q, q') refl
  ]

  -- Freeing gives back exactly the block, and freeing again changes nothing.
  aligned_back :
      a % 4096 ≡ 0 → slab_start (a + alloc_header) ≡ a → GivesBack h (a + alloc_header) h'
  aligned_back page start =
      rw (kfree_outside (a + alloc_header) h' outside, kfree_buddy-freed)
        (freed-IsHeap, restored, still, kfree_outside (a + alloc_header) freed gone ∙ twice)
    where
      still : (i o : ℕ) → available freed i o ≡ available h i o
      still i o = available-freed i o ∙ st.same i o

      gone : slab_find_containing (a + alloc_header) freed ≡ none
      gone =
          slab_find_containing-none (a + alloc_header) freed
            (λ e. no_slab page (sym (ap freed.word start) ∙ e))

      twice : kfree_buddy (a + alloc_header) freed ≡ freed
      twice = kfree_buddy-again page

one_page : block_size 0 ≡ 4096
unfolding block_size
one_page = refl

Stamped-GivesBack :
    (h h' : Heap) (size order a : ℕ)
    → IsHeap h
    → 4096 < block_size order
    → Stamped h size order a h'
    → GivesBack h (a + alloc_header) h'
Stamped-GivesBack h h' size zero a v large st = absurd (omega (arith, one_page, large))
Stamped-GivesBack h h' size (suc k) a v large st =
    let start = slab_start-Aligned k a (omega (arith, st.small)) st.pages.aligned in
    let outside =
      slab_find_containing-none (a + alloc_header) h'
        (λ e. magics (sym st.magic ∙ sym (ap h'.word start) ∙ e)) in
    let (q, e) = st.pages.aligned in
    let there = e ∙ ap (λ (z : ℕ). q * z) (double_page k (omega (arith, st.small))) in
    aligned_back h size (suc k) a h' v st outside (omega (arith, there)) start

from_result :
    (h h' : Heap) (size ptr : ℕ)
    → IsHeap h
    → 4076 < size
    → KmallocResult h size (some ptr, h')
    → GivesBack h ptr h'
from_result h h' size ptr v large (inl (z, _, _)) = absurd (omega (arith, z, large))
from_result h h' size ptr v large (inr (inl (_, _, small, _, _))) =
    absurd (omega (arith, small, large))
from_result h h' size ptr v large (inr (inr (_, _, _, _, inl (e, _, _)))) =
    absurd (some-ne-none ptr e)
from_result h h' size ptr v large (inr (inr (order, _, _, best, inr (a, e, st)))) =
    rw (some-injective ptr (a + alloc_header) e)
      (Stamped-GivesBack h h' size order a v (omega (arith, best.holds, large)) st)

-- In a well-formed heap, after kmalloc of more than 4076 bytes, and at most 2 ^ 63 - 20, has returned a
-- pointer, where neither `size + 20` nor one of the three numbers behind it is a multiple of 4096, kfree
-- of it leaves a well-formed heap in which the same bytes are free in the page allocator,
-- and the same objects in the slabs, as before; and freeing it again changes nothing.
pub kfree-kmalloc :
    (h h' : Heap) (size ptr : ℕ)
    → IsHeap h
    → 4076 < size
    → size ≤ 2 ^ 63 - 20
    → HasRoom size
    → kmalloc size h ≡ some (some ptr, h')
    → GivesBack h ptr h'
kfree-kmalloc h h' size ptr v large bound room got =
    let (result, e, r) = kmalloc-KmallocResult h size v bound room in
    from_result h h' size ptr v large (rw (some-injective result (some ptr, h') (sym e ∙ got)) at r)
