-- ===== src/Buddy/Free/Pages.antt =====
-- buddy_free_pages over all the arenas, and its round trip with buddy_alloc_pages.
use lun_os.Prelude.{
  ℕ, zero, suc, ◌+◌, ◌-◌, ◌≤◌, ◌<◌, ◌≡◌, refl, ◌⊎◌, inl, inr, List, [], ◌∷◌, All, arith, ap, none,
  some, true, false, ltb, lt→ltb,
}
use lun_os.Buddy.{Arena, Buddy}
use lun_os.Buddy.Cover.{hit, cover, block_size_bounds}
use lun_os.Buddy.Valid.{IsBlock, IsValid}
use lun_os.Buddy.Whole.{
  total, free_cover, ranges, range, IsValidBuddy, Held, Outside, free_cover-le,
}
use lun_os.Buddy.Alloc.{buddy_alloc_pages}
use lun_os.Buddy.Alloc.Pages.{buddy_alloc_pages-AllocPages}
use lun_os.Buddy.Free.{in_arena, coalesce, free_loop, buddy_free_pages}
use lun_os.Buddy.Free.Laws.{Coalesced, coalesce-Coalesced}

-- The freed block has become free, in its arena, and nothing else has changed.
pub record Freed (n : ℕ) (xs : List Arena) (order addr : ℕ) (xs' : List Arena) : Type 0 where
  pub arenas_ok : All IsValid xs'
  pub same_ranges : ranges xs' ≡ ranges xs
  pub exact : (p : ℕ) → total n xs' p ≡ total n xs p + hit order addr p

module _ (order addr : ℕ) (small : order ≤ 20) where
  abbrev freed_arena : Arena → Arena
  freed_arena a = record a {
    free_list = coalesce (a.max_arena_order - order) order addr a.free_list;
  }

  pub in_arena-block :
      (a : Arena) → IsValid a → IsBlock a.base (a.base + a.len) order addr → in_arena a addr ≡ true
  unfolding in_arena
  in_arena-block a v b = ground (arith, b.above, b.below, v.end_lt, block_size_bounds order small)

  pub in_arena-Outside : (a : Arena) → IsValid a → Outside (range a) addr → in_arena a addr ≡ false
  unfolding in_arena
  in_arena-Outside a v out = ground (arith, v.end_lt)

  rounds : (a : Arena) → IsValid a → order + (a.max_arena_order - order) ≤ 20
  rounds a v = omega (arith, v.max_le)

  freed_here :
      (a : Arena)
      → IsValid a
      → IsBlock a.base (a.base + a.len) order addr
      → Coalesced a.base (a.base + a.len) order addr a.free_list (freed_arena a).free_list
  freed_here a v b =
      coalesce-Coalesced a.base (a.base + a.len) (a.max_arena_order - order) order addr a.free_list
        (rounds a v) b v.blocks

  free_loop-Freed :
      (n : ℕ) (xs : List Arena)
      → All IsValid xs
      → Held n (ranges xs) order addr
      → ((p : ℕ) → total n xs p + hit order addr p ≤ 1)
      → (xs' : List Arena) × (free_loop n xs addr order ≡ some xs') × Freed n xs order addr xs'
  unfolding free_loop total cover
  free_loop-Freed zero xs ok held once = absurd held
  free_loop-Freed (suc n) [] ok held once = absurd held
  free_loop-Freed (suc n) (a ∷ xs) ok (inl b) once =
      let c = freed_here a ok.0 b in
      (
        freed_arena a ∷ xs,
        rw (in_arena-block a ok.0 b),
        record {
          arenas_ok = (
            record {
              max_le = ok.0.max_le;
              end_lt = ok.0.end_lt;
              blocks = c.ok;
              disjoint = λ p. omega (arith, c.exact p, once p);
            },
            ok.1,
          );
          same_ranges = refl;
          exact = λ p. omega (arith, c.exact p);
        },
      )
  free_loop-Freed (suc n) (a ∷ xs) ok (inr (out, held)) once =
      let (xs', e, f) = free_loop-Freed n xs ok.1 held (λ p. omega (arith, once p)) in
      (
        a ∷ xs',
        rw (in_arena-Outside a ok.0 out, e),
        record {
          arenas_ok = (ok.0, f.arenas_ok);
          same_ranges = ap (λ rs. range a ∷ rs) f.same_ranges;
          exact = λ p. omega (arith, f.exact p);
        },
      )

-- The state after a block has been given back.
pub record FreedPages (s : Buddy) (order addr : ℕ) (s' : Buddy) : Type 0 where
  pub valid : IsValidBuddy s'
  pub same_ranges : ranges s'.arenas ≡ ranges s.arenas
  pub same_counter : s'.counter ≡ s.counter
  pub exact : (p : ℕ) → free_cover s' p ≡ free_cover s p + hit order addr p

-- In a well-formed allocator buddy_free_pages, of an aligned block of an order up to
-- MAX_SUPPORTED_ORDER that lies in an arena in use and of which no byte is free, leaves a
-- well-formed allocator over the same arenas, in which exactly the bytes that were free before and
-- those of the block are free, however many buddies are merged.
pub buddy_free_pages-FreedPages :
    (s : Buddy) (addr order : ℕ)
    → IsValidBuddy s
    → order ≤ 20
    → Held s.counter (ranges s.arenas) order addr
    → ((p : ℕ) → free_cover s p + hit order addr p ≤ 1)
    → FreedPages s order addr (buddy_free_pages s addr order)
unfolding buddy_free_pages free_cover
buddy_free_pages-FreedPages s addr order v small held once =
    let in_range : ltb 20 order ≡ false = ground arith in
    let (xs', e, f) = free_loop-Freed order addr small s.counter s.arenas v.arenas_ok held once in
    rw (in_range, e)
      (record {
        valid = record { arenas_ok = f.arenas_ok; separate = rw f.same_ranges v.separate };
        same_ranges = f.same_ranges;
        same_counter = refl;
        exact = f.exact;
      })

-- An order above MAX_SUPPORTED_ORDER, and an address in no arena in use, leave the state alone.
free_loop-none :
    (n : ℕ) (xs : List Arena) (addr order : ℕ)
    → All (λ a. in_arena a addr ≡ false) xs
    → free_loop n xs addr order ≡ none
unfolding free_loop
free_loop-none zero xs addr order out = refl
free_loop-none (suc n) [] addr order out = refl
free_loop-none (suc n) (a ∷ xs) addr order out = rw (out.0, free_loop-none n xs addr order out.1)

-- buddy_free_pages leaves the state as it is when the order is above MAX_SUPPORTED_ORDER, and when
-- no arena has the address in its range.
pub buddy_free_pages-refused :
    (s : Buddy) (addr order : ℕ)
    → (20 < order) ⊎ All (λ a. in_arena a addr ≡ false) s.arenas
    → buddy_free_pages s addr order ≡ s
unfolding buddy_free_pages
buddy_free_pages-refused s addr order (inl h) = rw (lt→ltb 20 order h)
buddy_free_pages-refused s addr order (inr out) =
    rw (free_loop-none s.counter s.arenas addr order out) (ground arith)

-- Giving back at once what buddy_alloc_pages returned, in a well-formed allocator and at an order
-- up to MAX_SUPPORTED_ORDER, leaves a well-formed allocator over the same arenas in which the same
-- bytes are free as before the allocation.
pub buddy_free_pages-buddy_alloc_pages :
    (s : Buddy) (order : ℕ)
    → IsValidBuddy s
    → order ≤ 20
    → 0 < (buddy_alloc_pages s order).0
    → IsValidBuddy
        (buddy_free_pages (buddy_alloc_pages s order).1 (buddy_alloc_pages s order).0 order)
      × ((p : ℕ)
          → free_cover
              (buddy_free_pages (buddy_alloc_pages s order).1 (buddy_alloc_pages s order).0 order)
              p
            ≡ free_cover s p)
buddy_free_pages-buddy_alloc_pages s order v small got =
    elim (buddy_alloc_pages-AllocPages s order v small) [
      | inl (failed, same, none_left) ↦ absurd (omega arith)
      | inr d ↦
          let f =
            buddy_free_pages-FreedPages (buddy_alloc_pages s order).1 (buddy_alloc_pages s order).0
              order d.valid small (rw (d.same_counter, d.same_ranges) d.held)
              (λ p. omega (arith, d.exact p, free_cover-le s p v)) in
          (f.valid, λ p. omega (arith, f.exact p, d.exact p))
    ]
