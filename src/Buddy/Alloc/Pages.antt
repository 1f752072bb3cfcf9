-- ===== src/Buddy/Alloc/Pages.antt =====
-- buddy_alloc_pages over all the arenas: every result is described.
use lun_os.Prelude.{
  ℕ, zero, suc, ◌+◌, ◌≤◌, ◌<◌, ◌≡◌, refl, ◌⊎◌, inl, inr, List, [], ◌∷◌, All, arith, ap,
  Option-cases, false, ltb, lt→ltb,
}
use lun_os.Buddy.{Arena, Buddy}
use lun_os.Buddy.Cover.{hit}
use lun_os.Buddy.Valid.{IsValid, Aligned}
use lun_os.Buddy.Whole.{
  total, free_cover, ranges, range, Apart, Separate, IsValidBuddy, Held, Held-Outside,
  free_cover-le,
}
use lun_os.Buddy.Alloc.{alloc_in_arena, alloc_loop, buddy_alloc_pages}
use lun_os.Buddy.Alloc.Laws.{Allocated, alloc_in_arena-AllocResult}

-- The first `n` arenas hold no free block of the order, nor of one above it.
abbrev pub Exhausted : ℕ → List Arena → ℕ → Type 0
Exhausted zero xs order = Unit
Exhausted (suc n) [] order = Unit
Exhausted (suc n) (a ∷ xs) order =
    ((k : ℕ) → order ≤ k → k ≤ a.max_arena_order → a.free_list k ≡ []) × Exhausted n xs order

-- A block was taken: it lies in an arena, its bytes were free, and no other byte changed.
pub record Served (n : ℕ) (xs : List Arena) (order addr : ℕ) (xs' : List Arena) : Type 0 where
  pub positive : 0 < addr
  pub aligned : Aligned order addr
  pub held : Held n (ranges xs) order addr
  pub arenas_ok : All IsValid xs'
  pub same_ranges : ranges xs' ≡ ranges xs
  pub exact : (p : ℕ) → total n xs' p + hit order addr p ≡ total n xs p

abbrev pub AllocLoop : ℕ → List Arena → ℕ → ℕ × List Arena → Type 0
AllocLoop n xs order (addr, xs') =
    ((addr ≡ 0) × (xs' ≡ xs) × Exhausted n xs order) ⊎ Served n xs order addr xs'

module _ (order : ℕ) (small : order ≤ 20) where
  Served-first :
      (n addr : ℕ) (a a' : Arena) (xs : List Arena)
      → All IsValid xs
      → Allocated a order addr a'
      → Served (suc n) (a ∷ xs) order addr (a' ∷ xs)
  unfolding total
  Served-first n addr a a' xs ok d = record {
    positive = d.block.positive;
    aligned = d.block.aligned;
    held = inl d.block;
    arenas_ok = (d.valid, ok);
    same_ranges = cc (d.same_base, d.same_len);
    exact = λ p. omega (arith, d.exact p);
  }

  Served-later :
      (n addr : ℕ) (a : Arena) (xs xs' : List Arena)
      → IsValid a
      → All (Apart (range a)) (ranges xs)
      → Served n xs order addr xs'
      → Served (suc n) (a ∷ xs) order addr (a ∷ xs')
  unfolding total
  Served-later n addr a xs xs' ok apart d = record {
    positive = d.positive;
    aligned = d.aligned;
    held = inr (Held-Outside n (range a) (ranges xs) order addr small apart d.held, d.held);
    arenas_ok = (ok, d.arenas_ok);
    same_ranges = ap (λ rs. range a ∷ rs) d.same_ranges;
    exact = λ p. omega (arith, d.exact p);
  }

  alloc_loop-AllocLoop :
      (n : ℕ) (xs : List Arena)
      → All IsValid xs
      → Separate (ranges xs)
      → AllocLoop n xs order (alloc_loop n xs order)
  unfolding alloc_loop
  alloc_loop-AllocLoop zero xs ok apart = inl (refl, refl, tt)
  alloc_loop-AllocLoop (suc n) [] ok apart = inl (refl, refl, tt)
  alloc_loop-AllocLoop (suc n) (a ∷ xs) ok apart =
      let here = alloc_in_arena-AllocResult a order ok.0 small in
      elim (Option-cases (alloc_in_arena a order)) [
        | inr ((addr, a'), e) ↦
            rw (e, alloc_loop) (inr (Served-first n addr a a' xs ok.1 (rw e at here)))
        | inl e ↦ elim (alloc_loop-AllocLoop n xs ok.1 apart.1) [
          | inl (failed, same, none_left) ↦
              rw (e, alloc_loop) (inl (failed, ap (λ ys. a ∷ ys) same, (rw e at here, none_left)))
          | inr d ↦ rw (e, alloc_loop) (inr (Served-later n _ a xs _ ok.0 apart.0 d))
        ]
      ]

-- The same of the allocator's state.
pub record AllocatedPages (s : Buddy) (order addr : ℕ) (s' : Buddy) : Type 0 where
  pub positive : 0 < addr
  pub aligned : Aligned order addr
  pub held : Held s.counter (ranges s.arenas) order addr
  pub valid : IsValidBuddy s'
  pub same_ranges : ranges s'.arenas ≡ ranges s.arenas
  pub same_counter : s'.counter ≡ s.counter
  pub exact : (p : ℕ) → free_cover s' p + hit order addr p ≡ free_cover s p

abbrev pub AllocPages : Buddy → ℕ → ℕ × Buddy → Type 0
AllocPages s order (addr, s') =
    ((addr ≡ 0) × (s' ≡ s) × Exhausted s.counter s.arenas order) ⊎ AllocatedPages s order addr s'

-- In a well-formed allocator buddy_alloc_pages, at an order up to MAX_SUPPORTED_ORDER, ends in one
-- of two ways. Either it returns 0, the state is unchanged, and no arena in use has a free block of
-- the order or of a higher one up to its maximum. Or it returns the address of a block that is
-- aligned to its size and lies in an arena in use, the new state is well-formed over the same
-- arenas, and for each byte the count of free blocks that hold it falls by one inside the returned
-- block and stays the same outside it.
pub buddy_alloc_pages-AllocPages :
    (s : Buddy) (order : ℕ)
    → IsValidBuddy s
    → order ≤ 20
    → AllocPages s order (buddy_alloc_pages s order)
unfolding buddy_alloc_pages free_cover
buddy_alloc_pages-AllocPages s order v small =
    let in_range : ltb 20 order ≡ false = ground arith in
    rw in_range (elim (alloc_loop-AllocLoop order small s.counter s.arenas v.arenas_ok v.separate) [
      | inl (failed, same, none_left) ↦
          inl (failed, ap (λ xs. record s { arenas = xs }) same, none_left)
      | inr d ↦ inr (record {
        positive = d.positive;
        aligned = d.aligned;
        held = d.held;
        valid = record { arenas_ok = d.arenas_ok; separate = rw d.same_ranges v.separate };
        same_ranges = d.same_ranges;
        same_counter = refl;
        exact = d.exact;
      })
    ])

-- An order above MAX_SUPPORTED_ORDER is refused.
pub buddy_alloc_pages-too_large :
    (s : Buddy) (order : ℕ) → 20 < order → buddy_alloc_pages s order ≡ (0, s)
unfolding buddy_alloc_pages
buddy_alloc_pages-too_large s order h = rw (lt→ltb 20 order h)

-- Of two blocks that buddy_alloc_pages hands out one after the other, in a well-formed allocator
-- and at orders up to MAX_SUPPORTED_ORDER, no byte is in both.
pub buddy_alloc_pages_disjoint :
    (s : Buddy) (o₁ o₂ : ℕ)
    → IsValidBuddy s
    → o₁ ≤ 20
    → o₂ ≤ 20
    → 0 < (buddy_alloc_pages s o₁).0
    → 0 < (buddy_alloc_pages (buddy_alloc_pages s o₁).1 o₂).0
    → (p : ℕ)
    → hit o₁ (buddy_alloc_pages s o₁).0 p
        + hit o₂ (buddy_alloc_pages (buddy_alloc_pages s o₁).1 o₂).0 p
      ≤ 1
buddy_alloc_pages_disjoint s o₁ o₂ v h₁ h₂ got₁ got₂ p =
    elim (buddy_alloc_pages-AllocPages s o₁ v h₁) [
      | inl (failed, same, none_left) ↦ absurd (omega arith)
      | inr d₁ ↦ elim (buddy_alloc_pages-AllocPages (buddy_alloc_pages s o₁).1 o₂ d₁.valid h₂) [
        | inl (failed, same, none_left) ↦ absurd (omega arith)
        | inr d₂ ↦ omega (arith, d₁.exact p, d₂.exact p, free_cover-le s p v)
      ]
    ]
