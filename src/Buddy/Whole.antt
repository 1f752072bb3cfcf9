-- ===== src/Buddy/Whole.antt =====
-- The allocator as a whole: all the arenas in use, and the bytes that are free in them.
use lun_os.Prelude.{
  ℕ, zero, suc, ◌+◌, ◌≤◌, ◌<◌, ◌≡◌, ◌⊎◌, inl, inr, List, [], ◌∷◌, All, refl, arith, dec_lt,
}
use lun_os.Buddy.{FreeBlock, FreeLists, Arena, Buddy}
use lun_os.Buddy.Cover.{hit, hits, hits_below, cover, block_size_bounds}
use lun_os.Buddy.Valid.{IsBlock, IsFreeBlock, AreBlocks, IsValid}

-- How many free blocks of the first `n` arenas hold the byte `p`.
unfoldable pub total : ℕ → List Arena → ℕ → ℕ
total zero xs p = 0
total (suc n) [] p = 0
total (suc n) (a ∷ xs) p = cover a p + total n xs p

-- How many free blocks of the allocator hold the byte `p`.
unfoldable pub free_cover : Buddy → ℕ → ℕ
unfolding total
free_cover s p = total s.counter s.arenas p

-- The address ranges of the arenas.
pub record Range : Type 0 where
  pub base : ℕ
  pub len : ℕ

abbrev pub range : Arena → Range
range a = record { base = a.base; len = a.len }

abbrev pub ranges : List Arena → List Range
ranges [] = []
ranges (a ∷ xs) = range a ∷ ranges xs

abbrev pub Apart : Range → Range → Type 0
Apart r s = (r.base + r.len ≤ s.base) ⊎ (s.base + s.len ≤ r.base)

abbrev pub Separate : List Range → Type 0
Separate [] = Unit
Separate (r ∷ rs) = All (Apart r) rs × Separate rs

-- Every arena is well-formed, no two overlap, and no byte is free twice.
pub record IsValidBuddy (s : Buddy) : Type 0 where
  pub arenas_ok : All IsValid s.arenas
  pub separate : Separate (ranges s.arenas)

-- The block of `order` at `addr` lies in one of the first `n` arenas, and in none before that one.
abbrev pub Outside : Range → ℕ → Type 0
Outside r addr = (addr < r.base) ⊎ (r.base + r.len ≤ addr)

abbrev pub Held : ℕ → List Range → ℕ → ℕ → Type 0
Held zero rs order addr = ⊥
Held (suc n) [] order addr = ⊥
Held (suc n) (r ∷ rs) order addr =
    IsBlock r.base (r.base + r.len) order addr ⊎ (Outside r addr × Held n rs order addr)

-- A block in an arena apart from `r` starts outside `r`.
pub Held-Outside :
    (n : ℕ) (r : Range) (rs : List Range) (order addr : ℕ)
    → order ≤ 20
    → All (Apart r) rs
    → Held n rs order addr
    → Outside r addr
Held-Outside zero r rs order addr small apart h = absurd h
Held-Outside (suc n) r [] order addr small apart h = absurd h
Held-Outside (suc n) r (s ∷ rs) order addr small apart (inl b) =
    ground (arith, block_size_bounds order small, apart.0)
Held-Outside (suc n) r (s ∷ rs) order addr small apart (inr (o, h)) =
    Held-Outside n r rs order addr small apart.1 h

hits-outside :
    (lo hi k p : ℕ) (bs : List FreeBlock)
    → (p < lo) ⊎ (hi ≤ p)
    → All (IsFreeBlock lo hi k) bs
    → hits k bs p ≡ 0
unfolding hits hit
hits-outside lo hi k p [] out ok = refl
hits-outside lo hi k p (b ∷ bs) out ok =
    ground (arith, hits-outside lo hi k p bs out ok.1, ok.0.0.above, ok.0.0.below)

hits_below-outside :
    (lo hi n p : ℕ) (fl : FreeLists)
    → n ≤ 21
    → (p < lo) ⊎ (hi ≤ p)
    → AreBlocks lo hi fl
    → hits_below n fl p ≡ 0
unfolding hits_below
hits_below-outside lo hi zero p fl h out ok = refl
hits_below-outside lo hi (suc n) p fl h out ok = omega (
  arith,
  hits_below-outside lo hi n p fl (omega arith) out ok,
  hits-outside lo hi n p (fl n) out (ok n (omega arith)),
)

-- A byte outside an arena's range is in none of its free blocks.
pub cover-Outside : (a : Arena) (p : ℕ) → IsValid a → Outside (range a) p → cover a p ≡ 0
unfolding cover
cover-Outside a p v out =
    hits_below-outside a.base (a.base + a.len) 21 p a.free_list (omega arith) out v.blocks

total-outside :
    (n p : ℕ) (r : Range) (xs : List Arena)
    → r.base ≤ p
    → p < r.base + r.len
    → All IsValid xs
    → All (Apart r) (ranges xs)
    → total n xs p ≡ 0
unfolding total
total-outside zero p r xs lo hi ok apart = refl
total-outside (suc n) p r [] lo hi ok apart = refl
total-outside (suc n) p r (a ∷ xs) lo hi ok apart = omega (
  arith,
  cover-Outside a p ok.0 (ground (arith, apart.0)),
  total-outside n p r xs lo hi ok.1 apart.1,
)

total-le : (n p : ℕ) (xs : List Arena) → All IsValid xs → Separate (ranges xs) → total n xs p ≤ 1
unfolding total
total-le zero p xs ok apart = omega arith
total-le (suc n) p [] ok apart = omega arith
total-le (suc n) p (a ∷ xs) ok apart = elim (dec_lt p a.base) [
  | yes low ↦ omega (arith, cover-Outside a p ok.0 (inl low), total-le n p xs ok.1 apart.1)
  | no high ↦ elim (dec_lt p (a.base + a.len)) [
    | yes inside ↦
        let low : a.base ≤ p = omega arith in
        omega (arith, ok.0.disjoint p, total-outside n p (range a) xs low inside ok.1 apart.0)
    | no beyond ↦
        let high_end : a.base + a.len ≤ p = omega arith in
        omega (arith, cover-Outside a p ok.0 (inr high_end), total-le n p xs ok.1 apart.1)
  ]
]

-- No byte is free twice.
pub free_cover-le : (s : Buddy) (p : ℕ) → IsValidBuddy s → free_cover s p ≤ 1
unfolding free_cover
free_cover-le s p v = total-le s.counter p s.arenas v.arenas_ok v.separate
