-- ===== src/Buddy/Alloc/Laws.antt =====
-- What buddy_alloc_pages hands out, and what it leaves free.
use lun_os.Prelude.{
  ℕ, zero, suc, ◌+◌, ◌-◌, ◌*◌, ◌^◌, ◌≤◌, ◌<◌, ◌≡◌, ◌≢◌, refl, ap, List, [], ◌∷◌, arith, Option,
  none, some, add64, Option-cases, inl, inr, List-cases, dec_lt,
}
use lun_os.Buddy.{FreeBlock, FreeLists, Arena, block_size, set_list, link_block}
use lun_os.Buddy.Cover.{
  cover, hit, hits, hits_below, hit_halves, hits_below-link, hits_below-set, block_size-suc,
}
use lun_os.Buddy.Valid.{IsBlock, AreBlocks, IsValid, set_list-AreBlocks, link_block-AreBlocks}
use lun_os.Buddy.Alloc.{find_order, split, take_and_split, alloc_in_arena}

-- The two halves of a block are blocks.
left_half : (lo hi k addr : ℕ) → suc k ≤ 20 → IsBlock lo hi (suc k) addr → IsBlock lo hi k addr
left_half lo hi k addr h b = record {
  positive = b.positive;
  above = b.above;
  below = omega (arith, b.below, block_size-suc k h);
  aligned = (
    2 * b.aligned.0,
    omega (arith, b.aligned.1, ap (λ (t : ℕ). b.aligned.0 * t) (block_size-suc k h)),
  );
}

right_half :
    (lo hi k addr : ℕ)
    → suc k ≤ 20
    → IsBlock lo hi (suc k) addr
    → IsBlock lo hi k (addr + block_size k)
right_half lo hi k addr h b = record {
  positive = omega (arith, b.positive);
  above = omega (arith, b.above);
  below = omega (arith, b.below, block_size-suc k h);
  aligned = (
    2 * b.aligned.0 + 1,
    omega (arith, b.aligned.1, ap (λ (t : ℕ). b.aligned.0 * t) (block_size-suc k h)),
  );
}

module _ (lo hi order : ℕ) (small : hi < 2 ^ 64) where
  -- The address arithmetic of a split does not wrap.
  no_wrap :
      (k addr : ℕ)
      → suc k ≤ 20
      → IsBlock lo hi (suc k) addr
      → add64 addr (block_size k) ≡ addr + block_size k
  no_wrap k addr h b = omega (arith, b.below, block_size-suc k h)

  next : (n addr : ℕ) → IsBlock lo hi (order + suc n) addr → IsBlock lo hi (suc (order + n)) addr
  next n addr b = let e : order + suc n ≡ suc (order + n) = omega arith in rw e at b

  -- Splitting keeps every byte: the returned block and the halves on the lists are the old block.
  split-hits :
      (n addr : ℕ) (fl : FreeLists) (p : ℕ)
      → order + n ≤ 20
      → IsBlock lo hi (order + n) addr
      → hits_below 21 (split n order addr fl) p + hit order addr p
        ≡ hits_below 21 fl p + hit (order + n) addr p
  unfolding split
  split-hits zero addr fl p h b = let e : order + 0 ≡ order = omega arith in rw e
  split-hits (suc n) addr fl p h b =
      let e : order + suc n ≡ suc (order + n) = omega arith in
      let b' : IsBlock lo hi (suc (order + n)) addr = next n addr b in
      rw (e, no_wrap (order + n) addr (omega arith) b')
        (omega (
          arith,
          split-hits n addr (link_block fl (order + n) (addr + block_size (order + n))) p
              (omega arith) (left_half lo hi (order + n) addr (omega arith) b'),
          hits_below-link 21 (order + n) fl (addr + block_size (order + n)) p (omega arith),
          hit_halves (order + n) addr p (omega arith),
        ))

  split-AreBlocks :
      (n addr : ℕ) (fl : FreeLists)
      → order + n ≤ 20
      → IsBlock lo hi (order + n) addr
      → AreBlocks lo hi fl
      → AreBlocks lo hi (split n order addr fl) × IsBlock lo hi order addr
  unfolding split
  split-AreBlocks zero addr fl h b ok = let e : order + 0 ≡ order = omega arith in (ok, rw e at b)
  split-AreBlocks (suc n) addr fl h b ok =
      let b' : IsBlock lo hi (suc (order + n)) addr = next n addr b in
      rw (no_wrap (order + n) addr (omega arith) b') (
        split-AreBlocks n addr (link_block fl (order + n) (addr + block_size (order + n)))
          (omega arith) (left_half lo hi (order + n) addr (omega arith) b')
          (link_block-AreBlocks lo hi fl (order + n) (addr + block_size (order + n)) (omega arith)
            ok (right_half lo hi (order + n) addr (omega arith) b')))

-- What a successful allocation in an arena means.
pub record Allocated (a : Arena) (order addr : ℕ) (a' : Arena) : Type 0 where
  pub valid : IsValid a'
  pub block : IsBlock a.base (a.base + a.len) order addr
  pub exact : (p : ℕ) → cover a' p + hit order addr p ≡ cover a p
  pub same_base : a'.base ≡ a.base
  pub same_len : a'.len ≡ a.len

find_order-some :
    (n j : ℕ) (fl : FreeLists) (k : ℕ) → find_order n j fl ≡ some k → (j ≤ k) × (k < j + n)
unfolding find_order
find_order-some zero j fl k e = cc
find_order-some (suc n) j fl k e = elim (List-cases (fl j)) [
  | inl q ↦ omega (arith, find_order-some n (j + 1) fl k (rw (q, find_order) at e))
  | inr (x, r, q) ↦ ground arith
]

find_order-ne_nil : (n j : ℕ) (fl : FreeLists) (k : ℕ) → find_order n j fl ≡ some k → fl k ≢ []
unfolding find_order
find_order-ne_nil zero j fl k e empty = cc
find_order-ne_nil (suc n) j fl k e empty = elim (List-cases (fl j)) [
  | inl q ↦ find_order-ne_nil n (j + 1) fl k (rw (q, find_order) at e) empty
  | inr (x, r, q) ↦ let same : some j ≡ some k = rw (q, find_order) at e in ground arith
]

find_order-none :
    (n j : ℕ) (fl : FreeLists) → find_order n j fl ≡ none → (k : ℕ) → j ≤ k → k < j + n → fl k ≡ []
unfolding find_order
find_order-none zero j fl e k lo hi = absurd (omega arith)
find_order-none (suc n) j fl e k lo hi = elim (List-cases (fl j)) [
  | inl q ↦ elim (dec_lt j k) [
    | yes later ↦
        find_order-none n (j + 1) fl (rw (q, find_order) at e) k (omega arith) (omega arith)
    | no same ↦ let here : k ≡ j = omega arith in rw here q
  ]
  | inr (x, r, q) ↦ let f : some j ≡ none = rw (q, find_order) at e in absurd (cc)
]

module _ (a : Arena) (v : IsValid a) where
  abbrev with_lists : FreeLists → Arena
  with_lists fl = record a { free_list = fl }

  -- The lists after an allocation, seen from the block that was unlinked from list `j`.
  allocated :
      (order addr : ℕ) (fl : FreeLists)
      → AreBlocks a.base (a.base + a.len) fl
      → IsBlock a.base (a.base + a.len) order addr
      → ((p : ℕ) → hits_below 21 fl p + hit order addr p ≡ hits_below 21 a.free_list p)
      → Allocated a order addr (with_lists fl)
  unfolding cover
  allocated order addr fl ok b e = record {
    valid = record {
      max_le = v.max_le;
      end_lt = v.end_lt;
      blocks = ok;
      disjoint = λ p. omega (arith, e p, v.disjoint p);
    };
    block = b;
    exact = e;
    same_base = refl;
    same_len = refl;
  }

  unlink-hits :
      (j : ℕ) (b : FreeBlock) (bs : List FreeBlock) (p : ℕ)
      → j ≤ 20
      → a.free_list j ≡ b ∷ bs
      → hits_below 21 (set_list a.free_list j bs) p + hit j b.phys_addr p
        ≡ hits_below 21 a.free_list p
  unfolding hits
  unlink-hits j b bs p h e =
      let f : hits_below 21 (set_list a.free_list j bs) p + hits j (a.free_list j) p
          ≡ hits_below 21 a.free_list p + hits j bs p =
        hits_below-set 21 j a.free_list bs p (omega arith) in
      omega (arith, rw e at f)

  unlink-blocks :
      (j : ℕ) (b : FreeBlock) (bs : List FreeBlock)
      → j ≤ 20
      → a.free_list j ≡ b ∷ bs
      → AreBlocks a.base (a.base + a.len) (set_list a.free_list j bs)
        × IsBlock a.base (a.base + a.len) j b.phys_addr
  unlink-blocks j b bs h e =
      let (first, rest) = rw e at (v.blocks j h) in
      (set_list-AreBlocks a.base (a.base + a.len) a.free_list j bs v.blocks rest, first.0)

  -- The first branch: the list of the order itself has a block.
  alloc_head :
      (order : ℕ) (b : FreeBlock) (bs : List FreeBlock)
      → order ≤ 20
      → a.free_list order ≡ b ∷ bs
      → Allocated a order b.phys_addr (with_lists (set_list a.free_list order bs))
  alloc_head order b bs h e =
      let (ok, first) = unlink-blocks order b bs h e in
      allocated order b.phys_addr (set_list a.free_list order bs) ok first
        (λ p. unlink-hits order b bs p h e)

  -- The second: a block of list `j` is split.
  alloc_split :
      (order j : ℕ) (b : FreeBlock) (bs : List FreeBlock)
      → order ≤ j
      → j ≤ 20
      → a.free_list j ≡ b ∷ bs
      → Allocated a order b.phys_addr
          (with_lists (split (j - order) order b.phys_addr (set_list a.free_list j bs)))
  alloc_split order j b bs le h e =
      allocated order b.phys_addr (split (j - order) order b.phys_addr fl) done.0 done.1 (λ p.
        omega (
          arith,
          split-hits a.base (a.base + a.len) order v.end_lt (j - order) b.phys_addr fl p
              (omega arith) whole,
          unlink-hits j b bs p h e,
          ap (λ (t : ℕ). hit t b.phys_addr p) at_j,
        ))
    where
      fl : FreeLists
      fl = set_list a.free_list j bs

      at_j : order + (j - order) ≡ j
      at_j = omega arith

      unlinked :
          AreBlocks a.base (a.base + a.len) fl × IsBlock a.base (a.base + a.len) j b.phys_addr
      unlinked = unlink-blocks j b bs h e

      whole : IsBlock a.base (a.base + a.len) (order + (j - order)) b.phys_addr
      whole = rw at_j unlinked.1

      done :
          AreBlocks a.base (a.base + a.len) (split (j - order) order b.phys_addr fl)
          × IsBlock a.base (a.base + a.len) order b.phys_addr
      done =
          split-AreBlocks a.base (a.base + a.len) order v.end_lt (j - order) b.phys_addr fl
            (omega arith) whole unlinked.0

-- Both results of alloc_in_arena: a block, or no block of this order or a higher one in the arena.
abbrev pub AllocResult : Arena → ℕ → Option (ℕ × Arena) → Type 0
AllocResult a order none = (k : ℕ) → order ≤ k → k ≤ a.max_arena_order → a.free_list k ≡ []
AllocResult a order (some (addr, a')) = Allocated a order addr a'

module _ (a : Arena) (order : ℕ) where
  alloc_here :
      (b : FreeBlock) (bs : List FreeBlock)
      → a.free_list order ≡ b ∷ bs
      → alloc_in_arena a order
        ≡ some (b.phys_addr, record a { free_list = set_list a.free_list order bs })
  unfolding alloc_in_arena
  alloc_here b bs e = rw (e, alloc_in_arena)

  alloc_nowhere :
      a.free_list order ≡ []
      → find_order (a.max_arena_order - order) (order + 1) a.free_list ≡ none
      → alloc_in_arena a order ≡ none
  unfolding alloc_in_arena
  alloc_nowhere e q = rw (e, alloc_in_arena, q)

  alloc_above :
      (j : ℕ) (b : FreeBlock) (bs : List FreeBlock)
      → a.free_list order ≡ []
      → find_order (a.max_arena_order - order) (order + 1) a.free_list ≡ some j
      → a.free_list j ≡ b ∷ bs
      → alloc_in_arena a order
        ≡ some (
          b.phys_addr,
          record a { free_list = split (j - order) order b.phys_addr (set_list a.free_list j bs) },
        )
  unfolding alloc_in_arena take_and_split
  alloc_above j b bs e q f = rw (e, alloc_in_arena, q, f, take_and_split)

  pub alloc_in_arena-AllocResult :
      IsValid a → order ≤ 20 → AllocResult a order (alloc_in_arena a order)
  alloc_in_arena-AllocResult v h = elim (List-cases (a.free_list order)) [
    | inr (b, bs, e) ↦ rw (alloc_here b bs e) (alloc_head a v order b bs h e)
    | inl e ↦ elim (Option-cases (find_order (a.max_arena_order - order) (order + 1) a.free_list)) [
      | inl q ↦ rw (alloc_nowhere e q) (λ k lo hi. elim (dec_lt order k) [
        | yes later ↦ find_order-none _ _ a.free_list q k (omega arith) (omega arith)
        | no here ↦ let same : k ≡ order = omega arith in rw same e
      ])
      | inr (j, q) ↦
          let (lo, hi) = find_order-some (a.max_arena_order - order) (order + 1) a.free_list j q in
          elim (List-cases (a.free_list j)) [
            | inl f ↦ absurd (find_order-ne_nil _ _ a.free_list j q f)
            | inr (b, bs, f) ↦
                rw (alloc_above j b bs e q f)
                  (alloc_split a v order j b bs (omega arith) (omega (arith, v.max_le)) f)
          ]
    ]
  ]
