-- ===== src/Buddy/Populate.antt =====
-- populate_buddy_blocks and add_buddy_arena: a new arena is exactly its whole pages, each once.
pub mod Loop
use native.Mathlib.Nat.{div-add-mod'}
use lun_os.Prelude.{
  ℕ, zero, suc, ◌+◌, ◌-◌, ◌*◌, ◌/◌, ◌%◌, ◌^◌, ◌≤◌, ◌<◌, ◌≡◌, refl, inl, inr, [], arith, ap, bit_and,
  some, true, false, Bool-cases, ltb, leb, ◌==◌, ◌&&◌, if◌then◌else◌, add64, ==_iff, dec_lt, ◌∙◌,
  ◌≢◌, leb→le, leb-false→lt, Status, success, failure, sub64, List, ◌∷◌, length, get_elem?,
}
use lun_os.Prelude.Bits.{bit_and-mask}
use lun_os.Prelude.Words.{page_align_up, page_align_up_bounds}
use lun_os.Buddy.{
  FreeLists, Arena, Buddy, block_size, link_block, best_order, populate_loop, populate_buddy_blocks,
  max_order_loop, make_arena, add_buddy_arena, set_arena,
}
use lun_os.Buddy.Cover.{
  hit, cover, hits_below, hits_below-link, hits_below-empty, block_size-pow, block_size_bounds,
  pow-twelve,
}
use lun_os.Buddy.Valid.{Aligned, IsBlock, AreBlocks, IsValid, link_block-AreBlocks}
use lun_os.Buddy.Populate.Loop.{window, Filled, populate_loop-Filled}

-- `while` of add_buddy_arena: the largest order whose block fits.
record Largest (len m : ℕ) : Type 0 where
  fits : block_size m ≤ len
  too_big : len < block_size (suc m)

max_order_loop-Largest :
    (fuel order len : ℕ)
    → 51 ≤ order + fuel
    → order ≤ 50
    → block_size order ≤ len
    → len < 2 ^ 63
    → (m : ℕ) × (max_order_loop fuel order len ≡ some m) × Largest len m
unfolding max_order_loop
max_order_loop-Largest zero order len enough low fits small = absurd (omega arith)
max_order_loop-Largest (suc fuel) order len enough low fits small =
    let e : order + 1 ≡ suc order = omega arith in
    elim (Bool-cases (leb (block_size (suc order)) len)) [
      | inl more ↦
          let below_top : order ≢ 50 =
            λ top. let g : leb (block_size 51) len ≡ true = rw top at more in ground arith in
          let (m, f, l) =
            max_order_loop-Largest fuel (suc order) len (omega arith) (omega arith)
              (leb→le _ _ more) small in
          (m, rw (e, more) f, l)
      | inr stop ↦ (order, rw (e, stop), record { fits = fits; too_big = leb-false→lt _ _ stop })
    ]

-- An arena built over `base .. base + len`: each byte of its whole pages is free exactly once.
pub record Built (base len : ℕ) (a : Arena) : Type 0 where
  pub valid : IsValid a
  pub same_base : a.base ≡ base
  pub same_len : a.len ≡ len
  pub exact : (p : ℕ) → cover a p ≡ window base (base + len - (base + len) % 4096) p

module _ (base len : ℕ) (pos : 0 < base) (page : base % 4096 ≡ 0) (fits : base + len < 2 ^ 63) where
  abbrev fresh : ℕ → FreeLists → Arena
  fresh max fl = record { base = base; len = len; max_arena_order = max; free_list = fl }

  filled_once : (lo hi p : ℕ) → window lo hi p ≤ 1
  unfolding window
  filled_once lo hi p = ground arith

  Filled-Built :
      (max : ℕ) (fl : FreeLists)
      → max ≤ 20
      → Filled base (base + len) base (λ _. []) fl
      → Built base len (fresh max fl)
  unfolding cover
  Filled-Built max fl max_le f =
      let e : (p : ℕ) → hits_below 21 fl p ≡ window base (base + len - (base + len) % 4096) p =
        λ p. omega (arith, f.exact p, hits_below-empty 21 p) in
      record {
        valid = record {
          max_le = max_le;
          end_lt = omega arith;
          blocks = f.blocks;
          disjoint = λ p. omega (arith, e p, filled_once base (base + len - (base + len) % 4096) p);
        };
        same_base = refl;
        same_len = refl;
        exact = e;
      }

  populate_from_base :
      (max : ℕ)
      → populate_buddy_blocks (fresh max (λ _. []))
        ≡ populate_loop (len / 4096 + 1) max (λ _. []) base (base + len)
  unfolding populate_buddy_blocks
  populate_from_base max = let sum : add64 base len ≡ base + len = omega arith in rw sum

  populated :
      (max : ℕ)
      → max ≤ 20
      → (fl : FreeLists) × (populate_buddy_blocks (fresh max (λ _. [])) ≡ some fl)
        × Built base len (fresh max fl)
  populated max max_le =
      let (fl, e, f) =
        populate_loop-Filled base (base + len) max max_le (omega arith) pos (len / 4096 + 1)
          (λ _. []) base (omega arith) (omega arith) page (λ k h. tt) in
      (fl, populate_from_base max ∙ e, Filled-Built max fl max_le f)

  abbrev clamp : ℕ → ℕ
  clamp m = if ltb 20 m then 20 else m

  make_arena_of :
      (m : ℕ) (fl : FreeLists)
      → max_order_loop 64 0 len ≡ some m
      → populate_buddy_blocks (fresh (clamp m) (λ _. [])) ≡ some fl
      → make_arena base len ≡ some (fresh (clamp m) fl)
  unfolding make_arena
  make_arena_of m fl e e' = rw (e, make_arena, e')

  -- Over at least a page, both loops end and the arena is built.
  pub make_arena-Built :
      4096 ≤ len → (a : Arena) × (make_arena base len ≡ some a) × Built base len a
  unfolding block_size
  make_arena-Built room =
      let (m, e, _) =
        max_order_loop-Largest 64 0 len (omega arith) (omega arith) room (omega arith) in
      let (fl, e', b) = populated (clamp m) (ground arith) in
      (fresh (clamp m) fl, make_arena_of m fl e e', b)

-- The table of `t` is that of `s` with the arena `a` at the index `idx`.
pub record PutAt (idx : ℕ) (a : Arena) (s t : Buddy) : Type 0 where
  pub there : get_elem? t.arenas idx ≡ some a
  pub others : (i : ℕ) → i ≢ idx → get_elem? t.arenas i ≡ get_elem? s.arenas i
  pub same_length : length t.arenas ≡ length s.arenas
  pub same_counter : t.counter ≡ s.counter

set_arena_there :
    (xs : List Arena) (i : ℕ) (a : Arena) → i < length xs → get_elem? (set_arena xs i a) i ≡ some a
unfolding set_arena
set_arena_there [] i a h = absurd (omega (arith, h))
set_arena_there (x ∷ xs) zero a h = refl
set_arena_there (x ∷ xs) (suc i) a h = set_arena_there xs i a (omega (arith, h))

set_arena_others :
    (xs : List Arena) (i j : ℕ) (a : Arena)
    → j ≢ i
    → get_elem? (set_arena xs i a) j ≡ get_elem? xs j
unfolding set_arena
set_arena_others [] i j a h = refl
set_arena_others (x ∷ xs) zero zero a h = absurd (h refl)
set_arena_others (x ∷ xs) zero (suc j) a h = refl
set_arena_others (x ∷ xs) (suc i) zero a h = refl
set_arena_others (x ∷ xs) (suc i) (suc j) a h = set_arena_others xs i j a (λ e. h (ap suc e))

length-set_arena : (xs : List Arena) (i : ℕ) (a : Arena) → length (set_arena xs i a) ≡ length xs
unfolding set_arena
length-set_arena [] i a = refl
length-set_arena (x ∷ xs) zero a = refl
length-set_arena (x ∷ xs) (suc i) a = ap suc (length-set_arena xs i a)

set_arena-PutAt :
    (s : Buddy) (idx : ℕ) (a : Arena)
    → idx < length s.arenas
    → PutAt idx a s (record s { arenas = set_arena s.arenas idx a })
set_arena-PutAt s idx a h = record {
  there = set_arena_there s.arenas idx a h;
  others = λ i ne. set_arena_others s.arenas idx i a ne;
  same_length = length-set_arena s.arenas idx a;
  same_counter = refl;
}

-- What add_buddy_arena does with the range `base .. base + len` at the index `idx`.
abbrev pub ArenaAdded : Buddy → ℕ → ℕ → ℕ → Status × Buddy → Type 0
ArenaAdded s idx base len (success, t) =
    (a : Arena) × PutAt idx a s t × Built (page_align_up base) (base + len - page_align_up base) a
ArenaAdded s idx base len (failure, t) = (t ≡ s) × (base + len < page_align_up base + 4096)

module _ (s : Buddy) (idx base len : ℕ) (lo : 0 < idx) (hi : idx < 32)
    (fits : base + len < 2 ^ 62) where
  too_short :
      base + len < page_align_up base + 4096 → add_buddy_arena s idx base len ≡ some (failure, s)
  unfolding add_buddy_arena
  too_short short =
      let in_table : leb 32 idx ≡ false = ground arith in
      let not_first : (idx == 0) ≡ false = ground arith in
      let bounds = page_align_up_bounds base (omega arith) in
      let sum : add64 base len ≡ base + len = omega arith in
      elim (dec_lt (page_align_up base) (base + len)) [
        | no none_left ↦
            let test : leb (base + len) (page_align_up base) ≡ true = ground arith in
            rw (in_table, not_first, sum, test)
        | yes some_left ↦
            let test : leb (base + len) (page_align_up base) ≡ false = ground arith in
            let test' : ltb (sub64 (base + len) (page_align_up base)) 4096 ≡ true = ground arith in
            rw (in_table, not_first, sum, test, test')
      ]

  long_enough :
      (a : Arena)
      → page_align_up base + 4096 ≤ base + len
      → make_arena (page_align_up base) (base + len - page_align_up base) ≡ some a
      → add_buddy_arena s idx base len
        ≡ some (success, record s { arenas = set_arena s.arenas idx a })
  unfolding add_buddy_arena
  long_enough a room e =
      let in_table : leb 32 idx ≡ false = ground arith in
      let not_first : (idx == 0) ≡ false = ground arith in
      let sum : add64 base len ≡ base + len = omega arith in
      let test : leb (base + len) (page_align_up base) ≡ false = ground arith in
      let left : sub64 (base + len) (page_align_up base) ≡ base + len - page_align_up base =
        omega arith in
      let test' : ltb (base + len - page_align_up base) 4096 ≡ false = ground arith in
      rw (in_table, not_first, sum, test, left, test', e)

-- In the table of MAX_BUDDY_ARENAS entries, for an index from 1 on and a range below 2 ^ 62 whose base is
-- not 0, add_buddy_arena ends. It fails just where no whole page is left above the rounded-up base, and
-- then it leaves the state alone. Otherwise the entry at the index becomes a well-formed arena from the
-- rounded-up base to the end of the range, of which a byte is free exactly once if it lies in a
-- whole page of the range, and not free otherwise; the other entries and the counter stay.
pub add_buddy_arena-ArenaAdded :
    (s : Buddy) (idx base len : ℕ)
    → length s.arenas ≡ 32
    → 0 < idx
    → idx < 32
    → 0 < base
    → base + len < 2 ^ 62
    → (r : Status × Buddy) × (add_buddy_arena s idx base len ≡ some r) × ArenaAdded s idx base len r
unfolding add_buddy_arena
add_buddy_arena-ArenaAdded s idx base len table lo hi pos fits =
    elim (dec_lt (base + len) (page_align_up base + 4096)) [
      | yes short ↦ ((failure, s), too_short s idx base len lo hi fits short, (refl, short))
      | no room ↦
          let (below, above, page) = page_align_up_bounds base (omega arith) in
          let (a, e, b) =
            make_arena-Built (page_align_up base) (base + len - page_align_up base) (omega arith)
              page (omega arith) (omega arith) in
          (
            (success, record s { arenas = set_arena s.arenas idx a }),
            long_enough s idx base len lo hi fits a (omega arith) e,
            (a, set_arena-PutAt s idx a (omega (arith, table, hi)), b),
          )
    ]
