-- ===== src/Buddy/Populate/Loop.antt =====
-- The loop of populate_buddy_blocks: the blocks that it puts into the lists.
use native.Mathlib.Nat.{div-add-mod'}
use lun_os.Prelude.{
  ℕ, zero, suc, ◌+◌, ◌-◌, ◌*◌, ◌/◌, ◌%◌, ◌^◌, ◌≤◌, ◌<◌, ◌≡◌, inl, inr, arith, ap, bit_and, some,
  true, false, Bool-cases, ltb, leb, ◌==◌, ◌&&◌, if◌then◌else◌, add64, ==_iff, dec_lt, ◌∙◌,
}
use lun_os.Prelude.Bits.{bit_and-mask}
use lun_os.Buddy.{FreeLists, block_size, link_block, best_order, populate_loop}
use lun_os.Buddy.Cover.{
  hit, hits_below, hits_below-link, block_size-pow, block_size_bounds, pow-twelve,
}
use lun_os.Buddy.Valid.{Aligned, IsBlock, AreBlocks, link_block-AreBlocks}

-- 1 if `lo ≤ p < hi`, else 0.
unfoldable pub window : ℕ → ℕ → ℕ → ℕ
window lo hi p = if leb lo p && ltb p hi then 1 else 0

-- What the search for an order finds.
record Fits (max addr remaining k : ℕ) : Type 0 where
  low : k ≤ max
  fits : block_size k ≤ remaining
  aligned : Aligned k addr

Aligned-of_mask :
    (k addr : ℕ) → k ≤ 20 → (bit_and addr (block_size k - 1) == 0) ≡ true → Aligned k addr
Aligned-of_mask k addr h e = (addr / 2 ^ (k + 12), exact)
  where
    none_left : addr % 2 ^ (k + 12) ≡ 0
    none_left =
        let f : bit_and addr (2 ^ (k + 12) - 1) ≡ 0 =
          rw (block_size-pow k h) at ((==_iff (bit_and addr (block_size k - 1)) 0).0 e) in
        omega (arith, f, bit_and-mask (k + 12) addr)

    exact : addr ≡ addr / 2 ^ (k + 12) * block_size k
    exact = rw (block_size-pow k h) (omega (arith, none_left, div-add-mod' addr (2 ^ (k + 12))))

best_order-Fits :
    (m addr remaining : ℕ)
    → m ≤ 20
    → addr % 4096 ≡ 0
    → 4096 ≤ remaining
    → (k : ℕ) × (best_order m addr remaining ≡ some k) × Fits m addr remaining k
unfolding best_order
best_order-Fits zero addr remaining h page room =
    let masked : (bit_and addr (block_size 0 - 1) == 0) ≡ true =
      ground (arith, bit_and-mask 12 addr) in
    (
      0,
      ground (arith, bit_and-mask 12 addr),
      record { low = omega arith; fits = room; aligned = Aligned-of_mask 0 addr h masked },
    )
best_order-Fits (suc m) addr remaining h page room =
    let test = leb (block_size (suc m)) remaining && (bit_and addr (block_size (suc m) - 1) == 0) in
    elim (Bool-cases test) [
      | inl hit_it ↦ (
        suc m,
        rw hit_it,
        record {
          low = omega arith;
          fits = ground arith;
          aligned = Aligned-of_mask (suc m) addr h (ground arith);
        },
      )
      | inr miss ↦
          let (k, e, f) = best_order-Fits m addr remaining (omega arith) page room in
          (k, rw miss e, record { low = omega (arith, f.low); fits = f.fits; aligned = f.aligned })
    ]

-- A multiple of a block size is a multiple of a page.
Aligned-page : (k addr : ℕ) → k ≤ 20 → Aligned k addr → addr % 4096 ≡ 0
Aligned-page k addr h (q, e) =
    omega (arith, e, ap (λ (t : ℕ). q * t) (block_size-pow k h ∙ pow-twelve k))

window_empty : (lo hi p : ℕ) → hi ≤ lo → window lo hi p ≡ 0
unfolding window
window_empty lo hi p h = ground arith

window_split :
    (k lo hi p : ℕ)
    → lo + block_size k ≤ hi
    → hit k lo p + window (lo + block_size k) hi p ≡ window lo hi p
unfolding window hit
window_split k lo hi p h = ground arith

-- The lists after the loop from `cur` on: the bytes of the whole pages up to `end` have been added.
pub record Filled (lo end cur : ℕ) (fl fl' : FreeLists) : Type 0 where
  pub blocks : AreBlocks lo end fl'
  pub exact : (p : ℕ) → hits_below 21 fl' p ≡ hits_below 21 fl p + window cur (end - end % 4096) p

module _ (lo end max : ℕ) (max_le : max ≤ 20) (end_lt : end < 2 ^ 64) (lo_pos : 0 < lo) where
  pub populate_loop-Filled :
      (fuel : ℕ) (fl : FreeLists) (cur : ℕ)
      → (end - cur) / 4096 < fuel
      → lo ≤ cur
      → cur % 4096 ≡ 0
      → AreBlocks lo end fl
      → (fl' : FreeLists) × (populate_loop fuel max fl cur end ≡ some fl')
        × Filled lo end cur fl fl'
  unfolding populate_loop
  populate_loop-Filled zero fl cur enough from page ok = absurd (omega arith)
  populate_loop-Filled (suc fuel) fl cur enough from page ok = elim (dec_lt (end - cur) 4096) [
    | yes short ↦ (
      fl,
      ground arith,
      record {
        blocks = ok;
        exact = λ p. omega (arith, window_empty cur (end - end % 4096) p (omega arith));
      },
    )
    | no more ↦
        let (k, e, f) = best_order-Fits max cur (end - cur) max_le page (omega arith) in
        let k_le : k ≤ 20 = omega (arith, f.low) in
        let (big, _) = block_size_bounds k k_le in
        let next_page : (cur + block_size k) % 4096 ≡ 0 =
          omega (arith, page, Aligned-page k (block_size k) k_le (1, omega arith)) in
        let b : IsBlock lo end k cur = record {
          positive = omega arith;
          above = from;
          below = omega (arith, f.fits);
          aligned = f.aligned;
        } in
        let (fl', e', g) =
          populate_loop-Filled fuel (link_block fl k cur) (cur + block_size k)
            (omega (arith, f.fits)) (omega arith) next_page
            (link_block-AreBlocks lo end fl k cur k_le ok b) in
        let sum : add64 cur (block_size k) ≡ cur + block_size k = omega (arith, f.fits) in
        let inside : ltb cur end ≡ true = ground arith in
        let enough_left : ltb (end - cur) 4096 ≡ false = ground arith in
        (
          fl',
          rw (inside, enough_left, e, sum) e',
          record {
            blocks = g.blocks;
            exact = λ p. omega (
              arith,
              g.exact p,
              hits_below-link 21 k fl cur p (omega arith),
              window_split k cur (end - end % 4096) p (omega (arith, f.fits)),
            );
          },
        )
  ]
