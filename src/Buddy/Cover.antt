-- ===== src/Buddy/Cover.antt =====
-- Which free blocks hold a given byte: the bookkeeping behind the allocator's theorems.
use native.Mathlib.Nat.{pow-suc, pow-le-pow_right, one-le-pow, add-zero}
use lun_os.Prelude.{
  ℕ, zero, suc, ◌+◌, ◌*◌, ◌^◌, ◌≤◌, ◌<◌, ◌≡◌, refl, ap, List, [], ◌∷◌, arith, ltb, leb, ◌&&◌,
  if◌then◌else◌, dec_lt,
}
use lun_os.Buddy.{FreeBlock, FreeLists, Arena, block_size, set_list, link_block}

-- 1 if the block of order `k` at `addr` holds the byte `p`, else 0.
unfoldable pub hit : ℕ → ℕ → ℕ → ℕ
hit k addr p = if leb addr p && ltb p (addr + block_size k) then 1 else 0

-- How many blocks of a list of order `k` hold `p`.
unfoldable pub hits : ℕ → List FreeBlock → ℕ → ℕ
unfolding hit
hits k [] p = 0
hits k (b ∷ bs) p = hit k b.phys_addr p + hits k bs p

-- How many blocks of the first `n` lists hold `p`.
unfoldable pub hits_below : ℕ → FreeLists → ℕ → ℕ
unfolding hits
hits_below zero fl p = 0
hits_below (suc n) fl p = hits_below n fl p + hits n (fl n) p

-- How many free blocks of an arena hold `p`.
unfoldable pub cover : Arena → ℕ → ℕ
unfolding hits_below
cover a p = hits_below 21 a.free_list p

pow-add : (k n : ℕ) → 2 ^ (k + n) ≡ 2 ^ k * 2 ^ n
pow-add k zero = rw add-zero (omega arith)
pow-add k (suc n) =
    let e : k + suc n ≡ suc (k + n) = omega arith in
    rw e (omega (arith, pow-suc 2 (k + n), pow-add k n, ap (λ (t : ℕ). 2 ^ k * t) (pow-suc 2 n)))

pub pow-twelve : (k : ℕ) → 2 ^ (k + 12) ≡ 4096 * 2 ^ k
pow-twelve k = omega (arith, pow-add k 12)

-- A shift of at most 20 does not wrap.
pub block_size-pow : (k : ℕ) → k ≤ 20 → block_size k ≡ 2 ^ (k + 12)
unfolding block_size
block_size-pow k h = omega (arith, pow-twelve k, pow-le-pow_right {n = 2} (omega arith) h)

pub block_size-suc : (k : ℕ) → suc k ≤ 20 → block_size (suc k) ≡ block_size k + block_size k
block_size-suc k h = omega (
  arith,
  block_size-pow k (omega arith),
  block_size-pow (suc k) h,
  pow-twelve k,
  pow-twelve (suc k),
  pow-suc 2 k,
)

pub block_size_bounds : (k : ℕ) → k ≤ 20 → (4096 ≤ block_size k) × (block_size k ≤ 2 ^ 32)
block_size_bounds k h = omega (
  arith,
  block_size-pow k h,
  pow-twelve k,
  one-le-pow k 2 (omega arith),
  pow-le-pow_right {n = 2} (omega arith) h,
)

-- A block is its two halves.
pub hit_halves :
    (k addr p : ℕ) → suc k ≤ 20 → hit (suc k) addr p ≡ hit k addr p + hit k (addr + block_size k) p
unfolding hit
hit_halves k addr p h = ground (arith, block_size-suc k h)

hits_below-set_above :
    (n k : ℕ) (fl : FreeLists) (bs : List FreeBlock) (p : ℕ)
    → n ≤ k
    → hits_below n (set_list fl k bs) p ≡ hits_below n fl p
unfolding hits_below set_list
hits_below-set_above zero k fl bs p h = refl
hits_below-set_above (suc n) k fl bs p h =
    ground (arith, hits_below-set_above n k fl bs p (omega arith))

-- Replacing one list changes the count by the difference of the two lists.
pub hits_below-set :
    (n k : ℕ) (fl : FreeLists) (bs : List FreeBlock) (p : ℕ)
    → k < n
    → hits_below n (set_list fl k bs) p + hits k (fl k) p ≡ hits_below n fl p + hits k bs p
unfolding hits_below set_list
hits_below-set zero k fl bs p h = absurd (omega arith)
hits_below-set (suc n) k fl bs p h = elim (dec_lt k n) [
  | yes below ↦ ground (arith, hits_below-set n k fl bs p below)
  | no last ↦ last_list (omega arith)
]
  where
    last_list :
        k ≡ n
        → hits_below (suc n) (set_list fl k bs) p + hits k (fl k) p
          ≡ hits_below (suc n) fl p + hits k bs p
    last_list e = rw e (ground (arith, hits_below-set_above n n fl bs p))

pub hits_below-link :
    (n k : ℕ) (fl : FreeLists) (addr p : ℕ)
    → k < n
    → hits_below n (link_block fl k addr) p ≡ hits_below n fl p + hit k addr p
unfolding link_block hits_below
hits_below-link n k fl addr p h =
    omega (arith, hits_below-set n k fl (record { current_order = k; phys_addr = addr } ∷ fl k) p h)

pub hits_below-empty : (n p : ℕ) → hits_below n (λ _. []) p ≡ 0
unfolding hits_below
hits_below-empty zero p = refl
hits_below-empty (suc n) p = omega (arith, hits_below-empty n p)
