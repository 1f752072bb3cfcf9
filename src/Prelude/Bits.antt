-- ===== src/Prelude/Bits.antt =====
-- The bit operations of the machine words as arithmetic, at every width.
use Prim.Native.Nat.{
  ℕ, zero, suc, ◌+◌, ◌-◌, ◌*◌, ◌/◌, ◌%◌, ◌^◌, ◌≤◌, ◌<◌, min, max, bit_and, bit_or, bit_xor, digits,
  bitwise, bit_and-bitwise, bit_or-bitwise, bit_xor-bitwise, differ,
}
use mathlib.Core.Path.{◌≡◌, refl, sym, ap, ap₂, ◌∙◌}
use native.Mathlib.Nat.{
  le_refl, pow-suc, one-le-pow, mod-lt, div-add-mod', one-mul, pow-succ', div-div-eq-div-mul,
}
use native.Mathlib.Omega.{arith}

-- A native operation is a recursion on digits, with the first number as the count of rounds. More
-- rounds than that change nothing.
module _ (end : ℕ → ℕ) (op : ℕ → ℕ → ℕ) where
  one_more_round : (k x y : ℕ) → x ≤ k → digits end op (suc k) x y ≡ digits end op k x y
  one_more_round k zero y le = no_digits k y
    where
      no_digits : (k y : ℕ) → digits end op (suc k) zero y ≡ digits end op k zero y
      no_digits zero y = refl
      no_digits (suc k) y = refl
  one_more_round zero (suc x) y le = elim le [ ]
  one_more_round (suc k) (suc x) y le =
      ap (λ high. high * 2 + op (suc x % 2) (y % 2))
        (one_more_round k (suc x / 2) (y / 2) (omega arith))

  settled : (extra k x y : ℕ) → x + extra ≡ k → digits end op k x y ≡ bitwise end op x y
  settled zero k x y e = let same : k ≡ x = omega arith in rw same
  settled (suc extra) zero x y e = absurd (omega arith)
  settled (suc extra) (suc k) x y e =
      one_more_round k x y (omega arith) ∙ settled extra k x y (omega arith)

  low_digit :
      (x y : ℕ)
      → bitwise end op (suc x) y ≡ op (suc x % 2) (y % 2) + 2 * bitwise end op (suc x / 2) (y / 2)
  low_digit x y =
      let halved = settled (x - suc x / 2) x (suc x / 2) (y / 2) (omega arith) in
      omega (arith, halved)

-- Each operation, one digit at a time.
and_digit : (x y : ℕ) → bit_and x y ≡ min (x % 2) (y % 2) + 2 * bit_and (x / 2) (y / 2)
and_digit zero y = simp bit_and-bitwise (omega arith)
and_digit (suc x) y = simp bit_and-bitwise (low_digit (λ _. 0) min x y)

or_digit : (x y : ℕ) → bit_or x y ≡ max (x % 2) (y % 2) + 2 * bit_or (x / 2) (y / 2)
or_digit zero y = simp bit_or-bitwise (omega arith)
or_digit (suc x) y = simp bit_or-bitwise (low_digit (λ t. t) max x y)

differ_digits : (x y : ℕ) → x < 2 → y < 2 → differ x y ≡ (x + y) % 2
differ_digits zero y p q = omega arith
differ_digits (suc zero) zero p q = refl
differ_digits (suc zero) (suc zero) p q = refl
differ_digits (suc zero) (suc (suc y)) p q = absurd (omega arith)
differ_digits (suc (suc x)) y p q = absurd (omega arith)

xor-differ : (x y : ℕ) → bit_xor x y ≡ differ (x % 2) (y % 2) + 2 * bit_xor (x / 2) (y / 2)
xor-differ zero y = simp bit_xor-bitwise (ground arith)
xor-differ (suc x) y = simp bit_xor-bitwise (low_digit (λ t. t) differ x y)

xor_digit : (x y : ℕ) → bit_xor x y ≡ (x + y) % 2 + 2 * bit_xor (x / 2) (y / 2)
xor_digit x y =
    omega (arith, xor-differ x y, differ_digits (x % 2) (y % 2) (omega arith) (omega arith))

-- The operations with 0 on the right, by one induction on a bound.
zero_right : (bound x : ℕ) → x ≤ bound → (bit_and x 0 ≡ 0) × (bit_or x 0 ≡ x) × (bit_xor x 0 ≡ x)
zero_right bound zero le = (refl, refl, refl)
zero_right zero (suc x) le = elim le [ ]
zero_right (suc bound) (suc x) le =
    let (a, o, e) = zero_right bound (suc x / 2) (omega arith) in
    (
      omega (arith, and_digit (suc x) 0, a),
      omega (arith, or_digit (suc x) 0, o),
      omega (arith, xor_digit (suc x) 0, e),
    )

bit_and-zero : (x : ℕ) → bit_and x 0 ≡ 0
bit_and-zero x = (zero_right x x (le_refl x)).0

pub bit_or-zero : (x : ℕ) → bit_or x 0 ≡ x
bit_or-zero x = (zero_right x x (le_refl x)).1

zero-or : (x : ℕ) → bit_or 0 x ≡ x
zero-or x = bit_or-bitwise 0 x

bit_xor-zero : (x : ℕ) → bit_xor x 0 ≡ x
bit_xor-zero x = (zero_right x x (le_refl x)).2

mul-pow-suc : (q k : ℕ) → q * 2 ^ suc k ≡ 2 * (q * 2 ^ k)
mul-pow-suc q k = omega (arith, ap (λ (t : ℕ). q * t) (pow-suc 2 k))

-- `x & (2 ^ k - 1)` is the remainder.
bit_and_low : (k q r : ℕ) → r < 2 ^ k → bit_and (q * 2 ^ k + r) (2 ^ k - 1) ≡ r
bit_and_low zero q r fits = ground (arith, bit_and-zero q)
bit_and_low (suc k) q r fits = ground (
  arith,
  and_digit (q * 2 ^ suc k + r) (2 ^ suc k - 1),
  mul-pow-suc q k,
  pow-suc 2 k,
  one-le-pow k 2,
  bit_and_low k q (r / 2) (omega (arith, pow-suc 2 k)),
)

pub bit_and-mask : (k a : ℕ) → bit_and a (2 ^ k - 1) ≡ a % 2 ^ k
bit_and-mask k a = ground (arith, one-le-pow k 2, bit_and_low k (a / 2 ^ k) (a % 2 ^ k))

-- `&` with a number whose low `k` bits are zero keeps only the high bits.
bit_and_high : (k m q r : ℕ) → r < 2 ^ k → bit_and (q * 2 ^ k + r) (m * 2 ^ k) ≡ bit_and q m * 2 ^ k
bit_and_high zero m q r fits =
    let e : q * 2 ^ 0 + r ≡ q = omega arith in
    let e' : m * 2 ^ 0 ≡ m = omega arith in rw (e, e') (omega arith)
bit_and_high (suc k) m q r fits = ground (
  arith,
  and_digit (q * 2 ^ suc k + r) (m * 2 ^ suc k),
  mul-pow-suc q k,
  mul-pow-suc m k,
  mul-pow-suc (bit_and q m) k,
  pow-suc 2 k,
  bit_and_high k m q (r / 2) (omega (arith, pow-suc 2 k)),
)

half : (q r : ℕ) → r < 1 → (2 * (q * 1) + r) / 2 ≡ q
half q r fits = omega arith

half_set : (q r : ℕ) → r < 1 → (2 * (q * 1) + 1 + r) / 2 ≡ q
half_set q r fits = omega arith

-- `x ^ 2 ^ k` flips bit `k`: it adds the power if the bit is clear, and takes it away if it is set.
pub bit_xor_clear :
    (k q r : ℕ) → r < 2 ^ k → bit_xor (2 * (q * 2 ^ k) + r) (2 ^ k) ≡ 2 * (q * 2 ^ k) + r + 2 ^ k
bit_xor_clear zero q r fits = omega (
  arith,
  xor_digit (2 * (q * 2 ^ 0) + r) 1,
  bit_xor-zero q,
  ap (λ (t : ℕ). bit_xor t 0) (half q r fits),
)
bit_xor_clear (suc k) q r fits = ground (
  arith,
  xor_digit (2 * (q * 2 ^ suc k) + r) (2 ^ suc k),
  mul-pow-suc q k,
  pow-suc 2 k,
  bit_xor_clear k q (r / 2) (omega (arith, pow-suc 2 k)),
)

pub bit_xor_set :
    (k q r : ℕ) → r < 2 ^ k → bit_xor (2 * (q * 2 ^ k) + 2 ^ k + r) (2 ^ k) ≡ 2 * (q * 2 ^ k) + r
bit_xor_set zero q r fits = omega (
  arith,
  xor_digit (2 * (q * 2 ^ 0) + 1 + r) 1,
  bit_xor-zero q,
  ap (λ (t : ℕ). bit_xor t 0) (half_set q r fits),
)
bit_xor_set (suc k) q r fits = ground (
  arith,
  xor_digit (2 * (q * 2 ^ suc k) + 2 ^ suc k + r) (2 ^ suc k),
  mul-pow-suc q k,
  pow-suc 2 k,
  bit_xor_set k q (r / 2) (omega (arith, pow-suc 2 k)),
)

-- `x & 2 ^ k` isolates bit `k`.
pub bit_and-pow : (k x : ℕ) → bit_and x (2 ^ k) ≡ x / 2 ^ k % 2 * 2 ^ k
bit_and-pow k x =
    let p : 0 < 2 ^ k = one-le-pow k 2 (omega arith) in
    let e : bit_and (x / 2 ^ k * 2 ^ k + x % 2 ^ k) (1 * 2 ^ k) ≡ bit_and (x / 2 ^ k) 1 * 2 ^ k =
      bit_and_high k 1 (x / 2 ^ k) (x % 2 ^ k) (mod-lt x p) in
    let f : bit_and (x / 2 ^ k) 1 ≡ x / 2 ^ k % 2 = bit_and-mask 1 (x / 2 ^ k) in
    rw (div-add-mod', one-mul, f) at e

-- `x & ~4095` on a 64-bit word rounds down to a page.
pub bit_and_pages : (x : ℕ) → x < 2 ^ 64 → bit_and x (2 ^ 64 - 4096) ≡ x - x % 4096
bit_and_pages x h =
    let e : bit_and (x / 2 ^ 12 * 2 ^ 12 + x % 2 ^ 12) ((2 ^ 52 - 1) * 2 ^ 12)
        ≡ bit_and (x / 2 ^ 12) (2 ^ 52 - 1) * 2 ^ 12 =
      bit_and_high 12 (2 ^ 52 - 1) (x / 2 ^ 12) (x % 2 ^ 12) (omega arith) in
    let f : x / 2 ^ 12 * 2 ^ 12 + x % 2 ^ 12 ≡ x = omega arith in
    omega (arith, rw f at e, bit_and-mask 52 (x / 2 ^ 12))

-- The two halves of a flipped bit, for any number.
pub flip_clear : (k x : ℕ) → x / 2 ^ k % 2 ≡ 0 → bit_xor x (2 ^ k) ≡ x + 2 ^ k
flip_clear k x h = rw e at (bit_xor_clear k (x / 2 ^ k / 2) (x % 2 ^ k) (mod-lt x p))
  where
    p : 0 < 2 ^ k
    p = one-le-pow k 2 (omega arith)

    d : x / 2 ^ k ≡ 2 * (x / 2 ^ k / 2)
    d = omega arith

    e : 2 * (x / 2 ^ k / 2 * 2 ^ k) + x % 2 ^ k ≡ x
    e = omega (arith, div-add-mod' x (2 ^ k), ap (λ (t : ℕ). t * 2 ^ k) d)

pub flip_set : (k x : ℕ) → x / 2 ^ k % 2 ≡ 1 → bit_xor x (2 ^ k) + 2 ^ k ≡ x
flip_set k x h = omega (arith, rw e at g, e)
  where
    p : 0 < 2 ^ k
    p = one-le-pow k 2 (omega arith)

    g :
        bit_xor (2 * (x / 2 ^ k / 2 * 2 ^ k) + 2 ^ k + x % 2 ^ k) (2 ^ k)
        ≡ 2 * (x / 2 ^ k / 2 * 2 ^ k) + x % 2 ^ k
    g = bit_xor_set k (x / 2 ^ k / 2) (x % 2 ^ k) (mod-lt x p)

    d : x / 2 ^ k ≡ 2 * (x / 2 ^ k / 2) + 1
    d = omega arith

    e : 2 * (x / 2 ^ k / 2 * 2 ^ k) + 2 ^ k + x % 2 ^ k ≡ x
    e = omega (arith, div-add-mod' x (2 ^ k), ap (λ (t : ℕ). t * 2 ^ k) d)

div_pow-suc : (k a : ℕ) → a / 2 ^ suc k ≡ a / 2 / 2 ^ k
div_pow-suc k a = ap (λ (t : ℕ). a / t) (pow-succ' 2 k) ∙ sym (div-div-eq-div-mul a 2 (2 ^ k))

-- `|` works on the digits above `k` separately.
pub bit_or-div : (k a b : ℕ) → bit_or a b / 2 ^ k ≡ bit_or (a / 2 ^ k) (b / 2 ^ k)
bit_or-div zero a b =
    let e : a / 1 ≡ a = omega arith in let f : b / 1 ≡ b = omega arith in rw (e, f) (omega arith)
bit_or-div (suc k) a b =
    div_pow-suc k (bit_or a b)
    ∙ ap (λ (t : ℕ). t / 2 ^ k) halved
    ∙ bit_or-div k (a / 2) (b / 2)
    ∙ ap₂ bit_or (sym (div_pow-suc k a)) (sym (div_pow-suc k b))
  where
    halved : bit_or a b / 2 ≡ bit_or (a / 2) (b / 2)
    halved = omega (arith, or_digit a b)

-- `r | (q << k)` of disjoint fields is their sum.
pub bit_or_low_high : (k q r : ℕ) → r < 2 ^ k → bit_or r (q * 2 ^ k) ≡ q * 2 ^ k + r
bit_or_low_high zero q zero fits = ground (arith, or_digit 0 (q * 1), zero-or (q * 1))
bit_or_low_high zero q (suc r) fits = absurd (omega arith)
bit_or_low_high (suc k) q r fits = omega (
  arith,
  or_digit r (q * 2 ^ suc k),
  mul-pow-suc q k,
  ap (λ (t : ℕ). bit_or (r / 2) t) (half_of q k),
  bit_or_low_high k q (r / 2) (omega (arith, pow-suc 2 k)),
)
  where
    half_of : (q k : ℕ) → q * 2 ^ suc k / 2 ≡ q * 2 ^ k
    half_of q k = omega (arith, mul-pow-suc q k)

pub bit_or_high_low : (k q r : ℕ) → r < 2 ^ k → bit_or (q * 2 ^ k) r ≡ q * 2 ^ k + r
bit_or_high_low zero q r fits =
    let e : r ≡ 0 = omega arith in
    let f : q * 1 ≡ q = omega arith in rw (e, f) (omega (arith, bit_or-zero q))
bit_or_high_low (suc k) q r fits = omega (
  arith,
  or_digit (q * 2 ^ suc k) r,
  mul-pow-suc q k,
  ap (λ (t : ℕ). bit_or t (r / 2)) (half_of q k),
  bit_or_high_low k q (r / 2) (omega (arith, pow-suc 2 k)),
)
  where
    half_of : (q k : ℕ) → q * 2 ^ suc k / 2 ≡ q * 2 ^ k
    half_of q k = omega (arith, mul-pow-suc q k)

-- `x | 1` sets the lowest bit and leaves the others.
pub bit_or-one : (x : ℕ) → (bit_or x 1 % 2 ≡ 1) × (bit_or x 1 / 2 ≡ x / 2)
bit_or-one x =
    let d = or_digit x 1 in let z = bit_or-zero (x / 2) in (omega (arith, d), omega (arith, d, z))

-- `x & (mask << k)` keeps the `w` bits from bit `k` on.
pub bit_and_field : (k w x : ℕ) → bit_and x ((2 ^ w - 1) * 2 ^ k) ≡ x / 2 ^ k % 2 ^ w * 2 ^ k
bit_and_field k w x =
    let p : 0 < 2 ^ k = one-le-pow k 2 (omega arith) in
    let e : bit_and (x / 2 ^ k * 2 ^ k + x % 2 ^ k) ((2 ^ w - 1) * 2 ^ k)
        ≡ bit_and (x / 2 ^ k) (2 ^ w - 1) * 2 ^ k =
      bit_and_high k (2 ^ w - 1) (x / 2 ^ k) (x % 2 ^ k) (mod-lt x p) in
    rw (div-add-mod', bit_and-mask w (x / 2 ^ k)) at e
