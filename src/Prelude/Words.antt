-- ===== src/Prelude/Words.antt =====
-- 64-bit words: page rounding and the status codes that the kernel's functions return.
use Prim.Native.Nat.{ℕ, ◌+◌, ◌-◌, ◌%◌, ◌^◌, ◌≤◌, ◌<◌, bit_and}
use mathlib.Core.Path.{◌≡◌}
use native.Mathlib.Omega.{arith}
use lun_os.Prelude.Bits.{bit_and_pages}

-- PAGE_FRAME_SIZE and PAGE_SIZE
abbrev pub page_size : ℕ
page_size = 4096

-- a sum and a difference of two uint64_t
abbrev pub add64 : ℕ → ℕ → ℕ
add64 a b = (a + b) % 2 ^ 64

abbrev pub sub64 : ℕ → ℕ → ℕ
sub64 a b = (a + 2 ^ 64 - b) % 2 ^ 64

-- `x & ~(PAGE_SIZE - 1)`
unfoldable pub page_align_down : ℕ → ℕ
page_align_down x = bit_and x (2 ^ 64 - 4096)

-- `(x + PAGE_SIZE - 1) & ~(PAGE_SIZE - 1)`
unfoldable pub page_align_up : ℕ → ℕ
unfolding page_align_down
page_align_up x = page_align_down (add64 x 4095)

-- 0 and -1 of the functions that return an int
pub data Status : Type 0 where
  success : Status
  failure : Status

pub page_align_down_lem : (x : ℕ) → x < 2 ^ 64 → page_align_down x ≡ x - x % 4096
unfolding page_align_down
page_align_down_lem x h = bit_and_pages x h

-- Where the sum does not wrap, rounding up gives the next page boundary.
pub page_align_up_bounds :
    (x : ℕ)
    → x + 4095 < 2 ^ 64
    → (x ≤ page_align_up x) × (page_align_up x < x + 4096) × (page_align_up x % 4096 ≡ 0)
unfolding page_align_up
page_align_up_bounds x h =
    let w : add64 x 4095 ≡ x + 4095 = omega arith in
    omega (arith, w, bit_and_pages (add64 x 4095) (omega arith))
