-- ===== src/Prelude/Grid.antt =====
-- Grids that are kept row by row in one array.
use Prim.Native.Nat.{ℕ, ◌+◌, ◌-◌, ◌*◌, ◌^◌, ◌≤◌, ◌<◌}
use mathlib.Core.Path.{◌≡◌, ap}
use native.Mathlib.Omega.{arith}
use native.Mathlib.Nat.{mul-le-mul_right}
use native.Mathlib.Decide.{dec_lt, ℕ_discrete}

pub row_below : (w x1 y1 y2 : ℕ) → x1 < w → y1 < y2 → y1 * w + x1 < y2 * w
row_below w x1 y1 y2 h l = omega (arith, h, mul-le-mul_right w l)

-- A cell is where it is in one way only.
pub same_cell :
    (w x1 y1 x2 y2 : ℕ) → x1 < w → x2 < w → y1 * w + x1 ≡ y2 * w + x2 → (x1 ≡ x2) × (y1 ≡ y2)
same_cell w x1 y1 x2 y2 h1 h2 e = elim (ℕ_discrete y1 y2) [
  | yes same ↦ omega (arith, e, same, ap (λ (y : ℕ). y * w) same)
  | no ne ↦ elim (dec_lt y1 y2) [
    | yes lt ↦ omega (arith, e, row_below w x1 y1 y2 h1 lt)
    | no ge ↦ omega (arith, e, row_below w x2 y2 y1 h2 (omega (arith, ne, ge)))
  ]
]

pub last_row_product :
    (rows columns : ℕ) → 0 < rows → (rows - 1) * columns + columns ≡ rows * columns
last_row_product rows columns h =
    let e : rows ≡ rows - 1 + 1 = omega (arith, h) in
    let f : rows * columns ≡ (rows - 1 + 1) * columns = ap (λ (n : ℕ). n * columns) e in
    omega (arith, f)

pub area : (rows columns : ℕ) → rows < 2 ^ 16 → columns < 2 ^ 16 → rows * columns < 2 ^ 32
area rows columns h k =
    let wide : rows * columns ≤ 2 ^ 16 * columns = mul-le-mul_right columns (omega (arith, h)) in
    omega (arith, wide, k)
