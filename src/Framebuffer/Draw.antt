-- ===== src/Framebuffer/Draw.antt =====
-- What drawing does to the pixels of the screen.
use lun_os.Prelude.{
  List, some, ℕ, zero, suc, ◌+◌, ◌-◌, ◌*◌, ◌/◌, ◌%◌, ◌^◌, ◌≤◌, ◌<◌, ◌≡◌, ap, ◌∙◌, arith, ◌&&◌, ltb,
  leb, ◌==◌, if◌then◌else◌,
}
use lun_os.Prelude.Grid.{row_below, same_cell}
use lun_os.Framebuffer.{
  Mode, Pixels, word_of, set_pixel, put_visible, draw_columns, draw_rows, pixel_color, row_byte,
  fb_put_char,
}
use lun_os.Framebuffer.Font.{font_get_char}

-- The lines do not overlap, and the last word has a 64-bit number.
pub record IsMode (fb : Mode) : Type 0 where
  pub lines_apart : fb.width ≤ fb.pitch / 4
  pub in_memory : fb.height * (fb.pitch / 4) < 2 ^ 64

module _ (fb : Mode) (ok : IsMode fb) where
  -- The pixel at a place of the screen.
  word_of-inside :
      (x y : ℕ) → x < fb.width → y < fb.height → word_of fb x y ≡ y * (fb.pitch / 4) + x
  unfolding word_of
  word_of-inside x y h k = omega (
    arith,
    h,
    ok.lines_apart,
    ok.in_memory,
    row_below (fb.pitch / 4) x y fb.height (omega (arith, h, ok.lines_apart)) k,
  )

  other_word :
      (x y px py : ℕ)
      → x < fb.width
      → y < fb.height
      → px < fb.width
      → py < fb.height
      → word_of fb px py ≡ word_of fb x y
      → (px ≡ x) × (py ≡ y)
  other_word x y px py h k ph pk e =
      same_cell (fb.pitch / 4) px py x y (omega (arith, ph, ok.lines_apart))
        (omega (arith, h, ok.lines_apart))
        (omega (arith, e, word_of-inside x y h k, word_of-inside px py ph pk))

  module _ (px py : ℕ) (ph : px < fb.width) (pk : py < fb.height) where
    put_visible_lem :
        (x y color : ℕ) (p : Pixels)
        → put_visible fb x y color p (word_of fb px py)
          ≡ (if (px == x) && (py == y) then color else p (word_of fb px py))
    unfolding put_visible set_pixel
    put_visible_lem x y color p = ground (arith, other_word x y px py, ph, pk)

    draw_columns_lem :
        (byte x y fg bg n : ℕ) (p : Pixels)
        → x + n ≤ 2 ^ 32
        → draw_columns fb byte x y fg bg n p (word_of fb px py) ≡ (
            if (leb x px && ltb px (x + n)) && (py == y)
            then pixel_color byte (px - x) fg bg
            else p (word_of fb px py))
    unfolding draw_columns
    draw_columns_lem byte x y fg bg zero p h = ground arith
    draw_columns_lem byte x y fg bg (suc n) p h =
        let wrap : (x + n) % 2 ^ 32 ≡ x + n = omega (arith, h) in
        let before = draw_columns fb byte x y fg bg n p in
        let this = put_visible_lem ((x + n) % 2 ^ 32) y (pixel_color byte n fg bg) before in
        let same : x + n ≡ px → pixel_color byte n fg bg ≡ pixel_color byte (px - x) fg bg =
          λ e. ap (λ (c : ℕ). pixel_color byte c fg bg) (omega (arith, e)) in
        this ∙ ground (arith, wrap, same, draw_columns_lem byte x y fg bg n p (omega (arith, h)))

    draw_rows_lem :
        (bitmap : List ℕ) (x y fg bg n : ℕ) (p : Pixels)
        → x + 8 ≤ 2 ^ 32
        → y + n ≤ 2 ^ 32
        → draw_rows fb bitmap x y fg bg n p (word_of fb px py) ≡ (
            if (leb x px && ltb px (x + 8)) && (leb y py && ltb py (y + n))
            then pixel_color (row_byte bitmap (py - y)) (px - x) fg bg
            else p (word_of fb px py))
    unfolding draw_rows
    draw_rows_lem bitmap x y fg bg zero p h k = ground arith
    draw_rows_lem bitmap x y fg bg (suc n) p h k =
        let wrap : (y + n) % 2 ^ 32 ≡ y + n = omega (arith, k) in
        let before = draw_rows fb bitmap x y fg bg n p in
        let this = draw_columns_lem (row_byte bitmap n) x ((y + n) % 2 ^ 32) fg bg 8 before h in
        let same : y + n ≡ py
            → pixel_color (row_byte bitmap n) (px - x) fg bg
              ≡ pixel_color (row_byte bitmap (py - y)) (px - x) fg bg =
          λ e. ap (λ (c : ℕ). pixel_color (row_byte bitmap c) (px - x) fg bg) (omega (arith, e)) in
        this ∙ ground (arith, wrap, same, draw_rows_lem bitmap x y fg bg n p h (omega (arith, k)))

-- On a screen whose lines do not overlap, fb_put_char at a place below 2 ^ 32 - 8 in both directions
-- gives each pixel of the screen that lies in the 8 by 8 box there the colour of its bit in the
-- character's glyph, and leaves every other pixel of the screen as it was.
pub fb_put_char_lem :
    (fb : Mode) (c x y fg bg px py : ℕ) (p : Pixels)
    → IsMode fb
    → x + 8 ≤ 2 ^ 32
    → y + 8 ≤ 2 ^ 32
    → px < fb.width
    → py < fb.height
    → fb_put_char (some fb) c x y fg bg p (word_of fb px py) ≡ (
        if (leb x px && ltb px (x + 8)) && (leb y py && ltb py (y + 8))
        then pixel_color (row_byte (font_get_char c) (py - y)) (px - x) fg bg
        else p (word_of fb px py))
unfolding fb_put_char
fb_put_char_lem fb c x y fg bg px py p ok h k ph pk =
    draw_rows_lem fb ok px py ph pk (font_get_char c) x y fg bg 8 p h k
