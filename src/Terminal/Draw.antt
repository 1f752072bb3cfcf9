-- ===== src/Terminal/Draw.antt =====
-- What drawing cells of the terminal does to the pixels of the screen.
use lun_os.Prelude.{
  ℕ, zero, suc, ◌+◌, ◌-◌, ◌*◌, ◌/◌, ◌%◌, ◌^◌, ◌≤◌, ◌<◌, ◌≡◌, refl, ◌∙◌, arith, some, if◌then◌else◌,
  ◌==◌, ltb, ◌&&◌,
}
use lun_os.Framebuffer.{Mode, Pixels, word_of, pixel_color, row_byte}
use lun_os.Framebuffer.Font.{font_get_char}
use lun_os.Framebuffer.Draw.{IsMode, fb_put_char_lem}
use lun_os.Terminal.{Cell, draw_cell, render_row, render_rows}

-- The colour of a pixel of a cell's box.
unfoldable pub cell_pixel : Cell → ℕ → ℕ → ℕ
cell_pixel c dx dy = pixel_color (row_byte (font_get_char c.ch) dy) dx c.fg c.bg

-- The boxes of the cells lie on the screen.
pub record Fits (fb : Mode) (columns rows : ℕ) : Type 0 where
  pub across : columns * 8 ≤ fb.width
  pub down : rows * 8 ≤ fb.height
  pub few_columns : columns < 2 ^ 16
  pub few_rows : rows < 2 ^ 16

module _ (fb : Mode) (ok : IsMode fb) (columns rows : ℕ) (fits : Fits fb columns rows) where
  module _ (px py : ℕ) (h : px < columns * 8) (k : py < rows * 8) where
    pub draw_cell_lem :
        (c : Cell) (x y : ℕ) (p : Pixels)
        → x < columns
        → y < rows
        → draw_cell (some fb) c x y p (word_of fb px py) ≡ (
            if (px / 8 == x) && (py / 8 == y)
            then cell_pixel c (px % 8) (py % 8)
            else p (word_of fb px py))
    unfolding draw_cell cell_pixel
    draw_cell_lem c x y p xh yh =
        let wide : x * 8 % 2 ^ 32 ≡ x * 8 = omega (arith, xh, fits.few_columns) in
        let high : y * 8 % 2 ^ 32 ≡ y * 8 = omega (arith, yh, fits.few_rows) in
        let drawn =
          fb_put_char_lem fb c.ch (x * 8 % 2 ^ 32) (y * 8 % 2 ^ 32) c.fg c.bg px py p ok
            (omega (arith, wide, xh, fits.few_columns)) (omega (arith, high, yh, fits.few_rows))
            (omega (arith, h, fits.across)) (omega (arith, k, fits.down)) in
        let color : ℕ → ℕ → ℕ =
          λ dx dy. pixel_color (row_byte (font_get_char c.ch) dy) dx c.fg c.bg in
        let own : px / 8 ≡ x
            → py / 8 ≡ y
            → color (px - x * 8 % 2 ^ 32) (py - y * 8 % 2 ^ 32) ≡ color (px % 8) (py % 8) =
          λ e f.
            let dx : px - x * 8 % 2 ^ 32 ≡ px % 8 = omega (arith, e, wide) in
            let dy : py - y * 8 % 2 ^ 32 ≡ py % 8 = omega (arith, f, high) in rw (dx, dy) refl in
        drawn ∙ ground (arith, wide, high, own)

    render_row_lem :
        (buffer : ℕ → Cell) (y n : ℕ) (p : Pixels)
        → n ≤ columns
        → y < rows
        → render_row (some fb) buffer columns y n p (word_of fb px py) ≡ (
            if ltb (px / 8) n && (py / 8 == y)
            then cell_pixel (buffer (py / 8 * columns + px / 8)) (px % 8) (py % 8)
            else p (word_of fb px py))
    unfolding render_row
    render_row_lem buffer y zero p nh yh = ground arith
    render_row_lem buffer y (suc n) p nh yh =
        let before = render_row (some fb) buffer columns y n p in
        let own : px / 8 ≡ n
            → py / 8 ≡ y
            → cell_pixel (buffer (y * columns + n)) (px % 8) (py % 8)
              ≡ cell_pixel (buffer (py / 8 * columns + px / 8)) (px % 8) (py % 8) =
          λ e f. rw (e, f) refl in
        draw_cell_lem (buffer (y * columns + n)) n y before nh yh
        ∙ ground (arith, own, render_row_lem buffer y n p (omega (arith, nh)) yh)

    pub render_rows_lem :
        (buffer : ℕ → Cell) (n : ℕ) (p : Pixels)
        → n ≤ rows
        → render_rows (some fb) buffer columns n p (word_of fb px py) ≡ (
            if ltb (py / 8) n
            then cell_pixel (buffer (py / 8 * columns + px / 8)) (px % 8) (py % 8)
            else p (word_of fb px py))
    unfolding render_rows
    render_rows_lem buffer zero p nh = ground arith
    render_rows_lem buffer (suc n) p nh =
        let before = render_rows (some fb) buffer columns n p in
        render_row_lem buffer n columns before (omega arith) nh
        ∙ ground (arith, h, render_rows_lem buffer n p (omega (arith, nh)))
