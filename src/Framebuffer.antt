-- ===== src/Framebuffer.antt =====
-- The framebuffer: kernel/arch/x86_64/drivers/framebuffer.c, with the glyphs of tty_font.c. The memory
-- of the screen is read and written in words of 4 bytes, by their number from its start.
pub mod Font
pub mod Draw
use lun_os.Prelude.{
  ℕ, zero, suc, ◌+◌, ◌*◌, ◌/◌, ◌%◌, ◌^◌, bit_and, Bool, ◌&&◌, Option, none, some, List, [], ◌∷◌,
  get_elem?, ltb, ◌==◌, if◌then◌else◌, Status, success, failure,
}
use lun_os.Framebuffer.Font.{font_get_char, font_width, font_height}

-- What the code reads of struct limine_framebuffer, beside the address.
pub record Mode : Type 0 where
  pub width : ℕ
  pub height : ℕ
  pub pitch : ℕ

abbrev pub Pixels : Type 0
Pixels = ℕ → ℕ

-- What Limine answers is a list of framebuffers, or nothing; the result is primary_fb.
pub fb_init : Option (List Mode) → Option Mode → Status × Option Mode
fb_init none primary_fb = (failure, primary_fb)
fb_init (some []) primary_fb = (failure, primary_fb)
fb_init (some (fb ∷ rest)) primary_fb = (success, some fb)

-- `y * (primary_fb->pitch / 4) + x`, on 64 bits
unfoldable pub word_of : Mode → ℕ → ℕ → ℕ
word_of fb x y = (y * (fb.pitch / 4) + x) % 2 ^ 64

unfoldable pub set_pixel : Mode → ℕ → ℕ → ℕ → Pixels → Pixels
set_pixel fb x y color p = λ i. if i == word_of fb x y then color else p i

-- The guarded write that fb_put_pixel and fb_put_char have in common.
unfoldable pub put_visible : Mode → ℕ → ℕ → ℕ → Pixels → Pixels
unfolding set_pixel
put_visible fb x y color p =
    if ltb x fb.width && ltb y fb.height then set_pixel fb x y color p else p

pub fb_put_pixel : Option Mode → ℕ → ℕ → ℕ → Pixels → Pixels
fb_put_pixel none x y color p = p
fb_put_pixel (some fb) x y color p = put_visible fb x y color p

-- The first `n` pixels of a line, and the first `n` lines.
unfoldable pub clear_line : Mode → ℕ → ℕ → ℕ → Pixels → Pixels
clear_line fb y color zero p = p
clear_line fb y color (suc x) p = set_pixel fb x y color (clear_line fb y color x p)

unfoldable pub clear_lines : Mode → ℕ → ℕ → Pixels → Pixels
clear_lines fb color zero p = p
clear_lines fb color (suc y) p = clear_line fb y color fb.width (clear_lines fb color y p)

pub fb_clear : Option Mode → ℕ → Pixels → Pixels
fb_clear none color p = p
fb_clear (some fb) color p = clear_lines fb color fb.height p

-- `char_bitmap[row]`
unfoldable pub row_byte : List ℕ → ℕ → ℕ
row_byte char_bitmap row = elim (get_elem? char_bitmap row) [ none ↦ 0 | some byte ↦ byte ]

-- `(byte & (0x80 >> col)) ? fg_color : bg_color`
unfoldable pub pixel_color : ℕ → ℕ → ℕ → ℕ → ℕ
pixel_color byte col fg_color bg_color =
    if bit_and byte (0x80 / 2 ^ col) == 0 then bg_color else fg_color

-- The first `n` columns of a row of a glyph, and its first `n` rows.
unfoldable pub draw_columns : Mode → ℕ → ℕ → ℕ → ℕ → ℕ → ℕ → Pixels → Pixels
draw_columns fb byte x pixel_y fg bg zero p = p
draw_columns fb byte x pixel_y fg bg (suc col) p =
    put_visible fb ((x + col) % 2 ^ 32) pixel_y (pixel_color byte col fg bg)
      (draw_columns fb byte x pixel_y fg bg col p)

unfoldable pub draw_rows : Mode → List ℕ → ℕ → ℕ → ℕ → ℕ → ℕ → Pixels → Pixels
draw_rows fb bitmap x y fg bg zero p = p
draw_rows fb bitmap x y fg bg (suc row) p =
    draw_columns fb (row_byte bitmap row) x ((y + row) % 2 ^ 32) fg bg font_width
      (draw_rows fb bitmap x y fg bg row p)

unfoldable pub fb_put_char : Option Mode → ℕ → ℕ → ℕ → ℕ → ℕ → Pixels → Pixels
fb_put_char none c x y fg bg p = p
fb_put_char (some fb) c x y fg bg p = draw_rows fb (font_get_char c) x y fg bg font_height p

-- The loop of fb_put_string, on the bytes before the string's end.
pub put_chars : Option Mode → List ℕ → ℕ → ℕ → ℕ → ℕ → ℕ → Pixels → Pixels
put_chars fb [] x current_x y fg bg p = p
put_chars fb (c ∷ str) x current_x y fg bg p =
    let drawn = fb_put_char fb c current_x y fg bg p in
    let next_line = put_chars fb str x x ((y + font_height) % 2 ^ 32) fg bg p in
    let next_char = put_chars fb str x ((current_x + font_width) % 2 ^ 32) y fg bg drawn in
    if c == 10 then next_line else next_char

pub fb_put_string : Option Mode → List ℕ → ℕ → ℕ → ℕ → ℕ → Pixels → Pixels
fb_put_string fb str x y fg bg p = put_chars fb str x x y fg bg p
