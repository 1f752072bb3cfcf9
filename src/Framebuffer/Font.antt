-- ===== src/Framebuffer/Font.antt =====
-- The glyphs of kernel/arch/x86_64/drivers/tty_font.c, each of them its rows from the top.
use lun_os.Prelude.{
  ℕ, zero, suc, ◌-◌, ◌<◌, ◌≡◌, refl, arith, List, [], ◌∷◌, none, some, get_elem?, Bool-cases, inl,
  inr, length, All, Bool, true, ◌&&◌, leb, ltb, ◌==◌, if◌then◌else◌,
}

-- FONT_WIDTH and FONT_HEIGHT of tty_font.h
abbrev pub font_width : ℕ
font_width = 8

abbrev pub font_height : ℕ
font_height = 8

unfoldable pub font8x8_basic : List (List ℕ)
font8x8_basic =
    (0x00 ∷ 0x00 ∷ 0x00 ∷ 0x00 ∷ 0x00 ∷ 0x00 ∷ 0x00 ∷ 0x00 ∷ [])
    ∷ (0x18 ∷ 0x3C ∷ 0x3C ∷ 0x18 ∷ 0x18 ∷ 0x00 ∷ 0x18 ∷ 0x00 ∷ [])
    ∷ (0x6C ∷ 0x6C ∷ 0x00 ∷ 0x00 ∷ 0x00 ∷ 0x00 ∷ 0x00 ∷ 0x00 ∷ [])
    ∷ (0x6C ∷ 0x6C ∷ 0xFE ∷ 0x6C ∷ 0xFE ∷ 0x6C ∷ 0x6C ∷ 0x00 ∷ [])
    ∷ (0x30 ∷ 0x7C ∷ 0xC0 ∷ 0x78 ∷ 0x0C ∷ 0xF8 ∷ 0x30 ∷ 0x00 ∷ [])
    ∷ (0x00 ∷ 0xC6 ∷ 0xCC ∷ 0x18 ∷ 0x30 ∷ 0x66 ∷ 0xC6 ∷ 0x00 ∷ [])
    ∷ (0x38 ∷ 0x6C ∷ 0x38 ∷ 0x76 ∷ 0xDC ∷ 0xCC ∷ 0x76 ∷ 0x00 ∷ [])
    ∷ (0x60 ∷ 0x60 ∷ 0xC0 ∷ 0x00 ∷ 0x00 ∷ 0x00 ∷ 0x00 ∷ 0x00 ∷ [])
    ∷ (0x18 ∷ 0x30 ∷ 0x60 ∷ 0x60 ∷ 0x60 ∷ 0x30 ∷ 0x18 ∷ 0x00 ∷ [])
    ∷ (0x60 ∷ 0x30 ∷ 0x18 ∷ 0x18 ∷ 0x18 ∷ 0x30 ∷ 0x60 ∷ 0x00 ∷ [])
    ∷ (0x00 ∷ 0x66 ∷ 0x3C ∷ 0xFF ∷ 0x3C ∷ 0x66 ∷ 0x00 ∷ 0x00 ∷ [])
    ∷ (0x00 ∷ 0x30 ∷ 0x30 ∷ 0xFC ∷ 0x30 ∷ 0x30 ∷ 0x00 ∷ 0x00 ∷ [])
    ∷ (0x00 ∷ 0x00 ∷ 0x00 ∷ 0x00 ∷ 0x00 ∷ 0x30 ∷ 0x30 ∷ 0x60 ∷ [])
    ∷ (0x00 ∷ 0x00 ∷ 0x00 ∷ 0xFC ∷ 0x00 ∷ 0x00 ∷ 0x00 ∷ 0x00 ∷ [])
    ∷ (0x00 ∷ 0x00 ∷ 0x00 ∷ 0x00 ∷ 0x00 ∷ 0x30 ∷ 0x30 ∷ 0x00 ∷ [])
    ∷ (0x06 ∷ 0x0C ∷ 0x18 ∷ 0x30 ∷ 0x60 ∷ 0xC0 ∷ 0x80 ∷ 0x00 ∷ [])
    ∷ (0x7C ∷ 0xC6 ∷ 0xCE ∷ 0xDE ∷ 0xF6 ∷ 0xE6 ∷ 0x7C ∷ 0x00 ∷ [])
    ∷ (0x30 ∷ 0x70 ∷ 0x30 ∷ 0x30 ∷ 0x30 ∷ 0x30 ∷ 0xFC ∷ 0x00 ∷ [])
    ∷ (0x78 ∷ 0xCC ∷ 0x0C ∷ 0x38 ∷ 0x60 ∷ 0xCC ∷ 0xFC ∷ 0x00 ∷ [])
    ∷ (0x78 ∷ 0xCC ∷ 0x0C ∷ 0x38 ∷ 0x0C ∷ 0xCC ∷ 0x78 ∷ 0x00 ∷ [])
    ∷ (0x1C ∷ 0x3C ∷ 0x6C ∷ 0xCC ∷ 0xFE ∷ 0x0C ∷ 0x1E ∷ 0x00 ∷ [])
    ∷ (0xFC ∷ 0xC0 ∷ 0xF8 ∷ 0x0C ∷ 0x0C ∷ 0xCC ∷ 0x78 ∷ 0x00 ∷ [])
    ∷ (0x38 ∷ 0x60 ∷ 0xC0 ∷ 0xF8 ∷ 0xCC ∷ 0xCC ∷ 0x78 ∷ 0x00 ∷ [])
    ∷ (0xFC ∷ 0xCC ∷ 0x0C ∷ 0x18 ∷ 0x30 ∷ 0x30 ∷ 0x30 ∷ 0x00 ∷ [])
    ∷ (0x78 ∷ 0xCC ∷ 0xCC ∷ 0x78 ∷ 0xCC ∷ 0xCC ∷ 0x78 ∷ 0x00 ∷ [])
    ∷ (0x78 ∷ 0xCC ∷ 0xCC ∷ 0x7C ∷ 0x0C ∷ 0x18 ∷ 0x70 ∷ 0x00 ∷ [])
    ∷ (0x00 ∷ 0x30 ∷ 0x30 ∷ 0x00 ∷ 0x00 ∷ 0x30 ∷ 0x30 ∷ 0x00 ∷ [])
    ∷ (0x00 ∷ 0x30 ∷ 0x30 ∷ 0x00 ∷ 0x00 ∷ 0x30 ∷ 0x30 ∷ 0x60 ∷ [])
    ∷ (0x18 ∷ 0x30 ∷ 0x60 ∷ 0xC0 ∷ 0x60 ∷ 0x30 ∷ 0x18 ∷ 0x00 ∷ [])
    ∷ (0x00 ∷ 0x00 ∷ 0xFC ∷ 0x00 ∷ 0x00 ∷ 0xFC ∷ 0x00 ∷ 0x00 ∷ [])
    ∷ (0x60 ∷ 0x30 ∷ 0x18 ∷ 0x0C ∷ 0x18 ∷ 0x30 ∷ 0x60 ∷ 0x00 ∷ [])
    ∷ (0x78 ∷ 0xCC ∷ 0x0C ∷ 0x18 ∷ 0x30 ∷ 0x00 ∷ 0x30 ∷ 0x00 ∷ [])
    ∷ (0x7C ∷ 0xC6 ∷ 0xDE ∷ 0xDE ∷ 0xDE ∷ 0xC0 ∷ 0x78 ∷ 0x00 ∷ [])
    ∷ (0x30 ∷ 0x78 ∷ 0xCC ∷ 0xCC ∷ 0xFC ∷ 0xCC ∷ 0xCC ∷ 0x00 ∷ [])
    ∷ (0xFC ∷ 0x66 ∷ 0x66 ∷ 0x7C ∷ 0x66 ∷ 0x66 ∷ 0xFC ∷ 0x00 ∷ [])
    ∷ (0x3C ∷ 0x66 ∷ 0xC0 ∷ 0xC0 ∷ 0xC0 ∷ 0x66 ∷ 0x3C ∷ 0x00 ∷ [])
    ∷ (0xF8 ∷ 0x6C ∷ 0x66 ∷ 0x66 ∷ 0x66 ∷ 0x6C ∷ 0xF8 ∷ 0x00 ∷ [])
    ∷ (0xFE ∷ 0x62 ∷ 0x68 ∷ 0x78 ∷ 0x68 ∷ 0x62 ∷ 0xFE ∷ 0x00 ∷ [])
    ∷ (0xFE ∷ 0x62 ∷ 0x68 ∷ 0x78 ∷ 0x68 ∷ 0x60 ∷ 0xF0 ∷ 0x00 ∷ [])
    ∷ (0x3C ∷ 0x66 ∷ 0xC0 ∷ 0xC0 ∷ 0xCE ∷ 0x66 ∷ 0x3E ∷ 0x00 ∷ [])
    ∷ (0xCC ∷ 0xCC ∷ 0xCC ∷ 0xFC ∷ 0xCC ∷ 0xCC ∷ 0xCC ∷ 0x00 ∷ [])
    ∷ (0x78 ∷ 0x30 ∷ 0x30 ∷ 0x30 ∷ 0x30 ∷ 0x30 ∷ 0x78 ∷ 0x00 ∷ [])
    ∷ (0x1E ∷ 0x0C ∷ 0x0C ∷ 0x0C ∷ 0xCC ∷ 0xCC ∷ 0x78 ∷ 0x00 ∷ [])
    ∷ (0xE6 ∷ 0x66 ∷ 0x6C ∷ 0x78 ∷ 0x6C ∷ 0x66 ∷ 0xE6 ∷ 0x00 ∷ [])
    ∷ (0xF0 ∷ 0x60 ∷ 0x60 ∷ 0x60 ∷ 0x62 ∷ 0x66 ∷ 0xFE ∷ 0x00 ∷ [])
    ∷ (0xC6 ∷ 0xEE ∷ 0xFE ∷ 0xFE ∷ 0xD6 ∷ 0xC6 ∷ 0xC6 ∷ 0x00 ∷ [])
    ∷ (0xC6 ∷ 0xE6 ∷ 0xF6 ∷ 0xDE ∷ 0xCE ∷ 0xC6 ∷ 0xC6 ∷ 0x00 ∷ [])
    ∷ (0x38 ∷ 0x6C ∷ 0xC6 ∷ 0xC6 ∷ 0xC6 ∷ 0x6C ∷ 0x38 ∷ 0x00 ∷ [])
    ∷ (0xFC ∷ 0x66 ∷ 0x66 ∷ 0x7C ∷ 0x60 ∷ 0x60 ∷ 0xF0 ∷ 0x00 ∷ [])
    ∷ (0x78 ∷ 0xCC ∷ 0xCC ∷ 0xCC ∷ 0xDC ∷ 0x78 ∷ 0x1C ∷ 0x00 ∷ [])
    ∷ (0xFC ∷ 0x66 ∷ 0x66 ∷ 0x7C ∷ 0x6C ∷ 0x66 ∷ 0xE6 ∷ 0x00 ∷ [])
    ∷ (0x78 ∷ 0xCC ∷ 0xE0 ∷ 0x70 ∷ 0x1C ∷ 0xCC ∷ 0x78 ∷ 0x00 ∷ [])
    ∷ (0xFC ∷ 0xB4 ∷ 0x30 ∷ 0x30 ∷ 0x30 ∷ 0x30 ∷ 0x78 ∷ 0x00 ∷ [])
    ∷ (0xCC ∷ 0xCC ∷ 0xCC ∷ 0xCC ∷ 0xCC ∷ 0xCC ∷ 0xFC ∷ 0x00 ∷ [])
    ∷ (0xCC ∷ 0xCC ∷ 0xCC ∷ 0xCC ∷ 0xCC ∷ 0x78 ∷ 0x30 ∷ 0x00 ∷ [])
    ∷ (0xC6 ∷ 0xC6 ∷ 0xC6 ∷ 0xD6 ∷ 0xFE ∷ 0xEE ∷ 0xC6 ∷ 0x00 ∷ [])
    ∷ (0xC6 ∷ 0xC6 ∷ 0x6C ∷ 0x38 ∷ 0x38 ∷ 0x6C ∷ 0xC6 ∷ 0x00 ∷ [])
    ∷ (0xCC ∷ 0xCC ∷ 0xCC ∷ 0x78 ∷ 0x30 ∷ 0x30 ∷ 0x78 ∷ 0x00 ∷ [])
    ∷ (0xFE ∷ 0xC6 ∷ 0x8C ∷ 0x18 ∷ 0x32 ∷ 0x66 ∷ 0xFE ∷ 0x00 ∷ [])
    ∷ (0x78 ∷ 0x60 ∷ 0x60 ∷ 0x60 ∷ 0x60 ∷ 0x60 ∷ 0x78 ∷ 0x00 ∷ [])
    ∷ (0xC0 ∷ 0x60 ∷ 0x30 ∷ 0x18 ∷ 0x0C ∷ 0x06 ∷ 0x02 ∷ 0x00 ∷ [])
    ∷ (0x78 ∷ 0x18 ∷ 0x18 ∷ 0x18 ∷ 0x18 ∷ 0x18 ∷ 0x78 ∷ 0x00 ∷ [])
    ∷ (0x10 ∷ 0x38 ∷ 0x6C ∷ 0xC6 ∷ 0x00 ∷ 0x00 ∷ 0x00 ∷ 0x00 ∷ [])
    ∷ (0x00 ∷ 0x00 ∷ 0x00 ∷ 0x00 ∷ 0x00 ∷ 0x00 ∷ 0x00 ∷ 0xFF ∷ [])
    ∷ (0x30 ∷ 0x30 ∷ 0x18 ∷ 0x00 ∷ 0x00 ∷ 0x00 ∷ 0x00 ∷ 0x00 ∷ [])
    ∷ (0x00 ∷ 0x00 ∷ 0x78 ∷ 0x0C ∷ 0x7C ∷ 0xCC ∷ 0x76 ∷ 0x00 ∷ [])
    ∷ (0xE0 ∷ 0x60 ∷ 0x60 ∷ 0x7C ∷ 0x66 ∷ 0x66 ∷ 0xDC ∷ 0x00 ∷ [])
    ∷ (0x00 ∷ 0x00 ∷ 0x78 ∷ 0xCC ∷ 0xC0 ∷ 0xCC ∷ 0x78 ∷ 0x00 ∷ [])
    ∷ (0x1C ∷ 0x0C ∷ 0x0C ∷ 0x7C ∷ 0xCC ∷ 0xCC ∷ 0x76 ∷ 0x00 ∷ [])
    ∷ (0x00 ∷ 0x00 ∷ 0x78 ∷ 0xCC ∷ 0xFC ∷ 0xC0 ∷ 0x78 ∷ 0x00 ∷ [])
    ∷ (0x38 ∷ 0x6C ∷ 0x60 ∷ 0xF0 ∷ 0x60 ∷ 0x60 ∷ 0xF0 ∷ 0x00 ∷ [])
    ∷ (0x00 ∷ 0x00 ∷ 0x76 ∷ 0xCC ∷ 0xCC ∷ 0x7C ∷ 0x0C ∷ 0xF8 ∷ [])
    ∷ (0xE0 ∷ 0x60 ∷ 0x6C ∷ 0x76 ∷ 0x66 ∷ 0x66 ∷ 0xE6 ∷ 0x00 ∷ [])
    ∷ (0x30 ∷ 0x00 ∷ 0x70 ∷ 0x30 ∷ 0x30 ∷ 0x30 ∷ 0x78 ∷ 0x00 ∷ [])
    ∷ (0x0C ∷ 0x00 ∷ 0x0C ∷ 0x0C ∷ 0x0C ∷ 0xCC ∷ 0xCC ∷ 0x78 ∷ [])
    ∷ (0xE0 ∷ 0x60 ∷ 0x66 ∷ 0x6C ∷ 0x78 ∷ 0x6C ∷ 0xE6 ∷ 0x00 ∷ [])
    ∷ (0x70 ∷ 0x30 ∷ 0x30 ∷ 0x30 ∷ 0x30 ∷ 0x30 ∷ 0x78 ∷ 0x00 ∷ [])
    ∷ (0x00 ∷ 0x00 ∷ 0xCC ∷ 0xFE ∷ 0xFE ∷ 0xD6 ∷ 0xC6 ∷ 0x00 ∷ [])
    ∷ (0x00 ∷ 0x00 ∷ 0xF8 ∷ 0xCC ∷ 0xCC ∷ 0xCC ∷ 0xCC ∷ 0x00 ∷ [])
    ∷ (0x00 ∷ 0x00 ∷ 0x78 ∷ 0xCC ∷ 0xCC ∷ 0xCC ∷ 0x78 ∷ 0x00 ∷ [])
    ∷ (0x00 ∷ 0x00 ∷ 0xDC ∷ 0x66 ∷ 0x66 ∷ 0x7C ∷ 0x60 ∷ 0xF0 ∷ [])
    ∷ (0x00 ∷ 0x00 ∷ 0x76 ∷ 0xCC ∷ 0xCC ∷ 0x7C ∷ 0x0C ∷ 0x1E ∷ [])
    ∷ (0x00 ∷ 0x00 ∷ 0xDC ∷ 0x76 ∷ 0x66 ∷ 0x60 ∷ 0xF0 ∷ 0x00 ∷ [])
    ∷ (0x00 ∷ 0x00 ∷ 0x7C ∷ 0xC0 ∷ 0x78 ∷ 0x0C ∷ 0xF8 ∷ 0x00 ∷ [])
    ∷ (0x10 ∷ 0x30 ∷ 0x7C ∷ 0x30 ∷ 0x30 ∷ 0x34 ∷ 0x18 ∷ 0x00 ∷ [])
    ∷ (0x00 ∷ 0x00 ∷ 0xCC ∷ 0xCC ∷ 0xCC ∷ 0xCC ∷ 0x76 ∷ 0x00 ∷ [])
    ∷ (0x00 ∷ 0x00 ∷ 0xCC ∷ 0xCC ∷ 0xCC ∷ 0x78 ∷ 0x30 ∷ 0x00 ∷ [])
    ∷ (0x00 ∷ 0x00 ∷ 0xC6 ∷ 0xD6 ∷ 0xFE ∷ 0xFE ∷ 0x6C ∷ 0x00 ∷ [])
    ∷ (0x00 ∷ 0x00 ∷ 0xC6 ∷ 0x6C ∷ 0x38 ∷ 0x6C ∷ 0xC6 ∷ 0x00 ∷ [])
    ∷ (0x00 ∷ 0x00 ∷ 0xCC ∷ 0xCC ∷ 0xCC ∷ 0x7C ∷ 0x0C ∷ 0xF8 ∷ [])
    ∷ (0x00 ∷ 0x00 ∷ 0xFC ∷ 0x98 ∷ 0x30 ∷ 0x64 ∷ 0xFC ∷ 0x00 ∷ [])
    ∷ (0x1C ∷ 0x30 ∷ 0x30 ∷ 0xE0 ∷ 0x30 ∷ 0x30 ∷ 0x1C ∷ 0x00 ∷ [])
    ∷ (0x18 ∷ 0x18 ∷ 0x18 ∷ 0x00 ∷ 0x18 ∷ 0x18 ∷ 0x18 ∷ 0x00 ∷ [])
    ∷ (0xE0 ∷ 0x30 ∷ 0x30 ∷ 0x1C ∷ 0x30 ∷ 0x30 ∷ 0xE0 ∷ 0x00 ∷ [])
    ∷ (0x76 ∷ 0xDC ∷ 0x00 ∷ 0x00 ∷ 0x00 ∷ 0x00 ∷ 0x00 ∷ 0x00 ∷ [])
    ∷ []

-- The row of the table; past its end, nothing is drawn here.
abbrev pub glyph_at : ℕ → List ℕ
glyph_at i = elim (get_elem? font8x8_basic i) [ none ↦ [] | some g ↦ g ]

-- A character is a byte; the code's `char` is signed, and is negative from 128 on.
unfoldable pub font_get_char : ℕ → List ℕ
font_get_char c = if leb 32 c && leb c 126 then glyph_at (c - 32) else glyph_at 0

abbrev all_bytes : List ℕ → Bool
all_bytes [] = true
all_bytes (b ∷ bs) = ltb b 256 && all_bytes bs

abbrev all_glyphs : List (List ℕ) → Bool
all_glyphs [] = true
all_glyphs (g ∷ gs) = (length g == 8) && all_bytes g && all_glyphs gs

-- Eight rows, each of them a byte.
abbrev pub IsGlyph : List ℕ → Type 0
IsGlyph g = (length g ≡ 8) × All (λ b. b < 256) g

all_bytes_lem : (g : List ℕ) → all_bytes g ≡ true → All (λ b. b < 256) g
all_bytes_lem [] h = tt
all_bytes_lem (b ∷ bs) h = (ground (arith, h), all_bytes_lem bs (ground (arith, h)))

all_glyphs_lem :
    (gs : List (List ℕ)) (i : ℕ)
    → all_glyphs gs ≡ true
    → i < length gs
    → IsGlyph (elim (get_elem? gs i) [ none ↦ [] | some g ↦ g ])
all_glyphs_lem [] i h l = omega (arith, l)
all_glyphs_lem (g ∷ gs) zero h l = (ground (arith, h), all_bytes_lem g (ground (arith, h)))
all_glyphs_lem (g ∷ gs) (suc i) h l = all_glyphs_lem gs i (ground (arith, h)) (omega (arith, l))

font_checked : (all_glyphs font8x8_basic ≡ true) × (length font8x8_basic ≡ 95)
unfolding font8x8_basic
font_checked = (refl, refl)

-- Whatever the character is, font_get_char gives a glyph of eight rows, each of them a byte: the table
-- is not read past its end.
pub font_get_char-IsGlyph : (c : ℕ) → IsGlyph (font_get_char c)
unfolding font_get_char
font_get_char-IsGlyph c =
    let (all, len) = font_checked in
    elim (Bool-cases (leb 32 c && leb c 126)) [
      | inl e ↦ rw e (all_glyphs_lem font8x8_basic (c - 32) all (rw len (ground (arith, e))))
      | inr e ↦ rw e (all_glyphs_lem font8x8_basic 0 all (rw len (omega arith)))
    ]
