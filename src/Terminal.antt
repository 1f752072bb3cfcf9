-- ===== src/Terminal.antt =====
-- The terminal: kernel/kernel/console/tty/tty.c and include/kernel/tty.h, over Framebuffer. The
-- buffer is read and written by the number of a cell, of which there are 240 * 135; a screen with more
-- cells is refused where the code starts, since it writes past the array. The framebuffer that fb_get returns stays the
-- same, and the pixels are part of the state.
pub mod Draw
pub mod Cursor
pub mod Screen
pub mod Scroll
pub mod Roll
use lun_os.Prelude.{
  ℕ, zero, suc, ◌+◌, ◌-◌, ◌*◌, ◌/◌, ◌%◌, ◌^◌, Bool, ◌||◌, Option, none, some, List, [], ◌∷◌, leb,
  ltb, ◌==◌, if◌then◌else◌, sub64,
}
use lun_os.Framebuffer.{Mode, Pixels, fb_put_char}
use lun_os.Framebuffer.Font.{font_width, font_height}

-- The cells of terminal_buffer.
abbrev pub buffer_cells : ℕ
buffer_cells = 240 * 135

abbrev pub tab_width : ℕ
tab_width = 8

-- struct term_cell_t; `sizeof` it is 12.
pub record Cell : Type 0 where
  pub ch : ℕ
  pub fg : ℕ
  pub bg : ℕ

-- `buffer` at `buffer_cells` and above is no part of the state.
pub record Term : Type 0 where
  pub total_rows : ℕ
  pub total_columns : ℕ
  pub current_row : ℕ
  pub current_column : ℕ
  pub fg_color : ℕ
  pub bg_color : ℕ
  pub buffer : ℕ → Cell
  pub pixels : Pixels

-- Without a framebuffer the code halts; that is `none`.
pub get_screen_dimensions : Option Mode → Term → Option Term
get_screen_dimensions none t = none
get_screen_dimensions (some fb) t = some record t {
  total_columns = fb.width / font_width % 2 ^ 16;
  total_rows = fb.height / font_height % 2 ^ 16;
}

-- fb_put_char of a cell at a column and a row
unfoldable pub draw_cell : Option Mode → Cell → ℕ → ℕ → Pixels → Pixels
draw_cell fb c x y p =
    fb_put_char fb c.ch (x * font_width % 2 ^ 32) (y * font_height % 2 ^ 32) c.fg c.bg p

-- The first `n` cells of row `y`, and the first `n` rows.
unfoldable pub render_row : Option Mode → (ℕ → Cell) → ℕ → ℕ → ℕ → Pixels → Pixels
render_row fb buffer columns y zero p = p
render_row fb buffer columns y (suc x) p =
    draw_cell fb (buffer (y * columns + x)) x y (render_row fb buffer columns y x p)

unfoldable pub render_rows : Option Mode → (ℕ → Cell) → ℕ → ℕ → Pixels → Pixels
render_rows fb buffer columns zero p = p
render_rows fb buffer columns (suc y) p =
    render_row fb buffer columns y columns (render_rows fb buffer columns y p)

unfoldable pub terminal_render : Option Mode → Term → Term
terminal_render fb t = record t {
  pixels = render_rows fb t.buffer t.total_columns t.total_rows t.pixels;
}

-- The cells from `from` on, `n` of them, through `f`.
unfoldable pub change_cells : ℕ → ℕ → (Cell → Cell) → (ℕ → Cell) → ℕ → Cell
change_cells from n f buffer i =
    if leb from i then (if ltb i (from + n) then f (buffer i) else buffer i) else buffer i

-- The state after the sizes and the loop over the cells.
abbrev pub blank_screen : ℕ → ℕ → Term → Term
blank_screen fg bg s = record s {
  current_row = 0;
  current_column = 0;
  fg_color = fg;
  bg_color = bg;
  buffer =
      change_cells 0 (s.total_rows * s.total_columns) (λ c. record { ch = 32; fg = fg; bg = bg })
        s.buffer;
}

-- `none` where the code halts, or writes past the buffer.
pub terminal_initialize : Option Mode → ℕ → ℕ → Term → Option Term
terminal_initialize fb fg bg t = elim (get_screen_dimensions fb t) [
  | none ↦ none
  | some s ↦
      if ltb buffer_cells (s.total_rows * s.total_columns)
      then none
      else some (terminal_render fb (blank_screen fg bg s))
]

unfoldable pub terminal_putentryat : Option Mode → Cell → ℕ → ℕ → Term → Term
terminal_putentryat fb c x y t =
    let index = y * t.total_columns + x in
    if leb t.total_columns x || leb t.total_rows y then t else record t {
      buffer = λ i. if i == index then c else t.buffer i;
      pixels = draw_cell fb c x y t.pixels;
    }

-- `total_rows - 1`, as the size that it is part of
abbrev pub last_row : Term → ℕ
last_row t = sub64 t.total_rows 1

-- The memmove of terminal_scroll moves the cells of which all 12 bytes lie in its size.
unfoldable pub moved_up : ℕ → ℕ → (ℕ → Cell) → ℕ → Cell
moved_up columns size buffer i = if leb (12 * (i + 1)) size then buffer (i + columns) else buffer i

unfoldable pub blank : Cell → Cell
blank c = record c { ch = 32 }

unfoldable pub terminal_scroll : Term → Term
terminal_scroll t = record t {
  buffer =
      change_cells (last_row t * t.total_columns % 2 ^ 64) t.total_columns blank
        (moved_up t.total_columns (last_row t * t.total_columns * 12 % 2 ^ 64) t.buffer);
  current_row = last_row t % 2 ^ 16;
}

unfoldable pub terminal_newline : Option Mode → Term → Term
terminal_newline fb t =
    let row = (t.current_row + 1) % 2 ^ 16 in
    let down = record t { current_column = 0; current_row = row } in
    if leb t.total_rows row then terminal_render fb (terminal_scroll down) else down

-- The end of a step of the cursor to a column.
unfoldable pub advance : Option Mode → ℕ → Term → Term
advance fb column t =
    let moved = record t { current_column = column } in
    if leb t.total_columns column then terminal_newline fb moved else moved

-- The column is on 16 bits.
unfoldable pub terminal_putchar : Option Mode → Cell → Term → Term
terminal_putchar fb c t =
    let tab = (t.current_column + (tab_width - t.current_column % tab_width)) % 2 ^ 16 in
    let next = (t.current_column + 1) % 2 ^ 16 in
    if c.ch == 10
    then terminal_newline fb t
    else if c.ch == 9
    then advance fb tab t
    else advance fb next (terminal_putentryat fb c t.current_column t.current_row t)

-- The string is the bytes that terminal_write is given.
pub terminal_write : Option Mode → List ℕ → Term → Term
terminal_write fb [] t = t
terminal_write fb (ch ∷ rest) t =
    terminal_write fb rest
      (terminal_putchar fb record { ch = ch; fg = t.fg_color; bg = t.bg_color } t)

pub terminal_clear : Option Mode → Term → Term
terminal_clear fb t = terminal_render fb record t {
  buffer =
      change_cells 0 (t.total_rows * t.total_columns)
        (λ c. record { ch = 32; fg = 0xFFFFFF; bg = 0x000035 }) t.buffer;
  current_row = 0;
  current_column = 0;
}

pub terminal_setcolor : ℕ → ℕ → Term → Term
terminal_setcolor fg bg t = record t { fg_color = fg; bg_color = bg }
