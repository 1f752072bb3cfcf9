-- ===== src/Terminal/Screen.antt =====
-- The screen shows the buffer.
use lun_os.Prelude.{
  ℕ, ◌+◌, ◌-◌, ◌*◌, ◌/◌, ◌%◌, ◌^◌, ◌≤◌, ◌<◌, ◌≡◌, refl, ◌∙◌, arith, ◌||◌, Option, some, List, [],
  ◌∷◌, if◌then◌else◌, ◌==◌, leb, ltb, false,
}
use lun_os.Prelude.Grid.{same_cell}
use lun_os.Framebuffer.{Mode, word_of}
use lun_os.Framebuffer.Draw.{IsMode}
use lun_os.Terminal.{
  Term, Cell, draw_cell, terminal_render, terminal_putentryat, terminal_newline, terminal_scroll,
  advance, terminal_putchar, terminal_write, terminal_initialize, get_screen_dimensions,
  blank_screen, tab_width, buffer_cells,
}
use lun_os.Terminal.Cursor.{OnScreen, choose, terminal_putchar-Stays}
use lun_os.Terminal.Draw.{cell_pixel, Fits, draw_cell_lem, render_rows_lem}

-- Each pixel of the box of a cell has the colour that the cell in the buffer gives it.
abbrev pub Shows : Mode → Term → Type 0
Shows fb t =
    (px py : ℕ)
    → px < t.total_columns * 8
    → py < t.total_rows * 8
    → t.pixels (word_of fb px py)
      ≡ cell_pixel (t.buffer (py / 8 * t.total_columns + px / 8)) (px % 8) (py % 8)

module _ (fb : Mode) (ok : IsMode fb) where
  terminal_render-Shows :
      (t : Term) → Fits fb t.total_columns t.total_rows → Shows fb (terminal_render (some fb) t)
  unfolding terminal_render
  terminal_render-Shows t fits px py h k =
      render_rows_lem fb ok t.total_columns t.total_rows fits px py h k t.buffer t.total_rows
        t.pixels (omega arith)
      ∙ ground (arith, k)

  terminal_newline-Shows :
      (t : Term)
      → Fits fb t.total_columns t.total_rows
      → Shows fb t
      → Shows fb (terminal_newline (some fb) t)
  unfolding terminal_newline terminal_scroll
  terminal_newline-Shows t fits shows =
      let row = (t.current_row + 1) % 2 ^ 16 in
      let down = record t { current_column = 0; current_row = row } in
      choose (Shows fb) (leb t.total_rows row) (terminal_render (some fb) (terminal_scroll down))
        down (λ e. terminal_render-Shows (terminal_scroll down) fits) (λ e. shows)

  advance-Shows :
      (column : ℕ) (t : Term)
      → Fits fb t.total_columns t.total_rows
      → Shows fb t
      → Shows fb (advance (some fb) column t)
  unfolding advance
  advance-Shows column t fits shows =
      let moved = record t { current_column = column } in
      choose (Shows fb) (leb t.total_columns column) (terminal_newline (some fb) moved) moved
        (λ e. terminal_newline-Shows moved fits shows) (λ e. shows)

  terminal_putentryat-Shows :
      (c : Cell) (x y : ℕ) (t : Term)
      → Fits fb t.total_columns t.total_rows
      → Shows fb t
      → Shows fb (terminal_putentryat (some fb) c x y t)
  unfolding terminal_putentryat
  terminal_putentryat-Shows c x y t fits shows =
      let index = y * t.total_columns + x in
      choose (Shows fb) (leb t.total_columns x || leb t.total_rows y) t
        record t {
          buffer = λ i. if i == index then c else t.buffer i;
          pixels = draw_cell (some fb) c x y t.pixels;
        }
        (λ e. shows)
        (λ e px py h k.
          let drawn =
            draw_cell_lem fb ok t.total_columns t.total_rows fits px py h k c x y t.pixels
              (ground (arith, e)) (ground (arith, e)) in
          let one : py / 8 * t.total_columns + px / 8 ≡ index → (px / 8 ≡ x) × (py / 8 ≡ y) =
            same_cell t.total_columns (px / 8) (py / 8) x y (omega (arith, h))
              (ground (arith, e)) in
          let two : px / 8 ≡ x → py / 8 ≡ y → py / 8 * t.total_columns + px / 8 ≡ index =
            λ u v. rw (u, v) refl in
          drawn ∙ ground (arith, one, two, shows px py h k))

  terminal_putentryat-Fits :
      (c : Cell) (x y : ℕ) (t : Term)
      → Fits fb t.total_columns t.total_rows
      → Fits fb
          (terminal_putentryat (some fb) c x y t).total_columns
          (terminal_putentryat (some fb) c x y t).total_rows
  unfolding terminal_putentryat
  terminal_putentryat-Fits c x y t fits =
      choose (λ u. Fits fb u.total_columns u.total_rows)
        (leb t.total_columns x || leb t.total_rows y) t
        record t {
          buffer = λ i. if i == y * t.total_columns + x then c else t.buffer i;
          pixels = draw_cell (some fb) c x y t.pixels;
        }
        (λ e. fits) (λ e. fits)

  module _ (t : Term) (placed : Fits fb t.total_columns t.total_rows) (shows : Shows fb t) where
    terminal_putchar-Shows : (c : Cell) → Shows fb (terminal_putchar (some fb) c t)
    unfolding terminal_putchar
    terminal_putchar-Shows c =
        let written = terminal_putentryat (some fb) c t.current_column t.current_row t in
        let tab = (t.current_column + (tab_width - t.current_column % tab_width)) % 2 ^ 16 in
        let next = (t.current_column + 1) % 2 ^ 16 in
        choose (Shows fb) (c.ch == 10) (terminal_newline (some fb) t)
          (if c.ch == 9 then advance (some fb) tab t else advance (some fb) next written)
          (λ e. terminal_newline-Shows t placed shows)
          (λ e.
            choose (Shows fb) (c.ch == 9) (advance (some fb) tab t) (advance (some fb) next written)
              (λ f. advance-Shows tab t placed shows)
              (λ f.
                advance-Shows next written (terminal_putentryat-Fits c _ _ t placed)
                  (terminal_putentryat-Shows c _ _ t placed shows)))

  terminal_write-Shows :
      (string : List ℕ) (t : Term)
      → OnScreen t
      → Fits fb t.total_columns t.total_rows
      → Shows fb t
      → Shows fb (terminal_write (some fb) string t)
  unfolding terminal_write
  terminal_write-Shows [] t o fits shows = shows
  terminal_write-Shows (ch ∷ string) t o fits shows =
      let c : Cell = record { ch = ch; fg = t.fg_color; bg = t.bg_color } in
      let k = terminal_putchar-Stays (some fb) c t o in
      terminal_write-Shows string (terminal_putchar (some fb) c t) k.on_screen
        (rw (k.columns_same, k.rows_same) fits) (terminal_putchar-Shows t fits shows c)

-- The terminal that terminal_initialize leaves.
pub record Started (fb : Mode) (r : Option Term) : Type 0 where
  pub term : Term
  pub done : r ≡ some term
  pub on_screen : OnScreen term
  pub fits : Fits fb term.total_columns term.total_rows
  pub shown : (string : List ℕ) → Shows fb (terminal_write (some fb) string term)

-- On a screen whose lines do not overlap, of at least 8 and fewer than 2 ^ 19 pixels in both directions,
-- and of at most 240 * 135 cells of 8 by 8 pixels, terminal_initialize does not halt and stays in the
-- buffer, its cells lie on the screen and the cursor among them; and after any bytes have then been
-- written with terminal_write, each pixel of the box of each cell has the colour that the cell in the
-- buffer gives it.
pub terminal_initialize-Started :
    (fb : Mode) (fg bg : ℕ) (t : Term)
    → IsMode fb
    → 8 ≤ fb.width
    → fb.width < 2 ^ 19
    → 8 ≤ fb.height
    → fb.height < 2 ^ 19
    → fb.height / 8 * (fb.width / 8) ≤ buffer_cells
    → Started fb (terminal_initialize (some fb) fg bg t)
unfolding terminal_initialize get_screen_dimensions terminal_render
terminal_initialize-Started fb fg bg t ok w1 w2 h1 h2 few =
    let columns = fb.width / 8 % 2 ^ 16 in
    let rows = fb.height / 8 % 2 ^ 16 in
    let across : columns ≡ fb.width / 8 = omega (arith, w2) in
    let down : rows ≡ fb.height / 8 = omega (arith, h2) in
    let cells : rows * columns ≤ buffer_cells = rw (across, down) few in
    let room : ltb buffer_cells (rows * columns) ≡ false = ground (arith, cells) in
    let start = blank_screen fg bg record t { total_rows = rows; total_columns = columns } in
    let fits : Fits fb columns rows = record {
      across = omega arith;
      down = omega arith;
      few_columns = omega arith;
      few_rows = omega arith;
    } in
    let on : OnScreen (terminal_render (some fb) start) = record {
      placed = record {
        rows_fit = omega arith;
        columns_fit = omega arith;
        in_buffer = cells;
        row_inside = omega (arith, h1, h2);
        some_column = omega (arith, w1, w2);
      };
      column_inside = omega (arith, w1, w2);
    } in
    record {
      term = terminal_render (some fb) start;
      done = rw room refl;
      on_screen = on;
      fits = fits;
      shown = λ string.
          terminal_write-Shows fb ok string (terminal_render (some fb) start) on fits
            (terminal_render-Shows fb ok start fits);
    }
