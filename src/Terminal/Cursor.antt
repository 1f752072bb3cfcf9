-- ===== src/Terminal/Cursor.antt =====
-- Where the terminal's cursor is, and which cells it writes.
use lun_os.Prelude.{
  ℕ, ◌+◌, ◌-◌, ◌*◌, ◌%◌, ◌^◌, ◌≤◌, ◌<◌, ◌≡◌, refl, ap, ◌∙◌, arith, Bool, true, false, Option, List,
  [], ◌∷◌, if◌then◌else◌, leb, ◌==◌, ◌||◌,
}
use lun_os.Prelude.Grid.{row_below, last_row_product, area}
use lun_os.Framebuffer.{Mode}
use lun_os.Terminal.{
  Term, Cell, terminal_newline, advance, terminal_putchar, terminal_write, terminal_scroll,
  terminal_render, terminal_putentryat, change_cells, moved_up, last_row, draw_cell, tab_width,
  buffer_cells,
}

-- The row is on the screen, there is a column, and the cells are those of the buffer.
pub record Placed (t : Term) : Type 0 where
  pub rows_fit : t.total_rows < 2 ^ 16
  pub columns_fit : t.total_columns < 2 ^ 16
  pub in_buffer : t.total_rows * t.total_columns ≤ buffer_cells
  pub row_inside : t.current_row < t.total_rows
  pub some_column : 0 < t.total_columns

-- So is the column.
pub record OnScreen (t : Term) : Type 0 where
  pub placed : Placed t
  pub column_inside : t.current_column < t.total_columns

-- The sizes and the colours are the same, the cursor is on the screen, and so are the cells that differ.
pub record Stays (t t' : Term) : Type 0 where
  pub rows_same : t'.total_rows ≡ t.total_rows
  pub columns_same : t'.total_columns ≡ t.total_columns
  pub fg_same : t'.fg_color ≡ t.fg_color
  pub bg_same : t'.bg_color ≡ t.bg_color
  pub on_screen : OnScreen t'
  pub beyond : (i : ℕ) → t.total_rows * t.total_columns ≤ i → t'.buffer i ≡ t.buffer i

-- A state with the sizes and the cells of another one.
unmoved :
    (t s : Term) {u : Term}
    → s.total_rows ≡ t.total_rows
    → s.total_columns ≡ t.total_columns
    → s.fg_color ≡ t.fg_color
    → s.bg_color ≡ t.bg_color
    → s.buffer ≡ t.buffer
    → Stays s u
    → Stays t u
unmoved t s er ec ef eg eb k = record {
  rows_same = k.rows_same ∙ er;
  columns_same = k.columns_same ∙ ec;
  fg_same = k.fg_same ∙ ef;
  bg_same = k.bg_same ∙ eg;
  on_screen = k.on_screen;
  beyond = λ i h. k.beyond i (rw (er, ec) h) ∙ ap (λ (f : ℕ → Cell). f i) eb;
}

follow : (t s : Term) {u : Term} → Stays t s → Stays s u → Stays t u
follow t s j k = record {
  rows_same = k.rows_same ∙ j.rows_same;
  columns_same = k.columns_same ∙ j.columns_same;
  fg_same = k.fg_same ∙ j.fg_same;
  bg_same = k.bg_same ∙ j.bg_same;
  on_screen = k.on_screen;
  beyond = λ i h. k.beyond i (rw (j.rows_same, j.columns_same) h) ∙ j.beyond i h;
}

pub choose {ℓ} :
    (P : Term → Type ℓ) (b : Bool) (x y : Term)
    → (b ≡ true → P x)
    → (b ≡ false → P y)
    → P (if b then x else y)
choose P true x y f g = f refl
choose P false x y f g = g refl

same : (t : Term) → OnScreen t → Stays t t
same t o = record {
  rows_same = refl;
  columns_same = refl;
  fg_same = refl;
  bg_same = refl;
  on_screen = o;
  beyond = λ i h. refl;
}

-- The sizes of terminal_scroll, without their wraps.
pub last_start :
    (t : Term)
    → Placed t
    → (last_row t * t.total_columns % 2 ^ 64 ≡ (t.total_rows - 1) * t.total_columns)
      × (last_row t * t.total_columns * 12 % 2 ^ 64 ≡ (t.total_rows - 1) * t.total_columns * 12)
      × ((t.total_rows - 1) * t.total_columns + t.total_columns ≡ t.total_rows * t.total_columns)
last_start t o =
    let last : last_row t ≡ t.total_rows - 1 = omega (arith, o.rows_fit, o.row_inside) in
    let product : last_row t * t.total_columns ≡ (t.total_rows - 1) * t.total_columns =
      ap (λ (n : ℕ). n * t.total_columns) last in
    let total = last_row_product t.total_rows t.total_columns (omega (arith, o.row_inside)) in
    let small = area t.total_rows t.total_columns o.rows_fit o.columns_fit in
    (omega (arith, product, total, small), omega (arith, product, total, small), total)

scroll-Stays :
    (fb : Option Mode) (t : Term) (row : ℕ)
    → Placed t
    → Stays t
        (terminal_render fb (terminal_scroll record t { current_column = 0; current_row = row }))
unfolding terminal_scroll terminal_render change_cells moved_up
scroll-Stays fb t row o = record {
  rows_same = refl;
  columns_same = refl;
  fg_same = refl;
  bg_same = refl;
  on_screen = record {
    placed = record {
      rows_fit = o.rows_fit;
      columns_fit = o.columns_fit;
      in_buffer = o.in_buffer;
      row_inside = omega (arith, o.rows_fit, o.row_inside);
      some_column = o.some_column;
    };
    column_inside = o.some_column;
  };
  beyond = λ i h. let (a, b, c) = last_start t o in rw (a, b) (ground (arith, h, c));
}

terminal_newline-Stays : (fb : Option Mode) (t : Term) → Placed t → Stays t (terminal_newline fb t)
unfolding terminal_newline
terminal_newline-Stays fb t o =
    choose (Stays t) (leb t.total_rows ((t.current_row + 1) % 2 ^ 16))
      (terminal_render fb (
        terminal_scroll
          record t { current_column = 0; current_row = (t.current_row + 1) % 2 ^ 16 }))
      record t { current_column = 0; current_row = (t.current_row + 1) % 2 ^ 16 }
      (λ e. scroll-Stays fb t _ o)
      (λ e. record {
        rows_same = refl;
        columns_same = refl;
        fg_same = refl;
        bg_same = refl;
        on_screen = record {
          placed = record {
            rows_fit = o.rows_fit;
            columns_fit = o.columns_fit;
            in_buffer = o.in_buffer;
            row_inside = ground (arith, e);
            some_column = o.some_column;
          };
          column_inside = o.some_column;
        };
        beyond = λ i h. refl;
      })

advance-Stays :
    (fb : Option Mode) (column : ℕ) (t : Term) → Placed t → Stays t (advance fb column t)
unfolding advance
advance-Stays fb column t o =
    let moved = record t { current_column = column } in
    let p : Placed moved = record {
      rows_fit = o.rows_fit;
      columns_fit = o.columns_fit;
      in_buffer = o.in_buffer;
      row_inside = o.row_inside;
      some_column = o.some_column;
    } in
    choose (Stays t) (leb t.total_columns column) (terminal_newline fb moved) moved
      (λ e. unmoved t moved refl refl refl refl refl (terminal_newline-Stays fb moved p))
      (λ e. record {
        rows_same = refl;
        columns_same = refl;
        fg_same = refl;
        bg_same = refl;
        on_screen = record { placed = p; column_inside = ground (arith, e) };
        beyond = λ i h. refl;
      })

pub terminal_putentryat-Stays :
    (fb : Option Mode) (c : Cell) (t : Term)
    → OnScreen t
    → Stays t (terminal_putentryat fb c t.current_column t.current_row t)
unfolding terminal_putentryat
terminal_putentryat-Stays fb c t o =
    choose (Stays t) (leb t.total_columns t.current_column || leb t.total_rows t.current_row) t
      record t {
        buffer =
            λ i. if i == t.current_row * t.total_columns + t.current_column then c else t.buffer i;
        pixels = draw_cell fb c t.current_column t.current_row t.pixels;
      }
      (λ e. same t o)
      (λ e. record {
        rows_same = refl;
        columns_same = refl;
        fg_same = refl;
        bg_same = refl;
        on_screen = record {
          placed = record {
            rows_fit = o.placed.rows_fit;
            columns_fit = o.placed.columns_fit;
            in_buffer = o.placed.in_buffer;
            row_inside = o.placed.row_inside;
            some_column = o.placed.some_column;
          };
          column_inside = o.column_inside;
        };
        beyond = λ i h.
            let below =
              row_below t.total_columns t.current_column t.current_row t.total_rows o.column_inside
                o.placed.row_inside in
            ground (arith, h, below);
      })

pub terminal_putchar-Stays :
    (fb : Option Mode) (c : Cell) (t : Term) → OnScreen t → Stays t (terminal_putchar fb c t)
unfolding terminal_putchar
terminal_putchar-Stays fb c t o =
    let written = terminal_putentryat fb c t.current_column t.current_row t in
    let w = terminal_putentryat-Stays fb c t o in
    let tab = (t.current_column + (tab_width - t.current_column % tab_width)) % 2 ^ 16 in
    let next = (t.current_column + 1) % 2 ^ 16 in
    choose (Stays t) (c.ch == 10) (terminal_newline fb t)
      (if c.ch == 9 then advance fb tab t else advance fb next written)
      (λ e. terminal_newline-Stays fb t o.placed)
      (λ e.
        choose (Stays t) (c.ch == 9) (advance fb tab t) (advance fb next written)
          (λ f. advance-Stays fb tab t o.placed)
          (λ f. follow t written w (advance-Stays fb next written w.on_screen.placed)))

-- Where the screen has fewer than 2 ^ 16 rows and columns and the cursor is on it, after
-- terminal_write of any bytes the sizes and the colours are the same, the cursor is on the screen, and no cell of the
-- buffer from the number of the screen's cells on has changed.
pub terminal_write-Stays :
    (fb : Option Mode) (string : List ℕ) (t : Term)
    → OnScreen t
    → Stays t (terminal_write fb string t)
unfolding terminal_write
terminal_write-Stays fb [] t o = same t o
terminal_write-Stays fb (ch ∷ string) t o =
    let s = terminal_putchar fb record { ch = ch; fg = t.fg_color; bg = t.bg_color } t in
    let k = terminal_putchar-Stays fb _ t o in
    follow t s k (terminal_write-Stays fb string s k.on_screen)
