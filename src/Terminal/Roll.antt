-- ===== src/Terminal/Roll.antt =====
-- The terminal as a window on a roll of lines that grows at its end, and nothing on it moves.
use lun_os.Prelude.{
  ℕ, ◌+◌, ◌-◌, ◌*◌, ◌%◌, ◌^◌, ◌≤◌, ◌<◌, ◌≡◌, refl, sym, ap, ◌∙◌, arith, ◌||◌, Option, List, [], ◌∷◌,
  if◌then◌else◌, ◌==◌, leb, ◌&&◌, ℕ_discrete, Bool-cases, inl, inr, true, false,
}
use lun_os.Prelude.Grid.{same_cell}
use lun_os.Framebuffer.{Mode}
use lun_os.Terminal.{
  Term, Cell, blank, terminal_render, terminal_putentryat, terminal_newline, terminal_scroll,
  advance, terminal_putchar, terminal_write, tab_width,
}
use lun_os.Terminal.Scroll.{scrolled_up, blanked}
use lun_os.Terminal.Cursor.{Placed, OnScreen, terminal_putentryat-Stays, terminal_putchar-Stays}

-- The lines are numbered from the first one ever shown; the window begins at `top`.
pub record Roll : Type 0 where
  pub top : ℕ
  pub line : ℕ
  pub column : ℕ
  pub text : ℕ → ℕ → Cell

module _ (rows columns : ℕ) where
  -- To the next line. Behind the last line of the window a new one is added, as the one before it with
  -- its characters blanked.
  unfoldable pub feed : Roll → Roll
  feed r =
      let end = r.top + rows in
      let grown = record r {
        top = r.top + 1;
        line = r.line + 1;
        column = 0;
        text = λ l x. if l == end then blank (r.text (end - 1) x) else r.text l x;
      } in
      if r.line + 1 == end then grown else record r { line = r.line + 1; column = 0 }

  unfoldable pub go_to : ℕ → Roll → Roll
  unfolding feed
  go_to column r = if leb columns column then feed r else record r { column = column }

  -- A newline, a tabulator or a character.
  unfoldable pub put_cell : Cell → Roll → Roll
  unfolding go_to
  put_cell c r =
      let written = record r {
        text = λ l x. if (l == r.line) && (x == r.column) then c else r.text l x;
      } in
      if c.ch == 10
      then feed r
      else if c.ch == 9
      then go_to (r.column + (8 - r.column % 8)) r
      else go_to (r.column + 1) written

  pub put_all : ℕ → ℕ → List ℕ → Roll → Roll
  put_all fg bg [] r = r
  put_all fg bg (ch ∷ string) r =
      put_all fg bg string (put_cell record { ch = ch; fg = fg; bg = bg } r)

-- The terminal shows the window, and its cursor is that of the roll.
pub record View (t : Term) (r : Roll) : Type 0 where
  pub same_row : r.line ≡ r.top + t.current_row
  pub same_column : r.column ≡ t.current_column
  pub same_cells :
      (x y : ℕ)
      → x < t.total_columns
      → y < t.total_rows
      → t.buffer (y * t.total_columns + x) ≡ r.text (r.top + y) x

module _ (fb : Option Mode) (t : Term) (r : Roll) (columns : ℕ) where
  abbrev next_row : ℕ
  next_row = (t.current_row + 1) % 2 ^ 16

  terminal_newline-View :
      Placed t → View t r → View (terminal_newline fb t) (feed t.total_rows columns r)
  unfolding terminal_newline feed terminal_render terminal_scroll
  terminal_newline-View o v = elim (ℕ_discrete (t.current_row + 1) t.total_rows) [
    | yes last ↦
        let here : leb t.total_rows next_row ≡ true = ground (arith, last, o.rows_fit) in
        let there : (r.line + 1 == r.top + t.total_rows) ≡ true =
          ground (arith, last, v.same_row) in
        rw (here, there)
          (record {
            same_row = omega (arith, last, v.same_row, o.rows_fit, o.row_inside);
            same_column = refl;
            same_cells = λ x y h k. elim (ℕ_discrete (y + 1) t.total_rows) [
              | yes e ↦
                  let number : r.top + y ≡ r.top + t.total_rows - 1 = omega (arith, e) in
                  blanked t o x y h e
                  ∙ ap blank (v.same_cells x y h k ∙ ap (λ (l : ℕ). r.text l x) number)
                  ∙ ground (arith, e)
              | no ne ↦
                  let number : r.top + (y + 1) ≡ r.top + 1 + y = omega arith in
                  scrolled_up t o x y h (omega (arith, k, ne))
                  ∙ v.same_cells x (y + 1) h (omega (arith, k, ne))
                  ∙ ap (λ (l : ℕ). r.text l x) number
                  ∙ ground (arith, ne)
            ];
          })
    | no ne ↦
        let here : leb t.total_rows next_row ≡ false =
          ground (arith, ne, o.rows_fit, o.row_inside) in
        let there : (r.line + 1 == r.top + t.total_rows) ≡ false = ground (arith, ne, v.same_row) in
        rw (here, there)
          (record {
            same_row = omega (arith, ne, v.same_row, o.rows_fit, o.row_inside);
            same_column = refl;
            same_cells = v.same_cells;
          })
  ]

module _ (fb : Option Mode) where
  go_to-View :
      (t : Term) (r : Roll) (column : ℕ)
      → Placed t
      → View t r
      → View (advance fb column t) (go_to t.total_rows t.total_columns column r)
  unfolding advance go_to feed
  go_to-View t r column o v =
      let moved = record t { current_column = column } in
      let placed : Placed moved = record {
        rows_fit = o.rows_fit;
        columns_fit = o.columns_fit;
        in_buffer = o.in_buffer;
        row_inside = o.row_inside;
        some_column = o.some_column;
      } in
      let view : View moved (record r { column = column }) = record {
        same_row = v.same_row;
        same_column = refl;
        same_cells = v.same_cells;
      } in
      elim (Bool-cases (leb t.total_columns column)) [
        | inl e ↦ rw e (
            terminal_newline-View fb moved (record r { column = column }) t.total_columns placed
              view)
        | inr e ↦ rw e view
      ]

  go_to_sized :
      (t : Term) (r : Roll) (column rows columns : ℕ)
      → t.total_rows ≡ rows
      → t.total_columns ≡ columns
      → Placed t
      → View t r
      → View (advance fb column t) (go_to rows columns column r)
  go_to_sized t r column rows columns er ec o v = rw (sym er, sym ec) (go_to-View t r column o v)

  terminal_putentryat-View :
      (t : Term) (r : Roll) (c : Cell)
      → OnScreen t
      → View t r
      → View
          (terminal_putentryat fb c t.current_column t.current_row t)
          (record r { text = λ l x. if (l == r.line) && (x == r.column) then c else r.text l x })
  unfolding terminal_putentryat
  terminal_putentryat-View t r c o v =
      let inside : (leb t.total_columns t.current_column || leb t.total_rows t.current_row)
          ≡ false =
        ground (arith, o.column_inside, o.placed.row_inside) in
      rw inside (record {
        same_row = v.same_row;
        same_column = v.same_column;
        same_cells = λ x y h k.
            let one =
              same_cell t.total_columns x y t.current_column t.current_row h o.column_inside in
            let two : x ≡ t.current_column
                → y ≡ t.current_row
                → y * t.total_columns + x ≡ t.current_row * t.total_columns + t.current_column =
              λ e f. rw (e, f) refl in
            ground (arith, one, two, v.same_row, v.same_column, v.same_cells x y h k);
      })

  terminal_putchar-View :
      (t : Term) (r : Roll) (c : Cell)
      → t.total_columns ≤ 65528
      → OnScreen t
      → View t r
      → View (terminal_putchar fb c t) (put_cell t.total_rows t.total_columns c r)
  unfolding terminal_putchar put_cell
  terminal_putchar-View t r c few o v =
      let same : r.column ≡ t.current_column = v.same_column in
      elim (Bool-cases (c.ch == 10)) [
        | inl e ↦ rw e (terminal_newline-View fb t r t.total_columns o.placed v)
        | inr e ↦ elim (Bool-cases (c.ch == 9)) [
          | inl f ↦
              let tab : r.column + (8 - r.column % 8)
                  ≡ (t.current_column + (tab_width - t.current_column % tab_width)) % 2 ^ 16 =
                omega (arith, same, few, o.column_inside) in
              rw (e, f, tab) (go_to-View t r _ o.placed v)
          | inr f ↦
              let next : r.column + 1 ≡ (t.current_column + 1) % 2 ^ 16 =
                omega (arith, same, few, o.column_inside) in
              let w = terminal_putentryat-Stays fb c t o in
              rw (e, f, next)
                (go_to_sized (terminal_putentryat fb c t.current_column t.current_row t)
                  (record r {
                    text = λ l x. if (l == r.line) && (x == r.column) then c else r.text l x;
                  })
                  ((t.current_column + 1) % 2 ^ 16) t.total_rows t.total_columns w.rows_same
                  w.columns_same w.on_screen.placed (terminal_putentryat-View t r c o v))
        ]
      ]

  write_sized :
      (string : List ℕ) (t : Term) (r : Roll) (rows columns fg bg : ℕ)
      → t.total_rows ≡ rows
      → t.total_columns ≡ columns
      → t.fg_color ≡ fg
      → t.bg_color ≡ bg
      → t.total_columns ≤ 65528
      → OnScreen t
      → View t r
      → View (terminal_write fb string t) (put_all rows columns fg bg string r)
  unfolding terminal_write put_all
  write_sized [] t r rows columns fg bg er ec ef eg few o v = v
  write_sized (ch ∷ string) t r rows columns fg bg er ec ef eg few o v =
      let c : Cell = record { ch = ch; fg = t.fg_color; bg = t.bg_color } in
      let s = terminal_putchar fb c t in
      let k = terminal_putchar-Stays fb c t o in
      rw (sym er, sym ec, sym ef, sym eg)
        (write_sized string s (put_cell t.total_rows t.total_columns c r) rows columns fg bg
          (k.rows_same ∙ er) (k.columns_same ∙ ec) (k.fg_same ∙ ef) (k.bg_same ∙ eg)
          (rw k.columns_same few) k.on_screen (terminal_putchar-View t r c few o v))

  -- Where the screen has at most 240 * 135 cells, those of the buffer, in fewer than 2 ^ 16 rows and at
  -- most 2 ^ 16 - 8 columns, and the cursor is on it: a terminal that shows the window of a roll of lines,
  -- with the cursor at the same place, does so after terminal_write of any bytes, and the writing of them
  -- at the end of that roll.
  pub terminal_write-View :
      (string : List ℕ) (t : Term) (r : Roll)
      → t.total_columns ≤ 65528
      → OnScreen t
      → View t r
      → View
          (terminal_write fb string t)
          (put_all t.total_rows t.total_columns t.fg_color t.bg_color string r)
  terminal_write-View string t r few o v =
      write_sized string t r t.total_rows t.total_columns t.fg_color t.bg_color refl refl refl refl
        few o v
