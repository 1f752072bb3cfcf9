-- ===== src/Terminal/Scroll.antt =====
-- Where terminal_scroll takes the cells from.
use lun_os.Prelude.{ℕ, ◌+◌, ◌-◌, ◌*◌, ◌<◌, ◌≡◌, ap, arith}
use lun_os.Prelude.Grid.{row_below}
use lun_os.Terminal.{Term, blank, change_cells, moved_up, terminal_scroll}
use lun_os.Terminal.Cursor.{Placed, last_start}

module _ (t : Term) (o : Placed t) where
  pub scrolled_up :
      (x y : ℕ)
      → x < t.total_columns
      → y + 1 < t.total_rows
      → (terminal_scroll t).buffer (y * t.total_columns + x)
        ≡ t.buffer ((y + 1) * t.total_columns + x)
  unfolding terminal_scroll change_cells moved_up
  scrolled_up x y h k =
      let (a, b, c) = last_start t o in
      let below = row_below t.total_columns x y (t.total_rows - 1) h (omega (arith, k)) in
      let up : y * t.total_columns + x + t.total_columns ≡ (y + 1) * t.total_columns + x =
        omega arith in
      rw (a, b) (ground (arith, below, ap t.buffer up))

  pub blanked :
      (x y : ℕ)
      → x < t.total_columns
      → y + 1 ≡ t.total_rows
      → (terminal_scroll t).buffer (y * t.total_columns + x)
        ≡ blank (t.buffer (y * t.total_columns + x))
  unfolding terminal_scroll change_cells moved_up
  blanked x y h k =
      let (a, b, c) = last_start t o in
      let row : (t.total_rows - 1) * t.total_columns ≡ y * t.total_columns =
        ap (λ (n : ℕ). n * t.total_columns) (omega (arith, k)) in
      rw (a, b) (ground (arith, row, h))
