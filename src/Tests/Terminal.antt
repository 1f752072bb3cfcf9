-- ===== src/Tests/Terminal.antt =====
-- A screen of 640 by 480 pixels, and a terminal of 2 rows of 3 cells with the cursor in the last one.
use lun_os.Prelude.{refl, arith, some, [], ◌∷◌}
use lun_os.Framebuffer.{Mode}
use lun_os.Framebuffer.Draw.{IsMode}
use lun_os.Terminal.{Term, terminal_write, terminal_initialize}
use lun_os.Terminal.Cursor.{OnScreen}
use lun_os.Terminal.Screen.{Started, terminal_initialize-Started}
use lun_os.Terminal.Roll.{Roll, View, put_all, terminal_write-View}

abbrev screen : Mode
screen = record { width = 640; height = 480; pitch = 2560 }

screen-IsMode : IsMode screen
screen-IsMode = record { lines_apart = omega arith; in_memory = omega arith }

abbrev small : Term
small = record {
  total_rows = 2;
  total_columns = 3;
  current_row = 1;
  current_column = 2;
  fg_color = 5;
  bg_color = 6;
  buffer = λ i. record { ch = 32; fg = 5; bg = 6 };
  pixels = λ i. 0;
}

small-OnScreen : OnScreen small
small-OnScreen = record {
  placed = record {
    rows_fit = omega arith;
    columns_fit = omega arith;
    in_buffer = omega arith;
    row_inside = omega arith;
    some_column = omega arith;
  };
  column_inside = omega arith;
}

abbrev paper : Roll
paper = record { top = 0; line = 1; column = 2; text = λ l x. record { ch = 32; fg = 5; bg = 6 } }

terminal_initialize-Started_example : Started screen (terminal_initialize (some screen) 1 2 small)
terminal_initialize-Started_example =
    terminal_initialize-Started screen 1 2 small screen-IsMode (omega arith) (omega arith)
      (omega arith) (omega arith) (omega arith)

terminal_write-View_example :
    View
      (terminal_write (some screen) (97 ∷ 10 ∷ 98 ∷ []) small)
      (put_all 2 3 5 6 (97 ∷ 10 ∷ 98 ∷ []) paper)
terminal_write-View_example =
    terminal_write-View (some screen) (97 ∷ 10 ∷ 98 ∷ []) small paper (omega arith) small-OnScreen
      record { same_row = refl; same_column = refl; same_cells = λ x y h k. refl }
