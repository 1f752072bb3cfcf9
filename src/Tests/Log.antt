-- ===== src/Tests/Log.antt =====
-- kvsprintf of "x%c%lu%s" with 'A', 7 and "hi"; the format is at 100, the string at 500 and the buffer at
-- 2000.
use lun_os.Prelude.{
  ◌-◌, ◌<◌, ◌≡◌, inl, refl, arith, none, List, [], ◌∷◌, length, ltb, if◌then◌else◌,
}
use lun_os.Klib.{Bytes, store, reverse_str, reverse_bytes, swap_loop, strlen}
use lun_os.Klib.Numbers.{ul_to_str, digits_loop, finish, dec_digit}
use lun_os.Log.{Out, literal, char_at, kprintf_buf_size, wrote, kvsprintf}
use lun_os.Log.Text.{Reads, Shows, bytes_of}
use lun_os.Log.Pieces.{
  Piece, plain, character, long_unsigned, string, ArePieces, encode, arguments, render, text,
  printed,
}
use lun_os.Log.Render.{kvsprintf-Shows}

abbrev memory : Bytes
memory a =
    if ltb a 500
    then literal (120 ∷ 37 ∷ 99 ∷ 37 ∷ 108 ∷ 117 ∷ 37 ∷ 115 ∷ []) (a - 100)
    else literal (104 ∷ 105 ∷ []) (a - 500)

abbrev pieces : List Piece
pieces = plain 120 ∷ character 65 ∷ long_unsigned 7 ∷ string 500 (104 ∷ 105 ∷ []) ∷ []

abbrev start : Out
start = record { mem = memory; len = 0 }

hi-Reads : Reads 2000 none 500 (104 ∷ 105 ∷ []) start
unfolding literal char_at
hi-Reads = (
  inl (omega arith),
  refl,
  omega arith,
  (inl (omega arith), refl, omega arith, (inl (omega arith), refl)),
)

format-Reads : Reads 2000 none 100 (encode pieces) start
unfolding literal char_at encode
format-Reads = (
  inl (omega arith),
  refl,
  omega arith,
  (
    inl (omega arith),
    refl,
    omega arith,
    (
      inl (omega arith),
      refl,
      omega arith,
      (
        inl (omega arith),
        refl,
        omega arith,
        (
          inl (omega arith),
          refl,
          omega arith,
          (
            inl (omega arith),
            refl,
            omega arith,
            (
              inl (omega arith),
              refl,
              omega arith,
              (inl (omega arith), refl, omega arith, (inl (omega arith), refl)),
            ),
          ),
        ),
      ),
    ),
  ),
)

pieces_ok : ArePieces 2000 start pieces
pieces_ok = (λ e. omega (arith, e), (tt, (omega arith, (hi-Reads, tt))))

short : length (render pieces) < kprintf_buf_size
unfolding render text printed bytes_of ul_to_str digits_loop finish reverse_str reverse_bytes
    swap_loop strlen store dec_digit
short = omega arith

kvsprintf-Shows_example :
    (o : Out) × (kvsprintf 5 memory 2000 100 (65 ∷ 7 ∷ 500 ∷ []) ≡ wrote o)
    × Shows 2000 start o (render pieces)
unfolding arguments
kvsprintf-Shows_example = kvsprintf-Shows pieces memory 2000 100 pieces_ok format-Reads short
