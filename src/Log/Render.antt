-- ===== src/Log/Render.antt =====
-- kvsprintf of a format whose pieces are known writes what the pieces say.
use lun_os.Prelude.{
  ℕ, suc, ◌+◌, ◌%◌, ◌^◌, ◌≤◌, ◌<◌, ◌≡◌, ◌≢◌, ◌⊎◌, inl, inr, refl, ap, ◌∙◌, arith, true, false,
  Option, none, some, List, [], ◌∷◌, length, ◌==◌,
}
use lun_os.Klib.{Bytes}
use lun_os.Klib.Numbers.{ul_to_str, ui64_to_hex_str}
use lun_os.Klib.Numbers.Print.{ul_to_str-Printed, ui64_to_hex_str-Printed}
use lun_os.Log.{
  kprintf_buf_size, Out, append, write_ch, char_at, write_str, blank_array, going, proceed, numeral,
  convert, convert_long, takes_argument, with_argument, specifier, turn, wrote, format_loop,
  kvsprintf,
}
use lun_os.Log.Text.{
  Reads, Shows, append-Shows, both, nothing, reading_kept, write_ch-Shows, write_str-Shows,
  bytes_of, HasLength-Reads, length-append,
}
use lun_os.Log.Pieces.{
  Piece, plain, percent, string, character, hex, unsigned, long_hex, long_unsigned, printed, text,
  render, encode, arguments, IsPiece, ArePieces,
}

module _ (buf : ℕ) where
  one_byte :
      (f : ℕ) (args : List ℕ) (ch c : ℕ) (o : Out)
      → ch ≡ c
      → o.len < kprintf_buf_size
      → (o' : Out) × (proceed f args (write_ch buf ch o) ≡ going f args o')
        × Shows buf o o' (c ∷ [])
  unfolding proceed
  one_byte f args ch c o e room =
      (append buf ch o, rw (write_ch-Shows buf ch o room) refl, append-Shows buf ch c o e)

  a_string :
      (f : ℕ) (args : List ℕ) (local : Option Bytes) (s : ℕ) (cs : List ℕ) (o : Out)
      → Reads buf local s cs o
      → o.len + length cs < kprintf_buf_size
      → (o' : Out) × (proceed f args (write_str local s buf o) ≡ going f args o')
        × Shows buf o o' cs
  unfolding proceed
  a_string f args local s cs o r room =
      let (o', e, g) = write_str-Shows buf cs local s o r room in (o', rw e refl, g)

  a_number :
      (f : ℕ) (args : List ℕ) (n : ℕ) (local : Bytes) (r : Option (ℕ × Bytes)) (o : Out)
      → r ≡ some (n, local)
      → Reads buf (some local) 0 (bytes_of n 0 local) o
      → o.len + length (printed r) < kprintf_buf_size
      → (o' : Out) × (numeral buf f args o r ≡ going f args o') × Shows buf o o' (printed r)
  unfolding numeral printed
  a_number f args n local r o e reads room =
      rw e (a_string f args (some local) 0 (bytes_of n 0 local) o reads (rw e at room))

  -- What a turn does behind a `%`.
  percent_turn :
      (f c : ℕ) (args : List ℕ) (o : Out)
      → o.mem f ≡ 37
      → o.mem (f + 1) ≡ c
      → c ≢ 37
      → turn buf f args o ≡ specifier buf c (f + 2) args o
  unfolding turn
  percent_turn f c args o e g ne =
      let q : (o.mem (f + 1) == 37) ≡ false = ground (arith, g, ne) in
      rw (e, q) (ap (λ (z : ℕ). specifier buf z (f + 2) args o) g)

  plain_turn :
      (f c : ℕ) (args : List ℕ) (o : Out)
      → o.mem f ≡ c
      → 0 < c
      → c ≢ 37
      → turn buf f args o ≡ proceed (f + 1) args (write_ch buf (o.mem f) o)
  unfolding turn
  plain_turn f c args o e nz ne =
      let q : (o.mem f == 0) ≡ false = ground (arith, e, nz) in
      let r : (o.mem f == 37) ≡ false = ground (arith, e, ne) in rw (q, r) refl

  twice_turn :
      (f : ℕ) (args : List ℕ) (o : Out)
      → o.mem f ≡ 37
      → o.mem (f + 1) ≡ 37
      → turn buf f args o ≡ proceed (f + 2) args (write_ch buf (o.mem f) o)
  unfolding turn
  twice_turn f args o e g =
      let q : (o.mem f == 0) ≡ false = ground (arith, e) in
      let r : (o.mem f == 37) ≡ true = ground (arith, e) in
      let s : (o.mem (f + 1) == 37) ≡ true = ground (arith, g) in rw (q, r, s) refl

  long_turn :
      (f c v : ℕ) (args : List ℕ) (o : Out)
      → (c ≡ 117) ⊎ (c ≡ 120)
      → o.mem (f + 2) ≡ c
      → specifier buf 108 (f + 2) (v ∷ args) o ≡ convert_long buf c (f + 3) v args o
  unfolding specifier with_argument takes_argument
  long_turn f c v args o (inl z) e =
      let q : (o.mem (f + 2) == 117) ≡ true = ground (arith, e, z) in
      let next : f + 2 + 1 ≡ f + 3 = omega arith in
      rw (q, next) (ap (λ (x : ℕ). convert_long buf x (f + 3) v args o) e)
  long_turn f c v args o (inr z) e =
      let q : (o.mem (f + 2) == 117) ≡ false = ground (arith, e, z) in
      let r : (o.mem (f + 2) == 120) ≡ true = ground (arith, e, z) in
      let next : f + 2 + 1 ≡ f + 3 = omega arith in
      rw (q, r, next) (ap (λ (x : ℕ). convert_long buf x (f + 3) v args o) e)

  reading_at :
      (a b : ℕ) (cs : List ℕ) (o : Out) → a ≡ b → Reads buf none a cs o → Reads buf none b cs o
  reading_at a b cs o e r = rw e at r

  -- What a turn does with a piece: its text is written, and the format goes on behind it.
  Turned : ℕ → List ℕ → Out → Piece → List Piece → Type 0
  Turned f args o p ps =
      (f' : ℕ) × (o' : Out) × (turn buf f args o ≡ going f' (arguments ps) o')
      × Shows buf o o' (text p)
      × Reads buf none f' (encode ps) o

  hex_number :
      (f : ℕ) (args : List ℕ) (v : ℕ) (o : Out)
      → v < 2 ^ 64
      → o.len + length (printed (ui64_to_hex_str blank_array v 0)) < kprintf_buf_size
      → (o' : Out) × (numeral buf f args o (ui64_to_hex_str blank_array v 0) ≡ going f args o')
        × Shows buf o o' (printed (ui64_to_hex_str blank_array v 0))
  hex_number f args v o small room =
      let (n, local, e, _, p) = ui64_to_hex_str-Printed blank_array v 0 small in
      a_number f args n local (ui64_to_hex_str blank_array v 0) o e
        (HasLength-Reads buf n 0 local o p.length) room

  decimal_number :
      (f : ℕ) (args : List ℕ) (v : ℕ) (o : Out)
      → v < 2 ^ 64
      → o.len + length (printed (ul_to_str blank_array v 0)) < kprintf_buf_size
      → (o' : Out) × (numeral buf f args o (ul_to_str blank_array v 0) ≡ going f args o')
        × Shows buf o o' (printed (ul_to_str blank_array v 0))
  decimal_number f args v o small room =
      let (n, local, e, _, p) = ul_to_str-Printed blank_array v 0 small in
      a_number f args n local (ul_to_str blank_array v 0) o e
        (HasLength-Reads buf n 0 local o p.length) room

  piece_turn :
      (p : Piece) (ps : List Piece) (f : ℕ) (o : Out)
      → IsPiece buf o p
      → Reads buf none f (encode (p ∷ ps)) o
      → o.len + length (text p) < kprintf_buf_size
      → Turned f (arguments (p ∷ ps)) o p ps
  unfolding Turned encode arguments text char_at specifier with_argument convert takes_argument
      convert_long numeral
  piece_turn (plain c) ps f o ne (_, e, nz, r) room =
      let (o', q, w) = one_byte (f + 1) (arguments ps) (o.mem f) c o e (omega (arith, room)) in
      (f + 1, o', plain_turn f c (arguments ps) o e nz ne ∙ q, w, r)
  piece_turn percent ps f o ne (_, e, nz, (_, g, _, r)) room =
      let (o', q, w) = one_byte (f + 2) (arguments ps) (o.mem f) 37 o e (omega (arith, room)) in
      (f + 2, o', twice_turn f (arguments ps) o e g ∙ q, w, reading_at _ _ _ o (omega arith) r)
  piece_turn (string a cs) ps f o s (_, e, nz, (_, g, _, r)) room =
      let (o', q, w) = a_string (f + 2) (arguments ps) none a cs o s room in
      (
        f + 2,
        o',
        percent_turn f 115 (a ∷ arguments ps) o e g (λ z. omega (arith, z)) ∙ q,
        w,
        reading_at _ _ _ o (omega arith) r,
      )
  piece_turn (character v) ps f o s (_, e, nz, (_, g, _, r)) room =
      let (o', q, w) =
        one_byte (f + 2) (arguments ps) (v % 256) (v % 256) o refl (omega (arith, room)) in
      (
        f + 2,
        o',
        percent_turn f 99 (v ∷ arguments ps) o e g (λ z. omega (arith, z)) ∙ q,
        w,
        reading_at _ _ _ o (omega arith) r,
      )
  piece_turn (hex v) ps f o s (_, e, nz, (_, g, _, r)) room =
      let (o', q, w) = hex_number (f + 2) (arguments ps) (v % 2 ^ 32) o (omega arith) room in
      (
        f + 2,
        o',
        percent_turn f 120 (v ∷ arguments ps) o e g (λ z. omega (arith, z)) ∙ q,
        w,
        reading_at _ _ _ o (omega arith) r,
      )
  piece_turn (unsigned v) ps f o s (_, e, nz, (_, g, _, r)) room =
      let (o', q, w) = decimal_number (f + 2) (arguments ps) (v % 2 ^ 32) o (omega arith) room in
      (
        f + 2,
        o',
        percent_turn f 117 (v ∷ arguments ps) o e g (λ z. omega (arith, z)) ∙ q,
        w,
        reading_at _ _ _ o (omega arith) r,
      )
  piece_turn (long_hex v) ps f o s (_, e, nz, (_, g, _, (_, k, _, r))) room =
      let (o', q, w) = hex_number (f + 3) (arguments ps) v o s room in
      (
        f + 3,
        o',
        percent_turn f 108 (v ∷ arguments ps) o e g (λ z. omega (arith, z))
            ∙ long_turn f 120 v (arguments ps) o (inr refl) (ap o.mem (omega arith) ∙ k)
            ∙ q,
        w,
        reading_at _ _ _ o (omega arith) r,
      )
  piece_turn (long_unsigned v) ps f o s (_, e, nz, (_, g, _, (_, k, _, r))) room =
      let (o', q, w) = decimal_number (f + 3) (arguments ps) v o s room in
      (
        f + 3,
        o',
        percent_turn f 108 (v ∷ arguments ps) o e g (λ z. omega (arith, z))
            ∙ long_turn f 117 v (arguments ps) o (inl refl) (ap o.mem (omega arith) ∙ k)
            ∙ q,
        w,
        reading_at _ _ _ o (omega arith) r,
      )

  one_kept :
      (p : Piece) (o o' : Out) (cs : List ℕ)
      → Shows buf o o' cs
      → o'.len ≤ kprintf_buf_size
      → IsPiece buf o p
      → IsPiece buf o' p
  one_kept (plain c) o o' cs g h s = s
  one_kept percent o o' cs g h s = s
  one_kept (string a t) o o' cs g h s = reading_kept buf o o' cs none a t g h s
  one_kept (character v) o o' cs g h s = s
  one_kept (hex v) o o' cs g h s = s
  one_kept (unsigned v) o o' cs g h s = s
  one_kept (long_hex v) o o' cs g h s = s
  one_kept (long_unsigned v) o o' cs g h s = s

  all_kept :
      (ps : List Piece) (o o' : Out) (cs : List ℕ)
      → Shows buf o o' cs
      → o'.len ≤ kprintf_buf_size
      → ArePieces buf o ps
      → ArePieces buf o' ps
  all_kept [] o o' cs g h s = tt
  all_kept (p ∷ ps) o o' cs g h (s, r) = (one_kept p o o' cs g h s, all_kept ps o o' cs g h r)

  format_loop-Shows :
      (ps : List Piece) (f : ℕ) (o : Out)
      → ArePieces buf o ps
      → Reads buf none f (encode ps) o
      → o.len + length (render ps) < kprintf_buf_size
      → (o' : Out) × (format_loop (suc (length ps)) buf f (arguments ps) o ≡ wrote o')
        × Shows buf o o' (render ps)
  unfolding format_loop turn render encode arguments char_at Turned
  format_loop-Shows [] f o s (_, e) room =
      let q : (o.mem f == 0) ≡ true = ground (arith, e) in
      (o, rw (q, format_loop, turn) refl, nothing buf o)
  format_loop-Shows (p ∷ ps) f o (s, rest) r room =
      let sizes = length-append (text p) (render ps) in
      let (f', o1, e, g, r1) = piece_turn p ps f o s r (omega (arith, room, sizes)) in
      let small : o1.len ≤ kprintf_buf_size = omega (arith, g.counted, room, sizes) in
      let (o', q, k) =
        format_loop-Shows ps f' o1 (all_kept ps o o1 (text p) g small rest)
          (reading_kept buf o o1 (text p) none f' (encode ps) g small r1)
          (omega (arith, g.counted, room, sizes)) in
      (o', rw (e, format_loop) q, both buf o o1 o' (text p) (render ps) g k)

-- A format that is made of pieces, and whose text has fewer than 1024 bytes, with the arguments of the
-- pieces: kvsprintf ends within one turn more than there are pieces, the format and the strings being
-- clear of the buffer. It returns the length of the text, the buffer holds the text, and nothing else
-- has changed.
pub kvsprintf-Shows :
    (ps : List Piece) (m : Bytes) (buf format : ℕ)
    → ArePieces buf (record { mem = m; len = 0 }) ps
    → Reads buf none format (encode ps) (record { mem = m; len = 0 })
    → length (render ps) < kprintf_buf_size
    → (o : Out) × (kvsprintf (suc (length ps)) m buf format (arguments ps) ≡ wrote o)
      × Shows buf (record { mem = m; len = 0 }) o (render ps)
unfolding kvsprintf
kvsprintf-Shows ps m buf format s r room =
    format_loop-Shows buf ps format (record { mem = m; len = 0 }) s r (omega (arith, room))
