-- ===== src/Log/Pieces.antt =====
-- The pieces that a format of kvsprintf is made of, and the text that they stand for.
use lun_os.Prelude.{ℕ, ◌%◌, ◌^◌, ◌<◌, ◌≢◌, Option, none, some, List, [], ◌∷◌, ◌++◌}
use lun_os.Klib.{Bytes}
use lun_os.Klib.Numbers.{ul_to_str, ui64_to_hex_str}
use lun_os.Log.{Out, blank_array}
use lun_os.Log.Text.{Reads, bytes_of}

-- The pieces of a format: a byte for itself, %%, and %s, %c, %x, %u, %lx and %lu with their arguments; a
-- string is given by its address and its bytes.
pub data Piece : Type 0 where
  plain : ℕ → Piece
  percent : Piece
  string : ℕ → List ℕ → Piece
  character : ℕ → Piece
  hex : ℕ → Piece
  unsigned : ℕ → Piece
  long_hex : ℕ → Piece
  long_unsigned : ℕ → Piece

-- The text of a number.
unfoldable pub printed : Option (ℕ × Bytes) → List ℕ
printed none = []
printed (some (n, local)) = bytes_of n 0 local

unfoldable pub text : Piece → List ℕ
text (plain c) = c ∷ []
text percent = 37 ∷ []
text (string a cs) = cs
text (character v) = (v % 256) ∷ []
text (hex v) = printed (ui64_to_hex_str blank_array (v % 2 ^ 32) 0)
text (unsigned v) = printed (ul_to_str blank_array (v % 2 ^ 32) 0)
text (long_hex v) = printed (ui64_to_hex_str blank_array v 0)
text (long_unsigned v) = printed (ul_to_str blank_array v 0)

unfoldable pub render : List Piece → List ℕ
render [] = []
render (p ∷ ps) = text p ++ render ps

-- The format and the arguments.
unfoldable pub encode : List Piece → List ℕ
encode [] = []
encode (plain c ∷ ps) = c ∷ encode ps
encode (percent ∷ ps) = 37 ∷ 37 ∷ encode ps
encode (string a cs ∷ ps) = 37 ∷ 115 ∷ encode ps
encode (character v ∷ ps) = 37 ∷ 99 ∷ encode ps
encode (hex v ∷ ps) = 37 ∷ 120 ∷ encode ps
encode (unsigned v ∷ ps) = 37 ∷ 117 ∷ encode ps
encode (long_hex v ∷ ps) = 37 ∷ 108 ∷ 120 ∷ encode ps
encode (long_unsigned v ∷ ps) = 37 ∷ 108 ∷ 117 ∷ encode ps

unfoldable pub arguments : List Piece → List ℕ
arguments [] = []
arguments (plain c ∷ ps) = arguments ps
arguments (percent ∷ ps) = arguments ps
arguments (string a cs ∷ ps) = a ∷ arguments ps
arguments (character v ∷ ps) = v ∷ arguments ps
arguments (hex v ∷ ps) = v ∷ arguments ps
arguments (unsigned v ∷ ps) = v ∷ arguments ps
arguments (long_hex v ∷ ps) = v ∷ arguments ps
arguments (long_unsigned v ∷ ps) = v ∷ arguments ps

-- A plain byte is not `%`, a string lies outside the buffer, and a number has 64 bits.
abbrev pub IsPiece : ℕ → Out → Piece → Type 0
IsPiece buf o (plain c) = c ≢ 37
IsPiece buf o percent = Unit
IsPiece buf o (string a cs) = Reads buf none a cs o
IsPiece buf o (character v) = Unit
IsPiece buf o (hex v) = Unit
IsPiece buf o (unsigned v) = Unit
IsPiece buf o (long_hex v) = v < 2 ^ 64
IsPiece buf o (long_unsigned v) = v < 2 ^ 64

abbrev pub ArePieces : ℕ → Out → List Piece → Type 0
ArePieces buf o [] = Unit
ArePieces buf o (p ∷ ps) = IsPiece buf o p × ArePieces buf o ps
