-- ===== src/Log/Bounds.antt =====
-- kvsprintf stays in its buffer, whatever the format and the arguments are.
use lun_os.Prelude.{
  ℕ, zero, suc, ◌+◌, ◌-◌, ◌%◌, ◌^◌, ◌≤◌, ◌<◌, ◌≡◌, ◌⊎◌, inl, inr, refl, ◌∙◌, arith, Bool, true,
  false, ◌||◌, Option, none, some, List, [], ◌∷◌, ltb, ◌==◌, if◌then◌else◌, dec_lt, ℕ_discrete,
  Bool-cases,
}
use lun_os.Klib.{Bytes, store}
use lun_os.Klib.Numbers.{ui64_to_hex_str, ul_to_str, itoa}
use lun_os.Log.{
  kprintf_buf_size, Out, append, write_ch, char_at, str_loop, write_str, digits_out, Turn, going,
  ended, full, missing, proceed, numeral, int_numeral, takes_argument, put_int, put_pointer,
  put_unknown, convert, convert_long, with_argument, specifier, turn, Outcome, wrote, overflow,
  undefined, format_loop, kvsprintf, literal, blank_array,
}

-- More of the buffer may have been written, and nothing else, neither outside the 1024 bytes of the
-- buffer nor before the place where writing went on.
pub record Grows (buf : ℕ) (o o' : Out) : Type 0 where
  pub longer : o.len ≤ o'.len
  pub bound : o'.len ≤ kprintf_buf_size
  pub kept : (a : ℕ) → (a < buf + o.len) ⊎ (buf + kprintf_buf_size ≤ a) → o'.mem a ≡ o.mem a

module _ (buf : ℕ) where
  same : (o : Out) → o.len ≤ kprintf_buf_size → Grows buf o o
  same o h = record { longer = omega arith; bound = h; kept = λ a out. refl }

  both : (o o' o'' : Out) → Grows buf o o' → Grows buf o' o'' → Grows buf o o''
  both o o' o'' g k = record {
    longer = omega (arith, g.longer, k.longer);
    bound = k.bound;
    kept = λ a out. k.kept a (ground (arith, out, g.longer)) ∙ g.kept a out;
  }

  append-Grows : (ch : ℕ) (o : Out) → o.len < kprintf_buf_size → Grows buf o (append buf ch o)
  unfolding append store
  append-Grows ch o h = record {
    longer = omega arith;
    bound = omega (arith, h);
    kept = λ a out. ground (arith, out, h);
  }

  write_ch-Grows : (ch : ℕ) (o : Out) → o.len ≤ kprintf_buf_size → Grows buf o (write_ch buf ch o).1
  unfolding write_ch
  write_ch-Grows ch o h = elim (dec_lt o.len kprintf_buf_size) [
    | yes lt ↦
        let q : ltb o.len kprintf_buf_size ≡ true = ground (arith, lt) in
        rw q (append-Grows ch o lt)
    | no ge ↦ let q : ltb o.len kprintf_buf_size ≡ false = ground (arith, ge) in rw q (same o h)
  ]

  str_loop-Grows :
      (n : ℕ) (local : Option Bytes) (s : ℕ) (o : Out)
      → o.len + n ≤ kprintf_buf_size
      → Grows buf o (str_loop n local s buf o).1
  unfolding str_loop append
  str_loop-Grows zero local s o h = same o (omega (arith, h))
  str_loop-Grows (suc n) local s o h = elim (ℕ_discrete (char_at local s o) 0) [
    | yes z ↦
        let q : (char_at local s o == 0) ≡ true = ground (arith, z) in
        rw q (same o (omega (arith, h)))
    | no nz ↦
        let q : (char_at local s o == 0) ≡ false = ground (arith, nz) in
        let o1 = append buf (char_at local s o) o in
        rw q (
          both o o1 _ (append-Grows (char_at local s o) o (omega (arith, h)))
            (str_loop-Grows n local (s + 1) o1 (omega (arith, h))))
  ]

  write_str-Grows :
      (local : Option Bytes) (s : ℕ) (o : Out)
      → o.len ≤ kprintf_buf_size
      → Grows buf o (write_str local s buf o).1
  unfolding write_str str_loop
  write_str-Grows local s o h = elim (dec_lt o.len kprintf_buf_size) [
    | yes lt ↦ str_loop-Grows (kprintf_buf_size - 1 - o.len) local s o (omega (arith, lt))
    | no ge ↦ let q : kprintf_buf_size - 1 - o.len ≡ 0 = omega (arith, ge) in rw q (same o h)
  ]

  digits_out-Grows :
      (n i : ℕ) (local : Bytes) (o : Out)
      → o.len ≤ kprintf_buf_size
      → Grows buf o (digits_out n i local buf o).1
  unfolding digits_out
  digits_out-Grows zero i local o h = same o h
  digits_out-Grows (suc n) i local o h =
      let g = write_ch-Grows (local i) o h in
      elim (Bool-cases (write_ch buf (local i) o).0) [
        | inl t ↦ rw t (both o _ _ g (digits_out-Grows n (i + 1) local _ g.bound))
        | inr f ↦ rw f g
      ]

  -- What a turn leaves.
  abbrev TurnGrows : Out → Turn → Type 0
  TurnGrows o (going f args o') = Grows buf o o'
  TurnGrows o (ended o') = Grows buf o o'
  TurnGrows o (full o') = Grows buf o o'
  TurnGrows o missing = Unit

  proceed-Grows :
      (f : ℕ) (args : List ℕ) (o : Out) (r : Bool × Out)
      → Grows buf o r.1
      → TurnGrows o (proceed f args r)
  unfolding proceed
  proceed-Grows f args o (true, o') g = g
  proceed-Grows f args o (false, o') g = g

  numeral-Grows :
      (f : ℕ) (args : List ℕ) (o : Out) (r : Option (ℕ × Bytes))
      → o.len ≤ kprintf_buf_size
      → TurnGrows o (numeral buf f args o r)
  unfolding numeral
  numeral-Grows f args o none h = tt
  numeral-Grows f args o (some (n, local)) h =
      proceed-Grows f args o (write_str (some local) 0 buf o) (write_str-Grows (some local) 0 o h)

  int_numeral-Grows :
      (f : ℕ) (args : List ℕ) (o : Out) (r : Option (ℕ × Bytes))
      → o.len ≤ kprintf_buf_size
      → TurnGrows o (int_numeral buf f args o r)
  unfolding int_numeral
  int_numeral-Grows f args o none h = tt
  int_numeral-Grows f args o (some (n, local)) h =
      proceed-Grows f args o (digits_out n 0 local buf o) (digits_out-Grows n 0 local o h)

  put_unknown-Grows :
      (f ch : ℕ) (args : List ℕ) (o : Out) (r : Bool × Out)
      → Grows buf o r.1
      → TurnGrows o (put_unknown buf f ch args r)
  unfolding put_unknown
  put_unknown-Grows f ch args o (true, o') g =
      proceed-Grows f args o (write_ch buf ch o') (both o o' _ g (write_ch-Grows ch o' g.bound))
  put_unknown-Grows f ch args o (false, o') g = g

  either :
      (o : Out) (b : Bool) (t e : Turn)
      → TurnGrows o t
      → TurnGrows o e
      → TurnGrows o (if b then t else e)
  either o true t e g k = g
  either o false t e g k = k

  module _ (o : Out) (h : o.len ≤ kprintf_buf_size) where
    put_pointer-Grows : (f v : ℕ) (args : List ℕ) → TurnGrows o (put_pointer buf f v args o)
    unfolding put_pointer
    put_pointer-Grows f v args =
        either o (v == 0) _ _
          (proceed-Grows f args o _ (write_str-Grows (some (literal (48 ∷ 120 ∷ 48 ∷ []))) 0 o h))
          (numeral-Grows f args o (ui64_to_hex_str blank_array v 0) h)

    convert-Grows : (c f v : ℕ) (args : List ℕ) → TurnGrows o (convert buf c f v args o)
    unfolding convert put_int
    convert-Grows c f v args =
        either o (c == 100) _ _ (int_numeral-Grows f args o (itoa blank_array (v % 2 ^ 32) 0) h) (
          either o (c == 115) _ _ (proceed-Grows f args o _ (write_str-Grows none v o h)) (
            either o (c == 99) _ _ (proceed-Grows f args o _ (write_ch-Grows (v % 256) o h)) (
              either o (c == 112) _ _ (put_pointer-Grows f v args) (
                either o (c == 120) _ _
                  (numeral-Grows f args o (ui64_to_hex_str blank_array (v % 2 ^ 32) 0) h)
                  (numeral-Grows f args o (ul_to_str blank_array (v % 2 ^ 32) 0) h)))))

    convert_long-Grows : (c f v : ℕ) (args : List ℕ) → TurnGrows o (convert_long buf c f v args o)
    unfolding convert_long
    convert_long-Grows c f v args =
        either o (c == 117) _ _ (numeral-Grows f args o (ul_to_str blank_array v 0) h)
          (numeral-Grows f args o (ui64_to_hex_str blank_array v 0) h)

    with_argument-Grows :
        (k : ℕ → List ℕ → Turn) (args : List ℕ)
        → ((v : ℕ) (rest : List ℕ) → TurnGrows o (k v rest))
        → TurnGrows o (with_argument k args)
    unfolding with_argument
    with_argument-Grows k [] g = tt
    with_argument-Grows k (v ∷ args) g = g v args

    specifier-Grows : (c f : ℕ) (args : List ℕ) → TurnGrows o (specifier buf c f args o)
    unfolding specifier
    specifier-Grows c f args =
        either o (takes_argument c) _ _
          (with_argument-Grows _ args (λ v rest. convert-Grows c f v rest))
          (either o (c == 108) _ _
            (either o ((o.mem f == 117) || (o.mem f == 120)) _ _
              (with_argument-Grows _ args (λ v rest. convert_long-Grows (o.mem f) (f + 1) v rest))
              (put_unknown-Grows (f + 1) (o.mem f) args o _
                (write_str-Grows (some (literal (37 ∷ 108 ∷ []))) 0 o h)))
            (put_unknown-Grows f c args o _ (write_ch-Grows 37 o h)))

    turn-Grows : (f : ℕ) (args : List ℕ) → TurnGrows o (turn buf f args o)
    unfolding turn
    turn-Grows f args = either o (o.mem f == 0) _ _ (same o h) (
        either o (o.mem f == 37) _ _
          (either o (o.mem (f + 1) == 37) _ _
            (proceed-Grows (f + 2) args o _ (write_ch-Grows (o.mem f) o h))
            (specifier-Grows (o.mem (f + 1)) (f + 2) args))
          (proceed-Grows (f + 1) args o _ (write_ch-Grows (o.mem f) o h)))

  -- What the loop leaves.
  abbrev pub OutcomeGrows : Out → Outcome → Type 0
  OutcomeGrows o (wrote o') = Grows buf o o'
  OutcomeGrows o (overflow o') = Grows buf o o'
  OutcomeGrows o undefined = Unit

  later : (o o' : Out) (r : Outcome) → Grows buf o o' → OutcomeGrows o' r → OutcomeGrows o r
  later o o' (wrote o'') g k = both o o' o'' g k
  later o o' (overflow o'') g k = both o o' o'' g k
  later o o' undefined g k = tt

  after_turn :
      (n : ℕ) (o : Out) (t : Turn)
      → TurnGrows o t
      → ((f : ℕ) (args : List ℕ) (o' : Out)
          → o'.len ≤ kprintf_buf_size
          → OutcomeGrows o' (format_loop n buf f args o'))
      → OutcomeGrows o (elim t [
        | going f' args' o' ↦ format_loop n buf f' args' o'
        | ended o' ↦ wrote o'
        | full o' ↦ overflow o'
        | missing ↦ undefined
      ])
  after_turn n o (going f args o') g k = later o o' _ g (k f args o' g.bound)
  after_turn n o (ended o') g k = g
  after_turn n o (full o') g k = g
  after_turn n o missing g k = tt

  format_loop-Grows :
      (n f : ℕ) (args : List ℕ) (o : Out)
      → o.len ≤ kprintf_buf_size
      → OutcomeGrows o (format_loop n buf f args o)
  unfolding format_loop
  format_loop-Grows zero f args o h = tt
  format_loop-Grows (suc n) f args o h =
      after_turn n o (turn buf f args o) (turn-Grows o h f args)
        (λ f' args' o' h'. format_loop-Grows n f' args' o' h')

-- Whatever the format and the arguments are, where kvsprintf comes to a result, a length or -EOVERFLOW,
-- it has counted at most 1024 bytes, and every byte outside the 1024 of the buffer is as it was.
pub kvsprintf-Bounded :
    (fuel : ℕ) (m : Bytes) (buf format : ℕ) (args : List ℕ)
    → OutcomeGrows buf (record { mem = m; len = 0 }) (kvsprintf fuel m buf format args)
unfolding kvsprintf
kvsprintf-Bounded fuel m buf format args =
    format_loop-Grows buf fuel format args (record { mem = m; len = 0 }) (omega arith)
