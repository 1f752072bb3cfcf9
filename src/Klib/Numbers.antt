-- ===== src/Klib/Numbers.antt =====
-- ui64_to_hex_str, ul_to_str and itoa. The fuel of a digit loop is the greatest number of digits of its
-- argument in base 2, and that of reverse_str one more.
pub mod Digits
pub mod Print
use lun_os.Prelude.{
  ℕ, zero, suc, ◌+◌, ◌-◌, ◌*◌, ◌/◌, ◌%◌, ◌^◌, Option, none, some, ltb, leb, ◌==◌, if◌then◌else◌,
}
use lun_os.Klib.{Bytes, store, reverse_str}

-- `hex_digits[d]`
unfoldable pub hex_digit : ℕ → ℕ
hex_digit d = if ltb d 10 then 48 + d else 55 + d

-- `'0' + d`
unfoldable pub dec_digit : ℕ → ℕ
dec_digit d = 48 + d

-- The loop over the digits, lowest first: where it stops, and the memory.
unfoldable pub digits_loop : ℕ → (ℕ → ℕ) → ℕ → ℕ → Bytes → ℕ → ℕ × Bytes
digits_loop zero digit base value m at = (at, m)
digits_loop (suc f) digit base value m at =
    let rest =
      digits_loop f digit base (value / base) (store m at (digit (value % base))) (at + 1) in
    if value == 0 then (at, m) else rest

-- The terminating 0, the reversal, and the index that is returned.
unfoldable pub finish : ℕ → ℕ × Bytes → Option (ℕ × Bytes)
finish str (end, m) = elim (reverse_str 65 (store m end 0) str) [
  | none ↦ none
  | some m' ↦ some (end - str, m')
]

pub ui64_to_hex_str : Bytes → ℕ → ℕ → Option (ℕ × Bytes)
ui64_to_hex_str m val str =
    if val == 0
    then some (1, store (store m str 48) (str + 1) 0)
    else finish str (digits_loop 64 hex_digit 16 val m str)

unfoldable pub ul_to_str : Bytes → ℕ → ℕ → Option (ℕ × Bytes)
ul_to_str m value str =
    finish str
      (if value == 0 then (str + 1, store m str 48) else digits_loop 64 dec_digit 10 value m str)

-- The body of the loop comes before its test here, so 0 has a digit too.
pub itoa_digits : Bytes → ℕ → ℕ → ℕ × Bytes
itoa_digits m n str =
    digits_loop 64 dec_digit 10 (n / 10) (store m str (dec_digit (n % 10))) (str + 1)

-- `i` is a 32-bit int in two's complement. The least one is still negative after `i = -i`: its
-- remainder is -8, which gives the byte 40, and its quotient ends the loop.
pub itoa : Bytes → ℕ → ℕ → Option (ℕ × Bytes)
itoa m i str =
    let negative = leb (2 ^ 31) i in
    let n = if negative then (2 ^ 32 - i) % 2 ^ 32 else i in
    let (end, m') = if n == 2 ^ 31 then (str + 1, store m str 40) else itoa_digits m n str in
    finish str (if negative then (end + 1, store m' end 45) else (end, m'))
