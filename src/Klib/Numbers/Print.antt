-- ===== src/Klib/Numbers/Print.antt =====
-- What ui64_to_hex_str, ul_to_str and itoa print.
use native.Mathlib.Nat.{pow-suc}
use lun_os.Prelude.{
  ℕ, ◌+◌, ◌-◌, ◌^◌, ◌≤◌, ◌<◌, ◌≡◌, inl, refl, ◌∙◌, arith, ltb, ◌==◌, if◌then◌else◌, ℕ_discrete,
  some, true, false,
}
use lun_os.Klib.{Bytes, store}
use lun_os.Klib.Copy.{store_at, store_off}
use lun_os.Klib.Numbers.{hex_digit, dec_digit, ui64_to_hex_str, ul_to_str}
use lun_os.Klib.Numbers.Digits.{
  IsBase, Written, Printed, digits_loop-Written, finish-Printed, read_digits, read_reversed,
}

-- The value of a hexadecimal digit in upper case, and of a decimal one.
unfoldable pub hex_value : ℕ → ℕ
hex_value c = if ltb c 58 then c - 48 else c - 55

unfoldable pub dec_value : ℕ → ℕ
dec_value c = c - 48

hex-IsBase : IsBase hex_digit hex_value 16
unfolding hex_digit hex_value
hex-IsBase = record {
  reads = λ v. ground arith;
  not_zero = λ v. ground arith;
  rebuilds = λ v. omega arith;
  fits = λ g v h. omega (arith, pow-suc 16 g);
  one = λ v h. omega arith;
}

dec-IsBase : IsBase dec_digit dec_value 10
unfolding dec_digit dec_value
dec-IsBase = record {
  reads = λ v. omega arith;
  not_zero = λ v. omega arith;
  rebuilds = λ v. omega arith;
  fits = λ g v h. omega (arith, pow-suc 10 g);
  one = λ v h. omega arith;
}

one-Written :
    (m : Bytes) (str v : ℕ) → v ≡ 0 → Written dec_digit dec_value 10 m str v 1 (store m str 48)
unfolding read_reversed dec_value
one-Written m str v z =
    let there = store_at m str 48 str refl in
    record {
      reads = omega (arith, there, z);
      filled = λ k g e.
          let here : store m str 48 (str + k) ≡ 48 = store_at m str 48 (str + k) (omega arith) in
          omega (arith, here, e);
      kept = λ a h. store_off m str 48 a (ground arith);
    }

hex_zero-Printed :
    (m : Bytes) (str v : ℕ)
    → v ≡ 0
    → Printed hex_digit hex_value 16 m str v 1 (store (store m str 48) (str + 1) 0)
unfolding read_digits hex_value
hex_zero-Printed m str v z =
    let m1 = store m str 48 in
    let there : (a : ℕ) → a ≡ str → store m1 (str + 1) 0 a ≡ 48 =
      λ a e. store_off m1 (str + 1) 0 a (inl (omega arith)) ∙ store_at m str 48 a e in
    record {
      length = record {
        filled = λ k g e. omega (arith, there (str + k) (omega arith), e);
        ended = store_at m1 (str + 1) 0 (str + 1) refl;
      };
      reads = ground (arith, there (str + 0) (omega arith), z);
      kept = λ a h. store_off m1 (str + 1) 0 a (ground arith) ∙ store_off m str 48 a (ground arith);
    }

-- ui64_to_hex_str prints a 64-bit value in at most 16 upper-case hexadecimal digits, the highest first,
-- puts a 0 after them, returns how many there are, and writes nowhere else; the digits read back as the
-- value.
pub ui64_to_hex_str-Printed :
    (m : Bytes) (val str : ℕ)
    → val < 2 ^ 64
    → (n : ℕ) × (m' : Bytes) × (ui64_to_hex_str m val str ≡ some (n, m'))
      × (n ≤ 16)
      × Printed hex_digit hex_value 16 m str val n m'
unfolding ui64_to_hex_str
ui64_to_hex_str-Printed m val str h = elim (ℕ_discrete val 0) [
  | yes z ↦
      let zero_there : (val == 0) ≡ true = ground (arith, z) in
      (
        1,
        store (store m str 48) (str + 1) 0,
        rw zero_there refl,
        omega arith,
        hex_zero-Printed m str val z,
      )
  | no nz ↦
      let real : (val == 0) ≡ false = ground (arith, nz) in
      let (n, m1, small, some_digit, e, w) =
        digits_loop-Written hex_digit hex_value 16 hex-IsBase 64 16 val m str h (omega arith) in
      let (m', f, p) =
        finish-Printed hex_digit hex_value 16 hex-IsBase m str val n m1 w (some_digit nz)
          (omega arith) in
      (n, m', rw (real, ui64_to_hex_str, e) f, small, p)
]

-- ul_to_str prints a 64-bit value in at most 20 decimal digits, the highest first, puts a 0 after them,
-- returns how many there are, and writes nowhere else; the digits read back as the value.
pub ul_to_str-Printed :
    (m : Bytes) (value str : ℕ)
    → value < 2 ^ 64
    → (n : ℕ) × (m' : Bytes) × (ul_to_str m value str ≡ some (n, m'))
      × (n ≤ 20)
      × Printed dec_digit dec_value 10 m str value n m'
unfolding ul_to_str
ul_to_str-Printed m value str h = elim (ℕ_discrete value 0) [
  | yes z ↦
      let zero_there : (value == 0) ≡ true = ground (arith, z) in
      let (m', f, p) =
        finish-Printed dec_digit dec_value 10 dec-IsBase m str value 1 (store m str 48)
          (one-Written m str value z) (omega arith) (omega arith) in
      (1, m', rw (zero_there, ul_to_str) f, omega arith, p)
  | no nz ↦
      let real : (value == 0) ≡ false = ground (arith, nz) in
      let (n, m1, small, some_digit, e, w) =
        digits_loop-Written dec_digit dec_value 10 dec-IsBase 64 20 value m str (omega arith)
          (omega arith) in
      let (m', f, p) =
        finish-Printed dec_digit dec_value 10 dec-IsBase m str value n m1 w (some_digit nz)
          (omega arith) in
      (n, m', rw (real, ul_to_str, e) f, small, p)
]
