-- ===== src/Tests/Klib.antt =====
-- Three bytes at 0x100, two of them not 0, with a copy of them at 0x200.
use lun_os.Prelude.{ℕ, ◌+◌, ◌-◌, ◌≤◌, ◌<◌, ◌≡◌, ◌⊎◌, arith, ◌==◌, if◌then◌else◌, some}
use lun_os.Klib.{Bytes, memmove}
use lun_os.Klib.Copy.{memmove_lem}
use lun_os.Klib.Strings.{HasLength}
use lun_os.Klib.Numbers.{dec_digit, ul_to_str}
use lun_os.Klib.Numbers.Digits.{Printed}
use lun_os.Klib.Numbers.Print.{dec_value, ul_to_str-Printed}

abbrev bytes : Bytes
bytes = λ a.
    if a == 0x100
    then 65
    else if a == 0x101
    then 66
    else if a == 0x200
    then 65
    else if a == 0x201
    then 66
    else 0

first : HasLength bytes 0x100 2
first = record { filled = λ k h. ground arith; ended = ground arith }

second : HasLength bytes 0x200 2
second = record { filled = λ k h. ground arith; ended = ground arith }

small : (a : ℕ) → bytes a < 256
small a = ground arith

memmove_example :
    ((a : ℕ)
      → 0x101 ≤ a
      → a < 0x101 + 2
      → memmove bytes 0x101 0x100 2 a ≡ bytes (0x100 + (a - 0x101)))
    × ((a : ℕ) → (a < 0x101) ⊎ (0x101 + 2 ≤ a) → memmove bytes 0x101 0x100 2 a ≡ bytes a)
memmove_example = memmove_lem bytes 0x101 0x100 2

ul_to_str_example :
    (n : ℕ) × (m' : Bytes) × (ul_to_str bytes 1024 0x300 ≡ some (n, m'))
    × (n ≤ 20)
    × Printed dec_digit dec_value 10 bytes 0x300 1024 n m'
ul_to_str_example = ul_to_str-Printed bytes 1024 0x300 (omega arith)
