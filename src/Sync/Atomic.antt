-- ===== src/Sync/Atomic.antt =====
-- include/kernel/atomic.h: each operation is one locked instruction, which reads and writes the word at
-- once. A word of `w` bits is held as a number below `2 ^ w` (`int` is 32 bits, `long` is 64), a
-- negative argument in two's complement. Operations that return something give the pair of what they
-- return and the new word. The barriers and the two
-- `try_cmpxchg` have no part here.
pub mod Laws
use lun_os.Prelude.{
  ℕ, ◌+◌, ◌-◌, ◌*◌, ◌/◌, ◌%◌, ◌^◌, ◌<◌, ◌≡◌, ◌≢◌, bit_and, bit_or, bit_xor, Bool, true, false, not,
  ◌==◌, leb, if◌then◌else◌, arith,
}

unfoldable pub atomic_read : ℕ → ℕ
atomic_read v = v

unfoldable pub atomic_set : ℕ → ℕ → ℕ
atomic_set v val = val

pub atomic_init : ℕ → ℕ → ℕ
atomic_init v val = val

pub atomic64_init : ℕ → ℕ → ℕ
atomic64_init v val = val

pub atomic64_read : ℕ → ℕ
atomic64_read v = v

pub atomic64_set : ℕ → ℕ → ℕ
atomic64_set v val = val

module _ (w : ℕ) where
  -- addl and addq
  unfoldable pub add_word : ℕ → ℕ → ℕ
  add_word val v = (v + val) % 2 ^ w

  -- subl and subq
  unfoldable pub sub_word : ℕ → ℕ → ℕ
  sub_word val v = (v + 2 ^ w - val) % 2 ^ w

  -- `-val`
  pub negate : ℕ → ℕ
  negate val = (2 ^ w - val) % 2 ^ w

  -- xadd, whose old word has `val` added to it again
  unfoldable pub add_return : ℕ → ℕ → ℕ × ℕ
  unfolding add_word
  add_return val v = (add_word val v, add_word val v)

  pub sub_return : ℕ → ℕ → ℕ × ℕ
  unfolding add_return negate
  sub_return val v = add_return (negate val) v

  -- The sign bit.
  pub is_negative : ℕ → Bool
  is_negative v = leb (2 ^ (w - 1)) v

pub atomic_add : ℕ → ℕ → ℕ
atomic_add = add_word 32

pub atomic_sub : ℕ → ℕ → ℕ
atomic_sub = sub_word 32

unfoldable pub atomic_inc : ℕ → ℕ
unfolding add_word
atomic_inc = add_word 32 1

unfoldable pub atomic_dec : ℕ → ℕ
unfolding sub_word
atomic_dec = sub_word 32 1

pub atomic64_add : ℕ → ℕ → ℕ
atomic64_add = add_word 64

pub atomic64_sub : ℕ → ℕ → ℕ
atomic64_sub = sub_word 64

unfoldable pub atomic_add_return : ℕ → ℕ → ℕ × ℕ
atomic_add_return = add_return 32

pub atomic64_add_return : ℕ → ℕ → ℕ × ℕ
atomic64_add_return = add_return 64

pub atomic_sub_return : ℕ → ℕ → ℕ × ℕ
atomic_sub_return = sub_return 32

pub atomic64_sub_return : ℕ → ℕ → ℕ × ℕ
atomic64_sub_return = sub_return 64

pub atomic64_inc : ℕ → ℕ
atomic64_inc = add_word 64 1

pub atomic64_dec : ℕ → ℕ
atomic64_dec = sub_word 64 1

pub atomic_inc_return : ℕ → ℕ × ℕ
atomic_inc_return = atomic_add_return 1

pub atomic64_inc_return : ℕ → ℕ × ℕ
atomic64_inc_return = atomic64_add_return 1

-- `-1` as a word
pub atomic_dec_return : ℕ → ℕ × ℕ
atomic_dec_return = atomic_add_return (2 ^ 32 - 1)

pub atomic64_dec_return : ℕ → ℕ × ℕ
atomic64_dec_return = atomic64_add_return (2 ^ 64 - 1)

pub atomic_inc_and_test : ℕ → Bool × ℕ
unfolding atomic_inc
atomic_inc_and_test v = (atomic_inc v == 0, atomic_inc v)

pub atomic_dec_and_test : ℕ → Bool × ℕ
unfolding atomic_dec
atomic_dec_and_test v = (atomic_dec v == 0, atomic_dec v)

pub atomic_add_negative : ℕ → ℕ → Bool × ℕ
unfolding atomic_add add_word is_negative
atomic_add_negative val v = (is_negative 32 (atomic_add val v), atomic_add val v)

unfoldable pub atomic_xchg : ℕ → ℕ → ℕ × ℕ
atomic_xchg v new = (v, new)

unfoldable pub atomic_cmpxchg : ℕ → ℕ → ℕ → ℕ × ℕ
atomic_cmpxchg v old new = (v, if v == old then new else v)

pub atomic64_xchg : ℕ → ℕ → ℕ × ℕ
atomic64_xchg v new = (v, new)

pub atomic64_cmpxchg : ℕ → ℕ → ℕ → ℕ × ℕ
atomic64_cmpxchg v old new = (v, if v == old then new else v)

-- The bit operations work on an unsigned long, and the register form takes the bit's number modulo 64.
pub bit_of : ℕ → ℕ
bit_of bit = 2 ^ (bit % 64)

-- setc: the bit before the operation
pub bit_before : ℕ → ℕ → Bool
unfolding bit_of
bit_before bit v = not (bit_and v (bit_of bit) == 0)

pub atomic_set_bit : ℕ → ℕ → ℕ
unfolding bit_of
atomic_set_bit bit v = bit_or v (bit_of bit)

pub atomic_clear_bit : ℕ → ℕ → ℕ
unfolding bit_of
atomic_clear_bit bit v = bit_and v (2 ^ 64 - 1 - bit_of bit)

pub atomic_change_bit : ℕ → ℕ → ℕ
unfolding bit_of
atomic_change_bit bit v = bit_xor v (bit_of bit)

pub atomic_test_and_set_bit : ℕ → ℕ → Bool × ℕ
atomic_test_and_set_bit bit v = (bit_before bit v, atomic_set_bit bit v)

pub atomic_test_and_clear_bit : ℕ → ℕ → Bool × ℕ
atomic_test_and_clear_bit bit v = (bit_before bit v, atomic_clear_bit bit v)

pub atomic_test_and_change_bit : ℕ → ℕ → Bool × ℕ
atomic_test_and_change_bit bit v = (bit_before bit v, atomic_change_bit bit v)

-- The bit of an array of words.
pub test_bit : ℕ → (ℕ → ℕ) → ℕ
test_bit bit addr = bit_and (addr (bit / 2 ^ 6) / 2 ^ bit_and bit 63) 1
