-- ===== src/Sync/Atomic/Laws.antt =====
-- How the atomic operations agree with one another.
use lun_os.Prelude.{ℕ, ◌+◌, ◌-◌, ◌/◌, ◌%◌, ◌^◌, ◌<◌, ◌≡◌, ◌↔◌, ◌⊎◌, inl, inr, arith, true, false}
use lun_os.Prelude.Bits.{bit_and-pow, flip_clear, flip_set}
use lun_os.Sync.Atomic.{
  atomic_sub, atomic_sub_return, sub_return, add_return, add_word, sub_word, negate, atomic_dec,
  atomic_dec_and_test, bit_of, bit_before, atomic_change_bit, atomic_test_and_change_bit,
}

-- On 32-bit words atomic_sub_return, which adds the negated value, leaves the word that atomic_sub
-- does, and returns it.
pub atomic_sub_return-atomic_sub :
    (val v : ℕ)
    → val < 2 ^ 32
    → v < 2 ^ 32
    → atomic_sub_return val v ≡ (atomic_sub val v, atomic_sub val v)
unfolding atomic_sub atomic_sub_return sub_return add_return add_word sub_word negate
atomic_sub_return-atomic_sub val v h g =
    let e : (v + (2 ^ 32 - val) % 2 ^ 32) % 2 ^ 32 ≡ (v + 2 ^ 32 - val) % 2 ^ 32 = omega arith in
    cc e

-- From a 32-bit count above zero atomic_dec_and_test takes one away, and reports true just when the
-- count was one.
pub atomic_dec_and_test_lem :
    (v : ℕ)
    → 0 < v
    → v < 2 ^ 32
    → (((atomic_dec_and_test v).0 ≡ true) ↔ (v ≡ 1)) × ((atomic_dec_and_test v).1 ≡ v - 1)
unfolding atomic_dec_and_test atomic_dec sub_word
atomic_dec_and_test_lem v p h = ground arith

module _ (bit v : ℕ) where
  test_set : v / bit_of bit % 2 ≡ 1 → bit_before bit v ≡ true
  unfolding bit_before bit_of
  test_set h = ground (arith, bit_and-pow (bit % 64) v)

  test_clear : v / bit_of bit % 2 ≡ 0 → bit_before bit v ≡ false
  unfolding bit_before bit_of
  test_clear h = ground (arith, bit_and-pow (bit % 64) v)

  -- atomic_test_and_change_bit returns the bit, and takes its weight from the word where it was set
  -- and adds it where it was not.
  pub atomic_test_and_change_bit_lem :
      (((atomic_test_and_change_bit bit v).0 ≡ true)
        × ((atomic_test_and_change_bit bit v).1 + bit_of bit ≡ v))
      ⊎ (((atomic_test_and_change_bit bit v).0 ≡ false)
          × ((atomic_test_and_change_bit bit v).1 ≡ v + bit_of bit))
  unfolding atomic_test_and_change_bit atomic_change_bit bit_of
  atomic_test_and_change_bit_lem = elim (digit (v / 2 ^ (bit % 64))) [
    | inl z ↦ inr (test_clear z, flip_clear (bit % 64) v z)
    | inr o ↦ inl (test_set o, flip_set (bit % 64) v o)
  ]
    where
      digit : (x : ℕ) → (x % 2 ≡ 0) ⊎ (x % 2 ≡ 1)
      digit x = ground arith
