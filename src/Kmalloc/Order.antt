-- ===== src/Kmalloc/Order.antt =====
-- The loop of kmalloc that picks an order.
use lun_os.Prelude.{
  ℕ, zero, suc, ◌+◌, ◌*◌, ◌%◌, ◌^◌, ◌≤◌, ◌<◌, ◌≡◌, refl, ap, ◌∙◌, arith, some, true, false, ltb,
  ℕ_discrete, dec_lt, page_size,
}
use lun_os.Buddy.{block_size}
use lun_os.Kmalloc.{order_loop}

-- The least order whose block holds `total` bytes.
pub record IsLeastOrder (total order : ℕ) : Type 0 where
  pub bound : order ≤ 51
  pub holds : total ≤ block_size order
  pub least : (k : ℕ) → k < order → block_size k < total

doubled : (k : ℕ) → block_size k * 2 % 2 ^ 64 ≡ block_size (suc k)
unfolding block_size
doubled k = omega arith

largest : block_size 51 ≡ 2 ^ 63
unfolding block_size
largest = refl

module _ (total : ℕ) (small : total ≤ 2 ^ 63) where
  again :
      (n k : ℕ)
      → k < 255
      → block_size k < total
      → order_loop (suc n) k (block_size k) total ≡ order_loop n (suc k) (block_size (suc k)) total
  unfolding order_loop
  again n k lt short =
      let q : ltb (block_size k) total ≡ true = ground (arith, short) in
      let next : (k + 1) % 2 ^ 8 ≡ suc k = omega (arith, lt) in
      let there : order_loop n ((k + 1) % 2 ^ 8) (block_size k * 2 % 2 ^ 64) total
          ≡ order_loop n (suc k) (block_size k * 2 % 2 ^ 64) total =
        ap (λ (z : ℕ). order_loop n z (block_size k * 2 % 2 ^ 64) total) next in
      rw q (there ∙ ap (λ (z : ℕ). order_loop n (suc k) z total) (doubled k))

  order_from :
      (r n k : ℕ)
      → k + r ≡ 51
      → r < n
      → ((j : ℕ) → j < k → block_size j < total)
      → (order : ℕ) × (order_loop n k (block_size k) total ≡ some order) × IsLeastOrder total order
  unfolding order_loop
  order_from r zero k e lt below = absurd (omega (arith, lt))
  order_from zero (suc n) k e lt below =
      let last : k ≡ 51 = omega (arith, e) in
      let top : block_size k ≡ 2 ^ 63 = ap block_size last ∙ largest in
      let q : ltb (block_size k) total ≡ false = ground (arith, top) in
      (k, rw q refl, record { bound = omega (arith, e); holds = omega (arith, top); least = below })
  order_from (suc r) (suc n) k e lt below = elim (dec_lt (block_size k) total) [
    | no enough ↦
        let q : ltb (block_size k) total ≡ false = ground (arith, enough) in
        (
          k,
          rw q refl,
          record { bound = omega (arith, e); holds = omega (arith, enough); least = below },
        )
    | yes short ↦
        let (order, found, best) =
          order_from r n (suc k) (omega (arith, e)) (omega (arith, lt)) (λ j hj.
            elim (ℕ_discrete j k) [
              | yes here ↦ omega (arith, ap block_size here, short)
              | no ne ↦ below j (omega (arith, hj, ne))
            ]) in
        (order, again n k (omega (arith, e)) short ∙ found, best)
  ]

-- For a total of at most 2 ^ 63 bytes, the loop ends within its 64 tests, with the least order whose
-- block holds the total.
pub order_loop-IsLeastOrder :
    (total : ℕ)
    → total ≤ 2 ^ 63
    → (order : ℕ) × (order_loop 64 0 page_size total ≡ some order) × IsLeastOrder total order
unfolding block_size
order_loop-IsLeastOrder total small =
    order_from total small 51 64 0 refl (omega arith) (λ j hj. absurd (omega (arith, hj)))
