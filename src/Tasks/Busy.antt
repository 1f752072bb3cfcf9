-- ===== src/Tasks/Busy.antt =====
-- The choice of a processor for a task.
use lun_os.Prelude.{
  ℕ, zero, suc, ◌+◌, ◌%◌, ◌^◌, ◌≤◌, ◌<◌, ◌≡◌, ◌≢◌, refl, ap, arith, true, false, ltb, dec_lt,
  ℕ_discrete,
}
use lun_os.Sched.{max_cores}
use lun_os.Tasks.{biased, least_loop, find_least_busy_cpu}

-- Of the first `n` processors, `id` is the first one with the least counter.
pub record IsFirstLeast (n : ℕ) (ctr : ℕ → ℕ) (id : ℕ) : Type 0 where
  pub bound : id < n
  pub least : (j : ℕ) → j < n → biased (ctr id) ≤ biased (ctr j)
  pub first : (j : ℕ) → j < id → biased (ctr id) < biased (ctr j)

zeroth : (j : ℕ) → j < 1 → j ≡ 0
zeroth j h = omega (arith, h)

module _ (ctr : ℕ → ℕ) where
  first_at : {n m : ℕ} (id : ℕ) → n ≡ m → IsFirstLeast n ctr id → IsFirstLeast m ctr id
  first_at id e v = rw e at v

  least_loop-IsFirstLeast :
      (n i min id : ℕ)
      → min ≡ ctr id
      → IsFirstLeast i ctr id
      → IsFirstLeast (i + n) ctr (least_loop n i min id ctr)
  unfolding least_loop
  least_loop-IsFirstLeast zero i min id e v = record {
    bound = omega (arith, v.bound);
    least = λ j hj. v.least j (omega (arith, hj));
    first = v.first;
  }
  least_loop-IsFirstLeast (suc n) i min id e v = elim (dec_lt (biased (ctr i)) (biased min)) [
    | yes lt ↦
        let q : ltb (biased (ctr i)) (biased min) ≡ true = ground (arith, lt) in
        let same = ap biased e in
        rw q (
          first_at _ (omega arith) (
            least_loop-IsFirstLeast n (i + 1) (ctr i) i refl (record {
              bound = omega arith;
              least = λ j hj. elim (ℕ_discrete j i) [
                | yes here ↦ omega (arith, ap (λ (z : ℕ). biased (ctr z)) here)
                | no ne ↦ omega (arith, v.least j (omega (arith, hj, ne)), lt, same)
              ];
              first = λ j hj. omega (arith, v.least j hj, lt, same);
            })))
    | no ge ↦
        let q : ltb (biased (ctr i)) (biased min) ≡ false = ground (arith, ge) in
        let same = ap biased e in
        rw q (
          first_at _ (omega arith) (
            least_loop-IsFirstLeast n (i + 1) min id e (record {
              bound = omega (arith, v.bound);
              least = λ j hj. elim (ℕ_discrete j i) [
                | yes here ↦ omega (arith, ap (λ (z : ℕ). biased (ctr z)) here, ge, same)
                | no ne ↦ v.least j (omega (arith, hj, ne))
              ];
              first = v.first;
            })))
  ]

-- find_least_busy_cpu returns the first of the MAX_CORES processors whose counter, as an int, is the
-- least; it adds one to that counter, with wrap, and leaves the others as they are.
pub find_least_busy_cpu-IsFirstLeast :
    (ctr : ℕ → ℕ)
    → IsFirstLeast max_cores ctr (find_least_busy_cpu ctr).0
      × ((find_least_busy_cpu ctr).1 (find_least_busy_cpu ctr).0
          ≡ (ctr (find_least_busy_cpu ctr).0 + 1) % 2 ^ 32)
      × ((c : ℕ) → c ≢ (find_least_busy_cpu ctr).0 → (find_least_busy_cpu ctr).1 c ≡ ctr c)
unfolding find_least_busy_cpu
find_least_busy_cpu-IsFirstLeast ctr = (
  least_loop-IsFirstLeast ctr 3 1 (ctr 0) 0 refl (record {
    bound = omega arith;
    least = λ j hj. omega (arith, ap (λ (z : ℕ). biased (ctr z)) (zeroth j hj));
    first = λ j hj. absurd (omega (arith, hj));
  }),
  ground arith,
  λ c ne. ground (arith, ne),
)
