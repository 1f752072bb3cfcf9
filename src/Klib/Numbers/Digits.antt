-- ===== src/Klib/Numbers/Digits.antt =====
-- The digits of a number, as the loop writes them and as they are read back.
use lun_os.Prelude.{
  ℕ, zero, suc, ◌+◌, ◌-◌, ◌*◌, ◌/◌, ◌%◌, ◌^◌, ◌≤◌, ◌<◌, ◌≡◌, ◌≢◌, ◌⊎◌, inl, inr, refl, sym, ap, ◌∙◌,
  arith, ◌==◌, ℕ_discrete, some, false,
}
use lun_os.Klib.{Bytes, store, reverse_str}
use lun_os.Klib.Copy.{store_at, store_off}
use lun_os.Klib.Strings.{HasLength, reverse_str-Reversed}
use lun_os.Klib.Numbers.{digits_loop, finish}

-- How digits are written: `value_of` reads what `digit` writes, and `fits` is what a power of the base
-- says of the digits of a number below it.
pub record IsBase (digit value_of : ℕ → ℕ) (base : ℕ) : Type 0 where
  pub reads : (v : ℕ) → value_of (digit (v % base)) ≡ v % base
  pub not_zero : (v : ℕ) → digit (v % base) ≢ 0
  pub rebuilds : (v : ℕ) → v / base * base + v % base ≡ v
  pub fits : (g v : ℕ) → v < base ^ suc g → v / base < base ^ g
  pub one : (v : ℕ) → v < base ^ 0 → v ≡ 0

module _ (value_of : ℕ → ℕ) (base : ℕ) where
  -- The number whose `n` digits stand from `s` on, the highest first.
  unfoldable pub read_digits : ℕ → Bytes → ℕ → ℕ
  read_digits zero m s = 0
  read_digits (suc n) m s = read_digits n m s * base + value_of (m (s + n))

  -- The same with the lowest first.
  unfoldable pub read_reversed : ℕ → Bytes → ℕ → ℕ
  read_reversed zero m s = 0
  read_reversed (suc n) m s = read_reversed n m (s + 1) * base + value_of (m s)

  pub read_reversed-agree :
      (n : ℕ) (m m' : Bytes) (s : ℕ)
      → ((k : ℕ) → k < n → m' (s + k) ≡ m (s + k))
      → read_reversed n m' s ≡ read_reversed n m s
  unfolding read_reversed
  read_reversed-agree zero m m' s h = refl
  read_reversed-agree (suc n) m m' s h =
      let low : m' s ≡ m s = ap m' (omega arith) ∙ h 0 (omega arith) ∙ ap m (omega arith) in
      let rest =
        read_reversed-agree n m m' (s + 1)
          (λ k g. ap m' (omega arith) ∙ h (suc k) (omega arith) ∙ ap m (omega arith)) in
      rw (low, rest) refl

  pub read_digits-turned :
      (n : ℕ) (m m' : Bytes) (s t : ℕ)
      → ((k : ℕ) → k < n → m' (s + k) ≡ m (t + (n - 1 - k)))
      → read_digits n m' s ≡ read_reversed n m t
  unfolding read_digits read_reversed
  read_digits-turned zero m m' s t h = refl
  read_digits-turned (suc n) m m' s t h =
      let low : m' (s + n) ≡ m t = h n (omega arith) ∙ ap m (omega arith) in
      let rest =
        read_digits-turned n m m' s (t + 1) (λ k g. h k (omega arith) ∙ ap m (omega arith)) in
      rw (low, rest) refl

module _ (digit value_of : ℕ → ℕ) (base : ℕ) where
  -- `n` digits of `v` have been written from `at` on, the lowest first.
  pub record Written (m : Bytes) (at v n : ℕ) (m' : Bytes) : Type 0 where
    pub reads : read_reversed value_of base n m' at ≡ v
    pub filled : (k : ℕ) → k < n → m' (at + k) ≢ 0
    pub kept : (a : ℕ) → (a < at) ⊎ (at + n ≤ a) → m' a ≡ m a

  -- The digits of `v`, the highest first, from `str` on, with a 0 after them.
  pub record Printed (m : Bytes) (str v n : ℕ) (m' : Bytes) : Type 0 where
    pub length : HasLength m' str n
    pub reads : read_digits value_of base n m' str ≡ v
    pub kept : (a : ℕ) → (a < str) ⊎ (str + n < a) → m' a ≡ m a

  module _ (b : IsBase digit value_of base) where
    -- One digit before those that are written after it.
    pub Written-cons :
        (m : Bytes) (at v n : ℕ) (m' : Bytes)
        → Written (store m at (digit (v % base))) (at + 1) (v / base) n m'
        → Written m at v (suc n) m'
    unfolding read_reversed
    Written-cons m at v n m' w =
        let low : m' at ≡ digit (v % base) =
          w.kept at (inl (omega arith)) ∙ store_at m at (digit (v % base)) at refl in
        record {
          reads = rw (low, w.reads, b.reads v) (b.rebuilds v);
          filled = filled low;
          kept =
              λ a h. w.kept a (ground arith) ∙ store_off m at (digit (v % base)) a (ground arith);
        }
      where
        filled : m' at ≡ digit (v % base) → (k : ℕ) → k < suc n → m' (at + k) ≢ 0
        filled low zero g e = b.not_zero v (sym low ∙ ap m' (omega arith) ∙ e)
        filled low (suc k) g e = w.filled k (omega arith) (ap m' (omega arith) ∙ e)

    loop_stops : (f v : ℕ) (m : Bytes) (at : ℕ) → v ≡ 0 → digits_loop f digit base v m at ≡ (at, m)
    unfolding digits_loop
    loop_stops zero v m at e = refl
    loop_stops (suc f) v m at e = rw e refl

    loop_goes :
        (f v : ℕ) (m : Bytes) (at : ℕ)
        → v ≢ 0
        → digits_loop (suc f) digit base v m at
          ≡ digits_loop f digit base (v / base) (store m at (digit (v % base))) (at + 1)
    unfolding digits_loop
    loop_goes f v m at ne = let e : (v == 0) ≡ false = ground (arith, ne) in rw e refl

    abbrev pub Wrote : (f g v : ℕ) (m : Bytes) (at : ℕ) → Type 0
    Wrote f g v m at =
        (n : ℕ) × (m' : Bytes) × (n ≤ g)
        × (v ≢ 0 → 0 < n)
        × (digits_loop f digit base v m at ≡ (at + n, m'))
        × Written m at v n m'

    none_left : (f g v : ℕ) (m : Bytes) (at : ℕ) → v ≡ 0 → Wrote f g v m at
    unfolding read_reversed
    none_left f g v m at z = (
      0,
      m,
      omega arith,
      λ nz. absurd (nz z),
      loop_stops f v m at z ∙ ap (λ x. (x, m)) (omega arith),
      record { reads = sym z; filled = λ k h. absurd (omega arith); kept = λ a h. refl },
    )

    -- With fuel for `g` digits, the loop writes a number below the power `g` of the base.
    pub digits_loop-Written :
        (f g v : ℕ) (m : Bytes) (at : ℕ) → v < base ^ g → g ≤ f → Wrote f g v m at
    digits_loop-Written f zero v m at lt le = none_left f 0 v m at (b.one v lt)
    digits_loop-Written zero (suc g) v m at lt le = absurd (omega arith)
    digits_loop-Written (suc f) (suc g) v m at lt le = elim (ℕ_discrete v 0) [
      | yes z ↦ none_left (suc f) (suc g) v m at z
      | no nz ↦
          let (n, m', small, _, e, w) =
            digits_loop-Written f g (v / base) (store m at (digit (v % base))) (at + 1)
              (b.fits g v lt) (omega arith) in
          (
            suc n,
            m',
            omega arith,
            λ _. omega arith,
            loop_goes f v m at nz ∙ e ∙ ap (λ x. (x, m')) (omega arith),
            Written-cons m at v n m' w,
          )
    ]

    finish_lem :
        (str end : ℕ) (m m' : Bytes)
        → reverse_str 65 (store m end 0) str ≡ some m'
        → finish str (end, m) ≡ some (end - str, m')
    unfolding finish
    finish_lem str end m m' e = rw (e, finish) refl

    pub finish-Printed :
        (m : Bytes) (str v n : ℕ) (m1 : Bytes)
        → Written m str v n m1
        → 0 < n
        → n ≤ 64
        → (m' : Bytes) × (finish str (str + n, m1) ≡ some (n, m')) × Printed m str v n m'
    finish-Printed m str v n m1 w p small =
        let m2 = store m1 (str + n) 0 in
        let same : (k : ℕ) → k < n → m2 (str + k) ≡ m1 (str + k) =
          λ k g. store_off m1 (str + n) 0 (str + k) (inl (omega arith)) in
        let whole : HasLength m2 str n = record {
          filled = λ k g e. w.filled k g (sym (same k g) ∙ e);
          ended = store_at m1 (str + n) 0 (str + n) refl;
        } in
        let (m', e, r) = reverse_str-Reversed 65 m2 str n whole p (omega arith) (omega arith) in
        (
          m',
          finish_lem str (str + n) m1 m' e ∙ ap (λ x. some (x, m')) (omega arith),
          record {
            length = record {
              filled = λ k g z. whole.filled (n - 1 - k) (omega arith) (sym (r.turned k g) ∙ z);
              ended = r.kept (str + n) (inr (omega arith)) ∙ whole.ended;
            };
            reads =
                read_digits-turned value_of base n m2 m' str str r.turned
                ∙ read_reversed-agree value_of base n m1 m2 str same
                ∙ w.reads;
            kept = λ a h.
                r.kept a (ground arith)
                ∙ store_off m1 (str + n) 0 a (ground arith)
                ∙ w.kept a (ground arith);
          },
        )
