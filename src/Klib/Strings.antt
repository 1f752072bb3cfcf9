-- ===== src/Klib/Strings.antt =====
-- Strings: bytes up to the first 0.
use lun_os.Prelude.{
  ℕ, zero, suc, ◌+◌, ◌-◌, ◌%◌, ◌^◌, ◌≤◌, ◌<◌, ◌≡◌, ◌≢◌, ◌⊎◌, ◌↔◌, inl, inr, refl, sym, ap, ◌∙◌,
  arith, ltb, ◌==◌, Bool-cases, false, ltb→lt, ltb-false→le, ℕ_discrete, some, sub64,
}
use lun_os.Klib.{Bytes, store, strlen, strcmp, swap_loop, reverse_bytes, reverse_str}
use lun_os.Klib.Copy.{store_at, store_off}

-- The string at `s` has `n` bytes before its 0.
pub record HasLength (m : Bytes) (s n : ℕ) : Type 0 where
  pub filled : (k : ℕ) → k < n → m (s + k) ≢ 0
  pub ended : m (s + n) ≡ 0

module _ (m : Bytes) (s : ℕ) where
  head : (n : ℕ) → HasLength m s (suc n) → m s ≢ 0
  head n h e = h.filled 0 (omega arith) (ap m (omega arith) ∙ e)

  last : HasLength m s 0 → m s ≡ 0
  last h = ap m (omega arith) ∙ h.ended

  tail : (n : ℕ) → HasLength m s (suc n) → HasLength m (s + 1) n
  tail n h = record {
    filled = λ k g e. h.filled (suc k) (omega arith) (ap m (omega arith) ∙ e);
    ended = ap m (omega arith) ∙ h.ended;
  }

  strlen_stop : (f : ℕ) → m s ≡ 0 → strlen (suc f) m s ≡ some 0
  unfolding strlen
  strlen_stop f e = rw e refl

  strlen_on : (f n : ℕ) → m s ≢ 0 → strlen f m (s + 1) ≡ some n → strlen (suc f) m s ≡ some (suc n)
  unfolding strlen
  strlen_on f n ne e = let t : (m s == 0) ≡ false = ground (arith, ne) in rw (t, e) refl

-- With fuel for one byte more than the string has, strlen returns its length.
pub strlen_lem :
    (fuel : ℕ) (m : Bytes) (s n : ℕ) → HasLength m s n → n < fuel → strlen fuel m s ≡ some n
strlen_lem zero m s n h g = absurd (omega arith)
strlen_lem (suc f) m s zero h g = strlen_stop m s f (last m s h)
strlen_lem (suc f) m s (suc n) h g =
    strlen_on m s f n (head m s n h) (strlen_lem f m (s + 1) n (tail m s n h) (omega arith))

-- The strings at `s` and at `t` have the same bytes.
pub record AreEqual (m : Bytes) (s n t j : ℕ) : Type 0 where
  pub sizes : n ≡ j
  pub bytes : (k : ℕ) → k < n → m (s + k) ≡ m (t + k)

module _ (m : Bytes) (s t f : ℕ) where
  strcmp_on : m s ≢ 0 → m s ≡ m t → strcmp (suc f) m s t ≡ strcmp f m (s + 1) (t + 1)
  unfolding strcmp
  strcmp_on ne e = ground (arith, ne, e)

  strcmp_stop :
      (m s ≡ 0) ⊎ (m s ≢ m t) → strcmp (suc f) m s t ≡ some ((m s + 2 ^ 32 - m t) % 2 ^ 32)
  unfolding strcmp
  strcmp_stop h = ground (arith, h)

module _ (m : Bytes) (s t : ℕ) where
  ends_both : (j : ℕ) → m t ≡ 0 → HasLength m t j → j ≡ 0
  ends_both zero e h = refl
  ends_both (suc j) e h = absurd (head m t j h e)

  goes_on : (j : ℕ) → m t ≢ 0 → HasLength m t j → (i : ℕ) × (j ≡ suc i)
  goes_on zero ne h = absurd (ne (last m t h))
  goes_on (suc j) ne h = (j, refl)

  AreEqual-tail :
      (n j : ℕ) → m s ≡ m t → AreEqual m (s + 1) n (t + 1) j ↔ AreEqual m s (suc n) t (suc j)
  AreEqual-tail n j e = (
    λ q. record { sizes = ap suc q.sizes; bytes = shift q.bytes },
    λ q. record {
      sizes = omega (arith, q.sizes);
      bytes = λ k g. ap m (omega arith) ∙ q.bytes (suc k) (omega arith) ∙ ap m (omega arith);
    },
  )
    where
      shift :
          ((k : ℕ) → k < n → m (s + 1 + k) ≡ m (t + 1 + k))
          → (k : ℕ) → k < suc n
          → m (s + k) ≡ m (t + k)
      shift h zero g = ap m (omega arith) ∙ e ∙ ap m (omega arith)
      shift h (suc k) g = ap m (omega arith) ∙ h k (omega arith) ∙ ap m (omega arith)

-- Of two strings of bytes, strcmp, with fuel for one byte more than the first has, returns a difference
-- that is 0 just where the strings are equal.
pub strcmp_lem :
    (fuel : ℕ) (m : Bytes) (s t n j : ℕ)
    → ((a : ℕ) → m a < 256)
    → HasLength m s n
    → HasLength m t j
    → n < fuel
    → (r : ℕ) × (strcmp fuel m s t ≡ some r) × ((r ≡ 0) ↔ AreEqual m s n t j)
strcmp_lem zero m s t n j byte h g lt = absurd (omega arith)
strcmp_lem (suc f) m s t zero j byte h g lt =
    let z = last m s h in
    (
      (m s + 2 ^ 32 - m t) % 2 ^ 32,
      strcmp_stop m s t f (inl z),
      (
        λ r. record {
          sizes = sym (ends_both m s t j (omega (arith, z, r, byte t)) g);
          bytes = λ k lt. absurd (omega arith);
        },
        λ q. let e : m t ≡ 0 = ap m (omega (arith, q.sizes)) ∙ g.ended in omega (arith, z, e),
      ),
    )
strcmp_lem (suc f) m s t (suc n) j byte h g lt =
    let ne = head m s n h in
    elim (ℕ_discrete (m s) (m t)) [
      | yes e ↦
          let (i, here) = goes_on m s t j (λ z. ne (e ∙ z)) g in
          let g' : HasLength m t (suc i) = rw here at g in
          let (r, found, (only, all)) =
            strcmp_lem f m (s + 1) (t + 1) n i byte (tail m s n h) (tail m t i g') (omega arith) in
          let (up, down) = AreEqual-tail m s t n i e in
          (
            r,
            strcmp_on m s t f ne e ∙ found,
            (λ z. rw here (up (only z)), λ q. all (down (rw here at q))),
          )
      | no differ ↦ (
        (m s + 2 ^ 32 - m t) % 2 ^ 32,
        strcmp_stop m s t f (inr differ),
        (
          λ r. absurd (differ (omega (arith, r, byte s, byte t))),
          λ q. absurd (differ (ap m (omega arith) ∙ q.bytes 0 (omega arith) ∙ ap m (omega arith))),
        ),
      )
    ]

-- The bytes from `i` to `j` are turned round.
swap_out : (f : ℕ) (m : Bytes) (i j a : ℕ) → (a < i) ⊎ (j < a) → swap_loop f m i j a ≡ m a
unfolding swap_loop
swap_out zero m i j a h = refl
swap_out (suc f) m i j a h = elim (Bool-cases (ltb i j)) [
  | inl t ↦
      let lt = ltb→lt i j t in
      rw t (
        swap_out f (store (store m i (m j)) j (m i)) (i + 1) (j - 1) a (ground arith)
        ∙ store_off (store m i (m j)) j (m i) a (ground arith)
        ∙ store_off m i (m j) a (ground arith))
  | inr e ↦ rw e refl
]

swap_in :
    (f : ℕ) (m : Bytes) (i j a : ℕ)
    → j < i + f
    → i ≤ a
    → a ≤ j
    → swap_loop f m i j a ≡ m (i + (j - a))
unfolding swap_loop
swap_in zero m i j a fuel low high = absurd (omega arith)
swap_in (suc f) m i j a fuel low high =
    let m' = store (store m i (m j)) j (m i) in
    elim (Bool-cases (ltb i j)) [
      | inl t ↦
          let lt = ltb→lt i j t in
          elim (ℕ_discrete a i) [
            | yes e ↦ rw t (
                swap_out f m' (i + 1) (j - 1) a (inl (omega arith))
                ∙ store_off (store m i (m j)) j (m i) a (inl (omega arith))
                ∙ store_at m i (m j) a e
                ∙ ap m (omega arith))
            | no ni ↦ elim (ℕ_discrete a j) [
              | yes e ↦ rw t (
                  swap_out f m' (i + 1) (j - 1) a (inr (omega arith))
                  ∙ store_at (store m i (m j)) j (m i) a e
                  ∙ ap m (omega arith))
              | no nj ↦ rw t (
                  swap_in f m' (i + 1) (j - 1) a (omega arith) (omega arith) (omega arith)
                  ∙ store_off (store m i (m j)) j (m i) (i + 1 + (j - 1 - a)) (inl (omega arith))
                  ∙ store_off m i (m j) (i + 1 + (j - 1 - a)) (inr (omega arith))
                  ∙ ap m (omega arith))
            ]
          ]
      | inr e ↦ let le = ltb-false→le i j e in rw e (ap m (omega arith))
    ]

-- The bytes of a string turned round in place.
pub record Reversed (m : Bytes) (s n : ℕ) (m' : Bytes) : Type 0 where
  pub turned : (k : ℕ) → k < n → m' (s + k) ≡ m (s + (n - 1 - k))
  pub kept : (a : ℕ) → (a < s) ⊎ (s + n ≤ a) → m' a ≡ m a

pub reverse_bytes-Reversed :
    (m : Bytes) (s n : ℕ) → 0 < n → n < 2 ^ 64 → Reversed m s n (reverse_bytes m s n)
unfolding reverse_bytes
reverse_bytes-Reversed m s n p w = record {
  turned = λ k g.
      swap_in n m s (s + sub64 n 1) (s + k) (omega arith) (omega arith) (omega arith)
      ∙ ap m (omega arith);
  kept = λ a h. swap_out n m s (s + sub64 n 1) a (ground arith);
}

-- With fuel for one byte more than the string has, reverse_str turns the bytes of a string that is not
-- empty and shorter than 2 ^ 64 round in place and writes nothing else.
pub reverse_str-Reversed :
    (fuel : ℕ) (m : Bytes) (s n : ℕ)
    → HasLength m s n
    → 0 < n
    → n < 2 ^ 64
    → n < fuel
    → (m' : Bytes) × (reverse_str fuel m s ≡ some m') × Reversed m s n m'
unfolding reverse_str
reverse_str-Reversed fuel m s n h p w lt =
    let e = strlen_lem fuel m s n h lt in
    (reverse_bytes m s n, rw (e, reverse_str) refl, reverse_bytes-Reversed m s n p w)
