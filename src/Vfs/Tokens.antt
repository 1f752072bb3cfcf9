-- ===== src/Vfs/Tokens.antt =====
-- Strings in memory as lists of bytes, and the first token of one.
pub mod Calls
pub mod Copied
use lun_os.Prelude.{
  ℕ, zero, suc, ◌+◌, ◌%◌, ◌≤◌, ◌<◌, ◌≡◌, ◌≢◌, refl, sym, ap, subst, ◌∙◌, ◌⊎◌, inl, inr, arith, Bool,
  true, false, Option, none, some, List, [], ◌∷◌, length, ◌==◌, if◌then◌else◌, ℕ_discrete,
}
use lun_os.Klib.{Bytes, store, strchr}
use lun_os.Klib.Copy.{store_at, store_off}
use lun_os.Klib.Tokens.{Token, token_loop, next_token, kstrtok_r}
use lun_os.Vfs.{kstrtok, tokens, is_empty}

-- The bytes of the list, none of them 0, stand at `s`.
abbrev pub Starts : Bytes → ℕ → List ℕ → Type 0
Starts m s [] = Unit
Starts m s (x ∷ xs) = (m s ≡ x) × (x ≢ 0) × (x < 256) × Starts m (s + 1) xs

-- A string with these bytes stands at `s`.
abbrev pub Spells : Bytes → ℕ → List ℕ → Type 0
Spells m s xs = Starts m s xs × (m (s + length xs) ≡ 0)

pub Starts-store :
    (m : Bytes) (a b s : ℕ) (xs : List ℕ)
    → (a < s) ⊎ (s + length xs ≤ a)
    → Starts m s xs
    → Starts (store m a b) s xs
Starts-store m a b s [] h c = tt
Starts-store m a b s (x ∷ xs) h (e, nz, byte, c) = elim h [
  | inl l ↦ (
    store_off m a b s (inr l) ∙ e,
    nz,
    byte,
    Starts-store m a b (s + 1) xs (inl (omega (arith, l))) c,
  )
  | inr l ↦ (
    store_off m a b s (inl (omega (arith, l))) ∙ e,
    nz,
    byte,
    Starts-store m a b (s + 1) xs (inr (omega (arith, l))) c,
  )
]

kstrtok_stop : (c : ℕ) (cs : List ℕ) → c ≡ 47 → kstrtok (c ∷ cs) ≡ ([], cs)
unfolding kstrtok
kstrtok_stop c cs h = ground (arith, h)

kstrtok_on :
    (c : ℕ) (cs : List ℕ) → c ≢ 47 → kstrtok (c ∷ cs) ≡ (c ∷ (kstrtok cs).0, (kstrtok cs).1)
unfolding kstrtok
kstrtok_on c cs h = ground (arith, h)

module _ (m : Bytes) (delim g : ℕ) (slash : m delim ≡ 47) (ended : m (delim + 1) ≡ 0) where
  strchr_slash : strchr (suc (suc g)) m delim 47 ≡ some (some delim)
  unfolding strchr
  strchr_slash = ground (arith, slash)

  strchr_other : (x : ℕ) → x ≢ 47 → x ≢ 0 → x < 256 → strchr (suc (suc g)) m delim x ≡ some none
  unfolding strchr
  strchr_other x ne nz byte = ground (arith, slash, ended, ne, nz, byte)

  -- The first token of the bytes at `s`, and what stands behind it.
  abbrev pub Found : ℕ → ℕ → List ℕ → List ℕ × List ℕ → Type 0
  Found f s xs (token, rest) =
      (token_loop f (suc (suc g)) m delim s ≡ some (s + length token))
      × Starts m s token
      × (((m (s + length token) ≡ 0) × (rest ≡ []))
          ⊎ ((m (s + length token) ≡ 47)
              × Spells m (s + length token + 1) rest
              × (length token + length rest < length xs)))
      × (length token ≤ length xs)

  one_more :
      (f s c : ℕ) (cs : List ℕ) (r : List ℕ × List ℕ)
      → m s ≡ c
      → c ≢ 47
      → c ≢ 0
      → c < 256
      → Found f (s + 1) cs r
      → Found (suc f) s (c ∷ cs) (c ∷ r.0, r.1)
  unfolding token_loop
  one_more f s c cs (token, rest) e ne nz byte (run, starts, stop, le) =
      let at : s + 1 + length token ≡ s + suc (length token) = omega arith in
      let q : (m s == 0) ≡ false = ground (arith, e, nz) in
      let other : strchr (suc (suc g)) m delim (m s) ≡ some none =
        strchr_other (m s) (λ h. ne (sym e ∙ h)) (λ h. nz (sym e ∙ h)) (omega (arith, e, byte)) in
      (
        rw (q, other) (run ∙ ap (λ (z : ℕ). some z) at),
        (e, nz, byte, starts),
        elim stop [
          | inl (z, no_rest) ↦ inl (ap m (sym at) ∙ z, no_rest)
          | inr (z, spelt, short) ↦ inr (
            ap m (sym at) ∙ z,
            subst (λ (x : ℕ). Spells m (x + 1) rest) at spelt,
            omega (arith, short),
          )
        ],
        omega (arith, le),
      )

  at_slash :
      (f s : ℕ) (cs : List ℕ) → m s ≡ 47 → Spells m (s + 1) cs → Found (suc f) s (47 ∷ cs) ([], cs)
  unfolding token_loop
  at_slash f s cs e h =
      let q : (m s == 0) ≡ false = ground (arith, e) in
      let found : strchr (suc (suc g)) m delim (m s) ≡ some (some delim) =
        ap (λ (z : ℕ). strchr (suc (suc g)) m delim z) e ∙ strchr_slash in
      (
        rw (q, found) (ap (λ (x : ℕ). some x) (omega arith)),
        tt,
        inr (ap m (omega arith) ∙ e, subst (λ (z : ℕ). Spells m z cs) (omega arith) h, omega arith),
        omega arith,
      )

  at_end : (f s : ℕ) → m (s + 0) ≡ 0 → Found (suc f) s [] ([], [])
  unfolding token_loop
  at_end f s z =
      let here : m s ≡ 0 = ap m (omega arith) ∙ z in
      let q : (m s == 0) ≡ true = ground (arith, here) in
      (rw q (ap (λ (x : ℕ). some x) (omega arith)), tt, inl (z, refl), omega arith)

  pub token_loop_lem :
      (xs : List ℕ) (f s : ℕ) → Spells m s xs → length xs < f → Found f s xs (kstrtok xs)
  unfolding kstrtok
  token_loop_lem xs zero s h l = absurd (omega (arith, l))
  token_loop_lem [] (suc f) s (c, z) l = at_end f s z
  token_loop_lem (c ∷ cs) (suc f) s ((e, nz, byte, h), z) l =
      let rest : Spells m (s + 1) cs = (h, ap m (omega arith) ∙ z) in
      elim (ℕ_discrete c 47) [
        | yes is ↦ subst (Found (suc f) s (c ∷ cs)) (sym (kstrtok_stop c cs is)) (
            subst (λ (x : ℕ). Found (suc f) s (x ∷ cs) ([], cs)) (sym is)
              (at_slash f s cs (e ∙ is) rest))
        | no ne ↦ subst (Found (suc f) s (c ∷ cs)) (sym (kstrtok_on c cs ne)) (
            one_more f s c cs (kstrtok cs) e ne nz byte
              (token_loop_lem cs f (s + 1) rest (omega (arith, l))))
      ]
