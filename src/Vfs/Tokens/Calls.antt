-- ===== src/Vfs/Tokens/Calls.antt =====
-- The tokens of a path as the calls of kstrtok_r cut them in memory.
use lun_os.Prelude.{
  ℕ, zero, suc, ◌+◌, ◌≤◌, ◌<◌, ◌≡◌, ◌≢◌, refl, sym, ap, ◌∙◌, ◌⊎◌, inl, inr, arith, Bool, true,
  false, Option, none, some, List, [], ◌∷◌, length, ◌==◌, if◌then◌else◌,
}
use lun_os.Klib.{Bytes, store}
use lun_os.Klib.Copy.{store_at, store_off}
use lun_os.Klib.Tokens.{Token, next_token, kstrtok_r}
use lun_os.Vfs.{kstrtok, tokens, is_empty}
use lun_os.Vfs.Tokens.{Spells, Starts-store, token_loop_lem}

-- The token `token` was cut off the `n` bytes at `s`, and `rest` stands behind it.
record IsCut (m : Bytes) (delim s n : ℕ) (token rest : List ℕ) (r : Option Token) : Type 0 where
  t : Token
  ran : r ≡ some t
  result : t.result ≡ some s
  cut : Spells t.mem s token
  save : ℕ
  saved : t.saveptr ≡ some save
  behind_it : Spells t.mem save rest
  inside : (s ≤ save) × (save + length rest ≤ s + n)
  shorter : t.mem save ≢ 0 → length rest < n
  others : (a : ℕ) → (a < s) ⊎ (s + n < a) → t.mem a ≡ m a

next_token_lem :
    (m : Bytes) (delim g f s : ℕ) (xs : List ℕ)
    → m delim ≡ 47
    → m (delim + 1) ≡ 0
    → Spells m s xs
    → length xs < f
    → IsCut m delim s
        (length xs)
        (kstrtok xs).0
        (kstrtok xs).1
        (next_token f (suc (suc g)) m delim s)
unfolding next_token
next_token_lem m delim g f s xs slash ended h l =
    let (run, starts, stop, le) = token_loop_lem m delim g slash ended xs f s h l in
    let token = (kstrtok xs).0 in
    let rest = (kstrtok xs).1 in
    let at = s + length token in
    elim stop [
      | inl (z, no_rest) ↦
          let q : (m at == 0) ≡ true = ground (arith, z) in
          record {
            t = record { result = some s; saveptr = some at; mem = m };
            ran = rw (next_token, run, q) refl;
            result = refl;
            cut = (starts, z);
            save = at;
            saved = refl;
            behind_it = rw no_rest (tt, ap m (omega arith) ∙ z);
            inside = (omega arith, rw no_rest (omega (arith, le)));
            shorter = λ nz. absurd (nz z);
            others = λ a o. refl;
          }
      | inr (z, (spelt, end), short) ↦
          let q : (m at == 0) ≡ false = ground (arith, z) in
          record {
            t = record { result = some s; saveptr = some (at + 1); mem = store m at 0 };
            ran = rw (next_token, run, q) refl;
            result = refl;
            cut = (Starts-store m at 0 s token (inr (omega arith)) starts, store_at m at 0 at refl);
            save = at + 1;
            saved = refl;
            behind_it = (
              Starts-store m at 0 (at + 1) rest (inl (omega arith)) spelt,
              store_off m at 0 (at + 1 + length rest) (inr (omega arith)) ∙ end,
            );
            inside = (omega arith, omega (arith, short));
            shorter = λ nz. omega (arith, short);
            others = λ a o. store_off m at 0 a (ground (arith, o, le));
          }
    ]

-- What the calls of kstrtok_r give from `r` on: these tokens, each a string where its call points to and
-- the last byte at `*saveptr` being 0 or not, and then NULL.
pub Tokenized : ℕ → ℕ → ℕ → Option Token → List (List ℕ × Bool) → Type 0
Tokenized f g delim r [] = (t : Token) × (r ≡ some t) × (t.result ≡ none)
Tokenized f g delim r ((token, is_last) ∷ more) =
    (t : Token) × (r ≡ some t)
    × ((s : ℕ) × (t.result ≡ some s) × Spells t.mem s token)
    × ((save : ℕ) × (t.saveptr ≡ some save) × ((t.mem save == 0) ≡ is_last))
    × Tokenized f g delim (kstrtok_r f g t.mem none delim t.saveptr) more

no_more :
    (f g delim save : ℕ) (m : Bytes)
    → m save ≡ 0
    → Tokenized f g delim (kstrtok_r f g m none delim (some save)) []
unfolding Tokenized kstrtok_r
no_more f g delim save m z =
    let q : (m save == 0) ≡ true = ground (arith, z) in
    (record { result = none; saveptr = some save; mem = m }, rw q refl, refl)

goes_on :
    (f g delim save : ℕ) (m : Bytes)
    → m save ≢ 0
    → kstrtok_r f g m none delim (some save) ≡ next_token f g m delim save
unfolding kstrtok_r
goes_on f g delim save m nz = let q : (m save == 0) ≡ false = ground (arith, nz) in rw q refl

tokens_step :
    (n : ℕ) (xs : List ℕ)
    → tokens (suc n) xs
      ≡ ((kstrtok xs).0, is_empty (kstrtok xs).1)
        ∷ (if is_empty (kstrtok xs).1 then [] else tokens n (kstrtok xs).1)
unfolding tokens
tokens_step n xs = refl

first_zero :
    (m : Bytes) (save : ℕ) (rest : List ℕ) → Spells m save rest → (m save == 0) ≡ is_empty rest
unfolding is_empty
first_zero m save [] (c, z) = let here : m save ≡ 0 = ap m (omega arith) ∙ z in ground (arith, here)
first_zero m save (x ∷ xs) ((e, nz, byte, c), z) = ground (arith, e, nz)

follow :
    (n f g delim save : ℕ) (m : Bytes) (rest : List ℕ)
    → Spells m save rest
    → (m save ≢ 0 → Tokenized f g delim (next_token f g m delim save) (tokens n rest))
    → Tokenized f g delim
        (kstrtok_r f g m none delim (some save))
        (if is_empty rest then [] else tokens n rest)
unfolding is_empty
follow n f g delim save m [] (c, z) further = no_more f g delim save m (ap m (omega arith) ∙ z)
follow n f g delim save m (x ∷ xs) ((e, nz, byte, c), z) further =
    let here : m save ≢ 0 = λ h. nz (sym e ∙ h) in rw (goes_on f g delim save m here) (further here)

Tokenized-next_token :
    (n f g delim s : ℕ) (m : Bytes) (xs : List ℕ)
    → m delim ≡ 47
    → m (delim + 1) ≡ 0
    → (delim + 1 < s) ⊎ (s + length xs < delim)
    → Spells m s xs
    → length xs < f
    → length xs < n
    → Tokenized f (suc (suc g)) delim (next_token f (suc (suc g)) m delim s) (tokens n xs)
unfolding Tokenized
Tokenized-next_token zero f g delim s m xs slash ended apart h l k = absurd (omega (arith, k))
Tokenized-next_token (suc n) f g delim s m xs slash ended apart h l k =
    let c = next_token_lem m delim g f s xs slash ended h l in
    let slash' = c.others delim (elim apart [ inl a ↦ inl (omega (arith, a)) | inr a ↦ inr a ]) in
    let ended' =
      c.others (delim + 1) (elim apart [ inl a ↦ inl a | inr a ↦ inr (omega (arith, a)) ]) in
    rw (tokens_step n xs) (
      c.t,
      c.ran,
      (s, c.result, c.cut),
      (c.save, c.saved, first_zero c.t.mem c.save (kstrtok xs).1 c.behind_it),
      rw (c.saved) (
          follow n f (suc (suc g)) delim c.save c.t.mem (kstrtok xs).1 c.behind_it (λ nz.
            Tokenized-next_token n f g delim c.save c.t.mem (kstrtok xs).1 (slash' ∙ slash)
              (ended' ∙ ended)
              (elim apart [
                | inl a ↦ inl (omega (arith, a, c.inside.0))
                | inr a ↦ inr (omega (arith, a, c.inside.1))
              ])
              c.behind_it (omega (arith, l, c.shorter nz)) (omega (arith, k, c.shorter nz)))),
    )

-- Where the bytes of a path, none of them 0, stand at `s` with a 0 behind them, the string "/" stands
-- clear of them, and the fuel is more than they are: the calls of kstrtok_r, the first one with `s` and
-- the others with NULL, give the tokens that the walk takes, each as a string in memory, `*saveptr`
-- being at a 0 after the last one and only then, and then NULL.
pub kstrtok_r-Tokenized :
    (f delim s : ℕ) (m : Bytes) (path : List ℕ) (saveptr : Option ℕ)
    → m delim ≡ 47
    → m (delim + 1) ≡ 0
    → (delim + 1 < s) ⊎ (s + length path < delim)
    → Spells m s path
    → length path < f
    → Tokenized f 2 delim (kstrtok_r f 2 m (some s) delim saveptr) (tokens (suc (length path)) path)
unfolding kstrtok_r
kstrtok_r-Tokenized f delim s m path saveptr slash ended apart h l =
    Tokenized-next_token (suc (length path)) f 0 delim s m path slash ended apart h l (omega arith)
