-- ===== src/Klib/Tokens.antt =====
-- kernel/klib/string.c: the copy of a string, and its tokens.
use lun_os.Prelude.{ℕ, zero, suc, ◌+◌, Option, none, some, ◌==◌, if◌then◌else◌}
use lun_os.Klib.{Bytes, store, strchr}

-- The loop of kstrndup, whose test reads the first byte in every turn; it gives `i`.
unfoldable pub dup_loop : ℕ → ℕ → Bytes → ℕ → ℕ → ℕ × Bytes
dup_loop zero i m tmp str = (i, m)
dup_loop (suc n) i m tmp str =
    let rest = dup_loop n (i + 1) (store m (tmp + i) (m (str + i))) tmp str in
    if m str == 0 then (i, m) else rest

-- 0 is NULL; `block` is what kmalloc answers for `n + 1` bytes.
unfoldable pub kstrndup : Option ℕ → Bytes → ℕ → ℕ → Option ℕ × Bytes
kstrndup none m str n = (none, m)
kstrndup (some tmp) m str n =
    let (i, copied) = dup_loop n 0 m tmp str in
    if str == 0 then (none, m) else (some tmp, store copied (tmp + i) 0)

-- The loop of kstrtok_r to the first delimiter, or to the end; each strchr has the fuel `g`.
unfoldable pub token_loop : ℕ → ℕ → Bytes → ℕ → ℕ → Option ℕ
token_loop zero g m delim token = none
token_loop (suc f) g m delim token =
    let rest = token_loop f g m delim (token + 1) in
    let found : Option ℕ = elim (strchr g m delim (m token)) [
      | none ↦ none
      | some none ↦ rest
      | some (some _) ↦ some token
    ] in
    if m token == 0 then some token else found

-- What kstrtok_r returns, `*saveptr` after it, and the memory.
pub record Token : Type 0 where
  pub result : Option ℕ
  pub saveptr : Option ℕ
  pub mem : Bytes

-- From `*saveptr` on.
unfoldable pub next_token : ℕ → ℕ → Bytes → ℕ → ℕ → Option Token
next_token f g m delim start = elim (token_loop f g m delim start) [
  | none ↦ none
  | some token ↦
      let ended : Token = record { result = some start; saveptr = some token; mem = m } in
      let cut : Token = record {
        result = some start;
        saveptr = some (token + 1);
        mem = store m token 0;
      } in
      some (if m token == 0 then ended else cut)
]

unfoldable pub kstrtok_r : ℕ → ℕ → Bytes → Option ℕ → ℕ → Option ℕ → Option Token
kstrtok_r f g m (some str) delim saveptr = next_token f g m delim str
kstrtok_r f g m none delim none = some record { result = none; saveptr = none; mem = m }
kstrtok_r f g m none delim (some save) =
    let next = next_token f g m delim save in
    let no_more : Token = record { result = none; saveptr = some save; mem = m } in
    if m save == 0 then some no_more else next
