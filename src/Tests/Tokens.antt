-- ===== src/Tests/Tokens.antt =====
-- The path a/b at 100, a block for its copy at 200, and the string "/" at 300.
use lun_os.Prelude.{ℕ, ◌≡◌, refl, arith, inl, inr, none, some, List, [], ◌∷◌, ◌==◌, if◌then◌else◌}
use lun_os.Klib.{Bytes}
use lun_os.Klib.Tokens.{kstrndup, kstrtok_r}
use lun_os.Vfs.{tokens}
use lun_os.Vfs.Tokens.{Spells}
use lun_os.Vfs.Tokens.Calls.{Tokenized}
use lun_os.Vfs.Tokens.Copied.{kstrndup-Tokenized}

abbrev memory : Bytes
memory a =
    if a == 100
    then 97
    else if a == 101
    then 47
    else if a == 102
    then 98
    else if a == 300
    then 47
    else 0

abbrev path : List ℕ
path = 97 ∷ 47 ∷ 98 ∷ []

path-Spells : Spells memory 100 path
path-Spells = (
  (
    refl,
    λ e. omega (arith, e),
    omega arith,
    (refl, λ e. omega (arith, e), omega arith, (refl, λ e. omega (arith, e), omega arith, tt)),
  ),
  refl,
)

kstrndup-Tokenized_example :
    (m' : Bytes) × (kstrndup (some 200) memory 100 3 ≡ (some 200, m'))
    × Tokenized 4 2 300 (kstrtok_r 4 2 m' (some 200) 300 none) (tokens 4 path)
    × Spells m' 100 path
kstrndup-Tokenized_example =
    kstrndup-Tokenized 4 300 200 100 memory path none (λ e. omega (arith, e)) path-Spells refl refl
      (inl (omega arith)) (inr (omega arith)) (omega arith)
