-- ===== src/Vmm/Walk.antt =====
-- A walk reads one entry at each upper level. It gives the same answer as long as those entries keep
-- their values.
use lun_os.Prelude.{
  ℕ, ◌+◌, ◌*◌, ◌≡◌, refl, sym, ap, ◌∙◌, List, [], ◌∷◌, All, Bool, true, false, none, some,
  Bool-cases, inl, inr,
}
use lun_os.Vmm.{Memory, descend, walk_levels, is_present, pte_addr}

-- The entries that a walk reads above the last level.
unfoldable pub visited : List ℕ → ℕ → Memory → List ℕ
visited [] table m = []
visited (i ∷ []) table m = []
visited (i ∷ j ∷ rest) table m =
    (table + 8 * i) ∷ visited (j ∷ rest) (pte_addr (m.entry (table + 8 * i))) m

pub descend_present :
    (create : Bool) (a : ℕ) (m : Memory)
    → is_present (m.entry a) ≡ true
    → descend create a m ≡ (some (pte_addr (m.entry a)), m)
unfolding descend
descend_present create a m e = rw e

pub descend_absent :
    (a : ℕ) (m : Memory) → is_present (m.entry a) ≡ false → descend false a m ≡ (none, m)
unfolding descend
descend_absent a m e = rw e

module _ (i j : ℕ) (rest : List ℕ) (table : ℕ) (m : Memory) where
  abbrev here : ℕ
  here = m.entry (table + 8 * i)

  walk_on :
      (create : Bool)
      → is_present here ≡ true
      → walk_levels create (i ∷ j ∷ rest) table m ≡ walk_levels create (j ∷ rest) (pte_addr here) m
  unfolding walk_levels
  walk_on create e =
      let d = descend_present create (table + 8 * i) m e in rw (d, walk_levels) (rw d)

  walk_stops : is_present here ≡ false → walk_levels false (i ∷ j ∷ rest) table m ≡ (none, m)
  unfolding walk_levels
  walk_stops e = let d = descend_absent (table + 8 * i) m e in rw (d, walk_levels) (rw d)

-- A walk that must not create changes nothing.
pub walk_levels-keeps :
    (is : List ℕ) (table : ℕ) (m : Memory) → (walk_levels false is table m).1 ≡ m
unfolding walk_levels
walk_levels-keeps [] table m = refl
walk_levels-keeps (i ∷ []) table m = refl
walk_levels-keeps (i ∷ j ∷ rest) table m =
    elim (Bool-cases (is_present (m.entry (table + 8 * i)))) [
      | inl e ↦ ap (λ r. r.1) (walk_on i j rest table m false e) ∙ walk_levels-keeps (j ∷ rest) _ m
      | inr e ↦ ap (λ r. r.1) (walk_stops i j rest table m e)
    ]

-- Where the tables are there already, a walk that may create finds the same entry.
pub walk_levels-create :
    (is : List ℕ) (table e : ℕ) (m : Memory)
    → (walk_levels false is table m).0 ≡ some e
    → walk_levels true is table m ≡ (some e, m)
unfolding walk_levels
walk_levels-create [] table e m h = cc
walk_levels-create (i ∷ []) table e m h = ap (λ o. (o, m)) h
walk_levels-create (i ∷ j ∷ rest) table e m h =
    elim (Bool-cases (is_present (m.entry (table + 8 * i)))) [
      | inl p ↦
          walk_on i j rest table m true p
          ∙ walk_levels-create (j ∷ rest) _ e m
              (sym (ap (λ r. r.0) (walk_on i j rest table m false p)) ∙ h)
      | inr p ↦ let g = sym (ap (λ r. r.0) (walk_stops i j rest table m p)) ∙ h in cc
    ]

-- A walk leads to the same entry in any memory that agrees on the entries that it reads.
pub walk_levels_agree :
    (is : List ℕ) (table : ℕ) (m m' : Memory)
    → All (λ a. m'.entry a ≡ m.entry a) (visited is table m)
    → (walk_levels false is table m').0 ≡ (walk_levels false is table m).0
unfolding walk_levels visited
walk_levels_agree [] table m m' same = refl
walk_levels_agree (i ∷ []) table m m' same = refl
walk_levels_agree (i ∷ j ∷ rest) table m m' same =
    elim (Bool-cases (is_present (m.entry (table + 8 * i)))) [
      | inl p ↦
          ap (λ r. r.0) (walk_on i j rest table m' false (rw same.0 p))
          ∙ ap (λ t. (walk_levels false (j ∷ rest) (pte_addr t) m').0) same.0
          ∙ walk_levels_agree (j ∷ rest) _ m m' same.1
          ∙ sym (ap (λ r. r.0) (walk_on i j rest table m false p))
      | inr p ↦
          ap (λ r. r.0) (walk_stops i j rest table m' (rw same.0 p))
          ∙ sym (ap (λ r. r.0) (walk_stops i j rest table m p))
    ]
