-- ===== src/Dcache/Lookup.antt =====
-- What a lookup finds after the cache has changed.
use lun_os.Prelude.{
  ℕ, ◌≡◌, ◌≢◌, refl, arith, inl, inr, ◌==◌, true, false, Bool-cases, Option, none, some, List, [],
  ◌∷◌,
}
use lun_os.Dcache.{
  Dentry, Table, dentry_ht_bucket, dcache_add, dcache_remove, dcache_lookup, same_name, find_named,
  drop_named,
}

same_name_refl : (xs : List ℕ) → same_name xs xs ≡ true
unfolding same_name
same_name_refl [] = refl
same_name_refl (x ∷ xs) = let e = same_name_refl xs in ground (arith, e)

same_name→equal : (xs ys : List ℕ) → same_name xs ys ≡ true → xs ≡ ys
unfolding same_name
same_name→equal [] [] h = refl
same_name→equal [] (y ∷ ys) h = absurd (ground arith)
same_name→equal (x ∷ xs) [] h = absurd (ground arith)
same_name→equal (x ∷ xs) (y ∷ ys) h =
    let a : x ≡ y = ground arith in
    let b : same_name xs ys ≡ true = ground arith in cc (a, same_name→equal xs ys b)

differs : (xs ys : List ℕ) → xs ≢ ys → same_name xs ys ≡ false
differs xs ys ne = elim (Bool-cases (same_name xs ys)) [
  | inl t ↦ absurd (ne (same_name→equal xs ys t))
  | inr f ↦ f
]

-- A dentry that has been added is found under its parent and its name.
pub dcache_lookup-dcache_add :
    (table : Table) (entry : Dentry) (parent : ℕ)
    → entry.parent ≡ some parent
    → dcache_lookup (dcache_add table entry) (some parent) entry.name ≡ some entry
unfolding dcache_lookup dcache_add find_named
dcache_lookup-dcache_add table entry parent e =
    let s = same_name_refl entry.name in rw e (ground (arith, s))

-- Adding a dentry changes no lookup of another name.
pub dcache_lookup-dcache_add_other :
    (table : Table) (entry : Dentry) (parent : Option ℕ) (name : List ℕ)
    → entry.name ≢ name
    → dcache_lookup (dcache_add table entry) parent name ≡ dcache_lookup table parent name
unfolding dcache_lookup dcache_add find_named
dcache_lookup-dcache_add_other table entry none name ne = refl
dcache_lookup-dcache_add_other table entry (some parent) name ne =
    let s = differs entry.name name ne in
    elim (Bool-cases
      (dentry_ht_bucket (some parent) name == dentry_ht_bucket entry.parent entry.name)) [
        | inl t ↦ rw t (rw s refl)
        | inr f ↦ rw f refl
      ]

-- Removing a dentry right after it was added gives the cache back as it was.
pub dcache_remove-dcache_add :
    (table : Table) (entry : Dentry) (bucket : ℕ)
    → dcache_remove (dcache_add table entry) entry bucket ≡ table bucket
unfolding dcache_remove dcache_add drop_named
dcache_remove-dcache_add table entry bucket =
    let s = same_name_refl entry.name in
    elim (Bool-cases (bucket == dentry_ht_bucket entry.parent entry.name)) [
      | inl t ↦ rw t (rw s refl)
      | inr f ↦ rw f refl
    ]
