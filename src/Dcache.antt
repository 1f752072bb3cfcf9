-- ===== src/Dcache.antt =====
-- kernel/kernel/filesystems/dentry_cache.c. A dentry is given by its address, the bytes of its name, and
-- the inode number of its parent, if it has one; a bucket is the list that `d_hash_next` links.
pub mod Lookup
use lun_os.Prelude.{
  ℕ, zero, suc, ◌+◌, ◌*◌, ◌/◌, ◌%◌, ◌^◌, bit_and, bit_xor, Bool, true, false, ◌&&◌, Option, none,
  some, List, [], ◌∷◌, ◌==◌, if◌then◌else◌, add64,
}

-- DENTRY_HASH_SIZE
abbrev pub dentry_hash_size : ℕ
dentry_hash_size = 256

pub record Dentry : Type 0 where
  pub address : ℕ
  pub name : List ℕ
  pub parent : Option ℕ

-- dentry_hash_table, by bucket
abbrev pub Table : Type 0
Table = ℕ → List Dentry

-- The body of the two loops of hash_function.
pub mix : ℕ → ℕ → ℕ
mix hash byte =
    let added = add64 hash byte in
    let shifted = add64 added (added * 2 ^ 10) in bit_xor shifted (shifted / 2 ^ 6)

-- The loop over the bytes of the parent's inode number, with `n` left to take.
pub mix_parent : ℕ → ℕ → ℕ → ℕ
mix_parent zero hash parent = hash
mix_parent (suc n) hash parent = mix_parent n (mix hash (bit_and parent 0xFF)) (parent / 2 ^ 8)

pub mix_name : ℕ → List ℕ → ℕ
mix_name hash [] = hash
mix_name hash (byte ∷ key) = mix_name (mix hash byte) key

pub hash_function : ℕ → List ℕ → ℕ
unfolding mix_parent mix_name
hash_function parent_inode_num key =
    let h = mix_name (mix_parent 8 0 parent_inode_num) key in
    let h1 = add64 h (h * 2 ^ 3) in let h2 = bit_xor h1 (h1 / 2 ^ 11) in add64 h2 (h2 * 2 ^ 15)

-- 0 stands in for the inode number of a missing parent.
pub parent_number : Option ℕ → ℕ
parent_number none = 0
parent_number (some n) = n

pub dentry_ht_bucket : Option ℕ → List ℕ → ℕ
unfolding parent_number
dentry_ht_bucket parent name = hash_function (parent_number parent) name % dentry_hash_size

pub dcache_init : Table
dcache_init bucket = []

pub dcache_add : Table → Dentry → Table
dcache_add table entry = λ bucket.
    if bucket == dentry_ht_bucket entry.parent entry.name
    then entry ∷ table bucket
    else table bucket

-- `strcmp(...) == 0`
pub same_name : List ℕ → List ℕ → Bool
same_name [] [] = true
same_name [] (b ∷ bs) = false
same_name (a ∷ more) [] = false
same_name (a ∷ more) (b ∷ bs) = (a == b) && same_name more bs

-- The loop of dcache_remove.
pub drop_named : List ℕ → List Dentry → List Dentry
unfolding same_name
drop_named name [] = []
drop_named name (d ∷ ds) =
    let rest = drop_named name ds in if same_name d.name name then ds else d ∷ rest

pub dcache_remove : Table → Dentry → Table
unfolding drop_named
dcache_remove table entry = λ bucket.
    if bucket == dentry_ht_bucket entry.parent entry.name
    then drop_named entry.name (table bucket)
    else table bucket

-- The loop of dcache_lookup.
pub find_named : List ℕ → List Dentry → Option Dentry
unfolding same_name
find_named name [] = none
find_named name (d ∷ ds) =
    let rest = find_named name ds in if same_name d.name name then some d else rest

pub dcache_lookup : Table → Option ℕ → List ℕ → Option Dentry
unfolding find_named
dcache_lookup table none name = none
dcache_lookup table (some parent) name =
    find_named name (table (dentry_ht_bucket (some parent) name))
