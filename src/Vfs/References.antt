-- ===== src/Vfs/References.antt =====
-- path_walk takes one reference, to what it returns, and gives back all the others.
use lun_os.Prelude.{ℕ, ◌+◌, ◌%◌, ◌^◌, ◌≡◌, Option, none, some, List, ◌==◌, if◌then◌else◌}
use lun_os.Vfs.{Vfs, Lookup, Walk, on, stop}

-- One for the dentry that a reference is held to.
unfoldable pub held : Option ℕ → ℕ → ℕ
held none d = 0
held (some p) d = if p == d then 1 else 0

-- Against the counts before, there is the one reference: for the dentries of `Old`, which keep their
-- parents too, and the counts of the inodes of `OldInode` stay.
pub record Holds (Old OldInode : ℕ → Type 0) (s : Vfs) (who : Option ℕ) (s' : Vfs) : Type 0 where
  pub counts : (d : ℕ) → Old d → s'.refcount d ≡ (s.refcount d + held who d) % 2 ^ 32
  pub inodes : (i : ℕ) → OldInode i → s'.inode_refcount i ≡ s.inode_refcount i
  pub parents : (d : ℕ) → Old d → s'.parent d ≡ s.parent d

-- A lookup changes no count and no parent of these dentries and no count of these inodes.
pub record KeepsOld (Old OldInode : ℕ → Type 0) (lookup : Lookup) : Type 0 where
  pub counts :
      (dir : ℕ) (name : List ℕ) (s : Vfs) (d : ℕ)
      → Old d
      → (lookup dir name s).1.refcount d ≡ s.refcount d
  pub inodes :
      (dir : ℕ) (name : List ℕ) (s : Vfs) (i : ℕ)
      → OldInode i
      → (lookup dir name s).1.inode_refcount i ≡ s.inode_refcount i
  pub parents :
      (dir : ℕ) (name : List ℕ) (s : Vfs) (d : ℕ)
      → Old d
      → (lookup dir name s).1.parent d ≡ s.parent d

module _ (Old OldInode : ℕ → Type 0) where
  module _ (s : Vfs) where
    -- What a turn of the walk holds.
    abbrev WalkHolds : Walk → Type 0
    WalkHolds (on p s') = Holds Old OldInode s (some p) s'
    WalkHolds (stop who s') = Holds Old OldInode s who s'

  -- The answer of path_walk, where it is defined.
  abbrev pub WalkedTo : Vfs → Option (Option ℕ × Vfs) → Type 0
  WalkedTo s r = (who : Option ℕ) × (s' : Vfs) × (r ≡ some (who, s')) × Holds Old OldInode s who s'
