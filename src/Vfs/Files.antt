-- ===== src/Vfs/Files.antt =====
-- vfs_open and then vfs_close.
use lun_os.Prelude.{ℕ, ◌+◌, ◌%◌, ◌^◌, ◌≡◌, Option, none, some}
use lun_os.Vfs.{Vfs, File, Code, vfs_ok, vfs_close}
use lun_os.Vfs.References.{held}

-- Against the counts before, there is one more reference to `d`, with wrap, and the inodes have as many:
-- for the dentries of `Old` and the inodes of `OldInode`.
pub record Left (Old OldInode : ℕ → Type 0) (s : Vfs) (d : ℕ) (s' : Vfs) : Type 0 where
  pub counts : (a : ℕ) → Old a → s'.refcount a ≡ (s.refcount a + held (some d) a) % 2 ^ 32
  pub inodes : (i : ℕ) → OldInode i → s'.inode_refcount i ≡ s.inode_refcount i

module _ (Old OldInode : ℕ → Type 0) where
  -- A file is opened with vfs_ok alone, and closing it leaves one reference to its dentry.
  abbrev pub ClosesWith : Vfs → Code × (Option File × Vfs) → Type 0
  ClosesWith s (c, (none, s')) = Unit
  ClosesWith s (c, (some f, s')) =
      (c ≡ vfs_ok)
      × ((answer : Option Code) → Left Old OldInode s f.dentry (vfs_close answer (some f) s').1)

  -- The answer of vfs_open, where it is defined.
  abbrev pub OpensWith : Vfs → Option (Code × (Option File × Vfs)) → Type 0
  OpensWith s r = (c : Code × (Option File × Vfs)) × (r ≡ some c) × ClosesWith s c
