-- ===== src/Tests/Vfs.antt =====
-- Walking "/a/b" from a root at 1, over a file system in which every name is the directory at 200.
use lun_os.Prelude.{ℕ, ◌+◌, some, none, true, List, [], ◌∷◌, ◌<◌, ◌==◌, if◌then◌else◌, arith}
use lun_os.Dcache.{dcache_init}
use lun_os.Vfs.{Vfs, Lookup, raise}
use lun_os.Ds.{list_init}
use lun_os.Ds.Rings.{AreRings}
use lun_os.Vfs.Objects.{Objects, alloc_dentry, first_bytes, dentry_children, dentry_siblings}
use lun_os.Vfs.Objects.Alloc.{Linked, alloc_dentry-Linked}
use lun_os.Tests.Sched.{queue, queue-IsList}

abbrev tree : Vfs
tree = record {
  refcount = λ _. 1;
  inode_refcount = λ _. 1;
  parent = λ _. none;
  inode = λ d. d + 10;
  inode_number = λ i. i;
  mode = λ _. 16384;
  cache = dcache_init;
  root_dentry = 1;
}

-- It makes the dentry 200 and takes a reference to the inode 210.
abbrev lookup : Lookup
lookup dir name s = (
  some (record { address = 200; name = name; parent = some dir }),
  record s {
    refcount = λ d. if d == 200 then 1 else s.refcount d;
    parent = λ d. if d == 200 then some 1 else s.parent d;
    inode_refcount = raise 210 s.inode_refcount;
  },
)

abbrev path : List ℕ
path = 47 ∷ 97 ∷ 47 ∷ 98 ∷ []

abbrev Known : ℕ → Type 0
Known a = a < 100

-- The list at 100 is that of the children of the dentry at 76.
abbrev objects : Objects
objects = record { vfs = tree; nodes = queue; name = λ d. []; flags = λ d. 0 }

-- To initialise nodes that are alone changes nothing, so that the rings stay.
fresh-AreRings :
    AreRings (list_init (dentry_siblings 200) (list_init (dentry_children 200) objects.nodes))
unfolding list_init
fresh-AreRings = record { back = λ a. ground arith; forth = λ a. ground arith }

alloc_dentry-Linked_example :
    Linked 200 76
      (first_bytes 255 (97 ∷ 98 ∷ []))
      (1 ∷ 2 ∷ [])
      objects
      (alloc_dentry (some 200) true (some 76) (97 ∷ 98 ∷ []) objects).1
alloc_dentry-Linked_example =
    alloc_dentry-Linked objects 200 76 (97 ∷ 98 ∷ []) (1 ∷ 2 ∷ []) fresh-AreRings (omega arith)
      (omega arith) (omega arith) (omega arith, (omega arith, tt)) (omega arith, (omega arith, tt))
      (omega arith, (omega arith, tt)) queue-IsList
