-- ===== src/Vfs/Objects.antt =====
-- The dentries, inodes and file systems of kernel/kernel/filesystems/vfs.c, and the calls that hand a
-- file to its file system. The nodes of a dentry and of an inode are named by where they stand in it.
pub mod Alloc
use lun_os.Prelude.{
  ℕ, zero, suc, ◌+◌, ◌-◌, ◌*◌, ◌^◌, Bool, true, false, Option, none, some, List, [], ◌∷◌, ◌==◌,
  if◌then◌else◌, not, bit_and,
}
use lun_os.Ds.{Nodes, list_init, list_add_tail, list_del}
use lun_os.Dcache.{Dentry, dcache_add, dcache_remove, same_name}
use lun_os.Vfs.{Vfs, Code, File, raise, lower, inode_file_type_mask}

abbrev pub dentry_name_max_length : ℕ
dentry_name_max_length = 255

-- The state of Vfs, the list nodes, and the names and flags of dentries.
pub record Objects : Type 0 where
  pub vfs : Vfs
  pub nodes : Nodes
  pub name : ℕ → List ℕ
  pub flags : ℕ → ℕ

-- The offsets of `children` and `siblings` in struct dentry.
abbrev pub dentry_children : ℕ → ℕ
dentry_children d = d + 24

abbrev pub dentry_siblings : ℕ → ℕ
dentry_siblings d = d + 40

abbrev pub write_at {ℓ} : {A : Type ℓ} → ℕ → A → (ℕ → A) → ℕ → A
write_at d v f = λ a. if a == d then v else f a

-- What kstrndup copies of a name.
unfoldable pub first_bytes : ℕ → List ℕ → List ℕ
first_bytes zero bytes = []
first_bytes (suc n) [] = []
first_bytes (suc n) (b ∷ bytes) = b ∷ first_bytes n bytes

-- The dentry as the cache has it: the number of its parent is that of the parent's inode.
abbrev pub cached : ℕ → Option ℕ → List ℕ → Vfs → Dentry
cached d parent name s = record {
  address = d;
  name = name;
  parent = elim parent [ none ↦ none | some p ↦ some (s.inode_number (s.inode p)) ];
}

abbrev pub link_siblings : ℕ → Option ℕ → Nodes → Nodes
link_siblings d none n = n
link_siblings d (some p) n = list_add_tail (dentry_siblings d) (dentry_children p) n

-- alloc_dentry at what kmalloc answers, with whether there is memory for the name. The inode is not
-- written.
unfoldable pub alloc_dentry : Option ℕ → Bool → Option ℕ → List ℕ → Objects → Option ℕ × Objects
alloc_dentry none memory parent name o = (none, o)
alloc_dentry (some d) memory parent name o =
    let short = first_bytes dentry_name_max_length name in
    let vfs = record (o.vfs) {
      parent = write_at d parent o.vfs.parent;
      refcount = write_at d 1 o.vfs.refcount;
      cache = dcache_add o.vfs.cache (cached d parent short o.vfs);
    } in
    let made : Objects = record {
      vfs = vfs;
      nodes =
          link_siblings d parent
            (list_init (dentry_siblings d) (list_init (dentry_children d) o.nodes));
      name = write_at d short o.name;
      flags = write_at d 0 o.flags;
    } in
    if memory then (some d, made) else (none, o)

-- 0 stands for NULL.
unfoldable pub instantiate_dentry : ℕ → ℕ → Objects → Objects
instantiate_dentry entry i_node o =
    let vfs = record (o.vfs) {
      inode = write_at entry i_node o.vfs.inode;
      inode_refcount = raise i_node o.vfs.inode_refcount;
    } in
    if i_node == 0 then o else if entry == 0 then o else record o { vfs = vfs }

-- free_dentry, but for the two calls of kfree. A reference count other than 0 is only reported.
unfoldable pub free_dentry : ℕ → Objects → Objects
free_dentry d o =
    let i = o.vfs.inode d in
    let vfs = record (o.vfs) {
      inode_refcount = if i == 0 then o.vfs.inode_refcount else lower i o.vfs.inode_refcount;
      cache = dcache_remove o.vfs.cache (cached d (o.vfs.parent d) (o.name d) o.vfs);
    } in
    record o { vfs = vfs }

-- The offsets of `sb_inode_list` in struct inode and of `sb_inode` in struct super_block.
abbrev pub sb_inode_list : ℕ → ℕ
sb_inode_list ind = ind + 64

abbrev pub sb_inode : ℕ → ℕ
sb_inode sb = sb + 24

-- alloc_inode of a superblock other than NULL, at what kmalloc answers; the superblocks of inodes are
-- given and returned.
pub alloc_inode : ℕ → Option ℕ → (ℕ → ℕ) → Objects → Option ℕ × ((ℕ → ℕ) × Objects)
alloc_inode sb none super o = (none, (super, o))
alloc_inode sb (some ind) super o =
    let vfs = record (o.vfs) { inode_refcount = write_at ind 1 o.vfs.inode_refcount } in
    let linked = record o {
      vfs = vfs;
      nodes =
          list_add_tail (sb_inode_list ind) (sb_inode sb) (list_init (sb_inode_list ind) o.nodes);
    } in
    if sb == 0 then (none, (super, o)) else (some ind, (write_at ind sb super, linked))

-- free_inode, but for its calls of kfree.
pub free_inode : ℕ → Objects → Objects
free_inode ind o = if ind == 0 then o else record o { nodes = list_del (sb_inode_list ind) o.nodes }

-- struct filesystem: its name, which may be NULL, and its address; the list is registered_fs.
pub record Filesystem : Type 0 where
  pub address : ℕ
  pub name : Option (List ℕ)

pub named : Option (List ℕ) → List ℕ → Bool
named none name = false
named (some own) name = same_name own name

pub register_filesystem : Option Filesystem → List Filesystem → Code × List Filesystem
register_filesystem none registered = (Code.vfs_einval, registered)
register_filesystem (some fs) registered = elim fs.name [
  | none ↦ (Code.vfs_einval, registered)
  | some name ↦ (Code.vfs_ok, fs ∷ registered)
]

-- The loop of find_filesystem; every registered file system has a name.
pub find_named_filesystem : List ℕ → List Filesystem → Option Filesystem
find_named_filesystem name [] = none
find_named_filesystem name (fs ∷ rest) =
    let later = find_named_filesystem name rest in if named fs.name name then some fs else later

pub find_filesystem : Option (List ℕ) → List Filesystem → Option Filesystem
find_filesystem none registered = none
find_filesystem (some name) registered = find_named_filesystem name registered

-- VFS_EINVAL is -3, and the three calls return -VFS_EINVAL where they are given NULL.
abbrev pub minus_vfs_einval : ℕ
minus_vfs_einval = 3

-- vfs_read and vfs_write of a file whose file system has the operation or not: the operation is given the
-- count and the offset of the file.
pub vfs_read : Option File → Bool → Option (ℕ → ℕ → ℕ) → ℕ → ℕ
vfs_read none buf read count = minus_vfs_einval
vfs_read (some f) buf none count = minus_vfs_einval
vfs_read (some f) buf (some read) count = if buf then read count f.offset else minus_vfs_einval

pub vfs_write : Option File → Bool → Option (ℕ → ℕ → ℕ) → ℕ → ℕ
vfs_write none buf write count = minus_vfs_einval
vfs_write (some f) buf none count = minus_vfs_einval
vfs_write (some f) buf (some write) count = if buf then write count f.offset else minus_vfs_einval

pub vfs_lseek : Option File → Option (ℕ → ℕ → ℕ) → ℕ → ℕ → ℕ
vfs_lseek none lseek offset whence = minus_vfs_einval
vfs_lseek (some f) none offset whence = minus_vfs_einval
vfs_lseek (some f) (some lseek) offset whence = lseek offset whence
