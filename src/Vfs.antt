-- ===== src/Vfs.antt =====
-- The virtual file system: kernel/kernel/filesystems/vfs.c and its header, on the dentry cache. Dentries,
-- inodes and files are named by their addresses, and paths are lists of bytes without a 0. The operations
-- of a file system are arguments, as is what kmalloc answers.
pub mod References
pub mod Files
pub mod Objects
pub mod Tokens
use lun_os.Prelude.{
  ℕ, zero, suc, ◌+◌, ◌-◌, ◌%◌, ◌^◌, bit_and, Bool, true, false, ◌||◌, not, Option, none, some, List,
  [], ◌∷◌, length, ◌==◌, if◌then◌else◌,
}
use lun_os.Dcache.{Dentry, Table, same_name, dcache_lookup, dcache_add}

-- 00170000 and 0040000, in octal
abbrev pub inode_file_type_mask : ℕ
inode_file_type_mask = 61440

abbrev pub inode_file_directory : ℕ
inode_file_directory = 16384

pub is_directory : ℕ → Bool
is_directory type_mask = bit_and type_mask inode_file_type_mask == inode_file_directory

-- What the calls return.
pub data Code : Type 0 where
  vfs_ok : Code
  vfs_enoent : Code
  vfs_enomem : Code
  vfs_einval : Code
  vfs_eisdir : Code
  other : ℕ → Code

-- The reference counts of dentries and of inodes, which are ints; the parents and the inodes of
-- dentries; the numbers and modes of inodes; the cache, and the root.
pub record Vfs : Type 0 where
  pub refcount : ℕ → ℕ
  pub inode_refcount : ℕ → ℕ
  pub parent : ℕ → Option ℕ
  pub inode : ℕ → ℕ
  pub inode_number : ℕ → ℕ
  pub mode : ℕ → ℕ
  pub cache : Table
  pub root_dentry : ℕ

unfoldable pub raise : ℕ → (ℕ → ℕ) → ℕ → ℕ
raise d count = λ a. if a == d then (count a + 1) % 2 ^ 32 else count a

unfoldable pub lower : ℕ → (ℕ → ℕ) → ℕ → ℕ
lower d count = λ a. if a == d then (count a + 2 ^ 32 - 1) % 2 ^ 32 else count a

unfoldable pub get : ℕ → Vfs → Vfs
get d s = record s { refcount = raise d s.refcount }

unfoldable pub put : ℕ → Vfs → Vfs
put d s = record s { refcount = lower d s.refcount }

-- kstrtok_r with "/" of what is left of the string: the token, and what is left behind it.
unfoldable pub kstrtok : List ℕ → List ℕ × List ℕ
kstrtok [] = ([], [])
kstrtok (c ∷ cs) = let (token, rest) = kstrtok cs in if c == 47 then ([], cs) else (c ∷ token, rest)

unfoldable pub is_empty : List ℕ → Bool
is_empty [] = true
is_empty (c ∷ cs) = false

-- The tokens in turn, each with whether nothing is left behind it. A call takes a byte or is the last,
-- so that one call more than there are bytes is enough fuel.
unfoldable pub tokens : ℕ → List ℕ → List (List ℕ × Bool)
tokens zero path = []
tokens (suc fuel) path =
    let (token, rest) = kstrtok path in
    let more = tokens fuel rest in (token, is_empty rest) ∷ (if is_empty rest then [] else more)

-- A turn of the loop of path_walk goes on from a dentry, or returns one or NULL.
pub data Walk : Type 0 where
  on : ℕ → Vfs → Walk
  stop : Option ℕ → Vfs → Walk

-- `parent->parent ? parent->parent : parent`
pub prev_dir : ℕ → Vfs → ℕ
prev_dir parent s = elim (s.parent parent) [ none ↦ parent | some p ↦ p ]

-- What a turn does with the dentry that it found.
pub arrive : Bool → ℕ → ℕ → Vfs → Walk
arrive last parent current s =
    if last
    then stop (some current) (get current (put parent s))
    else if is_directory (s.mode (s.inode current))
    then on current (get current (put parent s))
    else stop none (put parent s)

-- The lookup of a file system, with the address of an inode and a name: it may make dentries, take
-- references to inodes and fill the cache.
abbrev pub Lookup : Type 0
Lookup = ℕ → List ℕ → Vfs → Option Dentry × Vfs

-- The search for a token, in the cache and then by the file system.
pub search : Lookup → List ℕ → Bool → ℕ → Vfs → Walk
search lookup token last parent s =
    let (found, s') = lookup (s.inode parent) token s in
    let missed : Walk = elim found [
      | none ↦ stop none (put parent s')
      | some d ↦ arrive last parent d.address (record s' { cache = dcache_add s'.cache d })
    ] in
    elim (dcache_lookup s.cache (some (s.inode_number (s.inode parent))) token) [
      | some d ↦ arrive last parent d.address s
      | none ↦ missed
    ]

pub component : Lookup → List ℕ → Bool → ℕ → Vfs → Walk
component lookup token last parent s =
    let prev = prev_dir parent s in
    if is_empty token || same_name token (46 ∷ [])
    then on parent s
    else if same_name token (46 ∷ 46 ∷ [])
    then on prev (put parent (get prev s))
    else search lookup token last parent s

-- `while(token)`
pub walk : Lookup → List (List ℕ × Bool) → ℕ → Vfs → Option ℕ × Vfs
walk lookup [] parent s = (some parent, s)
walk lookup ((token, last) ∷ more) parent s = elim (component lookup token last parent s) [
  | on parent' s' ↦ walk lookup more parent' s'
  | stop result s' ↦ (result, s')
]

pub skip_slash : List ℕ → List ℕ
skip_slash [] = []
skip_slash (c ∷ cs) = if c == 47 then cs else c ∷ cs

-- path_walk with the dentry of the working directory, if there is one, and whether kmalloc gives memory
-- for the copy of the path. Without it the code passes NULL and a pointer that was never set to
-- kstrtok_r; that is `none`.
pub path_walk : Lookup → Bool → Option (List ℕ) → Option ℕ → Vfs → Option (Option ℕ × Vfs)
path_walk lookup copied none wd s = some (none, s)
path_walk lookup copied (some abs_path) wd s =
    let parent : ℕ = elim wd [ none ↦ s.root_dentry | some d ↦ d ] in
    let prev = prev_dir parent s in
    let path = skip_slash abs_path in
    let walked = walk lookup (tokens (suc (length path)) path) parent (get parent s) in
    if same_name abs_path (47 ∷ [])
    then some (some s.root_dentry, get s.root_dentry s)
    else if same_name abs_path (46 ∷ 46 ∷ [])
    then some (some prev, get prev s)
    else if same_name abs_path (46 ∷ [])
    then some (some parent, get parent s)
    else if copied
    then some walked
    else none

-- struct file but for what the file system sets.
pub record File : Type 0 where
  pub inode : ℕ
  pub dentry : ℕ
  pub flags : ℕ
  pub offset : ℕ

-- What the file system's open says, if it has one: on any other code than VFS_OK the file is given up.
pub answered : Option Code → File → Vfs → Vfs → Code × (Option File × Vfs)
answered none f kept given_up = (vfs_ok, (some f, kept))
answered (some vfs_ok) f kept given_up = (vfs_ok, (some f, kept))
answered (some vfs_enoent) f kept given_up = (vfs_enoent, (none, given_up))
answered (some vfs_enomem) f kept given_up = (vfs_enomem, (none, given_up))
answered (some vfs_einval) f kept given_up = (vfs_einval, (none, given_up))
answered (some vfs_eisdir) f kept given_up = (vfs_eisdir, (none, given_up))
answered (some (other c)) f kept given_up = (other c, (none, given_up))

-- The end of vfs_open, with the answer of the file system's open, if it has one.
pub open_file : Option Code → Bool → ℕ → ℕ → Vfs → Code × (Option File × Vfs)
open_file answer memory flags d s =
    let f : File = record { inode = s.inode d; dentry = d; flags = flags; offset = 0 } in
    let s1 = record (get d s) { inode_refcount = raise (s.inode d) s.inode_refcount } in
    let s2 = record (put d s1) { inode_refcount = lower (s.inode d) s1.inode_refcount } in
    if not (is_directory (s.mode (s.inode d)))
    then (vfs_eisdir, (none, s))
    else if not memory
    then (vfs_enomem, (none, s))
    else answered answer f s1 s2

-- What vfs_open does with the dentry that path_walk found.
pub opened : Option Code → Bool → ℕ → Option ℕ × Vfs → Code × (Option File × Vfs)
opened answer memory flags (none, s) = (vfs_enoent, (none, s))
opened answer memory flags (some d, s) = open_file answer memory flags d s

-- vfs_open, with whether kmalloc gives memory for the copy of the path and for the file; `out` is whether
-- there is a place for the file.
pub vfs_open :
    Lookup
    → Option Code
    → Bool
    → Bool
    → Option (List ℕ)
    → Option ℕ
    → ℕ
    → Bool
    → Vfs
    → Option (Code × (Option File × Vfs))
vfs_open lookup answer copied memory none wd flags out s = some (vfs_einval, (none, s))
vfs_open lookup answer copied memory (some abs_path) wd flags out s =
    let walked : Option (Code × (Option File × Vfs)) =
      elim (path_walk lookup copied (some abs_path) wd s) [
        | none ↦ none
        | some r ↦ some (opened answer memory flags r)
      ] in
    if out then walked else some (vfs_einval, (none, s))

-- vfs_close, with the answer of the file system's close, if it has one.
pub vfs_close : Option Code → Option File → Vfs → Code × Vfs
vfs_close answer none s = (vfs_einval, s)
vfs_close answer (some f) s =
    let ret : Code = elim answer [ none ↦ vfs_ok | some c ↦ c ] in
    (ret, record (put f.dentry s) { inode_refcount = lower f.inode s.inode_refcount })
