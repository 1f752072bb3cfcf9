-- ===== src/Vfs/Objects/Alloc.antt =====
-- Dentries that are made, given an inode and freed.
use lun_os.Prelude.{
  ℕ, ◌^◌, ◌<◌, ◌≡◌, ◌≢◌, false, refl, sym, subst, ◌∙◌, arith, true, some, List, [], ◌∷◌, ◌++◌, All,
  ◌==◌,
}
use lun_os.Ds.{Nodes, list_init, list_add, list_add_tail}
use lun_os.Ds.Rings.{AreRings}
use lun_os.Ds.Order.{Chain, IsList, list_add_tail-IsList}
use lun_os.Dcache.{dcache_lookup}
use lun_os.Dcache.Lookup.{dcache_lookup-dcache_add, dcache_remove-dcache_add}
use lun_os.Vfs.{raise, lower}
use lun_os.Vfs.Objects.{
  Objects, alloc_dentry, instantiate_dentry, free_dentry, write_at, dentry_children,
  dentry_siblings, cached, first_bytes,
}

-- The dentry `d` was made, is in the cache, has no child and is the last child of `p`, whose children
-- were `xs`.
pub record Linked (d p : ℕ) (short : List ℕ) (xs : List ℕ) (o o' : Objects) : Type 0 where
  pub found :
      dcache_lookup o'.vfs.cache (some (o.vfs.inode_number (o.vfs.inode p))) short
      ≡ some (cached d (some p) short o.vfs)
  pub one_reference : o'.vfs.refcount d ≡ 1
  pub last_child : IsList o'.nodes (dentry_children p) (xs ++ (dentry_siblings d ∷ []))
  pub no_children : IsList o'.nodes (dentry_children d) []

-- Of a list, to initialise a node that is not in it changes nothing.
list_init-Chain :
    (n : Nodes) (node a b : ℕ) (xs : List ℕ)
    → a ≢ node
    → All (λ x. x ≢ node) xs
    → Chain n a xs b
    → Chain (list_init node n) a xs b
unfolding Chain list_init
list_init-Chain n node a b [] h others e = ground (arith, h, e)
list_init-Chain n node a b (x ∷ xs) h (hx, others) (e, c) =
    (ground (arith, h, e), list_init-Chain n node x b xs hx others c)

-- The head of a list and the last node before it do not change places with a node on its own ring.
list_add_tail_apart :
    (n : Nodes) (new head other : ℕ)
    → AreRings n
    → n.next other ≡ other
    → other ≢ head
    → other ≢ new
    → (list_add_tail new head n).next other ≡ other
unfolding list_add_tail list_add
list_add_tail_apart n new head other rings own h k = ground (arith, rings.forth head, own, h, k)

list_init_own : (n : Nodes) (node : ℕ) → (list_init node n).next node ≡ node
unfolding list_init
list_init_own n node = ground arith

list_init_apart :
    (n : Nodes) (node other : ℕ) → other ≢ node → (list_init node n).next other ≡ n.next other
unfolding list_init
list_init_apart n node other h = ground (arith, h)

-- Where the nodes form rings once the two of the dentry are initialised, and neither of these is the
-- head of the children of the parent or one of them: alloc_dentry, where kmalloc gives the memory, puts
-- the dentry into the cache under the number of the parent's inode and the first 255 bytes of its name,
-- makes it the last child of the parent, with the others in their order, and gives it one reference and
-- no child.
pub alloc_dentry-Linked :
    (o : Objects) (d p : ℕ) (name xs : List ℕ)
    → AreRings (list_init (dentry_siblings d) (list_init (dentry_children d) o.nodes))
    → dentry_siblings d ≢ dentry_children d
    → dentry_siblings d ≢ dentry_children p
    → dentry_children d ≢ dentry_children p
    → All (λ x. x ≢ dentry_children p) xs
    → All (λ x. x ≢ dentry_siblings d) xs
    → All (λ x. x ≢ dentry_children d) xs
    → IsList o.nodes (dentry_children p) xs
    → Linked d p (first_bytes 255 name) xs o (alloc_dentry (some d) true (some p) name o).1
unfolding alloc_dentry Chain
alloc_dentry-Linked o d p name xs rings two apart apart_children not_head not_new not_own list =
    let first = list_init (dentry_children d) o.nodes in
    let fresh = list_init (dentry_siblings d) first in
    let kept =
      list_init-Chain first (dentry_siblings d) (dentry_children p) (dentry_children p) xs
        (λ e. apart (sym e)) not_new
        (list_init-Chain o.nodes (dentry_children d) (dentry_children p) (dentry_children p) xs
          (λ e. apart_children (sym e)) not_own list) in
    let no_child : fresh.next (dentry_children d) ≡ dentry_children d =
      list_init_apart first (dentry_siblings d) (dentry_children d) (λ e. two (sym e))
      ∙ list_init_own o.nodes (dentry_children d) in
    record {
      found =
          dcache_lookup-dcache_add o.vfs.cache (cached d (some p) (first_bytes 255 name) o.vfs)
            (o.vfs.inode_number (o.vfs.inode p)) refl;
      one_reference = ground arith;
      last_child =
          list_add_tail-IsList fresh (dentry_siblings d) (dentry_children p) xs rings
            (list_init_own first (dentry_siblings d)) apart (both xs not_new not_head) kept;
      no_children =
          list_add_tail_apart fresh (dentry_siblings d) (dentry_children p) (dentry_children d)
            rings no_child apart_children (λ e. two (sym e));
    }
  where
    both :
        (ys : List ℕ)
        → All (λ x. x ≢ dentry_siblings d) ys
        → All (λ x. x ≢ dentry_children p) ys
        → All (λ x. (x ≢ dentry_siblings d) × (x ≢ dentry_children p)) ys
    both [] u v = tt
    both (y ∷ ys) (u, us) (v, vs) = ((u, v), both ys us vs)

instantiated :
    (d i : ℕ) (o : Objects)
    → d ≢ 0
    → i ≢ 0
    → instantiate_dentry d i o ≡ record o {
      vfs = record (o.vfs) {
        inode = write_at d i o.vfs.inode;
        inode_refcount = raise i o.vfs.inode_refcount;
      };
    }
unfolding instantiate_dentry
instantiated d i o hd hi =
    let qd : (d == 0) ≡ false = ground (arith, hd) in
    let qi : (i == 0) ≡ false = ground (arith, hi) in rw (qi, qd) refl

-- A dentry that was made, from `o` to `made`, is gone again but for the lists.
pub record Gone (o made o' : Objects) : Type 0 where
  pub cache_back : (bucket : ℕ) → o'.vfs.cache bucket ≡ o.vfs.cache bucket
  pub references_back : (a : ℕ) → o'.vfs.inode_refcount a ≡ o.vfs.inode_refcount a
  pub lists_left : o'.nodes ≡ made.nodes

-- Where a dentry is made below a parent with another address, given an inode other than NULL and freed,
-- the counts being 32-bit words: the cache and the references to inodes are as before, but the lists are
-- those after it was made, in which the parent still has it as a child.
pub free_dentry-alloc_dentry :
    (o : Objects) (d p i : ℕ) (name : List ℕ)
    → d ≢ 0
    → i ≢ 0
    → d ≢ p
    → ((a : ℕ) → o.vfs.inode_refcount a < 2 ^ 32)
    → Gone o
        (alloc_dentry (some d) true (some p) name o).1
        (free_dentry d (instantiate_dentry d i (alloc_dentry (some d) true (some p) name o).1))
unfolding alloc_dentry free_dentry raise lower
free_dentry-alloc_dentry o d p i name hd hi hp small =
    let made = (alloc_dentry (some d) true (some p) name o).1 in
    let own : (d == d) ≡ true = ground arith in
    let other : (p == d) ≡ false = ground (arith, hp) in
    let real : (i == 0) ≡ false = ground (arith, hi) in
    subst (λ (o' : Objects). Gone o made (free_dentry d o')) (sym (instantiated d i made hd hi))
      record {
        cache_back = λ bucket.
            rw (own, other)
              (dcache_remove-dcache_add o.vfs.cache (cached d (some p) (first_bytes 255 name) o.vfs)
                bucket);
        references_back = λ a. rw (own, real) (ground (arith, small a));
        lists_left = refl;
      }
