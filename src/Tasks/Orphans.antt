-- ===== src/Tasks/Orphans.antt =====
-- The children that a task leaves behind.
use lun_os.Prelude.{
  ℕ, suc, ◌≡◌, ◌≢◌, refl, sym, ap, ◌∙◌, arith, true, false, some, List, [], ◌∷◌, length, All, ◌==◌,
}
use lun_os.Ds.{Nodes, list_del, set_next, set_prev}
use lun_os.Ds.Rings.{AreRings, list_del-AreRings}
use lun_os.Ds.Order.{Chain, IsList, del_before, del_elsewhere, list_del-IsList}
use lun_os.Tasks.{children, orphan_loop, task_orphan_children}

abbrev pub AreDistinct : List ℕ → Type 0
AreDistinct [] = Unit
AreDistinct (x ∷ xs) = All (λ y. y ≢ x) xs × AreDistinct xs

-- The list at `head` has been emptied, each of its nodes is alone, and the nodes outside it keep their
-- links forward.
pub record IsEmptied (n : Nodes) (head : ℕ) (xs : List ℕ) (n' : Nodes) : Type 0 where
  pub rings : AreRings n'
  pub empty : IsList n' head []
  pub alone : All (λ x. n'.next x ≡ x) xs
  pub kept : (y : ℕ) → y ≢ head → All (λ x. x ≢ y) xs → n'.next y ≡ n.next y

del_alone : (x : ℕ) (n : Nodes) → (list_del x n).next x ≡ x
unfolding list_del set_next set_prev
del_alone x n = ground arith

module _ (head : ℕ) where
  orphan_loop-IsEmptied :
      (xs : List ℕ) (n : Nodes)
      → AreRings n
      → All (λ x. x ≢ head) xs
      → AreDistinct xs
      → IsList n head xs
      → (n' : Nodes) × (orphan_loop (suc (length xs)) head (n.next head) n ≡ some n')
        × IsEmptied n head xs n'
  unfolding orphan_loop Chain
  orphan_loop-IsEmptied [] n rings off distinct e =
      let q : (n.next head == head) ≡ true = ground (arith, e) in
      (
        n,
        rw (q, orphan_loop) refl,
        record { rings = rings; empty = e; alone = tt; kept = λ y ne absent. refl },
      )
  orphan_loop-IsEmptied (x ∷ xs) n rings (hx, off) (others, distinct) (e, c) =
      let q : (n.next head == head) ≡ false = ground (arith, e, hx) in
      let head_x : head ≢ x = λ z. hx (sym z) in
      let less = list_del-IsList n x head [] xs rings head_x tt others (e, c) in
      let moved : n.next (n.next head) ≡ (list_del x n).next head =
        ap n.next e ∙ sym (del_before n rings x head head_x e) in
      let at_x : list_del (n.next head) n ≡ list_del x n = ap (λ (z : ℕ). list_del z n) e in
      let (n', r, v) =
        orphan_loop-IsEmptied xs (list_del x n) (list_del-AreRings x n rings) off distinct less in
      (
        n',
        rw (q, orphan_loop, moved, at_x) r,
        record {
          rings = v.rings;
          empty = v.empty;
          alone = (v.kept x hx others ∙ del_alone x n, v.alone);
          kept = λ y ne (first, absent).
              v.kept y ne absent
              ∙ del_elsewhere n rings x y (λ z. first (sym z))
                  (λ z. ne (sym (rings.back y) ∙ ap n.prev (z ∙ sym e) ∙ rings.back head));
        },
      )

-- task_orphan_children, over lists whose nodes are rings, ends within one turn more than there are
-- children; the dead task has no children then, each child is alone in its list, and the nodes that are
-- not of this list keep their links forward.
pub task_orphan_children-IsEmptied :
    (dead_parent : ℕ) (xs : List ℕ) (n : Nodes)
    → AreRings n
    → All (λ x. x ≢ children dead_parent) xs
    → AreDistinct xs
    → IsList n (children dead_parent) xs
    → (n' : Nodes) × (task_orphan_children (suc (length xs)) dead_parent n ≡ some n')
      × IsEmptied n (children dead_parent) xs n'
unfolding task_orphan_children
task_orphan_children-IsEmptied dead_parent xs n rings off distinct l =
    orphan_loop-IsEmptied (children dead_parent) xs n rings off distinct l
