-- ===== src/Ds.antt =====
-- The intrusive lists of kernel/include/ds/lists.h: every node is one of the store, by its address, and
-- a list is a ring of nodes through its head.
pub mod Rings
pub mod Order
use lun_os.Prelude.{ℕ, ◌≡◌, Bool, ◌==◌, if◌then◌else◌}

-- struct list_node, for all nodes at once
pub record Nodes : Type 0 where
  pub next : ℕ → ℕ
  pub prev : ℕ → ℕ

unfoldable pub set_next : ℕ → ℕ → Nodes → Nodes
set_next node to s = record s { next = λ a. if a == node then to else s.next a }

unfoldable pub set_prev : ℕ → ℕ → Nodes → Nodes
set_prev node to s = record s { prev = λ a. if a == node then to else s.prev a }

unfoldable pub list_init : ℕ → Nodes → Nodes
unfolding set_next set_prev
list_init list s = set_prev list list (set_next list list s)

unfoldable pub list_add : ℕ → ℕ → ℕ → Nodes → Nodes
unfolding set_next set_prev
list_add new prev next s =
    set_next prev new (set_prev new prev (set_next new next (set_prev next new s)))

unfoldable pub list_add_head : ℕ → ℕ → Nodes → Nodes
unfolding list_add
list_add_head new head s = list_add new head (s.next head) s

unfoldable pub list_add_tail : ℕ → ℕ → Nodes → Nodes
unfolding list_add
list_add_tail new head s = list_add new (s.prev head) head s

unfoldable pub list_del : ℕ → Nodes → Nodes
unfolding set_next set_prev
list_del entry s =
    let s1 = set_next (s.prev entry) (s.next entry) s in
    let s2 = set_prev (s1.next entry) (s1.prev entry) s1 in
    set_prev entry entry (set_next entry entry s2)

unfoldable pub list_replace : ℕ → ℕ → Nodes → Nodes
unfolding set_next set_prev
list_replace old new s =
    let s1 = set_next new (s.next old) s in
    let s2 = set_prev (s1.next new) new s1 in
    let s3 = set_prev new (s2.prev old) s2 in set_next (s3.prev new) new s3

unfoldable pub list_empty : ℕ → Nodes → Bool
list_empty head s = s.next head == head
