-- ===== src/Ds/Rings.antt =====
-- Nodes linked to rings.
use lun_os.Prelude.{ℕ, ◌≡◌, ◌≢◌, arith}
use lun_os.Ds.{Nodes, set_next, set_prev, list_add, list_del}

-- The node after a node has it before itself, and the other way round.
pub record AreRings (s : Nodes) : Type 0 where
  pub back : (a : ℕ) → s.prev (s.next a) ≡ a
  pub forth : (a : ℕ) → s.next (s.prev a) ≡ a

-- list_add of a node that is in no list, between two that follow one another, keeps the rings.
pub list_add-AreRings :
    (new prev next : ℕ) (s : Nodes)
    → AreRings s
    → s.next new ≡ new
    → s.next prev ≡ next
    → new ≢ prev
    → AreRings (list_add new prev next s)
unfolding list_add set_next set_prev
list_add-AreRings new prev next s r alone link ne = record {
  back = λ a. ground (arith, r.back a, r.back new, r.back prev, alone, link, ne);
  forth = λ a.
      ground
        (arith, r.forth a, r.back new, r.back prev, r.forth new, r.forth next, alone, link, ne);
}

-- list_del keeps the rings.
pub list_del-AreRings : (entry : ℕ) (s : Nodes) → AreRings s → AreRings (list_del entry s)
unfolding list_del set_next set_prev
list_del-AreRings entry s r = record {
  back = λ a.
      ground (
        arith,
        r.back a,
        r.back entry,
        r.forth entry,
        r.back (s.prev entry),
        r.forth (s.next entry),
      );
  forth = λ a. ground (
    arith,
    r.forth a,
    r.back entry,
    r.forth entry,
    r.back (s.prev entry),
    r.forth (s.next entry),
  );
}
