-- ===== src/Ds/Order.antt =====
-- The nodes of a list in order, and what the operations do to that order.
use lun_os.Prelude.{ℕ, ◌≡◌, ◌≢◌, sym, ◌∙◌, arith, List, [], ◌∷◌, ◌++◌, All}
use lun_os.Ds.{Nodes, set_next, set_prev, list_add, list_add_tail, list_del}
use lun_os.Ds.Rings.{AreRings}

-- From `a`, the next pointers lead through the nodes of the list to `b`.
unfoldable pub Chain : Nodes → ℕ → List ℕ → ℕ → Type 0
Chain s a [] b = s.next a ≡ b
Chain s a (x ∷ xs) b = (s.next a ≡ x) × Chain s x xs b

-- The list at `head` has these nodes, the first one first.
abbrev pub IsList : Nodes → ℕ → List ℕ → Type 0
IsList s head xs = Chain s head xs head

module _ (s : Nodes) (rings : AreRings s) (new head : ℕ) (alone : s.next new ≡ new)
    (ne : new ≢ head) where
  last_next : (a : ℕ) → a ≢ new → s.next a ≡ head → (list_add_tail new head s).next a ≡ new
  unfolding list_add_tail list_add set_next set_prev
  last_next a h e = ground (arith, rings.back a, h, e)

  new_next : (list_add_tail new head s).next new ≡ head
  unfolding list_add_tail list_add set_next set_prev
  new_next = ground (arith, rings.forth head, alone, ne)

  kept_next : (a : ℕ) → a ≢ new → s.next a ≢ head → (list_add_tail new head s).next a ≡ s.next a
  unfolding list_add_tail list_add set_next set_prev
  kept_next a h g = ground (arith, rings.forth head, h, g)

  add-Chain :
      (a : ℕ) (xs : List ℕ)
      → a ≢ new
      → All (λ x. (x ≢ new) × (x ≢ head)) xs
      → Chain s a xs head
      → Chain (list_add_tail new head s) a (xs ++ (new ∷ [])) head
  unfolding Chain
  add-Chain a [] h others e = (last_next a h e, new_next)
  add-Chain a (x ∷ xs) h ((x_new, x_head), others) (e, c) =
      (kept_next a h (λ g. x_head (sym e ∙ g)) ∙ e, add-Chain x xs x_new others c)

-- list_add_tail of a node that is in no other list puts it behind the nodes that the list has, whose
-- order stays as it was.
pub list_add_tail-IsList :
    (s : Nodes) (new head : ℕ) (xs : List ℕ)
    → AreRings s
    → s.next new ≡ new
    → new ≢ head
    → All (λ x. (x ≢ new) × (x ≢ head)) xs
    → IsList s head xs
    → IsList (list_add_tail new head s) head (xs ++ (new ∷ []))
list_add_tail-IsList s new head xs rings alone ne others c =
    add-Chain s rings new head alone ne head xs (λ e. ne (sym e)) others c

module _ (s : Nodes) (rings : AreRings s) (entry : ℕ) where
  pub del_before : (a : ℕ) → a ≢ entry → s.next a ≡ entry → (list_del entry s).next a ≡ s.next entry
  unfolding list_del set_next set_prev
  del_before a h e = ground (arith, rings.back a, rings.back entry, rings.forth entry, h, e)

  pub del_elsewhere : (a : ℕ) → a ≢ entry → s.next a ≢ entry → (list_del entry s).next a ≡ s.next a
  unfolding list_del set_next set_prev
  del_elsewhere a h e = ground (arith, rings.back a, rings.back entry, rings.forth entry, h, e)

  after_entry :
      (b : ℕ) (xs : List ℕ) (end : ℕ)
      → b ≢ entry
      → end ≢ entry
      → All (λ x. x ≢ entry) xs
      → Chain s b xs end
      → Chain (list_del entry s) b xs end
  unfolding Chain
  after_entry b [] end h last others e = del_elsewhere b h (λ g. last (sym e ∙ g)) ∙ e
  after_entry b (x ∷ xs) end h last (hx, others) (e, c) =
      (del_elsewhere b h (λ g. hx (sym e ∙ g)) ∙ e, after_entry x xs end hx last others c)

  del-Chain :
      (a : ℕ) (xs ys : List ℕ) (end : ℕ)
      → a ≢ entry
      → end ≢ entry
      → All (λ x. x ≢ entry) xs
      → All (λ x. x ≢ entry) ys
      → Chain s a (xs ++ (entry ∷ ys)) end
      → Chain (list_del entry s) a (xs ++ ys) end
  unfolding Chain
  del-Chain a [] [] end h last before after (e, c) = del_before a h e ∙ c
  del-Chain a [] (y ∷ ys) end h last before (hy, after) (e, (d, c)) =
      (del_before a h e ∙ d, after_entry y ys end hy last after c)
  del-Chain a (x ∷ xs) ys end h last (hx, before) after (e, c) =
      (del_elsewhere a h (λ g. hx (sym e ∙ g)) ∙ e, del-Chain x xs ys end hx last before after c)

-- list_del of a node that occurs once in a list takes it out, and the others stay in their order.
pub list_del-IsList :
    (s : Nodes) (entry head : ℕ) (xs ys : List ℕ)
    → AreRings s
    → head ≢ entry
    → All (λ x. x ≢ entry) xs
    → All (λ x. x ≢ entry) ys
    → IsList s head (xs ++ (entry ∷ ys))
    → IsList (list_del entry s) head (xs ++ ys)
list_del-IsList s entry head xs ys rings h before after c =
    del-Chain s rings entry head xs ys head h h before after c
