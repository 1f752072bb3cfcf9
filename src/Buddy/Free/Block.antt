-- ===== src/Buddy/Free/Block.antt =====
-- The block that buddy_free_pages links: it is free afterwards.
use lun_os.Prelude.{
  ℕ, zero, suc, ◌+◌, ◌-◌, ◌*◌, ◌%◌, ◌^◌, ◌≤◌, ◌≡◌, ◌∙◌, ap, refl, inl, inr, arith, bit_xor,
  Option-cases, List, [], ◌∷◌, All, some, false, ltb,
}
use lun_os.Buddy.{Arena, Buddy, FreeLists, block_size, set_list, link_block}
use lun_os.Buddy.Cover.{hit, hits_below, hits_below-link, cover, block_size-pow, pow-twelve}
use lun_os.Buddy.Valid.{IsBlock, AreBlocks, IsValid, set_list-AreBlocks}
use lun_os.Buddy.Whole.{total, free_cover, ranges, IsValidBuddy, Held}
use lun_os.Buddy.Free.{
  unlink_addr, coalesce, free_loop, buddy_free_pages, last_block, freed_in, freed_block,
}
use lun_os.Buddy.Free.Pages.{in_arena-block, in_arena-Outside}
use lun_os.Buddy.Free.Laws.{unlink_addr-Unlinked, merge, lower_of}

-- The block `r` lies on a page and each of its bytes is free.
pub record Linked (r : ℕ × ℕ) (free : ℕ → ℕ) : Type 0 where
  pub small : r.0 ≤ 20
  pub page : r.1 % 4096 ≡ 0
  pub held : (p : ℕ) → hit r.0 r.1 p ≤ free p

block-page : (lo hi order addr : ℕ) → order ≤ 20 → IsBlock lo hi order addr → addr % 4096 ≡ 0
unfolding block_size
block-page lo hi order addr h b =
    let (q, e) = b.aligned in
    let f : addr ≡ q * 2 ^ (order + 12) = e ∙ ap (λ (t : ℕ). q * t) (block_size-pow order h) in
    let g : addr ≡ q * (4096 * 2 ^ order) = f ∙ ap (λ (t : ℕ). q * t) (pow-twelve order) in
    omega (arith, g)

one_linked :
    (lo hi order addr : ℕ) (fl : FreeLists)
    → order ≤ 20
    → IsBlock lo hi order addr
    → Linked (order, addr) (hits_below 21 (link_block fl order addr))
one_linked lo hi order addr fl h b = record {
  small = h;
  page = block-page lo hi order addr h b;
  held = λ p. omega (arith, hits_below-link 21 order fl addr p (omega (arith, h)));
}

last_block-Linked :
    (lo hi n order addr : ℕ) (fl : FreeLists)
    → order + n ≤ 20
    → IsBlock lo hi order addr
    → AreBlocks lo hi fl
    → Linked (last_block n order addr fl) (hits_below 21 (coalesce n order addr fl))
unfolding coalesce last_block
last_block-Linked lo hi zero order addr fl h b ok =
    one_linked lo hi order addr fl (omega (arith, h)) b
last_block-Linked lo hi (suc n) order addr fl h b ok =
    elim (Option-cases (unlink_addr (bit_xor addr (block_size order)) (fl order))) [
      | inl q ↦ rw (q, coalesce, last_block) (one_linked lo hi order addr fl (omega (arith, h)) b)
      | inr (bs, q) ↦
          let u =
            unlink_addr-Unlinked lo hi order (bit_xor addr (block_size order)) (fl order) bs
              (ok order (omega (arith, h))) q in
          let m = merge lo hi order addr (omega (arith, h)) b u.found in
          let e : order + 1 ≡ suc order = omega arith in
          rw (q, coalesce, last_block, e)
            (last_block-Linked lo hi n (suc order) (lower_of (bit_xor addr (block_size order)) addr)
              (set_list fl order bs) (omega (arith, h)) m.whole
              (set_list-AreBlocks lo hi fl order bs ok u.rest))
    ]

-- What free_loop and the search for the block do, where an arena holds the block.
record LinkedIn (n : ℕ) (xs : List Arena) (order addr : ℕ) : Type 0 where
  arenas : List Arena
  block : ℕ × ℕ
  freed : free_loop n xs addr order ≡ some arenas
  found : freed_in n xs addr order ≡ some block
  linked : Linked block (total n arenas)

module _ (order addr : ℕ) (small : order ≤ 20) where
  freed_in-LinkedIn :
      (n : ℕ) (xs : List Arena)
      → All IsValid xs
      → Held n (ranges xs) order addr
      → LinkedIn n xs order addr
  unfolding free_loop freed_in total cover
  freed_in-LinkedIn zero xs ok held = absurd held
  freed_in-LinkedIn (suc n) [] ok held = absurd held
  freed_in-LinkedIn (suc n) (a ∷ xs) ok (inl b) =
      let here = in_arena-block order addr small a ok.0 b in
      let rounds = a.max_arena_order - order in
      let l =
        last_block-Linked a.base (a.base + a.len) rounds order addr a.free_list
          (omega (arith, ok.0.max_le, small)) b ok.0.blocks in
      record {
        arenas = record a { free_list = coalesce rounds order addr a.free_list } ∷ xs;
        block = last_block rounds order addr a.free_list;
        freed = rw here refl;
        found = rw here refl;
        linked = record { small = l.small; page = l.page; held = λ p. omega (arith, l.held p) };
      }
  freed_in-LinkedIn (suc n) (a ∷ xs) ok (inr (out, held)) =
      let elsewhere = in_arena-Outside order addr small a ok.0 out in
      let later = freed_in-LinkedIn n xs ok.1 held in
      record {
        arenas = a ∷ later.arenas;
        block = later.block;
        freed = rw (elsewhere, later.freed) refl;
        found = rw (elsewhere, later.found) refl;
        linked = record {
          small = later.linked.small;
          page = later.linked.page;
          held = λ p. omega (arith, later.linked.held p);
        };
      }

-- In a well-formed allocator, where an arena in use holds the block that is given back: the block that
-- buddy_free_pages links lies on a page and is free afterwards.
pub freed_block-Linked :
    (s : Buddy) (addr order : ℕ)
    → IsValidBuddy s
    → order ≤ 20
    → Held s.counter (ranges s.arenas) order addr
    → (r : ℕ × ℕ) × (freed_block s addr order ≡ some r)
      × Linked r (free_cover (buddy_free_pages s addr order))
unfolding freed_block buddy_free_pages free_cover
freed_block-Linked s addr order v small held =
    let in_range : ltb 20 order ≡ false = ground arith in
    let f = freed_in-LinkedIn order addr small s.counter s.arenas v.arenas_ok held in
    let found = f.found in
    let freed = f.freed in (f.block, rw (in_range, found) refl, rw (in_range, freed) f.linked)
