-- ===== src/Buddy/Free/Laws.antt =====
-- Coalescing keeps every free byte, and keeps the blocks well-formed.
use native.Mathlib.Nat.{mul-div_left, one-le-pow}
use lun_os.Prelude.{
  ℕ, zero, suc, ◌+◌, ◌*◌, ◌/◌, ◌%◌, ◌^◌, ◌≤◌, ◌≡◌, ap, bit_xor, ◌∙◌, List, [], ◌∷◌, arith, All,
  none, some, Option-cases, inl, inr, ltb, ◌==◌, ==_iff, if◌then◌else◌, Bool-cases, dec_lt,
}
use lun_os.Prelude.Bits.{flip_clear, flip_set}
use lun_os.Buddy.{FreeBlock, FreeLists, block_size, set_list, link_block}
use lun_os.Buddy.Cover.{
  hit, hits, hits_below, hit_halves, hits_below-link, hits_below-set, block_size-suc,
  block_size-pow, block_size_bounds,
}
use lun_os.Buddy.Valid.{IsBlock, IsFreeBlock, AreBlocks, set_list-AreBlocks, link_block-AreBlocks}
use lun_os.Buddy.Free.{unlink_addr, coalesce}

-- The buddy of the block number `q` of its size is the block number `q + 1` or `q - 1`.
module _ (k addr q : ℕ) (small : k ≤ 20) (at_q : addr ≡ q * block_size k) where
  quotient : addr / 2 ^ (k + 12) ≡ q
  quotient =
      let e : addr ≡ q * 2 ^ (k + 12) = at_q ∙ ap (λ (t : ℕ). q * t) (block_size-pow k small) in
      rw e (mul-div_left q (one-le-pow (k + 12) 2 (omega arith)))

  buddy_of_even : q % 2 ≡ 0 → bit_xor addr (block_size k) ≡ addr + block_size k
  buddy_of_even h = rw (block_size-pow k small) (flip_clear (k + 12) addr (omega (arith, quotient)))

  buddy_of_odd : q % 2 ≡ 1 → bit_xor addr (block_size k) + block_size k ≡ addr
  buddy_of_odd h = rw (block_size-pow k small) (flip_set (k + 12) addr (omega (arith, quotient)))

-- The lower_of of two buddies.
abbrev pub lower_of : ℕ → ℕ → ℕ
lower_of buddy addr = if ltb buddy addr then buddy else addr

-- Two buddies make one block of the next order, with the same bytes.
pub record Merged (lo hi k addr buddy : ℕ) : Type 0 where
  pub whole : IsBlock lo hi (suc k) (lower_of buddy addr)
  bytes : (p : ℕ) → hit (suc k) (lower_of buddy addr) p ≡ hit k addr p + hit k buddy p

halved_even : (q : ℕ) → q % 2 ≡ 0 → q ≡ 2 * (q / 2)
halved_even q h = omega arith

halved_odd : (q : ℕ) → q % 2 ≡ 1 → q ≡ 2 * (q / 2) + 1
halved_odd q h = omega arith

module _ (lo hi k addr : ℕ) (small : suc k ≤ 20) where
  merge_up :
      (q : ℕ)
      → addr ≡ q * block_size k
      → q % 2 ≡ 0
      → IsBlock lo hi k addr
      → IsBlock lo hi k (addr + block_size k)
      → Merged lo hi k addr (addr + block_size k)
  merge_up q at_q even b c =
      let e : lower_of (addr + block_size k) addr ≡ addr = ground arith in
      record {
        whole = rw e (record {
          positive = b.positive;
          above = b.above;
          below = omega (arith, c.below, block_size-suc k small);
          aligned = (
            q / 2,
            omega (
              arith,
              ap (λ (t : ℕ). t * block_size k) (halved_even q even),
              ap (λ (t : ℕ). q / 2 * t) (block_size-suc k small),
            ),
          );
        });
        bytes = λ p. rw e (hit_halves k addr p small);
      }

  merge_down :
      (q buddy : ℕ)
      → addr ≡ q * block_size k
      → q % 2 ≡ 1
      → buddy + block_size k ≡ addr
      → IsBlock lo hi k addr
      → IsBlock lo hi k buddy
      → Merged lo hi k addr buddy
  merge_down q buddy at_q odd under b c =
      let e : lower_of buddy addr ≡ buddy = ground (arith, block_size_bounds k (omega arith)) in
      record {
        whole = rw e (record {
          positive = c.positive;
          above = c.above;
          below = omega (arith, b.below, block_size-suc k small);
          aligned = (
            q / 2,
            omega (
              arith,
              ap (λ (t : ℕ). t * block_size k) (halved_odd q odd),
              ap (λ (t : ℕ). q / 2 * t) (block_size-suc k small),
            ),
          );
        });
        bytes = λ p. rw e (omega (arith, rw under at (hit_halves k buddy p small)));
      }

  pub merge :
      IsBlock lo hi k addr
      → IsBlock lo hi k (bit_xor addr (block_size k))
      → Merged lo hi k addr (bit_xor addr (block_size k))
  merge b c = elim (dec_lt (b.aligned.0 % 2) 1) [
    | yes even ↦
        let e = buddy_of_even k addr b.aligned.0 (omega arith) b.aligned.1 (omega arith) in
        rw e (merge_up b.aligned.0 b.aligned.1 (omega arith) b (rw e at c))
    | no odd ↦
        merge_down b.aligned.0 (bit_xor addr (block_size k)) b.aligned.1 (omega arith)
          (buddy_of_odd k addr b.aligned.0 (omega arith) b.aligned.1 (omega arith)) b c
  ]

-- What the search for the buddy finds is a block of the list, and is taken off it.
pub record Unlinked (lo hi k addr : ℕ) (bs cs : List FreeBlock) : Type 0 where
  pub found : IsBlock lo hi k addr
  pub rest : All (IsFreeBlock lo hi k) cs
  pub count : (p : ℕ) → hits k cs p + hit k addr p ≡ hits k bs p

pub unlink_addr-Unlinked :
    (lo hi k addr : ℕ) (bs cs : List FreeBlock)
    → All (IsFreeBlock lo hi k) bs
    → unlink_addr addr bs ≡ some cs
    → Unlinked lo hi k addr bs cs
unfolding hits unlink_addr
unlink_addr-Unlinked lo hi k addr [] cs ok e = absurd (cc)
unlink_addr-Unlinked lo hi k addr (b ∷ bs) cs ok e = elim (Bool-cases (b.phys_addr == addr)) [
  | inl here ↦
      let same : b.phys_addr ≡ addr = (==_iff _ _).0 here in
      let f : some bs ≡ some cs = rw (here, unlink_addr) at e in
      let g : bs ≡ cs = cc in
      record {
        found = rw same at ok.0.0;
        rest = rw g at ok.1;
        count = λ p. rw (← g, ← same) (omega arith);
      }
  | inr elsewhere ↦ elim (Option-cases (unlink_addr addr bs)) [
    | inl q ↦ let f : none ≡ some cs = rw (elsewhere, unlink_addr, q) at e in absurd (cc)
    | inr (ds, q) ↦
        let f : some (b ∷ ds) ≡ some cs = rw (elsewhere, unlink_addr, q) at e in
        let g : b ∷ ds ≡ cs = cc in
        let u : Unlinked lo hi k addr bs ds = unlink_addr-Unlinked lo hi k addr bs ds ok.1 q in
        record {
          found = u.found;
          rest = rw (← g) (ok.0, u.rest);
          count = λ p. rw (← g) (omega (arith, u.count p));
        }
  ]
]

-- The result of coalescing the block `addr` of `order` into the lists.
pub record Coalesced (lo hi order addr : ℕ) (fl fl' : FreeLists) : Type 0 where
  pub ok : AreBlocks lo hi fl'
  pub exact : (p : ℕ) → hits_below 21 fl' p ≡ hits_below 21 fl p + hit order addr p

module _ (lo hi : ℕ) where
  linked :
      (order addr : ℕ) (fl : FreeLists)
      → order ≤ 20
      → IsBlock lo hi order addr
      → AreBlocks lo hi fl
      → Coalesced lo hi order addr fl (link_block fl order addr)
  linked order addr fl h b ok = record {
    ok = link_block-AreBlocks lo hi fl order addr h ok b;
    exact = λ p. hits_below-link 21 order fl addr p (omega arith);
  }

  -- One merge, followed by what the loop does from the next order on.
  merged :
      (order addr : ℕ) (fl fl' : FreeLists) (bs : List FreeBlock)
      → suc order ≤ 20
      → Unlinked lo hi order (bit_xor addr (block_size order)) (fl order) bs
      → Merged lo hi order addr (bit_xor addr (block_size order))
      → Coalesced lo hi
          (suc order)
          (lower_of (bit_xor addr (block_size order)) addr)
          (set_list fl order bs)
          fl'
      → Coalesced lo hi order addr fl fl'
  merged order addr fl fl' bs h u m c = record {
    ok = c.ok;
    exact = λ p.
        omega
          (arith, c.exact p, m.bytes p, u.count p, hits_below-set 21 order fl bs p (omega arith));
  }

  -- However far the merging goes, the free bytes are the old ones and those of the freed block.
  pub coalesce-Coalesced :
      (n order addr : ℕ) (fl : FreeLists)
      → order + n ≤ 20
      → IsBlock lo hi order addr
      → AreBlocks lo hi fl
      → Coalesced lo hi order addr fl (coalesce n order addr fl)
  unfolding coalesce
  coalesce-Coalesced zero order addr fl h b ok = linked order addr fl (omega arith) b ok
  coalesce-Coalesced (suc n) order addr fl h b ok =
      elim (Option-cases (unlink_addr (bit_xor addr (block_size order)) (fl order))) [
        | inl q ↦ rw (q, coalesce) (linked order addr fl (omega arith) b ok)
        | inr (bs, q) ↦
            let u =
              unlink_addr-Unlinked lo hi order (bit_xor addr (block_size order)) (fl order) bs
                (ok order (omega arith)) q in
            let m = merge lo hi order addr (omega arith) b u.found in
            let e : order + 1 ≡ suc order = omega arith in
            rw (q, coalesce, e)
              (merged order addr fl _ bs (omega arith) u m (
                coalesce-Coalesced n (suc order) (lower_of (bit_xor addr (block_size order)) addr)
                  (set_list fl order bs) (omega arith) m.whole
                  (set_list-AreBlocks lo hi fl order bs ok u.rest)))
      ]
