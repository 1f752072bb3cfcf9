-- ===== src/Buddy/Valid.antt =====
-- What a well-formed arena is, and how the list updates keep its blocks well-formed.
use lun_os.Prelude.{
  ℕ, ◌+◌, ◌*◌, ◌^◌, ◌≤◌, ◌<◌, ◌≡◌, refl, List, ◌∷◌, All, ◌==◌, Bool-cases, inl, inr, ==_iff,
}
use lun_os.Buddy.{FreeBlock, FreeLists, Arena, block_size, set_list, link_block}
use lun_os.Buddy.Cover.{cover}

-- Naturally aligned: a multiple of the block's own size.
abbrev pub Aligned : ℕ → ℕ → Type 0
Aligned k addr = (q : ℕ) × (addr ≡ q * block_size k)

-- A block of order `k` inside `lo .. hi`.
pub record IsBlock (lo hi k addr : ℕ) : Type 0 where
  pub positive : 0 < addr
  pub above : lo ≤ addr
  pub below : addr + block_size k ≤ hi
  pub aligned : Aligned k addr

abbrev pub IsFreeBlock : ℕ → ℕ → ℕ → FreeBlock → Type 0
IsFreeBlock lo hi k b = IsBlock lo hi k b.phys_addr × (b.current_order ≡ k)

abbrev pub AreBlocks : ℕ → ℕ → FreeLists → Type 0
AreBlocks lo hi fl = (k : ℕ) → k ≤ 20 → All (IsFreeBlock lo hi k) (fl k)

pub record IsValid (a : Arena) : Type 0 where
  pub max_le : a.max_arena_order ≤ 20
  pub end_lt : a.base + a.len < 2 ^ 64
  pub blocks : AreBlocks a.base (a.base + a.len) a.free_list
  pub disjoint : (p : ℕ) → cover a p ≤ 1

module _ (lo hi : ℕ) where
  pub set_list-AreBlocks :
      (fl : FreeLists) (k : ℕ) (bs : List FreeBlock)
      → AreBlocks lo hi fl
      → All (IsFreeBlock lo hi k) bs
      → AreBlocks lo hi (set_list fl k bs)
  unfolding set_list
  set_list-AreBlocks fl k bs ok new j h = elim (Bool-cases (j == k)) [
    | inl e ↦ rw (e, (==_iff j k).0 e) new
    | inr e ↦ rw e (ok j h)
  ]

  pub link_block-AreBlocks :
      (fl : FreeLists) (k addr : ℕ)
      → k ≤ 20
      → AreBlocks lo hi fl
      → IsBlock lo hi k addr
      → AreBlocks lo hi (link_block fl k addr)
  unfolding link_block
  link_block-AreBlocks fl k addr h ok new =
      set_list-AreBlocks fl k (record { current_order = k; phys_addr = addr } ∷ fl k) ok
        ((new, refl), ok k h)
