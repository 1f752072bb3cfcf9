-- ===== src/Tests/Buddy.antt =====
-- The buddy allocator over one arena of four pages at 1 MiB, free as a single block.
use lun_os.Prelude.{ℕ, zero, suc, List, ◌+◌, ◌≤◌, ◌≡◌, refl, [], ◌∷◌, arith, inl, some, Status}
use lun_os.Buddy.{Arena, Buddy, block_size, link_block, add_buddy_arena}
use lun_os.Buddy.Cover.{hit, cover, hits_below-link, hits_below-empty}
use lun_os.Buddy.Valid.{IsBlock, link_block-AreBlocks}
use lun_os.Buddy.Whole.{IsValidBuddy, free_cover}
use lun_os.Buddy.Alloc.{buddy_alloc_pages}
use lun_os.Buddy.Alloc.Pages.{AllocPages, buddy_alloc_pages-AllocPages, buddy_alloc_pages_disjoint}
use lun_os.Buddy.Free.{buddy_free_pages}
use lun_os.Buddy.Free.Pages.{
  FreedPages, buddy_free_pages-FreedPages, buddy_free_pages-buddy_alloc_pages,
}
use lun_os.Buddy.Populate.{ArenaAdded, add_buddy_arena-ArenaAdded}

abbrev pub arena : Arena
arena = record {
  base = 0x100000;
  len = 0x4000;
  max_arena_order = 2;
  free_list = link_block (λ _. []) 2 0x100000;
}

abbrev pub pool : Buddy
pool = record { arenas = arena ∷ []; counter = 1 }

whole-IsBlock : IsBlock 0x100000 0x104000 2 0x100000
unfolding block_size
whole-IsBlock = record {
  positive = omega arith;
  above = omega arith;
  below = omega arith;
  aligned = (64, refl);
}

cover-arena : (p : ℕ) → cover arena p ≡ hit 2 0x100000 p
unfolding cover
cover-arena p =
    omega (arith, hits_below-link 21 2 (λ _. []) 0x100000 p (omega arith), hits_below-empty 21 p)

hit_once : (k addr p : ℕ) → hit k addr p ≤ 1
unfolding hit
hit_once k addr p = ground arith

pub pool-IsValid : IsValidBuddy pool
pool-IsValid = record {
  arenas_ok = (
    record {
      max_le = omega arith;
      end_lt = omega arith;
      blocks =
          link_block-AreBlocks 0x100000 0x104000 (λ _. []) 2 0x100000 (omega arith) (λ k h. tt)
            whole-IsBlock;
      disjoint = λ p. omega (arith, cover-arena p, hit_once 2 0x100000 p);
    },
    tt,
  );
  separate = (tt, tt);
}

first_page : (buddy_alloc_pages pool 0).0 ≡ 0x100000
unfolding buddy_alloc_pages
first_page = refl

second_page : (buddy_alloc_pages (buddy_alloc_pages pool 0).1 0).0 ≡ 0x101000
unfolding buddy_alloc_pages
second_page = refl

buddy_alloc_pages-AllocPages_example : AllocPages pool 0 (buddy_alloc_pages pool 0)
buddy_alloc_pages-AllocPages_example =
    buddy_alloc_pages-AllocPages pool 0 pool-IsValid (omega arith)

buddy_alloc_pages_disjoint_example :
    hit 0 (buddy_alloc_pages pool 0).0 0x100010
      + hit 0 (buddy_alloc_pages (buddy_alloc_pages pool 0).1 0).0 0x100010
    ≤ 1
buddy_alloc_pages_disjoint_example =
    buddy_alloc_pages_disjoint pool 0 0 pool-IsValid (omega arith) (omega arith)
      (omega (arith, first_page)) (omega (arith, second_page)) 0x100010

buddy_free_pages-buddy_alloc_pages_example :
    IsValidBuddy (buddy_free_pages (buddy_alloc_pages pool 0).1 (buddy_alloc_pages pool 0).0 0)
    × ((p : ℕ)
        → free_cover
            (buddy_free_pages (buddy_alloc_pages pool 0).1 (buddy_alloc_pages pool 0).0 0)
            p
          ≡ free_cover pool p)
buddy_free_pages-buddy_alloc_pages_example =
    buddy_free_pages-buddy_alloc_pages pool 0 pool-IsValid (omega arith) (omega (arith, first_page))

-- The same four pages, all allocated.
abbrev empty_pool : Buddy
empty_pool = record { arenas = record arena { free_list = λ _. [] } ∷ []; counter = 1 }

empty_cover : (p : ℕ) → free_cover empty_pool p ≡ 0
unfolding free_cover cover
empty_cover p = omega (arith, hits_below-empty 21 p)

empty_pool-IsValid : IsValidBuddy empty_pool
unfolding cover
empty_pool-IsValid = record {
  arenas_ok = (
    record {
      max_le = omega arith;
      end_lt = omega arith;
      blocks = λ k h. tt;
      disjoint = λ p. omega (arith, hits_below-empty 21 p);
    },
    tt,
  );
  separate = (tt, tt);
}

buddy_free_pages-FreedPages_example :
    FreedPages empty_pool 2 0x100000 (buddy_free_pages empty_pool 0x100000 2)
buddy_free_pages-FreedPages_example =
    buddy_free_pages-FreedPages empty_pool 0x100000 2 empty_pool-IsValid (omega arith)
      (inl whole-IsBlock) (λ p. omega (arith, empty_cover p, hit_once 2 0x100000 p))

abbrev unused : Arena
unused = record { base = 0; len = 0; max_arena_order = 0; free_list = λ _. [] }

abbrev unused_entries : ℕ → List Arena
unused_entries zero = []
unused_entries (suc n) = unused ∷ unused_entries n

-- The whole table, with nothing in it.
abbrev table : Buddy
table = record { arenas = unused_entries 32; counter = 1 }

add_buddy_arena-ArenaAdded_example :
    (r : Status × Buddy) × (add_buddy_arena table 1 0x200800 0x5000 ≡ some r)
    × ArenaAdded table 1 0x200800 0x5000 r
add_buddy_arena-ArenaAdded_example =
    add_buddy_arena-ArenaAdded table 1 0x200800 0x5000 refl (omega arith) (omega arith)
      (omega arith) (omega arith)
