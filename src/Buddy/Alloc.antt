-- ===== src/Buddy/Alloc.antt =====
-- buddy_alloc_pages of kernel/arch/x86_64/memory/buddy_allocator.c.
pub mod Laws
pub mod Pages
use lun_os.Prelude.{
  ℕ, zero, suc, ◌+◌, ◌-◌, Option, none, some, List, [], ◌∷◌, ltb, if◌then◌else◌, add64,
}
use lun_os.Buddy.{
  FreeBlock, FreeLists, Arena, Buddy, max_supported_order, block_size, set_list, link_block,
}

-- `for (int j = from; j <= max; j++)`, `n` rounds: the first list that holds a block.
pub find_order : ℕ → ℕ → FreeLists → Option ℕ
find_order zero j fl = none
find_order (suc n) j fl = elim (fl j) [ [] ↦ find_order n (j + 1) fl | b ∷ bs ↦ some j ]

-- `for (int k = order + n - 1; k >= order; --k)`: the right half of each split goes to its list.
pub split : ℕ → ℕ → ℕ → FreeLists → FreeLists
unfolding block_size link_block
split zero order addr fl = fl
split (suc n) order addr fl =
    split n order addr (link_block fl (order + n) (add64 addr (block_size (order + n))))

-- A block of list `j` is unlinked and split down to `order`.
pub take_and_split : ℕ → ℕ → FreeLists → Option (ℕ × FreeLists)
unfolding split set_list
take_and_split j order fl = elim (fl j) [
  | [] ↦ none
  | b ∷ bs ↦ some (b.phys_addr, split (j - order) order b.phys_addr (set_list fl j bs))
]

-- One round of the loop over the arenas; `none` where it goes on to the next.
pub alloc_in_arena : Arena → ℕ → Option (ℕ × Arena)
unfolding find_order take_and_split
alloc_in_arena a order =
    let larger : Option (ℕ × Arena) =
      elim (find_order (a.max_arena_order - order) (order + 1) a.free_list) [
        | none ↦ none
        | some j ↦ elim (take_and_split j order a.free_list) [
          | none ↦ none
          | some (addr, fl) ↦ some (addr, record a { free_list = fl })
        ]
      ] in
    elim (a.free_list order) [
      | [] ↦ larger
      | b ∷ bs ↦ some (b.phys_addr, record a { free_list = set_list a.free_list order bs })
    ]

-- The first `n` arenas in turn; address 0 if none can serve.
pub alloc_loop : ℕ → List Arena → ℕ → ℕ × List Arena
unfolding alloc_in_arena
alloc_loop zero xs order = (0, xs)
alloc_loop (suc n) [] order = (0, [])
alloc_loop (suc n) (a ∷ xs) order = elim (alloc_in_arena a order) [
  | some (addr, a') ↦ (addr, a' ∷ xs)
  | none ↦ let (addr, xs') = alloc_loop n xs order in (addr, a ∷ xs')
]

unfoldable pub buddy_alloc_pages : Buddy → ℕ → ℕ × Buddy
unfolding alloc_loop
buddy_alloc_pages s order =
    let (addr, xs) = alloc_loop s.counter s.arenas order in
    if ltb max_supported_order order then (0, s) else (addr, record s { arenas = xs })

unfoldable pub buddy_alloc_page : Buddy → ℕ × Buddy
unfolding buddy_alloc_pages
buddy_alloc_page s = buddy_alloc_pages s 0
