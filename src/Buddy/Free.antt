-- ===== src/Buddy/Free.antt =====
-- buddy_free_pages of kernel/arch/x86_64/memory/buddy_allocator.c.
pub mod Laws
pub mod Pages
pub mod Block
use lun_os.Prelude.{
  ℕ, zero, suc, ◌+◌, ◌-◌, Bool, ◌&&◌, bit_xor, Option, none, some, List, [], ◌∷◌, ltb, leb, ◌==◌,
  if◌then◌else◌, add64,
}
use lun_os.Buddy.{
  FreeBlock, FreeLists, Arena, Buddy, max_supported_order, block_size, set_list, link_block,
}

-- The walk `while (*current)`: the list without its first block at `addr`, if there is one.
pub unlink_addr : ℕ → List FreeBlock → Option (List FreeBlock)
unlink_addr addr [] = none
unlink_addr addr (b ∷ bs) =
    if b.phys_addr == addr
    then some bs
    else elim (unlink_addr addr bs) [ none ↦ none | some cs ↦ some (b ∷ cs) ]

-- `while (order < max)`, `n` rounds, and the link of the block that it ends with.
pub coalesce : ℕ → ℕ → ℕ → FreeLists → FreeLists
unfolding block_size unlink_addr set_list link_block
coalesce zero order addr fl = link_block fl order addr
coalesce (suc n) order addr fl =
    let buddy = bit_xor addr (block_size order) in
    elim (unlink_addr buddy (fl order)) [
      | none ↦ link_block fl order addr
      | some bs ↦
          coalesce n (order + 1) (if ltb buddy addr then buddy else addr) (set_list fl order bs)
    ]

-- The order and the address of that block.
pub last_block : ℕ → ℕ → ℕ → FreeLists → ℕ × ℕ
unfolding block_size unlink_addr set_list
last_block zero order addr fl = (order, addr)
last_block (suc n) order addr fl =
    let buddy = bit_xor addr (block_size order) in
    elim (unlink_addr buddy (fl order)) [
      | none ↦ (order, addr)
      | some bs ↦
          last_block n (order + 1) (if ltb buddy addr then buddy else addr) (set_list fl order bs)
    ]

pub in_arena : Arena → ℕ → Bool
in_arena a addr = leb a.base addr && ltb addr (add64 a.base a.len)

-- The search over the first `n` arenas; `none` when no arena holds the address.
pub free_loop : ℕ → List Arena → ℕ → ℕ → Option (List Arena)
unfolding in_arena coalesce
free_loop zero xs addr order = none
free_loop (suc n) [] addr order = none
free_loop (suc n) (a ∷ xs) addr order =
    let later : Option (List Arena) = elim (free_loop n xs addr order) [
      | none ↦ none
      | some xs' ↦ some (a ∷ xs')
    ] in
    if in_arena a addr
    then some
        (record a { free_list = coalesce (a.max_arena_order - order) order addr a.free_list } ∷ xs)
    else later

-- Where the arguments are refused the state stays xs it is.
unfoldable pub buddy_free_pages : Buddy → ℕ → ℕ → Buddy
unfolding free_loop
buddy_free_pages s addr order =
    let freed : Buddy = elim (free_loop s.counter s.arenas addr order) [
      | none ↦ s
      | some xs ↦ record s { arenas = xs }
    ] in
    if ltb max_supported_order order then s else freed

-- The block that buddy_free_pages links, over the first `n` arenas; its struct free_block is written there.
pub freed_in : ℕ → List Arena → ℕ → ℕ → Option (ℕ × ℕ)
unfolding in_arena last_block
freed_in zero xs addr order = none
freed_in (suc n) [] addr order = none
freed_in (suc n) (a ∷ xs) addr order =
    let later = freed_in n xs addr order in
    if in_arena a addr
    then some (last_block (a.max_arena_order - order) order addr a.free_list)
    else later

unfoldable pub freed_block : Buddy → ℕ → ℕ → Option (ℕ × ℕ)
unfolding freed_in
freed_block s addr order =
    let block = freed_in s.counter s.arenas addr order in
    if ltb max_supported_order order then none else block

pub buddy_free_page : Buddy → ℕ → Buddy
unfolding buddy_free_pages
buddy_free_page s addr = buddy_free_pages s addr 0
