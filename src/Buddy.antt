-- ===== src/Buddy.antt =====
-- The buddy allocator of kernel/arch/x86_64/memory/buddy_allocator.c.
-- A free list is threaded through the free pages themselves (`struct free_block` is written into
-- the first bytes of the block): here it is the list of its blocks, head first.
pub mod Cover
pub mod Valid
pub mod Whole
pub mod Alloc
pub mod Free
pub mod Populate
pub mod Init
use lun_os.Prelude.{
  ℕ, zero, suc, ◌+◌, ◌-◌, ◌*◌, ◌%◌, ◌/◌, ◌^◌, bit_and, ◌&&◌, Option, none, some, List, [], ◌∷◌, ltb,
  leb, ◌==◌, if◌then◌else◌, add64, sub64, page_size, Status, success, failure,
}
use lun_os.Prelude.Words.{page_align_up}

-- MAX_SUPPORTED_ORDER and MAX_BUDDY_ARENAS
abbrev pub max_supported_order : ℕ
max_supported_order = 20

abbrev pub max_buddy_arenas : ℕ
max_buddy_arenas = 32

pub record FreeBlock : Type 0 where
  pub current_order : ℕ
  pub phys_addr : ℕ

abbrev pub FreeLists : Type 0
FreeLists = ℕ → List FreeBlock

pub record Arena : Type 0 where
  pub base : ℕ
  pub len : ℕ
  pub max_arena_order : ℕ
  pub free_list : FreeLists

-- buddy_arenas and buddy_arena_counter
pub record Buddy : Type 0 where
  pub arenas : List Arena
  pub counter : ℕ

-- `(1ULL << k) * PAGE_FRAME_SIZE`, for a shift below 64
unfoldable pub block_size : ℕ → ℕ
block_size k = 2 ^ k * page_size % 2 ^ 64

unfoldable pub set_list : FreeLists → ℕ → List FreeBlock → FreeLists
set_list fl k bs i = if i == k then bs else fl i

-- The block at `addr` becomes the head of list `k`.
unfoldable pub link_block : FreeLists → ℕ → ℕ → FreeLists
unfolding set_list
link_block fl k addr = set_list fl k (record { current_order = k; phys_addr = addr } ∷ fl k)

-- The inner `for` of populate_buddy_blocks, from `order` down; `none` is the -1.
pub best_order : ℕ → ℕ → ℕ → Option ℕ
unfolding block_size
best_order zero addr remaining =
    if leb (block_size 0) remaining && (bit_and addr (block_size 0 - 1) == 0) then some 0 else none
best_order (suc k) addr remaining =
    if leb (block_size (suc k)) remaining && (bit_and addr (block_size (suc k) - 1) == 0)
    then some (suc k)
    else best_order k addr remaining

-- The `while` of populate_buddy_blocks; `none` when the fuel runs out.
pub populate_loop : ℕ → ℕ → FreeLists → (cur end : ℕ) → Option FreeLists
populate_loop zero max fl cur end = none
populate_loop (suc fuel) max fl cur end =
    let rest : Option FreeLists = elim (best_order max cur (end - cur)) [
      | none ↦ populate_loop fuel max fl (page_align_up cur) end
      | some k ↦ populate_loop fuel max (link_block fl k cur) (add64 cur (block_size k)) end
    ] in
    if ltb cur end then (if ltb (end - cur) page_size then some fl else rest) else some fl

-- Every round but the last takes at least one page.
pub populate_buddy_blocks : Arena → Option FreeLists
unfolding populate_loop best_order link_block
populate_buddy_blocks a =
    populate_loop (a.len / page_size + 1) a.max_arena_order a.free_list a.base (add64 a.base a.len)

-- `while (((1ULL << (max_order + 1)) * PAGE_FRAME_SIZE) <= aligned_len) max_order++;`
pub max_order_loop : ℕ → ℕ → ℕ → Option ℕ
unfolding block_size
max_order_loop zero order len = none
max_order_loop (suc fuel) order len =
    let rest = max_order_loop fuel (order + 1) len in
    if leb (block_size (order + 1)) len then rest else some order

-- The arena over the pages of `base .. end`, once it is known to hold a page.
pub make_arena : ℕ → ℕ → Option Arena
make_arena base len = elim (max_order_loop 64 0 len) [
  | none ↦ none
  | some m ↦
      let max = if ltb max_supported_order m then max_supported_order else m in
      let a : Arena = record {
        base = base;
        len = len;
        max_arena_order = max;
        free_list = λ _. [];
      } in
      elim (populate_buddy_blocks a) [ none ↦ none | some fl ↦ some (record a { free_list = fl }) ]
]

-- The write of buddy_arenas[arena_idx]; the table has MAX_BUDDY_ARENAS entries.
pub set_arena : List Arena → ℕ → Arena → List Arena
set_arena [] i a = []
set_arena (x ∷ xs) zero a = a ∷ xs
set_arena (x ∷ xs) (suc i) a = x ∷ set_arena xs i a

-- `none` where a loop does not end; a status and the new state otherwise. Index 0 is left empty.
pub add_buddy_arena : Buddy → ℕ → ℕ → ℕ → Option (Status × Buddy)
add_buddy_arena s idx base len =
    let aligned_base = page_align_up base in
    let end = add64 base len in
    let aligned_len = sub64 end aligned_base in
    let made : Option (Status × Buddy) = elim (make_arena aligned_base aligned_len) [
      | none ↦ none
      | some a ↦ some (success, record s { arenas = set_arena s.arenas idx a })
    ] in
    if leb max_buddy_arenas idx
    then some (failure, s)
    else if idx == 0
    then some (success, record s { counter = (s.counter + 1) % 256 })
    else if leb end aligned_base
    then some (failure, s)
    else if ltb aligned_len page_size
    then some (failure, s)
    else made
