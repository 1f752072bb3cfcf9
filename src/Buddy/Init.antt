-- ===== src/Buddy/Init.antt =====
-- buddy_allocator_init of kernel/arch/x86_64/memory/buddy_allocator.c, over the entries of the
-- memory map that the boot loader hands over.
use lun_os.Prelude.{
  ℕ, ◌+◌, ◌%◌, Option, none, some, List, [], ◌∷◌, leb, ◌==◌, if◌then◌else◌, add64, page_size,
  success, failure,
}
use lun_os.Buddy.{Buddy, max_buddy_arenas, add_buddy_arena}

-- struct limine_memmap_entry, with `entry_type` for its field `type`
pub record MemmapEntry : Type 0 where
  pub base : ℕ
  pub len : ℕ
  pub entry_type : ℕ

-- `none` where add_buddy_arena does not end.
pub init_entries : List MemmapEntry → Buddy → Option Buddy
unfolding add_buddy_arena
init_entries [] s = some s
init_entries (e ∷ es) s =
    let base = if e.base == 0 then add64 e.base page_size else e.base in
    let added : Option Buddy = elim (add_buddy_arena s s.counter base e.len) [
      | none ↦ none
      | some (success, t) ↦ init_entries es (record t { counter = (t.counter + 1) % 256 })
      | some (failure, t) ↦ init_entries es t
    ] in
    let skipped = init_entries es s in
    if (e.entry_type == 0)
    then (if leb max_buddy_arenas s.counter then some s else added)
    else skipped
