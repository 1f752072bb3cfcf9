-- ===== src/Memmgr/Regions.antt =====
-- Adding, removing and finding regions.
use lun_os.Prelude.{
  ℕ, ◌≤◌, ◌<◌, ◌≡◌, ◌⊎◌, inl, inr, refl, ap, ◌∙◌, arith, List, [], ◌∷◌, ◌++◌, All, none, some,
  success, true, false, leb,
}
use lun_os.Memmgr.{
  MemRegion, MemDescriptor, mm_add_region, mm_remove_region, remove_first, find_in, mm_find_region,
}

-- Where kmalloc has memory, a region that is added with its start below its end is there to remove
-- again: the removal succeeds and gives the descriptor back as it was.
pub mm_remove_region-mm_add_region :
    (mm : MemDescriptor) (start end flags : ℕ)
    → start < end
    → (added : MemDescriptor) × (mm_add_region true mm start end flags ≡ some (success, added))
      × (mm_remove_region added start end ≡ (success, mm))
unfolding mm_remove_region mm_add_region remove_first
mm_remove_region-mm_add_region mm start end flags h =
    let q : leb end start ≡ false = ground (arith, h) in
    let added : MemDescriptor = record mm {
      regions = record { start = start; end = end; flags = flags } ∷ mm.regions;
    } in
    (added, rw q refl, ground (arith, h))

abbrev pub Contains : ℕ → MemRegion → Type 0
Contains vaddr r = (r.start ≤ vaddr) × (vaddr ≤ r.end)

-- The region `r` is the first of `rs` that contains the address.
pub record IsFirst (rs : List MemRegion) (vaddr : ℕ) (r : MemRegion) : Type 0 where
  pub before : List MemRegion
  pub after : List MemRegion
  pub parts : rs ≡ before ++ (r ∷ after)
  pub holds : Contains vaddr r
  pub others : All (λ q. Contains vaddr q → ⊥) before

module _ (r : MemRegion) (rs : List MemRegion) (vaddr : ℕ) where
  found_here : Contains vaddr r → find_in (r ∷ rs) vaddr ≡ some r
  unfolding find_in
  found_here (low, high) = ground (arith, low, high)

  found_later : (Contains vaddr r → ⊥) → find_in (r ∷ rs) vaddr ≡ find_in rs vaddr
  unfolding find_in
  found_later h = ground (arith, h)

  decide : Contains vaddr r ⊎ (Contains vaddr r → ⊥)
  decide = ground arith

-- mm_find_region returns the first region in the list with the address between its ends, both
-- included, and NULL just where no region has it.
pub mm_find_region_lem :
    (mm : MemDescriptor) (vaddr : ℕ)
    → ((r : MemRegion) × (mm_find_region mm vaddr ≡ some r) × IsFirst mm.regions vaddr r)
      ⊎ ((mm_find_region mm vaddr ≡ none) × All (λ q. Contains vaddr q → ⊥) mm.regions)
unfolding mm_find_region find_in
mm_find_region_lem mm vaddr = go mm.regions
  where
    go :
        (rs : List MemRegion)
        → ((r : MemRegion) × (find_in rs vaddr ≡ some r) × IsFirst rs vaddr r)
          ⊎ ((find_in rs vaddr ≡ none) × All (λ q. Contains vaddr q → ⊥) rs)
    go [] = inr (refl, tt)
    go (r ∷ rs) = elim (decide r rs vaddr) [
      | inl c ↦ inl (
        r,
        found_here r rs vaddr c,
        record { before = []; after = rs; parts = refl; holds = c; others = tt },
      )
      | inr nc ↦ elim (go rs) [
        | inl (q, e, f) ↦ inl (
          q,
          found_later r rs vaddr nc ∙ e,
          record {
            before = r ∷ f.before;
            after = f.after;
            parts = ap (λ t. r ∷ t) f.parts;
            holds = f.holds;
            others = (nc, f.others);
          },
        )
        | inr (e, none_there) ↦ inr (found_later r rs vaddr nc ∙ e, (nc, none_there))
      ]
    ]
