-- ===== src/Vmm/Space/Copied.antt =====
-- The copy of the kernel's half of a table, and the pages that new tables are.
use lun_os.Prelude.{
  ℕ, zero, suc, ◌+◌, ◌-◌, ◌*◌, ◌%◌, ◌≤◌, ◌<◌, ◌≡◌, ◌≢◌, refl, sym, ap, ◌∙◌, arith, ◌⊎◌, inl, inr,
  true, false, ◌==◌, ℕ_discrete,
}
use lun_os.Buddy.{block_size}
use lun_os.Buddy.Cover.{hit}
use lun_os.Buddy.Whole.{IsValidBuddy, free_cover, free_cover-le}
use lun_os.Buddy.Alloc.{buddy_alloc_page, buddy_alloc_pages}
use lun_os.Buddy.Alloc.Pages.{Exhausted, buddy_alloc_pages-AllocPages}
use lun_os.Vmm.{Memory, clear_page, vmm_alloc_page_table, write_entry}
use lun_os.Vmm.Space.{copy_upper}

module _ (from to : ℕ) (m : Memory) where
  pub copy_upper-outside :
      (n a : ℕ)
      → (a < to + 2048) ⊎ (to + 4096 ≤ a)
      → n ≤ 256
      → (copy_upper n from to m).entry a ≡ m.entry a
  unfolding copy_upper write_entry
  copy_upper-outside zero a h k = refl
  copy_upper-outside (suc n) a h k =
      ground (arith, h, k, copy_upper-outside n a h (omega (arith, k)))

  -- Where the two tables do not overlap, an entry is that of the other table.
  pub copy_upper-inside :
      (n i : ℕ)
      → (from + 4096 ≤ to) ⊎ (to + 4096 ≤ from)
      → i < n
      → n ≤ 256
      → (copy_upper n from to m).entry (to + 8 * (256 + i)) ≡ m.entry (from + 8 * (256 + i))
  unfolding copy_upper write_entry
  copy_upper-inside zero i apart h k = omega (arith, h)
  copy_upper-inside (suc n) i apart h k =
      let kept =
        copy_upper-outside n (from + 8 * (256 + n))
          (elim apart [ inl a ↦ inl (omega (arith, a, k)) | inr b ↦ inr (omega (arith, b)) ])
          (omega (arith, k)) in
      elim (ℕ_discrete i n) [
        | yes e ↦ ground (arith, e, kept, ap (λ (z : ℕ). m.entry (from + 8 * (256 + z))) e)
        | no ne ↦
            ground
              (arith, ne, copy_upper-inside n i apart (omega (arith, h, ne)) (omega (arith, k)))
      ]

  pub copy_upper-spaces : (n : ℕ) → (copy_upper n from to m).spaces ≡ m.spaces
  unfolding copy_upper write_entry
  copy_upper-spaces zero = refl
  copy_upper-spaces (suc n) = copy_upper-spaces n

-- A new table: a page that was free, of zeros, and the entries elsewhere stay.
pub record Fresh (m : Memory) (t : ℕ) (m' : Memory) : Type 0 where
  pub positive : t ≢ 0
  pub aligned : t % 4096 ≡ 0
  pub was_free : free_cover m.buddy t ≡ 1
  pub zeros : (i : ℕ) → i < 512 → m'.entry (t + 8 * i) ≡ 0
  pub elsewhere : (a : ℕ) → (a < t) ⊎ (t + 4096 ≤ a) → m'.entry a ≡ m.entry a

-- There is one, or no page is free.
pub alloc_table :
    (m : Memory)
    → IsValidBuddy m.buddy
    → ((vmm_alloc_page_table m).1.spaces ≡ m.spaces)
      × ((((vmm_alloc_page_table m).0 ≡ 0) × Exhausted m.buddy.counter m.buddy.arenas 0)
          ⊎ Fresh m (vmm_alloc_page_table m).0 (vmm_alloc_page_table m).1)
unfolding vmm_alloc_page_table clear_page buddy_alloc_page block_size hit
alloc_table m ok = elim (buddy_alloc_pages-AllocPages m.buddy 0 ok (omega arith)) [
  | inl (z, _, gone) ↦
      let q : ((buddy_alloc_pages m.buddy 0).0 == 0) ≡ true = ground (arith, z) in
      rw q (refl, inl (refl, gone))
  | inr got ↦
      let q : ((buddy_alloc_pages m.buddy 0).0 == 0) ≡ false = ground (arith, got.positive) in
      let (c, e) = got.aligned in
      let t = (buddy_alloc_pages m.buddy 0).0 in
      rw q (
        refl,
        inr record {
          positive = ground (arith, got.positive);
          aligned = omega (arith, e);
          was_free = ground (arith, got.exact t, free_cover-le m.buddy t ok);
          zeros = λ i h. ground (arith, h);
          elsewhere = λ a h. ground (arith, h);
        },
      )
]

module _ (from to : ℕ) (m : Memory) (af : from % 4096 ≡ 0) (at : to % 4096 ≡ 0) where
  -- After the copy the entries from number 256 on are the same in both tables.
  pub upper_same :
      (i : ℕ)
      → 256 ≤ i
      → i < 512
      → (copy_upper 256 from to m).entry (to + 8 * i)
        ≡ (copy_upper 256 from to m).entry (from + 8 * i)
  upper_same i h k =
      let split : 256 + (i - 256) ≡ i = omega (arith, h) in
      elim (ℕ_discrete from to) [
        | yes e ↦ ap (λ (z : ℕ). (copy_upper 256 from to m).entry (z + 8 * i)) (sym e)
        | no ne ↦
            let apart : (from + 4096 ≤ to) ⊎ (to + 4096 ≤ from) = ground (arith, af, at, ne) in
            let side : (from + 8 * i < to + 2048) ⊎ (to + 4096 ≤ from + 8 * i) =
              ground (arith, apart, k) in
            rw split at
              (copy_upper-inside from to m 256 (i - 256) apart (omega (arith, h, k)) (omega arith))
            ∙ sym (copy_upper-outside from to m 256 (from + 8 * i) side (omega arith))
      ]
