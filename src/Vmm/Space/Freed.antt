-- ===== src/Vmm/Space/Freed.antt =====
-- What vmm_destroy_address_space gives back to the page allocator.
use mathlib.Core.List.{Memᴰ}
use mathlib.Core.List.Memᴰ
use lun_os.Prelude.{
  ℕ, zero, suc, ◌+◌, ◌*◌, ◌<◌, ◌≡◌, ◌≢◌, refl, sym, ap, subst, ◌∙◌, arith, ◌⊎◌, ◌↔◌, inl, inr, List,
  [], ◌∷◌, ◌++◌, Bool, true, false, ◌||◌, some, ◌==◌, if◌then◌else◌, Bool-cases, ℕ_discrete,
}
use lun_os.Buddy.{Buddy}
use lun_os.Buddy.Free.{buddy_free_page}
use lun_os.Kmalloc.{kfree}
use lun_os.Vmm.{Memory, is_present, pte_addr}
use lun_os.Vmm.Space.{
  Machine, heap_of, with_heap, give_table, each_present, free_pd_table, free_pdp_table,
  vmm_free_page_table, vmm_destroy_address_space,
}

-- The table `p` is `t`, or one below it, over at most `depth` levels.
pub data Tree (entry : ℕ → ℕ) : ℕ → ℕ → ℕ → Type 0 where
  itself : {depth t p : ℕ} → p ≡ t → Tree entry depth t p
  below :
      {depth t p : ℕ} (i : ℕ)
      → i < 512
      → is_present (entry (t + 8 * i)) ≡ true
      → Tree entry depth (pte_addr (entry (t + 8 * i))) p
      → Tree entry (suc depth) t p

-- Some pages are given back, the first of the list first.
pub give_all : List ℕ → Buddy → Buddy
give_all [] b = b
give_all (t ∷ ts) b = give_all ts (buddy_free_page b t)

abbrev pub given : List ℕ → Memory → Memory
given r m = record m { buddy = give_all r m.buddy }

given-append : (xs ys : List ℕ) (b : Buddy) → give_all (xs ++ ys) b ≡ give_all ys (give_all xs b)
unfolding give_all
given-append [] ys b = refl
given-append (x ∷ xs) ys b = given-append xs ys (buddy_free_page b x)

module _ (entry : ℕ → ℕ) where
  -- The lists of `parts` at the present ones of the first `n` entries.
  listed : (ℕ → List ℕ) → ℕ → ℕ → List ℕ
  listed parts zero t = []
  listed parts (suc i) t =
      listed parts i t
      ++ (if is_present (entry (t + 8 * i)) then parts (pte_addr (entry (t + 8 * i))) else [])

  trees : ℕ → ℕ → List ℕ
  trees zero t = t ∷ []
  trees (suc depth) t = listed (trees depth) 512 t ++ (t ∷ [])

  -- A table is in one of the lists.
  abbrev pub InEntry : (ℕ → ℕ → Type 0) → ℕ → ℕ → ℕ → Type 0
  InEntry In n t p =
      (i : ℕ) × (i < n)
      × (is_present (entry (t + 8 * i)) ≡ true)
      × In (pte_addr (entry (t + 8 * i))) p

  in_if : (p : ℕ) (b : Bool) (xs : List ℕ) → Memᴰ p (if b then xs else []) → (b ≡ true) × Memᴰ p xs
  in_if p true xs h = (refl, h)
  in_if p false xs h = absurd (Memᴰ.not-nil h)

  listed-to :
      (parts : ℕ → List ℕ) (n t p : ℕ)
      → Memᴰ p (listed parts n t)
      → InEntry (λ s q. Memᴰ q (parts s)) n t p
  unfolding listed
  listed-to parts zero t p h = absurd (Memᴰ.not-nil h)
  listed-to parts (suc n) t p h = elim (Memᴰ.append_cases (listed parts n t) h) [
    | inl before ↦ let (i, lt, e, q) = listed-to parts n t p before in (i, omega (arith, lt), e, q)
    | inr here ↦
        let (e, q) =
          in_if p (is_present (entry (t + 8 * n))) (parts (pte_addr (entry (t + 8 * n)))) here in
        (n, omega arith, e, q)
  ]

  listed-from :
      (parts : ℕ → List ℕ) (n t p i : ℕ)
      → i < n
      → is_present (entry (t + 8 * i)) ≡ true
      → Memᴰ p (parts (pte_addr (entry (t + 8 * i))))
      → Memᴰ p (listed parts n t)
  unfolding listed
  listed-from parts zero t p i h e q = absurd (omega (arith, h))
  listed-from parts (suc n) t p i h e q = elim (ℕ_discrete i n) [
    | no ne ↦
        Memᴰ.append_left
          (if is_present (entry (t + 8 * n)) then parts (pte_addr (entry (t + 8 * n))) else [])
          (listed-from parts n t p i (omega (arith, h, ne)) e q)
    | yes same ↦ Memᴰ.append_right (listed parts n t) (
        subst
          (λ (j : ℕ).
            Memᴰ p
              (if is_present (entry (t + 8 * j)) then parts (pte_addr (entry (t + 8 * j))) else []))
          same (rw e q))
  ]

  trees-to : (depth t p : ℕ) → Memᴰ p (trees depth t) → Tree entry depth t p
  unfolding trees
  trees-to zero t p h = itself (Memᴰ.eq_of_singleton h)
  trees-to (suc depth) t p h = elim (Memᴰ.append_cases (listed (trees depth) 512 t) h) [
    | inl low ↦
        let (i, lt, e, q) = listed-to (trees depth) 512 t p low in
        below i lt e (trees-to depth (pte_addr (entry (t + 8 * i))) p q)
    | inr last ↦ itself (Memᴰ.eq_of_singleton last)
  ]

  trees-from : (depth t p : ℕ) → Tree entry depth t p → Memᴰ p (trees depth t)
  unfolding trees
  trees-from zero t p (itself e) = Memᴰ.head e
  trees-from (suc depth) t p (itself e) =
      Memᴰ.append_right (listed (trees depth) 512 t) (Memᴰ.head e)
  trees-from (suc depth) t p (below i lt e q) = Memᴰ.append_left (t ∷ []) (
      listed-from (trees depth) 512 t p i lt e
        (trees-from depth (pte_addr (entry (t + 8 * i))) p q))

  -- `free` gives back the list of a table.
  abbrev Gives : (ℕ → Memory → Memory) → (ℕ → List ℕ) → Type 0
  Gives free parts = (t : ℕ) (m : Memory) → m.entry ≡ entry → free t m ≡ given (parts t) m

  one_round :
      (free : ℕ → Memory → Memory) (parts : ℕ → List ℕ)
      → Gives free parts
      → (r : List ℕ) (a : ℕ) (m : Memory) → m.entry ≡ entry
      → (if is_present (m.entry a) then free (pte_addr (m.entry a)) (given r m) else given r m)
        ≡ given (r ++ (if is_present (entry a) then parts (pte_addr (entry a)) else [])) m
  unfolding give_all
  one_round free parts gives r a m same =
      let here : m.entry a ≡ entry a = ap (λ (f : ℕ → ℕ). f a) same in
      elim (Bool-cases (is_present (entry a))) [
        | inl e ↦
            rw (here, e)
              (gives (pte_addr (entry a)) (given r m) same
                ∙ ap (λ (b : Buddy). record m { buddy = b })
                    (sym (given-append r (parts (pte_addr (entry a))) m.buddy)))
        | inr e ↦
            rw (here, e)
              (ap (λ (b : Buddy). record m { buddy = b }) (sym (given-append r [] m.buddy)))
      ]

  each_present-Gives :
      (free : ℕ → Memory → Memory) (parts : ℕ → List ℕ) (n : ℕ)
      → Gives free parts
      → Gives (each_present free n) (listed parts n)
  unfolding each_present listed give_all
  each_present-Gives free parts zero gives t m same = refl
  each_present-Gives free parts (suc n) gives t m same =
      ap
        (λ (b : Memory).
          if is_present (b.entry (t + 8 * n)) then free (pte_addr (b.entry (t + 8 * n))) b else b)
        (each_present-Gives free parts n gives t m same)
      ∙ one_round free parts gives (listed parts n t) (t + 8 * n) m same

  give_table-Gives : Gives give_table (trees 0)
  unfolding give_table trees give_all
  give_table-Gives t m same = refl

  -- One level more.
  level :
      (free : ℕ → Memory → Memory) (depth : ℕ)
      → Gives free (trees depth)
      → Gives (λ t m. give_table t (each_present free 512 t m)) (trees (suc depth))
  unfolding give_table trees give_all
  level free depth gives t m same =
      ap (give_table t) (each_present-Gives free (trees depth) 512 gives t m same)
      ∙ ap (λ (b : Buddy). record m { buddy = b })
          (sym (given-append (listed (trees depth) 512 t) (t ∷ []) m.buddy))

  free_pdp_table-Gives : Gives free_pdp_table (trees 2)
  unfolding free_pdp_table free_pd_table
  free_pdp_table-Gives = level free_pd_table 1 (level give_table 0 give_table-Gives)

  -- The tables of the user's half: the top one, and those below its first 256 entries.
  abbrev pub UserTable : ℕ → ℕ → Type 0
  UserTable root p = (p ≡ root) ⊎ InEntry (Tree entry 2) 256 root p

  user_tables : ℕ → List ℕ
  user_tables root = listed (trees 2) 256 root ++ (root ∷ [])

  user_tables-UserTable : (root p : ℕ) → Memᴰ p (user_tables root) ↔ UserTable root p
  unfolding user_tables
  user_tables-UserTable root p = (
    λ h. elim (Memᴰ.append_cases (listed (trees 2) 256 root) h) [
      | inl low ↦
          let (i, lt, e, q) = listed-to (trees 2) 256 root p low in
          inr (i, lt, e, trees-to 2 (pte_addr (entry (root + 8 * i))) p q)
      | inr last ↦ inl (Memᴰ.eq_of_singleton last)
    ],
    λ u. elim u [
      | inl e ↦ Memᴰ.append_right (listed (trees 2) 256 root) (Memᴰ.head e)
      | inr (i, lt, e, q) ↦ Memᴰ.append_left (root ∷ []) (
          listed-from (trees 2) 256 root p i lt e
            (trees-from 2 (pte_addr (entry (root + 8 * i))) p q))
    ],
  )

abbrev pub giving : List ℕ → Machine → Machine
giving r v = record v { memory = given r v.memory }

-- vmm_destroy_address_space of an address space other than NULL and the kernel's, with a top table, gives
-- some pages to the page allocator and then frees the address space itself; these pages are the top
-- table and every table below one of its first 256 entries, over present entries, and no others.
pub vmm_destroy_address_space-Freed :
    (v : Machine) (p : ℕ)
    → p ≢ 0
    → p ≢ v.kernel_as
    → (v.memory.spaces p).pml4 ≢ 0
    → (r : List ℕ) × (vmm_destroy_address_space p v
        ≡ with_heap (kfree (some p) (heap_of (giving r v))) (giving r v))
      × ((t : ℕ) → Memᴰ t r ↔ UserTable v.memory.entry (v.memory.spaces p).pml4 t)
unfolding vmm_destroy_address_space vmm_free_page_table user_tables give_table give_all
vmm_destroy_address_space-Freed v p hp hk hr =
    let root = (v.memory.spaces p).pml4 in
    let entry = v.memory.entry in
    let guard : ((p == 0) || (p == v.kernel_as)) ≡ false = ground (arith, hp, hk) in
    let real : (root == 0) ≡ false = ground (arith, hr) in
    let loop =
      each_present-Gives entry free_pdp_table (trees entry 2) 256 (free_pdp_table-Gives entry) root
        v.memory refl in
    let freed : vmm_free_page_table root (each_present free_pdp_table 256 root v.memory)
        ≡ given (user_tables entry root) v.memory =
      rw real (
        ap (give_table root) loop
        ∙ ap (λ (b : Buddy). record v.memory { buddy = b })
            (sym
              (given-append (listed entry (trees entry 2) 256 root) (root ∷ []) v.memory.buddy))) in
    (
      user_tables entry root,
      rw guard (
          ap
            (λ (m : Memory).
              with_heap (kfree (some p) (heap_of (record v { memory = m })))
                (record v { memory = m }))
            freed),
      user_tables-UserTable entry root,
    )
