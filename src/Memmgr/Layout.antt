-- ===== src/Memmgr/Layout.antt =====
-- The address space that mm_setup_executable lays out.
use lun_os.Prelude.{
  ℕ, ◌+◌, ◌^◌, ◌≤◌, ◌<◌, ◌≡◌, refl, ◌∙◌, arith, List, [], ◌∷◌, true, false, ◌==◌, if◌then◌else◌,
  some, bit_and, bit_or, add64, sub64, Bool, success, leb,
}
use lun_os.Prelude.Words.{page_align_up, page_align_up_bounds}
use lun_os.Memmgr.{
  MemRegion, MemDescriptor, find_in, mm_find_region, mm_check_access, mm_setup_executable, rp_read,
  rp_write,
}

-- The regions, the last one added first, with the heap from `h` on.
abbrev laid_out : ℕ → ℕ → ℕ → ℕ → ℕ → List MemRegion
laid_out code_start code_end data_start data_end h =
    record { start = 0x7FFF_FF80_0000; end = 0x7FFF_FFFF_FFFF; flags = 19 }
    ∷ record { start = 0x7FFF_FF7F_F000; end = 0x7FFF_FF7F_FFFF; flags = 0 }
    ∷ record { start = h + 0x4000_0000; end = h + 0x4000_0FFF; flags = 0 }
    ∷ record { start = h; end = h + 0x3FFF_FFFF; flags = 11 }
    ∷ record { start = data_start; end = data_end; flags = 3 }
    ∷ record { start = code_start; end = code_end; flags = 5 }
    ∷ []

check_found :
    (mm : MemDescriptor) (a flags : ℕ) (r : MemRegion)
    → find_in mm.regions a ≡ some r
    → mm_check_access mm a flags ≡ (if r.flags == 0 then false else bit_and r.flags flags == flags)
unfolding mm_check_access mm_find_region
check_found mm a flags r e = rw (e, mm_check_access, mm_find_region) refl

module _ (mm : MemDescriptor) (code_start code_end data_end : ℕ) where
  -- The descriptor afterwards.
  done : MemDescriptor
  done = record mm {
    regions =
        laid_out code_start code_end (page_align_up code_end) data_end (page_align_up data_end);
    brk = page_align_up data_end;
  }

  setup :
      (memory : ℕ → Bool)
      → ((i : ℕ) → i < 6 → memory i ≡ true)
      → mm.regions ≡ []
      → code_start < code_end
      → page_align_up code_end < data_end
      → data_end ≤ 2 ^ 46
      → mm_setup_executable memory mm code_start code_end data_end ≡ some (success, done)
  unfolding mm_setup_executable done
  setup memory given fresh code some_data low =
      let (above, below, _) = page_align_up_bounds data_end (omega arith) in
      let h = page_align_up data_end in
      let heap_end : sub64 (add64 h 0x4000_0000) 1 ≡ h + 0x3FFF_FFFF = omega arith in
      let guard_start : add64 (h + 0x3FFF_FFFF) 1 ≡ h + 0x4000_0000 = omega arith in
      let guard_end : add64 (h + 0x3FFF_FFFF) 4096 ≡ h + 0x4000_0FFF = omega arith in
      let q0 : leb code_end code_start ≡ false = ground (arith, code) in
      let q1 : leb data_end (page_align_up code_end) ≡ false = ground (arith, some_data) in
      let q2 : leb (h + 0x3FFF_FFFF) h ≡ false = ground arith in
      let q3 : leb (h + 0x4000_0FFF) (h + 0x4000_0000) ≡ false = ground arith in
      rw (heap_end, guard_start, guard_end, q0, given 0 (omega arith), mm_setup_executable)
        (rw (q1, given 1 (omega arith), mm_setup_executable)
          (rw (q2, given 2 (omega arith), mm_setup_executable)
            (rw (q3, given 3 (omega arith), mm_setup_executable)
              (rw (given 4 (omega arith), mm_setup_executable)
                (rw (given 5 (omega arith), fresh, mm_setup_executable) refl)))))

  -- Access to the laid-out space, with the heap from `h` on.
  pub record Guarded (h : ℕ) (after : MemDescriptor) : Type 0 where
    pub stack :
        (a : ℕ)
        → 0x7FFF_FF80_0000 ≤ a
        → a ≤ 0x7FFF_FFFF_FFFF
        → mm_check_access after a (bit_or rp_read rp_write) ≡ true
    pub stack_guard :
        (a flags : ℕ)
        → 0x7FFF_FF7F_F000 ≤ a
        → a < 0x7FFF_FF80_0000
        → mm_check_access after a flags ≡ false
    pub heap :
        (a : ℕ)
        → h ≤ a
        → a < h + 0x4000_0000
        → mm_check_access after a (bit_or rp_read rp_write) ≡ true
    pub heap_guard :
        (a flags : ℕ)
        → h + 0x4000_0000 ≤ a
        → a < h + 0x4000_1000
        → mm_check_access after a flags ≡ false
    pub code_not_written :
        (a : ℕ) → code_start ≤ a → a < code_end → mm_check_access after a rp_write ≡ false
    pub brk : after.brk ≡ h

  -- Where kmalloc has memory at each of the six calls, in a descriptor without regions, given code and
  -- data in this order below 2 ^ 46, mm_setup_executable succeeds and lays out a stack and a heap that may be read and written throughout, each with
  -- a page beside it that no access is allowed to, and code that may not be written; the heap starts
  -- at the page after the data, where the break is.
  pub mm_setup_executable-Guarded :
      (memory : ℕ → Bool)
      → ((i : ℕ) → i < 6 → memory i ≡ true)
      → mm.regions ≡ []
      → code_start < code_end
      → code_end ≤ 2 ^ 46
      → page_align_up code_end < data_end
      → data_end ≤ 2 ^ 46
      → (after : MemDescriptor) × (mm_setup_executable memory mm code_start code_end data_end
          ≡ some (success, after))
        × Guarded (page_align_up data_end) after
  unfolding find_in done
  mm_setup_executable-Guarded memory given fresh code code_low some_data low =
      let (above, below, _) = page_align_up_bounds data_end (omega arith) in
      let (above_code, _, _) = page_align_up_bounds code_end (omega arith) in
      let h = page_align_up data_end in
      (
        done,
        setup memory given fresh code some_data low,
        record {
          stack = λ a f g. access a 3 (stack_region) (ground (arith, f, g)) ∙ refl;
          stack_guard = λ a flags f g. access a flags guard_region (ground (arith, f, g)) ∙ refl;
          heap = λ a f g. access a 3 heap_region (ground (arith, f, g, above, below)) ∙ refl;
          heap_guard = λ a flags f g.
              access a flags heap_guard_region (ground (arith, f, g, above, below)) ∙ refl;
          code_not_written =
              λ a f g. access a 2 code_region (ground (arith, f, g, above, above_code)) ∙ refl;
          brk = refl;
        },
      )
    where
      all : List MemRegion
      all = laid_out code_start code_end (page_align_up code_end) data_end (page_align_up data_end)

      access :
          (a flags : ℕ) (r : MemRegion)
          → find_in all a ≡ some r
          → mm_check_access done a flags
            ≡ (if r.flags == 0 then false else bit_and r.flags flags == flags)
      access a flags r e = check_found done a flags r e

      stack_region : MemRegion
      stack_region = record { start = 0x7FFF_FF80_0000; end = 0x7FFF_FFFF_FFFF; flags = 19 }

      guard_region : MemRegion
      guard_region = record { start = 0x7FFF_FF7F_F000; end = 0x7FFF_FF7F_FFFF; flags = 0 }

      heap_guard_region : MemRegion
      heap_guard_region = record {
        start = page_align_up data_end + 0x4000_0000;
        end = page_align_up data_end + 0x4000_0FFF;
        flags = 0;
      }

      heap_region : MemRegion
      heap_region = record {
        start = page_align_up data_end;
        end = page_align_up data_end + 0x3FFF_FFFF;
        flags = 11;
      }

      code_region : MemRegion
      code_region = record { start = code_start; end = code_end; flags = 5 }
