-- ===== src/Tests/Memmgr.antt =====
-- A fresh descriptor, and a program of two pages at 4 MiB.
use lun_os.Prelude.{◌≡◌, refl, arith, [], some, true, success}
use lun_os.Prelude.Words.{page_align_up, page_align_up_bounds}
use lun_os.Memmgr.{MemDescriptor, mm_setup_executable}
use lun_os.Memmgr.Layout.{Guarded, mm_setup_executable-Guarded}

abbrev fresh : MemDescriptor
fresh = record { space = 1; regions = []; brk = 0; mmap_base = 0; total_vm = 0; rss = 0 }

mm_setup_executable_example :
    (after : MemDescriptor) × (mm_setup_executable (λ i. true) fresh 0x40_0000 0x40_1000 0x40_1800
      ≡ some (success, after))
    × Guarded fresh 0x40_0000 0x40_1000 0x40_1800 (page_align_up 0x40_1800) after
mm_setup_executable_example =
    mm_setup_executable-Guarded fresh 0x40_0000 0x40_1000 0x40_1800 (λ i. true) (λ i h. refl) refl
      (omega arith) (omega arith) (omega (arith, page_align_up_bounds 0x40_1000 (omega arith)))
      (omega arith)
