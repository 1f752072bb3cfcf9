-- ===== src/Vmm/Index.antt =====
-- The four table indices and the offset of a 48-bit address.
use lun_os.Prelude.{ℕ, ◌+◌, ◌-◌, ◌*◌, ◌/◌, ◌%◌, ◌^◌, ◌<◌, ◌≡◌, arith}
use lun_os.Prelude.Bits.{bit_and-mask}
use lun_os.Prelude.Words.{page_align_down, page_align_down_lem}
use lun_os.Vmm.{table_index, pml4_index, pdp_index, pd_index, pt_index, page_offset}

pub table_index_lem : (shift addr : ℕ) → table_index shift addr ≡ addr / 2 ^ shift % 512
unfolding table_index
table_index_lem shift addr = bit_and-mask 9 (addr / 2 ^ shift)

pub page_offset_lem : (addr : ℕ) → page_offset addr ≡ addr % 4096
unfolding page_offset
page_offset_lem addr = bit_and-mask 12 addr

-- The four indices of an address below 2 ^ 48 are below 512, and with the page offset they give the
-- address back.
pub index_fields :
    (addr : ℕ)
    → addr < 2 ^ 48
    → (pml4_index addr < 512)
      × (pdp_index addr < 512)
      × (pd_index addr < 512)
      × (pt_index addr < 512)
      × (pml4_index addr * 2 ^ 39
            + pdp_index addr * 2 ^ 30
            + pd_index addr * 2 ^ 21
            + pt_index addr * 2 ^ 12
            + page_offset addr
          ≡ addr)
unfolding pml4_index pdp_index pd_index pt_index
index_fields addr h = omega (
  arith,
  table_index_lem 39 addr,
  table_index_lem 30 addr,
  table_index_lem 21 addr,
  table_index_lem 12 addr,
  page_offset_lem addr,
)

-- Rounding an address down to its page changes none of its indices.
pub same_indices :
    (addr : ℕ)
    → addr < 2 ^ 64
    → (pml4_index (page_align_down addr) ≡ pml4_index addr)
      × (pdp_index (page_align_down addr) ≡ pdp_index addr)
      × (pd_index (page_align_down addr) ≡ pd_index addr)
      × (pt_index (page_align_down addr) ≡ pt_index addr)
unfolding pml4_index pdp_index pd_index pt_index
same_indices addr h = (
  at 39 (omega (arith, down)),
  at 30 (omega (arith, down)),
  at 21 (omega (arith, down)),
  at 12 (omega (arith, down)),
)
  where
    down : page_align_down addr ≡ addr - addr % 4096
    down = page_align_down_lem addr h

    at :
        (shift : ℕ)
        → page_align_down addr / 2 ^ shift ≡ addr / 2 ^ shift
        → table_index shift (page_align_down addr) ≡ table_index shift addr
    at shift e =
        omega (arith, table_index_lem shift addr, table_index_lem shift (page_align_down addr), e)
