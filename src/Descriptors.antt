-- ===== src/Descriptors.antt =====
-- The descriptor tables: kernel/arch/x86_64/gdt/gdt_init.c and idt/idt_init.c with their headers. What is
-- loaded into the processor is part of the state; the calls of init_idt for the PICs, pic_remap and
-- disable_pic of Interrupts, touch none of it and are left out.
pub mod Fields
use lun_os.Prelude.{ℕ, zero, suc, ◌-◌, ◌*◌, ◌/◌, ◌%◌, ◌^◌, bit_and, ltb, ◌==◌, if◌then◌else◌}

-- struct idt_entry_t
pub record Gate : Type 0 where
  pub isr_low : ℕ
  pub kernel_cs : ℕ
  pub ist : ℕ
  pub attributes : ℕ
  pub isr_mid : ℕ
  pub isr_high : ℕ
  pub reserved : ℕ

abbrev pub idt_size : ℕ
idt_size = 256

-- struct idt_ptr and struct gdt_ptr
pub record TablePtr : Type 0 where
  pub limit : ℕ
  pub base : ℕ

-- The table, idtr, and what the processor has loaded.
pub record Idt : Type 0 where
  pub entry : ℕ → Gate
  pub idtr : TablePtr
  pub loaded : TablePtr

abbrev pub no_gate : Gate
no_gate = record {
  isr_low = 0;
  kernel_cs = 0;
  ist = 0;
  attributes = 0;
  isr_mid = 0;
  isr_high = 0;
  reserved = 0;
}

-- The entry's number is a byte.
unfoldable pub create_gate_entry : ℕ → ℕ → ℕ → ℕ → Idt → Idt
create_gate_entry entry_index handler_addr seg_selector attributes s =
    let gate : Gate = record {
      isr_low = bit_and handler_addr 0xFFFF;
      isr_mid = bit_and (handler_addr / 2 ^ 16) 0xFFFF;
      isr_high = bit_and (handler_addr / 2 ^ 32) 0xFFFF_FFFF;
      kernel_cs = seg_selector;
      ist = 0;
      attributes = attributes;
      reserved = 0;
    } in
    record s { entry = λ i. if i == entry_index then gate else s.entry i }

-- The first `n` of the calls for isr0 to isr31.
unfoldable pub create_gates : (ℕ → ℕ) → ℕ → Idt → Idt
create_gates isr zero s = s
create_gates isr (suc i) s = create_gate_entry i (isr i) 0x08 0x8E (create_gates isr i s)

unfoldable pub reload_idt : Idt → Idt
reload_idt s = record s { loaded = s.idtr }

-- `idt` is the address of the table.
unfoldable pub init_idt : ℕ → (ℕ → ℕ) → Idt → Idt
init_idt idt isr s =
    let cleared = record s {
      idtr = record { limit = idt_size * 16 - 1; base = idt };
      entry = λ i. if ltb i idt_size then no_gate else s.entry i;
    } in
    reload_idt (create_gates isr 32 cleared)

-- struct gdt_entry
pub record GdtEntry : Type 0 where
  pub limit_lower : ℕ
  pub base_lower : ℕ
  pub base_middle : ℕ
  pub access : ℕ
  pub granularity : ℕ
  pub base_higher : ℕ

-- struct tss_descriptor
pub record TssDescriptor : Type 0 where
  pub limit_lower : ℕ
  pub base_lower : ℕ
  pub base_middle : ℕ
  pub access : ℕ
  pub granularity : ℕ
  pub base_high : ℕ
  pub base_upper : ℕ
  pub reserved : ℕ

-- struct global_descr_table; gdtr; what reload_gdt loads; the task register. All of the task state
-- segment is 0.
pub record Gdt : Type 0 where
  pub entries : ℕ → GdtEntry
  pub tss_desc : TssDescriptor
  pub gdtr : TablePtr
  pub loaded : TablePtr
  pub task_register : ℕ

-- sizeof(struct task_state_seg) and sizeof(struct global_descr_table)
abbrev pub task_state_seg_size : ℕ
task_state_seg_size = 104

abbrev pub global_descr_table_size : ℕ
global_descr_table_size = 56

-- `addr` is the address of the task state segment.
unfoldable pub load_tss : ℕ → Gdt → Gdt
load_tss addr s = record s {
  tss_desc = record {
    limit_lower = task_state_seg_size - 1;
    base_lower = bit_and addr 0xFFFF % 2 ^ 16;
    base_middle = bit_and (addr / 2 ^ 16) 0xFF % 2 ^ 8;
    access = 0x89;
    granularity = 0;
    base_high = bit_and (addr / 2 ^ 24) 0xFF % 2 ^ 8;
    base_upper = addr / 2 ^ 32 % 2 ^ 32;
    reserved = 0;
  };
  task_register = 40;
}

abbrev pub no_entry : GdtEntry
no_entry = record {
  limit_lower = 0;
  base_lower = 0;
  base_middle = 0;
  access = 0;
  granularity = 0;
  base_higher = 0;
}

unfoldable pub set_gdt_entry : ℕ → ℕ → ℕ → Gdt → Gdt
set_gdt_entry index access granularity s =
    let entry = record no_entry { access = access; granularity = granularity } in
    record s { entries = λ i. if i == index then entry else s.entries i }

-- `gdt` and `tss` are the addresses of the table and of the task state segment.
unfoldable pub init_gdt : ℕ → ℕ → Gdt → Gdt
init_gdt gdt tss s =
    let filled = set_gdt_entry 4 0xF2 0 (
      set_gdt_entry 3 0xFA 0x20
        (set_gdt_entry 2 0x92 0 (set_gdt_entry 1 0x9A 0x20 (set_gdt_entry 0 0 0 s)))) in
    let ptr : TablePtr = record { limit = global_descr_table_size - 1; base = gdt } in
    load_tss tss record filled { gdtr = ptr; loaded = ptr }
