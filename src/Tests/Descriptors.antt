-- ===== src/Tests/Descriptors.antt =====
-- A table at 0x5000, over one that holds nothing.
use lun_os.Prelude.{arith}
use lun_os.Descriptors.{Idt, TablePtr, no_gate}
use lun_os.Apic.{start_idt}
use lun_os.Apic.Vector.{IsWired, start_idt-IsWired}

abbrev none_loaded : TablePtr
none_loaded = record { limit = 0; base = 0 }

abbrev idt_before : Idt
idt_before = record { entry = λ i. no_gate; idtr = none_loaded; loaded = none_loaded }

start_idt-IsWired_example :
    IsWired 0x5000 (λ n. 0x12345678) 64 (start_idt 0x5000 (λ n. 0x12345678) idt_before)
start_idt-IsWired_example =
    start_idt-IsWired 0x5000 (λ n. 0x12345678) idt_before 64 (λ n. omega arith) (omega arith)
