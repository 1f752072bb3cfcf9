-- ===== src/Tests.antt =====
-- Runs of the modelled code at concrete inputs, and the theorems applied there.
mod Buddy
pub mod Vmm
mod Sync
mod Klib
mod Memmgr
pub mod Sched
mod Terminal
mod Descriptors
mod Slab
mod Kmalloc
mod Log
mod Apic
mod Interrupts
mod Smp
mod Tasks
mod Vfs
mod Tokens
