-- ===== src/Lib.antt =====
-- A verification library for the LunOS kernel.
--
-- LunOS is a 64-bit x86 kernel that Limine loads. Its memory is handed out in powers of two of pages
-- by a buddy allocator, which the slab allocator, kmalloc and the page tables draw from. The virtual
-- memory manager keeps the page tables of each address space, and the memory descriptor of a task the
-- regions of that space. Locks and atomic words guard the state that the processors share, and a small
-- library serves the rest of the kernel.
--
-- The files, and the code that each is about (paths from the root of the repository):
--   Prelude: shared names, Boolean tests, lists, 64-bit words, and the bit operations as arithmetic.
--   Buddy: kernel/arch/x86_64/memory/buddy_allocator.c. The record Buddy is the table of arenas, and
--     populate_buddy_blocks, add_buddy_arena, buddy_alloc_pages and buddy_free_pages are the functions
--     of these names; Buddy/Cover says which bytes are free, Buddy/Valid and Buddy/Whole what a
--     well-formed arena and allocator are, and the others are about one operation each.
--   Slab: kernel/arch/x86_64/memory/slab_allocator.c and its header. The record Heap is the page
--     allocator, the slab headers by their address, the caches by their number, and the words of memory
--     that are read back; slab_create, slab_alloc, slab_free and the others bear the source's names, and
--     a list of slabs is a list of addresses. Slab/Valid says what a well-formed heap is.
--   Kmalloc: kernel/arch/x86_64/memory/pmm.c and its header, over Slab and Buddy.
--   Vmm: kernel/arch/x86_64/memory/vmm.c and kernel/include/kernel/vmm.h. The record Memory is
--     physical memory by page table entry, the allocator, and the address spaces; the walk, the mapping
--     functions and the translation bear the source's names. Vmm/Space adds the heap, and makes and
--     destroys address spaces.
--   Memmgr: kernel/kernel/memmgr/memmgr.c and its header. A descriptor is a record with the list of its
--     regions. It calls Vmm and Buddy to grow the stack and the heap; Memmgr/Lifetime makes and frees it.
--   Sync: kernel/include/kernel/atomic.h and spinlock.h. Each lock is a relation between the states of
--     any number of threads, one access to the lock's word at a time. Sync/Masked is one processor that
--     takes a spinlock with its interrupts off.
--   Ds: kernel/include/ds/lists.h. The list nodes of all lists are two functions from addresses to
--     addresses; a list is a ring of them.
--   Descriptors: kernel/arch/x86_64/gdt/gdt_init.c and idt/idt_init.c with their headers. The tables are
--     records of the structs' fields, with what the processor has loaded.
--   Framebuffer: kernel/arch/x86_64/drivers/framebuffer.c and tty_font.c. The memory of the screen is a
--     function from the number of a word to the word.
--   Terminal: kernel/kernel/console/tty/tty.c, over Framebuffer. The record Term is the module's static
--     variables, with the memory of the screen; Terminal/Roll has the roll of lines that it shows.
--   Sched: kernel/kernel/scheduler/scheduler.c, on the run queues that Ds describes.
--   Tasks: kernel/arch/x86_64/tasks/tasks.c and task_manager.c, over Ds and Sched. The record Kernel is
--     the scheduler, the tasks, the next process number and the counters of the processors.
--   Timer: kernel/arch/x86_64/timer/timer.c. What CPUID, the time stamp counter and the clock show is a
--     parameter, and the state is the calibration and the number of the next read.
--   Apic: kernel/arch/x86_64/interrupt_controllers/apic.c and its header, over Vmm, Timer and
--     Descriptors. The registers are the list of what was written to them; what the device shows after
--     some writes is a parameter.
--   Interrupts: kernel/arch/x86_64/interrupts/isr_handler.c, over Apic and Sched, and the port writes of
--     kernel/arch/x86_64/interrupt_controllers/pic.c. How the handler ends is a value.
--   Smp: kernel/arch/x86_64/smp/smp.c, over all of these and Tasks. A processor is named by its LAPIC id.
--   Dcache: kernel/kernel/filesystems/dentry_cache.c. A bucket is a list of dentries.
--   Vfs: kernel/kernel/filesystems/vfs.c and its header, over Dcache. The record Vfs is the reference
--     counts, parents and inodes, and the cache; a path is cut into its tokens before the walk, since
--     the cut depends on the path alone. Vfs/Objects adds the list nodes and names of dentries.
--     Vfs/Tokens relates the tokens to kstrtok_r of Klib/Tokens on memory.
--   Klib: kernel/kernel/klib, memory and string functions and the printing of numbers, over bytes.
--   Log: kernel/kernel/console/logging/klogging.c with kernel/include/kernel/bufferutils.h. The buffer
--     and the format are in the memory of Klib, the arguments are a list of words, and what is sent to
--     the terminal is a list of calls; the format loop has fuel for its turns.
--   Tests: runs at concrete inputs, and the theorems applied there.
--
-- Words are natural numbers with their wrap written out. A status of 0 or -1 is success or failure, and
-- a pointer that may be NULL is 0 or an option. A free block's list node stands for its address, since
-- the code writes the node into the block itself; a page table stands for its physical address, since
-- the code reaches it at a fixed offset. Messages to the log and the flushing of the TLB change no
-- state here, and a lock around an operation is left out of it: Sync treats the locks by themselves.
-- Where the code writes through a NULL that it does not test, past a block of kmalloc or past the cells of
-- the terminal, the model gives none. The lookup of a file system is a parameter that passes the state of
-- the virtual file system on, as it may make dentries and take references.
--
-- Loops that count are recursion on their count. The splitting of a block runs over the difference of
-- two orders; the merging of buddies and the search for the best order have fuel for every order; the
-- population of an arena has fuel for every page of it, and each turn takes a page at least. The loops
-- over a string have as fuel the bytes that they may look at, one more than the length, and give none
-- when it is spent. The choice of an order in kmalloc has fuel for 64 tests, and gives none when it
-- is spent: a page has 2 ^ 12 bytes, and 51 doublings make half the range of a 64-bit word. The digit
-- loops have fuel for 64 digits, as many as a 64-bit number has in base 2. The format loop of kvsprintf
-- has one turn more than there are pieces; the walk along a path has the tokens of the path.
-- The loops that wait for the clock or the counter have fuel for their reads: more than the reads in
-- which the clock is sure to change, and than the 10 ^ 8 cycles that a wait may last.
--
-- Not modelled: the assembly (interrupt stubs, context switch, table loads), the serial log, the order
-- of the other calls at boot and Limine's header, the ELF loader, which is empty, and the kernel's own
-- tests. The virtual file system's mount table, which nothing fills, is left out; so is
-- mm_page_fault_handler, which nothing calls and which works on a NULL descriptor.
pub mod Prelude
pub mod Buddy
pub mod Vmm
pub mod Sync
pub mod Klib
pub mod Memmgr
pub mod Ds
pub mod Framebuffer
pub mod Terminal
pub mod Sched
pub mod Dcache
pub mod Descriptors
pub mod Slab
pub mod Kmalloc
pub mod Log
pub mod Tasks
pub mod Timer
pub mod Apic
pub mod Interrupts
pub mod Smp
pub mod Vfs
pub mod Tests
