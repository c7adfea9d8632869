-- ===== src/Lib.antt =====
-- A verification library for the desiros kernel: an operating system kernel in C for 32-bit x86
-- machines. The boot loader loads the kernel, kernel.c starts its parts in order: the physical
-- pages, the page tables, the kernel's virtual memory, the slab allocator and kmalloc, then the
-- block devices and their partitions, the device file system, Ext2 and the virtual file system,
-- then processes, their address spaces and the system calls. This library models the parts below,
-- from the bottom up, and proves what makes each of them correct.
--
-- The parts, and where they are modelled:
--
--   Base - shared names; Boolean tests on numbers; lists of numbers with membership, distinctness
--   and removal (Base/Lists); 32-bit words with the alignment macros of include/macros.h and
--   include/physmem.h (Base/Words); byte-addressed memory (Base/Memory).
--   Ring - the circular lists of include/list.h, on a store that holds the two links of every
--   element. Segment says when the links from one element to another are a given sequence; the
--   other modules give the sequence that each macro makes. Transfer moves an element from one list
--   to another, as the users of the macros do.
--   Physmem - the page allocator, mem/physmem.c. Each page is free or used; `physmem_ref_physpage_new`,
--   `physmem_ref_physpage_at` and `physmem_unref_physpage` are `ref_physpage_new`, `ref_physpage_at`
--   and `unref_physpage`. Invariant states when the allocator is well formed; Setup and Reserved are
--   about `physmem_setup`, Reference and Release about the operations, Balance about one after the
--   other, and Runs about every history of them.
--   Paging - mem/paging.c over Physmem: `paging_map`, `paging_unmap`, `paging_unmap_interval` and
--   `paging_virtual_to_physical`. The directory maps itself in its last entry, so that one function
--   from page numbers to entries is the state of the page tables.
--   Kvmm - the lists of free and used ranges of kernel memory, mem/kvmm.c, over Paging and Physmem:
--   search, sorted insertion, the owner of an address, and the creation of the first ranges.
--   Uvmm - the address spaces of processes, mem/uvmm.c, over Paging. Uvmm.antt has the structures, the
--   statistics and the searches, Uvmm/Unmapping `uvmm_unmap` and `uvmm_delete_as`, Uvmm/Mapping
--   `uvmm_map`, Uvmm/Resizing `uvmm_resize`, `uvmm_brk` and page faults. Uvmm/View is the abstract view:
--   an address space is a partial function from addresses to places in resources. Cutting, Unmapped
--   and Interval are about `uvmm_unmap` in this view; Neighbours, Overlaid, Merging, Placed and Mapped
--   about `uvmm_map` at an imposed address; Usage about the statistics.
--   Klibc - the memory and string functions of klibc.c on Base/Memory.
--   Blockdev - block_dev.c. Registry and Registering are about the list of the devices, Reading and
--   Writing about the loops of `blockdev_generic_read` and `blockdev_generic_write`, Positions about
--   positions in blocks. A driver is a record of its two operations.
--   Vfs - vfs.c. Vfs.antt has the resolution of names, Vfs/Calls the calls on names. Names compares
--   the code's scan of a path with a reference that splits it at its slashes, Resolution proves that
--   `lookup` walks along the components, Calls/Opening and Calls/Mounting are about the calls. A
--   file system is a record of its operations, as in include/vfs.h.
--   Ext2 - fs/ext2/ext2_internal.c: the bitmaps of blocks (Ext2/Bitmaps) and the places of inodes on the
--   disk (Ext2/Inodes).
--   Devfs - fs/devfs.c: the table of drivers (Devfs/Drivers) and the listing of its directory
--   (Devfs/Directory).
--   Clock - clock.c: `clock_mktime` against a count of the days, year by year (Clock/Years) and month
--   by month (Clock/Dates).
--   Kwaitq, Ksynch - the wait queues of kwaitq.c, and the semaphores and mutexes of ksynch.c over them.
--   A function that may sleep or that switches to a woken process is two steps, before and after the
--   processor is given away; Kwaitq/Waking has what happens to the queues while a process sleeps as a
--   step relation, Ksynch/Semaphores the histories of a semaphore.
--   Schedule - schedule.c on the process table of include/process.h.
--
-- How state and operations correspond: a structure is a record with its fields' names, an
-- enumeration is a data type, and a function takes the state of its file and returns its result
-- with the new state. A pointer to a structure is its address; the lists that include/list.h links
-- through such structures are kept as sequences of addresses in all parts but Ring, which shows
-- that the macros act on the links as the sequences say. Results that the code encodes in numbers
-- are given by options or data types, as each file says. Messages to the console are left out.
--
-- Machine words: the counters and the addresses that the code computes in 32 or 64 bits are taken
-- modulo 2 ^ 32 or 2 ^ 64 as the code does, and the theorems state the bounds that keep them from
-- wrapping. Addresses in Klibc are natural numbers, for buffers that do not reach the end of the
-- address space.
--
-- Loops: a loop over a list or over a count is a recursion on it. A loop that ends by what it reads
-- takes fuel, and `none` is missing fuel: the list iterators get the length of the list, the string
-- functions one more than the length of the string, the loops of the block devices one more than the
-- length of the transfer, `lookup` one more than the length of the path, `uvmm_unmap` two more than the
-- number of arenas, and `clock_mktime` one more than the days beyond the month. The theorems show that this
-- is enough. The loop of `kwaitq_wakeup`, which need not end, takes any fuel.
--
-- Parameters: the answer of the allocators `kmalloc` and `kvmm_cache_alloc` is an argument or stands
-- in a list of answers to come, the callbacks of mapped resources and arenas are arguments or are
-- noted down as calls, what other processes do during a wake-up is an argument, the
-- content of a fresh block is an argument, the addresses of the kernel's image come from the linker script,
-- and the words of an interrupt's stack come from the processor.
--
-- Not modelled: the assembly files and what inline assembly does to the processor (switching of
-- stacks and of address spaces, port input and output), the console, the drivers of the disks and of
-- the PCI bus, the descriptor tables, and the boot loader's use of the BIOS; also the allocation and
-- deletion of kernel ranges after the start, the slab allocator and the caches of mem/uvmm.c, the
-- directories and the files of Ext2, the lookup and mounting of DevFS, partitions, the ELF loader, the system calls, and the
-- parsers of the boot loader. Of Clock, the corrections of negative fields are left out, but
-- for the one of the day 0.
pub mod Base
pub mod Blockdev
pub mod Clock
pub mod Devfs
pub mod Ext2
pub mod Klibc
pub mod Ksynch
pub mod Kvmm
pub mod Kwaitq
pub mod Paging
pub mod Physmem
pub mod Ring
pub mod Schedule
pub mod Uvmm
pub mod Vfs
