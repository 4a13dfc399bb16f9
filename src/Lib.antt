-- ===== src/Lib.antt =====
-- Verification library for the Pintos kernel of this repository: its scheduler, its synchronization
-- primitives, and the parts of the file system, the virtual memory and the kernel library below.
--
-- Parts of the kernel and the files that model them:
--   FixedPoint   src/threads/fixed-point.c: 17.14 numbers on `int32_t`, wrap-around written out.
--   Threads      src/threads/thread.h and synch.h, and the static variables of src/threads/thread.c:
--                the record `Kernel`, with threads, semaphores and locks at addresses.
--   Bsd          src/threads/thread.c: load average, recent_cpu and priorities of the 4.4BSD scheduler.
--   Sched        src/threads/thread.c: thread_block, thread_unblock, thread_yield, thread_exit,
--                thread_tick, schedule and the choice of the next thread.
--   Synch        src/threads/synch.c: semaphores, locks and condition variables on the scheduler.
--   RwLock       src/threads/synch.c: the readers-writer lock, as a step relation on the points that its
--                threads are at and the values of its semaphores.
--   Donation     src/threads/thread.c: donate_priority, shed_priority, thread_set_priority.
--   Timer        src/devices/timer.c: timer_sleep, and the interrupt that ticks and wakes sleepers.
--   KernelList   src/lib/kernel/list.c: doubly linked lists, with their links in memory.
--   HashTable    src/lib/kernel/hash.c: hash tables with chains, their growth and shrinking, and
--                hashes of keys.
--   Bitmap       src/lib/kernel/bitmap.c: arrays of bits in 32-bit words.
--   Division     src/lib/arithmetic.c: 64-bit division and remainder, unsigned and signed.
--   Strings      src/lib/string.c: blocks and null-terminated strings in memory.
--   Cache        src/filesys/cache.c: lookup, clock eviction, reads and writes of the block cache, with
--                the check of src/devices/block.c that a sector is on the device.
--   Inode        src/filesys/inode.c: reading and writing files, and the table of open inodes, over
--                the interface `BlockCache` of what src/filesys/cache.c offers.
--   FreeMap      src/filesys/free-map.c, and the operations of src/filesys/inode.c that take sectors
--                from it and give them back: inode_create and inode_close.
--   File         src/filesys/file.c: open files with their positions, on the inodes.
--   Directory    src/filesys/directory.c: directories as files of entries.
--   Filesys      src/filesys/filesys.c: files by their names in the root directory, and the opening and
--                closing of directories.
--   Swap         src/vm/swap.c: the stack of open swap slots and the pages on the device, with the
--                check of src/devices/block.c.
--   Intq         src/devices/intq.c: the ring buffer between interrupt handlers and threads.
--   Common       shared helpers; Tests, the theorems at concrete inputs.
--
-- Functions and fields keep their names. `Sched` and `Synch` act on one `Kernel`: a semaphore blocks
-- and wakes threads through `Sched`, a lock goes through its semaphore, and a condition variable
-- through a lock and a semaphore for each waiter. State is passed on explicitly; `none` is a panic, a
-- failed `ASSERT`, a fault or a trap. An operation that sleeps ends at the switch to the next thread,
-- and the state then is the next thread's; the part after the sleep is a function of its own.
-- Interrupts are off inside the modelled code where the source turns them off, so that its steps do
-- not interleave there. `Timer` acts on the same `Kernel`, each sleeper on a semaphore of its own.
-- `Filesys` goes through `File`, `FreeMap` and `Directory`, and these read and write through `Inode`,
-- which takes the cache as an argument. An intrusive list is the list of the addresses that it links;
-- `KernelList` has the links themselves.
--
-- Bounds and fuel: the loops over arrays recurse on the iterations that are left. The loop along
-- awaited locks runs on fuel, enough from the rank of the running thread on; the loops to a null byte
-- run on fuel, enough from the length of the string and one on; the clock of the block cache has fuel
-- for two rounds and a turn, which one free block makes enough; `inode_read_at` and
-- `inode_write_at` take at most one turn for each byte and one more. The loops along a linked list
-- have enough fuel from its length and one on, and those over a directory from the number of its
-- slots and one on. Pointers do not wrap round.
--
-- Not modelled: hardware registers and assembly, boot code, formatted output, user programs and
-- tests. The daemons of the block cache and its fetch list have no model, and inodes use the cache
-- through an interface of their own. The memory that `malloc` returns is a parameter, and so is
-- whether it returns any. cond_broadcast has no model, since other threads run between its signals.
-- The formatting and the start of the file system, the virtual memory's pages and frames, processes,
-- system calls, the page and block allocators, thread creation and iteration over hash tables have no
-- model here.
pub mod Common
pub mod FixedPoint
pub mod Threads
pub mod Bsd
pub mod Sched
pub mod Synch
pub mod Donation
pub mod Bitmap
pub mod Strings
pub mod Inode
pub mod Swap
pub mod Intq
pub mod Tests
pub mod Cache
pub mod Division
pub mod KernelList
pub mod Timer
pub mod RwLock
pub mod Directory
pub mod HashTable
pub mod FreeMap
pub mod File
pub mod Filesys
