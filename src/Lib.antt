-- ===== src/Lib.antt =====
-- A verification library for UTK, a kernel for i386.
--
-- UTK's containers carry the rest of the kernel: the growable array and the hash table of
-- Kernel/Sources/lib/libstruct and the doubly linked queue of Kernel/Sources/core, in which
-- scheduler.c keeps its threads, memmgt.c the free memory and futex.c its waiting lists; on the futex
-- stand the mutex and the semaphore of Kernel/Sources/lib/libapi. Each part has a file named for it,
-- with child files for what is proved of it:
--
--   Prelude      lists, tests and options; `Error` for OS_RETURN_E
--                (Kernel/Sources/lib/libapi/includes/kernel_error.h); `Run`, the outcome of code: a
--                value, a memory fault, a panic (a failed kernel assertion) or no end
--   Memory       the allocator that a client hands to a container, blocks of words, memcpy
--   Vector       Kernel/Sources/lib/libstruct/src/vector.c
--   UHashtable   Kernel/Sources/lib/libstruct/src/uhashtable.c
--   KQueue       Kernel/Sources/core/src/kqueue.c
--   Sequence     what a queue is to its clients: the sequence of its nodes; Sequence/Refinement.antt
--                has the calls of KQueue do what the operations on the sequence say
--   Queue        Kernel/Sources/lib/libstruct/src/queue.c, by its agreement with KQueue
--   Scheduler    Kernel/Sources/core/src/scheduler.c, on sequences
--   MemoryManager  Kernel/Sources/arch/cpu/i386/src/memmgt.c: the lists of free frames and pages, and
--                the references to frames, on sequences
--   Threads      threads that share memory, and mutual exclusion for any code that keeps a lock: the
--                interface `Locking`, which Mutex and Semaphore fill
--   Mutex        Kernel/Sources/lib/libapi/src/mutex.c
--   Semaphore    Kernel/Sources/lib/libapi/src/semaphore.c
--   Interrupts   Kernel/Sources/core/src/interrupts.c and exceptions.c
--   Numbers      Kernel/Sources/lib/libc/src/udivmoddi4.c, uitoa.c and itoa.c
--   Ustar        Kernel/Sources/fs/src/ustar_fs.c: reading a file, and going on to the next one
--   Tests        concrete runs
--
-- A function of the model has the name of the C function. It takes the structure, and the heap or
-- the store of nodes, and returns them as they are afterwards, beside the result; a pointer that
-- may be NULL is an `Option`, or address 0 for a node. A helper with a name of its own is a loop or
-- the rest of a function after a call. Debug output is left out.
--
-- Sizes and counters are 32-bit and wrap; `% 2 ^ 32` is written out. The allocator of Vector and
-- UHashtable is a parameter, a record with a heap of any type: `malloc` may fail whenever it likes.
-- In KQueue the heap is the map from addresses to nodes.
--
-- Loops. The loops of vector.c run over counted ranges. A probing loop of uhashtable.c gets as many
-- rounds as the table has cells: it changes nothing on its way, so one that has seen every cell
-- and not stopped goes round for ever, and `endless` is the outcome of exactly those runs. The
-- loops of kqueue.c get one round more than the size counter; `IsQueue` says that the counter is at
-- least the number of nodes, and with it the theorems show that the rounds are enough.
--
-- Mutex and Semaphore model interleavings. A thread stands at a `Point` of the code; its next step
-- is an access of the shared structure or a system call. `Step` of Threads lets any thread go on,
-- and the kernel answer any system call with anything, so a wait on the futex may end whenever it
-- likes. `Calls` says what a thread may call: one that has the lock calls mutex_unlock and nothing else,
-- and a recursive call of the locker ends the run of its thread. A loop is a cycle of points and needs no fuel. What semaphore.c does between taking and
-- opening its spinlock is one step, which `inside` of Semaphore/Spinlock.antt justifies.
--
-- The floating-point bounds of uhashtable.c are rationals: 0.7f is 11744051 / 2^24 and 0.3f is
-- 10066330 / 2^25, and the products and conversions are exact while the capacity is a power of two
-- and the compared sums are below 2^24. Growth theorems of Vector ask for a capacity below 2^29, so
-- that the bytes of the doubled array do not wrap.
--
-- Scheduler names a thread by the node that the scheduler has for it, and the active and the idle
-- thread by theirs. `IsSched` says between two calls of the scheduler where the nodes stand: in the
-- queue that the state of the thread names, but for that of the active thread. The sleepers are sorted by
-- the low 32 bits of their times, which is all that the priority of a node can hold. The time that
-- time_get_current_uptime gives is an argument, and cpu_raise_interrupt, which sched_schedule calls, is
-- the handler schedule_int. The loop that wakes the sleepers gets one round more than there are
-- sleepers, which is enough because each round but the last takes one out.
--
-- In MemoryManager a node of a list is kept together with its range. `IsPool` says that the ranges fall
-- from the head to the tail and that none meet, with the base of each for its priority: the boot code
-- sets the base of one node and not its priority, which the first block that is taken from its
-- beginning mends. `allocated` is whether kmalloc gives a node and a range.
--
-- The first loop of __udivmoddi4 gets 64 rounds and the second 65, the last one for its test; a bit of
-- 64 allows no more. The buffer of uitoa has 128 places, and no more rounds than those can be made
-- without a fault.
--
-- In Interrupts the driver is the two functions that interrupts.c reads answers from. The thread
-- context that kernel_interrupt_handler saves is left out.
--
-- In Ustar a header block is its 512 bytes, and a disk the bytes of the partition. `Serves` and `Ends` say
-- what the read_blocks of a device does within its bytes and beyond them. The blocks of the device are
-- multiples or fractions of 512 bytes, and the disk is below 2^32 bytes, so that no address wraps. A loop
-- of ustar_get_next_file gets as many rounds as there are blocks: each goes on by one block at least when
-- the data of every file lies on the disk, which `IsArchive` says.
--
-- Not modelled: in scheduler.c the creation, end, join and fork of threads and processes; in memmgt.c
-- the boot code, and the page tables, which are written through a recursive mapping; in
-- ustar_fs.c the search, the writing, the renaming and the listing of files; the other components of the kernel, the assembly and the drivers of the hardware.
pub mod Prelude
pub mod Memory
pub mod Vector
pub mod UHashtable
pub mod KQueue
pub mod Sequence
pub mod Queue
pub mod Scheduler
pub mod MemoryManager
pub mod Threads
pub mod Mutex
pub mod Semaphore
pub mod Numbers
pub mod Ustar
pub mod Interrupts
mod Tests
