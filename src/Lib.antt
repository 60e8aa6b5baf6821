-- ===== src/Lib.antt =====
-- ObeliskOS: a verification library for the kernel's core.
--
-- The kernel is C code under kernel/. Modelled are its library of bitmaps and strings, the physical
-- memory manager, virtual memory, the message queues, the tables of open files, the segments of
-- shared memory, the red-black trees, the cache of disk blocks and the scheduler. The memory
-- manager hands out page frames; every other subsystem that holds memory takes it from there.
-- Virtual memory keeps the areas of a process, and the queues pass messages between processes.
--
-- Which file models what:
--   - Bitmap: kernel/lib/bitmap.c. Bitmap.Bits has the operations on one bit, Bitmap.Find the
--     searches (children: their loop and their laws), Bitmap.Range the operations on ranges and the
--     weight.
--   - Pmm: kernel/mm/pmm.c and kernel/mm/include/mm/pmm.h. Pmm.State has the globals of the file as
--     one record, Pmm.Bits the 32-bit bitmap of frames, Pmm.Alloc allocation and freeing,
--     Pmm.Region the memory map, the start-up state and the page metadata. Pmm.Invariant says what
--     right accounts are: zones lie in order and inside the bitmap, and each free count is the
--     number of clear bits. Pmm.Single, Pmm.Multi, Pmm.Marking and Pmm.Init hold the proofs, by
--     operation; Pmm.Metadata places the page array, and Pmm.Reachable is about every sequence of
--     calls.
--   - Vmm: kernel/mm/vmm.c. Vmm.Area has the sorted list of areas, Vmm.Pages the interface Mmu: the
--     operations that the file uses of the page tables, the page frames and the files, of which
--     nothing is assumed, Vmm.Unmap munmap, Vmm.Map mmap, Vmm.Heap brk, Vmm.Fault page faults and
--     mprotect, Vmm.User the checked copies, Vmm.Clone the copy that fork makes. The abstract
--     address space is `view` of Vmm.Area.Laws, a function from addresses; Vmm.Unmap.Refine and
--     Vmm.Map.Refine say what the calls do to it. Vmm.Fault.Laws says which accesses they make
--     fault. Vmm.Table is a small page table, for examples.
--   - MsgQueue: kernel/ipc/msgqueue.c and its header. MsgQueue.State has the data, MsgQueue.Table
--     the calls that create, find and destroy, MsgQueue.Message sending and receiving;
--     MsgQueue.Invariant the states that calls reach, MsgQueue.Api what callers see.
--   - CString: kernel/lib/string.c. A string is the list of bytes from the pointer on.
--   - Files: kernel/fs/file.c and the descriptor tables of kernel/proc/process.c. Files.State has
--     the files, Files.Reference their counts, Files.Descriptor the calls on the current process,
--     Files.Table the tables (Files.Table.Clone: the copy that fork makes), Files.Buffer the
--     copying helpers; Files.Invariant says when descriptors are safe.
--   - PageSource and Shm: kernel/ipc/shm.c. PageSource is what a user of the memory manager relies
--     on, Pmm.Source shows that the memory manager is one, Shm.Segment has the calls and Shm.Pages
--     their proofs, for every source of pages.
--   - RbTree: kernel/lib/rbtree.c. RbTree.Tree has the nodes and rotations, RbTree.Insert and
--     RbTree.Erase the calls, on a node and the way from it up to the root; RbTree.Order and
--     RbTree.Removal are about the order of the nodes, RbTree.Balance, RbTree.Rebalance and
--     RbTree.Kept about the colours; RbTree.Walk has the walks from node to node.
--   - BlockCache: kernel/fs/axiomfs/cache.c. BlockCache.Tree has its loops over the tree,
--     BlockCache.State the cache and its calls; BlockCache.Slots, BlockCache.Order,
--     BlockCache.Removal, BlockCache.Balance and BlockCache.Search show the tree to be a map from
--     block numbers, BlockCache.Entries and BlockCache.Invariant that the list and the tree agree,
--     and BlockCache.Lru is about the order in which entries go.
--   - Sched: kernel/proc/scheduler.c. Sched.State has the processes and the globals, Sched.Queue,
--     Sched.Pick and Sched.Policy the round-robin policy, Sched.Core the calls. Sched.Invariant
--     says what a right run queue is, Sched.Keep that every call keeps it; Sched.Choice,
--     Sched.Turns, Sched.Dead and Sched.Wakeup are about who runs, who waits and who wakes.
--   - Prelude, Tally and Word: lists, numbers, results, counting of positions, and binary digits.
--
-- How the code is read. The functions of a file become functions on an explicit state with the C
-- names. Unsigned words are natural numbers and keep their wrap-around (% 2 ^ w); ℤ stands for an
-- int where its sign matters. A kernel result is `ok` or `err` with the name of the error code. An
-- array is the list of its elements; the C code checks no index, so a read past the end gives 0 and
-- a write past it is lost here, and the theorems say where the array is long enough. Lock
-- operations have no effect in a model of one call at a time. Memory that a call allocates is one
-- Boolean argument: whether the allocator finds room; ticks and the calling process are arguments
-- too.
--
-- Loops are structural recursion, or carry fuel: the searches of Bitmap.Find run on the number of
-- words plus one, the loops of Bitmap.Range on nbits / 64 + 2 rounds, where each round but the
-- first takes 64 bits. The search for a gap in Vmm.Map has one round more than there are areas, the
-- loops over pages the number of pages, the eviction of blocks one round more than there are
-- entries. The laws about their results, which hold for every size, show that this fuel is enough.
--
-- Not modelled: printing, panics, device access, assembly, page tables and what they hold after a
-- call, and so far the file systems (but for open files and the block cache), attaching shared
-- memory, the kernel heap, destroying address spaces, and the system-call layer. Of the memory
-- manager, the start-up function pmm_init and the printed statistics are left out; of the
-- scheduler, the switch of registers and address spaces and the programming of the timer.
pub mod Prelude
pub mod Tally
pub mod Word
pub mod Bitmap
pub mod Pmm
pub mod MsgQueue
pub mod CString
pub mod Files
pub mod PageSource
pub mod Shm
pub mod Sched
pub mod Vmm
pub mod RbTree
pub mod BlockCache
