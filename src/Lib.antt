-- ===== src/Lib.antt =====
-- OpenOOC, a library for out-of-core computing: memory areas that are larger than the memory, with
-- page faults served by the library.
--
-- The program keeps every area that it manages as a `struct vm_area` (src/common.h) in a splay tree
-- (src/sp_tree.c). The tree's nodes come from an allocator of blocks (src/vma_alloc.c);
-- `ooc_malloc` (src/malloc.c) puts areas into the tree, and the fault handler (src/sched.c) looks
-- faulting addresses up in it. apps/mm.c is an application.
--
-- Base: shared names, Boolean tests, arrays, and `Run`: the outcome of C code, where a failed
--   `assert` and an access through NULL are `fault`.
-- VmArea: the store. Each field of `struct vm_area` is an array indexed by the address of the
--   struct; address 0 is NULL, address 1 the local variable `n` of `S_sp_tree_splay`, and nodes
--   have addresses above 1. The calls of the locks are recorded in order.
-- Bits: `&` and `~` on words, and what the masks of powers of two do.
-- VmaPool: `vma_alloc` and `vma_free`, as the tree sees them. The tree takes them as parameters,
--   apart from the model of src/vma_alloc.c: they are total here, and that they do not fail stands
--   in the theorems on VmaAlloc, for the nodes that come from there.
-- SpTree: `MAKE_CHILD` and `S_sp_tree_splay` of src/sp_tree.c.
-- SpTree/Ops: the list macros, `S_sp_node_init`, `S_sp_node_free`, `sp_tree_init`,
--   `sp_tree_insert`, `sp_tree_remove`, `sp_tree_free` and `sp_tree_find_and_lock`, with their
--   helpers.
-- SpTree/Merge and SpTree/FindMod: `sp_tree_find_mod_and_lock`. `page` is OOC_PAGE_SIZE, which the
--   system sets.
-- SpTree/Shape and SpTree/Linked: where a search tree stands in the store, and where a list does;
--   SpTree/Valid puts them together. The other modules below SpTree have the proofs, and
--   SpTree/Tests runs on concrete stores.
-- Malloc: `ooc_malloc` and `ooc_free` of src/malloc.c, with the calls of the system as parameters;
--   pointers wrap around at 64 bits there. Malloc/Align, Malloc/Insert and Malloc/Failure have the
--   proofs, and Malloc/Tests runs on concrete processes.
-- VmaAlloc: src/vma_alloc.c. VmaAlloc/Arena has the state (each field of `struct block`, `struct
--   superblock` and the pools as an array over addresses or threads) and the locks, VmaAlloc/Chain
--   the steps on doubly linked lists, VmaAlloc/Superblocks the superblocks, and VmaAlloc/Ops the
--   functions from `S_block_steal_and_lock` to `vma_gpool_gather`. VmaAlloc/Lists and
--   VmaAlloc/Unlink tell what lists hold, VmaAlloc/Valid has the invariant of blocks and pools, and
--   VmaAlloc/Tests runs on concrete stores. The proofs: VmaAlloc/Take and VmaAlloc/Alloc for
--   `vma_alloc` from a block of the thread; VmaAlloc/Adopt, VmaAlloc/Steal, VmaAlloc/Stolen and
--   VmaAlloc/Fetch from a listed superblock; VmaAlloc/Nodes, VmaAlloc/Setup, VmaAlloc/Apart,
--   VmaAlloc/Grow and VmaAlloc/Grown from a new one; VmaAlloc/Failure without memory; VmaAlloc/Give
--   and VmaAlloc/Free for `vma_free` where the block stays with its thread; VmaAlloc/Leave,
--   VmaAlloc/Return, VmaAlloc/Release and VmaAlloc/Last where it goes back; VmaAlloc/Destroy and
--   VmaAlloc/Whole where its superblock goes too; VmaAlloc/RoundTrip and VmaAlloc/Put for both
--   together and for a superblock that goes.
-- Sched: src/sched.c. Sched/Handler has the fault handler, on the tree, with `mprotect` as a
--   parameter; Sched/Fibers has the set-up and the scheduler, with `sigaction`, `getcontext` and
--   the runs of the kernels as parameters. Sched/Faults, Sched/Twice and Sched/Dispatch have the
--   proofs, and Sched/Tests runs on concrete states.
-- Mm: the kernel of apps/mm.c, with its proof in Mm/Row and a run in Mm/Tests.
-- Aio: src/aio.c, with the calls of the system as parameters; Aio/Cancel has the proof and
--   Aio/Tests a run.
-- Bench: the benchmark. Bench/Micro has the passes of bench/micro.c over an array of `unsigned`,
--   with the random order, the elapsed time and what bench/impl/libc.c does to the elements, and
--   Bench/Options its command line. Bench/Io is
--   bench/impl/io.c, Bench/Sbma bench/impl/sbma.c and Bench/Libc bench/impl/libc.c, with the calls
--   of the system as parameters. The proofs on Micro: Micro/Elapsed, Micro/Order, Micro/Passes,
--   Micro/Undo and Micro/Recheck (the check behind the update), and Micro/Whole. Io/Transfer tells
--   what the loops over `read` and `write` move, Io/Load puts both together, and Io/Ghost has what
--   the loop leaves of the size; Io/Tiny is a system to run them on. Sbma/Tracked has the invariant of flags and protections, Sbma/Fault one
--   fault, Sbma/Hardware an access with its faults, Sbma/Flush the flush, and Sbma/Session any
--   order of them. Libc/Fetch and Options/Mask have the other proofs; the Tests below each run on
--   concrete states.
--
-- The loop of the splay runs on fuel, and so does that of `sp_tree_free`; the theorems ask for one
-- unit for each node of the tree, and show that no more is needed. Addresses are natural numbers
-- without a bound in the tree, which compares them and adds the size of a page.
--
-- The loops over blocks and nodes in the allocator are structural, on the passes that are left. The
-- endless loop of `ooc_sched` runs on fuel; one pass is enough, since an idle fiber is always
-- found. The loops over `read` and `write` in the benchmark run on fuel; one unit for each byte is
-- enough where each call moves a byte. Counters of the allocator wrap around at 64 bits.
--
-- Not modelled: the blocking of locks, that is, other threads (the locks' calls are recorded, and
-- in the allocator a list tells which of them find the lock taken); faults that happen while a
-- kernel runs, since the handler and the kernels are separate parts of the model; `vma_gpool_show`,
-- which prints; what a request that is posted leads to later; and of the benchmark the output, the
-- times and the flush of the processor's caches. The old scheduler and tmp.c are in no build.
pub mod Aio
pub mod Base
pub mod Bench
pub mod Bits
pub mod VmArea
pub mod VmaPool
pub mod SpTree
pub mod VmaAlloc
pub mod Malloc
pub mod Sched
pub mod Mm
