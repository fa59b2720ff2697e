-- ===== src/VmaAlloc.antt =====
-- The allocator of nodes, src/vma_alloc.c: blocks of nodes in superblocks, a pool of blocks for
-- each thread, and one pool of superblocks for the process.
pub mod Arena
pub mod Chain
pub mod Lists
pub mod Unlink
pub mod Superblocks
pub mod Ops
pub mod Valid
pub mod Take
pub mod Alloc
pub mod Give
pub mod Free
pub mod RoundTrip
pub mod Put
pub mod Nodes
pub mod Setup
pub mod Apart
pub mod Adopt
pub mod Steal
pub mod Stolen
pub mod Fetch
pub mod Leave
pub mod Return
pub mod Release
pub mod Last
pub mod Destroy
pub mod Whole
pub mod Failure
pub mod Grow
pub mod Grown
mod Tests
