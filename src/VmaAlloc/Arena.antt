-- ===== src/VmaAlloc/Arena.antt =====
-- The state of src/vma_alloc.c, its sizes, and its locks.
use open_ooc.Base.{ℕ, ◌-◌, ◌/◌, Bool, false, if◌then◌else◌, List, [], ◌∷◌, upd, add64}
use open_ooc.VmArea.{area_size}

-- `BLOCK_SIZE`, `SUPERBLOCK_SIZE`, and `sizeof(struct block)` with 4 bytes for its lock.
abbrev pub block_size : ℕ
block_size = 4096

abbrev pub superblock_size : ℕ
superblock_size = 262144

abbrev pub block_header : ℕ
block_header = 64

abbrev pub block_ctr_full : ℕ
block_ctr_full = (block_size - block_header) / area_size

abbrev pub superblock_ctr_full : ℕ
superblock_ctr_full = (superblock_size - block_size) / block_size

-- A lock, by the struct that holds it.
pub data PoolLock : Type 0 where
  block_lock : ℕ → PoolLock
  superblock_lock : ℕ → PoolLock
  mpool_lock : ℕ → PoolLock
  gpool_lock : PoolLock

pub data PoolCall : Type 0 where
  lock_init lock_free lock_get lock_let : PoolLock → PoolCall
  sys_freed : ℕ → ℕ → PoolCall

-- Each field of `struct block` (b_), `struct superblock` (s_) and `S_mpool` (m_, with `S_init`) is
-- an array over the addresses of the structs, and over the threads for `S_mpool`; the fields of
-- `S_gpool` (g_) are numbers. `vm_next` links the free nodes. `calls` has the calls of the locks
-- and the successful calls of `CALL_SYS_FREE`, with the address and the size, the newest first, and
-- `busy` tells of each coming `LOCK_GET` whether another thread has the lock.
pub record Arena : Type 0 where
  pub vm_next : ℕ → ℕ
  pub b_vctr : ℕ → ℕ
  pub b_lctr : ℕ → ℕ
  pub b_head : ℕ → ℕ
  pub b_superblock : ℕ → ℕ
  pub b_mpool : ℕ → ℕ
  pub b_prev : ℕ → ℕ
  pub b_next : ℕ → ℕ
  pub s_bctr : ℕ → ℕ
  pub s_lctr : ℕ → ℕ
  pub s_blctr : ℕ → ℕ
  pub s_head : ℕ → ℕ
  pub s_prev : ℕ → ℕ
  pub s_next : ℕ → ℕ
  pub m_init : ℕ → ℕ
  pub m_lctr : ℕ → ℕ
  pub m_head : ℕ → ℕ
  pub g_actr : ℕ
  pub g_lctr : ℕ
  pub g_mlctr : ℕ
  pub g_blctr : ℕ
  pub g_slctr : ℕ
  pub g_head : ℕ
  pub calls : List PoolCall
  pub busy : List Bool

-- `CALL_SYS_ALLOC(P,SUPERBLOCK_SIZE)`, with 0 for a failure, and whether
-- `CALL_SYS_FREE(P,SUPERBLOCK_SIZE)` succeeds.
pub record PoolSystem : Type 0 where
  pub sys_alloc : Arena → ℕ
  pub sys_free : ℕ → Arena → Bool

abbrev pub pool_call : PoolCall → Arena → Arena
pool_call c s = record s { calls = c ∷ s.calls }

-- The counter that stands beside a lock in its struct goes up where the lock is not to be had.
unfoldable pub count_wait : PoolLock → Bool → Arena → Arena
count_wait (block_lock b) waits s = record s {
  b_lctr = if waits then upd s.b_lctr b (add64 (s.b_lctr b) 1) else s.b_lctr;
}
count_wait (superblock_lock b) waits s = record s {
  s_lctr = if waits then upd s.s_lctr b (add64 (s.s_lctr b) 1) else s.s_lctr;
}
count_wait (mpool_lock t) waits s = record s {
  m_lctr = if waits then upd s.m_lctr t (add64 (s.m_lctr t) 1) else s.m_lctr;
}
count_wait gpool_lock waits s = record s { g_lctr = if waits then add64 s.g_lctr 1 else s.g_lctr }

-- `lock_try`: whether the lock is not to be had at once.
unfoldable pub lock_try : List Bool → Bool
lock_try [] = false
lock_try (b ∷ bs) = b

abbrev pub tail : List Bool → List Bool
tail [] = []
tail (b ∷ bs) = bs

-- `LOCK_GET(lock, ctr)`, where the counter is always the one beside the lock.
unfoldable pub get_lock : PoolLock → Arena → Arena
unfolding lock_try count_wait
get_lock l s =
    let s₁ = count_wait l (lock_try s.busy) s in
    pool_call (lock_get l) (record s₁ { busy = tail s.busy })

-- `LOCK_LET(lock)`
abbrev pub let_lock : PoolLock → Arena → Arena
let_lock l s = pool_call (lock_let l) s
