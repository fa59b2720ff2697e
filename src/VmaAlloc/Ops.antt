-- ===== src/VmaAlloc/Ops.antt =====
-- Blocks and nodes in src/vma_alloc.c: taking a block from the superblocks and giving it back,
-- `vma_alloc` and `vma_free`, and the pool of the process. `t` is the thread.
use open_ooc.Base.{
  ℕ, ◌-◌, ◌==◌, if◌then◌else◌, upd, Run, ok, ◌>>=◌, ◌>>◌, assert, not, ◌||◌, add64, sub64,
}
use open_ooc.VmaAlloc.Arena.{
  Arena, PoolSystem, block_ctr_full, superblock_ctr_full, pool_call, get_lock, let_lock, lock_init,
  lock_free, block_lock, superblock_lock, mpool_lock, gpool_lock,
}
use open_ooc.VmaAlloc.Chain.{set_prev, unlink_head, unlink_next, unlink_prev}
use open_ooc.VmaAlloc.Superblocks.{
  vma_2block, block_2superblock, superblock_get_and_lock, superblock_unlock_and_put,
}

-- The block leaves the front of its superblock's list.
unfoldable pub take_block : ℕ → ℕ → Arena → Arena
take_block superblock block s = record s {
  s_head = upd s.s_head superblock (s.b_next block);
  b_prev = set_prev (s.b_next block) (s.b_prev block) s.b_prev;
  s_bctr = upd s.s_bctr superblock (add64 (s.s_bctr superblock) 1);
}

-- A superblock without free blocks leaves the front of the list of superblocks.
unfoldable pub retire_superblock : ℕ → Arena → Run Arena
retire_superblock superblock s =
    if s.s_head superblock == 0
    then assert (s.s_bctr superblock == superblock_ctr_full)
      >> ok (record s {
        g_head = s.s_next superblock;
        s_prev = set_prev (s.s_next superblock) (s.s_prev superblock) s.s_prev;
      })
    else ok s

unfoldable pub steal_from : ℕ → Arena → Run (Arena × ℕ)
unfolding take_block retire_superblock get_lock
steal_from superblock s =
    let block = s.s_head superblock in
    do
      assert (not (block == 0))
      s₁ ←
          retire_superblock superblock (take_block superblock block (get_lock (block_lock block) s))
      ok (let_lock gpool_lock (let_lock (superblock_lock superblock) s₁), block)

-- `S_block_steal_and_lock`: a block, or 0.
unfoldable pub block_steal_and_lock : PoolSystem → Arena → Run (Arena × ℕ)
unfolding superblock_get_and_lock steal_from get_lock
block_steal_and_lock sys s =
    let (s₁, superblock) = superblock_get_and_lock sys (get_lock gpool_lock s) in
    if superblock == 0 then ok (let_lock gpool_lock s₁, 0) else steal_from superblock s₁

-- The block goes to the front of its superblock's list.
unfoldable pub give_block : ℕ → ℕ → Arena → Arena
give_block superblock block s = record s {
  b_next = upd s.b_next block (s.s_head superblock);
  b_prev = set_prev (s.s_head superblock) block s.b_prev;
  s_head = upd s.s_head superblock block;
  s_bctr = upd s.s_bctr superblock (sub64 (s.s_bctr superblock) 1);
}

-- A superblock that had no free block goes to the front of the list of superblocks.
unfoldable pub relist_superblock : ℕ → ℕ → Arena → Run Arena
unfolding get_lock
relist_superblock superblock block s =
    let s₁ = get_lock gpool_lock s in
    if s.b_next block == 0
    then assert (s₁.s_bctr superblock == superblock_ctr_full - 1)
      >> ok (
          let_lock gpool_lock (record s₁ {
            s_next = upd s₁.s_next superblock s₁.g_head;
            s_prev = set_prev s₁.g_head superblock s₁.s_prev;
            g_head = superblock;
          }))
    else ok s

-- The superblock that has all its blocks again is given back. Its lock is released here, and once
-- more in `S_superblock_unlock_and_put`.
unfoldable pub return_last : PoolSystem → ℕ → ℕ → Arena → Run Arena
unfolding superblock_unlock_and_put
return_last sys superblock block s =
    superblock_unlock_and_put sys superblock
      (let_lock (block_lock block) (let_lock (superblock_lock superblock) s))

unfoldable pub return_other : ℕ → ℕ → Arena → Run Arena
unfolding relist_superblock
return_other superblock block s = do
  s₁ ← relist_superblock superblock block s
  ok (let_lock (block_lock block) (let_lock (superblock_lock superblock) s₁))

-- `S_block_unlock_and_return`
unfoldable pub block_unlock_and_return : PoolSystem → ℕ → Arena → Run Arena
unfolding give_block get_lock return_last return_other
block_unlock_and_return sys block s =
    let superblock = block_2superblock block s in
    let s₁ = give_block superblock block (get_lock (superblock_lock superblock) s) in
    if s₁.s_bctr superblock == 0
    then return_last sys superblock block s₁
    else return_other superblock block s₁

-- The first pool_call of a thread sets its pool up.
unfoldable pub mpool_init : ℕ → Arena → Arena
mpool_init t s =
    if s.m_init t == 0
    then pool_call (lock_init (mpool_lock t)) (record s {
      m_init = upd s.m_init t 1;
      m_lctr = upd s.m_lctr t 0;
      m_head = upd s.m_head t 0;
    })
    else s

-- The block becomes the only one of the thread's pool.
unfoldable pub adopt_block : ℕ → ℕ → Arena → Arena
adopt_block t block s = record s {
  m_head = upd s.m_head t block;
  b_prev = upd s.b_prev block 0;
  b_next = upd s.b_next block 0;
  b_mpool = upd s.b_mpool block t;
}

-- The first node of the block's list leaves it.
unfoldable pub take_vma : ℕ → Arena → Arena
take_vma block s = record s {
  b_head = upd s.b_head block (s.vm_next (s.b_head block));
  b_vctr = upd s.b_vctr block (add64 (s.b_vctr block) 1);
}

-- A block without free nodes leaves the front of the thread's pool.
unfoldable pub retire_block : ℕ → ℕ → Arena → Run Arena
retire_block t block s =
    if s.b_head block == 0
    then assert (s.b_vctr block == block_ctr_full)
      >> ok (record s {
        m_head = upd s.m_head t (s.b_next block);
        b_prev = set_prev (s.b_next block) (s.b_prev block) s.b_prev;
      })
    else ok s

-- The rest of `vma_alloc`, with the block and the pool locked.
unfoldable pub alloc_from : ℕ → ℕ → Arena → Run (Arena × ℕ)
unfolding take_vma retire_block
alloc_from t block s =
    let vma = s.b_head block in
    do
      assert (not (vma == 0))
      s₁ ← retire_block t block (take_vma block s)
      ok (let_lock (block_lock block) (let_lock (mpool_lock t) s₁), vma)

-- Where the thread has no block with free nodes.
unfoldable pub alloc_stealing : PoolSystem → ℕ → Arena → Run (Arena × ℕ)
unfolding block_steal_and_lock adopt_block alloc_from get_lock
alloc_stealing sys t s = do
  (s₁, block) ← block_steal_and_lock sys s
  if block == 0
      then ok (s₁, 0)
      else alloc_from t block (adopt_block t block (get_lock (mpool_lock t) s₁))

unfoldable pub alloc_cached : ℕ → ℕ → Arena → Run (Arena × ℕ)
unfolding alloc_from get_lock
alloc_cached t block s =
    alloc_from t block (get_lock (mpool_lock t) (get_lock (block_lock block) s))

-- `vma_alloc`: a node, or 0 for NULL.
unfoldable pub vma_alloc : PoolSystem → ℕ → Arena → Run (Arena × ℕ)
unfolding mpool_init alloc_stealing alloc_cached
vma_alloc sys t s =
    let s₁ = mpool_init t s in
    if s₁.m_head t == 0 then alloc_stealing sys t s₁ else alloc_cached t (s₁.m_head t) s₁

-- The node goes to the front of its block's list.
unfoldable pub give_vma : ℕ → ℕ → Arena → Arena
give_vma block vma s = record s {
  vm_next = upd s.vm_next vma (s.b_head block);
  b_head = upd s.b_head block vma;
  b_vctr = upd s.b_vctr block (sub64 (s.b_vctr block) 1);
}

-- The block leaves the pool of its thread.
unfoldable pub block_unlink : ℕ → Arena → Arena
block_unlink block s =
    let t = s.b_mpool block in
    record s {
      m_head = upd s.m_head t (unlink_head block s.b_next (s.m_head t));
      b_next = unlink_next block s.b_prev s.b_next (s.m_head t);
      b_prev = unlink_prev block s.b_prev s.b_next (s.m_head t);
    }

-- Where the block's last node came back.
unfoldable pub free_last : PoolSystem → ℕ → Arena → Run Arena
unfolding get_lock block_unlink block_unlock_and_return
free_last sys block s =
    let t = s.b_mpool block in
    let s₁ = get_lock (mpool_lock t) s in
    do
      assert (s₁.m_head t == block || not (s₁.b_prev block == 0))
      block_unlock_and_return sys block (let_lock (mpool_lock t) (block_unlink block s₁))

-- The block goes to the front of the pool of its thread.
unfoldable pub block_push : ℕ → Arena → Arena
block_push block s =
    let t = s.b_mpool block in
    record s {
      b_next = upd s.b_next block (s.m_head t);
      b_prev = set_prev (s.m_head t) block s.b_prev;
      m_head = upd s.m_head t block;
    }

-- Where the block had no free node.
unfoldable pub relist_block : ℕ → ℕ → Arena → Run Arena
unfolding get_lock block_push
relist_block block vma s =
    let t = s.b_mpool block in
    if s.vm_next vma == 0
    then assert (s.b_vctr block == block_ctr_full - 1)
      >> ok (let_lock (mpool_lock t) (block_push block (get_lock (mpool_lock t) s)))
    else ok s

unfoldable pub free_other : ℕ → ℕ → Arena → Run Arena
unfolding relist_block
free_other block vma s = do s₁ ← relist_block block vma s; ok (let_lock (block_lock block) s₁)

unfoldable pub vma_free : PoolSystem → ℕ → Arena → Run Arena
unfolding give_vma get_lock free_last free_other
vma_free sys vma s =
    let block = vma_2block vma in
    let s₁ = give_vma block vma (get_lock (block_lock block) s) in
    if s₁.b_vctr block == 0 then free_last sys block s₁ else free_other block vma s₁

unfoldable pub vma_gpool_init : Arena → Arena
vma_gpool_init s =
    pool_call (lock_init gpool_lock)
      (record s { g_actr = 0; g_blctr = 0; g_slctr = 0; g_mlctr = 0; g_lctr = 0 })

unfoldable pub vma_gpool_free : Arena → Arena
vma_gpool_free s = pool_call (lock_free gpool_lock) s

unfoldable pub vma_gpool_gather : ℕ → Arena → Arena
unfolding get_lock
vma_gpool_gather t s =
    let s₁ = get_lock gpool_lock s in
    let_lock gpool_lock (record s₁ { g_mlctr = add64 s₁.g_mlctr (s₁.m_lctr t) })
