-- ===== src/VmaAlloc/Superblocks.antt =====
-- The superblocks of src/vma_alloc.c: their set-up, their end, and the list of them.
use open_ooc.Base.{
  ℕ, zero, suc, ◌+◌, ◌-◌, ◌%◌, ◌==◌, if◌then◌else◌, upd, Run, ok, ◌>>◌, assert, not, Bool, ◌||◌,
  add64,
}
use open_ooc.VmArea.{area_size}
use open_ooc.VmaAlloc.Arena.{
  Arena, PoolSystem, block_size, block_header, block_ctr_full, superblock_ctr_full, pool_call,
  superblock_size, sys_freed, get_lock, let_lock, lock_init, lock_free, block_lock, superblock_lock,
  gpool_lock,
}
use open_ooc.VmaAlloc.Chain.{unlink_head, unlink_next, unlink_prev}

-- `S_vma_2block`: the lowest bits of the address are cleared.
abbrev pub vma_2block : ℕ → ℕ
vma_2block vma = vma - vma % block_size

-- `S_block_2superblock`
abbrev pub block_2superblock : ℕ → Arena → ℕ
block_2superblock block s = s.b_superblock block

-- A block's list of nodes, from `vma` on: `count` passes of the loop, and the last link.
unfoldable pub setup_vmas : ℕ → ℕ → (ℕ → ℕ) → ℕ → ℕ
setup_vmas zero vma next = upd next vma 0
setup_vmas (suc count) vma next =
    setup_vmas count (vma + area_size) (upd next vma (vma + area_size))

-- One pass of the loop over the blocks; `is_last` is the test `SUPERBLOCK_CTR_FULL-1 == i`.
unfoldable pub setup_block : ℕ → Bool → ℕ → Arena → Arena
unfolding setup_vmas
setup_block superblock is_last block s =
    let next = if is_last then 0 else block + block_size in
    pool_call (lock_init (block_lock block)) (record s {
      b_vctr = upd s.b_vctr block 0;
      b_lctr = upd s.b_lctr block 0;
      b_superblock = upd s.b_superblock block superblock;
      b_head = upd s.b_head block (block + block_header);
      b_next = upd s.b_next block next;
      b_prev = if is_last then s.b_prev else upd s.b_prev next block;
      vm_next = setup_vmas (block_ctr_full - 1) (block + block_header) s.vm_next;
    })

-- The passes that are left.
unfoldable pub setup_blocks : ℕ → ℕ → ℕ → Arena → Arena
unfolding setup_block
setup_blocks superblock zero block s = s
setup_blocks superblock (suc count) block s =
    setup_blocks superblock count (block + block_size) (setup_block superblock (count == 0) block s)

unfoldable pub superblock_list_setup : ℕ → Arena → Arena
unfolding setup_blocks
superblock_list_setup superblock s =
    let block = superblock + block_size in
    setup_blocks superblock superblock_ctr_full block
      (record s { s_head = upd s.s_head superblock block; b_prev = upd s.b_prev block 0 })

unfoldable pub destroy_block : ℕ → Bool → ℕ → Arena → Arena
destroy_block superblock is_last block s = pool_call (lock_free (block_lock block)) (record s {
  b_head = upd s.b_head block (block + block_header);
  b_next = upd s.b_next block (if is_last then 0 else block + block_size);
  s_blctr = upd s.s_blctr superblock (add64 (s.s_blctr superblock) (s.b_lctr block));
})

unfoldable pub destroy_blocks : ℕ → ℕ → ℕ → Arena → Arena
unfolding destroy_block
destroy_blocks superblock zero block s = s
destroy_blocks superblock (suc count) block s =
    destroy_blocks superblock count (block + block_size)
      (destroy_block superblock (count == 0) block s)

unfoldable pub superblock_list_destroy : ℕ → Arena → Arena
unfolding destroy_blocks
superblock_list_destroy superblock s =
    let block = superblock + block_size in
    destroy_blocks superblock superblock_ctr_full block
      (record s { s_head = upd s.s_head superblock block })

-- A new superblock, the only one of the list.
unfoldable pub new_superblock : ℕ → Arena → Arena
unfolding superblock_list_setup
new_superblock superblock s = superblock_list_setup superblock (
    pool_call (lock_init (superblock_lock superblock)) (record s {
      g_actr = add64 s.g_actr 1;
      g_head = superblock;
      s_prev = upd s.s_prev superblock 0;
      s_next = upd s.s_next superblock 0;
      s_bctr = upd s.s_bctr superblock 0;
      s_lctr = upd s.s_lctr superblock 0;
      s_blctr = upd s.s_blctr superblock 0;
    }))

-- `S_superblock_get_and_lock`: the head of the list, or a new superblock, or 0.
unfoldable pub superblock_get_and_lock : PoolSystem → Arena → Arena × ℕ
unfolding new_superblock get_lock
superblock_get_and_lock sys s =
    let fresh = sys.sys_alloc s in
    if s.g_head == 0
    then if fresh == 0
      then (s, 0)
      else (get_lock (superblock_lock fresh) (new_superblock fresh s), fresh)
    else (get_lock (superblock_lock s.g_head) s, s.g_head)

-- The superblock goes out of the list.
unfoldable pub superblock_unlink : ℕ → Arena → Arena
superblock_unlink superblock s = record s {
  g_head = unlink_head superblock s.s_next s.g_head;
  s_next = unlink_next superblock s.s_prev s.s_next s.g_head;
  s_prev = unlink_prev superblock s.s_prev s.s_next s.g_head;
}

-- `S_superblock_unlock_and_put`
unfoldable pub superblock_unlock_and_put : PoolSystem → ℕ → Arena → Run Arena
unfolding get_lock superblock_unlink superblock_list_destroy
superblock_unlock_and_put sys superblock s =
    let s₁ = get_lock gpool_lock s in
    let s₂ = let_lock gpool_lock (superblock_unlink superblock s₁) in
    let s₃ =
      pool_call (lock_free (superblock_lock superblock))
        (let_lock (superblock_lock superblock) s₂) in
    let s₄ = get_lock gpool_lock (superblock_list_destroy superblock s₃) in
    let s₅ = let_lock gpool_lock (record s₄ {
      g_blctr = add64 s₄.g_blctr (s₄.s_blctr superblock);
      g_slctr = add64 s₄.g_slctr (s₄.s_lctr superblock);
    }) in
    do
      assert (s₁.g_head == superblock || not (s₁.s_prev superblock == 0))
      assert (sys.sys_free superblock s₅)
      ok (pool_call (sys_freed superblock superblock_size) s₅)
