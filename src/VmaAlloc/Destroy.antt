-- ===== src/VmaAlloc/Destroy.antt =====
-- A superblock that is given back leaves the blocks of the threads alone.
use open_ooc.Base.{
  ℕ, zero, suc, ◌+◌, ◌*◌, ◌≤◌, ◌<◌, ◌≡◌, ◌≢◌, refl, arith, Bool, true, false, inl, upd, upd_ne, sym,
  ◌∙◌, ap, subst, ◌==◌,
}
use open_ooc.VmaAlloc.Arena.{
  Arena, get_lock, count_wait, block_size, superblock_size, superblock_ctr_full,
}
use open_ooc.VmaAlloc.Lists.{IsChain-upd}
use open_ooc.VmaAlloc.Valid.{View, IsBlock, IsPool}
use open_ooc.VmaAlloc.Superblocks.{
  destroy_block, destroy_blocks, superblock_list_destroy, superblock_unlink,
}
use open_ooc.VmaAlloc.Put.{put_unlinked, put_counted}
use open_ooc.VmaAlloc.Adopt.{unknown_out}

module _ (v : View) where
  apart : (c d : ℕ) → v.known c ≡ true → v.known d ≡ false → c ≢ d
  apart c d k u e = let h : v.known c ≡ false = ap v.known e ∙ u in absurd (cc)

  destroy_block-IsPool :
      (p : ℕ) (is_last : Bool) (block : ℕ) (s : Arena)
      → IsPool v s
      → v.known block ≡ false
      → IsPool v (destroy_block p is_last block s)
  unfolding destroy_block
  destroy_block-IsPool p is_last block s w unknown = record {
    block = λ c k.
        subst (λ h. IsBlock s.vm_next c h (s.b_vctr c) (v.free c))
          (sym (upd_ne s.b_head block _ c (apart c block k unknown))) (w.block c k);
    chain = λ t.
        IsChain-upd s.b_prev s.b_next 0 0 block _ (s.m_head t) (v.pool t) (w.chain t) (inl refl)
          (unknown_out v s.b_mpool t block (v.pool t) unknown (w.members t));
    distinct = w.distinct;
    members = w.members;
    listed = w.listed;
    fresh = w.fresh;
    owner = w.owner;
  }

  destroy_blocks-IsPool :
      (p count block : ℕ) (s : Arena)
      → ((c : ℕ) → p ≤ c → c < p + superblock_size → v.known c ≡ false)
      → p ≤ block
      → block + count * block_size ≤ p + superblock_size
      → IsPool v s
      → IsPool v (destroy_blocks p count block s)
  unfolding destroy_blocks
  destroy_blocks-IsPool p zero block s unknown lo hi w = w
  destroy_blocks-IsPool p (suc count) block s unknown lo hi w =
      destroy_blocks-IsPool p count (block + block_size) (destroy_block p (count == 0) block s)
        unknown (omega arith) (omega arith)
        (destroy_block-IsPool p (count == 0) block s w (unknown block lo (omega (arith, hi))))

  unlinked-IsPool :
      (p : ℕ) (s : Arena)
      → IsPool v s
      → IsPool v
          (record (put_unlinked p s) { s_head = upd (put_unlinked p s).s_head p (p + block_size) })
  unfolding superblock_unlink get_lock count_wait
  unlinked-IsPool p s w = record {
    block = w.block;
    chain = w.chain;
    distinct = w.distinct;
    members = w.members;
    listed = w.listed;
    fresh = w.fresh;
    owner = w.owner;
  }

  pub put_counted-IsPool :
      (p : ℕ) (s : Arena)
      → ((c : ℕ) → p ≤ c → c < p + superblock_size → v.known c ≡ false)
      → IsPool v s
      → IsPool v (put_counted p s)
  unfolding superblock_list_destroy get_lock count_wait
  put_counted-IsPool p s unknown w =
      let d =
        destroy_blocks-IsPool p superblock_ctr_full (p + block_size) _ unknown (omega arith)
          (omega arith) (unlinked-IsPool p s w) in
      record {
        block = d.block;
        chain = d.chain;
        distinct = d.distinct;
        members = d.members;
        listed = d.listed;
        fresh = d.fresh;
        owner = d.owner;
      }
