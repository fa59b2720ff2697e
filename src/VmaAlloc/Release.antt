-- ===== src/VmaAlloc/Release.antt =====
-- `S_block_unlock_and_return` with its locks.
use open_ooc.Base.{
  ℕ, ◌+◌, ◌<◌, ◌≡◌, ◌≢◌, arith, false, List, ok, ◌>>=◌, upd, upd_self, sym, ◌∙◌, ap, length,
  if-false, ==-false, sub64, ◌==◌, if◌then◌else◌,
}
use open_ooc.VmaAlloc.Arena.{
  Arena, PoolSystem, get_lock, let_lock, lock_let, count_wait, block_lock, superblock_lock,
  superblock_ctr_full,
}
use open_ooc.VmaAlloc.Lists.{NotIn}
use open_ooc.VmaAlloc.Valid.{View, IsPool, IsPool-call, IsBlock}
use open_ooc.VmaAlloc.Ops.{give_block, return_other, return_last, block_unlock_and_return}
use open_ooc.VmaAlloc.Return.{IsHome, IsBack, relist_superblock-IsBack}

module _ (v : View) (p : ℕ) (ps : List ℕ) (b : ℕ) (bs : List ℕ) where
  pub IsHome-get :
      (s : Arena) → IsHome v p ps bs s → IsHome v p ps bs (get_lock (superblock_lock p) s)
  unfolding get_lock count_wait
  IsHome-get s o = record {
    real = o.real;
    blocks = o.blocks;
    unknown = o.unknown;
    distinct = o.distinct;
    count = o.count;
    others = o.others;
    stock = o.stock;
    unlisted = o.unlisted;
    stock_distinct = o.stock_distinct;
  }

  pub IsPool-get : (s : Arena) → IsPool v s → IsPool v (get_lock (superblock_lock p) s)
  unfolding get_lock count_wait
  IsPool-get s w = record {
    block = w.block;
    chain = w.chain;
    distinct = w.distinct;
    members = w.members;
    listed = w.listed;
    fresh = w.fresh;
    owner = w.owner;
  }

  IsBlock-get :
      (s : Arena)
      → IsBlock s.vm_next b (s.b_head b) (s.b_vctr b) (v.free b)
      → let g = get_lock (superblock_lock p) s in
        IsBlock g.vm_next b (g.b_head b) (g.b_vctr b) (v.free b)
  unfolding get_lock count_wait
  IsBlock-get s w = w

  abbrev let_both : Arena → Arena
  let_both s = let_lock (block_lock b) (let_lock (superblock_lock p) s)

  IsBack-let : (s : Arena) → IsBack v p ps b bs s → IsBack v p ps b bs (let_both s)
  IsBack-let s w = record {
    valid =
        IsPool-call v (lock_let (block_lock b)) (let_lock (superblock_lock p) s)
          (IsPool-call v (lock_let (superblock_lock p)) s w.valid);
    nodes = w.nodes;
    blocks = w.blocks;
    count = w.count;
    stock = w.stock;
  }

  others_left :
      (s : Arena)
      → 1 < s.s_bctr p
      → s.s_bctr p + length bs ≡ superblock_ctr_full
      → ((give_block p b s).s_bctr p == 0) ≡ false
  unfolding give_block
  others_left s lt e = ==-false (upd s.s_bctr p (sub64 (s.s_bctr p) 1) p) 0 (λ q.
      not_zero (s.s_bctr p) (length bs) lt e (sym (upd_self s.s_bctr p (sub64 (s.s_bctr p) 1)) ∙ q))
    where
      not_zero : (n m : ℕ) → 1 < n → n + m ≡ superblock_ctr_full → sub64 n 1 ≢ 0
      not_zero n m lt e q = omega (arith, lt, e, q)

  pub block_unlock_and_return-IsBack :
      (sys : PoolSystem) (s : Arena)
      → b ≢ 0
      → v.known b ≡ false
      → NotIn b bs
      → s.b_superblock b ≡ p
      → IsPool v s
      → IsBlock s.vm_next b (s.b_head b) (s.b_vctr b) (v.free b)
      → IsHome v p ps bs s
      → 1 < s.s_bctr p
      → (s' : Arena) × (block_unlock_and_return sys b s ≡ ok s') × IsBack v p ps b bs s'
  unfolding block_unlock_and_return return_other
  block_unlock_and_return-IsBack sys s real gone out home w held o more =
      let g = get_lock (superblock_lock p) s in
      let o' = IsHome-get s o in
      let (s₁, run, k) =
        relist_superblock-IsBack v p ps b real gone bs g out (IsPool-get s w) (IsBlock-get s held)
          o' in
      let s₂ = give_block p b g in
      (
        let_both s₁,
        ap
              (λ q.
                if (give_block q b (get_lock (superblock_lock q) s)).s_bctr q == 0
                then return_last sys q b (give_block q b (get_lock (superblock_lock q) s))
                else return_other q b (give_block q b (get_lock (superblock_lock q) s)))
              home
            ∙ if-false (λ r. r ≡ ok (let_both s₁)) (s₂.s_bctr p == 0) (return_last sys p b s₂)
                (return_other p b s₂) (others_left g more o'.count)
                (ap (λ r. r >>= λ z. ok (let_both z)) run),
        IsBack-let s₁ k,
      )
