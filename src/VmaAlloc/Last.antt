-- ===== src/VmaAlloc/Last.antt =====
-- `vma_free` of the last node of a block that is in use, where its superblock keeps other blocks in
-- use.
use open_ooc.Base.{
  ℕ, ◌+◌, ◌≡◌, ◌≢◌, refl, arith, true, false, not, List, [], ◌∷◌, ◌++◌, ok, ◌>>◌, assert, upd,
  upd_same, upd_ne, upd_self, sym, ◌∙◌, ap, subst, length, if-true, ==-true, sub64, ◌==◌, ◌||◌, ◌<◌,
}
use open_ooc.VmaAlloc.Arena.{
  Arena, PoolSystem, get_lock, let_lock, lock_let, count_wait, block_lock, mpool_lock,
  block_ctr_full,
}
use open_ooc.VmaAlloc.Lists.{All, All-map, NotIn, IsChain, cons-ne}
use open_ooc.VmaAlloc.Superblocks.{vma_2block}
use open_ooc.VmaAlloc.Valid.{
  View, IsMember, IsPool, IsPool-call, IsPool-get_block, IsPool-get_mpool, upd_case, IsBlock,
}
use open_ooc.VmaAlloc.Ops.{
  give_vma, block_unlock_and_return, block_unlink, free_last, free_other, vma_free,
}
use open_ooc.VmaAlloc.Put.{is_listed}
use open_ooc.VmaAlloc.Give.{more_free}
use open_ooc.VmaAlloc.Leave.{left, unlink_out, block_unlink-IsPool}
use open_ooc.VmaAlloc.Return.{IsHome, IsBack}
use open_ooc.VmaAlloc.Release.{block_unlock_and_return-IsBack}

module _ (v : View) (b : ℕ) (ps bs : List ℕ) (s : Arena) (valid : IsPool v s)
    (known : v.known b ≡ true) (home : IsHome v (s.b_superblock b) ps bs s) (ys zs : List ℕ)
    (pool : v.pool (s.b_mpool b) ≡ ys ++ (b ∷ zs)) where
  abbrev pub p : ℕ
  p = s.b_superblock b

  abbrev pub t : ℕ
  t = s.b_mpool b

  abbrev pub v' : View
  v' = left v t b (ys ++ zs)

  -- The state in which the block goes back.
  abbrev pub out_of_pool : Arena
  out_of_pool = let_lock (mpool_lock t) (block_unlink b (get_lock (mpool_lock t) s))

  true-ne : true ≢ false
  true-ne e = absurd (cc)

  -- What a thread holds is no free block of the superblock.
  pub held_out : (c : ℕ) → v.known c ≡ true → NotIn c bs
  held_out c k =
      All-map (λ d. v.known d ≡ false) (λ d. d ≢ c) bs
        (λ d e q. true-ne (sym k ∙ ap v.known (sym q) ∙ e)) home.unknown

  chain_t : IsChain s.b_prev s.b_next (s.m_head t) (ys ++ (b ∷ zs))
  chain_t = subst (IsChain s.b_prev s.b_next (s.m_head t)) pool (valid.chain t)

  members_out : All (λ y. NotIn y bs) (ys ++ (b ∷ zs))
  members_out =
      All-map (IsMember v s.b_mpool t) (λ y. NotIn y bs) (ys ++ (b ∷ zs)) (λ y m. held_out y m.0)
        (subst (All (IsMember v s.b_mpool t)) pool (valid.members t))

  pub out-IsHome : IsHome v' p ps bs out_of_pool
  unfolding block_unlink get_lock count_wait
  out-IsHome = record {
    real = home.real;
    blocks =
        unlink_out s.b_prev s.b_next (s.m_head t) (s.s_head p) b bs home.blocks ys zs chain_t
          members_out;
    unknown =
        All-map (λ d. v.known d ≡ false) (λ d. upd v.known b false d ≡ false) bs
          (λ d e. upd_case v.known b false (λ y k. k ≡ false) d (λ q. refl) (λ q. e)) home.unknown;
    distinct = home.distinct;
    count = home.count;
    others = home.others;
    stock = home.stock;
    unlisted = home.unlisted;
    stock_distinct = home.stock_distinct;
  }

  pub out-IsPool : IsPool v' out_of_pool
  unfolding get_lock count_wait
  out-IsPool =
      IsPool-call v' (lock_let (mpool_lock t)) (block_unlink b (get_lock (mpool_lock t) s)) (
        block_unlink-IsPool b v (get_lock (mpool_lock t) s) (IsPool-get_mpool v t s valid) known ys
          zs pool)

  pub out_home : out_of_pool.b_superblock b ≡ p
  unfolding block_unlink get_lock count_wait
  out_home = refl

  pub out_listed :
      let g = get_lock (mpool_lock t) s in (g.m_head t == b || not (g.b_prev b == 0)) ≡ true
  unfolding get_lock count_wait
  out_listed = is_listed s.b_prev s.b_next (s.m_head t) b ys zs chain_t

  pub out_nodes : let o = out_of_pool in IsBlock o.vm_next b (o.b_head b) (o.b_vctr b) (v.free b)
  unfolding block_unlink get_lock count_wait
  out_nodes = valid.block b known

  out_more : 1 < s.s_bctr p → 1 < out_of_pool.s_bctr p
  unfolding block_unlink get_lock count_wait
  out_more more = more

  pub free_last-IsBack :
      (sys : PoolSystem)
      → b ≢ 0
      → 1 < s.s_bctr p
      → (s' : Arena) × (free_last sys b s ≡ ok s') × IsBack v' p ps b bs s'
  unfolding free_last
  free_last-IsBack sys real more =
      let (s', run, k) =
        block_unlock_and_return-IsBack v' p ps b bs sys out_of_pool real (upd_same v.known b false)
          (held_out b known) out_home out-IsPool out_nodes out-IsHome (out_more more) in
      (s', ap (λ c. assert c >> block_unlock_and_return sys b out_of_pool) out_listed ∙ run, k)

-- The outcome: the node `x` is free, at the front of the free nodes of its block, which the code's
-- links and counter give, and the block goes from its thread to its superblock; nothing
-- else changes for the callers.
pub record Released (v : View) (t p : ℕ) (ps : List ℕ) (x : ℕ) (bs : List ℕ) (s' : Arena)
    : Type 0 where
  pub v' : View
  pub back : IsBack v' p ps (vma_2block x) bs s'
  pub free : v'.free ≡ upd v.free (vma_2block x) (x ∷ v.free (vma_2block x))
  pub nodes :
      IsBlock s'.vm_next
        (vma_2block x)
        (s'.b_head (vma_2block x))
        (s'.b_vctr (vma_2block x))
        (x ∷ v.free (vma_2block x))
  pub known : v'.known ≡ upd v.known (vma_2block x) false
  pub threads : (u : ℕ) → u ≢ t → v'.pool u ≡ v.pool u

module _ (x : ℕ) (v : View) (ps bs : List ℕ) (s : Arena) where
  abbrev pub block : ℕ
  block = vma_2block x

  abbrev pub v₁ : View
  v₁ = record v { free = upd v.free block (x ∷ v.free block) }

  abbrev pub given : Arena
  given = give_vma block x (get_lock (block_lock block) s)

  pub given-IsHome :
      IsHome v (s.b_superblock block) ps bs s → IsHome v₁ (given.b_superblock block) ps bs given
  unfolding give_vma get_lock count_wait
  given-IsHome o = record {
    real = o.real;
    blocks = o.blocks;
    unknown = o.unknown;
    distinct = o.distinct;
    count = o.count;
    others = o.others;
    stock = o.stock;
    unlisted = o.unlisted;
    stock_distinct = o.stock_distinct;
  }

  pub given_node-IsPool :
      IsPool v s
      → x ≢ 0
      → v.known block ≡ true
      → NotIn x (v.free block)
      → s.b_vctr block ≡ 1
      → IsPool v₁ given
  unfolding get_lock count_wait
  given_node-IsPool valid real known used one =
      more_free x v (get_lock (block_lock block) s) (IsPool-get_block v block s valid) real known
        used (omega (arith, one)) (λ e. many (valid.block block known).4 (ap length e))
    where
      many : s.b_vctr block + length (v.free block) ≡ block_ctr_full → length (v.free block) ≢ 0
      many e z = omega (arith, one, e, z)

  pub given_none : s.b_vctr block ≡ 1 → (given.b_vctr block == 0) ≡ true
  unfolding give_vma get_lock count_wait
  given_none one =
      ==-true (upd s.b_vctr block (sub64 (s.b_vctr block) 1) block) 0
        (upd_self s.b_vctr block (sub64 (s.b_vctr block) 1) ∙ ap (λ n. sub64 n 1) one)

  given_more : 1 < s.s_bctr (s.b_superblock block) → 1 < given.s_bctr (given.b_superblock block)
  unfolding give_vma get_lock count_wait
  given_more more = more

  pub same_home : given.b_superblock block ≡ s.b_superblock block
  unfolding give_vma get_lock count_wait
  same_home = refl

  same_thread : given.b_mpool block ≡ s.b_mpool block
  unfolding give_vma get_lock count_wait
  same_thread = refl

-- For a node of a block that a thread holds, which is not free and the only one of the block in
-- use, where the block's superblock has other blocks in use, `vma_free` succeeds: the block leaves
-- the thread's pool and becomes the first free block of its superblock, which is listed now if it
-- had no free block; the invariant of the blocks and the pools holds behind it, the node is the
-- first free one of its block, and all other blocks and the other threads' pools are as before.
pub vma_free-Released :
    (sys : PoolSystem) (x : ℕ) (v : View) (ps bs : List ℕ) (s : Arena)
    → IsPool v s
    → x ≢ 0
    → v.known (vma_2block x) ≡ true
    → NotIn x (v.free (vma_2block x))
    → s.b_vctr (vma_2block x) ≡ 1
    → IsHome v (s.b_superblock (vma_2block x)) ps bs s
    → 1 < s.s_bctr (s.b_superblock (vma_2block x))
    → (s' : Arena) × (vma_free sys x s ≡ ok s')
      × Released v (s.b_mpool (vma_2block x)) (s.b_superblock (vma_2block x)) ps x bs s'
unfolding vma_free
vma_free-Released sys x v ps bs s valid real known used one home more =
    let b = vma_2block x in
    let g = given x v ps bs s in
    let w = given_node-IsPool x v ps bs s valid real known used one in
    let some : upd v.free b (x ∷ v.free b) b ≢ [] =
      λ e. cons-ne x (v.free b) (sym (upd_same v.free b (x ∷ v.free b)) ∙ e) in
    let (ys, zs, e) = w.listed b known some in
    let (s', run, k) =
      free_last-IsBack (v₁ x v ps bs s) b ps bs g w known (given-IsHome x v ps bs s home) ys zs e
        sys (valid.block b known).0 (given_more x v ps bs s more) in
    (
      s',
      if-true (λ r. r ≡ ok s') (g.b_vctr b == 0) (free_last sys b g) (free_other b x g)
          (given_none x v ps bs s one) run,
      record {
        v' = left (v₁ x v ps bs s) (g.b_mpool b) b (ys ++ zs);
        back =
            subst (λ q. IsBack (left (v₁ x v ps bs s) (g.b_mpool b) b (ys ++ zs)) q ps b bs s')
              (same_home x v ps bs s) k;
        free = refl;
        nodes =
            subst (IsBlock s'.vm_next b (s'.b_head b) (s'.b_vctr b))
              (upd_same v.free b (x ∷ v.free b)) k.nodes;
        known = refl;
        threads = λ u ne.
            upd_ne v.pool (g.b_mpool b) (ys ++ zs) u (λ q. ne (q ∙ same_thread x v ps bs s));
      },
    )
