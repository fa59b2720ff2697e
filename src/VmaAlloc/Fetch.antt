-- ===== src/VmaAlloc/Fetch.antt =====
-- `vma_alloc` of a thread that has no block with free nodes, where a superblock has a free block.
use open_ooc.Base.{
  ℕ, ◌+◌, ◌≡◌, ◌≢◌, inl, inr, refl, arith, true, upd_ne, false, List, [], ◌∷◌, ok, ◌>>=◌, upd,
  upd_same, upd_self, sym, ◌∙◌, ap, subst, eq-cases, length, if-true, if-false, ==-true, ==-false,
  ◌==◌, if◌then◌else◌,
}
use open_ooc.VmaAlloc.Arena.{
  Arena, PoolSystem, get_lock, count_wait, pool_call, lock_init, mpool_lock, superblock_ctr_full,
}
use open_ooc.VmaAlloc.Lists.{All, All-map, All-both, NotIn, IsChain, IsChain-frame, cons-ne}
use open_ooc.VmaAlloc.Valid.{View, IsBlock, IsPool, IsPool-get_mpool, upd_case}
use open_ooc.VmaAlloc.Ops.{
  mpool_init, adopt_block, alloc_from, alloc_stealing, alloc_cached, vma_alloc,
  block_steal_and_lock,
}
use open_ooc.VmaAlloc.Put.{IsStock}
use open_ooc.VmaAlloc.Adopt.{adopted, adopt_block-IsPool}
use open_ooc.VmaAlloc.Steal.{IsOffer, left_over, Handed}
use open_ooc.VmaAlloc.Stolen.{block_steal_and_lock-Handed}
use open_ooc.VmaAlloc.Alloc.{Allocated, alloc_from-Allocated, SameStock, SameLinks}

-- The set-up of a thread's pool.
module _ (v : View) (t : ℕ) where
  abbrev pub set_up : Arena → Arena
  set_up s =
      pool_call (lock_init (mpool_lock t)) (record s {
        m_init = upd s.m_init t 1;
        m_lctr = upd s.m_lctr t 0;
        m_head = upd s.m_head t 0;
      })

  pub set_up-IsPool : (s : Arena) → IsPool v s → v.pool t ≡ [] → IsPool v (set_up s)
  set_up-IsPool s w none = record {
    block = w.block;
    chain = λ u.
        upd_case s.m_head t 0 (λ y h. IsChain s.b_prev s.b_next h (v.pool y)) u
          (λ e. subst (IsChain s.b_prev s.b_next 0) (sym (ap v.pool e ∙ none)) refl)
          (λ ne. w.chain u);
    distinct = w.distinct;
    members = w.members;
    listed = w.listed;
    fresh = λ u.
        upd_case s.m_init t 1 (λ y i. i ≡ 0 → v.pool y ≡ []) u (λ e z. ap v.pool e ∙ none)
          (λ ne. w.fresh u);
    owner = λ c k.
        upd_case s.m_init t 1 (λ y i. i ≢ 0) (s.b_mpool c) (λ e z. absurd (omega (arith, z)))
          (λ ne. w.owner c k);
  }

module _ (v : View) (t : ℕ) (p : ℕ) (ps : List ℕ) (b : ℕ) (bs : List ℕ) where
  -- The thread's pool is set up and empty.
  abbrev IsReady : Arena → Type 0
  IsReady s = IsPool v s × (s.m_init t ≢ 0) × (s.m_head t ≡ 0) × IsOffer v p ps b bs s

  mpool_init-IsReady :
      (s : Arena) → IsPool v s → v.pool t ≡ [] → IsOffer v p ps b bs s → IsReady (mpool_init t s)
  unfolding mpool_init
  mpool_init-IsReady s w none o = elim (eq-cases (s.m_init t) 0) [
    | inl e ↦ if-true IsReady (s.m_init t == 0) (set_up v t s) s (==-true (s.m_init t) 0 e) (
      set_up-IsPool v t s w none,
      (λ z. absurd (omega (arith, sym (upd_self s.m_init t 1) ∙ z))),
      upd_self s.m_head t 0,
      record {
        stock = o.stock;
        distinct = o.distinct;
        blocks = o.blocks;
        blocks_distinct = o.blocks_distinct;
        unknown = o.unknown;
        count = o.count;
        block = o.block;
      },
    )
    | inr ne ↦
        if-false IsReady (s.m_init t == 0) (set_up v t s) s (==-false (s.m_init t) 0 ne)
          (w, ne, subst (IsChain s.b_prev s.b_next (s.m_head t)) none (w.chain t), o)
  ]

  -- The outcome: the node `x` of the block `b` is handed out, which is the thread's now; `p` has
  -- its other free blocks `bs`, stays listed where there are any, and counts the one that is gone.
  pub record Fetched (x : ℕ) (s' : Arena) : Type 0 where
    pub start : Arena
    pub allocated : Allocated (adopted v t b) t b x start s'
    pub stock : IsStock s' (left_over p ps bs)
    pub blocks : IsChain s'.b_prev s'.b_next (s'.s_head p) bs
    pub count : s'.s_bctr p + length bs ≡ superblock_ctr_full

  adopt_locked-IsPool :
      (s : Arena)
      → IsPool v s
      → b ≢ 0
      → v.known b ≡ false
      → v.free b ≢ []
      → v.pool t ≡ []
      → s.m_init t ≢ 0
      → IsBlock s.vm_next b (s.b_head b) (s.b_vctr b) (v.free b)
      → IsPool (adopted v t b) (adopt_block t b (get_lock (mpool_lock t) s))
  unfolding get_lock count_wait
  adopt_locked-IsPool s w real unknown some none ready block =
      adopt_block-IsPool t b v (get_lock (mpool_lock t) s) (IsPool-get_mpool v t s w) real unknown
        some none ready block

  IsStock-locked :
      (s s' : Arena) (xs : List ℕ)
      → SameStock (adopt_block t b (get_lock (mpool_lock t) s)) s'
      → IsStock s xs
      → IsStock s' xs
  unfolding get_lock count_wait adopt_block
  IsStock-locked s s' xs (g, h, n, q, r) c =
      subst (λ z. IsChain z s'.s_next s'.g_head xs) (sym q)
        (subst (λ z. IsChain s.s_prev z s'.g_head xs) (sym r)
          (subst (λ z. IsChain s.s_prev s.s_next z xs) (sym g) c))

  count-locked :
      (s s' : Arena)
      → SameStock (adopt_block t b (get_lock (mpool_lock t) s)) s'
      → s.s_bctr p + length bs ≡ superblock_ctr_full
      → s'.s_bctr p + length bs ≡ superblock_ctr_full
  unfolding get_lock count_wait adopt_block
  count-locked s s' (g, h, n, q, r) c = ap (λ f. f p + length bs) n ∙ c

  -- The links of the superblock's other free blocks are left alone.
  blocks-locked :
      (s s' : Arena)
      → SameStock (adopt_block t b (get_lock (mpool_lock t) s)) s'
      → SameLinks (adopted v t b) (adopt_block t b (get_lock (mpool_lock t) s)) s'
      → NotIn b bs
      → All (λ c. v.known c ≡ false) bs
      → IsChain s.b_prev s.b_next (s.s_head p) bs
      → IsChain s'.b_prev s'.b_next (s'.s_head p) bs
  unfolding get_lock count_wait adopt_block
  blocks-locked s s' (g, h, n, q, r) (next, prev) out unknown c =
      let away : All (λ d. (d ≢ b) × (v.known d ≡ false)) bs =
        All-both (λ d. d ≢ b) (λ d. v.known d ≡ false) bs out unknown in
      subst (λ z. IsChain s'.b_prev s'.b_next z bs) (sym (ap (λ f. f p) h))
        (IsChain-frame s.b_prev s.b_next s'.b_prev s'.b_next (s.s_head p) bs c (
          All-map (λ d. (d ≢ b) × (v.known d ≡ false))
            (λ d. (s'.b_prev d ≡ s.b_prev d) × (s'.b_next d ≡ s.b_next d)) bs
            (λ d m. (
              prev d (upd_ne v.known b true d m.0 ∙ m.1) ∙ upd_ne s.b_prev b 0 d m.0,
              ap (λ f. f d) next ∙ upd_ne s.b_next b 0 d m.0,
            ))
            away))

  -- With a block that `S_block_steal_and_lock` handed over.
  pub alloc_stealing-Handed :
      (sys : PoolSystem) (x : ℕ) (xs : List ℕ) (s s₁ : Arena)
      → block_steal_and_lock sys s ≡ ok (s₁, b)
      → Handed v p ps b bs s s₁
      → b ≢ 0
      → v.known b ≡ false
      → s.m_init t ≢ 0
      → v.pool t ≡ []
      → v.free b ≡ x ∷ xs
      → (s' : Arena) × (alloc_stealing sys t s ≡ ok (s', x)) × Fetched x s'
  unfolding alloc_stealing
  alloc_stealing-Handed sys x xs s s₁ run₁ z real unknown ready none free =
      let s₂ = adopt_block t b (get_lock (mpool_lock t) s₁) in
      let w₂ =
        adopt_locked-IsPool s₁ z.valid real unknown (λ e. cons-ne x xs (sym free ∙ e)) none
          (λ e. ready (sym (ap (λ f. f t) z.m_init) ∙ e)) z.block in
      let (s', run₂, a) =
        alloc_from-Allocated t b x xs [] (adopted v t b) s₂ w₂ (upd_same v.pool t (b ∷ [])) free in
      (
        s',
        ap
              (λ r. r >>= λ (s₁, c).
                if c == 0
                then ok (s₁, 0)
                else alloc_from t c (adopt_block t c (get_lock (mpool_lock t) s₁)))
              run₁
            ∙ if-false (λ r. r ≡ ok (s', x)) (b == 0) (ok (s₁, 0)) (alloc_from t b s₂)
                (==-false b 0 real) run₂,
        record {
          start = s₂;
          allocated = a;
          blocks = blocks-locked s₁ s' a.superblocks a.links z.out z.unknown z.blocks;
          stock = IsStock-locked s₁ s' (left_over p ps bs) a.superblocks z.stock;
          count = count-locked s₁ s' a.superblocks z.count;
        },
      )

  alloc_stealing-Fetched :
      (sys : PoolSystem) (x : ℕ) (xs : List ℕ) (s : Arena)
      → IsReady s
      → v.pool t ≡ []
      → v.free b ≡ x ∷ xs
      → (s' : Arena) × (alloc_stealing sys t s ≡ ok (s', x)) × Fetched x s'
  alloc_stealing-Fetched sys x xs s (w, ready, head, o) none free =
      let (s₁, run₁, z) = block_steal_and_lock-Handed v p ps b bs s sys w o in
      alloc_stealing-Handed sys x xs s s₁ run₁ z o.blocks.1 o.unknown.0 ready none free

-- Where the thread has no block with free nodes, the first listed superblock has free blocks, and
-- the first of these has free nodes, `vma_alloc` returns the first one of them. The invariant holds
-- behind it, with the block as the thread's; the node is free no more, and all other blocks' free
-- nodes and the other threads' pools are as before. The superblock stays listed only where it has
-- more free blocks, which are the others as before, and its counter counts the rest.
pub vma_alloc-Fetched :
    (sys : PoolSystem) (v : View) (t p : ℕ) (ps : List ℕ) (b : ℕ) (bs : List ℕ) (x : ℕ)
    (xs : List ℕ) (s : Arena)
    → IsPool v s
    → v.pool t ≡ []
    → IsOffer v p ps b bs s
    → v.free b ≡ x ∷ xs
    → (s' : Arena) × (vma_alloc sys t s ≡ ok (s', x)) × Fetched v t p ps b bs x s'
unfolding vma_alloc
vma_alloc-Fetched sys v t p ps b bs x xs s valid none o free =
    let s₁ = mpool_init t s in
    let ready = mpool_init-IsReady v t p ps b bs s valid none o in
    let (s', run, w) = alloc_stealing-Fetched v t p ps b bs sys x xs s₁ ready none free in
    (
      s',
      if-true (λ r. r ≡ ok (s', x)) (s₁.m_head t == 0) (alloc_stealing sys t s₁)
          (alloc_cached t (s₁.m_head t) s₁) (==-true (s₁.m_head t) 0 ready.2) run,
      w,
    )
