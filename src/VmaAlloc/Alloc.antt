-- ===== src/VmaAlloc/Alloc.antt =====
-- `vma_alloc` of a thread that has a block with free nodes.
use open_ooc.Base.{
  ℕ, ◌≡◌, ◌≢◌, ◌⊎◌, true, inl, inr, refl, false, List, [], ◌∷◌, arith, upd, sym, ◌∙◌, ap, subst,
  ==-false, length, add64, ◌==◌, ok, if-false, upd_self, upd_same, upd_ne, if◌then◌else◌,
}
use open_ooc.VmaAlloc.Arena.{
  Arena, block_ctr_full, get_lock, let_lock, block_lock, mpool_lock, lock_let, PoolSystem,
  count_wait,
}
use open_ooc.VmaAlloc.Superblocks.{vma_2block}
use open_ooc.VmaAlloc.Lists.{All, set_prev_miss, NotIn, IsList, IsChain, cons-ne, empty-cases}
use open_ooc.VmaAlloc.Valid.{
  View, IsMember, IsBlock, IsPool, IsPool-call, IsPool-get_mpool, IsPool-get_block,
}
use open_ooc.VmaAlloc.Ops.{
  take_vma, retire_block, alloc_from, alloc_cached, vma_alloc, mpool_init, alloc_stealing,
}
use open_ooc.VmaAlloc.Take.{old, more_free, none_free, retired}

-- The superblocks are as before.
abbrev pub SameStock : Arena → Arena → Type 0
SameStock s s' =
    (s'.g_head ≡ s.g_head)
    × (s'.s_head ≡ s.s_head)
    × (s'.s_bctr ≡ s.s_bctr)
    × (s'.s_prev ≡ s.s_prev)
    × (s'.s_next ≡ s.s_next)

-- The links of the blocks that no thread holds are as before, and so are all links forward.
abbrev pub SameLinks : View → Arena → Arena → Type 0
SameLinks v s s' = (s'.b_next ≡ s.b_next) × ((c : ℕ) → v.known c ≡ false → s'.b_prev c ≡ s.b_prev c)

-- The outcome: the node `x` of the block `b` is handed out, and is free no more; nothing else
-- changes for the callers.
pub record Allocated (v : View) (t b x : ℕ) (s s' : Arena) : Type 0 where
  pub v' : View
  pub valid : IsPool v' s'
  pub own : vma_2block x ≡ b
  pub was_free : v.free b ≡ x ∷ v'.free b
  pub gone : NotIn x (v'.free b)
  pub others : (c : ℕ) → c ≢ b → v'.free c ≡ v.free c
  pub known : v'.known ≡ v.known
  pub threads : (u : ℕ) → u ≢ t → v'.pool u ≡ v.pool u
  pub superblocks : SameStock s s'
  pub links : SameLinks v s s'

module _ (t b x : ℕ) (xs bs : List ℕ) (v : View) (s : Arena) (valid : IsPool v s)
    (pool : v.pool t ≡ b ∷ bs) (free : v.free b ≡ x ∷ xs) where
  abbrev before : IsBlock s.vm_next b (s.b_head b) (s.b_vctr b) (x ∷ xs)
  before = old t b x xs bs v s valid pool free

  head_real : (s.b_head b == 0) ≡ false
  head_real = ==-false (s.b_head b) 0 (λ e. before.1.1 (sym before.1.0 ∙ e))

  -- The new head of the block, and its new count.
  next_head : IsList s.vm_next (s.vm_next (s.b_head b)) xs
  next_head = subst (λ q. IsList s.vm_next (s.vm_next q) xs) (sym before.1.0) before.1.2

  list_end : (ys : List ℕ) (p : ℕ) → IsList s.vm_next p ys → ys ≡ [] → p ≡ 0
  list_end [] p l e = l
  list_end (y ∷ ys) p l e = absurd (cons-ne y ys e)

  list_more : (ys : List ℕ) (p : ℕ) → IsList s.vm_next p ys → ys ≢ [] → p ≢ 0
  list_more [] p l ne e = ne refl
  list_more (y ∷ ys) p l ne e = l.1 (sym l.0 ∙ e)

  full_count : xs ≡ [] → add64 (s.b_vctr b) 1 ≡ block_ctr_full
  full_count e = omega (arith, before.4, ap length e)

  retire-none :
      xs ≡ [] → retire_block t b (take_vma b s) ≡ ok (retired t b x xs bs v s valid pool free)
  unfolding retire_block take_vma
  retire-none e =
      rw
        (
          upd_self s.b_head b (s.vm_next (s.b_head b)),
          upd_self s.b_vctr b (add64 (s.b_vctr b) 1),
          list_end xs (s.vm_next (s.b_head b)) next_head e,
          full_count e,
        )
        refl

  retire-more : xs ≢ [] → retire_block t b (take_vma b s) ≡ ok (take_vma b s)
  unfolding retire_block take_vma
  retire-more ne =
      rw
        (
          upd_self s.b_head b (s.vm_next (s.b_head b)),
          ==-false (s.vm_next (s.b_head b)) 0 (list_more xs (s.vm_next (s.b_head b)) next_head ne),
        )
        refl

  abbrev unlocked : Arena → Arena
  unlocked s' = let_lock (block_lock b) (let_lock (mpool_lock t) s')

  unlocked-IsPool : (v' : View) (s' : Arena) → IsPool v' s' → IsPool v' (unlocked s')
  unlocked-IsPool v' s' w =
      IsPool-call v' (lock_let (block_lock b)) (let_lock (mpool_lock t) s')
        (IsPool-call v' (lock_let (mpool_lock t)) s' w)

  outcome :
      (pool' : ℕ → List ℕ) (s' : Arena)
      → IsPool (record v { free = upd v.free b xs; pool = pool' }) s'
      → ((u : ℕ) → u ≢ t → pool' u ≡ v.pool u)
      → SameStock s s'
      → SameLinks v s s'
      → Allocated v t b x s (unlocked s')
  outcome pool' s' w same stock links =
      let after : upd v.free b xs b ≡ xs = upd_same v.free b xs in
      record {
        v' = record v { free = upd v.free b xs; pool = pool' };
        valid = unlocked-IsPool (record v { free = upd v.free b xs; pool = pool' }) s' w;
        own = before.2.0;
        was_free = free ∙ ap (λ l. x ∷ l) (sym after);
        gone = subst (NotIn x) (sym after) before.3.0;
        others = λ c ne. upd_ne v.free b xs c ne;
        known = refl;
        threads = same;
        superblocks = stock;
        links = links;
      }

  -- The block behind `b` in the thread's pool is one that the thread holds.
  behind :
      (ds : List ℕ) (c : ℕ)
      → IsChain s.b_prev s.b_next (s.b_next b) ds
      → All (IsMember v s.b_mpool t) ds
      → v.known c ≡ false
      → (s.b_next b ≡ 0) ⊎ (s.b_next b ≢ c)
  behind [] c l m e = inl l
  behind (d ∷ ds) c l m e =
      inr (λ q. let h : true ≡ false = sym m.0.0 ∙ ap v.known (sym l.0 ∙ q) ∙ e in absurd (cc))

  behind_known : (c : ℕ) → v.known c ≡ false → (s.b_next b ≡ 0) ⊎ (s.b_next b ≢ c)
  behind_known c e =
      behind bs c (subst (IsChain s.b_prev s.b_next (s.m_head t)) pool (valid.chain t)).3
        (subst (All (IsMember v s.b_mpool t)) pool (valid.members t)).1 e

  pub alloc_from-Allocated : (s' : Arena) × (alloc_from t b s ≡ ok (s', x)) × Allocated v t b x s s'
  unfolding alloc_from
  alloc_from-Allocated = elim (empty-cases xs) [
    | inl e ↦
        let s₁ = retired t b x xs bs v s valid pool free in
        (
          unlocked s₁,
          rw (head_real, retire-none e, before.1.0) refl,
          outcome (upd v.pool t bs) s₁ (none_free t b x xs bs v s valid pool free e)
              (λ u ne. upd_ne v.pool t bs u ne) (refl, refl, refl, refl, refl)
              (refl, λ c e. set_prev_miss s.b_prev (s.b_next b) (s.b_prev b) c (behind_known c e)),
        )
    | inr ne ↦
        let s₁ = take_vma b s in
        (
          unlocked s₁,
          rw (head_real, retire-more ne, before.1.0) refl,
          outcome v.pool s₁ (more_free t b x xs bs v s valid pool free ne) (λ u ne'. refl)
              (refl, refl, refl, refl, refl) (refl, λ c e. refl),
        )
  ]

-- A thread that has a pool was set up.
module _ (v : View) (s : Arena) (valid : IsPool v s) (t b : ℕ) (bs : List ℕ)
    (pool : v.pool t ≡ b ∷ bs) where
  head-pool : s.m_head t ≡ b
  head-pool = (subst (IsChain s.b_prev s.b_next (s.m_head t)) pool (valid.chain t)).0

  real-pool : b ≢ 0
  real-pool = (subst (IsChain s.b_prev s.b_next (s.m_head t)) pool (valid.chain t)).1

  is_set_up : mpool_init t s ≡ s
  unfolding mpool_init
  is_set_up =
      let ne : s.m_init t ≢ 0 = λ e. cons-ne b bs (sym pool ∙ valid.fresh t e) in
      rw (==-false (s.m_init t) 0 ne) refl

  not_null : (s.m_head t == 0) ≡ false
  not_null = ==-false (s.m_head t) 0 (λ e. real-pool (sym head-pool ∙ e))

  vma_alloc-alloc_cached : (sys : PoolSystem) → vma_alloc sys t s ≡ alloc_cached t b s
  unfolding vma_alloc
  vma_alloc-alloc_cached sys =
      subst
        (λ s₁.
          (if s₁.m_head t == 0 then alloc_stealing sys t s₁ else alloc_cached t (s₁.m_head t) s₁)
          ≡ alloc_cached t b s)
        (sym is_set_up)
        (if-false (λ r. r ≡ alloc_cached t b s) (s.m_head t == 0) (alloc_stealing sys t s)
          (alloc_cached t (s.m_head t) s) not_null (ap (λ h. alloc_cached t h s) head-pool))

SameStock-get_locks :
    (t b : ℕ) (s : Arena) → SameStock s (get_lock (mpool_lock t) (get_lock (block_lock b) s))
unfolding get_lock count_wait
SameStock-get_locks t b s = (refl, refl, refl, refl, refl)

SameLinks-get_locks :
    (v : View) (t b : ℕ) (s : Arena)
    → SameLinks v s (get_lock (mpool_lock t) (get_lock (block_lock b) s))
unfolding get_lock count_wait
SameLinks-get_locks v t b s = (refl, λ c e. refl)

-- A start with the same superblocks.
pub Allocated-SameStock :
    (v : View) (t b x : ℕ) (s s₁ s' : Arena)
    → SameStock s s₁
    → SameLinks v s s₁
    → Allocated v t b x s₁ s'
    → Allocated v t b x s s'
Allocated-SameStock v t b x s s₁ s' (g, h, n, p, q) (next, prev) w =
    let (g', h', n', p', q') = w.superblocks in
    record {
      v' = w.v';
      valid = w.valid;
      own = w.own;
      was_free = w.was_free;
      gone = w.gone;
      others = w.others;
      known = w.known;
      threads = w.threads;
      superblocks = (g' ∙ g, h' ∙ h, n' ∙ n, p' ∙ p, q' ∙ q);
      links = (w.links.0 ∙ next, λ c e. w.links.1 c e ∙ prev c e);
    }

-- Where the thread has a block with free nodes, `vma_alloc` returns the first free node of the
-- first such block. The invariant holds behind it, this node is free no more, and the free nodes of
-- all other blocks and the pools of all other threads are as before.
pub vma_alloc-Allocated :
    (sys : PoolSystem) (t b x : ℕ) (xs bs : List ℕ) (v : View) (s : Arena)
    → IsPool v s
    → v.pool t ≡ b ∷ bs
    → v.free b ≡ x ∷ xs
    → (s' : Arena) × (vma_alloc sys t s ≡ ok (s', x)) × Allocated v t b x s s'
unfolding alloc_cached
vma_alloc-Allocated sys t b x xs bs v s valid pool free =
    let s₁ = get_lock (mpool_lock t) (get_lock (block_lock b) s) in
    let locked = IsPool-get_mpool v t (get_lock (block_lock b) s) (IsPool-get_block v b s valid) in
    let (s', run, w) = alloc_from-Allocated t b x xs bs v s₁ locked pool free in
    (
      s',
      vma_alloc-alloc_cached v s valid t b bs pool sys ∙ run,
      Allocated-SameStock v t b x s s₁ s' (SameStock-get_locks t b s) (SameLinks-get_locks v t b s)
          w,
    )
