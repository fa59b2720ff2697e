-- ===== src/VmaAlloc/Failure.antt =====
-- `vma_alloc` where there is no memory.
use open_ooc.Base.{
  ℕ, ◌≡◌, inl, inr, refl, List, [], ◌∷◌, ok, ◌>>=◌, upd_self, ap, subst, eq-cases, if-true,
  if-false, ==-true, ==-false, if◌then◌else◌, ◌==◌, ◌≢◌, arith, sym, ◌∙◌,
}
use open_ooc.VmaAlloc.Arena.{
  Arena, PoolSystem, PoolCall, get_lock, let_lock, lock_get, lock_let, count_wait, gpool_lock,
  mpool_lock,
}
use open_ooc.VmaAlloc.Lists.{IsChain}
use open_ooc.VmaAlloc.Valid.{View, IsPool}
use open_ooc.VmaAlloc.Superblocks.{superblock_get_and_lock}
use open_ooc.VmaAlloc.Ops.{
  block_steal_and_lock, steal_from, mpool_init, adopt_block, alloc_from, alloc_stealing,
  alloc_cached, vma_alloc,
}
use open_ooc.VmaAlloc.Fetch.{set_up, set_up-IsPool}

-- The outcome: the invariant holds as before, there is no superblock still, and the global lock is
-- released.
pub record Refused (v : View) (s' : Arena) : Type 0 where
  pub valid : IsPool v s'
  pub g_head : s'.g_head ≡ 0
  pub earlier : List PoolCall
  pub calls : s'.calls ≡ lock_let gpool_lock ∷ lock_get gpool_lock ∷ earlier

-- The pool of the thread is set up, and there is no superblock.
abbrev pub IsEmpty : View → ℕ → Arena → Type 0
IsEmpty v t s = IsPool v s × (s.m_init t ≢ 0) × (s.m_head t ≡ 0) × (s.g_head ≡ 0)

pub mpool_init-IsEmpty :
    (v : View) (t : ℕ) (s : Arena)
    → IsPool v s
    → v.pool t ≡ []
    → s.g_head ≡ 0
    → IsEmpty v t (mpool_init t s)
unfolding mpool_init
mpool_init-IsEmpty v t s w none e = elim (eq-cases (s.m_init t) 0) [
  | inl z ↦ if-true (IsEmpty v t) (s.m_init t == 0) (set_up v t s) s (==-true (s.m_init t) 0 z) (
    set_up-IsPool v t s w none,
    (λ q. absurd (omega (arith, sym (upd_self s.m_init t 1) ∙ q))),
    upd_self s.m_head t 0,
    e,
  )
  | inr ne ↦
      if-false (IsEmpty v t) (s.m_init t == 0) (set_up v t s) s (==-false (s.m_init t) 0 ne)
        (w, ne, subst (IsChain s.b_prev s.b_next (s.m_head t)) none (w.chain t), e)
]

module _ (sys : PoolSystem) (empty : (s : Arena) → sys.sys_alloc s ≡ 0) (s : Arena)
    (none : s.g_head ≡ 0) where
  abbrev g : Arena
  g = get_lock gpool_lock s

  g_none : g.g_head ≡ 0
  unfolding get_lock count_wait
  g_none = none

  get-nothing : superblock_get_and_lock sys g ≡ (g, 0)
  unfolding superblock_get_and_lock
  get-nothing =
      if-true (λ r. r ≡ (g, 0)) (g.g_head == 0) _ _ (==-true g.g_head 0 g_none)
        (if-true (λ r. r ≡ (g, 0)) (sys.sys_alloc g == 0) (g, 0) _
          (==-true (sys.sys_alloc g) 0 (empty g)) refl)

  steal-nothing : block_steal_and_lock sys s ≡ ok (let_lock gpool_lock g, 0)
  unfolding block_steal_and_lock
  steal-nothing =
      ap (λ (s₁, q). if q == 0 then ok (let_lock gpool_lock s₁, 0) else steal_from q s₁) get-nothing

  alloc-nothing : (t : ℕ) → alloc_stealing sys t s ≡ ok (let_lock gpool_lock g, 0)
  unfolding alloc_stealing
  alloc-nothing t =
      ap
        (λ r. r >>= λ (s₁, c).
          if c == 0
          then ok (s₁, 0)
          else alloc_from t c (adopt_block t c (get_lock (mpool_lock t) s₁)))
        steal-nothing

  nothing-Refused : (v : View) → IsPool v s → Refused v (let_lock gpool_lock g)
  unfolding get_lock count_wait
  nothing-Refused v w = record {
    valid = record {
      block = w.block;
      chain = w.chain;
      distinct = w.distinct;
      members = w.members;
      listed = w.listed;
      fresh = w.fresh;
      owner = w.owner;
    };
    g_head = none;
    earlier = s.calls;
    calls = refl;
  }

-- Where the thread has no block with free nodes, no superblock is listed, and the system gives no
-- memory, `vma_alloc` returns NULL; the invariant holds as before, no superblock is listed, and the
-- lock of the global pool is released.
pub vma_alloc-Refused :
    (sys : PoolSystem) (v : View) (t : ℕ) (s : Arena)
    → ((s : Arena) → sys.sys_alloc s ≡ 0)
    → IsPool v s
    → v.pool t ≡ []
    → s.g_head ≡ 0
    → (s' : Arena) × (vma_alloc sys t s ≡ ok (s', 0)) × Refused v s'
unfolding vma_alloc
vma_alloc-Refused sys v t s empty valid none no_stock =
    let s₁ = mpool_init t s in
    let (w, ready, head, e) = mpool_init-IsEmpty v t s valid none no_stock in
    let s' = let_lock gpool_lock (get_lock gpool_lock s₁) in
    (
      s',
      if-true (λ r. r ≡ ok (s', 0)) (s₁.m_head t == 0) (alloc_stealing sys t s₁)
          (alloc_cached t (s₁.m_head t) s₁) (==-true (s₁.m_head t) 0 head)
          (alloc-nothing sys empty s₁ e t),
      nothing-Refused sys empty s₁ e v w,
    )
