-- ===== src/VmaAlloc/Valid.antt =====
-- The invariant of the blocks that threads hold.
use open_ooc.Base.{
  ℕ, ◌+◌, ◌≡◌, ◌≢◌, inl, inr, Bool, true, List, [], ◌∷◌, ◌++◌, upd, sym, ◌∙◌, ap, subst, ==-true,
  ==-false, eq-cases, length,
}
use open_ooc.VmaAlloc.Arena.{
  Arena, block_ctr_full, PoolCall, get_lock, pool_call, count_wait, block_lock, mpool_lock,
}
use open_ooc.VmaAlloc.Superblocks.{vma_2block}
use open_ooc.VmaAlloc.Lists.{All, NotIn, Distinct, IsList, IsChain}

-- The allocator as its callers may think of it: which blocks threads hold, the free nodes of each
-- of these, and the blocks with free nodes of each thread.
pub record View : Type 0 where
  pub known : ℕ → Bool
  pub free : ℕ → List ℕ
  pub pool : ℕ → List ℕ

-- The block `b` has the free nodes `xs`, all of them its own, and its counter counts the others.
abbrev pub IsBlock : (ℕ → ℕ) → ℕ → ℕ → ℕ → List ℕ → Type 0
IsBlock next b head vctr xs =
    (b ≢ 0)
    × IsList next head xs
    × All (λ x. vma_2block x ≡ b) xs
    × Distinct xs
    × (vctr + length xs ≡ block_ctr_full)

abbrev pub Listed : ℕ → List ℕ → Type 0
Listed b xs = (ys : List ℕ) × (zs : List ℕ) × (xs ≡ ys ++ (b ∷ zs))

abbrev pub IsMember : View → (ℕ → ℕ) → ℕ → ℕ → Type 0
IsMember v mpool t b = (v.known b ≡ true) × (mpool b ≡ t) × (v.free b ≢ [])

-- Each block is right, and each thread's pool is a list of the thread's blocks with free nodes.
pub record IsPool (v : View) (s : Arena) : Type 0 where
  pub block : (b : ℕ) → v.known b ≡ true → IsBlock s.vm_next b (s.b_head b) (s.b_vctr b) (v.free b)
  pub chain : (t : ℕ) → IsChain s.b_prev s.b_next (s.m_head t) (v.pool t)
  pub distinct : (t : ℕ) → Distinct (v.pool t)
  pub members : (t : ℕ) → All (IsMember v s.b_mpool t) (v.pool t)
  pub listed : (b : ℕ) → v.known b ≡ true → v.free b ≢ [] → Listed b (v.pool (s.b_mpool b))
  pub fresh : (t : ℕ) → s.m_init t ≡ 0 → v.pool t ≡ []
  pub owner : (b : ℕ) → v.known b ≡ true → s.m_init (s.b_mpool b) ≢ 0

-- What `upd` holds.
module _ {A : Type 0} (f : ℕ → A) (a : ℕ) (v : A) (P : ℕ → A → Type 0) where
  pub upd_case : (x : ℕ) → (x ≡ a → P x v) → (x ≢ a → P x (f x)) → P x (upd f a v x)
  upd_case x same other = elim (eq-cases x a) [
    | inl e ↦ rw (==-true x a e) (same e)
    | inr ne ↦ rw (==-false x a ne) (other ne)
  ]

-- The blocks after a change of one of them.
pub IsBlock-upd :
    (next head vctr : ℕ → ℕ) (free : ℕ → List ℕ) (known : ℕ → Bool) (b h n : ℕ) (xs : List ℕ)
    → ((c : ℕ) → c ≢ b → known c ≡ true → IsBlock next c (head c) (vctr c) (free c))
    → IsBlock next b h n xs
    → (c : ℕ) → known c ≡ true
    → IsBlock next c (upd head b h c) (upd vctr b n c) (upd free b xs c)
IsBlock-upd next head vctr free known b h n xs old new c k = elim (eq-cases c b) [
  | inl e ↦ rw (==-true c b e) (subst (λ d. IsBlock next d h n xs) (sym e) new)
  | inr ne ↦ rw (==-false c b ne) (old c ne k)
]

-- Blocks of different threads differ.
pub other_thread :
    (v : View) (mpool : ℕ → ℕ) (t u c : ℕ) (xs : List ℕ)
    → mpool c ≡ t
    → u ≢ t
    → All (IsMember v mpool u) xs
    → NotIn c xs
other_thread v mpool t u c [] e ne m = tt
other_thread v mpool t u c (a ∷ xs) e ne m =
    ((λ q. ne (sym m.0.1 ∙ ap mpool q ∙ e)), other_thread v mpool t u c xs e ne m.1)

-- So do blocks with and without free nodes.
pub full_block :
    (v : View) (mpool : ℕ → ℕ) (u c : ℕ) (xs : List ℕ)
    → v.free c ≡ []
    → All (IsMember v mpool u) xs
    → NotIn c xs
full_block v mpool u c [] e m = tt
full_block v mpool u c (a ∷ xs) e m =
    ((λ q. m.0.2 (ap v.free q ∙ e)), full_block v mpool u c xs e m.1)

-- The locks and their counters do not matter.
pub IsPool-call : (v : View) (c : PoolCall) (s : Arena) → IsPool v s → IsPool v (pool_call c s)
IsPool-call v c s p = record {
  block = p.block;
  chain = p.chain;
  distinct = p.distinct;
  members = p.members;
  listed = p.listed;
  fresh = p.fresh;
  owner = p.owner;
}

pub IsPool-get_block :
    (v : View) (b : ℕ) (s : Arena) → IsPool v s → IsPool v (get_lock (block_lock b) s)
unfolding get_lock count_wait
IsPool-get_block v b s p = record {
  block = p.block;
  chain = p.chain;
  distinct = p.distinct;
  members = p.members;
  listed = p.listed;
  fresh = p.fresh;
  owner = p.owner;
}

pub IsPool-get_mpool :
    (v : View) (t : ℕ) (s : Arena) → IsPool v s → IsPool v (get_lock (mpool_lock t) s)
unfolding get_lock count_wait
IsPool-get_mpool v t s p = record {
  block = p.block;
  chain = p.chain;
  distinct = p.distinct;
  members = p.members;
  listed = p.listed;
  fresh = p.fresh;
  owner = p.owner;
}
