-- ===== src/VmaAlloc/Stolen.antt =====
-- `S_block_steal_and_lock` where a listed superblock has a free block.
use open_ooc.Base.{
  ℕ, ◌≡◌, refl, not, List, ok, ◌>>=◌, ◌>>◌, assert, sym, ◌∙◌, ap, if-false, ==-false, Run, ◌==◌,
  if◌then◌else◌, ◌≢◌,
}
use open_ooc.VmaAlloc.Arena.{
  Arena, PoolSystem, get_lock, let_lock, count_wait, gpool_lock, block_lock, superblock_lock,
}
use open_ooc.VmaAlloc.Valid.{View, IsPool}
use open_ooc.VmaAlloc.Superblocks.{superblock_get_and_lock}
use open_ooc.VmaAlloc.Ops.{take_block, retire_superblock, steal_from, block_steal_and_lock}
use open_ooc.VmaAlloc.Steal.{IsOffer, Handed, retire_superblock-Handed}

-- The locks of the superblock and of the block.
abbrev held : ℕ → ℕ → Arena → Arena
held p b s = get_lock (block_lock b) (get_lock (superblock_lock p) s)

held-IsPool : (v : View) (p b : ℕ) (s : Arena) → IsPool v s → IsPool v (held p b s)
unfolding get_lock count_wait
held-IsPool v p b s w = record {
  block = w.block;
  chain = w.chain;
  distinct = w.distinct;
  members = w.members;
  listed = w.listed;
  fresh = w.fresh;
  owner = w.owner;
}

held-IsOffer :
    (v : View) (p : ℕ) (ps : List ℕ) (b : ℕ) (bs : List ℕ) (s : Arena)
    → IsOffer v p ps b bs s
    → IsOffer v p ps b bs (held p b s)
unfolding get_lock count_wait
held-IsOffer v p ps b bs s o = record {
  stock = o.stock;
  distinct = o.distinct;
  blocks = o.blocks;
  blocks_distinct = o.blocks_distinct;
  unknown = o.unknown;
  count = o.count;
  block = o.block;
}

held-Handed :
    (v : View) (p : ℕ) (ps : List ℕ) (b : ℕ) (bs : List ℕ) (s s' : Arena)
    → Handed v p ps b bs (held p b s) s'
    → Handed v p ps b bs s (let_lock gpool_lock (let_lock (superblock_lock p) s'))
unfolding get_lock count_wait
held-Handed v p ps b bs s s' w = record {
  valid = record {
    block = w.valid.block;
    chain = w.valid.chain;
    distinct = w.valid.distinct;
    members = w.valid.members;
    listed = w.valid.listed;
    fresh = w.valid.fresh;
    owner = w.valid.owner;
  };
  block = w.block;
  m_init = w.m_init;
  stock = w.stock;
  blocks = w.blocks;
  unknown = w.unknown;
  out = w.out;
  count = w.count;
}

module _ (v : View) (p : ℕ) (ps : List ℕ) (b : ℕ) (bs : List ℕ) (s : Arena) (valid : IsPool v s)
    (o : IsOffer v p ps b bs s) where
  abbrev s₂ : Arena
  s₂ = get_lock (superblock_lock p) s

  s_head : s₂.s_head p ≡ b
  unfolding get_lock count_wait
  s_head = o.blocks.0

  -- With the global lock and that of the superblock.
  pub steal_from-Handed : (s' : Arena) × (steal_from p s₂ ≡ ok (s', b)) × Handed v p ps b bs s s'
  unfolding steal_from
  steal_from-Handed =
      let (s₄, run, w) =
        retire_superblock-Handed v p ps b bs (held p b s) (held-IsPool v p b s valid)
          (held-IsOffer v p ps b bs s o) in
      let end : Arena → Run (Arena × ℕ) =
        λ s₁. ok (let_lock gpool_lock (let_lock (superblock_lock p) s₁), b) in
      (
        let_lock gpool_lock (let_lock (superblock_lock p) s₄),
        ap
              (λ c.
                assert (not (c == 0))
                >> (retire_superblock p (take_block p c (get_lock (block_lock c) s₂)) >>= λ s₁.
                    ok (let_lock gpool_lock (let_lock (superblock_lock p) s₁), c)))
              s_head
            ∙ ap
                (λ q. assert (not q) >> (retire_superblock p (take_block p b (held p b s)) >>= end))
                (==-false b 0 o.blocks.1)
            ∙ ap (λ r. r >>= end) run,
        held-Handed v p ps b bs s s₄ w,
      )

-- The superblock is found, or made.
pub steal-steal_from :
    (sys : PoolSystem) (s s₂ : Arena) (p : ℕ)
    → p ≢ 0
    → superblock_get_and_lock sys (get_lock gpool_lock s) ≡ (s₂, p)
    → block_steal_and_lock sys s ≡ steal_from p s₂
unfolding block_steal_and_lock
steal-steal_from sys s s₂ p real got =
    ap (λ (s₁, q). if q == 0 then ok (let_lock gpool_lock s₁, 0) else steal_from q s₁) got
    ∙ if-false (λ r. r ≡ steal_from p s₂) (p == 0) (ok (let_lock gpool_lock s₂, 0))
        (steal_from p s₂) (==-false p 0 real) refl

pub get_listed :
    (sys : PoolSystem) (s : Arena) (p : ℕ)
    → s.g_head ≡ p
    → p ≢ 0
    → superblock_get_and_lock sys s ≡ (get_lock (superblock_lock p) s, p)
unfolding superblock_get_and_lock
get_listed sys s p e real =
    if-false (λ r. r ≡ (get_lock (superblock_lock p) s, p)) (s.g_head == 0) _ _
      (==-false s.g_head 0 (λ z. real (sym e ∙ z)))
      (ap (λ h. (get_lock (superblock_lock h) s, h)) e)

module _ (v : View) (p : ℕ) (ps : List ℕ) (b : ℕ) (bs : List ℕ) (s : Arena) where
  pub global-IsPool : IsPool v s → IsPool v (get_lock gpool_lock s)
  unfolding get_lock count_wait
  global-IsPool w = record {
    block = w.block;
    chain = w.chain;
    distinct = w.distinct;
    members = w.members;
    listed = w.listed;
    fresh = w.fresh;
    owner = w.owner;
  }

  global-IsOffer : IsOffer v p ps b bs s → IsOffer v p ps b bs (get_lock gpool_lock s)
  unfolding get_lock count_wait
  global-IsOffer o = record {
    stock = o.stock;
    distinct = o.distinct;
    blocks = o.blocks;
    blocks_distinct = o.blocks_distinct;
    unknown = o.unknown;
    count = o.count;
    block = o.block;
  }

  global-Handed :
      (s' : Arena) → Handed v p ps b bs (get_lock gpool_lock s) s' → Handed v p ps b bs s s'
  unfolding get_lock count_wait
  global-Handed s' w = record {
    valid = w.valid;
    block = w.block;
    m_init = w.m_init;
    stock = w.stock;
    blocks = w.blocks;
    unknown = w.unknown;
    out = w.out;
    count = w.count;
  }

  global_head : IsOffer v p ps b bs s → (get_lock gpool_lock s).g_head ≡ p
  unfolding get_lock count_wait
  global_head o = o.stock.0

  pub block_steal_and_lock-Handed :
      (sys : PoolSystem)
      → IsPool v s
      → IsOffer v p ps b bs s
      → (s' : Arena) × (block_steal_and_lock sys s ≡ ok (s', b)) × Handed v p ps b bs s s'
  block_steal_and_lock-Handed sys valid o =
      let g = get_lock gpool_lock s in
      let (s', run, w) = steal_from-Handed v p ps b bs g (global-IsPool valid) (global-IsOffer o) in
      (
        s',
        steal-steal_from sys s (get_lock (superblock_lock p) g) p o.stock.1
              (get_listed sys g p (global_head o) o.stock.1)
            ∙ run,
        global-Handed s' w,
      )
