-- ===== src/VmaAlloc/Grown.antt =====
-- `vma_alloc` that makes a new superblock.
use open_ooc.Base.{
  ℕ, ◌+◌, ◌%◌, ◌≡◌, ◌≢◌, refl, arith, List, [], ◌∷◌, ok, upd, upd_same, sym, ◌∙◌, ap, if-true,
  if-false, ==-true, ==-false, ◌==◌, true, false, inl, inr, Bool-cases,
}
use open_ooc.VmaAlloc.Arena.{Arena, PoolSystem, get_lock, count_wait, gpool_lock, superblock_lock}
use open_ooc.VmaAlloc.Valid.{View, IsPool}
use open_ooc.VmaAlloc.Superblocks.{new_superblock, superblock_get_and_lock}
use open_ooc.VmaAlloc.Ops.{
  block_steal_and_lock, mpool_init, alloc_stealing, alloc_cached, vma_alloc,
}
use open_ooc.VmaAlloc.Nodes.{nodes}
use open_ooc.VmaAlloc.Setup.{blocks}
use open_ooc.VmaAlloc.Steal.{Handed}
use open_ooc.VmaAlloc.Stolen.{steal_from-Handed, steal-steal_from, global-IsPool}
use open_ooc.VmaAlloc.Fetch.{Fetched, alloc_stealing-Handed}
use open_ooc.VmaAlloc.Failure.{mpool_init-IsEmpty}
use open_ooc.VmaAlloc.Grow.{
  IsClear, new_superblock-IsPool, new_superblock-IsOffer, new_superblock_init,
}

get_new :
    (sys : PoolSystem) (g : Arena) (p : ℕ)
    → g.g_head ≡ 0
    → sys.sys_alloc g ≡ p
    → p ≢ 0
    → superblock_get_and_lock sys g ≡ (get_lock (superblock_lock p) (new_superblock p g), p)
unfolding superblock_get_and_lock
get_new sys g p none fresh real =
    let r : Arena × ℕ = (get_lock (superblock_lock p) (new_superblock p g), p) in
    if-true (λ z. z ≡ r) (g.g_head == 0) _ _ (==-true g.g_head 0 none)
      (if-false (λ z. z ≡ r) (sys.sys_alloc g == 0) _ _
        (==-false (sys.sys_alloc g) 0 (λ e. real (sym fresh ∙ e)))
        (ap (λ q. (get_lock (superblock_lock q) (new_superblock q g), q)) fresh))

-- The view with the nodes of the first block of the superblock `p`.
abbrev pub with_nodes : View → ℕ → View
with_nodes v p = record v { free = upd v.free (p + 4096) (nodes 55 (p + 4096 + 64)) }

module _ (sys : PoolSystem) (v : View) (p : ℕ) (real : p ≢ 0) (aligned : p % 4096 ≡ 0)
    (clear : (c : ℕ) → v.known c ≡ true → IsClear p c)
    (fresh : (g : Arena) → sys.sys_alloc g ≡ p) where
  abbrev bs : List ℕ
  bs = blocks 62 (p + 4096 + 4096)

  same_head : (s : Arena) → s.g_head ≡ 0 → (get_lock gpool_lock s).g_head ≡ 0
  unfolding get_lock count_wait
  same_head s e = e

  same_init : (s : Arena) → (get_lock gpool_lock s).m_init ≡ s.m_init
  unfolding get_lock count_wait
  same_init s = refl

  new-Handed :
      (s : Arena)
      → IsPool v s
      → s.g_head ≡ 0
      → (s' : Arena) × (block_steal_and_lock sys s ≡ ok (s', p + 4096))
        × Handed (with_nodes v p) p [] (p + 4096) bs s s'
  new-Handed s valid none =
      let g = get_lock gpool_lock s in
      let valid' = global-IsPool v p [] (p + 4096) bs s valid in
      let n = new_superblock p g in
      let (s', run, w) =
        steal_from-Handed (with_nodes v p) p [] (p + 4096) bs n
          (new_superblock-IsPool v p g valid' real aligned clear)
          (new_superblock-IsOffer v p g valid' real aligned clear) in
      (
        s',
        steal-steal_from sys s (get_lock (superblock_lock p) n) p real
              (get_new sys g p (same_head s none) (fresh g) real)
            ∙ run,
        record {
          valid = w.valid;
          block = w.block;
          m_init = w.m_init ∙ new_superblock_init v p g valid' real aligned clear ∙ same_init s;
          stock = w.stock;
          blocks = w.blocks;
          unknown = w.unknown;
          out = w.out;
          count = w.count;
        },
      )

  first_node : nodes 55 (p + 4096 + 64) ≡ (p + 4096 + 64) ∷ nodes 54 (p + 4096 + 64 + 72)
  unfolding nodes
  first_node = refl

  first_unknown : v.known (p + 4096) ≡ false
  first_unknown = elim (Bool-cases (v.known (p + 4096))) [
    | inl k ↦ absurd (inside (clear (p + 4096) k))
    | inr k ↦ k
  ]
    where
      inside : IsClear p (p + 4096) → ⊥
      inside (inl l) = omega (arith, l)
      inside (inr l) = omega (arith, l)

-- Where the thread has no block with free nodes, no superblock is listed, and the system gives a
-- superblock at a multiple of the size of a block that overlaps no block a thread holds,
-- `vma_alloc` returns the first node of its first block. The invariant holds behind it, with the
-- block as the thread's; the superblock is the only one that is listed, has its 62 other blocks as
-- free ones, and counts the block that is gone.
pub vma_alloc-Grown :
    (sys : PoolSystem) (v : View) (t p : ℕ) (s : Arena)
    → IsPool v s
    → v.pool t ≡ []
    → s.g_head ≡ 0
    → p ≢ 0
    → p % 4096 ≡ 0
    → ((c : ℕ) → v.known c ≡ true → IsClear p c)
    → ((g : Arena) → sys.sys_alloc g ≡ p)
    → (s' : Arena) × (vma_alloc sys t s ≡ ok (s', p + 4096 + 64))
      × Fetched (with_nodes v p) t p [] (p + 4096) (blocks 62 (p + 4096 + 4096)) (p + 4096 + 64) s'
unfolding vma_alloc
vma_alloc-Grown sys v t p s valid none no_stock real aligned clear fresh =
    let s₁ = mpool_init t s in
    let (w, ready, head, e) = mpool_init-IsEmpty v t s valid none no_stock in
    let (s₂, run, z) = new-Handed sys v p real aligned clear fresh s₁ w e in
    let b = p + 4096 in
    let (s', run', f) =
      alloc_stealing-Handed (with_nodes v p) t p [] b (blocks 62 (b + 4096)) sys (b + 64)
        (nodes 54 (b + 64 + 72)) s₁ s₂ run z (λ q. absurd (omega (arith, q)))
        (first_unknown sys v p real aligned clear fresh) ready none
        (upd_same v.free b (nodes 55 (b + 64)) ∙ first_node sys v p real aligned clear fresh) in
    (
      s',
      if-true (λ r. r ≡ ok (s', b + 64)) (s₁.m_head t == 0) (alloc_stealing sys t s₁)
          (alloc_cached t (s₁.m_head t) s₁) (==-true (s₁.m_head t) 0 head) run',
      f,
    )
