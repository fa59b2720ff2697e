-- ===== src/VmaAlloc/Grow.antt =====
-- A new superblock: the invariant behind its set-up.
use open_ooc.Base.{
  ℕ, zero, suc, ◌+◌, ◌*◌, ◌%◌, ◌≤◌, ◌<◌, ◌≡◌, ◌≢◌, ◌⊎◌, inl, inr, refl, arith, true, false, [], upd,
  upd_same, upd_ne, upd_self, sym, ◌∙◌, ap, subst, length, Bool-cases, add64,
}
use open_ooc.VmaAlloc.Arena.{Arena, pool_call, lock_init, superblock_lock, block_size}
use open_ooc.VmaAlloc.Lists.{All, All-map, Distinct, IsList, IsList-frame, IsChain, IsChain-frame}
use open_ooc.VmaAlloc.Superblocks.{vma_2block, superblock_list_setup, new_superblock}
use open_ooc.VmaAlloc.Valid.{View, IsBlock, IsMember, IsPool, Listed}
use open_ooc.VmaAlloc.Nodes.{nodes, length-nodes}
use open_ooc.VmaAlloc.Setup.{blocks, IsNew, superblock_list_setup-IsNew}
use open_ooc.VmaAlloc.Apart.{IsApart, IsApart-ne, Apart, setup_blocks-Apart}
use open_ooc.VmaAlloc.Steal.{IsOffer}

pub length-blocks : (count block : ℕ) → length (blocks count block) ≡ count
unfolding blocks
length-blocks zero block = refl
length-blocks (suc count) block = ap suc (length-blocks count (block + block_size))

pub blocks_within :
    (count block lo hi : ℕ)
    → lo ≤ block
    → block + count * 4096 ≤ hi
    → All (λ c. (lo ≤ c) × (c < hi)) (blocks count block)
unfolding blocks
blocks_within zero block lo hi le le' = tt
blocks_within (suc count) block lo hi le le' =
    ((le, omega arith), blocks_within count (block + block_size) lo hi (omega arith) (omega arith))

pub blocks-Distinct : (n a : ℕ) → Distinct (blocks n a)
unfolding blocks
blocks-Distinct zero a = tt
blocks-Distinct (suc n) a = (
  All-map (λ c. (a + 4096 ≤ c) × (c < a + 4096 + n * 4096)) (λ c. c ≢ a) (blocks n (a + 4096))
      (λ c b e. let l = b.0 in absurd (omega (arith, l, e)))
      (blocks_within n (a + 4096) (a + 4096) (a + 4096 + n * 4096) (omega arith) (omega arith)),
  blocks-Distinct n (a + 4096),
)

-- The block `c` does not overlap the superblock `p`.
abbrev pub IsClear : ℕ → ℕ → Type 0
IsClear p c = (c + 4096 ≤ p) ⊎ (p + 262144 ≤ c)

clear-IsApart : (p c : ℕ) → IsClear p c → IsApart (p + 4096) (p + 4096 + 63 * 4096) c
clear-IsApart p c (inl l) = inl (omega (arith, l))
clear-IsApart p c (inr l) = inr (omega (arith, l))

node-IsApart :
    (p c x : ℕ) → vma_2block x ≡ c → IsClear p c → IsApart (p + 4096) (p + 4096 + 63 * 4096) x
node-IsApart p c x e (inl l) = inl (omega (arith, e, l))
node-IsApart p c x e (inr l) = inr (omega (arith, e, l))

clear_outside : (p c : ℕ) → IsClear p c → p ≤ c → p + 262144 ≤ c
clear_outside p c (inl l) le = absurd (omega (arith, l, le))
clear_outside p c (inr l) le = l

module _ (v : View) (p : ℕ) (s : Arena) (valid : IsPool v s) (real : p ≢ 0) (aligned : p % 4096 ≡ 0)
    (clear : (c : ℕ) → v.known c ≡ true → IsClear p c) where
  abbrev b : ℕ
  b = p + 4096

  -- The view with the nodes of the first block.
  abbrev pub grown : View
  grown = record v { free = upd v.free b (nodes 55 (b + 64)) }

  -- The state in front of the set-up of the lists.
  abbrev made : Arena
  made = pool_call (lock_init (superblock_lock p)) (record s {
    g_actr = add64 s.g_actr 1;
    g_head = p;
    s_prev = upd s.s_prev p 0;
    s_next = upd s.s_next p 0;
    s_bctr = upd s.s_bctr p 0;
    s_lctr = upd s.s_lctr p 0;
    s_blctr = upd s.s_blctr p 0;
  })

  abbrev start : Arena
  start = record made { s_head = upd made.s_head p b; b_prev = upd made.b_prev b 0 }

  abbrev n : Arena
  n = new_superblock p s

  n-Apart : Apart b (b + 63 * 4096) start n
  unfolding new_superblock superblock_list_setup
  n-Apart = setup_blocks-Apart p 63 b start

  n-IsNew :
      (n.s_head p ≡ b) × IsChain n.b_prev n.b_next b (blocks 63 b) × All (IsNew p n) (blocks 63 b)
  unfolding new_superblock
  n-IsNew = superblock_list_setup-IsNew p made aligned

  known-IsApart : (c : ℕ) → v.known c ≡ true → IsApart b (b + 63 * 4096) c
  known-IsApart c k = clear-IsApart p c (clear c k)

  known_ne : (c : ℕ) → v.known c ≡ true → c ≢ b
  known_ne c k = IsApart-ne b (b + 63 * 4096) c b (omega arith) (omega arith) (known-IsApart c k)

  same_free : (c : ℕ) → v.known c ≡ true → grown.free c ≡ v.free c
  same_free c k = upd_ne v.free b (nodes 55 (b + 64)) c (known_ne c k)

  pub new_superblock_init : n.m_init ≡ s.m_init
  new_superblock_init = n-Apart.m_init

  kept-IsBlock :
      (c : ℕ) → v.known c ≡ true → IsBlock n.vm_next c (n.b_head c) (n.b_vctr c) (grown.free c)
  kept-IsBlock c k =
      let (r, l, o, d, m) = valid.block c k in
      subst (IsBlock n.vm_next c (n.b_head c) (n.b_vctr c)) (sym (same_free c k)) (
        r,
        subst (λ q. IsList n.vm_next q (v.free c)) (sym (n-Apart.b_head c (known-IsApart c k)))
            (IsList-frame s.vm_next n.vm_next (s.b_head c) (v.free c) l (
              All-map (λ x. vma_2block x ≡ c) (λ x. n.vm_next x ≡ s.vm_next x) (v.free c)
                (λ x e. n-Apart.vm_next x (node-IsApart p c x e (clear c k))) o)),
        o,
        d,
        ap (λ z. z + length (v.free c)) (n-Apart.b_vctr c (known-IsApart c k)) ∙ m,
      )

  kept-IsChain : (u : ℕ) → IsChain n.b_prev n.b_next (n.m_head u) (v.pool u)
  kept-IsChain u =
      subst (λ q. IsChain n.b_prev n.b_next q (v.pool u)) (sym (ap (λ f. f u) n-Apart.m_head))
        (IsChain-frame s.b_prev s.b_next n.b_prev n.b_next (s.m_head u) (v.pool u) (valid.chain u) (
          All-map (IsMember v s.b_mpool u)
            (λ c. (n.b_prev c ≡ s.b_prev c) × (n.b_next c ≡ s.b_next c)) (v.pool u)
            (λ c m. (
              n-Apart.b_prev c (known-IsApart c m.0) ∙ upd_ne s.b_prev b 0 c (known_ne c m.0),
              n-Apart.b_next c (known-IsApart c m.0),
            ))
            (valid.members u)))

  pub new_superblock-IsPool : IsPool grown n
  new_superblock-IsPool = record {
    block = kept-IsBlock;
    chain = kept-IsChain;
    distinct = valid.distinct;
    members = λ u.
        All-map (IsMember v s.b_mpool u) (IsMember grown n.b_mpool u) (v.pool u)
          (λ c m.
            (m.0, ap (λ f. f c) n-Apart.b_mpool ∙ m.1, (λ e. m.2 (sym (same_free c m.0) ∙ e))))
          (valid.members u);
    listed = λ c k some.
        subst (λ u. Listed c (v.pool u)) (sym (ap (λ f. f c) n-Apart.b_mpool))
          (valid.listed c k (λ e. some (same_free c k ∙ e)));
    fresh = λ u e. valid.fresh u (sym (ap (λ f. f u) n-Apart.m_init) ∙ e);
    owner = λ c k e. valid.owner c k (
        sym (ap (λ f. f (s.b_mpool c)) n-Apart.m_init)
        ∙ ap n.m_init (sym (ap (λ f. f c) n-Apart.b_mpool))
        ∙ e);
  }

  new_unknown : (c : ℕ) → p ≤ c → c < p + 262144 → v.known c ≡ false
  new_unknown c le lt = elim (Bool-cases (v.known c)) [
    | inl k ↦ absurd (omega (arith, lt, clear_outside p c (clear c k) le))
    | inr k ↦ k
  ]

  first-IsBlock : IsNew p n b → IsBlock n.vm_next b (n.b_head b) (n.b_vctr b) (grown.free b)
  unfolding nodes
  first-IsBlock (h, z, l, o, d) =
      subst (IsBlock n.vm_next b (n.b_head b) (n.b_vctr b))
        (sym (upd_same v.free b (nodes 55 (b + 64))))
        (
          (λ e. absurd (omega (arith, e))),
          l,
          o,
          d,
          ap (λ q. q + length (nodes 55 (b + 64))) z ∙ length-nodes 55 (b + 64),
        )

  pub new_superblock-IsOffer : IsOffer grown p [] b (blocks 62 (b + 4096)) n
  unfolding blocks
  new_superblock-IsOffer =
      let (h, c, a) = n-IsNew in
      record {
        stock = (n-Apart.g_head, real, tt, ap (λ f. f p) n-Apart.s_next ∙ upd_self s.s_next p 0);
        distinct = tt;
        blocks_distinct = blocks-Distinct 63 b;
        blocks = subst (λ q. IsChain n.b_prev n.b_next q (blocks 63 b)) (sym h) c;
        unknown =
            All-map (λ d. (p ≤ d) × (d < p + 262144)) (λ d. v.known d ≡ false) (blocks 63 b)
              (λ d w. new_unknown d w.0 w.1)
              (blocks_within 63 b p (p + 262144) (omega arith) (omega arith));
        count =
            ap (λ q. q + suc (length (blocks 62 (b + 4096))))
              (ap (λ f. f p) n-Apart.s_bctr ∙ upd_self s.s_bctr p 0)
            ∙ ap suc (length-blocks 62 (b + 4096));
        block = first-IsBlock a.0;
      }
