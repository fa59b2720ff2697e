-- ===== src/VmaAlloc/Tests.antt =====
-- The allocator on concrete stores.
mod Full
mod Emptied
use open_ooc.VmaAlloc.Fetch.{Fetched, vma_alloc-Fetched}
use open_ooc.VmaAlloc.Steal.{IsOffer}
use open_ooc.VmaAlloc.Setup.{blocks, IsNew, superblock_list_setup-IsNew}
use open_ooc.VmaAlloc.Lists.{IsChain, Distinct, All, cons-ne}
use open_ooc.Base.{
  ℕ, ◌≡◌, ◌≢◌, refl, arith, true, false, List, [], ◌∷◌, ok, upd, sym, inl, inr, eq-cases, ==-false,
  ◌==◌, upd_ne, subst, ◌>>=◌, ◌∙◌,
}
use open_ooc.VmaAlloc.Arena.{Arena, PoolSystem}
use open_ooc.VmaAlloc.Ops.{vma_alloc, vma_free}
use open_ooc.VmaAlloc.Superblocks.{superblock_unlock_and_put, superblock_list_setup}
use open_ooc.VmaAlloc.Valid.{View, IsPool, IsBlock, IsMember, Listed}
use open_ooc.VmaAlloc.Alloc.{Allocated, vma_alloc-Allocated}
use open_ooc.VmaAlloc.Free.{Freed, vma_free-Freed}
use open_ooc.VmaAlloc.RoundTrip.{Returned, vma_free-vma_alloc}
use open_ooc.VmaAlloc.Put.{IsStock, superblock_unlock_and_put-removes}

abbrev zeros : ℕ → ℕ
zeros x = 0

-- The block at 4096 belongs to thread 1; its nodes at 4160 and 4232 are free. The superblocks at
-- 262144, 524288 and 786432 are listed; the first one has one free block, at 266240, with two free
-- nodes.
abbrev store : Arena
store = record {
  vm_next = upd (upd zeros 4160 4232) 266304 266376;
  b_vctr = upd (upd zeros 4096 54) 266240 54;
  b_lctr = zeros;
  b_head = upd (upd zeros 4096 4160) 266240 266304;
  b_superblock = upd (upd zeros 4096 262144) 266240 262144;
  b_mpool = upd zeros 4096 1;
  b_prev = zeros;
  b_next = zeros;
  s_bctr = upd zeros 262144 62;
  s_lctr = zeros;
  s_blctr = zeros;
  s_head = upd zeros 262144 266240;
  s_prev = upd (upd zeros 524288 262144) 786432 524288;
  s_next = upd (upd zeros 262144 524288) 524288 786432;
  m_init = upd zeros 1 1;
  m_lctr = zeros;
  m_head = upd zeros 1 4096;
  g_actr = 3;
  g_lctr = 0;
  g_mlctr = 0;
  g_blctr = 0;
  g_slctr = 0;
  g_head = 262144;
  calls = [];
  busy = true ∷ [];
}

-- A system without memory to give.
abbrev system : PoolSystem
system = record { sys_alloc = λ s. 0; sys_free = λ p s. true }

abbrev nothing : ℕ → List ℕ
nothing x = []

abbrev view : View
view = record {
  known = λ b. b == 4096;
  free = upd (upd nothing 4096 (4160 ∷ 4232 ∷ [])) 266240 (266304 ∷ 266376 ∷ []);
  pool = upd nothing 1 (4096 ∷ []);
}

-- What holds of the one block holds of each.
only : (P : ℕ → Type 0) → P 4096 → (b : ℕ) → (b == 4096) ≡ true → P b
only P p b e = elim (eq-cases b 4096) [
  | inl q ↦ subst P (sym q) p
  | inr ne ↦ absurd (no (sym (==-false b 4096 ne) ∙ e))
]
  where
    no : false ≢ true
    no q = absurd (cc)

-- So for the one thread.
thread :
    (P : ℕ → List ℕ → Type 0)
    → P 1 (4096 ∷ [])
    → ((t : ℕ) → t ≢ 1 → P t [])
    → (t : ℕ) → P t (view.pool t)
thread P p others t = elim (eq-cases t 1) [
  | inl q ↦ subst (λ u. P u (view.pool u)) (sym q) p
  | inr ne ↦ subst (P t) (sym (upd_ne nothing 1 (4096 ∷ []) t ne)) (others t ne)
]

store-IsPool : IsPool view store
store-IsPool = record {
  block =
      only (λ b. IsBlock store.vm_next b (store.b_head b) (store.b_vctr b) (view.free b))
        (
          (λ e. absurd (omega (arith, e))),
          (refl, (λ e. absurd (omega (arith, e))), (refl, (λ e. absurd (omega (arith, e))), refl)),
          (refl, (refl, tt)),
          (((λ e. absurd (omega (arith, e))), tt), (tt, tt)),
          refl,
        );
  chain =
      thread (λ t xs. IsChain store.b_prev store.b_next (store.m_head t) xs)
        (refl, (λ e. absurd (omega (arith, e))), tt, refl) (λ t ne. upd_ne zeros 1 4096 t ne);
  distinct = thread (λ t xs. Distinct xs) (tt, tt) (λ t ne. tt);
  members =
      thread (λ t xs. All (IsMember view store.b_mpool t) xs)
        ((refl, refl, cons-ne 4160 (4232 ∷ [])), tt) (λ t ne. tt);
  listed = λ b k ne. only (λ c. Listed c (view.pool (store.b_mpool c))) ([], [], refl) b k;
  fresh =
      thread (λ t xs. store.m_init t ≡ 0 → xs ≡ []) (λ e. absurd (omega (arith, e)))
        (λ t ne e. refl);
  owner = only (λ b. store.m_init (store.b_mpool b) ≢ 0) (λ e. absurd (omega (arith, e)));
}

vma_alloc-Allocated_example :
    (s' : Arena) × (vma_alloc system 1 store ≡ ok (s', 4160)) × Allocated view 1 4096 4160 store s'
vma_alloc-Allocated_example =
    vma_alloc-Allocated system 1 4096 4160 (4232 ∷ []) [] view store store-IsPool refl refl

-- The node at 4304 is in use.
vma_free-Freed_example :
    (s' : Arena) × (vma_free system 4304 store ≡ ok s') × Freed view 1 4096 4304 s'
vma_free-Freed_example =
    vma_free-Freed system 4304 view store store-IsPool (λ e. absurd (omega (arith, e))) refl
      ((λ e. absurd (omega (arith, e))), ((λ e. absurd (omega (arith, e))), tt)) (omega arith)

vma_free-vma_alloc_example :
    (s' : Arena) × ((vma_alloc system 1 store >>= λ (s₁, y). vma_free system y s₁) ≡ ok s')
    × Returned view s'
vma_free-vma_alloc_example =
    vma_free-vma_alloc system 1 4096 4160 (4232 ∷ []) [] view store store-IsPool refl refl
      (omega arith)

superblock_unlock_and_put-removes_example :
    (s' : Arena) × (superblock_unlock_and_put system 524288 store ≡ ok s')
    × IsStock s' (262144 ∷ 786432 ∷ [])
superblock_unlock_and_put-removes_example =
    superblock_unlock_and_put-removes system 524288 (262144 ∷ []) (786432 ∷ []) store
      (
        refl,
        (λ e. absurd (omega (arith, e))),
        refl,
        (
          refl,
          (λ e. absurd (omega (arith, e))),
          refl,
          (refl, (λ e. absurd (omega (arith, e))), tt, refl),
        ),
      )
      (
        ((λ e. absurd (omega (arith, e))), ((λ e. absurd (omega (arith, e))), tt)),
        (((λ e. absurd (omega (arith, e))), tt), (tt, tt)),
      )
      (λ g. refl)

-- A new superblock at 1048576.
superblock_list_setup-IsNew_example :
    let s' = superblock_list_setup 1048576 store in
    (s'.s_head 1048576 ≡ 1052672)
    × IsChain s'.b_prev s'.b_next 1052672 (blocks 63 1052672)
    × All (IsNew 1048576 s') (blocks 63 1052672)
superblock_list_setup-IsNew_example = superblock_list_setup-IsNew 1048576 store refl

three-IsStock : IsStock store (262144 ∷ 524288 ∷ 786432 ∷ [])
three-IsStock = (
  refl,
  (λ e. absurd (omega (arith, e))),
  refl,
  (
    refl,
    (λ e. absurd (omega (arith, e))),
    refl,
    (refl, (λ e. absurd (omega (arith, e))), tt, refl),
  ),
)

store-IsOffer : IsOffer view 262144 (524288 ∷ 786432 ∷ []) 266240 [] store
store-IsOffer = record {
  stock = three-IsStock;
  distinct = (((λ e. absurd (omega (arith, e))), tt), (tt, tt));
  blocks = (refl, (λ e. absurd (omega (arith, e))), tt, refl);
  blocks_distinct = (tt, tt);
  unknown = (refl, tt);
  count = refl;
  block = (
    (λ e. absurd (omega (arith, e))),
    (refl, (λ e. absurd (omega (arith, e))), (refl, (λ e. absurd (omega (arith, e))), refl)),
    (refl, (refl, tt)),
    (((λ e. absurd (omega (arith, e))), tt), (tt, tt)),
    refl,
  );
}

-- Thread 2 has no block.
vma_alloc-Fetched_example :
    (s' : Arena) × (vma_alloc system 2 store ≡ ok (s', 266304))
    × Fetched view 2 262144 (524288 ∷ 786432 ∷ []) 266240 [] 266304 s'
vma_alloc-Fetched_example =
    vma_alloc-Fetched system view 2 262144 (524288 ∷ 786432 ∷ []) 266240 [] 266304 (266376 ∷ [])
      store store-IsPool refl store-IsOffer refl
