-- ===== src/VmaAlloc/Tests/Full.antt =====
-- A store in which one node of a block is in use.
use open_ooc.Base.{ℕ, ◌+◌, ◌≤◌, ◌≡◌, ◌≢◌, refl, arith, [], ◌∷◌, ok, upd, ap, length, true, inl}
use open_ooc.VmaAlloc.Arena.{Arena, PoolSystem}
use open_ooc.VmaAlloc.Ops.{vma_free, vma_alloc}
use open_ooc.VmaAlloc.Failure.{Refused, vma_alloc-Refused}
use open_ooc.VmaAlloc.Fetch.{Fetched}
use open_ooc.VmaAlloc.Grow.{IsClear}
use open_ooc.VmaAlloc.Grown.{with_nodes, vma_alloc-Grown}
use open_ooc.VmaAlloc.Superblocks.{setup_vmas}
use open_ooc.VmaAlloc.Lists.{All, All-map, NotIn, cons-ne}
use open_ooc.VmaAlloc.Nodes.{
  nodes, length-nodes, nodes_from, nodes_own, nodes-Distinct, setup_vmas-IsList,
}
use open_ooc.VmaAlloc.Valid.{View, IsPool, IsBlock, IsMember, Listed}
use open_ooc.VmaAlloc.Return.{IsHome}
use open_ooc.VmaAlloc.Last.{Released, vma_free-Released}
use open_ooc.VmaAlloc.Tests.{
  zeros, store, system, nothing, view, only, thread, store-IsPool, three-IsStock, blocks,
}

-- The block at 4096 with its node at 4160 in use and the others free.
abbrev pub one_used : Arena
one_used = record store {
  vm_next = setup_vmas 54 4232 zeros;
  b_vctr = upd zeros 4096 1;
  b_head = upd zeros 4096 4232;
}

abbrev pub used_view : View
used_view = record view { free = upd nothing 4096 (nodes 54 4232) }

pub nodes-ne : (n a : ℕ) → nodes n a ≢ []
nodes-ne n a e = let l = length-nodes n a in let k = ap length e in omega (arith, l, k)

pub used-IsBlock : IsBlock (setup_vmas 54 4232 zeros) 4096 4232 1 (nodes 54 4232)
used-IsBlock = (
  (λ e. absurd (omega (arith, e))),
  setup_vmas-IsList 54 4232 zeros (omega arith),
  nodes_own 4096 54 4232 refl (omega arith) (omega arith),
  nodes-Distinct 54 4232,
  ap (λ n. 1 + n) (length-nodes 54 4232),
)

pub used-IsPool : IsPool used_view one_used
used-IsPool = record {
  block =
      only
        (λ b. IsBlock one_used.vm_next b (one_used.b_head b) (one_used.b_vctr b) (used_view.free b))
        used-IsBlock;
  chain = store-IsPool.chain;
  distinct = store-IsPool.distinct;
  members =
      thread (λ t xs. All (IsMember used_view one_used.b_mpool t) xs)
        ((refl, refl, nodes-ne 54 4232), tt) (λ t ne. tt);
  listed = λ b k ne. only (λ c. Listed c (used_view.pool (one_used.b_mpool c))) ([], [], refl) b k;
  fresh = store-IsPool.fresh;
  owner = store-IsPool.owner;
}

used-IsHome : IsHome used_view 262144 (262144 ∷ 524288 ∷ 786432 ∷ []) (266240 ∷ []) one_used
used-IsHome = record {
  real = λ e. absurd (omega (arith, e));
  blocks = (refl, (λ e. absurd (omega (arith, e))), tt, refl);
  unknown = (refl, tt);
  distinct = (tt, tt);
  count = refl;
  others = omega arith;
  stock = three-IsStock;
  unlisted = λ e. absurd (cons-ne 266240 [] e);
  stock_distinct = (
    ((λ e. absurd (omega (arith, e))), ((λ e. absurd (omega (arith, e))), tt)),
    (((λ e. absurd (omega (arith, e))), tt), (tt, tt)),
  );
}

pub in_use : NotIn 4160 (nodes 54 4232)
in_use =
    All-map (λ y. 4232 ≤ y) (λ y. y ≢ 4160) (nodes 54 4232)
      (λ y le e. absurd (omega (arith, le, e))) (nodes_from 54 4232 4232 (omega arith))

vma_free-Released_example :
    (s' : Arena) × (vma_free system 4160 one_used ≡ ok s')
    × Released used_view 1 262144 (262144 ∷ 524288 ∷ 786432 ∷ []) 4160 (266240 ∷ []) s'
vma_free-Released_example =
    vma_free-Released system 4160 used_view (262144 ∷ 524288 ∷ 786432 ∷ []) (266240 ∷ []) one_used
      used-IsPool (λ e. absurd (omega (arith, e))) refl in_use refl used-IsHome (omega arith)

-- The same without a superblock.
abbrev no_superblock : Arena
no_superblock = record store { g_head = 0 }

none-IsPool : IsPool view no_superblock
none-IsPool = record {
  block = store-IsPool.block;
  chain = store-IsPool.chain;
  distinct = store-IsPool.distinct;
  members = store-IsPool.members;
  listed = store-IsPool.listed;
  fresh = store-IsPool.fresh;
  owner = store-IsPool.owner;
}

vma_alloc-Refused_example :
    (s' : Arena) × (vma_alloc system 2 no_superblock ≡ ok (s', 0)) × Refused view s'
vma_alloc-Refused_example =
    vma_alloc-Refused system view 2 no_superblock (λ s. refl) none-IsPool refl refl

-- A system that gives a superblock at 1048576.
abbrev giving : PoolSystem
giving = record { sys_alloc = λ s. 1048576; sys_free = λ p s. true }

vma_alloc-Grown_example :
    (s' : Arena) × (vma_alloc giving 2 no_superblock ≡ ok (s', 1052736))
    × Fetched (with_nodes view 1048576) 2 1048576 [] 1052672 (blocks 62 1056768) 1052736 s'
vma_alloc-Grown_example =
    vma_alloc-Grown giving view 2 1048576 no_superblock none-IsPool refl refl
      (λ e. absurd (omega (arith, e))) refl (only (λ c. IsClear 1048576 c) (inl (omega arith)))
      (λ g. refl)
