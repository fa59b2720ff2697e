-- ===== src/VmaAlloc/Tests/Emptied.antt =====
-- The superblock at 262144 with one block in use and 62 free ones.
use open_ooc.Base.{
  ℕ, zero, suc, ◌+◌, ◌-◌, ◌*◌, ◌≤◌, ◌<◌, ◌≡◌, ◌≢◌, refl, arith, false, [], ◌∷◌, ok, upd, upd_ne, ap,
  sym, subst, length, ltb, leb, ◌&&◌, if◌then◌else◌, ==-false, ◌==◌,
}
use open_ooc.VmaAlloc.Arena.{Arena}
use open_ooc.VmaAlloc.Lists.{All-map, IsChain}
use open_ooc.VmaAlloc.Setup.{blocks}
use open_ooc.VmaAlloc.Grow.{length-blocks, blocks_within, blocks-Distinct}
use open_ooc.VmaAlloc.Ops.{vma_free}
use open_ooc.VmaAlloc.Valid.{IsPool}
use open_ooc.VmaAlloc.Return.{IsHome}
use open_ooc.VmaAlloc.Whole.{Emptied, vma_free-Emptied}
use open_ooc.VmaAlloc.Tests.{zeros, system, thread, three-IsStock}
use open_ooc.VmaAlloc.Tests.Full.{one_used, used_view, used-IsPool, in_use}

-- The links of the free blocks.
abbrev link_next : ℕ → ℕ
link_next c = if leb 270336 c && ltb c 520192 then c + 4096 else 0

abbrev link_prev : ℕ → ℕ
link_prev c = if ltb 270336 c && ltb c 524288 then c - 4096 else 0

free_chain :
    (n a : ℕ)
    → 270336 ≤ a
    → a + suc n * 4096 ≡ 524288
    → IsChain link_prev link_next a (blocks (suc n) a)
unfolding blocks
free_chain zero a lo e = (refl, (λ q. absurd (omega (arith, q, lo))), tt, at_end)
  where
    at_end : link_next a ≡ 0
    at_end = ground arith
free_chain (suc n) a lo e = (
  refl,
  (λ q. absurd (omega (arith, q, lo))),
  back,
  subst (λ p. IsChain link_prev link_next p (blocks (suc n) (a + 4096))) (sym on)
      (free_chain n (a + 4096) (omega arith) (omega arith)),
)
  where
    back : link_prev (a + 4096) ≡ a
    back = ground arith

    on : link_next a ≡ a + 4096
    on = ground arith

abbrev last_used : Arena
last_used = record one_used {
  b_prev = link_prev;
  b_next = link_next;
  s_head = upd zeros 262144 270336;
  s_bctr = upd zeros 262144 1;
}

last-IsPool : IsPool used_view last_used
last-IsPool = record {
  block = used-IsPool.block;
  chain =
      thread (λ t xs. IsChain link_prev link_next (last_used.m_head t) xs)
        (refl, (λ e. absurd (omega (arith, e))), tt, refl) (λ t ne. upd_ne zeros 1 4096 t ne);
  distinct = used-IsPool.distinct;
  members = used-IsPool.members;
  listed = used-IsPool.listed;
  fresh = used-IsPool.fresh;
  owner = used-IsPool.owner;
}

no_block : blocks 62 270336 ≢ []
no_block e = let l = length-blocks 62 270336 in let k = ap length e in absurd (omega (arith, l, k))

last-IsHome : IsHome used_view 262144 (262144 ∷ 524288 ∷ 786432 ∷ []) (blocks 62 270336) last_used
last-IsHome = record {
  real = λ e. absurd (omega (arith, e));
  blocks = free_chain 61 270336 (omega arith) (omega arith);
  unknown =
      All-map (λ c. (270336 ≤ c) × (c < 524288)) (λ c. (c == 4096) ≡ false) (blocks 62 270336)
        (λ c b. let l = b.0 in ==-false c 4096 (λ e. absurd (omega (arith, l, e))))
        (blocks_within 62 270336 270336 524288 (omega arith) (omega arith));
  distinct = blocks-Distinct 62 270336;
  count = ap (λ n. 1 + n) (length-blocks 62 270336);
  others = omega arith;
  stock = three-IsStock;
  unlisted = λ e. absurd (no_block e);
  stock_distinct = (
    ((λ e. absurd (omega (arith, e))), ((λ e. absurd (omega (arith, e))), tt)),
    (((λ e. absurd (omega (arith, e))), tt), (tt, tt)),
  );
}

vma_free-Emptied_example :
    (s' : Arena) × (vma_free system 4160 last_used ≡ ok s')
    × Emptied used_view 1 262144 (524288 ∷ 786432 ∷ []) 4160 s'
vma_free-Emptied_example =
    vma_free-Emptied system 4160 used_view (262144 ∷ 524288 ∷ 786432 ∷ []) (blocks 62 270336) []
      (524288 ∷ 786432 ∷ []) last_used last-IsPool (λ e. absurd (omega (arith, e))) refl in_use refl
      last-IsHome refl refl (λ g. refl) (λ c lo hi ne. ==-false c 4096 (λ e. ne e))
