-- ===== src/VmaAlloc/Nodes.antt =====
-- The list of nodes that `S_superblock_list_setup` makes in a block.
use open_ooc.Base.{
  ℕ, zero, suc, ◌+◌, ◌*◌, ◌%◌, ◌≤◌, ◌<◌, ◌≡◌, refl, arith, List, [], ◌∷◌, upd, upd_self, upd_ne,
  sym, ◌∙◌, subst, length, ap, ◌≢◌,
}
use open_ooc.VmArea.{area_size}
use open_ooc.VmaAlloc.Lists.{All, All-map, Distinct, IsList}
use open_ooc.VmaAlloc.Superblocks.{vma_2block, setup_vmas}

-- The addresses of `vma` and of `count` nodes behind it.
unfoldable pub nodes : ℕ → ℕ → List ℕ
nodes zero vma = vma ∷ []
nodes (suc count) vma = vma ∷ nodes count (vma + area_size)

pub length-nodes : (count vma : ℕ) → length (nodes count vma) ≡ suc count
unfolding nodes
length-nodes zero vma = refl
length-nodes (suc count) vma = ap suc (length-nodes count (vma + area_size))

-- The bounds of the nodes.
pub nodes_from : (count vma m : ℕ) → m ≤ vma → All (λ x. m ≤ x) (nodes count vma)
unfolding nodes
nodes_from zero vma m le = (le, tt)
nodes_from (suc count) vma m le = (le, nodes_from count (vma + area_size) m (omega arith))

pub nodes_below : (count vma m : ℕ) → vma + count * 72 < m → All (λ x. x < m) (nodes count vma)
unfolding nodes
nodes_below zero vma m lt = (omega arith, tt)
nodes_below (suc count) vma m lt =
    (omega arith, nodes_below count (vma + area_size) m (omega arith))

pub nodes-Distinct : (count vma : ℕ) → Distinct (nodes count vma)
unfolding nodes
nodes-Distinct zero vma = (tt, tt)
nodes-Distinct (suc count) vma = (
  All-map (λ x. vma + area_size ≤ x) (λ x. x ≢ vma) (nodes count (vma + area_size))
      (λ x le e. absurd (omega (arith, le, e)))
      (nodes_from count (vma + area_size) (vma + area_size) (omega arith)),
  nodes-Distinct count (vma + area_size),
)

-- The loop writes no link before its first node.
pub setup_vmas-below :
    (count vma x : ℕ) (next : ℕ → ℕ) → x < vma → setup_vmas count vma next x ≡ next x
unfolding setup_vmas
setup_vmas-below zero vma x next lt = upd_ne next vma 0 x (λ e. absurd (omega (arith, lt, e)))
setup_vmas-below (suc count) vma x next lt =
    setup_vmas-below count (vma + area_size) x (upd next vma (vma + area_size)) (omega arith)
    ∙ upd_ne next vma (vma + area_size) x (λ e. absurd (omega (arith, lt, e)))

-- Its links lead through the nodes.
pub setup_vmas-IsList :
    (count vma : ℕ) (next : ℕ → ℕ)
    → 0 < vma
    → IsList (setup_vmas count vma next) vma (nodes count vma)
unfolding setup_vmas nodes
setup_vmas-IsList zero vma next real =
    (refl, (λ e. absurd (omega (arith, real, e))), upd_self next vma 0)
setup_vmas-IsList (suc count) vma next real =
    let n = vma + area_size in
    let next₁ = upd next vma n in
    (
      refl,
      (λ e. absurd (omega (arith, real, e))),
      subst (λ q. IsList (setup_vmas count n next₁) q (nodes count n))
          (sym (setup_vmas-below count n vma next₁ (omega arith) ∙ upd_self next vma n))
          (setup_vmas-IsList count n next₁ (omega arith)),
    )

-- The nodes lie in the block.
in_block : (block x : ℕ) → block % 4096 ≡ 0 → block ≤ x → x < block + 4096 → vma_2block x ≡ block
in_block block x aligned le lt = omega arith

pub nodes_own :
    (block count vma : ℕ)
    → block % 4096 ≡ 0
    → block ≤ vma
    → vma + count * 72 < block + 4096
    → All (λ x. vma_2block x ≡ block) (nodes count vma)
unfolding nodes
nodes_own block zero vma aligned le lt = (in_block block vma aligned le (omega arith), tt)
nodes_own block (suc count) vma aligned le lt = (
  in_block block vma aligned le (omega arith),
  nodes_own block count (vma + area_size) aligned (omega arith) (omega arith),
)
