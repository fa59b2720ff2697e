-- ===== src/SpTree/SplayStep.antt =====
-- One pass of the loop of `S_sp_tree_splay` keeps its invariant: the left tree, the right tree and
-- the tree at `t` together hold the same nodes in the same order.
use open_ooc.VmArea.{Heap, local_n}
use open_ooc.SpTree.Shape.{Tree, node, inorder, Stands, Agree, Child-frame, Stands-frame}
use open_ooc.SpTree.LeftSpine.{Spine, low, left_nodes, Left, AgreeBelow, Left-last, Left-frame}
use open_ooc.SpTree.RightSpine.{high, right_nodes, Right, AgreeAbove, Right-last, Right-frame}
use open_ooc.SpTree.{make_child_l, make_child_r}
use open_ooc.Base.{
  ℕ, suc, ◌≤◌, ◌<◌, ◌≡◌, ◌⊎◌, inl, inr, refl, List, [], ◌∷◌, ◌++◌, arith, append_assoc,
}

module _ (z lo hi k : ℕ) (xs : List ℕ) where
  pub record Inv (h : Heap) (l r t : ℕ) (ls rs : Spine) (u : Tree) : Type 0 where
    pub left : Left z lo h l ls
    pub right : Right z hi h r rs
    pub stands : Stands z h (low h.vm_start lo ls) (high h.vm_start hi rs) u t
    pub below : low h.vm_start lo ls ≤ k
    pub above : k < high h.vm_start hi rs
    pub order : left_nodes ls ++ (inorder u ++ right_nodes rs) ≡ xs

-- The parent of the last node of the right tree stands right of it.
pub Right-parent :
    (z hi : ℕ) (h : Heap) (r : ℕ) (c : Spine)
    → Right z hi h r c
    → (r ≡ local_n) ⊎ ((h.sp_p r ≡ local_n) ⊎ (h.vm_start r < h.vm_start (h.sp_p r)))
Right-parent z hi h r [] s = inl s
Right-parent z hi h r ((a, u) ∷ c) s = let last = Right-last z hi h (h.sp_p a) c s.6 in ground arith

pub Left-parent :
    (z lo : ℕ) (h : Heap) (l : ℕ) (c : Spine)
    → Left z lo h l c
    → (l ≡ local_n) ⊎ ((h.sp_p l ≡ local_n) ⊎ (h.vm_start (h.sp_p l) < h.vm_start l))
Left-parent z lo h l [] s = inl s
Left-parent z lo h l ((a, u) ∷ c) s = let last = Left-last z lo h (h.sp_p a) c s.6 in ground arith

module _ (z lo hi k : ℕ) (xs : List ℕ) (h : Heap) (l r t : ℕ) (ls rs : Spine) (tl tr : Tree) (a : ℕ)
    (v : Inv z lo hi k xs h l r t ls rs (node tl a tr)) where
  pub link_right-Inv :
      k < h.vm_start t
      → Inv z lo hi k xs (make_child_l r t h) l t ((make_child_l r t h).sp_l t) ls ((a, tr) ∷ rs) tl
  unfolding make_child_l
  link_right-Inv lt =
      let g = make_child_l r t h in
      let s = v.stands in
      let last_l = Left-last z lo h l ls v.left in
      let last_r = Right-last z hi h r rs v.right in
      let up_r = Right-parent z hi h r rs v.right in
      let below : AgreeBelow h g (low h.vm_start lo ls) l =
        λ x one key. (inr refl, ground arith, ground arith, refl) in
      let above : AgreeAbove h g (high h.vm_start hi rs) r =
        λ x one key. (ground arith, ground arith, refl, refl) in
      let kid_l : Agree h g (low h.vm_start lo ls) (h.vm_start a) a =
        λ x one k₁ k₂. (inr (ground arith), ground arith, refl, refl) in
      let kid_r : Agree h g (suc (h.vm_start a)) (high h.vm_start hi rs) a =
        λ x one k₁ k₂. (inr (ground arith), ground arith, refl, refl) in
      record {
        left = Left-frame z lo h g l l ls v.left refl below (inr refl);
        right = (
          s.0,
          s.1,
          s.2,
          s.4,
          Child-frame z h g _ _ _ _ (h.sp_r a) (h.sp_r a) a a tr (s.7, s.8) refl (omega arith)
              (omega arith) kid_r (inl (omega arith)),
          ground arith,
          Right-frame z hi h g r (g.sp_p a) rs v.right (ground arith) above (ground arith),
        );
        stands =
            Stands-frame z h g _ _ _ _ (h.sp_l a) (g.sp_l t) a tl s.5 (ground arith) (omega arith)
              (omega arith) kid_l (inr (inr (omega arith)));
        below = v.below;
        above = ground arith;
        order = simp append_assoc at v.order;
      }

  pub link_left-Inv :
      h.vm_start t < k
      → Inv z lo hi k xs (make_child_r l t h) t r ((make_child_r l t h).sp_r t) ((a, tl) ∷ ls) rs tr
  unfolding make_child_r
  link_left-Inv lt =
      let g = make_child_r l t h in
      let s = v.stands in
      let last_l = Left-last z lo h l ls v.left in
      let last_r = Right-last z hi h r rs v.right in
      let up_l = Left-parent z lo h l ls v.left in
      let below : AgreeBelow h g (low h.vm_start lo ls) l =
        λ x one key. (ground arith, ground arith, refl, refl) in
      let above : AgreeAbove h g (high h.vm_start hi rs) r =
        λ x one key. (inr refl, ground arith, ground arith, refl) in
      let kid_l : Agree h g (low h.vm_start lo ls) (h.vm_start a) a =
        λ x one k₁ k₂. (inr (ground arith), refl, ground arith, refl) in
      let kid_r : Agree h g (suc (h.vm_start a)) (high h.vm_start hi rs) a =
        λ x one k₁ k₂. (inr (ground arith), refl, ground arith, refl) in
      record {
        left = (
          s.0,
          s.1,
          s.2,
          s.3,
          Child-frame z h g _ _ _ _ (h.sp_l a) (h.sp_l a) a a tl (s.5, s.6) refl (omega arith)
              (omega arith) kid_l (inr (omega arith)),
          ground arith,
          Left-frame z lo h g l (g.sp_p a) ls v.left (ground arith) below (ground arith),
        );
        right = Right-frame z hi h g r r rs v.right refl above (inr refl);
        stands =
            Stands-frame z h g _ _ _ _ (h.sp_r a) (g.sp_r t) a tr s.7 (ground arith) (omega arith)
              (omega arith) kid_r (inr (inl (omega arith)));
        below = ground arith;
        above = v.above;
        order = simp append_assoc (simp append_assoc at v.order);
      }
