-- ===== src/SpTree/Rotate.antt =====
-- The two rotations of the loop of `S_sp_tree_splay`.
use open_ooc.VmArea.{Heap}
use open_ooc.SpTree.Shape.{
  Tree, node, inorder, Stands, Child, Agree, Child-frame, Child-adopt, Stands-root,
}
use open_ooc.SpTree.LeftSpine.{Spine, low, left_nodes, AgreeBelow, Left-last, Left-frame}
use open_ooc.SpTree.RightSpine.{high, right_nodes, AgreeAbove, Right-last, Right-frame}
use open_ooc.SpTree.SplayStep.{Inv}
use open_ooc.SpTree.{rotate_right, rotate_left}
use open_ooc.Base.{ℕ, suc, inl, inr, refl, List, ◌++◌, arith, append_assoc, ap, ◌∙◌, sym}

module _ (z lo hi : ℕ) (h : Heap) (t : ℕ) (ll rr : Tree) (a b : ℕ) where
  rotate_right-mid :
      (m : Tree)
      → Stands z h lo hi (node (node ll b m) a rr) t
      → Child z
          (rotate_right t h)
          (suc (h.vm_start b))
          (h.vm_start a)
          m
          ((rotate_right t h).sp_l a)
          a
  unfolding rotate_right
  rotate_right-mid m s =
      let g = rotate_right t h in
      let c = Stands-root z h _ _ (h.sp_r b) m s.5.7 in
      let same : Agree h g (suc (h.vm_start b)) (h.vm_start a) (h.sp_r b) =
        λ x one k₁ k₂. (ground arith, ground arith, ground arith, refl) in
      Child-adopt z h g _ _ _ _ (h.sp_r b) (g.sp_l a) a m s.5.7 (ground arith) (omega arith)
        (omega arith) same (ground arith)

  rotate_right-ll :
      (m : Tree)
      → Stands z h lo hi (node (node ll b m) a rr) t
      → Child z (rotate_right t h) lo (h.vm_start b) ll ((rotate_right t h).sp_l b) b
  unfolding rotate_right
  rotate_right-ll m s =
      let g = rotate_right t h in
      let c = Stands-root z h _ _ (h.sp_r b) m s.5.7 in
      let same : Agree h g lo (h.vm_start b) a =
        λ x one k₁ k₂. (inr (ground arith), ground arith, ground arith, refl) in
      Child-frame z h g _ _ _ _ (h.sp_l b) (g.sp_l b) b a ll (s.5.5, s.5.6) (ground arith)
        (omega arith) (omega arith) same (inr (omega arith))

  rotate_right-rr :
      (m : Tree)
      → Stands z h lo hi (node (node ll b m) a rr) t
      → Child z (rotate_right t h) (suc (h.vm_start a)) hi rr ((rotate_right t h).sp_r a) a
  unfolding rotate_right
  rotate_right-rr m s =
      let g = rotate_right t h in
      let c = Stands-root z h _ _ (h.sp_r b) m s.5.7 in
      let same : Agree h g (suc (h.vm_start a)) hi a =
        λ x one k₁ k₂. (inr (ground arith), ground arith, ground arith, refl) in
      Child-frame z h g _ _ _ _ (h.sp_r a) (g.sp_r a) a a rr (s.7, s.8) (ground arith) (omega arith)
        (omega arith) same (inl (omega arith))

  rotate_right-Stands :
      (m : Tree)
      → Stands z h lo hi (node (node ll b m) a rr) t
      → Stands z (rotate_right t h) lo hi (node ll b (node m a rr)) (h.sp_l t)
  unfolding rotate_right
  rotate_right-Stands m s =
      let c = Stands-root z h _ _ (h.sp_r b) m s.5.7 in
      (
        ground arith,
        s.5.1,
        s.5.2,
        s.5.3,
        omega arith,
        (rotate_right-ll m s).0,
        (rotate_right-ll m s).1,
        (
          ground arith,
          s.1,
          s.2,
          omega arith,
          s.4,
          (rotate_right-mid m s).0,
          (rotate_right-mid m s).1,
          (rotate_right-rr m s).0,
          (rotate_right-rr m s).1,
        ),
        ground arith,
      )

  rotate_left-mid :
      (m : Tree)
      → Stands z h lo hi (node ll a (node m b rr)) t
      → Child z (rotate_left t h) (suc (h.vm_start a)) (h.vm_start b) m ((rotate_left t h).sp_r a) a
  unfolding rotate_left
  rotate_left-mid m s =
      let g = rotate_left t h in
      let c = Stands-root z h _ _ (h.sp_l b) m s.7.5 in
      let same : Agree h g (suc (h.vm_start a)) (h.vm_start b) (h.sp_l b) =
        λ x one k₁ k₂. (ground arith, ground arith, ground arith, refl) in
      Child-adopt z h g _ _ _ _ (h.sp_l b) (g.sp_r a) a m s.7.5 (ground arith) (omega arith)
        (omega arith) same (ground arith)

  rotate_left-ll :
      (m : Tree)
      → Stands z h lo hi (node ll a (node m b rr)) t
      → Child z (rotate_left t h) lo (h.vm_start a) ll ((rotate_left t h).sp_l a) a
  unfolding rotate_left
  rotate_left-ll m s =
      let g = rotate_left t h in
      let c = Stands-root z h _ _ (h.sp_l b) m s.7.5 in
      let same : Agree h g lo (h.vm_start a) a =
        λ x one k₁ k₂. (inr (ground arith), ground arith, ground arith, refl) in
      Child-frame z h g _ _ _ _ (h.sp_l a) (g.sp_l a) a a ll (s.5, s.6) (ground arith) (omega arith)
        (omega arith) same (inr (omega arith))

  rotate_left-rr :
      (m : Tree)
      → Stands z h lo hi (node ll a (node m b rr)) t
      → Child z (rotate_left t h) (suc (h.vm_start b)) hi rr ((rotate_left t h).sp_r b) b
  unfolding rotate_left
  rotate_left-rr m s =
      let g = rotate_left t h in
      let c = Stands-root z h _ _ (h.sp_l b) m s.7.5 in
      let same : Agree h g (suc (h.vm_start b)) hi a =
        λ x one k₁ k₂. (inr (ground arith), ground arith, ground arith, refl) in
      Child-frame z h g _ _ _ _ (h.sp_r b) (g.sp_r b) b a rr (s.7.7, s.7.8) (ground arith)
        (omega arith) (omega arith) same (inl (omega arith))

  rotate_left-Stands :
      (m : Tree)
      → Stands z h lo hi (node ll a (node m b rr)) t
      → Stands z (rotate_left t h) lo hi (node (node ll a m) b rr) (h.sp_r t)
  unfolding rotate_left
  rotate_left-Stands m s =
      let c = Stands-root z h _ _ (h.sp_l b) m s.7.5 in
      (
        ground arith,
        s.7.1,
        s.7.2,
        omega arith,
        s.7.4,
        (
          ground arith,
          s.1,
          s.2,
          s.3,
          omega arith,
          (rotate_left-ll m s).0,
          (rotate_left-ll m s).1,
          (rotate_left-mid m s).0,
          (rotate_left-mid m s).1,
        ),
        ground arith,
        (rotate_left-rr m s).0,
        (rotate_left-rr m s).1,
      )

module _ (z lo hi k : ℕ) (xs : List ℕ) (h : Heap) (l r t : ℕ) (ls rs : Spine) where
  pub rotate_right-Inv :
      (ll lr rr : Tree) (a b : ℕ)
      → Inv z lo hi k xs h l r t ls rs (node (node ll b lr) a rr)
      → Inv z lo hi k xs (rotate_right t h) l r (h.sp_l t) ls rs (node ll b (node lr a rr))
  unfolding rotate_right
  rotate_right-Inv ll lr rr a b v =
      let g = rotate_right t h in
      let s = v.stands in
      let last_l = Left-last z lo h l ls v.left in
      let last_r = Right-last z hi h r rs v.right in
      let c = Stands-root z h _ _ (h.sp_r b) lr s.5.7 in
      let below : AgreeBelow h g (low h.vm_start lo ls) l =
        λ x one key. (inr (ground arith), ground arith, ground arith, refl) in
      let above : AgreeAbove h g (high h.vm_start hi rs) r =
        λ x one key. (inr (ground arith), ground arith, ground arith, refl) in
      record {
        left = Left-frame z lo h g l l ls v.left refl below (inr (ground arith));
        right = Right-frame z hi h g r r rs v.right refl above (inr (ground arith));
        stands = rotate_right-Stands z _ _ h t ll rr a b lr s;
        below = v.below;
        above = v.above;
        order =
            ap (λ ys. left_nodes ls ++ (ys ++ right_nodes rs)) (sym (append_assoc (inorder ll) _ _))
            ∙ v.order;
      }

  pub rotate_left-Inv :
      (ll rl rr : Tree) (a b : ℕ)
      → Inv z lo hi k xs h l r t ls rs (node ll a (node rl b rr))
      → Inv z lo hi k xs (rotate_left t h) l r (h.sp_r t) ls rs (node (node ll a rl) b rr)
  unfolding rotate_left
  rotate_left-Inv ll rl rr a b v =
      let g = rotate_left t h in
      let s = v.stands in
      let last_l = Left-last z lo h l ls v.left in
      let last_r = Right-last z hi h r rs v.right in
      let c = Stands-root z h _ _ (h.sp_l b) rl s.7.5 in
      let below : AgreeBelow h g (low h.vm_start lo ls) l =
        λ x one key. (inr (ground arith), ground arith, ground arith, refl) in
      let above : AgreeAbove h g (high h.vm_start hi rs) r =
        λ x one key. (inr (ground arith), ground arith, ground arith, refl) in
      record {
        left = Left-frame z lo h g l l ls v.left refl below (inr (ground arith));
        right = Right-frame z hi h g r r rs v.right refl above (inr (ground arith));
        stands = rotate_left-Stands z _ _ h t ll rr a b rl s;
        below = v.below;
        above = v.above;
        order =
            ap (λ ys. left_nodes ls ++ (ys ++ right_nodes rs)) (append_assoc (inorder ll) _ _)
            ∙ v.order;
      }
