-- ===== src/SpTree/Assemble.antt =====
-- The end of `S_sp_tree_splay`: the left and the right tree go below `t`, one `MAKE_CHILD` after
-- another.
use open_ooc.Base.{upd_self, ℕ, ◌≤◌, ◌<◌, ◌≢◌, inl, inr, refl, arith, upd, ◌≡◌}
use open_ooc.VmArea.{Heap, local_n}
use open_ooc.SpTree.{loop, make_child_l, make_child_r, assemble}
use open_ooc.SpTree.Shape.{
  Tree, Stands, Child, Agree, Child-frame, Stands-frame, Child-adopt, Stands-root,
}
use open_ooc.SpTree.LeftSpine.{
  Spine, low, Left, AgreeBelow, plug_left, Left-last, Left-frame, Left-plug,
}
use open_ooc.SpTree.RightSpine.{
  high, Right, AgreeAbove, plug_right, Right-last, Right-frame, Right-plug,
}
use open_ooc.SpTree.Kept.{
  Kept, Kept-trans, make_child_l-Kept, make_child_r-Kept, orphan-Kept, root-ne,
}
use open_ooc.SpTree.SplayStep.{Left-parent, Right-parent}

module _ (z lo hi ml mr : ℕ) where
  -- The pieces that are put together below `t`. Between them lie the keys from `ml` up to `mr`.
  pub record Ready (h : Heap) (l r t : ℕ) (ls rs : Spine) (lower upper : Tree) : Type 0 where
    pub left : Left z lo h l ls
    pub right : Right z hi h r rs
    pub lower_stands : Stands z h (low h.vm_start lo ls) ml lower (h.sp_l t)
    pub upper_stands : Stands z h mr (high h.vm_start hi rs) upper (h.sp_r t)
    pub real : 1 < t
    pub other : t ≢ z
    pub low_le : low h.vm_start lo ls ≤ ml
    pub ml_le : ml ≤ h.vm_start t
    pub lt_mr : h.vm_start t < mr
    pub le_high : mr ≤ high h.vm_start hi rs

  -- After the first write the left tree stands below `n`.
  first_write :
      (h : Heap) (l r t : ℕ) (ls rs : Spine) (lower upper : Tree)
      → Ready h l r t ls rs lower upper
      → let g = make_child_r l (h.sp_l t) h in
        (Child z g lo ml (plug_left ls lower) (g.sp_r local_n) local_n)
        × (Right z hi g r rs)
        × (Stands z g mr (high h.vm_start hi rs) upper (g.sp_r t))
  unfolding make_child_r
  first_write h l r t ls rs lower upper v =
      let g = make_child_r l (h.sp_l t) h in
      let last_l = Left-last z lo h l ls v.left in
      let last_r = Right-last z hi h r rs v.right in
      let up_l = Left-parent z lo h l ls v.left in
      let c = Stands-root z h _ _ (h.sp_l t) lower v.lower_stands in
      let below : AgreeBelow h g (low h.vm_start lo ls) l =
        λ x one key. (ground arith, ground arith, refl, refl) in
      let above : AgreeAbove h g (high h.vm_start hi rs) r =
        λ x one key. (inr refl, ground arith, ground arith, refl) in
      let kid_l : Agree h g (low h.vm_start lo ls) ml (h.sp_l t) =
        λ x one k₁ k₂. (ground arith, refl, ground arith, refl) in
      let kid_r : Agree h g mr (high h.vm_start hi rs) t =
        λ x one k₁ k₂. (inr (ground arith), refl, ground arith, refl) in
      (
        Left-plug z lo ml g l ls lower (Left-frame z lo h g l l ls v.left refl below (ground arith))
            (Child-adopt z h g _ _ _ _ (h.sp_l t) (g.sp_r l) l lower v.lower_stands (ground arith)
              (omega arith) (omega arith) kid_l (ground arith))
            v.low_le,
        Right-frame z hi h g r r rs v.right refl above (inr refl),
        Stands-frame z h g _ _ _ _ (h.sp_r t) (g.sp_r t) t upper v.upper_stands (ground arith)
            (omega arith) (omega arith) kid_r (inr (inl v.lt_mr)),
      )

  -- After the second write the right tree does too.
  second_write :
      (h : Heap) (r t : ℕ) (rs : Spine) (a upper : Tree)
      → Child z h lo ml a (h.sp_r local_n) local_n
      → Right z hi h r rs
      → Stands z h mr (high h.vm_start hi rs) upper (h.sp_r t)
      → 1 < t
      → ml ≤ h.vm_start t
      → h.vm_start t < mr
      → mr ≤ high h.vm_start hi rs
      → let g = make_child_l r (h.sp_r t) h in
        (Child z g lo ml a (g.sp_r local_n) local_n)
        × (Child z g mr hi (plug_right rs upper) (g.sp_l local_n) local_n)
  unfolding make_child_l
  second_write h r t rs a upper below_n right up real ml_le lt_mr le_high =
      let g = make_child_l r (h.sp_r t) h in
      let last_r = Right-last z hi h r rs right in
      let up_r = Right-parent z hi h r rs right in
      let c = Stands-root z h _ _ (h.sp_r t) upper up in
      let above : AgreeAbove h g (high h.vm_start hi rs) r =
        λ x one key. (ground arith, ground arith, refl, refl) in
      let kid_l : Agree h g lo ml t =
        λ x one k₁ k₂. (inr (ground arith), ground arith, refl, refl) in
      let kid_r : Agree h g mr (high h.vm_start hi rs) (h.sp_r t) =
        λ x one k₁ k₂. (ground arith, ground arith, refl, refl) in
      (
        Child-frame z h g _ _ _ _ (h.sp_r local_n) (g.sp_r local_n) local_n t a below_n refl
            (omega arith) (omega arith) kid_l (inr ml_le),
        Right-plug z mr hi g r rs upper
            (Right-frame z hi h g r r rs right refl above (ground arith))
            (Child-adopt z h g _ _ _ _ (h.sp_r t) (g.sp_l r) r upper up (ground arith) (omega arith)
              (omega arith) kid_r (ground arith))
            le_high,
      )

  module _ (h : Heap) (t : ℕ) (a b : Tree) (real : 1 < t) (ml_le : ml ≤ h.vm_start t)
      (lt_mr : h.vm_start t < mr) where
    -- The third write moves the left tree below `t`, the fourth the right tree.
    third_write :
        Child z h lo ml a (h.sp_r local_n) local_n
        → Child z h mr hi b (h.sp_l local_n) local_n
        → let g = make_child_l t (h.sp_r local_n) h in
          (Child z g lo ml a (g.sp_l t) t) × (Child z g mr hi b (g.sp_l local_n) local_n)
    unfolding make_child_l
    third_write ca cb =
        let g = make_child_l t (h.sp_r local_n) h in
        let c = Stands-root z h _ _ (h.sp_r local_n) a ca.0 in
        let kid_l : Agree h g lo ml (h.sp_r local_n) =
          λ x one k₁ k₂. (ground arith, ground arith, refl, refl) in
        let kid_r : Agree h g mr hi t =
          λ x one k₁ k₂. (inr (ground arith), ground arith, refl, refl) in
        (
          Child-adopt z h g _ _ _ _ (h.sp_r local_n) (g.sp_l t) t a ca.0 (ground arith)
              (omega arith) (omega arith) kid_l (ground arith),
          Child-frame z h g _ _ _ _ (h.sp_l local_n) (g.sp_l local_n) local_n t b cb (ground arith)
              (omega arith) (omega arith) kid_r (inl lt_mr),
        )

    fourth_write :
        Child z h lo ml a (h.sp_l t) t
        → Child z h mr hi b (h.sp_l local_n) local_n
        → let g = make_child_r t (h.sp_l local_n) h in
          (Child z g lo ml a (g.sp_l t) t) × (Child z g mr hi b (g.sp_r t) t)
    unfolding make_child_r
    fourth_write ca cb =
        let g = make_child_r t (h.sp_l local_n) h in
        let c = Stands-root z h _ _ (h.sp_l local_n) b cb.0 in
        let kid_l : Agree h g lo ml t =
          λ x one k₁ k₂. (inr (ground arith), refl, ground arith, refl) in
        let kid_r : Agree h g mr hi (h.sp_l local_n) =
          λ x one k₁ k₂. (ground arith, refl, ground arith, refl) in
        (
          Child-frame z h g _ _ _ _ (h.sp_l t) (g.sp_l t) t t a ca refl (omega arith) (omega arith)
              kid_l (inr ml_le),
          Child-adopt z h g _ _ _ _ (h.sp_l local_n) (g.sp_r t) t b cb.0 (ground arith)
              (omega arith) (omega arith) kid_r (ground arith),
        )

    orphan :
        Child z h lo ml a (h.sp_l t) t
        → Child z h mr hi b (h.sp_r t) t
        → let g = record h { sp_p = upd h.sp_p t 0 } in
          (Child z g lo ml a (g.sp_l t) t) × (Child z g mr hi b (g.sp_r t) t)
    orphan ca cb =
        let g : Heap = record h { sp_p = upd h.sp_p t 0 } in
        let kid_l : Agree h g lo ml t = λ x one k₁ k₂. (inr (ground arith), refl, refl, refl) in
        let kid_r : Agree h g mr hi t = λ x one k₁ k₂. (inr (ground arith), refl, refl, refl) in
        (
          Child-frame z h g _ _ _ _ (h.sp_l t) (g.sp_l t) t t a ca refl (omega arith) (omega arith)
              kid_l (inr ml_le),
          Child-frame z h g _ _ _ _ (h.sp_r t) (g.sp_r t) t t b cb refl (omega arith) (omega arith)
              kid_r (inl lt_mr),
        )

  -- Put together, the pieces are the two subtrees of `t`, which has no parent.
  pub assemble-Child :
      (h : Heap) (l r t : ℕ) (ls rs : Spine) (lower upper : Tree)
      → Ready h l r t ls rs lower upper
      → let g = (assemble (loop h l r t)).0 in
        (Child z g lo ml (plug_left ls lower) (g.sp_l t) t)
        × (Child z g mr hi (plug_right rs upper) (g.sp_r t) t)
  unfolding assemble
  assemble-Child h l r t ls rs lower upper v =
      let h₁ = make_child_r l (h.sp_l t) h in
      let h₂ = make_child_l r (h₁.sp_r t) h₁ in
      let h₃ = make_child_l t (h₂.sp_r local_n) h₂ in
      let h₄ = make_child_r t (h₃.sp_l local_n) h₃ in
      let a = plug_left ls lower in
      let b = plug_right rs upper in
      let w₁ = first_write h l r t ls rs lower upper v in
      let w₂ = second_write h₁ r t rs a upper w₁.0 w₁.1 w₁.2 v.real v.ml_le v.lt_mr v.le_high in
      let w₃ = third_write h₂ t a b v.real v.ml_le v.lt_mr w₂.0 w₂.1 in
      let w₄ = fourth_write h₃ t a b v.real v.ml_le v.lt_mr w₃.0 w₃.1 in
      orphan h₄ t a b v.real v.ml_le v.lt_mr w₄.0 w₄.1

  -- None of the writes is to `z`.
  pub assemble-Kept :
      (h : Heap) (l r t : ℕ) (ls rs : Spine) (lower upper : Tree)
      → z ≢ local_n
      → Ready h l r t ls rs lower upper
      → Kept z h (assemble (loop h l r t)).0
  unfolding assemble
  assemble-Kept h l r t ls rs lower upper ne v =
      let h₁ = make_child_r l (h.sp_l t) h in
      let h₂ = make_child_l r (h₁.sp_r t) h₁ in
      let h₃ = make_child_l t (h₂.sp_r local_n) h₂ in
      let h₄ = make_child_r t (h₃.sp_l local_n) h₃ in
      let a = plug_left ls lower in
      let b = plug_right rs upper in
      let w₁ = first_write h l r t ls rs lower upper v in
      let w₂ = second_write h₁ r t rs a upper w₁.0 w₁.1 w₁.2 v.real v.ml_le v.lt_mr v.le_high in
      let w₃ = third_write h₂ t a b v.real v.ml_le v.lt_mr w₂.0 w₂.1 in
      Kept-trans
        (make_child_r-Kept z l (h.sp_l t) h (last_l h l ls v.left)
          (root-ne z h _ _ (h.sp_l t) lower v.lower_stands))
        (Kept-trans
          (make_child_l-Kept z r (h₁.sp_r t) h₁ (last_r h r rs v.right)
            (root-ne z h₁ _ _ (h₁.sp_r t) upper w₁.2))
          (Kept-trans
            (make_child_l-Kept z t (h₂.sp_r local_n) h₂ v.other
              (root-ne z h₂ _ _ (h₂.sp_r local_n) a w₂.0.0))
            (Kept-trans
              (make_child_r-Kept z t (h₃.sp_l local_n) h₃ v.other
                (root-ne z h₃ _ _ (h₃.sp_l local_n) b w₃.1.0))
              (orphan-Kept z t h₄ v.other))))
    where
      last_l : (h : Heap) (l : ℕ) (c : Spine) → Left z lo h l c → l ≢ z
      last_l h l c s = let e = Left-last z lo h l c s in ground arith

      last_r : (h : Heap) (r : ℕ) (c : Spine) → Right z hi h r c → r ≢ z
      last_r h r c s = let e = Right-last z hi h r c s in ground arith

pub assemble-no_parent : (h : Heap) (l r t : ℕ) → (assemble (loop h l r t)).0.sp_p t ≡ 0
unfolding assemble
assemble-no_parent h l r t =
    let h₁ = make_child_r l (h.sp_l t) h in
    let h₂ = make_child_l r (h₁.sp_r t) h₁ in
    let h₃ = make_child_l t (h₂.sp_r local_n) h₂ in
    let h₄ = make_child_r t (h₃.sp_l local_n) h₃ in upd_self h₄.sp_p t 0
