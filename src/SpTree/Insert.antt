-- ===== src/SpTree/Insert.antt =====
-- `S_sp_tree_insert_helper`: it puts the node above the root of the splayed tree.
use open_ooc.Base.{
  ℕ, suc, ◌≤◌, ◌<◌, ◌≡◌, ◌≢◌, ◌⊎◌, inl, inr, refl, ◌∷◌, ◌++◌, arith, subst, sym, append_assoc,
}
use open_ooc.VmArea.{Heap}
use open_ooc.SpTree.Shape.{
  Tree, leaf, node, inorder, Stands, Agree, Child-adopt, Child-frame, Stands-root, Child,
}
use open_ooc.SpTree.Linked.{Linked, Stands-IsSorted}
use open_ooc.SpTree.Ops.{with_root, insert_below, insert_above}
use open_ooc.SpTree.Valid.{IsTree, Stands-real}
use open_ooc.SpTree.ListFix.{fix_listlt-Linked, fix_listgt-Linked}

-- The links of `t` and `z` afterwards.
module _ (t z : ℕ) (h : Heap) (real_t : 1 < t) (real_z : 1 < z) (ne : t ≢ z)
    (loose : h.sp_p z ≡ 0) where
  abbrev Fresh : ℕ → Type 0
  Fresh c = (c ≡ 0) ⊎ ((c ≢ z) × (c ≢ t))

  insert_below-links :
      Fresh (h.sp_l t)
      → let g = insert_below t z h in
        (g.sp_r z ≡ t) × (g.sp_l t ≡ 0) × (g.sp_p t ≡ z) × (g.sp_p z ≡ 0)
  unfolding insert_below
  insert_below-links c = (ground arith, ground arith, ground arith, ground arith)

  insert_above-links :
      Fresh (h.sp_r t)
      → let g = insert_above t z h in
        (g.sp_l z ≡ t) × (g.sp_r t ≡ 0) × (g.sp_p t ≡ z) × (g.sp_p z ≡ 0)
  unfolding insert_above
  insert_above-links c = (ground arith, ground arith, ground arith, ground arith)

-- What the helper starts from: the splayed tree, and a node with no links.
pub record Before (lo hi z : ℕ) (h : Heap) (t : ℕ) (lower upper : Tree) : Type 0 where
  pub stands : Stands z h lo hi (node lower t upper) t
  pub linked : Linked h 0 (inorder lower ++ (t ∷ inorder upper)) 0
  pub before : Stands z h lo (h.vm_start z) lower (h.sp_l t)
  pub after : Stands z h (suc (h.vm_start z)) hi upper (h.sp_r t)
  pub real : 1 < z
  pub low : lo ≤ h.vm_start z
  pub high : h.vm_start z < hi
  pub loose : h.sp_p z ≡ 0

module _ (lo hi z : ℕ) (h : Heap) (t : ℕ) (lower upper : Tree)
    (v : Before lo hi z h t lower upper) where
  links_below :
      h.vm_start z < h.vm_start t
      → let g = insert_below t z h in
        (g.sp_r z ≡ t) × (g.sp_l t ≡ 0) × (g.sp_p t ≡ z) × (g.sp_p z ≡ 0)
  links_below lt =
      insert_below-links t z h v.stands.1 v.real v.stands.2 v.loose
        (fresh (Stands-root z h _ _ (h.sp_l t) lower v.before))
    where
      fresh :
          ((h.sp_l t ≡ 0) × (lower ≡ leaf))
            ⊎ ((1 < h.sp_l t)
                × (h.sp_l t ≢ z)
                × (lo ≤ h.vm_start (h.sp_l t))
                × (h.vm_start (h.sp_l t) < h.vm_start z))
          → (h.sp_l t ≡ 0) ⊎ ((h.sp_l t ≢ z) × (h.sp_l t ≢ t))
      fresh c = ground arith

  links_above :
      h.vm_start t < h.vm_start z
      → let g = insert_above t z h in
        (g.sp_l z ≡ t) × (g.sp_r t ≡ 0) × (g.sp_p t ≡ z) × (g.sp_p z ≡ 0)
  links_above lt =
      insert_above-links t z h v.stands.1 v.real v.stands.2 v.loose
        (fresh (Stands-root z h _ _ (h.sp_r t) upper v.after))
    where
      fresh :
          ((h.sp_r t ≡ 0) × (upper ≡ leaf))
            ⊎ ((1 < h.sp_r t)
                × (h.sp_r t ≢ z)
                × (suc (h.vm_start z) ≤ h.vm_start (h.sp_r t))
                × (h.vm_start (h.sp_r t) < hi))
          → (h.sp_r t ≡ 0) ⊎ ((h.sp_r t ≢ z) × (h.sp_r t ≢ t))
      fresh c = ground arith

  insert_below-lower :
      h.vm_start z < h.vm_start t
      → Child 0 (insert_below t z h) lo (h.vm_start z) lower ((insert_below t z h).sp_l z) z
  unfolding insert_below
  insert_below-lower lt =
      let g = insert_below t z h in
      let c = Stands-root z h _ _ (h.sp_l t) lower v.before in
      let same : Agree h g lo (h.vm_start z) (h.sp_l t) =
        λ x one k₁ k₂. (ground arith, ground arith, ground arith, refl) in
      Child-adopt 0 h g _ _ _ _ (h.sp_l t) (g.sp_l z) z lower
        (Stands-real z lo (h.vm_start z) _ h lower v.before) (ground arith) (omega arith)
        (omega arith) same (ground arith)

  insert_below-upper :
      h.vm_start z < h.vm_start t
      → Child 0 (insert_below t z h) (suc (h.vm_start t)) hi upper ((insert_below t z h).sp_r t) t
  unfolding insert_below
  insert_below-upper lt =
      let g = insert_below t z h in
      let s = v.stands in
      let c = Stands-root z h _ _ (h.sp_l t) lower v.before in
      let same : Agree h g (suc (h.vm_start t)) hi t =
        λ x one k₁ k₂. (inr (ground arith), ground arith, ground arith, refl) in
      Child-frame 0 h g _ _ _ _ (h.sp_r t) (g.sp_r t) t t upper
        (Stands-real z (suc (h.vm_start t)) hi _ h upper s.7, s.8) (ground arith) (omega arith)
        (omega arith) same (inl (omega arith))

  insert_below-Stands :
      h.vm_start z < h.vm_start t
      → Stands 0 (insert_below t z h) lo hi (node lower z (node leaf t upper)) z
  unfolding insert_below
  insert_below-Stands lt =
      let s = v.stands in
      (
        refl,
        v.real,
        omega arith,
        v.low,
        v.high,
        (insert_below-lower lt).0,
        (insert_below-lower lt).1,
        (
          (links_below lt).0,
          s.1,
          omega arith,
          lt,
          s.4,
          (links_below lt).1,
          tt,
          (insert_below-upper lt).0,
          (insert_below-upper lt).1,
        ),
        (links_below lt).2,
      )

  insert_above-upper :
      h.vm_start t < h.vm_start z
      → Child 0 (insert_above t z h) (suc (h.vm_start z)) hi upper ((insert_above t z h).sp_r z) z
  unfolding insert_above
  insert_above-upper lt =
      let g = insert_above t z h in
      let c = Stands-root z h _ _ (h.sp_r t) upper v.after in
      let same : Agree h g (suc (h.vm_start z)) hi (h.sp_r t) =
        λ x one k₁ k₂. (ground arith, ground arith, ground arith, refl) in
      Child-adopt 0 h g _ _ _ _ (h.sp_r t) (g.sp_r z) z upper
        (Stands-real z (suc (h.vm_start z)) hi _ h upper v.after) (ground arith) (omega arith)
        (omega arith) same (ground arith)

  insert_above-lower :
      h.vm_start t < h.vm_start z
      → Child 0 (insert_above t z h) lo (h.vm_start t) lower ((insert_above t z h).sp_l t) t
  unfolding insert_above
  insert_above-lower lt =
      let g = insert_above t z h in
      let s = v.stands in
      let c = Stands-root z h _ _ (h.sp_r t) upper v.after in
      let same : Agree h g lo (h.vm_start t) t =
        λ x one k₁ k₂. (inr (ground arith), ground arith, ground arith, refl) in
      Child-frame 0 h g _ _ _ _ (h.sp_l t) (g.sp_l t) t t lower
        (Stands-real z lo (h.vm_start t) _ h lower s.5, s.6) (ground arith) (omega arith)
        (omega arith) same (inr (omega arith))

  insert_above-Stands :
      h.vm_start t < h.vm_start z
      → Stands 0 (insert_above t z h) lo hi (node (node lower t leaf) z upper) z
  unfolding insert_above
  insert_above-Stands lt =
      let s = v.stands in
      (
        refl,
        v.real,
        omega arith,
        v.low,
        v.high,
        (
          (links_above lt).0,
          s.1,
          omega arith,
          s.3,
          lt,
          (insert_above-lower lt).0,
          (insert_above-lower lt).1,
          (links_above lt).1,
          tt,
        ),
        (links_above lt).2,
        (insert_above-upper lt).0,
        (insert_above-upper lt).1,
      )

  pub insert_below-IsTree :
      h.vm_start z < h.vm_start t
      → IsTree lo hi (with_root (insert_below t z h) z) (node lower z (node leaf t upper))
  unfolding insert_below
  insert_below-IsTree lt = record {
    stands = insert_below-Stands lt;
    no_parent = (links_below lt).3;
    linked =
        fix_listlt-Linked h lo hi t z (inorder lower) (inorder upper) v.stands.1 v.real v.linked
          (Stands-IsSorted z lo _ _ h lower v.before) (Stands-IsSorted z _ hi _ h upper v.stands.7)
          lt;
  }

  pub insert_above-IsTree :
      h.vm_start t < h.vm_start z
      → IsTree lo hi (with_root (insert_above t z h) z) (node (node lower t leaf) z upper)
  unfolding insert_above
  insert_above-IsTree lt = record {
    stands = insert_above-Stands lt;
    no_parent = (links_above lt).3;
    linked =
        subst (λ xs. Linked (insert_above t z h) 0 xs 0) (sym (append_assoc (inorder lower) _ _))
          (fix_listgt-Linked h lo hi t z (inorder lower) (inorder upper) v.stands.1 v.real v.linked
            (Stands-IsSorted z lo _ _ h lower v.stands.5) (Stands-IsSorted z _ hi _ h upper v.after)
            lt);
  }
