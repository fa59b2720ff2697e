-- ===== src/SpTree/Promote.antt =====
-- `S_sp_tree_remove_helper` where the root has no left child: its right subtree is the tree.
use open_ooc.VmArea.{Heap}
use open_ooc.Base.{
  ℕ, suc, ◌≤◌, ◌≡◌, inl, refl, List, [], arith, upd, subst, if-true, if-false, upd_self, ◌==◌,
  eq_zero, ne_zero, upd-other,
}
use open_ooc.SpTree.Shape.{Tree, leaf, node, inorder, Stands, Stands-frame}
use open_ooc.SpTree.Linked.{Linked}
use open_ooc.SpTree.Ops.{SpTree, with_root, promote}
use open_ooc.SpTree.Valid.{IsTree}
use open_ooc.SpTree.InsertTree.{Linked-eq}

-- The tree of the helper's result.
pub record Joined (lo hi : ℕ) (h : Heap) (xs : List ℕ) (sp : SpTree) : Type 0 where
  pub tree : Tree
  pub valid : IsTree lo hi sp tree
  pub nodes : inorder tree ≡ xs
  pub vm_start : sp.heap.vm_start ≡ h.vm_start
  pub vm_end : sp.heap.vm_end ≡ h.vm_end
  pub vm_flags : sp.heap.vm_flags ≡ h.vm_flags

module _ (lo hi t : ℕ) (h : Heap) (low : lo ≤ h.vm_start t) where
  promote_empty : h.sp_r t ≡ 0 → Joined lo hi h [] (promote t h)
  unfolding promote
  promote_empty e =
      if-true (λ g. Joined lo hi h [] (with_root g (h.sp_r t))) (h.sp_r t == 0) _ _
        (eq_zero (h.sp_r t) e)
        (record {
          tree = leaf;
          valid = record { stands = e; no_parent = tt; linked = tt };
          nodes = refl;
          vm_start = refl;
          vm_end = refl;
          vm_flags = refl;
        })

  promote_nonempty :
      (l : Tree) (a : ℕ) (r : Tree)
      → Stands 0 h (suc (h.vm_start t)) hi (node l a r) (h.sp_r t)
      → Linked h 0 (inorder (node l a r)) 0
      → Joined lo hi h (inorder (node l a r)) (promote t h)
  unfolding promote
  promote_nonempty l a r s linked =
      let q = h.sp_r t in
      let g = record h { sp_p = upd h.sp_p q 0 } in
      if-false (λ g. Joined lo hi h (inorder (node l a r)) (with_root g q)) (q == 0) _ _
        (ne_zero q a s.0 s.1)
        (record {
          tree = node l a r;
          valid = record {
            stands =
                Stands-frame 0 h g (suc (h.vm_start t)) hi lo hi q q q (node l a r) s refl
                  (omega arith) (omega arith)
                  (λ x one k₁ k₂. (upd-other h.sp_p q x 0, refl, refl, refl)) (inl refl);
            no_parent = subst (λ x. upd h.sp_p q 0 x ≡ 0) s.0 (upd_self h.sp_p q 0);
            linked = Linked-eq h g 0 0 (inorder (node l a r)) refl refl linked;
          };
          nodes = refl;
          vm_start = refl;
          vm_end = refl;
          vm_flags = refl;
        })

  -- Where there is no left subtree.
  pub promote-Joined :
      (upper : Tree)
      → Stands 0 h (suc (h.vm_start t)) hi upper (h.sp_r t)
      → Linked h 0 (inorder upper) 0
      → Joined lo hi h (inorder upper) (promote t h)
  promote-Joined leaf s linked = promote_empty s
  promote-Joined (node l a r) s linked = promote_nonempty l a r s linked
