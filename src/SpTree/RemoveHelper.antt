-- ===== src/SpTree/RemoveHelper.antt =====
-- `S_sp_tree_remove_helper` on a splayed tree.
use open_ooc.SpTree.InsertTree.{Linked-eq}
use open_ooc.SpTree.Splay.{Splayed}
use open_ooc.SpTree.Join.{join-Joined}
use open_ooc.SpTree.ListFix.{fix_listrm-Linked}
use open_ooc.Base.{
  ℕ, suc, ◌≤◌, ◌≡◌, refl, List, [], ◌∷◌, ◌++◌, arith, ◌∙◌, ok, length, ◌+◌, sym, ap, ◌==◌, true,
  false, eq_zero, ne_zero, if-false, subst,
}
use open_ooc.VmArea.{Heap}
use open_ooc.SpTree.Shape.{Tree, leaf, node, inorder, size, Stands}
use open_ooc.SpTree.Linked.{Linked, Stands-IsSorted}
use open_ooc.SpTree.Valid.{Stands-relink}
use open_ooc.SpTree.Ops.{SpTree, remove_helper, fix_listrm, promote, join}
use open_ooc.SpTree.Promote.{Joined, promote-Joined}

pub length-append : (xs ys : List ℕ) → length (xs ++ ys) ≡ length xs + length ys
length-append [] ys = omega arith
length-append (a ∷ xs) ys = let e = length-append xs ys in omega arith

pub length-inorder : (u : Tree) → length (inorder u) ≡ size u
length-inorder leaf = refl
length-inorder (node l a r) =
    let e = length-append (inorder l) (a ∷ inorder r) in
    let e_l = length-inorder l in let e_r = length-inorder r in omega arith

-- A part of the nodes is not more than all.
size-part :
    (lower upper u : Tree) (q : ℕ)
    → inorder lower ++ (q ∷ inorder upper) ≡ inorder u
    → size lower ≤ size u
size-part lower upper u q e =
    let e' =
      sym (length-append (inorder lower) (q ∷ inorder upper)) ∙ ap length e ∙ length-inorder u in
    let e_l = length-inorder lower in omega arith

-- The helper, on the splayed tree with the root `q`.
module _ (fuel lo hi q p : ℕ) (g : Heap) (upper : Tree) where
  -- The list without `q`; the tree is as before.
  fix_listrm_nodes :
      (lower : Tree)
      → Stands 0 g lo hi (node lower q upper) p
      → Linked g 0 (inorder lower ++ (q ∷ inorder upper)) 0
      → Linked (fix_listrm q g) 0 (inorder lower ++ inorder upper) 0
  fix_listrm_nodes lower s linked =
      fix_listrm-Linked g lo hi q (inorder lower) (inorder upper) s.1 linked
        (Stands-IsSorted 0 lo (g.vm_start q) (g.sp_l q) g lower s.5)
        (Stands-IsSorted 0 (suc (g.vm_start q)) hi (g.sp_r q) g upper s.7)

  fix_listrm-Stands :
      (lo' hi' p' : ℕ) (u : Tree) → Stands 0 g lo' hi' u p' → Stands 0 (fix_listrm q g) lo' hi' u p'
  unfolding fix_listrm
  fix_listrm-Stands lo' hi' p' u s =
      let g' = fix_listrm q g in Stands-relink g'.vm_prev g'.vm_next g.calls g 0 lo' hi' p' u s

  remove_helper-promote :
      Stands 0 g lo hi (node leaf q upper) p
      → Linked g 0 (q ∷ inorder upper) 0
      → (sp : SpTree) × (remove_helper fuel q g ≡ ok sp) × Joined lo hi g (inorder upper) sp
  unfolding remove_helper fix_listrm
  remove_helper-promote s linked =
      let g' = fix_listrm q g in
      let e : (g.sp_l q == 0) ≡ true = eq_zero (g.sp_l q) s.5 in
      let j =
        promote-Joined lo hi q g' s.3 upper (fix_listrm-Stands _ hi (g.sp_r q) upper s.7)
          (fix_listrm_nodes leaf s linked) in
      (
        promote q g',
        rw e,
        record {
          tree = j.tree;
          valid = j.valid;
          nodes = j.nodes;
          vm_start = j.vm_start;
          vm_end = j.vm_end;
          vm_flags = j.vm_flags;
        },
      )

  remove_helper-join :
      (l : Tree) (a : ℕ) (r : Tree)
      → Stands 0 g lo hi (node (node l a r) q upper) p
      → Linked g 0 (inorder (node l a r) ++ (q ∷ inorder upper)) 0
      → size (node l a r) ≤ fuel
      → (sp : SpTree) × (remove_helper fuel q g ≡ ok sp)
        × Joined lo hi g (inorder (node l a r) ++ inorder upper) sp
  unfolding remove_helper fix_listrm
  remove_helper-join l a r s linked enough =
      let g' = fix_listrm q g in
      let e : (g.sp_l q == 0) ≡ false = ne_zero (g.sp_l q) a s.5.0 s.5.1 in
      let (sp, e', j) =
        join-Joined lo hi q g' upper s.4 (fix_listrm-Stands _ hi (g.sp_r q) upper s.7) s.1 s.3 fuel
          l a r (fix_listrm-Stands lo (g.vm_start q) (g.sp_l q) (node l a r) s.5) enough
          (fix_listrm_nodes (node l a r) s linked) in
      (
        sp,
        if-false (λ x. x ≡ ok sp) (g.sp_l q == 0) (ok (promote q g')) (join fuel q g') e e',
        record {
          tree = j.tree;
          valid = j.valid;
          nodes = j.nodes;
          vm_start = j.vm_start;
          vm_end = j.vm_end;
          vm_flags = j.vm_flags;
        },
      )

  remove_helper-Joined :
      (lower : Tree)
      → Stands 0 g lo hi (node lower q upper) p
      → Linked g 0 (inorder lower ++ (q ∷ inorder upper)) 0
      → size lower ≤ fuel
      → (sp : SpTree) × (remove_helper fuel q g ≡ ok sp)
        × Joined lo hi g (inorder lower ++ inorder upper) sp
  remove_helper-Joined leaf s linked enough = remove_helper-promote s linked
  remove_helper-Joined (node l a r) s linked enough = remove_helper-join l a r s linked enough

module _ (lo hi addr : ℕ) (h g : Heap) (q : ℕ) (xs : List ℕ)
    (w : Splayed 0 lo hi addr xs h g q) where
  -- The helper on the splayed tree.
  pub splayed-Joined :
      (fuel : ℕ) (u : Tree)
      → xs ≡ inorder u
      → size u ≤ fuel
      → Linked h 0 xs 0
      → (sp : SpTree) × (remove_helper fuel q g ≡ ok sp)
        × Joined lo hi g (inorder w.lower ++ inorder w.upper) sp
  splayed-Joined fuel u e enough linked =
      let part = size-part w.lower w.upper u q (w.order ∙ e) in
      remove_helper-Joined fuel lo hi q q g w.upper w.lower w.stands
        (Linked-eq h g 0 0 (inorder w.lower ++ (q ∷ inorder w.upper)) w.kept.vm_prev w.kept.vm_next
          (subst (λ ys. Linked h 0 ys 0) (sym w.order) linked))
        (omega arith)
