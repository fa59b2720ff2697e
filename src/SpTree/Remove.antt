-- ===== src/SpTree/Remove.antt =====
-- `sp_tree_remove` keeps the invariant, and takes out the node with the address.
use open_ooc.SpTree.RemoveHelper.{splayed-Joined}
use open_ooc.SpTree.Keys.{splayed-at_addr, root_only}
use open_ooc.SpTree.InsertTree.{Linked-eq}
use open_ooc.SpTree.Splay.{splay-Splayed}
use open_ooc.Base.{
  ℕ, ◌≤◌, ◌<◌, ◌≡◌, inl, inr, refl, List, [], ◌∷◌, ◌++◌, arith, ◌∙◌, ok, sym, ap, ne_zero, subst,
  ==-true,
}
use open_ooc.VmArea.{Heap, call, lock_get, tree, lock_let, lock_free, area}
use open_ooc.VmaPool.{VmaPool, FreesOne}
use open_ooc.SpTree.Shape.{Tree, leaf, node, inorder, size, HasParent, Stands-frame}
use open_ooc.SpTree.Linked.{Linked}
use open_ooc.SpTree.Valid.{IsTree, NoKey, Stands-relink, IsTree-call}
use open_ooc.SpTree.Ops.{SpTree, with_root, sp_tree_remove, sp_node_free}
use open_ooc.SpTree.Promote.{Joined}

-- The outcome: the node `q` with the address is out, the others are as before.
pub record Removed (lo hi addr : ℕ) (h : Heap) (xs : List ℕ) (sp : SpTree) : Type 0 where
  pub tree : Tree
  pub valid : IsTree lo hi sp tree
  pub node : ℕ
  pub before : List ℕ
  pub after : List ℕ
  pub old_nodes : xs ≡ before ++ (node ∷ after)
  pub at_addr : h.vm_start node ≡ addr
  pub new_nodes : inorder tree ≡ before ++ after
  pub vm_start : sp.heap.vm_start ≡ h.vm_start
  pub vm_end : sp.heap.vm_end ≡ h.vm_end
  pub vm_flags : sp.heap.vm_flags ≡ h.vm_flags

module _ (pool : VmaPool) (law : FreesOne pool) (q : ℕ) (h : Heap) where
  free-HasParent : (u : Tree) (a : ℕ) → HasParent h u a → HasParent (pool.vma_free q h) u a
  free-HasParent leaf a e = tt
  free-HasParent (node l b r) a e = ap (λ f. f b) (law.sp_p q h) ∙ e

  free-Linked :
      (p e : ℕ) (xs : List ℕ)
      → Linked h p xs e
      → NoKey h.vm_start (h.vm_start q) xs
      → Linked (pool.vma_free q h) p xs e
  free-Linked p e [] s n = tt
  free-Linked p e (a ∷ xs) s n = (
    ap (λ f. f a) (law.vm_prev q h) ∙ s.0,
    law.vm_next q h a (λ e. n.0 (ap h.vm_start e)) ∙ s.1,
    free-Linked a e xs s.2 n.1,
  )

  free-IsTree :
      (lo hi p : ℕ) (u : Tree)
      → IsTree lo hi (with_root h p) u
      → NoKey h.vm_start (h.vm_start q) (inorder u)
      → IsTree lo hi (with_root (pool.vma_free q h) p) u
  free-IsTree lo hi p u v n = record {
    stands =
        Stands-frame 0 h (pool.vma_free q h) lo hi lo hi p p p u v.stands refl (omega arith)
          (omega arith)
          (λ x one k₁ k₂. (
            inr (ap (λ f. f x) (law.sp_p q h)),
            ap (λ f. f x) (law.sp_l q h),
            ap (λ f. f x) (law.sp_r q h),
            ap (λ f. f x) (law.vm_start q h),
          ))
          (inl refl);
    no_parent = free-HasParent u 0 v.no_parent;
    linked = free-Linked 0 0 (inorder u) v.linked n;
  }

module _ (pool : VmaPool) (law : FreesOne pool) (lo hi q : ℕ) (g : Heap) (xs : List ℕ)
    (sp : SpTree) where
  -- The end of the function: the node goes back to its pool.
  abbrev freed : SpTree
  unfolding sp_node_free
  freed = record sp { heap = call (lock_let tree) (sp_node_free pool q sp.heap) }

  freed-IsTree :
      (j : Joined lo hi g xs sp) → NoKey g.vm_start (g.vm_start q) xs → IsTree lo hi freed j.tree
  unfolding sp_node_free
  freed-IsTree j n =
      let h = call (lock_free (area q)) sp.heap in
      let n' : NoKey sp.heap.vm_start (sp.heap.vm_start q) (inorder j.tree) =
        subst (NoKey sp.heap.vm_start (sp.heap.vm_start q)) (sym j.nodes)
          (subst (λ f. NoKey f (f q) xs) (sym j.vm_start) n) in
      IsTree-call lo hi (lock_let tree) (with_root (pool.vma_free q h) sp.root) j.tree (
        free-IsTree pool law q h lo hi sp.root j.tree
          (IsTree-call lo hi (lock_free (area q)) sp j.tree j.valid) n')

module _ (pool : VmaPool) (law : FreesOne pool) (fuel lo hi addr : ℕ) (h : Heap) (p : ℕ) where
  abbrev locked : Heap
  locked = call (lock_get tree) h

  remove_nonempty :
      (l : Tree) (a : ℕ) (r : Tree)
      → IsTree lo hi (with_root h p) (node l a r)
      → ¬ NoKey h.vm_start addr (inorder (node l a r))
      → lo ≤ addr
      → addr < hi
      → size (node l a r) ≤ fuel
      → (sp : SpTree) × (sp_tree_remove pool fuel (with_root h p) addr ≡ ok sp)
        × Removed lo hi addr h (inorder (node l a r)) sp
  unfolding sp_tree_remove sp_node_free freed
  remove_nonempty l a r v has low high enough =
      let u = node l a r in
      let s = Stands-relink h.vm_prev h.vm_next (lock_get tree ∷ h.calls) h 0 lo hi p u v.stands in
      let (g, q, e, w) =
        splay-Splayed 0 lo hi addr (omega arith) locked p fuel l a r s enough low high in
      let k = splayed-at_addr 0 lo hi addr locked g q (inorder u) w has in
      let (sp, e', j) =
        splayed-Joined lo hi addr locked g q (inorder u) w fuel u refl enough
          (Linked-eq h locked 0 0 (inorder u) refl refl v.linked) in
      let d = call (lock_free (area q)) sp.heap in
      (
        freed pool law lo hi q g (inorder w.lower ++ inorder w.upper) sp,
        rw (e, ne_zero p a v.stands.0 v.stands.1, ==-true addr (g.vm_start q) (sym k), e'),
        record {
          tree = j.tree;
          valid =
              freed-IsTree pool law lo hi q g (inorder w.lower ++ inorder w.upper) sp j
                (root_only 0 lo hi addr locked g q (inorder u) w);
          node = q;
          before = inorder w.lower;
          after = inorder w.upper;
          old_nodes = sym w.order;
          at_addr = ap (λ f. f q) (sym w.kept.vm_start) ∙ k;
          new_nodes = j.nodes;
          vm_start = law.vm_start q d ∙ j.vm_start ∙ w.kept.vm_start;
          vm_end = law.vm_end q d ∙ j.vm_end ∙ w.kept.vm_end;
          vm_flags = law.vm_flags q d ∙ j.vm_flags ∙ w.kept.vm_flags;
        },
      )

-- On a valid tree with a node that starts at the address, which is within the bounds of the keys,
-- and with a pool that changes only the list link of the node it gets back, `sp_tree_remove`
-- succeeds with fuel for each node: the tree stays valid, this node is out of it, the others are as
-- before in the same order, and no node's range or flags change.
pub sp_tree_remove-Removed :
    (pool : VmaPool) (fuel lo hi addr : ℕ) (sp : SpTree) (u : Tree)
    → FreesOne pool
    → IsTree lo hi sp u
    → ¬ NoKey sp.heap.vm_start addr (inorder u)
    → lo ≤ addr
    → addr < hi
    → size u ≤ fuel
    → (sp' : SpTree) × (sp_tree_remove pool fuel sp addr ≡ ok sp')
      × Removed lo hi addr sp.heap (inorder u) sp'
sp_tree_remove-Removed pool fuel lo hi addr sp leaf law v has low high enough = absurd (has tt)
sp_tree_remove-Removed pool fuel lo hi addr sp (node l a r) law v has low high enough =
    remove_nonempty pool law fuel lo hi addr sp.heap sp.root l a r v has low high enough
