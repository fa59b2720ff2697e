-- ===== src/SpTree/Errors.antt =====
-- Where the assertions of `sp_tree_remove` and `sp_tree_insert` stop the program.
use open_ooc.SpTree.InsertTree.{init-Stands}
use open_ooc.SpTree.Keys.{splayed-other, splayed-at_addr}
use open_ooc.Base.{
  ℕ, ◌≤◌, ◌<◌, ◌≡◌, refl, ◌∷◌, arith, ◌∙◌, fault, eq_zero, ne_zero, ==-false, sym, ap, ltb, false,
  ltb-same,
}
use open_ooc.VmArea.{Heap, call, lock_get, tree}
use open_ooc.VmaPool.{VmaPool}
use open_ooc.SpTree.Shape.{Tree, leaf, node, inorder, size, Stands}
use open_ooc.SpTree.Valid.{NoKey, Stands-relink}
use open_ooc.SpTree.Ops.{
  SpTree, with_root, sp_tree_remove, sp_tree_insert, insert_helper, insert_checked, sp_node_init,
}
use open_ooc.SpTree.Splay.{splay-Splayed}

module _ (pool : VmaPool) (fuel lo hi addr : ℕ) (h : Heap) (p : ℕ) where
  remove_absent :
      (l : Tree) (a : ℕ) (r : Tree)
      → Stands 0 h lo hi (node l a r) p
      → NoKey h.vm_start addr (inorder (node l a r))
      → lo ≤ addr
      → addr < hi
      → size (node l a r) ≤ fuel
      → sp_tree_remove pool fuel (with_root h p) addr ≡ fault
  unfolding sp_tree_remove
  remove_absent l a r s absent low high enough =
      let u = node l a r in
      let locked = call (lock_get tree) h in
      let s' = Stands-relink h.vm_prev h.vm_next (lock_get tree ∷ h.calls) h 0 lo hi p u s in
      let (g, q, e, w) =
        splay-Splayed 0 lo hi addr (omega arith) locked p fuel l a r s' enough low high in
      let ne = splayed-other 0 lo hi addr locked g q (inorder u) w absent in
      rw (e, ne_zero p a s.0 s.1, ==-false addr (g.vm_start q) (λ x. ne (sym x))) refl

-- On a tree that stands, with fuel for each node, `sp_tree_remove` of an address within the bounds
-- of the keys at which no node starts stops on an assertion.
pub sp_tree_remove-NoKey :
    (pool : VmaPool) (fuel lo hi addr : ℕ) (sp : SpTree) (u : Tree)
    → Stands 0 sp.heap lo hi u sp.root
    → NoKey sp.heap.vm_start addr (inorder u)
    → lo ≤ addr
    → addr < hi
    → size u ≤ fuel
    → sp_tree_remove pool fuel sp addr ≡ fault
unfolding sp_tree_remove
sp_tree_remove-NoKey pool fuel lo hi addr sp leaf s absent low high enough =
    rw (eq_zero sp.root s) refl
sp_tree_remove-NoKey pool fuel lo hi addr sp (node l a r) s absent low high enough =
    remove_absent pool fuel lo hi addr sp.heap sp.root l a r s absent low high enough

module _ (fuel lo hi z : ℕ) (h : Heap) (p : ℕ) where
  insert_present :
      (l : Tree) (a : ℕ) (r : Tree)
      → Stands z h lo hi (node l a r) p
      → ¬ NoKey h.vm_start (h.vm_start z) (inorder (node l a r))
      → 1 < z
      → lo ≤ h.vm_start z
      → h.vm_start z < hi
      → size (node l a r) ≤ fuel
      → sp_tree_insert fuel (with_root h p) z ≡ fault
  unfolding sp_tree_insert insert_helper insert_checked sp_node_init
  insert_present l a r s has real low high enough =
      let u = node l a r in
      let start = sp_node_init z (call (lock_get tree) h) in
      let s' = init-Stands z lo hi p p (call (lock_get tree) h) u s refl in
      let (g, q, e, w) =
        splay-Splayed z lo hi (h.vm_start z) (omega arith) start p fuel l a r s' enough low high in
      let k = splayed-at_addr z lo hi (h.vm_start z) start g q (inorder u) w has in
      let k' : g.vm_start z ≡ h.vm_start z = ap (λ f. f z) w.kept.vm_start in
      let b : ltb (g.vm_start z) (g.vm_start q) ≡ false =
        ltb-same (g.vm_start z) (g.vm_start q) (k' ∙ sym k) in
      let c : ltb (g.vm_start q) (g.vm_start z) ≡ false =
        ltb-same (g.vm_start q) (g.vm_start z) (k ∙ sym k') in
      rw (e, ne_zero p a s.0 s.1, b, c) refl

-- On a tree that stands, with fuel for each node, `sp_tree_insert` of a node outside the tree that
-- starts, within the bounds of the keys, where a node in it starts stops on an assertion.
pub sp_tree_insert-present :
    (fuel lo hi z : ℕ) (sp : SpTree) (u : Tree)
    → Stands z sp.heap lo hi u sp.root
    → ¬ NoKey sp.heap.vm_start (sp.heap.vm_start z) (inorder u)
    → 1 < z
    → lo ≤ sp.heap.vm_start z
    → sp.heap.vm_start z < hi
    → size u ≤ fuel
    → sp_tree_insert fuel sp z ≡ fault
sp_tree_insert-present fuel lo hi z sp leaf s has real low high enough = absurd (has tt)
sp_tree_insert-present fuel lo hi z sp (node l a r) s has real low high enough =
    insert_present fuel lo hi z sp.heap sp.root l a r s has real low high enough
