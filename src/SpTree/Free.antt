-- ===== src/SpTree/Free.antt =====
-- `sp_tree_free` empties the tree.
use open_ooc.Base.{
  ℕ, zero, suc, ◌≤◌, ◌≡◌, refl, List, ◌∷◌, ◌++◌, arith, ok, sym, eq_zero, ◌∙◌, ap, length, subst,
  ne_zero,
}
use open_ooc.VmArea.{call, lock_free, tree}
use open_ooc.VmaPool.{VmaPool, FreesOne}
use open_ooc.SpTree.Shape.{Tree, leaf, node, inorder, size}
use open_ooc.SpTree.Valid.{IsTree, NoKey, NoKey-right}
use open_ooc.SpTree.Ops.{SpTree, free_loop, sp_tree_free}
use open_ooc.SpTree.RemoveHelper.{length-append, length-inorder}
use open_ooc.SpTree.Remove.{sp_tree_remove-Removed}

-- The key of the root is that of a node.
NoKey-root :
    (key : ℕ → ℕ) (l : Tree) (a : ℕ) (r : Tree) → ¬ NoKey key (key a) (inorder (node l a r))
NoKey-root key l a r n = (NoKey-right key (key a) (inorder l) (a ∷ inorder r) n).0 refl

-- One node less.
pub removed-size :
    (u u' : Tree) (q : ℕ) (xs ys : List ℕ)
    → inorder u ≡ xs ++ (q ∷ ys)
    → inorder u' ≡ xs ++ ys
    → size u ≡ suc (size u')
removed-size u u' q xs ys e e' =
    let a = sym (length-inorder u) ∙ ap length e ∙ length-append xs (q ∷ ys) in
    let b = sym (length-inorder u') ∙ ap length e' ∙ length-append xs ys in omega arith

module _ (pool : VmaPool) (law : FreesOne pool) (fuel lo hi : ℕ) where
  free_loop-empties :
      (n : ℕ) (sp : SpTree) (u : Tree)
      → IsTree lo hi sp u
      → size u ≤ n
      → size u ≤ fuel
      → (sp' : SpTree) × (free_loop pool n fuel sp ≡ ok sp')
        × (sp'.root ≡ 0)
        × (sp'.heap.vm_start ≡ sp.heap.vm_start)
        × (sp'.heap.vm_end ≡ sp.heap.vm_end)
        × (sp'.heap.vm_flags ≡ sp.heap.vm_flags)
  unfolding free_loop
  free_loop-empties zero sp leaf v enough enough' =
      (sp, rw (eq_zero sp.root v.stands) refl, v.stands, refl, refl, refl)
  free_loop-empties (suc n) sp leaf v enough enough' =
      (sp, rw (eq_zero sp.root v.stands) refl, v.stands, refl, refl, refl)
  free_loop-empties zero sp (node l a r) v enough enough' = absurd (omega (arith, enough))
  free_loop-empties (suc n) sp (node l a r) v enough enough' =
      let s = v.stands in
      let key = sp.heap.vm_start in
      let e : key sp.root ≡ key a = ap key s.0 in
      let has = subst (λ k. ¬ NoKey key k (inorder (node l a r))) (sym e) (NoKey-root key l a r) in
      let (sp₁, run, w) =
        sp_tree_remove-Removed pool fuel lo hi (key sp.root) sp (node l a r) law v has
          (omega (arith, e, s.3)) (omega (arith, e, s.4)) enough' in
      let less = removed-size (node l a r) w.tree w.node w.before w.after w.old_nodes w.new_nodes in
      let (sp₂, run', empty, f₁, f₂, f₃) =
        free_loop-empties n sp₁ w.tree w.valid (omega arith) (omega arith) in
      (
        sp₂,
        rw (run, ne_zero sp.root a s.0 s.1) run',
        empty,
        f₁ ∙ w.vm_start,
        f₂ ∙ w.vm_end,
        f₃ ∙ w.vm_flags,
      )

-- On a valid tree, with one pass for each node, fuel for each node in each pass, and a pool that
-- changes only the list link of the node it gets back, `sp_tree_free` stops, and leaves an empty
-- tree; no node's range or flags change.
pub sp_tree_free-empties :
    (pool : VmaPool) (n fuel lo hi : ℕ) (sp : SpTree) (u : Tree)
    → FreesOne pool
    → IsTree lo hi sp u
    → size u ≤ n
    → size u ≤ fuel
    → (sp' : SpTree) × (sp_tree_free pool n fuel sp ≡ ok sp')
      × (sp'.root ≡ 0)
      × (sp'.heap.vm_start ≡ sp.heap.vm_start)
      × (sp'.heap.vm_end ≡ sp.heap.vm_end)
      × (sp'.heap.vm_flags ≡ sp.heap.vm_flags)
unfolding sp_tree_free
sp_tree_free-empties pool n fuel lo hi sp u law v enough enough' =
    let (sp₁, run, empty, f₁, f₂, f₃) =
      free_loop-empties pool law fuel lo hi n sp u v enough enough' in
    (record sp₁ { heap = call (lock_free tree) sp₁.heap }, rw run refl, empty, f₁, f₂, f₃)
