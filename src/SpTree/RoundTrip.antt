-- ===== src/SpTree/RoundTrip.antt =====
-- `sp_tree_insert`, then `sp_tree_remove` or `sp_tree_find_and_lock`.
use open_ooc.SpTree.Free.{removed-size}
use open_ooc.Base.{ℕ, ◌≤◌, ◌<◌, ◌≡◌, refl, List, [], ◌∷◌, ◌++◌, arith, ok, ap, ◌∙◌, sym, subst}
use open_ooc.VmaPool.{VmaPool, FreesOne}
use open_ooc.SpTree.Shape.{Tree, inorder, size}
use open_ooc.SpTree.Valid.{IsTree, NoKey, NoKey-left, NoKey-right}
use open_ooc.SpTree.Ops.{SpTree, sp_tree_insert, sp_tree_remove}
use open_ooc.SpTree.InsertTree.{sp_tree_insert-Inserted}
use open_ooc.SpTree.Remove.{sp_tree_remove-Removed}

tail : List ℕ → List ℕ
tail [] = []
tail (a ∷ xs) = xs

head : List ℕ → ℕ
head [] = 0
head (a ∷ xs) = a

module _ (key : ℕ → ℕ) (k q q' : ℕ) (there : key q' ≡ k) where
  -- A list has one place for a key that no other node has.
  one-place :
      (xs ys xs' ys' : List ℕ)
      → xs ++ (q ∷ ys) ≡ xs' ++ (q' ∷ ys')
      → NoKey key k xs
      → NoKey key k ys
      → xs ++ ys ≡ xs' ++ ys'
  unfolding tail head
  one-place [] ys [] ys' e n m = ap tail e
  one-place [] ys (b ∷ xs') ys' e n m =
      absurd ((NoKey-right key k xs' (q' ∷ ys') (subst (NoKey key k) (ap tail e) m)).0 there)
  one-place (a ∷ xs) ys [] ys' e n m = absurd (n.0 (ap (λ l. key (head l)) e ∙ there))
  one-place (a ∷ xs) ys (b ∷ xs') ys' e n m =
      let e' : a ≡ b = ap head e in rw (e', one-place xs ys xs' ys' (ap tail e) n.1 m) refl

-- On a valid tree without the start address of the node `z`, which is within the bounds of the keys
-- and whose own address is above 1, with fuel for one node more than the tree has and a pool that
-- changes only the list link of the node it gets back, a `sp_tree_insert` of `z` and then a
-- `sp_tree_remove` of its start address both succeed, and leave a valid tree of the same nodes in
-- the same order.
pub sp_tree_remove-sp_tree_insert :
    (pool : VmaPool) (fuel lo hi z : ℕ) (sp : SpTree) (u : Tree)
    → FreesOne pool
    → IsTree lo hi sp u
    → NoKey sp.heap.vm_start (sp.heap.vm_start z) (inorder u)
    → 1 < z
    → lo ≤ sp.heap.vm_start z
    → sp.heap.vm_start z < hi
    → size u < fuel
    → (sp₁ : SpTree) × (sp₂ : SpTree) × (u₂ : Tree) × (sp_tree_insert fuel sp z ≡ ok sp₁)
      × (sp_tree_remove pool fuel sp₁ (sp.heap.vm_start z) ≡ ok sp₂)
      × IsTree lo hi sp₂ u₂
      × (inorder u₂ ≡ inorder u)
sp_tree_remove-sp_tree_insert pool fuel lo hi z sp u law v absent real low high enough =
    let k = sp.heap.vm_start z in
    let (sp₁, run, i) =
      sp_tree_insert-Inserted fuel lo hi z sp u v absent real low high (omega arith) in
    let n = subst (NoKey sp.heap.vm_start k) i.old_nodes absent in
    let less = removed-size i.tree u z i.before i.after i.new_nodes i.old_nodes in
    let has : ¬ NoKey sp₁.heap.vm_start k (inorder i.tree) = λ m.
      (NoKey-right sp.heap.vm_start k i.before (z ∷ i.after) (
          subst (λ f. NoKey f k (i.before ++ (z ∷ i.after))) i.vm_start
            (subst (NoKey sp₁.heap.vm_start k) i.new_nodes m))).0
        refl in
    let (sp₂, run', w) =
      sp_tree_remove-Removed pool fuel lo hi k sp₁ i.tree law i.valid has low high (omega arith) in
    let there : sp.heap.vm_start w.node ≡ k = ap (λ f. f w.node) (sym i.vm_start) ∙ w.at_addr in
    let same =
      one-place sp.heap.vm_start k z w.node there i.before i.after w.before w.after
        (sym i.new_nodes ∙ w.old_nodes) (NoKey-left sp.heap.vm_start k i.before i.after n)
        (NoKey-right sp.heap.vm_start k i.before i.after n) in
    (sp₁, sp₂, w.tree, run, run', w.valid, w.new_nodes ∙ sym same ∙ sym i.old_nodes)
