-- ===== src/SpTree/Tests.antt =====
-- The tree of src/sp_tree.c on concrete stores.
use open_ooc.SpTree.FindMod.{sp_tree_find_mod_and_lock}
use open_ooc.SpTree.RoundTrip.{sp_tree_remove-sp_tree_insert}
use open_ooc.SpTree.Free.{sp_tree_free-empties}
use open_ooc.Base.{ℕ, ◌≡◌, refl, [], arith, upd, ok, fault, Run, List, ◌∷◌}
use open_ooc.VmArea.{Heap}
use open_ooc.VmaPool.{VmaPool, FreesOne}
use open_ooc.SpTree.Shape.{Tree, leaf, node, inorder}
use open_ooc.SpTree.Ops.{SpTree, with_root, sp_tree_insert, sp_tree_remove, sp_tree_free}
use open_ooc.SpTree.Valid.{IsTree}
use open_ooc.SpTree.Splay.{Splayed, splay-Splayed}
use open_ooc.SpTree.InsertTree.{Inserted, sp_tree_insert-Inserted}
use open_ooc.SpTree.Remove.{Removed, sp_tree_remove-Removed}
use open_ooc.SpTree.FindTree.{Looked, sp_tree_find_and_lock-containing}
use open_ooc.SpTree.Errors.{sp_tree_remove-NoKey, sp_tree_insert-present}
use open_ooc.SpTree.{splay}

abbrev zeros : ℕ → ℕ
zeros x = 0

-- Nodes 2, 3 and 4 start at 10, 20 and 30; 3 is the root of a tree with 2 to its left, 4 is in no
-- tree. Node 5 starts where 2 does.
abbrev store : Heap
store = record {
  sp_p = upd zeros 2 3;
  sp_l = upd zeros 3 2;
  sp_r = zeros;
  vm_prev = upd zeros 3 2;
  vm_next = upd zeros 2 3;
  vm_start = upd (upd (upd (upd zeros 2 10) 3 20) 4 30) 5 10;
  vm_end = upd (upd (upd (upd zeros 2 15) 3 30) 4 40) 5 12;
  vm_flags = zeros;
  calls = [];
}

abbrev two_nodes : SpTree
two_nodes = with_root store 3

abbrev two_nodes_tree : Tree
two_nodes_tree = node (node leaf 2 leaf) 3 leaf

two_nodes-IsTree : IsTree 0 100 two_nodes two_nodes_tree
two_nodes-IsTree = record {
  stands = (
    refl,
    omega arith,
    omega arith,
    omega arith,
    omega arith,
    (refl, omega arith, omega arith, omega arith, omega arith, refl, tt, refl, tt),
    refl,
    refl,
    tt,
  );
  no_parent = refl;
  linked = (refl, refl, (refl, refl, tt));
}

-- A pool that links the freed node in front of nothing.
abbrev pool : VmaPool
pool = record {
  vma_alloc = λ h. (6, h);
  vma_free = λ a h. record h { vm_next = upd h.vm_next a 0 };
}

pool-FreesOne : FreesOne pool
pool-FreesOne = record {
  sp_p = λ a h. refl;
  sp_l = λ a h. refl;
  sp_r = λ a h. refl;
  vm_prev = λ a h. refl;
  vm_start = λ a h. refl;
  vm_end = λ a h. refl;
  vm_flags = λ a h. refl;
  vm_next = λ a h x ne. ground arith;
}

sp_tree_insert-Inserted_example :
    (sp : SpTree) × (sp_tree_insert 2 two_nodes 4 ≡ ok sp)
    × Inserted 0 100 store (inorder two_nodes_tree) 4 sp
sp_tree_insert-Inserted_example =
    sp_tree_insert-Inserted 2 0 100 4 two_nodes two_nodes_tree two_nodes-IsTree
      (omega arith, (omega arith, tt)) (omega arith) (omega arith) (omega arith) (omega arith)

sp_tree_remove-Removed_example :
    (sp : SpTree) × (sp_tree_remove pool 2 two_nodes 20 ≡ ok sp)
    × Removed 0 100 20 store (inorder two_nodes_tree) sp
sp_tree_remove-Removed_example =
    sp_tree_remove-Removed pool 2 0 100 20 two_nodes two_nodes_tree pool-FreesOne two_nodes-IsTree
      (λ n. n.1.0 refl) (omega arith) (omega arith) (omega arith)

sp_tree_find_and_lock-containing_example : Looked 2 0 100 12 two_nodes (inorder two_nodes_tree)
sp_tree_find_and_lock-containing_example =
    sp_tree_find_and_lock-containing 2 0 100 12 two_nodes two_nodes_tree two_nodes-IsTree
      (omega arith, omega arith, (omega arith, omega arith, tt)) (omega arith) (omega arith)
      (omega arith)

splay-Splayed_example :
    (g : Heap) × (q : ℕ) × (splay 2 12 3 store ≡ ok (g, q))
    × Splayed 0 0 100 12 (inorder two_nodes_tree) store g q
splay-Splayed_example =
    splay-Splayed 0 0 100 12 (omega arith) store 3 2 (node leaf 2 leaf) 3 leaf
      two_nodes-IsTree.stands (omega arith) (omega arith) (omega arith)

sp_tree_remove-NoKey_example : sp_tree_remove pool 2 two_nodes 12 ≡ fault
sp_tree_remove-NoKey_example =
    sp_tree_remove-NoKey pool 2 0 100 12 two_nodes two_nodes_tree two_nodes-IsTree.stands
      (omega arith, (omega arith, tt)) (omega arith) (omega arith) (omega arith)

sp_tree_insert-present_example : sp_tree_insert 2 two_nodes 5 ≡ fault
sp_tree_insert-present_example =
    sp_tree_insert-present 2 0 100 5 two_nodes two_nodes_tree
      (
        refl,
        omega arith,
        omega arith,
        omega arith,
        omega arith,
        (refl, omega arith, omega arith, omega arith, omega arith, refl, tt, refl, tt),
        refl,
        refl,
        tt,
      )
      (λ n. n.0 refl) (omega arith) (omega arith) (omega arith) (omega arith)

sp_tree_free-empties_example :
    (sp : SpTree) × (sp_tree_free pool 2 2 two_nodes ≡ ok sp)
    × (sp.root ≡ 0)
    × (sp.heap.vm_start ≡ store.vm_start)
    × (sp.heap.vm_end ≡ store.vm_end)
    × (sp.heap.vm_flags ≡ store.vm_flags)
sp_tree_free-empties_example =
    sp_tree_free-empties pool 2 2 0 100 two_nodes two_nodes_tree pool-FreesOne two_nodes-IsTree
      (omega arith) (omega arith)

sp_tree_remove-sp_tree_insert_example :
    (sp₁ : SpTree) × (sp₂ : SpTree) × (u₂ : Tree) × (sp_tree_insert 3 two_nodes 4 ≡ ok sp₁)
    × (sp_tree_remove pool 3 sp₁ 30 ≡ ok sp₂)
    × IsTree 0 100 sp₂ u₂
    × (inorder u₂ ≡ inorder two_nodes_tree)
sp_tree_remove-sp_tree_insert_example =
    sp_tree_remove-sp_tree_insert pool 3 0 100 4 two_nodes two_nodes_tree pool-FreesOne
      two_nodes-IsTree (omega arith, (omega arith, tt)) (omega arith) (omega arith) (omega arith)
      (omega arith)

-- The node 2 and its page get one more permission. The splay brings 2 above 3, but the root pointer
-- still leads to 3, from where 2 is no longer reached.
find_mod_result : Run (SpTree × ℕ) → List ℕ
find_mod_result (ok (sp, n)) = n ∷ sp.root ∷ sp.heap.sp_l 3 ∷ sp.heap.sp_r 3 ∷ sp.heap.sp_p 3 ∷ []
find_mod_result r = []

sp_tree_find_mod_and_lock-stale_root :
    find_mod_result (sp_tree_find_mod_and_lock pool 5 2 two_nodes 10) ≡ 2 ∷ 3 ∷ 0 ∷ 0 ∷ 2 ∷ []
unfolding find_mod_result sp_tree_find_mod_and_lock
sp_tree_find_mod_and_lock-stale_root = refl
