-- ===== src/SpTree/Valid.antt =====
-- The invariant of `struct sp_tree`.
use open_ooc.Base.{ℕ, suc, ◌≢◌, List, [], ◌∷◌, ◌++◌, arith, ap}
use open_ooc.VmArea.{Heap, LockCall, call}
use open_ooc.SpTree.Shape.{Tree, leaf, node, inorder, Stands, HasParent, Outside}
use open_ooc.SpTree.Linked.{Linked}
use open_ooc.SpTree.Ops.{SpTree}

-- The root is the root of a search tree with keys from `lo` to below `hi`, whose parent pointers
-- are right, and whose nodes in order are linked by `vm_prev` and `vm_next`.
pub record IsTree (lo hi : ℕ) (sp : SpTree) (u : Tree) : Type 0 where
  pub stands : Stands 0 sp.heap lo hi u sp.root
  pub no_parent : HasParent sp.heap u 0
  pub linked : Linked sp.heap 0 (inorder u) 0

-- No node of the list has the key.
abbrev pub NoKey : (ℕ → ℕ) → ℕ → List ℕ → Type 0
NoKey key k [] = Unit
NoKey key k (a ∷ xs) = (key a ≢ k) × NoKey key k xs

pub NoKey-left : (key : ℕ → ℕ) (k : ℕ) (xs ys : List ℕ) → NoKey key k (xs ++ ys) → NoKey key k xs
NoKey-left key k [] ys n = tt
NoKey-left key k (a ∷ xs) ys n = (n.0, NoKey-left key k xs ys n.1)

pub NoKey-right : (key : ℕ → ℕ) (k : ℕ) (xs ys : List ℕ) → NoKey key k (xs ++ ys) → NoKey key k ys
NoKey-right key k [] ys n = n
NoKey-right key k (a ∷ xs) ys n = NoKey-right key k xs ys n.1

-- A node whose key is not in the tree is not in the tree.
pub Stands-avoid :
    (z lo hi p : ℕ) (h : Heap) (u : Tree)
    → Stands 0 h lo hi u p
    → NoKey h.vm_start (h.vm_start z) (inorder u)
    → Stands z h lo hi u p
Stands-avoid z lo hi p h leaf s n = s
Stands-avoid z lo hi p h (node l a r) s n =
    let n_r = NoKey-right h.vm_start _ (inorder l) (a ∷ inorder r) n in
    (
      s.0,
      s.1,
      (λ e. n_r.0 (ap h.vm_start e)),
      s.3,
      s.4,
      Stands-avoid z lo (h.vm_start a) _ h l s.5
          (NoKey-left h.vm_start _ (inorder l) (a ∷ inorder r) n),
      s.6,
      Stands-avoid z (suc (h.vm_start a)) hi _ h r s.7 n_r.1,
      s.8,
    )

pub Stands-real :
    (z lo hi p : ℕ) (h : Heap) (u : Tree) → Stands z h lo hi u p → Stands 0 h lo hi u p
Stands-real z lo hi p h leaf s = s
Stands-real z lo hi p h (node l a r) s = (
  s.0,
  s.1,
  omega arith,
  s.3,
  s.4,
  Stands-real z lo (h.vm_start a) _ h l s.5,
  s.6,
  Stands-real z (suc (h.vm_start a)) hi _ h r s.7,
  s.8,
)

-- A node with a key out of the range is not in the tree.
pub Stands-far :
    (z lo hi p : ℕ) (h : Heap) (u : Tree)
    → Stands 0 h lo hi u p
    → Outside h lo hi z
    → Stands z h lo hi u p
Stands-far z lo hi p h leaf s out = s
Stands-far z lo hi p h (node l a r) s out = (
  s.0,
  s.1,
  (λ e. ground (arith, ap h.vm_start e)),
  s.3,
  s.4,
  Stands-far z lo (h.vm_start a) _ h l s.5 (ground arith),
  s.6,
  Stands-far z (suc (h.vm_start a)) hi _ h r s.7 (ground arith),
  s.8,
)

-- A change of the list links and of the record of calls.
abbrev pub relink : (ℕ → ℕ) → (ℕ → ℕ) → List LockCall → Heap → Heap
relink prev next calls h = record h { vm_prev = prev; vm_next = next; calls = calls }

module _ (prev next : ℕ → ℕ) (calls : List LockCall) (h : Heap) where
  pub HasParent-relink :
      (u : Tree) (a : ℕ) → HasParent h u a → HasParent (relink prev next calls h) u a
  HasParent-relink leaf a s = s
  HasParent-relink (node l b r) a s = s

  -- It leaves a tree standing.
  pub Stands-relink :
      (z lo hi p : ℕ) (u : Tree)
      → Stands z h lo hi u p
      → Stands z (relink prev next calls h) lo hi u p
  Stands-relink z lo hi p leaf s = s
  Stands-relink z lo hi p (node l a r) s = (
    s.0,
    s.1,
    s.2,
    s.3,
    s.4,
    Stands-relink z lo (h.vm_start a) _ l s.5,
    HasParent-relink l a s.6,
    Stands-relink z (suc (h.vm_start a)) hi _ r s.7,
    HasParent-relink r a s.8,
  )

Linked-call :
    (c : LockCall) (h : Heap) (p e : ℕ) (xs : List ℕ) → Linked h p xs e → Linked (call c h) p xs e
Linked-call c h p e [] s = s
Linked-call c h p e (a ∷ xs) s = (s.0, s.1, Linked-call c h a e xs s.2)

pub IsTree-call :
    (lo hi : ℕ) (c : LockCall) (sp : SpTree) (u : Tree)
    → IsTree lo hi sp u
    → IsTree lo hi (record sp { heap = call c sp.heap }) u
IsTree-call lo hi c sp u v = record {
  stands =
      Stands-relink sp.heap.vm_prev sp.heap.vm_next (c ∷ sp.heap.calls) sp.heap 0 lo hi sp.root u
        v.stands;
  no_parent =
      HasParent-relink sp.heap.vm_prev sp.heap.vm_next (c ∷ sp.heap.calls) sp.heap u 0 v.no_parent;
  linked = Linked-call c sp.heap 0 0 (inorder u) v.linked;
}
