-- ===== src/SpTree/FindTree.antt =====
-- `sp_tree_find_and_lock` on a valid tree: the splay, then the search at the root.
use open_ooc.SpTree.InsertTree.{Linked-eq}
use open_ooc.Base.{
  ℕ, suc, ◌≤◌, ◌<◌, ◌≡◌, refl, List, [], ◌∷◌, ◌++◌, arith, ◌∙◌, ok, ◌>>=◌, ap, eq_zero, subst, sym,
  ne_zero,
}
use open_ooc.VmArea.{Heap, call, lock_get, lock_let, tree, area}
use open_ooc.SpTree.Shape.{Tree, leaf, node, inorder, size}
use open_ooc.SpTree.Linked.{Linked, Stands-IsSorted}
use open_ooc.SpTree.Valid.{IsTree, IsTree-call, Stands-relink}
use open_ooc.SpTree.Ops.{SpTree, with_root, sp_tree_find_and_lock, find}
use open_ooc.SpTree.Find.{containing, found, IsSpaced, find-containing}
use open_ooc.SpTree.Splay.{Splayed, splay-Splayed}

module _ (h g : Heap) (starts : g.vm_start ≡ h.vm_start) (ends : g.vm_end ≡ h.vm_end) where
  pub containing-eq : (k : ℕ) (xs : List ℕ) → containing g k xs ≡ containing h k xs
  unfolding containing
  containing-eq k [] = refl
  containing-eq k (a ∷ xs) = rw (ap (λ f. f a) starts, ap (λ f. f a) ends, containing-eq k xs) refl

  pub IsSpaced-eq : (lo : ℕ) (xs : List ℕ) → IsSpaced h lo xs → IsSpaced g lo xs
  IsSpaced-eq lo [] s = tt
  IsSpaced-eq lo (a ∷ xs) s =
      let e = ap (λ f. f a) starts in
      let e' = ap (λ f. f a) ends in
      (
        omega (arith, s.0),
        omega (arith, s.1),
        subst (λ m. IsSpaced g m xs) (sym e') (IsSpaced-eq (h.vm_end a) xs s.2),
      )

-- The state behind the lookup of `v`.
abbrev pub locked : Heap → ℕ → ℕ → SpTree
locked g p v = with_root (call (lock_let tree) (call (lock_get (area v)) g)) p

-- The outcome of a lookup: a valid tree `u'` of the same nodes in the store `g` with the root `p`,
-- and the node of the list that contains the address, locked before the tree is unlocked.
pub record Looked (fuel lo hi k : ℕ) (sp : SpTree) (xs : List ℕ) : Type 0 where
  pub g : Heap
  pub p : ℕ
  pub u : Tree
  pub run :
      sp_tree_find_and_lock fuel sp k
      ≡ (found (containing sp.heap k xs) >>= λ v. ok (locked g p v, v))
  pub valid : (v : ℕ) → IsTree lo hi (locked g p v) u
  pub nodes : inorder u ≡ xs
  pub vm_start : g.vm_start ≡ sp.heap.vm_start
  pub vm_end : g.vm_end ≡ sp.heap.vm_end
  pub vm_flags : g.vm_flags ≡ sp.heap.vm_flags
  pub calls : g.calls ≡ lock_get tree ∷ sp.heap.calls

module _ (fuel lo hi k : ℕ) (h : Heap) (p : ℕ) where
  abbrev start : Heap
  start = call (lock_get tree) h

  find-found :
      (g : Heap) (q : ℕ) (xs : List ℕ) (w : Splayed 0 lo hi k xs start g q)
      → Linked g 0 (inorder w.lower ++ (q ∷ inorder w.upper)) 0
      → IsSpaced h lo xs
      → find q g k ≡ found (containing h k xs)
  find-found g q xs w linked spaced =
      let s = w.stands in
      find-containing g k lo hi q (inorder w.lower) (inorder w.upper) s.1 s.4
        (Stands-IsSorted 0 lo k (g.sp_l q) g w.lower w.before)
        (Stands-IsSorted 0 (suc k) hi (g.sp_r q) g w.upper w.after)
        (Stands-IsSorted 0 (suc (g.vm_start q)) hi (g.sp_r q) g w.upper s.7) linked
        (subst (IsSpaced g lo) (sym w.order)
          (IsSpaced-eq h g w.kept.vm_start w.kept.vm_end lo xs spaced))
      ∙ ap found
          (ap (containing g k) w.order ∙ containing-eq h g w.kept.vm_start w.kept.vm_end k xs)

  find_nonempty :
      (l : Tree) (a : ℕ) (r : Tree)
      → IsTree lo hi (with_root h p) (node l a r)
      → IsSpaced h lo (inorder (node l a r))
      → lo ≤ k
      → k < hi
      → size (node l a r) ≤ fuel
      → Looked fuel lo hi k (with_root h p) (inorder (node l a r))
  unfolding sp_tree_find_and_lock
  find_nonempty l a r v spaced low high enough =
      let u = node l a r in
      let s = Stands-relink h.vm_prev h.vm_next (lock_get tree ∷ h.calls) h 0 lo hi p u v.stands in
      let (g, q, e, w) =
        splay-Splayed 0 lo hi k (omega arith) start p fuel l a r s enough low high in
      let linked =
        Linked-eq h g 0 0 (inorder w.lower ++ (q ∷ inorder w.upper)) w.kept.vm_prev w.kept.vm_next
          (subst (λ ys. Linked h 0 ys 0) (sym w.order) v.linked) in
      let valid : IsTree lo hi (with_root g q) (node w.lower q w.upper) = record {
        stands = w.stands;
        no_parent = w.no_parent;
        linked = linked;
      } in
      record {
        g = g;
        p = q;
        u = node w.lower q w.upper;
        run =
            rw (e, ne_zero p a v.stands.0 v.stands.1, find-found g q (inorder u) w linked spaced)
              refl;
        valid = λ x.
            IsTree-call lo hi (lock_let tree) (with_root (call (lock_get (area x)) g) q) _
              (IsTree-call lo hi (lock_get (area x)) (with_root g q) _ valid);
        nodes = w.order;
        vm_start = w.kept.vm_start;
        vm_end = w.kept.vm_end;
        vm_flags = w.kept.vm_flags;
        calls = w.kept.calls;
      }

  find_empty : IsTree lo hi (with_root h p) leaf → Looked fuel lo hi k (with_root h p) []
  unfolding sp_tree_find_and_lock containing
  find_empty v = record {
    g = start;
    p = p;
    u = leaf;
    run = rw (eq_zero p v.stands) refl;
    valid = λ x. record { stands = v.stands; no_parent = tt; linked = tt };
    nodes = refl;
    vm_start = refl;
    vm_end = refl;
    vm_flags = refl;
    calls = refl;
  }

-- On a valid tree whose nodes have ranges that do not overlap, for an address within the bounds of
-- the keys and with fuel for each node, `sp_tree_find_and_lock` returns what a search of the list
-- of all nodes finds, and stops the program where no node contains the address. The tree stays
-- valid with the same nodes, and while it is locked the node found is locked.
pub sp_tree_find_and_lock-containing :
    (fuel lo hi k : ℕ) (sp : SpTree) (u : Tree)
    → IsTree lo hi sp u
    → IsSpaced sp.heap lo (inorder u)
    → lo ≤ k
    → k < hi
    → size u ≤ fuel
    → Looked fuel lo hi k sp (inorder u)
sp_tree_find_and_lock-containing fuel lo hi k sp leaf v spaced low high enough =
    find_empty fuel lo hi k sp.heap sp.root v
sp_tree_find_and_lock-containing fuel lo hi k sp (node l a r) v spaced low high enough =
    find_nonempty fuel lo hi k sp.heap sp.root l a r v spaced low high enough
