-- ===== src/SpTree/InsertTree.antt =====
-- `sp_tree_insert` keeps the invariant, and adds the node in its place.
use open_ooc.VmArea.{Heap, call, lock_get, tree}
use open_ooc.Base.{
  ℕ, suc, ◌≤◌, ◌<◌, ◌≡◌, ◌≢◌, inl, inr, refl, List, [], ◌∷◌, ◌++◌, arith, ◌∙◌, ◌==◌, ltb,
  Bool-cases, ok, false, ap, true, subst, sym, append_assoc, upd_self, ne_zero, eq_zero,
}
use open_ooc.SpTree.Shape.{Tree, leaf, node, inorder, size, Stands, HasParent}
use open_ooc.SpTree.Linked.{Linked}
use open_ooc.SpTree.Ops.{
  SpTree, with_root, sp_node_init, insert_below, insert_above, insert_checked, insert_helper,
  sp_tree_insert,
}
use open_ooc.SpTree.Valid.{IsTree, NoKey, Stands-avoid, NoKey-right, IsTree-call}
use open_ooc.SpTree.Splay.{Splayed, splay-Splayed}
use open_ooc.SpTree.Insert.{Before, insert_below-IsTree, insert_above-IsTree}
use open_ooc.SpTree.{splay, lock_let}

-- The outcome: `z` is the root, the other nodes stand in order around it.
pub record Inserted (lo hi : ℕ) (h : Heap) (xs : List ℕ) (z : ℕ) (sp : SpTree) : Type 0 where
  pub tree : Tree
  pub valid : IsTree lo hi sp tree
  pub at_root : sp.root ≡ z
  pub before : List ℕ
  pub after : List ℕ
  pub old_nodes : xs ≡ before ++ after
  pub new_nodes : inorder tree ≡ before ++ (z ∷ after)
  pub vm_start : sp.heap.vm_start ≡ h.vm_start
  pub vm_end : sp.heap.vm_end ≡ h.vm_end
  pub vm_flags : sp.heap.vm_flags ≡ h.vm_flags

-- Where the root is not null the helper puts the node above it.
insert_helper-Inserted :
    (lo hi z t p : ℕ) (h : Heap) (lower upper : Tree)
    → Before lo hi z h t lower upper
    → (p == 0) ≡ false
    → h.vm_start t ≢ h.vm_start z
    → (sp : SpTree) × (insert_helper (with_root h p) t z ≡ ok sp)
      × Inserted lo hi h (inorder (node lower t upper)) z sp
unfolding insert_helper insert_below insert_above insert_checked
insert_helper-Inserted lo hi z t p h lower upper v full ne =
    elim (Bool-cases (ltb (h.vm_start z) (h.vm_start t))) [
      | inl less ↦ (
        with_root (insert_below t z h) z,
        rw (full, less),
        record {
          tree = node lower z (node leaf t upper);
          valid = insert_below-IsTree lo hi z h t lower upper v (ground arith);
          at_root = refl;
          before = inorder lower;
          after = t ∷ inorder upper;
          old_nodes = refl;
          new_nodes = refl;
          vm_start = refl;
          vm_end = refl;
          vm_flags = refl;
        },
      )
      | inr more ↦
          let greater : ltb (h.vm_start t) (h.vm_start z) ≡ true = ground arith in
          (
            with_root (insert_above t z h) z,
            rw (full, more, greater),
            record {
              tree = node (node lower t leaf) z upper;
              valid = insert_above-IsTree lo hi z h t lower upper v (ground arith);
              at_root = refl;
              before = inorder lower ++ (t ∷ []);
              after = inorder upper;
              old_nodes = sym (append_assoc (inorder lower) (t ∷ []) (inorder upper));
              new_nodes = refl;
              vm_start = refl;
              vm_end = refl;
              vm_flags = refl;
            },
          )
    ]

init-HasParent :
    (z lo hi p a : ℕ) (h : Heap) (u : Tree)
    → Stands z h lo hi u p
    → HasParent h u a
    → HasParent (sp_node_init z h) u a
unfolding sp_node_init
init-HasParent z lo hi p a h leaf s e = tt
init-HasParent z lo hi p a h (node l b r) s e = ground arith

pub init-Stands :
    (z lo hi p p' : ℕ) (h : Heap) (u : Tree)
    → Stands z h lo hi u p
    → p' ≡ p
    → Stands z (sp_node_init z h) lo hi u p'
unfolding sp_node_init
init-Stands z lo hi p p' h leaf s e = e ∙ s
init-Stands z lo hi p p' h (node l a r) s e = (
  e ∙ s.0,
  s.1,
  s.2,
  s.3,
  s.4,
  init-Stands z lo (h.vm_start a) (h.sp_l a) _ h l s.5 (ground arith),
  init-HasParent z lo (h.vm_start a) (h.sp_l a) a h l s.5 s.6,
  init-Stands z (suc (h.vm_start a)) hi (h.sp_r a) _ h r s.7 (ground arith),
  init-HasParent z (suc (h.vm_start a)) hi (h.sp_r a) a h r s.7 s.8,
)

init-Linked :
    (z p e : ℕ) (h : Heap) (xs : List ℕ)
    → Linked h p xs e
    → NoKey h.vm_start (h.vm_start z) xs
    → Linked (sp_node_init z h) p xs e
unfolding sp_node_init
init-Linked z p e h [] s n = tt
init-Linked z p e h (a ∷ xs) s n =
    let ne : a ≢ z = λ i. n.0 (ap h.vm_start i) in
    (ground arith, ground arith, init-Linked z a e h xs s.2 n.1)

pub Linked-eq :
    (h g : Heap) (p e : ℕ) (xs : List ℕ)
    → g.vm_prev ≡ h.vm_prev
    → g.vm_next ≡ h.vm_next
    → Linked h p xs e
    → Linked g p xs e
Linked-eq h g p e [] ep en s = tt
Linked-eq h g p e (a ∷ xs) ep en s =
    (ap (λ f. f a) ep ∙ s.0, ap (λ f. f a) en ∙ s.1, Linked-eq h g a e xs ep en s.2)

module _ (fuel lo hi z : ℕ) (h : Heap) (p : ℕ) (real : 1 < z) (low : lo ≤ h.vm_start z)
    (high : h.vm_start z < hi) where
  abbrev start : Heap
  start = sp_node_init z (call (lock_get tree) h)

  -- The splayed tree is what the helper starts from.
  splay-Before :
      (l : Tree) (a : ℕ) (r : Tree)
      → IsTree lo hi (with_root h p) (node l a r)
      → NoKey h.vm_start (h.vm_start z) (inorder (node l a r))
      → size (node l a r) ≤ fuel
      → (g : Heap) × (t : ℕ) × (splay fuel (h.vm_start z) p start ≡ ok (g, t))
        × (w : Splayed z lo hi (h.vm_start z) (inorder (node l a r)) start g t) × Before lo hi z g t
            w.lower w.upper
  unfolding sp_node_init
  splay-Before l a r v absent enough =
      let s =
        init-Stands z lo hi p p (call (lock_get tree) h) (node l a r)
          (Stands-avoid z lo hi p h (node l a r) v.stands absent) refl in
      let (g, t, e, w) =
        splay-Splayed z lo hi (h.vm_start z) (omega arith) start p fuel l a r s enough low high in
      let key : g.vm_start z ≡ h.vm_start z = ap (λ f. f z) w.kept.vm_start in
      (
        g,
        t,
        e,
        w,
        record {
          stands = w.stands;
          linked = Linked-eq start g 0 0 _ w.kept.vm_prev w.kept.vm_next (
              subst (λ xs. Linked start 0 xs 0) (sym w.order)
                (init-Linked z 0 0 (call (lock_get tree) h) _ v.linked absent));
          before = subst (λ k. Stands z g lo k w.lower (g.sp_l t)) (sym key) w.before;
          after = subst (λ k. Stands z g (suc k) hi w.upper (g.sp_r t)) (sym key) w.after;
          real = real;
          low = rw key low;
          high = rw key high;
          loose = w.kept.sp_p ∙ upd_self h.sp_p z 0;
        },
      )

  -- The node does not keep the key of the root from being another one.
  root-ne :
      (xs ys : List ℕ) (t : ℕ) (g : Heap)
      → NoKey h.vm_start (h.vm_start z) (xs ++ (t ∷ ys))
      → g.vm_start ≡ h.vm_start
      → g.vm_start t ≢ g.vm_start z
  root-ne xs ys t g absent e same =
      (NoKey-right h.vm_start (h.vm_start z) xs (t ∷ ys) absent).0
        (sym (ap (λ f. f t) e) ∙ same ∙ ap (λ f. f z) e)

  insert_nonempty :
      (l : Tree) (a : ℕ) (r : Tree)
      → IsTree lo hi (with_root h p) (node l a r)
      → NoKey h.vm_start (h.vm_start z) (inorder (node l a r))
      → size (node l a r) ≤ fuel
      → (sp : SpTree) × (sp_tree_insert fuel (with_root h p) z ≡ ok sp)
        × Inserted lo hi h (inorder (node l a r)) z sp
  unfolding sp_tree_insert
  insert_nonempty l a r v absent enough =
      let (g, t, e, w, b) = splay-Before l a r v absent enough in
      let ne =
        root-ne (inorder w.lower) (inorder w.upper) t g
          (subst (NoKey h.vm_start (h.vm_start z)) (sym w.order) absent) w.kept.vm_start in
      let (sp, e', i) =
        insert_helper-Inserted lo hi z t p g w.lower w.upper b (ne_zero p a v.stands.0 v.stands.1)
          ne in
      (
        record sp { heap = call (lock_let tree) sp.heap },
        rw (e, e'),
        record {
          tree = i.tree;
          valid = IsTree-call lo hi (lock_let tree) sp i.tree i.valid;
          at_root = i.at_root;
          before = i.before;
          after = i.after;
          old_nodes = sym w.order ∙ i.old_nodes;
          new_nodes = i.new_nodes;
          vm_start = i.vm_start ∙ w.kept.vm_start;
          vm_end = i.vm_end ∙ w.kept.vm_end;
          vm_flags = i.vm_flags ∙ w.kept.vm_flags;
        },
      )

  insert_empty :
      IsTree lo hi (with_root h p) leaf
      → (sp : SpTree) × (sp_tree_insert fuel (with_root h p) z ≡ ok sp) × Inserted lo hi h [] z sp
  unfolding sp_tree_insert
  insert_empty v =
      let e : (p == 0) ≡ true = eq_zero p v.stands in
      (
        with_root (call (lock_let tree) start) z,
        rw e,
        record {
          tree = node leaf z leaf;
          valid = record {
            stands = (
              refl,
              real,
              omega arith,
              low,
              high,
              upd_self h.sp_l z 0,
              tt,
              upd_self h.sp_r z 0,
              tt,
            );
            no_parent = upd_self h.sp_p z 0;
            linked = (upd_self h.vm_prev z 0, upd_self h.vm_next z 0, tt);
          };
          at_root = refl;
          before = [];
          after = [];
          old_nodes = refl;
          new_nodes = refl;
          vm_start = refl;
          vm_end = refl;
          vm_flags = refl;
        },
      )

-- On a valid tree without the start address of the node `z`, which is within the bounds of the keys
-- and whose own address is above 1, `sp_tree_insert` succeeds with fuel for each node: the tree
-- stays valid, `z` is its root, the other nodes are as before and `z` stands between them in order,
-- and no node's range or flags change.
pub sp_tree_insert-Inserted :
    (fuel lo hi z : ℕ) (sp : SpTree) (u : Tree)
    → IsTree lo hi sp u
    → NoKey sp.heap.vm_start (sp.heap.vm_start z) (inorder u)
    → 1 < z
    → lo ≤ sp.heap.vm_start z
    → sp.heap.vm_start z < hi
    → size u ≤ fuel
    → (sp' : SpTree) × (sp_tree_insert fuel sp z ≡ ok sp')
      × Inserted lo hi sp.heap (inorder u) z sp'
sp_tree_insert-Inserted fuel lo hi z sp leaf v absent real low high enough =
    insert_empty fuel lo hi z sp.heap sp.root real low high v
sp_tree_insert-Inserted fuel lo hi z sp (node l a r) v absent real low high enough =
    insert_nonempty fuel lo hi z sp.heap sp.root real low high l a r v absent enough
