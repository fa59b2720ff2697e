-- ===== src/SpTree/Splay.antt =====
-- `S_sp_tree_splay` on a tree that stands: it stops, keeps the nodes and their order, and puts at
-- the root a node that splits the others at the key.
use open_ooc.Base.{
  ◌==◌, ℕ, suc, ◌≤◌, ◌<◌, ◌≡◌, ◌≢◌, ◌⊎◌, inl, inr, refl, List, [], ◌∷◌, ◌++◌, arith, upd, ok,
  append_assoc, ◌∙◌, subst, append-nil, if-false, ne_zero,
}
use open_ooc.VmArea.{Heap, local_n}
use open_ooc.SpTree.{loop, splay, assemble}
use open_ooc.SpTree.Shape.{Tree, leaf, node, inorder, size, Stands, Stands-frame}
use open_ooc.SpTree.LeftSpine.{Spine, low, left_nodes, plug_left, inorder-plug_left, low-le}
use open_ooc.SpTree.RightSpine.{high, right_nodes, plug_right, inorder-plug_right, high-le}
use open_ooc.SpTree.SplayStep.{Inv}
use open_ooc.SpTree.SplayLoop.{splay_loop-Stopped}
use open_ooc.SpTree.Assemble.{Ready, assemble-Child, assemble-no_parent, assemble-Kept}
use open_ooc.SpTree.Kept.{Kept, Kept-trans}

-- The store `g` after a splay of the tree with the nodes `xs` in `h`, with the new root `p`.
pub record Splayed (z lo hi k : ℕ) (xs : List ℕ) (h g : Heap) (p : ℕ) : Type 0 where
  pub lower : Tree
  pub upper : Tree
  pub order : inorder lower ++ (p ∷ inorder upper) ≡ xs
  pub stands : Stands z g lo hi (node lower p upper) p
  pub no_parent : g.sp_p p ≡ 0
  pub before : Stands z g lo k lower (g.sp_l p)
  pub after : Stands z g (suc k) hi upper (g.sp_r p)
  pub kept : Kept z h g

-- Where a tree is empty its bounds do not matter.
Stands-empty :
    (z : ℕ) (h : Heap) (lo hi lo' hi' p : ℕ) (u : Tree)
    → u ≡ leaf
    → Stands z h lo hi u p
    → Stands z h lo' hi' u p
Stands-empty z h lo hi lo' hi' p leaf e s = s
Stands-empty z h lo hi lo' hi' p (node l a r) e s = cc

pub Stands-widen :
    (z : ℕ) (h : Heap) (lo hi lo' hi' p : ℕ) (u : Tree)
    → Stands z h lo hi u p
    → lo' ≤ lo
    → hi ≤ hi'
    → Stands z h lo' hi' u p
Stands-widen z h lo hi lo' hi' p u s le ge =
    Stands-frame z h h lo hi lo' hi' p p p u s refl le ge
      (λ x one k₁ k₂. (inr refl, refl, refl, refl)) (inl refl)

splice-order :
    (ls rs : Spine) (lower upper : Tree) (a t : ℕ)
    → a ≡ t
    → inorder (plug_left ls lower) ++ (t ∷ inorder (plug_right rs upper))
      ≡ left_nodes ls ++ ((inorder lower ++ (a ∷ inorder upper)) ++ right_nodes rs)
splice-order ls rs lower upper a t e =
    rw (inorder-plug_left, inorder-plug_right, e) (simp append_assoc)

module _ (z lo hi k : ℕ) (xs : List ℕ) (ne : z ≢ local_n) where
  module _ (h : Heap) (l r t : ℕ) (ls rs : Spine) (lower upper : Tree) (a : ℕ)
      (v : Inv z lo hi k xs h l r t ls rs (node lower a upper)) where
    ready :
        (ml mr : ℕ)
        → Stands z h (low h.vm_start lo ls) ml lower (h.sp_l a)
        → Stands z h mr (high h.vm_start hi rs) upper (h.sp_r a)
        → low h.vm_start lo ls ≤ ml
        → ml ≤ h.vm_start a
        → h.vm_start a < mr
        → mr ≤ high h.vm_start hi rs
        → Ready z lo hi ml mr h l r t ls rs lower upper
    ready ml mr sl sr low_le ml_le lt_mr le_high =
        let s = v.stands in
        let e : a ≡ t = ground arith in
        record {
          left = v.left;
          right = v.right;
          lower_stands = subst (λ x. Stands z h (low h.vm_start lo ls) ml lower (h.sp_l x)) e sl;
          upper_stands = subst (λ x. Stands z h mr (high h.vm_start hi rs) upper (h.sp_r x)) e sr;
          real = omega arith;
          other = rw (← e) s.2;
          low_le = low_le;
          ml_le = rw (← e) ml_le;
          lt_mr = rw (← e) lt_mr;
          le_high = le_high;
        }

    -- Where the left part ends and the right part begins, at a stop.
    cuts :
        (h.vm_start a ≡ k)
          ⊎ (((k < h.vm_start a) × (lower ≡ leaf)) ⊎ ((h.vm_start a < k) × (upper ≡ leaf)))
        → (ml : ℕ) × (mr : ℕ) × Ready z lo hi ml mr h l r t ls rs lower upper × (ml ≤ k) × (k < mr)
    cuts (inl e) =
        let s = v.stands in
        (
          h.vm_start a,
          suc (h.vm_start a),
          ready _ _ s.5 s.7 s.3 (omega arith) (omega arith) s.4,
          omega arith,
          omega arith,
        )
    cuts (inr (inl (lt, e))) =
        let s = v.stands in
        (
          low h.vm_start lo ls,
          suc (h.vm_start a),
          ready _ _ (Stands-empty z h _ _ _ _ _ lower e s.5) s.7 (omega arith) s.3 (omega arith)
              s.4,
          v.below,
          omega arith,
        )
    cuts (inr (inr (lt, e))) =
        let s = v.stands in
        (
          h.vm_start a,
          high h.vm_start hi rs,
          ready _ _ s.5 (Stands-empty z h _ _ _ _ _ upper e s.7) s.3 (omega arith) s.4
              (omega arith),
          omega arith,
          v.above,
        )

    -- The end of the function, after the loop.
    assemble-Splayed :
        (h.vm_start a ≡ k)
          ⊎ (((k < h.vm_start a) × (lower ≡ leaf)) ⊎ ((h.vm_start a < k) × (upper ≡ leaf)))
        → Splayed z lo hi k xs h (assemble (loop h l r t)).0 t
    unfolding assemble
    assemble-Splayed final =
        let (ml, mr, w, le, lt) = cuts final in
        let g = (assemble (loop h l r t)).0 in
        let kids = assemble-Child z lo hi ml mr h l r t ls rs lower upper w in
        let s = v.stands in
        let e : a ≡ t = ground arith in
        let lo_le = low-le z lo h l ls v.left in
        let le_hi = high-le z hi h r rs v.right in
        record {
          lower = plug_left ls lower;
          upper = plug_right rs upper;
          order = splice-order ls rs lower upper a t e ∙ v.order;
          stands = (
            refl,
            w.real,
            w.other,
            ground arith,
            ground arith,
            Stands-widen z g _ _ _ _ _ (plug_left ls lower) kids.0.0 (omega arith) w.ml_le,
            kids.0.1,
            Stands-widen z g _ _ _ _ _ (plug_right rs upper) kids.1.0 w.lt_mr (omega arith),
            kids.1.1,
          );
          no_parent = assemble-no_parent h l r t;
          before = Stands-widen z g _ _ _ _ _ (plug_left ls lower) kids.0.0 (omega arith) le;
          after = Stands-widen z g _ _ _ _ _ (plug_right rs upper) kids.1.0 lt (omega arith);
          kept = assemble-Kept z lo hi ml mr h l r t ls rs lower upper ne w;
        }

module _ (z lo hi k : ℕ) (ne : z ≢ local_n) (h : Heap) (p : ℕ) where
  -- The store in which the loop starts: the links of `n` are null.
  abbrev started : Heap
  started = record h {
    sp_p = upd h.sp_p local_n 0;
    sp_l = upd h.sp_l local_n 0;
    sp_r = upd h.sp_r local_n 0;
  }

  started-Inv :
      (l : Tree) (a : ℕ) (r : Tree)
      → Stands z h lo hi (node l a r) p
      → lo ≤ k
      → k < hi
      → Inv z lo hi k (inorder (node l a r)) started local_n local_n p [] [] (node l a r)
  started-Inv l a r s le lt = record {
    left = refl;
    right = refl;
    stands =
        Stands-frame z h started lo hi lo hi p p p (node l a r) s refl (omega arith) (omega arith)
          (λ x one k₁ k₂. (inr (ground arith), ground arith, ground arith, refl)) (inl refl);
    below = le;
    above = lt;
    order = append-nil _;
  }

  started-Kept : Kept z h started
  started-Kept = record {
    sp_p = ground arith;
    sp_l = ground arith;
    sp_r = ground arith;
    vm_prev = refl;
    vm_next = refl;
    vm_start = refl;
    vm_end = refl;
    vm_flags = refl;
    calls = refl;
  }

  -- `S_sp_tree_splay` on a tree that is not empty and stands, with fuel for each node and a key
  -- within the bounds of its keys: it stops with a new root, the same nodes in the same order, a
  -- tree that stands with all keys below the key to the left of the root and all above it to the
  -- right, and nothing else changed: neither the list links, ranges, flags and calls, nor the tree
  -- links of the node `z` outside the tree.
  pub splay-Splayed :
      (fuel : ℕ) (l : Tree) (a : ℕ) (r : Tree)
      → Stands z h lo hi (node l a r) p
      → size (node l a r) ≤ fuel
      → lo ≤ k
      → k < hi
      → (g : Heap) × (q : ℕ) × (splay fuel k p h ≡ ok (g, q))
        × Splayed z lo hi k (inorder (node l a r)) h g q
  unfolding splay assemble
  splay-Splayed fuel l a r s enough le lt =
      let (st, e, w) =
        splay_loop-Stopped z lo hi k _ ne fuel started local_n local_n p [] [] l a r
          (started-Inv l a r s le lt) enough in
      let v =
        assemble-Splayed z lo hi k _ ne st.heap st.l st.r st.t w.ls w.rs w.lower w.upper w.top w.inv
          w.final in
      (
        (assemble st).0,
        st.t,
        if-false (λ x. x ≡ ok ((assemble st).0, st.t)) (p == 0) _ _ (ne_zero p a s.0 s.1) (rw e),
        record {
          lower = v.lower;
          upper = v.upper;
          order = v.order;
          stands = v.stands;
          no_parent = v.no_parent;
          before = v.before;
          after = v.after;
          kept = Kept-trans started-Kept (Kept-trans w.kept v.kept);
        },
      )
