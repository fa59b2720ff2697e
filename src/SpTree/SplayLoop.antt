-- ===== src/SpTree/SplayLoop.antt =====
-- The loop of `S_sp_tree_splay` stops, and where it stops the key is at `t`, or would be below it
-- on the side where `t` has no child.
use open_ooc.Base.{
  ℕ, zero, suc, ◌≤◌, ◌<◌, ◌≡◌, ◌≢◌, ◌⊎◌, inl, inr, refl, List, ◌∷◌, ◌+◌, arith, ◌==◌, ltb,
  Bool-cases, ok, if-true, if-false, eq_zero, ne_zero, ap, ◌∙◌,
}
use open_ooc.VmArea.{Heap, local_n}
use open_ooc.SpTree.{
  Loop, Pass, break, next, zig_right, zig_left, pass_right, pass_left, splay_pass, splay_loop,
  rotate_right, rotate_left, link_right, link_left,
}
use open_ooc.SpTree.Shape.{Tree, leaf, node, size}
use open_ooc.SpTree.LeftSpine.{Spine}
use open_ooc.SpTree.SplayStep.{Inv, link_right-Inv, link_left-Inv}
use open_ooc.SpTree.Rotate.{rotate_right-Inv, rotate_left-Inv}
use open_ooc.SpTree.Kept.{
  Kept, Kept-refl, Kept-trans, link_right-Kept, link_left-Kept, rotate_right-Kept, rotate_left-Kept,
}

module _ (z lo hi k : ℕ) (xs : List ℕ) (ne : z ≢ local_n) where
  -- The state at a `break`.
  pub record Stopped (h : Heap) (s : Loop) : Type 0 where
    pub ls : Spine
    pub rs : Spine
    pub lower : Tree
    pub top : ℕ
    pub upper : Tree
    pub inv : Inv z lo hi k xs s.heap s.l s.r s.t ls rs (node lower top upper)
    pub final :
        (s.heap.vm_start top ≡ k)
        ⊎ (((k < s.heap.vm_start top) × (lower ≡ leaf))
            ⊎ ((s.heap.vm_start top < k) × (upper ≡ leaf)))
    pub kept : Kept z h s.heap

  -- A pass stops, or goes on with a smaller tree.
  data After (h : Heap) (n : ℕ) : Pass → Type 0 where
    stops : {s : Loop} → Stopped h s → After h n (break s)
    goes_on :
        {s : Loop} (ls rs : Spine) (tl : Tree) (a : ℕ) (tr : Tree)
        → Inv z lo hi k xs s.heap s.l s.r s.t ls rs (node tl a tr)
        → size (node tl a tr) < n
        → Kept z h s.heap
        → After h n (next s)

  After-mono : {h : Heap} {n m : ℕ} {p : Pass} → After h n p → n ≤ m → After h m p
  After-mono (stops s) le = stops s
  After-mono (goes_on ls rs tl a tr v small kept) le = goes_on ls rs tl a tr v (omega arith) kept

  module _ (h : Heap) (l r t : ℕ) (ls rs : Spine) where
    zig_right-After :
        (ll lr tr : Tree) (a b : ℕ)
        → Inv z lo hi k xs h l r t ls rs (node (node ll b lr) a tr)
        → k < h.vm_start b
        → After h (size (node ll b lr) + size tr) (zig_right h l r t)
    unfolding zig_right link_right
    zig_right-After leaf lr tr a b v lt =
        let w = rotate_right-Inv z lo hi k xs h l r t ls rs leaf lr tr a b v in
        if-true (After h _) ((rotate_right t h).sp_l (h.sp_l t) == 0) _ _
          (eq_zero _ (ap (rotate_right t h).sp_l w.stands.0 ∙ w.stands.5))
          (stops (record {
            ls = ls;
            rs = rs;
            lower = leaf;
            top = b;
            upper = node lr a tr;
            inv = w;
            final = inr (inl (lt, refl));
            kept = rotate_right-Kept z _ _ h t leaf tr lr a b v.stands;
          }))
    zig_right-After (node ll c lc) lr tr a b v lt =
        let w = rotate_right-Inv z lo hi k xs h l r t ls rs (node ll c lc) lr tr a b v in
        let u = w.stands.5 in
        let e : h.sp_l t ≡ b = w.stands.0 in
        if-false (After h _) ((rotate_right t h).sp_l (h.sp_l t) == 0) _ _
          (ne_zero _ c (ap (rotate_right t h).sp_l e ∙ u.0) u.1)
          (goes_on ls ((b, node lr a tr) ∷ rs) ll c lc
            (link_right-Inv z lo hi k xs _ l r (h.sp_l t) ls rs _ _ b w (rw e lt)) (omega arith)
            (Kept-trans (rotate_right-Kept z _ _ h t (node ll c lc) tr lr a b v.stands)
              (link_right-Kept z lo hi k xs ne _ l r (h.sp_l t) ls rs _ _ b w)))

    zig_left-After :
        (tl rl rr : Tree) (a b : ℕ)
        → Inv z lo hi k xs h l r t ls rs (node tl a (node rl b rr))
        → h.vm_start b < k
        → After h (size tl + size (node rl b rr)) (zig_left h l r t)
    unfolding zig_left link_left
    zig_left-After tl rl leaf a b v lt =
        let w = rotate_left-Inv z lo hi k xs h l r t ls rs tl rl leaf a b v in
        if-true (After h _) ((rotate_left t h).sp_r (h.sp_r t) == 0) _ _
          (eq_zero _ (ap (rotate_left t h).sp_r w.stands.0 ∙ w.stands.7))
          (stops (record {
            ls = ls;
            rs = rs;
            lower = node tl a rl;
            top = b;
            upper = leaf;
            inv = w;
            final = inr (inr (lt, refl));
            kept = rotate_left-Kept z _ _ h t tl leaf rl a b v.stands;
          }))
    zig_left-After tl rl (node rc c rr) a b v lt =
        let w = rotate_left-Inv z lo hi k xs h l r t ls rs tl rl (node rc c rr) a b v in
        let u = w.stands.7 in
        let e : h.sp_r t ≡ b = w.stands.0 in
        if-false (After h _) ((rotate_left t h).sp_r (h.sp_r t) == 0) _ _
          (ne_zero _ c (ap (rotate_left t h).sp_r e ∙ u.0) u.1)
          (goes_on ((b, node tl a rl) ∷ ls) rs rc c rr
            (link_left-Inv z lo hi k xs _ l r (h.sp_r t) ls rs _ _ b w (rw e lt)) (omega arith)
            (Kept-trans (rotate_left-Kept z _ _ h t tl (node rc c rr) rl a b v.stands)
              (link_left-Kept z lo hi k xs ne _ l r (h.sp_r t) ls rs _ _ b w)))

    pass_right-After :
        (tl tr : Tree) (a : ℕ)
        → Inv z lo hi k xs h l r t ls rs (node tl a tr)
        → k < h.vm_start a
        → After h (size (node tl a tr)) (pass_right k h l r t)
    unfolding pass_right link_right
    pass_right-After leaf tr a v lt =
        if-true (After h _) (h.sp_l t == 0) _ _ (eq_zero _ (ground (arith, v.stands.5))) (
          stops (record {
            ls = ls;
            rs = rs;
            lower = leaf;
            top = a;
            upper = tr;
            inv = v;
            final = inr (inl (lt, refl));
            kept = Kept-refl z h;
          }))
    pass_right-After (node ll b lr) tr a v lt =
        let s = v.stands in
        let u = s.5 in
        if-false (After h _) (h.sp_l t == 0) _ _ (ground arith)
          (elim (Bool-cases (ltb k (h.vm_start (h.sp_l t)))) [
            | inl less ↦
                if-true (After h _) (ltb k (h.vm_start (h.sp_l t))) _ _ less
                  (After-mono (zig_right-After ll lr tr a b v (ground arith)) (omega arith))
            | inr more ↦ if-false (After h _) (ltb k (h.vm_start (h.sp_l t))) _ _ more (
                goes_on ls ((a, tr) ∷ rs) ll b lr
                  (link_right-Inv z lo hi k xs h l r t ls rs _ tr a v (ground arith)) (omega arith)
                  (link_right-Kept z lo hi k xs ne h l r t ls rs _ tr a v))
          ])

    pass_left-After :
        (tl tr : Tree) (a : ℕ)
        → Inv z lo hi k xs h l r t ls rs (node tl a tr)
        → h.vm_start a < k
        → After h (size (node tl a tr)) (pass_left k h l r t)
    unfolding pass_left link_left
    pass_left-After tl leaf a v lt =
        if-true (After h _) (h.sp_r t == 0) _ _ (ground (arith, v.stands.7)) (
          stops (record {
            ls = ls;
            rs = rs;
            lower = tl;
            top = a;
            upper = leaf;
            inv = v;
            final = inr (inr (lt, refl));
            kept = Kept-refl z h;
          }))
    pass_left-After tl (node rl b rr) a v lt =
        let s = v.stands in
        let u = s.7 in
        if-false (After h _) (h.sp_r t == 0) _ _ (ground arith)
          (elim (Bool-cases (ltb (h.vm_start (h.sp_r t)) k)) [
            | inl less ↦
                if-true (After h _) (ltb (h.vm_start (h.sp_r t)) k) _ _ less
                  (After-mono (zig_left-After tl rl rr a b v (ground arith)) (omega arith))
            | inr more ↦ if-false (After h _) (ltb (h.vm_start (h.sp_r t)) k) _ _ more (
                goes_on ((a, tl) ∷ ls) rs rl b rr
                  (link_left-Inv z lo hi k xs h l r t ls rs tl _ a v (ground arith)) (omega arith)
                  (link_left-Kept z lo hi k xs ne h l r t ls rs tl _ a v))
          ])

    splay_pass-After :
        (tl tr : Tree) (a : ℕ)
        → Inv z lo hi k xs h l r t ls rs (node tl a tr)
        → After h (size (node tl a tr)) (splay_pass k h l r t)
    unfolding splay_pass
    splay_pass-After tl tr a v =
        let e : t ≡ a = v.stands.0 in
        elim (Bool-cases (ltb k (h.vm_start t))) [
          | inl less ↦
              if-true (After h _) (ltb k (h.vm_start t)) _ _ less
                (pass_right-After tl tr a v (ground arith))
          | inr more ↦
              if-false (After h _) (ltb k (h.vm_start t)) _ _ more
                (elim (Bool-cases (ltb (h.vm_start t) k)) [
                  | inl less ↦
                      if-true (After h _) (ltb (h.vm_start t) k) _ _ less
                        (pass_left-After tl tr a v (ground arith))
                  | inr same ↦ if-false (After h _) (ltb (h.vm_start t) k) _ _ same (
                      stops (record {
                        ls = ls;
                        rs = rs;
                        lower = tl;
                        top = a;
                        upper = tr;
                        inv = v;
                        final = inl (ground arith);
                        kept = Kept-refl z h;
                      }))
                ])
        ]

  -- What is left after a pass, from what the loop does with less fuel.
  run :
      (f : ℕ) (h : Heap) (n : ℕ) (p : Pass)
      → After h n p
      → n ≤ suc f
      → ((g : Heap) (l r t : ℕ) (ls rs : Spine) (tl : Tree) (a : ℕ) (tr : Tree)
          → Inv z lo hi k xs g l r t ls rs (node tl a tr)
          → size (node tl a tr) ≤ f
          → (s : Loop) × (splay_loop f k g l r t ≡ ok s) × Stopped g s)
      → (s : Loop) × ((elim p [ break s ↦ ok s | next s ↦ splay_loop f k s.heap s.l s.r s.t ])
          ≡ ok s)
        × Stopped h s
  run f h n _ (stops {s} st) le rest = (s, refl, st)
  run f h n _ (goes_on {s} ls rs tl a tr v small kept) le rest =
      let (s', e, st) = rest s.heap s.l s.r s.t ls rs tl a tr v (omega arith) in
      (
        s',
        e,
        record {
          ls = st.ls;
          rs = st.rs;
          lower = st.lower;
          top = st.top;
          upper = st.upper;
          inv = st.inv;
          final = st.final;
          kept = Kept-trans kept st.kept;
        },
      )

  -- With as much fuel as there are nodes the loop stops.
  pub splay_loop-Stopped :
      (f : ℕ) (h : Heap) (l r t : ℕ) (ls rs : Spine) (tl : Tree) (a : ℕ) (tr : Tree)
      → Inv z lo hi k xs h l r t ls rs (node tl a tr)
      → size (node tl a tr) ≤ f
      → (s : Loop) × (splay_loop f k h l r t ≡ ok s) × Stopped h s
  unfolding splay_loop
  splay_loop-Stopped zero h l r t ls rs tl a tr v fuel = absurd (omega arith)
  splay_loop-Stopped (suc f) h l r t ls rs tl a tr v fuel =
      run f h _ (splay_pass k h l r t) (splay_pass-After h l r t ls rs tl tr a v) (omega arith)
        λ g l' r' t' ls' rs' tl' a' tr' w small.
          splay_loop-Stopped f g l' r' t' ls' rs' tl' a' tr' w small
