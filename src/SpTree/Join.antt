-- ===== src/SpTree/Join.antt =====
-- `S_sp_tree_remove_helper` where the root has a left child: what stood beside the root is one
-- tree.
use open_ooc.SpTree.Promote.{Joined}
use open_ooc.SpTree.TakeRight.{take_right, take_right-Stands, take_right-no_parent}
use open_ooc.VmArea.{Heap}
use open_ooc.Base.{
  ℕ, suc, ◌≤◌, ◌<◌, ◌≡◌, ◌≢◌, ◌⊎◌, inl, inr, refl, List, [], ◌∷◌, ◌++◌, arith, ◌∙◌, ok, Run, subst,
  ap, sym, append_assoc,
}
use open_ooc.SpTree.Shape.{Tree, leaf, node, inorder, size, Stands, Outside, Stands-root}
use open_ooc.SpTree.Linked.{Linked, IsSorted, Stands-IsSorted}
use open_ooc.SpTree.Ops.{SpTree, with_root, join}
use open_ooc.SpTree.Valid.{Stands-real, Stands-far}
use open_ooc.SpTree.Kept.{Kept}
use open_ooc.SpTree.Splay.{Splayed, splay-Splayed, Stands-widen}
use open_ooc.SpTree.InsertTree.{Linked-eq}
use open_ooc.SpTree.{splay, make_child_r}

heap_of : Heap → Run (Heap × ℕ) → Heap
heap_of d (ok (g, q)) = g
heap_of d r = d

-- A splay changes no node with a key out of the range of its tree.
pub splay-Kept :
    (fuel k lo hi p x : ℕ) (h g : Heap) (q : ℕ) (l : Tree) (a : ℕ) (r : Tree)
    → Stands 0 h lo hi (node l a r) p
    → size (node l a r) ≤ fuel
    → lo ≤ k
    → k < hi
    → splay fuel k p h ≡ ok (g, q)
    → 1 < x
    → Outside h lo hi x
    → Kept x h g
unfolding heap_of
splay-Kept fuel k lo hi p x h g q l a r s enough le lt e one out =
    let (g', q', e', w) =
      splay-Splayed x lo hi k (omega arith) h p fuel l a r
        (Stands-far x lo hi p h (node l a r) s out) enough le lt in
    subst (Kept x h) (ap (heap_of h) (sym e' ∙ e)) w.kept

Stands-nothing : (z m p : ℕ) (h : Heap) (u : Tree) → Stands z h m m u p → u ≡ leaf
Stands-nothing z m p h leaf s = refl
Stands-nothing z m p h (node l a r) s = absurd (ground (arith, s.3, s.4))

IsSorted-at :
    (key : ℕ → ℕ) (lo hi q : ℕ) (xs ys : List ℕ) → IsSorted key lo hi (xs ++ (q ∷ ys)) → key q < hi
IsSorted-at key lo hi q [] ys s = s.2
IsSorted-at key lo hi q (a ∷ xs) ys s = IsSorted-at key (suc (key a)) hi q xs ys s.3

join-order :
    (q : ℕ) (lower last upper : Tree) (xs : List ℕ)
    → last ≡ leaf
    → inorder lower ++ (q ∷ inorder last) ≡ xs
    → inorder lower ++ (q ∷ inorder upper) ≡ xs ++ inorder upper
join-order q lower leaf upper xs e order =
    rw (← order) (sym (append_assoc (inorder lower) (q ∷ []) (inorder upper)))
join-order q lower (node l a r) upper xs e order = cc

module _ (lo hi t : ℕ) (h : Heap) (upper : Tree) (above : h.vm_start t < hi)
    (right : Stands 0 h (suc (h.vm_start t)) hi upper (h.sp_r t)) (real : 1 < t)
    (low : lo ≤ h.vm_start t) where
  -- The result of the helper, from what the splay of the left subtree gives.
  take_right-Joined :
      (g : Heap) (q : ℕ) (xs : List ℕ)
      (w : Splayed t lo (suc (h.vm_start t)) (h.vm_start t) xs h g q)
      → ((x : ℕ) → 1 < x → Outside h lo (suc (h.vm_start t)) x → Kept x h g)
      → IsSorted h.vm_start lo (h.vm_start t) xs
      → Linked h 0 (xs ++ inorder upper) 0
      → Joined lo hi h (xs ++ inorder upper) (with_root (take_right q (g.sp_r t) g) q)
  unfolding take_right make_child_r
  take_right-Joined g q xs w same sorted linked =
      let s = w.stands in
      let key : g.vm_start q ≡ h.vm_start q = ap (λ f. f q) w.kept.vm_start in
      let lt =
        IsSorted-at h.vm_start lo (h.vm_start t) q (inorder w.lower) (inorder w.upper)
          (subst (IsSorted h.vm_start lo (h.vm_start t)) (sym w.order) sorted) in
      let order =
        join-order q w.lower w.upper upper xs
          (Stands-nothing t (suc (h.vm_start t)) _ g w.upper w.after) w.order in
      let right' : Stands 0 h (suc (h.vm_start t)) hi upper (g.sp_r t) =
        subst (Stands 0 h (suc (h.vm_start t)) hi upper) (sym w.kept.sp_r) right in
      let p_root = Stands-root 0 h (suc (h.vm_start t)) hi (g.sp_r t) upper right' in
      let p_ne : g.sp_r t ≢ q = λ e. q-ne-p q (g.sp_r t) p_root s.1 lt e in
      record {
        tree = node w.lower q upper;
        valid = record {
          stands =
              take_right-Stands lo hi t q (g.sp_r t) h g w.lower upper s.1 s.3 (rw key lt) above
                (Stands-real t lo (g.vm_start q) (g.sp_l q) g w.lower s.5, s.6) right'
                w.kept.vm_start same;
          no_parent = take_right-no_parent q (g.sp_r t) g p_ne s.1;
          linked =
              Linked-eq h (take_right q (g.sp_r t) g) 0 0 (inorder w.lower ++ (q ∷ inorder upper))
                w.kept.vm_prev w.kept.vm_next (subst (λ ys. Linked h 0 ys 0) (sym order) linked);
        };
        nodes = order;
        vm_start = w.kept.vm_start;
        vm_end = w.kept.vm_end;
        vm_flags = w.kept.vm_flags;
      }
    where
      q-ne-p :
          (q p : ℕ)
          → ((p ≡ 0) × (upper ≡ leaf))
            ⊎ ((1 < p) × (p ≢ 0) × (suc (h.vm_start t) ≤ h.vm_start p) × (h.vm_start p < hi))
          → 1 < q
          → h.vm_start q < h.vm_start t
          → p ≢ q
      q-ne-p q p (inl z) one lt e = ground (arith, z.0)
      q-ne-p q p (inr b) one lt e = ground (arith, b.2, ap h.vm_start e)

  -- Where there is a left subtree.
  pub join-Joined :
      (fuel : ℕ) (l : Tree) (a : ℕ) (r : Tree)
      → Stands 0 h lo (h.vm_start t) (node l a r) (h.sp_l t)
      → size (node l a r) ≤ fuel
      → Linked h 0 (inorder (node l a r) ++ inorder upper) 0
      → (sp : SpTree) × (join fuel t h ≡ ok sp)
        × Joined lo hi h (inorder (node l a r) ++ inorder upper) sp
  unfolding join take_right
  join-Joined fuel l a r s enough linked =
      let k = h.vm_start t in
      let u = node l a r in
      let far = Stands-far t lo k (h.sp_l t) h u s (inr (omega arith)) in
      let (g, q, e, w) =
        splay-Splayed t lo (suc k) k (omega arith) h (h.sp_l t) fuel l a r
          (Stands-widen t h lo k lo (suc k) (h.sp_l t) u far (omega arith) (omega arith)) enough low
          (omega arith) in
      let wide = Stands-widen 0 h lo k lo (suc k) (h.sp_l t) u s (omega arith) (omega arith) in
      let same : (x : ℕ) → 1 < x → Outside h lo (suc k) x → Kept x h g = λ x one out.
        splay-Kept fuel k lo (suc k) (h.sp_l t) x h g q l a r wide enough low (omega arith) e one
          out in
      (
        with_root (take_right q (g.sp_r t) g) q,
        rw e,
        take_right-Joined g q (inorder u) w same (Stands-IsSorted 0 lo k (h.sp_l t) h u s) linked,
      )
