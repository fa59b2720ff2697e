-- ===== src/SpTree/TakeRight.antt =====
-- The end of `S_sp_tree_remove_helper`: the new root takes the right subtree.
use open_ooc.VmArea.{Heap}
use open_ooc.Base.{ℕ, suc, ◌≤◌, ◌<◌, ◌≡◌, ◌≢◌, ◌⊎◌, inl, inr, refl, arith, ◌∙◌, upd, ap, upd_self}
use open_ooc.SpTree.Shape.{
  Tree, node, Stands, Outside, Agree, Child, Child-adopt, Child-frame, Stands-root,
}
use open_ooc.SpTree.Kept.{Kept}
use open_ooc.SpTree.{make_child_r, adopt}

-- The greatest node `q` of the left subtree is its root, without a right child: it takes the
-- right subtree.
unfoldable pub take_right : (q p : ℕ) → Heap → Heap
unfolding make_child_r
take_right q p g = make_child_r q p (record g { sp_p = upd g.sp_p q 0 })

-- The pointers it changes.
module _ (q p x : ℕ) (g : Heap) where
  take_right-sp_l : (take_right q p g).sp_l x ≡ g.sp_l x
  unfolding take_right make_child_r
  take_right-sp_l = refl

  take_right-sp_r : x ≢ q → (take_right q p g).sp_r x ≡ g.sp_r x
  unfolding take_right make_child_r
  take_right-sp_r ne = ground arith

  take_right-sp_p : x ≢ q → (x ≡ p) ⊎ ((take_right q p g).sp_p x ≡ g.sp_p x)
  unfolding take_right make_child_r adopt
  take_right-sp_p ne = ground arith

module _ (q p : ℕ) (g : Heap) where
  take_right-child : (p ≡ 0) ⊎ (p ≢ q) → 1 < q → (p ≡ 0) ⊎ ((take_right q p g).sp_p p ≡ q)
  unfolding take_right make_child_r adopt
  take_right-child ne lt = ground arith

  pub take_right-no_parent : p ≢ q → 1 < q → (take_right q p g).sp_p q ≡ 0
  unfolding take_right make_child_r adopt
  take_right-no_parent ne lt = ground arith

module _ (lo hi t q p : ℕ) (h g : Heap) (lower upper : Tree) (real : 1 < q)
    (low : lo ≤ g.vm_start q) (below : g.vm_start q < h.vm_start t) (above : h.vm_start t < hi)
    (left : Child 0 g lo (g.vm_start q) lower (g.sp_l q) q)
    (right : Stands 0 h (suc (h.vm_start t)) hi upper p) (start : g.vm_start ≡ h.vm_start)
    (same : (x : ℕ) → 1 < x → Outside h lo (suc (h.vm_start t)) x → Kept x h g) where
  abbrev joined : Heap
  joined = take_right q p g

  other : (x : ℕ) → g.vm_start x ≢ g.vm_start q → x ≢ q
  other x ne e = ne (ap g.vm_start e)

  p-other : (p ≡ 0) ⊎ (p ≢ q)
  p-other =
      let r = Stands-root 0 h (suc (h.vm_start t)) hi p upper right in
      let k : g.vm_start p ≡ h.vm_start p = ap (λ f. f p) start in let o = other p in ground arith

  take_right-start : (x : ℕ) → joined.vm_start x ≡ g.vm_start x
  unfolding take_right make_child_r
  take_right-start x = refl

  at_lower :
      (x : ℕ)
      → (x ≡ p) ⊎ (joined.sp_p x ≡ g.sp_p x)
      → 1 < x
      → lo ≤ g.vm_start x
      → g.vm_start x < g.vm_start q
      → (x ≡ q) ⊎ (joined.sp_p x ≡ g.sp_p x)
  at_lower x (inr e) one k₁ k₂ = inr e
  at_lower x (inl e) one k₁ k₂ =
      let r = Stands-root 0 h (suc (h.vm_start t)) hi p upper right in
      let k : g.vm_start x ≡ h.vm_start p = ap g.vm_start e ∙ ap (λ f. f p) start in
      absurd (ground arith)

  to_old :
      (x : ℕ)
      → (x ≡ p) ⊎ (joined.sp_p x ≡ g.sp_p x)
      → g.sp_p x ≡ h.sp_p x
      → (x ≡ p) ⊎ (joined.sp_p x ≡ h.sp_p x)
  to_old x (inl e) same = inl e
  to_old x (inr e) same = inr (e ∙ same)

  lower-Agree : Agree g joined lo (g.vm_start q) q
  lower-Agree x one k₁ k₂ =
      let ne = other x (omega arith) in
      let par = take_right-sp_p q p x g ne in
      (
        at_lower x par one k₁ k₂,
        take_right-sp_l q p x g,
        take_right-sp_r q p x g ne,
        take_right-start x,
      )

  upper-Agree : Agree h joined (suc (h.vm_start t)) hi p
  upper-Agree x one k₁ k₂ =
      let k : g.vm_start x ≡ h.vm_start x = ap (λ f. f x) start in
      let ne = other x (omega arith) in
      let w = same x one (inr (omega arith)) in
      let par = take_right-sp_p q p x g ne in
      (
        to_old x par w.sp_p,
        take_right-sp_l q p x g ∙ w.sp_l,
        take_right-sp_r q p x g ne ∙ w.sp_r,
        take_right-start x ∙ k,
      )

  pub take_right-Stands : Stands 0 joined lo hi (node lower q upper) q
  unfolding take_right make_child_r
  take_right-Stands =
      let l =
        Child-frame 0 g joined lo (g.vm_start q) lo (g.vm_start q) (g.sp_l q) (joined.sp_l q) q q
          lower left refl (omega arith) (omega arith) lower-Agree (inr (omega arith)) in
      let r =
        Child-adopt 0 h joined (suc (h.vm_start t)) hi (suc (g.vm_start q)) hi p (joined.sp_r q) q
          upper right (upd_self g.sp_r q p) (omega arith) (omega arith) upper-Agree
          (take_right-child q p g p-other real) in
      (refl, real, omega arith, low, omega arith, l.0, l.1, r.0, r.1)
