-- ===== src/SpTree/Keys.antt =====
-- The keys beside the root of a splayed tree.
use open_ooc.SpTree.Splay.{Splayed}
use open_ooc.Base.{
  ℕ, suc, ◌≤◌, ◌<◌, ◌≡◌, ◌≢◌, ◌⊎◌, inl, inr, List, [], ◌∷◌, ◌++◌, arith, ◌∙◌, sym, ap, subst,
  eq-cases,
}
use open_ooc.VmArea.{Heap}
use open_ooc.SpTree.Shape.{inorder}
use open_ooc.SpTree.Linked.{IsSorted, Stands-IsSorted}
use open_ooc.SpTree.Valid.{NoKey, NoKey-right}

pub IsSorted-NoKey :
    (key : ℕ → ℕ) (lo hi k : ℕ) (xs : List ℕ)
    → IsSorted key lo hi xs
    → (k < lo) ⊎ (hi ≤ k)
    → NoKey key k xs
IsSorted-NoKey key lo hi k [] s out = tt
IsSorted-NoKey key lo hi k (a ∷ xs) s out =
    let rest = IsSorted-NoKey key (suc (key a)) hi k xs s.3 (ground arith) in
    (λ e. ground (arith, s.1, s.2), rest)

pub NoKey-append :
    (key : ℕ → ℕ) (k : ℕ) (xs ys : List ℕ)
    → NoKey key k xs
    → NoKey key k ys
    → NoKey key k (xs ++ ys)
NoKey-append key k [] ys s t = t
NoKey-append key k (a ∷ xs) ys s t = (s.0, NoKey-append key k xs ys s.1 t)

module _ (z lo hi addr : ℕ) (h g : Heap) (q : ℕ) (xs : List ℕ)
    (w : Splayed z lo hi addr xs h g q) where
  -- Where the nodes beside the root of the splayed tree have other keys.
  pub splayed_NoKey : g.vm_start q ≢ addr → NoKey h.vm_start addr xs
  splayed_NoKey ne =
      let below =
        IsSorted-NoKey g.vm_start lo addr addr (inorder w.lower)
          (Stands-IsSorted z lo addr (g.sp_l q) g w.lower w.before) (inr (omega arith)) in
      let above =
        IsSorted-NoKey g.vm_start (suc addr) hi addr (inorder w.upper)
          (Stands-IsSorted z (suc addr) hi (g.sp_r q) g w.upper w.after) (inl (omega arith)) in
      subst (NoKey h.vm_start addr) w.order (
        subst (λ f. NoKey f addr (inorder w.lower ++ (q ∷ inorder w.upper))) w.kept.vm_start
          (NoKey-append g.vm_start addr (inorder w.lower) (q ∷ inorder w.upper) below (ne, above)))

  -- Where the address is that of a node, the splay brings this node to the root.
  pub splayed-at_addr : ¬ NoKey h.vm_start addr xs → g.vm_start q ≡ addr
  splayed-at_addr has = elim (eq-cases (g.vm_start q) addr) [
    | inl e ↦ e
    | inr ne ↦ absurd (has (splayed_NoKey ne))
  ]

  -- Where it is that of no node, the root has another key.
  pub splayed-other : NoKey h.vm_start addr xs → g.vm_start q ≢ addr
  splayed-other absent =
      let n = subst (NoKey h.vm_start addr) (sym w.order) absent in
      let m = NoKey-right h.vm_start addr (inorder w.lower) (q ∷ inorder w.upper) n in
      λ e. m.0 (ap (λ f. f q) (sym w.kept.vm_start) ∙ e)

  -- No node beside the root has its key.
  pub root_only : NoKey g.vm_start (g.vm_start q) (inorder w.lower ++ inorder w.upper)
  root_only =
      let k = g.vm_start q in
      let s = w.stands in
      NoKey-append g.vm_start k (inorder w.lower) (inorder w.upper)
        (IsSorted-NoKey g.vm_start lo k k (inorder w.lower)
          (Stands-IsSorted z lo k (g.sp_l q) g w.lower s.5) (inr (omega arith)))
        (IsSorted-NoKey g.vm_start (suc k) hi k (inorder w.upper)
          (Stands-IsSorted z (suc k) hi (g.sp_r q) g w.upper s.7) (inl (omega arith)))
