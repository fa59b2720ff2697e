-- ===== src/SpTree/Shape.antt =====
-- Trees of nodes in the store: what the pointers `sp_p`, `sp_l` and `sp_r` hold where a search tree
-- stands, and that a change of the store elsewhere leaves it standing.
use open_ooc.Base.{
  ℕ, suc, ◌≤◌, ◌<◌, ◌≡◌, ◌≢◌, ◌⊎◌, refl, List, [], ◌∷◌, ◌++◌, ◌+◌, arith, ◌∙◌, inr, inl,
}
use open_ooc.VmArea.{Heap}

pub data Tree : Type 0 where
  leaf : Tree
  node : Tree → ℕ → Tree → Tree

abbrev pub inorder : Tree → List ℕ
inorder leaf = []
inorder (node l a r) = inorder l ++ (a ∷ inorder r)

abbrev pub size : Tree → ℕ
size leaf = 0
size (node l a r) = suc (size l + size r)

abbrev pub root : Tree → ℕ
root leaf = 0
root (node _ a _) = a

-- The parent pointer of the root, if there is a root.
abbrev pub HasParent : Heap → Tree → ℕ → Type 0
HasParent h leaf a = Unit
HasParent h (node _ b _) a = h.sp_p b ≡ a

module _ (z : ℕ) where
  -- From `p` the child pointers of `h` lead through the nodes of the tree, its keys `vm_start` are
  -- in strict order from `lo` up to below `hi`, no node is `z`, and below the root each parent
  -- pointer is right.
  abbrev pub Stands : Heap → ℕ → ℕ → Tree → ℕ → Type 0
  Stands h lo hi leaf p = p ≡ 0
  Stands h lo hi (node l a r) p =
      (p ≡ a)
      × (1 < a)
      × (a ≢ z)
      × (lo ≤ h.vm_start a)
      × (h.vm_start a < hi)
      × (Stands h lo (h.vm_start a) l (h.sp_l a))
      × (HasParent h l a)
      × (Stands h (suc (h.vm_start a)) hi r (h.sp_r a))
      × (HasParent h r a)

  -- The same, with the parent pointer of the root.
  abbrev pub Child : Heap → ℕ → ℕ → Tree → ℕ → ℕ → Type 0
  Child h lo hi t p a = Stands h lo hi t p × HasParent h t a

-- `g` and `h` agree at the nodes with keys in range, but for the parent of `q`.
abbrev pub Agree : Heap → Heap → ℕ → ℕ → ℕ → Type 0
Agree h g lo hi q =
    (x : ℕ)
    → 1 < x
    → lo ≤ h.vm_start x
    → h.vm_start x < hi
    → ((x ≡ q) ⊎ (g.sp_p x ≡ h.sp_p x))
      × (g.sp_l x ≡ h.sp_l x)
      × (g.sp_r x ≡ h.sp_r x)
      × (g.vm_start x ≡ h.vm_start x)

Agree-narrow :
    (h g : Heap) (lo hi q lo' hi' : ℕ)
    → Agree h g lo hi q
    → lo ≤ lo'
    → hi' ≤ hi
    → Agree h g lo' hi' q
Agree-narrow h g lo hi q lo' hi' same below above x one low high =
    same x one (omega arith) (omega arith)

-- `q` is no node of the range.
abbrev pub Outside : Heap → ℕ → ℕ → ℕ → Type 0
Outside h lo hi q = (h.vm_start q < lo) ⊎ (hi ≤ h.vm_start q)

module _ (z : ℕ) (h g : Heap) where
  HasParent-frame :
      (lo hi p a q : ℕ) (t : Tree)
      → Stands z h lo hi t p
      → HasParent h t a
      → Agree h g lo hi q
      → Outside h lo hi q
      → HasParent g t a
  HasParent-frame lo hi p a q leaf s par same out = tt
  HasParent-frame lo hi p a q (node l b r) s par same out = ground (arith, same b s.1 s.3 s.4)

  -- A tree that stands in `h` stands in `g`, if they agree in its range.
  pub Stands-frame :
      (lo hi lo' hi' p p' q : ℕ) (t : Tree)
      → Stands z h lo hi t p
      → p' ≡ p
      → lo' ≤ lo
      → hi ≤ hi'
      → Agree h g lo hi q
      → (q ≡ p) ⊎ Outside h lo hi q
      → Stands z g lo' hi' t p'
  Stands-frame lo hi lo' hi' p p' q leaf s e below above same far = e ∙ s
  Stands-frame lo hi lo' hi' p p' q (node l a r) s e below above same far =
      let f = same a s.1 s.3 s.4 in
      let out_l : Outside h lo (h.vm_start a) q = ground arith in
      let out_r : Outside h (suc (h.vm_start a)) hi q = ground arith in
      let same_l : Agree h g lo (h.vm_start a) q =
        Agree-narrow h g lo hi q _ _ same (omega arith) (omega arith) in
      let same_r : Agree h g (suc (h.vm_start a)) hi q =
        Agree-narrow h g lo hi q _ _ same (omega arith) (omega arith) in
      (
        e ∙ s.0,
        s.1,
        s.2,
        omega arith,
        omega arith,
        Stands-frame lo (h.vm_start a) lo' (g.vm_start a) (h.sp_l a) (g.sp_l a) q l s.5 f.1 below
            (omega arith) same_l (inr out_l),
        HasParent-frame lo (h.vm_start a) (h.sp_l a) a q l s.5 s.6 same_l out_l,
        Stands-frame (suc (h.vm_start a)) hi (suc (g.vm_start a)) hi' (h.sp_r a) (g.sp_r a) q r s.7
            f.2 (omega arith) above same_r (inr out_r),
        HasParent-frame (suc (h.vm_start a)) hi (h.sp_r a) a q r s.7 s.8 same_r out_r,
      )

  -- So does a subtree, with the parent of its root.
  pub Child-frame :
      (lo hi lo' hi' p p' a q : ℕ) (t : Tree)
      → Child z h lo hi t p a
      → p' ≡ p
      → lo' ≤ lo
      → hi ≤ hi'
      → Agree h g lo hi q
      → Outside h lo hi q
      → Child z g lo' hi' t p' a
  Child-frame lo hi lo' hi' p p' a q t c e below above same out = (
    Stands-frame lo hi lo' hi' p p' q t c.0 e below above same (inr out),
    HasParent-frame lo hi p a q t c.0 c.1 same out,
  )

  -- A subtree whose root gets the parent `a`.
  pub Child-adopt :
      (lo hi lo' hi' p p' a : ℕ) (t : Tree)
      → Stands z h lo hi t p
      → p' ≡ p
      → lo' ≤ lo
      → hi ≤ hi'
      → Agree h g lo hi p
      → ((p ≡ 0) ⊎ (g.sp_p p ≡ a))
      → Child z g lo' hi' t p' a
  Child-adopt lo hi lo' hi' p p' a leaf s e below above same par = (e ∙ s, tt)
  Child-adopt lo hi lo' hi' p p' a (node l b r) s e below above same par =
      (Stands-frame lo hi lo' hi' p p' p (node l b r) s e below above same (inl refl), ground arith)

-- Where a tree stands, its pointer is null or a node of the range.
pub Stands-root :
    (z : ℕ) (h : Heap) (lo hi p : ℕ) (t : Tree)
    → Stands z h lo hi t p
    → ((p ≡ 0) × (t ≡ leaf)) ⊎ ((1 < p) × (p ≢ z) × (lo ≤ h.vm_start p) × (h.vm_start p < hi))
Stands-root z h lo hi p leaf s = inl (s, refl)
Stands-root z h lo hi p (node l a r) s = inr (ground arith)
