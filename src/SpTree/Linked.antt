-- ===== src/SpTree/Linked.antt =====
-- The list of all nodes of a tree, by `vm_prev` and `vm_next`, in the order of their addresses.
use open_ooc.Base.{ℕ, suc, ◌≤◌, ◌<◌, ◌≡◌, ◌⊎◌, inl, inr, refl, List, [], ◌∷◌, ◌++◌, arith, ◌∙◌}
use open_ooc.VmArea.{Heap}
use open_ooc.SpTree.Shape.{Tree, leaf, node, inorder, Stands}

-- The first node of a list that goes on at `e`, and the last of one that began behind `p`.
abbrev pub first : List ℕ → ℕ → ℕ
first [] e = e
first (a ∷ xs) e = a

abbrev pub last : ℕ → List ℕ → ℕ
last p [] = p
last p (a ∷ xs) = last a xs

-- Behind `p` and before `e` stand the nodes of the list, each linked with the next.
abbrev pub Linked : Heap → ℕ → List ℕ → ℕ → Type 0
Linked h p [] e = Unit
Linked h p (a ∷ xs) e = (h.vm_prev a ≡ p) × (h.vm_next a ≡ first xs e) × Linked h a xs e

-- Real nodes, with keys in strict order from `lo` to below `hi`.
abbrev pub IsSorted : (ℕ → ℕ) → ℕ → ℕ → List ℕ → Type 0
IsSorted key lo hi [] = Unit
IsSorted key lo hi (a ∷ xs) =
    (1 < a) × (lo ≤ key a) × (key a < hi) × IsSorted key (suc (key a)) hi xs

pub IsSorted-widen :
    (key : ℕ → ℕ) (lo lo' hi hi' : ℕ) (xs : List ℕ)
    → IsSorted key lo hi xs
    → lo' ≤ lo
    → hi ≤ hi'
    → IsSorted key lo' hi' xs
IsSorted-widen key lo lo' hi hi' [] s le ge = tt
IsSorted-widen key lo lo' hi hi' (a ∷ xs) s le ge =
    (s.0, omega arith, omega arith, IsSorted-widen key _ _ hi hi' xs s.3 (omega arith) ge)

pub IsSorted-append :
    (key : ℕ → ℕ) (lo m hi : ℕ) (xs ys : List ℕ)
    → IsSorted key lo m xs
    → IsSorted key m hi ys
    → m ≤ hi
    → lo ≤ m
    → IsSorted key lo hi (xs ++ ys)
IsSorted-append key lo m hi [] ys s t le ge = IsSorted-widen key m lo hi hi ys t ge (omega arith)
IsSorted-append key lo m hi (a ∷ xs) ys s t le ge =
    (s.0, s.1, omega arith, IsSorted-append key (suc (key a)) m hi xs ys s.3 t le (omega arith))

-- A tree that stands has its nodes in order.
pub Stands-IsSorted :
    (z lo hi p : ℕ) (h : Heap) (u : Tree)
    → Stands z h lo hi u p
    → IsSorted h.vm_start lo hi (inorder u)
Stands-IsSorted z lo hi p h leaf s = tt
Stands-IsSorted z lo hi p h (node l a r) s =
    IsSorted-append h.vm_start lo (h.vm_start a) hi (inorder l) (a ∷ inorder r)
      (Stands-IsSorted z lo (h.vm_start a) _ h l s.5)
      (s.1, omega arith, s.4, Stands-IsSorted z (suc (h.vm_start a)) hi _ h r s.7) (omega arith) s.3

pub Linked-append :
    (h : Heap) (p e : ℕ) (xs ys : List ℕ)
    → Linked h p xs (first ys e)
    → Linked h (last p xs) ys e
    → Linked h p (xs ++ ys) e
Linked-append h p e [] ys s t = t
Linked-append h p e (a ∷ []) ys s t = (s.0, s.1, t)
Linked-append h p e (a ∷ b ∷ xs) ys s t = (s.0, s.1, Linked-append h a e (b ∷ xs) ys s.2 t)

pub Linked-left :
    (h : Heap) (p e : ℕ) (xs ys : List ℕ) → Linked h p (xs ++ ys) e → Linked h p xs (first ys e)
Linked-left h p e [] ys s = tt
Linked-left h p e (a ∷ []) ys s = (s.0, s.1, tt)
Linked-left h p e (a ∷ b ∷ xs) ys s = (s.0, s.1, Linked-left h a e (b ∷ xs) ys s.2)

pub Linked-right :
    (h : Heap) (p e : ℕ) (xs ys : List ℕ) → Linked h p (xs ++ ys) e → Linked h (last p xs) ys e
Linked-right h p e [] ys s = s
Linked-right h p e (a ∷ xs) ys s = Linked-right h a e xs ys s.2

-- The last node is the greatest.
pub last-ge :
    (key : ℕ → ℕ) (lo hi p : ℕ) (xs : List ℕ)
    → IsSorted key lo hi xs
    → ((xs ≡ []) × (last p xs ≡ p))
      ⊎ ((1 < last p xs) × (lo ≤ key (last p xs)) × (key (last p xs) < hi))
last-ge key lo hi p [] s = inl (refl, refl)
last-ge key lo hi p (a ∷ xs) s = let r = last-ge key (suc (key a)) hi a xs s.3 in ground arith

pub first-le :
    (key : ℕ → ℕ) (lo hi e : ℕ) (xs : List ℕ)
    → IsSorted key lo hi xs
    → ((xs ≡ []) × (first xs e ≡ e))
      ⊎ ((1 < first xs e) × (lo ≤ key (first xs e)) × (key (first xs e) < hi))
first-le key lo hi e [] s = inl (refl, refl)
first-le key lo hi e (a ∷ xs) s = inr (s.0, s.1, s.2)

module _ (h g : Heap) (hi : ℕ) where
  -- Links survive where nothing changes.
  pub Linked-same :
      (lo p e : ℕ) (xs : List ℕ)
      → Linked h p xs e
      → IsSorted h.vm_start lo hi xs
      → ((x : ℕ)
          → 1 < x
          → lo ≤ h.vm_start x
          → h.vm_start x < hi
          → (g.vm_prev x ≡ h.vm_prev x) × (g.vm_next x ≡ h.vm_next x))
      → Linked g p xs e
  Linked-same lo p e [] s order same = tt
  Linked-same lo p e (a ∷ xs) s order same =
      let f = same a order.0 order.1 order.2 in
      (
        f.0 ∙ s.0,
        f.1 ∙ s.1,
        Linked-same (suc (h.vm_start a)) a e xs s.2 order.3
            (λ x one low high. same x one (omega arith) high),
      )

  -- The list before a place where the links change: only `vm_next` of its last node may.
  pub Linked-before :
      (lo p e e' : ℕ) (xs : List ℕ)
      → Linked h p xs e
      → IsSorted h.vm_start lo hi xs
      → ((x : ℕ)
          → 1 < x
          → lo ≤ h.vm_start x
          → h.vm_start x < hi
          → (g.vm_prev x ≡ h.vm_prev x) × ((x ≡ last p xs) ⊎ (g.vm_next x ≡ h.vm_next x)))
      → (xs ≡ []) ⊎ (g.vm_next (last p xs) ≡ e')
      → Linked g p xs e'
  Linked-before lo p e e' [] s order same end = tt
  Linked-before lo p e e' (a ∷ []) s order same end =
      (ground (arith, same a order.0 order.1 order.2), ground arith, tt)
  Linked-before lo p e e' (a ∷ b ∷ xs) s order same end =
      let f = same a order.0 order.1 order.2 in
      let r = last-ge h.vm_start (suc (h.vm_start a)) hi a (b ∷ xs) order.3 in
      (
        ground arith,
        ground arith,
        Linked-before (suc (h.vm_start a)) a e e' (b ∷ xs) s.2 order.3
            (λ x one low high. same x one (omega arith) high) (ground arith),
      )

  -- The list behind such a place: only `vm_prev` of its first node may change.
  pub Linked-after :
      (lo p p' e : ℕ) (xs : List ℕ)
      → Linked h p xs e
      → IsSorted h.vm_start lo hi xs
      → ((x : ℕ)
          → 1 < x
          → lo ≤ h.vm_start x
          → h.vm_start x < hi
          → ((x ≡ first xs e) ⊎ (g.vm_prev x ≡ h.vm_prev x)) × (g.vm_next x ≡ h.vm_next x))
      → (xs ≡ []) ⊎ (g.vm_prev (first xs e) ≡ p')
      → Linked g p' xs e
  Linked-after lo p p' e [] s order same end = tt
  Linked-after lo p p' e (a ∷ xs) s order same end =
      let f = same a order.0 order.1 order.2 in
      let r = first-le h.vm_start (suc (h.vm_start a)) hi e xs order.3 in
      (
        ground arith,
        ground arith,
        Linked-after (suc (h.vm_start a)) a a e xs s.2 order.3
            (λ x one low high. (inr (ground (arith, same x)), (same x one (omega arith) high).1))
            (elim-first xs s.2 order.3),
      )
    where
      elim-first :
          (ys : List ℕ)
          → Linked h a ys e
          → IsSorted h.vm_start (suc (h.vm_start a)) hi ys
          → (ys ≡ []) ⊎ (g.vm_prev (first ys e) ≡ a)
      elim-first [] l o = inl refl
      elim-first (b ∷ ys) l o = inr (ground (arith, same b o.0))
