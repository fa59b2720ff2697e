-- ===== src/SpTree/RightSpine.antt =====
-- The right tree of a splay: nodes linked by `sp_l`, each with a right subtree, from the last one
-- linked (the variable `r`) up to the local node `n`.
use open_ooc.Base.{
  ℕ, suc, ◌≤◌, ◌<◌, ◌≡◌, ◌≢◌, ◌⊎◌, inl, inr, refl, List, [], ◌∷◌, ◌++◌, arith, append_assoc, ◌∙◌,
  subst, sym, append-nil,
}
use open_ooc.VmArea.{Heap, local_n}
use open_ooc.SpTree.Shape.{Tree, node, inorder, Child, Agree, Child-frame}
use open_ooc.SpTree.LeftSpine.{Spine}

-- The keys left of the spine end below this one.
abbrev pub high : (ℕ → ℕ) → ℕ → Spine → ℕ
high key hi [] = hi
high key hi ((a, _) ∷ c) = key a

-- The nodes of the spine, in order.
abbrev pub right_nodes : Spine → List ℕ
right_nodes [] = []
right_nodes ((a, s) ∷ c) = a ∷ (inorder s ++ right_nodes c)

-- The tree that the spine makes, with `s` below its last node.
abbrev pub plug_right : Spine → Tree → Tree
plug_right [] s = s
plug_right ((a, u) ∷ c) s = plug_right c (node s a u)

module _ (z hi : ℕ) where
  abbrev pub Right : Heap → ℕ → Spine → Type 0
  Right h r [] = r ≡ local_n
  Right h r ((a, s) ∷ c) =
      (r ≡ a)
      × (1 < a)
      × (a ≢ z)
      × (h.vm_start a < high h.vm_start hi c)
      × (Child z h (suc (h.vm_start a)) (high h.vm_start hi c) s (h.sp_r a) a)
      × (h.sp_l (h.sp_p a) ≡ a)
      × (Right h (h.sp_p a) c)

-- `g` and `h` agree at the nodes with keys from `b` on, but for the left child of `r`.
abbrev pub AgreeAbove : Heap → Heap → ℕ → ℕ → Type 0
AgreeAbove h g b r =
    (x : ℕ)
    → 1 < x
    → b ≤ h.vm_start x
    → ((x ≡ r) ⊎ (g.sp_l x ≡ h.sp_l x))
      × (g.sp_p x ≡ h.sp_p x)
      × (g.sp_r x ≡ h.sp_r x)
      × (g.vm_start x ≡ h.vm_start x)

-- The last node is the local one, or a node with the key `high`.
pub Right-last :
    (z hi : ℕ) (h : Heap) (r : ℕ) (c : Spine)
    → Right z hi h r c
    → ((r ≡ local_n) × (high h.vm_start hi c ≡ hi))
      ⊎ ((1 < r) × (r ≢ z) × (high h.vm_start hi c ≡ h.vm_start r))
Right-last z hi h r [] s = inl (s, refl)
Right-last z hi h r ((a, u) ∷ c) s = inr (ground arith)

pub high-le :
    (z hi : ℕ) (h : Heap) (r : ℕ) (c : Spine) → Right z hi h r c → high h.vm_start hi c ≤ hi
high-le z hi h r [] s = omega arith
high-le z hi h r ((a, u) ∷ c) s = omega (arith, high-le z hi h (h.sp_p a) c s.6)

module _ (z hi : ℕ) (h g : Heap) where
  pub high-frame :
      (r m : ℕ) (c : Spine)
      → Right z hi h r c
      → AgreeAbove h g (high h.vm_start hi c) m
      → high g.vm_start hi c ≡ high h.vm_start hi c
  high-frame r m [] s same = refl
  high-frame r m ((a, u) ∷ c) s same = (same a s.1 (omega arith)).3

  pub Right-frame :
      (r r' : ℕ) (c : Spine)
      → Right z hi h r c
      → r' ≡ r
      → AgreeAbove h g (high h.vm_start hi c) r
      → (r ≡ local_n) ⊎ (g.sp_l local_n ≡ h.sp_l local_n)
      → Right z hi g r' c
  Right-frame r r' [] s e same top = e ∙ s
  Right-frame r r' ((a, u) ∷ c) s e same top =
      let f = same a s.1 (omega arith) in
      let last = Right-last z hi h (h.sp_p a) c s.6 in
      let above : AgreeAbove h g (high h.vm_start hi c) (h.sp_p a) =
        λ x one k. let w = same x one (omega arith) in ((ground arith), w.1, w.2, w.3) in
      let el = high-frame (h.sp_p a) (h.sp_p a) c s.6 above in
      let range : Agree h g (suc (h.vm_start a)) (high h.vm_start hi c) a =
        λ x one k k'. let w = same x one (omega arith) in (inr w.1, (ground arith), w.2, w.3) in
      (
        e ∙ s.0,
        s.1,
        s.2,
        omega arith,
        Child-frame z h g (suc (h.vm_start a)) (high h.vm_start hi c) (suc (g.vm_start a))
            (high g.vm_start hi c) (h.sp_r a) (g.sp_r a) a a u s.4 f.2 (omega arith) (omega arith)
            range (inl (omega arith)),
        ground (arith, same (h.sp_p a)),
        Right-frame (h.sp_p a) (g.sp_p a) c s.6 f.1 above (ground arith),
      )

-- With a subtree below its last node, the spine is a tree below `n`.
pub Right-plug :
    (z lo hi : ℕ) (h : Heap) (r : ℕ) (c : Spine) (s : Tree)
    → Right z hi h r c
    → Child z h lo (high h.vm_start hi c) s (h.sp_l r) r
    → lo ≤ high h.vm_start hi c
    → Child z h lo hi (plug_right c s) (h.sp_l local_n) local_n
Right-plug z lo hi h r [] s right child le = let e : local_n ≡ r = ground arith in rw e child
Right-plug z lo hi h r ((a, u) ∷ c) s right child le =
    let below = subst (λ x. Child z h lo (h.vm_start a) s (h.sp_l x) x) right.0 child in
    Right-plug z lo hi h (h.sp_p a) c (node s a u) right.6
      ((right.5, right.1, right.2, le, right.3, below.0, below.1, right.4.0, right.4.1), refl)
      (omega arith)

pub inorder-plug_right :
    (c : Spine) (s : Tree) → inorder (plug_right c s) ≡ inorder s ++ right_nodes c
inorder-plug_right [] s = sym (append-nil (inorder s))
inorder-plug_right ((a, u) ∷ c) s = inorder-plug_right c (node s a u) ∙ simp append_assoc
