-- ===== src/SpTree/LeftSpine.antt =====
-- The left tree of a splay: nodes linked by `sp_r`, each with a left subtree, from the last one
-- linked (the variable `l`) up to the local node `n`.
use open_ooc.Base.{
  ℕ, suc, ◌≤◌, ◌<◌, ◌≡◌, ◌≢◌, ◌⊎◌, inl, inr, refl, List, [], ◌∷◌, ◌++◌, arith, append_assoc, ap,
  ◌∙◌, subst,
}
use open_ooc.VmArea.{Heap, local_n}
use open_ooc.SpTree.Shape.{Tree, node, inorder, Child, Agree, Child-frame}

abbrev pub Spine : Type 0
Spine = List (ℕ × Tree)

-- The keys right of the spine begin here.
abbrev pub low : (ℕ → ℕ) → ℕ → Spine → ℕ
low key lo [] = lo
low key lo ((a, _) ∷ c) = suc (key a)

-- The nodes of the spine, in order.
abbrev pub left_nodes : Spine → List ℕ
left_nodes [] = []
left_nodes ((a, s) ∷ c) = left_nodes c ++ (inorder s ++ (a ∷ []))

-- The tree that the spine makes, with `s` below its last node.
abbrev pub plug_left : Spine → Tree → Tree
plug_left [] s = s
plug_left ((a, u) ∷ c) s = plug_left c (node u a s)

module _ (z lo : ℕ) where
  abbrev pub Left : Heap → ℕ → Spine → Type 0
  Left h l [] = l ≡ local_n
  Left h l ((a, s) ∷ c) =
      (l ≡ a)
      × (1 < a)
      × (a ≢ z)
      × (low h.vm_start lo c ≤ h.vm_start a)
      × (Child z h (low h.vm_start lo c) (h.vm_start a) s (h.sp_l a) a)
      × (h.sp_r (h.sp_p a) ≡ a)
      × (Left h (h.sp_p a) c)

-- `g` and `h` agree at the nodes with keys below `b`, but for the right child of `l`.
abbrev pub AgreeBelow : Heap → Heap → ℕ → ℕ → Type 0
AgreeBelow h g b l =
    (x : ℕ)
    → 1 < x
    → h.vm_start x < b
    → ((x ≡ l) ⊎ (g.sp_r x ≡ h.sp_r x))
      × (g.sp_p x ≡ h.sp_p x)
      × (g.sp_l x ≡ h.sp_l x)
      × (g.vm_start x ≡ h.vm_start x)

-- The last node is the local one, or a node with a key below `low`.
pub Left-last :
    (z lo : ℕ) (h : Heap) (l : ℕ) (c : Spine)
    → Left z lo h l c
    → ((l ≡ local_n) × (low h.vm_start lo c ≡ lo))
      ⊎ ((1 < l) × (l ≢ z) × (low h.vm_start lo c ≡ suc (h.vm_start l)))
Left-last z lo h l [] s = inl (s, refl)
Left-last z lo h l ((a, u) ∷ c) s = inr (ground arith)

pub low-le : (z lo : ℕ) (h : Heap) (l : ℕ) (c : Spine) → Left z lo h l c → lo ≤ low h.vm_start lo c
low-le z lo h l [] s = omega arith
low-le z lo h l ((a, u) ∷ c) s = omega (arith, low-le z lo h (h.sp_p a) c s.6)

module _ (z lo : ℕ) (h g : Heap) where
  pub low-frame :
      (l m : ℕ) (c : Spine)
      → Left z lo h l c
      → AgreeBelow h g (low h.vm_start lo c) m
      → low g.vm_start lo c ≡ low h.vm_start lo c
  low-frame l m [] s same = refl
  low-frame l m ((a, u) ∷ c) s same = ap suc (same a s.1 (omega arith)).3

  pub Left-frame :
      (l l' : ℕ) (c : Spine)
      → Left z lo h l c
      → l' ≡ l
      → AgreeBelow h g (low h.vm_start lo c) l
      → (l ≡ local_n) ⊎ (g.sp_r local_n ≡ h.sp_r local_n)
      → Left z lo g l' c
  Left-frame l l' [] s e same top = e ∙ s
  Left-frame l l' ((a, u) ∷ c) s e same top =
      let f = same a s.1 (omega arith) in
      let last = Left-last z lo h (h.sp_p a) c s.6 in
      let below : AgreeBelow h g (low h.vm_start lo c) (h.sp_p a) =
        λ x one k. let r = same x one (omega arith) in ((ground arith), r.1, r.2, r.3) in
      let el = low-frame (h.sp_p a) (h.sp_p a) c s.6 below in
      let range : Agree h g (low h.vm_start lo c) (h.vm_start a) a =
        λ x one k k'. let r = same x one (omega arith) in (inr r.1, r.2, (ground arith), r.3) in
      (
        e ∙ s.0,
        s.1,
        s.2,
        omega arith,
        Child-frame z h g (low h.vm_start lo c) (h.vm_start a) (low g.vm_start lo c) (g.vm_start a)
            (h.sp_l a) (g.sp_l a) a a u s.4 f.2 (omega arith) (omega arith) range
            (inr (omega arith)),
        ground (arith, same (h.sp_p a)),
        Left-frame (h.sp_p a) (g.sp_p a) c s.6 f.1 below (ground arith),
      )

-- With a subtree below its last node, the spine is a tree below `n`.
pub Left-plug :
    (z lo hi : ℕ) (h : Heap) (l : ℕ) (c : Spine) (s : Tree)
    → Left z lo h l c
    → Child z h (low h.vm_start lo c) hi s (h.sp_r l) l
    → low h.vm_start lo c ≤ hi
    → Child z h lo hi (plug_left c s) (h.sp_r local_n) local_n
Left-plug z lo hi h l [] s left child le = let e : local_n ≡ l = ground arith in rw e child
Left-plug z lo hi h l ((a, u) ∷ c) s left child le =
    let below = subst (λ x. Child z h (suc (h.vm_start a)) hi s (h.sp_r x) x) left.0 child in
    Left-plug z lo hi h (h.sp_p a) c (node u a s) left.6
      ((left.5, left.1, left.2, left.3, omega arith, left.4.0, left.4.1, below.0, below.1), refl)
      (omega arith)

pub inorder-plug_left : (c : Spine) (s : Tree) → inorder (plug_left c s) ≡ left_nodes c ++ inorder s
inorder-plug_left [] s = refl
inorder-plug_left ((a, u) ∷ c) s = inorder-plug_left c (node u a s) ∙ simp append_assoc
