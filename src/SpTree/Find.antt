-- ===== src/SpTree/Find.antt =====
-- `sp_tree_find_and_lock` against a search of the list of all nodes.
use open_ooc.Base.{
  ℕ, suc, ◌≤◌, ◌<◌, ◌≡◌, ◌⊎◌, inl, inr, refl, List, [], ◌∷◌, ◌++◌, arith, ◌∙◌, Option, none, some,
  if◌then◌else◌, leb, ltb, ◌&&◌, Run, ok, fault, true, false, Bool-cases, ap, eq_zero, ◌==◌,
  lt-cases, sym, subst,
}
use open_ooc.VmArea.{Heap}
use open_ooc.SpTree.Linked.{IsSorted, last, IsSorted-widen, Linked, Linked-right}
use open_ooc.SpTree.Ops.{find, find_root, find_prev}

-- The first node of the list whose range has the address.
unfoldable pub containing : Heap → ℕ → List ℕ → Option ℕ
containing h k [] = none
containing h k (a ∷ xs) =
    let rest = containing h k xs in
    if leb (h.vm_start a) k && ltb k (h.vm_end a) then some a else rest

-- From `lo` on, the ranges of the nodes follow each other without overlap.
abbrev pub IsSpaced : Heap → ℕ → List ℕ → Type 0
IsSpaced h lo [] = Unit
IsSpaced h lo (a ∷ xs) =
    (lo ≤ h.vm_start a) × (h.vm_start a ≤ h.vm_end a) × IsSpaced h (h.vm_end a) xs

-- The code's assertions stop a search that finds nothing.
abbrev pub found : Option ℕ → Run ℕ
found none = fault
found (some v) = ok v

module _ (h : Heap) (k : ℕ) where
  spaced-at : (lo q : ℕ) (xs ys : List ℕ) → IsSpaced h lo (xs ++ (q ∷ ys)) → lo ≤ h.vm_start q
  spaced-at lo q [] ys s = s.0
  spaced-at lo q (a ∷ xs) ys s =
      let r = spaced-at (h.vm_end a) q xs ys s.2 in omega (arith, s.0, s.1)

  -- No node before one that starts at or below the address has the address.
  pub containing-below :
      (lo q : ℕ) (xs ys : List ℕ)
      → IsSpaced h lo (xs ++ (q ∷ ys))
      → h.vm_start q ≤ k
      → containing h k (xs ++ (q ∷ ys)) ≡ containing h k (q ∷ ys)
  unfolding containing
  containing-below lo q [] ys s le = refl
  containing-below lo q (a ∷ xs) ys s le =
      let r = spaced-at (h.vm_end a) q xs ys s.2 in
      let e : (leb (h.vm_start a) k && ltb k (h.vm_end a)) ≡ false = ground arith in
      rw e (containing-below (h.vm_end a) q xs ys s.2 le)

  -- No node above it has it.
  containing-above :
      (hi : ℕ) (xs : List ℕ) → IsSorted h.vm_start (suc k) hi xs → containing h k xs ≡ none
  unfolding containing
  containing-above hi [] s = refl
  containing-above hi (a ∷ xs) s =
      let e : (leb (h.vm_start a) k && ltb k (h.vm_end a)) ≡ false = ground (arith, s.1) in
      rw e (
        containing-above hi xs (
          IsSorted-widen h.vm_start (suc (h.vm_start a)) (suc k) hi hi xs s.3 (omega (arith, s.1))
            (omega arith)))

  containing-append :
      (xs ys : List ℕ) → containing h k ys ≡ none → containing h k (xs ++ ys) ≡ containing h k xs
  unfolding containing
  containing-append [] ys e = e
  containing-append (a ∷ xs) ys e = rw (containing-append xs ys e) refl

  containing-one :
      (q : ℕ) (ys : List ℕ)
      → h.vm_start q ≤ k
      → containing h k ys ≡ none
      → containing h k (q ∷ ys) ≡ (if ltb k (h.vm_end q) then some q else none)
  unfolding containing
  containing-one q ys le e = let t : leb (h.vm_start q) k ≡ true = ground arith in rw (t, e) refl

last-split : (p : ℕ) (xs : List ℕ) → (xs ≡ []) ⊎ ((ys : List ℕ) × (xs ≡ ys ++ (last p xs ∷ [])))
last-split p [] = inl refl
last-split p (a ∷ []) = inr ([], refl)
last-split p (a ∷ b ∷ xs) = elim (last-split a (b ∷ xs)) [
  | inl e ↦ absurd (cc)
  | inr w ↦ inr (a ∷ w.0, ap (λ ys. a ∷ ys) w.1)
]

IsSpaced-left : (h : Heap) (lo : ℕ) (xs ys : List ℕ) → IsSpaced h lo (xs ++ ys) → IsSpaced h lo xs
IsSpaced-left h lo [] ys s = tt
IsSpaced-left h lo (a ∷ xs) ys s = (s.0, s.1, IsSpaced-left h (h.vm_end a) xs ys s.2)

module _ (g : Heap) (k q : ℕ) where
  find-here : g.vm_start q ≤ k → find q g k ≡ found (if ltb k (g.vm_end q) then some q else none)
  unfolding find find_root
  find-here le =
      let t : leb (g.vm_start q) k ≡ true = ground arith in
      elim (Bool-cases (ltb k (g.vm_end q))) [ inl e ↦ rw (t, e) refl | inr e ↦ rw (t, e) refl ]

  find-no_prev : k < g.vm_start q → g.vm_prev q ≡ 0 → find q g k ≡ fault
  unfolding find find_prev
  find-no_prev lt z =
      let t : leb (g.vm_start q) k ≡ false = ground arith in rw (t, eq_zero (g.vm_prev q) z) refl

  find-prev :
      (v : ℕ)
      → k < g.vm_start q
      → g.vm_prev q ≡ v
      → 1 < v
      → g.vm_start v ≤ k
      → find q g k ≡ found (if ltb k (g.vm_end v) then some v else none)
  unfolding find find_prev
  find-prev v lt e one le =
      let t : leb (g.vm_start q) k ≡ false = ground arith in
      let u : leb (g.vm_start v) k ≡ true = ground arith in
      let z : (v == 0) ≡ false = ground arith in
      elim (Bool-cases (ltb k (g.vm_end v))) [
        | inl b ↦ rw (t, e, u, z, b) refl
        | inr b ↦ rw (t, e, u, z, b) refl
      ]

module _ (g : Heap) (k lo hi q : ℕ) (xs ys : List ℕ) (real : 1 < q) (below : g.vm_start q < hi)
    (left : IsSorted g.vm_start lo k xs) (right : IsSorted g.vm_start (suc k) hi ys)
    (behind : IsSorted g.vm_start (suc (g.vm_start q)) hi ys)
    (linked : Linked g 0 (xs ++ (q ∷ ys)) 0) (spaced : IsSpaced g lo (xs ++ (q ∷ ys))) where
  find_left :
      k < g.vm_start q
      → (xs ≡ []) ⊎ ((zs : List ℕ) × (xs ≡ zs ++ (last 0 xs ∷ [])))
      → find q g k ≡ found (containing g k xs)
  unfolding containing
  find_left lt (inl e) =
      let z : g.vm_prev q ≡ 0 = (Linked-right g 0 0 xs (q ∷ ys) linked).0 ∙ ap (last 0) e in
      find-no_prev g k q lt z ∙ ap (λ zs. found (containing g k zs)) (sym e)
  find_left lt (inr (zs, e)) =
      let v = last 0 xs in
      let z = (Linked-right g 0 0 xs (q ∷ ys) linked).0 in
      let b = last-bounds v zs e in
      let s = subst (IsSpaced g lo) e (IsSpaced-left g lo xs (q ∷ ys) spaced) in
      find-prev g k q v lt z b.0 b.1
      ∙ sym (
          ap found (
            ap (containing g k) e
            ∙ containing-below g k lo v zs [] s b.1
            ∙ containing-one g k v [] b.1 refl))
    where
      last-bounds : (v : ℕ) (zs : List ℕ) → xs ≡ zs ++ (v ∷ []) → (1 < v) × (g.vm_start v ≤ k)
      last-bounds v zs e = let s = subst (IsSorted g.vm_start lo k) e left in at lo zs s
        where
          at :
              (l : ℕ) (zs : List ℕ)
              → IsSorted g.vm_start l k (zs ++ (v ∷ []))
              → (1 < v) × (g.vm_start v ≤ k)
          at l [] s = (s.0, omega (arith, s.2))
          at l (a ∷ zs) s = at (suc (g.vm_start a)) zs s.3

  pub find-containing : find q g k ≡ found (containing g k (xs ++ (q ∷ ys)))
  find-containing = elim (lt-cases k (g.vm_start q)) [
    | inl lt ↦
        let e =
          containing-append g k xs (q ∷ ys)
            (containing-above g k hi (q ∷ ys) (real, lt, below, behind)) in
        find_left lt (last-split 0 xs) ∙ ap found (sym e)
    | inr ge ↦
        let e =
          containing-below g k lo q xs ys spaced ge
          ∙ containing-one g k q ys ge (containing-above g k hi ys right) in
        find-here g k q ge ∙ ap found (sym e)
  ]
