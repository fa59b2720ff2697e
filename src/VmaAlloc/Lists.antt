-- ===== src/VmaAlloc/Lists.antt =====
-- What the lists of src/vma_alloc.c hold: singly linked lists of free nodes, and doubly linked
-- lists, of which the code never sets the back link of the first struct.
use open_ooc.Base.{
  ℕ, ◌≡◌, ◌≢◌, ◌⊎◌, inl, inr, refl, List, [], ◌∷◌, ◌++◌, arith, upd, sym, ◌∙◌, subst, upd_self,
}
use open_ooc.VmaAlloc.Chain.{set_prev}

abbrev pub All : (ℕ → Type 0) → List ℕ → Type 0
All P [] = Unit
All P (a ∷ xs) = P a × All P xs

pub All-append : (P : ℕ → Type 0) (xs ys : List ℕ) → All P xs → All P ys → All P (xs ++ ys)
All-append P [] ys s t = t
All-append P (a ∷ xs) ys s t = (s.0, All-append P xs ys s.1 t)

pub All-left : (P : ℕ → Type 0) (xs ys : List ℕ) → All P (xs ++ ys) → All P xs
All-left P [] ys s = tt
All-left P (a ∷ xs) ys s = (s.0, All-left P xs ys s.1)

pub All-right : (P : ℕ → Type 0) (xs ys : List ℕ) → All P (xs ++ ys) → All P ys
All-right P [] ys s = s
All-right P (a ∷ xs) ys s = All-right P xs ys s.1

pub All-map : (P Q : ℕ → Type 0) (xs : List ℕ) → ((x : ℕ) → P x → Q x) → All P xs → All Q xs
All-map P Q [] f s = tt
All-map P Q (a ∷ xs) f s = (f a s.0, All-map P Q xs f s.1)

pub All-both : (P Q : ℕ → Type 0) (xs : List ℕ) → All P xs → All Q xs → All (λ x. P x × Q x) xs
All-both P Q [] s t = tt
All-both P Q (a ∷ xs) s t = ((s.0, t.0), All-both P Q xs s.1 t.1)

abbrev pub NotIn : ℕ → List ℕ → Type 0
NotIn x = All (λ y. y ≢ x)

abbrev pub Distinct : List ℕ → Type 0
Distinct [] = Unit
Distinct (a ∷ xs) = NotIn a xs × Distinct xs

pub cons-ne : (y : ℕ) (ys : List ℕ) → y ∷ ys ≢ []
cons-ne y ys r = absurd (cc)

pub empty-cases : (xs : List ℕ) → (xs ≡ []) ⊎ (xs ≢ [])
empty-cases [] = inl refl
empty-cases (y ∷ ys) = inr (cons-ne y ys)

-- From `p` the links lead through the list to NULL.
abbrev pub IsList : (ℕ → ℕ) → ℕ → List ℕ → Type 0
IsList next p [] = p ≡ 0
IsList next p (a ∷ xs) = (p ≡ a) × (a ≢ 0) × IsList next (next a) xs

-- The first struct of the list, if there is one, has the back link `a`.
abbrev pub Behind : (ℕ → ℕ) → ℕ → List ℕ → Type 0
Behind prev a [] = Unit
Behind prev a (b ∷ xs) = prev b ≡ a

-- The same with back links.
abbrev pub IsChain : (ℕ → ℕ) → (ℕ → ℕ) → ℕ → List ℕ → Type 0
IsChain prev next p [] = p ≡ 0
IsChain prev next p (a ∷ xs) = (p ≡ a) × (a ≢ 0) × Behind prev a xs × IsChain prev next (next a) xs

pub IsList-frame :
    (next next' : ℕ → ℕ) (p : ℕ) (xs : List ℕ)
    → IsList next p xs
    → All (λ x. next' x ≡ next x) xs
    → IsList next' p xs
IsList-frame next next' p [] s same = s
IsList-frame next next' p (a ∷ xs) s same =
    (s.0, s.1, IsList-frame next next' (next' a) xs (subst_head s.2) same.1)
  where
    subst_head : IsList next (next a) xs → IsList next (next' a) xs
    subst_head r = subst (λ q. IsList next q xs) (sym same.0) r

-- A change of one link.
pub IsList-upd :
    (next : ℕ → ℕ) (x v p : ℕ) (xs : List ℕ)
    → IsList next p xs
    → NotIn x xs
    → IsList (upd next x v) p xs
IsList-upd next x v p xs s out =
    IsList-frame next (upd next x v) p xs s
      (All-map (λ y. y ≢ x) (λ y. upd next x v y ≡ next y) xs (λ y ne. ground arith) out)

pub IsChain-frame :
    (prev next prev' next' : ℕ → ℕ) (p : ℕ) (xs : List ℕ)
    → IsChain prev next p xs
    → All (λ x. (prev' x ≡ prev x) × (next' x ≡ next x)) xs
    → IsChain prev' next' p xs
IsChain-frame prev next prev' next' p [] s same = s
IsChain-frame prev next prev' next' p (a ∷ []) s same = (s.0, s.1, tt, same.0.1 ∙ s.3)
IsChain-frame prev next prev' next' p (a ∷ b ∷ xs) s same = (
  s.0,
  s.1,
  same.1.0.0 ∙ s.2,
  subst (λ q. IsChain prev' next' q (b ∷ xs)) (sym same.0.1)
      (IsChain-frame prev next prev' next' (next a) (b ∷ xs) s.3 same.1),
)

-- The back link of the first struct does not matter.
pub IsChain-head :
    (prev next prev' next' : ℕ → ℕ) (p b : ℕ) (ys : List ℕ)
    → IsChain prev next p (b ∷ ys)
    → next' b ≡ next b
    → All (λ x. (prev' x ≡ prev x) × (next' x ≡ next x)) ys
    → IsChain prev' next' p (b ∷ ys)
IsChain-head prev next prev' next' p b [] s e same = (s.0, s.1, tt, e ∙ s.3)
IsChain-head prev next prev' next' p b (c ∷ ys) s e same = (
  s.0,
  s.1,
  same.0.0 ∙ s.2,
  subst (λ q. IsChain prev' next' q (c ∷ ys)) (sym e)
      (IsChain-frame prev next prev' next' (next b) (c ∷ ys) s.3 same),
)

pub upd_out : (f : ℕ → ℕ) (x v : ℕ) (xs : List ℕ) → NotIn x xs → All (λ y. upd f x v y ≡ f y) xs
upd_out f x v xs out = All-map (λ y. y ≢ x) (λ y. upd f x v y ≡ f y) xs (λ y ne. ground arith) out

pub set_prev_out :
    (f : ℕ → ℕ) (x v : ℕ) (xs : List ℕ)
    → (x ≡ 0) ⊎ NotIn x xs
    → All (λ y. set_prev x v f y ≡ f y) xs
set_prev_out f x v xs (inl e) =
    All-map (λ y. Unit) (λ y. set_prev x v f y ≡ f y) xs (λ y ne. ground arith) (units xs)
  where
    units : (xs : List ℕ) → All (λ y. Unit) xs
    units [] = tt
    units (a ∷ xs) = (tt, units xs)
set_prev_out f x v xs (inr out) =
    All-map (λ y. y ≢ x) (λ y. set_prev x v f y ≡ f y) xs (λ y ne. ground arith) out

pub both :
    (prev next prev' next' : ℕ → ℕ) (xs : List ℕ)
    → All (λ y. prev' y ≡ prev y) xs
    → All (λ y. next' y ≡ next y) xs
    → All (λ x. (prev' x ≡ prev x) × (next' x ≡ next x)) xs
both prev next prev' next' [] s t = tt
both prev next prev' next' (a ∷ xs) s t = ((s.0, t.0), both prev next prev' next' xs s.1 t.1)

pub refls : (f : ℕ → ℕ) (xs : List ℕ) → All (λ y. f y ≡ f y) xs
refls f [] = tt
refls f (a ∷ xs) = (refl, refls f xs)

-- A list to which neither change belongs.
pub IsChain-upd :
    (prev next : ℕ → ℕ) (x v y w p : ℕ) (xs : List ℕ)
    → IsChain prev next p xs
    → (x ≡ 0) ⊎ NotIn x xs
    → NotIn y xs
    → IsChain (set_prev x v prev) (upd next y w) p xs
IsChain-upd prev next x v y w p xs s out_x out_y =
    IsChain-frame prev next (set_prev x v prev) (upd next y w) p xs s (
      both prev next (set_prev x v prev) (upd next y w) xs (set_prev_out prev x v xs out_x)
        (upd_out next y w xs out_y))

-- One to which the change of a back link does not belong.
pub IsChain-prev :
    (prev next : ℕ → ℕ) (x v p : ℕ) (xs : List ℕ)
    → IsChain prev next p xs
    → (x ≡ 0) ⊎ NotIn x xs
    → IsChain (set_prev x v prev) next p xs
IsChain-prev prev next x v p xs s out =
    IsChain-frame prev next (set_prev x v prev) next p xs s
      (both prev next (set_prev x v prev) next xs (set_prev_out prev x v xs out) (refls next xs))

-- The first struct goes.
pub IsChain-pop :
    (prev next : ℕ → ℕ) (p v a : ℕ) (xs : List ℕ)
    → IsChain prev next p (a ∷ xs)
    → Distinct xs
    → IsChain (set_prev (next a) v prev) next (next a) xs
IsChain-pop prev next p v a [] s d = s.3
IsChain-pop prev next p v a (b ∷ ys) s d =
    let n = next a in
    let out = subst (λ q. NotIn q ys) (sym s.3.0) d.0 in
    IsChain-head prev next (set_prev n v prev) next n b ys s.3 refl (
      both prev next (set_prev n v prev) next ys (set_prev_out prev n v ys (inr out))
        (refls next ys))

pub set_prev_hit : (prev : ℕ → ℕ) (p v b : ℕ) → p ≡ b → b ≢ 0 → set_prev p v prev b ≡ v
set_prev_hit prev p v b e ne = ground arith

pub set_prev_miss : (prev : ℕ → ℕ) (p v b : ℕ) → (p ≡ 0) ⊎ (p ≢ b) → set_prev p v prev b ≡ prev b
set_prev_miss prev p v b e = ground arith

-- One goes in front.
pub IsChain-push :
    (prev next : ℕ → ℕ) (p x : ℕ) (xs : List ℕ)
    → IsChain prev next p xs
    → Distinct (x ∷ xs)
    → x ≢ 0
    → IsChain (set_prev p x prev) (upd next x p) x (x ∷ xs)
IsChain-push prev next p x [] s d ne = (refl, ne, tt, upd_self next x p ∙ s)
IsChain-push prev next p x (b ∷ ys) s d ne =
    let prev' = set_prev p x prev in
    let next' = upd next x p in
    let out = subst (λ q. NotIn q ys) (sym s.0) d.1.0 in
    let same = upd_out next x p (b ∷ ys) d.0 in
    (
      refl,
      ne,
      set_prev_hit prev p x b s.0 s.1,
      subst (λ q. IsChain prev' next' q (b ∷ ys)) (sym (upd_self next x p))
          (IsChain-head prev next prev' next' p b ys s same.0
            (both prev next prev' next' ys (set_prev_out prev p x ys (inr out)) same.1)),
    )
