-- ===== src/VmaAlloc/Unlink.antt =====
-- The removal of a struct from any place of a doubly linked list.
use open_ooc.Base.{
  ℕ, ◌≡◌, ◌≢◌, ◌⊎◌, inl, inr, List, [], ◌∷◌, ◌++◌, upd, upd_self, sym, ◌∙◌, subst, ==-true,
  ==-false, upd_ne,
}
use open_ooc.VmaAlloc.Chain.{set_prev, unlink_head, unlink_next, unlink_prev}
use open_ooc.VmaAlloc.Lists.{
  NotIn, Distinct, IsChain, IsChain-pop, IsChain-head, set_prev_hit, both, set_prev_out, upd_out,
  set_prev_miss,
}

abbrev pub last : ℕ → List ℕ → ℕ
last a [] = a
last a (b ∷ xs) = last b xs

last-NotIn : (c a : ℕ) (xs : List ℕ) → NotIn c (a ∷ xs) → last a xs ≢ c
last-NotIn c a [] out = out.0
last-NotIn c a (b ∷ xs) out = last-NotIn c b xs out.1

pub NotIn-middle :
    (c x : ℕ) (xs ys : List ℕ) → NotIn c (xs ++ (x ∷ ys)) → NotIn c xs × (x ≢ c) × NotIn c ys
NotIn-middle c x [] ys out = (tt, out.0, out.1)
NotIn-middle c x (a ∷ xs) ys out = let r = NotIn-middle c x xs ys out.1 in ((out.0, r.0), r.1, r.2)

-- The struct before `x`.
pub prev-last :
    (prev next : ℕ → ℕ) (p a x : ℕ) (xs ys : List ℕ)
    → IsChain prev next p (a ∷ (xs ++ (x ∷ ys)))
    → prev x ≡ last a xs
prev-last prev next p a x [] ys s = s.2
prev-last prev next p a x (b ∷ xs) ys s = prev-last prev next (next a) b x xs ys s.3

pub last_real :
    (prev next : ℕ → ℕ) (p a : ℕ) (xs ys : List ℕ)
    → IsChain prev next p (a ∷ (xs ++ ys))
    → last a xs ≢ 0
last_real prev next p a [] ys s = s.1
last_real prev next p a (b ∷ xs) ys s = last_real prev next (next a) b xs ys s.3

-- What stands behind `x`.
IsChain-behind :
    (prev next : ℕ → ℕ) (p x : ℕ) (xs ys : List ℕ)
    → IsChain prev next p (xs ++ (x ∷ ys))
    → IsChain prev next (next x) ys
IsChain-behind prev next p x [] ys s = s.3
IsChain-behind prev next p x (a ∷ xs) ys s = IsChain-behind prev next (next a) x xs ys s.3

IsChain-first :
    (prev next : ℕ → ℕ) (p b : ℕ) (ys : List ℕ)
    → IsChain prev next p ys
    → NotIn b ys
    → (p ≡ 0) ⊎ (p ≢ b)
IsChain-first prev next p b [] s out = inl s
IsChain-first prev next p b (c ∷ ys) s out = inr (λ e. out.0 (sym s.0 ∙ e))

-- Behind a struct `a` that stays, `x` goes.
IsChain-cut :
    (prev next : ℕ → ℕ) (p a x : ℕ) (xs ys : List ℕ)
    → IsChain prev next p (a ∷ (xs ++ (x ∷ ys)))
    → Distinct (a ∷ (xs ++ (x ∷ ys)))
    → IsChain (set_prev (next x) (prev x) prev) (upd next (prev x) (next x)) p (a ∷ (xs ++ ys))
IsChain-cut prev next p a x [] [] s d = (
  s.0,
  s.1,
  tt,
  subst (λ q. upd next q (next x) a ≡ 0) (sym s.2) (upd_self next a (next x) ∙ s.3.3),
)
IsChain-cut prev next p a x [] (c ∷ ys) s d =
    let n = next x in
    let prev' = set_prev n (prev x) prev in
    let next' = upd next (prev x) n in
    let e : n ≡ c = s.3.3.0 in
    let here : next' a ≡ n = subst (λ q. upd next q n a ≡ n) (sym s.2) (upd_self next a n) in
    let same : next' c ≡ next c = upd_ne next (prev x) n c (λ q. d.0.1.0 (q ∙ s.2)) in
    let out_n = subst (λ q. NotIn q ys) (sym e) d.1.1.0 in
    let out_p = subst (λ q. NotIn q ys) (sym s.2) d.0.1.1 in
    (
      s.0,
      s.1,
      set_prev_hit prev n (prev x) c e s.3.3.1 ∙ s.2,
      subst (λ q. IsChain prev' next' q (c ∷ ys)) (sym here)
          (IsChain-head prev next prev' next' n c ys s.3.3 same (
            both prev next prev' next' ys (set_prev_out prev n (prev x) ys (inr out_n))
              (upd_out next (prev x) n ys out_p))),
    )
IsChain-cut prev next p a x (b ∷ xs) ys s d =
    let n = next x in
    let prev' = set_prev n (prev x) prev in
    let next' = upd next (prev x) n in
    let mid = NotIn-middle a x (b ∷ xs) ys d.0 in
    let mid_b = NotIn-middle b x xs ys d.1.0 in
    let first =
      IsChain-first prev next n b ys (IsChain-behind prev next (next a) x (b ∷ xs) ys s.3)
        mid_b.2 in
    let last_ne = last-NotIn a b xs mid.0 in
    let e = prev-last prev next (next a) b x xs ys s.3 in
    let here : next' a ≡ next a = upd_ne next (prev x) n a (λ q. last_ne (sym e ∙ sym q)) in
    (
      s.0,
      s.1,
      set_prev_miss prev n (prev x) b first ∙ s.2,
      subst (λ q. IsChain prev' next' q (b ∷ (xs ++ ys))) (sym here)
          (IsChain-cut prev next (next a) b x xs ys s.3 d.1),
    )

-- The links and the head behind the code's removal of `x`.
abbrev pub IsUnlinked : (ℕ → ℕ) → (ℕ → ℕ) → ℕ → ℕ → List ℕ → Type 0
IsUnlinked prev next x p zs =
    IsChain (unlink_prev x prev next p) (unlink_next x prev next p) (unlink_head x next p) zs

unlink_first :
    (prev next : ℕ → ℕ) (p x : ℕ) (zs : List ℕ)
    → p ≡ x
    → IsChain (set_prev (next x) (prev x) prev) next (next x) zs
    → IsUnlinked prev next x p zs
unlink_first prev next p x zs e s = rw (==-true p x e) s

unlink_later :
    (prev next : ℕ → ℕ) (p x : ℕ) (zs : List ℕ)
    → p ≢ x
    → prev x ≢ x
    → IsChain (set_prev (next x) (prev x) prev) (upd next (prev x) (next x)) p zs
    → IsUnlinked prev next x p zs
unlink_later prev next p x zs ne ne' s =
    rw (==-false p x ne, upd_ne next (prev x) (next x) x (λ e. ne' (sym e))) s

last_ne : (a x : ℕ) (xs ys : List ℕ) → Distinct (a ∷ (xs ++ (x ∷ ys))) → last a xs ≢ x
last_ne a x [] ys d e = d.0.0 (sym e)
last_ne a x (b ∷ xs) ys d e = last_ne b x xs ys d.1 e

-- The code's removal of `x` leaves the list without it.
pub IsChain-unlink :
    (prev next : ℕ → ℕ) (p x : ℕ) (xs ys : List ℕ)
    → IsChain prev next p (xs ++ (x ∷ ys))
    → Distinct (xs ++ (x ∷ ys))
    → IsUnlinked prev next x p (xs ++ ys)
IsChain-unlink prev next p x [] ys s d =
    unlink_first prev next p x ys s.0 (IsChain-pop prev next p (prev x) x ys s d.1)
IsChain-unlink prev next p x (a ∷ xs) ys s d =
    let ne = (NotIn-middle a x xs ys d.0).1 in
    let e = prev-last prev next p a x xs ys s in
    unlink_later prev next p x (a ∷ (xs ++ ys)) (λ q. ne (sym q ∙ s.0))
      (λ q. last_ne a x xs ys d (sym e ∙ q)) (IsChain-cut prev next p a x xs ys s d)
