-- ===== src/VmaAlloc/Leave.antt =====
-- A block leaves the pool of its thread: the invariant behind that.
use open_ooc.Base.{
  ℕ, ◌≡◌, ◌≢◌, ◌⊎◌, inl, inr, refl, true, false, List, [], ◌∷◌, ◌++◌, upd, upd_same, upd_ne,
  upd_self, sym, ◌∙◌, ap, subst, eq-cases, ==-true, ==-false,
}
use open_ooc.VmaAlloc.Arena.{Arena}
use open_ooc.VmaAlloc.Chain.{unlink_head, unlink_next, unlink_prev}
use open_ooc.VmaAlloc.Lists.{
  All, All-map, All-left, All-right, All-append, NotIn, Distinct, IsChain, IsChain-prev,
  IsChain-upd,
}
use open_ooc.VmaAlloc.Unlink.{last, prev-last, IsChain-unlink, NotIn-middle}
use open_ooc.VmaAlloc.Valid.{View, Listed, IsMember, IsPool, upd_case, other_thread}
use open_ooc.VmaAlloc.Ops.{block_unlink}

-- Lists without an element.
NotIn-append : (c : ℕ) (xs ys : List ℕ) → NotIn c xs → NotIn c ys → NotIn c (xs ++ ys)
NotIn-append c xs ys s t = All-append (λ y. y ≢ c) xs ys s t

Distinct-middle :
    (x : ℕ) (xs ys : List ℕ) → Distinct (xs ++ (x ∷ ys)) → NotIn x (xs ++ ys) × Distinct (xs ++ ys)
Distinct-middle x [] ys d = (d.0, d.1)
Distinct-middle x (a ∷ xs) ys d =
    let r = Distinct-middle x xs ys d.1 in
    let m = NotIn-middle a x xs ys d.0 in
    (((λ e. m.1 (sym e)), r.0), (NotIn-append a xs ys m.0 m.2, r.1))

cons-Listed : (c a : ℕ) (xs : List ℕ) → Listed c xs → Listed c (a ∷ xs)
cons-Listed c a xs (ls, ms, e) = (a ∷ ls, ms, ap (λ l. a ∷ l) e)

tail-Listed : (c a : ℕ) (xs : List ℕ) → c ≢ a → Listed c (a ∷ xs) → Listed c xs
tail-Listed c a xs ne ([], ms, e) = absurd (ne (head-eq c a ms xs e))
  where
    head-eq : (c a : ℕ) (ms xs : List ℕ) → a ∷ xs ≡ c ∷ ms → c ≡ a
    head-eq c a ms xs e = cc
tail-Listed c a xs ne (l ∷ ls, ms, e) = (ls, ms, tail-eq a l xs (ls ++ (c ∷ ms)) e)
  where
    tail-eq : (a l : ℕ) (xs ys : List ℕ) → a ∷ xs ≡ l ∷ ys → xs ≡ ys
    tail-eq a l xs ys e = cc

Listed-middle : (c b : ℕ) (xs ys : List ℕ) → c ≢ b → Listed c (xs ++ (b ∷ ys)) → Listed c (xs ++ ys)
Listed-middle c b [] ys ne l = tail-Listed c b ys ne l
Listed-middle c b (a ∷ xs) ys ne l = elim (eq-cases c a) [
  | inl e ↦ ([], xs ++ ys, ap (λ d. d ∷ (xs ++ ys)) (sym e))
  | inr n ↦
      cons-Listed c a (xs ++ ys) (Listed-middle c b xs ys ne (tail-Listed c a (xs ++ (b ∷ ys)) n l))
]

-- The struct that is next.
next_place :
    (prev next : ℕ → ℕ) (p x : ℕ) (xs ys : List ℕ)
    → IsChain prev next p (xs ++ (x ∷ ys))
    → (P : ℕ → Type 0) → All P ys
    → (next x ≡ 0) ⊎ P (next x)
next_place prev next p x [] [] s P m = inl s.3
next_place prev next p x [] (c ∷ ys) s P m = inr (subst P (sym s.3.0) m.0)
next_place prev next p x (a ∷ xs) ys s P m = next_place prev next (next a) x xs ys s.3 P m

last_place : (P : ℕ → Type 0) (a : ℕ) (xs : List ℕ) → All P (a ∷ xs) → P (last a xs)
last_place P a [] m = m.0
last_place P a (b ∷ xs) m = last_place P b xs m.1

-- The code reads the new link behind `x`, which is the old one.
unlinked_next : (prev next : ℕ → ℕ) (x : ℕ) → upd next (prev x) (next x) x ≡ next x
unlinked_next prev next x = elim (eq-cases x (prev x)) [
  | inl e ↦ rw (==-true x (prev x) e) refl
  | inr ne ↦ upd_ne next (prev x) (next x) x ne
]

-- A list apart from the one that `x` leaves.
module _ (prev next : ℕ → ℕ) (p q x : ℕ) (zs : List ℕ) (c : IsChain prev next q zs) where
  unlink_first_out :
      p ≡ x
      → (next x ≡ 0) ⊎ NotIn (next x) zs
      → IsChain (unlink_prev x prev next p) (unlink_next x prev next p) q zs
  unlink_first_out e out = rw (==-true p x e) (IsChain-prev prev next (next x) (prev x) q zs c out)

  unlink_later_out :
      p ≢ x
      → (next x ≡ 0) ⊎ NotIn (next x) zs
      → NotIn (prev x) zs
      → IsChain (unlink_prev x prev next p) (unlink_next x prev next p) q zs
  unlink_later_out ne out out' =
      rw (==-false p x ne, unlinked_next prev next x)
        (IsChain-upd prev next (next x) (prev x) (prev x) (next x) q zs c out out')

  pub unlink_out :
      (xs ys : List ℕ)
      → IsChain prev next p (xs ++ (x ∷ ys))
      → All (λ y. NotIn y zs) (xs ++ (x ∷ ys))
      → IsChain (unlink_prev x prev next p) (unlink_next x prev next p) q zs
  unlink_out [] ys s out =
      unlink_first_out s.0 (next_place prev next p x [] ys s (λ y. NotIn y zs) out.1)
  unlink_out (a ∷ xs) ys s out =
      let behind = (All-right (λ y. NotIn y zs) (a ∷ xs) (x ∷ ys) out).1 in
      let place = next_place prev next p x (a ∷ xs) ys s (λ y. NotIn y zs) behind in
      elim (eq-cases p x) [
        | inl e ↦ unlink_first_out e place
        | inr ne ↦ unlink_later_out ne place (
            subst (λ y. NotIn y zs) (sym (prev-last prev next p a x xs ys s))
              (last_place (λ y. NotIn y zs) a xs
                (All-left (λ y. NotIn y zs) (a ∷ xs) (x ∷ ys) out)))
      ]

-- The view without the block `b` of the thread `t`.
abbrev pub left : View → ℕ → ℕ → List ℕ → View
left v t b xs = record v { known = upd v.known b false; pool = upd v.pool t xs }

module _ (b : ℕ) (v : View) (s : Arena) (valid : IsPool v s) (known : v.known b ≡ true)
    (ys zs : List ℕ) (pool : v.pool (s.b_mpool b) ≡ ys ++ (b ∷ zs)) where
  abbrev t : ℕ
  t = s.b_mpool b

  chain_t : IsChain s.b_prev s.b_next (s.m_head t) (ys ++ (b ∷ zs))
  chain_t = subst (IsChain s.b_prev s.b_next (s.m_head t)) pool (valid.chain t)

  pool-Distinct : Distinct (ys ++ (b ∷ zs))
  pool-Distinct = subst Distinct pool (valid.distinct t)

  members_t : All (IsMember v s.b_mpool t) (ys ++ (b ∷ zs))
  members_t = subst (All (IsMember v s.b_mpool t)) pool (valid.members t)

  abbrev prev' : ℕ → ℕ
  prev' = unlink_prev b s.b_prev s.b_next (s.m_head t)

  abbrev next' : ℕ → ℕ
  next' = unlink_next b s.b_prev s.b_next (s.m_head t)

  abbrev head' : ℕ
  head' = unlink_head b s.b_next (s.m_head t)

  other_out : (u : ℕ) → u ≢ t → All (λ y. NotIn y (v.pool u)) (ys ++ (b ∷ zs))
  other_out u ne =
      All-map (IsMember v s.b_mpool t) (λ y. NotIn y (v.pool u)) (ys ++ (b ∷ zs))
        (λ y m. other_thread v s.b_mpool t u y (v.pool u) m.1 ne (valid.members u)) members_t

  left_members :
      (u : ℕ) (xs : List ℕ)
      → NotIn b xs
      → All (IsMember v s.b_mpool u) xs
      → All (IsMember (left v t b (ys ++ zs)) s.b_mpool u) xs
  left_members u [] o m = tt
  left_members u (a ∷ xs) o m =
      ((upd_ne v.known b false a o.0 ∙ m.0.0, m.0.1, m.0.2), left_members u xs o.1 m.1)

  rest_members : All (IsMember v s.b_mpool t) (ys ++ zs)
  rest_members =
      All-append (IsMember v s.b_mpool t) ys zs
        (All-left (IsMember v s.b_mpool t) ys (b ∷ zs) members_t)
        (All-right (IsMember v s.b_mpool t) ys (b ∷ zs) members_t).1

  left_known : (c : ℕ) → upd v.known b false c ≡ true → (c ≢ b) × (v.known c ≡ true)
  left_known c k = elim (eq-cases c b) [
    | inl e ↦ absurd (not_both (sym (ap (upd v.known b false) e ∙ upd_same v.known b false) ∙ k))
    | inr ne ↦ (ne, sym (upd_ne v.known b false c ne) ∙ k)
  ]
    where
      not_both : false ≢ true
      not_both e = absurd (cc)

  pub block_unlink-IsPool : IsPool (left v t b (ys ++ zs)) (block_unlink b s)
  unfolding block_unlink
  block_unlink-IsPool = record {
    block = λ c k. valid.block c (left_known c k).1;
    chain = λ u. elim (eq-cases u t) [
      | inl e ↦
          subst (λ y. IsChain prev' next' (upd s.m_head t head' y) (upd v.pool t (ys ++ zs) y))
            (sym e)
            (subst (λ p. IsChain prev' next' p (upd v.pool t (ys ++ zs) t))
              (sym (upd_self s.m_head t head'))
              (subst (IsChain prev' next' head') (sym (upd_same v.pool t (ys ++ zs)))
                (IsChain-unlink s.b_prev s.b_next (s.m_head t) b ys zs chain_t pool-Distinct)))
      | inr ne ↦
          subst (λ p. IsChain prev' next' p (upd v.pool t (ys ++ zs) u))
            (sym (upd_ne s.m_head t head' u ne))
            (subst (IsChain prev' next' (s.m_head u)) (sym (upd_ne v.pool t (ys ++ zs) u ne)) (
              unlink_out s.b_prev s.b_next (s.m_head t) (s.m_head u) b (v.pool u) (valid.chain u) ys
                zs chain_t (other_out u ne)))
    ];
    distinct = λ u.
        upd_case v.pool t (ys ++ zs) (λ y l. Distinct l) u
          (λ e. (Distinct-middle b ys zs pool-Distinct).1) (λ ne. valid.distinct u);
    members = λ u.
        upd_case v.pool t (ys ++ zs) (λ y l. All (IsMember (left v t b (ys ++ zs)) s.b_mpool y) l) u
          (λ e.
            subst (λ y. All (IsMember (left v t b (ys ++ zs)) s.b_mpool y) (ys ++ zs)) (sym e)
              (left_members t (ys ++ zs) (Distinct-middle b ys zs pool-Distinct).0 rest_members))
          (λ ne.
            left_members u (v.pool u)
              (other_thread v s.b_mpool t u b (v.pool u) refl ne (valid.members u))
              (valid.members u));
    listed = λ c k some.
        let (ne, k') = left_known c k in
        let l = valid.listed c k' some in
        upd_case v.pool t (ys ++ zs) (λ y xs. Listed c xs) (s.b_mpool c)
          (λ e.
            Listed-middle c b ys zs ne
              (subst (Listed c) pool (subst (λ y. Listed c (v.pool y)) e l)))
          (λ r. l);
    fresh = λ u e.
        upd_case v.pool t (ys ++ zs) (λ y l. l ≡ []) u
          (λ q. absurd (valid.owner b known (ap s.m_init (sym q) ∙ e))) (λ q. valid.fresh u e);
    owner = λ c k. valid.owner c (left_known c k).1;
  }
