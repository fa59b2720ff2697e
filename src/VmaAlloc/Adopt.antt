-- ===== src/VmaAlloc/Adopt.antt =====
-- A block that no thread holds goes to a thread without blocks: the invariant behind that.
use open_ooc.Base.{
  ℕ, ◌≡◌, ◌≢◌, ◌⊎◌, inl, inr, true, false, List, [], ◌∷◌, upd, upd_same, upd_ne, upd_self, sym, ◌∙◌,
  ap, subst, eq-cases, ◌++◌,
}
use open_ooc.VmaAlloc.Arena.{Arena}
use open_ooc.VmaAlloc.Chain.{set_prev}
use open_ooc.VmaAlloc.Lists.{
  All, All-map, NotIn, Distinct, IsChain, IsChain-frame, IsChain-prev, both, upd_out, cons-ne,
}
use open_ooc.VmaAlloc.Valid.{View, IsBlock, Listed, IsMember, IsPool, upd_case}
use open_ooc.VmaAlloc.Ops.{adopt_block}

true-ne-false : true ≢ false
true-ne-false e = absurd (cc)

-- A block that no thread holds is in no pool.
pub unknown_out :
    (v : View) (mpool : ℕ → ℕ) (u b : ℕ) (xs : List ℕ)
    → v.known b ≡ false
    → All (IsMember v mpool u) xs
    → NotIn b xs
unknown_out v mpool u b xs e =
    All-map (IsMember v mpool u) (λ c. c ≢ b) xs
      (λ c m q. true-ne-false (sym m.0 ∙ ap v.known q ∙ e))

-- A change of its back link does not matter.
pub IsPool-prev :
    (v : View) (s : Arena) (n q : ℕ)
    → (n ≡ 0) ⊎ (v.known n ≡ false)
    → IsPool v s
    → IsPool v (record s { b_prev = set_prev n q s.b_prev })
IsPool-prev v s n q unknown w = record {
  block = w.block;
  chain =
      λ u. IsChain-prev s.b_prev s.b_next n q (s.m_head u) (v.pool u) (w.chain u) (out u unknown);
  distinct = w.distinct;
  members = w.members;
  listed = w.listed;
  fresh = w.fresh;
  owner = w.owner;
}
  where
    out : (u : ℕ) → (n ≡ 0) ⊎ (v.known n ≡ false) → (n ≡ 0) ⊎ NotIn n (v.pool u)
    out u (inl e) = inl e
    out u (inr e) = inr (unknown_out v s.b_mpool u n (v.pool u) e (w.members u))

-- The view with the block `b` as the only one with free nodes of the thread `t`.
abbrev pub adopted : View → ℕ → ℕ → View
adopted v t b = record v { known = upd v.known b true; pool = upd v.pool t (b ∷ []) }

module _ (t b : ℕ) (v : View) (s : Arena) (valid : IsPool v s) (real : b ≢ 0)
    (unknown : v.known b ≡ false) (some_free : v.free b ≢ []) (none : v.pool t ≡ [])
    (set_up : s.m_init t ≢ 0)
    (block : IsBlock s.vm_next b (s.b_head b) (s.b_vctr b) (v.free b)) where
  out : (u : ℕ) → NotIn b (v.pool u)
  out u = unknown_out v s.b_mpool u b (v.pool u) unknown (valid.members u)

  -- Another block that a thread holds now was held before.
  was_known : (c : ℕ) → c ≢ b → upd v.known b true c ≡ true → v.known c ≡ true
  was_known c ne k = sym (upd_ne v.known b true c ne) ∙ k

  adopted-block :
      (c : ℕ)
      → upd v.known b true c ≡ true
      → IsBlock s.vm_next c (s.b_head c) (s.b_vctr c) (v.free c)
  adopted-block c k = elim (eq-cases c b) [
    | inl e ↦ subst (λ d. IsBlock s.vm_next d (s.b_head d) (s.b_vctr d) (v.free d)) (sym e) block
    | inr ne ↦ valid.block c (was_known c ne k)
  ]

  adopted-IsChain :
      (u : ℕ)
      → IsChain (upd s.b_prev b 0) (upd s.b_next b 0) (upd s.m_head t b u) (upd v.pool t (b ∷ []) u)
  adopted-IsChain u = elim (eq-cases u t) [
    | inl e ↦
        subst
          (λ y.
            IsChain (upd s.b_prev b 0) (upd s.b_next b 0) (upd s.m_head t b y)
              (upd v.pool t (b ∷ []) y))
          (sym e)
          (subst (IsChain (upd s.b_prev b 0) (upd s.b_next b 0) (upd s.m_head t b t))
            (sym (upd_same v.pool t (b ∷ [])))
            (upd_self s.m_head t b, real, tt, upd_self s.b_next b 0))
    | inr ne ↦
        subst (λ p. IsChain (upd s.b_prev b 0) (upd s.b_next b 0) p (upd v.pool t (b ∷ []) u))
          (sym (upd_ne s.m_head t b u ne))
          (subst (IsChain (upd s.b_prev b 0) (upd s.b_next b 0) (s.m_head u))
            (sym (upd_ne v.pool t (b ∷ []) u ne))
            (IsChain-frame s.b_prev s.b_next (upd s.b_prev b 0) (upd s.b_next b 0) (s.m_head u)
              (v.pool u) (valid.chain u)
              (both s.b_prev s.b_next (upd s.b_prev b 0) (upd s.b_next b 0) (v.pool u)
                (upd_out s.b_prev b 0 (v.pool u) (out u))
                (upd_out s.b_next b 0 (v.pool u) (out u)))))
  ]

  kept_members :
      (u : ℕ) (xs : List ℕ)
      → NotIn b xs
      → All (IsMember v s.b_mpool u) xs
      → All (IsMember (adopted v t b) (upd s.b_mpool b t) u) xs
  kept_members u [] o m = tt
  kept_members u (a ∷ xs) o m = (
    (upd_ne v.known b true a o.0 ∙ m.0.0, upd_ne s.b_mpool b t a o.0 ∙ m.0.1, m.0.2),
    kept_members u xs o.1 m.1,
  )

  nothing-Listed : (c : ℕ) → Listed c [] → ⊥
  nothing-Listed c ([], zs, e) = cons-ne c zs (sym e)
  nothing-Listed c (y ∷ ys, zs, e) = cons-ne y (ys ++ (c ∷ zs)) (sym e)

  adopted-Listed :
      (c : ℕ)
      → upd v.known b true c ≡ true
      → v.free c ≢ []
      → Listed c (upd v.pool t (b ∷ []) (upd s.b_mpool b t c))
  adopted-Listed c k some = elim (eq-cases c b) [
    | inl e ↦
        subst (λ u. Listed c (upd v.pool t (b ∷ []) u))
          (sym (ap (upd s.b_mpool b t) e ∙ upd_self s.b_mpool b t))
          (subst (Listed c) (sym (upd_same v.pool t (b ∷ []))) ([], [], ap (λ d. d ∷ []) (sym e)))
    | inr ne ↦
        let l = valid.listed c (was_known c ne k) some in
        let other : s.b_mpool c ≢ t =
          λ e. nothing-Listed c (subst (Listed c) none (subst (λ u. Listed c (v.pool u)) e l)) in
        subst (λ u. Listed c (upd v.pool t (b ∷ []) u)) (sym (upd_ne s.b_mpool b t c ne))
          (subst (Listed c) (sym (upd_ne v.pool t (b ∷ []) (s.b_mpool c) other)) l)
  ]

  pub adopt_block-IsPool : IsPool (adopted v t b) (adopt_block t b s)
  unfolding adopt_block
  adopt_block-IsPool = record {
    block = adopted-block;
    chain = adopted-IsChain;
    distinct = λ u.
        upd_case v.pool t (b ∷ []) (λ y l. Distinct l) u (λ q. (tt, tt)) (λ q. valid.distinct u);
    members = λ u.
        upd_case v.pool t (b ∷ []) (λ y l. All (IsMember (adopted v t b) (upd s.b_mpool b t) y) l) u
          (λ q. ((upd_same v.known b true, upd_self s.b_mpool b t ∙ sym q, some_free), tt))
          (λ q. kept_members u (v.pool u) (out u) (valid.members u));
    listed = adopted-Listed;
    fresh = λ u e.
        upd_case v.pool t (b ∷ []) (λ y l. l ≡ []) u
          (λ q. absurd (set_up (ap s.m_init (sym q) ∙ e))) (λ q. valid.fresh u e);
    owner = λ c k. elim (eq-cases c b) [
      | inl e ↦
          λ z. set_up (ap s.m_init (sym (ap (upd s.b_mpool b t) e ∙ upd_self s.b_mpool b t)) ∙ z)
      | inr ne ↦
          λ z. valid.owner c (was_known c ne k) (ap s.m_init (sym (upd_ne s.b_mpool b t c ne)) ∙ z)
    ];
  }
