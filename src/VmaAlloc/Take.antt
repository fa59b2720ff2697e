-- ===== src/VmaAlloc/Take.antt =====
-- The first free node of a thread's first block leaves it: the invariant behind that.
use open_ooc.Base.{
  ℕ, suc, ◌+◌, ◌≡◌, ◌≢◌, ◌⊎◌, inl, inr, true, List, [], ◌∷◌, ◌++◌, arith, upd, sym, ◌∙◌, ap, subst,
  ==-true, ==-false, eq-cases, length, add64,
}
use open_ooc.VmaAlloc.Arena.{Arena, block_ctr_full}
use open_ooc.VmaAlloc.Chain.{set_prev}
use open_ooc.VmaAlloc.Lists.{
  All, NotIn, Distinct, IsList, IsChain, IsChain-pop, IsChain-prev, All-map, cons-ne,
}
use open_ooc.VmaAlloc.Valid.{
  View, IsBlock, Listed, IsMember, IsPool, IsBlock-upd, other_thread, upd_case,
}
use open_ooc.VmaAlloc.Ops.{take_vma}

-- The view without the node `x`, the first free one of `b`, the first block of the thread `t`.
abbrev pub without : View → ℕ → ℕ → List ℕ → List ℕ → View
without v t b xs bs = record v { free = upd v.free b xs; pool = upd v.pool t bs }

module _ (t b x : ℕ) (xs bs : List ℕ) (v : View) (s : Arena) (valid : IsPool v s)
    (pool : v.pool t ≡ b ∷ bs) (free : v.free b ≡ x ∷ xs) where
  pub member : IsMember v s.b_mpool t b
  member = (subst (All (IsMember v s.b_mpool t)) pool (valid.members t)).0

  pool-IsChain : IsChain s.b_prev s.b_next (s.m_head t) (b ∷ bs)
  pool-IsChain = subst (IsChain s.b_prev s.b_next (s.m_head t)) pool (valid.chain t)

  pool-Distinct : Distinct (b ∷ bs)
  pool-Distinct = subst Distinct pool (valid.distinct t)

  -- The block before.
  pub old : IsBlock s.vm_next b (s.b_head b) (s.b_vctr b) (x ∷ xs)
  old = subst (IsBlock s.vm_next b (s.b_head b) (s.b_vctr b)) free (valid.block b member.0)

  -- And after.
  new : IsBlock s.vm_next b (s.vm_next (s.b_head b)) (add64 (s.b_vctr b) 1) xs
  new =
      let o = old in
      let l = subst (λ q. IsList s.vm_next (s.vm_next q) xs) (sym o.1.0) o.1.2 in
      (o.0, l, o.2.1, o.3.1, count o.4)
    where
      count :
          s.b_vctr b + suc (length xs) ≡ block_ctr_full
          → add64 (s.b_vctr b) 1 + length xs ≡ block_ctr_full
      count e = omega (arith, e)

  blocks :
      (c : ℕ)
      → v.known c ≡ true
      → IsBlock s.vm_next c
          (upd s.b_head b (s.vm_next (s.b_head b)) c)
          (upd s.b_vctr b (add64 (s.b_vctr b) 1) c)
          (upd v.free b xs c)
  blocks =
      IsBlock-upd s.vm_next s.b_head s.b_vctr v.free v.known b (s.vm_next (s.b_head b))
        (add64 (s.b_vctr b) 1) xs (λ c ne k. valid.block c k) new

  -- A block that has free nodes now had some before.
  had_free : (c : ℕ) → upd v.free b xs c ≢ [] → v.free c ≢ []
  had_free c ne e = elim (eq-cases c b) [
    | inl q ↦ absurd (cons-ne x xs (sym free ∙ ap v.free (sym q) ∙ e))
    | inr q ↦ ne (rw (==-false c b q) e)
  ]

  -- Where the block has more free nodes, only the block changes.
  pub more_free : xs ≢ [] → IsPool (record v { free = upd v.free b xs }) (take_vma b s)
  unfolding take_vma
  more_free ne = record {
    block = blocks;
    chain = valid.chain;
    distinct = valid.distinct;
    members = λ u.
        All-map (IsMember v s.b_mpool u)
          (IsMember (record v { free = upd v.free b xs }) s.b_mpool u) (v.pool u)
          (λ c m. (m.0, m.1, upd_case v.free b xs (λ y l. l ≢ []) c (λ e. ne) (λ e. m.2)))
          (valid.members u);
    listed = λ c k some_free. valid.listed c k (had_free c some_free);
    fresh = valid.fresh;
    owner = valid.owner;
  }

  -- The first of the other blocks belongs to no other thread.
  next_out :
      (cs : List ℕ) (u : ℕ)
      → IsChain s.b_prev s.b_next (s.b_next b) cs
      → All (IsMember v s.b_mpool t) cs
      → u ≢ t
      → (s.b_next b ≡ 0) ⊎ NotIn (s.b_next b) (v.pool u)
  next_out [] u chain m ne = inl chain
  next_out (c ∷ cs) u chain m ne = inr (
      other_thread v s.b_mpool t u (s.b_next b) (v.pool u) (ap s.b_mpool chain.0 ∙ m.0.1) ne
        (valid.members u))

  -- The state behind the removal of the block.
  abbrev pub retired : Arena
  unfolding take_vma
  retired = record (take_vma b s) {
    m_head = upd s.m_head t (s.b_next b);
    b_prev = set_prev (s.b_next b) (s.b_prev b) s.b_prev;
  }

  retired-IsChain :
      (u : ℕ)
      → IsChain
          (set_prev (s.b_next b) (s.b_prev b) s.b_prev)
          s.b_next
          (upd s.m_head t (s.b_next b) u)
          (upd v.pool t bs u)
  retired-IsChain u = elim (eq-cases u t) [
    | inl e ↦
        rw (==-true u t e) (
          IsChain-pop s.b_prev s.b_next (s.m_head t) (s.b_prev b) b bs pool-IsChain pool-Distinct.1)
    | inr ne ↦
        let m = (subst (All (IsMember v s.b_mpool t)) pool (valid.members t)).1 in
        rw (==-false u t ne) (
          IsChain-prev s.b_prev s.b_next (s.b_next b) (s.b_prev b) (s.m_head u) (v.pool u)
            (valid.chain u) (next_out bs u pool-IsChain.3 m ne))
  ]

  retired-members :
      (u : ℕ) (cs : List ℕ)
      → All (IsMember v s.b_mpool u) cs
      → NotIn b cs
      → All (IsMember (without v t b xs bs) s.b_mpool u) cs
  retired-members u [] m out = tt
  retired-members u (a ∷ cs) m out = (
    (m.0.0, m.0.1, upd_case v.free b xs (λ y l. l ≢ []) a (λ e. absurd (out.0 e)) (λ e. m.0.2)),
    retired-members u cs m.1 out.1,
  )

  retired-Listed : (c : ℕ) (ys : List ℕ) → c ≢ b → ys ≡ b ∷ bs → Listed c ys → Listed c bs
  retired-Listed c ys ne e ([], zs, e') = absurd (ne (head-eq c b zs bs (sym e' ∙ e)))
    where
      head-eq : (c b : ℕ) (zs bs : List ℕ) → c ∷ zs ≡ b ∷ bs → c ≡ b
      head-eq c b zs bs e = cc
  retired-Listed c ys ne e (a ∷ ls, zs, e') = (ls, zs, tail-eq a b (ls ++ (c ∷ zs)) bs (sym e' ∙ e))
    where
      tail-eq : (a b : ℕ) (zs bs : List ℕ) → a ∷ zs ≡ b ∷ bs → bs ≡ zs
      tail-eq a b zs bs e = cc

  members_t : (u : ℕ) → u ≡ t → All (IsMember v s.b_mpool u) bs
  members_t u q =
      subst (λ y. All (IsMember v s.b_mpool y) bs) (sym q)
        (subst (All (IsMember v s.b_mpool t)) pool (valid.members t)).1

  -- Where it has none, it also leaves the pool.
  pub none_free : xs ≡ [] → IsPool (without v t b xs bs) retired
  unfolding take_vma
  none_free e = record {
    block = blocks;
    chain = retired-IsChain;
    distinct = λ u.
        upd_case v.pool t bs (λ y l. Distinct l) u (λ q. pool-Distinct.1) (λ q. valid.distinct u);
    members = λ u.
        upd_case v.pool t bs (λ y l. All (IsMember (without v t b xs bs) s.b_mpool y) l) u
          (λ q. retired-members u bs (members_t u q) pool-Distinct.0)
          (λ q.
            retired-members u (v.pool u) (valid.members u)
              (other_thread v s.b_mpool t u b (v.pool u) member.1 q (valid.members u)));
    listed = λ c k some_free.
        let ne : c ≢ b = λ q. some_free (rw (==-true c b q) e) in
        let l = valid.listed c k (had_free c some_free) in
        upd_case v.pool t bs (λ y l. Listed c l) (s.b_mpool c)
          (λ r. retired-Listed c (v.pool t) ne pool (subst (λ y. Listed c (v.pool y)) r l))
          (λ r. l);
    fresh = λ u q.
        upd_case v.pool t bs (λ y l. l ≡ []) u
          (λ r. absurd (cons-ne b bs (sym pool ∙ ap v.pool (sym r) ∙ valid.fresh u q)))
          (λ r. valid.fresh u q);
    owner = valid.owner;
  }
