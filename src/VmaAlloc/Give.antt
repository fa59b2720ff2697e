-- ===== src/VmaAlloc/Give.antt =====
-- A node comes back to its block: the invariant behind that.
use open_ooc.VmaAlloc.Superblocks.{vma_2block}
use open_ooc.Base.{
  refl, ℕ, suc, ◌+◌, ◌<◌, ◌≡◌, ◌≢◌, ◌⊎◌, inl, inr, true, List, [], ◌∷◌, arith, upd, sym, ◌∙◌, ap,
  subst, ==-true, ==-false, eq-cases, length, sub64, upd_self, upd_same,
}
use open_ooc.VmaAlloc.Arena.{Arena, block_ctr_full}
use open_ooc.VmaAlloc.Chain.{set_prev}
use open_ooc.VmaAlloc.Lists.{
  All, NotIn, Distinct, IsList, IsChain, All-map, cons-ne, IsList-upd, IsChain-push, IsChain-upd,
}
use open_ooc.VmaAlloc.Valid.{
  View, IsBlock, Listed, IsMember, IsPool, IsBlock-upd, other_thread, upd_case, full_block,
}
use open_ooc.VmaAlloc.Ops.{give_vma, block_push}

module _ (x : ℕ) (v : View) (s : Arena) (valid : IsPool v s) (real : x ≢ 0)
    (known : v.known (vma_2block x) ≡ true) (used : NotIn x (v.free (vma_2block x)))
    (in_use : 0 < s.b_vctr (vma_2block x)) where
  abbrev b : ℕ
  b = vma_2block x

  abbrev t : ℕ
  t = s.b_mpool b

  abbrev xs : List ℕ
  xs = v.free b

  -- The block before.
  old : IsBlock s.vm_next b (s.b_head b) (s.b_vctr b) xs
  old = valid.block b known

  abbrev next : ℕ → ℕ
  next = upd s.vm_next x (s.b_head b)

  -- And after.
  new : IsBlock next b x (sub64 (s.b_vctr b) 1) (x ∷ xs)
  new =
      let l =
        subst (λ q. IsList next q xs) (sym (upd_self s.vm_next x (s.b_head b)))
          (IsList-upd s.vm_next x (s.b_head b) (s.b_head b) xs old.1 used) in
      (old.0, (refl, real, l), (refl, old.2), (used, old.3), count old.4)
    where
      count :
          s.b_vctr b + length xs ≡ block_ctr_full
          → sub64 (s.b_vctr b) 1 + suc (length xs) ≡ block_ctr_full
      count e = omega (arith, e, in_use)

  -- The node belongs to no other block.
  not_here : (c : ℕ) (ys : List ℕ) → c ≢ b → All (λ y. vma_2block y ≡ c) ys → NotIn x ys
  not_here c [] ne m = tt
  not_here c (y ∷ ys) ne m = ((λ e. ne (sym m.0 ∙ ap vma_2block e)), not_here c ys ne m.1)

  other : (c : ℕ) → c ≢ b → v.known c ≡ true → IsBlock next c (s.b_head c) (s.b_vctr c) (v.free c)
  other c ne k =
      let o = valid.block c k in
      let l =
        IsList-upd s.vm_next x (s.b_head b) (s.b_head c) (v.free c) o.1
          (not_here c (v.free c) ne o.2) in
      (o.0, l, o.2, o.3, o.4)

  blocks :
      (c : ℕ)
      → v.known c ≡ true
      → IsBlock next c
          (upd s.b_head b x c)
          (upd s.b_vctr b (sub64 (s.b_vctr b) 1) c)
          (upd v.free b (x ∷ xs) c)
  blocks =
      IsBlock-upd next s.b_head s.b_vctr v.free v.known b x (sub64 (s.b_vctr b) 1) (x ∷ xs) other
        new

  -- Blocks with free nodes keep some.
  still_free : (c : ℕ) → v.free c ≢ [] → upd v.free b (x ∷ xs) c ≢ []
  still_free c ne = upd_case v.free b (x ∷ xs) (λ y l. l ≢ []) c (λ e. cons-ne x xs) (λ e. ne)

  still_members :
      (pool' : ℕ → List ℕ) (u : ℕ) (ys : List ℕ)
      → All (IsMember v s.b_mpool u) ys
      → All (IsMember (record v { free = upd v.free b (x ∷ xs); pool = pool' }) s.b_mpool u) ys
  still_members pool' u ys =
      All-map (IsMember v s.b_mpool u)
        (IsMember (record v { free = upd v.free b (x ∷ xs); pool = pool' }) s.b_mpool u) ys
        (λ c m. (m.0, m.1, still_free c m.2))

  -- Where the block had free nodes, only the block changes.
  pub more_free : xs ≢ [] → IsPool (record v { free = upd v.free b (x ∷ xs) }) (give_vma b x s)
  unfolding give_vma
  more_free ne = record {
    block = blocks;
    chain = valid.chain;
    distinct = valid.distinct;
    members = λ u. still_members v.pool u (v.pool u) (valid.members u);
    listed = λ c k some_free. valid.listed c k (λ e. elim (eq-cases c b) [
      | inl q ↦ ne (ap v.free (sym q) ∙ e)
      | inr q ↦ some_free (rw (==-false c b q) e)
    ]);
    fresh = valid.fresh;
    owner = valid.owner;
  }

  -- The links behind the push of the block.
  pushed-IsChain :
      xs ≡ []
      → (u : ℕ)
      → IsChain
          (set_prev (s.m_head t) b s.b_prev)
          (upd s.b_next b (s.m_head t))
          (upd s.m_head t b u)
          (upd v.pool t (b ∷ v.pool t) u)
  pushed-IsChain none u =
      let out : (w : ℕ) → NotIn b (v.pool w) =
        λ w. full_block v s.b_mpool w b (v.pool w) none (valid.members w) in
      elim (eq-cases u t) [
        | inl e ↦ rw (==-true u t e) (
            IsChain-push s.b_prev s.b_next (s.m_head t) b (v.pool t) (valid.chain t)
              (out t, valid.distinct t) old.0)
        | inr ne ↦ rw (==-false u t ne) (
            IsChain-upd s.b_prev s.b_next (s.m_head t) b b (s.m_head t) (s.m_head u) (v.pool u)
              (valid.chain u) (head_out (v.pool t) u (valid.chain t) (valid.members t) ne) (out u))
      ]
    where
      head_out :
          (cs : List ℕ) (u : ℕ)
          → IsChain s.b_prev s.b_next (s.m_head t) cs
          → All (IsMember v s.b_mpool t) cs
          → u ≢ t
          → (s.m_head t ≡ 0) ⊎ NotIn (s.m_head t) (v.pool u)
      head_out [] u c m ne = inl c
      head_out (a ∷ cs) u c m ne = inr (
          other_thread v s.b_mpool t u (s.m_head t) (v.pool u) (ap s.b_mpool c.0 ∙ m.0.1) ne
            (valid.members u))

  abbrev pool' : ℕ → List ℕ
  pool' = upd v.pool t (b ∷ v.pool t)

  nonempty : upd v.free b (x ∷ xs) b ≢ []
  nonempty e = cons-ne x xs (sym (upd_same v.free b (x ∷ xs)) ∙ e)

  pushed-Listed : Listed b (pool' (s.b_mpool b))
  pushed-Listed = ([], v.pool t, upd_same v.pool t (b ∷ v.pool t))

  cons-Listed : (c : ℕ) (ys : List ℕ) → Listed c ys → Listed c (b ∷ ys)
  cons-Listed c ys (ls, zs, e) = (b ∷ ls, zs, ap (λ l. b ∷ l) e)

  -- Where the block had none, it goes to the front of its thread's pool.
  pub none_free :
      xs ≡ []
      → IsPool
          (record v { free = upd v.free b (x ∷ xs); pool = pool' })
          (block_push b (give_vma b x s))
  unfolding give_vma block_push
  none_free none = record {
    block = blocks;
    chain = pushed-IsChain none;
    distinct = λ u.
        upd_case v.pool t (b ∷ v.pool t) (λ y l. Distinct l) u
          (λ q. (full_block v s.b_mpool t b (v.pool t) none (valid.members t), valid.distinct t))
          (λ q. valid.distinct u);
    members = λ u.
        upd_case v.pool t (b ∷ v.pool t)
          (λ y l.
            All (IsMember (record v { free = upd v.free b (x ∷ xs); pool = pool' }) s.b_mpool y) l)
          u
          (λ q.
            subst
              (λ y.
                All (IsMember (record v { free = upd v.free b (x ∷ xs); pool = pool' }) s.b_mpool y)
                  (b ∷ v.pool t))
              (sym q) ((known, refl, nonempty), still_members pool' t (v.pool t) (valid.members t)))
          (λ q. still_members pool' u (v.pool u) (valid.members u));
    listed = λ c k some_free. elim (eq-cases c b) [
      | inl q ↦ subst (λ d. Listed d (pool' (s.b_mpool d))) (sym q) pushed-Listed
      | inr q ↦
          let l = valid.listed c k (λ e. some_free (rw (==-false c b q) e)) in
          upd_case v.pool t (b ∷ v.pool t) (λ y l. Listed c l) (s.b_mpool c)
            (λ r. cons-Listed c (v.pool t) (subst (λ y. Listed c (v.pool y)) r l)) (λ r. l)
    ];
    fresh = λ u q.
        upd_case v.pool t (b ∷ v.pool t) (λ y l. l ≡ []) u
          (λ r. absurd (valid.owner b known (ap s.m_init (sym r) ∙ q))) (λ r. valid.fresh u q);
    owner = valid.owner;
  }
