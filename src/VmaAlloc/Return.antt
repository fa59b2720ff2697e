-- ===== src/VmaAlloc/Return.antt =====
-- `S_block_unlock_and_return`: the block goes to its superblock.
use open_ooc.Base.{
  ℕ, suc, ◌+◌, ◌-◌, ◌<◌, ◌≡◌, ◌≢◌, ◌⊎◌, inl, inr, refl, arith, true, false, List, [], ◌∷◌, ok, ◌>>◌,
  assert, upd, upd_self, sym, ◌∙◌, ap, subst, length, if-true, if-false, ==-true, ==-false, sub64,
  ◌==◌,
}
use open_ooc.VmaAlloc.Arena.{Arena, get_lock, let_lock, count_wait, gpool_lock, superblock_ctr_full}
use open_ooc.VmaAlloc.Chain.{set_prev}
use open_ooc.VmaAlloc.Lists.{All, Distinct, NotIn, IsChain, IsChain-push, IsChain-upd}
use open_ooc.VmaAlloc.Valid.{View, IsPool, IsBlock}
use open_ooc.VmaAlloc.Ops.{give_block, relist_superblock}
use open_ooc.VmaAlloc.Put.{IsStock}
use open_ooc.VmaAlloc.Adopt.{unknown_out}

-- The free blocks `bs` of the superblock `p`, which no thread holds; its counter counts the others,
-- of which there is one at least. The superblocks `ps` are listed, and `p` is not where it has no
-- free block.
pub record IsHome (v : View) (p : ℕ) (ps : List ℕ) (bs : List ℕ) (s : Arena) : Type 0 where
  pub real : p ≢ 0
  pub blocks : IsChain s.b_prev s.b_next (s.s_head p) bs
  pub unknown : All (λ c. v.known c ≡ false) bs
  pub distinct : Distinct bs
  pub count : s.s_bctr p + length bs ≡ superblock_ctr_full
  pub others : 0 < s.s_bctr p
  pub stock : IsStock s ps
  pub unlisted : bs ≡ [] → NotIn p ps
  pub stock_distinct : Distinct ps

abbrev pub relisted : ℕ → List ℕ → List ℕ → List ℕ
relisted p ps [] = p ∷ ps
relisted p ps (c ∷ bs) = ps

-- The outcome: the block has its free nodes, and is the first free one of its superblock, which is
-- listed.
pub record IsBack (v : View) (p : ℕ) (ps : List ℕ) (b : ℕ) (bs : List ℕ) (s : Arena) : Type 0 where
  pub valid : IsPool v s
  pub nodes : IsBlock s.vm_next b (s.b_head b) (s.b_vctr b) (v.free b)
  pub blocks : IsChain s.b_prev s.b_next (s.s_head p) (b ∷ bs)
  pub count : s.s_bctr p + length (b ∷ bs) ≡ superblock_ctr_full
  pub stock : IsStock s (relisted p ps bs)

module _ (v : View) (p : ℕ) (ps : List ℕ) (b : ℕ) (real : b ≢ 0) (gone : v.known b ≡ false) where
  head_unknown :
      (bs : List ℕ) (s : Arena)
      → IsHome v p ps bs s
      → (u : ℕ) (zs : List ℕ) → ((c : ℕ) → v.known c ≡ false → NotIn c zs)
      → (s.s_head p ≡ 0) ⊎ NotIn (s.s_head p) zs
  head_unknown [] s o u zs out = inl o.blocks
  head_unknown (c ∷ bs) s o u zs out = inr (out (s.s_head p) (ap v.known o.blocks.0 ∙ o.unknown.0))

  pub given-IsPool :
      (bs : List ℕ) (s : Arena) → IsPool v s → IsHome v p ps bs s → IsPool v (give_block p b s)
  unfolding give_block
  given-IsPool bs s w o = record {
    block = w.block;
    chain = λ u.
        let out : (c : ℕ) → v.known c ≡ false → NotIn c (v.pool u) =
          λ c e. unknown_out v s.b_mpool u c (v.pool u) e (w.members u) in
        IsChain-upd s.b_prev s.b_next (s.s_head p) b b (s.s_head p) (s.m_head u) (v.pool u)
          (w.chain u) (head_unknown bs s o u (v.pool u) out) (out b gone);
    distinct = w.distinct;
    members = w.members;
    listed = w.listed;
    fresh = w.fresh;
    owner = w.owner;
  }

  given_count :
      (bs : List ℕ) (s : Arena)
      → IsHome v p ps bs s
      → (give_block p b s).s_bctr p + suc (length bs) ≡ superblock_ctr_full
  unfolding give_block
  given_count bs s o =
      ap (λ n. n + suc (length bs)) (upd_self s.s_bctr p (sub64 (s.s_bctr p) 1))
      ∙ take_one (s.s_bctr p) (length bs) o.others o.count
    where
      take_one :
          (n m : ℕ) → 0 < n → n + m ≡ superblock_ctr_full → sub64 n 1 + suc m ≡ superblock_ctr_full
      take_one n m lt e = omega (arith, lt, e)

  given-IsChain :
      (bs : List ℕ) (s : Arena)
      → NotIn b bs
      → IsHome v p ps bs s
      → let s' = give_block p b s in IsChain s'.b_prev s'.b_next (s'.s_head p) (b ∷ bs)
  unfolding give_block
  given-IsChain bs s out o =
      subst
        (λ q. IsChain (set_prev (s.s_head p) b s.b_prev) (upd s.b_next b (s.s_head p)) q (b ∷ bs))
        (sym (upd_self s.s_head p b))
        (IsChain-push s.b_prev s.b_next (s.s_head p) b bs o.blocks (out, o.distinct) real)

  abbrev relinked : Arena → Arena
  relinked s = record s {
    s_next = upd s.s_next p s.g_head;
    s_prev = set_prev s.g_head p s.s_prev;
    g_head = p;
  }

  relinked-IsBack :
      (bs : List ℕ) (s : Arena)
      → IsPool v s
      → IsBlock s.vm_next b (s.b_head b) (s.b_vctr b) (v.free b)
      → IsChain s.b_prev s.b_next (s.s_head p) (b ∷ bs)
      → s.s_bctr p + suc (length bs) ≡ superblock_ctr_full
      → IsStock (relinked s) (relisted p ps bs)
      → IsBack v p ps b bs (let_lock gpool_lock (relinked (get_lock gpool_lock s)))
  unfolding get_lock count_wait
  relinked-IsBack bs s w held c n k = record {
    valid = record {
      block = w.block;
      chain = w.chain;
      distinct = w.distinct;
      members = w.members;
      listed = w.listed;
      fresh = w.fresh;
      owner = w.owner;
    };
    nodes = held;
    blocks = c;
    count = n;
    stock = k;
  }

  sixty_two :
      (s : Arena)
      → s.s_bctr p + 1 ≡ superblock_ctr_full
      → ((get_lock gpool_lock s).s_bctr p == superblock_ctr_full - 1) ≡ true
  unfolding get_lock count_wait
  sixty_two s e = ==-true (s.s_bctr p) (superblock_ctr_full - 1) (omega (arith, e))

  pub relist_superblock-IsBack :
      (bs : List ℕ) (s : Arena)
      → NotIn b bs
      → IsPool v s
      → IsBlock s.vm_next b (s.b_head b) (s.b_vctr b) (v.free b)
      → IsHome v p ps bs s
      → (s' : Arena) × (relist_superblock p b (give_block p b s) ≡ ok s') × IsBack v p ps b bs s'
  unfolding relist_superblock give_block
  relist_superblock-IsBack [] s out w held o =
      let s₃ = give_block p b s in
      let s' = let_lock gpool_lock (relinked (get_lock gpool_lock s₃)) in
      let count = given_count [] s o in
      (
        s',
        if-true (λ r. r ≡ ok s') (s₃.b_next b == 0) _ (ok s₃)
            (==-true (s₃.b_next b) 0 (upd_self s.b_next b (s.s_head p) ∙ o.blocks))
            (ap (λ c. assert c >> ok s') (sixty_two s₃ count)),
        relinked-IsBack [] s₃ (given-IsPool [] s w o) held (given-IsChain [] s out o) count (
            IsChain-push s.s_prev s.s_next s.g_head p ps o.stock (o.unlisted refl, o.stock_distinct)
              o.real),
      )
  relist_superblock-IsBack (c ∷ bs) s out w held o =
      let s₃ = give_block p b s in
      let some : s₃.b_next b ≢ 0 =
        λ e. o.blocks.1 (sym o.blocks.0 ∙ sym (upd_self s.b_next b (s.s_head p)) ∙ e) in
      (
        s₃,
        if-false (λ r. r ≡ ok s₃) (s₃.b_next b == 0) _ (ok s₃) (==-false (s₃.b_next b) 0 some) refl,
        record {
          valid = given-IsPool (c ∷ bs) s w o;
          nodes = held;
          blocks = given-IsChain (c ∷ bs) s out o;
          count = given_count (c ∷ bs) s o;
          stock = o.stock;
        },
      )
