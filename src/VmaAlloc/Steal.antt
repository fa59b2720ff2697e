-- ===== src/VmaAlloc/Steal.antt =====
-- `S_block_steal_and_lock` from a superblock with free blocks.
use open_ooc.Base.{
  ℕ, suc, ◌+◌, ◌≡◌, ◌≢◌, ◌⊎◌, inl, inr, refl, arith, false, List, [], ◌∷◌, ok, ◌>>◌, assert, upd,
  upd_self, sym, ◌∙◌, ap, length, if-true, if-false, ==-true, ==-false, add64, ◌==◌, subst,
}
use open_ooc.VmaAlloc.Arena.{Arena, superblock_ctr_full}
use open_ooc.VmaAlloc.Chain.{set_prev}
use open_ooc.VmaAlloc.Lists.{All, Distinct, IsChain, IsChain-pop, NotIn}
use open_ooc.VmaAlloc.Valid.{View, IsBlock, IsPool}
use open_ooc.VmaAlloc.Ops.{take_block, retire_superblock}
use open_ooc.VmaAlloc.Put.{IsStock}
use open_ooc.VmaAlloc.Adopt.{IsPool-prev}

-- The superblocks `p` and `ps` are listed; the free blocks of `p`, which no thread holds, are `b`
-- and `bs`, and its counter counts the others.
pub record IsOffer (v : View) (p : ℕ) (ps : List ℕ) (b : ℕ) (bs : List ℕ) (s : Arena) : Type 0 where
  pub stock : IsStock s (p ∷ ps)
  pub distinct : Distinct ps
  pub blocks : IsChain s.b_prev s.b_next (s.s_head p) (b ∷ bs)
  pub blocks_distinct : Distinct (b ∷ bs)
  pub unknown : All (λ c. v.known c ≡ false) (b ∷ bs)
  pub count : s.s_bctr p + suc (length bs) ≡ superblock_ctr_full
  pub block : IsBlock s.vm_next b (s.b_head b) (s.b_vctr b) (v.free b)

-- The listed superblocks behind the loss of a block.
abbrev pub left_over : ℕ → List ℕ → List ℕ → List ℕ
left_over p ps [] = ps
left_over p ps (c ∷ bs) = p ∷ ps

-- The outcome: the block is the thread's to take, and the superblock has its other free blocks.
pub record Handed (v : View) (p : ℕ) (ps : List ℕ) (b : ℕ) (bs : List ℕ) (s s' : Arena)
    : Type 0 where
  pub valid : IsPool v s'
  pub block : IsBlock s'.vm_next b (s'.b_head b) (s'.b_vctr b) (v.free b)
  pub m_init : s'.m_init ≡ s.m_init
  pub stock : IsStock s' (left_over p ps bs)
  pub blocks : IsChain s'.b_prev s'.b_next (s'.s_head p) bs
  pub unknown : All (λ c. v.known c ≡ false) bs
  pub out : NotIn b bs
  pub count : s'.s_bctr p + length bs ≡ superblock_ctr_full

module _ (v : View) (p : ℕ) (ps : List ℕ) (b : ℕ) where
  next_unknown :
      (bs : List ℕ) (s : Arena)
      → IsOffer v p ps b bs s
      → (s.b_next b ≡ 0) ⊎ (v.known (s.b_next b) ≡ false)
  next_unknown [] s o = inl o.blocks.3
  next_unknown (c ∷ bs) s o = inr (ap v.known o.blocks.3.0 ∙ o.unknown.1.0)

  taken-IsPool :
      (bs : List ℕ) (s : Arena) → IsPool v s → IsOffer v p ps b bs s → IsPool v (take_block p b s)
  unfolding take_block
  taken-IsPool bs s valid o =
      let w = IsPool-prev v s (s.b_next b) (s.b_prev b) (next_unknown bs s o) valid in
      record {
        block = w.block;
        chain = w.chain;
        distinct = w.distinct;
        members = w.members;
        listed = w.listed;
        fresh = w.fresh;
        owner = w.owner;
      }

  taken-IsChain :
      (bs : List ℕ) (s : Arena)
      → IsOffer v p ps b bs s
      → let s' = take_block p b s in IsChain s'.b_prev s'.b_next (s'.s_head p) bs
  unfolding take_block
  taken-IsChain bs s o =
      subst (λ q. IsChain (set_prev (s.b_next b) (s.b_prev b) s.b_prev) s.b_next q bs)
        (sym (upd_self s.s_head p (s.b_next b)))
        (IsChain-pop s.b_prev s.b_next (s.s_head p) (s.b_prev b) b bs o.blocks o.blocks_distinct.1)

  taken_count :
      (bs : List ℕ) (s : Arena)
      → IsOffer v p ps b bs s
      → upd s.s_bctr p (add64 (s.s_bctr p) 1) p + length bs ≡ superblock_ctr_full
  taken_count bs s o =
      ap (λ n. n + length bs) (upd_self s.s_bctr p (add64 (s.s_bctr p) 1))
      ∙ add_one (s.s_bctr p) (length bs) o.count
    where
      add_one : (n m : ℕ) → n + suc m ≡ superblock_ctr_full → add64 n 1 + m ≡ superblock_ctr_full
      add_one n m e = omega (arith, e)

  -- The superblock keeps its place where it has more free blocks, and leaves the list else.
  pub retire_superblock-Handed :
      (bs : List ℕ) (s : Arena)
      → IsPool v s
      → IsOffer v p ps b bs s
      → (s' : Arena) × (retire_superblock p (take_block p b s) ≡ ok s') × Handed v p ps b bs s s'
  unfolding retire_superblock take_block
  retire_superblock-Handed [] s valid o =
      let s₁ = take_block p b s in
      let w = taken-IsPool [] s valid o in
      let s' = record s₁ {
        g_head = s₁.s_next p;
        s_prev = set_prev (s₁.s_next p) (s₁.s_prev p) s₁.s_prev;
      } in
      let count = taken_count [] s o in
      (
        s',
        if-true (λ r. r ≡ ok s') (s₁.s_head p == 0)
            (assert (s₁.s_bctr p == superblock_ctr_full) >> ok s') (ok s₁)
            (==-true (s₁.s_head p) 0 (upd_self s.s_head p (s.b_next b) ∙ o.blocks.3))
            (ap (λ c. assert c >> ok s')
              (==-true (s₁.s_bctr p) superblock_ctr_full (no_more (s₁.s_bctr p) count))),
        record {
          valid = record {
            block = w.block;
            chain = w.chain;
            distinct = w.distinct;
            members = w.members;
            listed = w.listed;
            fresh = w.fresh;
            owner = w.owner;
          };
          block = o.block;
          m_init = refl;
          stock = IsChain-pop s.s_prev s.s_next s.g_head (s.s_prev p) p ps o.stock o.distinct;
          blocks = taken-IsChain [] s o;
          unknown = o.unknown.1;
          out = o.blocks_distinct.0;
          count = count;
        },
      )
    where
      no_more : (n : ℕ) → n + 0 ≡ superblock_ctr_full → n ≡ superblock_ctr_full
      no_more n e = omega (arith, e)
  retire_superblock-Handed (c ∷ bs) s valid o =
      let s₁ = take_block p b s in
      let some : s₁.s_head p ≢ 0 =
        λ e. o.blocks.3.1 (sym o.blocks.3.0 ∙ sym (upd_self s.s_head p (s.b_next b)) ∙ e) in
      (
        s₁,
        if-false (λ r. r ≡ ok s₁) (s₁.s_head p == 0)
            (assert (s₁.s_bctr p == superblock_ctr_full)
              >> ok (record s₁ {
                g_head = s₁.s_next p;
                s_prev = set_prev (s₁.s_next p) (s₁.s_prev p) s₁.s_prev;
              }))
            (ok s₁) (==-false (s₁.s_head p) 0 some) refl,
        record {
          valid = taken-IsPool (c ∷ bs) s valid o;
          block = o.block;
          m_init = refl;
          stock = o.stock;
          blocks = taken-IsChain (c ∷ bs) s o;
          unknown = o.unknown.1;
          out = o.blocks_distinct.0;
          count = taken_count (c ∷ bs) s o;
        },
      )
