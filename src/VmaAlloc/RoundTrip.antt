-- ===== src/VmaAlloc/RoundTrip.antt =====
-- A node that `vma_alloc` hands out and `vma_free` takes back.
use open_ooc.VmaAlloc.Lists.{All, IsList, NotIn}
use open_ooc.Base.{
  ℕ, ◌+◌, ◌<◌, ◌≡◌, arith, true, List, ◌∷◌, ok, ap, ◌∙◌, sym, subst, length, suc, ◌>>=◌, eq-cases,
  inl, inr,
}
use open_ooc.VmaAlloc.Arena.{Arena, PoolSystem, block_ctr_full}
use open_ooc.VmaAlloc.Ops.{vma_alloc, vma_free}
use open_ooc.VmaAlloc.Valid.{View, IsPool, IsMember}
use open_ooc.VmaAlloc.Alloc.{vma_alloc-Allocated}
use open_ooc.VmaAlloc.Free.{vma_free-Freed}

-- One node fewer is free, so one more is in use.
one_more :
    (free free' m n : ℕ)
    → free ≡ suc free'
    → 0 < m
    → m + free ≡ n
    → (m' : ℕ) → m' + free' ≡ n
    → 1 < m'
one_more free free' m n e pos before m' after = omega arith

-- The outcome of both calls: each block has the free nodes it had.
pub record Returned (v : View) (s' : Arena) : Type 0 where
  pub v' : View
  pub valid : IsPool v' s'
  pub free : (c : ℕ) → v'.free c ≡ v.free c
  pub known : v'.known ≡ v.known

-- Where the first block of the thread with free nodes has a node in use too, `vma_alloc` and a
-- `vma_free` of its result succeed; the invariant holds behind them, and each block has the same
-- free nodes in the same order.
pub vma_free-vma_alloc :
    (sys : PoolSystem) (t b x : ℕ) (xs bs : List ℕ) (v : View) (s : Arena)
    → IsPool v s
    → v.pool t ≡ b ∷ bs
    → v.free b ≡ x ∷ xs
    → 0 < s.b_vctr b
    → (s' : Arena) × ((vma_alloc sys t s >>= λ (s₁, y). vma_free sys y s₁) ≡ ok s') × Returned v s'
vma_free-vma_alloc sys t b x xs bs v s valid pool free pos =
    let (s₁, run₁, w) = vma_alloc-Allocated sys t b x xs bs v s valid pool free in
    let known : v.known b ≡ true =
      (subst (All (IsMember v s.b_mpool t)) pool (valid.members t)).0.0 in
    let known' : w.v'.known b ≡ true = ap (λ f. f b) w.known ∙ known in
    let before = valid.block b known in
    let after = w.valid.block b known' in
    let real = (subst (λ ys. IsList s.vm_next (s.b_head b) ys) free before.1).1 in
    let used =
      one_more (length (v.free b)) (length (w.v'.free b)) (s.b_vctr b) block_ctr_full
        (ap length w.was_free) pos before.4 (s₁.b_vctr b) after.4 in
    let (s₂, run₂, z) =
      vma_free-Freed sys x w.v' s₁ w.valid real (ap w.v'.known w.own ∙ known')
        (subst (λ c. NotIn x (w.v'.free c)) (sym w.own) w.gone)
        (subst (λ c. 1 < s₁.b_vctr c) (sym w.own) used) in
    (
      s₂,
      ap (λ r. r >>= λ (s', y). vma_free sys y s') run₁ ∙ run₂,
      record {
        v' = z.v';
        valid = z.valid;
        free = λ c. elim (eq-cases c b) [
          | inl e ↦
              ap z.v'.free e
              ∙ subst (λ d. z.v'.free d ≡ x ∷ w.v'.free d) w.own z.free_now
              ∙ sym w.was_free
              ∙ ap v.free (sym e)
          | inr ne ↦ z.others c (λ e. ne (e ∙ w.own)) ∙ w.others c ne
        ];
        known = z.known ∙ w.known;
      },
    )
