-- ===== src/VmaAlloc/Free.antt =====
-- `vma_free` of a node whose block keeps other nodes in use.
use open_ooc.Base.{
  ℕ, ◌-◌, ◌<◌, ◌≡◌, ◌≢◌, inl, inr, refl, true, false, List, [], ◌∷◌, arith, upd, upd_self, upd_same,
  upd_ne, sym, ◌∙◌, ap, ==-false, length, sub64, ◌==◌, ok, if-false,
}
use open_ooc.VmaAlloc.Arena.{
  Arena, PoolSystem, block_ctr_full, get_lock, let_lock, lock_let, block_lock, mpool_lock,
  count_wait,
}
use open_ooc.VmaAlloc.Superblocks.{vma_2block}
use open_ooc.VmaAlloc.Lists.{NotIn, IsList, empty-cases, cons-ne}
use open_ooc.VmaAlloc.Valid.{View, IsBlock, IsPool, IsPool-call, IsPool-get_block}
use open_ooc.VmaAlloc.Ops.{give_vma, block_push, relist_block, free_other, free_last, vma_free}
use open_ooc.VmaAlloc.Give.{more_free, none_free}

-- The outcome: the node is the first free one of its block; nothing else changes for the callers.
pub record Freed (v : View) (t b x : ℕ) (s' : Arena) : Type 0 where
  pub v' : View
  pub valid : IsPool v' s'
  pub free_now : v'.free b ≡ x ∷ v.free b
  pub others : (c : ℕ) → c ≢ b → v'.free c ≡ v.free c
  pub known : v'.known ≡ v.known
  pub threads : (u : ℕ) → u ≢ t → v'.pool u ≡ v.pool u

push-get_mpool :
    (v : View) (b t : ℕ) (g : Arena)
    → IsPool v (block_push b g)
    → IsPool v (block_push b (get_lock (mpool_lock t) g))
unfolding block_push get_lock count_wait
push-get_mpool v b t g p = record {
  block = p.block;
  chain = p.chain;
  distinct = p.distinct;
  members = p.members;
  listed = p.listed;
  fresh = p.fresh;
  owner = p.owner;
}

list_end : (next : ℕ → ℕ) (ys : List ℕ) (p : ℕ) → IsList next p ys → ys ≡ [] → p ≡ 0
list_end next [] p l e = l
list_end next (y ∷ ys) p l e = absurd (cons-ne y ys e)

list_more : (next : ℕ → ℕ) (ys : List ℕ) (p : ℕ) → IsList next p ys → ys ≢ [] → p ≢ 0
list_more next [] p l ne e = ne refl
list_more next (y ∷ ys) p l ne e = l.1 (sym l.0 ∙ e)

module _ (x : ℕ) (v : View) (s : Arena) (valid : IsPool v s) (real : x ≢ 0)
    (known : v.known (vma_2block x) ≡ true) (used : NotIn x (v.free (vma_2block x)))
    (others_used : 1 < s.b_vctr (vma_2block x)) where
  abbrev b : ℕ
  b = vma_2block x

  abbrev t : ℕ
  t = s.b_mpool b

  abbrev before : IsBlock s.vm_next b (s.b_head b) (s.b_vctr b) (v.free b)
  before = valid.block b known

  abbrev given : Arena
  given = give_vma b x s

  outcome :
      (pool' : ℕ → List ℕ) (s' : Arena)
      → IsPool (record v { free = upd v.free b (x ∷ v.free b); pool = pool' }) s'
      → ((u : ℕ) → u ≢ t → pool' u ≡ v.pool u)
      → Freed v t b x s'
  outcome pool' s' w same = record {
    v' = record v { free = upd v.free b (x ∷ v.free b); pool = pool' };
    valid = w;
    free_now = upd_same v.free b (x ∷ v.free b);
    others = λ c ne. upd_ne v.free b (x ∷ v.free b) c ne;
    known = refl;
    threads = same;
  }

  count_last : v.free b ≡ [] → sub64 (s.b_vctr b) 1 ≡ block_ctr_full - 1
  count_last e = omega (arith, before.4, ap length e)

  relist-none :
      v.free b ≡ []
      → relist_block b x given
        ≡ ok (let_lock (mpool_lock t) (block_push b (get_lock (mpool_lock t) given)))
  unfolding relist_block give_vma
  relist-none e =
      rw
        (
          upd_self s.vm_next x (s.b_head b),
          list_end s.vm_next (v.free b) (s.b_head b) before.1 e,
          upd_self s.b_vctr b (sub64 (s.b_vctr b) 1),
          count_last e,
        )
        refl

  relist-more : v.free b ≢ [] → relist_block b x given ≡ ok given
  unfolding relist_block give_vma
  relist-more ne =
      rw
        (
          upd_self s.vm_next x (s.b_head b),
          ==-false (s.b_head b) 0 (list_more s.vm_next (v.free b) (s.b_head b) before.1 ne),
        )
        refl

  free_other-Freed : (s' : Arena) × (free_other b x given ≡ ok s') × Freed v t b x s'
  unfolding free_other
  free_other-Freed = elim (empty-cases (v.free b)) [
    | inl e ↦
        let g = block_push b (get_lock (mpool_lock t) given) in
        let pool' = upd v.pool t (b ∷ v.pool t) in
        let v' : View = record v { free = upd v.free b (x ∷ v.free b); pool = pool' } in
        let w =
          push-get_mpool v' b t given
            (none_free x v s valid real known used (omega (arith, others_used)) e) in
        (
          let_lock (block_lock b) (let_lock (mpool_lock t) g),
          rw (relist-none e) refl,
          outcome pool' (let_lock (block_lock b) (let_lock (mpool_lock t) g))
              (IsPool-call v' (lock_let (block_lock b)) (let_lock (mpool_lock t) g)
                (IsPool-call v' (lock_let (mpool_lock t)) g w))
              (λ u ne. upd_ne v.pool t (b ∷ v.pool t) u ne),
        )
    | inr ne ↦
        let v' : View = record v { free = upd v.free b (x ∷ v.free b) } in
        (
          let_lock (block_lock b) given,
          rw (relist-more ne) refl,
          outcome v.pool (let_lock (block_lock b) given)
              (IsPool-call v' (lock_let (block_lock b)) given
                (more_free x v s valid real known used (omega (arith, others_used)) ne))
              (λ u ne'. refl),
        )
  ]

  count_left : ((give_vma b x s).b_vctr b == 0) ≡ false
  unfolding give_vma
  count_left =
      ==-false (upd s.b_vctr b (sub64 (s.b_vctr b) 1) b) 0
        (λ e. not_zero (sym (upd_self s.b_vctr b (sub64 (s.b_vctr b) 1)) ∙ e))
    where
      not_zero : sub64 (s.b_vctr b) 1 ≢ 0
      not_zero e = omega (arith, before.4, others_used, e)

-- For a node of a block that a thread holds, which is not free, where another node of the block is
-- in use, `vma_free` succeeds: the invariant holds behind it, this node is the first free one of
-- its block, and the free nodes of all other blocks and the pools of all other threads are as
-- before.
pub vma_free-Freed :
    (sys : PoolSystem) (x : ℕ) (v : View) (s : Arena)
    → IsPool v s
    → x ≢ 0
    → v.known (vma_2block x) ≡ true
    → NotIn x (v.free (vma_2block x))
    → 1 < s.b_vctr (vma_2block x)
    → (s' : Arena) × (vma_free sys x s ≡ ok s')
      × Freed v (s.b_mpool (vma_2block x)) (vma_2block x) x s'
unfolding vma_free
vma_free-Freed sys x v s valid real known used others_used =
    let b = vma_2block x in
    let s₁ = get_lock (block_lock b) s in
    let locked = IsPool-get_block v b s valid in
    let (s', run, w) = free_other-Freed x v s₁ locked real known used others_used in
    (
      s',
      if-false (λ r. r ≡ ok s') ((give_vma b x s₁).b_vctr b == 0)
          (free_last sys b (give_vma b x s₁)) (free_other b x (give_vma b x s₁))
          (count_left x v s₁ locked real known used others_used) run,
      w,
    )
