-- ===== src/VmaAlloc/Whole.antt =====
-- `vma_free` of the last node in use of a superblock, which goes back to the system.
use open_ooc.Base.{
  ℕ, ◌+◌, ◌≤◌, ◌<◌, ◌≡◌, ◌≢◌, refl, true, false, List, [], ◌∷◌, ◌++◌, ok, ◌>>◌, assert, upd,
  upd_same, upd_self, upd_ne, eq-cases, inl, inr, sym, ◌∙◌, ap, subst, if-true, ==-true, sub64,
  ◌==◌, if◌then◌else◌,
}
use open_ooc.VmaAlloc.Arena.{
  Arena, PoolSystem, get_lock, let_lock, lock_let, count_wait, block_lock, superblock_lock,
  superblock_size, PoolCall, sys_freed,
}
use open_ooc.VmaAlloc.Lists.{NotIn, Distinct, cons-ne}
use open_ooc.VmaAlloc.Superblocks.{vma_2block}
use open_ooc.VmaAlloc.Valid.{View, IsPool, IsPool-call}
use open_ooc.VmaAlloc.Ops.{
  give_block, return_other, return_last, block_unlock_and_return, free_last, free_other, vma_free,
  block_unlink, give_vma,
}
use open_ooc.VmaAlloc.Put.{
  IsStock, put_runs, put_counted, unlinked-IsStock, counted-IsStock, put_back,
}
use open_ooc.VmaAlloc.Return.{IsHome, given-IsPool}
use open_ooc.VmaAlloc.Release.{IsHome-get, IsPool-get}
use open_ooc.VmaAlloc.Leave.{left}
use open_ooc.VmaAlloc.Destroy.{put_counted-IsPool}
use open_ooc.VmaAlloc.Last.{
  given_node-IsPool, v₁, given, given-IsHome, given_none, out_of_pool, out-IsHome, out-IsPool,
  out_home, out_listed,
}

-- The newest call gave the memory of the superblock `p` back.
abbrev pub IsGivenBack : ℕ → Arena → Type 0
IsGivenBack p s = (earlier : List PoolCall) × (s.calls ≡ sys_freed p superblock_size ∷ earlier)

module _ (v : View) (p : ℕ) (ps : List ℕ) (b : ℕ) (bs : List ℕ) where
  abbrev returned : Arena → Arena
  returned s =
      let_lock (block_lock b)
        (let_lock (superblock_lock p) (give_block p b (get_lock (superblock_lock p) s)))

  returned-IsStock : (s : Arena) → IsStock s ps → IsStock (returned s) ps
  unfolding give_block get_lock count_wait
  returned-IsStock s c = c

  returned-IsPool :
      (s : Arena)
      → b ≢ 0
      → v.known b ≡ false
      → IsPool v s
      → IsHome v p ps bs s
      → IsPool v (returned s)
  returned-IsPool s real gone w o =
      let g = get_lock (superblock_lock p) s in
      let s₂ = give_block p b g in
      IsPool-call v (lock_let (block_lock b)) (let_lock (superblock_lock p) s₂) (
        IsPool-call v (lock_let (superblock_lock p)) s₂ (
          given-IsPool v p ps b real gone bs g (IsPool-get v p ps b bs s w)
            (IsHome-get v p ps b bs s o)))

  none_left :
      (s : Arena)
      → s.s_bctr p ≡ 1
      → ((give_block p b (get_lock (superblock_lock p) s)).s_bctr p == 0) ≡ true
  unfolding give_block get_lock count_wait
  none_left s one =
      ==-true (upd s.s_bctr p (sub64 (s.s_bctr p) 1) p) 0
        (upd_self s.s_bctr p (sub64 (s.s_bctr p) 1) ∙ ap (λ n. sub64 n 1) one)

  pub block_unlock_and_return-IsPut :
      (sys : PoolSystem) (s : Arena) (xs ys : List ℕ)
      → b ≢ 0
      → v.known b ≡ false
      → s.b_superblock b ≡ p
      → IsPool v s
      → IsHome v p ps bs s
      → s.s_bctr p ≡ 1
      → ps ≡ xs ++ (p ∷ ys)
      → ((g : Arena) → sys.sys_free p g ≡ true)
      → ((c : ℕ) → p ≤ c → c < p + superblock_size → v.known c ≡ false)
      → (s' : Arena) × (block_unlock_and_return sys b s ≡ ok s')
        × IsPool v s'
        × IsStock s' (xs ++ ys)
        × IsGivenBack p s'
  unfolding block_unlock_and_return return_last
  block_unlock_and_return-IsPut sys s xs ys real gone home w o one at frees unknown =
      let s₂ : Arena = give_block p b (get_lock (superblock_lock p) s) in
      let s₃ : Arena = returned s in
      let s' : Arena = put_back p s₃ in
      let c : IsStock s₃ (xs ++ (p ∷ ys)) = subst (IsStock s₃) at (returned-IsStock s o.stock) in
      (
        s',
        ap
              (λ q.
                if (give_block q b (get_lock (superblock_lock q) s)).s_bctr q == 0
                then return_last sys q b (give_block q b (get_lock (superblock_lock q) s))
                else return_other q b (give_block q b (get_lock (superblock_lock q) s)))
              home
            ∙ if-true (λ r. r ≡ ok s') (s₂.s_bctr p == 0) (return_last sys p b s₂)
                (return_other p b s₂) (none_left s one) (put_runs sys p xs ys s₃ c frees),
        IsPool-call v (sys_freed p superblock_size) (put_counted p s₃)
            (put_counted-IsPool v p s₃ unknown (returned-IsPool s real gone w o)),
        counted-IsStock p s₃ (xs ++ ys)
            (unlinked-IsStock p s₃ xs ys c (subst Distinct at o.stock_distinct)),
        ((put_counted p s₃).calls, refl),
      )

module _ (v : View) (b : ℕ) (ps bs : List ℕ) (s : Arena) (valid : IsPool v s)
    (known : v.known b ≡ true) (home : IsHome v (s.b_superblock b) ps bs s) (ys zs : List ℕ)
    (pool : v.pool (s.b_mpool b) ≡ ys ++ (b ∷ zs)) where
  abbrev p : ℕ
  p = s.b_superblock b

  abbrev out : Arena
  out = out_of_pool v b ps bs s valid known home ys zs pool

  abbrev without : View
  without = left v (s.b_mpool b) b (ys ++ zs)

  still_one : s.s_bctr p ≡ 1 → out.s_bctr p ≡ 1
  unfolding block_unlink get_lock count_wait
  still_one one = one

  all_unknown :
      ((c : ℕ) → p ≤ c → c < p + superblock_size → c ≢ b → v.known c ≡ false)
      → (c : ℕ) → p ≤ c
      → c < p + superblock_size
      → upd v.known b false c ≡ false
  all_unknown unknown c lo hi = elim (eq-cases c b) [
    | inl e ↦ ap (upd v.known b false) e ∙ upd_same v.known b false
    | inr ne ↦ upd_ne v.known b false c ne ∙ unknown c lo hi ne
  ]

  pub free_last-IsPut :
      (sys : PoolSystem) (xs us : List ℕ)
      → b ≢ 0
      → s.s_bctr p ≡ 1
      → ps ≡ xs ++ (p ∷ us)
      → ((g : Arena) → sys.sys_free p g ≡ true)
      → ((c : ℕ) → p ≤ c → c < p + superblock_size → c ≢ b → v.known c ≡ false)
      → (s' : Arena) × (free_last sys b s ≡ ok s')
        × IsPool without s'
        × IsStock s' (xs ++ us)
        × IsGivenBack p s'
  unfolding free_last
  free_last-IsPut sys xs us real one at frees unknown =
      let (s', run, w, c, back) =
        block_unlock_and_return-IsPut without p ps b bs sys out xs us real
          (upd_same v.known b false) (out_home v b ps bs s valid known home ys zs pool)
          (out-IsPool v b ps bs s valid known home ys zs pool)
          (out-IsHome v b ps bs s valid known home ys zs pool) (still_one one) at frees
          (all_unknown unknown) in
      (
        s',
        ap (λ c. assert c >> block_unlock_and_return sys b out)
              (out_listed v b ps bs s valid known home ys zs pool)
            ∙ run,
        w,
        c,
        back,
      )

-- The outcome: the block of the node `x` and its superblock `p` are gone, the memory of `p` went
-- back to the system as a whole, by the newest call, and the superblocks `ps` are
-- left; nothing else changes for the callers.
pub record Emptied (v : View) (t p : ℕ) (ps : List ℕ) (x : ℕ) (s' : Arena) : Type 0 where
  pub v' : View
  pub valid : IsPool v' s'
  pub stock : IsStock s' ps
  pub memory : IsGivenBack p s'
  pub known : v'.known ≡ upd v.known (vma_2block x) false
  pub free : (c : ℕ) → c ≢ vma_2block x → v'.free c ≡ v.free c
  pub threads : (u : ℕ) → u ≢ t → v'.pool u ≡ v.pool u

-- For a node of a block that a thread holds, which is not free and the only one of the block in
-- use, where the block is the only one of its superblock in use, the superblock is listed, no other
-- block within it is held by a thread, and the system takes its memory back, `vma_free` succeeds:
-- the block leaves the thread's pool, the superblock the list, its memory is given back, the
-- invariant of the blocks and the
-- pools holds behind it, and all other blocks and the other threads' pools are as before.
pub vma_free-Emptied :
    (sys : PoolSystem) (x : ℕ) (v : View) (ps bs xs us : List ℕ) (s : Arena)
    → IsPool v s
    → x ≢ 0
    → v.known (vma_2block x) ≡ true
    → NotIn x (v.free (vma_2block x))
    → s.b_vctr (vma_2block x) ≡ 1
    → IsHome v (s.b_superblock (vma_2block x)) ps bs s
    → s.s_bctr (s.b_superblock (vma_2block x)) ≡ 1
    → ps ≡ xs ++ (s.b_superblock (vma_2block x) ∷ us)
    → ((g : Arena) → sys.sys_free (s.b_superblock (vma_2block x)) g ≡ true)
    → ((c : ℕ)
        → s.b_superblock (vma_2block x) ≤ c
        → c < s.b_superblock (vma_2block x) + superblock_size
        → c ≢ vma_2block x
        → v.known c ≡ false)
    → (s' : Arena) × (vma_free sys x s ≡ ok s')
      × Emptied v (s.b_mpool (vma_2block x)) (s.b_superblock (vma_2block x)) (xs ++ us) x s'
unfolding vma_free give_vma get_lock count_wait
vma_free-Emptied sys x v ps bs xs us s valid real known used one home last at frees unknown =
    let b = vma_2block x in
    let g = given x v ps bs s in
    let w = given_node-IsPool x v ps bs s valid real known used one in
    let some : upd v.free b (x ∷ v.free b) b ≢ [] =
      λ e. cons-ne x (v.free b) (sym (upd_same v.free b (x ∷ v.free b)) ∙ e) in
    let (ys, zs, e) = w.listed b known some in
    let (s', run, valid', stock, back) =
      free_last-IsPut (v₁ x v ps bs s) b ps bs g w known (given-IsHome x v ps bs s home) ys zs e sys
        xs us (valid.block b known).0 last at frees unknown in
    (
      s',
      if-true (λ r. r ≡ ok s') (g.b_vctr b == 0) (free_last sys b g) (free_other b x g)
          (given_none x v ps bs s one) run,
      record {
        v' = left (v₁ x v ps bs s) (g.b_mpool b) b (ys ++ zs);
        valid = valid';
        stock = stock;
        memory = back;
        known = refl;
        free = λ c ne. upd_ne v.free b (x ∷ v.free b) c ne;
        threads = λ u ne. upd_ne v.pool (g.b_mpool b) (ys ++ zs) u ne;
      },
    )
