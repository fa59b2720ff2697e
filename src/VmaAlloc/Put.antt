-- ===== src/VmaAlloc/Put.antt =====
-- `S_superblock_unlock_and_put` takes one superblock out of the list of superblocks.
use open_ooc.Base.{
  ℕ, zero, suc, ◌+◌, ◌≡◌, ◌≢◌, refl, true, List, [], ◌∷◌, ◌++◌, ok, ap, ◌∙◌, sym, ◌==◌, ◌||◌, not,
  ==-true, ==-false, assert, upd, add64, ◌>>◌, Bool-cases, inl, inr,
}
use open_ooc.VmaAlloc.Arena.{
  Arena, PoolSystem, get_lock, count_wait, gpool_lock, block_size, superblock_ctr_full, let_lock,
  pool_call, lock_free, sys_freed, superblock_size, superblock_lock,
}
use open_ooc.VmaAlloc.Lists.{Distinct, IsChain}
use open_ooc.VmaAlloc.Unlink.{IsChain-unlink, prev-last, last_real}
use open_ooc.VmaAlloc.Superblocks.{
  destroy_block, destroy_blocks, superblock_list_destroy, superblock_unlink,
  superblock_unlock_and_put,
}

-- The list of superblocks.
abbrev pub IsStock : Arena → List ℕ → Type 0
IsStock s xs = IsChain s.s_prev s.s_next s.g_head xs

-- The loop over the blocks leaves it alone.
destroy_blocks-IsStock :
    (superblock count block : ℕ) (s : Arena) (xs : List ℕ)
    → IsStock s xs
    → IsStock (destroy_blocks superblock count block s) xs
unfolding destroy_blocks destroy_block
destroy_blocks-IsStock superblock zero block s xs c = c
destroy_blocks-IsStock superblock (suc count) block s xs c =
    destroy_blocks-IsStock superblock count (block + block_size)
      (destroy_block superblock (count == 0) block s) xs c

-- The test by which the model of the code checks the link before a struct.
pub is_listed :
    (prev next : ℕ → ℕ) (p x : ℕ) (xs ys : List ℕ)
    → IsChain prev next p (xs ++ (x ∷ ys))
    → (p == x || not (prev x == 0)) ≡ true
is_listed prev next p x [] ys c = rw (==-true p x c.0) refl
is_listed prev next p x (a ∷ xs) ys c =
    let e = prev-last prev next p a x xs ys c in
    let ne : prev x ≢ 0 = λ q. last_real prev next p a xs (x ∷ ys) c (sym e ∙ q) in
    elim (Bool-cases (p == x)) [ inl t ↦ rw t refl | inr f ↦ rw (f, ==-false (prev x) 0 ne) refl ]

listed_locked :
    (s : Arena) (x : ℕ) (xs ys : List ℕ)
    → IsStock s (xs ++ (x ∷ ys))
    → ((get_lock gpool_lock s).g_head == x || not ((get_lock gpool_lock s).s_prev x == 0)) ≡ true
unfolding get_lock count_wait
listed_locked s x xs ys c = is_listed s.s_prev s.s_next s.g_head x xs ys c

list_destroy-IsStock :
    (x : ℕ) (s : Arena) (xs : List ℕ) → IsStock s xs → IsStock (superblock_list_destroy x s) xs
unfolding superblock_list_destroy
list_destroy-IsStock x s xs c =
    let block = x + block_size in
    destroy_blocks-IsStock x superblock_ctr_full block (record s { s_head = upd s.s_head x block })
      xs c

-- The states that the function goes through.
module _ (x : ℕ) (s : Arena) where
  abbrev pub put_unlinked : Arena
  put_unlinked =
      let s₂ = let_lock gpool_lock (superblock_unlink x (get_lock gpool_lock s)) in
      pool_call (lock_free (superblock_lock x)) (let_lock (superblock_lock x) s₂)

  abbrev pub put_counted : Arena
  put_counted =
      let s₄ = get_lock gpool_lock (superblock_list_destroy x put_unlinked) in
      let_lock gpool_lock (record s₄ {
        g_blctr = add64 s₄.g_blctr (s₄.s_blctr x);
        g_slctr = add64 s₄.g_slctr (s₄.s_lctr x);
      })

  pub unlinked-IsStock :
      (xs ys : List ℕ)
      → IsStock s (xs ++ (x ∷ ys))
      → Distinct (xs ++ (x ∷ ys))
      → IsStock put_unlinked (xs ++ ys)
  unfolding superblock_unlink get_lock count_wait
  unlinked-IsStock xs ys c d = IsChain-unlink s.s_prev s.s_next s.g_head x xs ys c d

  pub counted-IsStock : (zs : List ℕ) → IsStock put_unlinked zs → IsStock put_counted zs
  unfolding get_lock count_wait
  counted-IsStock zs c = list_destroy-IsStock x put_unlinked zs c

-- The state with the memory given back.
abbrev pub put_back : ℕ → Arena → Arena
put_back x s = pool_call (sys_freed x superblock_size) (put_counted x s)

pub put_runs :
    (sys : PoolSystem) (x : ℕ) (xs ys : List ℕ) (s : Arena)
    → IsStock s (xs ++ (x ∷ ys))
    → ((g : Arena) → sys.sys_free x g ≡ true)
    → superblock_unlock_and_put sys x s ≡ ok (put_back x s)
unfolding superblock_unlock_and_put
put_runs sys x xs ys s c frees =
    let s₅ = put_counted x s in
    ap (λ b. assert b >> (assert (sys.sys_free x s₅) >> ok (put_back x s)))
      (listed_locked s x xs ys c)
    ∙ ap (λ b. assert b >> ok (put_back x s)) (frees s₅)

-- Where the superblock stands in the list and the system takes its memory back,
-- `S_superblock_unlock_and_put` succeeds, and the list behind it is the same without the
-- superblock.
pub superblock_unlock_and_put-removes :
    (sys : PoolSystem) (x : ℕ) (xs ys : List ℕ) (s : Arena)
    → IsStock s (xs ++ (x ∷ ys))
    → Distinct (xs ++ (x ∷ ys))
    → ((g : Arena) → sys.sys_free x g ≡ true)
    → (s' : Arena) × (superblock_unlock_and_put sys x s ≡ ok s') × IsStock s' (xs ++ ys)
superblock_unlock_and_put-removes sys x xs ys s c d frees = (
  put_back x s,
  put_runs sys x xs ys s c frees,
  counted-IsStock x s (xs ++ ys) (unlinked-IsStock x s xs ys c d),
)
