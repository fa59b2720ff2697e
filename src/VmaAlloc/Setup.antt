-- ===== src/VmaAlloc/Setup.antt =====
-- What `S_superblock_list_setup` makes: the list of blocks, each with its list of nodes.
use open_ooc.Base.{
  ℕ, zero, suc, ◌+◌, ◌%◌, ◌<◌, ◌≤◌, ◌≡◌, refl, arith, true, false, Bool, List, [], ◌∷◌, upd, upd_ne,
  upd_self, sym, ◌∙◌, ap, subst, if◌then◌else◌, ◌≢◌, ◌==◌, ==-false,
}
use open_ooc.VmaAlloc.Arena.{Arena, block_size, block_header}
use open_ooc.VmaAlloc.Lists.{All, All-map, Distinct, IsList, IsChain, IsList-frame}
use open_ooc.VmaAlloc.Superblocks.{vma_2block, setup_block, setup_blocks, superblock_list_setup}
use open_ooc.VmaAlloc.Nodes.{
  nodes, nodes_below, nodes-Distinct, nodes_own, setup_vmas-below, setup_vmas-IsList,
}

-- `count` blocks from `block` on.
unfoldable pub blocks : ℕ → ℕ → List ℕ
blocks zero block = []
blocks (suc count) block = block ∷ blocks count (block + block_size)

-- A block of the superblock `p` with all of its nodes free.
abbrev pub IsNew : ℕ → Arena → ℕ → Type 0
IsNew p s b =
    (s.b_superblock b ≡ p)
    × (s.b_vctr b ≡ 0)
    × IsList s.vm_next (s.b_head b) (nodes 55 (b + 64))
    × All (λ x. vma_2block x ≡ b) (nodes 55 (b + 64))
    × Distinct (nodes 55 (b + 64))

-- What is left alone below the address `m`, of the back links up to it.
record Below (m : ℕ) (s s' : Arena) : Type 0 where
  b_next : (x : ℕ) → x < m → s'.b_next x ≡ s.b_next x
  b_prev : (x : ℕ) → x ≤ m → s'.b_prev x ≡ s.b_prev x
  b_head : (x : ℕ) → x < m → s'.b_head x ≡ s.b_head x
  b_vctr : (x : ℕ) → x < m → s'.b_vctr x ≡ s.b_vctr x
  b_superblock : (x : ℕ) → x < m → s'.b_superblock x ≡ s.b_superblock x
  vm_next : (x : ℕ) → x < m → s'.vm_next x ≡ s.vm_next x
  s_head : s'.s_head ≡ s.s_head

other : (x b : ℕ) → x < b → x ≢ b
other x b lt e = absurd (omega (arith, lt, e))

block_prev :
    (p block x : ℕ) (is_last : Bool) (s : Arena)
    → x ≤ block
    → (setup_block p is_last block s).b_prev x ≡ s.b_prev x
unfolding setup_block
block_prev p block x true s le = refl
block_prev p block x false s le =
    upd_ne s.b_prev (block + block_size) block x (other x (block + block_size) (omega arith))

setup_block-Below :
    (p block : ℕ) (is_last : Bool) (s : Arena) → Below block s (setup_block p is_last block s)
unfolding setup_block
setup_block-Below p block is_last s = record {
  b_next = λ x lt.
      upd_ne s.b_next block (if is_last then 0 else block + block_size) x (other x block lt);
  b_prev = λ x le. block_prev p block x is_last s le;
  b_head = λ x lt. upd_ne s.b_head block (block + block_header) x (other x block lt);
  b_vctr = λ x lt. upd_ne s.b_vctr block 0 x (other x block lt);
  b_superblock = λ x lt. upd_ne s.b_superblock block p x (other x block lt);
  vm_next = λ x lt. setup_vmas-below 55 (block + block_header) x s.vm_next (omega arith);
  s_head = refl;
}

setup_blocks-Below : (p count block : ℕ) (s : Arena) → Below block s (setup_blocks p count block s)
unfolding setup_blocks
setup_blocks-Below p zero block s = record {
  b_next = λ x lt. refl;
  b_prev = λ x le. refl;
  b_head = λ x lt. refl;
  b_vctr = λ x lt. refl;
  b_superblock = λ x lt. refl;
  vm_next = λ x lt. refl;
  s_head = refl;
}
setup_blocks-Below p (suc count) block s =
    let s₁ = setup_block p (count == 0) block s in
    let w = setup_block-Below p block (count == 0) s in
    let z = setup_blocks-Below p count (block + block_size) s₁ in
    record {
      b_next = λ x lt. z.b_next x (omega arith) ∙ w.b_next x lt;
      b_prev = λ x le. z.b_prev x (omega arith) ∙ w.b_prev x le;
      b_head = λ x lt. z.b_head x (omega arith) ∙ w.b_head x lt;
      b_vctr = λ x lt. z.b_vctr x (omega arith) ∙ w.b_vctr x lt;
      b_superblock = λ x lt. z.b_superblock x (omega arith) ∙ w.b_superblock x lt;
      vm_next = λ x lt. z.vm_next x (omega arith) ∙ w.vm_next x lt;
      s_head = z.s_head ∙ w.s_head;
    }

-- The list of blocks.
abbrev IsBlocks : ℕ → ℕ → Arena → Type 0
IsBlocks count block s = IsChain s.b_prev s.b_next block (blocks count block)

-- One block in front of others.
setup_block-IsBlocks :
    (p count block : ℕ) (s : Arena)
    → 0 < block
    → let n = block + block_size in
      let s₁ = setup_block p false block s in
      let s₂ = setup_blocks p (suc count) n s₁ in
      IsBlocks (suc count) n s₂ → IsBlocks (suc (suc count)) block s₂
unfolding blocks setup_block
setup_block-IsBlocks p count block s real c =
    let n = block + block_size in
    let s₁ = setup_block p false block s in
    let s₂ = setup_blocks p (suc count) n s₁ in
    let w = setup_blocks-Below p (suc count) n s₁ in
    (
      refl,
      (λ e. absurd (omega (arith, real, e))),
      w.b_prev n (omega arith) ∙ upd_self s.b_prev n block,
      subst (λ q. IsChain s₂.b_prev s₂.b_next q (blocks (suc count) n))
          (sym (w.b_next block (omega arith) ∙ upd_self s.b_next block n)) c,
    )

last_block-IsBlocks :
    (p block : ℕ) (s : Arena) → 0 < block → IsBlocks 1 block (setup_block p true block s)
unfolding blocks setup_block
last_block-IsBlocks p block s real =
    (refl, (λ e. absurd (omega (arith, real, e))), tt, upd_self s.b_next block 0)

setup_blocks-IsBlocks :
    (p count block : ℕ) (s : Arena)
    → 0 < block
    → IsBlocks (suc count) block (setup_blocks p (suc count) block s)
unfolding setup_blocks
setup_blocks-IsBlocks p zero block s real = last_block-IsBlocks p block s real
setup_blocks-IsBlocks p (suc count) block s real =
    let n = block + block_size in
    subst
      (λ b.
        IsBlocks (suc (suc count)) block (setup_blocks p (suc count) n (setup_block p b block s)))
      (sym (==-false (suc count) 0 (λ e. absurd (omega (arith, e)))))
      (setup_block-IsBlocks p count block s real
        (setup_blocks-IsBlocks p count n (setup_block p false block s) (omega arith)))

-- One block behind its pass, and behind the later ones.
setup_block-IsNew :
    (p block : ℕ) (is_last : Bool) (s : Arena)
    → 0 < block
    → block % 4096 ≡ 0
    → IsNew p (setup_block p is_last block s) block
unfolding setup_block
setup_block-IsNew p block is_last s real aligned = (
  upd_self s.b_superblock block p,
  upd_self s.b_vctr block 0,
  subst (λ q. IsList (setup_block p is_last block s).vm_next q (nodes 55 (block + 64)))
      (sym (upd_self s.b_head block (block + 64)))
      (setup_vmas-IsList 55 (block + 64) s.vm_next (omega arith)),
  nodes_own block 55 (block + 64) aligned (omega arith) (omega arith),
  nodes-Distinct 55 (block + 64),
)

IsNew-Below :
    (p m block : ℕ) (s s' : Arena)
    → block + 4096 ≤ m
    → Below m s s'
    → IsNew p s block
    → IsNew p s' block
IsNew-Below p m block s s' le w (a, c, l, o, d) = (
  w.b_superblock block (omega arith) ∙ a,
  w.b_vctr block (omega arith) ∙ c,
  subst (λ q. IsList s'.vm_next q (nodes 55 (block + 64))) (sym (w.b_head block (omega arith)))
      (IsList-frame s.vm_next s'.vm_next (s.b_head block) (nodes 55 (block + 64)) l (
        All-map (λ x. x < m) (λ x. s'.vm_next x ≡ s.vm_next x) (nodes 55 (block + 64)) w.vm_next
          (nodes_below 55 (block + 64) m (omega arith)))),
  o,
  d,
)

setup_blocks-IsNew :
    (p count block : ℕ) (s : Arena)
    → 0 < block
    → block % 4096 ≡ 0
    → All (IsNew p (setup_blocks p count block s)) (blocks count block)
unfolding setup_blocks blocks
setup_blocks-IsNew p zero block s real aligned = tt
setup_blocks-IsNew p (suc count) block s real aligned =
    let n = block + block_size in
    let s₁ = setup_block p (count == 0) block s in
    (
      IsNew-Below p n block s₁ (setup_blocks p count n s₁) (omega arith)
          (setup_blocks-Below p count n s₁) (setup_block-IsNew p block (count == 0) s real aligned),
      setup_blocks-IsNew p count n s₁ (omega arith) (omega arith),
    )

-- For a superblock at a multiple of the size of a block, `S_superblock_list_setup` makes the list
-- of its 63 blocks, the first one behind the superblock's header; each block has the superblock's
-- address, no node in use, and a list of 56 free nodes, which are distinct and lie in the block.
pub superblock_list_setup-IsNew :
    (p : ℕ) (s : Arena)
    → p % 4096 ≡ 0
    → let s' = superblock_list_setup p s in
      (s'.s_head p ≡ p + 4096)
      × IsChain s'.b_prev s'.b_next (p + 4096) (blocks 63 (p + 4096))
      × All (IsNew p s') (blocks 63 (p + 4096))
unfolding superblock_list_setup
superblock_list_setup-IsNew p s aligned =
    let b = p + 4096 in
    let s₀ = record s { s_head = upd s.s_head p b; b_prev = upd s.b_prev b 0 } in
    (
      ap (λ f. f p) (setup_blocks-Below p 63 b s₀).s_head ∙ upd_self s.s_head p b,
      setup_blocks-IsBlocks p 62 b s₀ (omega arith),
      setup_blocks-IsNew p 63 b s₀ (omega arith) (omega arith),
    )
