-- ===== src/VmaAlloc/Apart.antt =====
-- What `S_superblock_list_setup` leaves alone: all memory apart from the superblock.
use open_ooc.Base.{
  ℕ, zero, suc, ◌+◌, ◌*◌, ◌≤◌, ◌<◌, ◌≡◌, ◌≢◌, ◌⊎◌, inl, inr, refl, arith, upd, upd_ne, ◌∙◌,
  eq-cases, ==-true, ==-false, ◌==◌, if◌then◌else◌,
}
use open_ooc.VmaAlloc.Arena.{Arena, block_size, block_header}
use open_ooc.VmaAlloc.Superblocks.{setup_vmas, setup_block, setup_blocks}

-- The address `x` is not from `lo` on below `hi`.
abbrev pub IsApart : ℕ → ℕ → ℕ → Type 0
IsApart lo hi x = (x < lo) ⊎ (hi ≤ x)

pub IsApart-ne : (lo hi x a : ℕ) → lo ≤ a → a < hi → IsApart lo hi x → x ≢ a
IsApart-ne lo hi x a le lt (inl l) e = absurd (omega (arith, le, l, e))
IsApart-ne lo hi x a le lt (inr l) e = absurd (omega (arith, lt, l, e))

pub IsApart-in : (lo hi lo' hi' x : ℕ) → lo ≤ lo' → hi' ≤ hi → IsApart lo hi x → IsApart lo' hi' x
IsApart-in lo hi lo' hi' x le le' (inl l) = inl (omega (arith, le, l))
IsApart-in lo hi lo' hi' x le le' (inr l) = inr (omega (arith, le', l))

setup_vmas-IsApart :
    (count vma x : ℕ) (next : ℕ → ℕ)
    → IsApart vma (vma + suc count * 72) x
    → setup_vmas count vma next x ≡ next x
unfolding setup_vmas
setup_vmas-IsApart zero vma x next out =
    upd_ne next vma 0 x (IsApart-ne vma (vma + 1 * 72) x vma (omega arith) (omega arith) out)
setup_vmas-IsApart (suc count) vma x next out =
    let hi = vma + suc (suc count) * 72 in
    setup_vmas-IsApart count (vma + 72) x (upd next vma (vma + 72))
      (IsApart-in vma hi (vma + 72) (vma + 72 + suc count * 72) x (omega arith) (omega arith) out)
    ∙ upd_ne next vma (vma + 72) x (IsApart-ne vma hi x vma (omega arith) (omega arith) out)

-- The fields of blocks and nodes apart from there are as before, and so is all that is no block's.
pub record Apart (lo hi : ℕ) (s s' : Arena) : Type 0 where
  pub b_next : (x : ℕ) → IsApart lo hi x → s'.b_next x ≡ s.b_next x
  pub b_prev : (x : ℕ) → IsApart lo hi x → s'.b_prev x ≡ s.b_prev x
  pub b_head : (x : ℕ) → IsApart lo hi x → s'.b_head x ≡ s.b_head x
  pub b_vctr : (x : ℕ) → IsApart lo hi x → s'.b_vctr x ≡ s.b_vctr x
  pub vm_next : (x : ℕ) → IsApart lo hi x → s'.vm_next x ≡ s.vm_next x
  pub b_mpool : s'.b_mpool ≡ s.b_mpool
  pub m_head : s'.m_head ≡ s.m_head
  pub m_init : s'.m_init ≡ s.m_init
  pub s_prev : s'.s_prev ≡ s.s_prev
  pub s_next : s'.s_next ≡ s.s_next
  pub s_bctr : s'.s_bctr ≡ s.s_bctr
  pub g_head : s'.g_head ≡ s.g_head

block_prev :
    (p block count x : ℕ) (s : Arena)
    → IsApart block (block + suc count * 4096) x
    → (setup_block p (count == 0) block s).b_prev x ≡ s.b_prev x
unfolding setup_block
block_prev p block count x s out = elim (eq-cases count 0) [
  | inl e ↦ rw (==-true count 0 e) refl
  | inr ne ↦ rw (==-false count 0 ne) (
      upd_ne s.b_prev (block + block_size) block x (
        IsApart-ne block (block + suc count * 4096) x (block + 4096) (omega arith) (omega arith)
          out))
]

setup_block-Apart :
    (p block count : ℕ) (s : Arena)
    → Apart block (block + suc count * 4096) s (setup_block p (count == 0) block s)
unfolding setup_block
setup_block-Apart p block count s =
    let hi = block + suc count * 4096 in
    let ne : (x : ℕ) → IsApart block hi x → x ≢ block =
      λ x out. IsApart-ne block hi x block (omega arith) (omega arith) out in
    record {
      b_next = λ x out.
          upd_ne s.b_next block (if count == 0 then 0 else block + block_size) x (ne x out);
      b_prev = λ x out. block_prev p block count x s out;
      b_head = λ x out. upd_ne s.b_head block (block + block_header) x (ne x out);
      b_vctr = λ x out. upd_ne s.b_vctr block 0 x (ne x out);
      vm_next = λ x out. setup_vmas-IsApart 55 (block + block_header) x s.vm_next (
          IsApart-in block hi (block + 64) (block + 64 + 56 * 72) x (omega arith) (omega arith)
            out);
      b_mpool = refl;
      m_head = refl;
      m_init = refl;
      s_prev = refl;
      s_next = refl;
      s_bctr = refl;
      g_head = refl;
    }

pub setup_blocks-Apart :
    (p count block : ℕ) (s : Arena)
    → Apart block (block + count * 4096) s (setup_blocks p count block s)
unfolding setup_blocks
setup_blocks-Apart p zero block s = record {
  b_next = λ x out. refl;
  b_prev = λ x out. refl;
  b_head = λ x out. refl;
  b_vctr = λ x out. refl;
  vm_next = λ x out. refl;
  b_mpool = refl;
  m_head = refl;
  m_init = refl;
  s_prev = refl;
  s_next = refl;
  s_bctr = refl;
  g_head = refl;
}
setup_blocks-Apart p (suc count) block s =
    let s₁ = setup_block p (count == 0) block s in
    let n = block + block_size in
    let w = setup_block-Apart p block count s in
    let z = setup_blocks-Apart p count n s₁ in
    let later : (x : ℕ)
        → IsApart block (block + suc count * 4096) x
        → IsApart n (n + count * 4096) x =
      λ x out.
        IsApart-in block (block + suc count * 4096) n (n + count * 4096) x (omega arith)
          (omega arith) out in
    record {
      b_next = λ x out. z.b_next x (later x out) ∙ w.b_next x out;
      b_prev = λ x out. z.b_prev x (later x out) ∙ w.b_prev x out;
      b_head = λ x out. z.b_head x (later x out) ∙ w.b_head x out;
      b_vctr = λ x out. z.b_vctr x (later x out) ∙ w.b_vctr x out;
      vm_next = λ x out. z.vm_next x (later x out) ∙ w.vm_next x out;
      b_mpool = z.b_mpool ∙ w.b_mpool;
      m_head = z.m_head ∙ w.m_head;
      m_init = z.m_init ∙ w.m_init;
      s_prev = z.s_prev ∙ w.s_prev;
      s_next = z.s_next ∙ w.s_next;
      s_bctr = z.s_bctr ∙ w.s_bctr;
      g_head = z.g_head ∙ w.g_head;
    }
