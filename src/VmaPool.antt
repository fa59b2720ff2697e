-- ===== src/VmaPool.antt =====
-- The interface by which sp_tree.c takes nodes from vma_alloc.c and gives them back.
use open_ooc.Base.{ℕ, ◌≡◌, ◌≢◌}
use open_ooc.VmArea.{Heap}

-- `vma_alloc()` and `vma_free(vma)`, on the store of the nodes. The calls return: where an
-- assertion of vma_alloc.c may fail is told in its own model, on the arena.
pub record VmaPool : Type 0 where
  pub vma_alloc : Heap → ℕ × Heap
  pub vma_free : ℕ → Heap → Heap

-- What the tree relies on when it gives a node back: of the fields of the nodes, only `vm_next` of
-- that node changes (it links the free list). `vma_free` does so for the nodes that `vma_alloc`
-- gave, and not for one from `mmap`, whose block it does not own.
pub record FreesOne (pool : VmaPool) : Type 0 where
  pub sp_p : (a : ℕ) (h : Heap) → (pool.vma_free a h).sp_p ≡ h.sp_p
  pub sp_l : (a : ℕ) (h : Heap) → (pool.vma_free a h).sp_l ≡ h.sp_l
  pub sp_r : (a : ℕ) (h : Heap) → (pool.vma_free a h).sp_r ≡ h.sp_r
  pub vm_prev : (a : ℕ) (h : Heap) → (pool.vma_free a h).vm_prev ≡ h.vm_prev
  pub vm_start : (a : ℕ) (h : Heap) → (pool.vma_free a h).vm_start ≡ h.vm_start
  pub vm_end : (a : ℕ) (h : Heap) → (pool.vma_free a h).vm_end ≡ h.vm_end
  pub vm_flags : (a : ℕ) (h : Heap) → (pool.vma_free a h).vm_flags ≡ h.vm_flags
  pub vm_next : (a : ℕ) (h : Heap) (x : ℕ) → x ≢ a → (pool.vma_free a h).vm_next x ≡ h.vm_next x
