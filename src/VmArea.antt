-- ===== src/VmArea.antt =====
-- The store of `struct vm_area` (src/common.h): one array for each field, indexed by the address
-- of the struct, and the calls made of the locks. Address 0 is NULL.
use open_ooc.Base.{ℕ, List, ◌∷◌}

-- A lock, by the struct that holds it.
pub data LockId : Type 0 where
  tree : LockId
  area : ℕ → LockId

-- The calls of the lock interface. Each of them returns 0 in both builds of common.h.
pub data LockCall : Type 0 where
  lock_init lock_free lock_get lock_let : LockId → LockCall

pub record Heap : Type 0 where
  pub sp_p : ℕ → ℕ
  pub sp_l : ℕ → ℕ
  pub sp_r : ℕ → ℕ
  pub vm_prev : ℕ → ℕ
  pub vm_next : ℕ → ℕ
  pub vm_start : ℕ → ℕ
  pub vm_end : ℕ → ℕ
  pub vm_flags : ℕ → ℕ
  pub calls : List LockCall

-- The newest call stands first.
abbrev pub call : LockCall → Heap → Heap
call c h = record h { calls = c ∷ h.calls }

-- The address of the local variable `n` of `S_sp_tree_splay`.
abbrev pub local_n : ℕ
local_n = 1

-- `sizeof(struct vm_area)`
abbrev pub area_size : ℕ
area_size = 72
