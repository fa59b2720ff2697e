-- ===== src/Sched/Handler.antt =====
-- `S_sigsegv_handler` of src/sched.c.
use open_ooc.Base.{
  ℕ, ◌+◌, sub64, ◌%◌, ◌/◌, ◌==◌, Bool, if◌then◌else◌, List, ◌∷◌, Run, ok, ◌>>=◌, ◌>>◌, assert, upd,
}
use open_ooc.Bits.{bit_and, bit_not}
use open_ooc.VmArea.{lock_let, area, call}
use open_ooc.SpTree.Ops.{SpTree, sp_tree_find_and_lock}

-- A call of `mprotect` that succeeded: the address, the size, and the protection.
pub data Prot : Type 0 where
  prot_read prot_read_write : Prot

pub record Protected : Type 0 where
  pub at : ℕ
  pub size : ℕ
  pub prot : Prot

-- What the handler reads and writes: the tree of areas, the size of a page `S_ps`, the fiber `S_me`
-- and the faulting address `S_addr` of each fiber.
pub record Faulting : Type 0 where
  pub vma_tree : SpTree
  pub ps : ℕ
  pub me : ℕ
  pub addr : ℕ → ℕ
  pub protected : List Protected

-- Whether `mprotect` succeeds.
abbrev pub Mprotect : Type 0
Mprotect = Protected → Faulting → Bool

-- `flags & 0x1` and `flags & 0x10`, and their settings.
abbrev pub has_read : ℕ → Bool
has_read flags = flags % 2 == 1

abbrev pub has_dirty : ℕ → Bool
has_dirty flags = flags / 16 % 2 == 1

abbrev pub set_read : ℕ → ℕ
set_read flags = if has_read flags then flags else flags + 1

abbrev pub set_dirty : ℕ → ℕ
set_dirty flags = if has_dirty flags then flags else flags + 16

-- The new flags of the area, and what the page gets. The test of the bit 0x10 before the first
-- setting leads to nothing: the asynchronous read there is not written yet.
abbrev pub new_flags : ℕ → ℕ
new_flags flags = if has_read flags then set_dirty flags else set_read flags

abbrev pub new_prot : ℕ → Prot
new_prot flags = if has_read flags then prot_read_write else prot_read

-- The page of the address: `& (~(S_ps-1))`
abbrev pub page_of : ℕ → ℕ → ℕ
page_of ps addr = bit_and 64 addr (bit_not (sub64 ps 1))

abbrev pub set_flags : ℕ → ℕ → SpTree → SpTree
set_flags vma flags sp = record sp {
  heap = record sp.heap { vm_flags = upd sp.heap.vm_flags vma flags };
}

-- The part of the handler behind the lookup.
unfoldable pub grant : Mprotect → ℕ → Faulting → Run Faulting
grant mprotect vma f =
    let flags = f.vma_tree.heap.vm_flags vma in
    let f₁ = record f { vma_tree = set_flags vma (new_flags flags) f.vma_tree } in
    let p : Protected = record {
      at = page_of f.ps (f.addr f.me);
      size = f.ps;
      prot = new_prot flags;
    } in
    do
      assert (mprotect p f₁)
      ok (record f₁ {
        protected = p ∷ f.protected;
        vma_tree = record f₁.vma_tree { heap = call (lock_let (area vma)) f₁.vma_tree.heap };
      })

unfoldable pub sigsegv_handler : Mprotect → ℕ → Faulting → Run Faulting
unfolding sp_tree_find_and_lock grant
sigsegv_handler mprotect fuel f = do
  (sp, vma) ← sp_tree_find_and_lock fuel f.vma_tree (f.addr f.me)
  grant mprotect vma (record f { vma_tree = sp })

-- `S_sigsegv_trampoline`: it notes the address and runs the handler on a stack of its own; the
-- handler switches back.
unfoldable pub sigsegv_trampoline : Mprotect → ℕ → ℕ → Faulting → Run Faulting
unfolding sigsegv_handler
sigsegv_trampoline mprotect fuel si_addr f =
    sigsegv_handler mprotect fuel (record f { addr = upd f.addr f.me si_addr })
