-- ===== src/Malloc.antt =====
-- `ooc_malloc` and `ooc_free` of src/malloc.c, on the tree `vma_tree`. The calls of the system are
-- parameters; a pointer has 64 bits.
pub mod Align
pub mod Insert
pub mod Failure
mod Tests
use open_ooc.Base.{
  word, ℕ, ◌+◌, sub64, ◌%◌, Bool, if◌then◌else◌, Option, none, some, List, ◌∷◌, Run, ok, ◌>>=◌,
  ◌>>◌, assert, upd, ◌-◌,
}
use open_ooc.Bits.{bit_and, bit_not}
use open_ooc.VmArea.{Heap, area_size}
use open_ooc.VmaPool.{VmaPool}
use open_ooc.SpTree.Ops.{SpTree, sp_tree_insert, sp_tree_remove, sp_tree_find_and_lock}

-- `ALIGN(M)`
pub align : ℕ → ℕ → ℕ
unfolding bit_and bit_not
align page m = bit_and 64 (sub64 ((m + page) % word) 1) (bit_not (sub64 page 1))

-- The calls of the system that change its maps: the address and the size.
pub data MapCall : Type 0 where
  mapped unmapped : ℕ → ℕ → MapCall

pub record Process : Type 0 where
  pub vma_tree : SpTree
  pub map_calls : List MapCall

-- The size of a page, `mmap` with NULL as its address, and whether the other calls succeed.
pub record System : Type 0 where
  pub page : ℕ
  pub mmap : ℕ → Process → Option ℕ
  pub mprotect : ℕ → ℕ → Process → Bool
  pub munmap : ℕ → ℕ → Process → Bool

abbrev pub set_range : ℕ → ℕ → ℕ → Heap → Heap
set_range v start end h = record h {
  vm_start = upd h.vm_start v start;
  vm_end = upd h.vm_end v end;
}

pub map_size : System → ℕ → ℕ
unfolding align
map_size sys size = (align sys.page area_size + align sys.page size) % word

-- `munmap` must succeed.
pub unmap : System → ℕ → ℕ → Process → Run Process
unmap sys v n p = do
  assert (sys.munmap v n p)
  ok (record p { map_calls = unmapped v n ∷ p.map_calls })

-- The node at the start of the new map: its range is the data behind it. `sp_tree_insert` returns
-- 0 always.
pub add_area : System → ℕ → ℕ → ℕ → Process → Run (Process × Option ℕ)
unfolding align
add_area sys fuel size v p =
    let start = (v + align sys.page area_size) % word in
    let sp = p.vma_tree in
    do
      sp₁ ←
          sp_tree_insert fuel
            (record sp { heap = set_range v start ((start + size) % word) sp.heap }) v
      ok (record p { vma_tree = sp₁ }, some start)

pub use_map : System → ℕ → ℕ → ℕ → Process → Run (Process × Option ℕ)
unfolding align map_size unmap add_area
use_map sys fuel size v p =
    let p₁ = record p { map_calls = mapped v (map_size sys size) ∷ p.map_calls } in
    if sys.mprotect v (align sys.page area_size) p₁
    then add_area sys fuel size v p₁
    else unmap sys v (map_size sys size) p₁ >>= λ p₂. ok (p₂, none)

-- The result is `none` where the code returns NULL.
pub from_map : System → ℕ → ℕ → Process → Option ℕ → Run (Process × Option ℕ)
unfolding use_map
from_map sys fuel size p none = ok (p, none)
from_map sys fuel size p (some v) = use_map sys fuel size v p

pub ooc_malloc : System → ℕ → ℕ → Process → Run (Process × Option ℕ)
unfolding map_size from_map
ooc_malloc sys fuel size p = from_map sys fuel size p (sys.mmap (map_size sys size) p)

-- The range is read from the node after `sp_tree_remove` gave it back.
pub ooc_free : System → VmaPool → ℕ → ℕ → Process → Run Process
unfolding align map_size unmap
ooc_free sys pool fuel ptr p = do
  (sp₁, v) ← sp_tree_find_and_lock fuel p.vma_tree ptr
  sp₂ ← sp_tree_remove pool fuel sp₁ (sp₁.heap.vm_start v)
  let size = (sp₂.heap.vm_end v + word - sp₂.heap.vm_start v) % word
  unmap sys v (map_size sys size) (record p { vma_tree = sp₂ })
