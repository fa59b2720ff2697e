-- ===== src/Malloc/Insert.antt =====
-- `ooc_malloc` puts the new area into a valid tree.
use open_ooc.Base.{word, ℕ, ◌+◌, ◌%◌, ◌≤◌, ◌<◌, ◌∷◌}
use open_ooc.VmArea.{Heap}
use open_ooc.SpTree.Shape.{Tree, inorder, size, Stands}
use open_ooc.SpTree.Valid.{IsTree, NoKey}
use open_ooc.SpTree.Ops.{SpTree}
use open_ooc.Malloc.{Process, System, align, set_range, map_size, mapped, area_size}

-- The start of the data, and the end.
abbrev pub data_start : System → ℕ → ℕ
data_start sys v = (v + align sys.page area_size) % word

abbrev pub data_end : System → ℕ → ℕ → ℕ
data_end sys size v = (data_start sys v + size) % word

module _ (sys : System) (fuel lo hi n v : ℕ) (p : Process) (u : Tree)
    (valid : IsTree lo hi p.vma_tree u) (fresh : Stands v p.vma_tree.heap lo hi u p.vma_tree.root)
    (absent : NoKey p.vma_tree.heap.vm_start (data_start sys v) (inorder u)) (real : 1 < v)
    (low : lo ≤ data_start sys v) (high : data_start sys v < hi) (enough : size u ≤ fuel) where
  abbrev ranged : Heap
  ranged = set_range v (data_start sys v) (data_end sys n v) p.vma_tree.heap

  abbrev after_map : Process
  after_map = record p { map_calls = mapped v (map_size sys n) ∷ p.map_calls }
