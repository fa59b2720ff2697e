-- ===== src/SpTree/FindMod.antt =====
-- `sp_tree_find_mod_and_lock` of src/sp_tree.c: the page at an address gets a node, or one more
-- permission, by splits and merges. `page` is OOC_PAGE_SIZE, which the system sets.
use open_ooc.Base.{ℕ, ◌+◌, ◌&&◌, ◌==◌, if◌then◌else◌, Run, ok, ◌>>=◌, ◌>>◌, assert, not, some, none}
use open_ooc.VmArea.{Heap}
use open_ooc.VmaPool.{VmaPool}
use open_ooc.SpTree.{splay, call, lock_get, tree, lock_let, area}
use open_ooc.SpTree.Ops.{SpTree, with_root, insert_helper}
use open_ooc.SpTree.Merge.{
  vm_prot_read, vm_prot_promote, set_start, set_end, new_node, drop_node, covering, prev_fits,
  next_fits, into_next, merge_prev, merge_next,
}

-- No node has the page: a new one is inserted above the root `t` of the splayed tree, and merged
-- with its neighbours.
unfoldable pub add_page : VmaPool → ℕ → ℕ → ℕ → ℕ → SpTree → Run (SpTree × ℕ)
unfolding new_node insert_helper merge_prev merge_next
add_page pool page fuel vm_addr t sp = do
  (h₁, z) ← new_node pool vm_addr (vm_addr + page) (some vm_prot_read) sp.heap
  sp₁ ← insert_helper (with_root h₁ sp.root) t z
  (sp₂, n) ← merge_prev pool fuel (sp₁.heap.vm_flags z) z sp₁
  merge_next pool fuel (sp₂.heap.vm_flags n) n sp₂

-- The page is in the middle of the range of `n`.
unfoldable pub split_middle : VmaPool → ℕ → ℕ → ℕ → SpTree → Run (SpTree × ℕ)
unfolding new_node insert_helper
split_middle pool page vm_addr n sp = do
  (h₁, z) ←
      new_node pool vm_addr (vm_addr + page) (some (vm_prot_promote (sp.heap.vm_flags n))) sp.heap
  (h₂, t) ← new_node pool (h₁.vm_end z) (h₁.vm_end n) (some (h₁.vm_flags n)) h₁
  sp₁ ← insert_helper (with_root (set_end n (h₂.vm_start z) h₂) sp.root) sp.root t
  sp₂ ← insert_helper sp₁ sp₁.root z
  ok (sp₂, z)

-- The splay behind a migration: the neighbour `m` comes to the root.
unfoldable pub resplay : ℕ → ℕ → ℕ → Heap → Run (SpTree × ℕ)
unfolding splay
resplay fuel m t h = do (h₁, n) ← splay fuel (h.vm_start m) t h; ok (with_root h₁ n, n)

-- The page is the first of more pages of `n`. The test for a single page is in the source, too.
unfoldable pub migrate_prev : VmaPool → ℕ → ℕ → ℕ → ℕ → ℕ → SpTree → Run (SpTree × ℕ)
unfolding drop_node resplay
migrate_prev pool page fuel vm_addr t n sp =
    let prev = sp.heap.vm_prev n in
    do
      sp₁ ←
          if vm_addr + page == sp.heap.vm_end n
          then drop_node pool fuel n sp
          else ok (record sp { heap = set_start n (vm_addr + page) sp.heap })
      resplay fuel prev t (set_end prev (vm_addr + page) sp₁.heap)

unfoldable pub split_first : VmaPool → ℕ → ℕ → ℕ → SpTree → Run (SpTree × ℕ)
unfolding new_node insert_helper
split_first pool page vm_addr n sp = do
  (h₁, z) ← new_node pool vm_addr (vm_addr + page) none sp.heap
  sp₁ ← insert_helper (with_root (set_start n (h₁.vm_end z) h₁) sp.root) sp.root z
  ok (sp₁, z)

unfoldable pub take_first : VmaPool → ℕ → ℕ → ℕ → ℕ → ℕ → SpTree → Run (SpTree × ℕ)
unfolding migrate_prev split_first
take_first pool page fuel vm_addr t n sp =
    if prev_fits n (vm_prot_promote (sp.heap.vm_flags n)) sp.heap
    then migrate_prev pool page fuel vm_addr t n sp
    else split_first pool page vm_addr n sp

-- The page is the last of more pages of `n`.
unfoldable pub migrate_next : VmaPool → ℕ → ℕ → ℕ → ℕ → SpTree → Run (SpTree × ℕ)
unfolding drop_node resplay
migrate_next pool fuel vm_addr t n sp =
    let next = sp.heap.vm_next n in
    do
      sp₁ ←
          if vm_addr == sp.heap.vm_start n
          then drop_node pool fuel n sp
          else ok (record sp { heap = set_end n vm_addr sp.heap })
      resplay fuel next t (set_start next vm_addr sp₁.heap)

unfoldable pub split_last : VmaPool → ℕ → ℕ → ℕ → SpTree → Run (SpTree × ℕ)
unfolding new_node insert_helper
split_last pool page vm_addr n sp = do
  (h₁, z) ← new_node pool vm_addr (vm_addr + page) none sp.heap
  sp₁ ← insert_helper (with_root (set_end n (h₁.vm_start z) h₁) sp.root) sp.root z
  ok (sp₁, z)

unfoldable pub take_last : VmaPool → ℕ → ℕ → ℕ → ℕ → ℕ → SpTree → Run (SpTree × ℕ)
unfolding migrate_next split_last
take_last pool page fuel vm_addr t n sp =
    if next_fits n (vm_prot_promote (sp.heap.vm_flags n)) sp.heap
    then migrate_next pool fuel vm_addr t n sp
    else split_last pool page vm_addr n sp

-- The second merge where the page is all of `m`: the test reads the flags of the node before `m`.
unfoldable pub merge_checked : VmaPool → ℕ → ℕ → SpTree → Run (SpTree × ℕ)
unfolding into_next
merge_checked pool fuel m sp =
    let prev = sp.heap.vm_prev m in
    do
      assert (not (prev == 0))
      if sp.heap.vm_flags prev == vm_prot_promote (sp.heap.vm_flags m)
          then into_next pool fuel m sp
          else ok (sp, m)

unfoldable pub merge_after : VmaPool → ℕ → ℕ → SpTree → Run (SpTree × ℕ)
unfolding merge_checked
merge_after pool fuel m sp =
    let next = sp.heap.vm_next m in
    if not (next == 0) && (sp.heap.vm_start next == sp.heap.vm_end m)
    then merge_checked pool fuel m sp
    else ok (sp, m)

-- The page is all of `n`.
unfoldable pub merge_both : VmaPool → ℕ → ℕ → SpTree → Run (SpTree × ℕ)
unfolding merge_prev merge_after
merge_both pool fuel n sp = do
  (sp₁, m) ← merge_prev pool fuel (vm_prot_promote (sp.heap.vm_flags n)) n sp
  merge_after pool fuel m sp₁

-- What happens to the page, by the place it has in the range of `n`.
unfoldable pub modify : VmaPool → ℕ → ℕ → ℕ → ℕ → ℕ → SpTree → Run (SpTree × ℕ)
unfolding split_middle take_first take_last merge_both
modify pool page fuel vm_addr t n sp =
    let is_first = sp.heap.vm_start n == vm_addr in
    let is_last = sp.heap.vm_end n == vm_addr + page in
    if not is_first && not is_last
    then split_middle pool page vm_addr n sp
    else if is_first && not is_last
    then take_first pool page fuel vm_addr t n sp
    else if not is_first && is_last
    then take_last pool page fuel vm_addr t n sp
    else merge_both pool fuel n sp

-- The function on a tree with a root. The root pointer is not set to what the splay returns.
unfoldable pub find_or_add : VmaPool → ℕ → ℕ → SpTree → ℕ → Run (SpTree × ℕ)
unfolding splay add_page modify
find_or_add pool page fuel sp vm_addr = do
  (h₁, t) ← splay fuel vm_addr sp.root sp.heap
  let n = covering t vm_addr h₁
  if n == 0
      then add_page pool page fuel vm_addr t (with_root h₁ sp.root)
      else modify pool page fuel vm_addr t n (with_root h₁ sp.root)

unfoldable pub first_page : VmaPool → ℕ → SpTree → ℕ → Run (SpTree × ℕ)
unfolding new_node
first_page pool page sp vm_addr = do
  (h₁, z) ← new_node pool vm_addr (vm_addr + page) (some vm_prot_read) sp.heap
  ok (with_root h₁ z, z)

-- The new tree, and `*zp`.
unfoldable pub sp_tree_find_mod_and_lock : VmaPool → ℕ → ℕ → SpTree → ℕ → Run (SpTree × ℕ)
unfolding find_or_add first_page
sp_tree_find_mod_and_lock pool page fuel sp vm_addr = do
  let start = record sp { heap = call (lock_get tree) sp.heap }
  (sp₁, n) ←
      if sp.root == 0
      then first_page pool page start vm_addr
      else find_or_add pool page fuel start vm_addr
  ok (record sp₁ { heap = call (lock_let tree) (call (lock_get (area n)) sp₁.heap) }, n)
