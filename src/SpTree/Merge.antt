-- ===== src/SpTree/Merge.antt =====
-- What `sp_tree_find_mod_and_lock` of src/sp_tree.c does at single nodes: new nodes, merges, and
-- the tests for them.
use open_ooc.Base.{
  ℕ, ◌+◌, ◌-◌, ◌*◌, ◌%◌, ◌/◌, Bool, ◌&&◌, ◌==◌, ltb, leb, if◌then◌else◌, upd, Run, ok, ◌>>=◌, ◌>>◌,
  assert, not, Option, some, none,
}
use open_ooc.VmArea.{Heap}
use open_ooc.VmaPool.{VmaPool}
use open_ooc.SpTree.Ops.{SpTree, sp_node_init, sp_node_free, remove_helper}

-- `VM_PROT_READ`
abbrev pub vm_prot_read : ℕ
vm_prot_read = 1

-- `VM_PROT_PROMOTE(prot)`: the bits above the lowest two are kept, and `or` puts three bits in.
abbrev pub vm_prot_promote : ℕ → ℕ
vm_prot_promote prot =
    let low = 2 * (prot % 4) + 1 in
    let high = prot - prot % 4 in
    if high / 4 % 2 == 1 && leb 4 low then high + (low - 4) else high + low

abbrev pub set_start : ℕ → ℕ → Heap → Heap
set_start n v h = record h { vm_start = upd h.vm_start n v }

abbrev pub set_end : ℕ → ℕ → Heap → Heap
set_end n v h = record h { vm_end = upd h.vm_end n v }

-- The flags of a new node are what its memory holds, where they are not set.
abbrev set_flags : ℕ → Option ℕ → Heap → Heap
set_flags n none h = h
set_flags n (some f) h = record h { vm_flags = upd h.vm_flags n f }

-- A new node with its range: `vma_alloc` must not have returned NULL.
unfoldable pub new_node : VmaPool → ℕ → ℕ → Option ℕ → Heap → Run (Heap × ℕ)
unfolding sp_node_init
new_node pool start end flags h =
    let (z, h₁) = pool.vma_alloc h in
    do
      assert (not (z == 0))
      ok (sp_node_init z (set_flags z flags (set_end z end (set_start z start h₁))), z)

-- `S_sp_tree_remove_helper(sp, n); S_sp_node_free(n);`
unfoldable pub drop_node : VmaPool → ℕ → ℕ → SpTree → Run SpTree
unfolding remove_helper sp_node_free
drop_node pool fuel n sp = do
  sp₁ ← remove_helper fuel n sp.heap
  ok (record sp₁ { heap = sp_node_free pool n sp₁.heap })

abbrev pub covers : ℕ → ℕ → Heap → Bool
covers n vm_addr h = leb (h.vm_start n) vm_addr && ltb vm_addr (h.vm_end n)

-- The node with the address: the root `t`, the node before it, or NULL.
abbrev pub covering : ℕ → ℕ → Heap → ℕ
covering t vm_addr h =
    let prev = h.vm_prev t in
    if covers t vm_addr h
    then t
    else if prev == 0
    then 0
    else if covers prev vm_addr h
    then prev
    else 0

-- The node before `n` ends where `n` starts, and has the flags.
abbrev pub prev_fits : ℕ → ℕ → Heap → Bool
prev_fits n flags h =
    let prev = h.vm_prev n in
    not (prev == 0) && (h.vm_end prev == h.vm_start n) && (h.vm_flags prev == flags)

abbrev pub next_fits : ℕ → ℕ → Heap → Bool
next_fits n flags h =
    let next = h.vm_next n in
    not (next == 0) && (h.vm_start next == h.vm_end n) && (h.vm_flags next == flags)

-- The node goes, and the one before it takes its range.
unfoldable pub into_prev : VmaPool → ℕ → ℕ → SpTree → Run (SpTree × ℕ)
unfolding drop_node
into_prev pool fuel n sp =
    let prev = sp.heap.vm_prev n in
    let end = sp.heap.vm_end n in
    do sp₁ ← drop_node pool fuel n sp; ok (record sp₁ { heap = set_end prev end sp₁.heap }, prev)

unfoldable pub into_next : VmaPool → ℕ → ℕ → SpTree → Run (SpTree × ℕ)
unfolding drop_node
into_next pool fuel n sp =
    let next = sp.heap.vm_next n in
    let start = sp.heap.vm_start n in
    do
      sp₁ ← drop_node pool fuel n sp
      ok (record sp₁ { heap = set_start next start sp₁.heap }, next)

unfoldable pub merge_prev : VmaPool → ℕ → ℕ → ℕ → SpTree → Run (SpTree × ℕ)
unfolding into_prev
merge_prev pool fuel flags n sp =
    if prev_fits n flags sp.heap then into_prev pool fuel n sp else ok (sp, n)

unfoldable pub merge_next : VmaPool → ℕ → ℕ → ℕ → SpTree → Run (SpTree × ℕ)
unfolding into_next
merge_next pool fuel flags n sp =
    if next_fits n flags sp.heap then into_next pool fuel n sp else ok (sp, n)
