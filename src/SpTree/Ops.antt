-- ===== src/SpTree/Ops.antt =====
-- The list macros of src/sp_tree.c, its node and tree constructors, insertion, removal and lookup.
use open_ooc.Base.{
  ℕ, zero, suc, out_of_fuel, ◌==◌, ltb, leb, if◌then◌else◌, upd, Run, ok, ◌>>=◌, ◌>>◌, assert, not,
  out_of_fuel, suc,
}
use open_ooc.VmArea.{Heap, lock_init, lock_free, lock_get, lock_let, tree, area, call}
use open_ooc.VmaPool.{VmaPool}
use open_ooc.SpTree.{make_child_l, make_child_r, splay}

-- `struct sp_tree`, with the store of its nodes.
pub record SpTree : Type 0 where
  pub heap : Heap
  pub root : ℕ

abbrev pub with_root : Heap → ℕ → SpTree
with_root h p = record { heap = h; root = p }

-- `FIX_LISTLT(a, b)`: `a` goes into the list before `b`.
unfoldable pub fix_listlt : ℕ → ℕ → Heap → Heap
fix_listlt a b h =
    let prev = upd h.vm_prev a (h.vm_prev b) in
    let next = upd h.vm_next a b in
    record h { vm_prev = upd prev b a; vm_next = if prev a == 0 then next else upd next (prev a) a }

-- `FIX_LISTGT(a, b)`: `a` goes into the list behind `b`.
unfoldable pub fix_listgt : ℕ → ℕ → Heap → Heap
fix_listgt a b h =
    let prev = upd h.vm_prev a b in
    let next = upd h.vm_next a (h.vm_next b) in
    record h { vm_prev = if next a == 0 then prev else upd prev (next a) a; vm_next = upd next b a }

-- `FIX_LISTRM(a)`: `a` goes out of the list.
unfoldable pub fix_listrm : ℕ → Heap → Heap
fix_listrm a h =
    let next = if h.vm_prev a == 0 then h.vm_next else upd h.vm_next (h.vm_prev a) (h.vm_next a) in
    record h {
      vm_next = next;
      vm_prev = if next a == 0 then h.vm_prev else upd h.vm_prev (next a) (h.vm_prev a);
    }

unfoldable pub sp_node_init : ℕ → Heap → Heap
sp_node_init n h = call (lock_init (area n)) (record h {
  sp_p = upd h.sp_p n 0;
  sp_l = upd h.sp_l n 0;
  sp_r = upd h.sp_r n 0;
  vm_prev = upd h.vm_prev n 0;
  vm_next = upd h.vm_next n 0;
})

unfoldable pub sp_node_free : VmaPool → ℕ → Heap → Heap
sp_node_free pool n h = pool.vma_free n (call (lock_free (area n)) h)

-- The branches of `S_sp_tree_insert_helper`: `z` becomes the root, above `t`.
unfoldable pub insert_below : ℕ → ℕ → Heap → Heap
unfolding fix_listlt make_child_l make_child_r
insert_below t z h =
    let h₁ = fix_listlt z t h in
    let h₂ = make_child_l z (h₁.sp_l t) h₁ in
    let h₃ = make_child_r z t h₂ in record h₃ { sp_l = upd h₃.sp_l t 0 }

unfoldable pub insert_above : ℕ → ℕ → Heap → Heap
unfolding fix_listgt make_child_l make_child_r
insert_above t z h =
    let h₁ = fix_listgt z t h in
    let h₂ = make_child_r z (h₁.sp_r t) h₁ in
    let h₃ = make_child_l z t h₂ in record h₃ { sp_r = upd h₃.sp_r t 0 }

unfoldable pub insert_checked : SpTree → ℕ → ℕ → Run SpTree
unfolding insert_above
insert_checked sp t z = do
  assert (ltb (sp.heap.vm_start t) (sp.heap.vm_start z))
  ok (with_root (insert_above t z sp.heap) z)

unfoldable pub insert_helper : SpTree → ℕ → ℕ → Run SpTree
unfolding insert_below insert_checked
insert_helper sp t z =
    if sp.root == 0
    then ok (record sp { root = z })
    else if ltb (sp.heap.vm_start z) (sp.heap.vm_start t)
    then ok (with_root (insert_below t z sp.heap) z)
    else insert_checked sp t z

-- `S_sp_tree_remove_helper` where `t` has a left child: the greatest node of the left subtree comes
-- to its root, and takes the right subtree.
unfoldable pub join : ℕ → ℕ → Heap → Run SpTree
unfolding splay make_child_r
join fuel t h = do
  (h₁, z) ← splay fuel (h.vm_start t) (h.sp_l t) h
  let h₂ = record h₁ { sp_p = upd h₁.sp_p z 0 }
  ok (with_root (make_child_r z (h₂.sp_r t) h₂) z)

-- The other branch: the right subtree is what is left.
unfoldable pub promote : ℕ → Heap → SpTree
promote t h =
    let z = h.sp_r t in with_root (if z == 0 then h else record h { sp_p = upd h.sp_p z 0 }) z

unfoldable pub remove_helper : ℕ → ℕ → Heap → Run SpTree
unfolding fix_listrm join promote
remove_helper fuel t h =
    let h₁ = fix_listrm t h in if h₁.sp_l t == 0 then ok (promote t h₁) else join fuel t h₁

unfoldable pub sp_tree_init : Heap → SpTree
sp_tree_init h = with_root (call (lock_init tree) h) 0

unfoldable pub sp_tree_insert : ℕ → SpTree → ℕ → Run SpTree
unfolding sp_node_init splay insert_helper
sp_tree_insert fuel sp z = do
  let h = sp_node_init z (call (lock_get tree) sp.heap)
  (h₁, t) ← splay fuel (h.vm_start z) sp.root h
  sp₁ ← insert_helper (with_root h₁ sp.root) t z
  ok (record sp₁ { heap = call (lock_let tree) sp₁.heap })

unfoldable pub sp_tree_remove : VmaPool → ℕ → SpTree → ℕ → Run SpTree
unfolding splay remove_helper sp_node_free
sp_tree_remove pool fuel sp vm_addr = do
  let h = call (lock_get tree) sp.heap
  assert (not (sp.root == 0))
  (h₁, t) ← splay fuel vm_addr sp.root h
  assert (vm_addr == h₁.vm_start t)
  sp₁ ← remove_helper fuel t h₁
  ok (record sp₁ { heap = call (lock_let tree) (sp_node_free pool t sp₁.heap) })

-- The loop of `sp_tree_free`, with fuel `n` for its passes and `fuel` for each splay.
unfoldable pub free_loop : VmaPool → ℕ → ℕ → SpTree → Run SpTree
unfolding sp_tree_remove
free_loop pool zero fuel sp = if sp.root == 0 then ok sp else out_of_fuel
free_loop pool (suc n) fuel sp =
    if sp.root == 0
    then ok sp
    else do sp₁ ← sp_tree_remove pool fuel sp (sp.heap.vm_start sp.root); free_loop pool n fuel sp₁

unfoldable pub sp_tree_free : VmaPool → ℕ → ℕ → SpTree → Run SpTree
unfolding free_loop
sp_tree_free pool n fuel sp = do
  sp₁ ← free_loop pool n fuel sp
  ok (record sp₁ { heap = call (lock_free tree) sp₁.heap })

-- The node that contains the address is the root `p`, or else the node before it.
unfoldable pub find_root : ℕ → Heap → ℕ → Run ℕ
find_root p h vm_addr = do assert (ltb vm_addr (h.vm_end p)); ok p

unfoldable pub find_prev : ℕ → Heap → ℕ → Run ℕ
find_prev p h vm_addr = do
  assert (not (h.vm_prev p == 0))
  assert (leb (h.vm_start (h.vm_prev p)) vm_addr)
  assert (ltb vm_addr (h.vm_end (h.vm_prev p)))
  ok (h.vm_prev p)

unfoldable pub find : ℕ → Heap → ℕ → Run ℕ
unfolding find_root find_prev
find p h vm_addr =
    if leb (h.vm_start p) vm_addr then find_root p h vm_addr else find_prev p h vm_addr

-- The new tree, and `*zp`.
unfoldable pub sp_tree_find_and_lock : ℕ → SpTree → ℕ → Run (SpTree × ℕ)
unfolding splay find
sp_tree_find_and_lock fuel sp vm_addr = do
  let h = call (lock_get tree) sp.heap
  assert (not (sp.root == 0))
  (h₁, p) ← splay fuel vm_addr sp.root h
  n ← find p h₁ vm_addr
  ok (with_root (call (lock_let tree) (call (lock_get (area n)) h₁)) p, n)
