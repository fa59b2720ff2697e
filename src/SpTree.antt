-- ===== src/SpTree.antt =====
-- The functions of src/sp_tree.c, over the store of VmArea.
pub mod Shape
pub mod LeftSpine
pub mod RightSpine
pub mod SplayStep
pub mod Rotate
pub mod Kept
pub mod SplayLoop
pub mod Assemble
pub mod Splay
pub mod Ops
pub mod Merge
pub mod FindMod
pub mod Linked
pub mod Valid
pub mod ListFix
pub mod Insert
pub mod InsertTree
pub mod Promote
pub mod TakeRight
pub mod Join
pub mod Keys
pub mod RemoveHelper
pub mod Remove
pub mod Errors
pub mod Free
pub mod RoundTrip
pub mod Find
pub mod FindTree
mod Tests
use open_ooc.Base.{
  ℕ, zero, suc, ◌≡◌, Bool, true, false, ◌&&◌, ◌==◌, ltb, leb, if◌then◌else◌, upd, Run, ok, fault,
  out_of_fuel, ◌>>=◌, ◌>>◌, assert, not,
}
use open_ooc.VmArea.{
  Heap, LockCall, LockId, lock_init, lock_free, lock_get, lock_let, tree, area, call, local_n,
}

-- The last two lines of `MAKE_CHILD(A, WHICH, B)`: `B`, if there is one, gets the parent `A`, and
-- `A` loses its parent if that is `B`.
pub adopt : ℕ → ℕ → (ℕ → ℕ) → ℕ → ℕ
adopt a b p = let q = if b == 0 then p else upd p b a in if q a == b then upd q a 0 else q

-- `MAKE_CHILD(a, sp_l, b)`
pub make_child_l : ℕ → ℕ → Heap → Heap
unfolding adopt
make_child_l a b h = record h { sp_l = upd h.sp_l a b; sp_p = adopt a b h.sp_p }

-- `MAKE_CHILD(a, sp_r, b)`
pub make_child_r : ℕ → ℕ → Heap → Heap
unfolding adopt
make_child_r a b h = record h { sp_r = upd h.sp_r a b; sp_p = adopt a b h.sp_p }

-- The variables of the loop of `S_sp_tree_splay`, with the store.
pub record Loop : Type 0 where
  pub heap : Heap
  pub l : ℕ
  pub r : ℕ
  pub t : ℕ

abbrev pub loop : Heap → ℕ → ℕ → ℕ → Loop
loop h l r t = record { heap = h; l = l; r = r; t = t }

-- A pass of a loop ends by `break`, or goes on to the next pass.
pub data Pass : Type 0 where
  break : Loop → Pass
  next : Loop → Pass

pub rotate_right : ℕ → Heap → Heap
unfolding make_child_l make_child_r
rotate_right t h = let y = h.sp_l t in let h₁ = make_child_l t (h.sp_r y) h in make_child_r y t h₁

pub rotate_left : ℕ → Heap → Heap
unfolding make_child_l make_child_r
rotate_left t h = let y = h.sp_r t in let h₁ = make_child_r t (h.sp_l y) h in make_child_l y t h₁

pub link_right : Heap → ℕ → ℕ → ℕ → Pass
unfolding make_child_l
link_right h l r t = let h₁ = make_child_l r t h in next (loop h₁ l t (h₁.sp_l t))

pub link_left : Heap → ℕ → ℕ → ℕ → Pass
unfolding make_child_r
link_left h l r t = let h₁ = make_child_r l t h in next (loop h₁ t r (h₁.sp_r t))

-- Rotate, then stop if the new node has no further child on that side, else link.
pub zig_right : Heap → ℕ → ℕ → ℕ → Pass
unfolding rotate_right link_right
zig_right h l r t =
    let h₁ = rotate_right t h in
    let y = h.sp_l t in if h₁.sp_l y == 0 then break (loop h₁ l r y) else link_right h₁ l r y

pub zig_left : Heap → ℕ → ℕ → ℕ → Pass
unfolding rotate_left link_left
zig_left h l r t =
    let h₁ = rotate_left t h in
    let y = h.sp_r t in if h₁.sp_r y == 0 then break (loop h₁ l r y) else link_left h₁ l r y

-- The branch `vm_addr < t->vm_start`.
pub pass_right : ℕ → Heap → ℕ → ℕ → ℕ → Pass
unfolding zig_right link_right
pass_right k h l r t =
    if h.sp_l t == 0
    then break (loop h l r t)
    else if ltb k (h.vm_start (h.sp_l t))
    then zig_right h l r t
    else link_right h l r t

-- The branch `t->vm_start < vm_addr`.
pub pass_left : ℕ → Heap → ℕ → ℕ → ℕ → Pass
unfolding zig_left link_left
pass_left k h l r t =
    if h.sp_r t == 0
    then break (loop h l r t)
    else if ltb (h.vm_start (h.sp_r t)) k
    then zig_left h l r t
    else link_left h l r t

-- One pass of the loop of `S_sp_tree_splay`.
pub splay_pass : ℕ → Heap → ℕ → ℕ → ℕ → Pass
unfolding pass_right pass_left
splay_pass k h l r t =
    if ltb k (h.vm_start t)
    then pass_right k h l r t
    else if ltb (h.vm_start t) k
    then pass_left k h l r t
    else break (loop h l r t)

pub splay_loop : ℕ → ℕ → Heap → ℕ → ℕ → ℕ → Run Loop
unfolding splay_pass
splay_loop zero k h l r t = out_of_fuel
splay_loop (suc f) k h l r t = elim (splay_pass k h l r t) [
  | break s ↦ ok s
  | next s ↦ splay_loop f k s.heap s.l s.r s.t
]

pub assemble : Loop → Heap × ℕ
unfolding make_child_l make_child_r
assemble s =
    let h₁ = make_child_r s.l (s.heap.sp_l s.t) s.heap in
    let h₂ = make_child_l s.r (h₁.sp_r s.t) h₁ in
    let h₃ = make_child_l s.t (h₂.sp_r local_n) h₂ in
    let h₄ = make_child_r s.t (h₃.sp_l local_n) h₃ in (record h₄ { sp_p = upd h₄.sp_p s.t 0 }, s.t)

-- `S_sp_tree_splay(k, t)`: the store, and the new root.
pub splay : ℕ → ℕ → ℕ → Heap → Run (Heap × ℕ)
unfolding splay_loop assemble
splay fuel k t h = if t == 0 then ok (h, t) else do
  let h₁ = record h {
    sp_p = upd h.sp_p local_n 0;
    sp_l = upd h.sp_l local_n 0;
    sp_r = upd h.sp_r local_n 0;
  }
  s ← splay_loop fuel k h₁ local_n local_n t
  ok (assemble s)
