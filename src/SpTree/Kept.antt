-- ===== src/SpTree/Kept.antt =====
-- What a splay does not change: the links of a node `z` outside the tree, and all fields but the
-- tree links.
use open_ooc.VmArea.{Heap, local_n}
use open_ooc.Base.{◌≢◌, ℕ, ◌≡◌, refl, arith, ◌∙◌, ◌⊎◌, List, upd}
use open_ooc.SpTree.{make_child_l, make_child_r, rotate_right, rotate_left}
use open_ooc.SpTree.Shape.{Tree, node, Stands, Stands-root}
use open_ooc.SpTree.LeftSpine.{Spine, Left-last}
use open_ooc.SpTree.RightSpine.{Right-last}
use open_ooc.SpTree.SplayStep.{Inv}

pub record Kept (z : ℕ) (h g : Heap) : Type 0 where
  pub sp_p : g.sp_p z ≡ h.sp_p z
  pub sp_l : g.sp_l z ≡ h.sp_l z
  pub sp_r : g.sp_r z ≡ h.sp_r z
  pub vm_prev : g.vm_prev ≡ h.vm_prev
  pub vm_next : g.vm_next ≡ h.vm_next
  pub vm_start : g.vm_start ≡ h.vm_start
  pub vm_end : g.vm_end ≡ h.vm_end
  pub vm_flags : g.vm_flags ≡ h.vm_flags
  pub calls : g.calls ≡ h.calls

pub Kept-refl : (z : ℕ) (h : Heap) → Kept z h h
Kept-refl z h = record {
  sp_p = refl;
  sp_l = refl;
  sp_r = refl;
  vm_prev = refl;
  vm_next = refl;
  vm_start = refl;
  vm_end = refl;
  vm_flags = refl;
  calls = refl;
}

pub Kept-trans : {z : ℕ} {h g f : Heap} → Kept z h g → Kept z g f → Kept z h f
Kept-trans a b = record {
  sp_p = b.sp_p ∙ a.sp_p;
  sp_l = b.sp_l ∙ a.sp_l;
  sp_r = b.sp_r ∙ a.sp_r;
  vm_prev = b.vm_prev ∙ a.vm_prev;
  vm_next = b.vm_next ∙ a.vm_next;
  vm_start = b.vm_start ∙ a.vm_start;
  vm_end = b.vm_end ∙ a.vm_end;
  vm_flags = b.vm_flags ∙ a.vm_flags;
  calls = b.calls ∙ a.calls;
}

module _ (z a b : ℕ) (h : Heap) (ne_a : a ≢ z) (ne_b : (b ≡ 0) ⊎ (b ≢ z)) where
  pub make_child_l-Kept : Kept z h (make_child_l a b h)
  unfolding make_child_l
  make_child_l-Kept = record {
    sp_p = ground arith;
    sp_l = ground arith;
    sp_r = refl;
    vm_prev = refl;
    vm_next = refl;
    vm_start = refl;
    vm_end = refl;
    vm_flags = refl;
    calls = refl;
  }

  pub make_child_r-Kept : Kept z h (make_child_r a b h)
  unfolding make_child_r
  make_child_r-Kept = record {
    sp_p = ground arith;
    sp_l = refl;
    sp_r = ground arith;
    vm_prev = refl;
    vm_next = refl;
    vm_start = refl;
    vm_end = refl;
    vm_flags = refl;
    calls = refl;
  }

pub orphan-Kept : (z t : ℕ) (h : Heap) → t ≢ z → Kept z h (record h { sp_p = upd h.sp_p t 0 })
orphan-Kept z t h ne = record {
  sp_p = ground arith;
  sp_l = refl;
  sp_r = refl;
  vm_prev = refl;
  vm_next = refl;
  vm_start = refl;
  vm_end = refl;
  vm_flags = refl;
  calls = refl;
}

pub root-ne : (z : ℕ) (h : Heap) (lo hi p : ℕ) (t : Tree) → Stands z h lo hi t p → (p ≡ 0) ⊎ (p ≢ z)
root-ne z h lo hi p t s = let c = Stands-root z h lo hi p t s in ground arith

module _ (z lo hi : ℕ) (h : Heap) (t : ℕ) (tl tr m : Tree) (a b : ℕ) where
  pub rotate_right-Kept : Stands z h lo hi (node (node tl b m) a tr) t → Kept z h (rotate_right t h)
  unfolding rotate_right
  rotate_right-Kept s =
      let e : h.sp_r (h.sp_l t) ≡ h.sp_r b = ground arith in
      let c = root-ne z h _ _ (h.sp_r b) m s.5.7 in
      Kept-trans (make_child_l-Kept z t (h.sp_r (h.sp_l t)) h (ground arith) (ground arith)) (
        make_child_r-Kept z (h.sp_l t) t (make_child_l t (h.sp_r (h.sp_l t)) h) (ground arith)
          (ground arith))

  pub rotate_left-Kept : Stands z h lo hi (node tl a (node m b tr)) t → Kept z h (rotate_left t h)
  unfolding rotate_left
  rotate_left-Kept s =
      let e : h.sp_l (h.sp_r t) ≡ h.sp_l b = ground arith in
      let c = root-ne z h _ _ (h.sp_l b) m s.7.5 in
      Kept-trans (make_child_r-Kept z t (h.sp_l (h.sp_r t)) h (ground arith) (ground arith)) (
        make_child_l-Kept z (h.sp_r t) t (make_child_r t (h.sp_l (h.sp_r t)) h) (ground arith)
          (ground arith))

module _ (z lo hi k : ℕ) (xs : List ℕ) (ne : z ≢ local_n) (h : Heap) (l r t : ℕ) (ls rs : Spine)
    (tl tr : Tree) (a : ℕ) (v : Inv z lo hi k xs h l r t ls rs (node tl a tr)) where
  pub link_right-Kept : Kept z h (make_child_l r t h)
  link_right-Kept =
      let s = v.stands in
      let last = Right-last z hi h r rs v.right in
      make_child_l-Kept z r t h (ground arith) (ground arith)

  pub link_left-Kept : Kept z h (make_child_r l t h)
  link_left-Kept =
      let s = v.stands in
      let last = Left-last z lo h l ls v.left in
      make_child_r-Kept z l t h (ground arith) (ground arith)
