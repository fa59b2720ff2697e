-- ===== src/SpTree/ListFix.antt =====
-- `FIX_LISTLT`, `FIX_LISTGT` and `FIX_LISTRM` on the list of the nodes.
use open_ooc.VmArea.{Heap}
use open_ooc.Base.{ℕ, suc, ◌<◌, List, ◌∷◌, ◌++◌, arith}
use open_ooc.SpTree.Linked.{
  Linked, IsSorted, first, last, Linked-append, Linked-left, Linked-right, Linked-before,
  Linked-after, Linked-same, last-ge, first-le,
}
use open_ooc.SpTree.Ops.{fix_listlt, fix_listgt, fix_listrm}

module _ (h : Heap) (lo hi t z : ℕ) (xs ys : List ℕ) (real_t : 1 < t) (real_z : 1 < z) where
  pub fix_listlt-Linked :
      Linked h 0 (xs ++ (t ∷ ys)) 0
      → IsSorted h.vm_start lo (h.vm_start z) xs
      → IsSorted h.vm_start (suc (h.vm_start t)) hi ys
      → h.vm_start z < h.vm_start t
      → Linked (fix_listlt z t h) 0 (xs ++ (z ∷ t ∷ ys)) 0
  unfolding fix_listlt
  fix_listlt-Linked s sx sy lt =
      let g = fix_listlt z t h in
      let b = Linked-right h 0 0 xs (t ∷ ys) s in
      let e = last-ge h.vm_start lo (h.vm_start z) 0 xs sx in
      Linked-append g 0 0 xs (z ∷ t ∷ ys)
        (Linked-before h g (h.vm_start z) lo 0 t z xs (Linked-left h 0 0 xs (t ∷ ys) s) sx
          (λ x one k₁ k₂. (ground arith, ground arith)) (ground arith))
        (
          ground arith,
          ground arith,
          (
            ground arith,
            ground arith,
            Linked-same h g hi (suc (h.vm_start t)) t 0 ys b.2 sy
                (λ x one k₁ k₂. (ground arith, ground arith)),
          ),
        )

  pub fix_listgt-Linked :
      Linked h 0 (xs ++ (t ∷ ys)) 0
      → IsSorted h.vm_start lo (h.vm_start t) xs
      → IsSorted h.vm_start (suc (h.vm_start z)) hi ys
      → h.vm_start t < h.vm_start z
      → Linked (fix_listgt z t h) 0 (xs ++ (t ∷ z ∷ ys)) 0
  unfolding fix_listgt
  fix_listgt-Linked s sx sy lt =
      let g = fix_listgt z t h in
      let b = Linked-right h 0 0 xs (t ∷ ys) s in
      let l = last-ge h.vm_start lo (h.vm_start t) 0 xs sx in
      let e = first-le h.vm_start (suc (h.vm_start z)) hi 0 ys sy in
      Linked-append g 0 0 xs (t ∷ z ∷ ys)
        (Linked-same h g (h.vm_start t) lo 0 t xs (Linked-left h 0 0 xs (t ∷ ys) s) sx
          (λ x one k₁ k₂. (ground arith, ground arith)))
        (
          ground arith,
          ground arith,
          (
            ground arith,
            ground arith,
            Linked-after h g hi (suc (h.vm_start z)) t z 0 ys b.2 sy
                (λ x one k₁ k₂. (ground arith, ground arith)) (ground arith),
          ),
        )

module _ (h : Heap) (lo hi t : ℕ) (xs ys : List ℕ) (real_t : 1 < t) where
  pub fix_listrm-Linked :
      Linked h 0 (xs ++ (t ∷ ys)) 0
      → IsSorted h.vm_start lo (h.vm_start t) xs
      → IsSorted h.vm_start (suc (h.vm_start t)) hi ys
      → Linked (fix_listrm t h) 0 (xs ++ ys) 0
  unfolding fix_listrm
  fix_listrm-Linked s sx sy =
      let g = fix_listrm t h in
      let b = Linked-right h 0 0 xs (t ∷ ys) s in
      let l = last-ge h.vm_start lo (h.vm_start t) 0 xs sx in
      let e = first-le h.vm_start (suc (h.vm_start t)) hi 0 ys sy in
      Linked-append g 0 0 xs ys
        (Linked-before h g (h.vm_start t) lo 0 t (first ys 0) xs (Linked-left h 0 0 xs (t ∷ ys) s)
          sx (λ x one k₁ k₂. (ground arith, ground arith)) (ground arith))
        (Linked-after h g hi (suc (h.vm_start t)) t (last 0 xs) 0 ys b.2 sy
          (λ x one k₁ k₂. (ground arith, ground arith)) (ground arith))
