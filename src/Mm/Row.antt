-- ===== src/Mm/Row.antt =====
-- The kernel computes the scalar products of a row, and changes nothing else.
use open_ooc.Base.{
  ℕ, zero, suc, ◌+◌, ◌-◌, ◌*◌, ◌≤◌, ◌<◌, ◌≡◌, ◌≢◌, ◌⊎◌, inl, inr, refl, arith, upd, ◌∙◌, ap, subst,
  eq-cases, upd_same, upd_ne,
}
use open_ooc.Mm.{Args, product, sum_loop, cell, row_loop, mm}

module _ {V : Type 0} (add mul : V → V → V) (args : Args V) (i : ℕ) where
  -- The sum, from the left, of the elements `(i, k)` of `a` times the elements `(k, j)` of `b`, for
  -- `k` up to `m`; a row of `a` has `n` elements, one of `b` has `p`.
  unfoldable pub dot : ℕ → ℕ → V
  dot j zero = mul (args.a (i * args.n)) (args.b j)
  dot j (suc m) =
      let rest = dot j m in
      add rest (mul (args.a (i * args.n + suc m)) (args.b (suc m * args.p + j)))

  first_product : (j : ℕ) → product add mul args i j 0 ≡ dot j 0
  unfolding dot product
  first_product j =
      ap (λ x. mul (args.a x) (args.b (0 * args.p + j))) (omega arith)
      ∙ ap (λ x. mul (args.a (i * args.n)) (args.b x)) (omega arith)

  sum_loop-dot :
      (count j k : ℕ) (c : ℕ → V)
      → c (i * args.p + j) ≡ dot j k
      → sum_loop add mul args i count j (suc k) c (i * args.p + j) ≡ dot j (count + k)
  unfolding sum_loop dot product
  sum_loop-dot zero j k c e = e ∙ ap (dot j) (omega arith)
  sum_loop-dot (suc count) j k c e =
      let x = i * args.p + j in
      let v = add (c x) (product add mul args i j (suc k)) in
      sum_loop-dot count j (suc k) (upd c x v)
        (upd_same c x v ∙ ap (λ s. add s (product add mul args i j (suc k))) e)
      ∙ ap (dot j) (omega arith)

  sum_loop-other :
      (count j k : ℕ) (c : ℕ → V) (y : ℕ)
      → y ≢ i * args.p + j
      → sum_loop add mul args i count j k c y ≡ c y
  unfolding sum_loop
  sum_loop-other zero j k c y ne = refl
  sum_loop-other (suc count) j k c y ne =
      let x = i * args.p + j in
      let v = add (c x) (product add mul args i j k) in
      sum_loop-other count j (suc k) (upd c x v) y ne ∙ upd_ne c x v y ne

  cell-dot : (j : ℕ) (c : ℕ → V) → cell add mul args i j c (i * args.p + j) ≡ dot j (args.p - 1)
  unfolding cell dot product
  cell-dot j c =
      let x = i * args.p + j in
      sum_loop-dot (args.p - 1) j 0 (upd c x (product add mul args i j 0))
        (upd_same c x _ ∙ first_product j)
      ∙ ap (dot j) (omega arith)

  cell-other : (j : ℕ) (c : ℕ → V) (y : ℕ) → y ≢ i * args.p + j → cell add mul args i j c y ≡ c y
  unfolding cell
  cell-other j c y ne =
      let x = i * args.p + j in
      sum_loop-other (args.p - 1) j 1 (upd c x (product add mul args i j 0)) y ne
      ∙ upd_ne c x _ y ne

  row_loop-other :
      (count j : ℕ) (c : ℕ → V) (y : ℕ)
      → (y < i * args.p + j) ⊎ (i * args.p + (j + count) ≤ y)
      → row_loop add mul args i count j c y ≡ c y
  unfolding row_loop
  row_loop-other zero j c y out = refl
  row_loop-other (suc count) j c y out =
      row_loop-other count (suc j) (cell add mul args i j c) y (ground arith)
      ∙ cell-other j c y (λ e. ground arith)

  row_loop-dot :
      (count j : ℕ) (c : ℕ → V) (t : ℕ)
      → j ≤ t
      → t < j + count
      → row_loop add mul args i count j c (i * args.p + t) ≡ dot t (args.p - 1)
  unfolding row_loop
  row_loop-dot zero j c t le lt = absurd (omega arith)
  row_loop-dot (suc count) j c t le lt = elim (eq-cases j t) [
    | inl e ↦
        row_loop-other count (suc j) (cell add mul args i j c) (i * args.p + t) (inl (omega arith))
        ∙ subst (λ x. cell add mul args i j c (i * args.p + x) ≡ dot x (args.p - 1)) e
            (cell-dot j c)
    | inr ne ↦ row_loop-dot count (suc j) (cell add mul args i j c) t (omega arith) (omega arith)
  ]

  -- In row `i` of the result, `mm` puts at each column below `n` the sum of the products of row `i`
  -- of `a` and this column of `b`, over `p` terms, and it changes no other place.
  pub mm-dot :
      (c : ℕ → V)
      → ((t : ℕ) → t < args.n → mm add mul args i c (i * args.p + t) ≡ dot t (args.p - 1))
        × ((y : ℕ) → (y < i * args.p) ⊎ (i * args.p + args.n ≤ y) → mm add mul args i c y ≡ c y)
  unfolding mm
  mm-dot c = (
    λ t lt. row_loop-dot args.n 0 c t (omega arith) (omega arith),
    λ y out. row_loop-other args.n 0 c y (ground arith),
  )
