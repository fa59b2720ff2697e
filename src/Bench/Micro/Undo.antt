-- ===== src/Bench/Micro/Undo.antt =====
-- The check behind the update: each step takes the sums of two places off, compares, and adds them
-- again.
use open_ooc.Base.{ℕ, zero, suc, ◌-◌, ◌<◌, ◌≡◌, ◌≢◌, ◌^◌, arith, ap, sym, ◌∙◌, inl, inr, eq-cases}
use open_ooc.Bench.Micro.{Array, add32, sub32, lower, raise}
use open_ooc.Bench.Micro.Passes.{sums, totals, sums-before, totals-before, IsAt}

sub32-add32 : (a b : ℕ) → a < 2 ^ 32 → b < 2 ^ 32 → sub32 (add32 a b) b ≡ a
sub32-add32 a b la lb = omega arith

module _ (rnum place : Array) (small : rnum (place 0) < 2 ^ 32) where
  sums_small : (k : ℕ) → sums rnum place k < 2 ^ 32
  unfolding sums
  sums_small zero = small
  sums_small (suc k) = omega arith

-- The four writes of a step: `t₁` is taken off the place `j`, and `t₂` added.
abbrev pub four : ℕ → ℕ → ℕ → ℕ → ℕ → Array → Array
four i j r t₁ t₂ a =
    let a₁ = lower i (add32 (a j) r) a in
    let a₃ = raise j t₂ (lower j t₁ a₁) in raise i (add32 (a₃ j) r) a₃

-- The first two.
abbrev pub off : ℕ → ℕ → ℕ → ℕ → Array → Array
off i j r t₁ a = lower j t₁ (lower i (add32 (a j) r) a)

module _ (i j : ℕ) (ne : i ≢ j) (r t₁ t₂ : ℕ) (a : Array) where
  off-i : off i j r t₁ a i ≡ sub32 (a i) (add32 (a j) r)
  off-i = grind arith

  off-j : off i j r t₁ a j ≡ sub32 (a j) t₁
  off-j = grind arith

  four-i :
      four i j r t₁ t₂ a i
      ≡ add32 (sub32 (a i) (add32 (a j) r)) (add32 (add32 (sub32 (a j) t₁) t₂) r)
  four-i = grind arith

  four-j : four i j r t₁ t₂ a j ≡ add32 (sub32 (a j) t₁) t₂
  four-j = grind arith

  four-other : (x : ℕ) → x ≢ i → x ≢ j → four i j r t₁ t₂ a x ≡ a x
  four-other x ni nj = grind arith

module _ (rnum place : Array) (elem : ℕ)
    (apart : (i j : ℕ) → i < elem → j < elem → place i ≡ place j → i ≡ j)
    (small : rnum (place 0) < 2 ^ 32) where
  -- Behind the first two writes of a step at `i` both places have the sums, and behind the others
  -- all have the totals again.
  pub record Undone (a : Array) (i t₁ t₂ : ℕ) : Type 0 where
    pub first :
        off (place i) (place (i - 1)) (rnum (place i)) t₁ a (place (i - 1))
        ≡ sums rnum place (i - 1)
    pub equal :
        add32 (off (place i) (place (i - 1)) (rnum (place i)) t₁ a (place (i - 1))) (rnum (place i))
        ≡ off (place i) (place (i - 1)) (rnum (place i)) t₁ a (place i)
    pub again :
        IsAt place
          (totals rnum place)
          0
          elem
          (four (place i) (place (i - 1)) (rnum (place i)) t₁ t₂ a)

  pub step-Undone :
      (a : Array) (i t₁ t₂ t : ℕ)
      → 0 < i
      → i < elem
      → t₁ ≡ t
      → t₂ ≡ t
      → t < 2 ^ 32
      → totals rnum place (i - 1) ≡ add32 (sums rnum place (i - 1)) t
      → IsAt place (totals rnum place) 0 elem a
      → Undone a i t₁ t₂
  step-Undone a i t₁ t₂ t pos li e₁ e₂ lt before at = record {
    first = first;
    equal = ap (λ v. add32 v r) first ∙ sums-before rnum place i pos ∙ sym second;
    again = λ k lo lk. elim (eq-cases k i) [
      | inl same ↦
          ap (four ii jj r t₁ t₂ a) (ap place same) ∙ at_i ∙ ap (totals rnum place) (sym same)
      | inr ni ↦ elim (eq-cases k (i - 1)) [
        | inl same ↦
            ap (four ii jj r t₁ t₂ a) (ap place same) ∙ at_j ∙ ap (totals rnum place) (sym same)
        | inr nj ↦
            four-other ii jj ne r t₁ t₂ a (place k) (λ q. ni (apart k i lk li q))
              (λ q. nj (apart k (i - 1) lk (omega (arith, li)) q))
            ∙ at k lo lk
      ]
    ];
  }
    where
      ii : ℕ
      ii = place i

      jj : ℕ
      jj = place (i - 1)

      r : ℕ
      r = rnum ii

      ne : ii ≢ jj
      ne q = absurd (omega (arith, apart i (i - 1) li (omega (arith, li)) q, pos))

      sum : ℕ
      sum = add32 (totals rnum place (i - 1)) r

      x_is : sub32 (a ii) (add32 (a jj) r) ≡ sums rnum place i
      x_is =
          ap (λ v. sub32 v (add32 (a jj) r)) (at i (omega arith) li)
          ∙ ap (λ v. sub32 (totals rnum place i) (add32 v r))
              (at (i - 1) (omega arith) (omega (arith, li)))
          ∙ ap (λ v. sub32 v sum) (sym (totals-before rnum place i pos))
          ∙ sub32-add32 (sums rnum place i) sum (sums_small rnum place small i) (omega arith)

      y_is : sub32 (a jj) t₁ ≡ sums rnum place (i - 1)
      y_is =
          ap (sub32 (a jj)) e₁
          ∙ ap (λ v. sub32 v t) (at (i - 1) (omega arith) (omega (arith, li)) ∙ before)
          ∙ sub32-add32 (sums rnum place (i - 1)) t (sums_small rnum place small (i - 1)) lt

      first : off ii jj r t₁ a jj ≡ sums rnum place (i - 1)
      first = off-j ii jj ne r t₁ t₂ a ∙ y_is

      second : off ii jj r t₁ a ii ≡ sums rnum place i
      second = off-i ii jj ne r t₁ t₂ a ∙ x_is

      at_j : four ii jj r t₁ t₂ a jj ≡ totals rnum place (i - 1)
      at_j =
          four-j ii jj ne r t₁ t₂ a
          ∙ ap (λ v. add32 v t₂) y_is
          ∙ ap (add32 (sums rnum place (i - 1))) e₂
          ∙ sym before

      at_i : four ii jj r t₁ t₂ a ii ≡ totals rnum place i
      at_i =
          four-i ii jj ne r t₁ t₂ a
          ∙ ap (λ v. add32 v (add32 (add32 (sub32 (a jj) t₁) t₂) r)) x_is
          ∙ ap (λ v. add32 (sums rnum place i) (add32 v r)) (sym (four-j ii jj ne r t₁ t₂ a) ∙ at_j)
          ∙ totals-before rnum place i pos
