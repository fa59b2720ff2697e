-- ===== src/Bench/Micro/Order.antt =====
-- The random order of the elements.
use open_ooc.Base.{
  ℕ, zero, suc, ◌+◌, ◌-◌, ◌≤◌, ◌<◌, ◌≡◌, ◌%◌, ◌^◌, refl, arith, ap, sym, ◌∙◌, word, add64, sub64,
  upd, ◌==◌, if◌then◌else◌, subst,
}
use native.Mathlib.Nat.{mod-lt}
use open_ooc.Bench.Micro.{Array, identity_loop, shuffle_loop, random_array}

-- The first `n` places have the numbers below `n`, each once.
pub record IsOrder (n : ℕ) (r : Array) : Type 0 where
  pub below : (x : ℕ) → x < n → r x < n
  pub distinct : (x y : ℕ) → x < n → y < n → r x ≡ r y → x ≡ y
  pub reached : (v : ℕ) → v < n → (x : ℕ) × (x < n) × (r x ≡ v)

identity_loop-at :
    (left i : ℕ) (r : Array)
    → left + i ≤ 2 ^ 32
    → (x : ℕ) → (x < i → r x ≡ x)
    → x < i + left
    → identity_loop left i r x ≡ x
unfolding identity_loop
identity_loop-at zero i r fits x done lt = done (omega arith)
identity_loop-at (suc left) i r fits x done lt =
    identity_loop-at left (i + 1) (upd r i (i % 2 ^ 32)) (omega arith) x (λ l. grind arith)
      (omega arith)

identity_loop-same : (n : ℕ) (r : Array) → n ≤ 2 ^ 32 → (x : ℕ) → x < n → identity_loop n 0 r x ≡ x
identity_loop-same n r fits x lt =
    identity_loop-at n 0 r (omega arith) x (λ l. absurd (omega (arith, l))) (omega arith)

identity_loop-IsOrder : (n : ℕ) (r : Array) → n ≤ 2 ^ 32 → IsOrder n (identity_loop n 0 r)
identity_loop-IsOrder n r fits = record {
  below = λ x lt. subst (λ v. v < n) (sym (same x lt)) lt;
  distinct = λ x y lx ly e. sym (same x lx) ∙ e ∙ same y ly;
  reached = λ v lt. (v, lt, same v lt);
}
  where
    same : (x : ℕ) → x < n → identity_loop n 0 r x ≡ x
    same = identity_loop-same n r fits

-- The place from which a swap of `i` and `j` takes the value at `x`.
abbrev swapped : ℕ → ℕ → ℕ → ℕ
swapped i j x = if x == i then j else if x == j then i else x

module _ (i j : ℕ) where
  swapped-at : (r : Array) (x : ℕ) → upd (upd r j (r i)) i (r j) x ≡ r (swapped i j x)
  swapped-at r x = grind arith

  swap_fixes : (r : Array) (x : ℕ) → i < x → j < x → upd (upd r j (r i)) i (r j) x ≡ r x
  swap_fixes r x li lj = grind arith

  swapped_below : (n x : ℕ) → i < n → j < n → x < n → swapped i j x < n
  swapped_below n x li lj lx = ground arith

  swapped_twice : (x : ℕ) → swapped i j (swapped i j x) ≡ x
  swapped_twice x = ground arith

  swap-IsOrder :
      (n : ℕ) (r : Array) → i < n → j < n → IsOrder n r → IsOrder n (upd (upd r j (r i)) i (r j))
  swap-IsOrder n r li lj o = record {
    below = λ x lx.
        subst (λ v. v < n) (sym (swapped-at r x))
          (o.below (swapped i j x) (swapped_below n x li lj lx));
    distinct = λ x y lx ly e.
        sym (swapped_twice x)
        ∙ ap (swapped i j) (
            o.distinct (swapped i j x) (swapped i j y) (swapped_below n x li lj lx)
              (swapped_below n y li lj ly) (sym (swapped-at r x) ∙ e ∙ swapped-at r y))
        ∙ swapped_twice y;
    reached = λ v lv.
        let (x, lx, e) = o.reached v lv in
        (
          swapped i j x,
          swapped_below n x li lj lx,
          swapped-at r (swapped i j x) ∙ ap r (swapped_twice x) ∙ e,
        );
  }

-- Where an element is swapped with: behind it, and never the last place.
partner_below :
    (n i left k : ℕ) → n < word → suc left + i ≡ n - 1 → (add64 (k % sub64 (sub64 n 1) i) i < n - 1)
partner_below n i left k fits e =
    let d : ℕ = sub64 (sub64 n 1) i in
    let d_is : d ≡ suc left = omega (arith, fits, e) in
    let m : k % d < d = mod-lt k (omega (arith, d_is)) in omega (arith, m, d_is, fits, e)

shuffle_loop-IsOrder :
    (rand : ℕ → ℕ) (n left i : ℕ) (r : Array)
    → n < word
    → left + i ≡ n - 1
    → IsOrder n r
    → IsOrder n (shuffle_loop rand n left i r) × (shuffle_loop rand n left i r (n - 1) ≡ r (n - 1))
unfolding shuffle_loop
shuffle_loop-IsOrder rand n zero i r fits e o = (o, refl)
shuffle_loop-IsOrder rand n (suc left) i r fits e o =
    let j = add64 (rand i % sub64 (sub64 n 1) i) i in
    let lj = partner_below n i left (rand i) fits e in
    let (o', last) =
      shuffle_loop-IsOrder rand n left (i + 1) (upd (upd r j (r i)) i (r j)) fits (omega arith)
        (swap-IsOrder i j n r (omega arith) (omega (arith, lj)) o) in
    (o', last ∙ swap_fixes i j r (n - 1) (omega (arith, e)) (omega (arith, lj)))

-- Whatever `rand` returns, the array has each index below `elem` once, and the last index at the
-- last place: the shuffle never moves it.
pub random_array-IsOrder :
    (rand : ℕ → ℕ) (elem : ℕ) (rnum : Array)
    → 0 < elem
    → elem ≤ 2 ^ 32
    → IsOrder elem (random_array rand elem rnum)
      × (random_array rand elem rnum (elem - 1) ≡ elem - 1)
unfolding random_array
random_array-IsOrder rand elem rnum pos fits =
    let (o, last) =
      shuffle_loop-IsOrder rand elem (sub64 elem 1) 0 (identity_loop elem 0 rnum) (omega arith)
        (omega arith) (identity_loop-IsOrder elem rnum fits) in
    (o, last ∙ identity_loop-same elem rnum fits (elem - 1) (omega arith))
