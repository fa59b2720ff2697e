-- ===== src/Bench/Micro/Recheck.antt =====
-- The passes of the check behind the update succeed, and leave the totals.
use open_ooc.Base.{
  asserted, ℕ, zero, suc, ◌+◌, ◌-◌, ◌<◌, ◌≡◌, ◌≢◌, ◌^◌, refl, arith, ap, sym, ◌∙◌, upd_ne, ◌==◌, ok,
  assert, ◌>>◌, ◌>>=◌,
}
use open_ooc.Bench.Micro.{Array, add32, sub32, lower, undo_first, undo_step, undo_loop, undo_pass}
use open_ooc.Bench.Micro.Passes.{sums, totals, totals-before, IsAt}
use open_ooc.Bench.Micro.Undo.{off, four, step-Undone}

module _ (rnum place : Array) (elem : ℕ)
    (apart : (i j : ℕ) → i < elem → j < elem → place i ≡ place j → i ≡ j)
    (small : rnum (place 0) < 2 ^ 32) where
  undo_first-ok :
      (a : Array)
      → 1 < elem
      → IsAt place (totals rnum place) 0 elem a
      → (a' : Array) × (undo_first rnum place a ≡ ok a') × IsAt place (totals rnum place) 0 elem a'
  unfolding undo_first totals
  undo_first-ok a lt at =
      let r : ℕ = rnum (place 0) in
      let u =
        step-Undone rnum place elem apart small a 1 r r r (omega arith) lt refl refl small refl
          at in
      let a₂ : Array = off (place 1) (place 0) (rnum (place 1)) r a in
      let a₄ : Array = four (place 1) (place 0) (rnum (place 1)) r r a in
      (
        a₄,
        asserted r (a₂ (place 0))
              (assert (add32 (a₂ (place 0)) (rnum (place 1)) == a₂ (place 1)) >> ok a₄)
              (sym u.first)
            ∙ asserted (add32 (a₂ (place 0)) (rnum (place 1))) (a₂ (place 1)) (ok a₄) u.equal,
        u.again,
      )

  undo_step-ok :
      (i : ℕ) (a : Array)
      → 1 < i
      → i < elem
      → IsAt place (totals rnum place) 0 elem a
      → (a' : Array) × (undo_step rnum place i a ≡ ok a') × IsAt place (totals rnum place) 0 elem a'
  unfolding undo_step
  undo_step-ok i a pos li at =
      let u =
        step-Undone rnum place elem apart small a i t₁ t₂ (add32 (a kk) (rnum jj)) (omega arith) li
          (ap (λ v. add32 v (rnum jj)) (upd_ne a ii (sub32 (a ii) (add32 (a jj) (rnum ii))) kk ki))
          (ap (λ v. add32 v (rnum jj))
            (upd_ne a₁ jj (sub32 (a₁ jj) t₁) kk kj
              ∙ upd_ne a ii (sub32 (a ii) (add32 (a jj) (rnum ii))) kk ki))
          (omega arith) before at in
      (
        four ii jj (rnum ii) t₁ t₂ a,
        asserted (add32 (a₂ jj) (rnum ii)) (a₂ ii) (ok (four ii jj (rnum ii) t₁ t₂ a)) u.equal,
        u.again,
      )
    where
      ii : ℕ
      ii = place i

      jj : ℕ
      jj = place (i - 1)

      kk : ℕ
      kk = place (i - 2)

      ki : kk ≢ ii
      ki q = absurd (omega (arith, apart (i - 2) i (omega (arith, li)) li q, pos))

      kj : kk ≢ jj
      kj q =
          absurd
            (omega (arith, apart (i - 2) (i - 1) (omega (arith, li)) (omega (arith, li)) q, pos))

      a₁ : Array
      a₁ = lower ii (add32 (a jj) (rnum ii)) a

      t₁ : ℕ
      t₁ = add32 (a₁ kk) (rnum jj)

      a₂ : Array
      a₂ = lower jj t₁ a₁

      t₂ : ℕ
      t₂ = add32 (a₂ kk) (rnum jj)

      before : totals rnum place (i - 1) ≡ add32 (sums rnum place (i - 1)) (add32 (a kk) (rnum jj))
      before =
          sym (totals-before rnum place (i - 1) (omega (arith, pos)))
          ∙ ap (λ n. add32 (sums rnum place (i - 1)) (add32 (totals rnum place n) (rnum jj)))
              {x = i - 1 - 1} {y = i - 2} (omega arith)
          ∙ ap (λ v. add32 (sums rnum place (i - 1)) (add32 v (rnum jj)))
              (sym (at (i - 2) (omega arith) (omega (arith, li))))

  undo_loop-ok :
      (left i : ℕ) (a : Array)
      → 1 < i
      → left + i ≡ elem
      → IsAt place (totals rnum place) 0 elem a
      → (a' : Array) × (undo_loop rnum place left i a ≡ ok a')
        × IsAt place (totals rnum place) 0 elem a'
  unfolding undo_loop
  undo_loop-ok zero i a pos e at = (a, refl, at)
  undo_loop-ok (suc left) i a pos e at =
      let (a₁, run₁, at₁) = undo_step-ok i a pos (omega arith) at in
      let (a₂, run₂, at₂) = undo_loop-ok left (i + 1) a₁ (omega arith) (omega arith) at₁ in
      (a₂, ap (λ m. m >>= undo_loop rnum place left (i + 1)) run₁ ∙ run₂, at₂)

  pub undo_pass-ok :
      (a : Array)
      → 1 < elem
      → IsAt place (totals rnum place) 0 elem a
      → (a' : Array) × (undo_pass rnum place elem a ≡ ok a')
        × IsAt place (totals rnum place) 0 elem a'
  unfolding undo_pass
  undo_pass-ok a lt at =
      let (a₁, run₁, at₁) = undo_first-ok a lt at in
      let (a₂, run₂, at₂) = undo_loop-ok (elem - 2) 2 a₁ (omega arith) (omega arith) at₁ in
      (a₂, ap (λ m. m >>= undo_loop rnum place (elem - 2) 2) run₁ ∙ run₂, at₂)
