-- ===== src/Bench/Micro/Passes.antt =====
-- No assertion of the benchmark's passes fails.
use open_ooc.Base.{
  asserted, ℕ, zero, suc, ◌+◌, ◌-◌, ◌≤◌, ◌<◌, ◌≡◌, ◌≢◌, refl, arith, ap, sym, ◌∙◌, upd, upd_same,
  upd_ne, ok, ◌⊎◌, inl, inr, eq-cases,
}
use open_ooc.Bench.Micro.{
  Array, add32, populate_loop, populate, verify_loop, verify, read_loop, read_pass, update_loop,
  update_pass,
}

module _ (rnum place : Array) where
  -- What `populate` puts at each place, by index.
  unfoldable pub sums : ℕ → ℕ
  sums zero = rnum (place 0)
  sums (suc k) = add32 (sums k) (rnum (place (suc k)))

  -- What is there behind `update_pass`.
  unfoldable pub totals : ℕ → ℕ
  unfolding sums
  totals zero = add32 (sums 0) (rnum (place 0))
  totals (suc k) = add32 (sums (suc k)) (add32 (totals k) (rnum (place (suc k))))

  pub sums-before : (i : ℕ) → 0 < i → add32 (sums (i - 1)) (rnum (place i)) ≡ sums i
  unfolding sums
  sums-before zero pos = absurd (omega arith)
  sums-before (suc k) pos =
      ap (λ n. add32 (sums n) (rnum (place (suc k)))) {x = suc k - 1} (omega arith)

  pub totals-before :
      (i : ℕ) → 0 < i → add32 (sums i) (add32 (totals (i - 1)) (rnum (place i))) ≡ totals i
  unfolding totals
  totals-before zero pos = absurd (omega arith)
  totals-before (suc k) pos =
      ap (λ n. add32 (sums (suc k)) (add32 (totals n) (rnum (place (suc k))))) {x = suc k - 1}
        (omega arith)

-- From index `m` up to `n` the places have the values of `f`.
abbrev pub IsAt : Array → (ℕ → ℕ) → ℕ → ℕ → Array → Type 0
IsAt place f m n addr = (k : ℕ) → m ≤ k → k < n → addr (place k) ≡ f k

-- The places of the first `elem` indices are different.
module _ (rnum place : Array) (elem : ℕ)
    (apart : (i j : ℕ) → i < elem → j < elem → place i ≡ place j → i ≡ j) where
  pub write-IsAt :
      (f : ℕ → ℕ) (addr : Array) (i v : ℕ)
      → i < elem
      → v ≡ f i
      → IsAt place f 0 i addr
      → IsAt place f 0 (i + 1) (upd addr (place i) v)
  write-IsAt f addr i v li e at k lo lt = elim (eq-cases k i) [
    | inl same ↦
        ap (λ x. upd addr (place i) v (place x)) same
        ∙ upd_same addr (place i) v
        ∙ e
        ∙ ap f (sym same)
    | inr ne ↦
        upd_ne addr (place i) v (place k) (λ q. ne (apart k i (omega (arith, lt, li)) li q))
        ∙ at k lo (omega (arith, lt, ne))
  ]

  -- A write at the place of an index leaves the others.
  pub keep-IsAt :
      (f : ℕ → ℕ) (m n : ℕ) (addr : Array) (i v : ℕ)
      → i < elem
      → n ≤ elem
      → (i < m) ⊎ (n ≤ i)
      → IsAt place f m n addr
      → IsAt place f m n (upd addr (place i) v)
  keep-IsAt f m n addr i v li le out at k lo lt =
      upd_ne addr (place i) v (place k) (λ q. differ (apart k i (omega (arith, lt, le)) li q))
      ∙ at k lo lt
    where
      differ : k ≢ i
      differ e = elim out [
        | inl l ↦ absurd (omega (arith, l, lo, e))
        | inr l ↦ absurd (omega (arith, l, lt, e))
      ]

  populate_loop-sums :
      (left i : ℕ) (addr : Array)
      → 0 < i
      → left + i ≡ elem
      → IsAt place (sums rnum place) 0 i addr
      → IsAt place (sums rnum place) 0 elem (populate_loop rnum place left i addr)
  unfolding populate_loop
  populate_loop-sums zero i addr pos e at = λ k lo lt. at k lo (omega arith)
  populate_loop-sums (suc left) i addr pos e at =
      populate_loop-sums left (i + 1)
        (upd addr (place i) (add32 (addr (place (i - 1))) (rnum (place i)))) (omega arith)
        (omega arith)
        (write-IsAt (sums rnum place) addr i (add32 (addr (place (i - 1))) (rnum (place i)))
          (omega arith)
          (ap (λ v. add32 v (rnum (place i))) (at (i - 1) (omega arith) (omega arith))
            ∙ sums-before rnum place i pos)
          at)

  pub populate-sums :
      (addr : Array)
      → 0 < elem
      → IsAt place (sums rnum place) 0 elem (populate rnum place elem addr)
  unfolding populate sums
  populate-sums addr pos =
      populate_loop-sums (elem - 1) 1 (upd addr (place 0) (rnum (place 0))) (omega arith)
        (omega arith)
        (write-IsAt (sums rnum place) addr 0 (rnum (place 0)) pos refl
          (λ k lo lt. absurd (omega (arith, lt))))

  verify_loop-ok :
      (left i : ℕ) (addr : Array)
      → 0 < i
      → left + i ≡ elem
      → IsAt place (sums rnum place) 0 elem addr
      → verify_loop rnum place left i addr ≡ ok tt
  unfolding verify_loop
  verify_loop-ok zero i addr pos e at = refl
  verify_loop-ok (suc left) i addr pos e at =
      asserted (add32 (addr (place (i - 1))) (rnum (place i))) (addr (place i))
        (verify_loop rnum place left (i + 1) addr)
        (ap (λ v. add32 v (rnum (place i))) (at (i - 1) (omega arith) (omega arith))
          ∙ sums-before rnum place i pos
          ∙ sym (at i (omega arith) (omega arith)))
      ∙ verify_loop-ok left (i + 1) addr (omega arith) (omega arith) at

  pub verify-ok :
      (addr : Array)
      → 0 < elem
      → IsAt place (sums rnum place) 0 elem addr
      → verify rnum place elem addr ≡ ok tt
  unfolding verify sums
  verify-ok addr pos at =
      asserted (rnum (place 0)) (addr (place 0)) (verify_loop rnum place (elem - 1) 1 addr)
        (sym (at 0 (omega arith) pos))
      ∙ verify_loop-ok (elem - 1) 1 addr (omega arith) (omega arith) at

  -- `impl_fetch_page` leaves the elements alone.
  module _ (fetch_bulk : Array → Array) (fetch_page : ℕ → Array → Array)
      (page_keeps : (x : ℕ) (a : Array) (y : ℕ) → fetch_page x a y ≡ a y) where
    read_loop-ok :
        (left i : ℕ) (addr : Array)
        → 0 < i
        → left + i ≡ elem
        → IsAt place (sums rnum place) 0 elem addr
        → (a : Array) × (read_loop rnum place fetch_page left i addr ≡ ok a)
          × IsAt place (sums rnum place) 0 elem a
    unfolding read_loop
    read_loop-ok zero i addr pos e at = (addr, refl, at)
    read_loop-ok (suc left) i addr pos e at =
        let fetched : Array = fetch_page (place i) addr in
        let at' : IsAt place (sums rnum place) 0 elem fetched =
          λ k lo lt. page_keeps (place i) addr (place k) ∙ at k lo lt in
        let (a, run, end) = read_loop-ok left (i + 1) fetched (omega arith) (omega arith) at' in
        (
          a,
          asserted (add32 (fetched (place (i - 1))) (rnum (place i))) (fetched (place i))
                (read_loop rnum place fetch_page left (i + 1) fetched)
                (ap (λ v. add32 v (rnum (place i))) (at' (i - 1) (omega arith) (omega arith))
                  ∙ sums-before rnum place i pos
                  ∙ sym (at' i (omega arith) (omega arith)))
              ∙ run,
          end,
        )

    pub read_pass-ok :
        (addr : Array)
        → 0 < elem
        → IsAt place (sums rnum place) 0 elem (fetch_bulk addr)
        → (a : Array) × (read_pass rnum place fetch_page fetch_bulk elem addr ≡ ok a)
          × IsAt place (sums rnum place) 0 elem a
    unfolding read_pass sums
    read_pass-ok addr pos at =
        let fetched : Array = fetch_page (place 0) (fetch_bulk addr) in
        let at' : IsAt place (sums rnum place) 0 elem fetched =
          λ k lo lt. page_keeps (place 0) (fetch_bulk addr) (place k) ∙ at k lo lt in
        let (a, run, end) = read_loop-ok (elem - 1) 1 fetched (omega arith) (omega arith) at' in
        (
          a,
          asserted (rnum (place 0)) (fetched (place 0))
                (read_loop rnum place fetch_page (elem - 1) 1 fetched)
                (sym (at' 0 (omega arith) pos))
              ∙ run,
          end,
        )

    update_loop-totals :
        (left i : ℕ) (addr : Array)
        → 0 < i
        → left + i ≡ elem
        → IsAt place (totals rnum place) 0 i addr
        → IsAt place (sums rnum place) i elem addr
        → IsAt place (totals rnum place) 0 elem (update_loop rnum place fetch_page left i addr)
    unfolding update_loop
    update_loop-totals zero i addr pos e at rest = λ k lo lt. at k lo (omega arith)
    update_loop-totals (suc left) i addr pos e at rest =
        let fetched : Array = fetch_page (place i) addr in
        let v : ℕ = add32 (fetched (place i)) (add32 (fetched (place (i - 1))) (rnum (place i))) in
        let at' : IsAt place (totals rnum place) 0 i fetched =
          λ k lo lt. page_keeps (place i) addr (place k) ∙ at k lo lt in
        let rest' : IsAt place (sums rnum place) i elem fetched =
          λ k lo lt. page_keeps (place i) addr (place k) ∙ rest k lo lt in
        let value : v ≡ totals rnum place i =
          ap (λ x. add32 x (add32 (fetched (place (i - 1))) (rnum (place i))))
            (rest' i (omega arith) (omega arith))
          ∙ ap (λ x. add32 (sums rnum place i) (add32 x (rnum (place i))))
              (at' (i - 1) (omega arith) (omega arith))
          ∙ totals-before rnum place i pos in
        update_loop-totals left (i + 1) (upd fetched (place i) v) (omega arith) (omega arith)
          (write-IsAt (totals rnum place) fetched i v (omega arith) value at')
          (keep-IsAt (sums rnum place) (i + 1) elem fetched i v (omega arith) (omega arith)
            (inl (omega arith)) (λ k lo lt. rest' k (omega (arith, lo)) lt))

    pub update_pass-totals :
        (addr : Array)
        → 0 < elem
        → IsAt place (sums rnum place) 0 elem (fetch_bulk addr)
        → IsAt place
            (totals rnum place)
            0
            elem
            (update_pass rnum place fetch_page fetch_bulk elem addr)
    unfolding update_pass totals
    update_pass-totals addr pos at =
        let fetched : Array = fetch_page (place 0) (fetch_bulk addr) in
        let at' : IsAt place (sums rnum place) 0 elem fetched =
          λ k lo lt. page_keeps (place 0) (fetch_bulk addr) (place k) ∙ at k lo lt in
        let v : ℕ = add32 (fetched (place 0)) (rnum (place 0)) in
        update_loop-totals (elem - 1) 1 (upd fetched (place 0) v) (omega arith) (omega arith)
          (write-IsAt (totals rnum place) fetched 0 v pos
            (ap (λ x. add32 x (rnum (place 0))) (at' 0 (omega arith) pos))
            (λ k lo lt. absurd (omega (arith, lt))))
          (keep-IsAt (sums rnum place) 1 elem fetched 0 v pos (omega arith) (inl (omega arith))
            (λ k lo lt. at' k (omega arith) lt))
