-- ===== src/Bench/Io/Transfer.antt =====
-- The loops of bench/impl/io.c move all bytes, however few each call of the system moves.
use open_ooc.Base.{
  ℕ, zero, suc, ◌+◌, ◌-◌, ◌≤◌, ◌<◌, ◌≡◌, ◌⊎◌, inl, inr, refl, arith, Option, some, Run, ok,
  out_of_fuel, ◌>>=◌, ap, ◌∙◌, subst, word, sub64, ◌==◌, eq-cases, ==-true, ==-false, if-true,
  if-false, lt-cases, if◌then◌else◌,
}
use open_ooc.Bench.Io.{IoState, IoSystem, got, move_loop}

-- `k` bytes from the file's position on are in memory from `buf` on.
pub record Loaded (buf k : ℕ) (s s' : IoState) : Type 0 where
  pub inside : (i : ℕ) → i < k → s'.memory (buf + i) ≡ s.file (s.position + i)
  pub outside : (x : ℕ) → (x < buf) ⊎ (buf + k ≤ x) → s'.memory x ≡ s.memory x
  pub position : s'.position ≡ s.position + k
  pub file : s'.file ≡ s.file
  pub length : s'.length ≡ s.length
  pub is_there : s'.is_there ≡ s.is_there

-- `k` bytes from `buf` on are in the file from its position on.
pub record Stored (buf k : ℕ) (s s' : IoState) : Type 0 where
  pub inside : (i : ℕ) → i < k → s'.file (s.position + i) ≡ s.memory (buf + i)
  pub outside : (x : ℕ) → (x < s.position) ⊎ (s.position + k ≤ x) → s'.file x ≡ s.file x
  pub position : s'.position ≡ s.position + k
  pub memory : s'.memory ≡ s.memory
  pub length : s'.position ≤ s'.length
  pub is_there : s'.is_there ≡ s.is_there

-- One call moves some of the bytes, where there are any: `read` as far as the file goes.
pub record Transfers (sys : IoSystem) : Type 0 where
  pub read :
      (buf n : ℕ) (s : IoState)
      → s.position + n ≤ s.length
      → (s' : IoState) × (k : ℕ) × (sys.read buf n s ≡ some (s', k))
        × (k ≤ n)
        × (0 < n → 0 < k)
        × Loaded buf k s s'
  pub write :
      (buf n : ℕ) (s : IoState)
      → (s' : IoState) × (k : ℕ) × (sys.write buf n s ≡ some (s', k))
        × (k ≤ n)
        × (0 < n → 0 < k)
        × Stored buf k s s'

sub64-minus : (n k : ℕ) → k ≤ n → n < word → sub64 n k ≡ n - k
sub64-minus n k le lt = omega arith

-- Two moves, one behind the other.
Loaded-append :
    (buf k n : ℕ) (s s₁ s₂ : IoState)
    → Loaded buf k s s₁
    → Loaded (buf + k) n s₁ s₂
    → Loaded buf (k + n) s s₂
Loaded-append buf k n s s₁ s₂ w z = record {
  inside = λ i lt. elim (lt-cases i k) [
    | inl l ↦ z.outside (buf + i) (inl (omega arith)) ∙ w.inside i l
    | inr le ↦
        subst (λ y. s₂.memory y ≡ s.file (s.position + i)) {x = buf + k + (i - k)} (omega arith)
          (z.inside (i - k) (omega arith)
            ∙ ap (λ f. f (s₁.position + (i - k))) w.file
            ∙ ap s.file (omega (arith, w.position)))
  ];
  outside = λ x out. z.outside x (apart x out) ∙ w.outside x (apart' x out);
  position = omega (arith, w.position, z.position);
  file = z.file ∙ w.file;
  length = z.length ∙ w.length;
  is_there = z.is_there ∙ w.is_there;
}
  where
    apart : (x : ℕ) → (x < buf) ⊎ (buf + (k + n) ≤ x) → (x < buf + k) ⊎ (buf + k + n ≤ x)
    apart x (inl l) = inl (omega arith)
    apart x (inr l) = inr (omega arith)

    apart' : (x : ℕ) → (x < buf) ⊎ (buf + (k + n) ≤ x) → (x < buf) ⊎ (buf + k ≤ x)
    apart' x (inl l) = inl l
    apart' x (inr l) = inr (omega arith)

Stored-append :
    (buf k n : ℕ) (s s₁ s₂ : IoState)
    → Stored buf k s s₁
    → Stored (buf + k) n s₁ s₂
    → Stored buf (k + n) s s₂
Stored-append buf k n s s₁ s₂ w z = record {
  inside = λ i lt. elim (lt-cases i k) [
    | inl l ↦ z.outside (s.position + i) (inl (omega (arith, w.position, l))) ∙ w.inside i l
    | inr le ↦
        subst (λ y. s₂.file y ≡ s.memory (buf + i)) {x = s₁.position + (i - k)}
          (omega (arith, w.position, le))
          (z.inside (i - k) (omega arith)
            ∙ ap (λ f. f (buf + k + (i - k))) w.memory
            ∙ ap s.memory (omega arith))
  ];
  outside = λ x out. z.outside x (apart x out) ∙ w.outside x (apart' x out);
  position = omega (arith, w.position, z.position);
  memory = z.memory ∙ w.memory;
  length = z.length;
  is_there = z.is_there ∙ w.is_there;
}
  where
    apart :
        (x : ℕ)
        → (x < s.position) ⊎ (s.position + (k + n) ≤ x)
        → (x < s₁.position) ⊎ (s₁.position + n ≤ x)
    apart x (inl l) = inl (omega (arith, w.position, l))
    apart x (inr l) = inr (omega (arith, w.position, l))

    apart' :
        (x : ℕ)
        → (x < s.position) ⊎ (s.position + (k + n) ≤ x)
        → (x < s.position) ⊎ (s.position + k ≤ x)
    apart' x (inl l) = inl l
    apart' x (inr l) = inr (omega arith)

-- The loop over any such call: `R` is what a move of bytes does, and `IsThere` what it asks for.
module _ (move : ℕ → ℕ → IoState → Option (IoState × ℕ)) (R : ℕ → ℕ → IoState → IoState → Type 0)
    (IsThere : ℕ → IoState → Type 0)
    (one : (buf n : ℕ) (s : IoState)
      → IsThere n s
      → (s' : IoState) × (k : ℕ) × (move buf n s ≡ some (s', k))
        × (k ≤ n)
        × (0 < n → 0 < k)
        × R buf k s s'
        × IsThere (n - k) s')
    (append : (buf k n : ℕ) (s s₁ s₂ : IoState)
      → R buf k s s₁
      → R (buf + k) n s₁ s₂
      → R buf (k + n) s s₂) where
  move_loop-all :
      (fuel buf size : ℕ) (s : IoState)
      → 0 < fuel
      → size ≤ fuel
      → size < word
      → IsThere size s
      → (s' : IoState) × (move_loop move fuel buf size s ≡ ok (s', 0)) × R buf size s s'
  unfolding move_loop
  move_loop-all zero buf size s pos enough fits there = absurd (omega arith)
  move_loop-all (suc fuel) buf size s pos enough fits there =
      let (s₁, k, e, le, progress, w, there') = one buf size s there in
      let left = sub64-minus size k le fits in
      let next : ℕ → Run (IoState × ℕ) = λ n. move_loop move fuel (buf + k) n s₁ in
      let run : move_loop move (suc fuel) buf size s
          ≡ (if sub64 size k == 0 then ok (s₁, sub64 size k) else next (sub64 size k)) =
        ap
          (λ r. got r >>= λ (s₁, ret).
            if sub64 size ret == 0
            then ok (s₁, sub64 size ret)
            else move_loop move fuel (buf + ret) (sub64 size ret) s₁)
          e in
      elim (eq-cases k size) [
        | inl all ↦
            let z : sub64 size k ≡ 0 = omega (arith, left, all) in
            (
              s₁,
              run
                  ∙ if-true (λ r. r ≡ ok (s₁, 0)) (sub64 size k == 0) (ok (s₁, sub64 size k))
                      (next (sub64 size k)) (==-true (sub64 size k) 0 z) (ap (λ n. ok (s₁, n)) z),
              subst (λ n. R buf n s s₁) all w,
            )
        | inr fewer ↦
            let k_pos = progress (omega (arith, fewer, le)) in
            let (s₂, run₂, z) =
              move_loop-all fuel (buf + k) (size - k) s₁ (omega (arith, k_pos, enough, le, fewer))
                (omega (arith, k_pos)) (omega arith) there' in
            (
              s₂,
              run
                  ∙ if-false (λ r. r ≡ ok (s₂, 0)) (sub64 size k == 0) (ok (s₁, sub64 size k))
                      (next (sub64 size k))
                      (==-false (sub64 size k) 0 (λ q. absurd (omega (arith, left, fewer, le, q))))
                      (ap next left ∙ run₂),
              subst (λ n. R buf n s s₂) {x = k + (size - k)} (omega (arith, le))
                  (append buf k (size - k) s s₁ s₂ w z),
            )
      ]

module _ (sys : IoSystem) (law : Transfers sys) where
  -- Where the file has the bytes, and with fuel for each of them and for one pass, the loop of
  -- `io_read` ends, and has moved them all.
  pub read_loop-Loaded :
      (fuel buf size : ℕ) (s : IoState)
      → 0 < fuel
      → size ≤ fuel
      → size < word
      → s.position + size ≤ s.length
      → (s' : IoState) × (move_loop sys.read fuel buf size s ≡ ok (s', 0)) × Loaded buf size s s'
  read_loop-Loaded =
      move_loop-all sys.read Loaded (λ n s. s.position + n ≤ s.length)
        (λ buf n s there.
          let (s', k, e, le, progress, w) = law.read buf n s there in
          (s', k, e, le, progress, w, omega (arith, le, there, w.position, w.length)))
        Loaded-append

  -- So does that of `io_write`.
  pub write_loop-Stored :
      (fuel buf size : ℕ) (s : IoState)
      → 0 < fuel
      → size ≤ fuel
      → size < word
      → (s' : IoState) × (move_loop sys.write fuel buf size s ≡ ok (s', 0)) × Stored buf size s s'
  write_loop-Stored fuel buf size s pos enough fits =
      move_loop-all sys.write Stored (λ n s. Unit)
        (λ buf n s there.
          let (s', k, e, le, progress, w) = law.write buf n s in (s', k, e, le, progress, w, tt))
        Stored-append fuel buf size s pos enough fits tt

-- At the end of the file, where `read` returns 0 for each request, the loop never ends.
pub read_loop-endless :
    (sys : IoSystem) (fuel buf size : ℕ) (s : IoState)
    → ((buf n : ℕ) → sys.read buf n s ≡ some (s, 0))
    → 0 < size
    → size < word
    → move_loop sys.read fuel buf size s ≡ out_of_fuel
unfolding move_loop
read_loop-endless sys zero buf size s nothing pos fits = refl
read_loop-endless sys (suc fuel) buf size s nothing pos fits =
    let left = sub64-minus size 0 (omega arith) fits in
    let all : sub64 size 0 ≡ size = omega (arith, left) in
    let next : ℕ → Run (IoState × ℕ) = λ n. move_loop sys.read fuel (buf + 0) n s in
    ap
      (λ r. got r >>= λ (s₁, ret).
        if sub64 size ret == 0
        then ok (s₁, sub64 size ret)
        else move_loop sys.read fuel (buf + ret) (sub64 size ret) s₁)
      (nothing buf size)
    ∙ if-false (λ r. r ≡ out_of_fuel) (sub64 size 0 == 0) (ok (s, sub64 size 0))
        (next (sub64 size 0))
        (==-false (sub64 size 0) 0 (λ q. absurd (omega (arith, left, pos, q))))
        (ap next all ∙ read_loop-endless sys fuel (buf + 0) size s nothing pos fits)
