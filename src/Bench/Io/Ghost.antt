-- ===== src/Bench/Io/Ghost.antt =====
-- What is left of the size behind the loop of `io_read`, and what `mremap` makes of it in the
-- builds with USE_GHOST.
use open_ooc.Base.{
  ℕ, zero, suc, ◌+◌, ◌≡◌, ◌≢◌, inl, inr, Bool, true, not, Option, none, Run, ok, out_of_fuel, fault,
  ◌>>=◌, sym, subst, sub64, ◌==◌, eq-cases, ==-true, ==-false, if-true, if-false, if◌then◌else◌,
}
use open_ooc.Bench.Io.{
  IoState, IoSystem, IoBuild, got, move_loop, read_only, mprotect, close, issue, issue_if, done,
  read_start, read_end, io_read, mremap,
}

-- What holds of the result of a run that succeeds.
abbrev Ends : {A : Type 0} → (A → Type 0) → Run A → Type 0
Ends P (ok a) = P a
Ends P fault = Unit
Ends P out_of_fuel = Unit

Ends-bind :
    {A B : Type 0} (P : A → Type 0) (Q : B → Type 0) (m : Run A) (f : A → Run B)
    → Ends P m
    → ((a : A) → P a → Ends Q (f a))
    → Ends Q (m >>= f)
Ends-bind P Q (ok a) f p q = q a p
Ends-bind P Q fault f p q = tt
Ends-bind P Q out_of_fuel f p q = tt

Ends-any : {A : Type 0} (m : Run A) → Ends (λ a. Unit) m
Ends-any (ok a) = tt
Ends-any fault = tt
Ends-any out_of_fuel = tt

-- Whatever the calls do, nothing is left of the size when the loop ends.
move_loop-Ends :
    (move : ℕ → ℕ → IoState → Option (IoState × ℕ)) (fuel buf size : ℕ) (s : IoState)
    → Ends (λ r. r.1 ≡ 0) (move_loop move fuel buf size s)
unfolding move_loop
move_loop-Ends move zero buf size s = tt
move_loop-Ends move (suc fuel) buf size s =
    let next : IoState × ℕ → Run (IoState × ℕ) =
      λ (s₁, ret). move_loop move fuel (buf + ret) (sub64 size ret) s₁ in
    let IsEmpty : IoState × ℕ → Type 0 = λ r. r.1 ≡ 0 in
    Ends-bind (λ a. Unit) IsEmpty (got (move buf size s))
      (λ (s₁, ret). if sub64 size ret == 0 then ok (s₁, sub64 size ret) else next (s₁, ret))
      (Ends-any (got (move buf size s)))
      (λ (s₁, ret) any.
        let done = sub64 size ret in
        elim (eq-cases done 0) [
          | inl z ↦
              if-true (Ends IsEmpty) (done == 0) (ok (s₁, done)) (next (s₁, ret)) (==-true done 0 z)
                z
          | inr ne ↦
              if-false (Ends IsEmpty) (done == 0) (ok (s₁, done)) (next (s₁, ret))
                (==-false done 0 ne) (move_loop-Ends move fuel (buf + ret) (sub64 size ret) s₁)
        ])

-- Where `mremap` refuses the size 0, the part behind the loop fails with it.
read_end-refused :
    (sys : IoSystem) (libc : Bool) (tmp addr : ℕ) (s : IoState)
    → ((s : IoState) → sys.call (mremap tmp 0 0 addr) s ≡ none)
    → Ends (λ s'. ⊥) (read_end sys (record { ghost = true; libc = libc }) tmp 0 addr s)
unfolding read_end
read_end-refused sys libc tmp addr s refused =
    let Any : IoState → Type 0 = λ s. Unit in
    let Never : IoState → Type 0 = λ s. ⊥ in
    let remap = issue sys (mremap tmp 0 0 addr) in
    let protect = issue_if sys (not libc) (mprotect tmp 0 read_only) in
    Ends-bind Any Never (issue sys close s) (λ s₁. protect s₁ >>= remap)
      (Ends-any (issue sys close s))
      (λ s₁ a.
        Ends-bind Any Never (protect s₁) remap (Ends-any (protect s₁))
          (λ s₂ b. subst (λ r. Ends Never (done r)) (sym (refused s₂)) tt))

-- With USE_GHOST `mremap` gets the size that the loop has left, which is 0 whatever `read` returns.
-- Where it fails for the size 0, `io_read` does not return.
pub io_read-ghost :
    (sys : IoSystem) (libc : Bool) (fuel addr off size : ℕ) (s : IoState)
    → ((tmp : ℕ) (s : IoState) → sys.call (mremap tmp 0 0 addr) s ≡ none)
    → (s' : IoState)
    → io_read sys (record { ghost = true; libc = libc }) fuel addr off size s ≢ ok s'
unfolding io_read
io_read-ghost sys libc fuel addr off size s refused s' e = subst (Ends Never) e (
    Ends-bind Any Never (read_start sys build addr off size s)
      (λ s₁. move_loop sys.read fuel tmp size s₁ >>= finish)
      (Ends-any (read_start sys build addr off size s))
      (λ s₁ a.
        Ends-bind (λ r. r.1 ≡ 0) Never (move_loop sys.read fuel tmp size s₁) finish
          (move_loop-Ends sys.read fuel tmp size s₁) (λ (s₂, left) z. at_end s₂ left z)))
  where
    build : IoBuild
    build = record { ghost = true; libc = libc }

    tmp : ℕ
    tmp = sys.mapped size s

    Any : IoState → Type 0
    Any s = Unit

    Never : IoState → Type 0
    Never s = ⊥

    finish : IoState × ℕ → Run IoState
    finish (s₂, left) = read_end sys build tmp left addr s₂

    at_end : (s₂ : IoState) (left : ℕ) → left ≡ 0 → Ends Never (read_end sys build tmp left addr s₂)
    at_end s₂ left z =
        subst (λ n. Ends Never (read_end sys build tmp n addr s₂)) (sym z)
          (read_end-refused sys libc tmp addr s₂ (refused tmp))
