-- ===== src/Base.antt =====
-- The names that the other modules share: the libraries', passed on, Boolean tests on the native
-- numbers, the conditional, array writes, and the outcome of a run.
pub use Prim.Native.Nat.{ℕ, zero, suc, ◌+◌, ◌-◌, ◌*◌, ◌/◌, ◌%◌, ◌^◌, ◌≤◌, ◌<◌}
pub use mathlib.Core.Path.{◌≡◌, refl, sym, ap, ◌∙◌, subst}
pub use mathlib.Core.Logic.{◌≢◌, ◌⊎◌, inl, inr}
pub use mathlib.Core.Bool.{Bool, true, false, ◌&&◌, ◌||◌, not}
pub use mathlib.Core.Option.{Option, none, some}
pub use mathlib.Core.List.{List, [], ◌∷◌, ◌++◌, append_assoc, append-nil}
pub use native.Mathlib.Omega.{arith}
use Prim.Native.Nat.{compare, Ordering}

abbrev pub ltb : ℕ → ℕ → Bool
ltb a b = elim (compare a b) [ Ordering.lt ↦ true | _ ↦ false ]

abbrev pub leb : ℕ → ℕ → Bool
leb a b = elim (compare a b) [ Ordering.gt ↦ false | _ ↦ true ]

infix 50 ◌==◌
abbrev pub ◌==◌ : ℕ → ℕ → Bool
a == b = elim (compare a b) [ Ordering.eq ↦ true | _ ↦ false ]

-- The number of values of `size_t`, with its sum and difference.
abbrev pub word : ℕ
word = 2 ^ 64

abbrev pub add64 : ℕ → ℕ → ℕ
add64 a b = (a + b) % word

abbrev pub sub64 : ℕ → ℕ → ℕ
sub64 a b = (a + (word - b)) % word

infix 1 if◌then◌else◌
abbrev pub if◌then◌else◌ {ℓ} : {A : Type ℓ} → Bool → A → A → A
if true then x else y = x
if false then x else y = y

pub Bool-cases : (b : Bool) → (b ≡ true) ⊎ (b ≡ false)
Bool-cases true = inl refl
Bool-cases false = inr refl

pub eq-cases : (a b : ℕ) → (a ≡ b) ⊎ (a ≢ b)
eq-cases a b = ground arith

pub lt-cases : (a b : ℕ) → (a < b) ⊎ (b ≤ a)
lt-cases a b = ground arith

pub ==-true : (a b : ℕ) → a ≡ b → (a == b) ≡ true
==-true a b e = ground arith

pub ==-false : (a b : ℕ) → a ≢ b → (a == b) ≡ false
==-false a b ne = ground arith

pub ltb-same : (a b : ℕ) → a ≡ b → ltb a b ≡ false
ltb-same a b e = ground arith

-- A property of a conditional, from the value of its test.
module _ {ℓ κ} {A : Type ℓ} (P : A → Type κ) where
  pub if-true : (b : Bool) (x y : A) → b ≡ true → P x → P (if b then x else y)
  if-true true x y e h = h
  if-true false x y e h = absurd (cc)

  pub if-false : (b : Bool) (x y : A) → b ≡ false → P y → P (if b then x else y)
  if-false true x y e h = absurd (cc)
  if-false false x y e h = h

pub eq_zero : (p : ℕ) → p ≡ 0 → (p == 0) ≡ true
eq_zero p e = ground arith

pub ne_zero : (p a : ℕ) → p ≡ a → 1 < a → (p == 0) ≡ false
ne_zero p a e lt = ground arith

-- An array, indexed by an address, with the value at one address replaced.
abbrev pub upd {ℓ} : {A : Type ℓ} → (ℕ → A) → ℕ → A → ℕ → A
upd f a v x = if x == a then v else f x

pub upd_self : (f : ℕ → ℕ) (a v : ℕ) → upd f a v a ≡ v
upd_self f a v = ground arith

pub upd-other : (f : ℕ → ℕ) (a x v : ℕ) → (x ≡ a) ⊎ (upd f a v x ≡ f x)
upd-other f a x v = ground arith

module _ {V : Type 0} (f : ℕ → V) (a : ℕ) (v : V) where
  pub upd_same : upd f a v a ≡ v
  upd_same = rw (==-true a a refl) refl

  pub upd_ne : (x : ℕ) → x ≢ a → upd f a v x ≡ f x
  upd_ne x ne = rw (==-false x a ne) refl

module _ {ℓ} {A : Type ℓ} where
  abbrev pub length : List A → ℕ
  length [] = 0
  length (_ ∷ xs) = suc (length xs)

-- What a run of C code comes to: a value, an abort (a failed `assert`, or an access through a null
-- pointer), or the fuel of a loop running out.
pub data Run (A : Type 0) : Type 0 where
  ok : A → Run A
  fault : Run A
  out_of_fuel : Run A

infixl 5 ◌>>=◌ ◌>>◌
abbrev pub ◌>>=◌ : {A B : Type 0} → Run A → (A → Run B) → Run B
ok a >>= f = f a
fault >>= f = fault
out_of_fuel >>= f = out_of_fuel

abbrev pub ◌>>◌ : {B : Type 0} → Run (Unit {0}) → Run B → Run B
m >> k = m >>= λ _. k

-- `assert(b)`, and the access that needs `b`.
abbrev pub assert : Bool → Run (Unit {0})
assert true = ok tt
assert false = fault

pub assert-true : {A : Type 0} (b : Bool) (m : Run A) → b ≡ true → (assert b >> m) ≡ m
assert-true b m e = ap (λ t. assert t >> m) e

pub asserted : {A : Type 0} (a b : ℕ) (m : Run A) → a ≡ b → (assert (a == b) >> m) ≡ m
asserted a b m e = assert-true (a == b) m (==-true a b e)
