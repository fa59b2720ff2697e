-- ===== src/Bits.antt =====
-- The operators `&` and `~` of C on a word, and the masks of powers of two.
use native.Mathlib.Nat.{
  mod-lt, div-add-mod, mul-add-mod_self_left, mod-eq_of_lt, pow-succ', mod-one, mul_assoc,
  one-le-pow, pow-le-pow_right,
}
use open_ooc.Base.{
  ℕ, zero, suc, ◌+◌, ◌-◌, ◌*◌, ◌/◌, ◌%◌, ◌^◌, ◌≤◌, ◌<◌, ◌≡◌, refl, arith, ap, sym, ◌∙◌, word, sub64,
}

-- `&` on the low bits, as many as the first number says.
unfoldable pub bit_and : ℕ → ℕ → ℕ → ℕ
bit_and zero a b = 0
bit_and (suc bits) a b = a % 2 * (b % 2) + 2 * bit_and bits (a / 2) (b / 2)

-- `~` on 64 bits.
unfoldable pub bit_not : ℕ → ℕ
bit_not x = word - 1 - x

mod_double : (a m : ℕ) → 0 < m → a % (2 * m) ≡ a % 2 * 1 + 2 * (a / 2 % m)
mod_double a m pos =
    let q : ℕ = a / 2 in
    let h₁ : m * (q / m) + q % m ≡ q = div-add-mod q m in
    let h₂ : q % m < m = mod-lt q pos in
    let parts : 2 * m * (q / m) + (2 * (q % m) + a % 2) ≡ a =
      ap (λ x. x + (2 * (q % m) + a % 2)) (mul_assoc 2 m (q / m)) ∙ omega (arith, h₁) in
    ap (λ x. x % (2 * m)) (sym parts)
    ∙ mul-add-mod_self_left (2 * m) (q / m) (2 * (q % m) + a % 2)
    ∙ mod-eq_of_lt {n = 2 * (q % m) + a % 2} {m = 2 * m} (omega (arith, h₂))
    ∙ omega arith

bit_and-zero : (bits a : ℕ) → bit_and bits a 0 ≡ 0
unfolding bit_and
bit_and-zero zero a = refl
bit_and-zero (suc bits) a = let h = bit_and-zero bits (a / 2) in omega (arith, h)

-- The mask of a power of two takes the remainder.
pub bit_and-mask : (bits k a : ℕ) → k ≤ bits → bit_and bits a (2 ^ k - 1) ≡ a % 2 ^ k
unfolding bit_and
bit_and-mask bits zero a le = bit_and-zero bits a ∙ sym (mod-one a)
bit_and-mask zero (suc k) a le = absurd (omega (arith, le))
bit_and-mask (suc bits) (suc k) a le =
    let m : ℕ = 2 ^ k in
    let pos : 0 < m = one-le-pow k 2 (omega arith) in
    let double : 2 ^ suc k ≡ 2 * m = pow-succ' 2 k in
    let rest = bit_and-mask bits k (a / 2) (omega (arith, le)) in
    let odd : (2 ^ suc k - 1) % 2 ≡ 1 = omega (arith, double, pos) in
    let half : (2 ^ suc k - 1) / 2 ≡ m - 1 = omega (arith, double, pos) in
    ap (λ x. a % 2 * x + 2 * bit_and bits (a / 2) ((2 ^ suc k - 1) / 2)) odd
    ∙ ap (λ x. a % 2 * 1 + 2 * bit_and bits (a / 2) x) half
    ∙ ap (λ x. a % 2 * 1 + 2 * x) rest
    ∙ sym (mod_double a m pos)
    ∙ ap (λ x. a % x) (sym double)

pub power-less : (k : ℕ) → k < 64 → 2 ^ k < word
power-less k lt =
    let h : 2 ^ k ≤ 2 ^ 63 =
      pow-le-pow_right {n = 2} (omega arith) {i = k} {j = 63} (omega arith) in
    omega (arith, h)

-- The complement of this mask takes the remainder off.
bit_and-high :
    (bits k a : ℕ) → k ≤ bits → a < 2 ^ bits → bit_and bits a (2 ^ bits - 2 ^ k) ≡ a - a % 2 ^ k
unfolding bit_and
bit_and-high bits zero a le lt =
    let one : a % 1 ≡ 0 = mod-one a in
    bit_and-mask bits bits a (omega arith) ∙ mod-eq_of_lt lt ∙ omega (arith, one)
bit_and-high zero (suc k) a le lt = absurd (omega (arith, le))
bit_and-high (suc bits) (suc k) a le lt =
    let m : ℕ = 2 ^ k in
    let w : ℕ = 2 ^ bits in
    let pos : 0 < m = one-le-pow k 2 (omega arith) in
    let double : 2 ^ suc k ≡ 2 * m = pow-succ' 2 k in
    let double_w : 2 ^ suc bits ≡ 2 * w = pow-succ' 2 bits in
    let rest : bit_and bits (a / 2) (w - m) ≡ a / 2 - a / 2 % m =
      bit_and-high bits k (a / 2) (omega (arith, le)) (omega (arith, lt, double_w)) in
    let even : (2 ^ suc bits - 2 ^ suc k) % 2 ≡ 0 = omega (arith, double, double_w) in
    let half : (2 ^ suc bits - 2 ^ suc k) / 2 ≡ w - m = omega (arith, double, double_w) in
    let parts : a % 2 ^ suc k ≡ a % 2 * 1 + 2 * (a / 2 % m) =
      ap (λ x. a % x) double ∙ mod_double a m pos in
    ap (λ x. a % 2 * x + 2 * bit_and bits (a / 2) ((2 ^ suc bits - 2 ^ suc k) / 2)) even
    ∙ ap (λ x. a % 2 * 0 + 2 * bit_and bits (a / 2) x) half
    ∙ ap (λ x. a % 2 * 0 + 2 * x) rest
    ∙ omega (arith, parts)

-- `& ~(page-1)` takes the remainder off, where the size of a page is a power of two.
pub bit_and-bit_not :
    (page k a : ℕ)
    → page ≡ 2 ^ k
    → k < 64
    → a < word
    → bit_and 64 a (bit_not (sub64 page 1)) ≡ a - a % page
unfolding bit_not
bit_and-bit_not page k a e lt fits =
    let p : 2 ^ k < word = power-less k lt in
    let pos : 0 < 2 ^ k = one-le-pow k 2 (omega arith) in
    let mask : word - 1 - sub64 page 1 ≡ word - 2 ^ k = omega (arith, e, p, pos) in
    ap (bit_and 64 a) mask
    ∙ bit_and-high 64 k a (omega (arith, lt)) fits
    ∙ ap (λ q. a - a % q) (sym e)
