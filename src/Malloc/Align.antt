-- ===== src/Malloc/Align.antt =====
-- `ALIGN` rounds up to a multiple of the page size.
use open_ooc.Base.{
  word, ℕ, ◌+◌, ◌-◌, ◌*◌, ◌%◌, ◌/◌, ◌^◌, ◌≤◌, ◌<◌, ◌≡◌, arith, ap, ◌∙◌, sub64, subst, sym,
}
use open_ooc.Bits.{bit_and, bit_not, bit_and-bit_not}
use open_ooc.Malloc.{align}
use native.Mathlib.Nat.{mod-lt, div-add-mod, mod-eq_of_lt, one-le-pow}

-- What it does to the remainder.
rounded :
    (page m a : ℕ)
    → 0 < page
    → a ≡ m + page - 1 - (m + page - 1) % page
    → ((n : ℕ) × (a ≡ page * n)) × (m ≤ a) × (a < m + page)
rounded page m a pos e =
    let x = m + page - 1 in
    let q = div-add-mod x page in
    let r = mod-lt x pos in
    ((x / page, omega (arith, e, q)), omega (arith, e, r, pos), omega (arith, e, r, pos))

-- Where the size of a page is a power of two and the sum does not overflow, `ALIGN(m)` is a
-- multiple of the size of a page, not below `m`, and less than a page above it.
pub align-rounds :
    (page k m : ℕ)
    → page ≡ 2 ^ k
    → k < 64
    → m + page < word
    → ((n : ℕ) × (align page m ≡ page * n)) × (m ≤ align page m) × (align page m < m + page)
unfolding align
align-rounds page k m two small fits =
    let pos : 0 < page = subst (λ q. 0 < q) (sym two) (one-le-pow k 2 (omega arith)) in
    let x = m + page - 1 in
    let w : sub64 ((m + page) % word) 1 ≡ x =
      ap (λ s. sub64 s 1) (mod-eq_of_lt fits) ∙ omega (arith, pos, fits) in
    rounded page m (align page m) pos (
      ap (λ s. bit_and 64 s (bit_not (sub64 page 1))) w
      ∙ bit_and-bit_not page k x two small (omega (arith, pos, fits)))
