-- ===== src/Bench/Options/Mask.antt =====
-- The test of the size of the memory against the size of a page.
use native.Mathlib.Nat.{div-add-mod, one-le-pow}
use open_ooc.Bits.{bit_and, bit_and-mask, power-less}
use open_ooc.Base.{
  ℕ, ◌+◌, ◌-◌, ◌*◌, ◌/◌, ◌%◌, ◌^◌, ◌<◌, ◌≡◌, arith, ap, sym, ◌∙◌, List, word, sub64, ok, fault,
  ◌==◌, ==-true, assert, ◌>>◌, ◌⊎◌, ◌≢◌, eq-cases, inl, inr, ==-false,
}
use open_ooc.Bench.Options.{Options, parse_loop, parse, String}

-- What `_parse` returns, where the size of a page with its multiple is a power of two below 2^64:
-- it succeeds just where the memory is a whole number of pages, and then gives this number.
pub parse-pages :
    (atol : String → ℕ) (page : ℕ) (args : List String) (o : Options) (k : ℕ)
    → k < 64
    → page * (parse_loop atol args o).num_sys % word ≡ 2 ^ k
    → let o₁ = parse_loop atol args o in
      ((n : ℕ) × (o₁.num_mem ≡ 2 ^ k * n)
        × (parse atol page args o ≡ ok (record o₁ { siz_pag = 2 ^ k; num_pag = n })))
      ⊎ ((o₁.num_mem % 2 ^ k ≢ 0) × (parse atol page args o ≡ fault))
unfolding parse
parse-pages atol page args o k lt e = elim (eq-cases (mem % 2 ^ k) 0) [
  | inl z ↦ inl (
    mem / 2 ^ k,
    (let h = div-add-mod mem (2 ^ k) in
        sym h ∙ ap (λ x. 2 ^ k * (mem / 2 ^ k) + x) z ∙ omega arith),
    run ∙ ap (λ t. assert t >> ok (parsed (2 ^ k))) (==-true (mem % 2 ^ k) 0 z),
  )
  | inr n ↦ inr (n, run ∙ ap (λ t. assert t >> ok (parsed (2 ^ k))) (==-false (mem % 2 ^ k) 0 n))
]
  where
    mem : ℕ
    mem = (parse_loop atol args o).num_mem

    parsed : ℕ → Options
    parsed p = record (parse_loop atol args o) { siz_pag = p; num_pag = mem / p }

    pos : 0 < 2 ^ k
    pos = one-le-pow k 2 (omega arith)

    mask : sub64 (2 ^ k) 1 ≡ 2 ^ k - 1
    mask = let h = power-less k lt in let p = pos in omega (arith, h, p)

    run : parse atol page args o ≡ (assert (mem % 2 ^ k == 0) >> ok (parsed (2 ^ k)))
    run =
        ap (λ p. assert (bit_and 64 mem (sub64 p 1) == 0) >> ok (parsed p)) e
        ∙ ap (λ m. assert (bit_and 64 mem m == 0) >> ok (parsed (2 ^ k))) mask
        ∙ ap (λ x. assert (x == 0) >> ok (parsed (2 ^ k))) (bit_and-mask 64 k mem (omega arith))
