-- ===== src/Bench/Options/Tests.antt =====
-- Command lines of the benchmark, with pages of 4096 bytes.
use Prim.Native.String.{String}
use text.Mathlib.Text.{starts_with}
use open_ooc.Base.{
  ℕ, ◌*◌, ◌%◌, ◌^◌, ◌≡◌, ◌≢◌, ◌⊎◌, refl, arith, List, [], ◌∷◌, if◌then◌else◌, ok, fault,
}
use open_ooc.Bench.Options.{Options, parse, parse_loop}
use open_ooc.Bench.Options.Mask.{parse-pages}

-- `atol` on the numbers below.
abbrev some_atol : String → ℕ
some_atol s =
    if starts_with s "16384"
    then 16384
    else if starts_with s "2"
    then 2
    else if starts_with s "3"
    then 3
    else 0

abbrev defaults : Options
defaults = record {
  num_mem = 1610612736;
  num_sys = 1;
  tmpfile = "/scratch/micro1";
  siz_pag = 0;
  num_pag = 0;
}

abbrev two_pages : List String
two_pages = "--mem=16384" ∷ "--sys=2" ∷ "--file=f" ∷ []

parse-pages_example :
    let o₁ = parse_loop some_atol two_pages defaults in
    ((n : ℕ) × (o₁.num_mem ≡ 2 ^ 13 * n)
      × (parse some_atol 4096 two_pages defaults
          ≡ ok (record o₁ { siz_pag = 2 ^ 13; num_pag = n })))
    ⊎ ((o₁.num_mem % 2 ^ 13 ≢ 0) × (parse some_atol 4096 two_pages defaults ≡ fault))
unfolding parse
parse-pages_example = parse-pages some_atol 4096 two_pages defaults 13 (omega arith) refl

-- A multiple that is no power of two passes the test, with a rest: 16384 is not a multiple of
-- 12288.
three :
    parse some_atol 4096 ("--mem=16384" ∷ "--sys=3" ∷ []) defaults
    ≡ ok (record defaults { num_mem = 16384; num_sys = 3; siz_pag = 12288; num_pag = 1 })
unfolding parse
three = refl
