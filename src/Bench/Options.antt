-- ===== src/Bench/Options.antt =====
-- The options of the benchmark: `_parse` of bench/micro.c. `page` is `sysconf(_SC_PAGESIZE)`, and
-- `atol` the function of that name, which are of the system.
pub mod Mask
mod Tests
use Prim.Native.String.{String, slice, len}
use text.Mathlib.Text.{starts_with}
use open_ooc.Bits.{bit_and}
use open_ooc.Base.{
  ℕ, zero, suc, ◌+◌, ◌-◌, ◌*◌, ◌/◌, ◌%◌, sub64, word, ◌==◌, if◌then◌else◌, List, [], ◌∷◌, Run, ok,
  ◌>>=◌, ◌>>◌, assert,
}

-- `NUM_MEM`, `NUM_SYS`, `TMPFILE`, `SIZ_PAG` and `NUM_PAG`
pub record Options : Type 0 where
  pub num_mem : ℕ
  pub num_sys : ℕ
  pub tmpfile : String
  pub siz_pag : ℕ
  pub num_pag : ℕ

module _ (atol : String → ℕ) where
  abbrev pub parse_argument : String → Options → Options
  parse_argument arg o =
      if starts_with arg "--mem="
      then record o { num_mem = atol (slice arg 6 (len arg)) }
      else if starts_with arg "--sys="
      then record o { num_sys = atol (slice arg 6 (len arg)) }
      else if starts_with arg "--file="
      then record o { tmpfile = slice arg 7 (len arg) }
      else o

  -- The loop over the arguments behind the program's name.
  unfoldable pub parse_loop : List String → Options → Options
  parse_loop [] o = o
  parse_loop (arg ∷ args) o = parse_loop args (parse_argument arg o)

  unfoldable pub parse : ℕ → List String → Options → Run Options
  unfolding parse_loop bit_and
  parse page args o =
      let o₁ = parse_loop args o in
      let siz_pag = page * o₁.num_sys % word in
      do
        assert (bit_and 64 o₁.num_mem (sub64 siz_pag 1) == 0)
        ok (record o₁ { siz_pag = siz_pag; num_pag = o₁.num_mem / siz_pag })
