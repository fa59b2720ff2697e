-- ===== src/Mm.antt =====
-- The kernel `mm` of apps/mm.c: one row of a matrix product. The numbers are a parameter, with
-- their sum and product; nothing is asked of these. The arrays do not overlap, as in `main`.
pub mod Row
mod Tests
use open_ooc.Base.{ℕ, zero, suc, ◌+◌, ◌-◌, ◌*◌, upd}

-- `struct args`
pub record Args (V : Type 0) : Type 0 where
  pub n : ℕ
  pub p : ℕ
  pub a : ℕ → V
  pub b : ℕ → V

module _ {V : Type 0} (add mul : V → V → V) (args : Args V) (i : ℕ) where
  -- `a(i,k)*b(k,j)`
  unfoldable pub product : ℕ → ℕ → V
  product j k = mul (args.a (i * args.n + k)) (args.b (k * args.p + j))

  -- `count` passes of the loop over `k`.
  pub sum_loop : ℕ → ℕ → ℕ → (ℕ → V) → ℕ → V
  unfolding product
  sum_loop zero j k c = c
  sum_loop (suc count) j k c =
      let x = i * args.p + j in sum_loop count j (suc k) (upd c x (add (c x) (product j k)))

  -- The body of the loop over `j`.
  pub cell : ℕ → (ℕ → V) → ℕ → V
  unfolding product sum_loop
  cell j c = sum_loop (args.p - 1) j 1 (upd c (i * args.p + j) (product j 0))

  -- `count` passes of the loop over `j`.
  pub row_loop : ℕ → ℕ → (ℕ → V) → ℕ → V
  unfolding cell
  row_loop zero j c = c
  row_loop (suc count) j c = row_loop count (suc j) (cell j c)

  -- The new contents of `c`.
  pub mm : (ℕ → V) → ℕ → V
  unfolding row_loop
  mm c = row_loop args.n 0 c
