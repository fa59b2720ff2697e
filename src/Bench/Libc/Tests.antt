-- ===== src/Bench/Libc/Tests.antt =====
-- The memory of `mmap` on the system that moves two bytes at most.
use open_ooc.Base.{ℕ, ◌+◌, ◌≤◌, ◌<◌, ◌≡◌, refl, arith, ok, ◌>>=◌}
use open_ooc.Bench.Io.Tiny.{tiny, tiny-Transfers, tiny-Succeeds, fresh}
use open_ooc.Bench.Libc.{Libc, LibcSystem, impl_flush, impl_fetch_bulk}
use open_ooc.Bench.Libc.Fetch.{save, bulk, impl_fetch_bulk-impl_flush}

abbrev host : LibcSystem
host = record { io = tiny; page = 4; map = λ n io. (io, 100) }

abbrev eight : Libc
eight = record { num_mem = 8; siz_pag = 4; base = 100; io = fresh }

impl_fetch_bulk-impl_flush_example :
    (s' : Libc) × ((save host 8 eight >>= λ s₁.
    impl_fetch_bulk host bulk 8 100 0 8 (impl_flush bulk s₁))
      ≡ ok s')
    × ((x : ℕ) → 100 ≤ x → x < 100 + 8 → s'.io.memory x ≡ eight.io.memory x)
impl_fetch_bulk-impl_flush_example =
    impl_fetch_bulk-impl_flush host 8 eight tiny-Succeeds tiny-Transfers (omega arith) (omega arith)
      (omega arith) refl
