-- ===== src/Bench/Io/Tests.antt =====
-- Runs on a system that moves two bytes at most.
use open_ooc.Base.{
  ℕ, ◌+◌, ◌≤◌, ◌<◌, ◌≡◌, refl, arith, true, false, some, ok, ◌⊎◌, out_of_fuel, ◌>>=◌, ◌≢◌,
}
use open_ooc.Bench.Io.{IoState, IoSystem, move_loop, io_read, io_write}
use open_ooc.Bench.Io.Transfer.{Loaded, read_loop-Loaded, read_loop-endless}
use open_ooc.Bench.Io.Ghost.{io_read-ghost}
use open_ooc.Bench.Io.Load.{io_read-io_write}
use open_ooc.Bench.Io.Tiny.{tiny, tiny-Transfers, tiny-Succeeds, fresh, written}

io_read-io_write_example :
    (s' : IoState) × ((io_write tiny 5 100 5 fresh
        >>= io_read tiny (record { ghost = false; libc = false }) 5 300 1 3)
      ≡ ok s')
    × ((i : ℕ) → i < 3 → s'.memory (300 + i) ≡ fresh.memory (100 + 1 + i))
    × ((x : ℕ) → (x < 300) ⊎ (300 + 3 ≤ x) → s'.memory x ≡ fresh.memory x)
io_read-io_write_example =
    io_read-io_write tiny tiny-Succeeds tiny-Transfers false 5 100 5 300 1 3 fresh (omega arith)
      (omega arith) (omega arith) (omega arith) refl

read_loop-Loaded_example :
    (s' : IoState) × (move_loop tiny.read 5 100 5 written ≡ ok (s', 0)) × Loaded 100 5 written s'
read_loop-Loaded_example =
    read_loop-Loaded tiny tiny-Transfers 5 100 5 written (omega arith) (omega arith) (omega arith)
      (omega arith)

-- A system whose file is empty.
abbrev empty : IoSystem
empty = record tiny { read = λ buf n s. some (s, 0) }

read_loop-endless_example : move_loop empty.read 1000 100 5 written ≡ out_of_fuel
read_loop-endless_example =
    read_loop-endless empty 1000 100 5 written (λ buf n. refl) (omega arith) (omega arith)

io_read-ghost_example :
    io_read tiny (record { ghost = true; libc = false }) 5 100 0 5 written ≢ ok fresh
io_read-ghost_example = io_read-ghost tiny false 5 100 0 5 written (λ tmp s. refl) fresh
