-- ===== src/Bench/Micro/Tests.antt =====
-- The benchmark on four elements, with numbers that look random.
use open_ooc.Base.{ℕ, ◌+◌, ◌-◌, ◌*◌, ◌≡◌, refl, arith, true, false, fault}
use open_ooc.Bench.Micro.{
  Timespec, getelapsed, Array, MicroBuild, libc_elements, random_array, micro,
}
use open_ooc.Bench.Micro.Elapsed.{nanoseconds, getelapsed-nanoseconds}
use open_ooc.Bench.Micro.Order.{IsOrder, random_array-IsOrder}

abbrev start : Timespec
start = record { tv_sec = 7; tv_nsec = 900000000 }

abbrev stop : Timespec
stop = record { tv_sec = 8; tv_nsec = 100000000 }

getelapsed-nanoseconds_example : nanoseconds start + getelapsed start stop ≡ nanoseconds stop
getelapsed-nanoseconds_example =
    getelapsed-nanoseconds start stop (omega arith) (omega arith) (omega arith) (omega arith)

elapsed_run : getelapsed start stop ≡ 200000000
unfolding getelapsed
elapsed_run = refl

abbrev numbers : ℕ → ℕ
numbers i = 7 * i + 5

abbrev garbage : Array
garbage x = 99

random_array-IsOrder_example :
    IsOrder 4 (random_array numbers 4 garbage) × (random_array numbers 4 garbage (4 - 1) ≡ 4 - 1)
random_array-IsOrder_example = random_array-IsOrder numbers 4 garbage (omega arith) (omega arith)

order_run : random_array numbers 4 garbage 0 ≡ 2
unfolding random_array
order_run = refl

abbrev whole : MicroBuild
whole = record { rand = true; load = true; wr = true; rd = true; rw = true }

-- Without USE_WR the flush behind the check takes the elements from the file to be.
lost : micro (record whole { wr = false }) (libc_elements true 4) numbers 4 garbage garbage ≡ fault
unfolding micro libc_elements
lost = refl
