-- ===== src/Bench/Micro/Elapsed.antt =====
-- The elapsed time.
use open_ooc.Base.{ℕ, ◌+◌, ◌*◌, ◌≤◌, ◌<◌, ◌≡◌, arith, word}
use open_ooc.Bench.Micro.{Timespec, getelapsed}

abbrev pub nanoseconds : Timespec → ℕ
nanoseconds t = t.tv_sec * 1000000000 + t.tv_nsec

-- Of two times with less than a second in `tv_nsec`, the later one second, and below 2^64
-- nanoseconds, `_getelapsed` gives the difference in nanoseconds.
pub getelapsed-nanoseconds :
    (ts te : Timespec)
    → ts.tv_nsec < 1000000000
    → te.tv_nsec < 1000000000
    → nanoseconds ts ≤ nanoseconds te
    → nanoseconds te < word
    → nanoseconds ts + getelapsed ts te ≡ nanoseconds te
unfolding getelapsed
getelapsed-nanoseconds ts te a b le lt = ground arith
