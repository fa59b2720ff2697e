-- ===== src/Bench/Libc/Fetch.antt =====
-- What was written to the file comes back behind a flush.
use open_ooc.Base.{ℕ, ◌+◌, ◌-◌, ◌≤◌, ◌<◌, ◌≡◌, arith, ap, ◌∙◌, word, true, false, Run, ok, ◌>>=◌}
use open_ooc.Bench.Io.{clear, IoState, io_write}
use open_ooc.Bench.Io.Transfer.{Transfers}
use open_ooc.Bench.Io.Load.{Succeeds, io_write-Stored, io_read-Loaded}
use open_ooc.Bench.Libc.{Libc, LibcBuild, LibcSystem, impl_flush, impl_fetch_bulk}

-- The memory goes to the file.
abbrev pub save : LibcSystem → ℕ → Libc → Run Libc
save sys fuel s = io_write sys.io fuel s.base s.num_mem s.io >>= λ io. ok (record s { io = io })

-- Of the builds with USE_LOAD, without USE_LAZY and USE_GHOST.
abbrev pub bulk : LibcBuild
bulk = record { load = true; lazy = false; ghost = false }

-- Where there is no file yet, no call of the system fails and each `read` and `write` moves at
-- least one of the bytes it is asked for, then with fuel for each byte of the memory and one pass:
-- `io_write` of all the memory, `impl_flush`, which fills it with 0, and `impl_fetch_bulk` of all
-- of it succeed, and leave the bytes that the memory had, in the build with USE_LOAD and without
-- USE_LAZY and USE_GHOST.
pub impl_fetch_bulk-impl_flush :
    (sys : LibcSystem) (fuel : ℕ) (s : Libc)
    → Succeeds sys.io
    → Transfers sys.io
    → 0 < fuel
    → s.num_mem ≤ fuel
    → s.num_mem < word
    → s.io.is_there ≡ false
    → (s' : Libc) × ((save sys fuel s >>= λ s₁.
          impl_fetch_bulk sys bulk fuel s.base 0 s.num_mem (impl_flush bulk s₁))
        ≡ ok s')
      × ((x : ℕ) → s.base ≤ x → x < s.base + s.num_mem → s'.io.memory x ≡ s.io.memory x)
unfolding impl_fetch_bulk impl_flush
impl_fetch_bulk-impl_flush sys fuel s calls moves pos enough fits new =
    let (io₁, e₁, m₁, h₁, l₁, f₁) =
      io_write-Stored sys.io calls moves fuel s.base s.num_mem s.io pos enough fits new in
    let flushed : IoState = clear s.base s.num_mem io₁ in
    let (io₂, e₂, in₂, out₂) =
      io_read-Loaded sys.io calls moves true fuel s.base 0 s.num_mem flushed pos enough fits
        (omega (arith, l₁)) h₁ in
    (
      record s { io = io₂ },
      ap
            (λ r. r >>= (λ io. ok (record s { io = io })) >>= λ s₁.
              impl_fetch_bulk sys bulk fuel s.base 0 s.num_mem (impl_flush bulk s₁))
            e₁
          ∙ ap (λ r. r >>= λ io. ok (record s { io = io })) e₂,
      (λ x lo hi.
          ap io₂.memory (minus x lo)
          ∙ in₂ (x - s.base) (omega (arith, lo, hi))
          ∙ ap io₁.file (plus x)
          ∙ f₁ (x - s.base) (omega (arith, lo, hi))
          ∙ ap s.io.memory (back x lo)),
    )
  where
    minus : (x : ℕ) → s.base ≤ x → x ≡ s.base + (x - s.base)
    minus x lo = omega arith

    back : (x : ℕ) → s.base ≤ x → s.base + (x - s.base) ≡ x
    back x lo = omega arith

    plus : (x : ℕ) → 0 + (x - s.base) ≡ x - s.base
    plus x = omega arith
