-- ===== src/Bench/Libc.antt =====
-- bench/impl/libc.c: memory of `mmap`, read from the file in the builds with USE_LOAD. The names of
-- the implementation are those of bench/impl/impl.h.
mod Tests
pub mod Fetch
use open_ooc.Base.{
  ℕ, ◌+◌, ◌*◌, ◌%◌, sub64, word, ◌==◌, Bool, true, false, ◌&&◌, not, if◌then◌else◌, Run, ok, ◌>>=◌,
}
use open_ooc.Bench.Io.{clear, IoState, IoSystem, IoBuild, munmap, issue, io_read}
use open_ooc.Bits.{bit_and}

-- The file's variables, and the memory with the calls.
pub record Libc : Type 0 where
  pub num_mem : ℕ
  pub siz_pag : ℕ
  pub base : ℕ
  pub io : IoState

-- `USE_LOAD`, `USE_LAZY` and `USE_GHOST`
pub record LibcBuild : Type 0 where
  pub load : Bool
  pub lazy : Bool
  pub ghost : Bool

-- `sysconf(_SC_PAGESIZE)`, and `mmap` for a size.
pub record LibcSystem : Type 0 where
  pub io : IoSystem
  pub page : ℕ
  pub map : ℕ → IoState → IoState × ℕ

module _ (sys : LibcSystem) where
  unfoldable pub impl_init : ℕ → ℕ → Libc → Libc
  impl_init num_mem num_sys s =
      let (io, base) = sys.map num_mem s.io in
      record { num_mem = num_mem; siz_pag = sys.page * num_sys % word; base = base; io = io }

  unfoldable pub impl_destroy : Libc → Run Libc
  impl_destroy s = do io ← issue sys.io (munmap s.base s.num_mem) s.io; ok (record s { io = io })

  abbrev pub read_if : Bool → LibcBuild → ℕ → ℕ → ℕ → ℕ → Libc → Run Libc
  read_if b build fuel addr off size s =
      if b
      then (io_read sys.io (record { ghost = build.ghost; libc = true }) fuel addr off size s.io
          >>= λ io. ok (record s { io = io }))
      else ok s

  unfoldable pub impl_fetch_bulk : LibcBuild → ℕ → ℕ → ℕ → ℕ → Libc → Run Libc
  impl_fetch_bulk build fuel addr off size s =
      read_if (build.load && not build.lazy) build fuel addr off size s

  unfoldable pub impl_fetch_page : LibcBuild → ℕ → ℕ → ℕ → ℕ → Libc → Run Libc
  unfolding bit_and
  impl_fetch_page build fuel addr off size s =
      read_if (build.load && (build.lazy && bit_and 64 addr (sub64 s.siz_pag 1) == 0)) build fuel
        addr off size s

unfoldable pub impl_flush : LibcBuild → Libc → Libc
impl_flush build s = if build.load then record s { io = clear s.base s.num_mem s.io } else s

unfoldable pub impl_ondisk : Libc → Libc
impl_ondisk s = s
