-- ===== src/Bench/Sbma.antt =====
-- bench/impl/sbma.c: memory whose pages a fault handler tracks, read-only at the first fault and
-- writable at the next. The names of the implementation are those of bench/impl/impl.h.
pub mod Tracked
pub mod Fault
pub mod Hardware
pub mod Flush
pub mod Session
mod Tests
use open_ooc.Base.{
  ℕ, zero, suc, ◌+◌, ◌-◌, ◌*◌, ◌/◌, ◌%◌, sub64, word, ◌==◌, leb, ltb, Bool, true, false, not, ◌&&◌,
  if◌then◌else◌, Run, ok, fault, ◌>>=◌, ◌>>◌, assert, upd,
}
use open_ooc.Bench.Io.{
  clear, Access, no_access, read_only, write_only, read_write, IoCall, mprotect, munmap, IoState,
  IoSystem, IoBuild, issue, issue_if, io_read,
}

-- `SYNC`, `DIRTY` and `ONDISK`, and the tests of a page's flags.
abbrev pub sync : ℕ
sync = 1

abbrev pub dirty : ℕ
dirty = 2

abbrev pub ondisk : ℕ
ondisk = 4

abbrev pub has_sync : ℕ → Bool
has_sync flags = flags % 2 == 1

abbrev pub has_dirty : ℕ → Bool
has_dirty flags = flags / 2 % 2 == 1

abbrev pub has_ondisk : ℕ → Bool
has_ondisk flags = flags / 4 % 2 == 1

-- The file's variables, and the memory with the calls.
pub record Sbma : Type 0 where
  pub pflags : ℕ → ℕ
  pub base : ℕ
  pub siz_pag : ℕ
  pub num_mem : ℕ
  pub num_sys : ℕ
  pub num_pag : ℕ
  pub faults : ℕ
  pub io : IoState

-- `USE_LOAD`, `USE_LAZY`, `USE_CTX` and `USE_GHOST`
pub record SbmaBuild : Type 0 where
  pub load : Bool
  pub lazy : Bool
  pub ctx : Bool
  pub ghost : Bool

-- `sysconf(_SC_PAGESIZE)`, SIGSEGV, whether the handler can be installed, and the two calls of
-- `mmap`, which take a size: for the flags, which are 0, whether there are any; and for the memory,
-- its address.
pub record SbmaSystem : Type 0 where
  pub io : IoSystem
  pub page : ℕ
  pub sigsegv : ℕ
  pub installs : Bool
  pub map_flags : ℕ → Bool
  pub map_none : ℕ → IoState → IoState × ℕ

abbrev pub page_index : Sbma → ℕ → ℕ
page_index s si_addr = sub64 si_addr s.base / s.siz_pag

abbrev pub page_start : Sbma → ℕ → ℕ
page_start s ip = (s.base + ip * s.siz_pag) % word

-- Whether the type of a fault is SYNC; `writes` is bit 1 of REG_ERR.
abbrev pub is_sync_fault : SbmaBuild → Bool → ℕ → Bool
is_sync_fault build writes flags = if build.ctx then not writes else not (has_sync flags)

module _ (sys : SbmaSystem) (build : SbmaBuild) (fuel : ℕ) where
  unfoldable pub load_page : ℕ → ℕ → Sbma → Run Sbma
  load_page ip addr s = do
    io ←
        (if build.lazy
          then io_read sys.io (record { ghost = build.ghost; libc = false }) fuel addr
              (ip * s.siz_pag % word) s.siz_pag s.io
          else io_read sys.io (record { ghost = build.ghost; libc = false }) fuel s.base 0 s.num_mem
              s.io)
    ok (record s { io = io })

  unfoldable pub make_readable : ℕ → ℕ → Sbma → Run Sbma
  make_readable ip addr s =
      let all : ℕ → ℕ = λ i. if ltb i s.num_pag then sync else s.pflags i in
      do
        io ←
            issue sys.io (mprotect addr (if build.lazy then s.siz_pag else s.num_mem) read_only)
              s.io
        ok (record s { io = io; pflags = if build.lazy then upd s.pflags ip sync else all })

  unfoldable pub make_writable : ℕ → ℕ → Sbma → Run Sbma
  make_writable ip addr s = do
    io ← issue sys.io (mprotect addr s.siz_pag read_write) s.io
    ok (record s { io = io; pflags = upd s.pflags ip dirty })

  unfoldable pub sync_fault : ℕ → ℕ → Sbma → Run Sbma
  unfolding load_page make_readable
  sync_fault ip addr s =
      let flags = s.pflags ip in
      do
        assert (not (has_sync flags))
        assert (not (has_dirty flags))
        (if build.load && has_ondisk flags then load_page ip addr s else make_readable ip addr s)

  unfoldable pub dirty_fault : ℕ → ℕ → Sbma → Run Sbma
  unfolding make_writable
  dirty_fault ip addr s = do
    (if build.ctx then ok tt else assert (has_sync (s.pflags ip)))
    make_writable ip addr s

  -- The signal, whether the access was a write, and its address.
  unfoldable pub sbma_segvhandler : ℕ → Bool → ℕ → Sbma → Run Sbma
  unfolding sync_fault dirty_fault
  sbma_segvhandler sig writes si_addr s =
      let ip = page_index s si_addr in
      let addr = page_start s ip in
      do
        assert (sig == sys.sigsegv)
        s₁ ←
            (if is_sync_fault build writes (s.pflags ip)
              then sync_fault ip addr s
              else dirty_fault ip addr s)
        ok (record s₁ { faults = (s₁.faults + 1) % word })

module _ (sys : SbmaSystem) where
  unfoldable pub impl_init : ℕ → ℕ → Sbma → Run Sbma
  impl_init num_mem num_sys s =
      let siz_pag = sys.page * num_sys % word in
      let num_pag = num_mem / siz_pag in
      let (io, base) = sys.map_none num_mem s.io in
      do
        assert sys.installs
        assert (sys.map_flags num_pag)
        ok (record s {
          pflags = λ i. 0;
          base = base;
          siz_pag = siz_pag;
          num_mem = num_mem;
          num_sys = num_sys;
          num_pag = num_pag;
          io = io;
        })

  -- The second `munmap` is that of the flags, which are not in the memory.
  unfoldable pub impl_destroy : ℕ → Sbma → Run Sbma
  impl_destroy pflags s = do
    io₁ ← issue sys.io (munmap s.base s.num_mem) s.io
    io₂ ← issue sys.io (munmap pflags s.num_pag) io₁
    ok (record s { io = io₂ })

  unfoldable pub impl_flush : SbmaBuild → Sbma → Run Sbma
  impl_flush build s = do
    io₁ ← issue_if sys.io build.load (mprotect s.base s.num_mem write_only) s.io
    io₂ ←
        issue sys.io (mprotect s.base s.num_mem no_access)
          (if build.load then clear s.base s.num_mem io₁ else io₁)
    ok (record s {
      pflags = λ i. if ltb i s.num_pag then s.pflags i / 4 % 2 * 4 else s.pflags i;
      faults = 0;
      io = io₂;
    })

unfoldable pub impl_ondisk : Sbma → Sbma
impl_ondisk s = record s { pflags = λ i. if ltb i s.num_pag then ondisk else s.pflags i }

-- These two do nothing.
unfoldable pub impl_fetch_bulk : ℕ → ℕ → ℕ → Sbma → Sbma
impl_fetch_bulk addr off size s = s

unfoldable pub impl_fetch_page : ℕ → ℕ → ℕ → Sbma → Sbma
impl_fetch_page addr off size s = s
