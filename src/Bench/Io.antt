-- ===== src/Bench/Io.antt =====
-- bench/impl/io.c, in the build with USE_LOAD: the file that backs the benchmark's memory.
pub mod Transfer
pub mod Load
pub mod Ghost
pub mod Tiny
mod Tests
use open_ooc.Base.{
  ℕ, zero, suc, ◌+◌, sub64, ◌==◌, Bool, true, if◌then◌else◌, not, Option, none, some, List, [], ◌∷◌,
  Run, ok, fault, out_of_fuel, ◌>>=◌, ◌>>◌, assert, leb, ◌&&◌, ltb,
}

-- Protections, as a call of `mprotect` or `mmap` names them.
pub data Access : Type 0 where
  no_access read_only write_only read_write : Access

-- The calls that the functions make besides the transfers, the newest first.
pub data IoCall : Type 0 where
  mprotect : ℕ → ℕ → Access → IoCall
  mmap : ℕ → IoCall
  munmap : ℕ → ℕ → IoCall
  open_read open_new close : IoCall
  lseek : ℕ → IoCall
  mremap : ℕ → ℕ → ℕ → ℕ → IoCall
  fadvise : ℕ → IoCall
  unlink : IoCall

-- The memory and the protection of each address; of the one file, `_tmp_file`: whether there is
-- one, its bytes, their number, and the position of the open descriptor; `_num_mem`; and the calls.
pub record IoState : Type 0 where
  pub memory : ℕ → ℕ
  pub protection : ℕ → Access
  pub is_there : Bool
  pub file : ℕ → ℕ
  pub length : ℕ
  pub position : ℕ
  pub num_mem : ℕ
  pub calls : List IoCall

-- The system: whether a call succeeds and what becomes of the state, with the address from `mmap`;
-- and what `read` and `write` do with a buffer and a size: the number of bytes, or `none` for -1.
pub record IoSystem : Type 0 where
  pub call : IoCall → IoState → Option IoState
  pub mapped : ℕ → IoState → ℕ
  pub read : ℕ → ℕ → IoState → Option (IoState × ℕ)
  pub write : ℕ → ℕ → IoState → Option (IoState × ℕ)

-- `USE_GHOST` and `USE_LIBC`
pub record IoBuild : Type 0 where
  pub ghost : Bool
  pub libc : Bool

-- `assert` on what a call returned.
abbrev pub done : Option IoState → Run IoState
done none = fault
done (some s) = ok s

abbrev pub got : Option (IoState × ℕ) → Run (IoState × ℕ)
got none = fault
got (some r) = ok r

-- `memset(addr, 0, size)`
abbrev pub clear : ℕ → ℕ → IoState → IoState
clear addr size s = record s {
  memory = λ x. if leb addr x && ltb x (addr + size) then 0 else s.memory x;
}

-- The loop `do ... while (size > 0)`, of `read` and of `write`, with what is left of `size`.
unfoldable pub move_loop :
    (ℕ → ℕ → IoState → Option (IoState × ℕ)) → ℕ → ℕ → ℕ → IoState → Run (IoState × ℕ)
move_loop move zero buf size s = out_of_fuel
move_loop move (suc fuel) buf size s = do
  (s₁, ret) ← got (move buf size s)
  if sub64 size ret == 0
      then ok (s₁, sub64 size ret)
      else move_loop move fuel (buf + ret) (sub64 size ret) s₁

module _ (sys : IoSystem) where
  abbrev pub issue : IoCall → IoState → Run IoState
  issue c s = done (sys.call c s)

  -- Only where the test holds.
  abbrev pub issue_if : Bool → IoCall → IoState → Run IoState
  issue_if b c s = if b then issue c s else ok s

  unfoldable pub io_init : ℕ → IoState → IoState
  io_init num_mem s = record s { num_mem = num_mem }

  unfoldable pub io_destroy : IoState → Run IoState
  io_destroy s = issue unlink s

  -- Where the bytes go first.
  abbrev pub target : IoBuild → ℕ → ℕ → IoState → ℕ
  target build addr size s = if build.ghost then sys.mapped size s else addr

  -- The part up to the loop.
  unfoldable pub read_start : IoBuild → ℕ → ℕ → ℕ → IoState → Run IoState
  read_start build addr off size s = do
    s₁ ←
        if build.ghost
        then issue (mmap size) s
        else issue_if (not build.libc) (mprotect addr size write_only) s
    s₂ ← issue open_read s₁
    issue (lseek off) s₂

  -- The part behind it, with the `size` that the loop has left.
  unfoldable pub read_end : IoBuild → ℕ → ℕ → ℕ → IoState → Run IoState
  read_end build tmp size addr s = do
    s₁ ← issue close s
    s₂ ← issue_if (not build.libc) (mprotect tmp size read_only) s₁
    issue_if build.ghost (mremap tmp size size addr) s₂

  unfoldable pub io_read : IoBuild → ℕ → ℕ → ℕ → ℕ → IoState → Run IoState
  unfolding read_start move_loop read_end
  io_read build fuel addr off size s =
      let tmp = target build addr size s in
      do
        s₁ ← read_start build addr off size s
        (s₂, left) ← move_loop sys.read fuel tmp size s₁
        read_end build tmp left addr s₂

  unfoldable pub io_write : ℕ → ℕ → ℕ → IoState → Run IoState
  unfolding move_loop
  io_write fuel addr size s = do
    s₁ ← issue open_new s
    (s₂, left) ← move_loop sys.write fuel addr size s₁
    issue close s₂

  unfoldable pub io_flush : IoState → Run IoState
  io_flush s = do s₁ ← issue open_read s; s₂ ← issue (fadvise s₁.num_mem) s₁; issue close s₂
