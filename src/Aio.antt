-- ===== src/Aio.antt =====
-- src/aio.c: the asynchronous calls, in the build with WITH_NATIVE_AIO (`native`) and in that with
-- POSIX's calls, which are parameters here.
pub mod Cancel
mod Tests
use open_ooc.Base.{ℕ, ◌-◌, ltb, Bool, if◌then◌else◌, upd}

pub data ℤ : Type 0 where
  pos negsuc : ℕ → ℤ

-- The result -1.
abbrev pub failed : ℤ
failed = negsuc 0

-- `struct aiocb`; `notify` is `aio_sigevent.sigev_notify`. Its other members stay 0.
pub record Aiocb : Type 0 where
  pub aio_fildes : ℕ
  pub aio_offset : ℕ
  pub aio_buf : ℕ
  pub aio_nbytes : ℕ
  pub aio_reqprio : ℕ
  pub notify : ℕ

-- The requests by their addresses, and what the system has.
pub record Requests (K : Type 0) : Type 0 where
  pub at : ℕ → Aiocb
  pub kernel : K

-- The calls of the system, and the value of SIGEV_NONE. A call that gets a request gets its address
-- and what stands there.
pub record AioSystem (K : Type 0) : Type 0 where
  pub sigev_none : ℕ
  pub io_setup : ℕ → ℕ → K → K × ℤ
  pub io_destroy : ℕ → K → K × ℤ
  pub aio_read : ℕ → Aiocb → K → K × ℤ
  pub aio_write : ℕ → Aiocb → K → K × ℤ
  pub aio_error : ℕ → K → K × ℤ
  pub aio_return : ℕ → K → K × ℤ
  pub aio_cancel : ℕ → ℕ → K → K × ℤ
  pub aio_suspend : ℕ → ℤ → ℕ → K → K × ℤ

-- `(int)nr` for an `unsigned int`.
abbrev pub to_int : ℕ → ℤ
to_int nr = if ltb nr 2147483648 then pos nr else negsuc (4294967295 - nr)

module _ {K : Type 0} (native : Bool) (sys : AioSystem K) where
  abbrev with_kernel : Requests K → K × ℤ → Requests K × ℤ
  with_kernel s (k, ret) = (record s { kernel = k }, ret)

  unfoldable pub ooc_aio_setup : ℕ → ℕ → Requests K → Requests K × ℤ
  ooc_aio_setup nr ctx s =
      if native then with_kernel s (sys.io_setup nr ctx s.kernel) else (s, pos 0)

  unfoldable pub ooc_aio_destroy : ℕ → Requests K → Requests K × ℤ
  ooc_aio_destroy ctx s = if native then with_kernel s (sys.io_destroy ctx s.kernel) else (s, pos 0)

  -- The request as the calls fill it in, all 0 before.
  abbrev pub request : ℕ → ℕ → ℕ → ℕ → Aiocb
  request fd buf count off = record {
    aio_fildes = fd;
    aio_offset = off;
    aio_buf = buf;
    aio_nbytes = count;
    aio_reqprio = 0;
    notify = sys.sigev_none;
  }

  unfoldable pub ooc_aio_read : ℕ → ℕ → ℕ → ℕ → ℕ → Requests K → Requests K × ℤ
  ooc_aio_read fd buf count off aioreq s =
      let r = request fd buf count off in
      if native
      then (s, failed)
      else with_kernel (record s { at = upd s.at aioreq r }) (sys.aio_read aioreq r s.kernel)

  unfoldable pub ooc_aio_write : ℕ → ℕ → ℕ → ℕ → ℕ → Requests K → Requests K × ℤ
  ooc_aio_write fd buf count off aioreq s =
      let r = request fd buf count off in
      if native
      then (s, failed)
      else with_kernel (record s { at = upd s.at aioreq r }) (sys.aio_write aioreq r s.kernel)

  unfoldable pub ooc_aio_error : ℕ → Requests K → Requests K × ℤ
  ooc_aio_error aioreq s =
      if native then (s, failed) else with_kernel s (sys.aio_error aioreq s.kernel)

  unfoldable pub ooc_aio_return : ℕ → Requests K → Requests K × ℤ
  ooc_aio_return aioreq s =
      if native then (s, failed) else with_kernel s (sys.aio_return aioreq s.kernel)

  -- With WITH_NATIVE_AIO the source names an `fd` that the function does not have, and so does not
  -- compile; the result is that of the line before.
  unfoldable pub ooc_aio_cancel : ℕ → Requests K → Requests K × ℤ
  ooc_aio_cancel aioreq s =
      if native
      then (s, failed)
      else with_kernel s (sys.aio_cancel (s.at aioreq).aio_fildes aioreq s.kernel)

  unfoldable pub ooc_aio_suspend : ℕ → ℕ → ℕ → Requests K → Requests K × ℤ
  ooc_aio_suspend aioreq_list nr timeout s =
      if native
      then (s, failed)
      else with_kernel s (sys.aio_suspend aioreq_list (to_int nr) timeout s.kernel)
