-- ===== src/Aio/Tests.antt =====
-- Requests on a system that counts its calls and returns the descriptor of each request.
use open_ooc.Base.{ℕ, ◌+◌, ◌≡◌, arith, false}
use open_ooc.Aio.{pos, Requests, AioSystem, ooc_aio_read, ooc_aio_write, ooc_aio_cancel}
use open_ooc.Aio.Cancel.{IsPosted, ooc_aio_cancel-ooc_aio_write}

abbrev counting : AioSystem ℕ
counting = record {
  sigev_none = 1;
  io_setup = λ nr ctx k. (k + 1, pos 0);
  io_destroy = λ ctx k. (k + 1, pos 0);
  aio_read = λ a r k. (k + 1, pos r.aio_fildes);
  aio_write = λ a r k. (k + 1, pos r.aio_fildes);
  aio_error = λ a k. (k + 1, pos 0);
  aio_return = λ a k. (k + 1, pos 0);
  aio_cancel = λ fd a k. (k + 1, pos fd);
  aio_suspend = λ l nr t k. (k + 1, nr);
}

-- Every request has 9 everywhere.
abbrev requests : Requests ℕ
requests = record {
  at = λ a. record {
    aio_fildes = 9;
    aio_offset = 9;
    aio_buf = 9;
    aio_nbytes = 9;
    aio_reqprio = 9;
    notify = 9;
  };
  kernel = 0;
}

ooc_aio_cancel-ooc_aio_write_example :
    let s₁ = ooc_aio_write false counting 3 4096 10 0 100 requests in
    let s₂ = ooc_aio_read false counting 4 8192 20 5 200 s₁.0 in
    IsPosted counting
      (λ q. counting.aio_write 100 q 0)
      100
      (record {
        aio_fildes = 3;
        aio_offset = 0;
        aio_buf = 4096;
        aio_nbytes = 10;
        aio_reqprio = 0;
        notify = 1;
      })
      requests
      s₁
    × IsPosted counting
        (λ q. counting.aio_read 200 q s₁.0.kernel)
        200
        (record {
          aio_fildes = 4;
          aio_offset = 5;
          aio_buf = 8192;
          aio_nbytes = 20;
          aio_reqprio = 0;
          notify = 1;
        })
        s₁.0
        s₂
    × ((ooc_aio_cancel false counting 100 s₂.0).1 ≡ (counting.aio_cancel 3 100 s₂.0.kernel).1)
ooc_aio_cancel-ooc_aio_write_example =
    ooc_aio_cancel-ooc_aio_write counting 3 4096 10 0 100 4 8192 20 5 200 requests
      (λ e. absurd (omega (arith, e)))
