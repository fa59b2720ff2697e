-- ===== src/Aio/Cancel.antt =====
-- What becomes of a request: posted, and cancelled.
use open_ooc.Base.{ℕ, ◌≡◌, refl, false, upd, ap, upd_same, ◌∙◌, ◌≢◌, upd_ne}
use open_ooc.Aio.{
  ℤ, Aiocb, Requests, AioSystem, request, ooc_aio_read, ooc_aio_write, ooc_aio_cancel,
}

module _ {K : Type 0} (sys : AioSystem K) where
  -- The outcome of posting the request at `aioreq` by a call that comes to `k` and `ret` and of
  -- cancelling it: each system call got the descriptor, and no other request is touched.
  abbrev pub IsPosted : (Aiocb → K × ℤ) → ℕ → Aiocb → Requests K → Requests K × ℤ → Type 0
  IsPosted post aioreq r s (s', ret) =
      (s'.at aioreq ≡ r)
      × ((x : ℕ) → x ≢ aioreq → s'.at x ≡ s.at x)
      × (s'.kernel ≡ (post r).0)
      × (ret ≡ (post r).1)

  -- In the build with POSIX's calls, `ooc_aio_write` and then `ooc_aio_read` on two requests post
  -- each with the descriptor, the offset, the buffer and the size that are given, with priority 0
  -- and without a notification, whatever stood there before, and return what the system returns; a
  -- cancellation of the first one behind both goes to the descriptor with which it was posted.
  pub ooc_aio_cancel-ooc_aio_write :
      (fd buf count off w fd' buf' count' off' r : ℕ) (s : Requests K)
      → w ≢ r
      → let s₁ = ooc_aio_write false sys fd buf count off w s in
        let s₂ = ooc_aio_read false sys fd' buf' count' off' r s₁.0 in
        IsPosted
          (λ q. sys.aio_write w q s.kernel)
          w
          (record {
            aio_fildes = fd;
            aio_offset = off;
            aio_buf = buf;
            aio_nbytes = count;
            aio_reqprio = 0;
            notify = sys.sigev_none;
          })
          s
          s₁
        × IsPosted
            (λ q. sys.aio_read r q s₁.0.kernel)
            r
            (record {
              aio_fildes = fd';
              aio_offset = off';
              aio_buf = buf';
              aio_nbytes = count';
              aio_reqprio = 0;
              notify = sys.sigev_none;
            })
            s₁.0
            s₂
        × ((ooc_aio_cancel false sys w s₂.0).1 ≡ (sys.aio_cancel fd w s₂.0.kernel).1)
  unfolding ooc_aio_write ooc_aio_read ooc_aio_cancel
  ooc_aio_cancel-ooc_aio_write fd buf count off w fd' buf' count' off' r s ne =
      let a = request false sys fd buf count off in
      let b = request false sys fd' buf' count' off' in
      let k = (sys.aio_read r b (sys.aio_write w a s.kernel).0).0 in
      (
        (upd_same s.at w a, (λ x n. upd_ne s.at w a x n), refl, refl),
        (upd_same (upd s.at w a) r b, (λ x n. upd_ne (upd s.at w a) r b x n), refl, refl),
        ap (λ q. (sys.aio_cancel q.aio_fildes w k).1)
            (upd_ne (upd s.at w a) r b w ne ∙ upd_same s.at w a),
      )
