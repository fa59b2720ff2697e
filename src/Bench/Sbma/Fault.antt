-- ===== src/Bench/Sbma/Fault.antt =====
-- A fault on a tracked page gives the page the next kind of access.
use native.Mathlib.Nat.{mul_left_comm, mul-add}
use open_ooc.Base.{
  assert-true, asserted, ℕ, ◌+◌, ◌*◌, ◌%◌, ◌≤◌, ◌<◌, ◌≡◌, refl, arith, ap, sym, ◌∙◌, word, upd,
  Bool, true, false, not, ◌&&◌, if◌then◌else◌, if-true, if-false, ◌⊎◌, inl, inr, Run, ok, ◌>>=◌,
  ◌>>◌, assert, ltb,
}
use open_ooc.Bench.Io.{read_only, read_write, mprotect, IoState, issue, done}
use open_ooc.Bench.Sbma.{
  Sbma, SbmaBuild, SbmaSystem, page_index, page_start, is_sync_fault, has_sync, has_dirty,
  has_ondisk, load_page, make_readable, make_writable, sync_fault, dirty_fault, sbma_segvhandler,
}
use open_ooc.Bench.Sbma.Tracked.{access_of, Protects, IsTracked, IsOn, set-IsTracked}

and-false : (b : Bool) → (b && false) ≡ false
and-false true = refl
and-false false = refl

module _ (sys : SbmaSystem) (build : SbmaBuild) (fuel page : ℕ) (lazy : build.lazy ≡ true) where
  -- The state behind a fault on the page.
  abbrev pub after : Sbma → ℕ → ℕ → IoState → Sbma
  after s ip v io = record s { io = io; pflags = upd s.pflags ip v; faults = (s.faults + 1) % word }

  pub record Granted (s : Sbma) (writes : Bool) (x v : ℕ) : Type 0 where
    pub io : IoState
    pub run :
        sbma_segvhandler sys build fuel sys.sigsegv writes x s ≡ ok (after s (page_index s x) v io)
    pub tracked : IsTracked page (after s (page_index s x) v io)
    pub protection : io.protection x ≡ access_of v
    pub memory : io.memory ≡ s.io.memory

  module _ (s : Sbma) (t : IsTracked page s)
      (law : Protects sys.io page s.base (s.base + s.num_mem)) (writes : Bool) (x : ℕ)
      (on : IsOn s x (page_index s x)) where
    whole_page : page_start s (page_index s x) ≡ page * (t.start + page_index s x * s.num_sys)
    whole_page =
        on.first
        ∙ ap (λ b. b + page_index s x * s.siz_pag) t.base
        ∙ ap (λ n. page * t.start + page_index s x * n) t.siz_pag
        ∙ ap (λ n. page * t.start + n) (mul_left_comm (page_index s x) page s.num_sys)
        ∙ sym (mul-add page t.start (page_index s x * s.num_sys))

    -- Behind a call of `mprotect` on the page, if the rest of the handler is as given.
    grant :
        (v : ℕ)
        → v ≤ 2
        → ((io : IoState)
            → issue sys.io (mprotect (page_start s (page_index s x)) s.siz_pag (access_of v)) s.io
              ≡ ok io
            → sbma_segvhandler sys build fuel sys.sigsegv writes x s
              ≡ ok (after s (page_index s x) v io))
        → Granted s writes x v
    grant v small run =
        let (io, e, inside, outside, memory) =
          law.call (page_start s (page_index s x)) s.siz_pag (access_of v) s.io
            (t.start + page_index s x * s.num_sys) s.num_sys whole_page t.siz_pag
            (omega (arith, on.first)) (omega (arith, on.first, on.last)) in
        record {
          io = io;
          run = run io (ap done e);
          tracked =
              set-IsTracked page s t x (page_index s x) v io ((s.faults + 1) % word) on small
                (λ y lo hi. inside y (omega (arith, lo, on.first)) (omega (arith, hi, on.first)))
                (λ y out. outside y (out_of y out));
          protection =
              inside x (omega (arith, on.first, on.address))
                (omega (arith, on.first, on.address, on.inside));
          memory = memory;
        }
      where
        out_of :
            (y : ℕ)
            → (y < s.base + page_index s x * s.siz_pag)
              ⊎ (s.base + page_index s x * s.siz_pag + s.siz_pag ≤ y)
            → (y < page_start s (page_index s x)) ⊎ (page_start s (page_index s x) + s.siz_pag ≤ y)
        out_of y (inl l) = inl (omega (arith, l, on.first))
        out_of y (inr l) = inr (omega (arith, l, on.first))

    abbrev finish : Sbma → Run Sbma
    finish s₁ = ok (record s₁ { faults = (s₁.faults + 1) % word })

    abbrev addr : ℕ
    addr = page_start s (page_index s x)

    -- The handler, from its branch on.
    of_kind :
        (m : Run Sbma)
        → (if is_sync_fault build writes (s.pflags (page_index s x))
            then sync_fault sys build fuel (page_index s x) addr s
            else dirty_fault sys build fuel (page_index s x) addr s)
          ≡ m
        → sbma_segvhandler sys build fuel sys.sigsegv writes x s ≡ (m >>= finish)
    unfolding sbma_segvhandler
    of_kind m e =
        asserted sys.sigsegv sys.sigsegv
          ((if is_sync_fault build writes (s.pflags (page_index s x))
              then sync_fault sys build fuel (page_index s x) addr s
              else dirty_fault sys build fuel (page_index s x) addr s)
            >>= finish)
          refl
        ∙ ap (λ r. r >>= finish) e

    make_readable-ok :
        (io : IoState)
        → issue sys.io (mprotect addr s.siz_pag read_only) s.io ≡ ok io
        → make_readable sys build fuel (page_index s x) addr s
          ≡ ok (record s { io = io; pflags = upd s.pflags (page_index s x) 1 })
    unfolding make_readable
    make_readable-ok io e =
        let all : ℕ → ℕ = λ i. if ltb i s.num_pag then 1 else s.pflags i in
        let one : ℕ → ℕ = upd s.pflags (page_index s x) 1 in
        ap
          (λ l.
            issue sys.io (mprotect addr (if l then s.siz_pag else s.num_mem) read_only) s.io
            >>= λ io. ok (record s { io = io; pflags = if l then one else all }))
          lazy
        ∙ ap (λ r. r >>= λ io. ok (record s { io = io; pflags = one })) e

    sync_fault-readable :
        s.pflags (page_index s x) ≡ 0
        → sync_fault sys build fuel (page_index s x) addr s
          ≡ make_readable sys build fuel (page_index s x) addr s
    unfolding sync_fault
    sync_fault-readable none =
        let flags : ℕ = s.pflags (page_index s x) in
        let readable : Run Sbma = make_readable sys build fuel (page_index s x) addr s in
        let loaded : Run Sbma = load_page sys build fuel (page_index s x) addr s in
        let either : Run Sbma = if build.load && has_ondisk flags then loaded else readable in
        assert-true (not (has_sync flags)) (assert (not (has_dirty flags)) >> either)
          (ap (λ f. not (has_sync f)) none)
        ∙ assert-true (not (has_dirty flags)) either (ap (λ f. not (has_dirty f)) none)
        ∙ if-false (λ r. r ≡ readable) (build.load && has_ondisk flags) loaded readable
            (ap (λ f. build.load && has_ondisk f) none ∙ and-false build.load) refl

    -- A fault of the kind SYNC on a page without flags.
    pub sync-Granted :
        is_sync_fault build writes (s.pflags (page_index s x)) ≡ true
        → s.pflags (page_index s x) ≡ 0
        → Granted s writes x 1
    sync-Granted sync none =
        let first : Run Sbma = sync_fault sys build fuel (page_index s x) addr s in
        let other : Run Sbma = dirty_fault sys build fuel (page_index s x) addr s in
        grant 1 (omega arith) (λ io e.
          let end : Run Sbma =
            ok (record s { io = io; pflags = upd s.pflags (page_index s x) 1 }) in
          of_kind end (
            if-true (λ r. r ≡ end) (is_sync_fault build writes (s.pflags (page_index s x))) first
              other sync (sync_fault-readable none ∙ make_readable-ok io e)))

    dirty_fault-ok :
        (io : IoState)
        → (build.ctx ≡ true) ⊎ (s.pflags (page_index s x) ≡ 1)
        → issue sys.io (mprotect addr s.siz_pag read_write) s.io ≡ ok io
        → dirty_fault sys build fuel (page_index s x) addr s
          ≡ ok (record s { io = io; pflags = upd s.pflags (page_index s x) 2 })
    unfolding dirty_fault make_writable
    dirty_fault-ok io may e =
        let writable : Run Sbma = make_writable sys build fuel (page_index s x) addr s in
        ap (λ r. r >> writable) (allowed may)
        ∙ ap (λ r. r >>= λ io. ok (record s { io = io; pflags = upd s.pflags (page_index s x) 2 }))
            e
      where
        checked : Run (Unit {0})
        checked = assert (has_sync (s.pflags (page_index s x)))

        same : (c : Bool) → (if c then ok tt else assert (has_sync 1)) ≡ ok tt
        same true = refl
        same false = refl

        allowed :
            (build.ctx ≡ true) ⊎ (s.pflags (page_index s x) ≡ 1)
            → (if build.ctx then ok tt else assert (has_sync (s.pflags (page_index s x)))) ≡ ok tt
        allowed (inl c) = if-true (λ r. r ≡ ok tt) build.ctx (ok tt) checked c refl
        allowed (inr flags) =
            ap (λ r. if build.ctx then ok tt else r) (ap (λ n. assert (has_sync n)) flags)
            ∙ same build.ctx

    -- A fault of the other kind, on a page that may be made writable.
    pub dirty-Granted :
        is_sync_fault build writes (s.pflags (page_index s x)) ≡ false
        → (build.ctx ≡ true) ⊎ (s.pflags (page_index s x) ≡ 1)
        → Granted s writes x 2
    dirty-Granted sync may =
        let first : Run Sbma = sync_fault sys build fuel (page_index s x) addr s in
        let other : Run Sbma = dirty_fault sys build fuel (page_index s x) addr s in
        grant 2 (omega arith) (λ io e.
          let end : Run Sbma =
            ok (record s { io = io; pflags = upd s.pflags (page_index s x) 2 }) in
          of_kind end (
            if-false (λ r. r ≡ end) (is_sync_fault build writes (s.pflags (page_index s x))) first
              other sync (dirty_fault-ok io may e)))
