-- ===== src/Bench/Sbma/Flush.antt =====
-- `impl_flush` and `impl_init` leave flags that tell the protections.
use native.Mathlib.Nat.{mul_left_comm}
use open_ooc.Base.{
  ℕ, ◌+◌, ◌*◌, ◌/◌, ◌%◌, ◌≤◌, ◌<◌, ◌≡◌, refl, arith, ap, sym, ◌∙◌, ltb, Bool, true, false,
  if◌then◌else◌, if-true, Run, ok, ◌>>=◌,
}
use open_ooc.Bench.Io.{clear, no_access, write_only, mprotect, IoState, issue, issue_if, done}
use open_ooc.Bench.Sbma.{Sbma, SbmaBuild, SbmaSystem, impl_flush}
use open_ooc.Bench.Sbma.Tracked.{access_of, Protects, IsLaid, IsTracked, rows_apart}

ltb-true : (a b : ℕ) → a < b → ltb a b ≡ true
ltb-true a b lt = ground arith

-- Behind a flush.
pub record Flushed (page : ℕ) (build : SbmaBuild) (s s' : Sbma) : Type 0 where
  pub on_disk : (i : ℕ) → i < s.num_pag → s.pflags i / 4 % 2 ≡ 1 → s'.pflags i ≡ 4
  pub not_on_disk : (i : ℕ) → i < s.num_pag → s.pflags i / 4 % 2 ≡ 0 → s'.pflags i ≡ 0
  pub protection : (x : ℕ) → s.base ≤ x → x < s.base + s.num_mem → s'.io.protection x ≡ no_access
  pub tracked : ((i : ℕ) → i < s.num_pag → s.pflags i / 4 % 2 ≡ 0) → IsTracked page s'
  pub faults : s'.faults ≡ 0
  pub same_memory : build.load ≡ false → s'.io.memory ≡ s.io.memory
  pub cleared :
      build.load ≡ true → (x : ℕ) → s.base ≤ x → x < s.base + s.num_mem → s'.io.memory x ≡ 0
  pub base : s'.base ≡ s.base
  pub num_mem : s'.num_mem ≡ s.num_mem

module _ (page : ℕ) (s : Sbma) (t : IsLaid page s) where
  whole_pages : s.num_mem ≡ page * (s.num_pag * s.num_sys)
  whole_pages =
      t.num_mem ∙ ap (λ n. s.num_pag * n) t.siz_pag ∙ mul_left_comm s.num_pag page s.num_sys

  inside :
      (i off : ℕ)
      → i < s.num_pag
      → off < s.siz_pag
      → s.base + i * s.siz_pag + off < s.base + s.num_mem
  inside i off lt lo =
      let h = rows_apart i s.num_pag s.siz_pag lt in omega (arith, h, t.num_mem, lo)

  flushed_flags : ℕ → ℕ
  flushed_flags i = if ltb i s.num_pag then s.pflags i / 4 % 2 * 4 else s.pflags i

  flushed_flags-disk :
      (i bit : ℕ) → i < s.num_pag → s.pflags i / 4 % 2 ≡ bit → flushed_flags i ≡ bit * 4
  unfolding flushed_flags
  flushed_flags-disk i bit lt e =
      if-true (λ n. n ≡ bit * 4) (ltb i s.num_pag) (s.pflags i / 4 % 2 * 4) (s.pflags i)
        (ltb-true i s.num_pag lt) (ap (λ b. b * 4) e)

  module _ (sys : SbmaSystem) (build : SbmaBuild)
      (law : Protects sys.io page s.base (s.base + s.num_mem)) where
    -- The part under USE_LOAD.
    writable :
        (b : Bool)
        → (io : IoState) × (issue_if sys.io b (mprotect s.base s.num_mem write_only) s.io ≡ ok io)
          × (io.memory ≡ s.io.memory)
    writable true =
        let (io, e, inside, outside, memory) =
          law.call s.base s.num_mem write_only s.io t.start (s.num_pag * s.num_sys) t.base
            whole_pages (omega arith) (omega arith) in
        (io, ap done e, memory)
    writable false = (s.io, refl, refl)

    abbrev emptied : Bool → IoState → IoState
    emptied b io = if b then clear s.base s.num_mem io else io

    emptied-same : (b : Bool) (io : IoState) → b ≡ false → (emptied b io).memory ≡ io.memory
    emptied-same true io e = absurd (cc)
    emptied-same false io e = refl

    emptied-zero :
        (b : Bool) (io : IoState)
        → b ≡ true
        → (x : ℕ) → s.base ≤ x
        → x < s.base + s.num_mem
        → (emptied b io).memory x ≡ 0
    emptied-zero true io e x lo hi = grind arith
    emptied-zero false io e x lo hi = absurd (cc)

    -- Where no call of `mprotect` fails, `impl_flush` succeeds, whatever the flags: it takes the
    -- access from all pages, and of the flags it keeps just the one of the pages on disk; it sets
    -- the number of faults to 0, and fills the memory with 0 in the builds with USE_LOAD and leaves
    -- it in the others. Where no page is on disk, the flags tell the protections behind it.
    pub impl_flush-Flushed :
        (s' : Sbma) × (impl_flush sys build s ≡ ok s') × Flushed page build s s'
    unfolding impl_flush flushed_flags
    impl_flush-Flushed =
        let (io₁, e₁, m₁) = writable build.load in
        let (io₂, e₂, none, outside, m₂) =
          law.call s.base s.num_mem no_access (emptied build.load io₁) t.start
            (s.num_pag * s.num_sys) t.base whole_pages (omega arith) (omega arith) in
        let s' : Sbma = record s { pflags = flushed_flags; faults = 0; io = io₂ } in
        let finish : IoState → Run Sbma =
          λ io. ok (record s { pflags = flushed_flags; faults = 0; io = io }) in
        (
          s',
          ap
                (λ r. r >>= λ io.
                  issue sys.io (mprotect s.base s.num_mem no_access) (emptied build.load io)
                  >>= finish)
                e₁
              ∙ ap (λ r. done r >>= finish) e₂,
          record {
            on_disk = λ i lt e. flushed_flags-disk i 1 lt e;
            not_on_disk = λ i lt e. flushed_flags-disk i 0 lt e;
            protection = none;
            tracked = λ fresh. record {
              start = t.start;
              base = t.base;
              siz_pag = t.siz_pag;
              siz_pag_pos = t.siz_pag_pos;
              num_mem = t.num_mem;
              fits = t.fits;
              flags = λ i lt. let h = flushed_flags-disk i 0 lt (fresh i lt) in omega (arith, h);
              protection = λ i off lt lo.
                  none (s.base + i * s.siz_pag + off) (omega arith) (inside i off lt lo)
                  ∙ ap access_of (sym (flushed_flags-disk i 0 lt (fresh i lt)));
            };
            faults = refl;
            same_memory = λ e. m₂ ∙ emptied-same build.load io₁ e ∙ m₁;
            cleared = λ e x lo hi. ap (λ f. f x) m₂ ∙ emptied-zero build.load io₁ e x lo hi;
            base = refl;
            num_mem = refl;
          },
        )
