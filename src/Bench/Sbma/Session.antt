-- ===== src/Bench/Sbma/Session.antt =====
-- From `impl_init` on, accesses and flushes in any order.
use native.Mathlib.Nat.{div-add-mod', mod-eq_of_lt}
use open_ooc.Base.{
  ℕ, ◌+◌, ◌*◌, ◌/◌, ◌%◌, ◌≤◌, ◌<◌, ◌≡◌, refl, arith, ap, sym, ◌∙◌, subst, word, Bool, true, List,
  [], ◌∷◌, Run, ok, ◌>>=◌, ◌>>◌, assert, assert-true,
}
use open_ooc.Bench.Io.{no_access, IoState}
use open_ooc.Bench.Sbma.{Sbma, SbmaBuild, SbmaSystem, impl_init, impl_flush}
use open_ooc.Bench.Sbma.Tracked.{Protects, IsTracked, IsTracked-IsLaid, rows_apart}
use open_ooc.Bench.Sbma.Hardware.{touch, touch-Reached}
use open_ooc.Bench.Sbma.Flush.{impl_flush-Flushed}

-- A read or a write of an address, or a flush.
pub data Event : Type 0 where
  access : Bool → ℕ → Event
  flush : Event

-- The addresses are from `lo` on and below `hi`.
abbrev pub IsWithin : ℕ → ℕ → Event → Type 0
IsWithin lo hi (access writes x) = (lo ≤ x) × (x < hi)
IsWithin lo hi flush = Unit

abbrev pub AreWithin : ℕ → ℕ → List Event → Type 0
AreWithin lo hi [] = Unit
AreWithin lo hi (e ∷ es) = IsWithin lo hi e × AreWithin lo hi es

-- Where the memory starts.
abbrev pub memory_at : SbmaSystem → ℕ → Sbma → ℕ
memory_at sys n s = (sys.map_none n s.io).1

-- `mmap` with no access gives whole pages below 2^64 that may not be accessed.
pub record Maps (sys : SbmaSystem) (n : ℕ) (io : IoState) : Type 0 where
  pub start : ℕ
  pub aligned : (sys.map_none n io).1 ≡ sys.page * start
  pub fits : (sys.map_none n io).1 + n < word
  pub none :
      (x : ℕ)
      → (sys.map_none n io).1 ≤ x
      → x < (sys.map_none n io).1 + n
      → (sys.map_none n io).0.protection x ≡ no_access

module _ (sys : SbmaSystem) (build : SbmaBuild) where
  pub event : Event → Sbma → Run Sbma
  event (access writes x) s = touch sys build 0 2 writes x s
  event flush s = impl_flush sys build s

  pub events : List Event → Sbma → Run Sbma
  events [] s = ok s
  events (e ∷ es) s = event e s >>= events es

  module _ (lazy : build.lazy ≡ true) (lo hi : ℕ) (law : Protects sys.io sys.page lo hi) where
    law_at :
        (s : Sbma)
        → s.base ≡ lo
        → s.base + s.num_mem ≡ hi
        → Protects sys.io sys.page s.base (s.base + s.num_mem)
    law_at s at_lo at_hi =
        subst (λ a. Protects sys.io sys.page a (s.base + s.num_mem)) (sym at_lo)
          (subst (Protects sys.io sys.page lo) (sym at_hi) law)

    event-IsTracked :
        (e : Event) (s : Sbma)
        → IsWithin lo hi e
        → IsTracked sys.page s
        → s.base ≡ lo
        → s.base + s.num_mem ≡ hi
        → (s' : Sbma) × (event e s ≡ ok s')
          × IsTracked sys.page s'
          × (s'.base ≡ lo)
          × (s'.base + s'.num_mem ≡ hi)
    unfolding event
    event-IsTracked (access writes x) s within t at_lo at_hi =
        let r =
          touch-Reached sys build 0 sys.page lazy s writes x t (law_at s at_lo at_hi)
            (subst (λ a. a ≤ x) (sym at_lo) within.0, subst (λ b. x < b) (sym at_hi) within.1) in
        (
          r.end,
          r.run,
          r.tracked,
          r.base ∙ at_lo,
          ap (λ n. n + r.end.num_mem) r.base ∙ ap (λ n. s.base + n) r.num_mem ∙ at_hi,
        )
    event-IsTracked flush s within t at_lo at_hi =
        let (s', run, r) =
          impl_flush-Flushed sys.page s (IsTracked-IsLaid sys.page s t) sys build
            (law_at s at_lo at_hi) in
        (
          s',
          run,
          r.tracked (λ i lt. let h = t.flags i lt in omega (arith, h)),
          r.base ∙ at_lo,
          ap (λ n. n + s'.num_mem) r.base ∙ ap (λ n. s.base + n) r.num_mem ∙ at_hi,
        )

    events-IsTracked :
        (es : List Event) (s : Sbma)
        → AreWithin lo hi es
        → IsTracked sys.page s
        → s.base ≡ lo
        → s.base + s.num_mem ≡ hi
        → (s' : Sbma) × (events es s ≡ ok s') × IsTracked sys.page s'
    unfolding events
    events-IsTracked [] s within t at_lo at_hi = (s, refl, t)
    events-IsTracked (e ∷ es) s within t at_lo at_hi =
        let (s₁, run₁, t₁, lo₁, hi₁) = event-IsTracked e s within.0 t at_lo at_hi in
        let (s₂, run₂, t₂) = events-IsTracked es s₁ within.1 t₁ lo₁ hi₁ in
        (s₂, ap (λ r. r >>= events es) run₁ ∙ run₂, t₂)

impl_init-IsTracked :
    (sys : SbmaSystem) (num_mem num_sys : ℕ) (s : Sbma)
    → sys.installs ≡ true
    → sys.map_flags (num_mem / (sys.page * num_sys)) ≡ true
    → 0 < sys.page * num_sys
    → sys.page * num_sys < word
    → num_mem % (sys.page * num_sys) ≡ 0
    → Maps sys num_mem s.io
    → (s' : Sbma) × (impl_init sys num_mem num_sys s ≡ ok s')
      × IsTracked sys.page s'
      × (s'.base ≡ (sys.map_none num_mem s.io).1)
      × (s'.num_mem ≡ num_mem)
unfolding impl_init
impl_init-IsTracked sys num_mem num_sys s installs flags pos fits whole maps = (
  new,
  assert-true sys.installs (assert (sys.map_flags new.num_pag) >> ok new) installs
      ∙ assert-true (sys.map_flags new.num_pag) (ok new)
          (ap (λ n. sys.map_flags (num_mem / n)) exact ∙ flags),
  record {
    start = maps.start;
    base = maps.aligned;
    siz_pag = exact;
    siz_pag_pos = subst (λ n. 0 < n) (sym exact) pos;
    num_mem = pages;
    fits = maps.fits;
    flags = λ i lt. omega arith;
    protection = λ i off lt lo.
        maps.none (new.base + i * new.siz_pag + off) (omega arith)
          (let h = rows_apart i new.num_pag new.siz_pag lt in omega (arith, h, pages, lo));
  },
  refl,
  refl,
)
  where
    exact : sys.page * num_sys % word ≡ sys.page * num_sys
    exact = mod-eq_of_lt fits

    new : Sbma
    new = record s {
      pflags = λ i. 0;
      base = (sys.map_none num_mem s.io).1;
      siz_pag = sys.page * num_sys % word;
      num_mem = num_mem;
      num_sys = num_sys;
      num_pag = num_mem / (sys.page * num_sys % word);
      io = (sys.map_none num_mem s.io).0;
    }

    pages : num_mem ≡ num_mem / (sys.page * num_sys % word) * (sys.page * num_sys % word)
    pages =
        let h = div-add-mod' num_mem (sys.page * num_sys) in
        subst (λ n. num_mem ≡ num_mem / n * n) (sym exact) (omega (arith, h, whole))

-- Where the handler can be installed, `mmap` gives pages without access for the memory, whose size
-- is a whole number of pages, and `mprotect` of these pages does what it is documented to do, in
-- the builds with USE_LAZY: behind `impl_init` reads, writes and flushes of the memory in any order
-- all succeed, with at most two faults for each access, and the flags tell the protections behind
-- them.
pub events-impl_init :
    (sys : SbmaSystem) (build : SbmaBuild) (num_mem num_sys : ℕ) (es : List Event) (s : Sbma)
    → build.lazy ≡ true
    → sys.installs ≡ true
    → sys.map_flags (num_mem / (sys.page * num_sys)) ≡ true
    → 0 < sys.page * num_sys
    → sys.page * num_sys < word
    → num_mem % (sys.page * num_sys) ≡ 0
    → Maps sys num_mem s.io
    → Protects sys.io sys.page (memory_at sys num_mem s) (memory_at sys num_mem s + num_mem)
    → AreWithin (memory_at sys num_mem s) (memory_at sys num_mem s + num_mem) es
    → (s' : Sbma) × ((impl_init sys num_mem num_sys s >>= events sys build es) ≡ ok s')
      × IsTracked sys.page s'
events-impl_init sys build num_mem num_sys es s lazy installs flags pos fits whole maps law within =
    let base : ℕ = (sys.map_none num_mem s.io).1 in
    let (s₁, run₁, t₁, lo, n) =
      impl_init-IsTracked sys num_mem num_sys s installs flags pos fits whole maps in
    let (s₂, run₂, t₂) =
      events-IsTracked sys build lazy base (base + num_mem) law es s₁ within t₁ lo
        (ap (λ b. b + s₁.num_mem) lo ∙ ap (λ m. base + m) n) in
    (s₂, ap (λ r. r >>= events sys build es) run₁ ∙ run₂, t₂)
