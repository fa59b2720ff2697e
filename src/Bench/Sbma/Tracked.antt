-- ===== src/Bench/Sbma/Tracked.antt =====
-- The flags of the pages tell their protections.
use native.Mathlib.Nat.{div-add-mod', mod-lt, mul-le-mul_right}
use open_ooc.Base.{
  ℕ, suc, ◌+◌, ◌-◌, ◌*◌, ◌/◌, ◌%◌, ◌≤◌, ◌<◌, ◌≡◌, ◌≢◌, arith, ap, sym, ◌∙◌, subst, word, sub64, upd,
  upd_same, upd_ne, ◌==◌, if◌then◌else◌, some, ◌⊎◌, inl, inr, eq-cases, lt-cases,
}
use open_ooc.Bench.Io.{Access, no_access, read_only, read_write, mprotect, IoState, IoSystem}
use open_ooc.Bench.Sbma.{Sbma, page_index, page_start}

-- What the flags say of a page that is not on disk.
abbrev pub access_of : ℕ → Access
access_of flags = if flags == 0 then no_access else if flags == 1 then read_only else read_write

-- `mprotect` of whole pages from `lo` to `hi` succeeds and does what it is documented to do.
pub record Protects (sys : IoSystem) (page lo hi : ℕ) : Type 0 where
  pub call :
      (addr n : ℕ) (access : Access) (s : IoState) (q m : ℕ)
      → addr ≡ page * q
      → n ≡ page * m
      → lo ≤ addr
      → addr + n ≤ hi
      → (s' : IoState) × (sys.call (mprotect addr n access) s ≡ some s')
        × ((x : ℕ) → addr ≤ x → x < addr + n → s'.protection x ≡ access)
        × ((x : ℕ) → (x < addr) ⊎ (addr + n ≤ x) → s'.protection x ≡ s.protection x)
        × (s'.memory ≡ s.memory)

-- The memory is whole pages of the program, each of whole pages of the system, below 2^64.
pub record IsLaid (page : ℕ) (s : Sbma) : Type 0 where
  pub start : ℕ
  pub base : s.base ≡ page * start
  pub siz_pag : s.siz_pag ≡ page * s.num_sys
  pub siz_pag_pos : 0 < s.siz_pag
  pub num_mem : s.num_mem ≡ s.num_pag * s.siz_pag
  pub fits : s.base + s.num_mem < word

pub record IsTracked (page : ℕ) (s : Sbma) : Type 0 where
  pub start : ℕ
  pub base : s.base ≡ page * start
  pub siz_pag : s.siz_pag ≡ page * s.num_sys
  pub siz_pag_pos : 0 < s.siz_pag
  pub num_mem : s.num_mem ≡ s.num_pag * s.siz_pag
  pub fits : s.base + s.num_mem < word
  pub flags : (i : ℕ) → i < s.num_pag → s.pflags i ≤ 2
  pub protection :
      (i off : ℕ)
      → i < s.num_pag
      → off < s.siz_pag
      → s.io.protection (s.base + i * s.siz_pag + off) ≡ access_of (s.pflags i)

pub IsTracked-IsLaid : (page : ℕ) (s : Sbma) → IsTracked page s → IsLaid page s
IsTracked-IsLaid page s t = record {
  start = t.start;
  base = t.base;
  siz_pag = t.siz_pag;
  siz_pag_pos = t.siz_pag_pos;
  num_mem = t.num_mem;
  fits = t.fits;
}

pub rows_apart : (i j n : ℕ) → i < j → i * n + n ≤ j * n
rows_apart i j n lt = let h : suc i * n ≤ j * n = mul-le-mul_right n lt in omega (arith, h)

-- The page of an address.
pub record IsOn (s : Sbma) (x ip : ℕ) : Type 0 where
  pub off : ℕ
  pub below : ip < s.num_pag
  pub inside : off < s.siz_pag
  pub address : x ≡ s.base + ip * s.siz_pag + off
  pub first : page_start s ip ≡ s.base + ip * s.siz_pag
  pub last : s.base + ip * s.siz_pag + s.siz_pag ≤ s.base + s.num_mem

module _ (page : ℕ) (s : Sbma) (t : IsTracked page s) where
  pub page_index-IsOn : (x : ℕ) → s.base ≤ x → x < s.base + s.num_mem → IsOn s x (page_index s x)
  page_index-IsOn x lo hi = record {
    off = d % s.siz_pag;
    below = below;
    inside = small;
    address = omega (arith, parts, lo, dist);
    first = omega (arith, t.fits, rest);
    last = omega (arith, rest);
  }
    where
      d : ℕ
      d = sub64 x s.base

      dist : d ≡ x - s.base
      dist = omega (arith, t.fits, lo, hi)

      parts : d / s.siz_pag * s.siz_pag + d % s.siz_pag ≡ d
      parts = div-add-mod' d s.siz_pag

      small : d % s.siz_pag < s.siz_pag
      small = mod-lt d t.siz_pag_pos

      below : d / s.siz_pag < s.num_pag
      below = elim (lt-cases (d / s.siz_pag) s.num_pag) [
        | inl l ↦ l
        | inr l ↦
            let h = mul-le-mul_right s.siz_pag l in
            absurd (omega (arith, h, parts, dist, hi, t.num_mem, lo))
      ]

      rest : d / s.siz_pag * s.siz_pag + s.siz_pag ≤ s.num_mem
      rest =
          subst (λ n. d / s.siz_pag * s.siz_pag + s.siz_pag ≤ n) (sym t.num_mem)
            (rows_apart (d / s.siz_pag) s.num_pag s.siz_pag below)

  -- A change of the page's flags with its protection.
  pub set-IsTracked :
      (x ip v : ℕ) (io : IoState) (faults : ℕ)
      → IsOn s x ip
      → v ≤ 2
      → ((y : ℕ)
          → s.base + ip * s.siz_pag ≤ y
          → y < s.base + ip * s.siz_pag + s.siz_pag
          → io.protection y ≡ access_of v)
      → ((y : ℕ)
          → (y < s.base + ip * s.siz_pag) ⊎ (s.base + ip * s.siz_pag + s.siz_pag ≤ y)
          → io.protection y ≡ s.io.protection y)
      → IsTracked page (record s { io = io; pflags = upd s.pflags ip v; faults = faults })
  set-IsTracked x ip v io faults on small inside outside = record {
    start = t.start;
    base = t.base;
    siz_pag = t.siz_pag;
    siz_pag_pos = t.siz_pag_pos;
    num_mem = t.num_mem;
    fits = t.fits;
    flags = λ i lt. elim (eq-cases i ip) [
      | inl same ↦
          subst (λ n. n ≤ 2) (sym (ap (upd s.pflags ip v) same ∙ upd_same s.pflags ip v)) small
      | inr ne ↦ subst (λ n. n ≤ 2) (sym (upd_ne s.pflags ip v i ne)) (t.flags i lt)
    ];
    protection = λ i off lt lo. elim (eq-cases i ip) [
      | inl same ↦
          ap (λ j. io.protection (s.base + j * s.siz_pag + off)) same
          ∙ inside (s.base + ip * s.siz_pag + off) (omega arith) (omega (arith, lo))
          ∙ ap access_of (sym (ap (upd s.pflags ip v) same ∙ upd_same s.pflags ip v))
      | inr ne ↦
          outside (s.base + i * s.siz_pag + off) (apart i off ne lo)
          ∙ t.protection i off lt lo
          ∙ ap access_of (sym (upd_ne s.pflags ip v i ne))
    ];
  }
    where
      apart :
          (i off : ℕ)
          → i ≢ ip
          → off < s.siz_pag
          → (s.base + i * s.siz_pag + off < s.base + ip * s.siz_pag)
            ⊎ (s.base + ip * s.siz_pag + s.siz_pag ≤ s.base + i * s.siz_pag + off)
      apart i off ne lo = elim (lt-cases i ip) [
        | inl l ↦ let h = rows_apart i ip s.siz_pag l in inl (omega (arith, h, lo))
        | inr l ↦ let h = rows_apart ip i s.siz_pag (omega (arith, l, ne)) in inr (omega (arith, h))
      ]
