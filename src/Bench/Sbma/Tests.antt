-- ===== src/Bench/Sbma/Tests.antt =====
-- A memory of two pages of 16 bytes at the address 32.
use open_ooc.Base.{
  ℕ, ◌+◌, ◌≤◌, ◌<◌, ◌≡◌, refl, arith, leb, ltb, true, false, ◌&&◌, if◌then◌else◌, Option, none,
  some, ◌⊎◌, List, [], ◌∷◌, ok, ◌>>=◌,
}
use open_ooc.Bench.Io.{
  Access, no_access, read_only, read_write, mprotect, IoCall, IoState, IoSystem,
}
use open_ooc.Bench.Sbma.{Sbma, SbmaBuild, SbmaSystem, impl_init, impl_flush}
use open_ooc.Bench.Sbma.Tracked.{Protects, IsTracked, IsLaid}
use open_ooc.Bench.Sbma.Hardware.{Reached, touch-Reached}
use open_ooc.Bench.Sbma.Flush.{Flushed, impl_flush-Flushed}
use open_ooc.Bench.Sbma.Session.{Event, access, flush, events, Maps, events-impl_init}

abbrev protect : (ℕ → Access) → ℕ → ℕ → Access → ℕ → Access
protect old addr n new x = if leb addr x && ltb x (addr + n) then new else old x

protect-inside :
    (old : ℕ → Access) (addr n : ℕ) (new : Access) (x : ℕ)
    → addr ≤ x
    → x < addr + n
    → protect old addr n new x ≡ new
protect-inside old addr n new x lo hi = grind arith

protect-outside :
    (old : ℕ → Access) (addr n : ℕ) (new : Access) (x : ℕ)
    → (x < addr) ⊎ (addr + n ≤ x)
    → protect old addr n new x ≡ old x
protect-outside old addr n new x out = grind arith

abbrev plain_call : IoCall → IoState → Option IoState
plain_call (mprotect a n p) s = some (record s { protection = protect s.protection a n p })
plain_call _ s = some s

abbrev plain : IoSystem
plain = record {
  call = plain_call;
  mapped = λ n s. 0;
  read = λ buf n s. none;
  write = λ buf n s. none;
}

plain-Protects : (page lo hi : ℕ) → Protects plain page lo hi
plain-Protects page lo hi = record {
  call = λ addr n new s q m e₁ e₂ le₁ le₂. (
    record s { protection = protect s.protection addr n new },
    refl,
    protect-inside s.protection addr n new,
    protect-outside s.protection addr n new,
    refl,
  );
}

abbrev machine : SbmaSystem
machine = record {
  io = plain;
  page = 16;
  sigsegv = 11;
  installs = true;
  map_flags = λ n. true;
  map_none = λ n io. (record io { protection = λ x. no_access }, 32);
}

abbrev lazy_build : SbmaBuild
lazy_build = record { load = false; lazy = true; ctx = false; ghost = false }

abbrev empty_io : IoState
empty_io = record {
  memory = λ x. x;
  protection = λ x. no_access;
  is_there = false;
  file = λ x. 0;
  length = 0;
  position = 0;
  num_mem = 0;
  calls = [];
}

-- The first page was written, the second was read.
abbrev used : Sbma
used = record {
  pflags = λ i. if ltb i 1 then 2 else 1;
  base = 32;
  siz_pag = 16;
  num_mem = 32;
  num_sys = 1;
  num_pag = 2;
  faults = 3;
  io = record empty_io { protection = λ x. if ltb x 48 then read_write else read_only };
}

used-IsTracked : IsTracked 16 used
used-IsTracked = record {
  start = 2;
  base = refl;
  siz_pag = refl;
  siz_pag_pos = omega arith;
  num_mem = refl;
  fits = omega arith;
  flags = λ i lt. ground arith;
  protection = λ i off lt lo. grind arith;
}

touch-Reached_example : Reached machine lazy_build 0 16 refl used true 50 2
touch-Reached_example =
    touch-Reached machine lazy_build 0 16 refl used true 50 used-IsTracked
      (plain-Protects 16 32 (32 + 32)) (omega arith, omega arith)

-- The second page is on disk as well.
abbrev stored : Sbma
stored = record used { pflags = λ i. if ltb i 1 then 2 else 5 }

stored-IsLaid : IsLaid 16 stored
stored-IsLaid = record {
  start = 2;
  base = refl;
  siz_pag = refl;
  siz_pag_pos = omega arith;
  num_mem = refl;
  fits = omega arith;
}

impl_flush-Flushed_example :
    (s' : Sbma) × (impl_flush machine lazy_build stored ≡ ok s') × Flushed 16 lazy_build stored s'
impl_flush-Flushed_example =
    impl_flush-Flushed 16 stored stored-IsLaid machine lazy_build (plain-Protects 16 32 (32 + 32))

machine-Maps : Maps machine 32 empty_io
machine-Maps = record { start = 2; aligned = refl; fits = omega arith; none = λ x lo hi. refl }

abbrev steps : List Event
steps = access false 32 ∷ access true 63 ∷ flush ∷ access true 40 ∷ []

events-impl_init_example :
    (s' : Sbma) × ((impl_init machine 32 1 used >>= events machine lazy_build steps) ≡ ok s')
    × IsTracked 16 s'
events-impl_init_example =
    events-impl_init machine lazy_build 32 1 steps used refl refl refl (omega arith) (omega arith)
      refl (record { start = 2; aligned = refl; fits = omega arith; none = λ x lo hi. refl })
      (plain-Protects 16 32 (32 + 32))
      (
        (omega arith, omega arith),
        ((omega arith, omega arith), (tt, ((omega arith, omega arith), tt))),
      )
