-- ===== src/Bench/Io/Tiny.antt =====
-- A system that moves at most two bytes with each call, on a file of few bytes.
use open_ooc.Base.{
  ℕ, ◌+◌, ◌-◌, ◌≤◌, ◌<◌, ◌≡◌, refl, arith, true, false, ◌&&◌, if◌then◌else◌, Option, none, some,
  leb, ltb, ◌⊎◌, [], ◌∷◌, ◌*◌,
}
use open_ooc.Bench.Io.{
  munmap, read_write, IoState, IoSystem, IoCall, open_read, open_new, close, lseek, mprotect, mmap,
  mremap, fadvise, unlink,
}
use open_ooc.Bench.Io.Transfer.{Transfers}
use open_ooc.Bench.Io.Load.{Succeeds}

-- `n` values of `src` from `from` on, in place of those of `dst` from `to` on.
abbrev blit : (ℕ → ℕ) → ℕ → (ℕ → ℕ) → ℕ → ℕ → ℕ → ℕ
blit dst to src from n x = if leb to x && ltb x (to + n) then src (from + (x - to)) else dst x

abbrev few : ℕ → ℕ
few n = if leb n 2 then n else 2

abbrev there : ℕ → IoState → ℕ
there n s = few (if leb (s.position + n) s.length then n else s.length - s.position)

abbrev tiny_read : ℕ → ℕ → IoState → IoState
tiny_read buf k s = record s {
  memory = blit s.memory buf s.file s.position k;
  position = s.position + k;
}

abbrev tiny_write : ℕ → ℕ → IoState → IoState
tiny_write buf k s = record s {
  file = blit s.file s.position s.memory buf k;
  position = s.position + k;
  length = if leb (s.position + k) s.length then s.length else s.position + k;
}

abbrev tiny_call : IoCall → IoState → Option IoState
tiny_call (mprotect a n p) s = some (record s { calls = mprotect a n p ∷ s.calls })
tiny_call (mmap n) s = some s
tiny_call (munmap a n) s = some s
tiny_call open_read s = if s.is_there then some (record s { position = 0 }) else none
tiny_call open_new s =
    if s.is_there then none else some (record s { is_there = true; position = 0; length = 0 })
tiny_call close s = some s
tiny_call (lseek n) s = some (record s { position = n })
tiny_call (mremap a b c d) s = none
tiny_call (fadvise n) s = some s
tiny_call unlink s = some (record s { is_there = false })

abbrev pub tiny : IoSystem
tiny = record {
  call = tiny_call;
  mapped = λ n s. 0;
  read = λ buf n s. some (tiny_read buf (there n s) s, there n s);
  write = λ buf n s. some (tiny_write buf (few n) s, few n);
}

module _ (dst : ℕ → ℕ) (to : ℕ) (src : ℕ → ℕ) (from n : ℕ) where
  blit-inside : (i : ℕ) → i < n → blit dst to src from n (to + i) ≡ src (from + i)
  blit-inside i lt = grind arith

  blit-outside : (x : ℕ) → (x < to) ⊎ (to + n ≤ x) → blit dst to src from n x ≡ dst x
  blit-outside x out = grind arith

few_le : (n : ℕ) → few n ≤ n
few_le n = ground arith

few_pos : (n : ℕ) → 0 < n → 0 < few n
few_pos n lt = ground arith

there_le : (n : ℕ) (s : IoState) → s.position + n ≤ s.length → there n s ≤ n
there_le n s le = ground arith

there_pos : (n : ℕ) (s : IoState) → s.position + n ≤ s.length → 0 < n → 0 < there n s
there_pos n s le lt = ground arith

at_end : (a b : ℕ) → a ≤ (if leb a b then b else a)
at_end a b = ground arith

pub tiny-Transfers : Transfers tiny
tiny-Transfers = record {
  read = λ buf n s le. (
    tiny_read buf (there n s) s,
    there n s,
    refl,
    there_le n s le,
    there_pos n s le,
    record {
      inside = blit-inside s.memory buf s.file s.position (there n s);
      outside = blit-outside s.memory buf s.file s.position (there n s);
      position = refl;
      file = refl;
      length = refl;
      is_there = refl;
    },
  );
  write = λ buf n s. (
    tiny_write buf (few n) s,
    few n,
    refl,
    few_le n,
    few_pos n,
    record {
      inside = blit-inside s.file s.position s.memory buf (few n);
      outside = blit-outside s.file s.position s.memory buf (few n);
      position = refl;
      memory = refl;
      length = at_end (s.position + few n) s.length;
      is_there = refl;
    },
  );
}

pub tiny-Succeeds : Succeeds tiny
tiny-Succeeds = record {
  open_new =
      λ s e. (record s { is_there = true; position = 0; length = 0 }, rw e refl, refl, refl, refl);
  open_read = λ s e. (record s { position = 0 }, rw e refl, refl, refl, refl, refl, refl);
  lseek = λ off s. (_, refl, refl, refl, refl, refl, refl);
  close = λ s. (_, refl, refl, refl, refl, refl, refl);
  mprotect = λ addr size access s. (_, refl, refl, refl, refl, refl, refl);
}

-- Each address has ten times itself; there is no file.
abbrev pub fresh : IoState
fresh = record {
  memory = λ x. 10 * x;
  protection = λ x. read_write;
  is_there = false;
  file = λ x. 0;
  length = 0;
  position = 0;
  num_mem = 5;
  calls = [];
}

abbrev pub written : IoState
written = record fresh { is_there = true; file = λ x. x + 1; length = 5 }
