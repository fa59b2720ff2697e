-- ===== src/Bench/Io/Load.antt =====
-- What `io_write` puts into the file comes back by `io_read`.
use open_ooc.Base.{
  ℕ, ◌+◌, ◌≤◌, ◌<◌, ◌≡◌, refl, arith, Bool, true, false, not, some, Run, ok, ◌>>=◌, ap, ◌∙◌, subst,
  word, ◌⊎◌,
}
use open_ooc.Bench.Io.{
  IoState, IoSystem, IoBuild, IoCall, Access, write_only, read_only, mprotect, open_read, open_new,
  close, lseek, issue, issue_if, done, move_loop, read_start, read_end, io_read, io_write,
}
use open_ooc.Bench.Io.Transfer.{Transfers, read_loop-Loaded, write_loop-Stored}

-- A call that succeeds and leaves memory and file alone; the position is `n`.
abbrev pub IsQuiet : IoSystem → IoCall → ℕ → IoState → Type 0
IsQuiet sys c n s =
    (s' : IoState) × (sys.call c s ≡ some s')
    × (s'.memory ≡ s.memory)
    × (s'.file ≡ s.file)
    × (s'.length ≡ s.length)
    × (s'.position ≡ n)
    × (s'.is_there ≡ s.is_there)

-- The calls of the system that do not fail: to create a file where there is none, and to open it
-- where there is one. An opened file is at its start.
pub record Succeeds (sys : IoSystem) : Type 0 where
  pub open_new :
      (s : IoState)
      → s.is_there ≡ false
      → (s' : IoState) × (sys.call open_new s ≡ some s')
        × (s'.memory ≡ s.memory)
        × (s'.position ≡ 0)
        × (s'.is_there ≡ true)
  pub open_read : (s : IoState) → s.is_there ≡ true → IsQuiet sys open_read 0 s
  pub lseek : (off : ℕ) (s : IoState) → IsQuiet sys (lseek off) off s
  pub close : (s : IoState) → IsQuiet sys close s.position s
  pub mprotect :
      (addr size : ℕ) (access : Access) (s : IoState)
      → IsQuiet sys (mprotect addr size access) s.position s

plus-zero : (i : ℕ) → i ≡ 0 + i
plus-zero i = omega arith

module _ (sys : IoSystem) (calls : Succeeds sys) (moves : Transfers sys) where
  -- A call under a test.
  maybe_quiet :
      (b : Bool) (c : IoCall) (s : IoState)
      → IsQuiet sys c s.position s
      → (s' : IoState) × (issue_if sys b c s ≡ ok s')
        × (s'.memory ≡ s.memory)
        × (s'.file ≡ s.file)
        × (s'.length ≡ s.length)
        × (s'.is_there ≡ s.is_there)
  maybe_quiet true c s (s', e, m, f, l, p, h) = (s', ap done e, m, f, l, h)
  maybe_quiet false c s q = (s, refl, refl, refl, refl, refl)

  pub io_write-Stored :
      (fuel addr size : ℕ) (s : IoState)
      → 0 < fuel
      → size ≤ fuel
      → size < word
      → s.is_there ≡ false
      → (s' : IoState) × (io_write sys fuel addr size s ≡ ok s')
        × (s'.memory ≡ s.memory)
        × (s'.is_there ≡ true)
        × (size ≤ s'.length)
        × ((i : ℕ) → i < size → s'.file i ≡ s.memory (addr + i))
  unfolding io_write
  io_write-Stored fuel addr size s pos enough fits new =
      let shut : IoState × ℕ → Run IoState = λ (s₂, left). issue sys close s₂ in
      let (s₁, e₁, m₁, p₁, h₁) = calls.open_new s new in
      let (s₂, e₂, w) = write_loop-Stored sys moves fuel addr size s₁ pos enough fits in
      let (s₃, e₃, m₃, f₃, l₃, p₃, h₃) = calls.close s₂ in
      (
        s₃,
        ap (λ r. done r >>= λ s₁. move_loop sys.write fuel addr size s₁ >>= shut) e₁
            ∙ ap (λ r. r >>= shut) e₂
            ∙ ap done e₃,
        m₃ ∙ w.memory ∙ m₁,
        h₃ ∙ w.is_there ∙ h₁,
        omega (arith, w.position, p₁, w.length, l₃),
        (λ i lt.
            ap (λ f. f i) f₃
            ∙ ap s₂.file (plus-zero i)
            ∙ subst (λ q. s₂.file (q + i) ≡ s₁.memory (addr + i)) p₁ (w.inside i lt)
            ∙ ap (λ f. f (addr + i)) m₁),
      )

  read_start-quiet :
      (libc : Bool) (addr off size : ℕ) (s : IoState)
      → s.is_there ≡ true
      → (s' : IoState) × (read_start sys (record { ghost = false; libc = libc }) addr off size s
          ≡ ok s')
        × (s'.memory ≡ s.memory)
        × (s'.file ≡ s.file)
        × (s'.length ≡ s.length)
        × (s'.position ≡ off)
  unfolding read_start
  read_start-quiet libc addr off size s there =
      let (s₁, e₁, m₁, f₁, l₁, h₁) =
        maybe_quiet (not libc) (mprotect addr size write_only) s
          (calls.mprotect addr size write_only s) in
      let (s₂, e₂, m₂, f₂, l₂, p₂, h₂) = calls.open_read s₁ (h₁ ∙ there) in
      let (s₃, e₃, m₃, f₃, l₃, p₃, h₃) = calls.lseek off s₂ in
      (
        s₃,
        ap (λ r. r >>= λ s₁. issue sys open_read s₁ >>= issue sys (lseek off)) e₁
            ∙ ap (λ r. done r >>= issue sys (lseek off)) e₂
            ∙ ap done e₃,
        m₃ ∙ m₂ ∙ m₁,
        f₃ ∙ f₂ ∙ f₁,
        l₃ ∙ l₂ ∙ l₁,
        p₃,
      )

  read_end-quiet :
      (libc : Bool) (addr : ℕ) (s : IoState)
      → (s' : IoState) × (read_end sys (record { ghost = false; libc = libc }) addr 0 addr s
          ≡ ok s')
        × (s'.memory ≡ s.memory)
  unfolding read_end
  read_end-quiet libc addr s =
      let (s₁, e₁, m₁, f₁, l₁, p₁, h₁) = calls.close s in
      let (s₂, e₂, m₂, f₂, l₂, h₂) =
        maybe_quiet (not libc) (mprotect addr 0 read_only) s₁
          (calls.mprotect addr 0 read_only s₁) in
      (
        s₂,
        ap (λ r. done r >>= λ s₁. issue_if sys (not libc) (mprotect addr 0 read_only) s₁ >>= ok) e₁
            ∙ ap (λ r. r >>= ok) e₂,
        m₂ ∙ m₁,
      )

  pub io_read-Loaded :
      (libc : Bool) (fuel dst off n : ℕ) (s : IoState)
      → 0 < fuel
      → n ≤ fuel
      → n < word
      → off + n ≤ s.length
      → s.is_there ≡ true
      → (s' : IoState) × (io_read sys (record { ghost = false; libc = libc }) fuel dst off n s
          ≡ ok s')
        × ((i : ℕ) → i < n → s'.memory (dst + i) ≡ s.file (off + i))
        × ((x : ℕ) → (x < dst) ⊎ (dst + n ≤ x) → s'.memory x ≡ s.memory x)
  unfolding io_read
  io_read-Loaded libc fuel dst off n s pos enough fits within there =
      let build : IoBuild = record { ghost = false; libc = libc } in
      let finish : IoState × ℕ → Run IoState = λ (s₂, left). read_end sys build dst left dst s₂ in
      let (s₂, e₂, m₂, f₂, l₂, p₂) = read_start-quiet libc dst off n s there in
      let (s₃, e₃, w) =
        read_loop-Loaded sys moves fuel dst n s₂ pos enough fits (omega (arith, p₂, l₂, within)) in
      let (s₄, e₄, m₄) = read_end-quiet libc dst s₃ in
      (
        s₄,
        ap (λ r. r >>= λ s₁. move_loop sys.read fuel dst n s₁ >>= finish) e₂
            ∙ ap (λ r. r >>= finish) e₃
            ∙ e₄,
        (λ i lt.
            ap (λ f. f (dst + i)) m₄
            ∙ w.inside i lt
            ∙ ap (λ f. f (s₂.position + i)) f₂
            ∙ ap (λ q. s.file (q + i)) p₂),
        (λ x out. ap (λ f. f x) m₄ ∙ w.outside x out ∙ ap (λ f. f x) m₂),
      )

  -- Where there is no file yet, no call of the system fails and each `read` and `write` moves at
  -- least one of the bytes it is asked for, then with fuel for each byte and one pass, `io_write`
  -- of a range of memory and a later `io_read` of `n` bytes at the offset `off` of it, into any
  -- place, both end, in the builds without USE_GHOST: the place has the bytes that the range had at
  -- this offset, and the rest of the memory is as before.
  pub io_read-io_write :
      (libc : Bool) (fuel addr size dst off n : ℕ) (s : IoState)
      → 0 < fuel
      → size ≤ fuel
      → size < word
      → off + n ≤ size
      → s.is_there ≡ false
      → (s' : IoState) × ((io_write sys fuel addr size s
            >>= io_read sys (record { ghost = false; libc = libc }) fuel dst off n)
          ≡ ok s')
        × ((i : ℕ) → i < n → s'.memory (dst + i) ≡ s.memory (addr + off + i))
        × ((x : ℕ) → (x < dst) ⊎ (dst + n ≤ x) → s'.memory x ≡ s.memory x)
  io_read-io_write libc fuel addr size dst off n s pos enough fits within new =
      let build : IoBuild = record { ghost = false; libc = libc } in
      let (s₁, e₁, m₁, h₁, l₁, f₁) = io_write-Stored fuel addr size s pos enough fits new in
      let (s₂, e₂, in₂, out₂) =
        io_read-Loaded libc fuel dst off n s₁ pos (omega arith) (omega arith)
          (omega (arith, l₁, within)) h₁ in
      (
        s₂,
        ap (λ r. r >>= io_read sys build fuel dst off n) e₁ ∙ e₂,
        (λ i lt. in₂ i lt ∙ f₁ (off + i) (omega (arith, lt, within)) ∙ ap s.memory (omega arith)),
        (λ x out. out₂ x out ∙ ap (λ f. f x) m₁),
      )
