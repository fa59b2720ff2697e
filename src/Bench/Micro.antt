-- ===== src/Bench/Micro.antt =====
-- bench/micro.c: the elapsed time, the random order of the elements, and the passes of the
-- benchmark over them. An array of DATATYPE, which is `unsigned`, is a function of the index.
-- Output and barriers are left out.
pub mod Elapsed
pub mod Order
pub mod Passes
pub mod Undo
pub mod Recheck
pub mod Whole
mod Tests
use open_ooc.Base.{
  ℕ, zero, suc, ◌+◌, ◌-◌, ◌*◌, ◌%◌, ◌^◌, add64, sub64, word, ltb, ◌==◌, Bool, if◌then◌else◌, Run,
  ok, ◌>>=◌, ◌>>◌, assert, upd, ◌&&◌, ◌||◌,
}

-- The two fields are `long`, here with 64 bits. Where an operation of `_getelapsed` overflows them,
-- which C leaves undefined, the model wraps around; for later times than the first, below 2^63
-- nanoseconds, none does.
pub record Timespec : Type 0 where
  pub tv_sec : ℕ
  pub tv_nsec : ℕ

unfoldable pub getelapsed : Timespec → Timespec → ℕ
getelapsed ts te =
    if ltb te.tv_nsec ts.tv_nsec
    then add64 (sub64 (sub64 te.tv_sec 1) ts.tv_sec * 1000000000)
        (sub64 (1000000000 + te.tv_nsec) ts.tv_nsec)
    else add64 (sub64 te.tv_sec ts.tv_sec * 1000000000) (sub64 te.tv_nsec ts.tv_nsec)

-- `unsigned`
abbrev pub add32 : ℕ → ℕ → ℕ
add32 a b = (a + b) % 2 ^ 32

abbrev pub sub32 : ℕ → ℕ → ℕ
sub32 a b = (a + (2 ^ 32 - b)) % 2 ^ 32

abbrev pub Array : Type 0
Array = ℕ → ℕ

-- The loops take the number of passes that are left, and the index.
unfoldable pub identity_loop : ℕ → ℕ → Array → Array
identity_loop zero i rnum = rnum
identity_loop (suc left) i rnum = identity_loop left (i + 1) (upd rnum i (i % 2 ^ 32))

-- `rand` gives what the function of that name returns in each pass.
unfoldable pub shuffle_loop : (ℕ → ℕ) → ℕ → ℕ → ℕ → Array → Array
shuffle_loop rand elem zero i rnum = rnum
shuffle_loop rand elem (suc left) i rnum =
    let j = add64 (rand i % sub64 (sub64 elem 1) i) i in
    shuffle_loop rand elem left (i + 1) (upd (upd rnum j (rnum i)) i (rnum j))

unfoldable pub random_array : (ℕ → ℕ) → ℕ → Array → Array
unfolding identity_loop shuffle_loop
random_array rand elem rnum = shuffle_loop rand elem (sub64 elem 1) 0 (identity_loop elem 0 rnum)

-- The order of the passes; `use_rand` is USE_RAND.
abbrev pub place_in : Bool → Array → ℕ → ℕ
place_in use_rand rnum i = if use_rand then rnum i else i

-- `addr[x] -= ...` and `addr[x] += ...`.
abbrev pub lower : ℕ → ℕ → Array → Array
lower x n addr = upd addr x (sub32 (addr x) n)

abbrev pub raise : ℕ → ℕ → Array → Array
raise x n addr = upd addr x (add32 (addr x) n)

-- What all passes share: `rnum`, and the place of each index.
module _ (rnum place : Array) where
  unfoldable pub populate_loop : ℕ → ℕ → Array → Array
  populate_loop zero i addr = addr
  populate_loop (suc left) i addr =
      let ii = place i in
      let jj = place (i - 1) in populate_loop left (i + 1) (upd addr ii (add32 (addr jj) (rnum ii)))

  unfoldable pub populate : ℕ → Array → Array
  unfolding populate_loop
  populate elem addr = let ii = place 0 in populate_loop (elem - 1) 1 (upd addr ii (rnum ii))

  unfoldable pub verify_loop : ℕ → ℕ → Array → Run (Unit {0})
  verify_loop zero i addr = ok tt
  verify_loop (suc left) i addr =
      let ii = place i in
      let jj = place (i - 1) in
      assert (add32 (addr jj) (rnum ii) == addr ii) >> verify_loop left (i + 1) addr

  unfoldable pub verify : ℕ → Array → Run (Unit {0})
  unfolding verify_loop
  verify elem addr =
      let ii = place 0 in assert (rnum ii == addr ii) >> verify_loop (elem - 1) 1 addr

  -- The implementation's `impl_fetch_page`, with the index and the array.
  module _ (fetch_page : ℕ → Array → Array) where
    unfoldable pub read_loop : ℕ → ℕ → Array → Run Array
    read_loop zero i addr = ok addr
    read_loop (suc left) i addr =
        let ii = place i in
        let jj = place (i - 1) in
        let fetched = fetch_page ii addr in
        assert (add32 (fetched jj) (rnum ii) == fetched ii) >> read_loop left (i + 1) fetched

    -- `fetch_bulk` is `impl_fetch_bulk`.
    unfoldable pub read_pass : (Array → Array) → ℕ → Array → Run Array
    unfolding read_loop
    read_pass fetch_bulk elem addr =
        let ii = place 0 in
        let fetched = fetch_page ii (fetch_bulk addr) in
        assert (rnum ii == fetched ii) >> read_loop (elem - 1) 1 fetched

    unfoldable pub update_loop : ℕ → ℕ → Array → Array
    update_loop zero i addr = addr
    update_loop (suc left) i addr =
        let ii = place i in
        let jj = place (i - 1) in
        let fetched = fetch_page ii addr in
        update_loop left (i + 1)
          (upd fetched ii (add32 (fetched ii) (add32 (fetched jj) (rnum ii))))

    unfoldable pub update_pass : (Array → Array) → ℕ → Array → Array
    unfolding update_loop
    update_pass fetch_bulk elem addr =
        let ii = place 0 in
        let fetched = fetch_page ii (fetch_bulk addr) in
        update_loop (elem - 1) 1 (upd fetched ii (add32 (fetched ii) (rnum ii)))

  unfoldable pub undo_first : Array → Run Array
  undo_first addr =
      let ii = place 1 in
      let jj = place 0 in
      let addr₁ = lower ii (add32 (addr jj) (rnum ii)) addr in
      let addr₂ = lower jj (rnum jj) addr₁ in
      let addr₃ = raise jj (rnum jj) addr₂ in
      do
        assert (rnum jj == addr₂ jj)
        assert (add32 (addr₂ jj) (rnum ii) == addr₂ ii)
        ok (raise ii (add32 (addr₃ jj) (rnum ii)) addr₃)

  unfoldable pub undo_step : ℕ → Array → Run Array
  undo_step i addr =
      let ii = place i in
      let jj = place (i - 1) in
      let kk = place (i - 2) in
      let addr₁ = lower ii (add32 (addr jj) (rnum ii)) addr in
      let addr₂ = lower jj (add32 (addr₁ kk) (rnum jj)) addr₁ in
      let addr₃ = raise jj (add32 (addr₂ kk) (rnum jj)) addr₂ in
      do
        assert (add32 (addr₂ jj) (rnum ii) == addr₂ ii)
        ok (raise ii (add32 (addr₃ jj) (rnum ii)) addr₃)

  unfoldable pub undo_loop : ℕ → ℕ → Array → Run Array
  unfolding undo_step
  undo_loop zero i addr = ok addr
  undo_loop (suc left) i addr = undo_step i addr >>= undo_loop left (i + 1)

  unfoldable pub undo_pass : ℕ → Array → Run Array
  unfolding undo_first undo_loop
  undo_pass elem addr = undo_first addr >>= undo_loop (elem - 2) 2

-- `USE_RAND`, `USE_LOAD`, `USE_WR`, `USE_RD` and `USE_RW`
pub record MicroBuild : Type 0 where
  pub rand : Bool
  pub load : Bool
  pub wr : Bool
  pub rd : Bool
  pub rw : Bool

-- What the functions of impl/impl.h do to the elements; the fetches have the file's elements first.
pub record Implementation : Type 0 where
  pub impl_flush : Array → Array
  pub impl_fetch_bulk : Array → Array → Array
  pub impl_fetch_page : Array → ℕ → Array → Array

-- The functions of impl/libc.c, in the builds without USE_LAZY: `NUM_MEM` is the size of the first
-- `elem` elements, and the offset of the fetch is 0.
unfoldable pub libc_elements : Bool → ℕ → Implementation
libc_elements load elem = record {
  impl_flush = λ a x. if load && ltb x elem then 0 else a x;
  impl_fetch_bulk = λ file a x. if load && ltb x elem then file x else a x;
  impl_fetch_page = λ file i a. a;
}

module _ (build : MicroBuild) (impl : Implementation) (rnum : Array) (elem : ℕ) where
  -- The passes that write, from the flush behind the shuffle to the part with USE_LOAD.
  unfoldable pub write_passes : Array → Run Array
  unfolding populate verify
  write_passes addr =
      let at = place_in build.rand rnum in
      let filled = populate rnum at elem (impl.impl_flush addr) in
      let flushed = impl.impl_flush filled in
      let again = if build.wr then populate rnum at elem (impl.impl_flush flushed) else flushed in
      do
        verify rnum at elem filled
        (if build.wr then verify rnum at elem again else ok tt)
        ok again

  -- `io_write`, which makes the array the file, and `memset`, with the flush behind them.
  abbrev pub put_aside : Array → Array
  put_aside addr =
      let aside : Array = λ x. if build.load && ltb x elem then 0 else addr x in
      if build.wr || build.load then impl.impl_flush aside else aside

  -- The passes that read, with the file.
  unfoldable pub read_passes : Array → Array → Run Array
  unfolding read_pass update_pass undo_pass
  read_passes file addr =
      let at = place_in build.rand rnum in
      let fetch_page = impl.impl_fetch_page file in
      let fetch_bulk = impl.impl_fetch_bulk file in
      do
        checked ←
            (if build.rd
              then (read_pass rnum at fetch_page fetch_bulk elem addr >>= λ a.
                  ok (impl.impl_flush a))
              else ok addr)
        (if build.rw
            then undo_pass rnum at elem (update_pass rnum at fetch_page fetch_bulk elem checked)
            else ok checked)

-- `main`, from the shuffle on.
unfoldable pub micro : MicroBuild → Implementation → (ℕ → ℕ) → ℕ → Array → Array → Run Array
unfolding random_array write_passes read_passes
micro build impl rand elem addr rnum =
    let order = random_array rand elem rnum in
    do
      written ← write_passes build impl order elem addr
      read_passes build impl order elem written (put_aside build impl order elem written)
