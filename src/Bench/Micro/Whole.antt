-- ===== src/Bench/Micro/Whole.antt =====
-- All passes of the benchmark.
use open_ooc.Base.{ℕ, ◌≤◌, ◌<◌, ◌≡◌, ◌^◌, Bool, true, false}
use open_ooc.Bench.Micro.{Array, MicroBuild, Implementation, place_in}
use open_ooc.Bench.Micro.Order.{IsOrder}
use open_ooc.Bench.Micro.Passes.{sums, IsAt}

-- What an implementation's functions do to the first `elem` elements: the flush leaves them in the
-- builds without USE_LOAD; `impl_fetch_bulk` brings them from the file in those with it, and leaves
-- them otherwise; `impl_fetch_page` leaves them.
record Fetches (load : Bool) (elem : ℕ) (impl : Implementation) : Type 0 where
  flush : load ≡ false → (a : Array) (y : ℕ) → impl.impl_flush a y ≡ a y
  bulk_loaded :
      load ≡ true → (file a : Array) (y : ℕ) → y < elem → impl.impl_fetch_bulk file a y ≡ file y
  bulk_kept : load ≡ false → (file a : Array) (y : ℕ) → impl.impl_fetch_bulk file a y ≡ a y
  page : (file : Array) (x : ℕ) (a : Array) (y : ℕ) → impl.impl_fetch_page file x a y ≡ a y

module _ (build : MicroBuild) (impl : Implementation) (elem : ℕ)
    (law : Fetches build.load elem impl) (lt : 1 < elem) (fits : elem ≤ 2 ^ 32) (rnum : Array)
    (order : IsOrder elem rnum) where
  abbrev at : Array
  at = place_in build.rand rnum

  abbrev HasSums : Array → Type 0
  HasSums = IsAt at (sums rnum at) 0 elem
