-- ===== src/Malloc/Failure.antt =====
-- `ooc_malloc` where a call of the system fails.
use open_ooc.Base.{ℕ, ◌≡◌, ◌⊎◌, inl, inr, refl, List, ◌∷◌, Option, none, some, true, false, ok}
use open_ooc.Malloc.{
  Process, System, MapCall, mapped, unmapped, align, map_size, unmap, use_map, from_map, ooc_malloc,
  area_size,
}

module _ (sys : System) (fuel n : ℕ) (p : Process) where
  -- The process behind a map at `v`.
  abbrev pub with_map : ℕ → Process
  with_map v = record p { map_calls = mapped v (map_size sys n) ∷ p.map_calls }

  -- A map at `v` cannot be protected, but can be taken back.
  abbrev pub Refused : ℕ → Type 0
  Refused v =
      (sys.mprotect v (align sys.page area_size) (with_map v) ≡ false)
      × (sys.munmap v (map_size sys n) (with_map v) ≡ true)

  -- Only calls were made, and what was mapped is unmapped.
  abbrev pub Undone : List MapCall → Type 0
  Undone calls =
      (calls ≡ p.map_calls)
      ⊎ ((v : ℕ) × (calls ≡ unmapped v (map_size sys n) ∷ mapped v (map_size sys n) ∷ p.map_calls))

  from_map-Undone :
      (o : Option ℕ)
      → ((v : ℕ) → o ≡ some v → Refused v)
      → (calls : List MapCall) × (from_map sys fuel n p o
          ≡ ok (record p { map_calls = calls }, none))
        × Undone calls
  unfolding from_map use_map unmap
  from_map-Undone none f = (p.map_calls, refl, inl refl)
  from_map-Undone (some v) f =
      let r = f v refl in
      (
        unmapped v (map_size sys n) ∷ mapped v (map_size sys n) ∷ p.map_calls,
        rw (r.0, r.1) refl,
        inr (v, refl),
      )

  -- Where `mmap` fails, or gives a map that `mprotect` refuses and `munmap` takes back,
  -- `ooc_malloc` returns NULL, leaves the tree as it was, and keeps no map.
  pub ooc_malloc-Undone :
      ((v : ℕ) → sys.mmap (map_size sys n) p ≡ some v → Refused v)
      → (calls : List MapCall) × (ooc_malloc sys fuel n p
          ≡ ok (record p { map_calls = calls }, none))
        × Undone calls
  unfolding ooc_malloc
  ooc_malloc-Undone f = from_map-Undone (sys.mmap (map_size sys n) p) f
