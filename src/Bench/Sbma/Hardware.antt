-- ===== src/Bench/Sbma/Hardware.antt =====
-- Accesses that fault go on behind at most two faults.
use open_ooc.Base.{
  ℕ, zero, suc, ◌+◌, ◌≤◌, ◌<◌, ◌≡◌, ◌≢◌, refl, arith, ap, ◌∙◌, upd_same, Bool, true, false, not,
  if◌then◌else◌, if-true, if-false, ◌⊎◌, inl, inr, Run, ok, out_of_fuel, ◌>>=◌, upd_ne, Bool-cases,
}
use open_ooc.Bench.Io.{Access, no_access, read_only, write_only, read_write}
use open_ooc.Bench.Sbma.{Sbma, SbmaBuild, SbmaSystem, page_index, has_sync, sbma_segvhandler}
use open_ooc.Bench.Sbma.Tracked.{access_of, Protects, IsTracked, IsOn, page_index-IsOn}
use open_ooc.Bench.Sbma.Fault.{Granted, after, sync-Granted, dirty-Granted}

-- What the hardware permits, a write or a read.
abbrev pub permits : Bool → Access → Bool
permits true no_access = false
permits true read_only = false
permits true write_only = true
permits true read_write = true
permits false no_access = false
permits false read_only = true
permits false write_only = false
permits false read_write = true

-- An access as the hardware makes it: where it is not permitted, the handler runs and it is tried
-- again. The first number bounds the faults.
pub touch : SbmaSystem → SbmaBuild → ℕ → ℕ → Bool → ℕ → Sbma → Run Sbma
touch sys build fuel zero writes x s =
    if permits writes (s.io.protection x) then ok s else out_of_fuel
touch sys build fuel (suc n) writes x s =
    let again =
      sbma_segvhandler sys build fuel sys.sigsegv writes x s >>= touch sys build fuel n writes x in
    if permits writes (s.io.protection x) then ok s else again

module _ (sys : SbmaSystem) (build : SbmaBuild) (fuel page : ℕ) (lazy : build.lazy ≡ true) where
  -- Behind the faults of an access.
  pub record Reached (s : Sbma) (writes : Bool) (x n : ℕ) : Type 0 where
    pub end : Sbma
    pub run : touch sys build fuel n writes x s ≡ ok end
    pub permitted : permits writes (end.io.protection x) ≡ true
    pub tracked : IsTracked page end
    pub memory : end.io.memory ≡ s.io.memory
    pub others : (i : ℕ) → i ≢ page_index s x → end.pflags i ≡ s.pflags i
    pub base : end.base ≡ s.base
    pub num_mem : end.num_mem ≡ s.num_mem

  touch-now :
      (s : Sbma) (writes : Bool) (x n : ℕ)
      → permits writes (s.io.protection x) ≡ true
      → touch sys build fuel n writes x s ≡ ok s
  unfolding touch
  touch-now s writes x zero p =
      if-true (λ m. m ≡ ok s) (permits writes (s.io.protection x)) (ok s) out_of_fuel p refl
  touch-now s writes x (suc n) p =
      if-true (λ m. m ≡ ok s) (permits writes (s.io.protection x)) (ok s)
        (sbma_segvhandler sys build fuel sys.sigsegv writes x s >>= touch sys build fuel n writes x)
        p refl

  now :
      (s : Sbma) (writes : Bool) (x n : ℕ)
      → IsTracked page s
      → permits writes (s.io.protection x) ≡ true
      → Reached s writes x n
  now s writes x n t p = record {
    end = s;
    run = touch-now s writes x n p;
    permitted = p;
    tracked = t;
    memory = refl;
    others = λ i ne. refl;
    base = refl;
    num_mem = refl;
  }

  -- One fault more.
  faulted :
      (s : Sbma) (writes : Bool) (x v n : ℕ)
      → permits writes (s.io.protection x) ≡ false
      → (g : Granted sys build fuel page lazy s writes x v)
      → Reached (after sys build fuel page lazy s (page_index s x) v g.io) writes x n
      → Reached s writes x (suc n)
  unfolding touch
  faulted s writes x v n refused g r = record {
    end = r.end;
    run =
        if-false (λ m. m ≡ ok r.end) (permits writes (s.io.protection x)) (ok s)
          (sbma_segvhandler sys build fuel sys.sigsegv writes x s
            >>= touch sys build fuel n writes x)
          refused (ap (λ m. m >>= touch sys build fuel n writes x) g.run ∙ r.run);
    permitted = r.permitted;
    tracked = r.tracked;
    memory = r.memory ∙ g.memory;
    others = λ i ne. r.others i ne ∙ upd_ne s.pflags (page_index s x) v i ne;
    base = r.base;
    num_mem = r.num_mem;
  }

  abbrev Law : Sbma → Type 0
  Law s = Protects sys.io page s.base (s.base + s.num_mem)

  abbrev pub IsInside : Sbma → ℕ → Type 0
  IsInside s x = (s.base ≤ x) × (x < s.base + s.num_mem)

  -- By the flags of the page, which `value` gives.
  module _ (s : Sbma) (t : IsTracked page s) (x : ℕ) (inside : IsInside s x) where
    protection_by : (v : ℕ) → s.pflags (page_index s x) ≡ v → s.io.protection x ≡ access_of v
    protection_by v e =
        let on = page_index-IsOn page s t x inside.0 inside.1 in
        ap s.io.protection on.address
        ∙ t.protection (page_index s x) on.off on.below on.inside
        ∙ ap access_of e

    permits_by :
        (writes : Bool) (v : ℕ) (b : Bool)
        → permits writes (access_of v) ≡ b
        → s.pflags (page_index s x) ≡ v
        → permits writes (s.io.protection x) ≡ b
    permits_by writes v b p e = ap (permits writes) (protection_by v e) ∙ p

    one_fault :
        (writes : Bool) (v w n : ℕ)
        → s.pflags (page_index s x) ≡ v
        → permits writes (access_of v) ≡ false
        → permits writes (access_of w) ≡ true
        → Granted sys build fuel page lazy s writes x w
        → Reached s writes x (suc n)
    one_fault writes v w n e refused allowed g =
        faulted s writes x w n (permits_by writes v false refused e) g (
          now (after sys build fuel page lazy s (page_index s x) w g.io) writes x n g.tracked
            (ap (permits writes) g.protection ∙ allowed))

    -- A write to a page that is read-only.
    write_synced : (n : ℕ) → Law s → s.pflags (page_index s x) ≡ 1 → Reached s true x (suc n)
    write_synced n law e = one_fault true 1 2 n e refl refl (
        dirty-Granted sys build fuel page lazy s t law true x
          (page_index-IsOn page s t x inside.0 inside.1) (by_ctx build.ctx) (inr e))
      where
        by_ctx :
            (c : Bool)
            → (if c then not true else not (has_sync (s.pflags (page_index s x)))) ≡ false
        by_ctx true = refl
        by_ctx false = ap (λ f. not (has_sync f)) e

    -- A read of a page without access.
    read_fresh : (n : ℕ) → Law s → s.pflags (page_index s x) ≡ 0 → Reached s false x (suc n)
    read_fresh n law e = one_fault false 0 1 n e refl refl (
        sync-Granted sys build fuel page lazy s t law false x
          (page_index-IsOn page s t x inside.0 inside.1) (by_ctx build.ctx) e)
      where
        by_ctx :
            (c : Bool)
            → (if c then not false else not (has_sync (s.pflags (page_index s x)))) ≡ true
        by_ctx true = refl
        by_ctx false = ap (λ f. not (has_sync f)) e

  -- A write to a page without access: the handler is told of the write in one build, and not in the
  -- other, where a second fault comes.
  write_fresh :
      (s : Sbma) (t : IsTracked page s) (x : ℕ) (inside : IsInside s x) (n : ℕ)
      → Law s
      → s.pflags (page_index s x) ≡ 0
      → Reached s true x (suc (suc n))
  write_fresh s t x inside n law e = elim (Bool-cases build.ctx) [
    | inl told ↦ one_fault s t x inside true 0 2 (suc n) e refl refl (
        dirty-Granted sys build fuel page lazy s t law true x on
          (ap (λ c. if c then not true else not (has_sync (s.pflags (page_index s x)))) told)
          (inl told))
    | inr untold ↦
        let g =
          sync-Granted sys build fuel page lazy s t law true x on
            (ap (λ c. if c then not true else not (has_sync (s.pflags (page_index s x)))) untold
              ∙ ap (λ f. not (has_sync f)) e)
            e in
        faulted s true x 1 (suc n) (permits_by s t x inside true 0 false refl e) g (
          write_synced (after sys build fuel page lazy s (page_index s x) 1 g.io) g.tracked x inside
            n law (upd_same s.pflags (page_index s x) 1))
  ]
    where
      on : IsOn s x (page_index s x)
      on = page_index-IsOn page s t x inside.0 inside.1

  -- In the builds with USE_LAZY, before the pages are on disk, where the flags tell the protections
  -- and `mprotect` of pages of the memory does what it is documented to do: a read or a write at
  -- any address of the memory goes on behind at most two faults. The flags tell the protections
  -- then, the bytes are as before, and so are the flags of the other pages.
  pub touch-Reached :
      (s : Sbma) (writes : Bool) (x : ℕ)
      → IsTracked page s
      → Protects sys.io page s.base (s.base + s.num_mem)
      → IsInside s x
      → Reached s writes x 2
  touch-Reached s writes x t law inside =
      by_flags writes (s.pflags (page_index s x)) refl (t.flags (page_index s x) on.below)
    where
      on : IsOn s x (page_index s x)
      on = page_index-IsOn page s t x inside.0 inside.1

      ready :
          (writes : Bool) (v : ℕ)
          → permits writes (access_of v) ≡ true
          → s.pflags (page_index s x) ≡ v
          → Reached s writes x 2
      ready writes v p e = now s writes x 2 t (permits_by s t x inside writes v true p e)

      small : (v : ℕ) → v ≤ 2 → (v ≡ 0) ⊎ ((v ≡ 1) ⊎ (v ≡ 2))
      small v le = ground arith

      by_flags :
          (writes : Bool) (v : ℕ) → s.pflags (page_index s x) ≡ v → v ≤ 2 → Reached s writes x 2
      by_flags true v e le = elim (small v le) [
        | inl z ↦ write_fresh s t x inside 0 law (e ∙ z)
        | inr (inl z) ↦ write_synced s t x inside 1 law (e ∙ z)
        | inr (inr z) ↦ ready true 2 refl (e ∙ z)
      ]
      by_flags false v e le = elim (small v le) [
        | inl z ↦ read_fresh s t x inside 1 law (e ∙ z)
        | inr (inl z) ↦ ready false 1 refl (e ∙ z)
        | inr (inr z) ↦ ready false 2 refl (e ∙ z)
      ]
