-- ===== src/Malloc/Tests.antt =====
-- The allocation on concrete processes.
use open_ooc.Malloc.Failure.{Undone, ooc_malloc-Undone}
use open_ooc.Base.{ℕ, ◌*◌, ◌≤◌, ◌<◌, ◌≡◌, refl, [], arith, some, true, ok, false, List, none}
use open_ooc.VmArea.{Heap}
use open_ooc.SpTree.Ops.{with_root}
use open_ooc.Malloc.{Process, System, align, ooc_malloc, MapCall}
use open_ooc.Malloc.Align.{align-rounds}

align-rounds_example :
    ((n : ℕ) × (align 4096 5000 ≡ 4096 * n)) × (5000 ≤ align 4096 5000) × (align 4096 5000 < 9096)
align-rounds_example = align-rounds 4096 12 5000 refl (omega arith) (omega arith)

abbrev zeros : ℕ → ℕ
zeros x = 0

abbrev nothing : Heap
nothing = record {
  sp_p = zeros;
  sp_l = zeros;
  sp_r = zeros;
  vm_prev = zeros;
  vm_next = zeros;
  vm_start = zeros;
  vm_end = zeros;
  vm_flags = zeros;
  calls = [];
}

abbrev process : Process
process = record { vma_tree = with_root nothing 0; map_calls = [] }

-- A system that maps at 8192.
abbrev system : System
system = record {
  page = 4096;
  mmap = λ n p. some 8192;
  mprotect = λ v n p. true;
  munmap = λ v n p. true;
}

-- A system that maps, but does not protect.
abbrev unprotected : System
unprotected = record system { mprotect = λ v n p. false }

ooc_malloc-Undone_example :
    (calls : List MapCall) × (ooc_malloc unprotected 0 100 process
      ≡ ok (record process { map_calls = calls }, none))
    × Undone unprotected 0 100 process calls
ooc_malloc-Undone_example = ooc_malloc-Undone unprotected 0 100 process (λ v e. (refl, refl))
