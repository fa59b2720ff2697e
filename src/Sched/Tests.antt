-- ===== src/Sched/Tests.antt =====
-- The fault handler and the scheduler on concrete states.
use open_ooc.Base.{ℕ, ◌≡◌, refl, arith, true, [], ◌∷◌, ok, upd, ◌>>=◌, ◌+◌, false}
use open_ooc.VmArea.{Heap}
use open_ooc.SpTree.Shape.{leaf, node}
use open_ooc.SpTree.Valid.{IsTree}
use open_ooc.SpTree.Ops.{with_root}
use open_ooc.SpTree.Find.{containing}
use open_ooc.Sched.Handler.{Faulting, Mprotect, sigsegv_handler}
use open_ooc.Sched.Faults.{Granted, sigsegv_handler-Granted}
use open_ooc.Sched.Fibers.{Fibers, Host}
use open_ooc.Sched.Dispatch.{direct, sched_all, sched_all-direct}

abbrev zeros : ℕ → ℕ
zeros x = 0

-- One area, from 4096 to 12288.
abbrev area_store : Heap
area_store = record {
  sp_p = zeros;
  sp_l = zeros;
  sp_r = zeros;
  vm_prev = zeros;
  vm_next = zeros;
  vm_start = upd zeros 2 4096;
  vm_end = upd zeros 2 12288;
  vm_flags = zeros;
  calls = [];
}

abbrev faulting : Faulting
faulting = record {
  vma_tree = with_root area_store 2;
  ps = 4096;
  me = 0;
  addr = upd zeros 0 8200;
  protected = [];
}

abbrev allow : Mprotect
allow p f = true

faulting-IsTree : IsTree 0 20000 faulting.vma_tree (node leaf 2 leaf)
faulting-IsTree = record {
  stands = (refl, omega arith, omega arith, omega arith, omega arith, refl, tt, refl, tt);
  no_parent = refl;
  linked = (refl, refl, tt);
}

sigsegv_handler-Granted_example :
    (f' : Faulting) × (sigsegv_handler allow 1 faulting ≡ ok f')
    × Granted 0 20000 2 (2 ∷ []) faulting f'
unfolding containing
sigsegv_handler-Granted_example =
    sigsegv_handler-Granted allow 1 0 20000 2 12 faulting (node leaf 2 leaf) (λ p g. refl) refl
      (omega arith) (omega arith) faulting-IsTree (omega arith, omega arith, tt) refl (omega arith)
      (omega arith) (omega arith)

-- A kernel that adds its iteration to the memory.
abbrev host : Host ℕ
host = record {
  page_size = 4096;
  sigaction_set = true;
  sigaction_restore = true;
  getcontext = λ i. true;
  run_kernel = λ kern i args m. ok (m + i);
  resume = λ i m. ok m;
}

abbrev fibers : Fibers ℕ
fibers = record {
  iter = zeros;
  args = zeros;
  kernel = zeros;
  kern_ready = λ i. false;
  me = 0;
  ps = 0;
  is_init = false;
  handler_set = false;
  memory = 5;
}

sched_all-direct_example :
    (sched_all host 0 0 (1 ∷ 2 ∷ 3 ∷ []) fibers >>= λ f'. ok f'.memory)
    ≡ direct host 0 0 (1 ∷ 2 ∷ 3 ∷ []) 5
sched_all-direct_example =
    sched_all-direct host refl (λ i. refl) 0 0 (1 ∷ 2 ∷ 3 ∷ []) fibers (λ e. absurd (cc))
