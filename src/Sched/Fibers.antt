-- ===== src/Sched/Fibers.antt =====
-- The fibers of src/sched.c: `S_init`, `ooc_finalize` and `ooc_sched`.
use open_ooc.Base.{
  ℕ, zero, suc, Bool, true, false, if◌then◌else◌, Run, ok, out_of_fuel, ◌>>=◌, ◌>>◌, assert, upd,
  Option, none, some,
}

-- `OOC_NUM_FIBERS`
abbrev pub ooc_num_fibers : ℕ
ooc_num_fibers = 10

-- The variables of one thread; kernels and their arguments are numbers. `kern_ready` tells which
-- contexts `S_kern` are made, `handler_set` whether the signal handler is the library's, and
-- `memory` is what the kernels work on.
pub record Fibers (M : Type 0) : Type 0 where
  pub iter : ℕ → ℕ
  pub args : ℕ → ℕ
  pub kernel : ℕ → ℕ
  pub kern_ready : ℕ → Bool
  pub me : ℕ
  pub ps : ℕ
  pub is_init : Bool
  pub handler_set : Bool
  pub memory : M

-- The size of a page; the calls of `sigaction` to set the handler and to put the old one back, and
-- `getcontext`: whether they return 0; and what a run of a kernel comes to, and one that goes on
-- behind a fault.
pub record Host (M : Type 0) : Type 0 where
  pub page_size : ℕ
  pub sigaction_set : Bool
  pub sigaction_restore : Bool
  pub getcontext : ℕ → Bool
  pub run_kernel : ℕ → ℕ → ℕ → M → Run M
  pub resume : ℕ → M → Run M

module _ {M : Type 0} (host : Host M) where
  -- `S_kern_init`
  unfoldable pub kern_init : ℕ → Fibers M → Run (Fibers M)
  kern_init i f = do
    assert (host.getcontext i)
    ok (record f { kern_ready = upd f.kern_ready i true })

  -- The loop of `S_init`, with the passes that are left.
  unfoldable pub init_loop : ℕ → ℕ → Fibers M → Run (Fibers M)
  unfolding kern_init
  init_loop zero i f = ok f
  init_loop (suc count) i f = do f₁ ← kern_init i f; init_loop count (suc i) f₁

  -- `S_init`
  unfoldable pub init : Fibers M → Run (Fibers M)
  unfolding init_loop
  init f = do
    assert host.sigaction_set
    f₁ ← init_loop ooc_num_fibers 0 (record f { ps = host.page_size; handler_set = true })
    ok (record f₁ { is_init = true })

  -- The new state, and whether the result is 0.
  unfoldable pub ooc_finalize : Fibers M → Fibers M × Bool
  ooc_finalize f =
      let left = if host.sigaction_restore then false else f.handler_set in
      (record f { handler_set = left; is_init = false }, host.sigaction_restore)

  -- `S_kernel_trampoline`; `S_flush` does nothing.
  unfoldable pub kernel_trampoline : ℕ → Fibers M → Run (Fibers M)
  kernel_trampoline i f = do
    m ← host.run_kernel (f.kernel i) (f.iter i) (f.args i) f.memory
    ok (record f { memory = m })

  -- The search for a fiber: the test for a runnable one is `0` in the source, and that for an idle
  -- one is `1`. The results are `run` and `idle`.
  unfoldable pub search_fiber : ℕ → ℕ → Option ℕ × Option ℕ
  search_fiber zero j = (none, none)
  search_fiber (suc count) j =
      let rest = search_fiber count (suc j) in
      if false then (some j, none) else if true then (none, some j) else rest

  -- The iteration goes to the idle fiber, and its kernel runs.
  unfoldable pub assign : ℕ → ℕ → ℕ → ℕ → Fibers M → Run (Fibers M)
  unfolding kernel_trampoline
  assign idle kern i args f =
      let f₁ = record f {
        iter = upd f.iter idle i;
        kernel = upd f.kernel idle kern;
        args = upd f.args idle args;
        me = idle;
      } in
      do assert (f.kern_ready idle); kernel_trampoline idle f₁

  -- The endless loop: with a fiber to run it switches to a handler, of which there are none, and
  -- with neither it waits.
  unfoldable pub sched_loop : ℕ → Option ℕ × Option ℕ → ℕ → ℕ → ℕ → Fibers M → Run (Fibers M)
  unfolding assign
  sched_loop zero found kern i args f = out_of_fuel
  sched_loop (suc fuel) (some run, idle) kern i args f = do
    m ← host.resume run f.memory
    sched_loop fuel (some run, idle) kern i args (record f { me = run; memory = m })
  sched_loop (suc fuel) (none, some idle) kern i args f = assign idle kern i args f
  sched_loop (suc fuel) (none, none) kern i args f = sched_loop fuel (none, none) kern i args f

  unfoldable pub ooc_sched : ℕ → ℕ → ℕ → ℕ → Fibers M → Run (Fibers M)
  unfolding init search_fiber sched_loop
  ooc_sched fuel kern i args f = do
    f₁ ← if f.is_init then ok f else init f
    sched_loop fuel (search_fiber ooc_num_fibers 0) kern i args f₁
