-- ===== src/Sched/Dispatch.antt =====
-- `ooc_sched` runs each iteration once, in the order of the calls.
use open_ooc.Base.{
  ℕ, zero, suc, ◌+◌, ◌≤◌, ◌<◌, ◌≡◌, refl, arith, Bool, true, List, [], ◌∷◌, Run, ok, fault,
  out_of_fuel, ◌>>=◌, upd, ap, ◌∙◌, sym, eq-cases, ==-true, ==-false, inl, inr, if◌then◌else◌,
  Bool-cases, assert, if-false, ◌>>◌,
}
use open_ooc.Sched.Fibers.{
  Fibers, Host, ooc_num_fibers, kern_init, init_loop, init, search_fiber, assign, sched_loop,
  kernel_trampoline, ooc_sched,
}

module _ {M : Type 0} (host : Host M) where
  -- The iterations of a loop without the library, and with it.
  unfoldable pub direct : ℕ → ℕ → List ℕ → M → Run M
  direct kern args [] m = ok m
  direct kern args (i ∷ is) m = host.run_kernel kern i args m >>= direct kern args is

  unfoldable pub sched_all : ℕ → ℕ → List ℕ → Fibers M → Run (Fibers M)
  unfolding ooc_sched
  sched_all kern args [] f = ok f
  sched_all kern args (i ∷ is) f = ooc_sched host 1 kern i args f >>= sched_all kern args is

  -- The contexts are made where the library is set up.
  abbrev pub IsReady : Fibers M → Type 0
  IsReady f = f.is_init ≡ true → (j : ℕ) → j < ooc_num_fibers → f.kern_ready j ≡ true

  module _ (set : host.sigaction_set ≡ true) (get : (i : ℕ) → host.getcontext i ≡ true) where
    init_loop-ready :
        (count i : ℕ) (f : Fibers M)
        → (ready : ℕ → Bool) × (init_loop host count i f ≡ ok (record f { kern_ready = ready }))
          × ((j : ℕ) → i ≤ j → j < i + count → ready j ≡ true)
          × ((j : ℕ) → f.kern_ready j ≡ true → ready j ≡ true)
    unfolding init_loop kern_init
    init_loop-ready zero i f = (f.kern_ready, refl, (λ j le lt. absurd (omega arith)), (λ j e. e))
    init_loop-ready (suc count) i f =
        let f₁ = record f { kern_ready = upd f.kern_ready i true } in
        let (ready, run, new, old) = init_loop-ready count (suc i) f₁ in
        (
          ready,
          rw (get i, run) refl,
          (λ j le lt. elim (eq-cases i j) [
            | inl e ↦ old j (rw (==-true j i (sym e)) refl)
            | inr ne ↦ new j (omega arith) (omega arith)
          ]),
          (λ j e. old j (keeps f.kern_ready i j e)),
        )
      where
        keeps : (g : ℕ → Bool) (i j : ℕ) → g j ≡ true → upd g i true j ≡ true
        keeps g i j e = elim (eq-cases j i) [
          | inl q ↦ rw (==-true j i q) refl
          | inr q ↦ rw (==-false j i q) e
        ]

    init-runs :
        (f : Fibers M)
        → (f₁ : Fibers M) × (init host f ≡ ok f₁)
          × (f₁.is_init ≡ true)
          × ((j : ℕ) → j < ooc_num_fibers → f₁.kern_ready j ≡ true)
          × (f₁.memory ≡ f.memory)
    unfolding init
    init-runs f =
        let f₀ = record f { ps = host.page_size; handler_set = true } in
        let (made, run, new, old) = init_loop-ready ooc_num_fibers 0 f₀ in
        let fill : Run (Fibers M) → Run (Fibers M) =
          λ r. r >>= λ f₁. ok (record f₁ { is_init = true }) in
        (
          record f₀ { kern_ready = made; is_init = true },
          ap (λ b. assert b >> fill (init_loop host ooc_num_fibers 0 f₀)) set ∙ ap fill run,
          refl,
          (λ j lt. new j (omega arith) (omega arith)),
          refl,
        )

    -- The state in which the iteration starts.
    started :
        (f : Fibers M)
        → IsReady f
        → (f₁ : Fibers M) × ((if f.is_init then ok f else init host f) ≡ ok f₁)
          × ((j : ℕ) → j < ooc_num_fibers → f₁.kern_ready j ≡ true)
          × (f₁.memory ≡ f.memory)
    started f ready = elim (Bool-cases f.is_init) [
      | inl e ↦ (f, rw e refl, ready e, refl)
      | inr e ↦
          let (f₁, run, is, made, same) = init-runs f in
          (f₁, if-false (λ r. r ≡ ok f₁) f.is_init (ok f) (init host f) e run, made, same)
    ]

    -- One iteration, with the fibers as they are while it runs.
    ooc_sched-runs :
        (kern args i : ℕ) (f : Fibers M)
        → IsReady f
        → (f₁ : Fibers M) × ((m : M) → IsReady (record f₁ { memory = m }))
          × (ooc_sched host 1 kern i args f
              ≡ (host.run_kernel kern i args f.memory >>= λ m. ok (record f₁ { memory = m })))
    unfolding ooc_sched search_fiber sched_loop assign kernel_trampoline
    ooc_sched-runs kern args i f ready =
        let (f₁, e, made, same) = started f ready in
        let f₂ = record f₁ {
          iter = upd f₁.iter 0 i;
          kernel = upd f₁.kernel 0 kern;
          args = upd f₁.args 0 args;
          me = 0;
        } in
        let keep : M → Run (Fibers M) = λ m. ok (record f₂ { memory = m }) in
        (
          f₂,
          (λ m is. made),
          ap (λ r. r >>= sched_loop host 1 (search_fiber host ooc_num_fibers 0) kern i args) e
              ∙ ap (λ b. assert b >> (host.run_kernel kern i args f₁.memory >>= keep))
                  (made 0 (omega arith))
              ∙ ap (λ m. host.run_kernel kern i args m >>= keep) same,
        )

    then_direct :
        (kern args : ℕ) (is : List ℕ) (f₁ : Fibers M) (r : Run M)
        → ((m : M)
            → (sched_all kern args is (record f₁ { memory = m }) >>= λ f'. ok f'.memory)
              ≡ direct kern args is m)
        → (((r >>= λ m. ok (record f₁ { memory = m })) >>= sched_all kern args is) >>= λ f'.
            ok f'.memory)
          ≡ (r >>= direct kern args is)
    then_direct kern args is f₁ (ok m) rest = rest m
    then_direct kern args is f₁ fault rest = refl
    then_direct kern args is f₁ out_of_fuel rest = refl

    -- Where the calls of the system succeed and the library's contexts are made if it is set up,
    -- the iterations that one thread passes to `ooc_sched` do to the memory what the kernel does
    -- for them in this order, whether it ends, fails or runs on.
    pub sched_all-direct :
        (kern args : ℕ) (is : List ℕ) (f : Fibers M)
        → IsReady f
        → (sched_all kern args is f >>= λ f'. ok f'.memory) ≡ direct kern args is f.memory
    unfolding sched_all direct
    sched_all-direct kern args [] f ready = refl
    sched_all-direct kern args (i ∷ is) f ready =
        let (f₁, ready', e) = ooc_sched-runs kern args i f ready in
        ap (λ r. (r >>= sched_all kern args is) >>= λ f'. ok f'.memory) e
        ∙ then_direct kern args is f₁ (host.run_kernel kern i args f.memory)
            (λ m. sched_all-direct kern args is (record f₁ { memory = m }) (ready' m))
