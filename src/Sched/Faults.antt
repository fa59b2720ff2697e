-- ===== src/Sched/Faults.antt =====
-- What a fault leads to.
use open_ooc.SpTree.InsertTree.{Linked-eq}
use open_ooc.Base.{
  ℕ, ◌+◌, ◌≤◌, ◌<◌, ◌≡◌, ◌-◌, ◌%◌, ◌^◌, if-true, if-false, ==-true, ==-false, word, subst, sym,
  refl, arith, true, some, List, ◌∷◌, ok, ap, ◌∙◌, upd_self, assert, ◌>>=◌, inr, ◌>>◌, inl, ◌*◌,
  ◌/◌, ◌%◌, ◌^◌, ==-false, word, if-false, subst, if-true, sym, ==-true, ◌-◌,
}
use open_ooc.Bits.{bit_and-bit_not}
use open_ooc.VmArea.{lock_get, lock_let, tree, area, call}
use open_ooc.SpTree.Shape.{Tree, leaf, node, inorder, size, HasParent, Stands-frame, node}
use open_ooc.SpTree.Valid.{IsTree, IsTree-call}
use open_ooc.SpTree.Ops.{SpTree}
use open_ooc.SpTree.Find.{containing, found, IsSpaced}
use open_ooc.SpTree.FindTree.{locked, sp_tree_find_and_lock-containing}
use open_ooc.Sched.Handler.{
  Faulting, Mprotect, new_flags, new_prot, page_of, set_flags, grant, sigsegv_handler, Protected,
  Prot, prot_read, prot_read_write, set_dirty, has_dirty,
}
use native.Mathlib.Nat.{mod-lt, div-add-mod, one-le-pow, one-le-pow}

-- What a fault does to the area `v` whose flags were `n`, and to the page: the first fault marks
-- the area read and makes the page readable, a later one marks the area dirty, by the bit 0x10, and
-- makes the page writable too.
pub record IsAccess (n page ps : ℕ) (f f' : Faulting) (v : ℕ) : Type 0 where
  pub first :
      n % 2 ≡ 0
      → (f'.vma_tree.heap.vm_flags v ≡ n + 1)
        × (f'.protected ≡ record { at = page; size = ps; prot = prot_read } ∷ f.protected)
  pub second_clean : n % 2 ≡ 1 → n / 16 % 2 ≡ 0 → f'.vma_tree.heap.vm_flags v ≡ n + 16
  pub second_dirty : n % 2 ≡ 1 → n / 16 % 2 ≡ 1 → f'.vma_tree.heap.vm_flags v ≡ n
  pub second :
      n % 2 ≡ 1
      → f'.protected ≡ record { at = page; size = ps; prot = prot_read_write } ∷ f.protected

first_access : (n : ℕ) → n % 2 ≡ 0 → (new_flags n ≡ n + 1) × (new_prot n ≡ prot_read)
first_access n even = rw (==-false (n % 2) 1 (λ e. absurd (omega (arith, even, e)))) (refl, refl)

second_access : (n : ℕ) → n % 2 ≡ 1 → (new_flags n ≡ set_dirty n) × (new_prot n ≡ prot_read_write)
second_access n odd = rw (==-true (n % 2) 1 odd) (refl, refl)

access :
    (n page ps : ℕ) (f f' : Faulting) (v : ℕ)
    → f'.vma_tree.heap.vm_flags v ≡ new_flags n
    → f'.protected ≡ record { at = page; size = ps; prot = new_prot n } ∷ f.protected
    → IsAccess n page ps f f' v
access n page ps f f' v flags protected = record {
  first = λ even. (flags ∙ (first_access n even).0, protected ∙ ap given (first_access n even).1);
  second_clean = λ odd clean.
      flags
      ∙ (second_access n odd).0
      ∙ if-false (λ k. k ≡ n + 16) (has_dirty n) n (n + 16)
          (==-false (n / 16 % 2) 1 (λ h. absurd (omega (arith, clean, h)))) refl;
  second_dirty = λ odd dirty.
      flags
      ∙ (second_access n odd).0
      ∙ if-true (λ k. k ≡ n) (has_dirty n) n (n + 16) (==-true (n / 16 % 2) 1 dirty) refl;
  second = λ odd. protected ∙ ap given (second_access n odd).1;
}
  where
    given : Prot → List Protected
    given p = record { at = page; size = ps; prot = p } ∷ f.protected

-- The outcome: the area `v` got its new flags, the page of the address its protection, and the area
-- was locked while the tree was, and released at the end. The tree `u'` has the nodes as before.
pub record Granted (lo hi v : ℕ) (xs : List ℕ) (f f' : Faulting) : Type 0 where
  pub u' : Tree
  pub valid : IsTree lo hi f'.vma_tree u'
  pub nodes : inorder u' ≡ xs
  pub page : ℕ
  pub access : IsAccess (f.vma_tree.heap.vm_flags v) page f.ps f f' v
  pub aligned : (n : ℕ) × (page ≡ f.ps * n)
  pub below : page ≤ f.addr f.me
  pub above : f.addr f.me < page + f.ps
  pub calls :
      f'.vma_tree.heap.calls
      ≡ lock_let (area v)
        ∷ lock_let tree
        ∷ lock_get (area v)
        ∷ lock_get tree
        ∷ f.vma_tree.heap.calls
  pub vm_start : f'.vma_tree.heap.vm_start ≡ f.vma_tree.heap.vm_start
  pub vm_end : f'.vma_tree.heap.vm_end ≡ f.vma_tree.heap.vm_end
  pub addr : f'.addr ≡ f.addr
  pub me : f'.me ≡ f.me
  pub ps : f'.ps ≡ f.ps

-- The page of an address, for a size of a page that is a power of two.
page_of-Page :
    (ps k a : ℕ)
    → ps ≡ 2 ^ k
    → k < 64
    → a < word
    → ((n : ℕ) × (page_of ps a ≡ ps * n)) × (page_of ps a ≤ a) × (a < page_of ps a + ps)
page_of-Page ps k a two small fits =
    let pos : 0 < ps = subst (λ q. 0 < q) (sym two) (one-le-pow k 2 (omega arith)) in
    let e : page_of ps a ≡ a - a % ps = bit_and-bit_not ps k a two small fits in
    let d = div-add-mod a ps in
    let r = mod-lt a pos in
    ((a / ps, e ∙ omega (arith, d)), omega (arith, e), omega (arith, e, r, d))

-- The flags do not matter to the tree.
module _ (lo hi v fl : ℕ) (sp : SpTree) where
  flags-HasParent :
      (u : Tree) (a : ℕ) → HasParent sp.heap u a → HasParent (set_flags v fl sp).heap u a
  flags-HasParent leaf a e = tt
  flags-HasParent (node l b r) a e = e

  flags-IsTree : (u : Tree) → IsTree lo hi sp u → IsTree lo hi (set_flags v fl sp) u
  flags-IsTree u t = record {
    stands =
        Stands-frame 0 sp.heap (set_flags v fl sp).heap lo hi lo hi sp.root sp.root sp.root u
          t.stands refl (omega arith) (omega arith) (λ x one k₁ k₂. (inr refl, refl, refl, refl))
          (inl refl);
    no_parent = flags-HasParent u 0 t.no_parent;
    linked = Linked-eq sp.heap (set_flags v fl sp).heap 0 0 (inorder u) refl refl t.linked;
  }

-- The state behind the grant of access to the area `v`.
module _ (mprotect : Mprotect) (v : ℕ) (f : Faulting) where
  abbrev old_flags : ℕ
  old_flags = f.vma_tree.heap.vm_flags v

  abbrev given : Protected
  given = record { at = page_of f.ps (f.addr f.me); size = f.ps; prot = new_prot old_flags }

  abbrev granted : Faulting
  granted =
      let sp = set_flags v (new_flags old_flags) f.vma_tree in
      record f {
        vma_tree = record sp { heap = call (lock_let (area v)) sp.heap };
        protected = given ∷ f.protected;
      }

  grant-granted :
      ((p : Protected) (g : Faulting) → mprotect p g ≡ true) → grant mprotect v f ≡ ok granted
  unfolding grant
  grant-granted succeeds =
      ap (λ b. assert b >> ok granted)
        (succeeds given (record f { vma_tree = set_flags v (new_flags old_flags) f.vma_tree }))

-- On a valid tree whose areas do not overlap, where the address is in the area `v` and `mprotect`
-- succeeds, for a size of a page that is a power of two and areas below 2^64, with fuel for each
-- node, the handler succeeds: the page of the address becomes readable where the area had not been
-- read, and writable as well where it had, the area's flags say so by the bits 0x1 and 0x10, the
-- tree stays valid with the same nodes and ranges, and the area's lock is released.
pub sigsegv_handler-Granted :
    (mprotect : Mprotect) (fuel lo hi v k : ℕ) (f : Faulting) (u : Tree)
    → ((p : Protected) (g : Faulting) → mprotect p g ≡ true)
    → f.ps ≡ 2 ^ k
    → k < 64
    → hi ≤ word
    → IsTree lo hi f.vma_tree u
    → IsSpaced f.vma_tree.heap lo (inorder u)
    → containing f.vma_tree.heap (f.addr f.me) (inorder u) ≡ some v
    → lo ≤ f.addr f.me
    → f.addr f.me < hi
    → size u ≤ fuel
    → (f' : Faulting) × (sigsegv_handler mprotect fuel f ≡ ok f') × Granted lo hi v (inorder u) f f'
unfolding sigsegv_handler grant
sigsegv_handler-Granted mprotect fuel lo hi v k f u succeeds two small top valid spaced at low high
      enough =
    let w =
      sp_tree_find_and_lock-containing fuel lo hi (f.addr f.me) f.vma_tree u valid spaced low high
        enough in
    let sp = locked w.g w.p v in
    let f₁ = record f { vma_tree = sp } in
    let same = ap (λ g. g v) w.vm_flags in
    let bounds = page_of-Page f.ps k (f.addr f.me) two small (omega (arith, high, top)) in
    let page = page_of f.ps (f.addr f.me) in
    (
      granted mprotect v f₁,
      ap (λ r. r >>= λ (x, y). grant mprotect y (record f { vma_tree = x }))
            (w.run ∙ ap (λ o. found o >>= λ y. ok (locked w.g w.p y, y)) at)
          ∙ grant-granted mprotect v f₁ succeeds,
      record {
        u' = w.u;
        valid =
            IsTree-call lo hi (lock_let (area v)) (set_flags v (new_flags (sp.heap.vm_flags v)) sp)
              w.u (flags-IsTree lo hi v (new_flags (sp.heap.vm_flags v)) sp w.u (w.valid v));
        nodes = w.nodes;
        page = page_of f.ps (f.addr f.me);
        access =
            access (f.vma_tree.heap.vm_flags v) page f.ps f (granted mprotect v f₁) v
              (upd_self w.g.vm_flags v (new_flags (w.g.vm_flags v)) ∙ ap new_flags same)
              (ap (λ k. record { at = page; size = f.ps; prot = new_prot k } ∷ f.protected) same);
        aligned = bounds.0;
        below = bounds.1;
        above = bounds.2;
        calls = ap (λ c. lock_let (area v) ∷ lock_let tree ∷ lock_get (area v) ∷ c) w.calls;
        vm_start = w.vm_start;
        vm_end = w.vm_end;
        addr = refl;
        me = refl;
        ps = refl;
      },
    )
