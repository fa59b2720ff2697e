-- ===== src/Sched/Twice.antt =====
-- Two faults in one area.
use open_ooc.Base.{ℕ, ◌+◌, ◌%◌, ◌≤◌, ◌<◌, ◌≡◌, ◌∷◌, upd, ◌/◌}
use open_ooc.SpTree.Shape.{size}
use open_ooc.Sched.Handler.{Faulting, prot_read, prot_read_write}

-- The outcome: the first page is readable and the second one writable, whichever they are, and the
-- area has the bits 0x1 and 0x10, with its other flags as before.
pub record Written (v a₁ a₂ : ℕ) (f f₂ : Faulting) : Type 0 where
  pub page₁ : ℕ
  pub page₂ : ℕ
  pub protected :
      f₂.protected
      ≡ record { at = page₂; size = f.ps; prot = prot_read_write }
        ∷ record { at = page₁; size = f.ps; prot = prot_read }
        ∷ f.protected
  pub first : (page₁ ≤ a₁) × (a₁ < page₁ + f.ps)
  pub second : (page₂ ≤ a₂) × (a₂ < page₂ + f.ps)
  pub read : f₂.vma_tree.heap.vm_flags v % 2 ≡ 1
  pub dirty : f₂.vma_tree.heap.vm_flags v / 16 % 2 ≡ 1
  pub clean_before :
      f.vma_tree.heap.vm_flags v / 16 % 2 ≡ 0
      → f₂.vma_tree.heap.vm_flags v ≡ f.vma_tree.heap.vm_flags v + 17
  pub dirty_before :
      f.vma_tree.heap.vm_flags v / 16 % 2 ≡ 1
      → f₂.vma_tree.heap.vm_flags v ≡ f.vma_tree.heap.vm_flags v + 1

-- The trampoline with the address at which the fault was.
abbrev noted : ℕ → Faulting → Faulting
noted a f = record f { addr = upd f.addr f.me a }
