-- ===== src/VmaAlloc/Chain.antt =====
-- The doubly linked lists of src/vma_alloc.c: the steps by which the code takes a struct out and
-- puts one in front. `prev` and `next` are the arrays of the links, `head` is the list's head.
use open_ooc.Base.{ℕ, ◌==◌, if◌then◌else◌, upd}

-- `if (NULL != n) n->prev = v;`
abbrev pub set_prev : ℕ → ℕ → (ℕ → ℕ) → ℕ → ℕ
set_prev n v prev = if n == 0 then prev else upd prev n v

-- A struct `x` that may stand anywhere: `if (head == x) head = x->next; else
-- x->prev->next = x->next;` and then `if (NULL != x->next) x->next->prev = x->prev;`.
abbrev pub unlink_head : ℕ → (ℕ → ℕ) → ℕ → ℕ
unlink_head x next head = if head == x then next x else head

abbrev pub unlink_next : ℕ → (ℕ → ℕ) → (ℕ → ℕ) → ℕ → ℕ → ℕ
unlink_next x prev next head = if head == x then next else upd next (prev x) (next x)

abbrev pub unlink_prev : ℕ → (ℕ → ℕ) → (ℕ → ℕ) → ℕ → ℕ → ℕ
unlink_prev x prev next head = set_prev (unlink_next x prev next head x) (prev x) prev
