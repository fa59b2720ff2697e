-- ===== src/Mm/Tests.antt =====
-- The kernel on a product of two by two numbers.
use open_ooc.Base.{ℕ, ◌+◌, ◌*◌, ◌≤◌, ◌<◌, ◌≡◌, ◌⊎◌, refl}
use open_ooc.Mm.{Args, mm}
use open_ooc.Mm.Row.{dot, mm-dot}

abbrev add : ℕ → ℕ → ℕ
add x y = x + y

abbrev mul : ℕ → ℕ → ℕ
mul x y = x * y

abbrev args : Args ℕ
args = record { n = 2; p = 2; a = λ x. x + 1; b = λ x. x + 5 }

abbrev nothing : ℕ → ℕ
nothing x = 0

mm-dot_example :
    ((t : ℕ) → t < 2 → mm add mul args 1 nothing (2 + t) ≡ dot add mul args 1 t 1)
    × ((y : ℕ) → (y < 2) ⊎ (4 ≤ y) → mm add mul args 1 nothing y ≡ 0)
mm-dot_example = mm-dot add mul args 1 nothing

mm_last : mm add mul args 1 nothing 3 ≡ 50
unfolding mm
mm_last = refl
