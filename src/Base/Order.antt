-- ===== src/Base/Order.antt =====
-- Membership in a list of numbers by test, lists without repetition, and sums along a list.
use Prim.Native.Nat.{ℕ, ◌+◌, ◌≤◌}
use mathlib.Core.Path.{◌≡◌, refl}
use mathlib.Core.Logic.{◌≢◌}
use mathlib.Core.Bool.{Bool, true, false, ◌||◌}
use mathlib.Core.List.{List, [], ◌∷◌}
use native.Mathlib.Omega.{arith}
use comfy_aimdo_xpu.Base.Tests.{◌==◌}

abbrev pub has : ℕ → List ℕ → Bool
has a [] = false
has a (p ∷ ps) = (p == a) || has a ps

infix 40 ◌∈◌ ◌∉◌
abbrev pub ◌∈◌ : ℕ → List ℕ → Type 0
a ∈ ps = has a ps ≡ true

abbrev pub ◌∉◌ : ℕ → List ℕ → Type 0
a ∉ ps = has a ps ≡ false

abbrev pub Distinct : List ℕ → Type 0
Distinct [] = Unit {0}
Distinct (p ∷ ps) = (p ∉ ps) × Distinct ps

abbrev pub sum_over : (ℕ → ℕ) → List ℕ → ℕ
sum_over f [] = 0
sum_over f (p ∷ ps) = f p + sum_over f ps

-- A change at one place that the list names once changes the sum by as much.
pub sum_over-same :
    (f g : ℕ → ℕ) (a : ℕ) (ps : List ℕ)
    → ((q : ℕ) → q ≢ a → g q ≡ f q)
    → a ∉ ps
    → sum_over g ps ≡ sum_over f ps
sum_over-same f g a [] h out = refl
sum_over-same f g a (p ∷ ps) h out = ground (arith, h p, sum_over-same f g a ps h)

pub sum_over-change :
    (f g : ℕ → ℕ) (a : ℕ) (ps : List ℕ)
    → ((q : ℕ) → q ≢ a → g q ≡ f q)
    → Distinct ps
    → a ∈ ps
    → sum_over g ps + f a ≡ sum_over f ps + g a
sum_over-change f g a [] h d i = ground arith
sum_over-change f g a (p ∷ ps) h d i =
    ground (arith, h p, sum_over-same f g a ps h, sum_over-change f g a ps h d.1)

pub sum_over-ge : (f : ℕ → ℕ) (a : ℕ) (ps : List ℕ) → a ∈ ps → f a ≤ sum_over f ps
sum_over-ge f a [] i = ground arith
sum_over-ge f a (p ∷ ps) i = ground (arith, sum_over-ge f a ps)

pub sum_over-pointwise :
    (f g : ℕ → ℕ) (ps : List ℕ) → ((q : ℕ) → g q ≡ f q) → sum_over g ps ≡ sum_over f ps
sum_over-pointwise f g [] h = refl
sum_over-pointwise f g (p ∷ ps) h = ground (arith, h p, sum_over-pointwise f g ps h)
