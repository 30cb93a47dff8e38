-- ===== src/Base/Heap.antt =====
-- Storage as functions from addresses, with an update at one address.
use Prim.Native.Nat.{ℕ}
use mathlib.Core.Path.{◌≡◌}
use mathlib.Core.Logic.{◌≢◌}
use native.Mathlib.Omega.{arith}
use comfy_aimdo_xpu.Base.Tests.{◌==◌, if◌then◌else◌}

abbrev pub update {ℓ} : {A : Type ℓ} → (ℕ → A) → ℕ → A → ℕ → A
update f p v q = if p == q then v else f q

module _ {ℓ} {A : Type ℓ} where
  pub update_self : (f : ℕ → A) (p : ℕ) (v : A) → update f p v p ≡ v
  update_self f p v = ground arith

  pub update-ne : (f : ℕ → A) {p q : ℕ} (v : A) → q ≢ p → update f p v q ≡ f q
  update-ne f v h = ground arith
