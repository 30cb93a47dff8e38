-- ===== src/TwoPhase/Copies/Held.antt =====
-- What a copy that has been let in by src/model-vbar.c keeps from being taken.
use comfy_aimdo_xpu.Base.{
  ℕ, ◌≡◌, ◌≢◌, Bool, ◌<◌, ◌^◌, true, List, [], ◌∷◌, ◌∈◌, false, ◌≤◌, ◌*◌, ◌+◌,
}
use comfy_aimdo_xpu.TwoPhase.{XpuState}
use comfy_aimdo_xpu.Retire.{XpuVbar, XpuPage}
use comfy_aimdo_xpu.TwoPhase.Copies.{set_copy_holds, Acquisition}
use comfy_aimdo_xpu.TwoPhase.Candidates.{may_commit, Candidate}
use comfy_aimdo_xpu.TwoPhase.Mapping.{xpu_can_free}
use comfy_aimdo_xpu.Vbar.Pages.{vbar_page_size}

-- The count of holds is 32-bit, the size in bytes 64-bit.
pub record IsSmall (mv : XpuVbar) : Type 0 where
  pub holds : mv.copy_holds < 2 ^ 32
  pub bytes : mv.nr_pages * vbar_page_size < 2 ^ 64

-- An address is in the range of the VBAR and among the `size` bytes at `pointer`.
pub record Overlaps (mv : XpuVbar) (pointer size : ℕ) : Type 0 where
  pub byte : ℕ
  pub in_vbar : (mv.vbar ≤ byte) × (byte < mv.vbar + mv.nr_pages * vbar_page_size)
  pub in_copy : (pointer ≤ byte) × (byte < pointer + size)

module _ {W : Type 0} where
  -- From `s` to `t` nothing but holds has changed, and those that stood still stand.
  pub record HoldsOnly (s t : XpuState W) : Type 0 where
    pub order : t.order ≡ s.order
    pub only : (v : ℕ) → t.vbars v ≡ set_copy_holds (s.vbars v) (t.vbars v).copy_holds
    pub small : (v : ℕ) → (s.vbars v).copy_holds < 2 ^ 32 → (t.vbars v).copy_holds < 2 ^ 32
    pub stands : (v : ℕ) → (s.vbars v).copy_holds ≢ 0 → (t.vbars v).copy_holds ≢ 0

-- A VBAR of which no page may be freed or committed.
pub record Barred (mv : XpuVbar) : Type 0 where
  pub freeing :
      (rp : XpuPage) (do_free do_unpin : Bool) → xpu_can_free mv rp do_free do_unpin ≡ false
  pub committing : (rp : XpuPage) (c : Candidate) → may_commit mv rp c ≡ false

-- Context by context: only holds have changed, and every VBAR that is `Touched` is barred.
pub data AllHeld {W : Type 0} (Touched : XpuVbar → Type 0)
    : List (XpuState W) → List (XpuState W) → Type 0 where
  no_more : AllHeld Touched [] []
  held_in :
      {s t : XpuState W} {ss ts : List (XpuState W)}
      → HoldsOnly s t
      → ((v : ℕ) → v ∈ s.order → Touched (s.vbars v) → Barred (t.vbars v))
      → AllHeld Touched ss ts
      → AllHeld Touched (s ∷ ss) (t ∷ ts)

-- Every VBAR is small in each context.
pub data AllSmall {W : Type 0} : List (XpuState W) → Type 0 where
  none_large : AllSmall []
  and_small :
      {s : XpuState W} {ss : List (XpuState W)}
      → ((v : ℕ) → IsSmall (s.vbars v))
      → AllSmall ss
      → AllSmall (s ∷ ss)

module _ {W : Type 0} (touches : XpuVbar → Bool)
    (stable : (mv : XpuVbar) (holds : ℕ) → touches (set_copy_holds mv holds) ≡ touches mv)
    (capacity : ℕ) where
  -- An acquisition from `a` to `b`.
  record Grows (a b : Acquisition (XpuState W)) : Type 0 where
    holds : HoldsOnly a.held b.held
    going : b.going ≡ true → a.going ≡ true
