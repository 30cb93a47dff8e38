-- ===== src/TwoPhase.antt =====
-- Reclaim in the Windows XPU build of src/model-vbar.c, where no call may wait for a queue: pages are
-- frozen as candidates, and committed after their identity has been checked again.
pub mod Mapping
pub mod Candidates
pub mod Consumers
pub mod Touches
pub mod Reclaim
pub mod Copies
use comfy_aimdo_xpu.Base.{ℕ, Bool, List, update}
use comfy_aimdo_xpu.Retire.{XpuPage, XpuVbar}

-- `AimdoContext` as this build's reclaim reads it
pub record XpuState (W : Type 0) : Type 0 where
  pub total_vram_usage : ℕ
  pub vbars_dirty : Bool
  -- from `lowest_priority.higher` up to, and without, `&highest_priority`
  pub order : List ℕ
  pub vbars : ℕ → XpuVbar
  pub world : W

module _ {W : Type 0} where
  abbrev pub set_vbar : XpuState W → ℕ → XpuVbar → XpuState W
  set_vbar s v mv = record s { vbars = update s.vbars v mv }

  abbrev pub page : XpuState W → ℕ → ℕ → XpuPage
  page s v n = (s.vbars v).residency_map n

  abbrev pub set_page : XpuState W → ℕ → ℕ → XpuPage → XpuState W
  set_page s v n rp =
      set_vbar s v (record (s.vbars v) { residency_map = update (s.vbars v).residency_map n rp })

  abbrev pub set_world : XpuState W → W → XpuState W
  set_world s w = record s { world = w }
