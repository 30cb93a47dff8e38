-- ===== src/Vbar/Surplus/Served.antt =====
-- `vbars_free_for_vbar` of src/model-vbar.c: what it has freed, and what that pays for.
use comfy_aimdo_xpu.Vbar.Surplus.Paid.{Paid, absent}
use comfy_aimdo_xpu.Devctx.{State}
use comfy_aimdo_xpu.Gpu.{Gpu}
use comfy_aimdo_xpu.Vbar.Surplus.{Search}
use comfy_aimdo_xpu.Base.{ℕ, ◌≤◌, ◌≡◌, ◌∈◌, ◌+◌, ◌*◌, min, ◌⊎◌}
use comfy_aimdo_xpu.Vbar.Evict.Steps.{Evicts}
use comfy_aimdo_xpu.Base.Int.{ℤ, pos_part, neg_part}
use comfy_aimdo_xpu.Vbar.Evict.Freed.{Freed}
use comfy_aimdo_xpu.Vbar.Pages.{vbar_page_size}

-- Since `s0`, the search for the VBAR `mv` has freed `n` pages, and has paid with them.
pub record Searched {W : Type 0} (s0 : State W) (mv : ℕ) (surplus0 : ℤ) (k : Search W)
    : Type 0 where
  pub evicts : Evicts s0 k.state
  pub n : ℕ
  pub taken : Freed s0 k.state n
  pub paid : Paid (s0.vbars mv).residency_map (k.state.vbars mv) surplus0 n k.cursor k.surplus

-- From `s` to `t` as many pages as `taken` have come off the usage, and with the surplus they pay for
-- the absent pages of `mv` below `cursor`, leaving `left`: `passed` of them, at least those absent in
-- `s` and at most those absent in `t`. Either nothing is owed and the cursor has come to the target or
-- to the watermark, or no VBAR has anything above its limit.
pub record Served {W : Type 0} (s t : State W) (mv target : ℕ) (surplus : ℤ) : Type 0 where
  pub pages : ℕ
  pub cursor : ℕ
  pub passed : ℕ
  pub left : ℤ
  pub taken : Freed s t pages
  pub low : absent (s.vbars mv).residency_map cursor ≤ passed
  pub high : passed ≤ absent (t.vbars mv).residency_map cursor
  pub balance :
      pos_part left + passed * vbar_page_size + neg_part surplus
      ≡ neg_part left + pages * vbar_page_size + pos_part surplus
  pub ended :
      ((min target (t.vbars mv).watermark ≤ cursor) × (neg_part left ≡ 0))
      ⊎ ((v : ℕ) → v ∈ s.order → (t.vbars v).watermark ≤ (t.vbars v).watermark_limit)
