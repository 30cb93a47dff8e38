-- ===== src/Vbar/Evict/Steps.antt =====
-- What taking pages back may do to the state, as a relation: every reclaim of src/model-vbar.c is a
-- sequence of these steps, and each of them spares a pinned page.
use comfy_aimdo_xpu.Base.{ℕ, ◌<◌, ◌≡◌, ◌≢◌, ◌∈◌}
use comfy_aimdo_xpu.Base.Int.{ℤ}
use comfy_aimdo_xpu.Devctx.{State, page}
use comfy_aimdo_xpu.Vbar.Evict.{set_world, release_page, lower_watermark, one_time_dirty}

-- The driver, the budget's poll and the dirty mark touch no VBAR. A page is released only unpinned
-- and mapped, and a watermark falls only above its limit.
pub data Step {W : Type 0} (s : State W) : State W → Type 0 where
  outside : (w : W) → Step s (set_world s w)
  dirtied : Step s (one_time_dirty s)
  polled :
      (checked stamp : ℕ) (deficit : ℤ) (w : W)
      → Step s (record s {
        total_vram_last_check = checked;
        control_timestamp_last_check = stamp;
        deficit_sync = deficit;
        world = w;
      })
  released :
      (v n : ℕ)
      → v ∈ s.order
      → n < (s.vbars v).nr_pages
      → (page s v n).handle ≢ 0
      → (page s v n).pin_count ≡ 0
      → Step s (release_page s v n)
  lowered :
      (v : ℕ)
      → v ∈ s.order
      → (s.vbars v).watermark_limit < (s.vbars v).watermark
      → Step s (lower_watermark s v)

pub data Evicts {W : Type 0} (s : State W) : State W → Type 0 where
  here : Evicts s s
  next : {t u : State W} → Evicts s t → Step t u → Evicts s u

pub Evicts-trans : {W : Type 0} {s t u : State W} → Evicts s t → Evicts t u → Evicts s u
Evicts-trans p here = p
Evicts-trans p (next q st) = next (Evicts-trans p q) st

-- A fact that no step changes holds over any reclaim.
pub Evicts-keeps {ℓ} :
    {W : Type 0} (P : State W → Type ℓ)
    → ((t u : State W) → Step t u → P t → P u)
    → {s t : State W} → P s
    → Evicts s t
    → P t
Evicts-keeps P keep h here = h
Evicts-keeps P keep h (next p st) = keep _ _ st (Evicts-keeps P keep h p)
