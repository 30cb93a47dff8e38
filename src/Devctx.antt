-- ===== src/Devctx.antt =====
-- `AimdoContext` of src/control.h and the VBAR records of src/model-vbar.c, in the Linux CUDA build.
-- One state holds the device context, the globals that its operations read, the VBARs by address,
-- and the outside world that the driver calls act on.
pub mod Budget
use comfy_aimdo_xpu.Base.{ℕ, ◌+◌, ◌-◌, ◌%◌, ◌^◌, Bool, Option, List, update}
use comfy_aimdo_xpu.Base.Int.{ℤ}

-- `size_t` and `uint64_t` arithmetic, and `uint32_t` counters
abbrev pub add64 : ℕ → ℕ → ℕ
add64 a b = (a + b) % 2 ^ 64

abbrev pub sub64 : ℕ → ℕ → ℕ
sub64 a b = (a + 2 ^ 64 - b) % 2 ^ 64

abbrev pub incr32 : ℕ → ℕ
incr32 a = (a + 1) % 2 ^ 32

-- `ResidentPage`
pub record Page : Type 0 where
  pub handle : ℕ
  pub pin_count : ℕ
  pub serial : ℕ

-- `ModelVBAR`. The links `higher` and `lower` are the order of `State.order`; `residency_map` is
-- an array of `nr_pages` entries.
pub record Vbar : Type 0 where
  pub vbar : ℕ
  pub nr_pages : ℕ
  pub watermark : ℕ
  pub watermark_limit : ℕ
  pub device : ℕ
  pub resident_count : ℕ
  pub pageout_size : ℕ
  pub pageout_callback : Option ℕ
  pub residency_map : ℕ → Page

pub record State (W : Type 0) : Type 0 where
  pub vram_capacity : ℕ
  pub integrated_ram_headroom : ℕ
  pub extra_vram_headroom : ℕ
  pub malloc_async_clamp : ℕ
  pub total_vram_usage : ℕ
  pub total_vram_last_check : ℕ
  pub deficit_sync : ℤ
  pub control_timestamp_last_check : ℕ
  pub vbars_dirty : Bool
  pub integrated_device : Bool
  -- the global `simple_vram_headroom`
  pub simple_vram_headroom : ℤ
  -- `malloc_graph_sync_paused()`
  pub sync_paused : Bool
  -- the list from `lowest_priority.higher` up to, and without, `&highest_priority`
  pub order : List ℕ
  pub vbars : ℕ → Vbar
  pub world : W

module _ {W : Type 0} where
  abbrev pub set_vbar : State W → ℕ → Vbar → State W
  set_vbar s v mv = record s { vbars = update s.vbars v mv }

  abbrev pub page : State W → ℕ → ℕ → Page
  page s v n = (s.vbars v).residency_map n

  abbrev pub set_page : State W → ℕ → ℕ → Page → State W
  set_page s v n rp =
      set_vbar s v (record (s.vbars v) { residency_map = update (s.vbars v).residency_map n rp })
