-- ===== src/Tests/Device.antt =====
-- A device on which every call succeeds, and one VBAR of three pages: the first is in memory and
-- pinned, the second in memory, the third absent.
use comfy_aimdo_xpu.Base.{
  ℕ, ◌+◌, ◌-◌, ◌*◌, ◌^◌, true, false, none, some, ◌∷◌, [], if◌then◌else◌, ◌==◌, refl, arith,
}
use comfy_aimdo_xpu.Base.Int.{pos}
use comfy_aimdo_xpu.Gpu.{Gpu, GivesHandles, success}
use comfy_aimdo_xpu.Devctx.{Page, Vbar, State}
use comfy_aimdo_xpu.Vbar.Pages.{vbar_page_size}
use comfy_aimdo_xpu.Vbar.Invariant.{Inv, IsValid}

-- The outside is the number of live allocations.
abbrev pub device : Gpu ℕ
device = record {
  mem_create = λ size d w. (success, w + 1, w + 1);
  mem_map = λ a size h w. (success, w);
  mem_set_access = λ a size d w. (success, w);
  mem_unmap = λ a size w. (success, w);
  mem_release = λ h w. (success, w - 1);
  address_reserve = λ size w. (success, 2 ^ 40, w);
  address_free = λ a size w. (success, w);
  ctx_synchronize = λ w. (success, w);
  mem_get_info = λ w. (success, 2 ^ 33, 2 ^ 34, w);
  get_tick = λ w. (5000, w);
  mem_available = λ w. (some (2 ^ 23), w);
  pageout = λ c offset size w. (true, w);
  calloc = λ size w. (9, w);
}

pub device_gives : GivesHandles device
device_gives = record { nonzero = λ size d w e. omega arith }

abbrev pub pages : ℕ → Page
pages n =
    if n == 0
    then record { handle = 11; pin_count = 1; serial = 1 }
    else if n == 1
    then record { handle = 12; pin_count = 0; serial = 1 }
    else record { handle = 0; pin_count = 0; serial = 4 }

abbrev pub weights : Vbar
weights = record {
  vbar = 2 ^ 40;
  nr_pages = 3;
  watermark = 3;
  watermark_limit = 0;
  device = 0;
  resident_count = 2;
  pageout_size = 0;
  pageout_callback = none;
  residency_map = pages;
}

abbrev pub loaded : State ℕ
loaded = record {
  vram_capacity = 2 ^ 34;
  integrated_ram_headroom = 0;
  extra_vram_headroom = 0;
  malloc_async_clamp = 0;
  total_vram_usage = 2 * vbar_page_size;
  total_vram_last_check = 0;
  deficit_sync = pos 0;
  control_timestamp_last_check = 0;
  vbars_dirty = false;
  integrated_device = false;
  simple_vram_headroom = pos (2 ^ 28);
  sync_paused = false;
  order = 7 ∷ [];
  vbars = λ v. weights;
  world = 2;
}

pub loaded_fits : IsValid weights
loaded_fits = record { within = omega arith; fits = omega arith; counted = refl }

pub loaded_accounts : Inv 0 loaded
loaded_accounts = record { distinct = (refl, tt); valid = λ v i. loaded_fits; accounted = refl }
