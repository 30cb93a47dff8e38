-- ===== src/Tests/Counting.antt =====
-- A device that keeps a ledger, and a state on it.
-- The device hands out the handles 1, 2, … in turn, counts those live and the bytes mapped, and
-- never gives access.
use comfy_aimdo_xpu.Tests.Device.{weights}
use comfy_aimdo_xpu.Base.{
  ℕ, ◌+◌, if◌then◌else◌, ◌==◌, ◌^◌, update, arith, true, false, ◌-◌, refl, some, [],
}
use comfy_aimdo_xpu.Gpu.{Ledger, Gpu, success}
use comfy_aimdo_xpu.Devctx.{State}
use comfy_aimdo_xpu.Vbar.Pages.{vbar_page_size}
use comfy_aimdo_xpu.Base.Int.{pos}

abbrev pub Outside : Type 0
Outside = ℕ × (ℕ → ℕ) × ℕ

abbrev pub release_one : ℕ → Outside → Outside
release_one h w = (w.0, update w.1 h (w.1 h - 1), w.2)

abbrev pub create_one : Outside → Outside
create_one w = (w.0 + 1, update w.1 (w.0 + 1) (w.1 (w.0 + 1) + 1), w.2)

abbrev pub no_access : Gpu Outside
no_access = record {
  mem_create = λ size d w. (success, w.0 + 1, create_one w);
  mem_map = λ a size h w. (success, (w.0, w.1, w.2 + size));
  mem_set_access = λ a size d w. (1, w);
  mem_unmap = λ a size w. (success, (w.0, w.1, w.2 - size));
  mem_release = λ h w. (success, release_one h w);
  address_reserve = λ size w. (success, 2 ^ 40, w);
  address_free = λ a size w. (success, w);
  ctx_synchronize = λ w. (success, w);
  mem_get_info = λ w. (success, 2 ^ 33, 2 ^ 34, w);
  get_tick = λ w. (5000, w);
  mem_available = λ w. (some (2 ^ 23), w);
  pageout = λ c offset size w. (true, w);
  calloc = λ size w. (9, w);
}

pub no_access_ledger : Ledger no_access
no_access_ledger = record {
  live = λ w x. w.1 x;
  mapped = λ w. w.2;
  created = λ size d w. (λ x. ground arith, refl);
  maps = λ a size h w. (refl, λ x. refl);
  opens = λ a size d w. (refl, λ x. refl);
  unmaps = λ a size w. (refl, λ x. refl);
  releases = λ h w. (λ x. ground arith, refl);
  unreserves = λ a size w. (refl, λ x. refl);
}

-- Handle 1 is live, with 32 MiB.
abbrev pub one_live : Outside
one_live = (1, λ x. if x == 1 then 1 else 0, 2 ^ 25)

abbrev pub one_page : State Outside
one_page = record {
  vram_capacity = 2 ^ 34;
  integrated_ram_headroom = 0;
  extra_vram_headroom = 0;
  malloc_async_clamp = 0;
  total_vram_usage = vbar_page_size;
  total_vram_last_check = 0;
  deficit_sync = pos 0;
  control_timestamp_last_check = 0;
  vbars_dirty = false;
  integrated_device = false;
  simple_vram_headroom = pos (2 ^ 28);
  sync_paused = false;
  order = [];
  vbars = λ v. weights;
  world = one_live;
}
