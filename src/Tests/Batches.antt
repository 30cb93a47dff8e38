-- ===== src/Tests/Batches.antt =====
-- A VBAR of three idle pages in the Windows XPU build, reclaimed in batches.
use comfy_aimdo_xpu.TwoPhase.Mapping.Reclaimed.{Reclaimed, xpu_mod1-Reclaimed}
use comfy_aimdo_xpu.Base.{
  ℕ, [], ◌∷◌, length, ◌≡◌, true, ◌^◌, ◌*◌, ◌+◌, none, false, refl, if◌then◌else◌, arith, ◌==◌,
}
use comfy_aimdo_xpu.TwoPhase.Mapping.{xpu_mod1, vbar_map_new_page, is_freed}
use comfy_aimdo_xpu.Retire.{XpuVbar, XpuPage}
use comfy_aimdo_xpu.TwoPhase.Candidates.{
  may_commit, vbar_freeze_retired_candidates, candidate_of, retired_ready, freeze_page,
  vbar_commit_candidates,
}
use comfy_aimdo_xpu.TwoPhase.Reclaim.{vbars_free_retired_except, vbars_request_reclaim}
use comfy_aimdo_xpu.TwoPhase.{XpuState}
use comfy_aimdo_xpu.TwoPhase.Reclaim.Requests.{Published, vbars_request_reclaim-Published}
use comfy_aimdo_xpu.TwoPhase.Consumers.{fault_hit, drop_pin}
use comfy_aimdo_xpu.Tests.Device.{device, device_gives}
use comfy_aimdo_xpu.Base.Int.{pos}
use comfy_aimdo_xpu.Vbar.Pages.{vbar_page_size}
use comfy_aimdo_xpu.TwoPhase.Mapping.Acquired.{Acquired, vbar_map_new_page-Acquired}
use comfy_aimdo_xpu.TwoPhase.Candidates.Committed.{Frees, vbar_commit_candidates-Frees}
use comfy_aimdo_xpu.TwoPhase.Touches.Fate.{IsUntouched, may_commit-Touches}
use comfy_aimdo_xpu.TwoPhase.Touches.{then_touch, untouched, touch_rollback}

abbrev idle_page : XpuPage
idle_page = record {
  handle = 11;
  pin_count = 0;
  serial = 1;
  retire_tokens = (4 * 2 ^ 7 + 2) ∷ [];
  eviction_generation = 7;
  external_consumer_holds = 0;
  capture_holds = 0;
  retire_unknown = false;
  mapped = 1;
  evicting = false;
}

abbrev absent_page : XpuPage
absent_page = record idle_page { handle = 0; mapped = 0; retire_tokens = [] }

abbrev idle_vbar : XpuVbar
idle_vbar = record {
  vbar = 2 ^ 40;
  nr_pages = 3;
  watermark = 3;
  watermark_limit = 0;
  device = 0;
  resident_count = 2;
  pageout_size = 0;
  pageout_callback = none;
  identity = 5;
  copy_holds = 0;
  closing = false;
  residency_map = λ n. if n == 2 then absent_page else idle_page;
}

abbrev idle_state : XpuState ℕ
idle_state = record {
  total_vram_usage = 2 * vbar_page_size;
  vbars_dirty = false;
  order = 1 ∷ [];
  vbars = λ v. idle_vbar;
  world = 2;
}

-- Queue 2 has reached the generation that the idle pages wait for.
abbrev queues : ℕ → ℕ
queues n = 8

-- The scan finds both pages, from the top, and the commit frees them.
found_both : length (vbar_freeze_retired_candidates true 2 queues 2 none 64 idle_state).0 ≡ 2
unfolding vbar_freeze_retired_candidates
found_both = refl

frees_both :
    (vbars_free_retired_except device true
      (λ i. i == 0)
      queues
      2
      (pos (3 * vbar_page_size))
      none
      idle_state).0
    ≡ 1
unfolding vbars_free_retired_except
frees_both = refl

-- A fault in between pins a page, and its candidate is refused.
hit_refused :
    may_commit idle_vbar
      (fault_hit (freeze_page idle_page))
      (candidate_of idle_vbar 0 (freeze_page idle_page))
    ≡ false
unfolding may_commit fault_hit freeze_page
hit_refused = refl

idle_ready : retired_ready queues 2 idle_page ≡ true
unfolding retired_ready
idle_ready = refl

idle_committed :
    may_commit idle_vbar
      (drop_pin (freeze_page idle_page))
      (candidate_of idle_vbar 0 (freeze_page idle_page))
    ≡ true
unfolding may_commit drop_pin freeze_page
idle_committed = refl

may_commit-Touches_example : IsUntouched queues 2 idle_page (drop_pin (freeze_page idle_page))
may_commit-Touches_example =
    may_commit-Touches queues 2 idle_vbar 0 idle_page (drop_pin (freeze_page idle_page)) 1
      idle_ready (omega arith) (then_touch untouched (touch_rollback (freeze_page idle_page)))
      idle_committed

xpu_mod1-Reclaimed_example :
    let (result, t) = xpu_mod1 device idle_state 1 0 true false in
    Reclaimed idle_state t 1 0 (is_freed result)
xpu_mod1-Reclaimed_example = xpu_mod1-Reclaimed device idle_state 1 0 true false

vbar_map_new_page-Acquired_example :
    let (result, t) = vbar_map_new_page device idle_state 1 2 in Acquired idle_state t 1 2 result
vbar_map_new_page-Acquired_example =
    vbar_map_new_page-Acquired device idle_state 1 2 device_gives (λ e. ground arith) (λ e. refl)

vbar_commit_candidates-Frees_example :
    let candidates = candidate_of idle_vbar 0 (freeze_page idle_page) ∷ [] in
    let (count, t) = vbar_commit_candidates device candidates idle_state in
    Frees idle_state t count 1
vbar_commit_candidates-Frees_example =
    vbar_commit_candidates-Frees device (candidate_of idle_vbar 0 (freeze_page idle_page) ∷ [])
      idle_state

vbars_request_reclaim-Published_example :
    Published (3 ∷ 9 ∷ []) 7 (vbars_request_reclaim true (pos 7) 3 (9 ∷ []))
    × (vbars_request_reclaim true (pos 7) 3 [] ≡ 7)
vbars_request_reclaim-Published_example =
    vbars_request_reclaim-Published (pos 7) 3 (9 ∷ []) (omega arith)
