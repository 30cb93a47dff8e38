-- ===== src/Tests/Leases.antt =====
-- Tokens and leases on pages of the Windows XPU build.
use comfy_aimdo_xpu.Base.{
  ℕ, ◌+◌, ◌*◌, ◌^◌, ◌≡◌, ◌⊎◌, true, false, refl, arith, ◌∷◌, [], if◌then◌else◌, ◌==◌, ◌-◌, none,
}
use comfy_aimdo_xpu.Retire.Holds.{IsCounted, Leased, vbar_consumer_acquire-Leased}
use comfy_aimdo_xpu.Retire.{
  XpuVbar, vbar_retire_complete, XpuPage, vbar_consumer_acquire, token_complete, vbar_retire_record,
}
use comfy_aimdo_xpu.Retire.Tokens.{vbar_retire_complete-vbar_retire_record}

-- Queue 1 has reached generation 3, queue 2 generation 8, both of incarnation 0.
abbrev reached : ℕ → ℕ
reached n = if n == 0 then 3 else 8

-- A page that queue 2 reads, up to generation 4.
abbrev read_page : XpuPage
read_page = record {
  handle = 11;
  pin_count = 1;
  serial = 1;
  retire_tokens = (4 * 2 ^ 7 + 2) ∷ [];
  eviction_generation = 0;
  external_consumer_holds = 0;
  capture_holds = 0;
  retire_unknown = false;
  mapped = 1;
  evicting = true;
}

abbrev read_vbar : XpuVbar
read_vbar = record {
  vbar = 2 ^ 40;
  nr_pages = 2;
  watermark = 2;
  watermark_limit = 0;
  device = 0;
  resident_count = 2;
  pageout_size = 0;
  pageout_callback = none;
  identity = 1;
  copy_holds = 0;
  closing = false;
  residency_map = λ n. read_page;
}

-- The same queue reads the page again, up to generation 6.
recorded_complete :
    vbar_retire_complete (vbar_retire_record read_page (6 * 2 ^ 7 + 2)) reached 2 ≡ true
unfolding vbar_retire_complete vbar_retire_record
recorded_complete = refl

vbar_retire_complete-vbar_retire_record_example :
    (vbar_retire_complete read_page reached 2 ≡ true)
    × (token_complete reached 2 (6 * 2 ^ 7 + 2) ≡ true)
vbar_retire_complete-vbar_retire_record_example =
    vbar_retire_complete-vbar_retire_record reached 2 read_page (6 * 2 ^ 7 + 2) ((λ x. refl), tt)
      recorded_complete

read-IsCounted : (m : ℕ) → IsCounted (read_vbar.residency_map m)
unfolding IsCounted
read-IsCounted m = (omega arith, omega arith)

lease_granted : (vbar_consumer_acquire read_vbar 5 (2 ^ 25) 1).0 ≡ true
unfolding vbar_consumer_acquire
lease_granted = refl

vbar_consumer_acquire-Leased_example :
    let (ok, nv) = vbar_consumer_acquire read_vbar 5 (2 ^ 25) 1 in
    ((ok ≡ false) × (nv ≡ read_vbar)) ⊎ ((ok ≡ true) × Leased read_vbar nv 5 (2 ^ 25) 1)
vbar_consumer_acquire-Leased_example =
    vbar_consumer_acquire-Leased read_vbar 5 (2 ^ 25) 1 read-IsCounted (omega arith)

-- Bytes that end in the last page of the address space: the rounded end wraps to page 0, and the
-- call reports a lease that it has taken on no page.
wrapped_lease : vbar_consumer_acquire read_vbar (2 ^ 64 - 9) 4 1 ≡ (true, read_vbar)
unfolding vbar_consumer_acquire
wrapped_lease = refl
