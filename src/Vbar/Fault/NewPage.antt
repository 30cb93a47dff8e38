-- ===== src/Vbar/Fault/NewPage.antt =====
-- A page whose memory has just been created keeps the accounts true.
use comfy_aimdo_xpu.Base.{
  ℕ, ◌+◌, ◌≡◌, ◌≢◌, ◌<◌, arith, ◌∈◌, update, sum_over-change, ap, subst, sym,
}
use comfy_aimdo_xpu.Devctx.{State, Page, page, add64, set_page}
use comfy_aimdo_xpu.Vbar.Pages.{vbar_page_size}
use comfy_aimdo_xpu.Vbar.Invariant.{
  Inv, IsValid, count_mapped, count_mapped-same, count_mapped-update, count_mapped-le,
}
use comfy_aimdo_xpu.Vbar.Fault.{count_new_page}
use native.Mathlib.Decide.{ℕ_discrete}

-- The state after `map_page` has written `h`, and the page is counted.
unfoldable pub new_page : {W : Type 0} → State W → (v n h : ℕ) → W → State W
unfolding count_new_page
new_page s v n h w =
    let s1 = record s { total_vram_usage = add64 s.total_vram_usage vbar_page_size; world = w } in
    count_new_page (set_page s1 v n (record (page s1 v n) { handle = h })) v n

module _ {W : Type 0} (s : State W) (v n h : ℕ) (w : W) where
  abbrev with_handle : Page
  with_handle = record (page s v n) { handle = h }

  new_page-handle :
      (m : ℕ)
      → (((new_page s v n h w).vbars v).residency_map m).handle
        ≡ (update (s.vbars v).residency_map n with_handle m).handle
  unfolding new_page
  new_page-handle m = ground arith

  pub new_page-handle_self : (((new_page s v n h w).vbars v).residency_map n).handle ≡ h
  unfolding new_page
  new_page-handle_self = ground arith

  new_page-count :
      (k : ℕ)
      → n < k
      → (page s v n).handle ≡ 0
      → h ≢ 0
      → count_mapped ((new_page s v n h w).vbars v).residency_map k
        ≡ count_mapped (s.vbars v).residency_map k + 1
  new_page-count k l z nz = ground (
    arith,
    count_mapped-same (update (s.vbars v).residency_map n with_handle)
        ((new_page s v n h w).vbars v).residency_map k new_page-handle,
    count_mapped-update (s.vbars v).residency_map n with_handle k l,
  )

  new_page-fields :
      (((new_page s v n h w).vbars v).nr_pages ≡ (s.vbars v).nr_pages)
      × (((new_page s v n h w).vbars v).watermark ≡ (s.vbars v).watermark)
      × (((new_page s v n h w).vbars v).resident_count ≡ add64 (s.vbars v).resident_count 1)
  unfolding new_page
  new_page-fields = (ground arith, ground arith, ground arith)

  new_page-others : (u : ℕ) → u ≢ v → (new_page s v n h w).vbars u ≡ s.vbars u
  unfolding new_page
  new_page-others u ne = ground arith

  new_page-IsValid :
      IsValid (s.vbars v)
      → n < (s.vbars v).nr_pages
      → (page s v n).handle ≡ 0
      → h ≢ 0
      → IsValid ((new_page s v n h w).vbars v)
        × (((new_page s v n h w).vbars v).resident_count ≡ (s.vbars v).resident_count + 1)
  new_page-IsValid g r z nz =
      let nr = (s.vbars v).nr_pages in
      let count = new_page-count nr r z nz in
      let small = count_mapped-le ((new_page s v n h w).vbars v).residency_map nr in
      ground (arith, new_page-fields, count, small)

  new_page-IsValid_at :
      (u : ℕ)
      → IsValid (s.vbars u)
      → IsValid ((new_page s v n h w).vbars v)
      → IsValid ((new_page s v n h w).vbars u)
  new_page-IsValid_at u g g' = elim (ℕ_discrete u v) [
    | yes e ↦ subst (λ x. IsValid ((new_page s v n h w).vbars x)) (sym e) g'
    | no ne ↦ rw (new_page-others u ne) g
  ]

-- The accounts stay true.
pub new_page-Inv :
    {W : Type 0} (other : ℕ) (s : State W) (v n h : ℕ) (w : W)
    → v ∈ s.order
    → n < (s.vbars v).nr_pages
    → (page s v n).handle ≡ 0
    → h ≢ 0
    → Inv other s
    → Inv other (new_page s v n h w)
unfolding new_page
new_page-Inv other s v n h w i r z nz inv =
    let t = new_page s v n h w in
    let ok = new_page-IsValid s v n h w (inv.valid v i) r z nz in
    let sums =
      sum_over-change (λ u. (s.vbars u).resident_count) (λ u. (t.vbars u).resident_count) v s.order
        (λ u ne. ap (λ mv. mv.resident_count) (new_page-others s v n h w u ne)) inv.distinct i in
    record {
      distinct = inv.distinct;
      valid = λ u j. new_page-IsValid_at s v n h w u (inv.valid u j) ok.0;
      accounted = omega (arith, sums, ok.1, inv.accounted);
    }
