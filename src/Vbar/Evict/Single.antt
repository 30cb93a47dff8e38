-- ===== src/Vbar/Evict/Single.antt =====
-- `mod1` in terms of the steps: with no unpinning it releases at most the one page, and only
-- unpinned.
use comfy_aimdo_xpu.Base.{
  ℕ, ◌*◌, ◌-◌, ◌%◌, ◌^◌, min, ◌<◌, ◌≡◌, ◌≢◌, refl, true, false, Bool, arith, ◌⊎◌, inl, inr,
  Bool-cases, Option-cases, ◌∈◌, ◌≤◌,
}
use comfy_aimdo_xpu.Gpu.{Gpu, check_cu}
use comfy_aimdo_xpu.Devctx.{Vbar, State, page, sub64}
use comfy_aimdo_xpu.Vbar.Evict.{
  freed, mod1, write_back, unmap_page, release_page, set_world, can_free, page_address,
  lower_watermark, sync_if, synchronize,
}
use comfy_aimdo_xpu.Vbar.Pages.{vbar_page_size}
use comfy_aimdo_xpu.Vbar.Evict.Steps.{outside, released, lowered, Evicts, here, next, Evicts-trans}
use comfy_aimdo_xpu.Vbar.Evict.Spares.{Evicts-order, Evicts-shape}

module _ {W : Type 0} (gpu : Gpu W) where
  -- A writeback touches nothing but the outside.
  pub write_back-world :
      (s : State W) (mv : Vbar) (n : ℕ) → (w : W) × ((write_back gpu s mv n).1 ≡ set_world s w)
  unfolding write_back
  write_back-world s mv n = elim (Option-cases mv.pageout_callback) [
    | inl e ↦ (s.world, rw e)
    | inr (c, e) ↦
        let (synced, w1) = gpu.ctx_synchronize s.world in
        let offset = (n * vbar_page_size) % 2 ^ 64 in
        let size = min vbar_page_size (sub64 mv.pageout_size offset) in
        elim (Bool-cases (check_cu synced)) [
          | inl ok ↦ ((gpu.pageout c offset size w1).1, rw (e, ok))
          | inr failed ↦ (w1, rw (e, failed))
        ]
  ]

  -- What `mod1` does to the page's VBAR when it does not unpin.
  pub mod1_cases :
      (s : State W) (v n : ℕ) (b : Bool)
      → ((w : W) × ((mod1 gpu s v n b false).1 ≡ set_world s w)
          × ((mod1 gpu s v n b false).0 ≢ freed))
        ⊎ ((w : W) × ((mod1 gpu s v n b false).1 ≡ release_page (set_world s w) v n)
            × ((mod1 gpu s v n b false).0 ≡ freed)
            × ((page s v n).handle ≢ 0)
            × ((page s v n).pin_count ≡ 0)
            × (b ≡ true))
  unfolding mod1 unmap_page
  mod1_cases s v n b =
      let (w, e) = write_back-world s (s.vbars v) n in
      let mv = s.vbars v in
      let w1 = (gpu.mem_unmap (page_address mv n) vbar_page_size w).1 in
      let w2 = (gpu.mem_release (mv.residency_map n).handle w1).1 in
      elim (Bool-cases (can_free (page s v n) b false)) [
        | inr x ↦ inl (s.world, rw x, rw x (λ h. cc))
        | inl x ↦ elim (Bool-cases (write_back gpu s (s.vbars v) n).0) [
          | inr y ↦ inl (w, rw (x, y) e, rw (x, y) (λ h. cc))
          | inl y ↦ inr (w2, rw (x, y, e), rw (x, y), ground arith, ground arith, ground arith)
        ]
      ]

  pub sync_if-Evicts : (b : Bool) (s : State W) → Evicts s (sync_if gpu b s)
  unfolding sync_if
  sync_if-Evicts true s = next here (outside _)
  sync_if-Evicts false s = here

  pub sync_if-vbars : (b : Bool) (s : State W) → (sync_if gpu b s).vbars ≡ s.vbars
  unfolding sync_if
  sync_if-vbars true s = refl
  sync_if-vbars false s = refl

  pub sync_if-usage :
      (b : Bool) (s : State W) → (sync_if gpu b s).total_vram_usage ≡ s.total_vram_usage
  unfolding sync_if synchronize
  sync_if-usage true s = refl
  sync_if-usage false s = refl

  pub sync_if-order : (b : Bool) (s : State W) → (sync_if gpu b s).order ≡ s.order
  unfolding sync_if
  sync_if-order true s = refl
  sync_if-order false s = refl

  pub mod1-Evicts :
      (s : State W) (v n : ℕ) (b : Bool)
      → v ∈ s.order
      → n < (s.vbars v).nr_pages
      → Evicts s (mod1 gpu s v n b false).1
  mod1-Evicts s v n b i h = elim (mod1_cases s v n b) [
    | inl (w, e, _) ↦ rw e (next here (outside w))
    | inr (w, e, _, m, p, _) ↦ rw e (next (next here (outside w)) (released v n i h m p))
  ]

  pub mod1-watermark :
      (s : State W) (v n : ℕ) (b : Bool) (i : ℕ)
      → ((mod1 gpu s v n b false).1.vbars i).watermark ≡ (s.vbars i).watermark
  unfolding release_page
  mod1-watermark s v n b i = elim (mod1_cases s v n b) [
    | inl (w, e, _) ↦ rw e
    | inr (w, e, _, _, _, _) ↦ rw e (ground arith)
  ]

  pub lowered-Evicts :
      (s : State W) (v n : ℕ)
      → v ∈ s.order
      → (s.vbars v).watermark_limit < (s.vbars v).watermark
      → n < (s.vbars v).nr_pages
      → Evicts s (lower_watermark (mod1 gpu s v n true false).1 v)
  lowered-Evicts s v n i l h =
      let p = mod1-Evicts s v n true i h in
      next p (
        lowered v (rw (Evicts-order p) i)
          (rw (mod1-watermark s v n true v, (Evicts-shape p v).watermark_limit) l))

  -- One round of a reclaim: perhaps a synchronization, then the page under the watermark, and, if
  -- its writeback did not fail, the watermark.
  pub round-Evicts :
      (s : State W) (b : Bool) (v : ℕ)
      → v ∈ s.order
      → (s.vbars v).watermark_limit < (s.vbars v).watermark
      → (s.vbars v).watermark ≤ (s.vbars v).nr_pages
      → let s2 = (mod1 gpu (sync_if gpu b s) v ((s.vbars v).watermark - 1) true false).1 in
        Evicts s s2 × Evicts s (lower_watermark s2 v)
  round-Evicts s b v i l h =
      let s1 = sync_if gpu b s in
      let n = (s.vbars v).watermark - 1 in
      let p = sync_if-Evicts b s in
      let i1 : v ∈ s1.order = rw (sync_if-order b s) i in
      let l1 : (s1.vbars v).watermark_limit < (s1.vbars v).watermark = rw (sync_if-vbars b s) l in
      let r1 : n < (s1.vbars v).nr_pages = rw (sync_if-vbars b s) (omega arith) in
      (
        Evicts-trans p (mod1-Evicts s1 v n true i1 r1),
        Evicts-trans p (lowered-Evicts s1 v n i1 l1 r1),
      )
