-- ===== src/Vbar/Owner/RoundTrip.antt =====
-- `vbar_fault` and then `vbar_unpin_stream` on the same bytes.
use comfy_aimdo_xpu.Base.{ℕ, ◌+◌, ◌≡◌, ◌<◌, ◌^◌, arith, ◌∈◌, ◌-◌, ◌/◌, inr, min, inl, refl}
use comfy_aimdo_xpu.Gpu.{Gpu, GivesHandles}
use comfy_aimdo_xpu.Devctx.{State, page, add64}
use comfy_aimdo_xpu.Vbar.Invariant.{Inv}
use comfy_aimdo_xpu.Vbar.Fault.Contract.{BroughtIn, vbar_fault-Outcome}
use comfy_aimdo_xpu.Vbar.Owner.{pages_of, vbar_unpin_stream}
use comfy_aimdo_xpu.Vbar.Fault.{vbar_fault, fault_success}
use comfy_aimdo_xpu.Vbar.Fault.Pins.{SamePins}
use comfy_aimdo_xpu.Vbar.Pages.{vbar_page_size, vbar_get_page_nr_up}
use comfy_aimdo_xpu.Vbar.Owner.Unpinning.{vbar_unpin_stream-Lowered}

module _ {W : Type 0} (gpu : Gpu W) where
  same_range :
      (other : ℕ) {s t : State W} (v offset size : ℕ)
      → Inv other t
      → (b : BroughtIn s t v offset size)
      → ((pages_of (t.vbars v) offset size).0 ≡ b.first)
        × ((pages_of (t.vbars v) offset size).1 ≡ b.last - b.first)
  same_range other {s} {t} v offset size inv b =
      let mv = (inv.valid v b.listed) in
      let e : offset / vbar_page_size ≡ b.first = omega (arith, b.covers, b.tight) in
      let e2 : vbar_get_page_nr_up (add64 offset size) ≡ b.last =
        omega (arith, b.covers, b.tight, b.below, mv.within, mv.fits) in
      let e3 : min b.last (t.vbars v).nr_pages ≡ b.last = omega (arith, b.below, mv.within) in
      (e, rw (e, e2, e3) refl)

  -- Under the conditions of `vbar_fault-Outcome`, unpinning the bytes of a fault that has succeeded
  -- gives every page the pins it had before the fault, whatever the unpinning returns.
  pub vbar_unpin_stream-fault :
      (gives : GivesHandles gpu) (other : ℕ) (s : State W) (v offset size : ℕ)
      → Inv other s
      → v ∈ s.order
      → ((m : ℕ) → (page s v m).pin_count + 1 < 2 ^ 32)
      → (vbar_fault gpu s v offset size).0 ≡ fault_success
      → SamePins s (vbar_unpin_stream gpu (vbar_fault gpu s v offset size).2 v offset size).1
  vbar_unpin_stream-fault gives other s v offset size inv i b ok =
      let t = (vbar_fault gpu s v offset size).2 in
      let o = vbar_fault-Outcome gpu gives other s v offset size inv i b in
      elim o.pages [
        | inr (ne, _) ↦ absurd (ne ok)
        | inl (_, g) ↦
            let u = (vbar_unpin_stream-Lowered gpu other t v offset size o.inv g.listed).0 in
            let r = same_range other v offset size o.inv g in
            record { pins = λ a m. ground (arith, u.pins a m, r.0, r.1, g.taken.pins a m) }
      ]
