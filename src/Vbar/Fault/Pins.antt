-- ===== src/Vbar/Fault/Pins.antt =====
-- The pins that a fault has taken so far, and how it gives them back.
use comfy_aimdo_xpu.Base.{
  ℕ, zero, suc, ◌+◌, ◌≡◌, ◌≤◌, ◌<◌, ◌^◌, arith, ◌&&◌, leb, ltb, ◌==◌, if◌then◌else◌, ◌-◌, ◌∙◌,
  if_both, refl,
}
use comfy_aimdo_xpu.Devctx.{State, page, set_page}
use comfy_aimdo_xpu.Vbar.Fault.{pin_page, unpin_page, unpin_pages, vbar_unpin_range, count_new_page}
use comfy_aimdo_xpu.Vbar.Evict.Steps.{Evicts}
use comfy_aimdo_xpu.Vbar.Evict.Spares.{Evicts-pin}
use comfy_aimdo_xpu.Vbar.Invariant.{Inv, Inv-set_page}

-- `s` has one pin more than `s0` on each page of `v` from `first` up to, and without, `last`.
pub record Pinned {W : Type 0} (s0 s : State W) (v first last : ℕ) : Type 0 where
  pub pins :
      (u m : ℕ)
      → (page s u m).pin_count ≡ (
          if u == v && (leb first m && ltb m last)
          then (page s0 u m).pin_count + 1
          else (page s0 u m).pin_count)

-- `s` has the pins of `s0`.
pub record SamePins {W : Type 0} (s0 s : State W) : Type 0 where
  pub pins : (u m : ℕ) → (page s u m).pin_count ≡ (page s0 u m).pin_count

module _ {W : Type 0} where
  pub Pinned-same :
      {s0 s t : State W} (v first last : ℕ)
      → Pinned s0 s v first last
      → SamePins s t
      → Pinned s0 t v first last
  Pinned-same v first last h e = record { pins = λ u m. ground (arith, h.pins u m, e.pins u m) }

  pub Pinned-pin_page :
      {s0 s : State W} (v first n : ℕ)
      → Pinned s0 s v first n
      → first ≤ n
      → (page s0 v n).pin_count + 1 < 2 ^ 32
      → Pinned s0 (pin_page s v n) v first (n + 1)
  unfolding pin_page
  Pinned-pin_page {s0} {s} v first n h l b = record { pins = λ u m. ground (arith, h.pins u m) }

  Pinned-unpin_page :
      {s0 s : State W} (v n last : ℕ)
      → Pinned s0 s v n last
      → n < last
      → Pinned s0 (unpin_page s v n) v (n + 1) last
  unfolding unpin_page
  Pinned-unpin_page {s0} {s} v n last h l = record { pins = λ u m. ground (arith, h.pins u m) }

  Pinned-unpin_pages :
      (count : ℕ) {s0 s : State W} (v n last : ℕ)
      → n + count ≡ last
      → Pinned s0 s v n last
      → SamePins s0 (unpin_pages count s v n)
  unfolding unpin_pages
  Pinned-unpin_pages zero v n last e h = record { pins = λ u m. ground (arith, h.pins u m) }
  Pinned-unpin_pages (suc count) v n last e h =
      Pinned-unpin_pages count v (n + 1) last (omega arith)
        (Pinned-unpin_page v n last h (omega arith))

  -- Giving up returns each pin that was taken.
  pub SamePins-vbar_unpin_range :
      {s0 s : State W} (v first last : ℕ)
      → first ≤ last
      → Pinned s0 s v first last
      → SamePins s0 (vbar_unpin_range s v first last)
  unfolding vbar_unpin_range
  SamePins-vbar_unpin_range v first last l h =
      Pinned-unpin_pages (last - first) v first last (omega arith) h

  pub SamePins-count_new_page : (s : State W) (v n : ℕ) → SamePins s (count_new_page s v n)
  unfolding count_new_page
  SamePins-count_new_page s v n = record { pins = λ u m. ground arith }

  pub SamePins-Evicts : {s t : State W} → Evicts s t → SamePins s t
  SamePins-Evicts p = record { pins = Evicts-pin p }

  pub SamePins-trans : {s t u : State W} → SamePins s t → SamePins t u → SamePins s u
  SamePins-trans p q = record { pins = λ v m. q.pins v m ∙ p.pins v m }

  pub Pinned-start : {s0 s : State W} (v first : ℕ) → SamePins s0 s → Pinned s0 s v first first
  Pinned-start v first h = record { pins = λ u m. ground (arith, h.pins u m) }

  pub Inv-unpin_pages :
      (other count : ℕ) (s : State W) (v n : ℕ) → Inv other s → Inv other (unpin_pages count s v n)
  unfolding unpin_pages
  Inv-unpin_pages other zero s v n h = h
  Inv-unpin_pages other (suc count) s v n h =
      let rp = page s v n in
      let off = set_page s v n (record rp { pin_count = rp.pin_count - 1 }) in
      Inv-unpin_pages other count (unpin_page s v n) v (n + 1)
        (if_both (λ t. Inv other t) (rp.pin_count == 0) s off h (Inv-set_page other s v n _ refl h))

  pub Inv-vbar_unpin_range :
      (other : ℕ) (s : State W) (v first last : ℕ)
      → Inv other s
      → Inv other (vbar_unpin_range s v first last)
  unfolding vbar_unpin_range
  Inv-vbar_unpin_range other s v first last h = Inv-unpin_pages other (last - first) s v first h
