-- ===== src/Vbar/Fault/Contract.antt =====
-- What `vbar_fault` of src/model-vbar.c promises its caller.
use comfy_aimdo_xpu.Base.{
  ℕ, ◌+◌, ◌≡◌, ◌≢◌, ◌≤◌, ◌<◌, ◌^◌, ◌⊎◌, inl, inr, refl, arith, true, Bool-cases, ltb, some, none,
  ◌*◌, List, ◌∈◌, [], Option-cases, not, ltb→le,
}
use comfy_aimdo_xpu.Vbar.Evict.Steps.{Evicts, here, next, dirtied, Evicts-trans}
use comfy_aimdo_xpu.Devctx.{State, page}
use comfy_aimdo_xpu.Gpu.{Gpu, GivesHandles}
use comfy_aimdo_xpu.Vbar.Pages.{vbar_page_size}
use comfy_aimdo_xpu.Vbar.Fault.{
  Faulting, vbar_fault, fault_success, fault_error, fault_oom, vbar_fault_page_range,
  budget_deficit, vbars_free,
}
use comfy_aimdo_xpu.Vbar.Invariant.{Inv}
use comfy_aimdo_xpu.Vbar.Fault.Pins.{Pinned, SamePins, SamePins-Evicts, Pinned-start}
use comfy_aimdo_xpu.Vbar.Fault.Run.{Ended, fault_pages-Ended}
use comfy_aimdo_xpu.Vbar.Pages.Ranges.{vbar_fault_page_range_bounds}
use comfy_aimdo_xpu.Vbar.Evict.{one_time_dirty}
use comfy_aimdo_xpu.Vbar.Fault.Calls.{budget_deficit-Evicts}
use comfy_aimdo_xpu.Vbar.Reclaim.Evicting.{InRange, Evicts-InRange, vbars_free_internal-Evicts}
use comfy_aimdo_xpu.Vbar.Evict.Accounts.{Evicts-Inv}
use comfy_aimdo_xpu.Vbar.Evict.Spares.{Evicts-order, Evicts-shape}

-- All of the bytes' pages are mapped, under the watermark, and hold one more pin each; no other pin
-- has changed, and the VBAR is still listed.
pub record BroughtIn {W : Type 0} (s t : State W) (v offset size : ℕ) : Type 0 where
  pub first : ℕ
  pub last : ℕ
  pub covers : (first * vbar_page_size ≤ offset) × (offset + size ≤ last * vbar_page_size)
  pub tight :
      (offset < (first + 1) * vbar_page_size)
      × (last * vbar_page_size < offset + size + vbar_page_size)
  pub mapped : (m : ℕ) → first ≤ m → m < last → (page t v m).handle ≢ 0
  pub taken : Pinned s t v first last
  pub below : last ≤ (t.vbars v).watermark
  pub listed : v ∈ t.order

-- The outcome of a fault, by the code that it returns.
pub record Outcome {W : Type 0} (other : ℕ) (s : State W) (v offset size : ℕ)
    (r : ℕ × List ℕ × State W) : Type 0 where
  pub inv : Inv other r.2
  pub pages :
      ((r.0 ≡ fault_success) × BroughtIn s r.2 v offset size)
      ⊎ ((r.0 ≢ fault_success) × SamePins s r.2)

module _ {W : Type 0} (gpu : Gpu W) (gives : GivesHandles gpu) where
  Outcome-of_pages :
      (other : ℕ) (s : State W) (v offset size first last : ℕ) (k : Faulting W)
      → vbar_fault_page_range (s.vbars v) offset size ≡ some (first, last)
      → (s.vbars v).nr_pages * vbar_page_size < 2 ^ 64
      → Ended gpu gives other s v first last k
      → Outcome other s v offset size
          (elim k.result [ none ↦ fault_success | some code ↦ code ], k.signature, k.state)
  Outcome-of_pages other s v offset size first last k e fits (inl c) =
      let b = vbar_fault_page_range_bounds (s.vbars v) offset size fits e in
      record {
        inv = c.live.inv;
        pages = rw c.result (
            inl (
              refl,
              record {
                first = first;
                last = last;
                covers = (b.2, b.4);
                tight = (b.3, b.5);
                mapped = c.live.held;
                taken = c.live.taken;
                below = c.live.below;
                listed = c.live.listed;
              },
            ));
      }
  Outcome-of_pages other s v offset size first last k e fits (inr g) =
      let (code, eq, nz) = g.code in record { inv = g.inv; pages = rw eq (inr (nz, g.pins)) }

  -- Let the accounts be true, the VBAR listed, the pin counts below their maximum, and the driver's
  -- handles not null. A fault that succeeds has every page of the bytes mapped and pinned once
  -- more, and no other pin changed; a fault that fails has changed no pin. Either way the accounts
  -- stay true.
  pub vbar_fault-Outcome :
      (other : ℕ) (s : State W) (v offset size : ℕ)
      → Inv other s
      → v ∈ s.order
      → ((m : ℕ) → (page s v m).pin_count + 1 < 2 ^ 32)
      → Outcome other s v offset size (vbar_fault gpu s v offset size)
  unfolding vbar_fault one_time_dirty
  vbar_fault-Outcome other s v offset size inv i b =
      let s1 = one_time_dirty s in
      let (deficit, s2) = budget_deficit gpu s1 0 in
      let (ok?, s3) = vbars_free gpu s2 deficit in
      let p2 : Evicts s s2 = Evicts-trans (next here dirtied) (budget_deficit-Evicts gpu s1 0) in
      let r2 : InRange s2 = Evicts-InRange (λ u j. (inv.valid u j).within) p2 in
      let p = Evicts-trans p2 (vbars_free_internal-Evicts gpu s2 deficit none true r2) in
      let fits = (inv.valid v i).fits in
      let same = SamePins-Evicts p in
      let inv3 = Evicts-Inv other inv p in
      let failed : (code : ℕ) → code ≢ 0 → Outcome other s v offset size (code, [], s3) =
        λ code nz. record { inv = inv3; pages = inr (nz, same) } in
      elim (Option-cases (vbar_fault_page_range (s.vbars v) offset size)) [
        | inl e ↦
            rw (e, vbar_fault)
              (record {
                inv = inv;
                pages = inr ((λ x. omega arith), record { pins = λ u m. refl });
              })
        | inr (range, e) ↦
            let (first, last) = range in
            let bounds = vbar_fault_page_range_bounds (s.vbars v) offset size fits e in
            rw (e, vbar_fault)
              (elim (Bool-cases (not ok?)) [
                | inl e2 ↦ rw e2 (failed fault_error (λ x. omega arith))
                | inr e2 ↦ elim (Bool-cases (ltb (s3.vbars v).watermark last)) [
                  | inl e3 ↦ rw (e2, e3) (failed fault_oom (λ x. omega arith))
                  | inr e3 ↦
                      rw (e2, e3)
                        (Outcome-of_pages other s v offset size first last _ e fits (
                          fault_pages-Ended gpu gives other s v first last s3 b bounds.0 (record {
                            started = omega arith;
                            ended = bounds.0;
                            taken = Pinned-start v first same;
                            held = λ m a z. absurd (omega arith);
                            inv = inv3;
                            listed = rw (Evicts-order p) i;
                            room = rw ((Evicts-shape p v).nr_pages) bounds.1;
                            below = ltb→le _ _ e3;
                          })))
                ]
              ])
      ]
