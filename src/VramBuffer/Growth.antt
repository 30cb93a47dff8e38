-- ===== src/VramBuffer/Growth.antt =====
-- `vrambuf_grow` and `vrambuf_destroy` of src/vrambuf.c as a whole.
use comfy_aimdo_xpu.Base.{
  ℕ, ◌+◌, ◌-◌, ◌≡◌, ◌≤◌, inl, inr, arith, min, true, subst, not, none, Bool-cases, ltb, ltb→le,
  ltb→lt, Bool, refl, leb, leb→le, ◌/◌,
}
use comfy_aimdo_xpu.Gpu.{Gpu, GivesHandles}
use comfy_aimdo_xpu.VramBuffer.{
  VramBuffer, vram_chunk_size, vrambuf_grow, vrambuf_destroy, align_up,
}
use comfy_aimdo_xpu.VramBuffer.Accounts.{IsSound, Inv-less}
use comfy_aimdo_xpu.Devctx.{State, add64, sub64}
use comfy_aimdo_xpu.Vbar.Evict.Steps.{Evicts, Evicts-trans}
use comfy_aimdo_xpu.Vbar.Invariant.{Inv}
use comfy_aimdo_xpu.Vbar.Reclaim.{vbars_free}
use comfy_aimdo_xpu.Devctx.Budget.{budget_deficit}
use comfy_aimdo_xpu.Vbar.Reclaim.Evicting.{InRange, vbars_free_internal-Evicts, Evicts-InRange}
use comfy_aimdo_xpu.Vbar.Fault.Calls.{budget_deficit-Evicts}
use comfy_aimdo_xpu.VramBuffer.Chunks.{
  Grown, Grown-Evicts, Chunked, grow_rounds-Ended, Handles-refl,
}

module _ {W : Type 0} (gpu : Gpu W) (gives : GivesHandles gpu) where
  -- From a sound buffer and true accounts, growing leaves a sound buffer that keeps its range and
  -- every handle that it had, and each handle that it then has more is one that the driver has created
  -- for the buffer's device; the usage grows by what the buffer has grown by, while the VBARs' accounts
  -- stay true, also where the growth stops short; where it returns true, the buffer has the size
  -- required. The driver's handles are not null.
  pub vrambuf_grow-Grown :
      (other : ℕ) (found : Bool) (s : State W) (buf : VramBuffer) (required_size : ℕ)
      → Inv other s
      → IsSound buf
      → let (ok, buf', t) = vrambuf_grow gpu found s buf required_size in
        Grown gpu gives other buf buf' t × (ok ≡ true → required_size ≤ buf'.allocated)
  unfolding vrambuf_grow
  vrambuf_grow-Grown other found s buf required_size inv sound =
      let grow_to = min (align_up required_size vram_chunk_size) buf.max_size in
      let (deficit, s1) = budget_deficit gpu s (sub64 grow_to buf.allocated) in
      let (ok?, s2) = vbars_free gpu s1 deficit in
      let p1 : Evicts s s1 = budget_deficit-Evicts gpu s (sub64 grow_to buf.allocated) in
      let r1 : InRange s1 = Evicts-InRange (λ v i. (inv.valid v i).within) p1 in
      let p2 : Evicts s s2 =
        Evicts-trans p1 (vbars_free_internal-Evicts gpu s1 deficit none true r1) in
      let here_before : Grown gpu gives other buf buf s = record {
        sound = sound;
        range = (refl, refl, refl);
        more = omega arith;
        memory = Handles-refl gpu gives buf;
        inv = subst (λ o. Inv o s) (omega arith) inv;
      } in
      let g2 = Grown-Evicts gpu gives here_before p2 in
      elim (Bool-cases (not found)) [
        | inl e ↦ rw e (here_before, λ x. absurd cc)
        | inr e ↦ elim (Bool-cases (ltb buf.max_size required_size)) [
          | inl e2 ↦ rw (e, e2) (here_before, λ x. absurd cc)
          | inr e2 ↦ elim (Bool-cases (leb required_size buf.allocated)) [
            | inl e3 ↦ rw (e, e2, e3) (here_before, λ x. leb→le _ _ e3)
            | inr e3 ↦ elim (Bool-cases (not ok?)) [
              | inl e4 ↦ rw (e, e2, e3, e4) (g2, λ x. absurd cc)
              | inr e4 ↦
                  let fits = ltb→le _ _ e2 in
                  let big : required_size ≤ grow_to = omega (arith, sound.sized) in
                  let chunked : Chunked gpu gives other buf grow_to =
                    elim (Bool-cases (ltb buf.max_size (align_up required_size vram_chunk_size))) [
                      | inl e5 ↦ inr (omega (arith, ltb→lt _ _ e5))
                      | inr e5 ↦ inl (
                        add64 required_size (vram_chunk_size - 1) / vram_chunk_size,
                        omega (arith, ltb→le _ _ e5),
                      )
                    ] in
                  let larger : buf.allocated ≤ grow_to = ground arith in
                  let h =
                    grow_rounds-Ended gpu gives other buf grow_to s2 chunked (omega arith) g2
                      larger in
                  rw (e, e2, e3, e4) (h.grown, λ x. omega (arith, h.enough x))
            ]
          ]
        ]
      ]

module _ {W : Type 0} (gpu : Gpu W) where
  -- The accounts after a destruction.
  pub vrambuf_destroy-Inv :
      (other : ℕ) (s : State W) (buf : VramBuffer)
      → IsSound buf
      → Inv (other + buf.allocated) s
      → Inv other (vrambuf_destroy gpu true s buf).1
        × ((vrambuf_destroy gpu true s buf).1.vbars ≡ s.vbars)
  unfolding vrambuf_destroy
  vrambuf_destroy-Inv other s buf h inv =
      (Inv-less other buf.allocated s _ (omega (arith, h.within, h.sized)) inv, refl)
