-- ===== src/TwoPhase/Copies.antt =====
-- Copies hold the VBARs that they touch: `aimdo_vbar_copy_acquire` and `aimdo_vbar_copy_release` of
-- src/model-vbar.c. A context that has no list of VBARs yet has an empty one here.
pub mod Held
use comfy_aimdo_xpu.Base.{
  ℕ, Bool, List, [], ◌∷◌, true, Option, if◌then◌else◌, ◌*◌, ◌||◌, not, ◌==◌, none, ◌%◌, some, ◌^◌,
  ◌&&◌, false, ◌-◌, leb, length, ◌++◌, ltb, ◌+◌,
}
use comfy_aimdo_xpu.TwoPhase.{XpuState, set_vbar}
use comfy_aimdo_xpu.TwoPhase.Candidates.{vbar_find_identity_locked}
use comfy_aimdo_xpu.Retire.{XpuVbar}
use comfy_aimdo_xpu.Vbar.Pages.{vbar_page_size}
use comfy_aimdo_xpu.Devctx.{incr32}

unfoldable pub vbar_copy_overlaps : XpuVbar → (pointer size : ℕ) → Bool
vbar_copy_overlaps mv pointer size =
    let bytes = (mv.nr_pages * vbar_page_size) % 2 ^ 64 in
    if size == 0 || bytes == 0
    then false
    else if leb mv.vbar pointer
    then ltb (pointer - mv.vbar) bytes
    else ltb (mv.vbar - pointer) size

abbrev pub set_copy_holds : XpuVbar → ℕ → XpuVbar
set_copy_holds mv holds = record mv { copy_holds = holds }

-- Where the acquisition stands: whether it may go on, the `identities` so far, and the contexts.
pub record Acquisition (S : Type 0) : Type 0 where
  pub going : Bool
  pub identities : List ℕ
  pub held : S

module _ {W : Type 0} where
  -- One VBAR of a context, if the copy touches it.
  unfoldable pub acquire_vbar :
      (touches : XpuVbar → Bool)
      → (capacity : ℕ) → (v : ℕ) → Acquisition (XpuState W)
      → Acquisition (XpuState W)
  acquire_vbar touches capacity v a =
      let mv = a.held.vbars v in
      if not (touches mv)
      then a
      else if mv.closing || mv.copy_holds == 2 ^ 32 - 1 || length a.identities == capacity
      then record a { going = false }
      else record {
        going = true;
        identities = a.identities ++ (mv.identity ∷ []);
        held = set_vbar a.held v (set_copy_holds mv (incr32 mv.copy_holds));
      }

  unfoldable pub acquire_vbars :
      (touches : XpuVbar → Bool)
      → (capacity : ℕ) → List ℕ
      → Acquisition (XpuState W)
      → Acquisition (XpuState W)
  unfolding acquire_vbar
  acquire_vbars touches capacity [] a = a
  acquire_vbars touches capacity (v ∷ rest) a =
      acquire_vbars touches capacity rest (if a.going then acquire_vbar touches capacity v a else a)

  unfoldable pub acquire_contexts :
      (touches : XpuVbar → Bool)
      → (capacity : ℕ) → (identities : List ℕ) → (going : Bool) → List (XpuState W)
      → Acquisition (List (XpuState W))
  unfolding acquire_vbars
  acquire_contexts touches capacity identities going [] = record {
    going = going;
    identities = identities;
    held = [];
  }
  acquire_contexts touches capacity identities going (s ∷ rest) =
      let a =
        acquire_vbars touches capacity s.order
          (record { going = going; identities = identities; held = s }) in
      let b = acquire_contexts touches capacity a.identities a.going rest in
      record b { held = a.held ∷ b.held }

  -- One identity given back in one context; `guarded` for the release, which stops at 0.
  unfoldable pub drop_identity : (guarded : Bool) → (identity : ℕ) → XpuState W → XpuState W
  unfolding vbar_find_identity_locked
  drop_identity guarded identity s = elim (vbar_find_identity_locked s identity) [
    | none ↦ s
    | some v ↦
        let mv = s.vbars v in
        if guarded && mv.copy_holds == 0
        then s
        else set_vbar s v (set_copy_holds mv ((mv.copy_holds + 2 ^ 32 - 1) % 2 ^ 32))
  ]

  unfoldable pub drop_identities : (guarded : Bool) → List ℕ → XpuState W → XpuState W
  unfolding drop_identity
  drop_identities guarded [] s = s
  drop_identities guarded (identity ∷ rest) s =
      drop_identities guarded rest (drop_identity guarded identity s)

  unfoldable pub each_context : (XpuState W → XpuState W) → List (XpuState W) → List (XpuState W)
  each_context change [] = []
  each_context change (s ∷ rest) = change s ∷ each_context change rest

  -- `got_locks` is whether each try of a context's lock succeeds. The result is none where the source
  -- returns -1, else the identities, as many as it returns.
  unfoldable pub aimdo_vbar_copy_acquire :
      (got_locks : Bool)
      → (dst dst_size src src_size capacity : ℕ) → List (XpuState W)
      → Option (List ℕ) × List (XpuState W)
  unfolding acquire_contexts drop_identities each_context vbar_copy_overlaps
  aimdo_vbar_copy_acquire got_locks dst dst_size src src_size capacity contexts =
      let touches : XpuVbar → Bool =
        λ mv. vbar_copy_overlaps mv dst dst_size || vbar_copy_overlaps mv src src_size in
      let a = acquire_contexts touches capacity [] true contexts in
      if not got_locks
      then (none, contexts)
      else if a.going
      then (some a.identities, a.held)
      else (none, each_context (drop_identities false a.identities) a.held)

  unfoldable pub aimdo_vbar_copy_release :
      (identities : List ℕ) → List (XpuState W) → List (XpuState W)
  unfolding drop_identities each_context
  aimdo_vbar_copy_release identities contexts =
      each_context (drop_identities true identities) contexts
