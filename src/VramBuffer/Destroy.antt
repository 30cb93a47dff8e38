-- ===== src/VramBuffer/Destroy.antt =====
-- `vrambuf_destroy` of src/vrambuf.c, beside the driver's own counts.
use comfy_aimdo_xpu.Base.{
  ℕ, suc, if◌then◌else◌, ◌==◌, ◌≤◌, ◌≡◌, ◌<◌, ◌+◌, ◌-◌, zero, true, arith, ◌∙◌, ltb, Bool-cases,
  refl, inl, inr, ap,
}
use comfy_aimdo_xpu.Gpu.{Gpu, Ledger, success}
use comfy_aimdo_xpu.VramBuffer.{vrambuf_destroy, release_handles, VramBuffer}
use comfy_aimdo_xpu.Devctx.{State}
use comfy_aimdo_xpu.VramBuffer.Accounts.{IsSound}
use comfy_aimdo_xpu.Vbar.Invariant.{Inv}
use comfy_aimdo_xpu.VramBuffer.Growth.{vrambuf_destroy-Inv}

-- How often `x` is among the `count` handles from `i` on.
abbrev pub times : (count : ℕ) → (handles : ℕ → ℕ) → (i x : ℕ) → ℕ
times zero handles i x = 0
times (suc count) handles i x = (if handles i == x then 1 else 0) + times count handles (i + 1) x

module _ {W : Type 0} (gpu : Gpu W) (led : Ledger gpu) where
  open led use {live, mapped}

  -- From `w` to `t` the handles of the buffer are released, each as often as it has it, and its bytes
  -- are no longer mapped.
  pub record GivenBack (buf : VramBuffer) (w t : W) : Type 0 where
    pub released : (x : ℕ) → live t x ≡ live w x - times buf.handle_count buf.handles 0 x
    pub unmapped : mapped t ≡ mapped w - buf.allocated

  release_handles-times :
      (count : ℕ) (handles : ℕ → ℕ) (i : ℕ) (w : W)
      → ((j : ℕ) (u : W) → i ≤ j → j < i + count → (gpu.mem_release (handles j) u).0 ≡ success)
      → let t = release_handles gpu count handles i w in
        ((x : ℕ) → live t x ≡ live w x - times count handles i x) × (mapped t ≡ mapped w)
  unfolding release_handles
  release_handles-times zero handles i w ok = (λ x. ground arith, refl)
  release_handles-times (suc count) handles i w ok =
      let w1 = (gpu.mem_release (handles i) w).1 in
      let (l, m) = led.releases (handles i) w in
      let one = ok i w (omega arith) (omega arith) in
      let (rest, kept) =
        release_handles-times count handles (i + 1) w1
          (λ j u a b. ok j u (omega arith) (omega arith)) in
      (λ x. ground (arith, rest x, l x, one), kept ∙ m)

  -- Where the driver unmaps the range and releases the handles of a sound buffer, whose memory the
  -- usage counts: destroying it releases each of its handles, as often as the buffer has it, and no
  -- other, takes its bytes off those that are mapped and off the usage, keeps the accounts true, and
  -- touches no VBAR.
  pub vrambuf_destroy-GivenBack :
      (other : ℕ) (s : State W) (buf : VramBuffer)
      → IsSound buf
      → Inv (other + buf.allocated) s
      → ((w : W) → (gpu.mem_unmap buf.base_ptr buf.allocated w).0 ≡ success)
      → ((j : ℕ) (w : W) → j < buf.handle_count → (gpu.mem_release (buf.handles j) w).0 ≡ success)
      → let t = (vrambuf_destroy gpu true s buf).1 in
        GivenBack buf s.world t.world × Inv other t × (t.vbars ≡ s.vbars)
  unfolding vrambuf_destroy
  vrambuf_destroy-GivenBack other s buf h inv unm rel =
      let w = s.world in
      let w1 = if ltb 0 buf.allocated then (gpu.mem_unmap buf.base_ptr buf.allocated w).1 else w in
      let (u, kept) = led.unmaps buf.base_ptr buf.allocated w in
      let gone : mapped w1 ≡ mapped w - buf.allocated = elim (Bool-cases (ltb 0 buf.allocated)) [
        | inl e ↦ rw e (ground (arith, u, unm w))
        | inr e ↦ rw e (ground (arith, e))
      ] in
      let same : (x : ℕ) → live w1 x ≡ live w x = λ x. elim (Bool-cases (ltb 0 buf.allocated)) [
        | inl e ↦ rw e (kept x)
        | inr e ↦ rw e refl
      ] in
      let w2 = release_handles gpu buf.handle_count buf.handles 0 w1 in
      let (l, m) =
        release_handles-times buf.handle_count buf.handles 0 w1
          (λ j v a b. rel j v (omega arith)) in
      let (m2, l2) = led.unreserves buf.base_ptr buf.max_size w2 in
      let (accounts, vbars) = vrambuf_destroy-Inv gpu other s buf h inv in
      (
        record {
          released =
              λ x. l2 x ∙ l x ∙ ap (λ n. n - times buf.handle_count buf.handles 0 x) (same x);
          unmapped = m2 ∙ m ∙ gone;
        },
        accounts,
        vbars,
      )
