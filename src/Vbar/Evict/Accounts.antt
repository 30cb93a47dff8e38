-- ===== src/Vbar/Evict/Accounts.antt =====
-- The counts of resident pages and the recorded usage over eviction steps.
use comfy_aimdo_xpu.Base.{
  ℕ, ◌+◌, ◌*◌, ◌%◌, ◌^◌, ◌<◌, ◌≡◌, ◌≢◌, refl, arith, ◌∈◌, Distinct, sum_over, sum_over-change,
}
use comfy_aimdo_xpu.Devctx.{State, page}
use comfy_aimdo_xpu.Vbar.Pages.{vbar_page_size}
use comfy_aimdo_xpu.Vbar.Invariant.{IsValid, Inv, count_mapped-update, count_mapped-le}
use comfy_aimdo_xpu.Vbar.Evict.{release_page, lower_watermark, one_time_dirty}
use comfy_aimdo_xpu.Vbar.Evict.Steps.{
  Step, outside, dirtied, polled, released, lowered, Evicts, here, next,
}
use comfy_aimdo_xpu.Vbar.Evict.Spares.{step-order}

module _ {W : Type 0} where
  released_count :
      (t : State W) (v n : ℕ)
      → IsValid (t.vbars v)
      → n < (t.vbars v).nr_pages
      → (page t v n).handle ≢ 0
      → ((release_page t v n).vbars v).resident_count + 1 ≡ (t.vbars v).resident_count
  unfolding release_page
  released_count t v n g h m =
      let mv = t.vbars v in
      let drop =
        count_mapped-update mv.residency_map n (record (mv.residency_map n) { handle = 0 })
          mv.nr_pages h in
      ground (arith, drop, count_mapped-le mv.residency_map mv.nr_pages)

  released-IsValid :
      (t : State W) (v n : ℕ)
      → IsValid (t.vbars v)
      → n < (t.vbars v).nr_pages
      → (page t v n).handle ≢ 0
      → IsValid ((release_page t v n).vbars v)
  unfolding release_page
  released-IsValid t v n g h m =
      let mv = t.vbars v in
      let drop =
        count_mapped-update mv.residency_map n (record (mv.residency_map n) { handle = 0 })
          mv.nr_pages h in
      ground (arith, drop, count_mapped-le mv.residency_map mv.nr_pages)

  step-IsValid :
      {t u : State W}
      → Step t u
      → ((v : ℕ) → v ∈ t.order → IsValid (t.vbars v))
      → (v : ℕ) → v ∈ u.order
      → IsValid (u.vbars v)
  unfolding release_page lower_watermark one_time_dirty
  step-IsValid (outside w) g v i = g v i
  step-IsValid dirtied g v i = g v i
  step-IsValid (polled c st d w) g v i = g v i
  step-IsValid {t} (released a n j r m p) g v i =
      ground (arith, g v i, released-IsValid t a n (g a j) r m)
  step-IsValid (lowered a j l) g v i = ground (arith, g v i)

  -- The resident pages of all VBARs, but for those of `a`, are as many as before.
  sum-change :
      (t u : State W) (a : ℕ)
      → u.order ≡ t.order
      → Distinct t.order
      → a ∈ t.order
      → ((v : ℕ) → v ≢ a → (u.vbars v).resident_count ≡ (t.vbars v).resident_count)
      → sum_over (λ v. (u.vbars v).resident_count) u.order + (t.vbars a).resident_count
        ≡ sum_over (λ v. (t.vbars v).resident_count) t.order + (u.vbars a).resident_count
  sum-change t u a e d i h = rw e (sum_over-change _ _ a t.order h d i)

  step-accounted :
      (other : ℕ) {t u : State W}
      → Step t u
      → Inv other t
      → u.total_vram_usage
        ≡ (other + vbar_page_size * sum_over (λ v. (u.vbars v).resident_count) u.order) % 2 ^ 64
  unfolding release_page lower_watermark one_time_dirty
  step-accounted other (outside w) h = h.accounted
  step-accounted other dirtied h = h.accounted
  step-accounted other (polled c st d w) h = h.accounted
  step-accounted other {t} (released a n i r m p) h =
      let sums = sum-change t (release_page t a n) a refl h.distinct i (λ v ne. ground arith) in
      omega (arith, sums, released_count t a n (h.valid a i) r m, h.accounted)
  step-accounted other {t} (lowered a i l) h =
      let sums = sum-change t (lower_watermark t a) a refl h.distinct i (λ v ne. ground arith) in
      ground (arith, sums, h.accounted)

  -- The accounts do not depend on pins: a mapped page may go whatever holds it.
  pub released-Inv :
      (other : ℕ) (t : State W) (v n : ℕ)
      → Inv other t
      → v ∈ t.order
      → n < (t.vbars v).nr_pages
      → (page t v n).handle ≢ 0
      → Inv other (release_page t v n)
  unfolding release_page
  released-Inv other t v n h i r m =
      let sums = sum-change t (release_page t v n) v refl h.distinct i (λ u ne. ground arith) in
      record {
        distinct = h.distinct;
        valid = λ u j. ground (arith, h.valid u j, released-IsValid t v n (h.valid v i) r m);
        accounted = omega (arith, sums, released_count t v n (h.valid v i) r m, h.accounted);
      }

  step-Inv : (other : ℕ) {t u : State W} → Step t u → Inv other t → Inv other u
  step-Inv other st h = record {
    distinct = rw (step-order st) h.distinct;
    valid = step-IsValid st h.valid;
    accounted = step-accounted other st h;
  }

  -- Over any sequence of eviction steps from a state whose accounts are true, each VBAR's resident
  -- count stays the number of its mapped pages, its watermark stays in range, and the recorded
  -- usage counts exactly those pages beside the rest.
  pub Evicts-Inv : (other : ℕ) {s t : State W} → Inv other s → Evicts s t → Inv other t
  Evicts-Inv other h here = h
  Evicts-Inv other h (next p st) = step-Inv other st (Evicts-Inv other h p)
