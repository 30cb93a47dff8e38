-- ===== src/Vbar/Owner/Unpinning.antt =====
-- `vbar_unpin_stream` of src/model-vbar.c: the pins.
use comfy_aimdo_xpu.Base.{
  ℕ, zero, suc, ◌+◌, ◌≡◌, ◌≤◌, arith, ◌∈◌, ◌∙◌, if◌then◌else◌, refl, ◌==◌, Bool, ◌&&◌, leb, ltb,
  false, ◌-◌, Bool-cases, inl, inr, ◌<◌, ◌*◌, ◌^◌,
}
use comfy_aimdo_xpu.Gpu.{Gpu}
use comfy_aimdo_xpu.Devctx.{State, page, add64, Vbar}
use comfy_aimdo_xpu.Vbar.Fault.{unpin_pages, unpin_page}
use comfy_aimdo_xpu.Vbar.Owner.{mod_pages, vbar_unpin_stream, mod_outcome, pages_of}
use comfy_aimdo_xpu.Vbar.Evict.Steps.{Evicts, Evicts-trans, next, here, dirtied}
use comfy_aimdo_xpu.Vbar.Evict.Single.{mod1-Evicts, sync_if-Evicts}
use comfy_aimdo_xpu.Vbar.Evict.Spares.{Evicts-order, Evicts-shape, Evicts-pin}
use comfy_aimdo_xpu.Vbar.Evict.{
  writeback_failed, retained, freed, one_time_dirty, sync_if, synchronize, Mod, mod1,
}
use comfy_aimdo_xpu.Vbar.Invariant.{Inv}
use comfy_aimdo_xpu.Vbar.Fault.Pins.{Inv-unpin_pages}
use comfy_aimdo_xpu.Vbar.Pages.{vbar_get_page_nr_up, vbar_page_size}
use comfy_aimdo_xpu.Vbar.Evict.Accounts.{Evicts-Inv}

-- `t` has the pins of `s`, less one, where there is one, on `count` pages of `v` from `first` on.
pub record Lowered {W : Type 0} (s t : State W) (v first count : ℕ) : Type 0 where
  pub pins :
      (u m : ℕ)
      → (page t u m).pin_count ≡ (
          if u == v && (leb first m && ltb m (first + count))
          then (page s u m).pin_count - 1
          else (page s u m).pin_count)

-- Page `m` is in the page table of `mv`, begins before the end of the bytes and ends after their start.
pub record IsPageOf (mv : Vbar) (offset size m : ℕ) : Type 0 where
  pub in_table : m < mv.nr_pages
  pub begins : m * vbar_page_size < offset + size
  pub reaches : offset < (m + 1) * vbar_page_size

-- From `s` to `t` the pins of the pages of these bytes of `v` are one less, where there is one, and all
-- others are the same.
pub record Unpinned {W : Type 0} (s t : State W) (v offset size : ℕ) : Type 0 where
  pub lowered :
      (m : ℕ)
      → IsPageOf (s.vbars v) offset size m
      → (page t v m).pin_count ≡ (page s v m).pin_count - 1
  pub kept :
      (u m : ℕ)
      → (u ≡ v → IsPageOf (s.vbars v) offset size m → ⊥)
      → (page t u m).pin_count ≡ (page s u m).pin_count

-- The pages that the calls compute are those of the range, where its end does not wrap when rounded.
pub IsPageOf-pages_of :
    (mv : Vbar) (offset size m : ℕ)
    → offset + size + vbar_page_size ≤ 2 ^ 64
    → IsPageOf mv offset size m
    → let (first, count) = pages_of mv offset size in (first ≤ m) × (m < first + count)
IsPageOf-pages_of mv offset size m room h = ground (arith, room, h.in_table, h.begins, h.reaches)

pub pages_of-IsPageOf :
    (mv : Vbar) (offset size m : ℕ)
    → offset + size + vbar_page_size ≤ 2 ^ 64
    → let (first, count) = pages_of mv offset size in
      first ≤ m → m < first + count → IsPageOf mv offset size m
pages_of-IsPageOf mv offset size m room l u = record {
  in_table = ground (arith, l, u);
  begins = ground (arith, room, l, u);
  reaches = ground (arith, room, l, u);
}

module _ {W : Type 0} where
  pub Lowered-unpin_pages :
      (count : ℕ) (s : State W) (v n : ℕ) → Lowered s (unpin_pages count s v n) v n count
  unfolding unpin_pages unpin_page
  Lowered-unpin_pages zero s v n = record { pins = λ u m. ground arith }
  Lowered-unpin_pages (suc count) s v n =
      let h = Lowered-unpin_pages count (unpin_page s v n) v (n + 1) in
      record { pins = λ u m. ground (arith, h.pins u m) }

  pub unpin_pages-order :
      (count : ℕ) (s : State W) (v n : ℕ) → (unpin_pages count s v n).order ≡ s.order
  unfolding unpin_pages unpin_page
  unpin_pages-order zero s v n = refl
  unpin_pages-order (suc count) s v n =
      unpin_pages-order count (unpin_page s v n) v (n + 1) ∙ (ground arith)

  pub unpin_pages-nr_pages :
      (count : ℕ) (s : State W) (v n u : ℕ)
      → ((unpin_pages count s v n).vbars u).nr_pages ≡ (s.vbars u).nr_pages
  unfolding unpin_pages unpin_page
  unpin_pages-nr_pages zero s v n u = refl
  unpin_pages-nr_pages (suc count) s v n u =
      unpin_pages-nr_pages count (unpin_page s v n) v (n + 1) u ∙ (ground arith)

module _ {W : Type 0} (gpu : Gpu W) where
  pub mod_pages-Evicts :
      (count : ℕ) {s0 : State W} (s : State W) (v n bound : ℕ)
      → v ∈ s0.order
      → count ≤ (s0.vbars v).nr_pages - n
      → Evicts s0 s
      → Evicts s0 (mod_pages gpu count s v n bound).1
  unfolding mod_pages
  mod_pages-Evicts zero s v n bound i h p = p
  mod_pages-Evicts (suc count) {s0} s v n bound i h p =
      let (freed?, s1) = mod1 gpu s v n (leb bound n) false in
      let q : Evicts s0 s1 = Evicts-trans p (
        mod1-Evicts gpu s v n (leb bound n) (rw (Evicts-order p) i)
          (rw ((Evicts-shape p v).nr_pages) (omega arith))) in
      outcome freed? s1 (mod_pages gpu count s1 v (n + 1) bound) q
        (mod_pages-Evicts count s1 v (n + 1) bound i (omega arith) q)
    where
      outcome :
          (m : Mod) (s1 : State W) (r : Bool × State W)
          → Evicts s0 s1
          → Evicts s0 r.1
          → Evicts s0 (mod_outcome m s1 r).1
      outcome writeback_failed s1 r p q = p
      outcome retained s1 r p q = q
      outcome freed s1 r p q = q

  -- The unpinning in terms of the pages that it computes.
  pub vbar_unpin_stream-Lowered :
      (other : ℕ) (s : State W) (v offset size : ℕ)
      → Inv other s
      → v ∈ s.order
      → let (first, count) = pages_of (s.vbars v) offset size in
        let t = (vbar_unpin_stream gpu s v offset size).1 in Lowered s t v first count × Inv other t
  unfolding vbar_unpin_stream one_time_dirty sync_if synchronize
  vbar_unpin_stream-Lowered other s v offset size inv i =
      let mv = s.vbars v in
      let above = ltb mv.watermark (vbar_get_page_nr_up (add64 offset size)) in
      let (first, count) = pages_of mv offset size in
      let s0 = sync_if gpu above (one_time_dirty s) in
      let p0 : Evicts s s0 =
        Evicts-trans (next here dirtied) (sync_if-Evicts gpu above (one_time_dirty s)) in
      let s1 = unpin_pages count s0 v first in
      let inv1 = Inv-unpin_pages other count s0 v first (Evicts-Inv other inv p0) in
      let u1 = Lowered-unpin_pages count s0 v first in
      let (ok?, s2) = mod_pages gpu count s1 v first mv.watermark in
      let p2 : Evicts s1 s2 =
        mod_pages-Evicts count s1 v first mv.watermark
          (rw (unpin_pages-order count s0 v first, Evicts-order p0) i)
          (rw (unpin_pages-nr_pages count s0 v first v, (Evicts-shape p0 v).nr_pages) (omega arith))
          here in
      let p3 = Evicts-trans p2 (sync_if-Evicts gpu above s2) in
      let after : (t : State W) → Evicts s1 t → Lowered s t v first count × Inv other t = λ t p. (
        record { pins = λ u m. ground (arith, Evicts-pin p u m, u1.pins u m, Evicts-pin p0 u m) },
        Evicts-Inv other inv1 p,
      ) in
      elim (Bool-cases ok?) [ inl e ↦ rw e (after _ p3) | inr e ↦ rw e (after _ p2) ]

  -- From true accounts, on a listed VBAR, for bytes whose end does not wrap when it is rounded up to a
  -- page: an unpinning lowers by one each pin of the pages that the bytes reach into, where there is
  -- one, changes no other pin, even where a writeback then fails, and keeps the accounts true.
  pub vbar_unpin_stream-Unpinned :
      (other : ℕ) (s : State W) (v offset size : ℕ)
      → Inv other s
      → v ∈ s.order
      → offset + size + vbar_page_size ≤ 2 ^ 64
      → let t = (vbar_unpin_stream gpu s v offset size).1 in
        Unpinned s t v offset size × Inv other t
  vbar_unpin_stream-Unpinned other s v offset size inv i room =
      let mv = s.vbars v in
      let (first, count) = pages_of mv offset size in
      let (u, after) = vbar_unpin_stream-Lowered other s v offset size inv i in
      (
        record {
          lowered = λ m h.
              let r = IsPageOf-pages_of mv offset size m room h in ground (arith, u.pins v m, r);
          kept = λ a m ne. elim (Bool-cases (a == v && (leb first m && ltb m (first + count)))) [
            | inr e ↦ u.pins a m ∙ (rw e refl)
            | inl e ↦ absurd (
                ne (ground (arith, e))
                  (pages_of-IsPageOf mv offset size m room (ground (arith, e)) (ground (arith, e))))
          ];
        },
        after,
      )
