-- ===== src/Retire/Holds.antt =====
-- `vbar_consumer_acquire` of src/model-vbar.c, page by page and as a whole.
use comfy_aimdo_xpu.Base.{
  ℕ, zero, suc, ◌+◌, ◌≡◌, ◌≤◌, ◌<◌, ◌⊎◌, Bool, true, false, some, arith, inl, inr, ◌==◌, refl,
  Bool-cases, ◌^◌, update, subst, ◌∙◌, ap, update-ne, none, sym, not, ◌&&◌, ◌||◌, ◌*◌, ◌-◌, leb,
  ltb,
}
use comfy_aimdo_xpu.Retire.{
  hold_page, all_pages, XpuPage, hold_counter, each_page, can_hold, XpuVbar,
  vbar_page_cancel_eviction, vbar_retire_complete, vbar_consumer_acquire, xpu_page_is_mapped,
}
use comfy_aimdo_xpu.Vbar.Pages.{vbar_page_size, vbar_get_page_nr, vbar_get_page_nr_up, uint64_max}
use comfy_aimdo_xpu.Devctx.{add64}

-- `nv` has `change` of `mv`'s page on `count` pages from `first` on, and is `mv` else.
pub record Changed (change : XpuPage → XpuPage) (mv nv : XpuVbar) (first count : ℕ) : Type 0 where
  pub nr_pages : nv.nr_pages ≡ mv.nr_pages
  pub closing : nv.closing ≡ mv.closing
  pub inside :
      (m : ℕ) → first ≤ m → m < first + count → nv.residency_map m ≡ change (mv.residency_map m)
  pub outside :
      (m : ℕ) → (m < first) ⊎ (first + count ≤ m) → nv.residency_map m ≡ mv.residency_map m

written : (f : ℕ → XpuPage) (p q : ℕ) (x : XpuPage) → p ≡ q → update f p x q ≡ x
written f p q x e = ground arith

module _ (change : XpuPage → XpuPage) where
  pub each_page-Changed :
      (count : ℕ) (mv : XpuVbar) (n : ℕ) → Changed change mv (each_page change count mv n) n count
  unfolding each_page
  each_page-Changed zero mv n = record {
    nr_pages = refl;
    closing = refl;
    inside = λ m l u. absurd (omega arith);
    outside = λ m o. refl;
  }
  each_page-Changed (suc count) mv n =
      let rp = change (mv.residency_map n) in
      let mv1 = record mv { residency_map = update mv.residency_map n rp } in
      let h = each_page-Changed count mv1 (n + 1) in
      record {
        nr_pages = h.nr_pages;
        closing = h.closing;
        inside = λ m l u. elim (Bool-cases (n == m)) [
          | inl e ↦
              let same : n ≡ m = ground arith in
              h.outside m (inl (omega arith))
              ∙ written mv.residency_map n m rp same
              ∙ ap (λ k. change (mv.residency_map k)) same
          | inr e ↦
              h.inside m (ground arith) (omega arith)
              ∙ ap change (update-ne mv.residency_map rp (ground arith))
        ];
        outside = λ m o.
            h.outside m (omega (arith, o)) ∙ update-ne mv.residency_map rp (omega (arith, o));
      }

all_pages-each :
    (test : XpuPage → Bool) (count : ℕ) (mv : XpuVbar) (n m : ℕ)
    → all_pages test count mv n ≡ true
    → n ≤ m
    → m < n + count
    → test (mv.residency_map m) ≡ true
unfolding all_pages
all_pages-each test zero mv n m h l u = absurd (omega arith)
all_pages-each test (suc count) mv n m h l u = elim (Bool-cases (n == m)) [
  | inl e ↦
      let same : n ≡ m = ground arith in
      let now : test (mv.residency_map n) ≡ true = ground arith in
      subst (λ k. test (mv.residency_map k) ≡ true) same now
  | inr e ↦ all_pages-each test count mv (n + 1) m (ground arith) (ground arith) (omega arith)
]

abbrev pub holds_of : XpuPage → (kind : ℕ) → ℕ
holds_of rp kind = elim (hold_counter rp kind) [ none ↦ 0 | some holds ↦ holds ]

-- A page on which a hold is taken: it counts one more, and cannot retire.
pub record HeldMore (kind : ℕ) (rp rp' : XpuPage) : Type 0 where
  pub holds : holds_of rp' kind ≡ holds_of rp kind + 1
  pub kept : rp'.evicting ≡ false
  pub pins : (rp'.pin_count ≡ rp.pin_count) × (rp'.handle ≡ rp.handle)
  pub blocked : (completed : ℕ → ℕ) (count : ℕ) → vbar_retire_complete rp' completed count ≡ false

-- Counts of holds are 32-bit.
unfoldable pub IsCounted : XpuPage → Type 0
IsCounted rp = (rp.external_consumer_holds < 2 ^ 32) × (rp.capture_holds < 2 ^ 32)

hold_page-HeldMore :
    (kind : ℕ) (rp : XpuPage)
    → IsCounted rp
    → can_hold kind rp ≡ true
    → HeldMore kind rp (hold_page kind rp)
unfolding hold_page can_hold vbar_page_cancel_eviction vbar_retire_complete IsCounted
hold_page-HeldMore kind rp c h = record {
  holds = ground arith;
  kept = ground arith;
  pins = ground arith;
  blocked = λ completed count. ground arith;
}

-- A taken lease, and the pages that are as they were.
pub record Leased (mv nv : XpuVbar) (offset size kind : ℕ) : Type 0 where
  pub in_table : offset + size ≤ mv.nr_pages * vbar_page_size
  pub taken :
      (m : ℕ)
      → m * vbar_page_size < offset + size
      → offset < (m + 1) * vbar_page_size
      → (xpu_page_is_mapped (mv.residency_map m) ≡ true)
        × HeldMore kind (mv.residency_map m) (nv.residency_map m)
  pub outside :
      (m : ℕ)
      → ((m + 1) * vbar_page_size ≤ offset) ⊎ (offset + size ≤ m * vbar_page_size)
      → nv.residency_map m ≡ mv.residency_map m

can_hold-mapped : (kind : ℕ) (rp : XpuPage) → can_hold kind rp ≡ true → xpu_page_is_mapped rp ≡ true
unfolding can_hold
can_hold-mapped kind rp h = elim (Bool-cases (kind == 1)) [
  | inl e ↦ ground arith
  | inr e ↦ ground arith
]

-- A lease is taken on all the pages of its bytes, each mapped and from now on barred from retiring,
-- or nothing changes. The holds are 32-bit counts, and the bytes end a page before the end of the
-- address space, so that rounding up to a page does not wrap.
pub vbar_consumer_acquire-Leased :
    (mv : XpuVbar) (offset size kind : ℕ)
    → ((m : ℕ) → IsCounted (mv.residency_map m))
    → offset + size + vbar_page_size ≤ 2 ^ 64
    → let (ok, nv) = vbar_consumer_acquire mv offset size kind in
      ((ok ≡ false) × (nv ≡ mv)) ⊎ ((ok ≡ true) × Leased mv nv offset size kind)
unfolding vbar_consumer_acquire
vbar_consumer_acquire-Leased mv offset size kind c fits =
    let first = vbar_get_page_nr offset in
    let page_end = vbar_get_page_nr_up (add64 offset size) in
    let count = page_end - first in
    let tests =
      not mv.closing && leb page_end mv.nr_pages && all_pages (can_hold kind) count mv first in
    elim (Bool-cases (size == 0 || ltb (uint64_max - size) offset)) [
      | inl e ↦ rw e (inl (refl, refl))
      | inr e ↦ elim (Bool-cases tests) [
        | inr e2 ↦ rw (e, e2) (inl (refl, refl))
        | inl e2 ↦
            let all : all_pages (can_hold kind) count mv first ≡ true = ground arith in
            let table : page_end ≤ mv.nr_pages = ground arith in
            let ch = each_page-Changed (hold_page kind) count mv first in
            rw (e, e2)
              (inr (
                refl,
                record {
                  in_table = omega arith;
                  taken = λ m l u.
                      let a : first ≤ m = omega arith in
                      let b : m < first + count = omega arith in
                      let h = all_pages-each (can_hold kind) count mv first m all a b in
                      (
                        can_hold-mapped kind (mv.residency_map m) h,
                        subst (λ rp. HeldMore kind (mv.residency_map m) rp) (sym (ch.inside m a b))
                            (hold_page-HeldMore kind (mv.residency_map m) (c m) h),
                      );
                  outside = λ m o. ch.outside m (omega (arith, o));
                },
              ))
      ]
    ]
