-- ===== src/Vbar/Invariant.antt =====
-- What holds of the VBARs between calls: the counts agree with the page tables, and the recorded
-- usage with the counts.
use comfy_aimdo_xpu.Base.{
  ℕ, zero, suc, ◌+◌, ◌*◌, ◌%◌, ◌^◌, ◌≤◌, ◌<◌, ◌≡◌, refl, arith, if◌then◌else◌, update, ◌∈◌,
  Distinct, sum_over, List, sum_over-pointwise,
}
use comfy_aimdo_xpu.Devctx.{Page, Vbar, State, page, set_page}
use comfy_aimdo_xpu.Vbar.Pages.{vbar_page_size, vbar_page_is_mapped}

-- The mapped pages among the first `n`.
abbrev pub count_mapped : (ℕ → Page) → ℕ → ℕ
count_mapped pages zero = 0
count_mapped pages (suc n) = (if vbar_page_is_mapped (pages n) then 1 else 0) + count_mapped pages n

pub record IsValid (mv : Vbar) : Type 0 where
  pub within : mv.watermark ≤ mv.nr_pages
  pub fits : mv.nr_pages * vbar_page_size < 2 ^ 64
  pub counted : mv.resident_count ≡ count_mapped mv.residency_map mv.nr_pages

-- `other` is what the usage counts beside VBAR pages: buffers and allocations.
pub record Inv {W : Type 0} (other : ℕ) (s : State W) : Type 0 where
  pub distinct : Distinct s.order
  pub valid : (v : ℕ) → v ∈ s.order → IsValid (s.vbars v)
  pub accounted :
      s.total_vram_usage
      ≡ (other + vbar_page_size * sum_over (λ v. (s.vbars v).resident_count) s.order) % 2 ^ 64

-- A page table that differs at one page differs in its count by that page.
pub count_mapped-update_out :
    (pages : ℕ → Page) (i : ℕ) (rp : Page) (n : ℕ)
    → n ≤ i
    → count_mapped (update pages i rp) n ≡ count_mapped pages n
count_mapped-update_out pages i rp zero h = refl
count_mapped-update_out pages i rp (suc n) h = ground (arith, count_mapped-update_out pages i rp n)

pub count_mapped-update :
    (pages : ℕ → Page) (i : ℕ) (rp : Page) (n : ℕ)
    → i < n
    → count_mapped (update pages i rp) n + (if vbar_page_is_mapped (pages i) then 1 else 0)
      ≡ count_mapped pages n + (if vbar_page_is_mapped rp then 1 else 0)
count_mapped-update pages i rp zero h = elim h [ ]
count_mapped-update pages i rp (suc n) h =
    ground (arith, count_mapped-update pages i rp n, count_mapped-update_out pages i rp n)

pub count_mapped-le : (pages : ℕ → Page) (n : ℕ) → count_mapped pages n ≤ n
count_mapped-le pages zero = omega arith
count_mapped-le pages (suc n) = ground (arith, count_mapped-le pages n)

pub count_mapped-same :
    (f g : ℕ → Page) (n : ℕ)
    → ((m : ℕ) → (g m).handle ≡ (f m).handle)
    → count_mapped g n ≡ count_mapped f n
count_mapped-same f g zero h = refl
count_mapped-same f g (suc n) h = ground (arith, h n, count_mapped-same f g n h)

-- Writing a page with its old handle changes no count.
pub Inv-set_page :
    {W : Type 0} (other : ℕ) (s : State W) (v n : ℕ) (rp : Page)
    → rp.handle ≡ (page s v n).handle
    → Inv other s
    → Inv other (set_page s v n rp)
Inv-set_page {W} other s v n rp e h = record {
  distinct = h.distinct;
  valid = λ u i. valid_at u (h.valid u i);
  accounted = ground (arith, h.accounted, same_sum s.order);
}
  where
    counts :
        (k : ℕ)
        → count_mapped (update (s.vbars v).residency_map n rp) k
          ≡ count_mapped (s.vbars v).residency_map k
    counts k =
        count_mapped-same (s.vbars v).residency_map (update (s.vbars v).residency_map n rp) k
          (λ m. ground arith)

    valid_at : (u : ℕ) → IsValid (s.vbars u) → IsValid ((set_page s v n rp).vbars u)
    valid_at u g = ground (arith, counts (s.vbars v).nr_pages)

    same_sum :
        (ps : List ℕ)
        → sum_over (λ u. ((set_page s v n rp).vbars u).resident_count) ps
          ≡ sum_over (λ u. (s.vbars u).resident_count) ps
    same_sum ps =
        sum_over-pointwise (λ u. (s.vbars u).resident_count)
          (λ u. ((set_page s v n rp).vbars u).resident_count) ps (λ u. ground arith)
