-- ===== src/Vbar/Surplus/Paid.antt =====
-- What `spend_surplus_on_cursor` of src/model-vbar.c pays for.
use comfy_aimdo_xpu.Vbar.Surplus.Cursor.{move_cursor_to_absent-Stopped}
use comfy_aimdo_xpu.Vbar.Surplus.{spend_surplus_on_cursor, spend_round, move_cursor_to_absent}
use comfy_aimdo_xpu.Devctx.{Vbar, Page}
use comfy_aimdo_xpu.Base.{
  ℕ, suc, ◌≤◌, ◌≡◌, after, rounds_keep, ◌+◌, ◌<◌, not, arith, if◌then◌else◌, ◌-◌, zero, ◌==◌, ◌≢◌,
  inl, ◌*◌, inr, ap, ◌&&◌, Bool-cases, ltb, ◌⊎◌,
}
use comfy_aimdo_xpu.Base.Int.{ℤ, pos_part, ◌+ℤ◌, ltb_ℤ, pos, +ℤ_parts, neg_part, -ℤ_parts}
use comfy_aimdo_xpu.Vbar.Pages.{vbar_page_size}

-- The pages without memory among the first `n`.
abbrev pub absent : (ℕ → Page) → ℕ → ℕ
absent pages zero = 0
absent pages (suc n) = (if (pages n).handle == 0 then 1 else 0) + absent pages n

-- No page of `after` has memory that has none in `before`.
pub record Fewer (before after : ℕ → Page) : Type 0 where
  pub gone : (m : ℕ) → (before m).handle ≡ 0 → (after m).handle ≡ 0

absent-Fewer :
    {before after : ℕ → Page} (n : ℕ) → Fewer before after → absent before n ≤ absent after n
absent-Fewer zero h = omega arith
absent-Fewer (suc n) h = ground (arith, absent-Fewer n h, h.gone n)

absent-mapped :
    (pages : ℕ → Page) (from to : ℕ)
    → from ≤ to
    → ((m : ℕ) → from ≤ m → m < to → (pages m).handle ≢ 0)
    → absent pages to ≡ absent pages from
absent-mapped pages from zero l h = let e : zero ≡ from = omega arith in ap (absent pages) e
absent-mapped pages from (suc to) l h = elim (Bool-cases (from == suc to)) [
  | inl e ↦ let same : suc to ≡ from = ground (arith, e) in ap (absent pages) same
  | inr e ↦
      let r = absent-mapped pages from to (ground (arith, e)) (λ m a b. h m a (omega arith)) in
      ground (arith, e, r, h to)
]

-- With `n` pages freed, the cursor `c` of `mv` has come past as many absent pages as have been paid
-- for: at least those absent in `before`, at most those absent now; the surplus is what is left.
pub record Paid (before : ℕ → Page) (mv : Vbar) (surplus0 : ℤ) (n c : ℕ) (surplus : ℤ)
    : Type 0 where
  pub passed : ℕ
  pub low : absent before c ≤ passed
  pub high : passed ≤ absent mv.residency_map c
  pub balance :
      pos_part surplus + passed * vbar_page_size + neg_part surplus0
      ≡ neg_part surplus + n * vbar_page_size + pos_part surplus0
  pub stands : (mv.watermark ≤ c) ⊎ ((mv.residency_map c).handle ≡ 0)
  pub fewer : Fewer before mv.residency_map

pub Paid-start :
    (mv : Vbar) (surplus : ℤ)
    → Paid mv.residency_map mv surplus 0 (move_cursor_to_absent mv 0) surplus
Paid-start mv surplus =
    let s = move_cursor_to_absent-Stopped mv 0 (omega arith) in
    let z =
      absent-mapped mv.residency_map 0 (move_cursor_to_absent mv 0) (omega arith)
        s.reached.passed in
    record {
      passed = 0;
      low = omega (arith, z);
      high = omega arith;
      balance = omega arith;
      stands = ground (arith, s.at);
      fewer = record { gone = λ m h. h };
    }

pub Paid-Freed :
    {before : ℕ → Page} {mv : Vbar} {surplus0 surplus : ℤ} (n c : ℕ)
    → Paid before mv surplus0 n c surplus
    → Paid before mv surplus0 (n + 1) c (surplus +ℤ pos vbar_page_size)
Paid-Freed {before} {mv} {surplus0} {surplus} n c p = record {
  passed = p.passed;
  low = p.low;
  high = p.high;
  balance = omega (arith, p.balance, +ℤ_parts surplus (pos vbar_page_size));
  stands = p.stands;
  fewer = p.fewer;
}

pub Paid-Fewer :
    {before : ℕ → Page} {mv mv2 : Vbar} {surplus0 surplus : ℤ} (n c : ℕ)
    → Fewer mv.residency_map mv2.residency_map
    → mv2.watermark ≤ mv.watermark
    → Paid before mv surplus0 n c surplus
    → Paid before mv2 surplus0 n c surplus
Paid-Fewer n c f l p = record {
  passed = p.passed;
  low = p.low;
  high = omega (arith, p.high, absent-Fewer c f);
  balance = p.balance;
  stands = elim p.stands [ inl w ↦ inl (omega arith) | inr z ↦ inr (f.gone c z) ];
  fewer = record { gone = λ m h. f.gone m (p.fewer.gone m h) };
}

spend_round-Paid :
    {before : ℕ → Page} {mv : Vbar} {surplus0 : ℤ} (n target : ℕ) (k : ℕ × ℤ)
    → Paid before mv surplus0 n k.0 k.1
    → let t = after (spend_round mv target k) in Paid before mv surplus0 n t.0 t.1
unfolding spend_round
spend_round-Paid {before} {mv} {surplus0} n target (c, surplus) p =
    let test = not (ltb_ℤ surplus (pos vbar_page_size)) && ltb c target && ltb c mv.watermark in
    elim (Bool-cases test) [
      | inr e ↦ rw e p
      | inl e ↦
          let l : c < mv.watermark = ground (arith, e) in
          let to = move_cursor_to_absent mv (c + 1) in
          let s = move_cursor_to_absent-Stopped mv (c + 1) (omega arith) in
          let now = absent-mapped mv.residency_map (c + 1) to s.reached.on s.reached.passed in
          let once =
            absent-mapped before (c + 1) to s.reached.on
              (λ m a b z. s.reached.passed m a b (p.fewer.gone m z)) in
          let here : (mv.residency_map c).handle ≡ 0 = ground (arith, p.stands, l) in
          rw e (record {
            passed = p.passed + 1;
            low = ground (arith, p.low, once);
            high = ground (arith, p.high, now, here);
            balance = omega (arith, p.balance, -ℤ_parts surplus (pos vbar_page_size));
            stands = ground (arith, s.at);
            fewer = p.fewer;
          })
    ]

pub spend_surplus_on_cursor-Paid :
    {before : ℕ → Page} {mv : Vbar} {surplus0 surplus : ℤ} (n target c : ℕ)
    → Paid before mv surplus0 n c surplus
    → let t = spend_surplus_on_cursor mv target c surplus in Paid before mv surplus0 n t.0 t.1
unfolding spend_surplus_on_cursor
spend_surplus_on_cursor-Paid {before} {mv} {surplus0} {surplus} n target c p =
    rounds_keep (λ (k : ℕ × ℤ). Paid before mv surplus0 n k.0 k.1) (spend_round mv target)
      (λ k q. spend_round-Paid n target k q) (mv.watermark - c) (c, surplus) p
