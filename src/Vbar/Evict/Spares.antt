-- ===== src/Vbar/Evict/Spares.antt =====
-- What no reclaim changes: pins, serials, the list of VBARs and their shape; nor the memory of a
-- pinned page.
use comfy_aimdo_xpu.Base.{ℕ, ◌<◌, ◌≤◌, ◌≡◌, refl, ◌∙◌, ◌⊎◌, inl, arith}
use comfy_aimdo_xpu.Devctx.{Vbar, State, page}
use comfy_aimdo_xpu.Vbar.Evict.{release_page, lower_watermark, one_time_dirty}
use comfy_aimdo_xpu.Vbar.Evict.Steps.{
  Step, outside, dirtied, polled, released, lowered, Evicts, here, next,
}

-- The fields of a VBAR that only its owner's calls write.
pub record SameShape (a b : Vbar) : Type 0 where
  pub vbar : a.vbar ≡ b.vbar
  pub nr_pages : a.nr_pages ≡ b.nr_pages
  pub watermark_limit : a.watermark_limit ≡ b.watermark_limit
  pub device : a.device ≡ b.device
  pub pageout_size : a.pageout_size ≡ b.pageout_size
  pub pageout_callback : a.pageout_callback ≡ b.pageout_callback

module _ {W : Type 0} where
  pub step-shape : {t u : State W} → Step t u → (v : ℕ) → SameShape (u.vbars v) (t.vbars v)
  unfolding release_page lower_watermark one_time_dirty
  step-shape (outside w) v = ground arith
  step-shape dirtied v = ground arith
  step-shape (polled c st d w) v = ground arith
  step-shape (released a n i r m p) v = ground arith
  step-shape (lowered a i l) v = ground arith

  step-pin :
      {t u : State W} → Step t u → (v n : ℕ) → (page u v n).pin_count ≡ (page t v n).pin_count
  unfolding release_page lower_watermark one_time_dirty
  step-pin (outside w) v n = refl
  step-pin dirtied v n = refl
  step-pin (polled c st d w) v n = refl
  step-pin (released a m i r h p) v n = ground arith
  step-pin (lowered a i l) v n = ground arith

  step-serial : {t u : State W} → Step t u → (v n : ℕ) → (page u v n).serial ≡ (page t v n).serial
  unfolding release_page lower_watermark one_time_dirty
  step-serial (outside w) v n = refl
  step-serial dirtied v n = refl
  step-serial (polled c st d w) v n = refl
  step-serial (released a m i r h p) v n = ground arith
  step-serial (lowered a i l) v n = ground arith

  -- A page is mapped as it was, or it has lost its memory and was not pinned.
  step-handle :
      {t u : State W}
      → Step t u
      → (v n : ℕ)
      → ((page u v n).handle ≡ (page t v n).handle)
        ⊎ (((page u v n).handle ≡ 0) × ((page t v n).pin_count ≡ 0))
  unfolding release_page lower_watermark one_time_dirty
  step-handle (outside w) v n = inl refl
  step-handle dirtied v n = inl refl
  step-handle (polled c st d w) v n = inl refl
  step-handle (released a m i r h p) v n = ground arith
  step-handle (lowered a i l) v n = ground arith

  pub step-order : {t u : State W} → Step t u → u.order ≡ t.order
  unfolding release_page lower_watermark one_time_dirty
  step-order (outside w) = refl
  step-order dirtied = refl
  step-order (polled c st d w) = refl
  step-order (released a m i r h p) = refl
  step-order (lowered a i l) = refl

  -- A watermark falls, and not below its limit.
  step-watermark :
      {t u : State W}
      → Step t u
      → (v : ℕ)
      → ((u.vbars v).watermark ≡ (t.vbars v).watermark)
        ⊎ (((u.vbars v).watermark < (t.vbars v).watermark)
            × ((t.vbars v).watermark_limit ≤ (u.vbars v).watermark))
  unfolding release_page lower_watermark one_time_dirty
  step-watermark (outside w) v = inl refl
  step-watermark dirtied v = inl refl
  step-watermark (polled c st d w) v = inl refl
  step-watermark (released a m i r h p) v = ground arith
  step-watermark (lowered a i l) v = ground arith

  -- The same over a whole reclaim.
  pub Evicts-shape : {s t : State W} → Evicts s t → (v : ℕ) → SameShape (t.vbars v) (s.vbars v)
  Evicts-shape here v = ground arith
  Evicts-shape (next p st) v = ground (arith, Evicts-shape p v, step-shape st v)

  pub Evicts-pin :
      {s t : State W} → Evicts s t → (v n : ℕ) → (page t v n).pin_count ≡ (page s v n).pin_count
  Evicts-pin here v n = refl
  Evicts-pin (next p st) v n = step-pin st v n ∙ Evicts-pin p v n

  pub Evicts-serial :
      {s t : State W} → Evicts s t → (v n : ℕ) → (page t v n).serial ≡ (page s v n).serial
  Evicts-serial here v n = refl
  Evicts-serial (next p st) v n = step-serial st v n ∙ Evicts-serial p v n

  pub Evicts-order : {s t : State W} → Evicts s t → t.order ≡ s.order
  Evicts-order here = refl
  Evicts-order (next p st) = step-order st ∙ Evicts-order p

  -- A page keeps its memory, or loses it and was not pinned.
  pub Evicts-handle :
      {s t : State W}
      → Evicts s t
      → (v n : ℕ)
      → ((page t v n).handle ≡ (page s v n).handle)
        ⊎ (((page t v n).handle ≡ 0) × ((page s v n).pin_count ≡ 0))
  Evicts-handle here v n = inl refl
  Evicts-handle (next p st) v n =
      ground (arith, Evicts-handle p v n, step-handle st v n, Evicts-pin p v n)

  -- A watermark that has moved has fallen, and not below its limit.
  pub Evicts-watermark :
      {s t : State W}
      → Evicts s t
      → (v : ℕ)
      → ((t.vbars v).watermark ≡ (s.vbars v).watermark)
        ⊎ (((t.vbars v).watermark < (s.vbars v).watermark)
            × ((s.vbars v).watermark_limit ≤ (t.vbars v).watermark))
  Evicts-watermark here v = inl refl
  Evicts-watermark (next p st) v =
      ground (arith, Evicts-watermark p v, step-watermark st v, Evicts-shape p v)
