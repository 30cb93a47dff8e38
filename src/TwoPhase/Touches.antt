-- ===== src/TwoPhase/Touches.antt =====
-- A page between its freezing and the commit, while the lock of src/model-vbar.c is free and other
-- threads run: what each of them may do to it.
pub mod Fate
use comfy_aimdo_xpu.Base.{
  ℕ, Bool, ◌+◌, Option-cases, arith, ◌≡◌, Bool-cases, ◌==◌, inr, ◌∙◌, true, if◌then◌else◌, false,
  inl, not, refl, leb, length, ◌&&◌, ◌≢◌,
}
use comfy_aimdo_xpu.Retire.{
  hold_page, vbar_page_cancel_eviction, XpuPage, vbar_retire_record, release_hold, set_hold,
  xpu_page_is_mapped, hold_counter, raise_token, max_queues, can_hold, can_release,
}
use comfy_aimdo_xpu.TwoPhase.Consumers.{
  fault_hit, record_consumer, fault_mapped, drop_pin, unpin_consumer, register_page, can_register,
}
use comfy_aimdo_xpu.Devctx.{add64}
use comfy_aimdo_xpu.TwoPhase.Candidates.{cancel_page, freeze_page, Candidate, may_freeze}

-- One critical section of another thread on the page, or a page of this thread's own batch.
pub data Touch : XpuPage → XpuPage → Type 0 where
  touch_hit : (rp : XpuPage) → xpu_page_is_mapped rp ≡ true → Touch rp (fault_hit rp)
  -- a fault that restores a mapping or gets a handle first
  touch_fault :
      (rp : XpuPage) (handle : ℕ)
      → xpu_page_is_mapped rp ≡ false
      → Touch rp (fault_mapped (record rp { handle = handle }))
  touch_rollback : (rp : XpuPage) → Touch rp (drop_pin rp)
  touch_unpin :
      (known async : Bool) (token : ℕ) (rp : XpuPage)
      → Touch rp (unpin_consumer known async token rp)
  touch_register :
      (known async : Bool) (token : ℕ) (rp : XpuPage)
      → Touch rp (register_page known async token rp)
  touch_hold : (kind : ℕ) (rp : XpuPage) → can_hold kind rp ≡ true → Touch rp (hold_page kind rp)
  touch_release :
      (known async : Bool) (token kind : ℕ) (rp : XpuPage)
      → can_release kind rp ≡ true
      → Touch rp (release_hold known async token kind rp)
  touch_cancel : (c : Candidate) (rp : XpuPage) → Touch rp (cancel_page c rp)
  touch_freeze : (rp : XpuPage) → may_freeze rp ≡ true → Touch rp (freeze_page rp)
  -- `mod1` of another commit or of a teardown, which ends an eviction whatever else it does, or a
  -- fault that fails to map a page, which is not in one
  touch_taken :
      (rp rp' : XpuPage)
      → rp'.evicting ≡ false
      → rp'.eviction_generation ≡ rp.eviction_generation
      → Touch rp rp'

-- `Touches rp k rp'`: `k` of them, one after the other.
pub data Touches (rp : XpuPage) : ℕ → XpuPage → Type 0 where
  untouched : Touches rp 0 rp
  then_touch : {k : ℕ} {rq rr : XpuPage} → Touches rp k rq → Touch rq rr → Touches rp (k + 1) rr

-- The ways in which a touch bears on an eviction.
pub record Cancels (rp rp' : XpuPage) : Type 0 where
  pub evicting : rp'.evicting ≡ false
  pub generation :
      rp'.eviction_generation
      ≡ (if rp.evicting then add64 rp.eviction_generation 1 else rp.eviction_generation)

pub record Ends (rp rp' : XpuPage) : Type 0 where
  pub evicting : rp'.evicting ≡ false
  pub generation : rp'.eviction_generation ≡ rp.eviction_generation

pub record Freezes (rp rp' : XpuPage) : Type 0 where
  pub before : rp.evicting ≡ false
  pub generation : rp'.eviction_generation ≡ add64 rp.eviction_generation 1

pub record Drops (rp rp' : XpuPage) : Type 0 where
  pub had_pin : rp.pin_count ≢ 0
  pub evicting : rp'.evicting ≡ rp.evicting
  pub generation : rp'.eviction_generation ≡ rp.eviction_generation

pub data Bears (rp rp' : XpuPage) : Type 0 where
  same : rp' ≡ rp → Bears rp rp'
  drops : Drops rp rp' → Bears rp rp'
  cancels : Cancels rp rp' → Bears rp rp'
  ends : Ends rp rp' → Bears rp rp'
  freezes : Freezes rp rp' → Bears rp rp'

vbar_page_cancel_eviction-Cancels : (rp : XpuPage) → Cancels rp (vbar_page_cancel_eviction rp)
unfolding vbar_page_cancel_eviction
vbar_page_cancel_eviction-Cancels rp = record { evicting = ground arith; generation = ground arith }

-- A change that leaves the eviction alone.
Cancels-after :
    {rp rq : XpuPage} (rr : XpuPage)
    → Cancels rp rq
    → rr.evicting ≡ rq.evicting
    → rr.eviction_generation ≡ rq.eviction_generation
    → Cancels rp rr
Cancels-after rr c e g = record { evicting = e ∙ c.evicting; generation = g ∙ c.generation }

vbar_retire_record-Cancels :
    {rp rq : XpuPage} (token : ℕ) → Cancels rp rq → Cancels rp (vbar_retire_record rq token)
unfolding vbar_retire_record
vbar_retire_record-Cancels {rp} {rq} token c = elim (Bool-cases (token == 0)) [
  | inl e ↦ rw e (Cancels-after _ c refl refl)
  | inr e ↦ elim (Option-cases (raise_token rq.retire_tokens token)) [
    | inr (us, r) ↦ rw (e, r) (Cancels-after _ c refl refl)
    | inl r ↦ elim (Bool-cases (leb max_queues (length rq.retire_tokens))) [
      | inl f ↦ rw (e, r, f) (Cancels-after _ c refl refl)
      | inr f ↦ rw (e, r, f) (Cancels-after _ c refl refl)
    ]
  ]
]

record_consumer-Cancels :
    (known async : Bool) (token : ℕ) (rp : XpuPage)
    → Cancels rp (record_consumer known async token rp)
unfolding record_consumer
record_consumer-Cancels known async token rp =
    let rp1 = vbar_page_cancel_eviction rp in
    let c = vbar_page_cancel_eviction-Cancels rp in
    elim (Bool-cases known) [
      | inr e ↦ elim (Bool-cases (rp1.capture_holds == 0)) [
        | inl f ↦ rw (e, f) (Cancels-after _ c refl refl)
        | inr f ↦ rw (e, f) c
      ]
      | inl e ↦ elim (Bool-cases async) [
        | inl f ↦ rw (e, f) (vbar_retire_record-Cancels token c)
        | inr f ↦ rw (e, f) c
      ]
    ]

set_hold-Cancels :
    {rp rq : XpuPage} (kind holds : ℕ) → Cancels rp rq → Cancels rp (set_hold rq kind holds)
set_hold-Cancels kind holds c = elim (Bool-cases (kind == 1)) [
  | inl e ↦ rw e (Cancels-after _ c refl refl)
  | inr e ↦ elim (Bool-cases (kind == 2)) [
    | inl f ↦ rw (e, f) (Cancels-after _ c refl refl)
    | inr f ↦ rw (e, f) c
  ]
]

hold_page-Cancels : (kind : ℕ) (rp : XpuPage) → Cancels rp (hold_page kind rp)
unfolding hold_page
hold_page-Cancels kind rp =
    let rp1 = vbar_page_cancel_eviction rp in
    let c = vbar_page_cancel_eviction-Cancels rp in
    elim (Option-cases (hold_counter rp1 kind)) [
      | inl e ↦ rw (hold_page, e) c
      | inr (holds, e) ↦ rw (hold_page, e) (set_hold-Cancels kind _ c)
    ]

release_hold-Cancels :
    (known async : Bool) (token kind : ℕ) (rp : XpuPage)
    → Cancels rp (release_hold known async token kind rp)
unfolding release_hold
release_hold-Cancels known async token kind rp =
    let rp1 = vbar_page_cancel_eviction rp in
    let c = vbar_page_cancel_eviction-Cancels rp in
    let rp2 =
      if not known
      then record rp1 { retire_unknown = true }
      else if async
      then vbar_retire_record rp1 token
      else rp1 in
    let c2 : Cancels rp rp2 = elim (Bool-cases known) [
      | inr e ↦ rw e (Cancels-after _ c refl refl)
      | inl e ↦ elim (Bool-cases async) [
        | inl f ↦ rw (e, f) (vbar_retire_record-Cancels token c)
        | inr f ↦ rw (e, f) c
      ]
    ] in
    elim (Option-cases (hold_counter rp2 kind)) [
      | inl e ↦ rw (release_hold, e) c2
      | inr (holds, e) ↦ rw (release_hold, e) (set_hold-Cancels kind _ c2)
    ]

pub Touch-Bears : {rp rp' : XpuPage} → Touch rp rp' → Bears rp rp'
unfolding fault_hit fault_mapped drop_pin unpin_consumer register_page cancel_page freeze_page
Touch-Bears (touch_hit rp m) =
    cancels (Cancels-after _ (vbar_page_cancel_eviction-Cancels rp) refl refl)
Touch-Bears (touch_fault rp handle m) = ends (record { evicting = refl; generation = refl })
Touch-Bears (touch_rollback rp) = elim (Bool-cases (rp.pin_count == 0)) [
  | inl e ↦ rw e (same refl)
  | inr e ↦ rw e (drops (record { had_pin = ground arith; evicting = refl; generation = refl }))
]
Touch-Bears (touch_unpin known async token rp) = elim (Bool-cases (rp.pin_count == 0)) [
  | inl e ↦ rw e (same refl)
  | inr e ↦
      rw e (cancels (Cancels-after _ (record_consumer-Cancels known async token rp) refl refl))
]
Touch-Bears (touch_register known async token rp) = elim (Bool-cases (can_register rp)) [
  | inl e ↦ rw e (cancels (record_consumer-Cancels known async token rp))
  | inr e ↦ rw e (same refl)
]
Touch-Bears (touch_hold kind rp m) = cancels (hold_page-Cancels kind rp)
Touch-Bears (touch_release known async token kind rp m) =
    cancels (release_hold-Cancels known async token kind rp)
Touch-Bears (touch_cancel c rp) =
    elim (Bool-cases (rp.evicting && rp.eviction_generation == c.eviction_generation)) [
      | inl e ↦ rw e (cancels (vbar_page_cancel_eviction-Cancels rp))
      | inr e ↦ rw e (same refl)
    ]
Touch-Bears (touch_freeze rp m) = freezes (record { before = ground arith; generation = refl })
Touch-Bears (touch_taken rp rp' e g) = ends (record { evicting = e; generation = g })
