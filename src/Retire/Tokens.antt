-- ===== src/Retire/Tokens.antt =====
-- `vbar_retire_record` against `vbar_retire_complete` of src/model-vbar.c.
use comfy_aimdo_xpu.Base.{
  ℕ, ◌≡◌, ◌≤◌, List, [], ◌∷◌, true, some, arith, inl, inr, ◌==◌, Bool-cases, Option-cases, ltb,
  none, sym, ◌++◌, Option, ltb→lt, ltb→le, leb, length,
}
use comfy_aimdo_xpu.Retire.{
  queue_tag, raise_token, token_complete, incarnation_of, all_complete, stamp_of, generation_of,
  vbar_retire_complete, vbar_retire_record, XpuPage, max_queues,
}

-- Tokens of the same queue in the table are of the same incarnation as `token`: a queue's slot is
-- reused only after a teardown of the runtime.
abbrev pub SameEpoch : List ℕ → (token : ℕ) → Type 0
SameEpoch [] token = Unit {0}
SameEpoch (e ∷ es) token =
    (queue_tag e ≡ queue_tag token → incarnation_of (stamp_of e) ≡ incarnation_of (stamp_of token))
    × SameEpoch es token

module _ (completed : ℕ → ℕ) (count : ℕ) where
  -- A queue that has reached a token has reached its earlier ones.
  token_complete-earlier :
      (e t : ℕ)
      → queue_tag e ≡ queue_tag t
      → incarnation_of (stamp_of e) ≡ incarnation_of (stamp_of t)
      → e ≤ t
      → token_complete completed count t ≡ true
      → token_complete completed count e ≡ true
  unfolding token_complete
  token_complete-earlier e t q i l h =
      let g : generation_of (stamp_of e) ≤ generation_of (stamp_of t) = omega arith in
      rw q (ground (arith, g, i))

  -- What a raised table says when all of it is complete.
  abbrev Raised : List ℕ → (token : ℕ) → Option (List ℕ) → Type 0
  Raised ts token none = Unit {0}
  Raised ts token (some us) =
      all_complete completed count us ≡ true
      → (all_complete completed count ts ≡ true) × (token_complete completed count token ≡ true)

  Raised-cons :
      (e token : ℕ) (ts : List ℕ) (r : Option (List ℕ))
      → Raised ts token r
      → Raised (e ∷ ts) token (elim r [ none ↦ none | some us ↦ some (e ∷ us) ])
  unfolding all_complete
  Raised-cons e token ts none f = tt
  Raised-cons e token ts (some us) f = λ h. ground (arith, f)

  raise_token-Raised :
      (ts : List ℕ) (token : ℕ) → SameEpoch ts token → Raised ts token (raise_token ts token)
  unfolding raise_token all_complete
  raise_token-Raised [] token s = tt
  raise_token-Raised (e ∷ ts) token (same, s) = elim (Bool-cases (queue_tag e == queue_tag token)) [
    | inr q ↦
        rw (q, raise_token)
          (Raised-cons e token ts (raise_token ts token) (raise_token-Raised ts token s))
    | inl q ↦
        let tag : queue_tag e ≡ queue_tag token = ground arith in
        elim (Bool-cases (ltb e token)) [
          | inl l ↦
              let earlier =
                token_complete-earlier e token tag (same tag) (omega (arith, ltb→lt _ _ l)) in
              rw (q, raise_token, l) (λ h. ground (arith, earlier))
          | inr l ↦
              let earlier =
                token_complete-earlier token e (sym tag) (sym (same tag)) (ltb→le _ _ l) in
              rw (q, raise_token, l) (λ h. ground (arith, earlier))
        ]
  ]

  all_complete-append_one :
      (ts : List ℕ) (token : ℕ)
      → all_complete completed count (ts ++ (token ∷ [])) ≡ true
      → (all_complete completed count ts ≡ true) × (token_complete completed count token ≡ true)
  unfolding all_complete
  all_complete-append_one [] token h = ground arith
  all_complete-append_one (e ∷ ts) token h = ground (arith, all_complete-append_one ts token)

  -- A page that is complete after a token has been recorded on it was complete before, and the
  -- token itself is complete: no dependency is lost, not even when the table is full or the token
  -- unknown. The table's tokens of the same queue are of the token's incarnation.
  pub vbar_retire_complete-vbar_retire_record :
      (rp : XpuPage) (token : ℕ)
      → SameEpoch rp.retire_tokens token
      → vbar_retire_complete (vbar_retire_record rp token) completed count ≡ true
      → (vbar_retire_complete rp completed count ≡ true)
        × (token_complete completed count token ≡ true)
  unfolding vbar_retire_complete vbar_retire_record
  vbar_retire_complete-vbar_retire_record rp token s h = elim (Bool-cases (token == 0)) [
    | inl z ↦ absurd (ground (arith, rw (z, vbar_retire_record) at h))
    | inr nz ↦ elim (Option-cases (raise_token rp.retire_tokens token)) [
      | inl e ↦ elim (Bool-cases (leb max_queues (length rp.retire_tokens))) [
        | inl full ↦ absurd (ground (arith, rw (nz, vbar_retire_record, e, full) at h))
        | inr room ↦
            let k = rw (nz, vbar_retire_record, e, room) at h in
            ground (arith, k, all_complete-append_one rp.retire_tokens token)
      ]
      | inr (us, e) ↦
          let k = rw (nz, vbar_retire_record, e) at h in
          let r : Raised rp.retire_tokens token (some us) =
            rw e at (raise_token-Raised rp.retire_tokens token s) in
          ground (arith, k, r)
    ]
  ]
