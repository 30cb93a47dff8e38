-- ===== src/TwoPhase/Reclaim/Requests.antt =====
-- Pressure published while other threads publish theirs: `vbars_request_reclaim` of
-- src/model-vbar.c.
use comfy_aimdo_xpu.Base.{
  ℕ, List, ◌≤◌, ◌≡◌, ◌∈◌, ◌⊎◌, Ends, length, ◌+◌, ◌<◌, Bool-cases, ltb, inr, arith, inl, ◌==◌, true,
  [], ◌∷◌, refl, false, rounds, ◌≢◌, max, rounds_end,
}
use comfy_aimdo_xpu.TwoPhase.Reclaim.{request_round, Pressure, vbars_request_reclaim}
use comfy_aimdo_xpu.Base.Int.{ℤ, pos_part}

-- Where the loop is: the pressure is what was read last, and is this call's own, what it found, or
-- what another thread has stored.
record IsRead (found : List ℕ) (p : Pressure) : Type 0 where
  read : p.requested ≡ p.current
  from : p.requested ∈ found
  rest : (stored : ℕ) → stored ∈ p.others → stored ∈ found

pub record Published (found : List ℕ) (size requested : ℕ) : Type 0 where
  pub enough : size ≤ requested
  pub whose : (requested ≡ size) ⊎ (requested ∈ found)

module _ (found : List ℕ) (size : ℕ) where
  -- What a round from `p` must do.
  abbrev GoesOn : Pressure → Type 0
  GoesOn p =
      Ends (λ t. IsRead found t × (length t.others + 1 < length p.others + 1))
        (λ t. Published found size t.requested) (request_round size p)

  enough_already : (p : Pressure) → ltb p.current size ≡ false → IsRead found p → GoesOn p
  unfolding request_round
  enough_already p f h = rw f (record { enough = ground (arith, h.read); whose = inr h.from })

  request_round-GoesOn :
      (requested current : ℕ) (others : List ℕ)
      → let p : Pressure = record { requested = requested; current = current; others = others } in
        IsRead found p → GoesOn p
  unfolding request_round
  request_round-GoesOn requested current [] h = elim (Bool-cases (ltb current size)) [
    | inr f ↦ enough_already _ f h
    | inl f ↦
        let same : (requested == current) ≡ true = ground (arith, h.read) in
        rw (f, same) (record { enough = omega arith; whose = inl refl })
  ]
  request_round-GoesOn requested current (o ∷ os) h = elim (Bool-cases (ltb current size)) [
    | inr f ↦ enough_already _ f h
    | inl f ↦ elim (Bool-cases (o == current)) [
      | inl g ↦ rw (f, g) (record { enough = omega arith; whose = inl refl })
      | inr g ↦
          rw (f, g)
            ((
              record {
                read = refl;
                from = h.rest o (ground arith);
                rest = λ x i. h.rest x (ground (arith, i));
              },
              omega arith,
            ))
    ]
  ]

undisturbed :
    (size requested : ℕ)
    → (rounds 1
        (request_round size)
        (record { requested = requested; current = requested; others = [] })).requested
      ≡ max requested size
unfolding rounds request_round
undisturbed size requested = elim (Bool-cases (ltb requested size)) [
  | inl f ↦
      let same : (requested == requested) ≡ true = ground arith in
      rw (rounds, request_round, f, same) (ground arith)
  | inr f ↦ rw (rounds, request_round, f) (ground arith)
]

-- However other threads store into the pressure between this call's reads and exchanges, the call
-- ends and its request is not lost: the pressure is then at least its size, and is that size or
-- what was there or was stored by another thread. Undisturbed, it is the larger of the two. The
-- context is set and the size positive.
pub vbars_request_reclaim-Published :
    (size : ℤ) (requested : ℕ) (others : List ℕ)
    → pos_part size ≢ 0
    → let result = vbars_request_reclaim true size requested others in
      Published (requested ∷ others) (pos_part size) result
      × (vbars_request_reclaim true size requested [] ≡ max requested (pos_part size))
unfolding vbars_request_reclaim rounds request_round
vbars_request_reclaim-Published size requested others nz =
    let n = pos_part size in
    let found = requested ∷ others in
    let start : Pressure = record { requested = requested; current = requested; others = others } in
    (
      rw (ne) (
          rounds_end (IsRead found) (λ t. Published found n t.requested) (λ p. length p.others + 1)
            (request_round n) (λ p h z. absurd (omega arith))
            (λ p h. request_round-GoesOn found n p.requested p.current p.others h)
            (length others + 1) start (omega arith)
            (record { read = refl; from = ground arith; rest = λ x i. ground (arith, i) })),
      rw ne (undisturbed n requested),
    )
  where
    ne : (pos_part size == 0) ≡ false
    ne = ground arith
