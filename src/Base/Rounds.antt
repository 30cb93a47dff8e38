-- ===== src/Base/Rounds.antt =====
-- Loops whose body says whether to go on, run on fuel, with their rules.
use Prim.Native.Nat.{ℕ, zero, suc, ◌≤◌, ◌<◌}
use mathlib.Core.Path.{◌≡◌, refl}
use native.Mathlib.Omega.{arith}

pub data Round {ℓ} (S : Type ℓ) : Type ℓ where
  stop go : S → Round S

module _ {ℓ} {S : Type ℓ} where
  abbrev pub after : Round S → S
  after (stop s) = s
  after (go s) = s

  unfoldable pub rounds : ℕ → (S → Round S) → S → S
  rounds zero body s = s
  rounds (suc fuel) body s = elim (body s) [ stop t ↦ t | go t ↦ rounds fuel body t ]

  -- What each round keeps, the loop keeps.
  pub rounds_keep {κ} :
      (P : S → Type κ) (body : S → Round S)
      → ((s : S) → P s → P (after (body s)))
      → (fuel : ℕ) (s : S) → P s
      → P (rounds fuel body s)
  unfolding rounds
  rounds_keep P body keep zero s h = h
  rounds_keep P body keep (suc fuel) s h =
      step (body s) (keep s h) (λ t p. rounds_keep P body keep fuel t p)
    where
      step :
          (r : Round S)
          → P (after r)
          → ((t : S) → P t → P (rounds fuel body t))
          → P (elim r [ stop t ↦ t | go t ↦ rounds fuel body t ])
      step (stop t) p rest = p
      step (go t) p rest = rest t p

  -- With a measure that each further round lowers, and as much fuel, the loop ends where its body
  -- would stop.
  pub rounds_done {κ} :
      (Q : S → Type κ) (measure : S → ℕ) (body : S → Round S)
      → ((s : S) → measure s ≡ 0 → Q s)
      → ((s t : S) → body s ≡ stop t → Q t)
      → ((s t : S) → body s ≡ go t → measure t < measure s)
      → (fuel : ℕ) (s : S) → measure s ≤ fuel
      → Q (rounds fuel body s)
  unfolding rounds
  rounds_done Q measure body none_left stopped less zero s m = none_left s (omega arith)
  rounds_done Q measure body none_left stopped less (suc fuel) s m =
      step (body s) refl (λ t e.
        rounds_done Q measure body none_left stopped less fuel t (omega (arith, less s t e)))
    where
      step :
          (r : Round S)
          → body s ≡ r
          → ((t : S) → body s ≡ go t → Q (rounds fuel body t))
          → Q (elim r [ stop t ↦ t | go t ↦ rounds fuel body t ])
      step (stop t) e rest = stopped s t e
      step (go t) e rest = rest t e

-- What holds after a round that ends the loop, and after one that goes on.
abbrev pub Ends {ℓ κ} : {S : Type ℓ} → (S → Type κ) → (S → Type κ) → Round S → Type κ
Ends P Q (stop t) = Q t
Ends P Q (go t) = P t

-- Total correctness: from `P` the loop reaches `Q`, if each round that goes on keeps `P` and lowers
-- the measure, which is 0 only where `Q` holds.
pub rounds_end {ℓ κ} :
    {S : Type ℓ} (P Q : S → Type κ) (measure : S → ℕ) (body : S → Round S)
    → ((s : S) → P s → measure s ≡ 0 → Q s)
    → ((s : S) → P s → Ends (λ t. P t × (measure t < measure s)) Q (body s))
    → (fuel : ℕ) (s : S) → measure s ≤ fuel
    → P s
    → Q (rounds fuel body s)
unfolding rounds
rounds_end P Q measure body at_zero keep zero s m p = at_zero s p (omega arith)
rounds_end {S} P Q measure body at_zero keep (suc fuel) s m p =
    step (body s) (keep s p)
      (λ t q l. rounds_end P Q measure body at_zero keep fuel t (omega arith) q)
  where
    step :
        (r : Round S)
        → Ends (λ t. P t × (measure t < measure s)) Q r
        → ((t : S) → P t → measure t < measure s → Q (rounds fuel body t))
        → Q (elim r [ stop t ↦ t | go t ↦ rounds fuel body t ])
    step (stop t) q rest = q
    step (go t) q rest = rest t q.0 q.1
