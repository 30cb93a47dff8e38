-- ===== src/Vbar/Lifecycle/Listing.antt =====
-- The list of VBARs with one taken out or put in: what it names, and sums along it.
use comfy_aimdo_xpu.Base.{
  ℕ, ◌+◌, ◌≡◌, ◌≢◌, arith, List, [], ◌∷◌, ◌++◌, Distinct, sum_over, refl, ◌∈◌, ◌∉◌, Bool-cases, has,
  ◌==◌, ◌||◌, inl, inr,
}
use comfy_aimdo_xpu.Vbar.Lifecycle.{without}

pub has-without : (v u : ℕ) (ps : List ℕ) → u ≢ v → has u (without v ps) ≡ has u ps
has-without v u [] h = refl
has-without v u (p ∷ ps) h = ground (arith, has-without v u ps h)

pub without_gone : (v : ℕ) (ps : List ℕ) → v ∉ without v ps
without_gone v [] = refl
without_gone v (p ∷ ps) = ground (arith, without_gone v ps)

pub has-without_of : (v u : ℕ) (ps : List ℕ) → u ∈ without v ps → u ∈ ps
has-without_of v u [] h = h
has-without_of v u (p ∷ ps) h = ground (arith, has-without_of v u ps)

without_absent : (v u : ℕ) (ps : List ℕ) → u ∉ ps → u ∉ without v ps
without_absent v u [] h = refl
without_absent v u (p ∷ ps) h = ground (arith, without_absent v u ps)

pub Distinct-without : (v : ℕ) (ps : List ℕ) → Distinct ps → Distinct (without v ps)
Distinct-without v [] d = tt
Distinct-without v (p ∷ ps) (n, d) = elim (Bool-cases (p == v)) [
  | inl e ↦ rw (e, without) (Distinct-without v ps d)
  | inr e ↦ rw (e, without) (without_absent v p ps n, Distinct-without v ps d)
]

without_same : (v : ℕ) (ps : List ℕ) → v ∉ ps → without v ps ≡ ps
without_same v [] h = refl
without_same v (p ∷ ps) h = ground (arith, without_same v ps)

pub sum_over-without :
    (f : ℕ → ℕ) (v : ℕ) (ps : List ℕ)
    → Distinct ps
    → v ∈ ps
    → sum_over f (without v ps) + f v ≡ sum_over f ps
sum_over-without f v [] d i = absurd (ground arith)
sum_over-without f v (p ∷ ps) (n, d) i = elim (Bool-cases (p == v)) [
  | inl e ↦
      let same : p ≡ v = ground arith in
      let gone : v ∉ ps = rw same at n in
      rw (e, without, without_same v ps gone) (ground (arith, same))
  | inr e ↦ rw (e, without) (ground (arith, sum_over-without f v ps d))
]

pub has-append_one : (v u : ℕ) (ps : List ℕ) → has u (ps ++ (v ∷ [])) ≡ has u ps || v == u
has-append_one v u [] = ground arith
has-append_one v u (p ∷ ps) = ground (arith, has-append_one v u ps)

pub Distinct-append_one : (v : ℕ) (ps : List ℕ) → Distinct ps → v ∉ ps → Distinct (ps ++ (v ∷ []))
Distinct-append_one v [] d n = (refl, tt)
Distinct-append_one v (p ∷ ps) (m, d) n =
    (ground (arith, has-append_one v p ps), Distinct-append_one v ps d (ground arith))

pub sum_over-append_one :
    (f : ℕ → ℕ) (v : ℕ) (ps : List ℕ) → sum_over f (ps ++ (v ∷ [])) ≡ sum_over f ps + f v
sum_over-append_one f v [] = omega arith
sum_over-append_one f v (p ∷ ps) = omega (arith, sum_over-append_one f v ps)

pub relisted : (v u : ℕ) (ps : List ℕ) → v ∈ ps → has u (without v ps ++ (v ∷ [])) ≡ has u ps
relisted v u ps i = elim (Bool-cases (v == u)) [
  | inl e ↦ ground (arith, has-append_one v u (without v ps))
  | inr e ↦ ground (arith, has-append_one v u (without v ps), has-without v u ps (ground arith))
]

pub relisted_last : (v u : ℕ) (ps : List ℕ) → v ∈ ps → has u (v ∷ without v ps) ≡ has u ps
relisted_last v u ps i = elim (Bool-cases (v == u)) [
  | inl e ↦ ground arith
  | inr e ↦ ground (arith, has-without v u ps (ground arith))
]
