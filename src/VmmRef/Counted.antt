-- ===== src/VmmRef/Counted.antt =====
-- References of src/vmm-ref.c against their counts and the usage.
use comfy_aimdo_xpu.Base.{
  ℕ, Option, List, [], ◌∷◌, ◌∈◌, ◌≡◌, some, length, if◌then◌else◌, ◌==◌, ◌+◌, Bool-cases, none,
  arith, ◌<◌, ◌^◌, inl, ◌%◌, refl, inr, ap, not, ◌&&◌, false, ◌∙◌, ◌≢◌,
}
use comfy_aimdo_xpu.VmmRef.{
  PhysicalAllocation, unlink_page, clear_address, Physical, PhysicalPage, physical_page_unref,
  shares_address,
}
use comfy_aimdo_xpu.Gpu.{Gpu, CuResult, success}
use comfy_aimdo_xpu.Devctx.{sub64}

abbrev pub names : List PhysicalPage → List ℕ
names [] = []
names (p ∷ ps) = p.name ∷ names ps

-- A list without the first `n` in it.
abbrev pub remove_first : ℕ → List ℕ → List ℕ
remove_first n [] = []
remove_first n (m ∷ ms) = if m == n then ms else m ∷ remove_first n ms

abbrev pub names_of : Option PhysicalAllocation → List ℕ
names_of none = []
names_of (some a) = names a.references

-- A live allocation: its count is the number of its references, of which it has one at least, and the
-- usage counts its bytes.
pub record IsLive {W : Type 0} (other : ℕ) (a : PhysicalAllocation) (s : Physical W) : Type 0 where
  pub alive : s.allocation ≡ some a
  pub counted : a.refs ≡ length a.references
  pub referenced : a.references ≢ []
  pub small : (a.refs < 2 ^ 64) × (a.bytes < 2 ^ 64)
  pub charged : s.total_vram_usage ≡ (other + a.bytes) % 2 ^ 64

-- What is left of the allocation `a` with these names, and of the usage.
pub data Left {W : Type 0} (other : ℕ) (a : PhysicalAllocation) (ns : List ℕ) (s : Physical W)
    : Type 0 where
  lives :
      (b : PhysicalAllocation)
      → IsLive other b s
      → (b.handle ≡ a.handle) × (b.bytes ≡ a.bytes)
      → names b.references ≡ ns
      → Left other a ns s
  gone : s.allocation ≡ none → ns ≡ [] → s.total_vram_usage ≡ other % 2 ^ 64 → Left other a ns s

nothing_left : {A : Type 0} (ms : List A) → length ms ≡ 0 → ms ≡ []
nothing_left [] e = refl
nothing_left (m ∷ ms) e = absurd (omega arith)

names-clear_address : (n : ℕ) (ps : List PhysicalPage) → names (clear_address n ps) ≡ names ps
unfolding clear_address
names-clear_address n [] = refl
names-clear_address n (p ∷ ps) = elim (Bool-cases (p.name == n)) [
  | inl e ↦ rw e (ap (λ l. p.name ∷ l) (names-clear_address n ps))
  | inr e ↦ rw e (ap (λ l. p.name ∷ l) (names-clear_address n ps))
]

names-unlink_page :
    (n : ℕ) (ps : List PhysicalPage) → names (unlink_page n ps) ≡ remove_first n (names ps)
unfolding unlink_page
names-unlink_page n [] = refl
names-unlink_page n (p ∷ ps) = elim (Bool-cases (p.name == n)) [
  | inl e ↦ rw e refl
  | inr e ↦ rw e (ap (λ l. p.name ∷ l) (names-unlink_page n ps))
]

length-names : (ps : List PhysicalPage) → length (names ps) ≡ length ps
length-names [] = refl
length-names (p ∷ ps) = omega (arith, length-names ps)

length-remove_first : (n : ℕ) (ms : List ℕ) → n ∈ ms → length (remove_first n ms) + 1 ≡ length ms
length-remove_first n [] i = ground arith
length-remove_first n (m ∷ ms) i = elim (Bool-cases (m == n)) [
  | inl e ↦ rw e (omega arith)
  | inr e ↦ rw e (omega (arith, length-remove_first n ms (ground (arith, i))))
]

-- What an unref of the reference `name` leaves: on success the reference is gone, else it stays.
abbrev pub after_unref : CuResult → ℕ → List ℕ → List ℕ
after_unref result name ns = if result == success then remove_first name ns else ns

module _ {W : Type 0} where
  IsLive-references :
      (other : ℕ) (a : PhysicalAllocation) (s : Physical W) (ps : List PhysicalPage) (w : W)
      → IsLive other a s
      → names ps ≡ names a.references
      → let b = record a { references = ps } in
        IsLive other b (record s { allocation = some b; world = w })
  IsLive-references other a s ps w h e = record {
    alive = refl;
    counted = omega (arith, h.counted, length-names ps, length-names a.references, ap length e);
    referenced = λ f. h.referenced (
        nothing_left _
          (omega (arith, ap length f, length-names ps, length-names a.references, ap length e)));
    small = h.small;
    charged = h.charged;
  }

  IsLive-less :
      (other : ℕ) (a : PhysicalAllocation) (s : Physical W) (name : ℕ) (ps : List PhysicalPage)
      (w : W)
      → IsLive other a s
      → name ∈ names a.references
      → names ps ≡ remove_first name (names a.references)
      → (sub64 a.refs 1 == 0) ≡ false
      → let b = record a { refs = sub64 a.refs 1; references = ps } in
        IsLive other b (record s { allocation = some b; world = w })
  IsLive-less other a s name ps w h i e more =
      let n = length-remove_first name (names a.references) i in
      record {
        alive = refl;
        counted =
            omega (
              arith,
              h.counted,
              length-names ps,
              length-names a.references,
              ap length e,
              n,
              h.small,
            );
        referenced = λ f. absurd (
            ground (
              arith,
              more,
              ap length f,
              h.counted,
              length-names ps,
              length-names a.references,
              ap length e,
              n,
              h.small,
            ));
        small = (omega (arith, h.small), h.small.1);
        charged = h.charged;
      }

module _ {W : Type 0} (gpu : Gpu W) where
  -- From a live allocation, whatever the driver refuses: an unref that succeeds takes its reference
  -- and no other off the list, and one that fails leaves every reference. The allocation and its bytes
  -- in the usage are gone exactly when no reference is left; until then it has a reference at least,
  -- its count is the number of its references and the usage counts its bytes.
  pub physical_page_unref-Left :
      (other : ℕ) (a : PhysicalAllocation) (page : PhysicalPage) (s : Physical W)
      → IsLive other a s
      → page.name ∈ names a.references
      → let (result, t) = physical_page_unref gpu a page s in
        Left other a (after_unref result page.name (names a.references)) t
  unfolding physical_page_unref
  physical_page_unref-Left other a page s h i =
      let unmaps = not (page.address == 0) && not (shares_address page a.references) in
      let (unmapped, w1) = gpu.mem_unmap page.address a.bytes s.world in
      let world1 = if unmaps then w1 else s.world in
      let references1 =
        if page.address == 0 then a.references else clear_address page.name a.references in
      let (released, w2) = gpu.mem_release a.handle world1 in
      let left = sub64 a.refs 1 in
      let same : names references1 ≡ names a.references = elim (Bool-cases (page.address == 0)) [
        | inl e ↦ rw e refl
        | inr e ↦ rw e (names-clear_address page.name a.references)
      ] in
      let n = length-remove_first page.name (names a.references) i in
      let counts = length-names a.references in
      let fewer = names-unlink_page page.name references1 ∙ ap (remove_first page.name) same in
      elim (Bool-cases (unmaps && not (unmapped == success))) [
        | inl e ↦
            let bad : (unmapped == success) ≡ false = ground (arith, e) in
            rw (e, bad)
              (lives a
                (record {
                  alive = h.alive;
                  counted = h.counted;
                  referenced = h.referenced;
                  small = h.small;
                  charged = h.charged;
                })
                (refl, refl) refl)
        | inr e ↦ elim (Bool-cases (a.refs == 1 && not (released == success))) [
          | inl f ↦
              let bad : (released == success) ≡ false = ground (arith, f) in
              rw (e, f, bad)
                (lives _ (IsLive-references other a s references1 w2 h same) (refl, refl) same)
          | inr f ↦ elim (Bool-cases (left == 0)) [
            | inl g ↦
                rw (e, f, g)
                  (gone refl (nothing_left _ (ground (arith, n, counts, h.counted, h.small)))
                    (omega (arith, h.charged, h.small)))
            | inr g ↦
                rw (e, f, g)
                  (lives _
                    (IsLive-less other a s page.name (unlink_page page.name references1) world1 h i
                      fewer g)
                    (refl, refl) fewer)
          ]
        ]
      ]
