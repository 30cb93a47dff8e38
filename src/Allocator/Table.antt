-- ===== src/Allocator/Table.antt =====
-- `account_alloc` and `account_free` of src/pyt-cu-plug-alloc-async.c against a map from addresses to the
-- sizes that are outstanding there.
use comfy_aimdo_xpu.Base.{
  none, some, ℕ, List, if◌then◌else◌, [], ◌∷◌, ◌==◌, Option, Bool-cases, ◌≡◌, inl, some, ◌≢◌, arith,
  inr, refl, false, ap, true, Bool, subst, update, update_self, ◌∙◌, sym, ◌%◌, ◌^◌, ◌<◌,
}
use comfy_aimdo_xpu.Allocator.{
  Allocations, unlink, size_hash, SizeEntry, accounted_alloc_size, account_alloc, account_free,
}
use comfy_aimdo_xpu.Devctx.{sub64, add64}

-- What the table promises: for each address the sizes entered and not yet taken out, latest first.
abbrev pub Outstanding : Type 0
Outstanding = ℕ → List ℕ

abbrev pub enter : (ptr size : ℕ) → Outstanding → Outstanding
enter ptr size m p = if ptr == p then size ∷ m p else m p

abbrev pub drop_first : List ℕ → List ℕ
drop_first [] = []
drop_first (size ∷ rest) = rest

abbrev pub take_out : (ptr : ℕ) → Outstanding → Outstanding
take_out ptr m p = if ptr == p then drop_first (m p) else m p

-- The usage without the first of some sizes.
abbrev pub without_first : List ℕ → (usage : ℕ) → ℕ
without_first [] usage = usage
without_first (size ∷ rest) usage = sub64 usage (accounted_alloc_size size)

-- How a table of chains stands for such a map.
abbrev pub sizes_in : List SizeEntry → ℕ → List ℕ
sizes_in [] p = []
sizes_in (entry ∷ rest) p = if entry.ptr == p then entry.size ∷ sizes_in rest p else sizes_in rest p

abbrev pub outstanding : {W : Type 0} → Allocations W → Outstanding
outstanding a p = sizes_in (a.size_table (size_hash p)) p

-- What the search in a chain finds.
abbrev Unlinked : (ptr : ℕ) → List SizeEntry → Option (ℕ × List SizeEntry) → Type 0
Unlinked ptr chain none = sizes_in chain ptr ≡ []
Unlinked ptr chain (some (size, rest)) =
    (sizes_in chain ptr ≡ size ∷ sizes_in rest ptr)
    × ((p : ℕ) → p ≢ ptr → sizes_in rest p ≡ sizes_in chain p)

Unlinked-cons :
    (ptr : ℕ) (entry : SizeEntry) (rest : List SizeEntry) (found : Option (ℕ × List SizeEntry))
    → (entry.ptr == ptr) ≡ false
    → Unlinked ptr rest found
    → Unlinked ptr
        (entry ∷ rest)
        (elim found [ none ↦ none | some (size, chain) ↦ some (size, entry ∷ chain) ])
Unlinked-cons ptr entry rest none e h = rw e h
Unlinked-cons ptr entry rest (some (size, chain)) e h = (
  rw e h.0,
  λ p ne. elim (Bool-cases (entry.ptr == p)) [
    | inl f ↦ rw f (ap (λ l. entry.size ∷ l) (h.1 p ne))
    | inr f ↦ rw f (h.1 p ne)
  ],
)

unlink-Unlinked : (ptr : ℕ) (chain : List SizeEntry) → Unlinked ptr chain (unlink ptr chain)
unfolding unlink
unlink-Unlinked ptr [] = refl
unlink-Unlinked ptr (entry ∷ rest) = elim (Bool-cases (entry.ptr == ptr)) [
  | inl e ↦ rw e (rw e refl, λ p ne. ground (arith, ne))
  | inr e ↦ rw e (Unlinked-cons ptr entry rest (unlink ptr rest) e (unlink-Unlinked ptr rest))
]

-- A bucket that is exchanged for one that has the same of `p` changes nothing for `p`.
sizes_in-update :
    (table : ℕ → List SizeEntry) (h : ℕ) (chain : List SizeEntry) (p q : ℕ)
    → sizes_in chain p ≡ sizes_in (table h) p
    → sizes_in (update table h chain q) p ≡ sizes_in (table q) p
sizes_in-update table h chain p q e = elim (Bool-cases (h == q)) [
  | inl f ↦
      let same : h ≡ q = ground arith in
      subst (λ k. sizes_in (update table h chain k) p ≡ sizes_in (table k) p) same
        (ap (λ c. sizes_in c p) (update_self table h chain) ∙ e)
  | inr f ↦ rw f refl
]

pub accounted_alloc_size-fits : (size : ℕ) → accounted_alloc_size size < 2 ^ 64
unfolding accounted_alloc_size
accounted_alloc_size-fits size = ground arith

returned : (u n : ℕ) → n < 2 ^ 64 → sub64 (add64 u n) n ≡ u % 2 ^ 64
returned u n l = omega arith

module _ {W : Type 0} where
  -- The allocations stand for the map `m`, with a usage.
  pub record Refines (b : Allocations W) (m : Outstanding) (charged : ℕ) : Type 0 where
    pub entries : (p : ℕ) → outstanding b p ≡ m p
    pub usage : b.context.total_vram_usage ≡ charged

  account_alloc-Refines :
      (made : Bool) (ptr size : ℕ) (a : Allocations W)
      → Refines
          (account_alloc made ptr size a)
          (if made then enter ptr size (outstanding a) else outstanding a)
          (add64 a.context.total_vram_usage (accounted_alloc_size size))
  unfolding account_alloc
  account_alloc-Refines false ptr size a = record { entries = λ p. refl; usage = refl }
  account_alloc-Refines true ptr size a =
      let h = size_hash ptr in
      let chain : List SizeEntry = record { ptr = ptr; size = size } ∷ a.size_table h in
      record {
        entries = λ p. elim (Bool-cases (ptr == p)) [
          | inl e ↦
              let same : ptr ≡ p = ground arith in
              let self : (ptr == ptr) ≡ true = ground arith in
              subst
                (λ q.
                  sizes_in (update a.size_table h chain (size_hash q)) q
                  ≡ enter ptr size (outstanding a) q)
                same (ap (λ c. sizes_in c ptr) (update_self a.size_table h chain) ∙ rw self refl)
          | inr e ↦ rw e (sizes_in-update a.size_table h chain p (size_hash p) (rw e refl))
        ];
        usage = refl;
      }

  account_free-Refines :
      (ptr : ℕ) (a : Allocations W)
      → Refines
          (account_free ptr a)
          (take_out ptr (outstanding a))
          (without_first (outstanding a ptr) a.context.total_vram_usage)
  unfolding account_free
  account_free-Refines ptr a =
      let h = size_hash ptr in
      taken (unlink ptr (a.size_table h)) refl (unlink-Unlinked ptr (a.size_table h))
    where
      taken :
          (found : Option (ℕ × List SizeEntry))
          → unlink ptr (a.size_table (size_hash ptr)) ≡ found
          → Unlinked ptr (a.size_table (size_hash ptr)) found
          → Refines
              (account_free ptr a)
              (take_out ptr (outstanding a))
              (without_first (outstanding a ptr) a.context.total_vram_usage)
      taken none e z =
          rw (account_free, e)
            (record {
              entries = λ p. elim (Bool-cases (ptr == p)) [
                | inl f ↦
                    let same : ptr ≡ p = ground arith in
                    rw f
                      (subst (λ q. outstanding a q ≡ drop_first (outstanding a q)) same (rw z refl))
                | inr f ↦ rw f refl
              ];
              usage = rw z refl;
            })
      taken (some (n, chain)) e (now, others) =
          rw (account_free, e)
            (record {
              entries = λ p. elim (Bool-cases (ptr == p)) [
                | inl f ↦
                    let same : ptr ≡ p = ground arith in
                    rw f (
                      subst
                        (λ q.
                          sizes_in (update a.size_table (size_hash ptr) chain (size_hash q)) q
                          ≡ drop_first (outstanding a q))
                        same
                        (ap (λ c. sizes_in c ptr) (update_self a.size_table (size_hash ptr) chain)
                          ∙ sym (ap drop_first now)))
                | inr f ↦ rw f (
                    sizes_in-update a.size_table (size_hash ptr) chain p (size_hash p)
                      (others p (ground arith)))
              ];
              usage = rw now refl;
            })

  -- What `account_alloc` and `account_free` do to the hash table is what the map does: an allocation
  -- enters its size at its address (or nothing, where there was no memory for the entry) and charges
  -- the accounted size; a free takes the latest size out at its address and gives back what was
  -- charged for it, and does nothing where there is none. No other address sees either.
  pub account-Refines :
      (made : Bool) (ptr size : ℕ) (a : Allocations W)
      → Refines
          (account_alloc made ptr size a)
          (if made then enter ptr size (outstanding a) else outstanding a)
          (add64 a.context.total_vram_usage (accounted_alloc_size size))
        × Refines
            (account_free ptr a)
            (take_out ptr (outstanding a))
            (without_first (outstanding a ptr) a.context.total_vram_usage)
  account-Refines made ptr size a =
      (account_alloc-Refines made ptr size a, account_free-Refines ptr a)

  -- A free right after an allocation whose entry was made takes out that entry: for every address the
  -- same sizes are outstanding as before the allocation, and the same usage is recorded.
  pub account_free-account_alloc :
      (ptr size : ℕ) (a : Allocations W)
      → let b = account_free ptr (account_alloc true ptr size a) in
        ((p : ℕ) → outstanding b p ≡ outstanding a p)
        × (b.context.total_vram_usage ≡ a.context.total_vram_usage % 2 ^ 64)
  account_free-account_alloc ptr size a =
      let m = account_alloc-Refines true ptr size a in
      let f = account_free-Refines ptr (account_alloc true ptr size a) in
      let self : (ptr == ptr) ≡ true = ground arith in
      let now : outstanding (account_alloc true ptr size a) ptr ≡ size ∷ outstanding a ptr =
        m.entries ptr ∙ rw self refl in
      (
        λ p. f.entries p ∙ elim (Bool-cases (ptr == p)) [
          | inl e ↦ rw e (ap drop_first (m.entries p) ∙ rw e refl)
          | inr e ↦ rw e (m.entries p ∙ rw e refl)
        ],
        f.usage
            ∙ rw (now, m.usage)
                (returned a.context.total_vram_usage (accounted_alloc_size size)
                  (accounted_alloc_size-fits size)),
      )
