-- ===== src/Allocator/Contract.antt =====
-- The allocation and free calls of src/pyt-cu-plug-alloc-async.c as a whole, for a device of the
-- library's.
use comfy_aimdo_xpu.Base.{Option-cases, subst, sym}
use comfy_aimdo_xpu.Base.{
  ℕ, Bool, ◌+◌, ◌≡◌, if◌then◌else◌, ◌≢◌, true, Bool-cases, ◌==◌, inl, inr, ap, ◌∷◌, none, arith,
  false, refl, ◌∙◌, List,
}
use comfy_aimdo_xpu.Allocator.{
  account_alloc, Allocations, Routes, set_alloc_world, accounted_alloc_size, aimdo_cuda_malloc,
  make_room, alloc_with_room, try_alloc, account_new, set_context, cuda_malloc_headroom, set_world,
  account_free, unlink, aimdo_cuda_free, size_hash, free_accounted,
}
use comfy_aimdo_xpu.Gpu.{Gpu, CuResult, success, check_cu}
use comfy_aimdo_xpu.Vbar.Invariant.{Inv}
use comfy_aimdo_xpu.Allocator.Table.{
  outstanding, account-Refines, enter, Outstanding, take_out, without_first,
  accounted_alloc_size-fits,
}
use comfy_aimdo_xpu.VramBuffer.Accounts.{Inv-more, Inv-world, Inv-less}
use comfy_aimdo_xpu.Base.Int.{ℤ, signed64}
use comfy_aimdo_xpu.Devctx.Budget.{budget_deficit}
use comfy_aimdo_xpu.Devctx.{add64, State}
use comfy_aimdo_xpu.Vbar.Reclaim.{vbars_free}
use comfy_aimdo_xpu.Vbar.Evict.Accounts.{Evicts-Inv}
use comfy_aimdo_xpu.Vbar.Reclaim.Evicting.{InRange, vbars_free_internal-Evicts}
use comfy_aimdo_xpu.Vbar.Fault.Calls.{budget_deficit-Evicts}

if-enter :
    (made : Bool) (ptr size : ℕ) (m n : Outstanding) (p : ℕ)
    → m p ≡ n p
    → (if made then enter ptr size m else m) p ≡ (if made then enter ptr size n else n) p
if-enter false ptr size m n p e = e
if-enter true ptr size m n p e = elim (Bool-cases (ptr == p)) [
  | inl f ↦ rw f (ap (λ l. size ∷ l) e)
  | inr f ↦ rw f e
]

module _ {W : Type 0} where
  -- What an allocation of `size` bytes leaves: its result, `*devPtr` and the allocations. The true
  -- allocator is `alloc`; after it, `entry_malloc` says whether there is memory for the table's entry.
  pub data AllocOutcome (alloc : W → CuResult × ℕ × W) (entry_malloc : W → Bool × W)
      (other size : ℕ) (a : Allocations W) : CuResult × ℕ × Allocations W → Type 0 where
    allocated :
        {ptr : ℕ} {b : Allocations W} (before after : W)
        → alloc before ≡ (success, ptr, after)
        → b.context.world ≡ (entry_malloc after).1
        → Inv (other + accounted_alloc_size size) b.context
        → ((p : ℕ)
            → outstanding b p
              ≡ (if (entry_malloc after).0 then enter ptr size (outstanding a) else outstanding a)
                  p)
        → AllocOutcome alloc entry_malloc other size a (success, ptr, b)
    refused :
        {status : CuResult} {b : Allocations W}
        → status ≢ success
        → Inv other b.context
        → ((p : ℕ) → outstanding b p ≡ outstanding a p)
        → AllocOutcome alloc entry_malloc other size a (status, 0, b)

  -- A state from which an allocation can go on as it could from `a`.
  record Goes (other : ℕ) (a b : Allocations W) : Type 0 where
    inv : Inv other b.context
    same : (p : ℕ) → outstanding b p ≡ outstanding a p

  account_alloc-charged :
      (other : ℕ) (made : Bool) (ptr size : ℕ) (w : W) (b : Allocations W)
      → Inv other b.context
      → Inv
          (other + accounted_alloc_size size)
          (set_world (account_alloc made ptr size b).context w)
  unfolding account_alloc
  account_alloc-charged other made ptr size w b inv =
      Inv-more other (accounted_alloc_size size) b.context w inv

module _ {W : Type 0} (gpu : Gpu W) (routes : Routes W) (alloc : W → CuResult × ℕ × W)
    (other size : ℕ) (a : Allocations W) where
  -- What comes after keeps the promise, wherever it starts.
  abbrev Keeps : (Allocations W → CuResult × ℕ × Allocations W) → Type 0
  Keeps after =
      (b : Allocations W)
      → Goes other a b
      → AllocOutcome alloc routes.entry_malloc other size a (after b)

  account_new-Inv :
      (ptr : ℕ) (before after : W) (b : Allocations W)
      → alloc before ≡ (success, ptr, after)
      → Goes other a b
      → b.context.world ≡ after
      → AllocOutcome alloc routes.entry_malloc other size a
          (success, ptr, account_new routes ptr size b)
  unfolding account_new
  account_new-Inv ptr before after b e g at_world =
      let (made, w) = routes.entry_malloc b.context.world in
      let r = (account-Refines made ptr size b).0 in
      allocated before b.context.world (rw at_world e) refl
        (account_alloc-charged other made ptr size w b g.inv)
        (λ p. r.entries p ∙ if-enter made ptr size (outstanding b) (outstanding a) p (g.same p))

  try_alloc-Keeps :
      (otherwise : CuResult → Allocations W → CuResult × ℕ × Allocations W)
      → ((status : CuResult) → status ≢ success → Keeps (otherwise status))
      → Keeps (try_alloc routes alloc size otherwise)
  unfolding try_alloc
  try_alloc-Keeps otherwise later b g =
      let (status, dptr, w) = alloc b.context.world in
      let b1 = set_alloc_world b w in
      let g1 : Goes other a b1 = record {
        inv = Inv-world other b.context w g.inv;
        same = g.same;
      } in
      elim (Bool-cases (check_cu status)) [
        | inl e ↦
            let ok : status ≡ success = ground (arith, e) in
            rw e (account_new-Inv dptr b.context.world w b1 (ap (λ c. (c, dptr, w)) ok) g1 refl)
        | inr e ↦ rw e (later status (ground (arith, e)) b1 g1)
      ]

  make_room-Keeps :
      (deficit : ℤ) (after : Allocations W → CuResult × ℕ × Allocations W)
      → Keeps after
      → Keeps (make_room gpu deficit after)
  unfolding make_room
  make_room-Keeps deficit after keeps b g =
      let (ok, s) = vbars_free gpu b.context deficit in
      let r : InRange b.context = λ v i. (g.inv.valid v i).within in
      let inv : Inv other s =
        Evicts-Inv other g.inv (vbars_free_internal-Evicts gpu b.context deficit none true r) in
      let g1 : Goes other a (set_context b s) = record { inv = inv; same = g.same } in
      elim (Bool-cases ok) [
        | inl e ↦ rw e (keeps (set_context b s) g1)
        | inr e ↦ rw e (refused (omega arith) inv g.same)
      ]

  alloc_with_room-Outcome :
      (need force : ℕ)
      → Inv other a.context
      → AllocOutcome alloc routes.entry_malloc other size a
          (alloc_with_room gpu routes alloc size need force a)
  unfolding alloc_with_room
  alloc_with_room-Outcome need force inv =
      let (deficit, s) = budget_deficit gpu a.context need in
      let g : Goes other a (set_context a s) = record {
        inv = Evicts-Inv other inv (budget_deficit-Evicts gpu a.context need);
        same = λ p. refl;
      } in
      let last : (status : CuResult) → status ≢ success → Keeps (λ b. (status, 0, b)) =
        λ status bad b h. refused bad h.inv h.same in
      let second = try_alloc-Keeps (λ status b. (status, 0, b)) last in
      make_room-Keeps deficit _
        (try_alloc-Keeps _ (λ status bad. make_room-Keeps (signed64 force) _ second))
        (set_context a s) g

module _ {W : Type 0} (gpu : Gpu W) (routes : Routes W) (other size : ℕ) (a : Allocations W) where
  -- From true accounts, an allocation on a device of the library's either succeeds, and then
  -- `*devPtr` is what the true allocator gave, the usage counts its accounted size beside what it
  -- counted, and its size is outstanding at its address unless the `malloc` that followed had no
  -- memory for the entry; or it fails, `*devPtr` is null, and the accounts and the outstanding sizes
  -- are as before, whatever was evicted on the way.
  pub aimdo_cuda_malloc-Outcome :
      (old : ℕ)
      → Inv other a.context
      → AllocOutcome
          (routes.true_alloc size)
          routes.entry_malloc
          other
          size
          a
          (aimdo_cuda_malloc gpu routes true true old size a)
  unfolding aimdo_cuda_malloc
  aimdo_cuda_malloc-Outcome old inv =
      let need = add64 size cuda_malloc_headroom in
      alloc_with_room-Outcome gpu routes (routes.true_alloc size) other size a need need inv

-- What a free of `n` outstanding bytes at `ptr` leaves.
pub data FreeOutcome {W : Type 0} (other n ptr : ℕ) (a : Allocations W)
    : CuResult × Allocations W → Type 0 where
  given_back :
      {b : Allocations W}
      → Inv other b.context
      → ((p : ℕ) → outstanding b p ≡ take_out ptr (outstanding a) p)
      → FreeOutcome other n ptr a (success, b)
  not_freed :
      {status : CuResult} {b : Allocations W}
      → status ≢ success
      → Inv (other + accounted_alloc_size n) b.context
      → ((p : ℕ) → outstanding b p ≡ outstanding a p)
      → FreeOutcome other n ptr a (status, b)

abbrev with_usage : {W : Type 0} → State W → ℕ → State W
with_usage s usage = record s { total_vram_usage = usage }

module _ {W : Type 0} where
  account_free-context :
      (ptr : ℕ) (a : Allocations W)
      → (account_free ptr a).context
        ≡ with_usage a.context (account_free ptr a).context.total_vram_usage
  unfolding account_free
  account_free-context ptr a = elim (Option-cases (unlink ptr (a.size_table (size_hash ptr)))) [
    | inl e ↦ rw (account_free, e) refl
    | inr (found, e) ↦ rw (account_free, e) refl
  ]

  account_free-Inv :
      (other n ptr : ℕ) (rest : List ℕ) (a : Allocations W)
      → outstanding a ptr ≡ n ∷ rest
      → Inv (other + accounted_alloc_size n) a.context
      → Inv other (account_free ptr a).context
  account_free-Inv other n ptr rest a now inv =
      let f = (account-Refines true ptr 0 a).1 in
      let usage = f.usage ∙ ap (λ l. without_first l a.context.total_vram_usage) now in
      let e = account_free-context ptr a ∙ ap (with_usage a.context) usage in
      subst (Inv other) (sym e) (
        Inv-less other (accounted_alloc_size n) a.context a.context.world
          (accounted_alloc_size-fits n) inv)

  free_accounted-Outcome :
      (other n ptr : ℕ) (rest : List ℕ) (a : Allocations W) (free : W → CuResult × W)
      → outstanding a ptr ≡ n ∷ rest
      → Inv (other + accounted_alloc_size n) a.context
      → FreeOutcome other n ptr a (free_accounted free ptr a)
  unfolding free_accounted
  free_accounted-Outcome other n ptr rest a free now inv =
      let (status, w) = free a.context.world in
      let a1 = set_alloc_world a w in
      let inv1 = Inv-world (other + accounted_alloc_size n) a.context w inv in
      elim (Bool-cases (check_cu status)) [
        | inl e ↦
            let ok : status ≡ success = ground (arith, e) in
            rw (e, ok)
              (given_back (account_free-Inv other n ptr rest a1 now inv1)
                (account-Refines true ptr 0 a1).1.entries)
        | inr e ↦ rw e (not_freed (ground (arith, e)) inv1 (λ p. refl))
      ]

module _ {W : Type 0} (routes : Routes W) where
  -- From true accounts that count `n` bytes outstanding at `ptr`, on a device of the library's, where
  -- no recorded allocation takes the free over: if the driver frees the memory, the accounts no
  -- longer count it and it is no longer outstanding; if not, both are as before.
  pub aimdo_cuda_free-Outcome :
      (other n ptr : ℕ) (rest : List ℕ) (a : Allocations W)
      → ptr ≢ 0
      → outstanding a ptr ≡ n ∷ rest
      → routes.free_rogue ptr a ≡ (none, a)
      → Inv (other + accounted_alloc_size n) a.context
      → FreeOutcome other n ptr a (aimdo_cuda_free routes true true ptr a)
  unfolding aimdo_cuda_free
  aimdo_cuda_free-Outcome other n ptr rest a nz now declines inv =
      let z : (ptr == 0) ≡ false = ground arith in
      rw (z, ap (λ r. r.0) declines, ap (λ r. r.1) declines)
        (free_accounted-Outcome other n ptr rest a (routes.true_free ptr) now inv)
