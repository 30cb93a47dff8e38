-- ===== src/VramBuffer/Chunks.antt =====
-- The loop of `vrambuf_grow`, chunk by chunk.
use comfy_aimdo_xpu.Base.{
  ℕ, ◌+◌, ◌-◌, ◌*◌, ◌≡◌, ◌≤◌, ◌<◌, ◌⊎◌, inl, inr, arith, min, ◌==◌, Round, true, Ends, update, go,
  subst, if◌then◌else◌, not, ==-ne, none, if_both, Bool-cases, ltb, ltb→le, ltb→lt, rounds,
  rounds_end, refl,
}
use comfy_aimdo_xpu.Gpu.{Gpu, GivesHandles, check_cu, out_of_memory}
use comfy_aimdo_xpu.VramBuffer.{
  VramBuffer, add_chunk, grow_failed, grow_round, vram_chunk_size, Growing,
}
use comfy_aimdo_xpu.VramBuffer.Accounts.{IsSound, Inv-more}
use comfy_aimdo_xpu.Devctx.{State, add64}
use comfy_aimdo_xpu.Vbar.Evict.Steps.{Evicts, next, here, outside}
use comfy_aimdo_xpu.Vbar.Invariant.{Inv}
use comfy_aimdo_xpu.Vbar.Evict.{set_world}
use comfy_aimdo_xpu.Vbar.Reclaim.{vbars_free}
use comfy_aimdo_xpu.Vbar.Evict.Accounts.{Evicts-Inv}
use comfy_aimdo_xpu.Devctx.Budget.{three_stooges}
use comfy_aimdo_xpu.Base.Int.{pos}
use comfy_aimdo_xpu.Devctx.Budget.Allocation.{
  three_stooges_cases, IsCreated, three_stooges-IsCreated,
}
use comfy_aimdo_xpu.Vbar.Reclaim.Evicting.{InRange, vbars_free_internal-Evicts}

-- From `buf` to `buf'` the handles that were there are the same, and those since are the driver's.
pub record Handles {W : Type 0} (gpu : Gpu W) (gives : GivesHandles gpu) (buf buf' : VramBuffer)
    : Type 0 where
  pub more : buf.handle_count ≤ buf'.handle_count
  pub kept : (i : ℕ) → i < buf.handle_count → buf'.handles i ≡ buf.handles i
  pub new :
      (i : ℕ)
      → buf.handle_count ≤ i
      → i < buf'.handle_count
      → IsCreated gpu gives buf.device (buf'.handles i)

-- From `buf` and `s` to `buf'` and `t`, where `other` counts the usage beside VBARs before.
pub record Grown {W : Type 0} (gpu : Gpu W) (gives : GivesHandles gpu) (other : ℕ)
    (buf buf' : VramBuffer) (t : State W) : Type 0 where
  pub sound : IsSound buf'
  pub range :
      (buf'.base_ptr ≡ buf.base_ptr) × (buf'.max_size ≡ buf.max_size) × (buf'.device ≡ buf.device)
  pub more : buf.allocated ≤ buf'.allocated
  pub memory : Handles gpu gives buf buf'
  pub inv : Inv (other + (buf'.allocated - buf.allocated)) t

module _ {W : Type 0} (gpu : Gpu W) (gives : GivesHandles gpu) where
  pub Handles-refl : (buf : VramBuffer) → Handles gpu gives buf buf
  Handles-refl buf = record {
    more = omega arith;
    kept = λ i l. refl;
    new = λ i l u. absurd (omega arith);
  }

  Handles-add :
      (buf b : VramBuffer) (handle to_allocate : ℕ)
      → Handles gpu gives buf b
      → IsCreated gpu gives buf.device handle
      → Handles gpu gives buf (record b {
        handles = update b.handles b.handle_count handle;
        handle_count = b.handle_count + 1;
        allocated = b.allocated + to_allocate;
      })
  Handles-add buf b handle to_allocate h c = record {
    more = omega (arith, h.more);
    kept = λ i l. ground (arith, h.kept i l, h.more);
    new = λ i l u. elim (Bool-cases (b.handle_count == i)) [
      | inl e ↦ rw e c
      | inr e ↦ rw e (h.new i l (ground (arith, e)))
    ];
  }

  pub Grown-Evicts :
      {other : ℕ} {buf buf' : VramBuffer} {s t : State W}
      → Grown gpu gives other buf buf' s
      → Evicts s t
      → Grown gpu gives other buf buf' t
  Grown-Evicts g p = record {
    sound = g.sound;
    range = g.range;
    more = g.more;
    memory = g.memory;
    inv = Evicts-Inv _ g.inv p;
  }

module _ {W : Type 0} (gpu : Gpu W) (gives : GivesHandles gpu) (other : ℕ) (buf : VramBuffer)
    (grow_to : ℕ) where
  abbrev pub Chunked : Type 0
  Chunked = ((chunks : ℕ) × (grow_to ≡ chunks * vram_chunk_size)) ⊎ (grow_to ≡ buf.max_size)

  record Going (k : Growing W) : Type 0 where
    going : k.ok ≡ true
    grown : Grown gpu gives other buf k.buf k.state
    below : k.buf.allocated ≤ grow_to

  pub record Ended (k : Growing W) : Type 0 where
    pub grown : Grown gpu gives other buf k.buf k.state
    pub enough : k.ok ≡ true → grow_to ≤ k.buf.allocated

  abbrev Goes : ℕ → Round (Growing W) → Type 0
  Goes n = Ends (λ t. Going t × (grow_to - t.buf.allocated < grow_to - n)) Ended

  IsSound-more :
      (b : VramBuffer) (handle : ℕ)
      → Chunked
      → grow_to ≤ buf.max_size
      → b.max_size ≡ buf.max_size
      → b.allocated < grow_to
      → IsSound b
      → IsSound (record b {
        handles = update b.handles b.handle_count handle;
        handle_count = b.handle_count + 1;
        allocated = b.allocated + min (grow_to - b.allocated) vram_chunk_size;
      })
  IsSound-more b handle c m e l h = record {
    within = omega arith;
    sized = h.sized;
    counted = omega (arith, h.counted, h.whole);
    tight = omega (arith, h.tight, h.whole);
    whole = elim c [
      | inl (chunks, eq) ↦ omega (arith, h.whole, eq)
      | inr eq ↦ omega (arith, h.whole, eq)
    ];
  }

  chunk-Goes :
      (k : Growing W) (s : State W) (handle : ℕ) (w : W)
      → Chunked
      → grow_to ≤ buf.max_size
      → k.ok ≡ true
      → Grown gpu gives other buf k.buf s
      → k.buf.allocated < grow_to
      → IsCreated gpu gives k.buf.device handle
      → let n = min (grow_to - k.buf.allocated) vram_chunk_size in
        Goes k.buf.allocated (
          go (
            add_chunk k handle n
              (record s { total_vram_usage = add64 s.total_vram_usage n; world = w })))
  unfolding add_chunk
  chunk-Goes k s handle w c m ok g l made =
      let n = min (grow_to - k.buf.allocated) vram_chunk_size in
      let e : other + (k.buf.allocated - buf.allocated) + n
          ≡ other + (k.buf.allocated + n - buf.allocated) =
        omega (arith, g.more) in
      (
        record {
          going = ok;
          grown = record {
            sound = IsSound-more k.buf handle c m (g.range.1) l g.sound;
            range = g.range;
            more = omega (arith, g.more);
            memory =
                Handles-add gpu gives buf k.buf handle n g.memory
                  (subst (λ d. IsCreated gpu gives d handle) g.range.2 made);
            inv =
                subst
                  (λ o.
                    Inv o (record s { total_vram_usage = add64 s.total_vram_usage n; world = w }))
                  e (Inv-more _ n s w g.inv);
          };
          below = omega arith;
        },
        omega arith,
      )

  attempt-Goes :
      (k : Growing W) (s : State W) (rest : State W → Round (Growing W))
      → Chunked
      → grow_to ≤ buf.max_size
      → k.ok ≡ true
      → Grown gpu gives other buf k.buf s
      → k.buf.allocated < grow_to
      → ((w : W) → Goes k.buf.allocated (rest (set_world s w)))
      → let n = min (grow_to - k.buf.allocated) vram_chunk_size in
        let (err, handle, s') =
          three_stooges gpu s (add64 k.buf.base_ptr k.buf.allocated) n k.buf.device 0 in
        Goes k.buf.allocated (if check_cu err then go (add_chunk k handle n s') else rest s')
  attempt-Goes k s rest c m ok g l f =
      let n = min (grow_to - k.buf.allocated) vram_chunk_size in
      let at = add64 k.buf.base_ptr k.buf.allocated in
      let handle = (three_stooges gpu s at n k.buf.device 0).1 in
      let (w, cases) = three_stooges_cases gpu gives s at n k.buf.device 0 in
      elim cases [
        | inl (e, nz, eq) ↦
            rw (e, eq)
              (chunk-Goes k s handle w c m ok g l
                (three_stooges-IsCreated gpu gives s at n k.buf.device 0 e))
        | inr (ne, eq) ↦ rw (==-ne _ _ ne, eq) (f w)
      ]

  failed-Ended :
      (k : Growing W) (s : State W)
      → Grown gpu gives other buf k.buf s
      → Goes k.buf.allocated (grow_failed k s)
  unfolding grow_failed
  failed-Ended k s g = record { grown = g; enough = λ x. absurd cc }

  grow_round-Goes :
      (k : Growing W)
      → Chunked
      → grow_to ≤ buf.max_size
      → Going k
      → Goes k.buf.allocated (grow_round gpu grow_to k)
  unfolding grow_round
  grow_round-Goes k c m h =
      let n = min (grow_to - k.buf.allocated) vram_chunk_size in
      let at = add64 k.buf.base_ptr k.buf.allocated in
      let dev = k.buf.device in
      let err = (three_stooges gpu k.state at n dev 0).0 in
      elim (Bool-cases (ltb k.buf.allocated grow_to)) [
        | inr e ↦ rw e (record { grown = h.grown; enough = λ x. ltb→le _ _ e })
        | inl e ↦
            let l = ltb→lt _ _ e in
            let retried : State W → Round (Growing W) = λ s.
              let (ok?, s2) = vbars_free gpu s (pos vram_chunk_size) in
              let (err2, handle2, s3) = three_stooges gpu s2 at n dev 0 in
              if not ok?
              then grow_failed k s2
              else if check_cu err2
              then go (add_chunk k handle2 n s3)
              else grow_failed k s3 in
            rw e (
              attempt-Goes k k.state
                (λ s. if not (err == out_of_memory) then grow_failed k s else retried s) c m h.going
                h.grown l
                (λ w.
                  let t = set_world k.state w in
                  let gt : Grown gpu gives other buf k.buf t =
                    Grown-Evicts gpu gives h.grown (next here (outside w)) in
                  if_both (Goes k.buf.allocated) (not (err == out_of_memory)) (grow_failed k t)
                    (retried t) (failed-Ended k t gt) (retried-Goes k c m h l t gt)))
      ]
    where
      retried-Goes :
          (k : Growing W)
          → Chunked
          → grow_to ≤ buf.max_size
          → Going k
          → k.buf.allocated < grow_to
          → (s : State W) → Grown gpu gives other buf k.buf s
          → let n = min (grow_to - k.buf.allocated) vram_chunk_size in
            let at = add64 k.buf.base_ptr k.buf.allocated in
            let (ok?, s2) = vbars_free gpu s (pos vram_chunk_size) in
            let (err2, handle2, s3) = three_stooges gpu s2 at n k.buf.device 0 in
            Goes k.buf.allocated (
              if not ok?
              then grow_failed k s2
              else if check_cu err2
              then go (add_chunk k handle2 n s3)
              else grow_failed k s3)
      retried-Goes k c m h l s g =
          let (ok?, s2) = vbars_free gpu s (pos vram_chunk_size) in
          let r : InRange s = λ u i. (g.inv.valid u i).within in
          let g2 =
            Grown-Evicts gpu gives g
              (vbars_free_internal-Evicts gpu s (pos vram_chunk_size) none true r) in
          if_both (Goes k.buf.allocated) (not ok?) (grow_failed k s2) _ (failed-Ended k s2 g2) (
            attempt-Goes k s2 (grow_failed k) c m h.going g2 l
              (λ w. failed-Ended k _ (Grown-Evicts gpu gives g2 (next here (outside w)))))

  -- The loop of `vrambuf_grow`, from a sound buffer.
  pub grow_rounds-Ended :
      (s : State W)
      → Chunked
      → grow_to ≤ buf.max_size
      → Grown gpu gives other buf buf s
      → buf.allocated ≤ grow_to
      → Ended (
          rounds
            (grow_to - buf.allocated)
            (grow_round gpu grow_to)
            (record { ok = true; buf = buf; state = s }))
  grow_rounds-Ended s c m g l =
      rounds_end Going Ended (λ k. grow_to - k.buf.allocated) (grow_round gpu grow_to)
        (λ k h z. record { grown = h.grown; enough = λ x. omega arith })
        (λ k h. grow_round-Goes k c m h) _ _ (omega arith)
        (record { going = refl; grown = g; below = l })
