-- ===== src/Transfer/Cover.antt =====
-- How the tasks of one transfer of src/xfer-file.c cover its bytes.
use comfy_aimdo_xpu.Base.{
  ℕ, Bool, ◌<◌, List, ◌≡◌, ◌+◌, ◌*◌, [], ◌∷◌, ◌^◌, ◌≤◌, length, arith, ◌-◌, refl, ◌/◌, suc,
  Bool-cases, ltb, inr, inl, zero, le→ltb, ltb→lt, leb, leb→le, subst,
}
use comfy_aimdo_xpu.Transfer.{
  chunks_from, Task, chunk_size, chunk_task, transfer_chunks, pending_of,
}
use comfy_aimdo_xpu.Devctx.{add64}

module _ (file_handle offset destination size : ℕ) (mark_cold write : Bool) (wait : ℕ) where
  -- One task of the transfer, for the bytes from `done` on.
  pub record IsChunk (done : ℕ) (t : Task) : Type 0 where
    pub file :
        (t.file_handle ≡ file_handle)
        × (t.mark_cold ≡ mark_cold)
        × (t.write ≡ write)
        × (t.wait ≡ wait)
    pub source : t.offset ≡ offset + done
    pub target : t.destination ≡ destination + done
    pub some_bytes : 0 < t.size
    pub few_bytes : t.size ≤ chunk_size

  -- From `done` on the tasks lie end to end, up to the end of the transfer.
  abbrev pub Tiles : (done : ℕ) → List Task → Type 0
  Tiles done [] = done ≡ size
  Tiles done (t ∷ ts) = IsChunk done t × Tiles (done + t.size) ts

  chunk_task-IsChunk :
      (done : ℕ)
      → done < size
      → offset + size < 2 ^ 64
      → destination + size < 2 ^ 64
      → IsChunk done (chunk_task file_handle offset destination size mark_cold write wait done)
  chunk_task-IsChunk done l a b = record {
    file = (refl, refl, refl, refl);
    source = omega arith;
    target = omega arith;
    some_bytes = omega arith;
    few_bytes = omega arith;
  }

  chunks_from-end :
      (fuel done : ℕ)
      → size ≤ done
      → chunks_from fuel file_handle offset destination size mark_cold write wait done ≡ []
  unfolding chunks_from
  chunks_from-end zero done l = refl
  chunks_from-end (suc fuel) done l = rw (le→ltb size done l) refl

  -- From a whole number of chunks on.
  chunks_from-Tiles :
      (fuel k : ℕ)
      → k * chunk_size ≤ size
      → size < (k + fuel) * chunk_size
      → size + chunk_size < 2 ^ 64
      → offset + size < 2 ^ 64
      → destination + size < 2 ^ 64
      → let ts =
          chunks_from fuel file_handle offset destination size mark_cold write wait
            (k * chunk_size) in
        Tiles (k * chunk_size) ts × (length ts ≡ (size + chunk_size - 1) / chunk_size - k)
  unfolding chunks_from
  chunks_from-Tiles zero k low high room a b = absurd (omega arith)
  chunks_from-Tiles (suc fuel) k low high room a b = elim (Bool-cases (ltb (k * chunk_size) size)) [
    | inr e ↦ rw e (ground (arith), ground (arith))
    | inl e ↦
        let done = k * chunk_size in
        let next : add64 done chunk_size ≡ (k + 1) * chunk_size = omega arith in
        let t = chunk_task file_handle offset destination size mark_cold write wait done in
        let c = chunk_task-IsChunk done (ltb→lt _ _ e) a b in
        elim (Bool-cases (leb ((k + 1) * chunk_size) size)) [
          | inl f ↦
              let whole : (k + 1) * chunk_size ≡ done + t.size = omega (arith, leb→le _ _ f) in
              let h = chunks_from-Tiles fuel (k + 1) (leb→le _ _ f) (omega arith) room a b in
              rw (e, next)
                (
                  (
                    c,
                    subst
                        (λ d. Tiles d (
                          chunks_from fuel file_handle offset destination size mark_cold write wait
                            ((k + 1) * chunk_size)))
                        whole h.0,
                  ),
                  ground (arith, h.1, leb→le _ _ f),
                )
          | inr f ↦
              let empty = chunks_from-end fuel ((k + 1) * chunk_size) (ground arith) in
              rw (e, next, empty) ((c, ground arith), ground arith)
        ]
  ]

  -- The tasks of a transfer lie end to end from its first byte to its last, none is empty and none
  -- larger than a chunk, each goes to the place of its bytes, and there are as many as the transfer
  -- waits for. The bytes end before the end of the file offsets and of memory, a chunk before the
  -- end of `size_t`.
  pub transfer_chunks-Tiles :
      size + chunk_size < 2 ^ 64
      → offset + size < 2 ^ 64
      → destination + size < 2 ^ 64
      → let ts = transfer_chunks file_handle offset destination size mark_cold write wait in
        Tiles 0 ts × (length ts ≡ pending_of size)
  unfolding transfer_chunks
  transfer_chunks-Tiles room a b =
      let h = chunks_from-Tiles (pending_of size + 1) 0 (omega arith) (omega arith) room a b in
      (h.0, omega (arith, h.1))
