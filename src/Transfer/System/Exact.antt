-- ===== src/Transfer/System/Exact.antt =====
-- The end of a transfer of src/xfer-file.c, and that it comes.
use comfy_aimdo_xpu.Base.{
  ℕ, List, ◌≡◌, false, [], arith, ◌<◌, ◌^◌, ap, Bool, ◌∙◌, ◌+◌, length, sym, ◌∷◌, subst, refl,
}
use comfy_aimdo_xpu.Transfer.{Task, chunk_size, transfer_chunks, pending_of}
use comfy_aimdo_xpu.Transfer.System.{Transferring, Reach, then_step, at_start, Step}
use comfy_aimdo_xpu.Transfer.System.Balance.{
  weigh, Weighs, Balanced, weigh_finished, own, any_failed, weigh-zero, own-Weighs, Step-counts,
  Step-weight,
}
use comfy_aimdo_xpu.Transfer.Ring.{IsRing, contents}
use comfy_aimdo_xpu.Transfer.Cover.{Tiles, transfer_chunks-Tiles}

module _ (me : ℕ) where
  -- `xfer_file_transfer` has set up its wait, and put nothing into the ring yet.
  pub record IsStart (pending : ℕ) (tasks : List Task) (s : Transferring) : Type 0 where
    pub all : s.remaining ≡ tasks
    pub waits_for : (s.waiting.pending ≡ pending) × (s.waiting.failed ≡ false)
    pub none_finished : s.finished ≡ []
    pub ring : IsRing s.reader
    pub fresh : (weigh (own me) (contents s.reader) ≡ 0) × (weigh (own me) s.held ≡ 0)

  Start-Balanced :
      (tasks : List Task) (s : Transferring)
      → IsStart (weigh (own me) tasks) tasks s
      → Balanced me tasks s
  Start-Balanced tasks s h = record {
    ring = h.ring;
    weights = λ f w. omega (
      arith,
      ap (weigh f) h.all,
      weigh-zero me f w (contents s.reader) h.fresh.0,
      weigh-zero me f w s.held h.fresh.1,
      ap (weigh_finished f) h.none_finished,
    );
    counts = omega (arith, h.waits_for.0, ap (weigh_finished (own me)) h.none_finished);
    failures = h.waits_for.1 ∙ sym (ap any_failed h.none_finished);
  }

  Step-Balanced :
      (tasks : List Task) {s t : Transferring}
      → weigh (own me) tasks < 2 ^ 64
      → Step me s t
      → Balanced me tasks s
      → Balanced me tasks t
  Step-Balanced tasks few st b =
      let c =
        Step-counts me st (weigh (own me) tasks) few (b.weights (own me) (own-Weighs me)) b.counts
          b.failures in
      record {
        ring = (Step-weight me (own me) (own-Weighs me) st b.ring).0;
        weights = λ f w. (Step-weight me f w st b.ring).1 ∙ b.weights f w;
        counts = c.0;
        failures = c.1;
      }

  Reach-Balanced :
      (tasks : List Task) {s t : Transferring}
      → weigh (own me) tasks < 2 ^ 64
      → Reach me s t
      → Balanced me tasks s
      → Balanced me tasks t
  Reach-Balanced tasks few at_start b = b
  Reach-Balanced tasks few (then_step r st) b =
      Step-Balanced tasks few st (Reach-Balanced tasks few r b)

  -- Each of the tasks is finished, once, and the wait says whether one has failed.
  pub record Exact (tasks : List Task) (s : Transferring) : Type 0 where
    pub each_once : (f : Task → ℕ) → Weighs me f → weigh_finished f s.finished ≡ weigh f tasks
    pub failures : s.waiting.failed ≡ any_failed s.finished

  Balanced-Exact :
      (tasks : List Task) (s : Transferring)
      → Balanced me tasks s
      → s.waiting.pending ≡ 0
      → Exact tasks s
  Balanced-Exact tasks s b z =
      let rest = b.weights (own me) (own-Weighs me) in
      record {
        each_once = λ f w.
            let a = weigh-zero me f w s.remaining (omega (arith, rest, b.counts, z)) in
            let c = weigh-zero me f w (contents s.reader) (omega (arith, rest, b.counts, z)) in
            let d = weigh-zero me f w s.held (omega (arith, rest, b.counts, z)) in
            omega (arith, a, c, d, b.weights f w);
        failures = b.failures;
      }

  Tiles-own :
      (file_handle offset destination size : ℕ) (mark_cold write : Bool) (done : ℕ) (ts : List Task)
      → Tiles file_handle offset destination size mark_cold write me done ts
      → weigh (own me) ts ≡ length ts
  Tiles-own file_handle offset destination size mark_cold write done [] h = refl
  Tiles-own file_handle offset destination size mark_cold write done (t ∷ ts) h =
      let mine : t.wait ≡ me = h.0.file.3 in
      ground (
        arith,
        mine,
        Tiles-own file_handle offset destination size mark_cold write (done + t.size) ts h.1,
      )

module _ (me file_handle offset destination size : ℕ) (mark_cold write : Bool)
    (room : size + chunk_size < 2 ^ 64) (in_file : offset + size < 2 ^ 64)
    (in_memory : destination + size < 2 ^ 64) where
  abbrev pub chunks : List Task
  chunks = transfer_chunks file_handle offset destination size mark_cold write me

  pub chunks-own : weigh (own me) chunks ≡ pending_of size
  chunks-own =
      let h =
        transfer_chunks-Tiles file_handle offset destination size mark_cold write me room in_file
          in_memory in
      Tiles-own me file_handle offset destination size mark_cold write 0 chunks h.0 ∙ h.1

  pub Reach-chunks :
      {start s : Transferring}
      → IsStart me (pending_of size) chunks start
      → Reach me start s
      → Balanced me chunks s
  Reach-chunks {start} begin r =
      let b = subst (λ n. IsStart me n chunks start) (sym chunks-own) begin in
      Reach-Balanced me chunks (omega (arith, chunks-own)) r (Start-Balanced me chunks start b)

  -- In whatever order the threads run, with other transfers in the same ring: when the transfer's
  -- wait is over, each of its chunks has been read or written, once, and the wait reports a failure
  -- exactly when one of them has failed. The bytes end before the end of the file offsets and of
  -- memory, a chunk before the end of `size_t`.
  pub xfer_file_transfer-Exact :
      (start s : Transferring)
      → IsStart me (pending_of size) chunks start
      → Reach me start s
      → s.waiting.pending ≡ 0
      → Exact me (transfer_chunks file_handle offset destination size mark_cold write me) s
  xfer_file_transfer-Exact start s begin r z = Balanced-Exact me chunks s (Reach-chunks begin r) z
