-- ===== src/Transfer/System/Progress.antt =====
-- That a transfer of src/xfer-file.c is never stuck.
use comfy_aimdo_xpu.Base.{
  none, some, ℕ, Bool, List, ◌*◌, ◌+◌, length, Option, ◌≡◌, [], ◌∷◌, ◌≢◌, ◌<◌, ◌^◌, true, arith,
  Bool-cases, ap, ◌==◌, some, inl, length-append, inr, refl,
}
use comfy_aimdo_xpu.Transfer.System.{Transferring, finish, take, submit, Reach, complete, Step}
use comfy_aimdo_xpu.Transfer.{
  Pop, Task, chunk_size, Reader, xfer_file_task_pop, push_task, pending_of, popped, transfer_chunks,
  waits, ends,
}
use comfy_aimdo_xpu.Transfer.System.Balance.{Balanced, own, own-Weighs, weigh}
use comfy_aimdo_xpu.Transfer.Ring.{contents, IsRing-IsQueue, Pushed, Popped}
use comfy_aimdo_xpu.Transfer.System.Exact.{IsStart, Reach-chunks}

-- The steps that the threads still have to make for what is under way.
abbrev pub effort : Transferring → ℕ
effort s = 3 * length s.remaining + 2 * length (contents s.reader) + length s.held

-- A step that lowers the effort.
abbrev pub Advances : (me : ℕ) → Transferring → Type 0
Advances me s = (t : Transferring) × Step me s t × (effort t < effort s)

module _ (me : ℕ) where
  submit-Advances :
      (s : Transferring) (task : Task) (rest : List Task) (found : Option Reader)
      → s.remaining ≡ task ∷ rest
      → contents s.reader ≡ []
      → push_task s.reader task ≡ found
      → Pushed s.reader task found
      → Advances me s
  submit-Advances s task rest none e z p h = absurd (omega (arith, h, ap length z))
  submit-Advances s task rest (some r) e z p h =
      let n = ap length h.1 in
      (
        record s { remaining = rest; reader = r },
        submit s task rest r e p,
        omega (arith, n, ap length z, ap length e, length-append (contents s.reader) (task ∷ [])),
      )

  take-Advances :
      (s : Transferring) (found : Pop) (task : Task) (rest : List Task)
      → s.held ≡ []
      → contents s.reader ≡ task ∷ rest
      → xfer_file_task_pop s.reader ≡ found
      → Popped s.reader found
      → Advances me s
  take-Advances s waits task rest z e p h = absurd (omega (arith, ap length e, ap length h.0))
  take-Advances s ends task rest z e p h = absurd (omega (arith, ap length e, ap length h.0))
  take-Advances s (popped t r) task rest z e p h = (
    record s { reader = r; held = t ∷ s.held },
    take s t r (omega (arith, ap length z)) p,
    omega (arith, ap length h.1),
  )

  complete-Advances :
      (s : Transferring) (task : Task) (after : List Task) → s.held ≡ task ∷ after → Advances me s
  complete-Advances s task after e =
      (finish me task true (record s { held = after }), complete s [] after task true e, lowered)
    where
      lowered : effort (finish me task true (record s { held = after })) < effort s
      lowered = elim (Bool-cases (task.wait == me)) [
        | inl f ↦ rw f (omega (arith, ap length e))
        | inr f ↦ rw f (omega (arith, ap length e))
      ]

  advance :
      (tasks : List Task) (s : Transferring)
      → Balanced me tasks s
      → s.waiting.pending ≢ 0
      → Advances me s
  advance tasks s b nz = by_held s.held refl (contents s.reader) refl s.remaining refl
    where
      by_held :
          (held : List Task)
          → s.held ≡ held
          → (ring : List Task) → contents s.reader ≡ ring
          → (remaining : List Task) → s.remaining ≡ remaining
          → Advances me s
      by_held (task ∷ after) e ring f remaining g = complete-Advances s task after e
      by_held [] e (task ∷ rest) f remaining g =
          take-Advances s _ task rest e f refl (IsRing-IsQueue s.reader b.ring).pops
      by_held [] e [] f (task ∷ rest) g =
          submit-Advances s task rest _ g f refl ((IsRing-IsQueue s.reader b.ring).pushes task)
      by_held [] e [] f [] g = absurd (
          nz (
            omega (
              arith,
              b.counts,
              b.weights (own me) (own-Weighs me),
              ap (weigh (own me)) e,
              ap (weigh (own me)) f,
              ap (weigh (own me)) g,
            )))

module _ (me file_handle offset destination size : ℕ) (mark_cold write : Bool)
    (room : size + chunk_size < 2 ^ 64) (in_file : offset + size < 2 ^ 64)
    (in_memory : destination + size < 2 ^ 64) where
  -- As long as the wait is not over, the transfer's thread or a worker can make a step that leaves
  -- less to do, whatever other transfers have put into the ring. The bytes end before the end of
  -- the file offsets and of memory, a chunk before the end of `size_t`.
  pub xfer_file_transfer-Advances :
      (start s : Transferring)
      → IsStart me
          (pending_of size)
          (transfer_chunks file_handle offset destination size mark_cold write me)
          start
      → Reach me start s
      → s.waiting.pending ≢ 0
      → (t : Transferring) × Step me s t × (effort t < effort s)
  xfer_file_transfer-Advances start s begin r nz =
      advance me (transfer_chunks file_handle offset destination size mark_cold write me) s
        (Reach-chunks me file_handle offset destination size mark_cold write room in_file in_memory
          begin r)
        nz
