-- ===== src/Transfer/System.antt =====
-- One transfer of src/xfer-file.c among others: its thread fills the ring, workers empty it, in any
-- order of their steps.
pub mod Balance
pub mod Exact
pub mod Progress
use comfy_aimdo_xpu.Base.{
  ℕ, List, ◌≡◌, Bool, ◌∷◌, length, if◌then◌else◌, ◌==◌, some, ◌≢◌, ◌<◌, ◌++◌,
}
use comfy_aimdo_xpu.Transfer.{
  Task, Reader, Wait, push_task, finish_task, xfer_file_threads, xfer_file_task_pop, popped,
}

-- The transfer's tasks that are not yet in the ring, the ring, the tasks that workers hold, the
-- transfer's `XferFileWait`, and its finished tasks with what their reads or writes returned.
pub record Transferring : Type 0 where
  pub remaining : List Task
  pub reader : Reader
  pub held : List Task
  pub waiting : Wait
  pub finished : List (Task × Bool)

-- A worker is through with a task: `me` is the transfer.
abbrev pub finish : (me : ℕ) → (task : Task) → (ok : Bool) → Transferring → Transferring
finish me task ok s =
    if task.wait == me
    then record s { waiting = finish_task s.waiting ok; finished = (task, ok) ∷ s.finished }
    else s

module _ (me : ℕ) where
  pub data Step : Transferring → Transferring → Type 0 where
    submit :
        (s : Transferring) (task : Task) (rest : List Task) (r : Reader)
        → s.remaining ≡ task ∷ rest
        → push_task s.reader task ≡ some r
        → Step s (record s { remaining = rest; reader = r })
    -- another transfer's task
    submit_other :
        (s : Transferring) (task : Task) (r : Reader)
        → task.wait ≢ me
        → push_task s.reader task ≡ some r
        → Step s (record s { reader = r })
    take :
        (s : Transferring) (task : Task) (r : Reader)
        → length s.held < xfer_file_threads
        → xfer_file_task_pop s.reader ≡ popped task r
        → Step s (record s { reader = r; held = task ∷ s.held })
    complete :
        (s : Transferring) (before after : List Task) (task : Task) (ok : Bool)
        → s.held ≡ before ++ (task ∷ after)
        → Step s (finish me task ok (record s { held = before ++ after }))

  pub data Reach (start : Transferring) : Transferring → Type 0 where
    at_start : Reach start start
    then_step : {s t : Transferring} → Reach start s → Step s t → Reach start t
