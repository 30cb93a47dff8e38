-- ===== src/Transfer.antt =====
-- File transfers in chunks, src/xfer-file.c: a ring of tasks that transfers fill and worker threads
-- empty.
pub mod Ring
pub mod Cover
pub mod System
use comfy_aimdo_xpu.Base.{
  ℕ, Option, if◌then◌else◌, Bool, ◌*◌, ◌==◌, min, List, ◌-◌, not, ◌||◌, ◌+◌, none, [], ◌/◌, ◌%◌,
  suc, some, update, ltb, ◌∷◌, zero,
}
use comfy_aimdo_xpu.Devctx.{add64, sub64}

-- XFER_FILE_THREADS, XFER_FILE_CHUNK_SIZE, XFER_FILE_QUEUE_CAP
abbrev pub xfer_file_threads : ℕ
xfer_file_threads = 8

abbrev pub chunk_size : ℕ
chunk_size = 2 * 1024 * 1024

abbrev pub queue_cap : ℕ
queue_cap = 256

-- `XferFileTask`; `wait` names the `XferFileWait` of the transfer.
pub record Task : Type 0 where
  pub file_handle : ℕ
  pub offset : ℕ
  pub destination : ℕ
  pub size : ℕ
  pub mark_cold : Bool
  pub write : Bool
  pub wait : ℕ

-- `XferFileWait`
pub record Wait : Type 0 where
  pub pending : ℕ
  pub failed : Bool

-- `XferFileReader`
pub record Reader : Type 0 where
  pub tasks : ℕ → Task
  pub head : ℕ
  pub tail : ℕ
  pub count : ℕ
  pub stop : Bool

-- A task put into the ring, or none where the transfer waits for space.
unfoldable pub push_task : Reader → Task → Option Reader
push_task r task =
    if r.count == queue_cap
    then none
    else some (record r {
      tasks = update r.tasks r.tail task;
      tail = (r.tail + 1) % queue_cap;
      count = r.count + 1;
    })

-- A worker waits, ends, or has a task.
pub data Pop : Type 0 where
  waits ends : Pop
  popped : Task → Reader → Pop

unfoldable pub xfer_file_task_pop : Reader → Pop
xfer_file_task_pop r =
    if r.count == 0
    then (if r.stop then ends else waits)
    else popped (r.tasks r.head) (record r { head = (r.head + 1) % queue_cap; count = r.count - 1 })

-- A transfer's task for the chunk at `done`.
abbrev pub chunk_task :
    (file_handle offset destination size : ℕ) → (mark_cold write : Bool) → (wait done : ℕ) → Task
chunk_task file_handle offset destination size mark_cold write wait done = record {
  file_handle = file_handle;
  offset = add64 offset done;
  destination = add64 destination done;
  size = min chunk_size (size - done);
  mark_cold = mark_cold;
  write = write;
  wait = wait;
}

-- The loop of `xfer_file_transfer`: the tasks in the order in which it puts them into the ring. The
-- number of chunks is fuel enough.
unfoldable pub chunks_from :
    (fuel file_handle offset destination size : ℕ)
    → (mark_cold write : Bool) → (wait done : ℕ) → List Task
chunks_from zero file_handle offset destination size mark_cold write wait done = []
chunks_from (suc fuel) file_handle offset destination size mark_cold write wait done =
    let rest =
      chunks_from fuel file_handle offset destination size mark_cold write wait
        (add64 done chunk_size) in
    if ltb done size
    then chunk_task file_handle offset destination size mark_cold write wait done ∷ rest
    else []

abbrev pub pending_of : (size : ℕ) → ℕ
pending_of size = add64 size (chunk_size - 1) / chunk_size

unfoldable pub transfer_chunks :
    (file_handle offset destination size : ℕ) → (mark_cold write : Bool) → (wait : ℕ) → List Task
unfolding chunks_from
transfer_chunks file_handle offset destination size mark_cold write wait =
    chunks_from (pending_of size + 1) file_handle offset destination size mark_cold write wait 0

-- A worker has finished a task of the transfer with this wait.
unfoldable pub finish_task : Wait → (ok : Bool) → Wait
finish_task w ok = record { failed = not ok || w.failed; pending = sub64 w.pending 1 }
