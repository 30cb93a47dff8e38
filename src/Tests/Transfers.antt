-- ===== src/Tests/Transfers.antt =====
-- A transfer of three bytes short of two chunks, in an empty ring.
use comfy_aimdo_xpu.Base.{
  ℕ, ◌*◌, false, map, arith, ◌^◌, [], ◌∷◌, length, ◌-◌, ◌≡◌, refl, ◌<◌, update, sym, true, some,
}
use comfy_aimdo_xpu.Transfer.{
  Task, transfer_chunks, Reader, chunk_size, pending_of, push_task, chunk_task, xfer_file_task_pop,
  finish_task, popped,
}
use comfy_aimdo_xpu.Transfer.Cover.{Tiles, transfer_chunks-Tiles}
use comfy_aimdo_xpu.Transfer.System.Exact.{IsStart, Exact, xfer_file_transfer-Exact}
use comfy_aimdo_xpu.Transfer.Ring.{IsRing, IsQueue, IsRing-IsQueue}
use comfy_aimdo_xpu.Transfer.System.{
  Transferring, Step, at_start, Reach, finish, then_step, submit, take, complete,
}
use comfy_aimdo_xpu.Transfer.System.Progress.{effort, xfer_file_transfer-Advances}

abbrev no_task : Task
no_task = record {
  file_handle = 0;
  offset = 0;
  destination = 0;
  size = 0;
  mark_cold = false;
  write = false;
  wait = 0;
}

abbrev empty_ring : Reader
empty_ring = record { tasks = λ n. no_task; head = 255; tail = 255; count = 0; stop = false }

empty_ring-IsRing : IsRing empty_ring
empty_ring-IsRing = record { head_in = omega arith; count_in = omega arith; tail_at = omega arith }

abbrev bytes : ℕ
bytes = 2 * chunk_size - 3

abbrev ready : Transferring
ready = record {
  remaining = transfer_chunks 4 100 (2 ^ 40) bytes false false 7;
  reader = empty_ring;
  held = [];
  waiting = record { pending = pending_of bytes; failed = false };
  finished = [];
}

ready-IsStart :
    IsStart 7 (pending_of bytes) (transfer_chunks 4 100 (2 ^ 40) bytes false false 7) ready
ready-IsStart = record {
  all = refl;
  waits_for = (refl, refl);
  none_finished = refl;
  ring = empty_ring-IsRing;
  fresh = (refl, refl);
}

-- Two chunks, the second three bytes short.
two_chunks :
    map (λ t. t.size) (transfer_chunks 4 100 (2 ^ 40) bytes false false 7)
    ≡ chunk_size ∷ (chunk_size - 3) ∷ []
unfolding transfer_chunks
two_chunks = refl

IsRing-IsQueue_example : IsQueue empty_ring
IsRing-IsQueue_example = IsRing-IsQueue empty_ring empty_ring-IsRing

transfer_chunks-Tiles_example :
    Tiles 4 100 (2 ^ 40) bytes false false 7 0 (transfer_chunks 4 100 (2 ^ 40) bytes false false 7)
    × (length (transfer_chunks 4 100 (2 ^ 40) bytes false false 7) ≡ pending_of bytes)
transfer_chunks-Tiles_example =
    transfer_chunks-Tiles 4 100 (2 ^ 40) bytes false false 7 (omega arith) (omega arith)
      (omega arith)

xfer_file_transfer-Advances_example :
    (t : Transferring) × Step 7 ready t × (effort t < effort ready)
xfer_file_transfer-Advances_example =
    xfer_file_transfer-Advances 7 4 100 (2 ^ 40) bytes false false (omega arith) (omega arith)
      (omega arith) ready ready ready-IsStart at_start (omega arith)

-- Five bytes: one task, which is put into the ring, taken, and completed.
abbrev small : Task
small = chunk_task 4 100 (2 ^ 40) 5 false false 7 0

abbrev begun : Transferring
begun = record {
  remaining = small ∷ [];
  reader = empty_ring;
  held = [];
  waiting = record { pending = 1; failed = false };
  finished = [];
}

abbrev full_ring : Reader
full_ring = record empty_ring { tasks = update empty_ring.tasks 255 small; tail = 0; count = 1 }

abbrev emptied_ring : Reader
emptied_ring = record full_ring { head = 0; count = 0 }

abbrev submitted : Transferring
submitted = record begun { remaining = []; reader = full_ring }

abbrev taken : Transferring
taken = record submitted { reader = emptied_ring; held = small ∷ [] }

abbrev completed : Transferring
completed = finish 7 small true (record taken { held = [] })

small_chunks : transfer_chunks 4 100 (2 ^ 40) 5 false false 7 ≡ small ∷ []
unfolding transfer_chunks
small_chunks = refl

small_pushed : push_task empty_ring small ≡ some full_ring
unfolding push_task
small_pushed = refl

small_popped : xfer_file_task_pop full_ring ≡ popped small emptied_ring
unfolding xfer_file_task_pop
small_popped = refl

begun-IsStart : IsStart 7 (pending_of 5) (transfer_chunks 4 100 (2 ^ 40) 5 false false 7) begun
begun-IsStart = record {
  all = sym small_chunks;
  waits_for = (refl, refl);
  none_finished = refl;
  ring = empty_ring-IsRing;
  fresh = (refl, refl);
}

run : Reach 7 begun completed
run =
    then_step
      (then_step (then_step at_start (submit begun small [] full_ring refl small_pushed))
        (take submitted small emptied_ring (omega arith) small_popped))
      (complete taken [] [] small true refl)

completed_all : completed.waiting.pending ≡ 0
unfolding finish_task
completed_all = refl

xfer_file_transfer-Exact_example :
    Exact 7 (transfer_chunks 4 100 (2 ^ 40) 5 false false 7) completed
xfer_file_transfer-Exact_example =
    xfer_file_transfer-Exact 7 4 100 (2 ^ 40) 5 false false (omega arith) (omega arith)
      (omega arith) begun completed begun-IsStart run completed_all
