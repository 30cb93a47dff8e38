-- ===== src/Transfer/Ring.antt =====
-- The ring of src/xfer-file.c against a queue.
use comfy_aimdo_xpu.Base.{
  none, some, false, true, ℕ, ◌<◌, List, [], suc, ◌≤◌, ◌≢◌, ◌∷◌, ◌≡◌, ◌+◌, ◌%◌, zero, update, arith,
  length, ◌++◌, Option, Bool-cases, false, some, ap, refl, ◌==◌, subst, true, update_self, inl,
  update-ne, inr, ◌∙◌, sym, Bool, ◌-◌,
}
use comfy_aimdo_xpu.Transfer.{
  Reader, Task, queue_cap, push_task, Pop, xfer_file_task_pop, popped, waits, ends,
}

-- The tasks in the ring, first in first.
abbrev pub ring_from : (ℕ → Task) → (head count : ℕ) → List Task
ring_from tasks head zero = []
ring_from tasks head (suc count) = tasks head ∷ ring_from tasks ((head + 1) % queue_cap) count

abbrev pub contents : Reader → List Task
contents r = ring_from r.tasks r.head r.count

pub record IsRing (r : Reader) : Type 0 where
  pub head_in : r.head < queue_cap
  pub count_in : r.count ≤ queue_cap
  pub tail_at : r.tail ≡ (r.head + r.count) % queue_cap

-- Writing the slot after the last task puts a task at the end.
ring_from-append :
    (tasks : ℕ → Task) (slot : ℕ) (task : Task) (head count : ℕ)
    → head < queue_cap
    → count < queue_cap
    → slot ≡ (head + count) % queue_cap
    → ring_from (update tasks slot task) head (suc count)
      ≡ ring_from tasks head count ++ (task ∷ [])
ring_from-append tasks slot task head zero h c e =
    let same : slot ≡ head = omega arith in
    ap (λ t. t ∷ [])
      (subst (λ k. update tasks slot task k ≡ task) same (update_self tasks slot task))
ring_from-append tasks slot task head (suc count) h c e =
    let apart : head ≢ slot = λ z. absurd (omega arith) in
    let rest =
      ring_from-append tasks slot task ((head + 1) % queue_cap) count (omega arith) (omega arith)
        (omega arith) in
    let first = update-ne tasks task apart in
    ap (λ t. t ∷ ring_from (update tasks slot task) ((head + 1) % queue_cap) (suc count)) first
    ∙ ap (λ ts. tasks head ∷ ts) rest

-- A push is refused exactly when the ring is full, and else puts the task at the end.
abbrev pub Pushed : (r : Reader) (task : Task) → Option Reader → Type 0
Pushed r task none = length (contents r) ≡ queue_cap
Pushed r task (some r') =
    IsRing r' × (contents r' ≡ contents r ++ (task ∷ [])) × (length (contents r) < queue_cap)

-- A pop waits or ends only on an empty ring, and else takes the first task.
abbrev pub Popped : (r : Reader) → Pop → Type 0
Popped r waits = (contents r ≡ []) × (r.stop ≡ false)
Popped r ends = (contents r ≡ []) × (r.stop ≡ true)
Popped r (popped task r') = IsRing r' × (contents r ≡ task ∷ contents r')

length-ring_from : (tasks : ℕ → Task) (head count : ℕ) → length (ring_from tasks head count) ≡ count
length-ring_from tasks head zero = refl
length-ring_from tasks head (suc count) =
    omega (arith, length-ring_from tasks ((head + 1) % queue_cap) count)

one_more : (n : ℕ) → suc n ≡ n + 1
one_more n = omega arith

one_less : (n : ℕ) → n ≡ suc n - 1
one_less n = omega arith

push_task-Pushed : (r : Reader) (task : Task) → IsRing r → Pushed r task (push_task r task)
unfolding push_task
push_task-Pushed r task h =
    let n = length-ring_from r.tasks r.head r.count in
    elim (Bool-cases (r.count == queue_cap)) [
      | inl e ↦ rw e (ground (arith, n))
      | inr e ↦ rw e (
        record {
          head_in = h.head_in;
          count_in = ground (arith, h.count_in);
          tail_at = omega (arith, h.tail_at);
        },
        ap (ring_from (update r.tasks r.tail task) r.head) (sym (one_more r.count))
            ∙ ring_from-append r.tasks r.tail task r.head r.count h.head_in
                (ground (arith, h.count_in)) h.tail_at,
        ground (arith, n, h.count_in),
      )
    ]

pop-Popped_at :
    (tasks : ℕ → Task) (head tail count : ℕ) (stop : Bool)
    → let r : Reader = record {
      tasks = tasks;
      head = head;
      tail = tail;
      count = count;
      stop = stop;
    } in
      IsRing r → Popped r (xfer_file_task_pop r)
unfolding xfer_file_task_pop
pop-Popped_at tasks head tail zero true h = (refl, refl)
pop-Popped_at tasks head tail zero false h = (refl, refl)
pop-Popped_at tasks head tail (suc count) stop h =
    let z : (suc count == 0) ≡ false = ground arith in
    rw z (
      record {
        head_in = omega arith;
        count_in = omega (arith, h.count_in);
        tail_at = omega (arith, h.tail_at);
      },
      ap (λ k. tasks head ∷ ring_from tasks ((head + 1) % queue_cap) k) (one_less count),
    )

pub record IsQueue (r : Reader) : Type 0 where
  pub pushes : (task : Task) → Pushed r task (push_task r task)
  pub pops : Popped r (xfer_file_task_pop r)

-- The ring is a queue of at most 256 tasks: a push is refused exactly when that many are in it and
-- else puts its task behind them; a pop waits or ends only where there are none and else takes the
-- first; and what is left is a ring again.
pub IsRing-IsQueue : (r : Reader) → IsRing r → IsQueue r
IsRing-IsQueue r h = record {
  pushes = λ task. push_task-Pushed r task h;
  pops = pop-Popped_at r.tasks r.head r.tail r.count r.stop h;
}
