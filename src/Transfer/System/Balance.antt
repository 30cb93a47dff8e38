-- ===== src/Transfer/System/Balance.antt =====
-- What the steps of a transfer of src/xfer-file.c keep.
use comfy_aimdo_xpu.Base.{
  ℕ, List, [], ◌∷◌, Bool, ◌≢◌, ◌++◌, false, ◌+◌, ◌≡◌, arith, not, Bool-cases, ◌==◌, ◌||◌, some,
  refl, inl, subst, inr, ap, ◌∙◌, if◌then◌else◌, ◌<◌, ◌^◌, ◌≤◌,
}
use comfy_aimdo_xpu.Transfer.{Task, Reader, push_task, xfer_file_task_pop, popped, finish_task}
use comfy_aimdo_xpu.Transfer.System.{
  Transferring, finish, Step, submit, submit_other, take, complete,
}
use comfy_aimdo_xpu.Transfer.Ring.{IsRing, contents, Popped, Pushed, IsRing-IsQueue}

-- The weight of some tasks.
abbrev pub weigh : (Task → ℕ) → List Task → ℕ
weigh f [] = 0
weigh f (t ∷ ts) = f t + weigh f ts

abbrev pub weigh_finished : (Task → ℕ) → List (Task × Bool) → ℕ
weigh_finished f [] = 0
weigh_finished f ((t, ok) ∷ ts) = f t + weigh_finished f ts

-- Everything that is under way or done.
abbrev pub weight : (Task → ℕ) → Transferring → ℕ
weight f s =
    weigh f s.remaining + weigh f (contents s.reader) + weigh f s.held + weigh_finished f s.finished

abbrev pub any_failed : List (Task × Bool) → Bool
any_failed [] = false
any_failed ((t, ok) ∷ ts) = not ok || any_failed ts

weigh-append : (f : Task → ℕ) (xs ys : List Task) → weigh f (xs ++ ys) ≡ weigh f xs + weigh f ys
weigh-append f [] ys = omega arith
weigh-append f (x ∷ xs) ys = omega (arith, weigh-append f xs ys)

-- What is counted of the transfer, where `f` weighs tasks of others as nothing.
pub record Weighs (me : ℕ) (f : Task → ℕ) : Type 0 where
  pub others : (t : Task) → t.wait ≢ me → f t ≡ 0

module _ (me : ℕ) where
  push-weight :
      (f : Task → ℕ) (r r' : Reader) (task : Task)
      → IsRing r
      → push_task r task ≡ some r'
      → IsRing r' × (weigh f (contents r') ≡ weigh f (contents r) + f task)
  push-weight f r r' task h e =
      let p : Pushed r task (some r') =
        subst (Pushed r task) e ((IsRing-IsQueue r h).pushes task) in
      (p.0, ap (weigh f) p.1 ∙ weigh-append f (contents r) (task ∷ []) ∙ omega arith)

  pop-weight :
      (f : Task → ℕ) (r r' : Reader) (task : Task)
      → IsRing r
      → xfer_file_task_pop r ≡ popped task r'
      → IsRing r' × (weigh f (contents r) ≡ f task + weigh f (contents r'))
  pop-weight f r r' task h e =
      let p : Popped r (popped task r') = subst (Popped r) e (IsRing-IsQueue r h).pops in
      (p.0, ap (weigh f) p.1)

  finish-weight :
      (f : Task → ℕ)
      → Weighs me f
      → (task : Task) (ok : Bool) (s : Transferring)
      → weight f (finish me task ok s) ≡ weight f s + f task
  finish-weight f w task ok s = elim (Bool-cases (task.wait == me)) [
    | inl e ↦ rw e (omega arith)
    | inr e ↦ rw e (omega (arith, w.others task (ground arith)))
  ]

  finish-IsRing :
      (task : Task) (ok : Bool) (s : Transferring)
      → IsRing s.reader
      → IsRing (finish me task ok s).reader
  finish-IsRing task ok s h = elim (Bool-cases (task.wait == me)) [
    | inl e ↦ rw e h
    | inr e ↦ rw e h
  ]

  -- A step keeps the ring, and the weight of the transfer's tasks.
  pub Step-weight :
      (f : Task → ℕ)
      → Weighs me f
      → {s t : Transferring} → Step me s t
      → IsRing s.reader
      → IsRing t.reader × (weight f t ≡ weight f s)
  Step-weight f w (submit s task rest r e p) h =
      let q = push-weight f s.reader r task h p in (q.0, omega (arith, q.1, ap (weigh f) e))
  Step-weight f w (submit_other s task r o p) h =
      let q = push-weight f s.reader r task h p in (q.0, omega (arith, q.1, w.others task o))
  Step-weight f w (take s task r l p) h =
      let q = pop-weight f s.reader r task h p in (q.0, omega (arith, q.1))
  Step-weight f w (complete s before after task ok e) h =
      let s1 = record s { held = before ++ after } in
      let out = ap (weigh f) e ∙ weigh-append f before (task ∷ after) in
      let rest = weigh-append f before after in
      (finish-IsRing task ok s1 h, omega (arith, out, rest, finish-weight f w task ok s1))

  -- One for each task of the transfer.
  abbrev pub own : Task → ℕ
  own t = if t.wait == me then 1 else 0

  pub own-Weighs : Weighs me own
  own-Weighs = record { others = λ t ne. ground (arith, ne) }

  pub weigh-zero :
      (f : Task → ℕ) → Weighs me f → (ts : List Task) → weigh own ts ≡ 0 → weigh f ts ≡ 0
  weigh-zero f w [] z = refl
  weigh-zero f w (t ∷ ts) z = elim (Bool-cases (t.wait == me)) [
    | inl e ↦ absurd (ground (arith, z))
    | inr e ↦
        let mine : f t ≡ 0 = w.others t (ground arith) in
        omega (arith, mine, weigh-zero f w ts (ground (arith, z)))
  ]

  pub record Balanced (tasks : List Task) (s : Transferring) : Type 0 where
    pub ring : IsRing s.reader
    pub weights : (f : Task → ℕ) → Weighs me f → weight f s ≡ weigh f tasks
    pub counts : s.waiting.pending + weigh_finished own s.finished ≡ weigh own tasks
    pub failures : s.waiting.failed ≡ any_failed s.finished

  -- How a worker that is through changes the wait and the record of what is finished.
  finish-counts :
      (task : Task) (ok : Bool) (s : Transferring) (n : ℕ)
      → n < 2 ^ 64
      → s.waiting.pending + weigh_finished own s.finished ≡ n
      → own task ≤ s.waiting.pending
      → (finish me task ok s).waiting.pending + weigh_finished own (finish me task ok s).finished
        ≡ n
  unfolding finish_task
  finish-counts task ok s n few c l = elim (Bool-cases (task.wait == me)) [
    | inl e ↦ rw e (ground (arith, l))
    | inr e ↦ rw e c
  ]

  finish-failures :
      (task : Task) (ok : Bool) (s : Transferring)
      → s.waiting.failed ≡ any_failed s.finished
      → (finish me task ok s).waiting.failed ≡ any_failed (finish me task ok s).finished
  unfolding finish_task
  finish-failures task ok s h = elim (Bool-cases (task.wait == me)) [
    | inl e ↦ rw e (ap (λ b. not ok || b) h)
    | inr e ↦ rw e h
  ]

  pub Step-counts :
      {s t : Transferring}
      → Step me s t
      → (n : ℕ) → n < 2 ^ 64
      → weight own s ≡ n
      → s.waiting.pending + weigh_finished own s.finished ≡ n
      → s.waiting.failed ≡ any_failed s.finished
      → (t.waiting.pending + weigh_finished own t.finished ≡ n)
        × (t.waiting.failed ≡ any_failed t.finished)
  Step-counts (submit s task rest r e p) n few w c h = (c, h)
  Step-counts (submit_other s task r o p) n few w c h = (c, h)
  Step-counts (take s task r l p) n few w c h = (c, h)
  Step-counts (complete s before after task ok e) n few w c h =
      let s1 = record s { held = before ++ after } in
      let out = ap (weigh own) e ∙ weigh-append own before (task ∷ after) in
      (finish-counts task ok s1 n few c (omega (arith, w, c, out)), finish-failures task ok s1 h)
