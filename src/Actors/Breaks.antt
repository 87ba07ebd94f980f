-- ===== src/Actors/Breaks.antt =====
-- The break futures of an actor's tasks (`Actor` of rekuest_next/actors/base.py).
use rekuest_next.Prelude.{
  String, ◌≡◌, refl, inl, inr, Bool, true, false, Option, none, some, [], ◌∷◌, arith, str_eq,
  eq_refl, Bool-cases, Option-cases, String-cases,
}
use rekuest_next.Prelude.Dict.{Dict, get, has, put, remove, get-put, get-remove, has-get}
use rekuest_next.Actors.Reported.{cancelled, Ending, returned, raised, stopped}
use rekuest_next.Actors.Tasks.{
  Step, set_phase, assign, drop_future, forget, await_cancelled, cancel, on_pause, woken_by, rearm,
  Phase, working, waiting, woken, done, BreakFuture, pending, dropped, sends, Actor, on_resume,
  abreak, move, Reach, wake, moves, Move, assigns, cancels, pauses, resumes, breaks, wakes, ends,
  installs, starts,
}

-- Every task that waits at a breakpoint waits for a future that can still be set.
abbrev WaitsPending : Actor → Type 0
WaitsPending a =
    (t : String)
    → get a.running_asyncio_tasks t ≡ some waiting
    → get a.break_futures t ≡ some pending

abbrev waits : Phase → Bool
waits waiting = true
waits _ = false

phase_kept :
    (d : Dict Phase) (task t : String) (p : Phase)
    → waits p ≡ false
    → get (put d task p) t ≡ some waiting
    → (str_eq task t ≡ false) × (get d t ≡ some waiting)
phase_kept d task t p n h = ground (arith, get-put d task t p)

forget_kept :
    (d : Dict Phase) (task t : String)
    → get (remove d task) t ≡ some waiting
    → (str_eq task t ≡ false) × (get d t ≡ some waiting)
forget_kept d task t h = ground (arith, get-remove d task t)

future_other :
    (d : Dict BreakFuture) (task t : String) (f : BreakFuture)
    → str_eq task t ≡ false
    → get d t ≡ some pending
    → get (put d task f) t ≡ some pending
future_other d task t f n h = ground (arith, get-put d task t f)

future_pending :
    (d : Dict BreakFuture) (task t : String)
    → get d t ≡ some pending
    → get (put d task pending) t ≡ some pending
future_pending d task t h = ground (arith, get-put d task t pending)

removed_other :
    (d : Dict BreakFuture) (task t : String)
    → str_eq task t ≡ false
    → get d t ≡ some pending
    → get (remove d task) t ≡ some pending
removed_other d task t n h = ground (arith, get-remove d task t)

module _ (a : Actor) (w : WaitsPending a) (task : String) where
  assign-WaitsPending : (step : Bool) → WaitsPending (assign task step a).0
  unfolding assign
  assign-WaitsPending true t h =
      let (n, k) = phase_kept a.running_asyncio_tasks task t working refl h in
      future_pending a.break_futures task t (w t k)
  assign-WaitsPending false t h = w t (phase_kept a.running_asyncio_tasks task t working refl h).1

  dropped-WaitsPending :
      (p q : Phase) → waits q ≡ false → WaitsPending (set_phase task q (drop_future task p a))
  dropped-WaitsPending waiting q n t h =
      let (m, k) = phase_kept a.running_asyncio_tasks task t q n h in
      future_other a.break_futures task t dropped m (w t k)
  dropped-WaitsPending _ q n t h = w t (phase_kept a.running_asyncio_tasks task t q n h).1

  forgotten-WaitsPending : (p : Phase) → WaitsPending (forget task (drop_future task p a))
  forgotten-WaitsPending waiting t h =
      let (m, k) = forget_kept a.running_asyncio_tasks task t h in
      future_other a.break_futures task t dropped m (w t k)
  forgotten-WaitsPending _ t h = w t (forget_kept a.running_asyncio_tasks task t h).1

  await_cancelled-WaitsPending :
      (p : Phase) (o : Ending) → WaitsPending (await_cancelled task p o a).0
  unfolding await_cancelled
  await_cancelled-WaitsPending p stopped = forgotten-WaitsPending p
  await_cancelled-WaitsPending p returned = dropped-WaitsPending p done refl
  await_cancelled-WaitsPending p raised = dropped-WaitsPending p done refl

  cancel-WaitsPending : (o : Ending) → WaitsPending (cancel task o a).0
  unfolding cancel
  cancel-WaitsPending o =
      elim (get a.running_asyncio_tasks task)
        as (λ p.
          WaitsPending
            (elim p as (λ _. Step) [
              | none ↦ (a, [], false)
              | some done ↦ (a, sends task cancelled ∷ [], false)
              | some phase ↦ await_cancelled task phase o a
            ]).0) [
              | none ↦ w
              | some done ↦ w
              | some working ↦ await_cancelled-WaitsPending working o
              | some waiting ↦ await_cancelled-WaitsPending waiting o
              | some woken ↦ await_cancelled-WaitsPending woken o
            ]

  on_pause-WaitsPending : WaitsPending (on_pause task a).0
  unfolding on_pause
  on_pause-WaitsPending = elim (Bool-cases (has a.break_futures task)) [
    | inl e ↦ rw e w
    | inr e ↦ rw e (λ t h. future_pending a.break_futures task t (w t h))
  ]

  rearmed-WaitsPending :
      (step : Bool) (p : Option Phase)
      → get a.running_asyncio_tasks task ≡ p
      → WaitsPending (rearm step task (woken_by p task a))
  rearmed-WaitsPending true (some waiting) e t h =
      let (n, k) = phase_kept a.running_asyncio_tasks task t woken refl h in
      future_pending a.break_futures task t (w t k)
  rearmed-WaitsPending true _ e t h = future_pending a.break_futures task t (w t h)
  rearmed-WaitsPending false (some waiting) e t h =
      let (n, k) = phase_kept a.running_asyncio_tasks task t woken refl h in
      removed_other a.break_futures task t n (w t k)
  rearmed-WaitsPending false p e t h = elim (String-cases task t) [
    | inl s ↦ absurd (ground (arith, e, h, s))
    | inr n ↦ removed_other a.break_futures task t n (w t h)
  ]

  on_resume-WaitsPending : (step : Bool) → WaitsPending (on_resume task step a).0
  unfolding on_resume
  on_resume-WaitsPending step = elim (Option-cases (get a.break_futures task)) [
    | inl e ↦ rw (on_resume, e) w
    | inr (dropped, e) ↦ rw (on_resume, e) w
    | inr (pending, e) ↦
        rw (on_resume, e) (rearmed-WaitsPending step (get a.running_asyncio_tasks task) refl)
  ]

  waiting-WaitsPending :
      get a.break_futures task ≡ some pending → WaitsPending (set_phase task waiting a)
  waiting-WaitsPending e t h = elim (String-cases task t) [
    | inl s ↦ rw (← s) e
    | inr n ↦ w t (rw (get-put a.running_asyncio_tasks task t waiting, n) at h)
  ]

  abreak-WaitsPending : WaitsPending (abreak task a).0
  unfolding abreak
  abreak-WaitsPending = elim (Option-cases (get a.break_futures task)) [
    | inl e ↦ rw (abreak, e) w
    | inr (pending, e) ↦ rw (abreak, e) (waiting-WaitsPending e)
    | inr (dropped, e) ↦
        rw (abreak, e) (λ t h. w t (phase_kept a.running_asyncio_tasks task t done refl h).1)
  ]

move-WaitsPending : (a : Actor) → WaitsPending a → (m : Move) → WaitsPending (move m a).0
unfolding move wake
move-WaitsPending a w (assigns task step) = assign-WaitsPending a w task step
move-WaitsPending a w (cancels task outcome) = cancel-WaitsPending a w task outcome
move-WaitsPending a w (pauses task) = on_pause-WaitsPending a w task
move-WaitsPending a w (resumes task step) = on_resume-WaitsPending a w task step
move-WaitsPending a w (breaks task) = abreak-WaitsPending a w task
move-WaitsPending a w (wakes task) =
    λ t h. w t (phase_kept a.running_asyncio_tasks task t working refl h).1
move-WaitsPending a w (ends task) =
    λ t h. w t (phase_kept a.running_asyncio_tasks task t done refl h).1
move-WaitsPending a w (installs task kind) = w

Reach-WaitsPending : {a : Actor} → Reach a → WaitsPending a
unfolding get
Reach-WaitsPending starts t h = absurd (ground (arith, h))
Reach-WaitsPending (moves {a = a} r m c) t h = move-WaitsPending a (Reach-WaitsPending r) m t h

resumed :
    (a : Actor) (task : String) (step : Bool)
    → let b = rearm step task (set_phase task woken a) in
      (◌≡◌ {A = Bool} false false)
      × (get b.running_asyncio_tasks task ≡ some woken)
      × (has b.break_futures task ≡ step)
resumed a task true = (
  refl,
  ground (arith, get-put a.running_asyncio_tasks task task woken, eq_refl task),
  ground (
    arith,
    has-get (put a.break_futures task pending) task,
    get-put a.break_futures task task pending,
    eq_refl task,
  ),
)
resumed a task false = (
  refl,
  ground (arith, get-put a.running_asyncio_tasks task task woken, eq_refl task),
  ground (
    arith,
    has-get (remove a.break_futures task) task,
    get-remove a.break_futures task task,
    eq_refl task,
  ),
)

drops :
    (a : Actor) (task : String) (outcome : Ending) (step : Bool)
    → let b = (await_cancelled task waiting outcome a).0 in
      ((on_resume task step b).0 ≡ b) × ((on_resume task step b).2 ≡ true)
unfolding on_resume await_cancelled
drops a task stopped step = ground (arith, get-put a.break_futures task task dropped, eq_refl task)
drops a task returned step = ground (arith, get-put a.break_futures task task dropped, eq_refl task)
drops a task raised step = ground (arith, get-put a.break_futures task task dropped, eq_refl task)

-- In every actor that is reached by messages, breakpoints, wakes and ends of tasks in any order: a task
-- that waits at a breakpoint is woken by the `Resume` of the task, which raises nothing; its next
-- breakpoint holds it again exactly if the `Resume` is a step.
pub on_resume-wakes :
    {a : Actor}
    → Reach a
    → (task : String) (step : Bool) → get a.running_asyncio_tasks task ≡ some waiting
    → let r = on_resume task step a in
      (r.2 ≡ false)
      × (get r.0.running_asyncio_tasks task ≡ some woken)
      × (has r.0.break_futures task ≡ step)
unfolding on_resume
on_resume-wakes {a = a} r task step h =
    let e : get a.break_futures task ≡ some pending = Reach-WaitsPending r task h in
    rw (on_resume, e, h) (resumed a task step)

-- A task waits at a breakpoint and is cancelled, however its coroutine ends: a `Resume` of the task then
-- raises, and changes nothing.
pub on_resume-cancel :
    (a : Actor) (task : String) (outcome : Ending) (step : Bool)
    → get a.running_asyncio_tasks task ≡ some waiting
    → let b = (cancel task outcome a).0 in
      ((on_resume task step b).0 ≡ b) × ((on_resume task step b).2 ≡ true)
unfolding cancel on_resume await_cancelled
on_resume-cancel a task outcome step h = rw (cancel, h) (drops a task outcome step)
