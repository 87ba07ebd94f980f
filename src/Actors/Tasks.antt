-- ===== src/Actors/Tasks.antt =====
-- `Actor` of rekuest_next/actors/base.py: the messages that an actor is passed (`aprocess`, `on_pause`,
-- `on_resume`), the breakpoints of its tasks (`abreak`) and the futures at which they wait.
-- Between two awaits nothing else runs, so an execution is a list of steps. The wait of a `Cancel` for the
-- end of its task counts as one step with the end. An assignment hook that raises is left out.
use rekuest_next.Prelude.{
  String, ◌≡◌, Bool, true, false, not, Option, none, some, List, [], ◌∷◌, if◌then◌else◌,
}
use rekuest_next.Prelude.Dict.{Dict, get, has, put, remove}
use rekuest_next.Actors.Reported.{
  ActorMessage, cancelled, paused, resumed, Ending, returned, raised, stopped,
}

-- A task of the event loop: it runs, it waits for its break future, that future is set and the task is to
-- run again, or it is done.
pub data Phase : Type 0 where
  working waiting woken done : Phase

pub data BreakFuture : Type 0 where
  pending dropped : BreakFuture

-- The `kind` of an `AssignmentHook`
pub data HookKind : Type 0 where
  pause_hook resume_hook : HookKind

-- What an actor does that others see
pub data Event : Type 0 where
  sends : (task : String) → ActorMessage → Event
  calls_hook : (task : String) → Event

pub record Actor : Type 0 where
  pub running_asyncio_tasks : Dict Phase
  pub break_futures : Dict BreakFuture
  pub running_assignment_hooks : Dict HookKind

abbrev pub new_actor : Actor
new_actor = record { running_asyncio_tasks = []; break_futures = []; running_assignment_hooks = [] }

-- The actor afterwards, what it did, and whether an exception leaves the call.
abbrev pub Step : Type 0
Step = Actor × List Event × Bool

abbrev pub set_phase : String → Phase → Actor → Actor
set_phase task phase a = record a { running_asyncio_tasks = put a.running_asyncio_tasks task phase }

abbrev pub set_future : String → BreakFuture → Actor → Actor
set_future task future a = record a { break_futures = put a.break_futures task future }

-- `install_assignment_hook`
abbrev pub install_assignment_hook : String → HookKind → Actor → Actor
install_assignment_hook task kind a = record a {
  running_assignment_hooks = put a.running_assignment_hooks task kind;
}

-- The branch for `Assign`, with the message's `step`
unfoldable pub assign : String → Bool → Actor → Step
assign task step a =
    (set_phase task working (if step then set_future task pending a else a), [], false)

-- A task that waits takes its future with it when it is cancelled.
abbrev pub drop_future : String → Phase → Actor → Actor
drop_future task waiting a = set_future task dropped a
drop_future task phase a = a

-- `del self._running_asyncio_tasks[task]`
abbrev pub forget : String → Actor → Actor
forget task a = record a { running_asyncio_tasks = remove a.running_asyncio_tasks task }

-- `task.cancel()` and `await task`, which ends in one of three ways
unfoldable pub await_cancelled : String → Phase → Ending → Actor → Step
await_cancelled task phase stopped a =
    (forget task (drop_future task phase a), sends task cancelled ∷ [], false)
await_cancelled task phase returned a = (set_phase task done (drop_future task phase a), [], false)
await_cancelled task phase raised a = (set_phase task done (drop_future task phase a), [], true)

-- The branch for `Cancel`
unfoldable pub cancel : String → Ending → Actor → Step
unfolding await_cancelled
cancel task outcome a = elim (get a.running_asyncio_tasks task) [
  | none ↦ (a, [], false)
  | some done ↦ (a, sends task cancelled ∷ [], false)
  | some phase ↦ await_cancelled task phase outcome a
]

abbrev pub hook_calls : String → HookKind → Actor → List Event
hook_calls task pause_hook a = elim (get a.running_assignment_hooks task) [
  | some pause_hook ↦ calls_hook task ∷ []
  | _ ↦ []
]
hook_calls task resume_hook a = elim (get a.running_assignment_hooks task) [
  | some resume_hook ↦ calls_hook task ∷ []
  | _ ↦ []
]

unfoldable pub on_pause : String → Actor → Step
on_pause task a = (
  if has a.break_futures task then a else set_future task pending a,
  hook_calls task pause_hook a,
  false,
)

-- The task that waits for a future runs again once it is set.
abbrev pub woken_by : Option Phase → String → Actor → Actor
woken_by (some waiting) task a = set_phase task woken a
woken_by phase task a = a

abbrev pub rearm : Bool → String → Actor → Actor
rearm step task a =
    if step
    then set_future task pending a
    else record a { break_futures = remove a.break_futures task }

-- `set_result` of a future that is cancelled raises an `InvalidStateError`.
unfoldable pub on_resume : String → Bool → Actor → Step
on_resume task step a = elim (get a.break_futures task) [
  | none ↦ (a, hook_calls task resume_hook a, false)
  | some dropped ↦ (a, hook_calls task resume_hook a, true)
  | some pending ↦ (
    rearm step task (woken_by (get a.running_asyncio_tasks task) task a),
    hook_calls task resume_hook a,
    false,
  )
]

-- `abreak`, called by the code of a task, up to its await. To await a cancelled future is to be cancelled.
unfoldable pub abreak : String → Actor → Step
abreak task a = elim (get a.break_futures task) [
  | none ↦ (a, [], false)
  | some pending ↦ (set_phase task waiting a, sends task paused ∷ [], false)
  | some dropped ↦ (set_phase task done a, sends task paused ∷ [], false)
]

-- The rest of `abreak`
unfoldable pub wake : String → Actor → Step
wake task a = (set_phase task working a, sends task resumed ∷ [], false)

-- The messages, what the code of a task does, and the end of a task by itself
pub data Move : Type 0 where
  assigns : String → (step : Bool) → Move
  cancels : String → Ending → Move
  pauses : String → Move
  resumes : String → (step : Bool) → Move
  breaks : String → Move
  wakes : String → Move
  ends : String → Move
  installs : String → HookKind → Move

unfoldable pub move : Move → Actor → Step
unfolding assign cancel on_pause on_resume abreak wake
move (assigns task step) a = assign task step a
move (cancels task outcome) a = cancel task outcome a
move (pauses task) a = on_pause task a
move (resumes task step) a = on_resume task step a
move (breaks task) a = abreak task a
move (wakes task) a = wake task a
move (ends task) a = (set_phase task done a, [], false)
move (installs task kind) a = (install_assignment_hook task kind a, [], false)

-- What can happen: a new id for every assignment, and only what a task's phase lets its code do.
abbrev pub can : Move → Actor → Bool
can (assigns task step) a = not (has a.running_asyncio_tasks task)
can (breaks task) a = elim (get a.running_asyncio_tasks task) [ some working ↦ true | _ ↦ false ]
can (wakes task) a = elim (get a.running_asyncio_tasks task) [ some woken ↦ true | _ ↦ false ]
can (ends task) a = elim (get a.running_asyncio_tasks task) [ some working ↦ true | _ ↦ false ]
can (installs task kind) a = elim (get a.running_asyncio_tasks task) [
  | some working ↦ true
  | _ ↦ false
]
can m a = true

pub data Reach : Actor → Type 0 where
  starts : Reach new_actor
  moves : {a : Actor} → Reach a → (m : Move) → can m a ≡ true → Reach (move m a).0
