-- ===== src/Runtime/Teardown.antt =====
-- rekuest_next/agents/base.py, how an agent starts, runs and ends: `astart`, `aconnect`, `aloop`, `aprovide`
-- and `atear_down`, over the resources that they take and release. A cancellation of the tear down itself,
-- a failing `adisconnect` and the time limits are left out.
use rekuest_next.Prelude.{
  String, Bool, true, false, Option, none, some, List, [], ◌∷◌, if◌then◌else◌,
}
use rekuest_next.Hooks.{Shutdown, run_shutdown_hooks}

-- How the wait for a task ends that has been cancelled: the task returns, it ends as cancelled, or it
-- raises a `RuntimeError` or another exception.
pub data Awaited : Type 0 where
  fine cancelled runtime_error other_error : Awaited

-- The tasks that run, each background task with how it will end when it is cancelled, and what is open.
-- `running_assignments` are the tasks that actors run, with the locks that they hold.
pub record Resources : Type 0 where
  pub background_tasks : List Awaited
  pub shutdown : Shutdown
  pub patch_processor_task : Option Awaited
  pub event_queue : Bool
  pub errorfuture : Bool
  pub transport : Bool
  pub connected : Bool
  pub receiver : Bool
  pub running_assignments : List String

-- What an agent does not decide: how its background tasks and its patch processor end, the names of the
-- shutdown hooks and which of them fail, whether the consumer of messages ignores its
-- cancellation, and which assignments the actors run when the agent is interrupted.
pub record World : Type 0 where
  pub background_workers : List Awaited
  pub patch_processor : Awaited
  pub shutdown_hooks : List String
  pub hook_fails : String → Bool
  pub consumer_stuck : Bool
  pub assigned : List String

-- `except asyncio.CancelledError` around the wait for a background task
abbrev pub background_ends : Awaited → Bool
background_ends fine = true
background_ends cancelled = true
background_ends _ = false

-- `except (asyncio.CancelledError, RuntimeError)` around the wait for the patch processor
abbrev pub processor_ends : Option Awaited → Bool
processor_ends (some other_error) = false
processor_ends _ = true

-- The loop that awaits the background tasks: a task that has ended leaves the registry, and those behind one
-- that raises count as running. The flag says whether an exception leaves the loop.
unfoldable pub await_background : List Awaited → List Awaited × Bool
await_background [] = ([], false)
await_background (t ∷ ts) =
    let rest = await_background ts in if background_ends t then rest else (ts, true)

-- The end of `atear_down`, behind the patch processor
abbrev pub let_go : Resources → Resources
let_go r = record r {
  event_queue = false;
  errorfuture = false;
  transport = false;
  connected = false;
  receiver = false;
}

module _ (w : World) where
  -- `atear_down`, and whether an exception leaves it. The tasks of the actors are no part of it, since
  -- nothing fills `managed_actor_tasks`.
  unfoldable pub atear_down : Resources → Resources × Bool
  unfolding await_background
  atear_down r =
      let (left, raised) = await_background r.background_tasks in
      let ended : Resources = record r { background_tasks = left } in
      if raised
      then (ended, true)
      else let hooked : Resources = record ended {
        shutdown = run_shutdown_hooks w.hook_fails w.shutdown_hooks r.shutdown;
      } in
        if processor_ends r.patch_processor_task then (let_go hooked, false) else (hooked, true)

-- Where `_aconnect_sequence` is left by an exception or a cancellation: in the startup hooks or before, in
-- `ainit_states`, while the transport is opened, or in the wait for the acknowledgement.
pub data Phase : Type 0 where
  hooks states opening acknowledging : Phase

-- What ends a run before its time: a cancellation, or another exception
pub data Interruption : Type 0 where
  cancellation exception : Interruption

-- The resources afterwards, and what leaves the call, if anything
abbrev pub Run : Type 0
Run = Resources × Option Interruption

abbrev pub hooked : Resources → Resources
hooked r = record r { shutdown = record r.shutdown { ran_startup_hooks = true } }

module _ (w : World) where
  -- `astart` to its end
  abbrev pub started : Resources → Resources
  started r = record (hooked r) {
    background_tasks = w.background_workers;
    patch_processor_task = some w.patch_processor;
    event_queue = true;
    errorfuture = true;
  }

  -- `self._receiver = ...`, before the transport is opened
  abbrev pub received : Resources → Resources
  received r = record (started r) { receiver = true }

  -- `_aconnect_sequence`: to its end, or as far as it gets
  unfoldable pub connect_sequence : Option Phase → Resources → Resources
  connect_sequence (some hooks) r = r
  connect_sequence (some states) r = hooked r
  connect_sequence (some opening) r = received r
  connect_sequence (some acknowledging) r = record (received r) {
    transport = true;
    running_assignments = w.assigned;
  }
  connect_sequence none r = record (received r) {
    transport = true;
    connected = true;
    running_assignments = w.assigned;
  }

  -- A handler that tears the agent down and raises again: an exception of the tear down takes the place
  -- of what was handled.
  abbrev pub after_teardown : Interruption → Resources × Bool → Run
  after_teardown i (r, raised) = (r, some (if raised then exception else i))

  -- `aconnect`: `stop` is the phase that is left and how.
  unfoldable pub aconnect : Option (Phase × Interruption) → Resources → Run
  unfolding connect_sequence atear_down
  aconnect none r = (connect_sequence none r, none)
  aconnect (some (phase, i)) r = after_teardown i (atear_down w (connect_sequence (some phase) r))

  -- `_astop_consume_task`, which disconnects where the consumer does not unwind in time
  abbrev pub stop_consume_task : Resources → Resources
  stop_consume_task r = if w.consumer_stuck then record r { transport = false } else r

  -- `aloop`, by what ends the consumption of the messages. A stream that ends by itself leaves the agent
  -- as it is.
  unfoldable pub aloop : Option Interruption → Resources → Run
  unfolding atear_down
  aloop none r = (r, none)
  aloop (some cancellation) r = after_teardown cancellation (atear_down w (stop_consume_task r))
  aloop (some exception) r = after_teardown exception (atear_down w r)

  -- The handler of `aprovide`
  unfoldable pub on_cancelled : Run → Run
  unfolding atear_down
  on_cancelled (r, some cancellation) = after_teardown cancellation (atear_down w r)
  on_cancelled (r, some exception) = (r, some exception)
  on_cancelled (r, none) = (r, none)

  -- `aprovide`
  unfoldable pub aprovide : Option (Phase × Interruption) → Option Interruption → Resources → Run
  unfolding aconnect aloop on_cancelled
  aprovide stop consumption r =
      let (opened, interruption) = aconnect stop r in
      on_cancelled
        (elim interruption [ none ↦ aloop consumption opened | some i ↦ (opened, some i) ])
