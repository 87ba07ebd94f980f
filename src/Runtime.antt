-- ===== src/Runtime.antt =====
-- rekuest_next/agents/base.py, `BaseAgent.process`: what the agent does with each message of the backend,
-- with the actors it manages, its reports and the postman of its actors' own calls.
pub mod Teardown
pub mod Released
pub mod Managed
pub mod Inquiries
mod Tests
use rekuest_next.Prelude.{
  ℕ, ◌-◌, ◌/◌, String, ap, ◌⊎◌, inl, inr, Bool, true, not, Option, none, some, List, [], ◌∷◌,
  if◌then◌else◌, length, all,
}
use rekuest_next.Prelude.Dict.{Dict, get, has, put, remove, values}
use rekuest_next.Objects.{Object}
use rekuest_next.Reports.{dispatch, resend, acknowledge, after, ReportKind, log, progress, Outbox}
use rekuest_next.Caller.{AgentPostman, Inbound, handle}
use rekuest_next.Actors.Reported.{ActorMessage, Ending, progress, log, yields}
use rekuest_next.Actors.Tasks.{
  Actor, new_actor, Event, sends, calls_hook, Move, move, assigns, cancels, pauses, resumes,
}

-- The classes of `ToAgentMessage`. An `AssignResponse`, a `ControlResponse` and an `ExecutionEvent` go to
-- the postman.
pub data Message {ℓ} (V : Type ℓ) : Type ℓ where
  init_message : (inquiries : List String) → Message V
  assign_message : (task interface : String) → (step : Bool) → Message V
  cancel_message : (task : String) → Message V
  pause_message : (task : String) → Message V
  resume_message : (task : String) → (step : Bool) → Message V
  protocol_error : Message V
  to_postman : Inbound V → Message V
  collect : (drawers : List String) → Message V
  assign_inquiry : (task : String) → Message V
  event_ack : (event : String) → Message V

-- The exceptions that leave `process`
pub data ProcessError : Type 0 where
  key_error actor_failed not_spawned protocol_failed no_drawer : ProcessError

pub record AgentState {ℓ} (V : Type ℓ) : Type ℓ where
  pub managed_actors : Dict Actor
  pub outbox : Outbox
  pub connected : Bool
  pub postman : AgentPostman V
  pub shelve : Dict Object

-- What `process` meets: the interfaces that the app registry has a working builder for, the ids of new
-- messages (by the number of those sent before), and how a task ends when it is cancelled.
pub record Surroundings : Type 0 where
  pub builds : String → Bool
  pub uuid : ℕ → String
  pub ending : String → Ending

-- The class of an actor's message
abbrev pub kind_of : ActorMessage → ReportKind
kind_of progress = ReportKind.progress
kind_of ActorMessage.completed = ReportKind.completed
kind_of ActorMessage.failed = ReportKind.failed
kind_of ActorMessage.critical = ReportKind.critical
kind_of ActorMessage.cancelled = ReportKind.cancelled
kind_of ActorMessage.paused = ReportKind.paused
kind_of ActorMessage.resumed = ReportKind.resumed
kind_of (log t) = ReportKind.log
kind_of (yields fs) = ReportKind.yielded

-- The agent afterwards, and the exception that leaves the call, if any
abbrev pub Processed {ℓ} : Type ℓ → Type ℓ
Processed V = AgentState V × Option ProcessError

module _ (env : Surroundings) where
  -- `_adispatch` of a new message about a task
  unfoldable pub report : String → ReportKind → Outbox → Outbox
  report task kind o =
      dispatch (record { id = env.uuid (length o.sent); task = task; kind = kind; seq = none }) o

  -- `agent.asend` for each message of an actor
  unfoldable pub report_events : List Event → Outbox → Outbox
  unfolding report
  report_events [] o = o
  report_events (sends task m ∷ es) o = report_events es (report task (kind_of m) o)
  report_events (calls_hook task ∷ es) o = report_events es o

  module _ {ℓ} {V : Type ℓ} where
    abbrev pub report_in : String → ReportKind → AgentState V → AgentState V
    report_in task kind a = record a { outbox = report task kind a.outbox }

    -- `self.managed_assignments[task] = message`
    abbrev pub manage : String → String → AgentState V → AgentState V
    manage task interface a = record a {
      outbox = record a.outbox {
        managed_assignments = put a.outbox.managed_assignments task interface;
      };
    }

    -- What an actor did: its state is kept, its messages are sent.
    unfoldable pub act : String → Actor → Move → AgentState V → Processed V
    unfolding report_events
    act interface actor m a =
        let (after, events, raised) = move m actor in
        (
          record a {
            managed_actors = put a.managed_actors interface after;
            outbox = report_events events a.outbox;
          },
          if raised then some actor_failed else none,
        )

    -- `self.managed_actors[interface]`, and `actor.apass(message)`
    unfoldable pub apass : String → Move → AgentState V → Processed V
    unfolding act
    apass interface m a = elim (get a.managed_actors interface) [
      | none ↦ (a, some key_error)
      | some actor ↦ act interface actor m a
    ]

    -- The branch for `Assign`. A new actor does not raise at its first assignment.
    unfoldable pub process_assign : String → String → Bool → AgentState V → Processed V
    unfolding act apass
    process_assign task interface step a =
        if has a.managed_actors interface
        then apass interface (assigns task step) (manage task interface a)
        else if env.builds interface
        then act interface new_actor (assigns task step) (manage task interface a)
        else (report_in task ReportKind.critical a, some not_spawned)

    -- The branch for `Cancel`, `Pause` and `Resume`
    unfoldable pub process_control : String → Move → AgentState V → Processed V
    unfolding apass
    process_control task m a = elim (get a.outbox.managed_assignments task) [
      | none ↦ (report_in task ReportKind.critical a, none)
      | some interface ↦ apass interface m a
    ]

    -- `acheck_task`, and the report of the answer
    abbrev pub answer : String → Actor → AgentState V → Processed V
    answer task actor a = (
      report_in task
          (if has actor.running_asyncio_tasks task
            then ReportKind.progress
            else ReportKind.critical)
          a,
      none,
    )

    -- The branch for `AssignInquiry`, and the loop body of the branch for `Init`
    unfoldable pub process_inquiry : String → AgentState V → Processed V
    process_inquiry task a = elim (get a.outbox.managed_assignments task) [
      | none ↦ (report_in task ReportKind.critical a, none)
      | some interface ↦ elim (get a.managed_actors interface) [
        | none ↦ (a, some key_error)
        | some actor ↦ answer task actor a
      ]
    ]

    -- An exception ends the loop.
    unfoldable pub inquire_all : List String → AgentState V → Processed V
    unfolding process_inquiry
    inquire_all [] a = (a, none)
    inquire_all (task ∷ tasks) a =
        let (b, failure) = process_inquiry task a in
        elim failure [ none ↦ inquire_all tasks b | some f ↦ (b, some f) ]

    -- `acollect` of every drawer: `del self.shelve[key]`
    unfoldable pub collect_all : List String → AgentState V → Processed V
    collect_all [] a = (a, none)
    collect_all (key ∷ keys) a =
        if has a.shelve key
        then collect_all keys (record a { shelve = remove a.shelve key })
        else (a, some no_drawer)

    unfoldable pub process : Message V → AgentState V → Processed V
    unfolding inquire_all process_assign process_control process_inquiry collect_all
    process (init_message inquiries) a =
        inquire_all inquiries
          (record a { connected = true; outbox = resend (values a.outbox.unacked_events) a.outbox })
    process (assign_message task interface step) a = process_assign task interface step a
    process (cancel_message task) a = process_control task (cancels task (env.ending task)) a
    process (pause_message task) a = process_control task (pauses task) a
    process (resume_message task step) a = process_control task (resumes task step) a
    process protocol_error a = (a, some protocol_failed)
    process (to_postman m) a = (record a { postman = handle m a.postman }, none)
    process (collect drawers) a = collect_all drawers a
    process (assign_inquiry task) a = process_inquiry task a
    process (event_ack event) a = (record a { outbox = acknowledge event a.outbox }, none)

    -- What happens while the agent runs: a message is processed, or the code of a task of an actor moves on.
    unfoldable pub proceed : Message V ⊎ (String × Move) → AgentState V → Processed V
    unfolding process
    proceed (inl message) a = process message a
    proceed (inr (interface, m)) a = elim (get a.managed_actors interface) [
      | none ↦ (a, none)
      | some actor ↦ act interface actor m a
    ]

    -- `_aconsume_messages`: the first exception ends it.
    unfoldable pub consume : List (Message V ⊎ (String × Move)) → AgentState V → Processed V
    unfolding proceed
    consume [] a = (a, none)
    consume (o ∷ os) a =
        let (b, failure) = proceed o a in
        elim failure [ none ↦ consume os b | some f ↦ (b, some f) ]
