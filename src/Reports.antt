-- ===== src/Reports.antt =====
-- rekuest_next/agents/base.py, `BaseAgent._adispatch` and the branches of `process` for `Init` and
-- `EventAck`: what the agent reports about its tasks, and what it keeps until the backend has it.
pub mod Retention
mod Tests
use rekuest_next.Prelude.{
  ℕ, suc, ◌+◌, ◌-◌, ◌/◌, min, String, ap, Bool, true, false, not, ◌&&◌, Option, none, some, List,
  [], ◌∷◌, ◌++◌, if◌then◌else◌, all,
}
use rekuest_next.Prelude.Dict.{Dict, get, put, remove, values, has}

-- What the agent sends: the subclasses of `FromAgentEvent`, and all other messages as one.
pub data ReportKind : Type 0 where
  completed failed critical cancelled interrupted : ReportKind
  paused resumed started log progress yielded : ReportKind
  no_event : ReportKind

pub record Report : Type 0 where
  pub id : String
  pub task : String
  pub kind : ReportKind
  pub seq : Option ℕ

-- `isinstance(message, FromAgentEvent)`
abbrev pub is_event : ReportKind → Bool
is_event no_event = false
is_event _ = true

-- `isinstance(message, _TERMINAL_FROM_AGENT_TYPES)`
abbrev pub is_terminal : ReportKind → Bool
is_terminal completed = true
is_terminal failed = true
is_terminal critical = true
is_terminal cancelled = true
is_terminal interrupted = true
is_terminal _ = false

pub record Outbox : Type 0 where
  pub event_seq : ℕ
  pub unacked_events : Dict Report
  pub managed_assignments : Dict String
  pub sent : List Report

-- `transport.asend`, which queues the message
abbrev pub send : Report → Outbox → Outbox
send message o = record o { sent = o.sent ++ message ∷ [] }

-- `message.model_copy(update={"seq": self._event_seq})`
abbrev pub stamp : Report → ℕ → Report
stamp message n = record message { seq = some n }

-- `_adispatch`
unfoldable pub dispatch : Report → Outbox → Outbox
dispatch message o =
    if not (is_event message.kind)
    then send message o
    else let stamped = stamp message (suc o.event_seq) in
      let o' : Outbox = record o { event_seq = suc o.event_seq } in
      send stamped (
        if is_terminal message.kind
        then record o' { unacked_events = put o.unacked_events message.id stamped }
        else o')

-- The loop over `list(self._unacked_events.values())`
unfoldable pub resend : List Report → Outbox → Outbox
resend [] o = o
resend (r ∷ rs) o = resend rs (send r o)

-- `EventAck`: `self._unacked_events.pop(message.event, None)`
unfoldable pub acknowledge : String → Outbox → Outbox
acknowledge event o = record o { unacked_events = remove o.unacked_events event }

-- The answer to an inquiry about a task: `running` is what `acheck_task` of its actor says, and the
-- message gets a fresh id.
unfoldable pub inquire : (id task : String) → (running : Bool) → Outbox → Outbox
unfolding dispatch
inquire id task running o =
    dispatch
      (record {
        id = id;
        task = task;
        kind = if has o.managed_assignments task && running then progress else critical;
        seq = none;
      })
      o

-- An inquiry of `Init`, with the fresh id of its answer
pub record Inquiry : Type 0 where
  pub id : String
  pub task : String
  pub running : Bool

unfoldable pub inquire_each : List Inquiry → Outbox → Outbox
unfolding inquire
inquire_each [] o = o
inquire_each (q ∷ qs) o = inquire_each qs (inquire q.id q.task q.running o)

-- `Init`, which the backend sends again after a reconnect
unfoldable pub init : List Inquiry → Outbox → Outbox
unfolding resend inquire_each
init inquiries o = inquire_each inquiries (resend (values o.unacked_events) o)

-- What happens to the reports between two awaits
pub data Step : Type 0 where
  reports : Report → Step
  acks : (event : String) → Step
  connects : List Inquiry → Step

unfoldable pub after : Step → Outbox → Outbox
after (reports message) = dispatch message
after (acks event) = acknowledge event
after (connects inquiries) = init inquiries

unfoldable pub run : List Step → Outbox → Outbox
run [] o = o
run (t ∷ ts) o = run ts (after t o)
