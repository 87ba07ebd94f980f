-- ===== src/Messages.antt =====
-- rekuest_next/messages.py: the messages that the models read, with the fields that the code reads.
-- A payload (`returns`, `args`, snapshots) is a value of a type `V`, which the models only pass on.
use rekuest_next.Prelude.{ℕ, String, Bool, false, not, Option, none, some, str_eq}

-- The classes under `ExecutionEvent`, which mirror what happens to a task.
pub data EventKind {ℓ} (V : Type ℓ) : Type ℓ where
  bound queued started delegate cancelling cancelled interrupting interrupted : EventKind V
  pausing paused resuming resumed progress log disconnected completed : EventKind V
  yielded : Option V → EventKind V
  failed critical : Option String → EventKind V

pub record ExecutionEvent {ℓ} (V : Type ℓ) : Type ℓ where
  pub task : String
  pub seq : ℕ
  pub kind : EventKind V

pub record AssignResponse : Type 0 where
  pub request : String
  pub task : Option String
  pub error : Option String

pub record ControlResponse : Type 0 where
  pub request : String
  pub accepted : Bool

-- `if text:` on an optional text
abbrev pub truthy : Option String → Bool
truthy none = false
truthy (some s) = not (str_eq s "")
