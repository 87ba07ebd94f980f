-- ===== src/Actors/Reported.antt =====
-- What an actor of rekuest_next/actors/base.py sends about its tasks (messages of
-- rekuest_next/messages.py), and how the coroutine of a task ends.
use rekuest_next.Prelude.{String, Bool, true, false}
use rekuest_next.Objects.{Fields}

-- What an actor sends about its task. The texts of errors and of the progress are left out.
pub data ActorMessage : Type 0 where
  progress completed failed critical cancelled paused resumed : ActorMessage
  log : String → ActorMessage
  yields : Fields → ActorMessage

-- `isinstance(message, _TERMINAL_FROM_AGENT_TYPES)` of rekuest_next/agents/base.py
abbrev pub is_terminal : ActorMessage → Bool
is_terminal completed = true
is_terminal failed = true
is_terminal critical = true
is_terminal cancelled = true
is_terminal _ = false

-- How the coroutine ends: it returns, an exception leaves it, or the task is cancelled.
pub data Ending : Type 0 where
  returned raised stopped : Ending
