-- ===== src/Transport.antt =====
-- rekuest_next/agents/transport/websocket.py: the connection task of `WebsocketAgentTransport` and the
-- consumer of what it receives. The backend and the network are a list of rounds, one for each run of
-- the `while True` body: how the attempt to connect goes, what the socket delivers and how it ends.
-- Times and the registration message are left out.
pub mod Consumer
pub mod Retries
mod Tests
use rekuest_next.Prelude.{
  ℕ, suc, ◌+◌, ◌-◌, ◌/◌, Bool, true, false, not, ◌||◌, Option, none, some, List, [], ◌∷◌, ◌++◌, ltb,
  ◌==◌, if◌then◌else◌, set, all,
}

pub record Config : Type 0 where
  pub max_retries : ℕ
  pub allow_reconnect : Bool

-- A message of the socket: a payload is a message of any other kind, `invalid` is JSON that no message
-- validates, and `unreadable` is no JSON or no text.
pub data Frame : Type 0 where
  heartbeat bounce kick invalid unreadable : Frame
  payload : ℕ → Frame

-- How the socket ends: closed normally, closed with an error and the close code if there was a close
-- frame, or broken by any other exception.
pub data Ending : Type 0 where
  closed_ok broken : Ending
  closed_error : Option ℕ → Ending

-- `refused` is an InvalidHandshake, and `failed` is any other exception before there is a connection.
pub data Attempt : Type 0 where
  refused failed : Attempt
  session : List Frame → Ending → Attempt

pub data Failure : Type 0 where
  correctable definite was_kicked already_busy was_blocked : Failure

-- Whether `_closing` is set when the round begins and when its attempt has failed.
pub data Round : Type 0 where
  round : (closing_before : Bool) → Attempt → (closing_after : Bool) → Round

pub data Item : Type 0 where
  message : ℕ → Item
  failure : Failure → Item
  closed : Item

pub record Transport : Type 0 where
  pub retry : ℕ
  pub in_queue : List Item
  pub heartbeats : ℕ

abbrev pub opened : Transport
opened = record { retry = 0; in_queue = []; heartbeats = 0 }

-- self._in_queue.put_nowait(item)
abbrev pub put_nowait : Item → Transport → Transport
put_nowait i t = record t { in_queue = t.in_queue ++ i ∷ [] }

-- await self.asend(messages.HeartbeatEvent())
abbrev pub answer_heartbeat : Transport → Transport
answer_heartbeat t = record t { heartbeats = suc t.heartbeats }

-- `agent_error_codes`, and the branch of BOUNCED_CODE, which does what all other codes do
unfoldable pub code_failure : ℕ → Failure
code_failure code =
    if code == 3001
    then was_kicked
    else if code == 3002
    then already_busy
    else if code == 4003
    then was_blocked
    else correctable

-- the `except` clauses of a connection that ends; 1006 is ABNORMAL_CLOSURE
unfoldable pub ending_failure : Ending → Option Failure
ending_failure closed_ok = none
ending_failure broken = some definite
ending_failure (closed_error none) = some (code_failure 1006)
ending_failure (closed_error (some code)) = some (code_failure code)

-- `async for message in client`
unfoldable pub receive : List Frame → Ending → Transport → Option Failure × Transport
receive [] e t = (ending_failure e, t)
receive (heartbeat ∷ fs) e t = receive fs e (answer_heartbeat t)
receive (bounce ∷ fs) e t = (some correctable, t)
receive (kick ∷ fs) e t = (some definite, t)
receive (invalid ∷ fs) e t = receive fs e t
receive (unreadable ∷ fs) e t = (some definite, t)
receive (payload m ∷ fs) e t = receive fs e (put_nowait (message m) t)

-- A connection resets the number of retries.
unfoldable pub attempt_once : Attempt → Transport → Option Failure × Transport
attempt_once refused t = (some correctable, t)
attempt_once failed t = (some definite, t)
attempt_once (session fs e) t = receive fs e (record t { retry = 0 })

pub data Outcome : Type 0 where
  running returned : Outcome
  raised : Failure → Outcome

-- What follows a round: the next one, or the end of the loop.
pub data Verdict : Type 0 where
  again : Transport → Verdict
  stop : Outcome → Transport → Verdict

-- the outer `except` clauses
unfoldable pub recover : Config → Bool → Option Failure → Transport → Verdict
recover c closing none t = again t
recover c closing (some correctable) t =
    if closing
    then stop returned t
    else if ltb c.max_retries t.retry || not c.allow_reconnect
    then stop (raised definite) t
    else again (record t { retry = suc t.retry })
recover c closing (some definite) t = stop (raised definite) t
recover c closing (some was_kicked) t = stop (raised was_kicked) t
recover c closing (some already_busy) t = stop (raised already_busy) t
recover c closing (some was_blocked) t = stop (raised was_blocked) t

unfoldable pub run_round : Config → Round → Transport → Verdict
run_round c (round true a closing) t = stop returned t
run_round c (round false a closing) t = let (f, u) = attempt_once a t in recover c closing f u

-- The loop over the rounds that there are; it is still running after them, or has ended before.
unfoldable pub connect_and_receive : Config → List Round → Transport → Outcome × Transport
connect_and_receive c [] t = (running, t)
connect_and_receive c (r ∷ rs) t = elim (run_round c r t) [
  | again u ↦ connect_and_receive c rs u
  | stop o u ↦ (o, u)
]

-- The failure goes to the consumer, and the mark of the end follows.
abbrev pub announce : Outcome × Transport → Transport
announce (running, t) = t
announce (returned, t) = put_nowait closed t
announce (raised f, t) = put_nowait closed (put_nowait (failure f) t)

unfoldable pub connection_loop : Config → List Round → Transport → Transport
connection_loop c rs t = announce (connect_and_receive c rs t)

-- What the consumer has: it waits for more, its iteration is over, or it raises.
pub data Received : Type 0 where
  waiting ended : Received
  failing : Failure → Received

unfoldable pub areceive : List Item → List ℕ × Received
areceive [] = ([], waiting)
areceive (message m ∷ q) = let rest = areceive q in (m ∷ rest.0, rest.1)
areceive (failure f ∷ q) = ([], failing f)
areceive (closed ∷ q) = ([], ended)
