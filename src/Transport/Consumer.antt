-- ===== src/Transport/Consumer.antt =====
-- What `areceive` of rekuest_next/agents/transport/websocket.py yields over a whole run of the
-- connection task.
use rekuest_next.Prelude.{ℕ, ◌≡◌, Bool, true, false, List, [], ◌∷◌, ◌++◌, map, length, take}
use rekuest_next.Transport.{
  connect_and_receive, Frame, heartbeat, invalid, payload, Attempt, refused, failed, session, Round,
  round, Item, message, Outcome, running, returned, raised, Verdict, again, stop, Received, waiting,
  ended, failing, Config, Transport,
}

-- The payloads before the frame that ends a connection.
unfoldable pub heard : List Frame → List ℕ
heard [] = []
heard (heartbeat ∷ fs) = heard fs
heard (invalid ∷ fs) = heard fs
heard (payload m ∷ fs) = m ∷ heard fs
heard (_ ∷ fs) = []

abbrev pub heard_in : Attempt → List ℕ
heard_in refused = []
heard_in failed = []
heard_in (session fs e) = heard fs

abbrev pub heard_over : List Round → List ℕ
heard_over [] = []
heard_over (round b a d ∷ rs) = heard_in a ++ heard_over rs

-- How the consumer ends, by how the loop ends.
abbrev pub consumed : Outcome → Received
consumed running = waiting
consumed returned = ended
consumed (raised f) = failing f

abbrev messages : List ℕ → List Item
messages = map message

abbrev queue_of : Verdict → List Item
queue_of (again u) = u.in_queue
queue_of (stop o u) = u.in_queue

abbrev pub ends : Outcome → Bool
ends running = false
ends _ = true

abbrev ends_if_stopped : Verdict → Bool
ends_if_stopped (again u) = true
ends_if_stopped (stop o u) = ends o

-- Of the rounds, the first k have been heard, and all of them while the loop runs.
abbrev HeardFrom : Transport → List Round → Outcome × Transport → Type 0
HeardFrom t rs (o, u) =
    (k : ℕ) × (u.in_queue ≡ t.in_queue ++ messages (heard_over (take k rs)))
    × (ends o ≡ false → k ≡ length rs)

abbrev go_on : Config → List Round → Verdict → Outcome × Transport
go_on c rs v = elim v [ again u ↦ connect_and_receive c rs u | stop o u ↦ (o, u) ]
