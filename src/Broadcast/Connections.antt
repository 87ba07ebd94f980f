-- ===== src/Broadcast/Connections.antt =====
-- rekuest_next/contrib/fastapi/agent.py, `FastAPIConnectionManager`: which websockets are connected, and
-- what each of them is sent. The routing key of a task is the agent's to tell and a parameter, the time
-- intervals of the states are left out, and a websocket is known by its name. The sending loop
-- of a broadcast holds the lock and is one step; each disconnection that it causes is a later one.
use rekuest_next.Prelude.{
  ℕ, String, Bool, true, false, not, ◌&&◌, Option, none, some, List, [], ◌∷◌, ◌++◌, str_eq,
  if◌then◌else◌, filter, contains,
}
use rekuest_next.Prelude.Dict.{Dict, get, put, remove}

-- What decides who gets a message: the class of the message, with the key that it is routed by
pub data Routed : Type 0 where
  state_patch : (state_name : String) → Routed
  lock_change : (key : String) → Routed
  about_task : (task : Option String) → Routed

-- `messages.FromAgentMessage`
pub record Outgoing : Type 0 where
  pub id : ℕ
  pub routed : Routed

-- `_WebSocketSubscriptions`, `WebSocketSubscriptionInit`
pub record Subscriptions : Type 0 where
  pub action_keys : Option (List String)
  pub state_keys : Option (List String)
  pub lock_keys : Option (List String)

-- `normalized or None`
abbrev pub or_all : List String → Option (List String)
or_all [] = none
or_all (k ∷ ks) = some (k ∷ ks)

abbrev pub normalize : Option (List String) → Option (List String)
normalize none = none
normalize (some values) = or_all (filter (λ v. not (str_eq v "")) values)

abbrev pub from_init : Subscriptions → Subscriptions
from_init payload = record {
  action_keys = normalize payload.action_keys;
  state_keys = normalize payload.state_keys;
  lock_keys = normalize payload.lock_keys;
}

-- `keys is None or key in keys`
abbrev pub subscribed : Option (List String) → String → Bool
subscribed none key = true
subscribed (some keys) key = contains keys key

pub record Connections : Type 0 where
  pub active_connections : List String
  pub connections : Dict Subscriptions
  pub sent : List (String × Outgoing)

abbrev pub no_connections : Connections
no_connections = record { active_connections = []; connections = []; sent = [] }

-- `connect`
abbrev pub connect : String → Subscriptions → Connections → Connections
connect w s c = record c {
  active_connections =
      if contains c.active_connections w then c.active_connections else w ∷ c.active_connections;
  connections = put c.connections w s;
}

-- `disconnect`
abbrev pub disconnect : String → Connections → Connections
disconnect w c = record c {
  active_connections = filter (λ v. not (str_eq v w)) c.active_connections;
  connections = remove c.connections w;
}

-- `routing_key` is the `task_routing_key_resolver` on the `task` of a message.
module _ (routing_key : Option String → Option String) where
  -- `_matches_subscription`
  unfoldable pub matches_subscription : Subscriptions → Routed → Bool
  matches_subscription s (state_patch name) = subscribed s.state_keys name
  matches_subscription s (lock_change key) = subscribed s.lock_keys key
  matches_subscription s (about_task task) = elim (routing_key task) [
    | none ↦ false
    | some key ↦ subscribed s.action_keys key
  ]

  -- `connection_state is None or not self._matches_subscription(...)`, negated
  abbrev pub wants : Outgoing → Option Subscriptions → Bool
  wants m none = false
  wants m (some s) = matches_subscription s m.routed

  -- The loop of `broadcast_model`, with the websockets that could not be sent to
  unfoldable pub broadcast_each :
      (fails : String → Bool) → Outgoing → List String → Connections → List String × Connections
  unfolding matches_subscription
  broadcast_each fails m [] c = ([], c)
  broadcast_each fails m (w ∷ ws) c =
      let wanted = wants m (get c.connections w) in
      let next : Connections =
        if wanted && not (fails w) then record c { sent = c.sent ++ (w, m) ∷ [] } else c in
      let (disconnected, after) = broadcast_each fails m ws next in
      (if wanted && fails w then w ∷ disconnected else disconnected, after)

  -- `broadcast_model` up to the release of the lock, with the websockets that it then disconnects, one by
  -- one; other calls may come between.
  unfoldable pub broadcast_model :
      (fails : String → Bool) → Outgoing → Connections → List String × Connections
  unfolding broadcast_each
  broadcast_model fails m c = broadcast_each fails m c.active_connections c

-- What happens to the manager: a websocket connects with its payload or is disconnected, by its endpoint or
-- by a broadcast that failed for it, or a message is broadcast, where sending to some websockets fails.
pub data Happening : Type 0 where
  connects : (websocket : String) → (payload : Subscriptions) → Happening
  disconnects : (websocket : String) → Happening
  broadcasts : (fails : String → Bool) → Outgoing → Happening

module _ (routing_key : Option String → Option String) where
  unfoldable pub happen : Happening → Connections → Connections
  unfolding broadcast_model
  happen (connects w payload) c = connect w (from_init payload) c
  happen (disconnects w) c = disconnect w c
  happen (broadcasts fails m) c = (broadcast_model routing_key fails m c).1

  unfoldable pub happen_all : List Happening → Connections → Connections
  unfolding happen
  happen_all [] c = c
  happen_all (h ∷ hs) c = happen_all hs (happen h c)
