-- ===== src/Broadcast/Followed.antt =====
-- What one websocket gets (`FastAPIConnectionManager` of rekuest_next/contrib/fastapi/agent.py), whatever
-- the others do.
use rekuest_next.Prelude.{
  String, not, ◌&&◌, Option, none, some, List, [], ◌∷◌, ◌++◌, str_eq, if◌then◌else◌,
}
use rekuest_next.Prelude.Dict.{get}
use rekuest_next.Broadcast.Connections.{
  from_init, wants, Happening, connects, disconnects, broadcasts, Outgoing, Subscriptions,
  Connections,
}
use rekuest_next.Broadcast.Attempts.{received}

-- What one websocket sees: its subscriptions, if it is connected, and the messages that it got
abbrev pub View : Type 0
View = Option Subscriptions × List Outgoing

abbrev pub view : String → Connections → View
view w c = (get c.connections w, received w c.sent)

module _ (routing_key : Option String → Option String) where
  -- A websocket alone: it gets a message that it wants, unless sending it fails.
  abbrev pub follow : String → Happening → View → View
  follow w (connects v payload) (s, got) = (if str_eq v w then some (from_init payload) else s, got)
  follow w (disconnects v) (s, got) = (if str_eq v w then none else s, got)
  follow w (broadcasts fails m) (s, got) =
      (s, if wants routing_key m s && not (fails w) then got ++ m ∷ [] else got)

  unfoldable pub follow_all : String → List Happening → View → View
  follow_all w [] seen = seen
  follow_all w (h ∷ hs) seen = follow_all w hs (follow w h seen)
