-- ===== src/Broadcast/Tests.antt =====
-- A buffer with two appends to one list, and a run of two websockets.
use rekuest_next.Prelude.{ℕ, String, ◌≡◌, refl, false, none, some, List, [], ◌∷◌, map, str_eq}
use rekuest_next.Pointer.{codes}
use rekuest_next.Prelude.Dict.{get, put, remove}
use rekuest_next.Broadcast.Connections.{
  no_connections, happen_all, state_patch, Happening, connects, disconnects, broadcasts, Outgoing,
  Subscriptions,
}
use rekuest_next.Broadcast.Followed.{view}
use rekuest_next.Broadcast.Attempts.{received}
use rekuest_next.Broadcast.{squash_state_patches}
use rekuest_next.Broadcast.Squash.{append_patch}
use rekuest_next.Broadcast.Last.{keep_last, squash_state_patches-keep_last}
use rekuest_next.History.Sorting.{insert_by, sorted_by}
use rekuest_next.Agent.{StatePatch}

abbrev buffered : List (StatePatch ℕ)
buffered =
    append_patch (codes "/xs") "stage" 4 7 "s"
    ∷ append_patch (codes "/ys") "stage" 5 8 "s"
    ∷ append_patch (codes "/xs") "stage" 6 9 "s"
    ∷ []

flushed : map (λ p. p.global_rev) (squash_state_patches buffered) ≡ 5 ∷ 6 ∷ []
unfolding squash_state_patches sorted_by insert_by
flushed = refl

squash_state_patches-keep_last_example : squash_state_patches buffered ≡ keep_last buffered
squash_state_patches-keep_last_example = squash_state_patches-keep_last buffered

abbrev payload : Subscriptions
payload = record { action_keys = none; state_keys = some ("stage" ∷ []); lock_keys = some [] }

abbrev patch_of : ℕ → String → Outgoing
patch_of n name = record { id = n; routed = state_patch name }

abbrev happenings : List Happening
happenings =
    connects "a" payload
    ∷ connects "b" payload
    ∷ broadcasts (λ w. false) (patch_of 1 "stage")
    ∷ broadcasts (λ w. false) (patch_of 2 "camera")
    ∷ broadcasts (str_eq "b") (patch_of 3 "stage")
    ∷ broadcasts (λ w. false) (patch_of 4 "stage")
    ∷ disconnects "b"
    ∷ []

-- The third patch fails for the second websocket, which gets the fourth before its disconnection.
served :
    view "b" (happen_all (λ t. t) happenings no_connections)
    ≡ (none, patch_of 1 "stage" ∷ patch_of 4 "stage" ∷ [])
unfolding happen_all received get remove put
served = refl
