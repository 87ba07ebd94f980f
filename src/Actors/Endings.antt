-- ===== src/Actors/Endings.antt =====
-- How the reports of an assignment end (`FunctionalActor.on_assign` of
-- rekuest_next/actors/functional.py).
use rekuest_next.Prelude.{◌≡◌, Bool, true, false, not, ◌&&◌, List, [], ◌∷◌, all}
use rekuest_next.Actors.Reported.{is_terminal, ActorMessage, Ending, returned}
use rekuest_next.Actors.{Run}

-- Exactly one report is terminal, and it is the last one.
unfoldable pub well_ended : List ActorMessage → Bool
well_ended [] = false
well_ended (m ∷ ms) = elim ms [ [] ↦ is_terminal m | _ ↦ not (is_terminal m) && well_ended ms ]

-- No report is terminal.
unfoldable pub open_ended : List ActorMessage → Bool
open_ended ms = all (λ m. not (is_terminal m)) ms

abbrev pub returns_normally : Ending → Bool
returns_normally returned = true
returns_normally _ = false

-- The reports end as the outcome says.
abbrev Concludes : Run → Type 0
Concludes r =
    (well_ended r.reports ≡ returns_normally r.outcome)
    × (open_ended r.reports ≡ not (returns_normally r.outcome))
