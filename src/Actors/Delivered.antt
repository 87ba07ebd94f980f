-- ===== src/Actors/Delivered.antt =====
-- A whole call: from the caller's `ashrink_args` through `FunctionalActor.on_assign` of
-- rekuest_next/actors/functional.py to the caller's `aexpand_returns`.
use rekuest_next.Prelude.{◌≡◌, some, List, [], ◌∷◌}
use rekuest_next.Objects.{Objects, Fields}
use rekuest_next.Ports.{Ports}
use rekuest_next.Serialization.{Runtime}
use rekuest_next.Serialization.Shelving.{Shelve}
use rekuest_next.Serialization.Calls.{aexpand_returns, tuple}
use rekuest_next.Serialization.Each.{FitsEach}
use rekuest_next.Actors.Reported.{ActorMessage, yields}
use rekuest_next.Actors.{Results, ends, gives}

-- A function that gives these tuples, each while the shelve is as beside it, and then ends
abbrev pub gives_each : List (Objects × Shelve) → Results
gives_each [] = ends
gives_each ((vs, s) ∷ rest) = gives (tuple vs) s (gives_each rest)

module _ (rt : Runtime) (returns : Ports) where
  abbrev pub FitEach : List (Objects × Shelve) → Type 0
  FitEach [] = Unit
  FitEach ((vs, s) ∷ rest) = FitsEach rt returns vs × FitEach rest

  -- One `Yield` for each tuple, from which the caller gets the tuple back.
  abbrev pub Delivers : List (Objects × Shelve) → List ActorMessage → Type 0
  Delivers [] [] = Unit
  Delivers ((vs, s) ∷ rest) (m ∷ ms) =
      ((fs : Fields) × (m ≡ yields fs) × (aexpand_returns rt returns fs ≡ some (vs, fs)))
      × Delivers rest ms
  Delivers results ms = ⊥
