-- ===== src/Hooks/Tests.antt =====
-- Concrete hooks.
use rekuest_next.Prelude.{ℕ, ◌≡◌, refl, Option, some, List, [], ◌∷◌}
use rekuest_next.Prelude.Dict.{has, put}
use rekuest_next.Hooks.{run_startup_hooks, StartupReturns}

abbrev nothing : StartupReturns ℕ
nothing = record { states = []; contexts = [] }

abbrev hooks : List (Option (StartupReturns ℕ))
hooks =
    some (record { states = ("stage", 1) ∷ []; contexts = [] })
    ∷ some (record { states = ("camera", 2) ∷ []; contexts = ("db", 3) ∷ [] })
    ∷ []

abbrev together : StartupReturns ℕ
together = record { states = ("stage", 1) ∷ ("camera", 2) ∷ []; contexts = ("db", 3) ∷ [] }

startup : run_startup_hooks hooks nothing ≡ some together
unfolding run_startup_hooks put has
startup = refl
