-- ===== src/Evented/EdgeTests.antt =====
-- Concrete calls at the edges of the event-emitting containers.
use rekuest_next.Prelude.{ℕ, List, ◌∷◌}

abbrev digit : List ℕ → ℕ
digit (s ∷ d ∷ ds) = d
digit _ = 0
