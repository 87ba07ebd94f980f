-- ===== src/Broadcast.antt =====
-- rekuest_next/contrib/fastapi/agent.py, `_squash_state_patches`: what a websocket with an update
-- interval gets of the patches that were buffered for it.
pub mod Squash
pub mod Last
pub mod Connections
pub mod Attempts
pub mod Followed
mod Tests
use rekuest_next.Prelude.{
  ℕ, suc, ◌-◌, ◌/◌, ap, Bool, true, false, ◌&&◌, List, [], ◌∷◌, map, ◌==◌, if◌then◌else◌,
}
use rekuest_next.Pointer.{Text}
use rekuest_next.Agent.{StatePatch}
use rekuest_next.History.Sorting.{sorted_by}

abbrev pub same_text : Text → Text → Bool
same_text [] [] = true
same_text (c ∷ s) (d ∷ t) = c == d && same_text s t
same_text s t = false

-- `latest_by_path: dict[str, tuple[int, messages.StatePatch]]`
abbrev pub Latest {κ} : Type κ → Type κ
Latest B = List (Text × ℕ × StatePatch B)

module _ {κ} {B : Type κ} where
  -- `latest_by_path[patch.path] = (index, patch)`
  pub put_latest : Latest B → ℕ → StatePatch B → Latest B
  put_latest [] i patch = (patch.path, i, patch) ∷ []
  put_latest ((path, j, old) ∷ entries) i patch =
      let rest = put_latest entries i patch in
      if same_text path patch.path then (path, i, patch) ∷ entries else (path, j, old) ∷ rest

  -- The loop over `enumerate(patches)`
  pub latest_by_path : List (StatePatch B) → ℕ → Latest B → Latest B
  latest_by_path [] i entries = entries
  latest_by_path (patch ∷ patches) i entries =
      latest_by_path patches (suc i) (put_latest entries i patch)

  -- `_squash_state_patches`
  unfoldable pub squash_state_patches : List (StatePatch B) → List (StatePatch B)
  unfolding put_latest latest_by_path
  squash_state_patches patches = map (λ e. e.2) (sorted_by (λ e. e.1) (latest_by_path patches 0 []))
