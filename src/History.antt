-- ===== src/History.antt =====
-- rekuest_next/contrib/fastapi/retriever/memory_retriever.py, `MemoryRetriever`: the state that an
-- interface had at a revision, from the stored snapshots and patches.
pub mod Sorting
pub mod Bounds
pub mod Store
pub mod Loop
pub mod Sent
pub mod Answers
pub mod Steps
pub mod Checkout
pub mod Start
pub mod Queries
mod Tests
use rekuest_next.Prelude.{
  ℕ, suc, ◌-◌, ◌/◌, String, ap, Bool, true, not, ◌&&◌, Option, none, some, List, [], ◌∷◌, str_eq,
  leb, ◌==◌, if◌then◌else◌, filter,
}
use rekuest_next.Prelude.Dict.{Dict, get}
use rekuest_next.Pointer.{Text}
use rekuest_next.Evented.{Op, remove, Result, ok, raised, patch_conflict}
use rekuest_next.Evented.Receiver.{Apply}
use rekuest_next.History.Sorting.{sorted_by, max_by}
use rekuest_next.Agent.{StatePatch, StateSnapshot, MemoryStore}

-- `session_id is None or item.session_id == session_id`
abbrev pub in_session : Option String → String → Bool
in_session none s = true
in_session (some wanted) s = str_eq s wanted

-- The tuples of `_extract_state_snapshots`
pub record StoredState {ℓ} (D : Type ℓ) : Type ℓ where
  pub revision : ℕ
  pub document : D
  pub session : String

-- `protocol.Snapshot`, without its time
pub record Snapshot {ℓ} (D : Type ℓ) : Type ℓ where
  pub document : D
  pub global_revision : ℕ
  pub session_id : String

module _ {ℓ} {D : Type ℓ} where
  -- `_extract_state_snapshots`
  pub extract_state_snapshots :
      String → Option String → List (StateSnapshot D) → List (StoredState D)
  extract_state_snapshots state_id session_id [] = []
  extract_state_snapshots state_id session_id (event ∷ events) =
      let rest = extract_state_snapshots state_id session_id events in
      if not (in_session session_id event.session_id)
      then rest
      else elim (get event.snapshots state_id) [
        | none ↦ rest
        | some d ↦
            record { revision = event.global_rev; document = d; session = event.session_id } ∷ rest
      ]

  -- `max(..., key=revision, default=None)` of the snapshots up to the target
  abbrev pub anchor_of : ℕ → List (StoredState D) → Option (StoredState D)
  anchor_of target snaps = max_by (λ s. s.revision) (filter (λ s. leb s.revision target) snaps)

-- The `value` of `_to_patch_document`, which a removal does not have
abbrev pub sent_value {κ} : {B : Type κ} → Op → Option B → Option B
sent_value remove value = none
sent_value _ value = value

module _ {ℓ κ} {D : Type ℓ} {B : Type κ} (apply_patch : Apply D B) where
  -- The patches between the anchor and the target; `global_rev - 1` is on ℤ, so the anchor is below
  -- the revision.
  abbrev pub is_between : String → Option String → ℕ → ℕ → StatePatch B → Bool
  is_between state_id session_id anchor target p =
      str_eq p.state_name state_id
      && leb (suc anchor) p.global_rev
      && leb p.global_rev target
      && in_session session_id p.session_id

  abbrev pub revise : Snapshot D → StatePatch B → D → Snapshot D
  revise s p d = record s { document = d; global_revision = p.global_rev }

  -- the loop over the patches
  unfoldable pub apply_patches : List (StatePatch B) → Snapshot D → Result (Snapshot D)
  apply_patches [] s = ok s
  apply_patches (p ∷ ps) s = elim (apply_patch s.document p.op p.path (sent_value p.op p.value)) [
    | none ↦ raised patch_conflict
    | some d ↦ apply_patches ps (revise s p d)
  ]

  abbrev pub found : Result (Snapshot D) → Result (Option (Snapshot D))
  found (ok s) = ok (some s)
  found (raised e) = raised e

  abbrev pub at_anchor : StoredState D → Snapshot D
  at_anchor a = record {
    document = a.document;
    global_revision = a.revision;
    session_id = a.session;
  }

  abbrev pub replay_chosen : List (StatePatch B) → StoredState D → Result (Option (Snapshot D))
  replay_chosen chosen a =
      found (apply_patches (sorted_by (λ p. p.global_rev) chosen) (at_anchor a))

  -- From the anchor on; without one there is no answer.
  abbrev pub replay :
      String
      → ℕ
      → Option String
      → List (StatePatch B)
      → Option (StoredState D)
      → Result (Option (Snapshot D))
  replay state_id target session_id patches none = ok none
  replay state_id target session_id patches (some a) =
      replay_chosen (filter (is_between state_id session_id a.revision target) patches) a

  -- `_build_state_snapshot`
  unfoldable pub build_state_snapshot :
      String → ℕ → Option String → MemoryStore D B → Result (Option (Snapshot D))
  unfolding extract_state_snapshots apply_patches
  build_state_snapshot state_id target_revision session_id store =
      replay state_id target_revision session_id store.patches
        (anchor_of target_revision (extract_state_snapshots state_id session_id store.snapshots))
