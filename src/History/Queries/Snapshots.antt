-- ===== src/History/Queries/Snapshots.antt =====
-- rekuest_next/contrib/fastapi/retriever/memory_retriever.py, the queries of `MemoryRetriever` that
-- answer with snapshots.
use rekuest_next.Prelude.{
  ℕ, zero, suc, ◌-◌, String, Option, none, some, List, [], ◌∷◌, ◌++◌, map, str_eq, ltb, leb,
  if◌then◌else◌, length, take, drop, filter,
}
use rekuest_next.Prelude.Dict.{keys}
use rekuest_next.Evented.{Result, ok, raised}
use rekuest_next.Evented.Receiver.{Apply}
use rekuest_next.Agent.{StateSnapshot, MemoryStore}
use rekuest_next.History.Sorting.{sorted_by}
use rekuest_next.History.{
  in_session, extract_state_snapshots, build_state_snapshot, StoredState, Snapshot,
}
use rekuest_next.History.Queries.{text_leb}

-- What `aget_state_at_global_rev` returns: about one state, or about all of them
pub data Checkout {ℓ} (D : Type ℓ) : Type ℓ where
  one : Option (Snapshot D) → Checkout D
  many : List (Snapshot D) → Checkout D

-- `sorted(state_ids)` of a set: a new name takes its place, a known one is there already.
unfoldable pub add_name : String → List String → List String
add_name s [] = s ∷ []
add_name s (t ∷ ts) =
    let rest = add_name s ts in
    if str_eq s t then t ∷ ts else if text_leb s t then s ∷ t ∷ ts else t ∷ rest

unfoldable pub add_names : List String → List String → List String
unfolding add_name
add_names [] known = known
add_names (s ∷ names) known = add_names names (add_name s known)

-- `items[-n:]`, which is the whole list for n = 0
abbrev pub last_items {ℓ} : {A : Type ℓ} → ℕ → List A → List A
last_items zero xs = xs
last_items (suc n) xs = drop (length xs - suc n) xs

module _ {ℓ} {D : Type ℓ} where
  unfoldable pub names_of_snapshots :
      Option String → List (StateSnapshot D) → List String → List String
  unfolding add_names
  names_of_snapshots session_id [] known = known
  names_of_snapshots session_id (e ∷ events) known =
      names_of_snapshots session_id events
        (if in_session session_id e.session_id then add_names (keys e.snapshots) known else known)

  abbrev pub to_snapshot : StoredState D → Snapshot D
  to_snapshot s = record {
    document = s.document;
    global_revision = s.revision;
    session_id = s.session;
  }

  -- The body of the loop of `aget_snapshots_around_rev`
  abbrev pub snapshots_of : ℕ → (before after : ℕ) → List (StoredState D) → List (Snapshot D)
  snapshots_of revision before after snaps =
      map to_snapshot (
        last_items before
          (sorted_by (λ s. s.revision) (filter (λ s. leb s.revision revision) snaps)))
      ++ map to_snapshot
          (take after (sorted_by (λ s. s.revision) (filter (λ s. ltb revision s.revision) snaps)))

  module _ {κ} {B : Type κ} where
    -- `_get_state_ids`
    unfoldable pub get_state_ids : Option String → MemoryStore D B → List String
    unfolding names_of_snapshots
    get_state_ids session_id store =
        add_names
          (map (λ p. p.state_name) (filter (λ p. in_session session_id p.session_id) store.patches))
          (names_of_snapshots session_id store.snapshots [])

    abbrev pub asked_states : Option String → Option String → MemoryStore D B → List String
    asked_states (some state_id) session_id store = state_id ∷ []
    asked_states none session_id store = get_state_ids session_id store

    unfoldable pub around_each :
        ℕ → Option String → (before after : ℕ) → List String → MemoryStore D B → List (Snapshot D)
    around_each revision session_id before after [] store = []
    around_each revision session_id before after (state_id ∷ state_ids) store =
        snapshots_of revision before after
          (extract_state_snapshots state_id session_id store.snapshots)
        ++ around_each revision session_id before after state_ids store

    -- `aget_snapshots_around_rev`
    unfoldable pub get_snapshots_around :
        ℕ → Option String → Option String → (before after : ℕ) → MemoryStore D B → List (Snapshot D)
    unfolding around_each get_state_ids
    get_snapshots_around revision state_id session_id before after store =
        around_each revision session_id before after (asked_states state_id session_id store) store

    module _ (apply_patch : Apply D B) where
      abbrev pub collected : Option (Snapshot D) → List (Snapshot D) → List (Snapshot D)
      collected none ss = ss
      collected (some s) ss = s ∷ ss

      -- The comprehension of `_aget_state_at_revision`
      unfoldable pub state_each :
          ℕ → Option String → List String → MemoryStore D B → Result (List (Snapshot D))
      state_each revision session_id [] store = ok []
      state_each revision session_id (state_id ∷ state_ids) store =
          let rest = state_each revision session_id state_ids store in
          elim (build_state_snapshot apply_patch state_id revision session_id store) [
            | raised e ↦ raised e
            | ok answer ↦ elim rest [ raised e ↦ raised e | ok ss ↦ ok (collected answer ss) ]
          ]

      abbrev pub first_of : List (Snapshot D) → Option (Snapshot D)
      first_of [] = none
      first_of (s ∷ ss) = some s

      -- `aget_state_at_global_rev`
      unfoldable pub get_state_at :
          ℕ → Option String → Option String → MemoryStore D B → Result (Checkout D)
      unfolding state_each get_state_ids
      get_state_at revision state_id session_id store =
          elim (state_each revision session_id (asked_states state_id session_id store) store) [
            | raised e ↦ raised e
            | ok ss ↦ elim state_id [ none ↦ ok (many ss) | some i ↦ ok (one (first_of ss)) ]
          ]
