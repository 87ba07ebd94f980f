-- ===== src/History/Queries.antt =====
-- rekuest_next/contrib/fastapi/retriever/memory_retriever.py, the queries of `MemoryRetriever` over
-- patches and snapshots. The store is set, and points in time are left out.
pub mod Snapshots
pub mod Ordered
pub mod Paging
pub mod Applied
pub mod Segments
pub mod Around
mod Tests
use Prim.Native.Nat.{Ordering}
use Prim.Native.String.{compare}
use rekuest_next.Prelude.{
  ℕ, zero, suc, ◌+◌, ◌-◌, ◌/◌, min, String, ap, Bool, true, false, ◌&&◌, ◌||◌, Option, none, some,
  List, [], ◌∷◌, map, str_eq, ltb, leb, ◌==◌, if◌then◌else◌, set, take, filter, contains,
}
use rekuest_next.Prelude.Dict.{Dict, keys}
use rekuest_next.Pointer.{Text}
use rekuest_next.Evented.{Result, Op, ok, raised}
use rekuest_next.Evented.Receiver.{Apply}
use rekuest_next.Agent.{StatePatch, StateSnapshot, MemoryStore}
use rekuest_next.History.Sorting.{sorted_by}
use rekuest_next.History.{
  in_session, extract_state_snapshots, build_state_snapshot, StoredState, Snapshot,
}

-- The integers that a revision before the first one needs; `negsuc n` is -(n + 1).
pub data ℤ : Type 0 where
  pos : ℕ → ℤ
  negsuc : ℕ → ℤ

-- `global_rev - 1`
abbrev pub rev_before : ℕ → ℤ
rev_before zero = negsuc 0
rev_before (suc n) = pos n

-- The JSON of a patch; a removal has no `value`.
pub record PatchDocument {κ} (B : Type κ) : Type κ where
  pub op : Op
  pub path : Text
  pub value : Option (Option B)

pub record PatchEvent {κ} (B : Type κ) : Type κ where
  pub state_id : String
  pub global_current_rev : ℤ
  pub global_future_rev : ℕ
  pub correlation_id : String
  pub session_id : String
  pub patch : PatchDocument B

pub record TaskBoundary : Type 0 where
  pub correlation_id : String
  pub start_global_revision : ℤ
  pub end_global_revision : ℕ

pub record SessionBoundary : Type 0 where
  pub session_id : String
  pub start_global_revision : ℤ
  pub end_global_revision : ℕ

-- `state_ids is None or name in state_ids`
abbrev pub in_states : Option (List String) → String → Bool
in_states none name = true
in_states (some names) name = contains names name

-- `state_id is None or name == state_id`
abbrev pub is_state : Option String → String → Bool
is_state none name = true
is_state (some wanted) name = str_eq name wanted

abbrev pub or_blank : Option String → String
or_blank none = ""
or_blank (some s) = s

-- The order of texts, by code points
abbrev pub text_leb : String → String → Bool
text_leb s t = elim (compare s t) [ Ordering.gt ↦ false | _ ↦ true ]

abbrev pub is_task : String → Option String → Bool
is_task correlation_id none = false
is_task correlation_id (some task) = str_eq task correlation_id

module _ {κ} {B : Type κ} where
  abbrev pub to_patch_document : Op → Text → Option B → PatchDocument B
  to_patch_document op path value = record {
    op = op;
    path = path;
    value = elim op [ Op.remove ↦ none | _ ↦ some value ];
  }

  abbrev pub to_patch_event : StatePatch B → PatchEvent B
  to_patch_event p = record {
    state_id = p.state_name;
    global_current_rev = rev_before p.global_rev;
    global_future_rev = p.global_rev;
    correlation_id = or_blank p.task_id;
    session_id = p.session_id;
    patch = to_patch_document p.op p.path p.value;
  }

  -- The order of the keys `(global_rev - 1, state_name)`
  abbrev pub key_leb : StatePatch B → StatePatch B → Bool
  key_leb p q =
      ltb p.global_rev q.global_rev
      || (p.global_rev == q.global_rev && text_leb p.state_name q.state_name)

  unfoldable pub insert_patch : StatePatch B → List (StatePatch B) → List (StatePatch B)
  insert_patch p [] = p ∷ []
  insert_patch p (q ∷ qs) =
      let rest = insert_patch p qs in if key_leb p q then p ∷ q ∷ qs else q ∷ rest

  -- `sorted(patches, key=...)`, which is stable
  unfoldable pub sorted_patches : List (StatePatch B) → List (StatePatch B)
  unfolding insert_patch
  sorted_patches [] = []
  sorted_patches (p ∷ ps) = insert_patch p (sorted_patches ps)

  abbrev pub min_rev : StatePatch B → List (StatePatch B) → ℕ
  min_rev p [] = p.global_rev
  min_rev p (q ∷ qs) = min p.global_rev (min_rev q qs)

  abbrev pub max_rev : StatePatch B → List (StatePatch B) → ℕ
  max_rev p [] = p.global_rev
  max_rev p (q ∷ qs) = let m = max_rev q qs in if leb p.global_rev m then m else p.global_rev

  abbrev pub is_forward : ℕ → Option String → Option String → StatePatch B → Bool
  is_forward revision state_id session_id p =
      leb (suc revision) p.global_rev
      && is_state state_id p.state_name
      && in_session session_id p.session_id

  abbrev pub is_within : ℕ → ℕ → Option (List String) → Option String → StatePatch B → Bool
  is_within from_revision to_revision state_ids session_id p =
      leb (suc from_revision) p.global_rev
      && leb p.global_rev to_revision
      && in_states state_ids p.state_name
      && in_session session_id p.session_id

  module _ {ℓ} {D : Type ℓ} where
    -- `aget_task_boundaries`
    unfoldable pub get_task_boundaries :
        String → Option String → MemoryStore D B → Option TaskBoundary
    get_task_boundaries correlation_id state_id store =
        elim (filter (λ p. is_task correlation_id p.task_id && is_state state_id p.state_name)
          store.patches) [
            | [] ↦ none
            | p ∷ ps ↦ some (record {
              correlation_id = correlation_id;
              start_global_revision = rev_before (min_rev p ps);
              end_global_revision = max_rev p ps;
            })
          ]

    -- `aget_session_boundaries`
    unfoldable pub get_session_boundaries :
        String → Option String → MemoryStore D B → Option SessionBoundary
    get_session_boundaries session_id state_id store =
        elim (filter (λ p. str_eq p.session_id session_id && is_state state_id p.state_name)
          store.patches) [
            | [] ↦ none
            | p ∷ ps ↦ some (record {
              session_id = session_id;
              start_global_revision = rev_before (min_rev p ps);
              end_global_revision = max_rev p ps;
            })
          ]

    -- `aget_forward_events_after_rev`
    unfoldable pub get_forward_events :
        ℕ → Option String → Option String → (count : ℕ) → MemoryStore D B → List (PatchEvent B)
    unfolding sorted_patches
    get_forward_events revision state_id session_id count store = map to_patch_event (
        take count
          (sorted_patches (filter (is_forward revision state_id session_id) store.patches)))

    -- `aget_patch_events_between_global_revs`
    unfoldable pub get_events_between :
        ℕ → ℕ → Option (List String) → Option String → MemoryStore D B → List (PatchEvent B)
    unfolding sorted_patches
    get_events_between from_revision to_revision state_ids session_id store = map to_patch_event (
        sorted_patches
          (filter (is_within from_revision to_revision state_ids session_id) store.patches))
