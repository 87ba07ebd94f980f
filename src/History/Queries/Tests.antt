-- ===== src/History/Queries/Tests.antt =====
-- Queries about the agent of History/Tests.
use rekuest_next.Prelude.{
  ℕ, ◌+◌, ◌-◌, ◌/◌, min, ◌≡◌, refl, ap, not, none, some, List, [], ◌∷◌, map, arith, ltb, leb,
  length, set, filter,
}
use rekuest_next.Prelude.Dict.{get, put}
use rekuest_next.Agent.{
  patched_document, advance, process_patch_event, patch_event_loop, init_each, init_states, start,
  MemoryStore, Agent,
}
use rekuest_next.History.{extract_state_snapshots}
use rekuest_next.History.Sorting.{sorted_by, insert_by}
use rekuest_next.History.Tests.{
  apply_append, env, unstarted, schemas, earlier, later_patches, begun,
}
use rekuest_next.History.Queries.{to_patch_event, is_forward, get_events_between}
use rekuest_next.History.Queries.Snapshots.{around_each, get_snapshots_around}
use rekuest_next.History.Queries.Paging.{fetch_pages, fetch_pages-forward}
use rekuest_next.History.Queries.Segments.{events-lead}
use rekuest_next.History.Queries.Applied.{apply_events}
use rekuest_next.History.Queries.Around.{at_most, length-around}

abbrev first : Agent (List ℕ) ℕ
first = (patch_event_loop env earlier begun).1

abbrev second : Agent (List ℕ) ℕ
second = (patch_event_loop env later_patches first).1

abbrev last : Agent (List ℕ) ℕ
last = (patch_event_loop env earlier second).1

events-lead_example :
    apply_events apply_append
      (get_events_between first.global_revision second.global_revision
        (some ("stage" ∷ []))
        none
        last.store)
      (5 ∷ 6 ∷ 7 ∷ [])
    ≡ some (5 ∷ 6 ∷ 7 ∷ 8 ∷ [])
unfolding start init_states init_each patch_event_loop process_patch_event patched_document advance
    rekuest_next.Prelude.Dict.get put apply_append
events-lead_example =
    events-lead env "stage" none schemas schemas earlier later_patches earlier unstarted []
      (5 ∷ 6 ∷ 7 ∷ []) (5 ∷ 6 ∷ 7 ∷ 8 ∷ []) ((λ v h. refl), ((λ v h. refl), ((λ v h. refl), tt)))
      ((λ v h. refl), tt) ((λ v h. refl), ((λ v h. refl), ((λ v h. refl), tt)))
      (record {
        nothing_stored = refl;
        first_revision = refl;
        same_session = refl;
        interval_set = refl;
      })
      refl refl refl refl

abbrev served : MemoryStore (List ℕ) ℕ
served = (patch_event_loop env earlier unstarted).1.store

fetch_pages-forward_example :
    fetch_pages (some "stage") none 2 served 3 0
    ≡ map to_patch_event (filter (is_forward 0 (some "stage") none) served.patches)
unfolding patch_event_loop process_patch_event patched_document advance
    rekuest_next.Prelude.Dict.get put apply_append
fetch_pages-forward_example =
    fetch_pages-forward env earlier unstarted (some "stage") none 1 0 3 refl (omega arith)

length-around_example :
    let known = extract_state_snapshots "stage" none last.store.snapshots in
    length (get_snapshots_around 3 (some "stage") none 0 1 last.store)
    ≡ at_most 0 (length (filter (λ s. leb s.revision 3) known))
      + min 1 (length (filter (λ s. ltb 3 s.revision) known))
length-around_example = length-around 3 "stage" none 0 1 last.store

-- All three snapshots up to the revision come, though none is asked for.
unasked : length (get_snapshots_around 3 (some "stage") none 0 0 last.store) ≡ 3
unfolding start init_states init_each patch_event_loop process_patch_event patched_document advance
    rekuest_next.Prelude.Dict.get put apply_append get_snapshots_around around_each
    extract_state_snapshots rekuest_next.History.Sorting.sorted_by insert_by
unasked = refl
