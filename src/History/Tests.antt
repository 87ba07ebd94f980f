-- ===== src/History/Tests.antt =====
-- A concrete agent with one state, its patches, and what is answered about them.
use rekuest_next.Prelude.{
  ℕ, ◌+◌, ◌-◌, ◌/◌, String, refl, ap, true, not, Option, none, some, List, [], ◌∷◌, ◌++◌, set, all,
}
use rekuest_next.Prelude.Dict.{Dict, get, put}
use rekuest_next.Pointer.{codes}
use rekuest_next.Ports.{Port, Ports, PortKind, port, no_info}
use rekuest_next.Evented.{Op}
use rekuest_next.Evented.Receiver.{Apply}
use rekuest_next.Agent.{
  init_states, init_each, process_patch_event, patched_document, advance, Agent, Shrink,
  QueuedPatch, start, patch_event_loop,
}
use rekuest_next.History.Steps.{Recalls}
use rekuest_next.History.Start.{start-checkout}

-- A document is a list, and every patch is an append.
unfoldable pub apply_append : Apply (List ℕ) ℕ
apply_append d Op.add path (some v) = some (d ++ v ∷ [])
apply_append d op path v = none

abbrev pub env : Shrink (List ℕ) ℕ ℕ
unfolding apply_append
env = record {
  shrink_state = λ i. some [];
  shrink_return = λ i p. p.value;
  apply_patch = apply_append;
  is_scalar = λ v. true;
  in_place = λ a q v p b. b + 1;
}

abbrev pub some_port : Option Port
some_port = some (port "xs" PortKind.int no_info Ports.nil)

abbrev pub append_of : ℕ → QueuedPatch ℕ
append_of v = record {
  interface = "stage";
  patch = record {
    op = Op.add;
    path = codes "/xs/-";
    value = some v;
    old_value = none;
    port = some_port;
    correlation_id = none;
  };
}

abbrev pub unstarted : Agent (List ℕ) ℕ
unstarted = record {
  current_shrunk_states = [];
  global_revision = 0;
  current_session = "s";
  snapshot_interval = 2;
  store = record { patches = []; snapshots = [] };
}

abbrev pub schemas : List String
schemas = "stage" ∷ []

abbrev pub earlier : List (QueuedPatch ℕ)
earlier = append_of 5 ∷ append_of 6 ∷ append_of 7 ∷ []

abbrev pub later_patches : List (QueuedPatch ℕ)
later_patches = append_of 8 ∷ []

abbrev pub begun : Agent (List ℕ) ℕ
begun = (start env schemas schemas unstarted).1

start-checkout_example :
    Recalls env "stage" none
      (patch_event_loop env earlier begun).1.global_revision
      (5 ∷ 6 ∷ 7 ∷ [])
      (patch_event_loop env later_patches (patch_event_loop env earlier begun).1).1.store
unfolding start init_states init_each patch_event_loop process_patch_event patched_document advance
    rekuest_next.Prelude.Dict.get put apply_append
start-checkout_example =
    start-checkout env "stage" none schemas schemas earlier later_patches unstarted []
      (5 ∷ 6 ∷ 7 ∷ []) ((λ v h. refl), ((λ v h. refl), ((λ v h. refl), tt))) ((λ v h. refl), tt)
      (record {
        nothing_stored = refl;
        first_revision = refl;
        same_session = refl;
        interval_set = refl;
      })
      refl refl refl
