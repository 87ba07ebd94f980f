-- ===== src/Agent.antt =====
-- rekuest_next/agents/base.py, `BaseAgent`: the queue of state patches, the agent's shrunk states and
-- its checkpoints; and how rekuest_next/contrib/fastapi keeps what the agent publishes.
use rekuest_next.Prelude.{
  ℕ, suc, ◌%◌, String, Bool, not, Option, none, some, List, [], ◌∷◌, ◌++◌, map, ◌==◌, if◌then◌else◌,
  all, contains,
}
use rekuest_next.Prelude.Dict.{Dict, get, put}
use rekuest_next.Pointer.{Text}
use rekuest_next.Evented.{
  Act, ok, raised, pure, gets, modify, ◌>>=◌, ◌>>◌, Op, Patch, agent_exception, patch_conflict,
  zero_division, remove, Result, continue, or_raise,
}
use rekuest_next.Evented.Receiver.{Apply}

-- `messages.StatePatch`, without its time stamp
pub record StatePatch {κ} (B : Type κ) : Type κ where
  pub global_rev : ℕ
  pub state_name : String
  pub op : Op
  pub path : Text
  pub value : Option B
  pub task_id : Option String
  pub session_id : String

-- `messages.StateSnapshot`; the deep copy of an immutable document is the document
pub record StateSnapshot {ℓ} (D : Type ℓ) : Type ℓ where
  pub session_id : String
  pub global_rev : ℕ
  pub snapshots : Dict D

-- `QueuedPatchEvent`
pub record QueuedPatch {μ} (A : Type μ) : Type μ where
  pub interface : String
  pub patch : Patch A

-- `MemoryStore` of rekuest_next/contrib/fastapi/sink/memory_sink.py
pub record MemoryStore {ℓ κ} (D : Type ℓ) (B : Type κ) : Type (ℓ ⊔ κ) where
  pub patches : List (StatePatch B)
  pub snapshots : List (StateSnapshot D)

pub record Agent {ℓ κ} (D : Type ℓ) (B : Type κ) : Type (ℓ ⊔ κ) where
  pub current_shrunk_states : Dict D
  pub global_revision : ℕ
  pub current_session : String
  pub snapshot_interval : ℕ
  pub store : MemoryStore D B

-- What the agent calls: documents `D`, wire values `B`, live values `A`. A serialization that raises
-- is `none`. A list or dict of the wire is an object that the shrunk states and the stored patches share:
-- `in_place` is what the application of a patch to the shrunk state of the agent makes of the value of a
-- stored patch. A scalar (a text, a number, a Boolean or None) cannot be changed in place.
pub record Shrink {ℓ κ μ} (D : Type ℓ) (B : Type κ) (A : Type μ) : Type (ℓ ⊔ κ ⊔ μ) where
  pub shrink_state : String → Option D
  pub shrink_return : String → Patch A → Option B
  pub apply_patch : Apply D B
  pub is_scalar : B → Bool
  pub in_place : Agent D B → QueuedPatch A → Option B → StatePatch B → B → B

module _ {ℓ κ μ} {D : Type ℓ} {B : Type κ} {A : Type μ} (env : Shrink D B A) where
  open env use {shrink_state, shrink_return, apply_patch, is_scalar, in_place}

  -- `apublish_snapshot`, through `adump_snapshot` of the memory sink; the broadcast to the
  -- websockets is left out
  abbrev pub publish_snapshot : StateSnapshot D → Act (Agent D B) (Unit {0})
  publish_snapshot snapshot =
      modify (λ a. record a {
        store = record a.store { snapshots = a.store.snapshots ++ snapshot ∷ [] };
      })

  -- `apublish_patch`, through `awrite_patch` of the memory sink, in the same way
  abbrev pub publish_patch : StatePatch B → Act (Agent D B) (Unit {0})
  publish_patch patch =
      modify (λ a. record a { store = record a.store { patches = a.store.patches ++ patch ∷ [] } })

  -- The shrunk state of an interface, which the agent makes from the live state when it is missing.
  abbrev pub shrunk_state : String → Act (Agent D B) D
  shrunk_state interface a = elim (get a.current_shrunk_states interface) [
    | some d ↦ (ok d, a)
    | none ↦ elim (shrink_state interface) [
      | none ↦ (raised agent_exception, a)
      | some d ↦
          (ok d, record a { current_shrunk_states = put a.current_shrunk_states interface d })
    ]
  ]

  -- `_ashrink_patch_value`: the port is missing, or the value cannot be serialized
  abbrev pub shrink_patch_value : String → Patch A → Result (Option B)
  shrink_patch_value interface patch = elim patch.op [
    | remove ↦ ok none
    | _ ↦ elim patch.port [
      | none ↦ raised agent_exception
      | some p ↦ elim (shrink_return interface patch) [
        | none ↦ raised agent_exception
        | some v ↦ ok (some v)
      ]
    ]
  ]

  -- The wire value of a patch, and the document after it (`_aapply_patch_to_shrunk_state`)
  unfoldable pub patched_document : QueuedPatch A → D → Result (Option B × D)
  patched_document q document = elim (shrink_patch_value q.interface q.patch) [
    | raised e ↦ raised e
    | ok v ↦ elim (apply_patch document q.patch.op q.patch.path v) [
      | none ↦ raised patch_conflict
      | some d ↦ ok (v, d)
    ]
  ]

  -- The value of a stored patch after a patch has been applied in place
  abbrev pub touched : Agent D B → QueuedPatch A → Option B → StatePatch B → Option B → Option B
  touched a q v p none = none
  touched a q v p (some b) = some (if is_scalar b then b else in_place a q v p b)

  abbrev pub touch : Agent D B → QueuedPatch A → Option B → StatePatch B → StatePatch B
  touch a q v p = record p { value = touched a q v p p.value }

  -- `self.global_revision % self.snapshot_interval == 0`, then the checkpoint of all states
  abbrev pub checkpoint : Act (Agent D B) (Unit {0})
  checkpoint a =
      if a.snapshot_interval == 0
      then (raised zero_division, a)
      else if a.global_revision % a.snapshot_interval == 0
      then publish_snapshot
          (record {
            session_id = a.current_session;
            global_rev = a.global_revision;
            snapshots = a.current_shrunk_states;
          })
          a
      else (ok tt, a)

  abbrev pub state_patch : QueuedPatch A → Option B → Agent D B → StatePatch B
  state_patch q shrunk_value a = record {
    global_rev = a.global_revision;
    state_name = q.interface;
    op = q.patch.op;
    path = q.patch.path;
    value = shrunk_value;
    task_id = q.patch.correlation_id;
    session_id = a.current_session;
  }

  -- The second half of `_aprocess_patch_event`: the document is changed in place, the revision is set, a
  -- checkpoint is due or not, and the patch is published.
  unfoldable pub advance : QueuedPatch A → Option B → D → Act (Agent D B) (Unit {0})
  advance q shrunk_value patched = do
    modify (λ a. record a {
      current_shrunk_states = put a.current_shrunk_states q.interface patched;
      global_revision = suc a.global_revision;
      store = record a.store { patches = map (touch a q shrunk_value) a.store.patches };
    })
    checkpoint
    message ← gets (state_patch q shrunk_value)
    publish_patch message

  -- `_aprocess_patch_event`
  unfoldable pub process_patch_event : QueuedPatch A → Act (Agent D B) (Unit {0})
  unfolding patched_document advance
  process_patch_event q = shrunk_state q.interface >>= λ document a.
      continue (patched_document q document) a (λ x. advance q x.0 x.1)

  -- `apatch_event_loop`: an exception ends the loop, and the patches behind it stay in the queue
  unfoldable pub patch_event_loop : List (QueuedPatch A) → Act (Agent D B) (Unit {0})
  patch_event_loop [] = pure tt
  patch_event_loop (q ∷ qs) = process_patch_event q >> patch_event_loop qs

  -- The loop of `ainit_states` over the values that the startup hooks returned
  unfoldable pub init_each : List String → Act (Agent D B) (Unit {0})
  init_each [] = pure tt
  init_each (interface ∷ interfaces) = do
    initial ← or_raise (shrink_state interface) agent_exception
    modify (λ a. record a { current_shrunk_states = put a.current_shrunk_states interface initial })
    init_each interfaces

  abbrev pub full_snapshot : Agent D B → StateSnapshot D
  full_snapshot a = record {
    session_id = a.current_session;
    global_rev = a.global_revision;
    snapshots = a.current_shrunk_states;
  }

  -- `ainit_states`: `schemas` are the registered states, `started` those that a hook initialized.
  unfoldable pub init_states : (schemas started : List String) → Act (Agent D B) (Unit {0})
  unfolding init_each
  init_states schemas started a =
      if not (all (contains started) schemas)
      then (raised agent_exception, a)
      else (init_each started >> (gets full_snapshot >>= publish_snapshot)) a

  abbrev pub dump_snapshot : Act (Agent D B) (Unit {0})
  dump_snapshot a = elim a.current_shrunk_states [
    | [] ↦ (ok tt, a)
    | x ∷ xs ↦ publish_snapshot (full_snapshot a) a
  ]

  -- `astart` of the base agent from `ainit_states` on, and of the FastAPI agent after it
  unfoldable pub start : (schemas started : List String) → Act (Agent D B) (Unit {0})
  unfolding init_states
  start schemas started = do
    init_states schemas started
    modify (λ a. record a { global_revision = 0 })
    dump_snapshot
