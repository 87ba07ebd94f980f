-- ===== src/Caller.antt =====
-- rekuest_next/agents/caller.py, `AgentPostman`: the calls that actor code makes over the agent's
-- socket, and the mirrors of the delegated tasks that come back. Handlers run to completion between
-- two awaits, so each is a function of the postman's state.
pub mod Delivery
pub mod Stream
pub mod Responses
mod Tests
use rekuest_next.Prelude.{
  ℕ, ◌+◌, ◌-◌, ◌/◌, String, ap, not, ◌&&◌, Option, none, some, List, [], ◌∷◌, ◌++◌, if◌then◌else◌,
  set, take, all,
}
use rekuest_next.Prelude.Dict.{Dict, get, put, remove}
use rekuest_next.Messages.{EventKind, ExecutionEvent, AssignResponse, ControlResponse, truthy}

-- An asyncio future: `done()` is the second constructor.
pub data Future {ℓ} (A : Type ℓ) : Type ℓ where
  pending : Future A
  resolved : A → Future A

pub record AgentPostman {ℓ} (V : Type ℓ) : Type ℓ where
  pub pending_responses : Dict (Future AssignResponse)
  pub pending_control : Dict (Future ControlResponse)
  pub task_queues : Dict (List (ExecutionEvent V))
  pub orphan_by_task : Dict (List (ExecutionEvent V))
  pub reference_to_task : Dict String
  pub last_seq : Dict ℕ

-- `dict.get(key, [])`
abbrev pub or_empty {ℓ} : {A : Type ℓ} → Option (List A) → List A
or_empty none = []
or_empty (some xs) = xs

-- `future is not None and not future.done()`: only a waiting future is resolved
unfoldable pub resolve {κ} : {A : Type κ} → Dict (Future A) → String → A → Dict (Future A)
resolve d k a = elim (get d k) [
  | none ↦ d
  | some f ↦ elim f [ pending ↦ put d k (resolved a) | resolved b ↦ d ]
]

unfoldable pub task_to_open : AssignResponse → Option String
task_to_open m = if truthy m.task && not (truthy m.error) then m.task else none

module _ {ℓ} {V : Type ℓ} where
  abbrev pub init : AgentPostman V
  init = record {
    pending_responses = [];
    pending_control = [];
    task_queues = [];
    orphan_by_task = [];
    reference_to_task = [];
    last_seq = [];
  }

  -- `queue = task_queues.setdefault(task, Queue())`, then every orphan of the task is put on it
  unfoldable pub drain_orphans : String → AgentPostman V → AgentPostman V
  drain_orphans task s = record s {
    task_queues =
        put s.task_queues task
          (or_empty (get s.task_queues task) ++ or_empty (get s.orphan_by_task task));
    orphan_by_task = remove s.orphan_by_task task;
  }

  unfoldable pub register_task : String → String → AgentPostman V → AgentPostman V
  unfolding drain_orphans
  register_task reference task s =
      drain_orphans task (record s { reference_to_task = put s.reference_to_task reference task })

  unfoldable pub handle_assign_response : AssignResponse → AgentPostman V → AgentPostman V
  unfolding drain_orphans resolve task_to_open
  handle_assign_response m s =
      let s' : AgentPostman V = elim (task_to_open m) [
        | none ↦ s
        | some task ↦ drain_orphans task s
      ] in
      record s' { pending_responses = resolve s'.pending_responses m.request m }

  unfoldable pub handle_control_response : ControlResponse → AgentPostman V → AgentPostman V
  unfolding resolve
  handle_control_response m s = record s { pending_control = resolve s.pending_control m.request m }

  -- The out-of-order warning is only logged.
  unfoldable pub handle_execution_event : ExecutionEvent V → AgentPostman V → AgentPostman V
  handle_execution_event m s =
      let s' : AgentPostman V = record s { last_seq = put s.last_seq m.task m.seq } in
      elim (get s.task_queues m.task) [
        | some queue ↦ record s' { task_queues = put s.task_queues m.task (queue ++ m ∷ []) }
        | none ↦ record s' {
          orphan_by_task =
              put s.orphan_by_task m.task (or_empty (get s.orphan_by_task m.task) ++ m ∷ []);
        }
      ]

-- The messages that the agent's loop passes on to the postman.
pub data Inbound {ℓ} (V : Type ℓ) : Type ℓ where
  assigned : AssignResponse → Inbound V
  controlled : ControlResponse → Inbound V
  mirrored : ExecutionEvent V → Inbound V

-- What can happen between two awaits: a call begins, a message arrives, a call learns the id of its task, a call
-- takes the next mirror from its queue, a call ends (the `finally` of `aassign`).
pub data Step {ℓ} (V : Type ℓ) : Type ℓ where
  arrives : Inbound V → Step V
  registers : (reference task : String) → Step V
  takes : (task : String) → Step V
  begins : (request : String) → Step V
  ends : (request reference : String) → Option String → Step V

module _ {ℓ} {V : Type ℓ} where
  -- the mirror that `queue.get()` returns; an empty queue makes the call wait
  abbrev pub first : List (ExecutionEvent V) → List (ExecutionEvent V)
  first [] = []
  first (e ∷ es) = e ∷ []

  abbrev pub rest : List (ExecutionEvent V) → List (ExecutionEvent V)
  rest [] = []
  rest (e ∷ es) = es

  unfoldable pub take_next : String → AgentPostman V → AgentPostman V
  take_next task s = elim (get s.task_queues task) [
    | none ↦ s
    | some queue ↦ record s { task_queues = put s.task_queues task (rest queue) }
  ]

  forget_task : Option String → AgentPostman V → AgentPostman V
  forget_task none s = s
  forget_task (some task) s = record s {
    task_queues = remove s.task_queues task;
    orphan_by_task = remove s.orphan_by_task task;
    last_seq = remove s.last_seq task;
  }

  -- the `finally` of `aassign`; the task is `none` where the call ended before it was registered
  unfoldable pub end_call : String → String → Option String → AgentPostman V → AgentPostman V
  unfolding forget_task
  end_call request reference task s =
      let s' = forget_task task s in
      record s' {
        pending_responses = remove s'.pending_responses request;
        reference_to_task = remove s'.reference_to_task reference;
      }

  -- `_pending_responses[request.id] = response_future`
  unfoldable pub begin_call : String → AgentPostman V → AgentPostman V
  begin_call request s = record s { pending_responses = put s.pending_responses request pending }

  unfoldable pub handle : Inbound V → AgentPostman V → AgentPostman V
  handle (assigned m) = handle_assign_response m
  handle (controlled m) = handle_control_response m
  handle (mirrored m) = handle_execution_event m

  unfoldable pub after : Step V → AgentPostman V → AgentPostman V
  after (arrives m) = handle m
  after (registers reference task) = register_task reference task
  after (takes task) = take_next task
  after (begins request) = begin_call request
  after (ends request reference task) = end_call request reference task

  unfoldable pub run : List (Step V) → AgentPostman V → AgentPostman V
  run [] s = s
  run (t ∷ ts) s = run ts (after t s)
