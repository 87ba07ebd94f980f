-- ===== src/Caller/Stream.antt =====
-- rekuest_next/agents/caller.py, `_adapt`, `AgentPostman.aassign` and `_confirm_cancellation`: what a
-- call yields to the actor code that iterates over it, and how it winds a delegated task down.
use rekuest_next.Prelude.{
  ℕ, ◌+◌, String, ◌≡◌, refl, sym, ap, ◌∙◌, inl, inr, Bool, true, false, not, ◌&&◌, ◌||◌, Option,
  none, some, List, [], ◌∷◌, ◌++◌, append-nil, arith, if◌then◌else◌, Bool-cases,
}
use rekuest_next.Messages.{
  EventKind, ExecutionEvent, AssignResponse, truthy, yielded, failed, critical, completed,
  cancelled, interrupted,
}

-- The members of `TaskEventKind` that a call surfaces
pub data TaskEventKind : Type 0 where
  event_yield event_completed event_failed event_critical : TaskEventKind

pub record CallerTaskEvent {ℓ} (V : Type ℓ) : Type ℓ where
  pub kind : TaskEventKind
  pub returns : Option V
  pub message : Option String

abbrev pub killed_message : String
killed_message = "The delegated task was cancelled or interrupted before completion."

abbrev pub untracked_message : String
untracked_message = "The backend acked the assign without a task id and without an error."

-- `AssignException(message)`, or the durable id of the task
pub data Assigned : Type 0 where
  refused : (message : Option String) → Assigned
  accepted_as : (task : String) → Assigned

unfoldable pub assign_result : AssignResponse → Assigned
assign_result m = if truthy m.error then refused m.error else elim m.task [
  | none ↦ refused (some untracked_message)
  | some t ↦ if truthy (some t) then accepted_as t else refused (some untracked_message)
]

abbrev pub option_list {κ} : {A : Type κ} → Option A → List A
option_list none = []
option_list (some a) = a ∷ []

-- What the loop of `aassign` has yielded, whether it has returned, and what its queue still holds.
pub record Streamed {ℓ} (V : Type ℓ) : Type ℓ where
  pub events : List (CallerTaskEvent V)
  pub returned : Bool
  pub queue : List (ExecutionEvent V)

abbrev pub is_last_kind : TaskEventKind → Bool
is_last_kind event_yield = false
is_last_kind _ = true

module _ {ℓ} {V : Type ℓ} where
  abbrev critical_event : Option String → CallerTaskEvent V
  critical_event e = record { kind = event_critical; returns = none; message = e }

  abbrev pub adapt_kind : EventKind V → Option (CallerTaskEvent V)
  adapt_kind (yielded r) = some (record { kind = event_yield; returns = r; message = none })
  adapt_kind completed = some (record { kind = event_completed; returns = none; message = none })
  adapt_kind (failed e) = some (record { kind = event_failed; returns = none; message = e })
  adapt_kind (critical e) = some (critical_event e)
  adapt_kind cancelled = some (critical_event (some killed_message))
  adapt_kind interrupted = some (critical_event (some killed_message))
  adapt_kind _ = none

  abbrev pub adapt : ExecutionEvent V → Option (CallerTaskEvent V)
  adapt event = adapt_kind event.kind

  -- `isinstance(event, _TERMINAL_TYPES)`
  abbrev pub is_terminal : EventKind V → Bool
  is_terminal completed = true
  is_terminal (failed e) = true
  is_terminal (critical e) = true
  is_terminal cancelled = true
  is_terminal interrupted = true
  is_terminal _ = false

  -- The loop over the mirrors that the queue gives; it waits for more where they run out.
  unfoldable pub stream : List (ExecutionEvent V) → Streamed V
  stream [] = record { events = []; returned = false; queue = [] }
  stream (e ∷ es) =
      let later = stream es in
      if is_terminal e.kind
      then record { events = option_list (adapt e); returned = true; queue = es }
      else record later { events = option_list (adapt e) ++ later.events }

  -- One wait of `_await_terminal`: `es` are the mirrors that arrive before its deadline. The result
  -- is whether one of the kinds came, with what stays in the queue.
  unfoldable pub await_terminal :
      (EventKind V → Bool) → List (ExecutionEvent V) → Bool × List (ExecutionEvent V)
  await_terminal types [] = (false, [])
  await_terminal types (e ∷ es) =
      let later = await_terminal types es in if types e.kind then (true, es) else later

  abbrev pub is_cancelled : EventKind V → Bool
  is_cancelled cancelled = true
  is_cancelled _ = false

  abbrev pub is_stopped : EventKind V → Bool
  is_stopped cancelled = true
  is_stopped interrupted = true
  is_stopped _ = false

pub data Control : Type 0 where
  cancel_request interrupt_request : (task : String) → Control

module _ {ℓ} {V : Type ℓ} where
  -- `_confirm_cancellation`: the requests it sends, and whether the end of the task was confirmed.
  -- The mirrors of its first wait and those of its second are `before` and `later`; what is left
  -- over from the first wait is there for the second.
  unfoldable pub confirm_cancellation :
      (task : String) (escalate_to_interrupt : Bool) (before later : List (ExecutionEvent V))
      → List Control × Bool
  unfolding await_terminal
  confirm_cancellation task escalate_to_interrupt before later =
      let (seen, waiting) = await_terminal is_cancelled before in
      if seen
      then (cancel_request task ∷ [], true)
      else if not escalate_to_interrupt
      then (cancel_request task ∷ [], false)
      else (
        cancel_request task ∷ interrupt_request task ∷ [],
        (await_terminal is_stopped (waiting ++ later)).0,
      )

  -- An independent account of the stream: the mirrors up to the first terminal one.
  pub up_to_terminal : List (ExecutionEvent V) → List (ExecutionEvent V)
  up_to_terminal [] = []
  up_to_terminal (e ∷ es) = if is_terminal e.kind then e ∷ [] else e ∷ up_to_terminal es

  pub adapted : List (ExecutionEvent V) → List (CallerTaskEvent V)
  adapted [] = []
  adapted (e ∷ es) = option_list (adapt e) ++ adapted es

  -- The number of events that end an iteration in `_astream_raw`.
  pub endings : List (CallerTaskEvent V) → ℕ
  endings [] = 0
  endings (e ∷ es) = (if is_last_kind e.kind then 1 else 0) + endings es

  endings-append : (xs ys : List (CallerTaskEvent V)) → endings (xs ++ ys) ≡ endings xs + endings ys
  unfolding endings
  endings-append [] ys = ground arith
  endings-append (x ∷ xs) ys = rw (endings-append xs ys) (ground arith)

  ending-adapt :
      (k : EventKind V) → endings (option_list (adapt_kind k)) ≡ (if is_terminal k then 1 else 0)
  unfolding endings
  ending-adapt (yielded r) = refl
  ending-adapt completed = refl
  ending-adapt k = refl

  -- The call yields the adapted mirrors up to the first terminal one and no later one; what it
  -- leaves in its queue are the mirrors after that one; it returns exactly if one of its events is
  -- an ending, of which there is never more than one.
  pub stream_lem :
      (es : List (ExecutionEvent V))
      → ((stream es).events ≡ adapted (up_to_terminal es))
        × (up_to_terminal es ++ (stream es).queue ≡ es)
        × (endings (stream es).events ≡ (if (stream es).returned then 1 else 0))
  unfolding stream adapted up_to_terminal endings
  stream_lem [] = (refl, refl, refl)
  stream_lem (e ∷ es) =
      let (h1, h2, h3) = stream_lem es in
      elim (Bool-cases (is_terminal e.kind)) [
        | inl t ↦ rw t (sym (append-nil _), refl, ending-adapt e.kind ∙ rw t refl)
        | inr t ↦ rw t (
          ap (λ xs. option_list (adapt e) ++ xs) h1,
          ap (λ xs. e ∷ xs) h2,
          endings-append (option_list (adapt e)) (stream es).events
              ∙ rw (ending-adapt e.kind, t) (ground (arith, h3)),
        )
      ]

  unfoldable pub kind_arrives : (EventKind V → Bool) → List (ExecutionEvent V) → Bool
  kind_arrives types [] = false
  kind_arrives types (e ∷ es) = types e.kind || kind_arrives types es

  await_terminal_lem :
      (types : EventKind V → Bool) (es : List (ExecutionEvent V))
      → (await_terminal types es).0 ≡ kind_arrives types es
  unfolding await_terminal kind_arrives
  await_terminal_lem types [] = refl
  await_terminal_lem types (e ∷ es) = elim (Bool-cases (types e.kind)) [
    | inl t ↦ rw t refl
    | inr t ↦ rw t (await_terminal_lem types es)
  ]

  await_terminal-drains :
      (types : EventKind V → Bool) (es : List (ExecutionEvent V))
      → kind_arrives types es ≡ false
      → await_terminal types es ≡ (false, [])
  unfolding await_terminal kind_arrives
  await_terminal-drains types [] h = refl
  await_terminal-drains types (e ∷ es) h = elim (Bool-cases (types e.kind)) [
    | inl t ↦ ground arith
    | inr t ↦ rw t (await_terminal-drains types es (ground arith))
  ]

  await_terminal-finds :
      (types : EventKind V → Bool) (es : List (ExecutionEvent V))
      → kind_arrives types es ≡ true
      → (await_terminal types es).0 ≡ true
  await_terminal-finds types es h = await_terminal_lem types es ∙ h

  -- Winding a task down sends the cancel request first and once; the interrupt request follows
  -- exactly if escalation was asked for and no cancelled mirror arrived in the first wait; the end
  -- of the task is confirmed exactly if that mirror arrived or, after an escalation, a cancelled or
  -- interrupted one did in the second wait.
  pub confirm_cancellation_lem :
      (task : String) (escalate : Bool) (before later : List (ExecutionEvent V))
      → confirm_cancellation task escalate before later ≡ (
        cancel_request task
            ∷ (if escalate && not (kind_arrives is_cancelled before)
                then interrupt_request task ∷ []
                else []),
        kind_arrives is_cancelled before || escalate && kind_arrives is_stopped later,
      )
  unfolding confirm_cancellation
  confirm_cancellation_lem task true before later =
      elim (Bool-cases (kind_arrives is_cancelled before)) [
        | inl t ↦ rw (t, await_terminal-finds is_cancelled before t) (ground arith)
        | inr t ↦
            rw (t, await_terminal-drains is_cancelled before t, await_terminal_lem is_stopped later)
              refl
      ]
  confirm_cancellation_lem task false before later =
      elim (Bool-cases (kind_arrives is_cancelled before)) [
        | inl t ↦ rw (t, await_terminal-finds is_cancelled before t) (ground arith)
        | inr t ↦ rw (t, await_terminal-drains is_cancelled before t) refl
      ]
