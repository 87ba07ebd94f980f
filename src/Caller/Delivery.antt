-- ===== src/Caller/Delivery.antt =====
-- No mirror is lost, doubled or reordered on its way to the call that waits for it.
use rekuest_next.Prelude.{
  String, ◌≡◌, refl, sym, ap, ◌∙◌, ◌⊎◌, inl, inr, false, Option, none, some, List, [], ◌∷◌, ◌++◌,
  append-nil, append_assoc, arith, str_eq, eq_iff, eq_refl, if◌then◌else◌, Bool-cases, Option-cases,
  String-cases,
}
use rekuest_next.Prelude.Dict.{get, get-put, get-remove}
use rekuest_next.Messages.{ExecutionEvent, AssignResponse}
use rekuest_next.Caller.{
  begin_call, begins, AgentPostman, or_empty, drain_orphans, task_to_open, register_task,
  handle_assign_response, handle_control_response, handle_execution_event, assigned, controlled,
  mirrored, Step, arrives, registers, takes, ends, first, take_next, end_call, handle, after, put,
  run,
}

module _ {ℓ} {V : Type ℓ} (task : String) where
  abbrev queue_of : AgentPostman V → List (ExecutionEvent V)
  queue_of s = or_empty (get s.task_queues task)

  abbrev orphans_of : AgentPostman V → List (ExecutionEvent V)
  orphans_of s = or_empty (get s.orphan_by_task task)

  -- What waits for the task, first come first.
  pub mail : AgentPostman V → List (ExecutionEvent V)
  mail s = queue_of s ++ orphans_of s

  -- The mirrors of the task that arrive in a step.
  pub arriving : Step V → List (ExecutionEvent V)
  arriving (arrives (mirrored m)) = if str_eq m.task task then m ∷ [] else []
  arriving _ = []

  -- The mirrors that the task's call takes in a step.
  pub taken : Step V → AgentPostman V → List (ExecutionEvent V)
  taken (takes t) s = if str_eq t task then first (queue_of s) else []
  taken _ s = []

  -- A mirror waits as an orphan only while the task has no queue.
  abbrev pub IsTidy : AgentPostman V → Type ℓ
  IsTidy s = (get s.task_queues task ≡ none) ⊎ (get s.orphan_by_task task ≡ none)

  drain-IsTidy : (t : String) (s : AgentPostman V) → IsTidy s → IsTidy (drain_orphans t s)
  unfolding drain_orphans
  drain-IsTidy t s h =
      rw (get-put, get-remove)
        (elim (Bool-cases (str_eq t task)) [ inl e ↦ rw e (inr refl) | inr e ↦ rw e h ])

  mail-drain : (t : String) (s : AgentPostman V) → mail (drain_orphans t s) ≡ mail s
  unfolding mail drain_orphans
  mail-drain t s =
      rw (get-put, get-remove)
        (elim (String-cases t task) [ inl e ↦ rw (e, eq_refl) (append-nil _) | inr e ↦ rw e ])

  respond-IsTidy :
      (m : AssignResponse) (s : AgentPostman V) → IsTidy s → IsTidy (handle_assign_response m s)
  unfolding handle_assign_response
  respond-IsTidy m s h = elim (Option-cases (task_to_open m)) [
    | inl e ↦ rw (e, handle_assign_response) h
    | inr (t, e) ↦ rw (e, handle_assign_response) (drain-IsTidy t s h)
  ]

  mail-respond :
      (m : AssignResponse) (s : AgentPostman V) → mail (handle_assign_response m s) ≡ mail s
  unfolding mail handle_assign_response
  mail-respond m s = elim (Option-cases (task_to_open m)) [
    | inl e ↦ rw (e, handle_assign_response)
    | inr (t, e) ↦ rw (e, handle_assign_response) (mail-drain t s)
  ]

  event-IsTidy :
      (m : ExecutionEvent V) (s : AgentPostman V) → IsTidy s → IsTidy (handle_execution_event m s)
  unfolding handle_execution_event
  event-IsTidy m s h = elim (Option-cases (get s.task_queues m.task)) [
    | inl e ↦ rw (e, handle_execution_event, get-put) (ground (arith, eq_iff m.task task))
    | inr (q, e) ↦ rw (e, handle_execution_event, get-put) (ground (arith, eq_iff m.task task))
  ]

  mail-event :
      (m : ExecutionEvent V) (s : AgentPostman V)
      → IsTidy s
      → mail (handle_execution_event m s) ≡ mail s ++ arriving (arrives (mirrored m))
  unfolding mail arriving handle_execution_event
  mail-event m s h = elim (Option-cases (get s.task_queues m.task)) [
    | inl e ↦
        rw (e, handle_execution_event, get-put)
          (ground (arith, eq_iff m.task task, append-nil (mail s)))
    | inr (q, e) ↦
        rw (e, handle_execution_event, get-put)
          (ground (
            arith,
            eq_iff m.task task,
            append-nil (mail s),
            append-nil q,
            append-nil (q ++ m ∷ []),
          ))
  ]

  take-IsTidy : (t : String) (s : AgentPostman V) → IsTidy s → IsTidy (take_next t s)
  unfolding take_next
  take-IsTidy t s h = elim (Option-cases (get s.task_queues t)) [
    | inl e ↦ rw (e, take_next) h
    | inr (q, e) ↦ rw (e, take_next, get-put) (ground (arith, eq_iff t task))
  ]

  mail-take :
      (t : String) (s : AgentPostman V)
      → IsTidy s
      → taken (takes t) s ++ mail (take_next t s) ≡ mail s
  unfolding take_next mail taken
  mail-take t s h = elim (Option-cases (get s.task_queues t)) [
    | inl e ↦ rw (e, take_next) (ground (arith, eq_iff t task))
    | inr (q, e) ↦ rw (e, take_next, get-put) (ground (arith, eq_iff t task))
  ]

  -- The task's own call does not end in the step.
  abbrev pub Continues : Step V → Type 0
  Continues (ends request reference (some t)) = str_eq t task ≡ false
  Continues _ = Unit

  end-IsTidy :
      (request reference : String) (o : Option String) (s : AgentPostman V)
      → IsTidy s
      → IsTidy (end_call request reference o s)
  unfolding end_call
  end-IsTidy request reference none s h = h
  end-IsTidy request reference (some t) s h =
      rw (get-remove, get-remove)
        (elim (Bool-cases (str_eq t task)) [ inl e ↦ rw e (inl refl) | inr e ↦ rw e h ])

  mail-end :
      (request reference : String) (o : Option String) (s : AgentPostman V)
      → Continues (ends request reference o)
      → mail (end_call request reference o s) ≡ mail s
  unfolding end_call mail
  mail-end request reference none s h = refl
  mail-end request reference (some t) s h = rw (get-remove, get-remove, h)

  after-IsTidy : (t : Step V) (s : AgentPostman V) → IsTidy s → IsTidy (after t s)
  unfolding after handle begin_call register_task handle_control_response
  after-IsTidy (arrives (assigned m)) s h = respond-IsTidy m s h
  after-IsTidy (arrives (controlled m)) s h = h
  after-IsTidy (arrives (mirrored m)) s h = event-IsTidy m s h
  after-IsTidy (registers reference t) s h =
      drain-IsTidy t (record s { reference_to_task = put s.reference_to_task reference t }) h
  after-IsTidy (begins request) s h = h
  after-IsTidy (takes t) s h = take-IsTidy t s h
  after-IsTidy (ends request reference o) s h = end-IsTidy request reference o s h

  mail-after :
      (t : Step V) (s : AgentPostman V)
      → IsTidy s
      → Continues t
      → taken t s ++ mail (after t s) ≡ mail s ++ arriving t
  unfolding after handle begin_call register_task handle_control_response taken arriving mail
  mail-after (arrives (assigned m)) s h c = mail-respond m s ∙ sym (append-nil (mail s))
  mail-after (arrives (controlled m)) s h c = sym (append-nil (mail s))
  mail-after (arrives (mirrored m)) s h c = mail-event m s h
  mail-after (registers reference t) s h c =
      mail-drain t (record s { reference_to_task = put s.reference_to_task reference t })
      ∙ sym (append-nil (mail s))
  mail-after (begins request) s h c = sym (append-nil (mail s))
  mail-after (takes t) s h c = mail-take t s h ∙ sym (append-nil (mail s))
  mail-after (ends request reference o) s h c =
      mail-end request reference o s c ∙ sym (append-nil (mail s))

  pub all_arriving : List (Step V) → List (ExecutionEvent V)
  all_arriving [] = []
  all_arriving (t ∷ ts) = arriving t ++ all_arriving ts

  -- What the task's call has taken after the steps, in the order in which it took it.
  pub all_taken : List (Step V) → AgentPostman V → List (ExecutionEvent V)
  all_taken [] s = []
  all_taken (t ∷ ts) s = taken t s ++ all_taken ts (after t s)

  unfoldable pub AllContinue : List (Step V) → Type 0
  AllContinue [] = Unit
  AllContinue (t ∷ ts) = Continues t × AllContinue ts

  -- From a postman where the task has no queue or no orphans: over every interleaving of arrivals,
  -- registrations, gets and ends of other calls, the mirrors that the task's call has taken and
  -- those that still wait are exactly those that waited and that arrived, in that order.
  pub mail-run :
      (ts : List (Step V)) (s : AgentPostman V)
      → IsTidy s
      → AllContinue ts
      → all_taken ts s ++ mail (run ts s) ≡ mail s ++ all_arriving ts
  unfolding run all_taken all_arriving AllContinue
  mail-run [] s h c = sym (append-nil (mail s))
  mail-run (t ∷ ts) s h (c, cs) =
      append_assoc (taken t s) (all_taken ts (after t s)) (mail (run ts (after t s)))
      ∙ ap (λ xs. taken t s ++ xs) (mail-run ts (after t s) (after-IsTidy t s h) cs)
      ∙ sym (append_assoc (taken t s) (mail (after t s)) (all_arriving ts))
      ∙ ap (λ xs. xs ++ all_arriving ts) (mail-after t s h c)
      ∙ append_assoc (mail s) (arriving t) (all_arriving ts)
