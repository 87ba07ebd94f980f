-- ===== src/Caller/Responses.antt =====
-- A call learns the backend's first answer to its request, and no later one.
use rekuest_next.Prelude.{
  String, ◌≡◌, refl, sym, ap, ◌∙◌, inl, inr, false, Option, none, some, List, [], ◌∷◌, ◌++◌, str_eq,
  eq_refl, if◌then◌else◌, Option-cases, String-cases,
}
use rekuest_next.Prelude.Dict.{get, get-put, get-remove}
use rekuest_next.Messages.{AssignResponse}
use rekuest_next.Caller.{
  AgentPostman, Future, pending, resolved, resolve, drain_orphans, task_to_open, register_task,
  handle_assign_response, handle_control_response, handle_execution_event, forget_task, take_next,
  begin_call, end_call, Step, arrives, registers, takes, begins, ends, assigned, controlled,
  mirrored, handle, after, run, Dict,
}

-- The future after answers: the first one is kept.
abbrev pub answered : Future AssignResponse → List AssignResponse → Future AssignResponse
answered (resolved m) ms = resolved m
answered pending [] = pending
answered pending (m ∷ ms) = resolved m

answered-append :
    (f : Future AssignResponse) (xs ys : List AssignResponse)
    → answered f (xs ++ ys) ≡ answered (answered f xs) ys
answered-append (resolved m) xs ys = refl
answered-append pending [] ys = refl
answered-append pending (x ∷ xs) ys = refl

answered-nil : (f : Future AssignResponse) → f ≡ answered f []
answered-nil (resolved m) = refl
answered-nil pending = refl

other_resolve :
    (d : Dict (Future AssignResponse)) (k j : String) (m : AssignResponse)
    (f : Future AssignResponse)
    → get d j ≡ some f
    → str_eq k j ≡ false
    → get (resolve d k m) j ≡ some (answered f (if str_eq k j then m ∷ [] else []))
unfolding resolve
other_resolve d k j m f h differs = elim (Option-cases (get d k)) [
  | inl e ↦ rw (e, resolve, differs) (h ∙ ap some (answered-nil f))
  | inr (pending, e) ↦
      rw (e, resolve, differs)
        (get-put d k j (resolved m) ∙ rw differs (h ∙ ap some (answered-nil f)))
  | inr (resolved b, e) ↦ rw (e, resolve, differs) (h ∙ ap some (answered-nil f))
]

get-resolve :
    (d : Dict (Future AssignResponse)) (k j : String) (m : AssignResponse)
    (f : Future AssignResponse)
    → get d j ≡ some f
    → get (resolve d k m) j ≡ some (answered f (if str_eq k j then m ∷ [] else []))
unfolding resolve
get-resolve d k j m pending h = elim (String-cases k j) [
  | inl same ↦
      rw (same, h, resolve, eq_refl j) (get-put d k j (resolved m) ∙ rw (same, eq_refl j) refl)
  | inr differs ↦ other_resolve d k j m pending h differs
]
get-resolve d k j m (resolved b) h = elim (String-cases k j) [
  | inl same ↦ rw (same, h, resolve) h
  | inr differs ↦ other_resolve d k j m (resolved b) h differs
]

module _ {ℓ} {V : Type ℓ} (request : String) where
  abbrev future_of : AgentPostman V → Option (Future AssignResponse)
  future_of s = get s.pending_responses request

  -- The answers to the request that arrive in a step.
  pub answers : Step V → List AssignResponse
  answers (arrives (assigned m)) = if str_eq m.request request then m ∷ [] else []
  answers _ = []

  pub all_answers : List (Step V) → List AssignResponse
  all_answers [] = []
  all_answers (t ∷ ts) = answers t ++ all_answers ts

  -- The call of the request neither begins nor ends in the step.
  abbrev pub Waits : Step V → Type 0
  Waits (begins r) = str_eq r request ≡ false
  Waits (ends r reference task) = str_eq r request ≡ false
  Waits _ = Unit

  unfoldable pub AllWait : List (Step V) → Type 0
  AllWait [] = Unit
  AllWait (t ∷ ts) = Waits t × AllWait ts

  future-after :
      (t : Step V) (s : AgentPostman V) (f : Future AssignResponse)
      → future_of s ≡ some f
      → Waits t
      → future_of (after t s) ≡ some (answered f (answers t))
  unfolding after handle handle_control_response begin_call register_task drain_orphans answers
      handle_assign_response handle_execution_event take_next end_call forget_task
  future-after (arrives (assigned m)) s f h w = elim (Option-cases (task_to_open m)) [
    | inl e ↦
        rw (e, handle_assign_response) (get-resolve s.pending_responses m.request request m f h)
    | inr (t, e) ↦
        rw (e, handle_assign_response) (get-resolve s.pending_responses m.request request m f h)
  ]
  future-after (arrives (controlled m)) s f h w = (h ∙ ap some (answered-nil f))
  future-after (arrives (mirrored m)) s f h w = elim (Option-cases (get s.task_queues m.task)) [
    | inl e ↦ rw (e, handle_execution_event) (h ∙ ap some (answered-nil f))
    | inr (q, e) ↦ rw (e, handle_execution_event) (h ∙ ap some (answered-nil f))
  ]
  future-after (registers reference t) s f h w = (h ∙ ap some (answered-nil f))
  future-after (begins r) s f h w = rw (get-put, w) (h ∙ ap some (answered-nil f))
  future-after (takes t) s f h w = elim (Option-cases (get s.task_queues t)) [
    | inl e ↦ rw (e, take_next) (h ∙ ap some (answered-nil f))
    | inr (q, e) ↦ rw (e, take_next) (h ∙ ap some (answered-nil f))
  ]
  future-after (ends r reference none) s f h w = rw (get-remove, w) (h ∙ ap some (answered-nil f))
  future-after (ends r reference (some t)) s f h w =
      rw (get-remove, w) (h ∙ ap some (answered-nil f))

  -- A call that has begun and does not end meanwhile: over every interleaving, its future holds the
  -- first answer to its request that arrived, and no later answer replaces it.
  pub future-run :
      (ts : List (Step V)) (s : AgentPostman V) (f : Future AssignResponse)
      → get s.pending_responses request ≡ some f
      → AllWait ts
      → get (run ts s).pending_responses request ≡ some (answered f (all_answers ts))
  unfolding run all_answers AllWait
  future-run [] s f h w = h ∙ ap some (answered-nil f)
  future-run (t ∷ ts) s f h (w, ws) =
      future-run ts (after t s) (answered f (answers t)) (future-after t s f h w) ws
      ∙ ap some (sym (answered-append f (answers t) (all_answers ts)))
