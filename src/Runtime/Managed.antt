-- ===== src/Runtime/Managed.antt =====
-- Which actors and assignments the agent manages (`BaseAgent.process` of rekuest_next/agents/base.py).
use rekuest_next.Prelude.{
  String, ◌≡◌, refl, ◌∙◌, ◌≢◌, ◌⊎◌, inl, inr, Bool, true, false, Option, none, some, List, [], ◌∷◌,
  arith, str_eq, eq_refl, if◌then◌else◌, Bool-cases, Option-cases,
}
use rekuest_next.Prelude.Dict.{Dict, get, has, put, remove, keys, values, get-put, has-get}
use rekuest_next.Reports.{send, dispatch, resend, acknowledge, ReportKind, critical, Report, Outbox}
use rekuest_next.Actors.Tasks.{
  Actor, new_actor, Event, sends, calls_hook, Move, move, assigns, cancels, pauses, resumes,
}
use rekuest_next.Runtime.{
  kind_of, Processed, report, report_events, report_in, manage, act, apass, process_assign,
  process_control, process_inquiry, inquire_all, collect_all, process, proceed, consume, Message,
  init_message, assign_message, cancel_message, pause_message, resume_message, protocol_error,
  to_postman, collect, assign_inquiry, event_ack, ProcessError, key_error, actor_failed, AgentState,
  Surroundings,
}

-- Every assignment that is managed has its actor.
abbrev pub Covers : Dict Actor → Dict String → Type 0
Covers actors assignments =
    (task interface : String) → get assignments task ≡ some interface → has actors interface ≡ true

abbrev pub Managed {ℓ} : {V : Type ℓ} → AgentState V → Type 0
Managed a = Covers a.managed_actors a.outbox.managed_assignments

abbrev no_key_error : Option ProcessError → Bool
no_key_error (some key_error) = false
no_key_error _ = true

-- A step that keeps the invariant and raises no `KeyError`
abbrev Sound {ℓ} : {V : Type ℓ} → Processed V → Type 0
Sound r = Managed r.0 × (no_key_error r.1 ≡ true)

has-put : (d : Dict Actor) (k j : String) (v : Actor) → has d j ≡ true → has (put d k v) j ≡ true
has-put d k j v h = ground (arith, has-get d j, has-get (put d k v) j, get-put d k j v)

has-put_self : (d : Dict Actor) (k : String) (v : Actor) → has (put d k v) k ≡ true
has-put_self d k v = ground (arith, has-get (put d k v) k, get-put d k k v, eq_refl k)

put-Covers :
    (d : Dict Actor) (m : Dict String) (i : String) (x : Actor) → Covers d m → Covers (put d i x) m
put-Covers d m i x c task j h = has-put d i j x (c task j h)

manage-Covers :
    (d : Dict Actor) (m : Dict String) (task i : String)
    → has d i ≡ true
    → Covers d m
    → Covers d (put m task i)
manage-Covers d m task i h c t j e = elim (Bool-cases (str_eq task t)) [
  | inl s ↦ let same : i ≡ j = ground (arith, get-put m task t i, e, s) in rw (← same) h
  | inr s ↦ c t j (rw (get-put m task t i, s) at e)
]

assignments-dispatch :
    (r : Report) (o : Outbox) → (dispatch r o).managed_assignments ≡ o.managed_assignments
unfolding dispatch
assignments-dispatch r o = ground arith

assignments-resend :
    (rs : List Report) (o : Outbox) → (resend rs o).managed_assignments ≡ o.managed_assignments
unfolding resend
assignments-resend [] o = refl
assignments-resend (r ∷ rs) o = assignments-resend rs (send r o)

failure_kind : (raises : Bool) → no_key_error (if raises then some actor_failed else none) ≡ true
failure_kind true = refl
failure_kind false = refl

module _ (env : Surroundings) where
  assignments-report :
      (task : String) (kind : ReportKind) (o : Outbox)
      → (report env task kind o).managed_assignments ≡ o.managed_assignments
  unfolding report
  assignments-report task kind o = assignments-dispatch _ o

  assignments-events :
      (es : List Event) (o : Outbox)
      → (report_events env es o).managed_assignments ≡ o.managed_assignments
  unfolding report_events
  assignments-events [] o = refl
  assignments-events (sends task m ∷ es) o =
      assignments-events es (report env task (kind_of m) o) ∙ assignments-report task (kind_of m) o
  assignments-events (calls_hook task ∷ es) o = assignments-events es o

  module _ {ℓ} {V : Type ℓ} where
    reported-Managed :
        (a : AgentState V) (task : String) (kind : ReportKind)
        → Managed a
        → Managed (report_in env task kind a)
    reported-Managed a task kind c t i h = c t i (rw (assignments-report task kind a.outbox) at h)

    -- What follows a step runs only where the step raised nothing.
    carried :
        (b : AgentState V) (failure : Option ProcessError)
        → Managed b
        → no_key_error failure ≡ true
        → (next : AgentState V → Processed V) → Sound (next b)
        → Sound (elim failure [ none ↦ next b | some f ↦ (b, some f) ])
    carried b none c n next s = s
    carried b (some f) c n next s = (c, n)

    act-Sound :
        (i : String) (actor : Actor) (m : Move) (a : AgentState V)
        → Covers (put a.managed_actors i (move m actor).0) a.outbox.managed_assignments
        → Sound (act env i actor m a)
    unfolding act
    act-Sound i actor m a c = (
      (λ t j h. c t j (rw (assignments-events (move m actor).1 a.outbox) at h)),
      failure_kind (move m actor).2,
    )

    apass-Sound :
        (i : String) (m : Move) (a : AgentState V)
        → has a.managed_actors i ≡ true
        → Managed a
        → Sound (apass env i m a)
    unfolding apass
    apass-Sound i m a h c = elim (Option-cases (get a.managed_actors i)) [
      | inl e ↦ absurd (ground (arith, h, has-get a.managed_actors i, e))
      | inr (actor, e) ↦
          rw (apass, e)
            (act-Sound i actor m a
              (put-Covers a.managed_actors a.outbox.managed_assignments i (move m actor).0 c))
    ]

    new-Covers :
        (task i : String) (step : Bool) (a : AgentState V)
        → Managed a
        → Covers
            (put a.managed_actors i (move (assigns task step) new_actor).0)
            (put a.outbox.managed_assignments task i)
    new-Covers task i step a c =
        let actor = (move (assigns task step) new_actor).0 in
        manage-Covers (put a.managed_actors i actor) a.outbox.managed_assignments task i
          (has-put_self a.managed_actors i actor)
          (put-Covers a.managed_actors a.outbox.managed_assignments i actor c)

    process_assign-Sound :
        (task i : String) (step : Bool) (a : AgentState V)
        → Managed a
        → Sound (process_assign env task i step a)
    unfolding process_assign
    process_assign-Sound task i step a c = elim (Bool-cases (has a.managed_actors i)) [
      | inl h ↦ rw h (
          apass-Sound i (assigns task step) (manage env task i a) h
            (manage-Covers a.managed_actors a.outbox.managed_assignments task i h c))
      | inr h ↦ elim (Bool-cases (env.builds i)) [
        | inl b ↦
            rw (h, b)
              (act-Sound i new_actor (assigns task step) (manage env task i a)
                (new-Covers task i step a c))
        | inr b ↦ rw (h, b) (reported-Managed a task critical c, refl)
      ]
    ]

    process_control-Sound :
        (task : String) (m : Move) (a : AgentState V)
        → Managed a
        → Sound (process_control env task m a)
    unfolding process_control
    process_control-Sound task m a c = elim (Option-cases (get a.outbox.managed_assignments task)) [
      | inl e ↦ rw (process_control, e) (reported-Managed a task critical c, refl)
      | inr (i, e) ↦ rw (process_control, e) (apass-Sound i m a (c task i e) c)
    ]

    process_inquiry-Sound :
        (task : String) (a : AgentState V) → Managed a → Sound (process_inquiry env task a)
    unfolding process_inquiry
    process_inquiry-Sound task a c = elim (Option-cases (get a.outbox.managed_assignments task)) [
      | inl e ↦ rw (process_inquiry, e) (reported-Managed a task critical c, refl)
      | inr (i, e) ↦ elim (Option-cases (get a.managed_actors i)) [
        | inl n ↦ absurd (ground (arith, c task i e, has-get a.managed_actors i, n))
        | inr (actor, s) ↦ rw (process_inquiry, e, s) (reported-Managed a task _ c, refl)
      ]
    ]

    inquire_all-Sound :
        (tasks : List String) (a : AgentState V) → Managed a → Sound (inquire_all env tasks a)
    unfolding inquire_all
    inquire_all-Sound [] a c = (c, refl)
    inquire_all-Sound (task ∷ tasks) a c =
        let (kept, fine) = process_inquiry-Sound task a c in
        carried (process_inquiry env task a).0 (process_inquiry env task a).1 kept fine
          (inquire_all env tasks) (inquire_all-Sound tasks (process_inquiry env task a).0 kept)

    collect_all-Sound :
        (keys : List String) (a : AgentState V) → Managed a → Sound (collect_all env keys a)
    unfolding collect_all
    collect_all-Sound [] a c = (c, refl)
    collect_all-Sound (key ∷ keys) a c = elim (Bool-cases (has a.shelve key)) [
      | inl h ↦ rw h (collect_all-Sound keys (record a { shelve = remove a.shelve key }) c)
      | inr h ↦ rw h (c, refl)
    ]

    process-Sound : (m : Message V) (a : AgentState V) → Managed a → Sound (process env m a)
    unfolding process acknowledge
    process-Sound (init_message inquiries) a c =
        inquire_all-Sound inquiries
          (record a { connected = true; outbox = resend (values a.outbox.unacked_events) a.outbox })
          (λ t i h. c t i (rw (assignments-resend (values a.outbox.unacked_events) a.outbox) at h))
    process-Sound (assign_message task i step) a c = process_assign-Sound task i step a c
    process-Sound (cancel_message task) a c =
        process_control-Sound task (cancels task (env.ending task)) a c
    process-Sound (pause_message task) a c = process_control-Sound task (pauses task) a c
    process-Sound (resume_message task step) a c =
        process_control-Sound task (resumes task step) a c
    process-Sound protocol_error a c = (c, refl)
    process-Sound (to_postman m) a c = (c, refl)
    process-Sound (collect drawers) a c = collect_all-Sound drawers a c
    process-Sound (assign_inquiry task) a c = process_inquiry-Sound task a c
    process-Sound (event_ack event) a c = (c, refl)

    proceed-Sound :
        (o : Message V ⊎ (String × Move)) (a : AgentState V) → Managed a → Sound (proceed env o a)
    unfolding proceed
    proceed-Sound (inl m) a c = process-Sound m a c
    proceed-Sound (inr (i, m)) a c = elim (Option-cases (get a.managed_actors i)) [
      | inl e ↦ rw (proceed, e) (c, refl)
      | inr (actor, e) ↦
          rw (proceed, e)
            (act-Sound i actor m a
              (put-Covers a.managed_actors a.outbox.managed_assignments i (move m actor).0 c))
    ]

    consume-Sound :
        (os : List (Message V ⊎ (String × Move))) (a : AgentState V)
        → Managed a
        → Sound (consume env os a)
    unfolding consume
    consume-Sound [] a c = (c, refl)
    consume-Sound (o ∷ os) a c =
        let (kept, fine) = proceed-Sound o a c in
        carried (proceed env o a).0 (proceed env o a).1 kept fine (consume env os)
          (consume-Sound os (proceed env o a).0 kept)

    -- From an agent that has the actor of every managed assignment, whatever messages it processes and
    -- whatever its actors' tasks do in between: up to the first exception and after it, every managed
    -- assignment has its actor, and that exception is never a `KeyError` of the lookup of an actor.
    pub consume-Managed :
        (os : List (Message V ⊎ (String × Move))) (a : AgentState V)
        → Managed a
        → let r = consume env os a in Managed r.0 × (r.1 ≢ some key_error)
    consume-Managed os a c =
        let (kept, fine) = consume-Sound os a c in (kept, λ e. absurd (ground (arith, fine, e)))
