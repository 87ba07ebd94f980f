-- ===== src/Runtime/Inquiries.antt =====
-- What the agent answers about tasks (`BaseAgent.process` of rekuest_next/agents/base.py, with
-- `Actor.acheck_task` of rekuest_next/actors/base.py).
use rekuest_next.Prelude.{String, ◌≡◌, refl, inr, Bool, true, none, some, arith, eq_refl}
use rekuest_next.Prelude.Dict.{get, has, has_of_get, Dict, put, get-put, has-get}
use rekuest_next.Reports.{ReportKind}
use rekuest_next.Actors.Tasks.{ends, Actor, move, assign, Phase, set_phase, done}
use rekuest_next.Runtime.{
  report_events, report_in, act, apass, process_assign, process_inquiry, process, proceed,
  assign_message, assign_inquiry, AgentState, Surroundings, manage,
}

done_running : (d : Dict Phase) (task : String) → has (put d task done) task ≡ true
done_running d task =
    ground (arith, has-get (put d task done) task, get-put d task task done, eq_refl task)

module _ (env : Surroundings) where
  module _ {ℓ} {V : Type ℓ} where
    answered :
        (a : AgentState V) (task i : String) (actor : Actor)
        → get a.outbox.managed_assignments task ≡ some i
        → get a.managed_actors i ≡ some actor
        → has actor.running_asyncio_tasks task ≡ true
        → process_inquiry env task a ≡ (report_in env task ReportKind.progress a, none)
    unfolding process_inquiry
    answered a task i actor m e h = rw (process_inquiry, m, e, h) refl

    -- The agent after an assignment to an actor that it manages
    abbrev assigned : AgentState V → (task i : String) → Bool → Actor → AgentState V
    assigned a task i step actor = record (manage env task i a) {
      managed_actors = put a.managed_actors i (assign task step actor).0;
    }

    process-assigned :
        (a : AgentState V) (task i : String) (step : Bool) (actor : Actor)
        → get a.managed_actors i ≡ some actor
        → process env (assign_message task i step) a ≡ (assigned a task i step actor, none)
    unfolding process process_assign apass act report_events move assign
    process-assigned a task i step actor e =
        rw (has_of_get a.managed_actors i actor e, apass, e) refl

    -- The agent after the coroutine of the task has ended
    abbrev ended : AgentState V → (task i : String) → Actor → AgentState V
    ended b task i actor = record b {
      managed_actors = put b.managed_actors i (set_phase task done actor);
    }

    proceed-ended :
        (b : AgentState V) (task i : String) (actor : Actor)
        → get b.managed_actors i ≡ some actor
        → proceed env (inr (i, ends task)) b ≡ (ended b task i actor, none)
    unfolding proceed act report_events move
    proceed-ended b task i actor e = rw (proceed, e) refl

    -- A task is assigned to a managed actor, and its coroutine ends by itself. To an inquiry about the task
    -- the agent then reports progress, as if it were still running.
    pub process_inquiry-ended :
        (a : AgentState V) (task i : String) (step : Bool) (actor : Actor)
        → get a.managed_actors i ≡ some actor
        → let b =
            (proceed env (inr (i, ends task)) (process env (assign_message task i step) a).0).0 in
          process env (assign_inquiry task) b ≡ (report_in env task ReportKind.progress b, none)
    unfolding process
    process_inquiry-ended a task i step actor e =
        let next = (assign task step actor).0 in
        let b = assigned a task i step actor in
        let found : get b.managed_actors i ≡ some next =
          ground (arith, get-put a.managed_actors i i next, eq_refl i) in
        rw (process-assigned a task i step actor e, proceed-ended b task i next found)
          (answered (ended b task i next) task i (set_phase task done next)
            (ground (arith, get-put a.outbox.managed_assignments task task i, eq_refl task))
            (ground (arith, get-put b.managed_actors i i (set_phase task done next), eq_refl i))
            (done_running next.running_asyncio_tasks task))
