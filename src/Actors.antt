-- ===== src/Actors.antt =====
-- rekuest_next/actors/functional.py and rekuest_next/actors/base.py: how an actor runs one assignment
-- (`FunctionalActor.on_assign`, `SerializingActor.aget_locals`) and what it reports about it.
pub mod Reported
pub mod Tasks
pub mod Breaks
pub mod Endings
pub mod Delivered
mod Tests
use rekuest_next.Prelude.{
  ◌+◌, ◌-◌, ◌*◌, ◌/◌, String, ap, Bool, true, false, not, Option, none, some, List, [], ◌∷◌, ◌++◌,
  if◌then◌else◌, length, set, all,
}
use rekuest_next.Prelude.Dict.{Dict, get}
use rekuest_next.Objects.{◌>>=◌, set_field, Object, Fields, end, field}
use rekuest_next.Ports.{Ports}
use rekuest_next.Serialization.{Runtime}
use rekuest_next.Serialization.Shelving.{Shelve}
use rekuest_next.Serialization.Calls.{
  returned_values, same_length, Returned, shrink_outputs, expand_inputs,
}
use rekuest_next.Actors.Reported.{
  ActorMessage, progress, completed, failed, critical, log, yields, Ending, returned, raised,
  stopped,
}
use Prim.Native.String.{◌++◌ as concat}

-- What iterating over the function's results gives: each result with the agent's shelve as it is when the
-- result comes, then the end, an exception or the cancellation of the task.
pub data Results : Type 0 where
  ends raises cancels : Results
  gives : Returned → Shelve → Results → Results

-- A `SerializingActor`. The variables are interfaces under the names of the function's parameters.
pub record SerializingActor : Type 0 where
  pub args : Ports
  pub returns : Ports
  pub context_variables : Dict String
  pub write_state_variables : Dict String
  pub read_only_variables : Dict String
  pub dependency_variables : Dict String
  pub expand_inputs : Bool
  pub shrink_outputs : Bool

-- What the run meets. `locked` says whether the wait for the actor's locks ends, where the alternative is
-- that the task is cancelled; `proxy` is `AgentDependencyProxy(..., dependency_to_protocol(...))`;
-- `logs` is what the capture of the output has put into the list at the end of the run.
pub record Situation : Type 0 where
  pub locked : Bool
  pub shelve : Shelve
  pub contexts : Dict Object
  pub states : Dict Object
  pub proxy : String → Option Object
  pub iterator : Fields → Results
  pub capture : Bool
  pub logs : List String

pub record Run : Type 0 where
  pub reports : List ActorMessage
  pub outcome : Ending

-- One loop of `aget_locals`
unfoldable pub collect_locals : (String → Option Object) → Dict String → Fields → Option Fields
collect_locals fetch [] kwargs = some kwargs
collect_locals fetch ((key, interface) ∷ variables) kwargs = do
  v ← fetch interface
  collect_locals fetch variables (set_field kwargs key v)

-- The context, the state and the dependency arguments; `none` is an exception.
unfoldable pub aget_locals : SerializingActor → Situation → Option (Fields × Fields × Fields)
aget_locals actor s = do
  context_kwargs ← collect_locals (get s.contexts) actor.context_variables end
  written ← collect_locals (get s.states) actor.write_state_variables end
  state_kwargs ← collect_locals (get s.states) actor.read_only_variables written
  dependency_kwargs ← collect_locals s.proxy actor.dependency_variables end
  some (context_kwargs, state_kwargs, dependency_kwargs)

-- {**kwargs, **more}
unfoldable pub merge_kwargs : Fields → Fields → Fields
merge_kwargs kwargs end = kwargs
merge_kwargs kwargs (field k v more) = merge_kwargs (set_field kwargs k v) more

abbrev pub params_of : Fields → Fields × Fields × Fields → Fields
params_of input (context, state, dependency) =
    merge_kwargs (merge_kwargs (merge_kwargs input context) state) dependency

-- "".join(logs)
abbrev pub join : List String → String
join [] = ""
join (l ∷ ls) = concat l (join ls)

-- aflush_captured_logs
unfoldable pub flush : Situation → List ActorMessage
flush s = elim s.logs [ [] ↦ [] | l ∷ ls ↦ if s.capture then log (join (l ∷ ls)) ∷ [] else [] ]

-- How the loop over the results is left: at its end, by the return after a `SerializationError`, by another
-- exception, or by a cancellation.
pub data Exit : Type 0 where
  exhausted unserializable excepted aborted : Exit

-- `async with self.sync_context(...)`, after the first report
abbrev pub once_locked : Bool → Run → Run
once_locked true r = record r { reports = progress ∷ r.reports }
once_locked false r = record { reports = progress ∷ []; outcome = stopped }

module _ (rt : Runtime) where
  -- The body of `async for returns in self.aiterate_results(**params)`. All that `ashrink_return` raises
  -- is a `SerializationError`; the assertion on the number of returns is not.
  unfoldable pub iterate : SerializingActor → Results → List ActorMessage × Exit
  iterate actor ends = ([], exhausted)
  iterate actor raises = ([], excepted)
  iterate actor cancels = ([], aborted)
  iterate actor (gives r shelve rest) =
      elim (shrink_outputs rt actor.returns r (not actor.shrink_outputs) shelve) [
        | none ↦ (
          [],
          if same_length rt actor.returns (returned_values r) then unserializable else excepted,
        )
        | some (fs, t) ↦ let (reports, exit) = iterate actor rest in (yields fs ∷ reports, exit)
      ]

  unfoldable pub conclude : Situation → List ActorMessage × Exit → Run
  conclude s (reports, exhausted) = record {
    reports = reports ++ (flush s ++ completed ∷ []);
    outcome = returned;
  }
  conclude s (reports, unserializable) = record {
    reports = reports ++ failed ∷ [];
    outcome = returned;
  }
  conclude s (reports, excepted) = record {
    reports = reports ++ (flush s ++ critical ∷ []);
    outcome = returned;
  }
  conclude s (reports, aborted) = record { reports = reports; outcome = stopped }

  -- What follows once the locks are held
  unfoldable pub perform : SerializingActor → Situation → Fields → Run
  unfolding conclude iterate aget_locals
  perform actor s args =
      elim (expand_inputs rt actor.args args s.shelve (not actor.expand_inputs)) [
        | none ↦ record { reports = failed ∷ []; outcome = returned }
        | some input ↦ elim (aget_locals actor s) [
          | none ↦ record { reports = []; outcome = raised }
          | some locals ↦ conclude s (iterate actor (s.iterator (params_of input locals)))
        ]
      ]

  unfoldable pub on_assign : SerializingActor → Situation → Fields → Run
  unfolding perform
  on_assign actor s args = once_locked s.locked (perform actor s args)
