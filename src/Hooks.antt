-- ===== src/Hooks.antt =====
-- rekuest_next/agents/base.py, `arun_startup_hooks` and `arun_shutdown_hooks`. What a hook does is a
-- parameter: its answer, or that it raises or is timed out.
pub mod Union
mod Tests
use rekuest_next.Prelude.{
  ◌+◌, ◌-◌, ◌/◌, String, Bool, true, false, not, Option, none, some, List, [], ◌∷◌, ◌++◌, reverse,
  if◌then◌else◌, take, all,
}
use rekuest_next.Prelude.Dict.{Dict, has, put}

-- `StartupHookReturns`
pub record StartupReturns {ℓ} (V : Type ℓ) : Type ℓ where
  pub states : Dict V
  pub contexts : Dict V

module _ {ℓ} {V : Type ℓ} where
  -- `for i in answer.states: ...`; a name that is taken raises.
  unfoldable pub merge : Dict V → List (String × V) → Option (Dict V)
  merge d [] = some d
  merge d ((k, v) ∷ entries) =
      let rest = merge (put d k v) entries in if has d k then none else rest

  abbrev pub merge_answer : StartupReturns V → StartupReturns V → Option (StartupReturns V)
  merge_answer sofar answer = elim (merge sofar.states answer.states) [
    | none ↦ none
    | some states ↦ elim (merge sofar.contexts answer.contexts) [
      | none ↦ none
      | some contexts ↦ some (record { states = states; contexts = contexts })
    ]
  ]

  -- `arun_startup_hooks` over the answers of the hooks in the order of registration; `none` is a
  -- `StartupHookError`, for a hook that fails or for a name that two hooks define.
  unfoldable pub run_startup_hooks :
      List (Option (StartupReturns V)) → StartupReturns V → Option (StartupReturns V)
  unfolding merge
  run_startup_hooks [] sofar = some sofar
  run_startup_hooks (none ∷ hooks) sofar = none
  run_startup_hooks (some answer ∷ hooks) sofar = elim (merge_answer sofar answer) [
    | none ↦ none
    | some sofar' ↦ run_startup_hooks hooks sofar'
  ]

-- What the shutdown changes: the flag, and the hooks that have been called
pub record Shutdown : Type 0 where
  pub ran_startup_hooks : Bool
  pub called : List String

-- The loop of `arun_shutdown_hooks`; a hook that fails is logged only.
unfoldable pub call_each : (fails : String → Bool) → List String → Shutdown → Shutdown
call_each fails [] s = s
call_each fails (key ∷ keys) s =
    let called : Shutdown = record s { called = s.called ++ key ∷ [] } in
    elim (fails key) [ true ↦ call_each fails keys called | false ↦ call_each fails keys called ]

unfoldable pub run_shutdown_hooks : (fails : String → Bool) → List String → Shutdown → Shutdown
unfolding call_each
run_shutdown_hooks fails keys s =
    if not s.ran_startup_hooks
    then s
    else call_each fails (reverse keys) (record s { ran_startup_hooks = false })
