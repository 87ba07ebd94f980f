-- ===== src/Hooks/Union.antt =====
-- What the startup hooks define together, and the order in which the shutdown hooks are called.
use rekuest_next.Prelude.{
  String, ◌≡◌, refl, sym, ap, ◌∙◌, inl, inr, Bool, true, false, Option, none, some, List, [], ◌∷◌,
  ◌++◌, reverse, append-nil, append_assoc, arith, Bool-cases, Option-cases,
}
use rekuest_next.Prelude.Dict.{Dict, has, put}
use rekuest_next.Hooks.{
  StartupReturns, merge, run_startup_hooks, Shutdown, call_each, run_shutdown_hooks,
}

module _ {ℓ} {V : Type ℓ} where
  put_missing : (d : Dict V) (k : String) (v : V) → has d k ≡ false → put d k v ≡ d ++ (k, v) ∷ []
  unfolding put has
  put_missing [] k v h = refl
  put_missing ((j, w) ∷ d) k v h = ground (arith, h, put_missing d k v)

  merge_appends :
      (d : Dict V) (entries : List (String × V)) (r : Dict V)
      → merge d entries ≡ some r
      → r ≡ d ++ entries
  unfolding merge
  merge_appends d [] r h = ground (arith, h, append-nil d)
  merge_appends d ((k, v) ∷ entries) r h = elim (Bool-cases (has d k)) [
    | inl e ↦
        let taken : merge d ((k, v) ∷ entries) ≡ none = rw (e, merge) refl in
        ground (arith, sym taken ∙ h)
    | inr e ↦
        let ran : merge d ((k, v) ∷ entries) ≡ merge (put d k v) entries = rw (e, merge) refl in
        merge_appends (put d k v) entries r (sym ran ∙ h)
        ∙ ap (λ z. z ++ entries) (put_missing d k v e)
        ∙ append_assoc d ((k, v) ∷ []) entries
  ]

  -- The entries of all hooks, hook by hook.
  pub all_entries :
      (StartupReturns V → Dict V) → List (Option (StartupReturns V)) → List (String × V)
  all_entries part [] = []
  all_entries part (none ∷ hooks) = all_entries part hooks
  all_entries part (some answer ∷ hooks) = part answer ++ all_entries part hooks

  -- Where the startup hooks end without an error, the states and the contexts that they define are
  -- those of the hooks, one hook after the other, behind those that were there.
  pub startup-concat :
      (hooks : List (Option (StartupReturns V))) (sofar result : StartupReturns V)
      → run_startup_hooks hooks sofar ≡ some result
      → (result.states ≡ sofar.states ++ all_entries (λ a. a.states) hooks)
        × (result.contexts ≡ sofar.contexts ++ all_entries (λ a. a.contexts) hooks)
  unfolding run_startup_hooks all_entries
  startup-concat [] sofar result h =
      let same : sofar ≡ result = ground (arith, h) in
      (
        ap (λ a. a.states) (sym same) ∙ sym (append-nil sofar.states),
        ap (λ a. a.contexts) (sym same) ∙ sym (append-nil sofar.contexts),
      )
  startup-concat (none ∷ hooks) sofar result h = ground (arith, h)
  startup-concat (some answer ∷ hooks) sofar result h =
      elim (Option-cases (merge sofar.states answer.states)) [
        | inl e ↦
            let stopped : run_startup_hooks (some answer ∷ hooks) sofar ≡ none =
              rw (e, run_startup_hooks) refl in
            ground (arith, sym stopped ∙ h)
        | inr (states, e) ↦ elim (Option-cases (merge sofar.contexts answer.contexts)) [
          | inl f ↦
              let stopped : run_startup_hooks (some answer ∷ hooks) sofar ≡ none =
                rw (e, f, run_startup_hooks) refl in
              ground (arith, sym stopped ∙ h)
          | inr (contexts, f) ↦
              let both : StartupReturns V = record { states = states; contexts = contexts } in
              let ran : run_startup_hooks (some answer ∷ hooks) sofar
                  ≡ run_startup_hooks hooks both =
                rw (e, f, run_startup_hooks) refl in
              let (p, q) = startup-concat hooks both result (sym ran ∙ h) in
              (
                p
                    ∙ ap (λ z. z ++ all_entries (λ a. a.states) hooks)
                        (merge_appends sofar.states answer.states states e)
                    ∙ append_assoc sofar.states answer.states (all_entries (λ a. a.states) hooks),
                q
                    ∙ ap (λ z. z ++ all_entries (λ a. a.contexts) hooks)
                        (merge_appends sofar.contexts answer.contexts contexts f)
                    ∙ append_assoc sofar.contexts answer.contexts
                        (all_entries (λ a. a.contexts) hooks),
              )
        ]
      ]

pub call_each_lem :
    (fails : String → Bool) (keys : List String) (s : Shutdown)
    → call_each fails keys s ≡ record s { called = s.called ++ keys }
unfolding call_each
call_each_lem fails [] s = ap (λ zs. record s { called = zs }) (sym (append-nil s.called))
call_each_lem fails (k ∷ keys) s =
    let rest =
      call_each_lem fails keys (record s { called = s.called ++ k ∷ [] })
      ∙ ap (λ zs. record s { called = zs }) (append_assoc s.called (k ∷ []) keys) in
    elim (Bool-cases (fails k)) [ inl e ↦ rw (e, call_each) rest | inr e ↦ rw (e, call_each) rest ]

-- An agent that ran its startup hooks is shut down twice: every shutdown hook is called once, in the
-- reverse of the order of registration, whichever of them fail.
pub shutdown-twice :
    (fails : String → Bool) (keys : List String) (s : Shutdown)
    → s.ran_startup_hooks ≡ true
    → run_shutdown_hooks fails keys (run_shutdown_hooks fails keys s)
      ≡ record { ran_startup_hooks = false; called = s.called ++ reverse keys }
unfolding run_shutdown_hooks
shutdown-twice fails keys s h = rw (h, call_each_lem) refl
