-- ===== src/History/Queries/Segments.antt =====
-- The events between two revisions (`aget_patch_events_between_global_revs` of
-- rekuest_next/contrib/fastapi/retriever/memory_retriever.py) lead from the state at the one to the state
-- at the other.
use mathlib.Core.List.{map-append}
use rekuest_next.Prelude.{
  ℕ, suc, ◌≤◌, String, ◌≡◌, refl, sym, ap, ◌∙◌, inl, inr, true, false, Option, none, some, List, [],
  ◌∷◌, map, arith, str_eq, eq_iff, eq_refl, leb, ◌==◌, Bool-cases, String-cases, set, filter,
}
use rekuest_next.Prelude.Dict.{get, get-put}
use rekuest_next.Evented.{Keeps, ok}
use rekuest_next.Agent.{
  patched_document, state_patch, advance, patch_event_loop, start, StatePatch, QueuedPatch, Agent,
  Shrink,
}
use rekuest_next.History.Sorting.{AllUpTo}
use rekuest_next.History.Bounds.{filter_keeps, filter_drops, filter_none, filter_same}
use rekuest_next.History.Loop.{with_state, advanced, AllOf, loop-Keeps, advance_lem, advance_unset}
use rekuest_next.History.Sent.{
  patched_sent, IsScalar, ScalarValue, AllScalar, AllScalar-append, map-touch, patched_scalar,
}
use rekuest_next.History.Steps.{put_missing, advance-Consistent, Consistent}
use rekuest_next.History.Start.{Unstarted, start-Consistent}
use rekuest_next.History.Checkout.{loop-Consistent}
use rekuest_next.History.Queries.{to_patch_event, is_within, get_events_between, PatchEvent}
use rekuest_next.History.Queries.Paging.{Recorded, advance-Recorded, loop-Recorded}
use rekuest_next.History.Queries.Ordered.{revision, sorted-Ascending, Ascending-filter}
use rekuest_next.History.Queries.Applied.{
  apply_events, apply_events-append, given-document, start-NoPatches,
}

module _ {ℓ κ μ} {D : Type ℓ} {B : Type κ} {A : Type μ} (env : Shrink D B A) (state_id : String)
    (session_id : Option String) where
  abbrev events : ℕ → ℕ → Agent D B → List (PatchEvent B)
  events from_revision to_revision a = map to_patch_event (
      filter (is_within from_revision to_revision (some (state_id ∷ [])) session_id)
        a.store.patches)

  module _ (start : ℕ) (d₀ : D) where
    -- The events since the start lead from the state there to the present one.
    abbrev Leads : Agent D B → Type ℓ
    Leads a =
        Recorded env a
        × Consistent env state_id session_id a
        × (start ≤ a.global_revision)
        × (apply_events env.apply_patch (events start a.global_revision a) d₀
            ≡ get a.current_shrunk_states state_id)

    grown_events :
        (r : ℕ) (ps : List (StatePatch B))
        → AllUpTo revision r ps
        → filter (is_within start (suc r) (some (state_id ∷ [])) session_id) ps
          ≡ filter (is_within start r (some (state_id ∷ [])) session_id) ps
    grown_events r ps h = filter_same revision _ _ r ps h (λ p le.
        let before : leb p.global_rev (suc r) ≡ true = ground arith in
        let here : leb p.global_rev r ≡ true = ground arith in rw (before, here) refl)

    advance-Leads :
        (q : QueuedPatch A) (v : Option B) (c d : D) (a : Agent D B)
        → get a.current_shrunk_states q.interface ≡ some c
        → patched_document env q c ≡ ok (v, d)
        → IsScalar env q
        → Leads a
        → Leads (advance env q v d a).1
    advance-Leads q v c d a now patched u (recorded, k, le, leads) =
        let scalar = patched_scalar env q c v d u patched in
        let old = map-touch env a q v a.store.patches k.scalars in
        let (current, rev, more) = advance_lem env q v d a k.interval_set in
        let p = state_patch env q v (advanced env q d a) in
        let applied = patched_sent env q c v d patched in
        let same_past = grown_events a.global_revision a.store.patches recorded.1 in
        (
          advance-Recorded env q v d a recorded,
          advance-Consistent env state_id session_id q v c d a now applied scalar k,
          omega (arith, rev, le),
          rw (rev, current, more, old)
              (elim (String-cases q.interface state_id) [
                | inl same ↦
                    let named : str_eq q.interface state_id ≡ true = rw same (eq_refl state_id) in
                    let chosen : is_within start (suc a.global_revision) (some (state_id ∷ []))
                          session_id p
                        ≡ true =
                      ground (arith, le, same, eq_refl state_id, k.same_session) in
                    let before = leads ∙ ap (get a.current_shrunk_states) (sym same) ∙ now in
                    rw
                      (
                        filter_keeps _ a.store.patches p chosen,
                        same_past,
                        map-append,
                        get-put,
                        named,
                      )
                      (apply_events-append env.apply_patch (events start a.global_revision a)
                          (to_patch_event p) d₀ c before
                        ∙ rw (given-document q.patch.op q.patch.path v) applied)
                | inr differs ↦
                    let other : is_within start (suc a.global_revision) (some (state_id ∷ []))
                          session_id p
                        ≡ false =
                      ground (
                        arith,
                        differs,
                        eq_iff q.interface state_id,
                        eq_iff state_id q.interface,
                      ) in
                    rw (filter_drops _ a.store.patches p other, same_past, get-put, differs) leads
              ]),
        )

    missing-Leads :
        (i : String) (d : D) (a : Agent D B)
        → get a.current_shrunk_states i ≡ none
        → Leads a
        → Leads (with_state env i d a)
    missing-Leads i d a e (recorded, k, le, leads) = (
      recorded,
      put_missing env state_id session_id i d a e k,
      le,
      elim (String-cases i state_id) [
        | inl same ↦
            let missing = ap (get a.current_shrunk_states) (sym same) ∙ e in
            absurd (ground (arith, sym missing ∙ k.current))
        | inr differs ↦ rw (get-put, differs) leads
      ],
    )

    loop-Leads :
        (qs : List (QueuedPatch A))
        → AllOf env (IsScalar env) qs
        → Keeps Leads (patch_event_loop env qs)
    loop-Leads = loop-Keeps env Leads (IsScalar env) missing-Leads advance-Leads

    Leads-here :
        (a : Agent D B)
        → Recorded env a
        → Consistent env state_id session_id a
        → start ≡ a.global_revision
        → get a.current_shrunk_states state_id ≡ some d₀
        → Leads a
    unfolding apply_events
    Leads-here a recorded k here now = (
      recorded,
      k,
      omega (arith, here),
      rw
          (filter_none revision
            (is_within start a.global_revision (some (state_id ∷ [])) session_id) a.global_revision
            a.store.patches recorded.1 (λ p le. ground (arith, here)))
          (sym now),
    )

    -- Later patches add nothing to the events up to a revision that is reached.
    module _ (stop : ℕ) (d₁ : D) where
      abbrev Led : Agent D B → Type ℓ
      Led a =
          Recorded env a
          × AllScalar env a.store.patches
          × (stop ≤ a.global_revision)
          × (apply_events env.apply_patch (events start stop a) d₀ ≡ some d₁)

      advance-Led :
          (q : QueuedPatch A) (v : Option B) (d : D)
          → ScalarValue env v
          → Keeps Led (advance env q v d)
      advance-Led q v d sv a (recorded, known, le, led) =
          let old = map-touch env a q v a.store.patches known in
          elim (Bool-cases (a.snapshot_interval == 0)) [
            | inl unset ↦
                let (rev, same) = advance_unset env q v d a unset in
                (
                  advance-Recorded env q v d a recorded,
                  rw (same, old) known,
                  omega (arith, rev, le),
                  rw (same, old) led,
                )
            | inr set ↦
                let (_, rev, more) = advance_lem env q v d a set in
                let p = state_patch env q v (advanced env q d a) in
                let late : is_within start stop (some (state_id ∷ [])) session_id p ≡ false =
                  ground (arith, le) in
                (
                  advance-Recorded env q v d a recorded,
                  rw (more, old) (AllScalar-append env a.store.patches p known sv),
                  omega (arith, rev, le),
                  rw (more, old, filter_drops _ a.store.patches p late) led,
                )
          ]

      loop-Led :
          (qs : List (QueuedPatch A))
          → AllOf env (IsScalar env) qs
          → Keeps Led (patch_event_loop env qs)
      loop-Led =
          loop-Keeps env Led (IsScalar env) (λ i d a missing k. k)
            (λ q v c d a now patched u. advance-Led q v d (patched_scalar env q c v d u patched) a)

  -- An agent that has published nothing and whose snapshot interval is not 0 is started without an error,
  -- and processes patches in three parts, of which each may end with an error; no patch carries a list or a dict. A client that has the state
  -- of an initialized interface after the first part, and applies the patches of the events of that state
  -- between the revisions after the first and the second part, has its state after the second part.
  pub events-lead :
      (schemas started : List String) (earlier middle later : List (QueuedPatch A)) (a : Agent D B)
      (b c d : D)
      → AllOf env (IsScalar env) earlier
      → AllOf env (IsScalar env) middle
      → AllOf env (IsScalar env) later
      → Unstarted env state_id session_id a
      → (start env schemas started a).0 ≡ ok tt
      → get (start env schemas started a).1.current_shrunk_states state_id ≡ some b
      → let first = (patch_event_loop env earlier (start env schemas started a).1).1 in
        let second = (patch_event_loop env middle first).1 in
        let last = (patch_event_loop env later second).1 in
        get first.current_shrunk_states state_id ≡ some c
        → get second.current_shrunk_states state_id ≡ some d
        → apply_events env.apply_patch
            (get_events_between first.global_revision second.global_revision
              (some (state_id ∷ []))
              session_id
              last.store)
            c
          ≡ some d
  unfolding get_events_between
  events-lead schemas started earlier middle later a b c d es ms ls u fine g now now' =
      let begun = (start env schemas started a).1 in
      let first = (patch_event_loop env earlier begun).1 in
      let second = (patch_event_loop env middle first).1 in
      let last = (patch_event_loop env later second).1 in
      let fresh = start-NoPatches env schemas started a (ap (λ s. s.patches) u.nothing_stored) in
      let recorded = loop-Recorded env earlier begun (rw fresh (tt, tt)) in
      let k =
        loop-Consistent env state_id session_id earlier es begun
          (start-Consistent env state_id session_id schemas started a b u fine g) in
      let r = first.global_revision in
      let (recorded', k', le, leads) =
        loop-Leads r c middle ms first (Leads-here r c first recorded k refl now) in
      let (recorded'', _, _, led) =
        loop-Led r c second.global_revision d later ls second
          (recorded', k'.scalars, omega arith, leads ∙ now') in
      let within = is_within r second.global_revision (some (state_id ∷ [])) session_id in
      rw
        (sorted-Ascending (filter within last.store.patches)
          (Ascending-filter within last.store.patches recorded''.0))
        led
