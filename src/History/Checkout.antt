-- ===== src/History/Checkout.antt =====
-- The agent's patch loop and the retriever together: what is answered about a revision is the shrunk
-- state that the agent had then.
use rekuest_next.Prelude.{
  ℕ, suc, ◌%◌, ◌≤◌, String, ◌≡◌, refl, sym, ◌∙◌, inl, inr, Option, some, List, arith, ◌==◌,
  Bool-cases, set,
}
use rekuest_next.Prelude.Dict.{get, put}
use rekuest_next.Evented.{Keeps}
use rekuest_next.Agent.{
  Agent, StatePatch, StateSnapshot, full_snapshot, Shrink, QueuedPatch, checkpoint, advance,
  state_patch, patch_event_loop,
}
use rekuest_next.History.Loop.{AllOf, loop-Keeps}
use rekuest_next.History.Store.{later_snapshot, later_patch, add_patch, add_snapshot}
use rekuest_next.History.{build_state_snapshot}
use rekuest_next.History.Sent.{
  patched_sent, IsScalar, ScalarValue, AllScalar, AllScalar-append, map-touch, patched_scalar,
}
use rekuest_next.History.Steps.{Recalls, Consistent, put_missing, advance-Consistent}

module _ {ℓ κ μ} {D : Type ℓ} {B : Type κ} {A : Type μ} (env : Shrink D B A) (state_id : String)
    (session_id : Option String) where
  abbrev Consistent' : Agent D B → Type ℓ
  Consistent' = Consistent env state_id session_id

  pub loop-Consistent :
      (qs : List (QueuedPatch A))
      → AllOf env (IsScalar env) qs
      → Keeps Consistent' (patch_event_loop env qs)
  loop-Consistent =
      loop-Keeps env Consistent' (IsScalar env) (put_missing env state_id session_id)
        (λ q v c d a now patched u k.
          advance-Consistent env state_id session_id q v c d a now
            (patched_sent env q c v d patched) (patched_scalar env q c v d u patched) k)

  module _ (r : ℕ) (d : D) where
    -- An answer about a revision that is reached.
    abbrev Remembers : Agent D B → Type ℓ
    Remembers a =
        (r ≤ a.global_revision)
        × Recalls env state_id session_id r d a.store
        × AllScalar env a.store.patches

    after_patch :
        (a : Agent D B) (p : StatePatch B)
        → r ≤ a.global_revision
        → p.global_rev ≡ suc a.global_revision
        → build_state_snapshot env.apply_patch state_id r session_id
            (add_patch env.apply_patch state_id session_id a.store p)
          ≡ build_state_snapshot env.apply_patch state_id r session_id a.store
    after_patch a p le rev =
        later_patch env.apply_patch state_id session_id r a.store p (omega (arith, rev))

    after_both :
        (a : Agent D B) (p : StatePatch B) (e : StateSnapshot D)
        → r ≤ a.global_revision
        → p.global_rev ≡ suc a.global_revision
        → e.global_rev ≡ suc a.global_revision
        → build_state_snapshot env.apply_patch state_id r session_id (
            add_snapshot env.apply_patch state_id session_id
              (add_patch env.apply_patch state_id session_id a.store p)
              e)
          ≡ build_state_snapshot env.apply_patch state_id r session_id a.store
    after_both a p e le rev rev' =
        later_snapshot env.apply_patch state_id session_id r
          (add_patch env.apply_patch state_id session_id a.store p) e (omega (arith, rev'))
        ∙ after_patch a p le rev

    advance-Remembers :
        (q : QueuedPatch A) (v : Option B) (e : D)
        → ScalarValue env v
        → Keeps Remembers (advance env q v e)
    unfolding advance
    advance-Remembers q v e sv a (le, (s, found, same), known) =
        let grown : Agent D B = record a {
          current_shrunk_states = put a.current_shrunk_states q.interface e;
          global_revision = suc a.global_revision;
        } in
        let old = map-touch env a q v a.store.patches known in
        let more = AllScalar-append env a.store.patches _ known sv in
        elim (Bool-cases (a.snapshot_interval == 0)) [
          | inl unset ↦ rw (unset, checkpoint, old) (omega (arith, le), (s, found, same), known)
          | inr set ↦ elim (Bool-cases (suc a.global_revision % a.snapshot_interval == 0)) [
            | inl due ↦
                rw (set, due, checkpoint, old)
                  (
                    omega (arith, le),
                    (
                      s,
                      after_both a (state_patch env q v grown) (full_snapshot env grown) le refl
                            refl
                          ∙ found,
                      same,
                    ),
                    more,
                  )
            | inr due ↦
                rw (set, due, checkpoint, old)
                  (
                    omega (arith, le),
                    (s, after_patch a (state_patch env q v grown) le refl ∙ found, same),
                    more,
                  )
          ]
        ]

    loop-Remembers :
        (qs : List (QueuedPatch A))
        → AllOf env (IsScalar env) qs
        → Keeps Remembers (patch_event_loop env qs)
    loop-Remembers =
        loop-Keeps env Remembers (IsScalar env) (λ i e a missing k. k)
          (λ q v c e a now patched u k.
            advance-Remembers q v e (patched_scalar env q c v e u patched) a k)

  -- From an agent whose store answers for its revision: after any patches, of which some may fail and
  -- end the loop, and after any later ones, none of which carries a list or a dict, the retriever's answer about the revision that the agent
  -- had after the first ones is the shrunk state that the interface had then.
  pub checkout_lem :
      (earlier later : List (QueuedPatch A)) (a : Agent D B) (d : D)
      → AllOf env (IsScalar env) earlier
      → AllOf env (IsScalar env) later
      → Consistent env state_id session_id a
      → get (patch_event_loop env earlier a).1.current_shrunk_states state_id ≡ some d
      → Recalls env state_id session_id
          (patch_event_loop env earlier a).1.global_revision
          d
          (patch_event_loop env later (patch_event_loop env earlier a).1).1.store
  checkout_lem earlier later a d es ls k now =
      let k' = loop-Consistent earlier es a k in
      let (s, found, same) = k'.recalled in
      let document : k'.document ≡ d = ground (arith, sym k'.current ∙ now) in
      (loop-Remembers _ d later ls _ (omega arith, (s, found, same ∙ document), k'.scalars)).1
