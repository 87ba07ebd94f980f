-- ===== src/History/Loop.antt =====
-- The rule for what holds between any two patches of the agent's queue (`apatch_event_loop` of
-- rekuest_next/agents/base.py), and what one patch leaves.
use rekuest_next.Prelude.{
  suc, ◌%◌, String, ◌≡◌, refl, inl, inr, true, false, Option, none, some, List, [], ◌∷◌, ◌++◌, map,
  eq_refl, ◌==◌, Bool-cases, Option-cases, set,
}
use rekuest_next.Prelude.Dict.{get, put, get-put}
use rekuest_next.Evented.{Result-cases, Keeps, Keeps-bind, continue, ok}
use rekuest_next.Agent.{
  shrunk_state, patched_document, touch, checkpoint, state_patch, advance, process_patch_event,
  patch_event_loop, QueuedPatch, Agent, Shrink,
}

module _ {ℓ κ μ} {D : Type ℓ} {B : Type κ} {A : Type μ} (env : Shrink D B A) where
  abbrev pub with_state : String → D → Agent D B → Agent D B
  with_state i d a = record a { current_shrunk_states = put a.current_shrunk_states i d }

  -- The agent when the message of a patch is made
  abbrev pub advanced : QueuedPatch A → D → Agent D B → Agent D B
  advanced q d a = record a {
    current_shrunk_states = put a.current_shrunk_states q.interface d;
    global_revision = suc a.global_revision;
  }

  -- All patches of the queue are so.
  abbrev pub AllOf {ξ} : (QueuedPatch A → Type ξ) → List (QueuedPatch A) → Type ξ
  AllOf Q [] = Unit
  AllOf Q (q ∷ qs) = Q q × AllOf Q qs

  abbrev pub Any : QueuedPatch A → Type 0
  Any q = Unit

  pub all-Any : (qs : List (QueuedPatch A)) → AllOf Any qs
  all-Any [] = tt
  all-Any (q ∷ qs) = (tt, all-Any qs)

  module _ {ν ξ} (P : Agent D B → Type ν) (Q : QueuedPatch A → Type ξ)
      (missing : (i : String) (d : D) (a : Agent D B)
        → get a.current_shrunk_states i ≡ none
        → P a
        → P (with_state i d a))
      (step : (q : QueuedPatch A) (v : Option B) (c d : D) (a : Agent D B)
        → get a.current_shrunk_states q.interface ≡ some c
        → patched_document env q c ≡ ok (v, d)
        → Q q
        → P a
        → P (advance env q v d a).1) where
    patched-Keeps :
        (q : QueuedPatch A) (c : D) (a : Agent D B)
        → get a.current_shrunk_states q.interface ≡ some c
        → Q q
        → P a
        → P (continue (patched_document env q c) a (λ x. advance env q x.0 x.1)).1
    patched-Keeps q c a now u k = elim (Result-cases (patched_document env q c)) [
      | inl (e, f) ↦ rw f k
      | inr ((v, d), f) ↦ rw f (step q v c d a now f u k)
    ]

    process-Keeps : (q : QueuedPatch A) → Q q → Keeps P (process_patch_event env q)
    unfolding process_patch_event
    process-Keeps q u a k = elim (Option-cases (get a.current_shrunk_states q.interface)) [
      | inr (c, e) ↦ rw (e, shrunk_state) (patched-Keeps q c a e u k)
      | inl e ↦ elim (Option-cases (env.shrink_state q.interface)) [
        | inl f ↦ rw (e, f, shrunk_state) k
        | inr (c, f) ↦
            rw (e, f, shrunk_state)
              (patched-Keeps q c (with_state q.interface c a)
                (rw (get-put, eq_refl q.interface) refl) u (missing q.interface c a e k))
      ]
    ]

    pub loop-Keeps : (qs : List (QueuedPatch A)) → AllOf Q qs → Keeps P (patch_event_loop env qs)
    unfolding patch_event_loop
    loop-Keeps [] us a k = k
    loop-Keeps (q ∷ qs) us a k =
        Keeps-bind P (process_patch_event env q) (λ _. patch_event_loop env qs)
          (process-Keeps q us.0) (λ _. loop-Keeps qs us.1) a k

  -- What a patch changes, where a checkpoint raises nothing
  pub advance_lem :
      (q : QueuedPatch A) (v : Option B) (d : D) (a : Agent D B)
      → (a.snapshot_interval == 0) ≡ false
      → let b = (advance env q v d a).1 in
        (b.current_shrunk_states ≡ put a.current_shrunk_states q.interface d)
        × (b.global_revision ≡ suc a.global_revision)
        × (b.store.patches
            ≡ map (touch env a q v) a.store.patches ++ state_patch env q v (advanced q d a) ∷ [])
  unfolding advance
  advance_lem q v d a set = elim (Bool-cases (suc a.global_revision % a.snapshot_interval == 0)) [
    | inl due ↦ rw (set, due, checkpoint) (refl, refl, refl)
    | inr due ↦ rw (set, due, checkpoint) (refl, refl, refl)
  ]

  -- Where the interval is 0, the message of the patch is not published.
  pub advance_unset :
      (q : QueuedPatch A) (v : Option B) (d : D) (a : Agent D B)
      → (a.snapshot_interval == 0) ≡ true
      → let b = (advance env q v d a).1 in
        (b.global_revision ≡ suc a.global_revision)
        × (b.store.patches ≡ map (touch env a q v) a.store.patches)
  unfolding advance
  advance_unset q v d a unset = rw (unset, checkpoint) (refl, refl)
