-- ===== src/History/Queries/Applied.antt =====
-- A client that applies events, and the values that the agent's patches carry (`_to_patch_document` of
-- rekuest_next/contrib/fastapi/retriever/memory_retriever.py).
use rekuest_next.Prelude.{
  String, ◌≡◌, refl, sym, ap, ◌∙◌, inl, inr, Option, none, some, List, [], ◌∷◌, ◌++◌, arith,
  Bool-cases, Option-cases, all, contains,
}
use rekuest_next.Evented.{Keeps, Keeps-bind, Op, add, remove, replace}
use rekuest_next.Evented.Receiver.{Apply}
use rekuest_next.Pointer.{Text}
use rekuest_next.Agent.{init_each, init_states, dump_snapshot, start, Agent, Shrink}
use rekuest_next.History.Bounds.{List-cases}
use rekuest_next.History.Loop.{with_state}
use rekuest_next.History.{sent_value}
use rekuest_next.History.Queries.{to_patch_document, PatchEvent}

abbrev pub given {κ} : {B : Type κ} → Option (Option B) → Option B
given none = none
given (some v) = v

pub given-document {κ} :
    {B : Type κ} (op : Op) (path : Text) (v : Option B)
    → given (to_patch_document op path v).value ≡ sent_value op v
given-document add path v = refl
given-document remove path v = refl
given-document replace path v = refl

module _ {ℓ κ} {D : Type ℓ} {B : Type κ} (apply_patch : Apply D B) where
  abbrev pub apply_event : PatchEvent B → D → Option D
  apply_event e d = apply_patch d e.patch.op e.patch.path (given e.patch.value)

  -- A client that applies the documents of the events, one after the other
  unfoldable pub apply_events : List (PatchEvent B) → D → Option D
  apply_events [] d = some d
  apply_events (e ∷ es) d = elim (apply_event e d) [ none ↦ none | some c ↦ apply_events es c ]

  pub apply_events-append :
      (es : List (PatchEvent B)) (e : PatchEvent B) (d c : D)
      → apply_events es d ≡ some c
      → apply_events (es ++ e ∷ []) d ≡ apply_event e c
  unfolding apply_events
  apply_events-append [] e d c h =
      let same : d ≡ c = ground (arith, h) in
      elim (Option-cases (apply_event e d)) [
        | inl n ↦ rw (apply_events, n) (sym n ∙ ap (apply_event e) same)
        | inr (b, n) ↦ rw (apply_events, n) (sym n ∙ ap (apply_event e) same)
      ]
  apply_events-append (f ∷ es) e d c h = elim (Option-cases (apply_event f d)) [
    | inl n ↦
        let stuck : apply_events (f ∷ es) d ≡ none = rw (apply_events, n) refl in
        ground (arith, sym stuck ∙ h)
    | inr (b, n) ↦
        let ran : apply_events (f ∷ es) d ≡ apply_events es b = rw (apply_events, n) refl in
        rw (apply_events, n) (apply_events-append es e b c (sym ran ∙ h))
  ]

module _ {ℓ κ μ} {D : Type ℓ} {B : Type κ} {A : Type μ} (env : Shrink D B A) where
  -- Starting an agent stores no patch.
  abbrev pub NoPatches : Agent D B → Type κ
  NoPatches a = a.store.patches ≡ []

  init_each-NoPatches : (started : List String) → Keeps NoPatches (init_each env started)
  unfolding init_each
  init_each-NoPatches [] a h = h
  init_each-NoPatches (i ∷ started) a h = elim (Option-cases (env.shrink_state i)) [
    | inl e ↦ rw e h
    | inr (d, e) ↦ rw e (init_each-NoPatches started (with_state env i d a) h)
  ]

  pub start-NoPatches :
      (schemas started : List String) → Keeps NoPatches (start env schemas started)
  unfolding start init_states
  start-NoPatches schemas started =
      Keeps-bind NoPatches (init_states env schemas started) _
        (λ a h. elim (Bool-cases (all (contains started) schemas)) [
          | inl e ↦ rw e (
              Keeps-bind NoPatches (init_each env started) _ (init_each-NoPatches started)
                (λ _ b k. k) a h)
          | inr e ↦ rw e h
        ])
        (λ _ a h. elim (List-cases a.current_shrunk_states) [
          | inl e ↦ rw (e, dump_snapshot) h
          | inr (x, xs, e) ↦ rw (e, dump_snapshot) h
        ])
