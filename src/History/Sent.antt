-- ===== src/History/Sent.antt =====
-- The value of a patch that the agent publishes is the one that it applied (`_ashrink_patch_value` of
-- rekuest_next/agents/base.py, `_to_patch_document` of
-- rekuest_next/contrib/fastapi/retriever/memory_retriever.py).
use mathlib.Core.Path.{subst}
use rekuest_next.Prelude.{
  ◌≡◌, refl, sym, ap, ◌∙◌, inl, inr, true, Option, none, some, List, [], ◌∷◌, ◌++◌, map, arith,
  Option-cases,
}
use rekuest_next.Evented.{
  Result, Result-cases, Op, add, remove, replace, ok, raised, patch_conflict, agent_exception,
}
use rekuest_next.Ports.{Port}
use rekuest_next.Agent.{
  shrink_patch_value, patched_document, touched, touch, StatePatch, QueuedPatch, Agent, Shrink,
}
use rekuest_next.History.{sent_value}

module _ {ℓ κ μ} {D : Type ℓ} {B : Type κ} {A : Type μ} (env : Shrink D B A) where
  patched_lem :
      (q : QueuedPatch A) (c : D) (v : Option B) (d : D)
      → patched_document env q c ≡ ok (v, d)
      → env.apply_patch c q.patch.op q.patch.path v ≡ some d
  unfolding patched_document
  patched_lem q c v d h = elim (Result-cases (shrink_patch_value env q.interface q.patch)) [
    | inl (e, f) ↦
        let stuck : patched_document env q c ≡ raised e = rw (f, patched_document) refl in
        ground (arith, sym stuck ∙ h)
    | inr (w, f) ↦ elim (Option-cases (env.apply_patch c q.patch.op q.patch.path w)) [
      | inl g ↦
          let stuck : patched_document env q c ≡ raised patch_conflict =
            rw (f, g, patched_document) refl in
          ground (arith, sym stuck ∙ h)
      | inr (b, g) ↦
          let run : patched_document env q c ≡ ok (w, b) = rw (f, g, patched_document) refl in
          let same : ok (w, b) ≡ ok (v, d) = sym run ∙ h in
          let value : w ≡ v = ground (arith, same) in
          let document : b ≡ d = ground (arith, same) in sym (rw value refl) ∙ g ∙ ap some document
    ]
  ]

  sent_of : (op : Op) (v : Option B) → (op ≡ remove → v ≡ none) → sent_value op v ≡ v
  sent_of add v h = refl
  sent_of remove v h = sym (h refl)
  sent_of replace v h = refl

  -- A removal has no value.
  removed_lem :
      (q : QueuedPatch A) (v : Option B) (c d : D)
      → patched_document env q c ≡ ok (v, d)
      → q.patch.op ≡ remove
      → v ≡ none
  unfolding patched_document
  removed_lem q v c d h r = elim (Option-cases (env.apply_patch c q.patch.op q.patch.path none)) [
    | inl n ↦
        let stuck : patched_document env q c ≡ raised patch_conflict =
          rw (patched_document, r, n) refl in
        absurd (ground (arith, sym stuck ∙ h))
    | inr (b, n) ↦
        let ran : patched_document env q c ≡ ok (none, b) = rw (patched_document, r, n) refl in
        ground (arith, sym ran ∙ h)
  ]

  -- A published patch has the value that the agent applied.
  pub patched_sent :
      (q : QueuedPatch A) (c : D) (v : Option B) (d : D)
      → patched_document env q c ≡ ok (v, d)
      → env.apply_patch c q.patch.op q.patch.path (sent_value q.patch.op v) ≡ some d
  patched_sent q c v d h = rw (sent_of q.patch.op v (removed_lem q v c d h)) (patched_lem q c v d h)

module _ {ℓ κ μ} {D : Type ℓ} {B : Type κ} {A : Type μ} (env : Shrink D B A) where
  -- The patch carries no list and no dict.
  abbrev pub IsScalar : QueuedPatch A → Type κ
  IsScalar q = (v : B) → env.shrink_return q.interface q.patch ≡ some v → env.is_scalar v ≡ true

  abbrev pub ScalarValue : Option B → Type 0
  ScalarValue none = Unit
  ScalarValue (some b) = env.is_scalar b ≡ true

  abbrev pub AllScalar : List (StatePatch B) → Type 0
  AllScalar [] = Unit
  AllScalar (p ∷ ps) = ScalarValue p.value × AllScalar ps

  pub AllScalar-append :
      (ps : List (StatePatch B)) (p : StatePatch B)
      → AllScalar ps
      → ScalarValue p.value
      → AllScalar (ps ++ p ∷ [])
  AllScalar-append [] p s h = (h, tt)
  AllScalar-append (q ∷ ps) p s h = (s.0, AllScalar-append ps p s.1 h)

  touched_scalar :
      (a : Agent D B) (q : QueuedPatch A) (w : Option B) (p : StatePatch B) (v : Option B)
      → ScalarValue v
      → touched env a q w p v ≡ v
  touched_scalar a q w p none h = refl
  touched_scalar a q w p (some b) h = rw h refl

  -- An application in place leaves scalars as they are.
  pub map-touch :
      (a : Agent D B) (q : QueuedPatch A) (w : Option B) (ps : List (StatePatch B))
      → AllScalar ps
      → map (touch env a q w) ps ≡ ps
  map-touch a q w [] s = refl
  map-touch a q w (p ∷ ps) s = rw (map-touch a q w ps s.1, touched_scalar a q w p p.value s.0) refl

  abbrev picked : Op → Option Port → Option B → Result (Option B)
  picked op port shrunk = elim op [
    | remove ↦ ok none
    | _ ↦ elim port [
      | none ↦ raised agent_exception
      | some p ↦ elim shrunk [ none ↦ raised agent_exception | some v ↦ ok (some v) ]
    ]
  ]

  picked_scalar :
      (op : Op) (port : Option Port) (shrunk v : Option B)
      → ((b : B) → shrunk ≡ some b → env.is_scalar b ≡ true)
      → picked op port shrunk ≡ ok v
      → ScalarValue v
  picked_scalar remove port shrunk v s h =
      let same : none ≡ v = ground (arith, h) in subst ScalarValue same tt
  picked_scalar _ none shrunk v s h = absurd (ground (arith, h))
  picked_scalar _ (some p) none v s h = absurd (ground (arith, h))
  picked_scalar _ (some p) (some b) v s h =
      let same : some b ≡ v = ground (arith, h) in subst ScalarValue same (s b refl)

  pub patched_scalar :
      (q : QueuedPatch A) (c : D) (v : Option B) (d : D)
      → IsScalar q
      → patched_document env q c ≡ ok (v, d)
      → ScalarValue v
  unfolding patched_document
  patched_scalar q c v d s h = elim (Result-cases (shrink_patch_value env q.interface q.patch)) [
    | inl (e, f) ↦
        let stuck : patched_document env q c ≡ raised e = rw (f, patched_document) refl in
        absurd (ground (arith, sym stuck ∙ h))
    | inr (w, f) ↦ elim (Option-cases (env.apply_patch c q.patch.op q.patch.path w)) [
      | inl g ↦
          let stuck : patched_document env q c ≡ raised patch_conflict =
            rw (f, g, patched_document) refl in
          absurd (ground (arith, sym stuck ∙ h))
      | inr (b, g) ↦
          let run : patched_document env q c ≡ ok (w, b) = rw (f, g, patched_document) refl in
          let both : ok (w, b) ≡ ok (v, d) = sym run ∙ h in
          let value : w ≡ v = ground (arith, both) in
          subst ScalarValue value
            (picked_scalar q.patch.op q.patch.port (env.shrink_return q.interface q.patch) w s f)
    ]
  ]
