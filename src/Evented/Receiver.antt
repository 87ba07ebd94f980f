-- ===== src/Evented/Receiver.antt =====
-- A receiver of patches: a copy of a document, and a JSON Patch library that applies one operation.
use rekuest_next.Prelude.{◌≡◌, refl, ap, ◌∙◌, Option, none, some, List, [], ◌∷◌, ◌++◌}
use rekuest_next.Pointer.{Text}
use rekuest_next.Evented.{Op, Patch}

abbrev pub on_some {ℓ κ} : {A : Type ℓ} {B : Type κ} → (A → B) → Option A → Option B
on_some f none = none
on_some f (some a) = some (f a)

-- Documents `D` with values `B`; what the library refuses is `none`.
abbrev pub Apply {ℓ κ} : Type ℓ → Type κ → Type (ℓ ⊔ κ)
Apply D B = D → Op → Text → Option B → Option D

-- `plain` is the form in which a value goes over the wire.
module _ {ℓ κ μ} {A : Type ℓ} {B : Type κ} {D : Type μ} (plain : A → B) (apply : Apply D B) where
  abbrev pub receive_one : Option D → Patch A → Option D
  receive_one none q = none
  receive_one (some d) q = apply d q.op q.path (on_some plain q.value)

  -- The receiver's copy after the patches; `none` if one of them could not be applied.
  unfoldable pub receive : List (Patch A) → Option D → Option D
  receive [] copy = copy
  receive (q ∷ qs) copy = receive qs (receive_one copy q)

  pub receive-append :
      (qs : List (Patch A)) (q : Patch A) (copy : Option D)
      → receive (qs ++ q ∷ []) copy ≡ receive_one (receive qs copy) q
  unfolding receive
  receive-append [] q copy = refl
  receive-append (r ∷ qs) q copy = receive-append qs q (receive_one copy r)

  -- One more patch, which the library applies.
  pub receive_next :
      (qs : List (Patch A)) (q : Patch A) (copy : Option D) (d e : D)
      → receive qs copy ≡ some d
      → apply d q.op q.path (on_some plain q.value) ≡ some e
      → receive (qs ++ q ∷ []) copy ≡ some e
  receive_next qs q copy d e r a =
      receive-append qs q copy ∙ ap (λ (c : Option D). receive_one c q) r ∙ a
