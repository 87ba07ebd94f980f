-- ===== src/Serialization/Typed.antt =====
-- The Python types of what an actor's function is called with (`aexpand_arg` of
-- rekuest_next/structures/serialization/actor.py).
use rekuest_next.Prelude.{
  ℕ, zero, suc, String, ◌≡◌, refl, ◌⊎◌, inl, inr, Bool, true, ◌||◌, Option, some, arith,
  Option-cases,
}
use mathlib.Core.Path.{subst}
use rekuest_next.Objects.{gather_pure, gather_fields_pure, Object, items, mapping}
use rekuest_next.Ports.{PortKind, Port, port, Ports, nil, cons, PortInfo}
use rekuest_next.Serialization.{Runtime}
use rekuest_next.Serialization.Shelving.{Shelve}
use rekuest_next.Serialization.Expanding.{
  or_default, checked, expand_dict, expand_list, union_choice, expand_plain, aexpand_arg,
  expand_child,
}
use rekuest_next.Serialization.Types.{
  absent, of_plain, of_list, of_dict, of_type, of_some, checked_inverse, gather_pure-every,
  gather_fields_pure-every, expand_plain-of_plain,
}

module _ (rt : Runtime) (s : Shelve) where
  absent_or :
      (b : Bool) (info : PortInfo) (v : Object)
      → (absent info v ≡ true) ⊎ (b ≡ true)
      → (absent info v || b) ≡ true
  absent_or b info v (inl e) = rw e refl
  absent_or b info v (inr e) = ground (arith, e)

  expand_list-of_list :
      (f : Object → Option Object) (test : Object → Bool) (w v : Object)
      → ((x y : Object) → f x ≡ some y → test y ≡ true)
      → expand_list rt f w ≡ some v
      → of_list test v ≡ true
  unfolding expand_list
  expand_list-of_list f test (items xs) v g h = elim (Option-cases (gather_pure f xs)) [
    | inl e ↦ absurd (ground (arith, e, h))
    | inr (ys, e) ↦
        let same : items ys ≡ v = ground (arith, e, h) in
        subst (λ x. of_list test x ≡ true) same (gather_pure-every rt s f test xs ys g e)
  ]
  expand_list-of_list f test _ v g h = absurd (ground (arith, h))

  expand_dict-of_dict :
      (f : Object → Option Object) (test : Object → Bool) (w v : Object)
      → ((x y : Object) → f x ≡ some y → test y ≡ true)
      → expand_dict rt f w ≡ some v
      → of_dict test v ≡ true
  unfolding expand_dict
  expand_dict-of_dict f test (mapping xs) v g h = elim (Option-cases (gather_fields_pure f xs)) [
    | inl e ↦ absurd (ground (arith, e, h))
    | inr (ys, e) ↦
        let same : mapping ys ≡ v = ground (arith, e, h) in
        subst (λ x. of_dict test x ≡ true) same (gather_fields_pure-every rt s f test xs ys g e)
  ]
  expand_dict-of_dict f test _ v g h = absurd (ground (arith, h))

  plain-of_type :
      (key : String) (kind : PortKind) (info : PortInfo) (ps : Ports) (w v : Object)
      → checked rt info w (expand_plain rt s kind info w) ≡ some v
      → (absent info v || of_plain kind v) ≡ true
  plain-of_type key kind info ps w v h =
      absent_or (of_plain kind v) info v (elim (checked_inverse rt s info w _ v h) [
        | inl e ↦ inl e
        | inr e ↦ inr (expand_plain-of_plain rt s kind info w v e)
      ])

  mutual
    unfolding aexpand_arg of_type

    typed :
        (p : Port) (given : Option Object) (v : Object)
        → aexpand_arg rt s p given ≡ some v
        → of_type p v ≡ true
    typed (port key PortKind.dict info nil) given v h =
        plain-of_type key PortKind.dict info nil (or_default info given) v h
    typed (port key PortKind.dict info (cons c cs)) given v h =
        absent_or (of_dict (of_type c) v) info v
          (elim (checked_inverse rt s info (or_default info given) _ v h) [
            | inl e ↦ inl e
            | inr e ↦ inr (expand_dict-of_dict _ (of_type c) _ v (λ x y g. typed c (some x) y g) e)
          ])
    typed (port key PortKind.list info nil) given v h =
        plain-of_type key PortKind.list info nil (or_default info given) v h
    typed (port key PortKind.list info (cons c cs)) given v h =
        absent_or (of_list (of_type c) v) info v
          (elim (checked_inverse rt s info (or_default info given) _ v h) [
            | inl e ↦ inl e
            | inr e ↦ inr (expand_list-of_list _ (of_type c) _ v (λ x y g. typed c (some x) y g) e)
          ])
    typed (port key PortKind.union info ps) given v h =
        absent_or (of_some ps v) info v
          (elim (checked_inverse rt s info (or_default info given) _ v h) [
            | inl e ↦ inl e
            | inr e ↦ elim (Option-cases (union_choice rt (or_default info given))) [
              | inl u ↦ absurd (ground (arith, u, e))
              | inr (choice, u) ↦ inr (typed_child ps choice.0 choice.1 v (rw u at e))
            ]
          ])
    typed (port key PortKind.model info nil) given v h =
        plain-of_type key PortKind.model info nil (or_default info given) v h
    typed (port key PortKind.model info (cons c cs)) given v h = ground arith
    typed (port key kind info ps) given v h =
        plain-of_type key kind info ps (or_default info given) v h

    typed_child :
        (ps : Ports) (i : ℕ) (w v : Object)
        → expand_child rt s ps i w ≡ some v
        → of_some ps v ≡ true
    typed_child nil i w v h = absurd (ground (arith, h))
    typed_child (cons p ps) zero w v h = ground (arith, typed p (some w) v h)
    typed_child (cons p ps) (suc i) w v h = ground (arith, typed_child ps i w v h)

  -- Whatever a caller sends, or leaves out, for a port of ints, floats, texts, bools and dates, in lists, dicts
  -- and unions at any depth: where `aexpand_arg` returns, the value and what it holds have the Python types of
  -- their ports; None comes through nullable ports only, and the value of a union is of the type of a child.
  -- Nothing is stated of the values of structure, model, enum, quantity and memory structure ports.
  pub aexpand_arg-of_type :
      (p : Port) (given : Option Object) (v : Object)
      → aexpand_arg rt s p given ≡ some v
      → of_type p v ≡ true
  aexpand_arg-of_type p given v h = typed p given v h
