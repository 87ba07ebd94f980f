-- ===== src/Serialization/SameReturns.antt =====
-- What `aexpand_actor_returns` of rekuest_next/structures/serialization/actor.py makes of the returns of
-- a call, beside `aexpand_returns` of rekuest_next/structures/serialization/postman.py, which asks more of
-- the reference of a structure.
use rekuest_next.Prelude.{
  ℕ, zero, suc, String, ◌≡◌, inl, inr, true, Option, none, some, arith, Bool-cases, Option-cases,
}
use rekuest_next.Objects.{
  Object, mapping, text, items, is_none, null, Objects, empty, item, gather_pure, ◌>>=◌, Fields,
  end, field, gather_fields_pure, get_field,
}
use rekuest_next.Serialization.{Runtime, named}
use rekuest_next.Serialization.Expanding.{union_choice, same_identifier}
use rekuest_next.Serialization.Shrinking.{unless_none}
use rekuest_next.Serialization.Calls.{return_of, aexpand_returns}
use rekuest_next.Ports.{key_of, PortKind, Port, port, Ports, nil, cons, PortInfo}
use rekuest_next.Serialization.Postman.{
  is_text_of, arg_list, arg_dict, aexpand_return, return_child, return_plain, return_structure,
  returned_object,
}
use rekuest_next.Serialization.ActorCalls.{
  actor_return_of, aexpand_actor_returns, aexpand_actor_return, actor_return_child,
  actor_return_plain, actor_return_object, actor_return_structure,
}
use rekuest_next.Serialization.SameCalls.{drawerless, drawerless_all}

gather_le :
    (f g : Object → Option Object)
    → ((x y : Object) → f x ≡ some y → g x ≡ some y)
    → (xs ys : Objects) → gather_pure f xs ≡ some ys
    → gather_pure g xs ≡ some ys
unfolding gather_pure
gather_le f g le empty ys h = h
gather_le f g le (item x xs) ys h = elim (Option-cases (f x)) [
  | inl e ↦ absurd (ground (arith, h, e))
  | inr (y, e) ↦ elim (Option-cases (gather_pure f xs)) [
    | inl es ↦ absurd (ground (arith, h, e, es))
    | inr (zs, es) ↦ ground (arith, h, e, es, le x y e, gather_le f g le xs zs es)
  ]
]

gather_fields_le :
    (f g : Object → Option Object)
    → ((x y : Object) → f x ≡ some y → g x ≡ some y)
    → (xs ys : Fields) → gather_fields_pure f xs ≡ some ys
    → gather_fields_pure g xs ≡ some ys
unfolding gather_fields_pure
gather_fields_le f g le end ys h = h
gather_fields_le f g le (field k x xs) ys h = elim (Option-cases (f x)) [
  | inl e ↦ absurd (ground (arith, h, e))
  | inr (y, e) ↦ elim (Option-cases (gather_fields_pure f xs)) [
    | inl es ↦ absurd (ground (arith, h, e, es))
    | inr (zs, es) ↦ ground (arith, h, e, es, le x y e, gather_fields_le f g le xs zs es)
  ]
]

module _ (rt : Runtime) where
  identifier_of : (info : PortInfo) (i : String) → named info ≡ some i → info.identifier ≡ some i
  unfolding named
  identifier_of info i n = elim (Option-cases info.identifier) [
    | inl e ↦ absurd (ground (arith, n, e))
    | inr (k, e) ↦ ground (arith, n, e)
  ]

  same_name :
      (info : PortInfo) (i : String) (o : Object)
      → info.identifier ≡ some i
      → is_text_of rt i o ≡ true
      → same_identifier rt info o ≡ true
  same_name info i (text s) n h = rw n h
  same_name info i _ n h = absurd (ground (arith, h))

  object_le :
      (info : PortInfo) (i : String) (j v : Object)
      → info.identifier ≡ some i
      → returned_object rt i j ≡ some v
      → actor_return_object rt info j ≡ some v
  unfolding returned_object actor_return_object
  object_le info i (mapping fs) v n h = elim (Option-cases (get_field fs "__identifier")) [
    | inl e ↦ absurd (ground (arith, h, e))
    | inr (o, e) ↦ elim (Bool-cases (is_text_of rt i o)) [
      | inl b ↦ ground (arith, h, e, b, same_name info i o n b)
      | inr b ↦ absurd (ground (arith, h, e, b))
    ]
  ]
  object_le info i _ v n h = absurd (ground (arith, h))

  structure_le :
      (info : PortInfo) (j v : Object)
      → return_structure rt info j ≡ some v
      → actor_return_structure rt info j ≡ some v
  unfolding return_structure actor_return_structure
  structure_le info j v h = elim (Option-cases (named info)) [
    | inl e ↦ absurd (ground (arith, h, e))
    | inr (i, e) ↦ elim (Option-cases (returned_object rt i j)) [
      | inl r ↦ absurd (ground (arith, h, e, r))
      | inr (o, r) ↦
          let known : info.identifier ≡ some i = identifier_of info i e in
          rw (object_le info i j o known r, known) (rw (e, r) at h)
    ]
  ]

  list_le :
      (f g : Object → Option Object)
      → ((x y : Object) → f x ≡ some y → g x ≡ some y)
      → (j v : Object) → arg_list rt f j ≡ some v
      → arg_list rt g j ≡ some v
  unfolding arg_list
  list_le f g le (items xs) v h = elim (Option-cases (gather_pure f xs)) [
    | inl e ↦ absurd (ground (arith, h, e))
    | inr (ys, e) ↦ ground (arith, h, e, gather_le f g le xs ys e)
  ]
  list_le f g le _ v h = absurd (ground (arith, h))

  dict_le :
      (f g : Object → Option Object)
      → ((x y : Object) → f x ≡ some y → g x ≡ some y)
      → (j v : Object) → arg_dict rt f j ≡ some v
      → arg_dict rt g j ≡ some v
  unfolding arg_dict
  dict_le f g le (mapping fs) v h = elim (Option-cases (gather_fields_pure f fs)) [
    | inl e ↦ absurd (ground (arith, h, e))
    | inr (ys, e) ↦ ground (arith, h, e, gather_fields_le f g le fs ys e)
  ]
  dict_le f g le _ v h = absurd (ground (arith, h))

  passed_le :
      (info : PortInfo) (j v : Object) (a b : Option Object)
      → (a ≡ some v → b ≡ some v)
      → unless_none info j (some null) none a ≡ some v
      → unless_none info j (some null) none b ≡ some v
  passed_le info j v a b le h = elim (Bool-cases (is_none j)) [
    | inl n ↦ rw n (rw n at h)
    | inr n ↦ rw n (le (rw n at h))
  ]

  chosen_le :
      (ps : Ports)
      → ((i : ℕ) (w v : Object)
          → return_child rt ps i w ≡ some v
          → actor_return_child rt ps i w ≡ some v)
      → (j v : Object) → (union_choice rt j >>= λ (i, w). return_child rt ps i w) ≡ some v
      → (union_choice rt j >>= λ (i, w). actor_return_child rt ps i w) ≡ some v
  chosen_le ps le j v h = elim (Option-cases (union_choice rt j)) [
    | inl e ↦ absurd (ground (arith, h, e))
    | inr ((i, w), e) ↦ rw e (le i w v (rw e at h))
  ]

  mutual
    unfolding aexpand_return aexpand_actor_return return_plain actor_return_plain drawerless

    return_le :
        (p : Port)
        → drawerless p ≡ true
        → (j v : Object) → aexpand_return rt p j ≡ some v
        → aexpand_actor_return rt p j ≡ some v
    return_le (port key PortKind.dict info (cons c nil)) d j v h =
        passed_le info j v _ _
          (dict_le (aexpand_return rt c) (aexpand_actor_return rt c)
            (return_le c (ground (arith, d))) j v)
          h
    return_le (port key PortKind.list info (cons c nil)) d j v h =
        passed_le info j v _ _
          (list_le (aexpand_return rt c) (aexpand_actor_return rt c)
            (return_le c (ground (arith, d))) j v)
          h
    return_le (port key PortKind.union info ps) d j v h =
        passed_le info j v _ _ (chosen_le ps (child_le ps (ground (arith, d))) j v) h
    return_le (port key PortKind.structure info ps) d j v h =
        passed_le info j v _ _ (structure_le info j v) h
    return_le (port key PortKind.memory_structure info ps) d j v h = absurd (ground (arith, d))
    return_le (port key _ info ps) d j v h = h

    child_le :
        (ps : Ports)
        → drawerless_all ps ≡ true
        → (i : ℕ) (w v : Object) → return_child rt ps i w ≡ some v
        → actor_return_child rt ps i w ≡ some v
    child_le nil d i w v h = h
    child_le (cons p ps) d zero w v h = return_le p (ground (arith, d)) w v h
    child_le (cons p ps) d (suc i) w v h = child_le ps (ground (arith, d)) i w v h

  return_of_le :
      (p : Port) (d : Fields) (r : Object × Fields)
      → drawerless p ≡ true
      → return_of rt p d ≡ some r
      → actor_return_of rt p d ≡ some r
  unfolding return_of actor_return_of
  return_of_le p d r n h = elim (Option-cases (get_field d (key_of p))) [
    | inl e ↦ rw (actor_return_of, e) (rw (return_of, e) at h)
    | inr (j, e) ↦ elim (Option-cases (aexpand_return rt p j)) [
      | inl f ↦ absurd (ground (arith, h, e, f))
      | inr (v, f) ↦ ground (arith, h, e, f, return_le p n j v f)
    ]
  ]

  -- Over ports without memory structure ports, whatever `aexpand_returns` makes of the returns of a call,
  -- `aexpand_actor_returns` makes the same of them: the values and the dict that is left.
  pub aexpand_actor_returns-aexpand_returns :
      (ps : Ports) (returns : Fields) (r : Objects × Fields)
      → drawerless_all ps ≡ true
      → aexpand_returns rt ps returns ≡ some r
      → aexpand_actor_returns rt ps returns ≡ some r
  unfolding aexpand_returns aexpand_actor_returns drawerless
  aexpand_actor_returns-aexpand_returns nil returns r d h = h
  aexpand_actor_returns-aexpand_returns (cons p ps) returns r d h =
      elim (Option-cases (return_of rt p returns)) [
        | inl e ↦ absurd (ground (arith, h, e))
        | inr ((v, after), e) ↦ elim (Option-cases (aexpand_returns rt ps after)) [
          | inl f ↦ absurd (ground (arith, h, e, f))
          | inr ((vs, last), f) ↦
              rw
                (
                  return_of_le p returns (v, after) (ground (arith, d)) e,
                  aexpand_actor_returns-aexpand_returns ps after (vs, last) (ground (arith, d)) f,
                )
                (rw (e, f) at h)
        ]
      ]
