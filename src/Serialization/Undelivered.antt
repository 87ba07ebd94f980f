-- ===== src/Serialization/Undelivered.antt =====
-- Values that the serializers of rekuest_next/structures/serialization cannot pass.
use rekuest_next.Prelude.Dict.{put}
use rekuest_next.Prelude.{
  ℕ, suc, String, ◌≡◌, refl, sym, ◌∙◌, inl, inr, Bool, true, false, none, some, arith, Bool-cases,
  Option-cases,
}
use rekuest_next.Objects.{
  is_none, Object, text, items, mapping, member, opaque, Objects, Fields, end, field,
}
use rekuest_next.Ports.{kind_of, PortKind, Port, port, Ports, nil, cons, PortInfo}
use rekuest_next.Serialization.{is_str, named, Runtime}
use rekuest_next.Serialization.Predication.{
  predicate_serializable_list, predicate_serializable_port,
}
use rekuest_next.Serialization.ActorCalls.{
  actor_arg_plain, ashrink_actor_arg, actor_return_plain, aexpand_actor_return,
}
use rekuest_next.Serialization.Shelving.{Shelve, aput_on_shelve}
use rekuest_next.Serialization.Shrinking.{
  reference, shrink_memory_structure, shrink_plain, ashrink_return,
}
use rekuest_next.Serialization.Expanding.{
  or_default, referenced, expand_memory_structure, expand_plain, aexpand_arg,
}
use rekuest_next.Serialization.Postman.{ashrink_arg, arg_union, return_plain, aexpand_return}

-- The kinds of which `aexpand_return` has no branch.
abbrev pub unreturned : PortKind → Bool
unreturned PortKind.enum = true
unreturned PortKind.model = true
unreturned _ = false

-- Is every one a list port?
unfoldable pub all_lists : Ports → Bool
all_lists nil = true
all_lists (cons (port key PortKind.list info cs) ps) = all_lists ps
all_lists (cons (port key _ info cs) ps) = false

module _ (rt : Runtime) where
  -- Through a port of the kind enum or model a caller gets nothing but None: `aexpand_return` raises
  -- for every other value.
  pub aexpand_return-unreturned :
      (p : Port) (j : Object)
      → unreturned (kind_of p) ≡ true
      → is_none j ≡ false
      → aexpand_return rt p j ≡ none
  unfolding aexpand_return return_plain
  aexpand_return-unreturned (port key PortKind.enum info ps) j h n = rw n refl
  aexpand_return-unreturned (port key PortKind.model info ps) j h n = rw n refl
  aexpand_return-unreturned (port key _ info ps) j h n = ground (arith, h)

  -- `predicate_serializable_port` of a list port refuses every list.
  list_refused :
      (key : String) (info : PortInfo) (ps : Ports) (xs : Objects)
      → predicate_serializable_port rt (port key PortKind.list info ps) (items xs) ≡ some false
  unfolding predicate_serializable_port predicate_serializable_list
  list_refused key info nil xs = refl
  list_refused key info (cons c nil) xs = refl
  list_refused key info (cons c (cons d ps)) xs = refl

  union_ends :
      (ps : Ports) (n : ℕ) (xs : Objects)
      → all_lists ps ≡ true
      → arg_union rt ps n (items xs) ≡ none
  unfolding arg_union all_lists
  union_ends nil n xs h = refl
  union_ends (cons (port key PortKind.list info cs) ps) n xs h =
      rw (list_refused key info cs xs) (union_ends ps (suc n) xs h)
  union_ends (cons (port key _ info cs) ps) n xs h = ground (arith, h)

  -- No caller passes a list to a union of list ports: `ashrink_arg` raises, whatever the elements.
  pub ashrink_arg-union_of_lists :
      (key : String) (info : PortInfo) (ps : Ports) (xs : Objects)
      → all_lists ps ≡ true
      → ashrink_arg rt (port key PortKind.union info ps) (items xs) ≡ none
  unfolding ashrink_arg
  ashrink_arg-union_of_lists key info ps xs h = union_ends ps 0 xs h

  text_refused :
      (key : String) (info : PortInfo) (ps : Ports) (s : Shelve) (v : Object)
      → is_none v ≡ false
      → is_str rt v ≡ true
      → aexpand_arg rt s (port key PortKind.memory_structure info ps) (some v) ≡ none
  unfolding aexpand_arg or_default expand_plain expand_memory_structure referenced
  text_refused key info ps s (text x) n e = refl
  text_refused key info ps s (member c x) n e = rw e refl
  text_refused key info ps s (opaque c x) n e = rw e refl
  text_refused key info ps s _ n e = ground (arith, n, e)

  reference_refused :
      (info : PortInfo) (v : Object) (s t : Shelve) (j : Object)
      → shrink_memory_structure rt info v s ≡ some (j, t)
      → (fs : Fields) × (j ≡ mapping fs)
  unfolding shrink_memory_structure aput_on_shelve
  reference_refused info v s t j h = elim (Option-cases (named info)) [
    | inl e ↦
        let step : shrink_memory_structure rt info v s ≡ none = rw e refl in
        absurd (ground (arith, sym step ∙ h))
    | inr (i, e) ↦ elim (Option-cases (rt.new_drawer s i v)) [
      | inl f ↦
          let step : shrink_memory_structure rt info v s ≡ none = rw (e, aput_on_shelve, f) refl in
          absurd (ground (arith, sym step ∙ h))
      | inr (d, f) ↦
          let step : shrink_memory_structure rt info v s ≡ some (reference i (text d), put s d v) =
            rw (e, aput_on_shelve, f) refl in
          (
            field "__identifier" (text i) (field "object" (text d) end),
            ground (arith, sym step ∙ h),
          )
    ]
  ]

  -- A memory structure that an actor passes to a call of its own does not arrive: what
  -- `ashrink_actor_arg` makes of a value other than None, `aexpand_arg` refuses through the same port.
  pub aexpand_arg-ashrink_actor_arg :
      (key : String) (info : PortInfo) (ps : Ports) (v j : Object) (s : Shelve)
      → is_none v ≡ false
      → ashrink_actor_arg rt (port key PortKind.memory_structure info ps) v ≡ some j
      → aexpand_arg rt s (port key PortKind.memory_structure info ps) (some j) ≡ none
  unfolding ashrink_actor_arg actor_arg_plain
  aexpand_arg-ashrink_actor_arg key info ps v j s n h = elim (Bool-cases (is_str rt v)) [
    | inl e ↦
        let step : ashrink_actor_arg rt (port key PortKind.memory_structure info ps) v ≡ some v =
          rw (n, e) refl in
        let same : v ≡ j = ground (arith, sym step ∙ h) in
        rw same at (text_refused key info ps s v n e)
    | inr e ↦
        let step : ashrink_actor_arg rt (port key PortKind.memory_structure info ps) v ≡ none =
          rw (n, e) refl in
        absurd (ground (arith, sym step ∙ h))
  ]

  -- A memory structure that an actor returns does not arrive at an actor that made the call: what
  -- `ashrink_return` makes of a value other than None, `aexpand_actor_return` refuses through the same
  -- port.
  pub aexpand_actor_return-ashrink_return :
      (key : String) (info : PortInfo) (ps : Ports) (v j : Object) (s t : Shelve)
      → is_none v ≡ false
      → ashrink_return rt (port key PortKind.memory_structure info ps) v s ≡ some (j, t)
      → aexpand_actor_return rt (port key PortKind.memory_structure info ps) j ≡ none
  unfolding ashrink_return aexpand_actor_return shrink_plain actor_return_plain
  aexpand_actor_return-ashrink_return key info ps v j s t n h =
      let step : ashrink_return rt (port key PortKind.memory_structure info ps) v s
          ≡ shrink_memory_structure rt info v s =
        rw n refl in
      let (fs, m) = reference_refused info v s t j (sym step ∙ h) in rw m refl
