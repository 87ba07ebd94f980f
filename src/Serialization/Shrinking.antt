-- ===== src/Serialization/Shrinking.antt =====
-- rekuest_next/structures/serialization/actor.py, the way out of an actor: `ashrink_return` and
-- `shrink_outputs`. Every exception leaves `ashrink_return` as a ShrinkingError, which is `none`. The
-- path and the depth serve its message only.
use rekuest_next.Prelude.{
  ℕ, zero, suc, String, true, false, ◌||◌, Option, none, some, str_eq, if◌then◌else◌, contains,
}
use rekuest_next.Pointer.{pos}
use rekuest_next.Objects.{
  is_none, set_field, Object, null, truth, number, text, moment, items, mapping, member, Objects,
  empty, item, Fields, end, field,
}
use rekuest_next.Ports.{key_of, PortKind, Port, port, Ports, nil, cons, PortInfo}
use rekuest_next.Structures.{get_fullfilled_structure}
use rekuest_next.Serialization.{
  is_int, is_float, is_str, to_int, to_float, to_str, named, decide, Runtime,
}
use rekuest_next.Serialization.Quantities.{shrink_quantity}
use rekuest_next.Serialization.Predication.{predicate_port_input}
use rekuest_next.Serialization.Shelving.{
  Shelving, pass, raise, lift, ◌>>=◌, gather, gather_fields, aput_on_shelve,
}

-- {"__use": index, "__value": value}
abbrev pub tagged : ℕ → Object → Object
tagged index v = mapping (field "__use" (number (pos index)) (field "__value" v end))

-- {"__identifier": identifier, "object": object}
abbrev pub reference : String → Object → Object
reference identifier v = mapping (field "__identifier" (text identifier) (field "object" v end))

-- {port.key: val for port, val in zip(ports, values)}, onto what is there
unfoldable pub zip_ports : Ports → Objects → Fields → Fields
zip_ports (cons p ps) (item v vs) fs = zip_ports ps vs (set_field fs (key_of p) v)
zip_ports ps vs fs = fs

-- The test of `None` that every call begins with.
abbrev pub unless_none {ℓ} : {A : Type ℓ} → PortInfo → Object → (passed failed other : A) → A
unless_none info v passed failed other =
    if is_none v then if info.nullable then passed else failed else other

module _ (rt : Runtime) where
  unfoldable pub shrink_int : Object → Option Object
  shrink_int v = if is_int rt v then to_int rt v else none

  unfoldable pub shrink_float : Object → Option Object
  shrink_float v = if is_float rt v || is_int rt v then to_float rt v else none

  unfoldable pub shrink_date : Object → Option Object
  shrink_date (moment d) = some (text (rt.isoformat d))
  shrink_date _ = none

  -- value == 1, value == 0
  abbrev pub bit : Object → Option Object
  bit (number (pos (suc zero))) = some (truth true)
  bit (number (pos zero)) = some (truth false)
  bit _ = none

  abbrev pub bool_name : String → Option Object
  bool_name s =
      if str_eq s "true"
      then some (truth true)
      else if str_eq s "false"
      then some (truth false)
      else none

  unfoldable pub shrink_bool : Object → Option Object
  shrink_bool v =
      if is_str rt v
      then bool_name (rt.lower (to_str rt v))
      else if is_int rt v
      then elim (to_int rt v) [ none ↦ none | some n ↦ bit n ]
      else none

  unfoldable pub shrink_string : Object → Option Object
  shrink_string v = if is_str rt v then some (text (to_str rt v)) else none

  unfoldable pub shrink_enum : PortInfo → Object → Option Object
  shrink_enum info (member c name) = some (text name)
  shrink_enum info v =
      if contains info.choices (to_str rt v) then some (text (to_str rt v)) else none

  abbrev pub shrink_structure_with : PortInfo → Object → String → Option Object
  shrink_structure_with info v i = elim (get_fullfilled_structure rt.registry i) [
    | none ↦ none
    | some fstruc ↦ elim (fstruc.ashrink v) [
      | none ↦ none
      | some shrink ↦ some (reference i shrink)
    ]
  ]

  unfoldable pub shrink_structure : PortInfo → Object → Option Object
  shrink_structure info v = elim (named info) [
    | none ↦ none
    | some i ↦ shrink_structure_with info v i
  ]

  unfoldable pub shrink_memory_structure : PortInfo → Object → Shelving Object
  shrink_memory_structure info v = do
    i ← lift (named info)
    drawer ← aput_on_shelve rt i v
    pass (reference i (text drawer))

  -- The kinds without children.
  unfoldable pub shrink_plain : PortKind → PortInfo → Object → Shelving Object
  shrink_plain PortKind.int info v = lift (shrink_int v)
  shrink_plain PortKind.float info v = lift (shrink_float v)
  shrink_plain PortKind.date info v = lift (shrink_date v)
  shrink_plain PortKind.memory_structure info v = shrink_memory_structure info v
  shrink_plain PortKind.structure info v = lift (shrink_structure info v)
  shrink_plain PortKind.bool info v = lift (shrink_bool v)
  shrink_plain PortKind.string info v = lift (shrink_string v)
  shrink_plain PortKind.quantity info v = pass (text (shrink_quantity rt v))
  shrink_plain PortKind.enum info v = lift (shrink_enum info v)
  shrink_plain _ info v = raise

  -- dict and list ports with their one child
  unfoldable pub shrink_dict : (Object → Shelving Object) → Object → Shelving Object
  shrink_dict shrink (mapping fs) = do gs ← gather_fields shrink fs; pass (mapping gs)
  shrink_dict shrink _ = raise

  unfoldable pub shrink_list : (Object → Shelving Object) → Object → Shelving Object
  shrink_list shrink (items xs) = do ys ← gather shrink xs; pass (items ys)
  shrink_list shrink _ = raise

  -- `shrinked_params` of a model, its identifier written last
  unfoldable pub shrink_model : PortInfo → Ports → Shelving Objects → Shelving Object
  shrink_model info ps shrink_children = do
    i ← lift (named info)
    vs ← shrink_children
    pass (mapping (set_field (zip_ports ps vs end) "__identifier" (text i)))

  unfoldable mutual
    pub ashrink_return : Port → Object → Shelving Object
    ashrink_return (port key PortKind.union info ps) v =
        unless_none info v (pass null) raise (shrink_union ps 0 v)
    ashrink_return (port key PortKind.dict info (cons c nil)) v =
        unless_none info v (pass null) raise (shrink_dict (ashrink_return c) v)
    ashrink_return (port key PortKind.list info (cons c nil)) v =
        unless_none info v (pass null) raise (shrink_list (ashrink_return c) v)
    ashrink_return (port key PortKind.model info (cons c cs)) v =
        unless_none info v (pass null) raise
          (shrink_model info (cons c cs) (shrink_attributes (cons c cs) v))
    ashrink_return (port key kind info ps) v =
        unless_none info v (pass null) raise (shrink_plain kind info v)

    -- The first child whose predicate holds; an exception of a predicate ends the search.
    pub shrink_union : Ports → ℕ → Object → Shelving Object
    shrink_union nil index v = raise
    shrink_union (cons p ps) index v =
        decide (predicate_port_input rt p v) raise
          (ashrink_return p v >>= λ j. pass (tagged index j)) (shrink_union ps (suc index) v)

    pub shrink_attributes : Ports → Object → Shelving Objects
    shrink_attributes nil v = pass empty
    shrink_attributes (cons p ps) v = do
      a ← lift (rt.getattr v (key_of p))
      j ← ashrink_return p a
      js ← shrink_attributes ps v
      pass (item j js)
