-- ===== src/Serialization/Postman.antt =====
-- rekuest_next/structures/serialization/postman.py: a caller's arguments and what comes back to it.
-- Every exception of `ashrink_arg` is a PortShrinkingError and every one of `aexpand_return` ends
-- `aexpand_returns` as an ExpandingError: both are `none`.
use rekuest_next.Prelude.{
  ℕ, zero, suc, String, Bool, false, ◌&&◌, ◌||◌, Option, none, some, List, str_eq, if◌then◌else◌,
  contains,
}
use rekuest_next.Objects.{
  get_field, set_field, ◌>>=◌, gather_pure, gather_fields_pure, Object, null, truth, text, moment,
  items, mapping, member, Objects, empty, item, end, field,
}
use rekuest_next.Ports.{key_of, PortKind, Port, port, Ports, nil, cons, PortInfo}
use rekuest_next.Structures.{get_fullfilled_structure}
use rekuest_next.Serialization.{
  is_int, is_float, is_str, to_int, to_float, to_str, to_bool, named, decide, Runtime,
}
use rekuest_next.Serialization.Quantities.{shrink_quantity, expand_quantity}
use rekuest_next.Serialization.Predication.{predicate_serializable_port}
use rekuest_next.Serialization.Shrinking.{tagged, reference, zip_ports, unless_none}
use rekuest_next.Serialization.Expanding.{union_choice}

module _ (rt : Runtime) where
  -- value.isoformat()
  unfoldable pub arg_date : Object → Option Object
  arg_date (moment d) = some (text (rt.isoformat d))
  arg_date v = rt.isoformat_of v

  abbrev pub among : List String → String → Option Object
  among choices s = if contains choices s then some (text s) else none

  -- A member by its name, or a text; it must be the value of a choice.
  abbrev pub enum_text : Object → Option String
  enum_text (member c name) = some name
  enum_text v = if is_str rt v then some (to_str rt v) else none

  unfoldable pub arg_enum : PortInfo → Object → Option Object
  arg_enum info v = do identifier ← info.identifier; s ← enum_text v; among info.choices s

  abbrev pub identifier_object : PortInfo → Object
  identifier_object info = elim info.identifier [ none ↦ null | some i ↦ text i ]

  unfoldable pub arg_memory_structure : PortInfo → Object → Option Object
  arg_memory_structure info v =
      if is_str rt v
      then some (mapping (field "__identifier" (identifier_object info) (field "object" v end)))
      else none

  abbrev pub shrink_with : Object → String → Option Object
  shrink_with v i = do
    fstruc ← get_fullfilled_structure rt.registry i
    shrink ← fstruc.ashrink v
    some (reference i (text (to_str rt shrink)))

  -- A text is taken for a reference and passed as it is.
  unfoldable pub arg_structure : PortInfo → Object → Option Object
  arg_structure info v = do i ← named info; if is_str rt v then some v else shrink_with v i

  unfoldable pub arg_plain : PortKind → PortInfo → Object → Option Object
  arg_plain PortKind.float info v = to_float rt v
  arg_plain PortKind.int info v = to_int rt v
  arg_plain PortKind.date info v = arg_date v
  arg_plain PortKind.enum info v = arg_enum info v
  arg_plain PortKind.memory_structure info v = arg_memory_structure info v
  arg_plain PortKind.structure info v = arg_structure info v
  arg_plain PortKind.bool info v = some (truth (to_bool rt v))
  arg_plain PortKind.string info v = some (text (to_str rt v))
  arg_plain PortKind.quantity info v = some (text (shrink_quantity rt v))
  arg_plain _ info v = none

  unfoldable pub arg_dict : (Object → Option Object) → Object → Option Object
  arg_dict shrink (mapping fs) = do gs ← gather_fields_pure shrink fs; some (mapping gs)
  arg_dict shrink _ = none

  unfoldable pub arg_list : (Object → Option Object) → Object → Option Object
  arg_list shrink (items xs) = do ys ← gather_pure shrink xs; some (items ys)
  arg_list shrink _ = none

  unfoldable pub arg_model : PortInfo → Ports → Option Objects → Option Object
  arg_model info ps shrinked_args = do
    i ← named info
    vs ← shrinked_args
    some (mapping (set_field (zip_ports ps vs end) "__identifier" (text i)))

  unfoldable mutual
    pub ashrink_arg : Port → Object → Option Object
    ashrink_arg (port key PortKind.dict info (cons c nil)) v =
        unless_none info v (some null) none (arg_dict (ashrink_arg c) v)
    ashrink_arg (port key PortKind.list info (cons c nil)) v =
        unless_none info v (some null) none (arg_list (ashrink_arg c) v)
    ashrink_arg (port key PortKind.union info ps) v =
        unless_none info v (some null) none (arg_union ps 0 v)
    ashrink_arg (port key PortKind.model info (cons c cs)) v =
        unless_none info v (some null) none
          (arg_model info (cons c cs) (arg_attributes (cons c cs) v))
    ashrink_arg (port key kind info ps) v =
        unless_none info v (some null) none (arg_plain kind info v)

    -- The first child whose predicate holds.
    pub arg_union : Ports → ℕ → Object → Option Object
    arg_union nil index v = none
    arg_union (cons p ps) index v =
        decide (predicate_serializable_port rt p v) none
          (ashrink_arg p v >>= λ j. some (tagged index j)) (arg_union ps (suc index) v)

    pub arg_attributes : Ports → Object → Option Objects
    arg_attributes nil v = some empty
    arg_attributes (cons p ps) v = do
      a ← rt.getattr v (key_of p)
      j ← ashrink_arg p a
      js ← arg_attributes ps v
      some (item j js)

  -- The way back.
  unfoldable pub return_int : Object → Option Object
  return_int v = if is_int rt v || is_str rt v then to_int rt v else none

  unfoldable pub return_float : Object → Option Object
  return_float v = if is_float rt v || is_str rt v then to_float rt v else none

  unfoldable pub return_date : Object → Option Object
  return_date v =
      if is_str rt v then rt.parse_date (to_str rt v) >>= (λ d. some (moment d)) else none

  abbrev pub is_text_of : String → Object → Bool
  is_text_of i (text s) = str_eq s i
  is_text_of i _ = false

  unfoldable pub returned_object : String → Object → Option Object
  returned_object i (mapping fs) = do
    j ← get_field fs "__identifier"
    o ← get_field fs "object"
    if is_text_of i j && (is_str rt o || is_int rt o) then some o else none
  returned_object i v = none

  unfoldable pub return_structure : PortInfo → Object → Option Object
  return_structure info v = do
    i ← named info
    o ← returned_object i v
    fstruc ← get_fullfilled_structure rt.registry i
    id ← rt.validate_id o
    fstruc.aexpand id

  unfoldable pub return_plain : PortKind → PortInfo → Object → Option Object
  return_plain PortKind.int info v = return_int v
  return_plain PortKind.float info v = return_float v
  return_plain PortKind.date info v = return_date v
  return_plain PortKind.memory_structure info v = some v
  return_plain PortKind.structure info v = return_structure info v
  return_plain PortKind.bool info v = some (truth (to_bool rt v))
  return_plain PortKind.string info v = some (text (to_str rt v))
  return_plain PortKind.quantity info v = expand_quantity rt v info.reference_unit
  return_plain _ info v = none

  unfoldable mutual
    pub aexpand_return : Port → Object → Option Object
    aexpand_return (port key PortKind.dict info (cons c nil)) v =
        unless_none info v (some null) none (arg_dict (aexpand_return c) v)
    aexpand_return (port key PortKind.list info (cons c nil)) v =
        unless_none info v (some null) none (arg_list (aexpand_return c) v)
    aexpand_return (port key PortKind.union info ps) v =
        unless_none info v (some null) none (union_choice rt v >>= λ (i, w). return_child ps i w)
    aexpand_return (port key kind info ps) v =
        unless_none info v (some null) none (return_plain kind info v)

    -- port.children[index], out of range for `nil`
    pub return_child : Ports → ℕ → Object → Option Object
    return_child nil index w = none
    return_child (cons p ps) zero w = aexpand_return p w
    return_child (cons p ps) (suc index) w = return_child ps index w
