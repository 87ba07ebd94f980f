-- ===== src/Serialization/Expanding.antt =====
-- rekuest_next/structures/serialization/actor.py, the way into an actor: `aexpand_arg` and
-- `expand_inputs`. `expand_inputs` turns every exception into an ExpandingError, which is `none`.
use rekuest_next.Prelude.{
  ℕ, zero, suc, String, Bool, true, false, ◌||◌, Option, none, some, str_eq, if◌then◌else◌,
}
use rekuest_next.Prelude.Dict.{get}
use rekuest_next.Pointer.{pos}
use rekuest_next.Objects.{
  ◌>>=◌, gather_pure, gather_fields_pure, is_none, get_field, Object, null, truth, number, text,
  moment, items, mapping, Objects, empty, item, end,
}
use rekuest_next.Ports.{key_of, PortKind, Port, port, Ports, nil, cons, PortInfo}
use rekuest_next.Structures.{
  get_fullfilled_structure, get_fullfilled_enum, get_fullfilled_model, FullFilledEnum,
}
use rekuest_next.Serialization.{
  is_int, is_float, is_str, is_json, to_int, to_float, to_str, to_bool, named, Runtime,
}
use rekuest_next.Serialization.Quantities.{expand_quantity}
use rekuest_next.Serialization.Shelving.{Shelve, aget_from_shelve}
use rekuest_next.Serialization.Shrinking.{zip_ports}

-- A value that was not given (`UNSET`) is `none`. The port's default stands for it and for `None`. No
-- port's default is UNSET, since its validator refuses what is no JSON.
unfoldable pub or_default : PortInfo → Option Object → Object
or_default info none = info.default
or_default info (some v) = if is_none v then info.default else v

module _ (rt : Runtime) where
  -- The tests between the default and the branches of the kinds.
  abbrev pub checked : PortInfo → Object → Option Object → Option Object
  checked info v expanded =
      if is_none v
      then (if info.nullable then some null else none)
      else if is_json rt v
      then expanded
      else none

  unfoldable pub expand_dict : (Object → Option Object) → Object → Option Object
  expand_dict expand (mapping fs) = do gs ← gather_fields_pure expand fs; some (mapping gs)
  expand_dict expand _ = none

  unfoldable pub expand_list : (Object → Option Object) → Object → Option Object
  expand_list expand (items xs) = do ys ← gather_pure expand xs; some (items ys)
  expand_list expand _ = none

  -- value["__use"], which must be an int and no bool; a negative one is out of range.
  unfoldable pub use_index : Object → Option ℕ
  use_index (number (pos i)) = some i
  use_index v = none

  -- The dict of a union: the index of a child and a value for it.
  unfoldable pub union_choice : Object → Option (ℕ × Object)
  unfolding use_index
  union_choice (mapping fs) = do
    u ← get_field fs "__use"
    w ← get_field fs "__value"
    index ← use_index u
    some (index, w)
  union_choice v = none

  -- the class called with the arguments, by the identifier of the port
  unfoldable pub expand_model : PortInfo → Ports → Option Objects → Option Object
  expand_model info ps expanded_args = do
    i ← named info
    vs ← expanded_args
    fmodel ← get_fullfilled_model rt.registry i
    fmodel.construct (zip_ports ps vs end)

  unfoldable pub expand_int : Object → Option Object
  expand_int v = if is_int rt v || is_float rt v || is_str rt v then to_int rt v else none

  unfoldable pub expand_float : Object → Option Object
  expand_float v = if is_int rt v || is_float rt v || is_str rt v then to_float rt v else none

  unfoldable pub expand_date : Object → Option Object
  expand_date v =
      if is_str rt v then rt.parse_date (to_str rt v) >>= (λ d. some (moment d)) else none

  -- a member by its name, else an attribute of the class
  abbrev pub enum_by_name : FullFilledEnum → String → Option Object
  enum_by_name e s = elim (get e.members s) [ some m ↦ some m | none ↦ e.attribute s ]

  abbrev pub enum_by_value : FullFilledEnum → Object → Option Object
  enum_by_value e (number n) = e.by_value n
  enum_by_value e v = none

  abbrev pub enum_member : FullFilledEnum → Object → Option Object
  enum_member e v =
      if is_str rt v
      then enum_by_name e (to_str rt v)
      else if is_int rt v
      then to_int rt v >>= enum_by_value e
      else none

  unfoldable pub expand_enum : PortInfo → Object → Option Object
  expand_enum info v = do
    i ← info.identifier
    fenum ← get_fullfilled_enum rt.registry i
    enum_member fenum v

  -- value["__identifier"] and value["object"], and whether they are those of the port: the object as a
  -- text.
  abbrev pub object_text : Object → Option String
  object_text v =
      if is_int rt v then some (to_str rt v) else if is_str rt v then some (to_str rt v) else none

  abbrev pub same_identifier : PortInfo → Object → Bool
  same_identifier info (text s) = elim info.identifier [ none ↦ false | some i ↦ str_eq s i ]
  same_identifier info null = elim info.identifier [ none ↦ true | some i ↦ false ]
  same_identifier info _ = false

  unfoldable pub referenced : PortInfo → Object → Option String
  referenced info (mapping fs) = do
    i ← get_field fs "__identifier"
    o ← get_field fs "object"
    if same_identifier info i then object_text o else none
  referenced info v = none

  unfoldable pub expand_memory_structure : Shelve → PortInfo → Object → Option Object
  expand_memory_structure s info v = do key ← referenced info v; aget_from_shelve s key

  unfoldable pub expand_structure : PortInfo → Object → Option Object
  expand_structure info v = do
    o ← referenced info v
    i ← named info
    fstruc ← get_fullfilled_structure rt.registry i
    id ← rt.validate_id (text o)
    fstruc.aexpand id

  -- The kinds without children.
  unfoldable pub expand_plain : Shelve → PortKind → PortInfo → Object → Option Object
  expand_plain s PortKind.int info v = expand_int v
  expand_plain s PortKind.date info v = expand_date v
  expand_plain s PortKind.float info v = expand_float v
  expand_plain s PortKind.enum info v = expand_enum info v
  expand_plain s PortKind.memory_structure info v = expand_memory_structure s info v
  expand_plain s PortKind.structure info v = expand_structure info v
  expand_plain s PortKind.bool info v = some (truth (to_bool rt v))
  expand_plain s PortKind.string info v = some (text (to_str rt v))
  expand_plain s PortKind.quantity info v = expand_quantity rt v info.reference_unit
  expand_plain s _ info v = none

  unfoldable mutual
    pub aexpand_arg : Shelve → Port → Option Object → Option Object
    aexpand_arg s (port key PortKind.dict info (cons c cs)) given =
        let v = or_default info given in
        checked info v (expand_dict (λ x. aexpand_arg s c (some x)) v)
    aexpand_arg s (port key PortKind.union info ps) given =
        let v = or_default info given in
        checked info v (union_choice v >>= λ (i, w). expand_child s ps i w)
    aexpand_arg s (port key PortKind.list info (cons c cs)) given =
        let v = or_default info given in
        checked info v (expand_list (λ x. aexpand_arg s c (some x)) v)
    aexpand_arg s (port key PortKind.model info (cons c cs)) given =
        let v = or_default info given in
        checked info v (expand_model info (cons c cs) (expand_attributes s (cons c cs) v))
    aexpand_arg s (port key kind info ps) given =
        let v = or_default info given in checked info v (expand_plain s kind info v)

    -- port.children[index], out of range for `nil`
    pub expand_child : Shelve → Ports → ℕ → Object → Option Object
    expand_child s nil index w = none
    expand_child s (cons p ps) zero w = aexpand_arg s p (some w)
    expand_child s (cons p ps) (suc index) w = expand_child s ps index w

    -- value.get(port.key, UNSET) through each port of a model
    pub expand_attributes : Shelve → Ports → Object → Option Objects
    expand_attributes s nil (mapping fs) = some empty
    expand_attributes s (cons p ps) (mapping fs) = do
      y ← aexpand_arg s p (get_field fs (key_of p))
      ys ← expand_attributes s ps (mapping fs)
      some (item y ys)
    expand_attributes s ps v = none
