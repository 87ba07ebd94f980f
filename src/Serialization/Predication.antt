-- ===== src/Serialization/Predication.antt =====
-- rekuest_next/structures/serialization/predication.py: does a value belong to a port? `none` is an
-- exception.
use rekuest_next.Prelude.{Bool, true, false, ◌&&◌, Option, none, some, if◌then◌else◌}
use rekuest_next.Objects.{
  all_items, all_fields, Object, text, items, mapping, Fields, end, field, ◌>>=◌,
}
use rekuest_next.Ports.{key_of, PortKind, Port, port, Ports, nil, cons, PortInfo}
use rekuest_next.Structures.{
  get_fullfilled_structure, get_fullfilled_enum, get_fullfilled_model,
  get_fullfilled_memory_structure,
}
use rekuest_next.Serialization.{is_int, is_float, is_str, is_bool, is_datetime, named, Runtime}
use rekuest_next.Serialization.Quantities.{matches_dimension}

module _ (rt : Runtime) where
  -- The branches that both predicates share, by the registered class.
  unfoldable pub predicate_structure : PortInfo → Object → Option Bool
  predicate_structure info v = do
    identifier ← named info
    fstruc ← get_fullfilled_structure rt.registry identifier
    some (fstruc.predicate v)

  unfoldable pub predicate_memory_structure : PortInfo → Object → Option Bool
  predicate_memory_structure info v = do
    identifier ← named info
    fstruc ← get_fullfilled_memory_structure rt.registry identifier
    some (fstruc.predicate v)

  unfoldable pub predicate_enum : PortInfo → Object → Option Bool
  predicate_enum info v = do
    identifier ← named info
    fstruc ← get_fullfilled_enum rt.registry identifier
    some (fstruc.predicate v)

  unfoldable pub predicate_model : PortInfo → Object → Option Bool
  predicate_model info v = do
    identifier ← named info
    fstruc ← get_fullfilled_model rt.registry identifier
    some (fstruc.predicate v)

  -- dict ports: every value; `none` for the child is a port without children
  unfoldable pub predicate_dict : Option (Object → Option Bool) → Object → Option Bool
  predicate_dict none (mapping fs) = none
  predicate_dict (some test) (mapping fs) = all_fields test fs
  predicate_dict child _ = some false

  unfoldable pub predicate_list : Option (Object → Option Bool) → Object → Option Bool
  predicate_list none (items xs) = none
  predicate_list (some test) (items xs) = all_items test xs
  predicate_list child _ = some false

  -- all([test(value) for value in value]) over a dict runs over its keys
  unfoldable pub all_keys : (Object → Option Bool) → Fields → Option Bool
  all_keys test end = some true
  all_keys test (field k x xs) = do b ← test (text k); bs ← all_keys test xs; some (b && bs)

  -- The list branch of `predicate_serializable_port` asks for a dict.
  unfoldable pub predicate_serializable_list : Option (Object → Option Bool) → Object → Option Bool
  predicate_serializable_list none (mapping fs) = none
  predicate_serializable_list (some test) (mapping fs) = all_keys test fs
  predicate_serializable_list child _ = some false

  -- The kinds without children.
  unfoldable pub predicate_plain : PortKind → PortInfo → Object → Option Bool
  predicate_plain PortKind.date info v = some (is_datetime v)
  predicate_plain PortKind.int info v = some (is_int rt v)
  predicate_plain PortKind.float info v = some (is_float rt v)
  predicate_plain PortKind.bool info v = some (is_bool v)
  predicate_plain PortKind.string info v = some (is_str rt v)
  predicate_plain PortKind.quantity info v = some (matches_dimension rt v info.dimension)
  predicate_plain PortKind.structure info v = predicate_structure info v
  predicate_plain PortKind.memory_structure info v = predicate_memory_structure info v
  predicate_plain PortKind.enum info v = predicate_enum info v
  predicate_plain _ info v = none

  unfoldable pub predicate_port_input : Port → Object → Option Bool
  predicate_port_input (port key PortKind.dict info nil) v = predicate_dict none v
  predicate_port_input (port key PortKind.dict info (cons c cs)) v =
      predicate_dict (some (predicate_port_input c)) v
  predicate_port_input (port key PortKind.list info nil) v = predicate_list none v
  predicate_port_input (port key PortKind.list info (cons c cs)) v =
      predicate_list (some (predicate_port_input c)) v
  predicate_port_input (port key PortKind.model info ps) v = predicate_model info v
  predicate_port_input (port key kind info ps) v = predicate_plain kind info v

  -- getattr(value, name) with a name that is itself a value: a TypeError unless it is a text
  unfoldable pub getattr_by : Object → Object → Option Object
  getattr_by v (text name) = rt.getattr v name
  getattr_by v _ = none

  unfoldable mutual
    pub predicate_serializable_port : Port → Object → Option Bool
    predicate_serializable_port (port key PortKind.dict info (cons c nil)) v =
        predicate_dict (some (predicate_serializable_port c)) v
    predicate_serializable_port (port key PortKind.dict info ps) v = predicate_dict none v
    predicate_serializable_port (port key PortKind.list info (cons c nil)) v =
        predicate_serializable_list (some (predicate_serializable_port c)) v
    predicate_serializable_port (port key PortKind.list info ps) v =
        predicate_serializable_list none v
    predicate_serializable_port (port key PortKind.model info nil) v = none
    predicate_serializable_port (port key PortKind.model info (cons c cs)) v =
        predicate_attributes (cons c cs) v
    predicate_serializable_port (port key kind info ps) v = predicate_plain kind info v

    -- The loop over the ports of a model, which ends at the first port that does not match: the
    -- attribute's value is taken as the name of an attribute.
    pub predicate_attributes : Ports → Object → Option Bool
    predicate_attributes nil v = some true
    predicate_attributes (cons c cs) v = do
      child_value ← rt.getattr v (key_of c)
      inner ← getattr_by v child_value
      held ← predicate_serializable_port c inner
      if held then predicate_attributes cs v else some false
