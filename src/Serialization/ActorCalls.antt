-- ===== src/Serialization/ActorCalls.antt =====
-- rekuest_next/structures/serialization/actor.py, a call that an actor makes itself:
-- `ashrink_actor_arg` and `aexpand_actor_return` and the functions over all ports, which rekuest_next/remote.py uses. They differ from
-- those of the postman in memory structures and in how a structure's reference is checked. The branches of
-- `ashrink_actor_arg` are a second copy of the code in postman.py, and are translated from that copy.
use rekuest_next.Prelude.{
  ℕ, zero, suc, String, not, ◌||◌, Option, none, some, if◌then◌else◌, contains,
}
use rekuest_next.Objects.{
  get_field, set_field, Fields, end, ◌>>=◌, is_none, gather_pure, gather_fields_pure, Object, null,
  truth, text, moment, member, items, mapping, Objects, empty, item,
}
use rekuest_next.Ports.{key_of, info_of, PortKind, Port, port, Ports, nil, cons, PortInfo}
use rekuest_next.Structures.{get_fullfilled_structure}
use rekuest_next.Serialization.{is_str, to_int, to_float, to_str, to_bool, named, decide, Runtime}
use rekuest_next.Serialization.Quantities.{shrink_quantity}
use rekuest_next.Serialization.Predication.{predicate_serializable_port}
use rekuest_next.Serialization.Shrinking.{tagged, reference, zip_ports, unless_none}
use rekuest_next.Serialization.Expanding.{union_choice, same_identifier}
use rekuest_next.Serialization.Postman.{arg_dict, arg_list, return_plain}

module _ (rt : Runtime) where
  -- value.isoformat()
  unfoldable pub actor_arg_date : Object → Option Object
  actor_arg_date (moment d) = some (text (rt.isoformat d))
  actor_arg_date v = rt.isoformat_of v

  -- The name of a member, or a text
  abbrev pub enum_name : Object → Option String
  enum_name (member c name) = some name
  enum_name v = if is_str rt v then some (to_str rt v) else none

  unfoldable pub actor_arg_enum : PortInfo → Object → Option Object
  actor_arg_enum info v = do
    identifier ← info.identifier
    s ← enum_name v
    if contains info.choices s then some (text s) else none

  unfoldable pub actor_arg_structure : PortInfo → Object → Option Object
  actor_arg_structure info v = do
    i ← named info
    if is_str rt v then some v else do
      fenum ← get_fullfilled_structure rt.registry i
      shrink ← fenum.ashrink v
      some (reference i (text (to_str rt shrink)))

  -- The branches of the kinds that hold no other value, in the order of the source
  unfoldable pub actor_arg_plain : PortKind → PortInfo → Object → Option Object
  actor_arg_plain PortKind.float info v = to_float rt v
  actor_arg_plain PortKind.int info v = to_int rt v
  actor_arg_plain PortKind.date info v = actor_arg_date v
  actor_arg_plain PortKind.enum info v = actor_arg_enum info v
  actor_arg_plain PortKind.memory_structure info v = if is_str rt v then some v else none
  actor_arg_plain PortKind.structure info v = actor_arg_structure info v
  actor_arg_plain PortKind.bool info v = some (truth (to_bool rt v))
  actor_arg_plain PortKind.string info v = some (text (to_str rt v))
  actor_arg_plain PortKind.quantity info v = some (text (shrink_quantity rt v))
  actor_arg_plain _ info v = none

  unfoldable pub actor_arg_dict : (Object → Option Object) → Object → Option Object
  actor_arg_dict shrink (mapping fs) = do gs ← gather_fields_pure shrink fs; some (mapping gs)
  actor_arg_dict shrink _ = none

  unfoldable pub actor_arg_list : (Object → Option Object) → Object → Option Object
  actor_arg_list shrink (items xs) = do ys ← gather_pure shrink xs; some (items ys)
  actor_arg_list shrink _ = none

  unfoldable pub actor_arg_model : PortInfo → Ports → Option Objects → Option Object
  actor_arg_model info ps shrinked_args = do
    i ← named info
    vs ← shrinked_args
    some (mapping (set_field (zip_ports ps vs end) "__identifier" (text i)))

  unfoldable mutual
    pub ashrink_actor_arg : Port → Object → Option Object
    ashrink_actor_arg (port key PortKind.dict info (cons c nil)) v =
        unless_none info v (some null) none (actor_arg_dict (ashrink_actor_arg c) v)
    ashrink_actor_arg (port key PortKind.list info (cons c nil)) v =
        unless_none info v (some null) none (actor_arg_list (ashrink_actor_arg c) v)
    ashrink_actor_arg (port key PortKind.union info ps) v =
        unless_none info v (some null) none (actor_arg_union ps 0 v)
    ashrink_actor_arg (port key PortKind.model info (cons c cs)) v =
        unless_none info v (some null) none
          (actor_arg_model info (cons c cs) (actor_arg_attributes (cons c cs) v))
    ashrink_actor_arg (port key kind info ps) v =
        unless_none info v (some null) none (actor_arg_plain kind info v)

    -- The first child whose predicate holds.
    pub actor_arg_union : Ports → ℕ → Object → Option Object
    actor_arg_union nil index v = none
    actor_arg_union (cons p ps) index v =
        decide (predicate_serializable_port rt p v) none
          (ashrink_actor_arg p v >>= λ j. some (tagged index j)) (actor_arg_union ps (suc index) v)

    pub actor_arg_attributes : Ports → Object → Option Objects
    actor_arg_attributes nil v = some empty
    actor_arg_attributes (cons p ps) v = do
      a ← rt.getattr v (key_of p)
      j ← ashrink_actor_arg p a
      js ← actor_arg_attributes ps v
      some (item j js)

  -- The reference of a structure is not asked for its type.
  unfoldable pub actor_return_object : PortInfo → Object → Option Object
  actor_return_object info (mapping fs) = do
    i ← get_field fs "__identifier"
    o ← get_field fs "object"
    if same_identifier rt info i then some o else none
  actor_return_object info v = none

  unfoldable pub actor_return_structure : PortInfo → Object → Option Object
  actor_return_structure info v = do
    o ← actor_return_object info v
    i ← info.identifier
    fstruc ← get_fullfilled_structure rt.registry i
    id ← rt.validate_id o
    fstruc.aexpand id

  unfoldable pub actor_return_plain : PortKind → PortInfo → Object → Option Object
  actor_return_plain PortKind.memory_structure info v = if is_str rt v then some v else none
  actor_return_plain PortKind.structure info v = actor_return_structure info v
  actor_return_plain kind info v = return_plain rt kind info v

  unfoldable mutual
    pub aexpand_actor_return : Port → Object → Option Object
    aexpand_actor_return (port key PortKind.dict info (cons c nil)) v =
        unless_none info v (some null) none (arg_dict rt (aexpand_actor_return c) v)
    aexpand_actor_return (port key PortKind.list info (cons c nil)) v =
        unless_none info v (some null) none (arg_list rt (aexpand_actor_return c) v)
    aexpand_actor_return (port key PortKind.union info ps) v =
        unless_none info v (some null) none
          (union_choice rt v >>= λ (i, w). actor_return_child ps i w)
    aexpand_actor_return (port key kind info ps) v =
        unless_none info v (some null) none (actor_return_plain kind info v)

    -- port.children[index], out of range for `nil`
    pub actor_return_child : Ports → ℕ → Object → Option Object
    actor_return_child nil index w = none
    actor_return_child (cons p ps) zero w = aexpand_actor_return p w
    actor_return_child (cons p ps) (suc index) w = actor_return_child ps index w

  -- The next positional argument, else the keyword of the port, else None where the port can go without
  unfoldable pub next_actor_arg : Port → Objects → Fields → Option (Object × Objects)
  next_actor_arg p (item arg args_iterator) kwargs = some (arg, args_iterator)
  next_actor_arg p empty kwargs = elim (get_field kwargs (key_of p)) [
    | some arg ↦ some (arg, empty)
    | none ↦
        if (info_of p).nullable || not (is_none (info_of p).default)
        then some (null, empty)
        else none
  ]

  unfoldable pub actor_args_onto : Ports → Objects → Fields → Fields → Option Fields
  actor_args_onto nil args kwargs shrinked_kwargs = some shrinked_kwargs
  actor_args_onto (cons p ps) args kwargs shrinked_kwargs = do
    (a, rest) ← next_actor_arg p args kwargs
    j ← ashrink_actor_arg p a
    actor_args_onto ps rest kwargs (set_field shrinked_kwargs (key_of p) j)

  abbrev pub ashrink_actor_args : Ports → Objects → Fields → Option Fields
  ashrink_actor_args ps args kwargs = actor_args_onto ps args kwargs end

  -- A missing key of a nullable port is written into `returns`.
  unfoldable pub actor_return_of : Port → Fields → Option (Object × Fields)
  actor_return_of p returns = elim (get_field returns (key_of p)) [
    | none ↦ if (info_of p).nullable then some (null, set_field returns (key_of p) null) else none
    | some j ↦ elim (aexpand_actor_return p j) [ none ↦ none | some v ↦ some (v, returns) ]
  ]

  unfoldable pub aexpand_actor_returns : Ports → Fields → Option (Objects × Fields)
  aexpand_actor_returns nil returns = some (empty, returns)
  aexpand_actor_returns (cons p ps) returns = do
    (v, after) ← actor_return_of p returns
    (vs, last) ← aexpand_actor_returns ps after
    some (item v vs, last)
