-- ===== src/Structures/Registration.antt =====
-- rekuest_next/structures/registry.py: registering classes, and the ports of registered classes.
use rekuest_next.Prelude.{String, Bool, Option, none, some, if◌then◌else◌}
use rekuest_next.Prelude.Dict.{get, put}
use rekuest_next.Objects.{is_none, Object, null}
use rekuest_next.Ports.{no_info, PortKind, Port, port, nil, PortInfo}
use rekuest_next.Structures.{FullFilledType, FullFilledEnum, StructureRegistry}

abbrev pub cls_of : FullFilledType → String
cls_of (FullFilledType.structure f) = f.cls
cls_of (FullFilledType.enum f) = f.cls
cls_of (FullFilledType.memory_structure f) = f.cls
cls_of (FullFilledType.model f) = f.cls

abbrev pub identifier_of : FullFilledType → String
identifier_of (FullFilledType.structure f) = f.identifier
identifier_of (FullFilledType.enum f) = f.identifier
identifier_of (FullFilledType.memory_structure f) = f.identifier
identifier_of (FullFilledType.model f) = f.identifier

-- self.identifier_…_map[fullfilled_type.identifier] = fullfilled_type
abbrev pub identify : FullFilledType → StructureRegistry → StructureRegistry
identify (FullFilledType.structure f) r = record r {
  identifier_structure_map = put r.identifier_structure_map f.identifier f;
}
identify (FullFilledType.enum f) r = record r {
  identifier_enum_map = put r.identifier_enum_map f.identifier f;
}
identify (FullFilledType.memory_structure f) r = record r {
  identifier_memory_structure_map = put r.identifier_memory_structure_map f.identifier f;
}
identify (FullFilledType.model f) r = record r {
  identifier_model_map = put r.identifier_model_map f.identifier f;
}

-- What is registered under the class or the identifier already is overwritten.
unfoldable pub fullfill_registration : FullFilledType → StructureRegistry → StructureRegistry
fullfill_registration t r =
    identify t (record r { cls_fullfilled_type_map = put r.cls_fullfilled_type_map (cls_of t) t })

-- What the conversion of a class gives (rekuest_next/structures/convert.py, by introspection): a
-- Literal is registered under the class that is made for it as well.
pub data Converted : Type 0 where
  from_literal from_class : FullFilledType → Converted

-- `none` is a StructureDefinitionError.
unfoldable pub auto_register :
    (String → Option Converted)
    → String
    → StructureRegistry
    → Option (FullFilledType × StructureRegistry)
unfolding fullfill_registration
auto_register convert cls r = elim (convert cls) [
  | none ↦ none
  | some (from_class t) ↦ some (t, fullfill_registration t r)
  | some (from_literal t) ↦
      let s = fullfill_registration t r in
      some (t, record s { cls_fullfilled_type_map = put s.cls_fullfilled_type_map cls t })
]

unfoldable pub get_identifier_for_cls : String → StructureRegistry → Option String
get_identifier_for_cls cls r = elim (get r.cls_fullfilled_type_map cls) [
  | none ↦ none
  | some t ↦ some (identifier_of t)
]

unfoldable pub get_fullfilled_type_for_cls :
    (String → Option Converted)
    → String
    → StructureRegistry
    → Option (FullFilledType × StructureRegistry)
unfolding auto_register
get_fullfilled_type_for_cls convert cls r = elim (get r.cls_fullfilled_type_map cls) [
  | some t ↦ some (t, r)
  | none ↦ if r.allow_auto_register then auto_register convert cls r else none
]

abbrev pub named_info : String → Bool → PortInfo
named_info identifier nullable = record no_info {
  identifier = some identifier;
  nullable = nullable;
}

-- fullfilled_type.convert_default(default) if default is not None else None
abbrev pub converted_default : FullFilledEnum → Object → Option Object
converted_default f default = if is_none default then some null else f.convert_default default

-- The port of a class by its kind; that of a model has no children.
unfoldable pub port_for : FullFilledType → String → Bool → Object → Option Port
port_for (FullFilledType.model f) key nullable default =
    some (port key PortKind.model (named_info f.identifier nullable) nil)
port_for (FullFilledType.enum f) key nullable default = elim (converted_default f default) [
  | none ↦ none
  | some d ↦ some (
      port key PortKind.enum
        (record (named_info f.identifier nullable) { default = d; choices = f.choices }) nil)
]
port_for (FullFilledType.memory_structure f) key nullable default =
    some (port key PortKind.memory_structure (named_info f.identifier nullable) nil)
port_for (FullFilledType.structure f) key nullable default =
    some (port key PortKind.structure (named_info f.identifier nullable) nil)

abbrev pub port_with :
    String → Bool → Object → FullFilledType × StructureRegistry → Option (Port × StructureRegistry)
port_with key nullable default (t, r) = elim (port_for t key nullable default) [
  | none ↦ none
  | some p ↦ some (p, r)
]

unfoldable pub get_argport_for_cls :
    (String → Option Converted)
    → String
    → String
    → Bool
    → Object
    → StructureRegistry
    → Option (Port × StructureRegistry)
get_argport_for_cls convert cls key nullable default r =
    elim (get_fullfilled_type_for_cls convert cls r) [
      | none ↦ none
      | some found ↦ port_with key nullable default found
    ]

unfoldable pub get_returnport_for_cls :
    (String → Option Converted)
    → String
    → String
    → Bool
    → Object
    → StructureRegistry
    → Option (Port × StructureRegistry)
get_returnport_for_cls convert cls key nullable default r =
    elim (get_fullfilled_type_for_cls convert cls r) [
      | none ↦ none
      | some found ↦ port_with key nullable default found
    ]
