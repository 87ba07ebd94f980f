-- ===== src/Structures.antt =====
-- rekuest_next/structures/types.py and rekuest_next/structures/registry.py: the registered classes,
-- looked up by their identifiers.
pub mod Registration
pub mod Consistency
mod Tests
use rekuest_next.Prelude.{◌-◌, ◌/◌, String, ap, Bool, Option, List, map, all}
use rekuest_next.Prelude.Dict.{Dict, get}
use rekuest_next.Objects.{Object, Fields}
use rekuest_next.Pointer.{ℤ}

-- `aexpand`, `ashrink` and `predicate` are what the class brings along.
pub record FullFilledStructure : Type 0 where
  pub cls : String
  pub identifier : String
  pub aexpand : String → Option Object
  pub ashrink : Object → Option Object
  pub predicate : Object → Bool

-- The class by what is asked of it: `__members__`, an attribute of the class, a member by its value.
pub record FullFilledEnum : Type 0 where
  pub cls : String
  pub identifier : String
  pub choices : List String
  pub members : Dict Object
  pub attribute : String → Option Object
  pub by_value : ℤ → Option Object
  pub convert_default : Object → Option Object
  pub predicate : Object → Bool

pub record FullFilledMemoryStructure : Type 0 where
  pub cls : String
  pub identifier : String
  pub predicate : Object → Bool

-- `construct` is the class called with keyword arguments.
pub record FullFilledModel : Type 0 where
  pub cls : String
  pub identifier : String
  pub construct : Fields → Option Object
  pub predicate : Object → Bool

pub data FullFilledType : Type 0 where
  structure : FullFilledStructure → FullFilledType
  enum : FullFilledEnum → FullFilledType
  memory_structure : FullFilledMemoryStructure → FullFilledType
  model : FullFilledModel → FullFilledType

-- A class is known by its name in `cls_fullfilled_type_map`.
pub record StructureRegistry : Type 0 where
  pub allow_auto_register : Bool
  pub identifier_structure_map : Dict FullFilledStructure
  pub identifier_enum_map : Dict FullFilledEnum
  pub identifier_memory_structure_map : Dict FullFilledMemoryStructure
  pub identifier_model_map : Dict FullFilledModel
  pub cls_fullfilled_type_map : Dict FullFilledType

-- A missing identifier is a KeyError.
abbrev pub get_fullfilled_structure : StructureRegistry → String → Option FullFilledStructure
get_fullfilled_structure r identifier = get r.identifier_structure_map identifier

abbrev pub get_fullfilled_enum : StructureRegistry → String → Option FullFilledEnum
get_fullfilled_enum r identifier = get r.identifier_enum_map identifier

abbrev pub get_fullfilled_model : StructureRegistry → String → Option FullFilledModel
get_fullfilled_model r identifier = get r.identifier_model_map identifier

abbrev pub get_fullfilled_memory_structure :
    StructureRegistry → String → Option FullFilledMemoryStructure
get_fullfilled_memory_structure r identifier = get r.identifier_memory_structure_map identifier
