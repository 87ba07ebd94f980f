-- ===== src/Structures/Tests.antt =====
-- Registries with one and two structures (rekuest_next/structures/registry.py).
use rekuest_next.Prelude.{◌≡◌, refl, true, false, none, some, [], arith}
use rekuest_next.Prelude.Dict.{get, put}
use rekuest_next.Objects.{null, text}
use rekuest_next.Ports.{no_info, PortKind, Port, port, nil}
use rekuest_next.Structures.{FullFilledType, FullFilledStructure, StructureRegistry}
use rekuest_next.Structures.Registration.{
  fullfill_registration, get_fullfilled_type_for_cls, port_for, get_argport_for_cls,
}
use rekuest_next.Structures.Consistency.{
  found, IsConsistent, fullfill_registration-IsConsistent, resolve_port,
  resolve_port-get_argport_for_cls,
}

abbrev image : FullFilledStructure
image = record {
  cls = "Image";
  identifier = "@mikro/image";
  aexpand = λ id. some (text id);
  ashrink = λ v. some v;
  predicate = λ v. true;
}

-- Another class of the same identifier
abbrev other : FullFilledStructure
other = record image { cls = "Other" }

abbrev blank : StructureRegistry
blank = record {
  allow_auto_register = false;
  identifier_structure_map = [];
  identifier_enum_map = [];
  identifier_memory_structure_map = [];
  identifier_model_map = [];
  cls_fullfilled_type_map = [];
}

blank-IsConsistent : IsConsistent blank
unfolding get
blank-IsConsistent cls t h = ground (arith, h)

with_image-IsConsistent :
    IsConsistent (fullfill_registration (FullFilledType.structure image) blank)
unfolding found get
with_image-IsConsistent =
    fullfill_registration-IsConsistent (FullFilledType.structure image) blank blank-IsConsistent
      refl

-- The other class may be registered under an identifier of its own.
fullfill_registration-IsConsistent_example : IsConsistent (
    fullfill_registration
      (FullFilledType.structure (record other { identifier = "@mikro/other" }))
      (fullfill_registration (FullFilledType.structure image) blank))
unfolding found get put fullfill_registration
fullfill_registration-IsConsistent_example =
    fullfill_registration-IsConsistent
      (FullFilledType.structure (record other { identifier = "@mikro/other" }))
      (fullfill_registration (FullFilledType.structure image) blank) with_image-IsConsistent refl

abbrev image_port : Port
image_port =
    port "image" PortKind.structure (record no_info { identifier = some "@mikro/image" }) nil

resolve_port-get_argport_for_cls_example :
    (fullfill_registration (FullFilledType.structure image) blank
      ≡ fullfill_registration (FullFilledType.structure image) blank)
    × (resolve_port (fullfill_registration (FullFilledType.structure image) blank) image_port
        ≡ some (FullFilledType.structure image))
unfolding get_argport_for_cls get_fullfilled_type_for_cls port_for fullfill_registration get put
resolve_port-get_argport_for_cls_example =
    resolve_port-get_argport_for_cls (λ c. none) "Image" "image" false null
      (fullfill_registration (FullFilledType.structure image) blank)
      (fullfill_registration (FullFilledType.structure image) blank)
      (FullFilledType.structure image) image_port with_image-IsConsistent refl refl
