-- ===== src/Structures/Consistency.antt =====
-- The two ways into the registry of rekuest_next/structures/registry.py, by class and by identifier.
use rekuest_next.Prelude.{
  String, ◌≡◌, refl, sym, ap, ◌∙◌, inl, inr, Bool, true, false, Option, none, some, arith, str_eq,
  eq_iff, eq_refl, if◌then◌else◌, Option-cases, String-cases,
}
use mathlib.Core.Path.{subst}
use rekuest_next.Objects.{◌>>=◌, Object}
use rekuest_next.Ports.{PortKind, Port, port, nil, PortInfo}
use rekuest_next.Prelude.Dict.{Dict, get, put, get-put}
use rekuest_next.Ports.{PortKind, Port, port, nil, PortInfo}
use rekuest_next.Structures.{
  get_fullfilled_structure, get_fullfilled_enum, get_fullfilled_model,
  get_fullfilled_memory_structure, FullFilledType, FullFilledStructure, StructureRegistry,
}
use rekuest_next.Structures.Registration.{
  cls_of, fullfill_registration, get_fullfilled_type_for_cls, named_info, converted_default,
  port_for, port_with, get_argport_for_cls, Converted,
}

abbrev pub wrap : {A : Type 0} → (A → FullFilledType) → Option A → Option FullFilledType
wrap con none = none
wrap con (some a) = some (con a)

-- What is registered under an identifier, of the kind of a type.
unfoldable pub found : StructureRegistry → FullFilledType → Option FullFilledType
found r (FullFilledType.structure f) =
    wrap FullFilledType.structure (get r.identifier_structure_map f.identifier)
found r (FullFilledType.enum f) = wrap FullFilledType.enum (get r.identifier_enum_map f.identifier)
found r (FullFilledType.memory_structure f) =
    wrap FullFilledType.memory_structure (get r.identifier_memory_structure_map f.identifier)
found r (FullFilledType.model f) =
    wrap FullFilledType.model (get r.identifier_model_map f.identifier)

-- Every class leads to the type that its identifier leads to.
abbrev pub IsConsistent : StructureRegistry → Type 0
IsConsistent r =
    (cls : String) (t : FullFilledType)
    → get r.cls_fullfilled_type_map cls ≡ some t
    → found r t ≡ some t

wrap-get-put :
    {A : Type 0} (con : A → FullFilledType) (d : Dict A) (k : String) (a : A)
    → wrap con (get (put d k a) k) ≡ some (con a)
wrap-get-put con d k a =
    let present : get (put d k a) k ≡ some a = get-put d k k a ∙ rw (eq_refl k) refl in
    ap (wrap con) present

wrap-get-put_other :
    {A : Type 0} (con : A → FullFilledType) (d : Dict A) (k j : String) (a : A) (u : FullFilledType)
    → wrap con (get d k) ≡ none
    → wrap con (get d j) ≡ some u
    → wrap con (get (put d k a) j) ≡ some u
wrap-get-put_other con d k j a u n h = elim (String-cases k j) [
  | inl e ↦ let n' : wrap con (get d j) ≡ none = rw e at n in absurd (ground (arith, sym n' ∙ h))
  | inr e ↦
      let kept : get (put d k a) j ≡ get d j = get-put d k j a ∙ rw e refl in ap (wrap con) kept ∙ h
]

found_new :
    (t : FullFilledType) (r : StructureRegistry) → found (fullfill_registration t r) t ≡ some t
unfolding found fullfill_registration
found_new (FullFilledType.structure f) r =
    wrap-get-put FullFilledType.structure r.identifier_structure_map f.identifier f
found_new (FullFilledType.enum f) r =
    wrap-get-put FullFilledType.enum r.identifier_enum_map f.identifier f
found_new (FullFilledType.memory_structure f) r =
    wrap-get-put FullFilledType.memory_structure r.identifier_memory_structure_map f.identifier f
found_new (FullFilledType.model f) r =
    wrap-get-put FullFilledType.model r.identifier_model_map f.identifier f

-- A registration under a free identifier leaves what the others lead to.
found_old :
    (t u : FullFilledType) (r : StructureRegistry)
    → found r t ≡ none
    → found r u ≡ some u
    → found (fullfill_registration t r) u ≡ some u
unfolding found fullfill_registration
found_old (FullFilledType.structure f) (FullFilledType.structure g) r n h =
    wrap-get-put_other FullFilledType.structure r.identifier_structure_map f.identifier g.identifier
      f _ n h
found_old (FullFilledType.structure f) _ r n h = h
found_old (FullFilledType.enum f) (FullFilledType.enum g) r n h =
    wrap-get-put_other FullFilledType.enum r.identifier_enum_map f.identifier g.identifier f _ n h
found_old (FullFilledType.enum f) _ r n h = h
found_old (FullFilledType.memory_structure f) (FullFilledType.memory_structure g) r n h =
    wrap-get-put_other FullFilledType.memory_structure r.identifier_memory_structure_map
      f.identifier g.identifier f _ n h
found_old (FullFilledType.memory_structure f) _ r n h = h
found_old (FullFilledType.model f) (FullFilledType.model g) r n h =
    wrap-get-put_other FullFilledType.model r.identifier_model_map f.identifier g.identifier f _ n h
found_old (FullFilledType.model f) _ r n h = h

classes :
    (t : FullFilledType) (r : StructureRegistry) (cls : String)
    → get (fullfill_registration t r).cls_fullfilled_type_map cls
      ≡ (if str_eq (cls_of t) cls then some t else get r.cls_fullfilled_type_map cls)
unfolding fullfill_registration
classes (FullFilledType.structure f) r cls = get-put r.cls_fullfilled_type_map f.cls cls _
classes (FullFilledType.enum f) r cls = get-put r.cls_fullfilled_type_map f.cls cls _
classes (FullFilledType.memory_structure f) r cls = get-put r.cls_fullfilled_type_map f.cls cls _
classes (FullFilledType.model f) r cls = get-put r.cls_fullfilled_type_map f.cls cls _

-- A registration under an identifier that is free for its kind keeps the registry consistent: every
-- class leads to the type that the identifier of its type leads to.
pub fullfill_registration-IsConsistent :
    (t : FullFilledType) (r : StructureRegistry)
    → IsConsistent r
    → found r t ≡ none
    → IsConsistent (fullfill_registration t r)
fullfill_registration-IsConsistent t r i n cls u h = elim (String-cases (cls_of t) cls) [
  | inl e ↦
      let own : str_eq (cls_of t) cls ≡ true = (eq_iff (cls_of t) cls).1 e in
      let step : get (fullfill_registration t r).cls_fullfilled_type_map cls ≡ some t =
        classes t r cls ∙ rw own refl in
      let same : t ≡ u = ground (arith, sym step ∙ h) in
      subst (λ w. found (fullfill_registration t r) w ≡ some w) same (found_new t r)
  | inr e ↦
      let step : get (fullfill_registration t r).cls_fullfilled_type_map cls
          ≡ get r.cls_fullfilled_type_map cls =
        classes t r cls ∙ rw e refl in
      found_old t u r n (i cls u (sym step ∙ h))
]

-- What the serializers look up for a port (`get_fullfilled_…` of its kind at its identifier)
unfoldable pub resolve_port : StructureRegistry → Port → Option FullFilledType
resolve_port r (port key PortKind.structure info ps) =
    info.identifier >>= (λ i. wrap FullFilledType.structure (get_fullfilled_structure r i))
resolve_port r (port key PortKind.enum info ps) =
    info.identifier >>= (λ i. wrap FullFilledType.enum (get_fullfilled_enum r i))
resolve_port r (port key PortKind.memory_structure info ps) =
    info.identifier
    >>= (λ i. wrap FullFilledType.memory_structure (get_fullfilled_memory_structure r i))
resolve_port r (port key PortKind.model info ps) =
    info.identifier >>= (λ i. wrap FullFilledType.model (get_fullfilled_model r i))
resolve_port r p = none

some_injective : {A : Type 0} {a b : A} → some a ≡ some b → a ≡ b
some_injective {a = a} h = ap (λ o. elim o [ some x ↦ x | none ↦ a ]) h

type_for_cls :
    (convert : String → Option Converted) (cls : String) (r : StructureRegistry)
    (t : FullFilledType)
    → get r.cls_fullfilled_type_map cls ≡ some t
    → get_fullfilled_type_for_cls convert cls r ≡ some (t, r)
unfolding get_fullfilled_type_for_cls
type_for_cls convert cls r t e = rw (e, get_fullfilled_type_for_cls) refl

resolve_port-port_for :
    (t : FullFilledType) (r : StructureRegistry) (key : String) (nullable : Bool) (default : Object)
    (p : Port)
    → port_for t key nullable default ≡ some p
    → resolve_port r p ≡ found r t
unfolding resolve_port port_for found
resolve_port-port_for (FullFilledType.structure f) r key nullable default p h =
    subst (λ q. resolve_port r q ≡ found r (FullFilledType.structure f)) (some_injective h) refl
resolve_port-port_for (FullFilledType.enum f) r key nullable default p h =
    elim (Option-cases (converted_default f default)) [
      | inl e ↦
          let step : port_for (FullFilledType.enum f) key nullable default ≡ none =
            rw (e, port_for) refl in
          absurd (ground (arith, sym step ∙ h))
      | inr (d, e) ↦
          let info : PortInfo = record (named_info f.identifier nullable) {
            default = d;
            choices = f.choices;
          } in
          let step : port_for (FullFilledType.enum f) key nullable default
              ≡ some (port key PortKind.enum info nil) =
            rw (e, port_for) refl in
          subst (λ q. resolve_port r q ≡ found r (FullFilledType.enum f))
            (some_injective (sym step ∙ h)) refl
    ]
resolve_port-port_for (FullFilledType.memory_structure f) r key nullable default p h =
    subst (λ q. resolve_port r q ≡ found r (FullFilledType.memory_structure f)) (some_injective h)
      refl
resolve_port-port_for (FullFilledType.model f) r key nullable default p h =
    subst (λ q. resolve_port r q ≡ found r (FullFilledType.model f)) (some_injective h) refl

get_argport_for_cls_of :
    (convert : String → Option Converted) (cls key : String) (nullable : Bool) (default : Object)
    (r : StructureRegistry) (found : FullFilledType × StructureRegistry)
    → get_fullfilled_type_for_cls convert cls r ≡ some found
    → get_argport_for_cls convert cls key nullable default r ≡ port_with key nullable default found
unfolding get_argport_for_cls
get_argport_for_cls_of convert cls key nullable default r found h = rw (h, get_argport_for_cls) refl

port_with_of :
    (key : String) (nullable : Bool) (default : Object) (t : FullFilledType) (r : StructureRegistry)
    (o : Option Port)
    → port_for t key nullable default ≡ o
    → port_with key nullable default (t, r) ≡ (elim o [ none ↦ none | some p ↦ some (p, r) ])
port_with_of key nullable default t r o h = rw (h, port_with) refl

-- In a consistent registry, the port that `get_argport_for_cls` makes for a registered class resolves,
-- by its kind and identifier, to what is registered for that class; the registry stays as it is.
pub resolve_port-get_argport_for_cls :
    (convert : String → Option Converted) (cls key : String) (nullable : Bool) (default : Object)
    (r s : StructureRegistry) (t : FullFilledType) (p : Port)
    → IsConsistent r
    → get r.cls_fullfilled_type_map cls ≡ some t
    → get_argport_for_cls convert cls key nullable default r ≡ some (p, s)
    → (s ≡ r) × (resolve_port r p ≡ some t)
resolve_port-get_argport_for_cls convert cls key nullable default r s t p i e h =
    elim (Option-cases (port_for t key nullable default)) [
      | inl f ↦
          let step : get_argport_for_cls convert cls key nullable default r ≡ none =
            get_argport_for_cls_of convert cls key nullable default r (t, r)
              (type_for_cls convert cls r t e)
            ∙ port_with_of key nullable default t r _ f in
          absurd (ground (arith, sym step ∙ h))
      | inr (q, f) ↦
          let step : get_argport_for_cls convert cls key nullable default r ≡ some (q, r) =
            get_argport_for_cls_of convert cls key nullable default r (t, r)
              (type_for_cls convert cls r t e)
            ∙ port_with_of key nullable default t r _ f in
          let same : (q, r) ≡ (p, s) = some_injective (sym step ∙ h) in
          (
            sym (ap (λ (w : Port × StructureRegistry). w.1) same),
            resolve_port-port_for t r key nullable default p
                  (f ∙ ap (λ (w : Port × StructureRegistry). some w.0) same)
                ∙ i cls t e,
          )
    ]

found_same :
    (f g : FullFilledStructure)
    → f.identifier ≡ g.identifier
    → (r : StructureRegistry)
    → found r (FullFilledType.structure g) ≡ some (FullFilledType.structure g)
    → found r (FullFilledType.structure f) ≡ some (FullFilledType.structure g)
unfolding found
found_same f g e r h =
    ap (λ k. wrap FullFilledType.structure (get r.identifier_structure_map k)) e ∙ h

-- A second structure under an identifier that is taken replaces the first: the class of the first is
-- still registered, and its identifier leads to the second.
pub found-overwritten :
    (f g : FullFilledStructure) (r : StructureRegistry)
    → f.identifier ≡ g.identifier
    → str_eq g.cls f.cls ≡ false
    → (get
          (fullfill_registration
            (FullFilledType.structure g)
            (fullfill_registration (FullFilledType.structure f) r)).cls_fullfilled_type_map
          f.cls
        ≡ some (FullFilledType.structure f))
      × (found
            (fullfill_registration
              (FullFilledType.structure g)
              (fullfill_registration (FullFilledType.structure f) r))
            (FullFilledType.structure f)
          ≡ some (FullFilledType.structure g))
found-overwritten f g r e d =
    let first = fullfill_registration (FullFilledType.structure f) r in
    let second = fullfill_registration (FullFilledType.structure g) first in
    let own : get first.cls_fullfilled_type_map f.cls ≡ some (FullFilledType.structure f) =
      classes (FullFilledType.structure f) r f.cls ∙ rw (eq_refl f.cls) refl in
    let other : get second.cls_fullfilled_type_map f.cls ≡ get first.cls_fullfilled_type_map f.cls =
      classes (FullFilledType.structure g) first f.cls ∙ rw d refl in
    (other ∙ own, found_same f g e second (found_new (FullFilledType.structure g) first))
