-- ===== src/Serialization/Fits.antt =====
-- The values that a return port describes, independently of the serializers, and the documented
-- behaviour of what they call.
use rekuest_next.Prelude.{
  ℕ, zero, suc, String, ◌≡◌, Bool, true, false, not, ◌&&◌, ◌||◌, some, str_eq,
}
use rekuest_next.Prelude.Dict.{get, has}
use rekuest_next.Pointer.{ℤ}
use rekuest_next.Objects.{
  is_none, Object, Objects, empty, item, Fields, end, field, null, truth, number, real, text,
  moment, items, mapping, member,
}
use rekuest_next.Ports.{key_of, PortKind, Port, port, Ports, nil, cons, PortInfo}
use rekuest_next.Structures.{
  get_fullfilled_structure, get_fullfilled_enum, get_fullfilled_model, FullFilledStructure,
  FullFilledEnum, FullFilledModel,
}
use rekuest_next.Serialization.{Runtime}
use rekuest_next.Serialization.Predication.{predicate_port_input}
use rekuest_next.Serialization.Shelving.{Shelve}
use rekuest_next.Serialization.Shrinking.{zip_ports}

-- A datetime is read back from its ISO text, `ID.validate` keeps a text, a structure is expanded from
-- what it shrank to, a quantity is read back from its pint text at its own unit, and the server
-- answers with a drawer that is not on the shelve.
pub record IsLawful (rt : Runtime) : Type 0 where
  pub dates : (d : String) → rt.parse_date (rt.isoformat d) ≡ some d
  pub ids : (s : String) → rt.validate_id (text s) ≡ some s
  pub structures :
      (i s : String) (f : FullFilledStructure) (v : Object)
      → get_fullfilled_structure rt.registry i ≡ some f
      → f.ashrink v ≡ some (text s)
      → f.aexpand s ≡ some v
  pub quantities :
      (v : Object) (u : String)
      → rt.unit_of_quantity v ≡ some u
      → rt.validate_quantity u (text (rt.to_pint_string v)) ≡ some v
  pub drawers :
      (s : Shelve) (i : String) (v : Object)
      → (k : String) × (rt.new_drawer s i v ≡ some k) × (has s k ≡ false)

-- Is there a port of this key?
unfoldable pub has_port : Ports → String → Bool
has_port nil k = false
has_port (cons p ps) k = str_eq (key_of p) k || has_port ps k

unfoldable pub distinct_keys : Ports → Bool
unfolding has_port
distinct_keys nil = true
distinct_keys (cons p ps) = not (has_port ps (key_of p)) && distinct_keys ps

-- The kinds that `aexpand_return` has a branch for and that come back as themselves: no enum, no model
-- and no memory structure.
abbrev pub deliverable_kind : PortKind → Bool
deliverable_kind PortKind.enum = false
deliverable_kind PortKind.model = false
deliverable_kind PortKind.memory_structure = false
deliverable_kind PortKind.interface = false
deliverable_kind kind = true

unfoldable mutual
  pub deliverable : Port → Bool
  deliverable (port key kind info ps) = deliverable_kind kind && deliverable_all ps

  pub deliverable_all : Ports → Bool
  deliverable_all nil = true
  deliverable_all (cons p ps) = deliverable p && deliverable_all ps

module _ (rt : Runtime) where
  -- The child of a union at an index is the first whose predicate holds.
  pub data Chosen : Ports → Object → ℕ → Port → Type 0 where
    here :
        {p : Port} {ps : Ports} {v : Object}
        → predicate_port_input rt p v ≡ some true
        → Chosen (cons p ps) v zero p
    there :
        {p q : Port} {ps : Ports} {v : Object} {i : ℕ}
        → predicate_port_input rt p v ≡ some false
        → Chosen ps v i q
        → Chosen (cons p ps) v (suc i) q

  mutual
    pub data Fits : Port → Object → Type 0 where
      fits_none :
          {key : String} {kind : PortKind} {info : PortInfo} {ps : Ports}
          → info.nullable ≡ true
          → info.default ≡ null
          → Fits (port key kind info ps) null
      fits_int :
          {key : String} {info : PortInfo} {ps : Ports} (n : ℤ)
          → Fits (port key PortKind.int info ps) (number n)
      fits_float :
          {key : String} {info : PortInfo} {ps : Ports} (x : String)
          → Fits (port key PortKind.float info ps) (real x)
      fits_bool :
          {key : String} {info : PortInfo} {ps : Ports} (b : Bool)
          → Fits (port key PortKind.bool info ps) (truth b)
      fits_string :
          {key : String} {info : PortInfo} {ps : Ports} (s : String)
          → Fits (port key PortKind.string info ps) (text s)
      fits_date :
          {key : String} {info : PortInfo} {ps : Ports} (d : String)
          → Fits (port key PortKind.date info ps) (moment d)
      fits_quantity :
          {key : String} {info : PortInfo} {ps : Ports} {v : Object} {u : String}
          → is_none v ≡ false
          → rt.kanne_available ≡ true
          → rt.unit_of_quantity v ≡ some u
          → info.reference_unit ≡ some u
          → str_eq u "" ≡ false
          → rt.known_unit u ≡ true
          → Fits (port key PortKind.quantity info ps) v
      fits_enum :
          {key : String} {info : PortInfo} {ps : Ports} {i c name : String} {e : FullFilledEnum}
          → info.identifier ≡ some i
          → get_fullfilled_enum rt.registry i ≡ some e
          → get e.members name ≡ some (member c name)
          → Fits (port key PortKind.enum info ps) (member c name)
      fits_structure :
          {key : String} {info : PortInfo} {ps : Ports} {v : Object} {i s : String}
          {f : FullFilledStructure}
          → is_none v ≡ false
          → info.identifier ≡ some i
          → str_eq i "" ≡ false
          → get_fullfilled_structure rt.registry i ≡ some f
          → f.ashrink v ≡ some (text s)
          → Fits (port key PortKind.structure info ps) v
      fits_memory_structure :
          {key : String} {info : PortInfo} {ps : Ports} {v : Object} {i : String}
          → is_none v ≡ false
          → info.identifier ≡ some i
          → str_eq i "" ≡ false
          → Fits (port key PortKind.memory_structure info ps) v
      fits_list :
          {key : String} {info : PortInfo} {c : Port} {xs : Objects}
          → FitsAll c xs
          → Fits (port key PortKind.list info (cons c nil)) (items xs)
      fits_dict :
          {key : String} {info : PortInfo} {c : Port} {fs : Fields}
          → FitsFields c fs
          → Fits (port key PortKind.dict info (cons c nil)) (mapping fs)
      fits_union :
          {key : String} {info : PortInfo} {ps : Ports} {p : Port} {v : Object} {i : ℕ}
          → is_none v ≡ false
          → Chosen ps v i p
          → Fits p v
          → Fits (port key PortKind.union info ps) v
      fits_model :
          {key : String} {info : PortInfo} {c : Port} {cs : Ports} {v : Object} {i : String}
          {m : FullFilledModel} {vs : Objects}
          → is_none v ≡ false
          → info.identifier ≡ some i
          → str_eq i "" ≡ false
          → get_fullfilled_model rt.registry i ≡ some m
          → distinct_keys (cons c cs) ≡ true
          → has_port (cons c cs) "__identifier" ≡ false
          → FitsAttributes (cons c cs) v vs
          → m.construct (zip_ports (cons c cs) vs end) ≡ some v
          → Fits (port key PortKind.model info (cons c cs)) v

    pub data FitsAll : Port → Objects → Type 0 where
      fits_empty : {c : Port} → FitsAll c empty
      fits_item :
          {c : Port} {x : Object} {xs : Objects} → Fits c x → FitsAll c xs → FitsAll c (item x xs)

    pub data FitsFields : Port → Fields → Type 0 where
      fits_end : {c : Port} → FitsFields c end
      fits_field :
          {c : Port} {k : String} {x : Object} {fs : Fields}
          → Fits c x
          → FitsFields c fs
          → FitsFields c (field k x fs)

    -- The attributes of an instance under the keys of the ports.
    pub data FitsAttributes : Ports → Object → Objects → Type 0 where
      fits_nil : {v : Object} → FitsAttributes nil v empty
      fits_cons :
          {p : Port} {ps : Ports} {v a : Object} {vs : Objects}
          → rt.getattr v (key_of p) ≡ some a
          → Fits p a
          → FitsAttributes ps v vs
          → FitsAttributes (cons p ps) v (item a vs)
