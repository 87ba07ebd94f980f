-- ===== src/Serialization/Restored.antt =====
-- What the actor side of rekuest_next/structures/serialization gives back for the kinds of ports
-- without children.
use rekuest_next.Prelude.{
  String, ◌≡◌, refl, ◌∙◌, inl, inr, true, false, some, arith, str_eq, eq_refl, String-cases,
}
use rekuest_next.Prelude.Dict.{get, has, put, get-put, has_of_get}
use rekuest_next.Objects.{is_none, get_field, Object, null, text, member}
use rekuest_next.Ports.{info_of, PortKind, Port, port, Ports, nil, cons, PortInfo}
use rekuest_next.Structures.{
  get_fullfilled_structure, get_fullfilled_enum, FullFilledStructure, FullFilledEnum,
}
use rekuest_next.Serialization.{named, Runtime}
use rekuest_next.Serialization.Quantities.{shrink_quantity, resolve_quantity_type, expand_quantity}
use rekuest_next.Serialization.Shelving.{Shelve, aput_on_shelve}
use rekuest_next.Serialization.Shrinking.{
  reference, shrink_enum, shrink_structure_with, shrink_structure, shrink_memory_structure,
  shrink_plain, ashrink_return,
}
use rekuest_next.Serialization.Expanding.{
  or_default, enum_by_name, expand_enum, referenced, expand_memory_structure, expand_structure,
  expand_plain, aexpand_arg,
}
use rekuest_next.Serialization.Postman.{
  returned_object, return_structure, return_plain, aexpand_return,
}
use rekuest_next.Serialization.Fits.{deliverable, IsLawful}

-- Every drawer of the first shelve holds the same object on the second.
abbrev pub Kept : Shelve → Shelve → Type 0
Kept s t = (k : String) (v : Object) → get s k ≡ some v → get t k ≡ some v

pub Kept-put : (s : Shelve) (k : String) (v : Object) → has s k ≡ false → Kept s (put s k v)
Kept-put s k v fresh j w h = elim (String-cases k j) [
  | inl e ↦ let held = has_of_get s j w h in ground (arith, fresh, held, e)
  | inr e ↦ get-put s k j v ∙ rw e h
]

module _ (rt : Runtime) where
  pub record RoundTrip (p : Port) (v : Object) (s : Shelve) : Type 0 where
    pub json : Object
    pub shelve : Shelve
    pub shrinks : ashrink_return rt p v s ≡ some (json, shelve)
    pub kept : Kept s shelve
    pub expands : (t : Shelve) → Kept shelve t → aexpand_arg rt t p (some json) ≡ some v
    pub returns : deliverable p ≡ true → aexpand_return rt p json ≡ some v

  pub aexpand_return-null :
      (p : Port) → (info_of p).nullable ≡ true → aexpand_return rt p null ≡ some null
  unfolding aexpand_return
  aexpand_return-null (port key PortKind.union info ps) h = rw h refl
  aexpand_return-null (port key PortKind.dict info nil) h = rw h refl
  aexpand_return-null (port key PortKind.dict info (cons c nil)) h = rw h refl
  aexpand_return-null (port key PortKind.dict info (cons c (cons d ps))) h = rw h refl
  aexpand_return-null (port key PortKind.list info nil) h = rw h refl
  aexpand_return-null (port key PortKind.list info (cons c nil)) h = rw h refl
  aexpand_return-null (port key PortKind.list info (cons c (cons d ps))) h = rw h refl
  aexpand_return-null (port key _ info ps) h = rw h refl

  pub named_of :
      (info : PortInfo) (i : String)
      → info.identifier ≡ some i
      → str_eq i "" ≡ false
      → named info ≡ some i
  unfolding named
  named_of info i e z = rw (e, z) refl

  pub aput_on_shelve_of :
      (s : Shelve) (i : String) (v : Object) (k : String)
      → rt.new_drawer s i v ≡ some k
      → aput_on_shelve rt i v s ≡ some (k, put s k v)
  unfolding aput_on_shelve
  aput_on_shelve_of s i v k h = rw (h, aput_on_shelve) refl

  pub shrink_structure_with_of :
      (info : PortInfo) (v : Object) (i : String) (f : FullFilledStructure) (o : Object)
      → get_fullfilled_structure rt.registry i ≡ some f
      → f.ashrink v ≡ some o
      → shrink_structure_with rt info v i ≡ some (reference i o)
  shrink_structure_with_of info v i f o r h = rw (r, h, shrink_structure_with) refl

  pub shrink_structure_of :
      (info : PortInfo) (v : Object) (i : String) (f : FullFilledStructure) (o : Object)
      → named info ≡ some i
      → get_fullfilled_structure rt.registry i ≡ some f
      → f.ashrink v ≡ some o
      → shrink_structure rt info v ≡ some (reference i o)
  unfolding shrink_structure
  shrink_structure_of info v i f o n r h =
      rw (n, shrink_structure) (shrink_structure_with_of info v i f o r h)

  pub enum_by_name_of :
      (e : FullFilledEnum) (s : String) (m : Object)
      → get e.members s ≡ some m
      → enum_by_name rt e s ≡ some m
  enum_by_name_of e s m h = rw (h, enum_by_name) refl

  -- What changes nothing on the shelve.
  pub unchanged :
      {p : Port} {v : Object} (j : Object)
      → ((s : Shelve) → ashrink_return rt p v s ≡ some (j, s))
      → ((t : Shelve) → aexpand_arg rt t p (some j) ≡ some v)
      → (deliverable p ≡ true → aexpand_return rt p j ≡ some v)
      → (s : Shelve) → RoundTrip p v s
  unchanged j f g r s = record {
    json = j;
    shelve = s;
    shrinks = f s;
    kept = λ k v h. h;
    expands = λ t k. g t;
    returns = r;
  }

  pub ashrink_return-null :
      (p : Port) (s : Shelve)
      → (info_of p).nullable ≡ true
      → ashrink_return rt p null s ≡ some (null, s)
  unfolding ashrink_return
  ashrink_return-null (port key PortKind.union info ps) s h = rw h refl
  ashrink_return-null (port key PortKind.dict info nil) s h = rw h refl
  ashrink_return-null (port key PortKind.dict info (cons c nil)) s h = rw h refl
  ashrink_return-null (port key PortKind.dict info (cons c (cons d ps))) s h = rw h refl
  ashrink_return-null (port key PortKind.list info nil) s h = rw h refl
  ashrink_return-null (port key PortKind.list info (cons c nil)) s h = rw h refl
  ashrink_return-null (port key PortKind.list info (cons c (cons d ps))) s h = rw h refl
  ashrink_return-null (port key PortKind.model info nil) s h = rw h refl
  ashrink_return-null (port key PortKind.model info (cons c ps)) s h = rw h refl
  ashrink_return-null (port key _ info ps) s h = rw h refl

  pub aexpand_arg-null :
      (p : Port) (t : Shelve)
      → (info_of p).nullable ≡ true
      → (info_of p).default ≡ null
      → aexpand_arg rt t p (some null) ≡ some null
  unfolding aexpand_arg or_default
  aexpand_arg-null (port key PortKind.union info ps) t h d = rw (d, h) refl
  aexpand_arg-null (port key PortKind.dict info nil) t h d = rw (d, h) refl
  aexpand_arg-null (port key PortKind.dict info (cons c ps)) t h d = rw (d, h) refl
  aexpand_arg-null (port key PortKind.list info nil) t h d = rw (d, h) refl
  aexpand_arg-null (port key PortKind.list info (cons c ps)) t h d = rw (d, h) refl
  aexpand_arg-null (port key PortKind.model info nil) t h d = rw (d, h) refl
  aexpand_arg-null (port key PortKind.model info (cons c ps)) t h d = rw (d, h) refl
  aexpand_arg-null (port key _ info ps) t h d = rw (d, h) refl

  module _ (law : IsLawful rt) where
    pub quantity-RoundTrip :
        {key : String} {info : PortInfo} {ps : Ports} (v : Object) (u : String)
        → is_none v ≡ false
        → rt.kanne_available ≡ true
        → rt.unit_of_quantity v ≡ some u
        → info.reference_unit ≡ some u
        → str_eq u "" ≡ false
        → rt.known_unit u ≡ true
        → (s : Shelve) → RoundTrip (port key PortKind.quantity info ps) v s
    unfolding ashrink_return aexpand_arg aexpand_return return_plain return_structure
        returned_object deliverable or_default shrink_plain expand_plain shrink_quantity
        expand_quantity resolve_quantity_type
    quantity-RoundTrip v u n a q r e k =
        unchanged (text (rt.to_pint_string v)) (λ s. rw (n, a, q) refl)
          (λ t. rw (r, e, a, k) (law.quantities v u q))
          (λ d. rw (r, e, a, k) (law.quantities v u q))

    pub enum-RoundTrip :
        {key : String} {info : PortInfo} {ps : Ports} (i c name : String) (f : FullFilledEnum)
        → info.identifier ≡ some i
        → get_fullfilled_enum rt.registry i ≡ some f
        → get f.members name ≡ some (member c name)
        → (s : Shelve) → RoundTrip (port key PortKind.enum info ps) (member c name) s
    unfolding ashrink_return aexpand_arg aexpand_return return_plain return_structure
        returned_object deliverable or_default shrink_plain expand_plain shrink_enum expand_enum
    enum-RoundTrip i c name f e r m =
        unchanged (text name) (λ s. refl) (λ t. rw (e, r) (enum_by_name_of f name _ m))
          (λ d. ground (arith, d))

    pub structure-RoundTrip :
        {key : String} {info : PortInfo} {ps : Ports} (v : Object) (i o : String)
        (f : FullFilledStructure)
        → is_none v ≡ false
        → info.identifier ≡ some i
        → str_eq i "" ≡ false
        → get_fullfilled_structure rt.registry i ≡ some f
        → f.ashrink v ≡ some (text o)
        → (s : Shelve) → RoundTrip (port key PortKind.structure info ps) v s
    unfolding ashrink_return aexpand_arg aexpand_return return_plain return_structure
        returned_object deliverable or_default shrink_plain expand_plain expand_structure referenced
        get_field
    structure-RoundTrip {info = info} v i o f n e z r h =
        unchanged (reference i (text o))
          (λ s. rw (n, shrink_structure_of info v i f _ (named_of info i e z) r h) refl)
          (λ t. rw (named_of info i e z, e, eq_refl i, r, law.ids o) (law.structures i o f v r h))
          (λ d. rw (named_of info i e z, eq_refl i, r, law.ids o) (law.structures i o f v r h))

    pub memory_structure-RoundTrip :
        {key : String} {info : PortInfo} {ps : Ports} (v : Object) (i : String)
        → is_none v ≡ false
        → info.identifier ≡ some i
        → str_eq i "" ≡ false
        → (s : Shelve) → RoundTrip (port key PortKind.memory_structure info ps) v s
    unfolding ashrink_return aexpand_arg aexpand_return return_plain return_structure
        returned_object deliverable or_default shrink_plain expand_plain shrink_memory_structure
        expand_memory_structure aput_on_shelve referenced get_field
    memory_structure-RoundTrip {info = info} v i n e z s =
        let (k, given, fresh) = law.drawers s i v in
        record {
          json = reference i (text k);
          shelve = put s k v;
          shrinks = rw (n, named_of info i e z, aput_on_shelve_of s i v k given) refl;
          kept = Kept-put s k v fresh;
          expands = λ t kept. rw (e, eq_refl i) (kept k v (get-put s k k v ∙ rw (eq_refl k) refl));
          returns = λ d. ground (arith, d);
        }
