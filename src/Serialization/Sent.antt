-- ===== src/Serialization/Sent.antt =====
-- A call: what the caller passes (`ashrink_arg` of
-- rekuest_next/structures/serialization/postman.py) as the actor gets it (`aexpand_arg` of
-- rekuest_next/structures/serialization/actor.py).
use rekuest_next.Prelude.{
  String, ◌≡◌, refl, sym, ap, ◌∙◌, Bool, true, false, ◌&&◌, Option, none, some, arith,
}
use rekuest_next.Objects.{
  ◌>>=◌, gather_pure, gather_fields_pure, Object, Objects, Fields, null, text, items, mapping, item,
  field,
}
use rekuest_next.Ports.{info_of, PortKind, Port, port, Ports, nil, cons, PortInfo}
use rekuest_next.Structures.{get_fullfilled_structure, FullFilledStructure}
use rekuest_next.Serialization.{is_str, named, Runtime}
use rekuest_next.Serialization.Shelving.{
  Shelve, Shelving, pass, lift, resume, gather, gather_fields,
}
use rekuest_next.Serialization.Shrinking.{
  reference, shrink_int, shrink_float, shrink_date, shrink_bool, shrink_string, shrink_plain,
  shrink_dict, shrink_list, shrink_model, ashrink_return, shrink_attributes,
}
use rekuest_next.Serialization.Expanding.{aexpand_arg}
use rekuest_next.Serialization.Postman.{
  arg_date, shrink_with, arg_structure, arg_plain, arg_dict, arg_list, arg_model, ashrink_arg,
  arg_attributes,
}
use rekuest_next.Serialization.Fits.{
  Fits, fits_none, fits_int, fits_float, fits_bool, fits_string, fits_date, fits_quantity,
  fits_enum, fits_structure, fits_memory_structure, fits_list, fits_dict, fits_union, fits_model,
  FitsAll, fits_empty, fits_item, FitsFields, fits_end, fits_field, FitsAttributes, fits_nil,
  fits_cons, IsLawful,
}
use rekuest_next.Serialization.Restored.{ashrink_return-null, named_of, shrink_structure_of}
use rekuest_next.Serialization.RoundTrip.{expand-shrink}

-- The kinds that both shrinkers treat alike: no union, no enum, no memory structure.
abbrev pub sendable_kind : PortKind → Bool
sendable_kind PortKind.union = false
sendable_kind PortKind.enum = false
sendable_kind PortKind.memory_structure = false
sendable_kind PortKind.interface = false
sendable_kind kind = true

unfoldable mutual
  pub sendable : Port → Bool
  sendable (port key kind info ps) = sendable_kind kind && sendable_all ps

  pub sendable_all : Ports → Bool
  sendable_all nil = true
  sendable_all (cons p ps) = sendable p && sendable_all ps

-- What a structure can shrink is no text.
abbrev pub NoTexts : Runtime → Type 0
NoTexts rt =
    (i : String) (f : FullFilledStructure) (v : Object) (o : Object)
    → get_fullfilled_structure rt.registry i ≡ some f
    → f.ashrink v ≡ some o
    → is_str rt v ≡ false

lift_one :
    {A B : Type 0} (o : Option A) (g : A → B) (s : Shelve)
    → resume (lift o s) (λ a. pass (g a)) ≡ lift (o >>= λ a. some (g a)) s
lift_one none g s = refl
lift_one (some a) g s = refl

module _ {A B C : Type 0} where
  lift_two :
      (o : Option A) (m : Shelving B) (q : Option B) (g : A → B → C) (s : Shelve)
      → m s ≡ lift q s
      → resume (lift o s) (λ a t. resume (m t) (λ b. pass (g a b)))
        ≡ lift (o >>= λ a. q >>= λ b. some (g a b)) s
  lift_two none m q g s h = refl
  lift_two (some a) m none g s h = rw h refl
  lift_two (some a) m (some b) g s h = rw h refl

module _ (rt : Runtime) where
  ashrink_arg-null : (p : Port) → (info_of p).nullable ≡ true → ashrink_arg rt p null ≡ some null
  unfolding ashrink_arg
  ashrink_arg-null (port key PortKind.union info ps) h = rw h refl
  ashrink_arg-null (port key PortKind.dict info nil) h = rw h refl
  ashrink_arg-null (port key PortKind.dict info (cons c nil)) h = rw h refl
  ashrink_arg-null (port key PortKind.dict info (cons c (cons d ps))) h = rw h refl
  ashrink_arg-null (port key PortKind.list info nil) h = rw h refl
  ashrink_arg-null (port key PortKind.list info (cons c nil)) h = rw h refl
  ashrink_arg-null (port key PortKind.list info (cons c (cons d ps))) h = rw h refl
  ashrink_arg-null (port key PortKind.model info nil) h = rw h refl
  ashrink_arg-null (port key PortKind.model info (cons c ps)) h = rw h refl
  ashrink_arg-null (port key _ info ps) h = rw h refl

  arg_structure_of :
      (info : PortInfo) (v : Object) (i o : String) (f : FullFilledStructure)
      → named info ≡ some i
      → is_str rt v ≡ false
      → get_fullfilled_structure rt.registry i ≡ some f
      → f.ashrink v ≡ some (text o)
      → arg_structure rt info v ≡ some (reference i (text o))
  unfolding arg_structure
  arg_structure_of info v i o f n e r h = rw (n, arg_structure, e, shrink_with, r, h) refl

  model_same :
      (info : PortInfo) (ps : Ports) (i : String) (m : Shelving Objects) (q : Option Objects)
      (s : Shelve)
      → named info ≡ some i
      → m s ≡ lift q s
      → shrink_model rt info ps m s ≡ lift (arg_model rt info ps q) s
  unfolding shrink_model arg_model
  model_same info ps i m none s n h = rw (n, shrink_model, arg_model, h) refl
  model_same info ps i m (some vs) s n h = rw (n, shrink_model, arg_model, h) refl

  module _ (no_texts : NoTexts rt) where
    mutual
      unfolding ashrink_return ashrink_arg gather gather_pure gather_fields gather_fields_pure
          shrink_plain arg_plain shrink_list arg_list shrink_dict arg_dict shrink_int shrink_float
          shrink_bool shrink_string shrink_date arg_date sendable shrink_attributes arg_attributes

      same :
          {p : Port} {v : Object}
          → Fits rt p v
          → sendable p ≡ true
          → (s : Shelve) → ashrink_return rt p v s ≡ lift (ashrink_arg rt p v) s
      same (fits_none {key = key} {kind = kind} {info = info} {ps = ps} n e) d s =
          ashrink_return-null rt (port key kind info ps) s n
          ∙ sym (ap (λ o. lift o s) (ashrink_arg-null (port key kind info ps) n))
      same (fits_int n) d s = refl
      same (fits_float x) d s = refl
      same (fits_bool true) d s = refl
      same (fits_bool false) d s = refl
      same (fits_string x) d s = refl
      same (fits_date x) d s = refl
      same (fits_quantity n a q r e k) d s = rw n refl
      same (fits_enum i e m) d s = ground (arith, d)
      same (fits_memory_structure n i e) d s = ground (arith, d)
      same (fits_union n c h) d s = ground (arith, d)
      same (fits_structure {info = info} {v = v} {i = i} {s = o} {f = f} n e z r h) d s =
          rw
            (
              n,
              shrink_structure_of rt info v i f (text o) (named_of rt info i e z) r h,
              arg_structure_of info v i o f (named_of rt info i e z) (no_texts i f v (text o) r h) r
                  h,
            )
            refl
      same (fits_list {c = c} {xs = xs} h) d s =
          rw (same_all h (ground (arith, d)) s)
            (lift_one (gather_pure (ashrink_arg rt c) xs) items s)
      same (fits_dict {c = c} {fs = fs} h) d s =
          rw (same_fields h (ground (arith, d)) s)
            (lift_one (gather_fields_pure (ashrink_arg rt c) fs) mapping s)
      same (fits_model {info = info} {c = c} {cs = cs} {v = v} {i = i} n e z r u w h b) d s = rw n (
          model_same info (cons c cs) i (shrink_attributes rt (cons c cs) v)
            (arg_attributes rt (cons c cs) v) s (named_of rt info i e z)
            (same_attributes h (ground (arith, d)) s))

      same_all :
          {c : Port} {xs : Objects}
          → FitsAll rt c xs
          → sendable c ≡ true
          → (s : Shelve)
          → gather (ashrink_return rt c) xs s ≡ lift (gather_pure (ashrink_arg rt c) xs) s
      same_all fits_empty d s = refl
      same_all (fits_item {c = c} {x = x} {xs = xs} h hs) d s = rw (same h d s) (
          lift_two (ashrink_arg rt c x) (gather (ashrink_return rt c) xs)
            (gather_pure (ashrink_arg rt c) xs) item s (same_all hs d s))

      same_fields :
          {c : Port} {fs : Fields}
          → FitsFields rt c fs
          → sendable c ≡ true
          → (s : Shelve)
          → gather_fields (ashrink_return rt c) fs s
            ≡ lift (gather_fields_pure (ashrink_arg rt c) fs) s
      same_fields fits_end d s = refl
      same_fields (fits_field {c = c} {k = k} {x = x} {fs = fs} h hs) d s = rw (same h d s) (
          lift_two (ashrink_arg rt c x) (gather_fields (ashrink_return rt c) fs)
            (gather_fields_pure (ashrink_arg rt c) fs) (field k) s (same_fields hs d s))

      same_attributes :
          {ps : Ports} {v : Object} {vs : Objects}
          → FitsAttributes rt ps v vs
          → sendable_all ps ≡ true
          → (s : Shelve) → shrink_attributes rt ps v s ≡ lift (arg_attributes rt ps v) s
      same_attributes fits_nil d s = refl
      same_attributes (fits_cons {p = p} {ps = ps} {v = v} {a = a} e h hs) d s =
          rw (e, same h (ground (arith, d)) s)
            (lift_two (ashrink_arg rt p a) (shrink_attributes rt ps v) (arg_attributes rt ps v) item
              s (same_attributes hs (ground (arith, d)) s))

  lifted :
      (o : Option Object) (s t : Shelve) (j : Object)
      → lift o s ≡ some (j, t)
      → (o ≡ some j) × (t ≡ s)
  lifted none s t j h = absurd (ground (arith, h))
  lifted (some a) s t j h = (ground (arith, h), ground (arith, h))

  -- Over every lawful runtime whose structures are no texts, every port without union, enum and memory
  -- structure ports, and every value that fits it: `ashrink_arg` succeeds, and the actor that is called,
  -- whatever is on its shelve, expands what was sent to the same value.
  pub expand-shrink_arg :
      {p : Port} {v : Object}
      → IsLawful rt
      → NoTexts rt
      → Fits rt p v
      → sendable p ≡ true
      → (s : Shelve)
      → (j : Object) × (ashrink_arg rt p v ≡ some j) × (aexpand_arg rt s p (some j) ≡ some v)
  expand-shrink_arg {p = p} {v = v} law no_texts h d s =
      let (j, t, sent, got) = expand-shrink rt law h s in
      let (passed, kept) = lifted (ashrink_arg rt p v) s t j (sym (same no_texts h d s) ∙ sent) in
      (j, passed, rw kept at got)
