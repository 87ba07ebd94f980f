-- ===== src/Serialization/RoundTrip.antt =====
-- What an actor returns and gets back as an argument: `aexpand_arg` after `ashrink_return` of
-- rekuest_next/structures/serialization/actor.py.
use rekuest_next.Prelude.{◌≡◌, refl, ◌∙◌, true, false, some, arith}
use rekuest_next.Objects.{
  get_field, set_field, gather_pure, gather_fields_pure, Object, null, truth, number, real, text,
  moment, items, mapping, Objects, empty, item, Fields, end, field,
}
use rekuest_next.Ports.{PortKind, Port, port, Ports, cons}
use rekuest_next.Serialization.{Runtime}
use rekuest_next.Serialization.Shelving.{Shelve, gather, gather_fields}
use rekuest_next.Serialization.Shrinking.{
  tagged, zip_ports, shrink_int, shrink_float, shrink_date, shrink_bool, shrink_string,
  shrink_plain, shrink_dict, shrink_list, shrink_model, ashrink_return, shrink_attributes,
}
use rekuest_next.Serialization.Expanding.{
  or_default, expand_dict, expand_list, use_index, union_choice, expand_model, expand_int,
  expand_float, expand_date, expand_plain, aexpand_arg, expand_attributes,
}
use rekuest_next.Serialization.Postman.{
  arg_dict, arg_list, return_int, return_float, return_date, return_plain, aexpand_return,
}
use rekuest_next.Serialization.Fits.{
  deliverable, Fits, fits_none, fits_int, fits_float, fits_bool, fits_string, fits_date,
  fits_quantity, fits_enum, fits_structure, fits_memory_structure, fits_list, fits_dict, fits_union,
  fits_model, FitsAll, fits_empty, fits_item, FitsFields, fits_end, fits_field, FitsAttributes,
  fits_nil, fits_cons, IsLawful,
}
use rekuest_next.Serialization.Attributes.{holds_cons}
use rekuest_next.Serialization.Restored.{
  aexpand_return-null, named_of, unchanged, ashrink_return-null, aexpand_arg-null,
  quantity-RoundTrip, enum-RoundTrip, structure-RoundTrip, memory_structure-RoundTrip, RoundTrip,
}
use rekuest_next.Serialization.Gathered.{
  shrink_union-Chosen, return_child-Chosen, deliverable-Chosen, expand_child-Chosen, RoundTripAll,
  RoundTripFields, RoundTripAttributes,
}

module _ (rt : Runtime) where
  module _ (law : IsLawful rt) where
    mutual
      unfolding ashrink_return aexpand_arg or_default shrink_plain expand_plain gather gather_pure
          gather_fields gather_fields_pure shrink_dict expand_dict shrink_list expand_list
          shrink_model expand_model shrink_attributes expand_attributes union_choice get_field
          shrink_int expand_int shrink_float expand_float shrink_bool shrink_string shrink_date
          expand_date use_index aexpand_return return_plain return_int return_float return_date
          arg_dict arg_list deliverable

      roundtrip : {p : Port} {v : Object} → Fits rt p v → (s : Shelve) → RoundTrip rt p v s
      roundtrip (fits_none {key = key} {kind = kind} {info = info} {ps = ps} n d) s =
          unchanged rt {p = port key kind info ps} null
            (λ s. ashrink_return-null rt (port key kind info ps) s n)
            (λ t. aexpand_arg-null rt (port key kind info ps) t n d)
            (λ h. aexpand_return-null rt (port key kind info ps) n) s
      roundtrip (fits_int {key = key} {info = info} {ps = ps} n) s =
          unchanged rt {p = port key PortKind.int info ps} {v = number n} (number n) (λ s. refl)
            (λ t. refl) (λ d. refl) s
      roundtrip (fits_float {key = key} {info = info} {ps = ps} x) s =
          unchanged rt {p = port key PortKind.float info ps} {v = real x} (real x) (λ s. refl)
            (λ t. refl) (λ d. refl) s
      roundtrip (fits_bool {key = key} {info = info} {ps = ps} true) s =
          unchanged rt {p = port key PortKind.bool info ps} {v = truth true} (truth true)
            (λ s. refl) (λ t. refl) (λ d. refl) s
      roundtrip (fits_bool {key = key} {info = info} {ps = ps} false) s =
          unchanged rt {p = port key PortKind.bool info ps} {v = truth false} (truth false)
            (λ s. refl) (λ t. refl) (λ d. refl) s
      roundtrip (fits_string {key = key} {info = info} {ps = ps} x) s =
          unchanged rt {p = port key PortKind.string info ps} {v = text x} (text x) (λ s. refl)
            (λ t. refl) (λ d. refl) s
      roundtrip (fits_date {key = key} {info = info} {ps = ps} d) s =
          unchanged rt {p = port key PortKind.date info ps} {v = moment d} (text (rt.isoformat d))
            (λ s. refl) (λ t. rw (law.dates d) refl) (λ h. rw (law.dates d) refl) s
      roundtrip (fits_quantity n a q r e k) s = quantity-RoundTrip rt law _ _ n a q r e k s
      roundtrip (fits_enum i e m) s = enum-RoundTrip rt law _ _ _ _ i e m s
      roundtrip (fits_structure n i e f h) s = structure-RoundTrip rt law _ _ _ _ n i e f h s
      roundtrip (fits_memory_structure n i e) s = memory_structure-RoundTrip rt law _ _ n i e s
      roundtrip (fits_list h) s =
          let r = roundtrip_all h s in
          record {
            json = items r.jsons;
            shelve = r.shelve;
            shrinks = rw r.shrinks refl;
            kept = r.kept;
            expands = λ t k. rw (r.expands t k) refl;
            returns = λ d. rw (r.returns (ground (arith, d))) refl;
          }
      roundtrip (fits_dict h) s =
          let r = roundtrip_fields h s in
          record {
            json = mapping r.jsons;
            shelve = r.shelve;
            shrinks = rw r.shrinks refl;
            kept = r.kept;
            expands = λ t k. rw (r.expands t k) refl;
            returns = λ d. rw (r.returns (ground (arith, d))) refl;
          }
      roundtrip (fits_union {v = v} {i = i} n c h) s =
          let r = roundtrip h s in
          record {
            json = tagged i r.json;
            shelve = r.shelve;
            shrinks = rw (n, shrink_union-Chosen rt c 0 i s (omega arith), r.shrinks) refl;
            kept = r.kept;
            expands = λ t k. expand_child-Chosen rt c t r.json ∙ r.expands t k;
            returns = λ d.
                return_child-Chosen rt c r.json
                ∙ r.returns (deliverable-Chosen rt c (ground (arith, d)));
          }
      roundtrip (fits_model {info = info} {c = c} {cs = cs} {i = i} n e z r u w h b) s =
          let a = roundtrip_attributes h s in
          record {
            json = mapping (set_field (zip_ports (cons c cs) a.jsons end) "__identifier" (text i));
            shelve = a.shelve;
            shrinks = rw (n, named_of rt info i e z, a.shrinks) refl;
            kept = a.kept;
            expands =
                λ t k. rw (a.expands t _ k (a.holds end (text i) u w), named_of rt info i e z, r) b;
            returns = λ d. ground (arith, d);
          }

      roundtrip_all :
          {c : Port} {xs : Objects} → FitsAll rt c xs → (s : Shelve) → RoundTripAll rt c xs s
      roundtrip_all fits_empty s = record {
        jsons = empty;
        shelve = s;
        shrinks = refl;
        kept = λ k v h. h;
        expands = λ t k. refl;
        returns = λ d. refl;
      }
      roundtrip_all (fits_item h hs) s =
          let x = roundtrip h s in
          let xs = roundtrip_all hs x.shelve in
          record {
            jsons = item x.json xs.jsons;
            shelve = xs.shelve;
            shrinks = rw (x.shrinks, xs.shrinks) refl;
            kept = λ k v g. xs.kept k v (x.kept k v g);
            expands = λ t k. rw (x.expands t (λ j v g. k j v (xs.kept j v g)), xs.expands t k) refl;
            returns = λ d. rw (x.returns d, xs.returns d) refl;
          }

      roundtrip_fields :
          {c : Port} {fs : Fields} → FitsFields rt c fs → (s : Shelve) → RoundTripFields rt c fs s
      roundtrip_fields fits_end s = record {
        jsons = end;
        shelve = s;
        shrinks = refl;
        kept = λ k v h. h;
        expands = λ t k. refl;
        returns = λ d. refl;
      }
      roundtrip_fields (fits_field {k = key} h hs) s =
          let x = roundtrip h s in
          let xs = roundtrip_fields hs x.shelve in
          record {
            jsons = field key x.json xs.jsons;
            shelve = xs.shelve;
            shrinks = rw (x.shrinks, xs.shrinks) refl;
            kept = λ k v g. xs.kept k v (x.kept k v g);
            expands = λ t k. rw (x.expands t (λ j v g. k j v (xs.kept j v g)), xs.expands t k) refl;
            returns = λ d. rw (x.returns d, xs.returns d) refl;
          }

      roundtrip_attributes :
          {ps : Ports} {v : Object} {vs : Objects}
          → FitsAttributes rt ps v vs
          → (s : Shelve) → RoundTripAttributes rt ps v vs s
      roundtrip_attributes fits_nil s = record {
        jsons = empty;
        shelve = s;
        shrinks = refl;
        kept = λ k v h. h;
        holds = λ fs i u w. tt;
        expands = λ t d k h. refl;
      }
      roundtrip_attributes (fits_cons {p = p} {ps = ps} a h hs) s =
          let x = roundtrip h s in
          let xs = roundtrip_attributes hs x.shelve in
          record {
            jsons = item x.json xs.jsons;
            shelve = xs.shelve;
            shrinks = rw (a, x.shrinks, xs.shrinks) refl;
            kept = λ k v g. xs.kept k v (x.kept k v g);
            holds = holds_cons p ps x.json xs.jsons xs.holds;
            expands = λ t d k g.
                rw (g.0, x.expands t (λ j v g. k j v (xs.kept j v g)), xs.expands t d k g.1) refl;
          }

  -- Over every lawful runtime, port and value that fits it, and from every shelve: `ashrink_return`
  -- succeeds, and on the shelve it leaves `aexpand_arg` through the same port gives the value back,
  -- whatever the nesting: the actor that gets its own result as an argument computes with the same
  -- value.
  pub expand-shrink :
      {p : Port} {v : Object}
      → IsLawful rt
      → Fits rt p v
      → (s : Shelve)
      → (j : Object) × (t : Shelve) × (ashrink_return rt p v s ≡ some (j, t))
        × (aexpand_arg rt t p (some j) ≡ some v)
  expand-shrink law h s =
      let r = roundtrip law h s in (r.json, r.shelve, r.shrinks, r.expands r.shelve (λ k v g. g))

  -- Over every lawful runtime, port without enum, model and memory structure ports, and value that
  -- fits it: what `ashrink_return` sends is expanded by the caller's `aexpand_return` to the same
  -- value.
  pub return-shrink :
      {p : Port} {v : Object}
      → IsLawful rt
      → Fits rt p v
      → deliverable p ≡ true
      → (s : Shelve)
      → (j : Object) × (t : Shelve) × (ashrink_return rt p v s ≡ some (j, t))
        × (aexpand_return rt p j ≡ some v)
  return-shrink law h d s = let r = roundtrip law h s in (r.json, r.shelve, r.shrinks, r.returns d)
