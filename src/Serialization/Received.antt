-- ===== src/Serialization/Received.antt =====
-- A whole call: the arguments of the caller (`ashrink_args` of
-- rekuest_next/structures/serialization/postman.py) as the called function gets them (`expand_inputs`
-- of rekuest_next/structures/serialization/actor.py).
use rekuest_next.Prelude.{◌≡◌, refl, true, false, Option, some, arith}
use rekuest_next.Objects.{get_field, Object, Objects, empty, item, Fields, end, set_field}
use rekuest_next.Ports.{key_of, Port, Ports, nil, cons}
use rekuest_next.Serialization.{Runtime}
use rekuest_next.Serialization.Shelving.{Shelve}
use rekuest_next.Serialization.Shrinking.{zip_ports}
use rekuest_next.Serialization.Expanding.{aexpand_arg}
use rekuest_next.Serialization.Calls.{
  expand_each, expand_inputs, next_arg, shrink_args_onto, ashrink_args,
}
use rekuest_next.Serialization.Fits.{distinct_keys, IsLawful}
use rekuest_next.Serialization.Attributes.{Holds}
use rekuest_next.Serialization.Each.{Expands, zip_ports-Holds, FitsEach, none_left, each}
use rekuest_next.Serialization.Sent.{sendable, sendable_all, NoTexts, expand-shrink_arg}

-- The values that a call with these positional and keyword arguments passes to the ports: the positional
-- ones first, in order, then those under the keys of the ports that are left.
pub data Passes (kwargs : Fields) : Ports → Objects → Objects → Type 0 where
  all_passed : {args : Objects} → Passes kwargs nil args empty
  positional :
      {p : Port} {ps : Ports} {args vs : Objects} {v : Object}
      → Passes kwargs ps args vs
      → Passes kwargs (cons p ps) (item v args) (item v vs)
  keyword :
      {p : Port} {ps : Ports} {vs : Objects} {v : Object}
      → get_field kwargs (key_of p) ≡ some v
      → Passes kwargs ps empty vs
      → Passes kwargs (cons p ps) empty (item v vs)

module _ (rt : Runtime) where
  abbrev at_port : Shelve → Port → Object → Option Object
  at_port s p j = aexpand_arg rt s p (some j)

  expand_each-Holds :
      (s : Shelve) (ps : Ports) (js vs : Objects) (d : Fields)
      → Expands (at_port s) ps js vs
      → Holds ps js d
      → expand_each rt s ps d ≡ some vs
  unfolding expand_each
  expand_each-Holds s nil empty empty d e h = refl
  expand_each-Holds s nil empty (item v vs) d e h = absurd e
  expand_each-Holds s nil (item j js) vs d e h = absurd e
  expand_each-Holds s (cons p ps) empty vs d e h = absurd e
  expand_each-Holds s (cons p ps) (item j js) empty d e h = absurd e
  expand_each-Holds s (cons p ps) (item j js) (item v vs) d e h =
      rw (h.0, e.0, expand_each-Holds s ps js vs d e.1 h.1) refl

  next_arg_keyword :
      (p : Port) (kwargs : Fields) (v : Object)
      → get_field kwargs (key_of p) ≡ some v
      → next_arg rt p empty kwargs ≡ some (v, empty)
  unfolding next_arg
  next_arg_keyword p kwargs v w = rw (next_arg, w) refl

  module _ (law : IsLawful rt) (no_texts : NoTexts rt) (kwargs : Fields) (s : Shelve) where
    shrink_args_onto-Expands :
        {ps : Ports} {args vs : Objects}
        → Passes kwargs ps args vs
        → FitsEach rt ps vs
        → sendable_all ps ≡ true
        → (acc : Fields)
        → (js : Objects) × (shrink_args_onto rt ps args kwargs acc ≡ some (zip_ports ps js acc))
          × Expands (at_port s) ps js vs
    unfolding shrink_args_onto next_arg zip_ports sendable
    shrink_args_onto-Expands all_passed none_left d acc = (empty, refl, tt)
    shrink_args_onto-Expands (positional g) (each {p = p} h hs) d acc =
        let (j, e, r) = expand-shrink_arg rt law no_texts h (ground (arith, d)) s in
        let (js, es, rs) =
          shrink_args_onto-Expands g hs (ground (arith, d)) (set_field acc (key_of p) j) in
        (item j js, rw (e, es) refl, (r, rs))
    shrink_args_onto-Expands (keyword w g) (each {p = p} {v = v} h hs) d acc =
        let (j, e, r) = expand-shrink_arg rt law no_texts h (ground (arith, d)) s in
        let (js, es, rs) =
          shrink_args_onto-Expands g hs (ground (arith, d)) (set_field acc (key_of p) j) in
        (item j js, rw (next_arg_keyword p kwargs v w, e, es) refl, (r, rs))

    -- Over every lawful runtime whose structures are no texts, ports with distinct keys and without union,
    -- enum and memory structure ports, and positional and keyword arguments that pass a fitting value to
    -- each port: `ashrink_args` succeeds, and `expand_inputs` of the called actor, whatever is on its
    -- shelve, gives exactly these values under the keys of their ports.
    pub expand_inputs-ashrink_args :
        {ps : Ports} {args vs : Objects}
        → Passes kwargs ps args vs
        → FitsEach rt ps vs
        → sendable_all ps ≡ true
        → distinct_keys ps ≡ true
        → (fs : Fields) × (ashrink_args rt ps args kwargs ≡ some fs)
          × (expand_inputs rt ps fs s false ≡ some (zip_ports ps vs end))
    unfolding expand_inputs
    expand_inputs-ashrink_args {ps = ps} {vs = vs} g h d u =
        let (js, e, r) = shrink_args_onto-Expands g h d end in
        (
          zip_ports ps js end,
          e,
          rw (expand_each-Holds s ps js vs _ r (zip_ports-Holds (at_port s) ps js vs end r u)) refl,
        )
