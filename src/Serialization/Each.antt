-- ===== src/Serialization/Each.antt =====
-- Values through all ports of an action at once, one for each (`zip(ports, values)` in
-- rekuest_next/structures/serialization/actor.py and postman.py).
use rekuest_next.Prelude.{◌≡◌, refl, ◌∙◌, true, Option, some, arith, eq_refl}
use rekuest_next.Objects.{Object, Objects, empty, item, Fields}
use rekuest_next.Ports.{key_of, Port, Ports, nil, cons}
use rekuest_next.Serialization.{Runtime}
use rekuest_next.Serialization.Shrinking.{zip_ports}
use rekuest_next.Serialization.Fits.{distinct_keys, Fits}
use rekuest_next.Serialization.Attributes.{get_field-set_field, get_field-zip_ports, Holds}

-- Every value fits the port at its place, and there are as many.
pub data FitsEach (rt : Runtime) : Ports → Objects → Type 0 where
  none_left : FitsEach rt nil empty
  each :
      {p : Port} {ps : Ports} {v : Object} {vs : Objects}
      → Fits rt p v
      → FitsEach rt ps vs
      → FitsEach rt (cons p ps) (item v vs)

module _ (expand : Port → Object → Option Object) where
  -- The JSON values of the ports, and what their ports make of them.
  abbrev pub Expands : Ports → Objects → Objects → Type 0
  Expands nil empty empty = Unit
  Expands (cons p ps) (item j js) (item v vs) = (expand p j ≡ some v) × Expands ps js vs
  Expands ps js vs = ⊥

  pub zip_ports-Holds :
      (ps : Ports) (js vs : Objects) (fs : Fields)
      → Expands ps js vs
      → distinct_keys ps ≡ true
      → Holds ps js (zip_ports ps js fs)
  unfolding zip_ports distinct_keys
  zip_ports-Holds nil empty empty fs e u = tt
  zip_ports-Holds nil empty (item v vs) fs e u = absurd e
  zip_ports-Holds nil (item j js) vs fs e u = absurd e
  zip_ports-Holds (cons p ps) empty vs fs e u = absurd e
  zip_ports-Holds (cons p ps) (item j js) empty fs e u = absurd e
  zip_ports-Holds (cons p ps) (item j js) (item v vs) fs e u = (
    get_field-zip_ports ps js _ (key_of p) (ground (arith, u))
        ∙ (get_field-set_field fs (key_of p) (key_of p) j ∙ rw (eq_refl (key_of p)) refl),
    zip_ports-Holds ps js vs _ e.1 (ground (arith, u)),
  )
