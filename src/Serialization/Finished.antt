-- ===== src/Serialization/Finished.antt =====
-- A finished call: what a function returns (`shrink_outputs` of
-- rekuest_next/structures/serialization/actor.py) as its caller gets it (`aexpand_returns` of
-- rekuest_next/structures/serialization/postman.py).
use rekuest_next.Prelude.{◌≡◌, refl, true, false, some, arith}
use rekuest_next.Objects.{get_field, Object, Objects, empty, item, Fields, end}
use rekuest_next.Ports.{Port, Ports, nil, cons, key_of}
use rekuest_next.Serialization.{Runtime}
use rekuest_next.Serialization.Shelving.{Shelve}
use rekuest_next.Serialization.Shrinking.{zip_ports}
use rekuest_next.Serialization.Postman.{aexpand_return}
use rekuest_next.Serialization.Calls.{
  shrink_each, same_length, shrink_outputs, return_of, aexpand_returns, tuple,
}
use rekuest_next.Serialization.Fits.{distinct_keys, deliverable_all, IsLawful}
use rekuest_next.Serialization.Attributes.{Holds}
use rekuest_next.Serialization.Each.{Expands, zip_ports-Holds, FitsEach, none_left, each}
use rekuest_next.Serialization.RoundTrip.{return-shrink}

module _ (rt : Runtime) where
  FitsEach-same_length :
      {ps : Ports} {vs : Objects} → FitsEach rt ps vs → same_length rt ps vs ≡ true
  FitsEach-same_length none_left = refl
  FitsEach-same_length (each h hs) = FitsEach-same_length hs

  shrink_each-Expands :
      {ps : Ports} {vs : Objects}
      → IsLawful rt
      → FitsEach rt ps vs
      → deliverable_all ps ≡ true
      → (s : Shelve)
      → (js : Objects) × (t : Shelve) × (shrink_each rt ps vs s ≡ some (js, t))
        × Expands (aexpand_return rt) ps js vs
  unfolding shrink_each deliverable_all
  shrink_each-Expands law none_left d s = (empty, s, refl, tt)
  shrink_each-Expands law (each h hs) d s =
      let (j, t, e, r) = return-shrink rt law h (ground (arith, d)) s in
      let (js, u, es, rs) = shrink_each-Expands law hs (ground (arith, d)) t in
      (item j js, u, rw (e, es) refl, (r, rs))

  return_of_present :
      (p : Port) (d : Fields) (j v : Object)
      → get_field d (key_of p) ≡ some j
      → aexpand_return rt p j ≡ some v
      → return_of rt p d ≡ some (v, d)
  unfolding return_of
  return_of_present p d j v h e = rw (h, return_of, e) refl

  aexpand_returns-Holds :
      (ps : Ports) (js vs : Objects) (d : Fields)
      → Expands (aexpand_return rt) ps js vs
      → Holds ps js d
      → aexpand_returns rt ps d ≡ some (vs, d)
  unfolding aexpand_returns
  aexpand_returns-Holds nil empty empty d e h = refl
  aexpand_returns-Holds nil empty (item v vs) d e h = absurd e
  aexpand_returns-Holds nil (item j js) vs d e h = absurd e
  aexpand_returns-Holds (cons p ps) empty vs d e h = absurd e
  aexpand_returns-Holds (cons p ps) (item j js) empty d e h = absurd e
  aexpand_returns-Holds (cons p ps) (item j js) (item v vs) d e h =
      rw (return_of_present p d j v h.0 e.0, aexpand_returns-Holds ps js vs d e.1 h.1) refl

  -- Over every lawful runtime, ports with distinct keys and without enum, model and memory structure
  -- ports, and values that fit them: `shrink_outputs` of the tuple succeeds, and the caller's
  -- `aexpand_returns` gives the tuple back and leaves `returns` as it was.
  pub aexpand_returns-shrink_outputs :
      {ps : Ports} {vs : Objects}
      → IsLawful rt
      → FitsEach rt ps vs
      → deliverable_all ps ≡ true
      → distinct_keys ps ≡ true
      → (s : Shelve)
      → (fs : Fields) × (t : Shelve) × (shrink_outputs rt ps (tuple vs) false s ≡ some (fs, t))
        × (aexpand_returns rt ps fs ≡ some (vs, fs))
  unfolding shrink_outputs
  aexpand_returns-shrink_outputs {ps = ps} {vs = vs} law h d u s =
      let (js, t, e, r) = shrink_each-Expands law h d s in
      (
        zip_ports ps js end,
        t,
        rw (FitsEach-same_length h, e) refl,
        aexpand_returns-Holds ps js vs _ r (zip_ports-Holds (aexpand_return rt) ps js vs end r u),
      )
