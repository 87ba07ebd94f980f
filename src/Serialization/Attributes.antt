-- ===== src/Serialization/Attributes.antt =====
-- The dictionary that a model shrinks to, read back under the keys of its ports (`ashrink_return` and
-- `aexpand_arg` of rekuest_next/structures/serialization/actor.py).
use rekuest_next.Prelude.{
  String, ◌≡◌, refl, ◌∙◌, true, false, some, arith, str_eq, eq_iff, eq_refl, if◌then◌else◌,
}
use rekuest_next.Objects.{get_field, set_field, Object, Objects, empty, item, Fields, end, field}
use rekuest_next.Ports.{key_of, Port, Ports, nil, cons}
use rekuest_next.Serialization.Shrinking.{zip_ports}
use rekuest_next.Serialization.Fits.{has_port, distinct_keys}

pub get_field-set_field :
    (fs : Fields) (k j : String) (v : Object)
    → get_field (set_field fs k v) j ≡ (if str_eq k j then some v else get_field fs j)
unfolding get_field set_field
get_field-set_field end k j v = refl
get_field-set_field (field i w fs) k j v =
    ground (arith, eq_iff k j, eq_iff i k, eq_iff i j, get_field-set_field fs k j v)

pub get_field-zip_ports :
    (ps : Ports) (js : Objects) (fs : Fields) (k : String)
    → has_port ps k ≡ false
    → get_field (zip_ports ps js fs) k ≡ get_field fs k
unfolding zip_ports has_port
get_field-zip_ports nil js fs k h = refl
get_field-zip_ports (cons p ps) empty fs k h = refl
get_field-zip_ports (cons p ps) (item j js) fs k h =
    let e : str_eq (key_of p) k ≡ false = ground (arith, h) in
    get_field-zip_ports ps js _ k (ground (arith, h))
    ∙ (get_field-set_field fs (key_of p) k j ∙ rw e refl)

pub str_eq_sym : (a b : String) → str_eq a b ≡ false → str_eq b a ≡ false
str_eq_sym a b h = ground (arith, eq_iff a b, eq_iff b a)

-- A dictionary holds a value under the key of each port.
abbrev pub Holds : Ports → Objects → Fields → Type 0
Holds nil empty d = Unit
Holds (cons p ps) (item j js) d = (get_field d (key_of p) ≡ some j) × Holds ps js d
Holds ps js d = ⊥

abbrev pub HoldsZipped : Ports → Objects → Type 0
HoldsZipped ps js =
    (fs : Fields) (i : Object)
    → distinct_keys ps ≡ true
    → has_port ps "__identifier" ≡ false
    → Holds ps js (set_field (zip_ports ps js fs) "__identifier" i)

pub holds_cons :
    (p : Port) (ps : Ports) (j : Object) (js : Objects)
    → HoldsZipped ps js
    → HoldsZipped (cons p ps) (item j js)
unfolding zip_ports has_port distinct_keys
holds_cons p ps j js rest fs i u w =
    let other : has_port ps (key_of p) ≡ false = ground (arith, u) in
    let named : str_eq "__identifier" (key_of p) ≡ false =
      str_eq_sym (key_of p) "__identifier" (ground (arith, w)) in
    (
      get_field-set_field _ "__identifier" (key_of p) i
          ∙ rw named (
              get_field-zip_ports ps js _ (key_of p) other
              ∙ (get_field-set_field fs (key_of p) (key_of p) j ∙ rw (eq_refl (key_of p)) refl)),
      rest _ i (ground (arith, u)) (ground (arith, w)),
    )
