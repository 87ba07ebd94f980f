-- ===== src/Serialization.antt =====
-- rekuest_next/structures/serialization and rekuest_next/structures/quantities.py: what the
-- serializers ask of Python and of kanne, and the tests on a value's class.
pub mod Quantities
pub mod Predication
pub mod Shelving
pub mod Shrinking
pub mod Expanding
pub mod Fits
pub mod Attributes
pub mod Restored
pub mod Gathered
pub mod RoundTrip
pub mod Postman
pub mod Calls
pub mod ActorCalls
pub mod SameCalls
pub mod SameReturns
pub mod Each
pub mod Finished
pub mod Sent
pub mod Received
pub mod Types
pub mod Typed
pub mod Undelivered
pub mod Tests
use rekuest_next.Prelude.{
  zero, suc, ◌+◌, ◌-◌, ◌/◌, String, ap, Bool, true, false, not, ◌||◌, Option, none, some, map,
  str_eq, if◌then◌else◌, all,
}
use rekuest_next.Objects.{
  ◌>>=◌, Object, null, truth, number, real, text, moment, items, mapping, member, opaque, empty,
  item, end, field,
}
use rekuest_next.Ports.{PortInfo}
use rekuest_next.Prelude.Dict.{Dict}
use rekuest_next.Pointer.{ℤ, pos, negsuc}
use rekuest_next.Structures.{StructureRegistry}

-- Python's builtins and the optional package kanne, as the serializers call them.
-- `int_of`, `float_of`, `str_of` and `bool_of` are `int(v)`, `float(v)`, `str(v)` and `bool(v)` where
-- the class of `v` has no clause of its own below. `is_subclass c b` is `issubclass(c, b)` for the class of a
-- member or an opaque object. `parse_date s` is
-- `dt.datetime.fromisoformat(s.replace("Z", "+00:00"))`, `isoformat_of` is `.isoformat()` of what is no
-- datetime, and `validate_id` is `ID.validate`.
pub record Runtime : Type 0 where
  pub int_of : Object → Option ℤ
  pub float_of : Object → Option String
  pub str_of : Object → String
  pub bool_of : Object → Bool
  pub lower : String → String
  pub is_subclass : String → String → Bool
  pub getattr : Object → String → Option Object
  pub isoformat : String → String
  pub isoformat_of : Object → Option Object
  pub parse_date : String → Option String
  pub validate_id : Object → Option String
  pub kanne_available : Bool
  pub unit_of_quantity : Object → Option String
  pub to_pint_string : Object → String
  pub format_short : Object → Option String
  pub known_unit : String → Bool
  pub validate_quantity : String → Object → Option Object
  pub dimensionality : Object → Option String
  pub new_drawer : Dict Object → String → Object → Option String
  pub registry : StructureRegistry

abbrev pub is_bool : Object → Bool
is_bool (truth b) = true
is_bool _ = false

abbrev pub is_datetime : Object → Bool
is_datetime (moment d) = true
is_datetime _ = false

module _ (rt : Runtime) where
  -- isinstance(value, int): a bool is one
  abbrev pub is_int : Object → Bool
  is_int (truth b) = true
  is_int (number n) = true
  is_int (member c n) = rt.is_subclass c "int"
  is_int (opaque c n) = rt.is_subclass c "int"
  is_int _ = false

  abbrev pub is_float : Object → Bool
  is_float (real x) = true
  is_float (member c n) = rt.is_subclass c "float"
  is_float (opaque c n) = rt.is_subclass c "float"
  is_float _ = false

  abbrev pub is_str : Object → Bool
  is_str (text s) = true
  is_str (member c n) = rt.is_subclass c "str"
  is_str (opaque c n) = rt.is_subclass c "str"
  is_str _ = false

  -- isinstance(value, (str, int, float, dict, list))
  abbrev pub is_json : Object → Bool
  is_json (mapping fs) = true
  is_json (items xs) = true
  is_json v = is_str v || is_int v || is_float v

  -- int(value)
  abbrev pub to_int : Object → Option Object
  to_int (number n) = some (number n)
  to_int (truth true) = some (number (pos 1))
  to_int (truth false) = some (number (pos 0))
  to_int v = rt.int_of v >>= λ n. some (number n)

  -- float(value)
  abbrev pub to_float : Object → Option Object
  to_float (real x) = some (real x)
  to_float v = rt.float_of v >>= λ x. some (real x)

  -- str(value)
  abbrev pub to_str : Object → String
  to_str (text s) = s
  to_str v = rt.str_of v

  -- bool(value)
  abbrev pub to_bool : Object → Bool
  to_bool null = false
  to_bool (truth b) = b
  to_bool (number (pos zero)) = false
  to_bool (number n) = true
  to_bool (text s) = if str_eq s "" then false else true
  to_bool (items empty) = false
  to_bool (items (item x xs)) = true
  to_bool (mapping end) = false
  to_bool (mapping (field k x xs)) = true
  to_bool v = rt.bool_of v

-- A port's `identifier` that is there and not empty: the tests are `if not port.identifier`.
unfoldable pub named : PortInfo → Option String
named info = info.identifier >>= λ i. if str_eq i "" then none else some i

-- What follows a test that can raise.
abbrev pub decide {ℓ} : {A : Type ℓ} → Option Bool → (raised held failed : A) → A
decide none raised held failed = raised
decide (some true) raised held failed = held
decide (some false) raised held failed = failed
