-- ===== src/Serialization/Quantities.antt =====
-- rekuest_next/structures/quantities.py: quantities of kanne on the wire. kanne is an optional
-- package: its types and its registry of units are the parameters of `Runtime`.
use rekuest_next.Prelude.{
  String, Bool, true, false, not, ◌&&◌, ◌||◌, Option, none, some, str_eq, if◌then◌else◌,
}
use rekuest_next.Objects.{◌>>=◌, Object}
use rekuest_next.Serialization.{is_str, to_str, Runtime}

module _ (rt : Runtime) where
  -- isinstance(value, PintQuantity), by the reference unit that its class declares
  abbrev pub is_quantity : Object → Bool
  is_quantity v = elim (rt.unit_of_quantity v) [ none ↦ false | some u ↦ true ]

  -- the formatted text, or `str(value)` where there is no such format
  abbrev short_or_str : Object → Option String → String
  short_or_str v none = to_str rt v
  short_or_str v (some s) = s

  unfoldable pub shrink_quantity : Object → String
  shrink_quantity v =
      if rt.kanne_available && is_quantity v
      then rt.to_pint_string v
      else if is_str rt v
      then to_str rt v
      else short_or_str v (rt.format_short v)

  -- The kanne type of a reference unit, by that unit. The table of the source caches the search.
  unfoldable pub resolve_quantity_type : Option String → Option String
  resolve_quantity_type none = none
  resolve_quantity_type (some u) =
      if str_eq u "" || not rt.kanne_available
      then none
      else if rt.known_unit u
      then some u
      else none

  unfoldable pub expand_quantity : Object → Option String → Option Object
  unfolding resolve_quantity_type
  expand_quantity v unit = do u ← resolve_quantity_type unit; rt.validate_quantity u v

  unfoldable pub matches_dimension : Object → Option String → Bool
  matches_dimension v none = false
  matches_dimension v (some d) =
      if not rt.kanne_available
      then false
      else elim (rt.dimensionality v) [ none ↦ false | some e ↦ str_eq e d ]
