-- ===== src/Blok/Resolution.antt =====
-- Where `validate_blok` of rekuest_next/blok/parser.py looks a path up: in the locals of its place, in the
-- states that the dependencies are asked for, and among the dependencies themselves.
use rekuest_next.Prelude.{
  String, Bool, false, ◌&&◌, ◌||◌, Option, none, some, List, [], ◌∷◌, str_eq, if◌then◌else◌,
  contains,
}
use rekuest_next.Prelude.Dict.{Dict, get, has, keys}
use rekuest_next.Blok.Paths.{split}
use rekuest_next.Blok.Nodes.{
  PortMatch, port_match, PortMatches, no_matches, match_before, StateDependency,
}

pub data Mistake : Type 0 where
  value_error index_error : Mistake

pub data Checked {ℓ} (A : Type ℓ) : Type ℓ where
  ok : A → Checked A
  raises : Mistake → Checked A

infixl 5 ◌>>=◌ ◌>>◌
abbrev pub ◌>>=◌ {ℓ κ} : {A : Type ℓ} {B : Type κ} → Checked A → (A → Checked B) → Checked B
ok a >>= f = f a
raises e >>= f = raises e

abbrev pub ◌>>◌ {κ} : {B : Type κ} → Checked (Unit {0}) → Checked B → Checked B
ok a >> k = k
raises e >> k = raises e

-- What the dependencies of a blok give to its validation. The index has the demands for a state's name.
pub record Scope : Type 0 where
  pub dependency_keys : List String
  pub dependency_aliases : Dict String
  pub dependency_state_demands : Dict (Dict StateDependency)
  pub state_demand_index : Dict (List StateDependency)

-- The locals of a place, with their schema where there is one
abbrev pub Locals : Type 0
Locals = Dict (Option PortMatch)

-- dependency_aliases.get(key, key)
abbrev pub canonical : Scope → String → String
canonical sc key = elim (get sc.dependency_aliases key) [ some k ↦ k | none ↦ key ]

abbrev pub key_is : Option String → String → Bool
key_is none k = false
key_is (some j) k = str_eq j k

-- next((child for child in children if child.key == next_part), None)
unfoldable pub find_match : PortMatches → String → Option PortMatch
find_match no_matches p = none
find_match (match_before (port_match k ms) rest) p =
    if key_is k p then some (port_match k ms) else find_match rest p

-- The only child, where its key is `...`
unfoldable pub wildcard : PortMatches → Option PortMatch
wildcard (match_before (port_match k ms) no_matches) =
    if key_is k "..." then some (port_match k ms) else none
wildcard _ = none

unfoldable pub child_match : PortMatches → String → Option PortMatch
unfolding find_match wildcard
child_match ms p = elim (find_match ms p) [ some m ↦ some m | none ↦ wildcard ms ]

-- The loop of `_resolve_port_match_path`
unfoldable pub follow : PortMatch → List String → Checked (Option PortMatch)
unfolding child_match
follow m [] = ok (some m)
follow (port_match k ms) (p ∷ ps) = elim (child_match ms p) [
  | none ↦ raises value_error
  | some c ↦ follow c ps
]

-- `_resolve_port_match_path`
unfoldable pub resolve_port_match_path : Option PortMatch → List String → Checked (Option PortMatch)
unfolding follow
resolve_port_match_path none [] = ok none
resolve_port_match_path none (p ∷ ps) = raises value_error
resolve_port_match_path (some m) ps = follow m ps

-- `_state_demand_root_match`
abbrev pub state_demand_root_match : StateDependency → PortMatch
state_demand_root_match d = port_match (some d.key) d.matches

abbrev pub or_no_demands : Option (Dict StateDependency) → Dict StateDependency
or_no_demands none = []
or_no_demands (some d) = d

-- `_resolve_dependency_state_path`
unfoldable pub resolve_dependency_state_path :
    Scope → String → List String → Checked (Option PortMatch)
unfolding resolve_port_match_path
resolve_dependency_state_path sc dependency [] = ok none
resolve_dependency_state_path sc dependency (state ∷ rest) =
    elim (get (or_no_demands (get sc.dependency_state_demands dependency)) state) [
      | none ↦ raises value_error
      | some d ↦ resolve_port_match_path (some (state_demand_root_match d)) rest
    ]

-- dependency_keys or set(dependency_state_demands)
abbrev pub keys_or : List String → Scope → List String
keys_or [] sc = keys sc.dependency_state_demands
keys_or (k ∷ ks) sc = k ∷ ks

-- The end of `_resolve_path_match`: actions, dependencies and utilities have no schema.
abbrev pub resolve_other : Scope → List String → String → List String → Checked (Option PortMatch)
resolve_other sc known root rest =
    if str_eq root "actions" && elim rest [ [] ↦ false | p ∷ ps ↦ contains known (canonical sc p) ]
      || contains known (canonical sc root)
      || str_eq root "utils"
    then ok none
    else raises value_error

-- What has a state's name, where no dependency does
abbrev pub resolve_demands :
    List StateDependency → List String → Checked (Option PortMatch) → Checked (Option PortMatch)
resolve_demands [] rest missing = missing
resolve_demands (d ∷ []) rest missing =
    resolve_port_match_path (some (state_demand_root_match d)) rest
resolve_demands (d ∷ e ∷ ds) rest missing = raises value_error

abbrev pub or_nothing : Option (List StateDependency) → List StateDependency
or_nothing none = []
or_nothing (some ds) = ds

-- The branch for `state`. Where nothing follows, `path_parts[1]` raises an `IndexError`.
unfoldable pub resolve_state : Scope → List String → List String → Checked (Option PortMatch)
unfolding resolve_dependency_state_path
resolve_state sc known [] = raises index_error
resolve_state sc known (s ∷ rest) =
    if elim rest [ [] ↦ false | p ∷ ps ↦ has sc.dependency_state_demands (canonical sc s) ]
    then resolve_dependency_state_path sc (canonical sc s) rest
    else resolve_demands (or_nothing (get sc.state_demand_index s)) rest
        (resolve_other sc known "state" (s ∷ rest))

-- `_resolve_path_match` after the split
unfoldable pub resolve_parts :
    Scope → List String → Locals → List String → Checked (Option PortMatch)
unfolding resolve_state
resolve_parts sc known locals [] = raises value_error
resolve_parts sc known locals (root ∷ rest) = elim (get locals root) [
  | some m ↦ resolve_port_match_path m rest
  | none ↦
      if has sc.dependency_state_demands (canonical sc root)
      then resolve_dependency_state_path sc (canonical sc root) rest
      else if str_eq root "state"
      then resolve_state sc known rest
      else resolve_other sc known root rest
]

-- `_resolve_path_match`; `_register_foreach_locals` gives it no dependency keys.
unfoldable pub resolve_path_match :
    Scope → List String → Locals → String → Checked (Option PortMatch)
unfolding resolve_parts
resolve_path_match sc dependency_keys locals path =
    resolve_parts sc (keys_or dependency_keys sc) locals (split path)
