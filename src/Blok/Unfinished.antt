-- ===== src/Blok/Unfinished.antt =====
-- A reference to `state` and no more (`validate_blok` of rekuest_next/blok/parser.py).
use rekuest_next.Prelude.{String, ◌≡◌, refl, false, none, some, List, [], ◌∷◌, str_eq}
use rekuest_next.Prelude.Dict.{get, has}
use rekuest_next.Blok.Paths.{split}
use rekuest_next.Blok.Nodes.{plain_prop, node, Components, Prop, AgentDependency}
use rekuest_next.Blok.Resolution.{
  Locals, canonical, resolve_state, resolve_parts, resolve_path_match, index_error, raises, Scope,
}
use rekuest_next.Blok.Validation.{
  validate_path, validate_prop, declare_each, node_locals, validate_node, scope_of, validate_blok,
}

split-state : split "state" ≡ "state" ∷ []
unfolding split
split-state = refl

resolve-state :
    (sc : Scope) (known : List String) (locals : Locals)
    → get locals "state" ≡ none
    → has sc.dependency_state_demands (canonical sc "state") ≡ false
    → resolve_path_match sc known locals "state" ≡ raises index_error
unfolding resolve_path_match resolve_parts resolve_state
resolve-state sc known locals g h = rw (split-state, resolve_parts, g, h) refl

-- The first prop of a node is bound to `state` alone, which parses, and no local and no dependency has that
-- name: the validation of the blok ends in an `IndexError`, whatever else is in the blok.
pub validate_blok-state :
    (lower : String → String) (id component key : String) (props : List Prop)
    (children : Components) (dependencies : List AgentDependency)
    → str_eq (lower component) "foreach" ≡ false
    → get (declare_each props []) "state" ≡ none
    → has
        (scope_of dependencies).dependency_state_demands
        (canonical (scope_of dependencies) "state")
      ≡ false
    → validate_blok lower
        (node id component
          (record (plain_prop key) { dynamic_path = some "state" } ∷ props)
          children)
        dependencies
      ≡ raises index_error
unfolding validate_blok validate_node validate_prop validate_path node_locals declare_each
validate_blok-state lower id component key props children dependencies f g h =
    rw
      (
        f,
        resolve-state (scope_of dependencies) (scope_of dependencies).dependency_keys
            (declare_each props []) g h,
      )
      refl
