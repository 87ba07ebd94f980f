-- ===== src/Blok/Validation.antt =====
-- `validate_blok` of rekuest_next/blok/parser.py: the walk through the nodes of a blok, with the locals that
-- they declare.
use rekuest_next.Prelude.{
  String, ◌&&◌, Option, none, some, List, [], ◌∷◌, ◌++◌, map, str_eq, if◌then◌else◌, contains,
}
use rekuest_next.Prelude.Dict.{Dict, get, has, put, is_some}
use rekuest_next.Blok.Nodes.{
  AgentCall, no_agent_call, agent_call, UtilCall, no_util_call, util_call, Argument, argument,
  Arguments, no_arguments, also, Component, node, Components, no_nodes, before, PortMatch,
  port_match, Prop, StateDependency, AgentDependency,
}
use rekuest_next.Blok.Resolution.{
  ◌>>=◌, ◌>>◌, Locals, canonical, wildcard, or_nothing, resolve_path_match, value_error, Checked,
  ok, raises, Scope,
}

-- `_validate_path` of an optional path
unfoldable pub validate_path : Scope → Locals → Option String → Checked (Unit {0})
unfolding resolve_path_match
validate_path sc locals none = ok tt
validate_path sc locals (some path) =
    resolve_path_match sc sc.dependency_keys locals path >>= λ m. ok tt

module _ (sc : Scope) (locals : Locals) where
  unfoldable mutual
    unfolding validate_path

    -- `_validate_agent_call`
    pub validate_agent_call : AgentCall → Checked (Unit {0})
    validate_agent_call no_agent_call = ok tt
    validate_agent_call (agent_call dependency operation xs) =
        if contains sc.dependency_keys (canonical sc dependency)
        then validate_arguments xs
        else raises value_error

    -- `_validate_util_call`
    pub validate_util_call : UtilCall → Checked (Unit {0})
    validate_util_call no_util_call = ok tt
    validate_util_call (util_call operation xs) = validate_arguments xs

    -- `_validate_argument`
    pub validate_argument : Argument → Checked (Unit {0})
    validate_argument (argument key literal path a u xs ys) =
        validate_path sc locals path
        >> (validate_agent_call a
            >> (validate_util_call u >> (validate_arguments xs >> validate_arguments ys)))

    pub validate_arguments : Arguments → Checked (Unit {0})
    validate_arguments no_arguments = ok tt
    validate_arguments (also x xs) = validate_argument x >> validate_arguments xs

  -- `_validate_prop`
  unfoldable pub validate_prop : Prop → Checked (Unit {0})
  unfolding validate_argument
  validate_prop p =
      validate_path sc locals p.dynamic_path
      >> (validate_agent_call p.in_agent_call >> validate_util_call p.in_util_call)

  unfoldable pub validate_props : List Prop → Checked (Unit {0})
  unfolding validate_prop
  validate_props [] = ok tt
  validate_props (p ∷ ps) = validate_prop p >> validate_props ps

-- The declared name, where there is one that is not empty
abbrev pub declared : Prop → Option String
declared p = elim p.declares_value [ none ↦ none | some n ↦ if str_eq n "" then none else some n ]

-- available_locals.setdefault(prop.declares_value, None) for every prop that declares one
unfoldable pub declare_each : List Prop → Locals → Locals
declare_each [] locals = locals
declare_each (p ∷ ps) locals = elim (declared p) [
  | none ↦ declare_each ps locals
  | some n ↦ declare_each ps (if has locals n then locals else put locals n none)
]

-- `let_prop`, by what it declares
unfoldable pub find_let : List Prop → Option String
find_let [] = none
find_let (p ∷ ps) = if str_eq p.key "let" && is_some (declared p) then declared p else find_let ps

-- `items_prop`, by its path
unfoldable pub find_items : List Prop → Option String
find_items [] = none
find_items (p ∷ ps) =
    if str_eq p.key "items" && is_some p.dynamic_path then p.dynamic_path else find_items ps

-- `_infer_iterable_item_match`
unfoldable pub infer_iterable_item_match : Option PortMatch → Checked (Option PortMatch)
unfolding wildcard
infer_iterable_item_match none = ok none
infer_iterable_item_match (some (port_match k ms)) = elim (wildcard ms) [
  | none ↦ raises value_error
  | some m ↦ ok (some m)
]

-- `_register_foreach_locals`, of a component whose name is `foreach` in lower case
unfoldable pub register_foreach_locals : Scope → List Prop → Locals → Checked Locals
unfolding find_let find_items resolve_path_match infer_iterable_item_match
register_foreach_locals sc props locals = elim (find_let props) [
  | none ↦ ok locals
  | some n ↦ elim (find_items props) [
    | none ↦ ok locals
    | some path ↦ do
      m ← resolve_path_match sc [] locals path
      i ← infer_iterable_item_match m
      ok (put locals n i)
  ]
]

module _ (lower : String → String) (sc : Scope) where
  -- The locals at the props and the children of a node
  unfoldable pub node_locals : String → List Prop → Locals → Checked Locals
  unfolding declare_each register_foreach_locals
  node_locals component props inherited =
      let locals = declare_each props inherited in
      if str_eq (lower component) "foreach"
      then register_foreach_locals sc props locals
      else ok locals

  unfoldable mutual
    unfolding node_locals validate_props

    -- `_validate_node`
    pub validate_node : Component → Locals → Checked (Unit {0})
    validate_node (node id component props children) inherited =
        node_locals component props inherited >>= λ locals.
        validate_props sc locals props >> validate_nodes children locals

    pub validate_nodes : Components → Locals → Checked (Unit {0})
    validate_nodes no_nodes locals = ok tt
    validate_nodes (before n ns) locals = validate_node n locals >> validate_nodes ns locals

-- {dependency.app: dependency.key for ... if dependency.app is not None}
unfoldable pub aliases_of : List AgentDependency → Dict String → Dict String
aliases_of [] d = d
aliases_of (x ∷ xs) d = elim x.app [
  | none ↦ aliases_of xs d
  | some app ↦ aliases_of xs (put d app x.key)
]

unfoldable pub demands_by_key : List StateDependency → Dict StateDependency → Dict StateDependency
demands_by_key [] d = d
demands_by_key (x ∷ xs) d = demands_by_key xs (put d x.key x)

unfoldable pub demands_of :
    List AgentDependency → Dict (Dict StateDependency) → Dict (Dict StateDependency)
unfolding demands_by_key
demands_of [] d = d
demands_of (x ∷ xs) d = demands_of xs (put d x.key (demands_by_key x.state_dependencies []))

-- state_demand_index.setdefault(state_demand.key, []).append(...)
unfoldable pub index_demands :
    List StateDependency → Dict (List StateDependency) → Dict (List StateDependency)
index_demands [] d = d
index_demands (x ∷ xs) d = index_demands xs (put d x.key (or_nothing (get d x.key) ++ x ∷ []))

unfoldable pub index_states :
    List AgentDependency → Dict (List StateDependency) → Dict (List StateDependency)
unfolding index_demands
index_states [] d = d
index_states (x ∷ xs) d = index_states xs (index_demands x.state_dependencies d)

unfoldable pub scope_of : List AgentDependency → Scope
unfolding aliases_of demands_of index_states
scope_of dependencies = record {
  dependency_keys = map (λ x. x.key) dependencies;
  dependency_aliases = aliases_of dependencies [];
  dependency_state_demands = demands_of dependencies [];
  state_demand_index = index_states dependencies [];
}

-- `validate_blok`, with `str.lower`
unfoldable pub validate_blok :
    (String → String) → Component → List AgentDependency → Checked (Unit {0})
unfolding scope_of validate_node
validate_blok lower component dependencies =
    validate_node lower (scope_of dependencies) component []
