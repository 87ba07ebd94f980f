-- ===== src/Blok/Parsing.antt =====
-- `BlokParser` of rekuest_next/blok/parser.py: from the elements of an XML tree and the expressions in
-- their attributes to component nodes. The XML parser, `ast.parse` and the tests on texts of Python are
-- parameters. `none` is an exception.
use rekuest_next.Prelude.{
  String, Bool, not, ◌&&◌, Option, none, some, List, [], ◌∷◌, str_eq, ◌==◌, if◌then◌else◌,
}
use rekuest_next.Prelude.Dict.{Dict, get, remove}
use rekuest_next.Objects.{◌>>=◌, Object, text}
use rekuest_next.Blok.Paths.{split, join}
use rekuest_next.Blok.Nodes.{
  plain_prop, AgentCall, no_agent_call, agent_call, UtilCall, no_util_call, util_call, Argument,
  argument, Arguments, no_arguments, also, Component, node, Components, no_nodes, before, Prop,
}
use Prim.Native.String.{◌++◌ as concat}
use Prim.Native.Char.{code}

-- The nodes of Python's `ast` module that the parser tells apart
mutual
  pub data Expr : Type 0 where
    name : (id : String) → Expr
    attribute : Expr → (attr : String) → Expr
    constant : Object → Expr
    call : Expr → Exprs → Keywords → Expr
    list_of : Exprs → Expr
    tuple_of : Exprs → Expr
    dict_of : Entries → Expr
    other : Expr

  pub data Exprs : Type 0 where
    no_exprs : Exprs
    expr : Expr → Exprs → Exprs

  -- `keyword.arg` is `None` for `**kwargs`.
  pub data Keywords : Type 0 where
    no_keywords : Keywords
    keyword : (arg : Option String) → Expr → Keywords → Keywords

  -- `dict.keys` has `None` for `**mapping`.
  pub data Entries : Type 0 where
    no_entries : Entries
    unpacked : Expr → Entries → Entries
    entry : Expr → Expr → Entries → Entries

-- xml.etree.ElementTree.Element
mutual
  pub data Element : Type 0 where
    element : (tag : String) (attrib : Dict String) → Elements → Element

  pub data Elements : Type 0 where
    no_elements : Elements
    elements : Element → Elements → Elements

pub record Python : Type 0 where
  pub strip : String → String
  pub is_identifier : String → Bool
  pub ast_parse : String → Option Expr
  pub uuid4 : Element → String

-- `_extract_path`
unfoldable pub extract_path : Expr → Option String
extract_path (name id) = some id
extract_path (attribute e attr) = do p ← extract_path e; some (concat p (concat "." attr))
extract_path _ = none

-- What `_parse_ast_call` returns, in the field that it goes to
abbrev pub Call : Type 0
Call = AgentCall × UtilCall

-- The namespaces of `_parse_ast_call`
unfoldable pub route : List String → Arguments → Option Call
route (root ∷ p ∷ q ∷ ps) xs =
    if str_eq root "utils"
    then some (no_agent_call, util_call (join (p ∷ q ∷ ps)) xs)
    else if str_eq root "actions"
    then some (agent_call p (join (q ∷ ps)) xs, no_util_call)
    else some (agent_call root (join (p ∷ q ∷ ps)) xs, no_util_call)
route (root ∷ p ∷ []) xs =
    if str_eq root "utils"
    then some (no_agent_call, util_call (join (p ∷ [])) xs)
    else if str_eq root "actions"
    then none
    else some (agent_call root (join (p ∷ [])) xs, no_util_call)
route _ xs = none

abbrev pub value_argument : Option String → Object → Argument
value_argument key v =
    argument key (some v) none no_agent_call no_util_call no_arguments no_arguments

abbrev pub path_argument : Option String → String → Argument
path_argument key p =
    argument key none (some p) no_agent_call no_util_call no_arguments no_arguments

abbrev pub call_argument : Option String → Call → Argument
call_argument key (a, u) = argument key none none a u no_arguments no_arguments

abbrev pub list_argument : Option String → Arguments → Argument
list_argument key xs = argument key none none no_agent_call no_util_call xs no_arguments

abbrev pub dict_argument : Option String → Arguments → Argument
dict_argument key xs = argument key none none no_agent_call no_util_call no_arguments xs

-- The key of an entry: a literal text
abbrev pub text_key : Expr → Option String
text_key (constant (text k)) = some k
text_key _ = none

unfoldable mutual
  -- `_parse_ast_argument_value`; a `Constant` whose value is no literal counts as its value.
  pub parse_argument : Option String → Expr → Option Argument
  parse_argument key (constant v) = some (value_argument key v)
  parse_argument key (name id) = some (path_argument key id)
  parse_argument key (attribute e attr) =
      extract_path (attribute e attr) >>= λ p. some (path_argument key p)
  parse_argument key (call f args kwargs) = do
    path ← extract_path f
    xs ← parse_positional args (parse_keywords kwargs)
    c ← route (split path) xs
    some (call_argument key c)
  parse_argument key (list_of xs) =
      parse_positional xs (some no_arguments) >>= λ ys. some (list_argument key ys)
  parse_argument key (tuple_of xs) =
      parse_positional xs (some no_arguments) >>= λ ys. some (list_argument key ys)
  parse_argument key (dict_of es) = parse_entries es >>= λ ys. some (dict_argument key ys)
  parse_argument key other = none

  -- The positional arguments, and those that follow
  pub parse_positional : Exprs → Option Arguments → Option Arguments
  parse_positional no_exprs rest = rest
  parse_positional (expr e es) rest = do
    x ← parse_argument none e
    xs ← parse_positional es rest
    some (also x xs)

  pub parse_keywords : Keywords → Option Arguments
  parse_keywords no_keywords = some no_arguments
  parse_keywords (keyword arg e ks) = do
    x ← parse_argument arg e
    xs ← parse_keywords ks
    some (also x xs)

  pub parse_entries : Entries → Option Arguments
  parse_entries no_entries = some no_arguments
  parse_entries (unpacked e es) = none
  parse_entries (entry k e es) = do
    key ← text_key k
    x ← parse_argument (some key) e
    xs ← parse_entries es
    some (also x xs)

-- `_parse_ast_call`
unfoldable pub parse_call : Expr → Exprs → Keywords → Option Call
unfolding route parse_argument
parse_call f args kwargs = do
  path ← extract_path f
  xs ← parse_positional args (parse_keywords kwargs)
  route (split path) xs

module _ (py : Python) where
  -- The part of `_parse_prop` for `$`
  unfoldable pub parse_dynamic : String → String → Option Prop
  parse_dynamic key path = elim (split path) [
    | root ∷ p ∷ q ∷ ps ↦
        if str_eq root "state"
        then some (record (plain_prop key) { dynamic_path = some path })
        else none
    | _ ↦ none
  ]

  -- The part for `@`
  unfoldable pub parse_action : String → Expr → Option Prop
  unfolding parse_call
  parse_action key (name id) = some (record (plain_prop key) { dynamic_path = some id })
  parse_action key (attribute e attr) = extract_path (attribute e attr) >>= λ p.
      some (record (plain_prop key) { dynamic_path = some p })
  parse_action key (call f args kwargs) = parse_call f args kwargs >>= λ c.
      some (record (plain_prop key) { in_agent_call = c.0; in_util_call = c.1 })
  parse_action key _ = none

  -- `_extract_declared_value`
  unfoldable pub extract_declared_value : String → Option String
  extract_declared_value String.[] = none
  extract_declared_value (String.◌∷◌ c rest) =
      if code c == b'#' && not (str_eq rest "") && py.is_identifier rest then some rest else none

  -- What follows the value's `strip()`
  unfoldable pub parse_value : String → String → Option Prop
  unfolding parse_dynamic parse_action extract_declared_value
  parse_value key String.[] = some (record (plain_prop key) { static_value = some "" })
  parse_value key (String.◌∷◌ c rest) =
      if code c == b'$'
      then parse_dynamic key rest
      else if code c == b'@'
      then py.ast_parse rest >>= parse_action key
      else elim (extract_declared_value (String.◌∷◌ c rest)) [
        | some declared ↦ some (record (plain_prop key) {
          static_value = some declared;
          declares_value = some declared;
        })
        | none ↦ some (record (plain_prop key) { static_value = some (String.◌∷◌ c rest) })
      ]

  -- `_parse_prop`
  unfoldable pub parse_prop : String → String → Option Prop
  unfolding parse_value
  parse_prop key value = parse_value key (py.strip value)

  unfoldable pub parse_props : Dict String → Option (List Prop)
  unfolding parse_prop
  parse_props [] = some []
  parse_props ((k, v) ∷ attrib) = do p ← parse_prop k v; ps ← parse_props attrib; some (p ∷ ps)

  -- elem.attrib.pop("id", str(uuid.uuid4()))
  abbrev pub id_of : Element → Dict String → String
  id_of elem attrib = elim (get attrib "id") [ some id ↦ id | none ↦ py.uuid4 elem ]

  unfoldable mutual
    pub parse_element : Element → Option Component
    parse_element (element tag attrib children) = do
      props ← parse_props (remove attrib "id")
      nodes ← parse_elements children
      some (node (id_of (element tag attrib children) attrib) tag props nodes)

    pub parse_elements : Elements → Option Components
    parse_elements no_elements = some no_nodes
    parse_elements (elements e es) = do
      n ← parse_element e
      ns ← parse_elements es
      some (before n ns)
