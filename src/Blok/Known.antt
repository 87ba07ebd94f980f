-- ===== src/Blok/Known.antt =====
-- What a validated blok can call (`validate_blok` of rekuest_next/blok/parser.py).
use rekuest_next.Prelude.{
  String, ◌≡◌, refl, ◌≢◌, ◌⊎◌, inl, inr, Bool, true, false, ◌&&◌, ◌||◌, none, some, List, [], ◌∷◌,
  map, arith, str_eq, Bool-cases, Option-cases, contains,
}
use rekuest_next.Prelude.Dict.{Dict, get, put, get-put}
use rekuest_next.Blok.Nodes.{
  AgentCall, no_agent_call, agent_call, UtilCall, no_util_call, util_call, Argument, argument,
  Arguments, no_arguments, also, Component, node, Components, no_nodes, before, Prop,
  AgentDependency,
}
use rekuest_next.Blok.Resolution.{
  ◌>>◌, Locals, canonical, Checked, ok, raises, Scope, Mistake, value_error, ◌>>=◌,
}
use rekuest_next.Blok.Validation.{
  validate_agent_call, validate_util_call, validate_argument, validate_arguments, validate_props,
  validate_node, validate_blok, validate_prop, node_locals, validate_path, validate_nodes, scope_of,
  aliases_of,
}

-- The text is the key of a dependency, or the app of one.
unfoldable pub names_dependency : List AgentDependency → String → Bool
names_dependency [] name = false
names_dependency (d ∷ ds) name =
    str_eq d.key name
    || (elim d.app [ none ↦ false | some app ↦ str_eq app name ] || names_dependency ds name)

-- Every action that is called, at any depth of the arguments and the nodes, is one of a dependency.
module _ (deps : List AgentDependency) where
  unfoldable mutual
    pub known_agent : AgentCall → Bool
    known_agent no_agent_call = true
    known_agent (agent_call dependency operation xs) =
        names_dependency deps dependency && known_arguments xs

    pub known_util : UtilCall → Bool
    known_util no_util_call = true
    known_util (util_call operation xs) = known_arguments xs

    pub known_argument : Argument → Bool
    known_argument (argument key literal path a u xs ys) =
        known_agent a && (known_util u && (known_arguments xs && known_arguments ys))

    pub known_arguments : Arguments → Bool
    known_arguments no_arguments = true
    known_arguments (also x xs) = known_argument x && known_arguments xs

  unfoldable pub known_props : List Prop → Bool
  known_props [] = true
  known_props (p ∷ ps) =
      known_agent p.in_agent_call && (known_util p.in_util_call && known_props ps)

  unfoldable mutual
    pub known_node : Component → Bool
    known_node (node id component props children) = known_props props && known_nodes children

    pub known_nodes : Components → Bool
    known_nodes no_nodes = true
    known_nodes (before n ns) = known_node n && known_nodes ns

>>-ok {κ} :
    {B : Type κ} (m : Checked (Unit {0})) (k : Checked B) (b : B)
    → (m >> k) ≡ ok b
    → (m ≡ ok tt) × (k ≡ ok b)
>>-ok (ok tt) k b h = (refl, h)
>>-ok (raises e) k b h = cc

not_ok {κ} : {B : Type κ} (e : Mistake) (b : B) → raises e ≢ ok b
not_ok e b h = cc

both : (a b : Bool) → a ≡ true → b ≡ true → (a && b) ≡ true
both a b p q = rw (p, q) refl

-- A name that is found among the keys, through the aliases, is the key or the app of a dependency.
alias_named :
    (deps : List AgentDependency) (d : Dict String) (name k : String)
    → get (aliases_of deps d) name ≡ some k
    → (names_dependency deps name ≡ true) ⊎ (get d name ≡ some k)
unfolding aliases_of names_dependency
alias_named [] d name k h = inr h
alias_named (x ∷ xs) d name k h = elim (Option-cases x.app) [
  | inl e ↦ elim (alias_named xs d name k (rw (aliases_of, e) at h)) [
    | inl n ↦ inl (ground (arith, n))
    | inr g ↦ inr g
  ]
  | inr (app, e) ↦ elim (alias_named xs (put d app x.key) name k (rw (aliases_of, e) at h)) [
    | inl n ↦ inl (ground (arith, n))
    | inr g ↦ elim (Bool-cases (str_eq app name)) [
      | inl s ↦ inl (ground (arith, e, s))
      | inr s ↦ inr (rw (get-put, s) at g)
    ]
  ]
]

key_named :
    (deps : List AgentDependency) (name : String)
    → contains (map (λ x. x.key) deps) name ≡ true
    → names_dependency deps name ≡ true
unfolding names_dependency
key_named [] name h = h
key_named (x ∷ xs) name h = ground (arith, h, key_named xs name)

canonical_named :
    (deps : List AgentDependency) (name : String)
    → contains (scope_of deps).dependency_keys (canonical (scope_of deps) name) ≡ true
    → names_dependency deps name ≡ true
unfolding scope_of get
canonical_named deps name h = elim (Option-cases (get (aliases_of deps []) name)) [
  | inl e ↦ key_named deps name (rw (canonical, e) at h)
  | inr (k, e) ↦ elim (alias_named deps [] name k e) [
    | inl n ↦ n
    | inr g ↦ absurd (ground (arith, g))
  ]
]

module _ (deps : List AgentDependency) (locals : Locals) where
  abbrev sc : Scope
  sc = scope_of deps

  mutual
    unfolding validate_argument known_argument

    agent_known :
        (a : AgentCall) → validate_agent_call sc locals a ≡ ok tt → known_agent deps a ≡ true
    agent_known no_agent_call h = refl
    agent_known (agent_call dependency operation xs) h =
        elim (Bool-cases (contains sc.dependency_keys (canonical sc dependency))) [
          | inl e ↦ both _ _ (canonical_named deps dependency e) (arguments_known xs (rw e at h))
          | inr e ↦ absurd (not_ok value_error tt (rw e at h))
        ]

    util_known : (u : UtilCall) → validate_util_call sc locals u ≡ ok tt → known_util deps u ≡ true
    util_known no_util_call h = refl
    util_known (util_call operation xs) h = arguments_known xs h

    argument_known :
        (x : Argument) → validate_argument sc locals x ≡ ok tt → known_argument deps x ≡ true
    argument_known (argument key literal path a u xs ys) h =
        let (p, r) = >>-ok _ _ tt h in
        let (q, r) = >>-ok _ _ tt r in
        let (s, r) = >>-ok _ _ tt r in
        let (t, r) = >>-ok _ _ tt r in
        both (known_agent deps a) _ (agent_known a q) (
          both (known_util deps u) _ (util_known u s) (
            both (known_arguments deps xs) (known_arguments deps ys) (arguments_known xs t)
              (arguments_known ys r)))

    arguments_known :
        (xs : Arguments) → validate_arguments sc locals xs ≡ ok tt → known_arguments deps xs ≡ true
    arguments_known no_arguments h = refl
    arguments_known (also x xs) h =
        let (p, r) = >>-ok (validate_argument sc locals x) (validate_arguments sc locals xs) tt h in
        both (known_argument deps x) (known_arguments deps xs) (argument_known x p)
          (arguments_known xs r)

  props_known : (ps : List Prop) → validate_props sc locals ps ≡ ok tt → known_props deps ps ≡ true
  unfolding validate_props validate_prop known_props
  props_known [] h = refl
  props_known (p ∷ ps) h =
      let (q, r) = >>-ok (validate_prop sc locals p) (validate_props sc locals ps) tt h in
      let (s, t) = >>-ok (validate_path sc locals p.dynamic_path) _ tt q in
      let (a, u) =
        >>-ok (validate_agent_call sc locals p.in_agent_call)
          (validate_util_call sc locals p.in_util_call) tt t in
      both (known_agent deps p.in_agent_call)
        (known_util deps p.in_util_call && known_props deps ps) (agent_known p.in_agent_call a)
        (both (known_util deps p.in_util_call) (known_props deps ps) (util_known p.in_util_call u)
          (props_known ps r))

>>=-ok {ℓ κ} :
    {A : Type ℓ} {B : Type κ} (m : Checked A) (f : A → Checked B) (b : B)
    → (m >>= f) ≡ ok b
    → (a : A) × (m ≡ ok a) × (f a ≡ ok b)
>>=-ok (ok a) f b h = (a, refl, h)
>>=-ok (raises e) f b h = cc

module _ (lower : String → String) (deps : List AgentDependency) where
  mutual
    unfolding validate_node known_node

    node_known :
        (n : Component) (inherited : Locals)
        → validate_node lower (scope_of deps) n inherited ≡ ok tt
        → known_node deps n ≡ true
    node_known (node id component props children) inherited h =
        let (locals, e, r) =
          >>=-ok (node_locals lower (scope_of deps) component props inherited)
            (λ locals.
              validate_props (scope_of deps) locals props
              >> validate_nodes lower (scope_of deps) children locals)
            tt h in
        let (p, q) =
          >>-ok (validate_props (scope_of deps) locals props)
            (validate_nodes lower (scope_of deps) children locals) tt r in
        both (known_props deps props) (known_nodes deps children) (props_known deps locals props p)
          (nodes_known children locals q)

    nodes_known :
        (ns : Components) (locals : Locals)
        → validate_nodes lower (scope_of deps) ns locals ≡ ok tt
        → known_nodes deps ns ≡ true
    nodes_known no_nodes locals h = refl
    nodes_known (before n ns) locals h =
        let (p, q) =
          >>-ok (validate_node lower (scope_of deps) n locals)
            (validate_nodes lower (scope_of deps) ns locals) tt h in
        both (known_node deps n) (known_nodes deps ns) (node_known n locals p)
          (nodes_known ns locals q)

-- In a blok that `validate_blok` accepts, every call of an action, in a prop of any node and at any depth of
-- the arguments, names the key of a dependency or the app of one.
pub validate_blok-known :
    (lower : String → String) (component : Component) (dependencies : List AgentDependency)
    → validate_blok lower component dependencies ≡ ok tt
    → known_node dependencies component ≡ true
unfolding validate_blok
validate_blok-known lower component dependencies h = node_known lower dependencies component [] h
