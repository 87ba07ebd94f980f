-- ===== src/Evented.antt =====
-- rekuest_next/state/observable.py and state/publish.py: what the event-emitting containers share.
-- An operation is a function of its environment that returns the new state beside its result; what
-- was written before a raise stays written.
pub mod Receiver
pub mod Sequence
pub mod Mapping
pub mod Value
pub mod Tests
mod EdgeTests
use rekuest_next.Prelude.{
  zero, ◌+◌, ◌-◌, ◌/◌, String, ◌≡◌, refl, ap, ◌⊎◌, inl, inr, Bool, true, not, Option, none, some,
  List, [], ◌∷◌, ◌++◌, arith, ◌==◌, if◌then◌else◌, set, filter, contains,
}
use rekuest_next.Pointer.{Text, Key, name, index}
use rekuest_next.Ports.{Port, Ports, first_port, find_port, children_of}

pub data Error : Type 0 where
  runtime_error index_error value_error key_error : Error
  agent_exception patch_conflict zero_division : Error

pub data Result {ℓ} (T : Type ℓ) : Type ℓ where
  ok : T → Result T
  raised : Error → Result T

pub Result-cases {ℓ} :
    {T : Type ℓ} (r : Result T) → ((e : Error) × (r ≡ raised e)) ⊎ ((t : T) × (r ≡ ok t))
Result-cases (raised e) = inl (e, refl)
Result-cases (ok t) = inr (t, refl)

abbrev pub Act {ℓ κ} : Type ℓ → Type κ → Type (ℓ ⊔ κ)
Act S T = S → Result T × S

module _ {ℓ κ} {S : Type ℓ} {T : Type κ} where
  abbrev pub pure : T → Act S T
  pure t s = (ok t, s)

  abbrev pub raise : Error → Act S T
  raise e s = (raised e, s)

  abbrev pub gets : (S → T) → Act S T
  gets f s = (ok (f s), s)

abbrev pub or_raise {ℓ κ} : {S : Type ℓ} {T : Type κ} → Option T → Error → Act S T
or_raise none e s = (raised e, s)
or_raise (some t) e s = (ok t, s)

abbrev pub modify {ℓ} : {S : Type ℓ} → (S → S) → Act S (Unit {0})
modify f s = (ok tt, f s)

infixl 5 ◌>>=◌ ◌>>◌
abbrev pub continue {ℓ κ μ} :
    {S : Type ℓ} {T : Type κ} {U : Type μ} → Result T → S → (T → Act S U) → Result U × S
continue (ok t) s f = f t s
continue (raised e) s f = (raised e, s)

abbrev pub ◌>>=◌ {ℓ κ μ} :
    {S : Type ℓ} {T : Type κ} {U : Type μ} → Act S T → (T → Act S U) → Act S U
◌>>=◌ m f s = let (r, s') = m s in continue r s' f

abbrev pub ◌>>◌ {ℓ κ} : {S : Type ℓ} {U : Type κ} → Act S (Unit {0}) → Act S U → Act S U
m >> k = m >>= λ _. k

-- An action keeps `P` whether it returns or raises.
abbrev pub Keeps {ℓ κ μ} : {S : Type ℓ} {T : Type κ} → (S → Type μ) → Act S T → Type (ℓ ⊔ μ)
Keeps P m = (s : _) → P s → P (m s).1

module _ {ℓ κ μ ν} {S : Type ℓ} {T : Type κ} {U : Type μ} (P : S → Type ν) where
  pub Keeps-continue :
      (r : Result T) (s : S) (f : T → Act S U)
      → P s
      → ((t : T) → Keeps P (f t))
      → P (continue r s f).1
  Keeps-continue (ok t) s f h k = k t s h
  Keeps-continue (raised e) s f h k = h

  pub Keeps-bind :
      (m : Act S T) (f : T → Act S U) → Keeps P m → ((t : T) → Keeps P (f t)) → Keeps P (m >>= f)
  Keeps-bind m f km kf s h = Keeps-continue (m s).0 (m s).1 f (km s h) kf

-- `StateConfig`: the name and the ports of the state, and the locks that a writer must hold.
pub record StateConfig : Type 0 where
  pub state_name : String
  pub definition : Ports
  pub required_locks : List String

-- A config with the context variables that an operation reads: the locks that the task holds
-- (`get_acquired_locks`), whether a publisher is set, and the current task.
pub record Env : Type 0 where
  pub config : StateConfig
  pub acquired_locks : List String
  pub has_publisher : Bool
  pub task_id : Option String

pub data Op : Type 0 where
  add remove replace : Op

pub record Patch {ℓ} (A : Type ℓ) : Type ℓ where
  pub op : Op
  pub path : Text
  pub value : Option A
  pub old_value : Option A
  pub port : Option Port
  pub correlation_id : Option String

abbrev pub make_patch {ℓ} :
    {A : Type ℓ} → Env → Op → Text → Option A → Option A → Option Port → Patch A
make_patch env op path value old port = record {
  op = op;
  path = path;
  value = value;
  old_value = old;
  port = port;
  correlation_id = env.task_id;
}

-- The list comprehension of `__check_if_has_required_locks`.
unfoldable pub missing_locks : Env → List String
missing_locks env = filter (λ l. not (contains env.acquired_locks l)) env.config.required_locks

pub resolve_child_port : StateConfig → Option Port → Key → Option Port
resolve_child_port config none (index i) = none
resolve_child_port config (some p) (index i) = first_port (children_of p)
resolve_child_port config none (name k) = find_port config.definition k
resolve_child_port config (some p) (name k) = find_port (children_of p) k

-- What the containers need of the values in them: `make_evented`, the write of a child's path in
-- `_reindex_items`, and Python's `==`.
pub record Item {ℓ} (A : Type ℓ) : Type ℓ where
  pub make_evented : A → Text → Option Port → A
  pub set_path : Text → A → A
  pub same : A → A → Bool

-- A container between two writes of an operation, and the patches published so far.
pub record Node {ℓ κ} (C : Type ℓ) (A : Type κ) : Type (ℓ ⊔ κ) where
  pub contents : C
  pub path : Text
  pub port : Option Port
  pub sent : List (Patch A)

module _ {ℓ κ} {C : Type ℓ} {A : Type κ} (env : Env) where
  pub check_if_has_required_locks : Act (Node C A) (Unit {0})
  unfolding missing_locks
  check_if_has_required_locks s = elim (missing_locks env) [
    | [] ↦ (ok tt, s)
    | l ∷ ls ↦ (raised runtime_error, s)
  ]

  pub check_held :
      (s : Node C A) → missing_locks env ≡ [] → check_if_has_required_locks s ≡ (ok tt, s)
  unfolding check_if_has_required_locks
  check_held s held = rw (held, check_if_has_required_locks)

  pub check_refused :
      (s : Node C A) (l : String) (ls : List String)
      → missing_locks env ≡ l ∷ ls
      → check_if_has_required_locks s ≡ (raised runtime_error, s)
  unfolding check_if_has_required_locks
  check_refused s l ls lacking = rw (lacking, check_if_has_required_locks)

  pub publish_patch : Patch A → Act (Node C A) (Unit {0})
  publish_patch patch s =
      if env.has_publisher then (ok tt, record s { sent = s.sent ++ patch ∷ [] }) else (ok tt, s)

  pub publish_sends :
      (patch : Patch A) (s : Node C A)
      → env.has_publisher ≡ true
      → publish_patch patch s ≡ (ok tt, record s { sent = s.sent ++ patch ∷ [] })
  unfolding publish_patch
  publish_sends patch s publishing = ground (arith, publishing)

  pub write : C → Act (Node C A) (Unit {0})
  write c s = (ok tt, record s { contents = c })

  pub child_port : Key → Act (Node C A) (Option Port)
  unfolding resolve_child_port
  child_port key s = (ok (resolve_child_port env.config s.port key), s)
