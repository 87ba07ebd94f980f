-- ===== src/Evented/Mapping.antt =====
-- rekuest_next/state/observable.py, `EventedDict`, with text keys. `dict.popitem` takes the entry that
-- was put in last; the keys of a dict are distinct, so that removing it is removing its key.
pub mod Calls
pub mod Mirror
pub mod Locked
use rekuest_next.Prelude.{
  ◌-◌, ◌/◌, String, ap, Option, none, some, List, [], ◌∷◌, map, if◌then◌else◌, set, take, all,
}
use rekuest_next.Prelude.Dict.{Dict, get, has, put, remove, keys}
use rekuest_next.Pointer.{name, make_path}
use rekuest_next.Evented.{
  Act, pure, raise, or_raise, gets, ◌>>=◌, ◌>>◌, key_error, Env, Op, Item, Node,
  check_if_has_required_locks, publish_patch, make_patch, write, child_port,
}

abbrev pub EventedDict {ℓ} : Type ℓ → Type ℓ
EventedDict A = Node (Dict A) A

abbrev pub M {ℓ κ} : Type ℓ → Type κ → Type (ℓ ⊔ κ)
M A T = Act (EventedDict A) T

pub last_entry {ℓ} : {A : Type ℓ} → Dict A → Option (String × A)
last_entry [] = none
last_entry (e ∷ []) = some e
last_entry (e ∷ f ∷ d) = last_entry (f ∷ d)

module _ {ℓ} {A : Type ℓ} (env : Env) ⦃item : Item A⦄ where
  open item use {make_evented}

  -- `__setitem__`
  unfoldable pub set_item : String → A → M A (Unit {0})
  set_item k value = do
    check_if_has_required_locks env
    d ← gets (λ s. s.contents)
    base ← gets (λ s. s.path)
    let full_path = make_path base (name k)
    port ← child_port env (name k)
    let value = make_evented value full_path port
    write env (put d k value)
    let op : Op = if has d k then Op.replace else Op.add
    publish_patch env (make_patch env op full_path (some value) (get d k) port)

  -- `__delitem__`
  unfoldable pub del_item : String → M A (Unit {0})
  del_item k = do
    check_if_has_required_locks env
    d ← gets (λ s. s.contents)
    base ← gets (λ s. s.path)
    old ← or_raise (get d k) key_error
    port ← child_port env (name k)
    write env (remove d k)
    publish_patch env (make_patch env Op.remove (make_path base (name k)) none (some old) port)

  or_default : Option A → M A A
  or_default (some default) = pure default
  or_default none = raise key_error

  unfoldable pub pop : String → Option A → M A A
  unfolding or_default
  pop k default = do
    check_if_has_required_locks env
    d ← gets (λ s. s.contents)
    base ← gets (λ s. s.path)
    elim (get d k) [
      | some old ↦ do
        port ← child_port env (name k)
        write env (remove d k)
        publish_patch env (make_patch env Op.remove (make_path base (name k)) none (some old) port)
        pure old
      | none ↦ or_default default
    ]

  unfoldable pub popitem : M A (String × A)
  unfolding last_entry
  popitem = do
    check_if_has_required_locks env
    d ← gets (λ s. s.contents)
    base ← gets (λ s. s.path)
    (k, old) ← or_raise (last_entry d) key_error
    write env (remove d k)
    port ← child_port env (name k)
    publish_patch env (make_patch env Op.remove (make_path base (name k)) none (some old) port)
    pure (k, old)

  del_each : List String → M A (Unit {0})
  del_each [] = pure tt
  del_each (k ∷ ks) = del_item k >> del_each ks

  unfoldable pub clear : M A (Unit {0})
  unfolding del_each
  clear = do check_if_has_required_locks env; ks ← gets (λ s. keys s.contents); del_each ks

  unfoldable pub setdefault : String → A → M A A
  setdefault k default = do
    check_if_has_required_locks env
    d ← gets (λ s. s.contents)
    (if has d k then pure tt else set_item k default)
    after ← gets (λ s. s.contents)
    or_raise (get after k) key_error

  set_each : List (String × A) → M A (Unit {0})
  set_each [] = pure tt
  set_each ((k, v) ∷ items) = set_item k v >> set_each items

  -- The items of the other mapping, then the keyword arguments.
  unfoldable pub update : List (String × A) → List (String × A) → M A (Unit {0})
  unfolding set_each
  update other kwargs = do check_if_has_required_locks env; set_each other; set_each kwargs
