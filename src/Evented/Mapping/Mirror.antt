-- ===== src/Evented/Mapping/Mirror.antt =====
-- A receiver that applies the published patches of an `EventedDict` holds the dict's contents.
use rekuest_next.Prelude.{
  String, ◌≡◌, ◌∙◌, inl, inr, true, Option, none, some, List, [], ◌∷◌, ◌++◌, arith, eq_iff,
  if◌then◌else◌, Bool-cases, Option-cases,
}
use rekuest_next.Prelude.Dict.{
  Dict, get, has, put, remove, has_of_get, map_values, map_values-put, map_values-remove,
  has-map_values,
}
use rekuest_next.Pointer.{Text, name, make_path}
use rekuest_next.Evented.{
  Keeps, Keeps-bind, Env, Op, Item, Patch, missing_locks, check_held, publish_sends, write,
  child_port, pure, or_raise, key_error,
}
use rekuest_next.Evented.Receiver.{Apply, receive, receive_next, on_some}
use rekuest_next.Evented.Mapping.{
  EventedDict, set_item, del_item, pop, popitem, last_entry, clear, del_each, setdefault, update,
  set_each, or_default, keys,
}
use rekuest_next.Evented.Mapping.Calls.{Call, perform, run}

-- A JSON Patch library (RFC 6902) as it acts on the object at `base`: `add` also writes over a
-- member that is there, `replace` and `remove` want one.
pub record DictPatcher {ℓ} (B : Type ℓ) (base : Text) : Type ℓ where
  pub apply : Apply (Dict B) B
  pub add_key :
      (d : Dict B) (k : String) (v : B)
      → apply d Op.add (make_path base (name k)) (some v) ≡ some (put d k v)
  pub replace_key :
      (d : Dict B) (k : String) (v : B)
      → has d k ≡ true
      → apply d Op.replace (make_path base (name k)) (some v) ≡ some (put d k v)
  pub remove_key :
      (d : Dict B) (k : String)
      → has d k ≡ true
      → apply d Op.remove (make_path base (name k)) none ≡ some (remove d k)

has-last_entry {ℓ} :
    {A : Type ℓ} (d : Dict A) (k : String) (v : A) → last_entry d ≡ some (k, v) → has d k ≡ true
unfolding last_entry has
has-last_entry [] k v e = cc
has-last_entry ((j, w) ∷ []) k v e = ground (arith, eq_iff j k)
has-last_entry ((j, w) ∷ f ∷ d) k v e = ground (arith, has-last_entry (f ∷ d) k v e)

module _ {ℓ κ} {A : Type ℓ} {B : Type κ} (plain : A → B) {base : Text}
    (patcher : DictPatcher B base) (start : Dict B) where
  -- The receiver began with `start` and has followed every patch.
  pub record Mirrors (s : EventedDict A) : Type (ℓ ⊔ κ) where
    pub followed :
        receive plain patcher.apply s.sent (some start) ≡ some (map_values plain s.contents)
    pub place : s.path ≡ base

  sent-Mirrors :
      (s : EventedDict A) (d : Dict A) (q : Patch A)
      → patcher.apply (map_values plain s.contents) q.op q.path (on_some plain q.value)
        ≡ some (map_values plain d)
      → Mirrors s
      → Mirrors (record s { contents = d; sent = s.sent ++ q ∷ [] })
  sent-Mirrors s d q h m = record {
    followed =
        receive_next plain patcher.apply s.sent q (some start) (map_values plain s.contents)
          (map_values plain d) m.followed h;
    place = m.place;
  }

  put_sent :
      (d : Dict A) (k : String) (v : A) (path : Text)
      → path ≡ base
      → patcher.apply
          (map_values plain d)
          (if has d k then Op.replace else Op.add)
          (make_path path (name k))
          (some (plain v))
        ≡ some (map_values plain (put d k v))
  put_sent d k v path e = elim (Bool-cases (has d k)) [
    | inl old ↦
        rw (e, old, map_values-put plain d k v)
          (patcher.replace_key (map_values plain d) k (plain v) (has-map_values plain d k ∙ old))
    | inr new ↦
        rw (e, new, map_values-put plain d k v) (patcher.add_key (map_values plain d) k (plain v))
  ]

  remove_sent :
      (d : Dict A) (k : String) (path : Text)
      → path ≡ base
      → has d k ≡ true
      → patcher.apply (map_values plain d) Op.remove (make_path path (name k)) none
        ≡ some (map_values plain (remove d k))
  remove_sent d k path e h =
      rw (e, map_values-remove plain d k)
        (patcher.remove_key (map_values plain d) k (has-map_values plain d k ∙ h))

  module _ (env : Env) ⦃item : Item A⦄ (held : missing_locks env ≡ [])
      (publishing : env.has_publisher ≡ true) where
    set_item-Mirrors : (k : String) (v : A) → Keeps Mirrors (set_item env k v)
    unfolding set_item write child_port
    set_item-Mirrors k v s m =
        rw (check_held env s held, publish_sends)
          (sent-Mirrors s _ _ (put_sent s.contents k _ s.path m.place) m)

    del_item-Mirrors : (k : String) → Keeps Mirrors (del_item env k)
    unfolding del_item write child_port
    del_item-Mirrors k s m = elim (Option-cases (get s.contents k)) [
      | inl e ↦ rw (check_held env s held, e) m
      | inr (old, e) ↦
          rw (check_held env s held, e, publish_sends)
            (sent-Mirrors s _ _
              (remove_sent s.contents k s.path m.place (has_of_get s.contents k old e)) m)
    ]

    or_default-Mirrors : (o : Option A) → Keeps Mirrors (or_default env o)
    unfolding or_default
    or_default-Mirrors none = λ s m. m
    or_default-Mirrors (some v) = λ s m. m

    pop-Mirrors : (k : String) (default : Option A) → Keeps Mirrors (pop env k default)
    unfolding pop write child_port
    pop-Mirrors k default s m = elim (Option-cases (get s.contents k)) [
      | inl e ↦ rw (check_held env s held, e) (or_default-Mirrors default s m)
      | inr (old, e) ↦
          rw (check_held env s held, e, publish_sends)
            (sent-Mirrors s _ _
              (remove_sent s.contents k s.path m.place (has_of_get s.contents k old e)) m)
    ]

    popitem-Mirrors : Keeps Mirrors (popitem env)
    unfolding popitem write child_port
    popitem-Mirrors s m = elim (Option-cases (last_entry s.contents)) [
      | inl e ↦ rw (check_held env s held, e) m
      | inr ((k, old), e) ↦
          rw (check_held env s held, e, publish_sends)
            (sent-Mirrors s _ _
              (remove_sent s.contents k s.path m.place (has-last_entry s.contents k old e)) m)
    ]

    del_each-Mirrors : (ks : List String) → Keeps Mirrors (del_each env ks)
    unfolding del_each
    del_each-Mirrors [] = λ s m. m
    del_each-Mirrors (k ∷ ks) =
        Keeps-bind Mirrors (del_item env k) (λ _. del_each env ks) (del_item-Mirrors k)
          (λ _. del_each-Mirrors ks)

    clear-Mirrors : Keeps Mirrors (clear env)
    unfolding clear
    clear-Mirrors s m = rw (check_held env s held) (del_each-Mirrors (keys s.contents) s m)

    set_each-Mirrors : (items : List (String × A)) → Keeps Mirrors (set_each env items)
    unfolding set_each
    set_each-Mirrors [] = λ s m. m
    set_each-Mirrors ((k, v) ∷ items) =
        Keeps-bind Mirrors (set_item env k v) (λ _. set_each env items) (set_item-Mirrors k v)
          (λ _. set_each-Mirrors items)

    update-Mirrors : (other kwargs : List (String × A)) → Keeps Mirrors (update env other kwargs)
    unfolding update
    update-Mirrors other kwargs s m = rw (check_held env s held) (
        Keeps-bind Mirrors (set_each env other) (λ _. set_each env kwargs) (set_each-Mirrors other)
          (λ _. set_each-Mirrors kwargs) s m)

    -- What a read after the write returns or raises does not matter to the receiver.
    read-Mirrors : (k : String) → Keeps Mirrors (λ s. or_raise (get s.contents k) key_error s)
    read-Mirrors k s m = elim (Option-cases (get s.contents k)) [
      | inl e ↦ rw e m
      | inr (v, e) ↦ rw e m
    ]

    setdefault-Mirrors : (k : String) (v : A) → Keeps Mirrors (setdefault env k v)
    unfolding setdefault
    setdefault-Mirrors k v s m = elim (Bool-cases (has s.contents k)) [
      | inl e ↦ rw (check_held env s held, e) (read-Mirrors k s m)
      | inr e ↦
          rw (check_held env s held, e)
            (Keeps-bind Mirrors (set_item env k v)
              (λ _ s'. or_raise (get s'.contents k) key_error s') (set_item-Mirrors k v)
              (λ _. read-Mirrors k) s m)
    ]

    perform-Mirrors : (c : Call A) → Keeps Mirrors (perform env c)
    unfolding perform
    perform-Mirrors (Call.sets k v) = set_item-Mirrors k v
    perform-Mirrors (Call.deletes k) = del_item-Mirrors k
    perform-Mirrors (Call.pops k default) =
        Keeps-bind Mirrors (pop env k default) (λ _. pure tt) (pop-Mirrors k default) (λ _ s m. m)
    perform-Mirrors Call.pops_item =
        Keeps-bind Mirrors (popitem env) (λ _. pure tt) popitem-Mirrors (λ _ s m. m)
    perform-Mirrors Call.clears = clear-Mirrors
    perform-Mirrors (Call.sets_default k v) =
        Keeps-bind Mirrors (setdefault env k v) (λ _. pure tt) (setdefault-Mirrors k v) (λ _ s m. m)
    perform-Mirrors (Call.updates other kwargs) = update-Mirrors other kwargs

    -- A task that holds the required locks and has a publisher makes any calls of the mutating methods that
    -- `EventedDict` defines, with texts for keys, some of which may raise; the inherited `|=` is not among them. A receiver that starts with the dict's contents and applies
    -- every published patch has, after the calls, the contents of the dict, in the same order.
    pub dict_run-Mirrors :
        (cs : List (Call A)) (s : EventedDict A) → Mirrors s → Mirrors (run env cs s)
    unfolding run
    dict_run-Mirrors [] s m = m
    dict_run-Mirrors (c ∷ cs) s m = dict_run-Mirrors cs _ (perform-Mirrors c s m)
