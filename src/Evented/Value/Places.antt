-- ===== src/Evented/Value/Places.antt =====
-- Whether every container in a value records the place where it is.
use rekuest_next.Prelude.{ℕ, suc, ◌≡◌, refl, Option, none, some}
use mathlib.Core.List.{append_cancel_right}
use rekuest_next.Ports.{Port}
use rekuest_next.Evented.{StateConfig}
use rekuest_next.Pointer.{Text, Key, name, index, pos, make_path}
use rekuest_next.Evented.Value.{
  Tag, Value, Values, Fields, null, num, str, seq, dict, object, nil, item, end, field,
  make_evented, make_items, make_fields, set_path,
}

abbrev pub Tagged : Option Tag → Text → Type 0
Tagged none path = ⊥
Tagged (some t) path = t.path ≡ path

abbrev mutual
  pub WellPlaced : Text → Value → Type 0
  WellPlaced path null = Unit
  WellPlaced path (num n) = Unit
  WellPlaced path (str s) = Unit
  WellPlaced path (seq t vs) = Tagged t path × ItemsPlaced path 0 vs
  WellPlaced path (dict t fs) = Tagged t path × FieldsPlaced path fs
  WellPlaced path (object t fs) = Tagged t path × FieldsPlaced path fs

  pub ItemsPlaced : Text → ℕ → Values → Type 0
  ItemsPlaced path i nil = Unit
  ItemsPlaced path i (item v vs) =
      WellPlaced (make_path path (index (pos i))) v × ItemsPlaced path (suc i) vs

  pub FieldsPlaced : Text → Fields → Type 0
  FieldsPlaced path end = Unit
  FieldsPlaced path (field k v fs) = WellPlaced (make_path path (name k)) v × FieldsPlaced path fs

-- There is no dataclass in the value: `make_evented` changes a dataclass in place, so that one that stands at
-- two places records the path of one of them only.
abbrev mutual
  pub Plain : Value → Type 0
  Plain null = Unit
  Plain (num n) = Unit
  Plain (str s) = Unit
  Plain (seq t vs) = PlainItems vs
  Plain (dict t fs) = PlainFields fs
  Plain (object t fs) = ⊥

  pub PlainItems : Values → Type 0
  PlainItems nil = Unit
  PlainItems (item v vs) = Plain v × PlainItems vs

  pub PlainFields : Fields → Type 0
  PlainFields end = Unit
  PlainFields (field k v fs) = Plain v × PlainFields fs

mutual
  unfolding make_evented make_items make_fields

  placed :
      (config : StateConfig) (v : Value) (path : Text) (port : Option Port)
      → Plain v
      → WellPlaced path (make_evented config v path port)
  placed config null path port h = tt
  placed config (num n) path port h = tt
  placed config (str s) path port h = tt
  placed config (seq t vs) path port h = (refl, placed_items config vs 0 path port h)
  placed config (dict t fs) path port h = (refl, placed_fields config fs path port h)
  placed config (object t fs) path port h = absurd h

  placed_items :
      (config : StateConfig) (vs : Values) (i : ℕ) (path : Text) (port : Option Port)
      → PlainItems vs
      → ItemsPlaced path i (make_items config vs i path port)
  placed_items config nil i path port h = tt
  placed_items config (item v vs) i path port h =
      (placed config v _ _ h.0, placed_items config vs (suc i) path port h.1)

  placed_fields :
      (config : StateConfig) (fs : Fields) (path : Text) (port : Option Port)
      → PlainFields fs
      → FieldsPlaced path (make_fields config fs path port)
  placed_fields config end path port h = tt
  placed_fields config (field k v fs) path port h =
      (placed config v _ _ h.0, placed_fields config fs path port h.1)

-- In what `make_evented` returns for a value of lists, dicts and primitives, without dataclasses, every list
-- and dict, at any depth, records the path at which it stands.
pub make_evented-WellPlaced :
    (config : StateConfig) (v : Value) (path : Text) (port : Option Port)
    → Plain v
    → WellPlaced path (make_evented config v path port)
make_evented-WellPlaced config v path port h = placed config v path port h

make_path_injective : (p q : Text) (k : Key) → make_path p k ≡ make_path q k → p ≡ q
unfolding make_path
make_path_injective p q k e = append_cancel_right p q _ e

-- When `_reindex_items` moves a list whose first item is a container to another path, the list
-- records its new path and the item below it still a path under the old one, so that the value is
-- not well placed.
pub set_path_stale :
    (config : StateConfig) (vs rest : Values) (t u : Option Tag) (old new : Text)
    (port : Option Port)
    → ¬ (old ≡ new)
    → ¬ WellPlaced new (set_path new (make_evented config (seq t (item (seq u vs) rest)) old port))
unfolding make_evented make_items set_path
set_path_stale config vs rest t u old new port moved h =
    moved (make_path_injective old new (index (pos 0)) h.1.0.0)
