-- ===== src/Evented/Value.antt =====
-- rekuest_next/state/observable.py, `make_evented`: the values of a state, with the path and the port
-- that a container records once it is event-emitting (`none` before).
pub mod Places
use rekuest_next.Prelude.{ℕ, suc, ◌-◌, ◌/◌, String, ap, Option, none, some, set}
use rekuest_next.Pointer.{Text, Key, name, index, pos, make_path}
use rekuest_next.Ports.{Port}
use rekuest_next.Evented.{StateConfig, Item, resolve_child_port}

pub record Tag : Type 0 where
  pub path : Text
  pub port : Option Port

-- `seq` is a list, `dict` a dict with text keys, `object` a dataclass with its fields.
mutual
  pub data Value : Type 0 where
    null : Value
    num : ℕ → Value
    str : String → Value
    seq : Option Tag → Values → Value
    dict object : Option Tag → Fields → Value

  pub data Values : Type 0 where
    nil : Values
    item : Value → Values → Values

  pub data Fields : Type 0 where
    end : Fields
    field : String → Value → Fields → Fields

-- A dataclass that is event-emitting already is returned as it is, after its fields were wrapped
-- for the new place.
abbrev pub tag_object : Option Tag → Text → Option Port → Option Tag
tag_object none path port = some (record { path = path; port = port })
tag_object (some t) path port = some t

unfoldable mutual
  unfolding resolve_child_port

  pub make_evented : StateConfig → Value → Text → Option Port → Value
  make_evented config null path port = null
  make_evented config (num n) path port = num n
  make_evented config (str s) path port = str s
  make_evented config (seq t vs) path port =
      seq (some (record { path = path; port = port })) (make_items config vs 0 path port)
  make_evented config (dict t fs) path port =
      dict (some (record { path = path; port = port })) (make_fields config fs path port)
  make_evented config (object t fs) path port =
      object (tag_object t path port) (make_fields config fs path port)

  pub make_items : StateConfig → Values → ℕ → Text → Option Port → Values
  make_items config nil i path port = nil
  make_items config (item v vs) i path port =
      item
        (make_evented config v (make_path path (index (pos i)))
          (resolve_child_port config port (index (pos i))))
        (make_items config vs (suc i) path port)

  pub make_fields : StateConfig → Fields → Text → Option Port → Fields
  make_fields config end path port = end
  make_fields config (field k v fs) path port =
      field k
        (make_evented config v (make_path path (name k)) (resolve_child_port config port (name k)))
        (make_fields config fs path port)

abbrev move_tag : Text → Option Tag → Option Tag
move_tag path none = none
move_tag path (some t) = some (record t { path = path })

-- The write of `_reindex_items` to one item: `item._path` or `item._event_path`.
unfoldable pub set_path : Text → Value → Value
set_path path (seq t vs) = seq (move_tag path t) vs
set_path path (dict t fs) = dict (move_tag path t) fs
set_path path (object t fs) = object (move_tag path t) fs
set_path path v = v
