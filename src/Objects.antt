-- ===== src/Objects.antt =====
-- The Python objects that pass through the ports: JSON values, what they expand to, and dictionaries
-- with text keys as Python keeps them.
use rekuest_next.Prelude.{
  ℕ, String, Bool, true, false, ◌&&◌, Option, none, some, str_eq, if◌then◌else◌,
}
use rekuest_next.Pointer.{ℤ}

-- A float is known by its repr, a datetime by a name for the instant; an opaque object by its class
-- and a number. A member of an enum has the class's name and its own.
mutual
  pub data Object : Type 0 where
    null : Object
    truth : Bool → Object
    number : ℤ → Object
    real : String → Object
    text : String → Object
    moment : String → Object
    items : Objects → Object
    mapping : Fields → Object
    member : (cls name : String) → Object
    opaque : (cls : String) (id : ℕ) → Object

  pub data Objects : Type 0 where
    empty : Objects
    item : Object → Objects → Objects

  pub data Fields : Type 0 where
    end : Fields
    field : String → Object → Fields → Fields

-- value is None
abbrev pub is_none : Object → Bool
is_none null = true
is_none _ = false

-- d.get(k)
unfoldable pub get_field : Fields → String → Option Object
get_field end k = none
get_field (field j v fs) k = if str_eq j k then some v else get_field fs k

-- d[k] = v
unfoldable pub set_field : Fields → String → Object → Fields
set_field end k v = field k v end
set_field (field j w fs) k v =
    let rest = set_field fs k v in if str_eq j k then field j v fs else field j w rest

-- An exception ends the computation: `none`.
infixl 5 ◌>>=◌
abbrev pub ◌>>=◌ {ℓ κ} : {A : Type ℓ} {B : Type κ} → Option A → (A → Option B) → Option B
none >>= f = none
some a >>= f = f a

-- asyncio.gather over the elements of a list
unfoldable pub gather_pure : (Object → Option Object) → Objects → Option Objects
gather_pure f empty = some empty
gather_pure f (item x xs) = do y ← f x; ys ← gather_pure f xs; some (item y ys)

-- {key: f(value) for key, value in d.items()}
unfoldable pub gather_fields_pure : (Object → Option Object) → Fields → Option Fields
gather_fields_pure f end = some end
gather_fields_pure f (field k x xs) = do y ← f x; ys ← gather_fields_pure f xs; some (field k y ys)

-- all([test(x) for x in xs]): every test runs before the first failed one is noticed
unfoldable pub all_items : (Object → Option Bool) → Objects → Option Bool
all_items test empty = some true
all_items test (item x xs) = do b ← test x; bs ← all_items test xs; some (b && bs)

unfoldable pub all_fields : (Object → Option Bool) → Fields → Option Bool
all_fields test end = some true
all_fields test (field k x xs) = do b ← test x; bs ← all_fields test xs; some (b && bs)
