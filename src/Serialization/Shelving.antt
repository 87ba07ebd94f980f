-- ===== src/Serialization/Shelving.antt =====
-- The agent's shelve as the serializers use it (`aput_on_shelve`, `aget_from_shelve` and `acollect` of
-- rekuest_next/agents/base.py), and actions that read and write it. `asyncio.gather` starts its tasks
-- in order; the model runs them in that order.
use rekuest_next.Prelude.{String, Option, none, some, if◌then◌else◌}
use rekuest_next.Prelude.Dict.{Dict, get, put, has, remove}
use rekuest_next.Objects.{Object, Objects, empty, item, Fields, end, field}
use rekuest_next.Serialization.{Runtime}

abbrev pub Shelve : Type 0
Shelve = Dict Object

-- `none` is an exception.
abbrev pub Shelving {ℓ} : Type ℓ → Type ℓ
Shelving A = Shelve → Option (A × Shelve)

abbrev pub pass {ℓ} : {A : Type ℓ} → A → Shelving A
pass a s = some (a, s)

abbrev pub raise {ℓ} : {A : Type ℓ} → Shelving A
raise s = none

-- What has no effect on the shelve.
abbrev pub lift {ℓ} : {A : Type ℓ} → Option A → Shelving A
lift none = raise
lift (some a) = pass a

-- The rest of a computation after a step.
abbrev pub resume {ℓ κ} :
    {A : Type ℓ} {B : Type κ} → Option (A × Shelve) → (A → Shelving B) → Option (B × Shelve)
resume none f = none
resume (some (a, s)) f = f a s

infixl 5 ◌>>=◌
abbrev pub ◌>>=◌ {ℓ κ} : {A : Type ℓ} {B : Type κ} → Shelving A → (A → Shelving B) → Shelving B
(m >>= f) s = resume (m s) f

unfoldable pub gather : (Object → Shelving Object) → Objects → Shelving Objects
gather f empty = pass empty
gather f (item x xs) = do y ← f x; ys ← gather f xs; pass (item y ys)

unfoldable pub gather_fields : (Object → Shelving Object) → Fields → Shelving Fields
gather_fields f end = pass end
gather_fields f (field k x xs) = do y ← f x; ys ← gather_fields f xs; pass (field k y ys)

module _ (rt : Runtime) where
  -- The server's new drawer depends on the label of the value, which the value itself gives.
  unfoldable pub aput_on_shelve : String → Object → Shelving String
  aput_on_shelve identifier v s = elim (rt.new_drawer s identifier v) [
    | none ↦ none
    | some d ↦ some (d, put s d v)
  ]

-- assert key in self.shelve
abbrev pub aget_from_shelve : Shelve → String → Option Object
aget_from_shelve s key = get s key

-- del self.shelve[key]: a KeyError where there is no such drawer
unfoldable pub acollect : String → Shelving (Unit {0})
acollect key s = if has s key then some (tt, remove s key) else none
