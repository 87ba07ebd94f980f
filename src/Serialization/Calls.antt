-- ===== src/Serialization/Calls.antt =====
-- The ports of a whole action: `expand_inputs` and `shrink_outputs` of
-- rekuest_next/structures/serialization/actor.py, `ashrink_args` and `aexpand_returns` of
-- rekuest_next/structures/serialization/postman.py. `none` is an exception.
use rekuest_next.Prelude.{Bool, true, false, not, ◌||◌, Option, none, some, if◌then◌else◌}
use rekuest_next.Objects.{
  ◌>>=◌, is_none, get_field, set_field, Object, null, Objects, empty, item, Fields, end,
}
use rekuest_next.Ports.{key_of, info_of, Port, Ports, nil, cons}
use rekuest_next.Serialization.{Runtime}
use rekuest_next.Serialization.Shelving.{Shelve, Shelving, pass, resume}
use rekuest_next.Serialization.Shrinking.{ashrink_return, zip_ports}
use rekuest_next.Serialization.Expanding.{aexpand_arg}
use rekuest_next.Serialization.Postman.{ashrink_arg, aexpand_return}

-- What an actor's function gives: nothing, a tuple, or any other object.
pub data Returned : Type 0 where
  nothing : Returned
  single : Object → Returned
  tuple : Objects → Returned

abbrev pub returned_values : Returned → Objects
returned_values nothing = empty
returned_values (single v) = item v empty
returned_values (tuple vs) = vs

module _ (rt : Runtime) where
  -- asyncio.gather over the ports of the definition
  unfoldable pub expand_each : Shelve → Ports → Fields → Option Objects
  expand_each s nil args = some empty
  expand_each s (cons p ps) args = do
    y ← aexpand_arg rt s p (get_field args (key_of p))
    ys ← expand_each s ps args
    some (item y ys)

  -- args.get(port.key, None), without the expansion
  unfoldable pub take_each : Ports → Fields → Objects
  take_each nil args = empty
  take_each (cons p ps) args =
      item (elim (get_field args (key_of p)) [ none ↦ null | some v ↦ v ]) (take_each ps args)

  unfoldable pub expand_inputs : Ports → Fields → Shelve → Bool → Option Fields
  expand_inputs ps args s true = some (zip_ports ps (take_each ps args) end)
  expand_inputs ps args s false = do vs ← expand_each s ps args; some (zip_ports ps vs end)

  -- The values through the ports, one for each: the assertion on the lengths.
  unfoldable pub shrink_each : Ports → Objects → Shelving Objects
  shrink_each nil empty s = some (empty, s)
  shrink_each (cons p ps) (item v vs) s =
      resume (ashrink_return rt p v s) λ j. λ t. resume (shrink_each ps vs t) λ js. pass (item j js)
  shrink_each ps vs s = none

  -- len(action.returns) == len(returns)
  abbrev pub same_length : Ports → Objects → Bool
  same_length nil empty = true
  same_length (cons p ps) (item v vs) = same_length ps vs
  same_length ps vs = false

  unfoldable pub shrink_outputs : Ports → Returned → Bool → Shelving Fields
  shrink_outputs ps returns skip s =
      let vs = returned_values returns in
      if same_length ps vs
      then if skip
        then some (zip_ports ps vs end, s)
        else resume (shrink_each ps vs s) (λ js. pass (zip_ports ps js end))
      else none

  -- The next positional argument, else the one under the port's key, else `None` where the port has a
  -- default or is nullable. The rest of the positional arguments comes along.
  unfoldable pub next_arg : Port → Objects → Fields → Option (Object × Objects)
  next_arg p (item a args) kwargs = some (a, args)
  next_arg p empty kwargs = elim (get_field kwargs (key_of p)) [
    | some a ↦ some (a, empty)
    | none ↦
        if (info_of p).nullable || not (is_none (info_of p).default)
        then some (null, empty)
        else none
  ]

  unfoldable pub shrink_args_onto : Ports → Objects → Fields → Fields → Option Fields
  shrink_args_onto nil args kwargs shrinked_kwargs = some shrinked_kwargs
  shrink_args_onto (cons p ps) args kwargs shrinked_kwargs = do
    (a, rest) ← next_arg p args kwargs
    j ← ashrink_arg rt p a
    shrink_args_onto ps rest kwargs (set_field shrinked_kwargs (key_of p) j)

  abbrev pub ashrink_args : Ports → Objects → Fields → Option Fields
  ashrink_args ps args kwargs = shrink_args_onto ps args kwargs end

  -- A missing key of a nullable port is written into `returns`.
  unfoldable pub return_of : Port → Fields → Option (Object × Fields)
  return_of p returns = elim (get_field returns (key_of p)) [
    | none ↦ if (info_of p).nullable then some (null, set_field returns (key_of p) null) else none
    | some j ↦ elim (aexpand_return rt p j) [ none ↦ none | some v ↦ some (v, returns) ]
  ]

  unfoldable pub aexpand_returns : Ports → Fields → Option (Objects × Fields)
  aexpand_returns nil returns = some (empty, returns)
  aexpand_returns (cons p ps) returns = do
    (v, after) ← return_of p returns
    (vs, last) ← aexpand_returns ps after
    some (item v vs, last)
