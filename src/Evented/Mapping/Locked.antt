-- ===== src/Evented/Mapping/Locked.antt =====
-- Without the required locks an `EventedDict` is read-only.
use rekuest_next.Prelude.{String, ◌≡◌, List, ◌∷◌}
use rekuest_next.Evented.{raised, runtime_error, Env, Item, missing_locks, check_refused}
use rekuest_next.Evented.Mapping.{
  EventedDict, set_item, del_item, pop, popitem, clear, setdefault, update,
}
use rekuest_next.Evented.Mapping.Calls.{Call, perform}

-- A task that lacks one of the required locks gets a RuntimeError from every mutating call on an
-- event-emitting dict, which keeps its contents and publishes nothing.
pub dict_locked {ℓ} :
    {A : Type ℓ} (env : Env) ⦃item : Item A⦄ (c : Call A) (s : EventedDict A) (l : String)
    (ls : List String)
    → missing_locks env ≡ l ∷ ls
    → perform env c s ≡ (raised runtime_error, s)
unfolding perform set_item del_item pop popitem clear setdefault update
dict_locked env (Call.sets k v) s l ls h = rw (check_refused env s l ls h)
dict_locked env (Call.deletes k) s l ls h = rw (check_refused env s l ls h)
dict_locked env (Call.pops k v) s l ls h = rw (check_refused env s l ls h)
dict_locked env _ s l ls h = rw (check_refused env s l ls h)
