-- ===== src/Evented/Sequence/Locked.antt =====
-- Without the required locks an `EventedList` is read-only.
use rekuest_next.Prelude.{zero, suc, String, ◌≡◌, List, ◌∷◌}
use rekuest_next.Pointer.{pos, negsuc}
use rekuest_next.Evented.{raised, runtime_error, Env, Item, missing_locks, check_refused}
use rekuest_next.Evented.Sequence.{
  EventedList, set_item, del_item, append, insert, extend, pop, remove_item, clear, rearrange, imul,
  del_slice,
}
use rekuest_next.Evented.Sequence.Calls.{Call, perform}

-- A task that lacks one of the required locks gets a RuntimeError from every mutating call but slice assignment
-- on an event-emitting list, which keeps its contents and publishes nothing.
pub list_locked {ℓ} :
    {A : Type ℓ} (env : Env) ⦃item : Item A⦄ (c : Call A) (s : EventedList A) (l : String)
    (ls : List String)
    → missing_locks env ≡ l ∷ ls
    → perform env c s ≡ (raised runtime_error, s)
unfolding perform set_item del_item del_slice append insert extend pop remove_item clear rearrange
    imul
list_locked env (Call.multiplies (pos zero)) s l ls h = rw (check_refused env s l ls h)
list_locked env (Call.multiplies (pos (suc n))) s l ls h = rw (check_refused env s l ls h)
list_locked env (Call.multiplies (negsuc k)) s l ls h = rw (check_refused env s l ls h)
list_locked env _ s l ls h = rw (check_refused env s l ls h)
