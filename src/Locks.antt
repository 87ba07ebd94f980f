-- ===== src/Locks.antt =====
-- rekuest_next/agents/lock.py: `TaskLock` and `LockGroup`, the locks that an assignment holds while
-- it runs, as its own group sees them. What other groups do shows in how long a wait lasts only; a
-- wait that never ends is left out.
pub mod Covers
pub mod Holding
pub mod Groups
pub mod Deadlock
mod Tests
use rekuest_next.Prelude.{
  ℕ, ◌+◌, ◌-◌, ◌/◌, String, not, List, [], ◌∷◌, ◌++◌, reverse, str_eq, filter, all,
}
use rekuest_next.Evented.{Result}
use rekuest_next.History.Sorting.{sorted_by}

-- How `TaskLock.acquire` of a key goes: it is cancelled in `lock.acquire()`, `agent.alock` raises, or
-- all goes well.
pub data Acquiring : Type 0 where
  interrupted refused granted : Acquiring

-- How `agent.aunlock` of a key goes: well, with an `Exception`, or with a cancellation, which is a
-- `BaseException` and no `Exception`.
pub data Releasing : Type 0 where
  done failed cancelled : Releasing

-- What the agent is told, in this order
pub data Notice : Type 0 where
  alock aunlock : (key : String) → Notice

-- What an `async with` of the group can raise
pub data Outcome : Type 0 where
  fine : Outcome
  raises : Outcome

-- `held` are the keys whose `asyncio.Lock` the group has, `acquired_locks` those that it keeps track of.
pub record Group : Type 0 where
  pub held : List String
  pub acquired_locks : List String
  pub notices : List Notice

-- `lock_key`s, `acquire` of each key, and `aunlock` of each key
pub record World : Type 0 where
  pub rank : String → ℕ
  pub acquiring : String → Acquiring
  pub releasing : String → Releasing

abbrev pub unheld : String → List String → List String
unheld key keys = filter (λ k. not (str_eq key k)) keys

module _ (world : World) where
  open world use {rank, acquiring, releasing}

  abbrev pub hold : String → Group → Group
  hold key g = record g { held = g.held ++ key ∷ []; notices = g.notices ++ alock key ∷ [] }

  abbrev pub unhold : String → Group → Group
  unhold key g = record g { held = unheld key g.held }

  -- `TaskLock.acquire`: a refused notification gives the lock back.
  unfoldable pub acquire_lock : String → Group → Outcome × Group
  acquire_lock key g = elim (acquiring key) [
    | interrupted ↦ (raises, g)
    | refused ↦ (raises, unhold key (hold key g))
    | granted ↦ (fine, hold key g)
  ]

  -- `TaskLock.release`: the lock is given back however the notification goes.
  unfoldable pub release_lock : String → Group → Releasing × Group
  release_lock key g =
      (releasing key, unhold key (record g { notices = g.notices ++ aunlock key ∷ [] }))

  abbrev pub track : String → Group → Group
  track key g = record g { acquired_locks = g.acquired_locks ++ key ∷ [] }

  -- The loop of `LockGroup.acquire`
  unfoldable pub acquire_each : List String → Group → Outcome × Group
  acquire_each [] g = (fine, g)
  acquire_each (key ∷ keys) g =
      let (outcome, g') = acquire_lock key g in
      let rest = acquire_each keys (track key g') in
      elim outcome [ fine ↦ rest | raises ↦ (raises, g') ]

  -- The loop of `LockGroup.release`, on the reversed list: an `Exception` is logged only.
  unfoldable pub release_each : List String → Group → Outcome × Group
  unfolding release_lock
  release_each [] g = (fine, record g { acquired_locks = [] })
  release_each (key ∷ keys) g =
      let (how, g') = release_lock key g in
      let rest = release_each keys g' in elim how [ cancelled ↦ (raises, g') | _ ↦ rest ]

  -- `LockGroup.acquire`, in the order of the keys
  unfoldable pub acquire : List String → Group → Outcome × Group
  unfolding acquire_each
  acquire locks g = acquire_each (sorted_by rank locks) g

  unfoldable pub release : Group → Outcome × Group
  unfolding release_each
  release g = release_each (reverse g.acquired_locks) g

  -- `__aenter__`
  unfoldable pub enter : List String → Group → Outcome × Group
  unfolding acquire release
  enter locks g =
      let (outcome, g') = acquire locks g in
      elim outcome [ fine ↦ (fine, g') | raises ↦ (raises, (release g').1) ]

abbrev pub new_group : Group
new_group = record { held = []; acquired_locks = []; notices = [] }
