-- ===== src/Locks/Groups.antt =====
-- The assignments of one agent that take their `LockGroup`s at the same time (`LockGroup.acquire` and
-- `LockGroup.release` of rekuest_next/agents/lock.py): who waits for a lock, who gets it, who leaves.
-- Notifications succeed, and a task that has all its locks runs until it leaves.
use rekuest_next.Prelude.{
  ℕ, zero, suc, String, Bool, false, ◌||◌, Option, none, some, List, [], ◌∷◌, if◌then◌else◌, all,
  contains,
}
use rekuest_next.History.Sorting.{sorted_by}

-- The locks that the loop of `acquire` has still to take, in its order, and those it has.
pub data Task : Type 0 where
  task : (todo held : List String) → Task

-- A task before its `acquire`
abbrev pub new_task : (String → ℕ) → List String → Task
new_task rank locks = task (sorted_by rank locks) []

-- Is the lock of this key taken?
unfoldable pub taken : List Task → String → Bool
taken [] k = false
taken (task todo held ∷ ts) k = contains held k || taken ts k

-- The turn of the i-th task among all: it takes its next lock if that is free, else it waits, which is
-- no turn; with all its locks it gives them back and leaves.
unfoldable pub turn_of : List Task → ℕ → List Task → Option (List Task)
unfolding taken
turn_of all i [] = none
turn_of all zero (task [] held ∷ ts) = some ts
turn_of all zero (task (k ∷ ks) held ∷ ts) =
    if taken all k then none else some (task ks (k ∷ held) ∷ ts)
turn_of all (suc i) (t ∷ ts) =
    let rest = turn_of all i ts in elim rest [ none ↦ none | some us ↦ some (t ∷ us) ]

abbrev pub turn : ℕ → List Task → Option (List Task)
turn i ts = turn_of ts i ts

-- Turns in the order that the event loop gives them
unfoldable pub turns : List ℕ → List Task → Option (List Task)
turns [] ts = some ts
turns (i ∷ is) ts = elim (turn i ts) [ none ↦ none | some us ↦ turns is us ]
