-- ===== src/Evented/Sequence/Loops.antt =====
-- The looping operations of `EventedList` keep the receiver in step, and so does any sequence of
-- operations.
use rekuest_next.Prelude.{ℕ, ◌≡◌, true, some, List, [], ◌++◌, map, length}
use rekuest_next.Pointer.{Text}
use rekuest_next.Evented.{Env, Item, missing_locks}
use rekuest_next.Evented.Sequence.{EventedList}
use rekuest_next.Evented.Receiver.{receive}
use rekuest_next.Evented.Sequence.Mirror.{ListPatcher, ItemLaws, Mirrors}
use rekuest_next.Evented.Sequence.Steps

module _ {ℓ κ} {A : Type ℓ} {B : Type κ} (plain : A → B) {base : Text}
    (patcher : ListPatcher B base) (start : List B) (env : Env) ⦃item : Item A⦄
    (laws : ItemLaws item plain) (held : missing_locks env ≡ [])
    (publishing : env.has_publisher ≡ true) where
  abbrev Followed : EventedList A → Type (ℓ ⊔ κ)
  Followed = Mirrors plain patcher start

  -- While the changes of a rearrangement go out: the receiver has the first `i` of the new items.
  record Halfway (i : ℕ) (pre olds news : List A) (s : EventedList A) : Type (ℓ ⊔ κ) where
    done : length pre ≡ i
    current : s.contents ≡ pre ++ news
    followed : receive plain patcher.apply s.sent (some start) ≡ some (map plain (pre ++ olds))
    place : s.path ≡ base
