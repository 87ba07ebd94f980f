-- ===== src/Evented/Sequence/Mirror.antt =====
-- A receiver that applies the published patches of an `EventedList` holds the list's contents.
use rekuest_next.Prelude.{
  ℕ, ◌≤◌, ◌<◌, ◌≡◌, true, none, some, List, [], ◌∷◌, ◌++◌, map, length, set, insert_at, remove_at,
}
use rekuest_next.Pointer.{Text, index, pos, make_path}
use rekuest_next.Evented.Receiver.{receive, Apply}
use rekuest_next.Evented.{add, remove, replace, Item}
use rekuest_next.Evented.Sequence.{EventedList}

-- A JSON Patch library (RFC 6902) as it acts on the array at `base`, with the elements as they are
-- on the wire.
pub record ListPatcher {ℓ} (B : Type ℓ) (base : Text) : Type ℓ where
  pub apply : Apply (List B) B
  pub replace_at :
      (xs : List B) (i : ℕ) (v : B)
      → i < length xs
      → apply xs replace (make_path base (index (pos i))) (some v) ≡ some (set xs i v)
  pub add_at :
      (xs : List B) (i : ℕ) (v : B)
      → i ≤ length xs
      → apply xs add (make_path base (index (pos i))) (some v) ≡ some (insert_at xs i v)
  pub add_end :
      (xs : List B) (v : B) → apply xs add (base ++ b'/' ∷ b'-' ∷ []) (some v) ≡ some (xs ++ v ∷ [])
  pub remove_of :
      (xs : List B) (i : ℕ)
      → i < length xs
      → apply xs remove (make_path base (index (pos i))) none ≡ some (remove_at xs i)

module _ {ℓ κ} {A : Type ℓ} {B : Type κ} (plain : A → B) {base : Text}
    (patcher : ListPatcher B base) where
  -- The receiver began with `start` and has followed every patch.
  pub record Mirrors (start : List B) (s : EventedList A) : Type (ℓ ⊔ κ) where
    pub followed : receive plain patcher.apply s.sent (some start) ≡ some (map plain s.contents)
    pub place : s.path ≡ base

-- What the mirror asks of the values: a new path is not seen on the wire, and what `==` takes for
-- equal looks the same there.
pub record ItemLaws {ℓ κ} {A : Type ℓ} {B : Type κ} (item : Item A) (plain : A → B)
    : Type (ℓ ⊔ κ) where
  pub moved : (p : Text) (a : A) → plain (item.set_path p a) ≡ plain a
  pub same_sound : (a b : A) → item.same a b ≡ true → plain a ≡ plain b
