-- ===== src/Evented/Sequence/Calls.antt =====
-- The mutating calls on an `EventedList`, but for slice assignment, and a program as a sequence of them. What
-- a call raises is caught, and the program goes on. Slice assignment (`set_slice`) is not among the calls:
-- it changes the length of a list and publishes no patch for that. Nor is the extension of a list by
-- itself, which does not end.
use rekuest_next.Prelude.{ℕ, ◌≡◌, List, [], ◌∷◌, length}
use rekuest_next.Pointer.{ℤ, pos, negsuc}
use rekuest_next.Evented.{◌>>=◌, pure, Env, Item}
use rekuest_next.Evented.Sequence.{
  EventedList, M, set_item, del_item, del_slice, append, insert, extend, pop, remove_item, clear,
  rearrange, imul,
}

-- `rearranges` stands for `reverse` and for `sort`, `multiplies` for `*=`, `extends` for `+=` too.
pub data Call {ℓ} (A : Type ℓ) : Type ℓ where
  sets : ℤ → A → Call A
  deletes : ℤ → Call A
  deletes_slice : ℕ → ℕ → Call A
  appends : A → Call A
  inserts : ℤ → A → Call A
  extends : List A → Call A
  pops : ℤ → Call A
  removes : A → Call A
  clears : Call A
  rearranges : (List A → List A) → Call A
  multiplies : ℤ → Call A

-- The calls whose paths name an element: subscripts are not negative, but for `pop()`; what
-- rearranges a list keeps its length.
pub data Forward {ℓ} {A : Type ℓ} : Call A → Type ℓ where
  sets : (i : ℕ) (v : A) → Forward (Call.sets (pos i) v)
  deletes_slice : (a b : ℕ) → Forward (Call.deletes_slice a b)
  deletes : (i : ℕ) → Forward (Call.deletes (pos i))
  appends : (v : A) → Forward (Call.appends v)
  inserts : (i : ℤ) (v : A) → Forward (Call.inserts i v)
  extends : (vs : List A) → Forward (Call.extends vs)
  pops : (i : ℕ) → Forward (Call.pops (pos i))
  pops_last : Forward (Call.pops (negsuc 0))
  removes : (v : A) → Forward (Call.removes v)
  clears : Forward Call.clears
  rearranges :
      (permute : List A → List A)
      → ((xs : List A) → length (permute xs) ≡ length xs)
      → Forward (Call.rearranges permute)
  multiplies : (i : ℤ) → Forward (Call.multiplies i)

abbrev pub AllForward {ℓ} : {A : Type ℓ} → List (Call A) → Type ℓ
AllForward [] = Unit
AllForward (c ∷ cs) = Forward c × AllForward cs

module _ {ℓ} {A : Type ℓ} (env : Env) ⦃item : Item A⦄ where
  unfoldable pub perform : Call A → M A (Unit {0})
  perform (Call.sets i v) = set_item env i v
  perform (Call.deletes i) = del_item env i
  perform (Call.deletes_slice a b) = del_slice env a b
  perform (Call.appends v) = append env v
  perform (Call.inserts i v) = insert env i v
  perform (Call.extends vs) = extend env vs
  perform (Call.pops i) = pop env i >>= λ _. pure tt
  perform (Call.removes v) = remove_item env v
  perform Call.clears = clear env
  perform (Call.rearranges permute) = rearrange env permute
  perform (Call.multiplies i) = imul env i

  unfoldable pub run : List (Call A) → EventedList A → EventedList A
  run [] s = s
  run (c ∷ cs) s = run cs (perform c s).1
