-- ===== src/Evented/Sequence.antt =====
-- rekuest_next/state/observable.py, `EventedList`. Indices are Python ints, as `ℤ`; a slice is given
-- by its bounds after `slice.indices`, with step 1. What `__init__` wraps is in `Value`.
pub mod Mirror
pub mod Locked
pub mod Negative
pub mod Steps
pub mod Calls
pub mod Loops
use rekuest_next.Prelude.{
  ℕ, zero, suc, ◌+◌, ◌-◌, ◌/◌, min, ap, Bool, Option, none, some, List, [], ◌∷◌, ◌++◌, reverse, ltb,
  if◌then◌else◌, length, get_elem?, set, take, drop, insert_at, remove_at, all,
}
use rekuest_next.Ports.{Port}
use rekuest_next.Pointer.{index, ℤ, pos, negsuc, make_path}
use rekuest_next.Evented.{
  Act, pure, or_raise, gets, ◌>>=◌, ◌>>◌, index_error, value_error, Env, resolve_child_port, add,
  remove, replace, Item, Node, check_if_has_required_locks, publish_patch, make_patch, write,
  child_port, Text,
}

-- i + n for a length n, as Python adds them
pub shift : ℤ → ℕ → ℤ
shift (pos i) n = pos (n + i)
shift (negsuc k) n = if ltb k n then pos (n - suc k) else negsuc (k - n)

-- The index that `pop` goes on with.
pub pop_index : ℤ → ℕ → ℤ
unfolding shift
pop_index (pos i) n = pos i
pop_index (negsuc k) n = shift (negsuc k) n

-- The position that a subscript means in a list of n elements; `none` is an IndexError.
pub position : ℤ → ℕ → Option ℕ
position (pos i) n = if ltb i n then some i else none
position (negsuc k) n = if ltb k n then some (n - suc k) else none

-- The index at which `list.insert` puts an element, as `insert` normalises it.
pub clamp : ℤ → ℕ → ℕ
clamp (pos i) n = min i n
clamp (negsuc k) n = n - suc k

-- range(i, n) of Python ints
pub count_up : ℕ → ℕ → List ℤ
count_up i zero = []
count_up i (suc m) = pos i ∷ count_up (suc i) m

pub int_range : ℤ → ℕ → List ℤ
unfolding count_up
int_range (pos i) n = count_up i (n - i)
int_range (negsuc zero) n = negsuc zero ∷ count_up 0 n
int_range (negsuc (suc k)) n = negsuc (suc k) ∷ int_range (negsuc k) n

abbrev pub EventedList {ℓ} : Type ℓ → Type ℓ
EventedList A = Node (List A) A

abbrev pub M {ℓ κ} : Type ℓ → Type κ → Type (ℓ ⊔ κ)
M A T = Act (EventedList A) T

module _ {ℓ} {A : Type ℓ} where
  -- list.index(item)
  pub index_of : (A → A → Bool) → ℕ → List A → A → Option ℕ
  index_of same n [] item = none
  index_of same n (x ∷ xs) item = if same x item then some n else index_of same (suc n) xs item

module _ {ℓ} {A : Type ℓ} (env : Env) ⦃item : Item A⦄ where
  open item use {make_evented, set_path, same}

  -- The body of the loop in `_reindex_items`; a child that is no container keeps no path.
  reindex_item : ℤ → M A (Unit {0})
  unfolding position
  reindex_item i = do
    xs ← gets (λ s. s.contents)
    base ← gets (λ s. s.path)
    p ← or_raise (position i (length xs)) index_error
    x ← or_raise (get_elem? xs p) index_error
    write env (set xs p (set_path (make_path base (index i)) x))

  reindex_loop : List ℤ → M A (Unit {0})
  reindex_loop [] = pure tt
  reindex_loop (i ∷ is) = reindex_item i >> reindex_loop is

  unfoldable pub reindex_items : ℤ → M A (Unit {0})
  unfolding reindex_item reindex_loop int_range
  reindex_items start = do
    check_if_has_required_locks env
    n ← gets (λ s. length s.contents)
    reindex_loop (int_range start n)

  -- `__setitem__` at an index
  unfoldable pub set_item : ℤ → A → M A (Unit {0})
  unfolding position
  set_item i value = do
    check_if_has_required_locks env
    xs ← gets (λ s. s.contents)
    base ← gets (λ s. s.path)
    let full_path = make_path base (index i)
    p ← or_raise (position i (length xs)) index_error
    old ← or_raise (get_elem? xs p) index_error
    port ← child_port env (index i)
    let value = make_evented value full_path port
    write env (set xs p value)
    publish_patch env (make_patch env replace full_path (some value) (some old) port)

  -- `__delitem__` at an index
  unfoldable pub del_item : ℤ → M A (Unit {0})
  unfolding position
  del_item i = do
    check_if_has_required_locks env
    xs ← gets (λ s. s.contents)
    base ← gets (λ s. s.path)
    let full_path = make_path base (index i)
    p ← or_raise (position i (length xs)) index_error
    old ← or_raise (get_elem? xs p) index_error
    port ← child_port env (index i)
    write env (remove_at xs p)
    publish_patch env (make_patch env remove full_path none (some old) port)
    reindex_items i

  del_down : ℕ → ℕ → M A (Unit {0})
  del_down a zero = pure tt
  del_down a (suc n) = del_item (pos (a + n)) >> del_down a n

  -- `__delitem__` at the slice from `a` to `b`: the indices from the last to the first
  unfoldable pub del_slice : ℕ → ℕ → M A (Unit {0})
  unfolding del_down
  del_slice a b = check_if_has_required_locks env >> del_down a (b - a)

  -- The loop over the overlapping indices of `__setitem__` at a slice, `n` of them from `idx`.
  set_overlap : ℕ → ℕ → List A → M A (Unit {0})
  set_overlap zero idx values = pure tt
  set_overlap (suc n) idx [] = pure tt
  set_overlap (suc n) idx (v ∷ values) = do
    len ← gets (λ s. length s.contents)
    (if ltb idx len then set_item (pos idx) v else pure tt)
    set_overlap n (suc idx) values

  make_each : Text → Option Port → ℕ → List A → List A
  make_each base port i [] = []
  make_each base port i (v ∷ values) =
      make_evented v (make_path base (index (pos i)))
        (resolve_child_port env.config port (index (pos i)))
      ∷ make_each base port (suc i) values

  -- `__setitem__` at the slice from `a` to `b`
  unfoldable pub set_slice : ℕ → ℕ → List A → M A (Unit {0})
  unfolding set_overlap make_each
  set_slice a b values = do
    check_if_has_required_locks env
    set_overlap (b - a) a values
    xs ← gets (λ s. s.contents)
    base ← gets (λ s. s.path)
    port ← gets (λ s. s.port)
    write env (take a xs ++ (make_each base port a values ++ drop (a + (b - a)) xs))
    reindex_items (pos 0)

  unfoldable pub append : A → M A (Unit {0})
  append value = do
    check_if_has_required_locks env
    xs ← gets (λ s. s.contents)
    base ← gets (λ s. s.path)
    let at_end = index (pos (length xs))
    port ← child_port env at_end
    let value = make_evented value (make_path base at_end) port
    write env (xs ++ value ∷ [])
    publish_patch env (make_patch env add (base ++ b'/' ∷ b'-' ∷ []) (some value) none port)

  unfoldable pub insert : ℤ → A → M A (Unit {0})
  unfolding clamp
  insert i value = do
    check_if_has_required_locks env
    xs ← gets (λ s. s.contents)
    base ← gets (λ s. s.path)
    let idx = clamp i (length xs)
    let full_path = make_path base (index (pos idx))
    port ← child_port env (index (pos idx))
    let value = make_evented value full_path port
    write env (insert_at xs idx value)
    publish_patch env (make_patch env add full_path (some value) none port)
    reindex_items (pos (suc idx))

  append_each : List A → M A (Unit {0})
  append_each [] = pure tt
  append_each (x ∷ xs) = append x >> append_each xs

  -- For an iterable other than the list itself: over its own growing elements the loop has no end.
  unfoldable pub extend : List A → M A (Unit {0})
  unfolding append_each
  extend items = check_if_has_required_locks env >> append_each items

  unfoldable pub pop : ℤ → M A A
  unfolding position pop_index
  pop i = do
    check_if_has_required_locks env
    xs ← gets (λ s. s.contents)
    base ← gets (λ s. s.path)
    let idx = pop_index i (length xs)
    let full_path = make_path base (index idx)
    p ← or_raise (position idx (length xs)) index_error
    old ← or_raise (get_elem? xs p) index_error
    port ← child_port env (index idx)
    write env (remove_at xs p)
    publish_patch env (make_patch env remove full_path none (some old) port)
    reindex_items idx
    pure old

  unfoldable pub remove_item : A → M A (Unit {0})
  unfolding index_of
  remove_item value = do
    check_if_has_required_locks env
    xs ← gets (λ s. s.contents)
    p ← or_raise (index_of same 0 xs value) value_error
    del_item (pos p)

  -- `while len(self) > 0: self.pop()`, over the length at the start, which each round lowers by one
  clear_loop : ℕ → M A (Unit {0})
  clear_loop zero = pure tt
  clear_loop (suc n) = pop (negsuc 0) >>= λ _. clear_loop n

  unfoldable pub clear : M A (Unit {0})
  unfolding clear_loop
  clear = do check_if_has_required_locks env; n ← gets (λ s. length s.contents); clear_loop n

  -- The loop of `reverse` and `sort` over the old and the new items.
  publish_changes : ℕ → List A → List A → M A (Unit {0})
  publish_changes i (old ∷ olds) (new ∷ news) = do
    base ← gets (λ s. s.path)
    port ← child_port env (index (pos i))
    let rest = publish_changes (suc i) olds news
    if same old new then rest else do
      publish_patch env
          (make_patch env replace (make_path base (index (pos i))) (some new) (some old) port)
      rest
  publish_changes i [] news = pure tt
  publish_changes i olds [] = pure tt

  -- `reverse` and `sort` differ in how the built-in rearranges the list.
  unfoldable pub rearrange : (List A → List A) → M A (Unit {0})
  unfolding publish_changes
  rearrange permute = do
    check_if_has_required_locks env
    old ← gets (λ s. s.contents)
    write env (permute old)
    publish_changes 0 old (permute old)
    reindex_items (pos 0)

  -- `__imul__`
  extend_times : ℕ → List A → M A (Unit {0})
  extend_times zero original = pure tt
  extend_times (suc n) original = extend original >> extend_times n original

  unfoldable pub imul : ℤ → M A (Unit {0})
  unfolding extend_times
  imul (pos (suc n)) = do
    check_if_has_required_locks env
    original ← gets (λ s. s.contents)
    extend_times n original
  imul i = check_if_has_required_locks env >> clear
