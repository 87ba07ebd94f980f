-- ===== src/Evented/Tests.antt =====
-- Concrete inputs for the theorems on the event-emitting containers.
use rekuest_next.Prelude.{
  ℕ, suc, ◌≡◌, refl, ◌∙◌, Bool, true, false, Option, none, some, List, [], ◌∷◌, ◌++◌, reverse,
  arith, ltb, leb, ◌==◌, if◌then◌else◌, length, set, drop, insert_at, remove_at,
}
use rekuest_next.Prelude.Dict.{Dict, has, put, remove}
use rekuest_next.Pointer.{Text, codes, index, pos, negsuc, make_path, decimal}
use rekuest_next.Pointer.Decimal.{Digits, decimal-Digits, read_digits, read_digits-decimal}
use rekuest_next.Pointer.Tokens.{make_path-index}
use rekuest_next.Ports.{Ports}
use rekuest_next.Evented.{Env, Op, Item, missing_locks, raised, runtime_error}
use rekuest_next.Evented.Receiver.{Apply, receive}
use rekuest_next.Evented.Sequence.{EventedList}
use rekuest_next.Pointer.Codes.{drop-append, key_of_path, key_of_path-make_path}
use rekuest_next.Evented.Sequence.Calls.{Call, run, perform}
use rekuest_next.Evented.Mapping.{EventedDict}
use rekuest_next.Evented.Mapping.Calls as DictCalls
use rekuest_next.Evented.Mapping.Mirror as DictMirror
use rekuest_next.Evented.Value.{make_evented, seq, dict, num, nil, item, end, field}
use rekuest_next.Evented.Value.Places.{WellPlaced, make_evented-WellPlaced}
use rekuest_next.Evented.Mapping.Mirror.{DictPatcher}
use rekuest_next.Evented.Sequence.Locked.{list_locked}
use rekuest_next.Evented.{check_if_has_required_locks, publish_patch, write, child_port}
use rekuest_next.Evented.Sequence.{
  set_item, del_item, append, insert, extend, pop, rearrange, imul, reindex_items,
}
use rekuest_next.Evented.Sequence.Mirror.{Mirrors, ListPatcher}

-- Numbers need no wrapping.
instance abbrev pub number_item : Item ℕ
number_item = record { make_evented = λ a p q. a; set_path = λ p a. a; same = ◌==◌ }

abbrev pub env : Env
env = record {
  config = record { state_name = "s"; definition = Ports.nil; required_locks = "stage" ∷ [] };
  acquired_locks = "stage" ∷ [];
  has_publisher = true;
  task_id = some "t";
}

-- A JSON Patch library for one array: the last token is `-` or a number.
last_token : Text → Text → Text
last_token base path = drop (suc (length base)) path

is_dash : Text → Bool
is_dash [] = false
is_dash (c ∷ []) = c == b'-'
is_dash (c ∷ d ∷ t) = false

is_dash-Digits : (t : Text) → Digits t → is_dash t ≡ false
unfolding is_dash
is_dash-Digits [] h = refl
is_dash-Digits (c ∷ []) h = ground arith
is_dash-Digits (c ∷ d ∷ t) h = refl

at_index : List ℕ → Op → Bool → ℕ → Option ℕ → Option (List ℕ)
at_index xs Op.add true i (some v) = some (xs ++ v ∷ [])
at_index xs Op.add false i (some v) = if leb i (length xs) then some (insert_at xs i v) else none
at_index xs Op.replace false i (some v) = if ltb i (length xs) then some (set xs i v) else none
at_index xs Op.remove false i none = if ltb i (length xs) then some (remove_at xs i) else none
at_index xs op dash i v = none

apply_number : Text → Apply (List ℕ) ℕ
unfolding at_index
apply_number base xs op path v =
    let t = last_token base path in at_index xs op (is_dash t) (read_digits 0 t) v

apply_number-index :
    (base : Text) (xs : List ℕ) (op : Op) (i : ℕ) (v : Option ℕ)
    → apply_number base xs op (make_path base (index (pos i))) v ≡ at_index xs op false i v
unfolding apply_number is_dash last_token
apply_number-index base xs op i v = rw (
  make_path-index base i,
  drop-append,
  is_dash-Digits (decimal i) (decimal-Digits i),
  read_digits-decimal,
)

pub number_patcher : (base : Text) → ListPatcher ℕ base
unfolding at_index is_dash
number_patcher base = record {
  apply = apply_number base;
  replace_at = λ xs i v h. apply_number-index base xs Op.replace i (some v) ∙ ground arith;
  add_at = λ xs i v h. apply_number-index base xs Op.add i (some v) ∙ ground arith;
  add_end = λ xs v. unfold apply_number last_token in rw (drop-append base (b'-' ∷ []));
  remove_of = λ xs i h. apply_number-index base xs Op.remove i none ∙ ground arith;
}

apply_member : Text → Apply (Dict ℕ) ℕ
apply_member base d Op.add path (some v) = some (put d (key_of_path base path) v)
apply_member base d Op.replace path (some v) =
    if has d (key_of_path base path) then some (put d (key_of_path base path) v) else none
apply_member base d Op.remove path none =
    if has d (key_of_path base path) then some (remove d (key_of_path base path)) else none
apply_member base d op path v = none

member_patcher : (base : Text) → DictPatcher ℕ base
unfolding apply_member
member_patcher base = record {
  apply = apply_member base;
  add_key = λ d k v. rw (key_of_path-make_path base k);
  replace_key = λ d k v h. rw (key_of_path-make_path base k, h);
  remove_key = λ d k h. rw (key_of_path-make_path base k, h);
}

abbrev pub numbers : EventedList ℕ
numbers = record { contents = 3 ∷ 1 ∷ 2 ∷ []; path = codes "/xs"; port = none; sent = [] }

abbrev calls : List (Call ℕ)
calls =
    Call.appends 4
    ∷ Call.inserts (negsuc 0) 9
    ∷ Call.sets (pos 0) 7
    ∷ Call.pops (negsuc 0)
    ∷ Call.rearranges reverse
    ∷ Call.deletes (pos 8)
    ∷ Call.multiplies (pos 2)
    ∷ []

-- The definitions that a run of the calls goes through.
program : Unit {0}
unfolding run perform set_item del_item append insert extend pop rearrange imul reindex_items
    check_if_has_required_locks publish_patch write child_port
program = tt

calls_result : (run env calls numbers).contents ≡ 9 ∷ 2 ∷ 1 ∷ 7 ∷ 9 ∷ 2 ∷ 1 ∷ 7 ∷ []
unfolding program
calls_result = refl

abbrev locked_env : Env
locked_env = record env { acquired_locks = "other" ∷ [] }

list_locked_example : perform locked_env Call.clears numbers ≡ (raised runtime_error, numbers)
unfolding missing_locks
list_locked_example = list_locked locked_env Call.clears numbers "stage" [] refl

abbrev members : EventedDict ℕ
members = record { contents = ("a", 1) ∷ ("b", 2) ∷ []; path = codes "/d"; port = none; sent = [] }

abbrev dict_calls : List (DictCalls.Call ℕ)
dict_calls =
    DictCalls.Call.sets "c/d" 3
    ∷ DictCalls.Call.deletes "z"
    ∷ DictCalls.Call.pops "a" none
    ∷ DictCalls.Call.sets_default "b" 9
    ∷ DictCalls.Call.pops_item
    ∷ DictCalls.Call.updates (("b", 5) ∷ []) (("e", 6) ∷ [])
    ∷ []

dict_run-Mirrors_example :
    DictMirror.Mirrors
      (λ n. n)
      (member_patcher (codes "/d"))
      (("a", 1) ∷ ("b", 2) ∷ [])
      (DictCalls.run env dict_calls members)
unfolding missing_locks receive
dict_run-Mirrors_example =
    DictMirror.dict_run-Mirrors (λ n. n) (member_patcher (codes "/d")) (("a", 1) ∷ ("b", 2) ∷ [])
      env refl refl dict_calls members (record { followed = refl; place = refl })

make_evented-WellPlaced_example : WellPlaced (codes "/s") (
    make_evented env.config
      (seq none (item (dict none (field "a/b" (num 1) end)) nil))
      (codes "/s")
      none)
make_evented-WellPlaced_example =
    make_evented-WellPlaced env.config (seq none (item (dict none (field "a/b" (num 1) end)) nil))
      (codes "/s") none ((tt, tt), tt)
