-- ===== src/Locks/Tests.antt =====
-- Concrete groups of two locks.
use rekuest_next.Prelude.{ℕ, String, ◌≡◌, refl, some, List, [], ◌∷◌, arith, str_eq, if◌then◌else◌}
use rekuest_next.Locks.Groups.{task, turns, turn_of}
use rekuest_next.Locks.Deadlock.{turns_finish}
use rekuest_next.Locks.{
  Acquiring, World, Group, acquire_lock, acquire_each, acquire, release, enter, new_group, granted,
  refused, failed, cancelled,
}
use rekuest_next.History.Sorting.{sorted_by}
use rekuest_next.Locks.Holding.{enter-frees, exit-frees}

abbrev refuse_b : String → Acquiring
refuse_b key = if str_eq key "b" then refused else granted

-- The server refuses the second lock, and no release is reported.
abbrev hostile : World
hostile = record {
  rank = λ k. if str_eq k "a" then 0 else 1;
  acquiring = refuse_b;
  releasing = λ k. failed;
}

abbrev friendly : World
friendly = record hostile { acquiring = λ k. granted }

abbrev pair : List String
pair = "b" ∷ "a" ∷ []

abbrev both_held : Group
both_held = record { held = "a" ∷ "b" ∷ []; acquired_locks = "a" ∷ "b" ∷ []; notices = [] }

enter-frees_example : (enter hostile pair new_group).1.held ≡ []
unfolding enter acquire acquire_each acquire_lock sorted_by
enter-frees_example = enter-frees hostile pair (λ k e. ground (arith, e)) refl

exit-frees_example : (release friendly (enter friendly pair new_group).1).1.held ≡ []
unfolding enter acquire acquire_each acquire_lock sorted_by
exit-frees_example = exit-frees friendly pair (λ k e. ground (arith, e)) refl

abbrev stopped : World
stopped = record friendly { releasing = λ k. cancelled }

-- Two assignments that declare the same locks in different orders: the first has taken "a", and the
-- second waits for it.
turns_finish_example :
    (js : List ℕ) × (turns js (task ("b" ∷ []) ("a" ∷ []) ∷ task ("a" ∷ "b" ∷ []) [] ∷ [])
      ≡ some [])
unfolding turns turn_of sorted_by
turns_finish_example =
    turns_finish hostile.rank (pair ∷ ("a" ∷ "b" ∷ []) ∷ []) (0 ∷ [])
      (task ("b" ∷ []) ("a" ∷ []) ∷ task ("a" ∷ "b" ∷ []) [] ∷ [])
      (((refl, tt), (tt, tt)), (((refl, tt), (tt, tt)), tt)) refl
