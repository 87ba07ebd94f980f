-- ===== src/Locks/Deadlock.antt =====
-- The first deadlock invariant of rekuest_next/agents/lock.py: locks that are taken in the order of
-- their keys make no cycle.
use rekuest_next.Prelude.{
  ℕ, zero, suc, ◌+◌, ◌≤◌, ◌<◌, String, ◌≡◌, refl, ◌∙◌, ◌⊎◌, inl, inr, Bool, true, false, ◌||◌, some,
  List, [], ◌∷◌, map, arith, str_eq, eq_refl, Bool-cases, Option-cases, String-cases, length, all,
  contains,
}
use mathlib.Core.Path.{subst}
use rekuest_next.History.Sorting.{sorted_by, Apart, Ascending, sorted_by-Ascending}
use rekuest_next.Locks.Groups.{new_task, taken, turn_of, turn, turns, Task, task}

module _ (rank : String → ℕ) where
  -- Every key is below `n`.
  abbrev AllUnder : ℕ → List String → Type 0
  AllUnder n [] = Unit
  AllUnder n (x ∷ xs) = (rank x < n) × AllUnder n xs

  abbrev Behind : List String → List String → Type 0
  Behind [] held = Unit
  Behind (k ∷ ks) held = AllUnder (rank k) held

  -- The locks a task still wants are in ascending order and above those it has.
  abbrev Ordered : List Task → Type 0
  Ordered [] = Unit
  Ordered (task todo held ∷ ts) = Ascending rank todo × Behind todo held × Ordered ts

  abbrev cost : List Task → ℕ
  cost [] = 0
  cost (task todo held ∷ ts) = suc (length todo) + cost ts

  -- Every task waits for a lock that is taken.
  abbrev Blocked : List Task → List Task → Type 0
  Blocked all [] = Unit
  Blocked all (task [] held ∷ ts) = ⊥
  Blocked all (task (k ∷ ks) held ∷ ts) = (taken all k ≡ true) × Blocked all ts

  -- Is this the next lock of some task?
  abbrev wanted : List Task → String → Bool
  wanted [] k = false
  wanted (task [] held ∷ ts) k = wanted ts k
  wanted (task (j ∷ js) held ∷ ts) k = str_eq j k || wanted ts k

  abbrev top : List Task → ℕ
  top [] = 0
  top (task [] held ∷ ts) = top ts
  top (task (k ∷ ks) held ∷ ts) = rank k + top ts

  AllUnder-weaken : (m n : ℕ) (xs : List String) → m < n → AllUnder m xs → AllUnder n xs
  AllUnder-weaken m n [] h a = tt
  AllUnder-weaken m n (x ∷ xs) h a = (omega (arith, a.0), AllUnder-weaken m n xs h a.1)

  AllUnder-contains :
      (n : ℕ) (xs : List String) (k : String) → AllUnder n xs → contains xs k ≡ true → rank k < n
  AllUnder-contains n [] k a c = absurd (ground (arith, c))
  AllUnder-contains n (x ∷ xs) k a c = elim (String-cases x k) [
    | inl e ↦ rw e at a.0
    | inr e ↦ AllUnder-contains n xs k a.1 (ground (arith, c, e))
  ]

  wanted-top : (ts : List Task) (k : String) → wanted ts k ≡ true → rank k ≤ top ts
  wanted-top [] k w = absurd (ground (arith, w))
  wanted-top (task [] held ∷ ts) k w = wanted-top ts k w
  wanted-top (task (j ∷ js) held ∷ ts) k w = elim (String-cases j k) [
    | inl e ↦ rw e (omega arith)
    | inr e ↦ omega (arith, wanted-top ts k (ground (arith, w, e)))
  ]

  -- Whoever holds a lock wants a higher one, where all are blocked.
  holder :
      (all ts : List Task) (k : String)
      → Ordered ts
      → Blocked all ts
      → taken ts k ≡ true
      → (j : String) × (wanted ts j ≡ true) × (rank k < rank j)
  unfolding taken
  holder all [] k o b t = absurd (ground (arith, t))
  holder all (task [] held ∷ ts) k o b t = absurd b
  holder all (task (j ∷ js) held ∷ ts) k o b t = elim (Bool-cases (contains held k)) [
    | inl e ↦ (j, ground (arith, eq_refl j), AllUnder-contains (rank j) held k o.1 e)
    | inr e ↦
        let (i, w, less) = holder all ts k o.2 b.1 (ground (arith, t, e)) in
        (i, ground (arith, w), less)
  ]

  wanted-taken :
      (all ts : List Task) (k : String) → Blocked all ts → wanted ts k ≡ true → taken all k ≡ true
  wanted-taken all [] k b w = absurd (ground (arith, w))
  wanted-taken all (task [] held ∷ ts) k b w = absurd b
  wanted-taken all (task (j ∷ js) held ∷ ts) k b w = elim (String-cases j k) [
    | inl e ↦ rw e at b.0
    | inr e ↦ wanted-taken all ts k b.1 (ground (arith, w, e))
  ]

  -- So the wanted locks have no highest one.
  climb :
      (ts : List Task) (n : ℕ)
      → Ordered ts
      → Blocked ts ts
      → (k : String) → wanted ts k ≡ true
      → (j : String) × (wanted ts j ≡ true) × (n ≤ rank j)
  climb ts zero o b k w = (k, w, omega arith)
  climb ts (suc n) o b k w =
      let (i, v, h) = climb ts n o b k w in
      let (j, u, less) = holder ts ts i o b (wanted-taken ts ts i b v) in
      (j, u, omega (arith, h, less))

  not-Blocked : (t : Task) (ts : List Task) → Ordered (t ∷ ts) → ¬ Blocked (t ∷ ts) (t ∷ ts)
  not-Blocked (task [] held) ts o b = b
  not-Blocked (task (k ∷ ks) held) ts o b =
      let all = task (k ∷ ks) held ∷ ts in
      let (j, w, h) = climb all (suc (top all)) o b k (ground (arith, eq_refl k)) in
      absurd (omega (arith, h, wanted-top all j w))

  -- One of the tasks has a turn, or they are all blocked.
  search_turn :
      (all ts : List Task)
      → ((i : ℕ) × (us : List Task) × (turn_of all i ts ≡ some us)) ⊎ Blocked all ts
  unfolding turn_of
  search_turn all [] = inr tt
  search_turn all (task [] held ∷ ts) = inl (0, ts, refl)
  search_turn all (task (k ∷ ks) held ∷ ts) = elim (Bool-cases (taken all k)) [
    | inl e ↦ elim (search_turn all ts) [
      | inl (i, us, h) ↦ inl (suc i, task (k ∷ ks) held ∷ us, rw h refl)
      | inr b ↦ inr (e, b)
    ]
    | inr e ↦ inl (0, task ks (k ∷ held) ∷ ts, rw e refl)
  ]

  has_turn :
      (t : Task) (ts : List Task)
      → Ordered (t ∷ ts)
      → (i : ℕ) × (us : List Task) × (turn i (t ∷ ts) ≡ some us)
  has_turn t ts o = elim (search_turn (t ∷ ts) (t ∷ ts)) [
    | inl h ↦ h
    | inr b ↦ absurd (not-Blocked t ts o b)
  ]

  Behind-next :
      (k : String) (ks held : List String)
      → Ascending rank (k ∷ ks)
      → AllUnder (rank k) held
      → Behind ks (k ∷ held)
  Behind-next k [] held a u = tt
  Behind-next k (j ∷ js) held a u = (a.0.0, AllUnder-weaken (rank k) (rank j) held a.0.0 u)

  -- A turn keeps the order and costs one.
  turn_of-Ordered :
      (all : List Task) (i : ℕ) (ts us : List Task)
      → Ordered ts
      → turn_of all i ts ≡ some us
      → Ordered us × (cost ts ≡ suc (cost us))
  unfolding turn_of
  turn_of-Ordered all i [] us o h = absurd (ground (arith, h))
  turn_of-Ordered all zero (task [] held ∷ ts) us o h =
      let same : ts ≡ us = ground (arith, h) in
      subst (λ vs. Ordered vs × (cost (task [] held ∷ ts) ≡ suc (cost vs))) same (o.2, omega arith)
  turn_of-Ordered all zero (task (k ∷ ks) held ∷ ts) us o h = elim (Bool-cases (taken all k)) [
    | inl e ↦ absurd (ground (arith, e, h))
    | inr e ↦
        let same : task ks (k ∷ held) ∷ ts ≡ us = ground (arith, e, h) in
        subst (λ vs. Ordered vs × (cost (task (k ∷ ks) held ∷ ts) ≡ suc (cost vs))) same
          ((o.0.1, Behind-next k ks held o.0 o.1, o.2), omega arith)
  ]
  turn_of-Ordered all (suc i) (task todo held ∷ ts) us o h =
      elim (Option-cases (turn_of all i ts)) [
        | inl e ↦ absurd (ground (arith, e, h))
        | inr (vs, e) ↦
            let same : task todo held ∷ vs ≡ us = ground (arith, e, h) in
            let (p, q) = turn_of-Ordered all i ts vs o.2 e in
            subst (λ ws. Ordered ws × (cost (task todo held ∷ ts) ≡ suc (cost ws))) same
              ((o.0, o.1, p), omega (arith, q))
      ]

  turns_cons :
      (i : ℕ) (is : List ℕ) (ts us : List Task)
      → turn i ts ≡ some us
      → turns (i ∷ is) ts ≡ turns is us
  unfolding turns
  turns_cons i is ts us h = rw (h, turns) refl

  finish :
      (n : ℕ) (ts : List Task) → cost ts ≤ n → Ordered ts → (is : List ℕ) × (turns is ts ≡ some [])
  unfolding turns
  finish n [] c o = ([], refl)
  finish zero (task todo held ∷ ts) c o = absurd (omega arith)
  finish (suc n) (t ∷ ts) c o =
      let (i, us, h) = has_turn t ts o in
      let (p, q) = turn_of-Ordered (t ∷ ts) i (t ∷ ts) us o h in
      let (is, r) = finish n us (omega (arith, c, q)) p in
      (i ∷ is, turns_cons i is (t ∷ ts) us h ∙ r)

  turns-Ordered :
      (is : List ℕ) (ts us : List Task) → Ordered ts → turns is ts ≡ some us → Ordered us
  unfolding turns
  turns-Ordered [] ts us o h = let same : ts ≡ us = ground (arith, h) in rw same at o
  turns-Ordered (i ∷ is) ts us o h = elim (Option-cases (turn i ts)) [
    | inl e ↦ absurd (ground (arith, e, h))
    | inr (vs, e) ↦ turns-Ordered is vs us (turn_of-Ordered ts i ts vs o e).0 (ground (arith, e, h))
  ]

  -- The keys within each group have different ranks.
  abbrev pub AllApart : List (List String) → Type 0
  AllApart [] = Unit
  AllApart (locks ∷ groups) = Apart rank locks × AllApart groups

  Behind-none : (todo : List String) → Behind todo []
  Behind-none [] = tt
  Behind-none (k ∷ ks) = tt

  new_tasks-Ordered :
      (groups : List (List String)) → AllApart groups → Ordered (map (new_task rank) groups)
  new_tasks-Ordered [] a = tt
  new_tasks-Ordered (locks ∷ groups) a = (
    sorted_by-Ascending rank locks a.0,
    Behind-none (sorted_by rank locks),
    new_tasks-Ordered groups a.1,
  )

  -- Over every set of assignments that each take a group of locks of different keys: after any turns of
  -- theirs, in any order, there are further turns after which every assignment has had all its locks,
  -- has given them back and has left. No order of turns leads to a deadlock.
  pub turns_finish :
      (groups : List (List String)) (is : List ℕ) (ts : List Task)
      → AllApart groups
      → turns is (map (new_task rank) groups) ≡ some ts
      → (js : List ℕ) × (turns js ts ≡ some [])
  turns_finish groups is ts a h =
      finish (cost ts) ts (omega arith)
        (turns-Ordered is (map (new_task rank) groups) ts (new_tasks-Ordered groups a) h)
