-- ===== src/History/Queries/Around.antt =====
-- How many snapshots `aget_snapshots_around_rev` of
-- rekuest_next/contrib/fastapi/retriever/memory_retriever.py returns.
use rekuest_next.Prelude.{
  ℕ, zero, suc, ◌+◌, ◌-◌, min, String, ◌≡◌, refl, ap, ◌∙◌, inl, inr, Option, some, List, [], ◌∷◌,
  append-nil, arith, ltb, leb, Bool-cases, length, filter, length-append, length-take, length-drop,
  length-map,
}
use rekuest_next.Agent.{MemoryStore}
use rekuest_next.History.Sorting.{sorted_by, insert_by}
use rekuest_next.History.{extract_state_snapshots}
use rekuest_next.History.Queries.Snapshots.{last_items, around_each, get_snapshots_around}

module _ {ℓ} {A : Type ℓ} (key : A → ℕ) where
  length-insert_by : (x : A) (xs : List A) → length (insert_by key x xs) ≡ suc (length xs)
  unfolding insert_by
  length-insert_by x [] = refl
  length-insert_by x (y ∷ ys) = elim (Bool-cases (leb (key x) (key y))) [
    | inl e ↦ rw e refl
    | inr e ↦ rw e (ap suc (length-insert_by x ys))
  ]

  length-sorted_by : (xs : List A) → length (sorted_by key xs) ≡ length xs
  unfolding sorted_by
  length-sorted_by [] = refl
  length-sorted_by (x ∷ xs) = length-insert_by x (sorted_by key xs) ∙ ap suc (length-sorted_by xs)

-- As many as asked for or as there are, and all for 0
abbrev pub at_most : ℕ → ℕ → ℕ
at_most zero n = n
at_most (suc k) n = min (suc k) n

length-last_items {ℓ} :
    {A : Type ℓ} (k : ℕ) (xs : List A) → length (last_items k xs) ≡ at_most k (length xs)
length-last_items zero xs = refl
length-last_items (suc k) xs = rw (length-drop (length xs - suc k) xs) (omega arith)

-- Around a revision the snapshots of a state are as many as are asked for, on each side, or all that there
-- are; but where none is asked for up to the revision, all of those come.
pub length-around {ℓ κ} :
    {D : Type ℓ} {B : Type κ} (revision : ℕ) (state_id : String) (session_id : Option String)
    (before after : ℕ) (store : MemoryStore D B)
    → let known = extract_state_snapshots state_id session_id store.snapshots in
      length (get_snapshots_around revision (some state_id) session_id before after store)
      ≡ at_most before (length (filter (λ s. leb s.revision revision) known))
        + min after (length (filter (λ s. ltb revision s.revision) known))
unfolding get_snapshots_around around_each
length-around revision state_id session_id before after store =
    rw
      (
        append-nil, length-append, length-map, length-map, length-last_items, length-take,
        length-sorted_by, length-sorted_by,
      )
      refl
