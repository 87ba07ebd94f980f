-- ===== src/Evented/Sequence/Negative.antt =====
-- Where `EventedList` departs from its receiver or from the built-in list: `pop` far below zero, and
-- assignment to a slice that changes the length.
use rekuest_next.Prelude.{
  ℕ, suc, ◌+◌, ◌-◌, ◌≤◌, ◌<◌, ◌≡◌, refl, ap, ◌∙◌, inl, inr, true, Option, none, some, List, [], ◌∷◌,
  ◌++◌, arith, Option-cases, length, get_elem?, take, drop, length-append, length-set, length-take,
  length-drop, length-remove_at, get_elem?-some,
}
use rekuest_next.Pointer.{ℤ, negsuc}
use rekuest_next.Evented.{
  Keeps, Keeps-bind, Env, Item, missing_locks, check_held, publish_sends, write, child_port, pure,
  Patch, Text, Port,
}
use rekuest_next.Evented.Sequence.{
  EventedList, position, shift, pop, pop_index, reindex_item, reindex_loop, reindex_items,
  int_range, set_slice, make_each, set_overlap, pos,
}

module _ {ℓ} {A : Type ℓ} (env : Env) ⦃item : Item A⦄ (held : missing_locks env ≡ [])
    (publishing : env.has_publisher ≡ true) where
  -- What a new path for an item leaves alone.
  abbrev Quiet : ℕ → List (Patch A) → EventedList A → Type ℓ
  Quiet n sent s = (length s.contents ≡ n) × (s.sent ≡ sent)

  reindex_item-Quiet :
      (n : ℕ) (sent : List (Patch A)) (i : ℤ) → Keeps (Quiet n sent) (reindex_item env i)
  unfolding reindex_item write
  reindex_item-Quiet n sent i s h = elim (Option-cases (position i (length s.contents))) [
    | inl e ↦ rw e h
    | inr (p, e) ↦ rw e (elim (Option-cases (get_elem? s.contents p)) [
      | inl g ↦ rw g h
      | inr (x, g) ↦ rw g (length-set s.contents p _ ∙ h.0, h.1)
    ])
  ]

  reindex_loop-Quiet :
      (n : ℕ) (sent : List (Patch A)) (is : List ℤ) → Keeps (Quiet n sent) (reindex_loop env is)
  unfolding reindex_loop
  reindex_loop-Quiet n sent [] = λ s h. h
  reindex_loop-Quiet n sent (i ∷ is) =
      Keeps-bind (Quiet n sent) (reindex_item env i) (λ _. reindex_loop env is)
        (reindex_item-Quiet n sent i) (λ _. reindex_loop-Quiet n sent is)

  reindex_items-Quiet :
      (n : ℕ) (sent : List (Patch A)) (i : ℤ) → Keeps (Quiet n sent) (reindex_items env i)
  unfolding reindex_items
  reindex_items-Quiet n sent i s h =
      rw (check_held env s held) (reindex_loop-Quiet n sent (int_range i (length s.contents)) s h)

  -- A negative index below minus the length is out of range for a list of n elements, and the built-in
  -- `list.pop` raises an IndexError for it. `EventedList.pop`, in a task with the required locks and a
  -- publisher, adds the length to it once, and where the result is a negative index in range, removes
  -- an element.
  pub pop_wraps :
      (k : ℕ) (s : EventedList A)
      → length s.contents ≤ k
      → k < length s.contents + length s.contents
      → (position (negsuc k) (length s.contents) ≡ none)
        × (suc (length (pop env (negsuc k) s).1.contents) ≡ length s.contents)
  unfolding position
  pop_wraps k s low high =
      let n = length s.contents in
      let at : pop_index (negsuc k) n ≡ negsuc (k - n) = unfold pop_index shift in ground arith in
      let p = n - suc (k - n) in
      let there : position (negsuc (k - n)) n ≡ some p = ground arith in
      let (old, e) = get_elem?-some s.contents p (omega arith) in
      (
        ground arith,
        unfold pop write child_port in
            rw (check_held env s held, at, there, e, publish_sends)
              (ap suc
                  (Keeps-bind (Quiet (n - 1) _) (reindex_items env (negsuc (k - n))) (λ _. pure old)
                    (reindex_items-Quiet (n - 1) _ (negsuc (k - n))) (λ _ s' h. h) _
                    (omega (arith, length-remove_at s.contents p (omega arith)), refl)).0
                ∙ omega arith),
      )

  length-make_each :
      (base : Text) (port : Option Port) (i : ℕ) (values : List A)
      → length (make_each env base port i values) ≡ length values
  unfolding make_each
  length-make_each base port i [] = refl
  length-make_each base port i (v ∷ values) = ap suc (length-make_each base port (suc i) values)

  slice_length :
      (a : ℕ) (values : List A) (s : EventedList A)
      → a ≤ length s.contents
      → length
          (take a s.contents ++ (make_each env s.path s.port a values ++ drop (a + 0) s.contents))
        ≡ length s.contents + length values
  slice_length a values s h = omega (
    arith,
    length-append (take a s.contents)
        (make_each env s.path s.port a values ++ drop (a + 0) s.contents),
    length-append (make_each env s.path s.port a values) (drop (a + 0) s.contents),
    length-make_each s.path s.port a values,
    length-take a s.contents,
    length-drop (a + 0) s.contents,
  )

  -- In a task with the required locks, assigning to the empty slice at `a` inserts the values and
  -- publishes nothing, so that a receiver does not learn of them.
  pub set_slice_silent :
      (a : ℕ) (values : List A) (s : EventedList A)
      → a ≤ length s.contents
      → (length (set_slice env a a values s).1.contents ≡ length s.contents + length values)
        × ((set_slice env a a values s).1.sent ≡ s.sent)
  unfolding set_slice set_overlap write
  set_slice_silent a values s h =
      let none_there : a - a ≡ 0 = omega arith in
      rw (check_held env s held, none_there)
        (reindex_items-Quiet (length s.contents + length values) s.sent (pos 0) _
          (slice_length a values s h, refl))
