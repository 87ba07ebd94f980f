-- ===== src/Evented/Sequence/Steps.antt =====
-- Each operation of `EventedList` that writes once keeps the receiver in step.
use rekuest_next.Prelude.{
  ℕ, ◌≤◌, ◌<◌, ◌≡◌, sym, ap, ◌∙◌, inl, inr, true, none, some, List, [], ◌∷◌, ◌++◌, map, arith, ltb,
  Bool-cases, Option-cases, length, get_elem?, set, insert_at, remove_at, get_elem?-some,
  length-map, map-set, map-set_same, map-insert_at, map-remove_at,
}
use mathlib.Core.List.{map-append}
use rekuest_next.Pointer.{Text, index, ℤ, pos, negsuc, make_path}
use rekuest_next.Evented.{
  Keeps, Keeps-bind, Env, add, remove, replace, Item, Patch, missing_locks, check_held,
  publish_sends, write, child_port,
}
use rekuest_next.Evented.Sequence.{
  EventedList, position, reindex_item, reindex_loop, reindex_items, int_range, clamp, append,
  insert, set_item, del_item,
}
use rekuest_next.Evented.Receiver.{receive_next, on_some}
use rekuest_next.Evented.Sequence.Mirror.{ListPatcher, ItemLaws, Mirrors}

clamp-le : (i : ℤ) (n : ℕ) → clamp i n ≤ n
unfolding clamp
clamp-le (pos i) n = omega arith
clamp-le (negsuc k) n = omega arith

module _ {ℓ κ} {A : Type ℓ} {B : Type κ} (plain : A → B) {base : Text}
    (patcher : ListPatcher B base) (start : List B) (env : Env) ⦃item : Item A⦄
    (laws : ItemLaws item plain) (held : missing_locks env ≡ [])
    (publishing : env.has_publisher ≡ true) where
  abbrev pub Followed : EventedList A → Type (ℓ ⊔ κ)
  Followed = Mirrors plain patcher start

  -- One write and its patch.
  pub sent-Mirrors :
      (s : EventedList A) (c : List A) (q : Patch A)
      → patcher.apply (map plain s.contents) q.op q.path (on_some plain q.value)
        ≡ some (map plain c)
      → Followed s
      → Followed (record s { contents = c; sent = s.sent ++ q ∷ [] })
  sent-Mirrors s c q h m = record {
    followed =
        receive_next plain patcher.apply s.sent q (some start) (map plain s.contents) (map plain c)
          m.followed h;
    place = m.place;
  }

  reindex_item-Mirrors : (i : ℤ) → Keeps Followed (reindex_item env i)
  unfolding reindex_item write
  reindex_item-Mirrors i s m = elim (Option-cases (position i (length s.contents))) [
    | inl e ↦ rw e m
    | inr (p, e) ↦ rw e (elim (Option-cases (get_elem? s.contents p)) [
      | inl g ↦ rw g m
      | inr (x, g) ↦ rw g (record {
        followed =
            m.followed ∙ ap some (sym (map-set_same plain s.contents p x _ g (laws.moved _ x)));
        place = m.place;
      })
    ])
  ]

  reindex_loop-Mirrors : (is : List ℤ) → Keeps Followed (reindex_loop env is)
  unfolding reindex_loop
  reindex_loop-Mirrors [] = λ s m. m
  reindex_loop-Mirrors (i ∷ is) =
      Keeps-bind Followed (reindex_item env i) (λ _. reindex_loop env is) (reindex_item-Mirrors i)
        (λ _. reindex_loop-Mirrors is)

  pub reindex_items-Mirrors : (i : ℤ) → Keeps Followed (reindex_items env i)
  unfolding reindex_items
  reindex_items-Mirrors i s m =
      rw (check_held env s held) (reindex_loop-Mirrors (int_range i (length s.contents)) s m)

  pub replace_sent :
      (xs : List A) (i : ℕ) (w : A) (path : Text)
      → path ≡ base
      → i < length xs
      → patcher.apply (map plain xs) replace (make_path path (index (pos i))) (some (plain w))
        ≡ some (map plain (set xs i w))
  replace_sent xs i w path e h =
      rw (e, map-set plain xs i w)
        (patcher.replace_at (map plain xs) i (plain w) (omega (arith, length-map plain xs)))

  add_sent :
      (xs : List A) (i : ℕ) (w : A) (path : Text)
      → path ≡ base
      → i ≤ length xs
      → patcher.apply (map plain xs) add (make_path path (index (pos i))) (some (plain w))
        ≡ some (map plain (insert_at xs i w))
  add_sent xs i w path e h =
      rw (e, map-insert_at plain xs i w)
        (patcher.add_at (map plain xs) i (plain w) (omega (arith, length-map plain xs)))

  pub remove_sent :
      (xs : List A) (i : ℕ) (path : Text)
      → path ≡ base
      → i < length xs
      → patcher.apply (map plain xs) remove (make_path path (index (pos i))) none
        ≡ some (map plain (remove_at xs i))
  remove_sent xs i path e h =
      rw (e, map-remove_at plain xs i)
        (patcher.remove_of (map plain xs) i (omega (arith, length-map plain xs)))

  end_sent :
      (xs : List A) (w : A) (path : Text)
      → path ≡ base
      → patcher.apply (map plain xs) add (path ++ b'/' ∷ b'-' ∷ []) (some (plain w))
        ≡ some (map plain (xs ++ w ∷ []))
  end_sent xs w path e = rw (e, map-append) (patcher.add_end (map plain xs) (plain w))

  pub set_item-Mirrors : (i : ℕ) (v : A) → Keeps Followed (set_item env (pos i) v)
  unfolding set_item write child_port
  set_item-Mirrors i v s m = elim (Bool-cases (ltb i (length s.contents))) [
    | inl inside ↦
        let (old, e) = get_elem?-some s.contents i (ground arith) in
        rw (check_held env s held, inside, e, publish_sends)
          (sent-Mirrors s _ _ (replace_sent s.contents i _ s.path m.place (ground arith)) m)
    | inr outside ↦ rw (check_held env s held, outside) m
  ]

  pub del_item-Mirrors : (i : ℕ) → Keeps Followed (del_item env (pos i))
  unfolding del_item write child_port
  del_item-Mirrors i s m = elim (Bool-cases (ltb i (length s.contents))) [
    | inl inside ↦
        let (old, e) = get_elem?-some s.contents i (ground arith) in
        rw (check_held env s held, inside, e, publish_sends)
          (reindex_items-Mirrors (pos i) _
            (sent-Mirrors s _ _ (remove_sent s.contents i s.path m.place (ground arith)) m))
    | inr outside ↦ rw (check_held env s held, outside) m
  ]

  pub append-Mirrors : (v : A) → Keeps Followed (append env v)
  unfolding append write child_port
  append-Mirrors v s m =
      rw (check_held env s held, publish_sends)
        (sent-Mirrors s _ _ (end_sent s.contents _ s.path m.place) m)

  pub insert-Mirrors : (i : ℤ) (v : A) → Keeps Followed (insert env i v)
  unfolding insert write child_port
  insert-Mirrors i v s m =
      rw (check_held env s held, publish_sends)
        (reindex_items-Mirrors _ _ (
          sent-Mirrors s _ _
            (add_sent s.contents _ _ s.path m.place (clamp-le i (length s.contents))) m))
