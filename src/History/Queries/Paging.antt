-- ===== src/History/Queries/Paging.antt =====
-- Paging through the events of an agent's run (`aget_forward_events_after_rev` of
-- rekuest_next/contrib/fastapi/retriever/memory_retriever.py).
use mathlib.Core.List.{map-append}
use rekuest_next.Prelude.{
  ℕ, zero, suc, ◌≤◌, String, ◌≡◌, refl, sym, ap, ◌∙◌, inl, inr, Option, List, [], ◌∷◌, ◌++◌, map,
  arith, leb, ◌==◌, Bool-cases, length, set, take, drop, filter, length-drop,
}
use rekuest_next.Evented.{Keeps}
use rekuest_next.Agent.{
  touch, state_patch, advance, patch_event_loop, StatePatch, QueuedPatch, MemoryStore, Agent,
  Shrink,
}
use rekuest_next.History.Bounds.{List-cases, AllUpTo-append, AllUpTo-weaken}
use rekuest_next.History.Sorting.{AllAbove, Ascending, AllUpTo}
use rekuest_next.History.Loop.{advanced, Any, all-Any, loop-Keeps, advance_lem, advance_unset}
use rekuest_next.History.Queries.{to_patch_event, is_forward, get_forward_events, PatchEvent}
use rekuest_next.History.Queries.Ordered.{
  revision, sorted-Ascending, Ascending-filter, Ascending-append, last_rev, last-above, behind_page,
  filter-filter, filter-head, take-drop,
}

module _ {κ} {B : Type κ} where
  -- A client that asks for the events behind the last one it has, until there is none
  abbrev pub last_future : PatchEvent B → List (PatchEvent B) → ℕ
  last_future e [] = e.global_future_rev
  last_future e (f ∷ fs) = last_future f fs

  last_future-map :
      (p : StatePatch B) (ps : List (StatePatch B))
      → last_future (to_patch_event p) (map to_patch_event ps) ≡ last_rev p ps
  last_future-map p [] = refl
  last_future-map p (q ∷ qs) = last_future-map q qs

module _ {ℓ κ} {D : Type ℓ} {B : Type κ} (state_id session_id : Option String) (count : ℕ)
    (store : MemoryStore D B) where
  unfoldable pub fetch_pages : (rounds : ℕ) → ℕ → List (PatchEvent B)
  fetch_pages zero rev = []
  fetch_pages (suc rounds) rev = elim (get_forward_events rev state_id session_id count store) [
    | [] ↦ []
    | e ∷ es ↦ (e ∷ es) ++ fetch_pages rounds (last_future e es)
  ]

module _ {ℓ κ} {D : Type ℓ} {B : Type κ} (state_id session_id : Option String) (c : ℕ)
    (store : MemoryStore D B) (ordered : Ascending revision store.patches) where
  abbrev forward : ℕ → List (StatePatch B)
  forward rev = filter (is_forward rev state_id session_id) store.patches

  first_page :
      (rev : ℕ)
      → get_forward_events rev state_id session_id (suc c) store
        ≡ map to_patch_event (take (suc c) (forward rev))
  unfolding get_forward_events
  first_page rev =
      ap (λ ps. map to_patch_event (take (suc c) ps))
        (sorted-Ascending (forward rev)
          (Ascending-filter (is_forward rev state_id session_id) store.patches ordered))

  forward_again :
      (rev : ℕ) (x : StatePatch B) (xs : List (StatePatch B))
      → forward rev ≡ x ∷ xs
      → forward (last_rev x (take c xs)) ≡ drop c xs
  forward_again rev x xs h =
      let up : Ascending revision (x ∷ xs) =
        rw h at (Ascending-filter (is_forward rev state_id session_id) store.patches ordered) in
      let first = filter-head (is_forward rev state_id session_id) store.patches x xs h in
      let l = last_rev x (take c xs) in
      let later = last-above c x xs up in
      sym (
        filter-filter (λ p. leb (suc l) p.global_rev) (is_forward rev state_id session_id)
          (is_forward l state_id session_id) store.patches (λ p. ground (arith, first, later)))
      ∙ ap (filter (λ p. leb (suc l) p.global_rev)) h
      ∙ behind_page c x xs up

  pages_lem :
      (rounds rev : ℕ)
      → length (forward rev) ≤ rounds
      → fetch_pages state_id session_id (suc c) store rounds rev ≡ map to_patch_event (forward rev)
  unfolding fetch_pages
  pages_lem zero rev h = elim (List-cases (forward rev)) [
    | inl e ↦ rw e refl
    | inr (x, xs, e) ↦ absurd (omega (arith, h, ap length e))
  ]
  pages_lem (suc rounds) rev h = elim (List-cases (forward rev)) [
    | inl e ↦ rw (fetch_pages, first_page, e) refl
    | inr (x, xs, e) ↦
        let l = last_rev x (take c xs) in
        let behind = forward_again rev x xs e in
        let rest =
          pages_lem rounds l (omega (arith, h, ap length e, ap length behind, length-drop c xs)) in
        rw (fetch_pages, first_page, e, last_future-map, rest, behind)
          (ap (λ zs. to_patch_event x ∷ zs)
            (sym (map-append to_patch_event (take c xs) (drop c xs))
              ∙ ap (map to_patch_event) (take-drop c xs)))
  ]

module _ {ℓ κ μ} {D : Type ℓ} {B : Type κ} {A : Type μ} (env : Shrink D B A) where
  -- The stored patches stand in the order of their revisions, none of which is yet to come.
  abbrev pub Recorded : Agent D B → Type 0
  Recorded a =
      Ascending revision a.store.patches × AllUpTo revision a.global_revision a.store.patches

  AllAbove-touch :
      (n : ℕ) (a : Agent D B) (q : QueuedPatch A) (w : Option B) (ps : List (StatePatch B))
      → AllAbove revision n ps
      → AllAbove revision n (map (touch env a q w) ps)
  AllAbove-touch n a q w [] h = tt
  AllAbove-touch n a q w (p ∷ ps) h = (h.0, AllAbove-touch n a q w ps h.1)

  Ascending-touch :
      (a : Agent D B) (q : QueuedPatch A) (w : Option B) (ps : List (StatePatch B))
      → Ascending revision ps
      → Ascending revision (map (touch env a q w) ps)
  Ascending-touch a q w [] h = tt
  Ascending-touch a q w (p ∷ ps) h =
      (AllAbove-touch p.global_rev a q w ps h.0, Ascending-touch a q w ps h.1)

  AllUpTo-touch :
      (n : ℕ) (a : Agent D B) (q : QueuedPatch A) (w : Option B) (ps : List (StatePatch B))
      → AllUpTo revision n ps
      → AllUpTo revision n (map (touch env a q w) ps)
  AllUpTo-touch n a q w [] h = tt
  AllUpTo-touch n a q w (p ∷ ps) h = (h.0, AllUpTo-touch n a q w ps h.1)

  pub advance-Recorded :
      (q : QueuedPatch A) (v : Option B) (d : D) → Keeps Recorded (advance env q v d)
  advance-Recorded q v d a (up, known) =
      let old = map (touch env a q v) a.store.patches in
      let up' = Ascending-touch a q v a.store.patches up in
      let known' = AllUpTo-touch a.global_revision a q v a.store.patches known in
      let later =
        AllUpTo-weaken revision a.global_revision (suc a.global_revision) old known'
          (omega arith) in
      elim (Bool-cases (a.snapshot_interval == 0)) [
        | inl unset ↦
            let (rev, same) = advance_unset env q v d a unset in rw (rev, same) (up', later)
        | inr set ↦
            let (_, rev, more) = advance_lem env q v d a set in
            let p = state_patch env q v (advanced env q d a) in
            rw (rev, more)
              (
                Ascending-append a.global_revision old p known' (omega arith) up',
                AllUpTo-append revision _ old p later (omega arith),
              )
      ]

  pub loop-Recorded : (qs : List (QueuedPatch A)) → Keeps Recorded (patch_event_loop env qs)
  loop-Recorded = λ qs.
      loop-Keeps env Recorded (Any env) (λ i d a missing k. k)
        (λ q v c d a now patched u k. advance-Recorded q v d a k) qs (all-Any env qs)

  -- An agent that has stored no patch processes any patches. A client that asks for the events after a
  -- revision, in pages of any size but 0, each behind the last event of the page before, has all of them
  -- after as many rounds as there are events: each once, and in the order in which they were published.
  pub fetch_pages-forward :
      (qs : List (QueuedPatch A)) (a : Agent D B) (state_id session_id : Option String)
      (c rev rounds : ℕ)
      → a.store.patches ≡ []
      → let store = (patch_event_loop env qs a).1.store in
        length (filter (is_forward rev state_id session_id) store.patches) ≤ rounds
        → fetch_pages state_id session_id (suc c) store rounds rev
          ≡ map to_patch_event (filter (is_forward rev state_id session_id) store.patches)
  fetch_pages-forward qs a state_id session_id c rev rounds fresh enough =
      let (up, _) = loop-Recorded qs a (rw fresh (tt, tt)) in
      pages_lem state_id session_id c (patch_event_loop env qs a).1.store up rounds rev enough
