-- ===== src/History/Queries/Ordered.antt =====
-- Patches that stand in the order of their revisions (`sorted` and slices in
-- rekuest_next/contrib/fastapi/retriever/memory_retriever.py).
use rekuest_next.Prelude.{
  ℕ, zero, suc, ◌≤◌, ◌<◌, ◌≡◌, refl, sym, ap, ◌∙◌, inl, inr, Bool, true, false, ◌&&◌, List, [], ◌∷◌,
  ◌++◌, arith, ltb, leb, Bool-cases, take, drop, filter,
}
use rekuest_next.Agent.{StatePatch}
use rekuest_next.History.Sorting.{AllAbove, Ascending, AllUpTo}
use rekuest_next.History.Queries.{insert_patch, sorted_patches}

module _ {κ} {B : Type κ} where
  abbrev pub revision : StatePatch B → ℕ
  revision p = p.global_rev

  insert_first :
      (p : StatePatch B) (qs : List (StatePatch B))
      → AllAbove revision p.global_rev qs
      → insert_patch p qs ≡ p ∷ qs
  unfolding insert_patch
  insert_first p [] h = refl
  insert_first p (q ∷ qs) h =
      let first : ltb p.global_rev q.global_rev ≡ true = ground (arith, h.0) in rw first refl

  -- Patches that stand in the order of their revisions are sorted, whatever the names of their states.
  pub sorted-Ascending : (ps : List (StatePatch B)) → Ascending revision ps → sorted_patches ps ≡ ps
  unfolding sorted_patches
  sorted-Ascending [] h = refl
  sorted-Ascending (p ∷ ps) h = rw (sorted-Ascending ps h.1) (insert_first p ps h.0)

  AllAbove-filter :
      (n : ℕ) (f : StatePatch B → Bool) (ps : List (StatePatch B))
      → AllAbove revision n ps
      → AllAbove revision n (filter f ps)
  AllAbove-filter n f [] h = tt
  AllAbove-filter n f (p ∷ ps) h = elim (Bool-cases (f p)) [
    | inl e ↦ rw (e, AllAbove) (h.0, AllAbove-filter n f ps h.1)
    | inr e ↦ rw (e, AllAbove) (AllAbove-filter n f ps h.1)
  ]

  pub Ascending-filter :
      (f : StatePatch B → Bool) (ps : List (StatePatch B))
      → Ascending revision ps
      → Ascending revision (filter f ps)
  Ascending-filter f [] h = tt
  Ascending-filter f (p ∷ ps) h = elim (Bool-cases (f p)) [
    | inl e ↦ rw (e, Ascending) (AllAbove-filter p.global_rev f ps h.0, Ascending-filter f ps h.1)
    | inr e ↦ rw (e, Ascending) (Ascending-filter f ps h.1)
  ]

  AllAbove-append :
      (n : ℕ) (ps : List (StatePatch B)) (p : StatePatch B)
      → AllAbove revision n ps
      → n < p.global_rev
      → AllAbove revision n (ps ++ p ∷ [])
  AllAbove-append n [] p h less = (less, tt)
  AllAbove-append n (q ∷ ps) p h less = (h.0, AllAbove-append n ps p h.1 less)

  pub Ascending-append :
      (r : ℕ) (ps : List (StatePatch B)) (p : StatePatch B)
      → AllUpTo revision r ps
      → r < p.global_rev
      → Ascending revision ps
      → Ascending revision (ps ++ p ∷ [])
  Ascending-append r [] p u less h = (tt, tt)
  Ascending-append r (q ∷ ps) p u less h = (
    AllAbove-append q.global_rev ps p h.0 (omega (arith, u.0)),
    Ascending-append r ps p u.1 less h.1,
  )

  -- What is above the last revision of a page stands behind the page.
  abbrev pub last_rev : StatePatch B → List (StatePatch B) → ℕ
  last_rev p [] = p.global_rev
  last_rev p (q ∷ qs) = last_rev q qs

  above_none :
      (n : ℕ) (ps : List (StatePatch B))
      → AllAbove revision n ps
      → filter (λ p. leb (suc n) p.global_rev) ps ≡ ps
  above_none n [] h = refl
  above_none n (p ∷ ps) h =
      let above : leb (suc n) p.global_rev ≡ true = ground (arith, h.0) in
      rw (above, filter) (ap (λ zs. p ∷ zs) (above_none n ps h.1))

  pub last-above :
      (c : ℕ) (p : StatePatch B) (ps : List (StatePatch B))
      → Ascending revision (p ∷ ps)
      → p.global_rev ≤ last_rev p (take c ps)
  last-above zero p ps h = omega arith
  last-above (suc c) p [] h = omega arith
  last-above (suc c) p (q ∷ qs) h = omega (arith, h.0.0, last-above c q qs h.1)

  filter_out :
      (f : StatePatch B → Bool) (p : StatePatch B) (ps : List (StatePatch B))
      → f p ≡ false
      → filter f (p ∷ ps) ≡ filter f ps
  filter_out f p ps h = rw (filter, h) refl

  pub behind_page :
      (c : ℕ) (p : StatePatch B) (ps : List (StatePatch B))
      → Ascending revision (p ∷ ps)
      → filter (λ q. leb (suc (last_rev p (take c ps))) q.global_rev) (p ∷ ps) ≡ drop c ps
  behind_page zero p ps h =
      let not_above : leb (suc p.global_rev) p.global_rev ≡ false = ground arith in
      rw (not_above, filter) (above_none p.global_rev ps h.0)
  behind_page (suc c) p [] h =
      let not_above : leb (suc p.global_rev) p.global_rev ≡ false = ground arith in
      rw (not_above, filter) refl
  behind_page (suc c) p (q ∷ qs) h =
      let above = last-above c q qs h.1 in
      filter_out (λ x. leb (suc (last_rev q (take c qs))) x.global_rev) p (q ∷ qs)
        (ground (arith, above, h.0.0))
      ∙ behind_page c q qs h.1

  pub filter-filter :
      (f g h : StatePatch B → Bool) (ps : List (StatePatch B))
      → ((p : StatePatch B) → h p ≡ (g p && f p))
      → filter f (filter g ps) ≡ filter h ps
  filter-filter f g h [] e = refl
  filter-filter f g h (p ∷ ps) e = elim (Bool-cases (g p)) [
    | inl a ↦ elim (Bool-cases (f p)) [
      | inl b ↦ rw (a, filter, b, e p, a, b) (ap (λ zs. p ∷ zs) (filter-filter f g h ps e))
      | inr b ↦ rw (a, filter, b, e p, a, b) (filter-filter f g h ps e)
    ]
    | inr a ↦ rw (a, filter, e p, a) (filter-filter f g h ps e)
  ]

  pub filter-head :
      (f : StatePatch B → Bool) (ps : List (StatePatch B)) (x : StatePatch B)
      (xs : List (StatePatch B))
      → filter f ps ≡ x ∷ xs
      → f x ≡ true
  filter-head f [] x xs h = ground (arith, h)
  filter-head f (p ∷ ps) x xs h = elim (Bool-cases (f p)) [
    | inl a ↦
        let kept : filter f (p ∷ ps) ≡ p ∷ filter f ps = rw (filter, a) refl in
        let same : p ≡ x = ground (arith, sym kept ∙ h) in rw (← same) a
    | inr a ↦ filter-head f ps x xs (sym (filter_out f p ps a) ∙ h)
  ]

  pub take-drop : (c : ℕ) (ps : List (StatePatch B)) → take c ps ++ drop c ps ≡ ps
  take-drop zero ps = refl
  take-drop (suc c) [] = refl
  take-drop (suc c) (p ∷ ps) = ap (λ zs. p ∷ zs) (take-drop c ps)
