-- ===== src/Broadcast/Last.antt =====
-- What a buffer keeps (`_squash_state_patches` of rekuest_next/contrib/fastapi/agent.py), against a
-- description without positions.
use mathlib.Core.List.{map-append}
use rekuest_next.Prelude.{
  ℕ, suc, ◌<◌, ◌≡◌, refl, sym, ap, ◌∙◌, inl, inr, Bool, true, false, List, [], ◌∷◌, ◌++◌, map,
  append-nil, append_assoc, arith, leb, if◌then◌else◌, Bool-cases,
}
use rekuest_next.Pointer.{Text}
use rekuest_next.Agent.{StatePatch}
use rekuest_next.History.Sorting.{insert_by, sorted_by, insert_by-append}
use rekuest_next.Broadcast.{same_text, Latest, put_latest, latest_by_path, squash_state_patches}

same_text_sym : (s t : Text) → same_text s t ≡ same_text t s
unfolding same_text
same_text_sym [] [] = refl
same_text_sym [] (d ∷ t) = refl
same_text_sym (c ∷ s) [] = refl
same_text_sym (c ∷ s) (d ∷ t) = ground (arith, same_text_sym s t)

same_text-equal : (s t : Text) → same_text s t ≡ true → s ≡ t
unfolding same_text
same_text-equal [] [] h = refl
same_text-equal [] (d ∷ t) h = absurd (ground (arith, h))
same_text-equal (c ∷ s) [] h = absurd (ground (arith, h))
same_text-equal (c ∷ s) (d ∷ t) h =
    let head : c ≡ d = ground (arith, h) in
    let tail : same_text s t ≡ true = ground (arith, h) in rw (head, same_text-equal s t tail) refl

abbrev Entry {κ} : Type κ → Type κ
Entry B = Text × ℕ × StatePatch B

module _ {κ} {B : Type κ} where
  occurs : Text → List (StatePatch B) → Bool
  occurs t [] = false
  occurs t (p ∷ ps) = if same_text t p.path then true else occurs t ps

  -- The patches without those that a later one of the same path follows
  unfoldable pub keep_last : List (StatePatch B) → List (StatePatch B)
  unfolding occurs
  keep_last [] = []
  keep_last (p ∷ ps) = let rest = keep_last ps in if occurs p.path ps then rest else p ∷ rest

  abbrev arrival : Entry B → ℕ
  arrival e = e.1

  -- No entry is for this path; every entry is for a path of its own.
  abbrev Fresh : Text → Latest B → Type 0
  Fresh t [] = Unit
  Fresh t (e ∷ es) = (same_text e.0 t ≡ false) × Fresh t es

  abbrev Distinct : Latest B → Type 0
  Distinct [] = Unit
  Distinct (e ∷ es) = Fresh e.0 es × Distinct es

  abbrev Below : ℕ → Latest B → Type 0
  Below n [] = Unit
  Below n (e ∷ es) = (e.1 < n) × Below n es

  -- The entries whose path none of the patches has
  without : List (StatePatch B) → Latest B → Latest B
  unfolding occurs
  without ps [] = []
  without ps (e ∷ es) = let rest = without ps es in if occurs e.0 ps then rest else e ∷ rest

  Fresh-put :
      (t : Text) (es : Latest B) (i : ℕ) (p : StatePatch B)
      → same_text p.path t ≡ false
      → Fresh t es
      → Fresh t (put_latest es i p)
  unfolding put_latest
  Fresh-put t [] i p h f = (h, tt)
  Fresh-put t (e ∷ es) i p h f = elim (Bool-cases (same_text e.0 p.path)) [
    | inl s ↦ rw s f
    | inr s ↦ rw s (f.0, Fresh-put t es i p h f.1)
  ]

  Distinct-put :
      (es : Latest B) (i : ℕ) (p : StatePatch B) → Distinct es → Distinct (put_latest es i p)
  unfolding put_latest
  Distinct-put [] i p d = (tt, tt)
  Distinct-put (e ∷ es) i p d = elim (Bool-cases (same_text e.0 p.path)) [
    | inl s ↦ rw s d
    | inr s ↦
        rw s (Fresh-put e.0 es i p (same_text_sym p.path e.0 ∙ s) d.0, Distinct-put es i p d.1)
  ]

  Below-suc : (n : ℕ) (es : Latest B) → Below n es → Below (suc n) es
  Below-suc n [] b = tt
  Below-suc n (e ∷ es) b = (omega (arith, b.0), Below-suc n es b.1)

  Below-put :
      (es : Latest B) (i : ℕ) (p : StatePatch B) → Below i es → Below (suc i) (put_latest es i p)
  unfolding put_latest
  Below-put [] i p b = (omega arith, tt)
  Below-put (e ∷ es) i p b = elim (Bool-cases (same_text e.0 p.path)) [
    | inl s ↦ rw s (omega arith, Below-suc i es b.1)
    | inr s ↦ rw s (omega (arith, b.0), Below-put es i p b.1)
  ]

  Below-without :
      (n : ℕ) (ps : List (StatePatch B)) (es : Latest B) → Below n es → Below n (without ps es)
  unfolding without
  Below-without n ps [] b = tt
  Below-without n ps (e ∷ es) b = elim (Bool-cases (occurs e.0 ps)) [
    | inl s ↦ rw s (Below-without n ps es b.1)
    | inr s ↦ rw s (b.0, Below-without n ps es b.1)
  ]

  Below-insert :
      (n : ℕ) (e : Entry B) (es : Latest B)
      → e.1 < n
      → Below n es
      → Below n (insert_by arrival e es)
  unfolding insert_by
  Below-insert n e [] h b = (h, tt)
  Below-insert n e (d ∷ es) h b = elim (Bool-cases (leb (arrival e) (arrival d))) [
    | inl s ↦ rw s (h, b)
    | inr s ↦ rw s (b.0, Below-insert n e es h b.1)
  ]

  Below-sorted : (n : ℕ) (es : Latest B) → Below n es → Below n (sorted_by arrival es)
  unfolding sorted_by
  Below-sorted n [] b = tt
  Below-sorted n (e ∷ es) b = Below-insert n e (sorted_by arrival es) b.0 (Below-sorted n es b.1)

  -- What has the greatest arrival comes last.
  insert_last :
      (e : Entry B) (es : Latest B) → Below (arrival e) es → insert_by arrival e es ≡ es ++ e ∷ []
  unfolding insert_by
  insert_last e [] b = refl
  insert_last e (d ∷ es) b =
      let late : leb (arrival e) (arrival d) ≡ false = ground (arith, b.0) in
      rw late (ap (λ zs. d ∷ zs) (insert_last e es b.1))

  without-Fresh :
      (ps : List (StatePatch B)) (p : StatePatch B) (es : Latest B)
      → Fresh p.path es
      → without (p ∷ ps) es ≡ without ps es
  unfolding without occurs
  without-Fresh ps p [] f = refl
  without-Fresh ps p (e ∷ es) f = rw (without, f.0, without-Fresh ps p es f.1) refl

  -- The entry of a new patch comes last, and an older one for its path is gone.
  sorted-put :
      (ps : List (StatePatch B)) (es : Latest B) (i : ℕ) (p : StatePatch B)
      → Distinct es
      → Below i es
      → sorted_by arrival (without ps (put_latest es i p)) ≡ (
          if occurs p.path ps
          then sorted_by arrival (without (p ∷ ps) es)
          else sorted_by arrival (without (p ∷ ps) es) ++ (p.path, i, p) ∷ [])
  unfolding put_latest without sorted_by occurs insert_by
  sorted-put ps [] i p d b = elim (Bool-cases (occurs p.path ps)) [
    | inl o ↦ rw (without, o) refl
    | inr o ↦ rw (without, o) refl
  ]
  sorted-put ps (e ∷ es) i p d b = elim (Bool-cases (same_text e.0 p.path)) [
    | inl s ↦
        let same = same_text-equal e.0 p.path s in
        let others = without-Fresh ps p es (rw (← same) d.0) in
        elim (Bool-cases (occurs p.path ps)) [
          | inl o ↦ rw (s, o, without, same, o, others) refl
          | inr o ↦
              rw (s, o, without, same, o, others)
                (insert_last (p.path, i, p) (sorted_by arrival (without ps es))
                  (Below-sorted i (without ps es) (Below-without i ps es b.1)))
        ]
    | inr s ↦
        let rest = sorted-put ps es i p d.1 b.1 in
        elim (Bool-cases (occurs e.0 ps)) [
          | inl u ↦ rw (s, without, u) rest
          | inr u ↦ elim (Bool-cases (occurs p.path ps)) [
            | inl o ↦ rw (s, without, u, o) (ap (insert_by arrival e) (rw o at rest))
            | inr o ↦
                rw (s, without, u, o)
                  (ap (insert_by arrival e) (rw o at rest)
                    ∙ insert_by-append arrival e (p.path, i, p)
                        (sorted_by arrival (without (p ∷ ps) es)) (omega (arith, b.0)))
          ]
        ]
  ]

  without_none : (es : Latest B) → without [] es ≡ es
  unfolding without occurs
  without_none [] = refl
  without_none (e ∷ es) = ap (λ zs. e ∷ zs) (without_none es)

  latest-keep_last :
      (ps : List (StatePatch B)) (i : ℕ) (es : Latest B)
      → Distinct es
      → Below i es
      → map (λ e. e.2) (sorted_by arrival (latest_by_path ps i es))
        ≡ map (λ e. e.2) (sorted_by arrival (without ps es)) ++ keep_last ps
  unfolding latest_by_path keep_last
  latest-keep_last [] i es d b = rw (without_none es) (sym (append-nil _))
  latest-keep_last (p ∷ ps) i es d b =
      let rest =
        latest-keep_last ps (suc i) (put_latest es i p) (Distinct-put es i p d)
          (Below-put es i p b) in
      let put = sorted-put ps es i p d b in
      elim (Bool-cases (occurs p.path ps)) [
        | inl o ↦ rw (keep_last, o) (rw (put, o) at rest)
        | inr o ↦
            rw (keep_last, o)
              ((rw (put, o, map-append) at rest) ∙ append_assoc _ (p ∷ []) (keep_last ps))
      ]

  -- Of any buffered patches, a flush sends those that no later patch of the same path follows, in the
  -- order of their arrival.
  pub squash_state_patches-keep_last :
      (patches : List (StatePatch B)) → squash_state_patches patches ≡ keep_last patches
  unfolding squash_state_patches sorted_by keep_last without
  squash_state_patches-keep_last patches = latest-keep_last patches 0 [] tt tt
