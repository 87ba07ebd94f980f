-- ===== src/History/Sorting.antt =====
-- Python's `sorted` and `max` by a numeric key: a stable sort, and the first of the greatest.
use rekuest_next.Prelude.{
  ℕ, ◌≤◌, ◌<◌, ◌≡◌, refl, ap, ◌∙◌, inl, inr, false, Option, none, some, List, [], ◌∷◌, ◌++◌, arith,
  ltb, leb, ◌==◌, if◌then◌else◌, Bool-cases,
}

module _ {ℓ} {A : Type ℓ} (key : A → ℕ) where
  unfoldable pub insert_by : A → List A → List A
  insert_by x [] = x ∷ []
  insert_by x (y ∷ ys) =
      let rest = insert_by x ys in if leb (key x) (key y) then x ∷ y ∷ ys else y ∷ rest

  unfoldable pub sorted_by : List A → List A
  unfolding insert_by
  sorted_by [] = []
  sorted_by (x ∷ xs) = insert_by x (sorted_by xs)

  abbrev greater : A → Option A → A
  greater x none = x
  greater x (some y) = if ltb (key x) (key y) then y else x

  unfoldable pub max_by : List A → Option A
  max_by [] = none
  max_by (x ∷ xs) = some (greater x (max_by xs))

  -- Every key is at most `n`.
  abbrev pub AllUpTo : ℕ → List A → Type 0
  AllUpTo n [] = Unit
  AllUpTo n (x ∷ xs) = (key x ≤ n) × AllUpTo n xs

  pub insert_by-append :
      (x p : A) (ys : List A)
      → key x ≤ key p
      → insert_by x (ys ++ p ∷ []) ≡ insert_by x ys ++ p ∷ []
  unfolding insert_by
  insert_by-append x p [] h = ground arith
  insert_by-append x p (y ∷ ys) h = elim (Bool-cases (leb (key x) (key y))) [
    | inl e ↦ rw e refl
    | inr e ↦ rw e (ap (λ zs. y ∷ zs) (insert_by-append x p ys h))
  ]

  -- What comes last with a greatest key is last in the sorted list.
  pub sorted_by-append :
      (xs : List A) (p : A) → AllUpTo (key p) xs → sorted_by (xs ++ p ∷ []) ≡ sorted_by xs ++ p ∷ []
  unfolding sorted_by insert_by
  sorted_by-append [] p h = refl
  sorted_by-append (x ∷ xs) p h =
      ap (insert_by x) (sorted_by-append xs p h.1) ∙ insert_by-append x p (sorted_by xs) h.0

  -- What comes last with the one greatest key is the maximum.
  pub max_by-append :
      (xs : List A) (p : A) (n : ℕ) → AllUpTo n xs → n < key p → max_by (xs ++ p ∷ []) ≡ some p
  unfolding max_by
  max_by-append [] p n h less = refl
  max_by-append (x ∷ xs) p n h less = rw (max_by-append xs p n h.1 less) (ground arith)

  -- Every key is above `n`, and every key differs from `n`.
  abbrev pub AllAbove : ℕ → List A → Type 0
  AllAbove n [] = Unit
  AllAbove n (x ∷ xs) = (n < key x) × AllAbove n xs

  abbrev pub AllDiffer : ℕ → List A → Type 0
  AllDiffer n [] = Unit
  AllDiffer n (x ∷ xs) = ((n == key x) ≡ false) × AllDiffer n xs

  -- No two have the same key; each key is above the one before it.
  abbrev pub Apart : List A → Type 0
  Apart [] = Unit
  Apart (x ∷ xs) = AllDiffer (key x) xs × Apart xs

  abbrev pub Ascending : List A → Type 0
  Ascending [] = Unit
  Ascending (x ∷ xs) = AllAbove (key x) xs × Ascending xs

  AllAbove-weaken : (m n : ℕ) (xs : List A) → m < n → AllAbove n xs → AllAbove m xs
  AllAbove-weaken m n [] h a = tt
  AllAbove-weaken m n (x ∷ xs) h a = (omega (arith, a.0), AllAbove-weaken m n xs h a.1)

  insert_by-AllAbove :
      (n : ℕ) (x : A) (ys : List A) → n < key x → AllAbove n ys → AllAbove n (insert_by x ys)
  unfolding insert_by
  insert_by-AllAbove n x [] h a = (h, tt)
  insert_by-AllAbove n x (y ∷ ys) h a = elim (Bool-cases (leb (key x) (key y))) [
    | inl e ↦ rw e (h, a)
    | inr e ↦ rw e (a.0, insert_by-AllAbove n x ys h a.1)
  ]

  insert_by-AllDiffer :
      (n : ℕ) (x : A) (ys : List A)
      → (n == key x) ≡ false
      → AllDiffer n ys
      → AllDiffer n (insert_by x ys)
  unfolding insert_by
  insert_by-AllDiffer n x [] h a = (h, tt)
  insert_by-AllDiffer n x (y ∷ ys) h a = elim (Bool-cases (leb (key x) (key y))) [
    | inl e ↦ rw e (h, a)
    | inr e ↦ rw e (a.0, insert_by-AllDiffer n x ys h a.1)
  ]

  insert_by-Ascending :
      (x : A) (ys : List A) → AllDiffer (key x) ys → Ascending ys → Ascending (insert_by x ys)
  unfolding insert_by
  insert_by-Ascending x [] d a = (tt, tt)
  insert_by-Ascending x (y ∷ ys) d a = elim (Bool-cases (leb (key x) (key y))) [
    | inl e ↦
        let less : key x < key y = ground (arith, e, d.0) in
        rw e ((less, AllAbove-weaken (key x) (key y) ys less a.0), a)
    | inr e ↦
        rw e (
          insert_by-AllAbove (key y) x ys (ground (arith, e)) a.0,
          insert_by-Ascending x ys d.1 a.1,
        )
  ]

  sorted_by-AllDiffer : (n : ℕ) (xs : List A) → AllDiffer n xs → AllDiffer n (sorted_by xs)
  unfolding sorted_by
  sorted_by-AllDiffer n [] d = tt
  sorted_by-AllDiffer n (x ∷ xs) d =
      insert_by-AllDiffer n x (sorted_by xs) d.0 (sorted_by-AllDiffer n xs d.1)

  pub sorted_by-Ascending : (xs : List A) → Apart xs → Ascending (sorted_by xs)
  unfolding sorted_by
  sorted_by-Ascending [] a = tt
  sorted_by-Ascending (x ∷ xs) a =
      insert_by-Ascending x (sorted_by xs) (sorted_by-AllDiffer (key x) xs a.0)
        (sorted_by-Ascending xs a.1)
