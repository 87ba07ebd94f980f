-- ===== src/History/Bounds.antt =====
-- Lists whose keys are bounded: filters on the key, and the greatest key.
use rekuest_next.Prelude.{
  ℕ, ◌≤◌, ◌≡◌, refl, ap, ◌∙◌, ◌⊎◌, inl, inr, Bool, true, false, some, List, [], ◌∷◌, ◌++◌,
  append-nil, arith, leb, if◌then◌else◌, Bool-cases, Option-cases, filter,
}
use rekuest_next.History.Sorting.{max_by, AllUpTo}

pub List-cases {ℓ} :
    {T : Type ℓ} (xs : List T) → (xs ≡ []) ⊎ ((x : T) × (ys : List T) × (xs ≡ x ∷ ys))
List-cases [] = inl refl
List-cases (x ∷ xs) = inr (x, xs, refl)

module _ {ℓ} {A : Type ℓ} where
  filter-append :
      (p : A → Bool) (xs : List A) (y : A)
      → filter p (xs ++ y ∷ []) ≡ filter p xs ++ (if p y then y ∷ [] else [])
  filter-append p [] y = elim (Bool-cases (p y)) [ inl e ↦ rw e refl | inr e ↦ rw e refl ]
  filter-append p (x ∷ xs) y = elim (Bool-cases (p x)) [
    | inl e ↦ rw (e, filter) (ap (λ zs. x ∷ zs) (filter-append p xs y))
    | inr e ↦ rw (e, filter) (filter-append p xs y)
  ]

  pub filter_keeps :
      (p : A → Bool) (xs : List A) (y : A)
      → p y ≡ true
      → filter p (xs ++ y ∷ []) ≡ filter p xs ++ y ∷ []
  filter_keeps p xs y h = filter-append p xs y ∙ rw h refl

  pub filter_drops :
      (p : A → Bool) (xs : List A) (y : A) → p y ≡ false → filter p (xs ++ y ∷ []) ≡ filter p xs
  filter_drops p xs y h = filter-append p xs y ∙ rw h (append-nil _)

  pub filter_all :
      (key : A → ℕ) (n r : ℕ) (xs : List A)
      → AllUpTo key n xs
      → n ≤ r
      → filter (λ x. leb (key x) r) xs ≡ xs
  filter_all key n r [] h le = refl
  filter_all key n r (x ∷ xs) h le =
      let e : leb (key x) r ≡ true = ground (arith, h.0) in
      rw (e, filter) (ap (λ zs. x ∷ zs) (filter_all key n r xs h.1 le))

  pub AllUpTo-append :
      (key : A → ℕ) (n : ℕ) (xs : List A) (y : A)
      → AllUpTo key n xs
      → key y ≤ n
      → AllUpTo key n (xs ++ y ∷ [])
  AllUpTo-append key n [] y h le = (le, tt)
  AllUpTo-append key n (x ∷ xs) y h le = (h.0, AllUpTo-append key n xs y h.1 le)

  pub AllUpTo-weaken :
      (key : A → ℕ) (m n : ℕ) (xs : List A) → AllUpTo key m xs → m ≤ n → AllUpTo key n xs
  AllUpTo-weaken key m n [] h le = tt
  AllUpTo-weaken key m n (x ∷ xs) h le = (omega (arith, h.0), AllUpTo-weaken key m n xs h.1 le)

  pub AllUpTo-filter :
      (key : A → ℕ) (n : ℕ) (p : A → Bool) (xs : List A)
      → AllUpTo key n xs
      → AllUpTo key n (filter p xs)
  AllUpTo-filter key n p [] h = tt
  AllUpTo-filter key n p (x ∷ xs) h = elim (Bool-cases (p x)) [
    | inl e ↦ rw (e, AllUpTo) (h.0, AllUpTo-filter key n p xs h.1)
    | inr e ↦ rw (e, AllUpTo) (AllUpTo-filter key n p xs h.1)
  ]

  pub max_by-UpTo :
      (key : A → ℕ) (n : ℕ) (xs : List A) (a : A)
      → AllUpTo key n xs
      → max_by key xs ≡ some a
      → key a ≤ n
  unfolding max_by
  max_by-UpTo key n [] a h e = ground (arith, e)
  max_by-UpTo key n (x ∷ xs) a h e = elim (Option-cases (max_by key xs)) [
    | inl m ↦ ground (arith, e, m, h.0)
    | inr (y, m) ↦ ground (arith, e, m, max_by-UpTo key n xs y h.1 m, h.0)
  ]

  pub filter_none :
      (key : A → ℕ) (p : A → Bool) (n : ℕ) (xs : List A)
      → AllUpTo key n xs
      → ((x : A) → key x ≤ n → p x ≡ false)
      → filter p xs ≡ []
  filter_none key p n [] h no_one = refl
  filter_none key p n (x ∷ xs) h no_one =
      rw (no_one x h.0, filter) (filter_none key p n xs h.1 no_one)

  pub filter_same :
      (key : A → ℕ) (p q : A → Bool) (n : ℕ) (xs : List A)
      → AllUpTo key n xs
      → ((x : A) → key x ≤ n → p x ≡ q x)
      → filter p xs ≡ filter q xs
  filter_same key p q n [] h alike = refl
  filter_same key p q n (x ∷ xs) h alike = elim (Bool-cases (q x)) [
    | inl e ↦ rw (alike x h.0, e, filter) (ap (λ zs. x ∷ zs) (filter_same key p q n xs h.1 alike))
    | inr e ↦ rw (alike x h.0, e, filter) (filter_same key p q n xs h.1 alike)
  ]
