-- ===== src/Locks/Covers.antt =====
-- Lists of keys that contain all held keys.
use rekuest_next.Prelude.{
  String, ◌≡◌, refl, ap, ◌∙◌, inl, inr, true, ◌||◌, List, [], ◌∷◌, ◌++◌, reverse, arith, str_eq,
  eq_refl, Bool-cases, filter, all, contains,
}
use mathlib.Core.List.{reverse-append}
use rekuest_next.Locks.{unheld}

-- Every key of the second list is in the first.
abbrev pub Covers : List String → List String → Type 0
Covers keys held = all (contains keys) held ≡ true

contains-append :
    (xs ys : List String) (s : String) → contains (xs ++ ys) s ≡ (contains xs s || contains ys s)
contains-append [] ys s = refl
contains-append (x ∷ xs) ys s = ground (arith, contains-append xs ys s)

pub contains-reverse : (xs : List String) (s : String) → contains (reverse xs) s ≡ contains xs s
contains-reverse [] s = refl
contains-reverse (x ∷ xs) s =
    ap (λ zs. contains zs s) (reverse-append (x ∷ []) xs)
    ∙ contains-append (reverse xs) (x ∷ []) s
    ∙ ground (arith, contains-reverse xs s)

pub Covers-more :
    (keys more held : List String)
    → ((s : String) → contains keys s ≡ true → contains more s ≡ true)
    → Covers keys held
    → Covers more held
Covers-more keys more [] f h = refl
Covers-more keys more (x ∷ held) f h =
    let head : contains keys x ≡ true = ground (arith, h) in
    let tail : Covers keys held = ground (arith, h) in
    ground (arith, f x head, Covers-more keys more held f tail)

pub Covers-last :
    (keys held : List String) (k : String)
    → Covers keys held
    → contains keys k ≡ true
    → Covers keys (held ++ k ∷ [])
Covers-last keys [] k h c = ground (arith, c)
Covers-last keys (x ∷ held) k h c =
    let head : contains keys x ≡ true = ground (arith, h) in
    let tail : Covers keys held = ground (arith, h) in
    ground (arith, head, Covers-last keys held k tail c)

pub Covers-append :
    (keys held : List String) (k : String)
    → Covers keys held
    → Covers (keys ++ k ∷ []) (held ++ k ∷ [])
Covers-append keys held k h =
    Covers-last (keys ++ k ∷ []) held k
      (Covers-more keys (keys ++ k ∷ []) held
        (λ s c. ground (arith, contains-append keys (k ∷ []) s, c)) h)
      (ground (arith, contains-append keys (k ∷ []) k, eq_refl k))

pub Covers-unheld :
    (k : String) (keys held : List String) → Covers (k ∷ keys) held → Covers keys (unheld k held)
Covers-unheld k keys [] h = refl
Covers-unheld k keys (x ∷ held) h =
    let head : contains (k ∷ keys) x ≡ true = ground (arith, h) in
    let tail : Covers (k ∷ keys) held = ground (arith, h) in
    elim (Bool-cases (str_eq k x)) [
      | inl e ↦ rw (e, filter) (Covers-unheld k keys held tail)
      | inr e ↦ rw (e, filter) (ground (arith, head, e, Covers-unheld k keys held tail))
    ]

pub Covers-nothing : (held : List String) → Covers [] held → held ≡ []
Covers-nothing [] h = refl
Covers-nothing (x ∷ held) h = ground (arith, h)
