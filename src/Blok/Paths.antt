-- ===== src/Blok/Paths.antt =====
-- Dotted paths as rekuest_next/blok/parser.py takes them apart (`path.split(".")`) and puts them together.
use rekuest_next.Prelude.{
  String, ◌≡◌, refl, sym, ap, ◌∙◌, inl, inr, List, [], ◌∷◌, ◌==◌, if◌then◌else◌, ==_iff, Bool-cases,
}
use Prim.Native.String.{◌++◌ as concat}
use Prim.Native.Char.{Char, char, code}
use text.Mathlib.TextEquality.{Char-path}
use package.text.Mathlib.TextLemmas.{nil-append, cons-append}

-- A character before the first part
abbrev pub extend_first : Char → List String → List String
extend_first c [] = String.◌∷◌ c String.[] ∷ []
extend_first c (p ∷ ps) = String.◌∷◌ c p ∷ ps

-- The parts of a path from those behind its first character
abbrev pub split_step : Char → List String → List String
split_step c rest = if code c == b'.' then "" ∷ rest else extend_first c rest

-- path.split(".")
unfoldable pub split : String → List String
split String.[] = "" ∷ []
split (String.◌∷◌ c s) = split_step c (split s)

-- ".".join(parts)
unfoldable pub join : List String → String
join [] = ""
join (p ∷ ps) = elim ps [ [] ↦ p | q ∷ qs ↦ concat p (concat "." (join ps)) ]

split-cons : (s : String) → (p : String) × (ps : List String) × (split s ≡ p ∷ ps)
unfolding split
split-cons String.[] = ("", [], refl)
split-cons (String.◌∷◌ c s) =
    let (p, ps, e) = split-cons s in
    elim (Bool-cases (code c == b'.')) [
      | inl d ↦ ("", p ∷ ps, rw (d, e) refl)
      | inr d ↦ (String.◌∷◌ c p, ps, rw (d, e) refl)
    ]

joined_one : join ("" ∷ []) ≡ ""
unfolding join
joined_one = refl

join-extend_first :
    (c : Char) (p : String) (ps : List String)
    → join (extend_first c (p ∷ ps)) ≡ String.◌∷◌ c (join (p ∷ ps))
unfolding join
join-extend_first c p [] = refl
join-extend_first c p (q ∷ ps) = cons-append c p (concat "." (join (q ∷ ps)))

abbrev dot : Char
dot = char 46 tt

join-dot : (p : String) (ps : List String) → join ("" ∷ p ∷ ps) ≡ String.◌∷◌ dot (join (p ∷ ps))
unfolding join
join-dot p ps =
    nil-append (concat "." (join (p ∷ ps)))
    ∙ (cons-append dot "" (join (p ∷ ps)) ∙ ap (String.◌∷◌ dot) (nil-append (join (p ∷ ps))))

join-split_step :
    (c : Char) (p : String) (ps : List String)
    → join (split_step c (p ∷ ps)) ≡ String.◌∷◌ c (join (p ∷ ps))
join-split_step c p ps = elim (Bool-cases (code c == b'.')) [
  | inl d ↦
      let same : dot ≡ c = sym (Char-path c dot ((==_iff (code c) b'.').0 d)) in
      rw d (join-dot p ps ∙ ap (λ b. String.◌∷◌ b (join (p ∷ ps))) same)
  | inr d ↦ rw d (join-extend_first c p ps)
]

-- The parts of a path, joined, are the path.
pub join-split : (s : String) → join (split s) ≡ s
unfolding split
join-split String.[] = joined_one
join-split (String.◌∷◌ c s) =
    let (p, ps, e) = split-cons s in
    let rest : join (p ∷ ps) ≡ s = rw e at (join-split s) in
    rw e (join-split_step c p ps ∙ ap (String.◌∷◌ c) rest)
