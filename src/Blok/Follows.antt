-- ===== src/Blok/Follows.antt =====
-- The paths into a schema (`_resolve_port_match_path` of rekuest_next/blok/parser.py).
use rekuest_next.Prelude.{
  String, ◌≡◌, refl, sym, ap, ◌∙◌, ◌↔◌, inl, inr, true, false, Option, none, some, List, [], ◌∷◌,
  arith, Bool-cases, Option-cases,
}
use rekuest_next.Blok.Nodes.{PortMatch, port_match, PortMatches, no_matches, match_before}
use rekuest_next.Blok.Resolution.{
  key_is, find_match, wildcard, child_match, follow, ok, resolve_port_match_path,
}

-- A child of the first key that fits
pub data FirstWith (p : String) : PortMatches → PortMatch → Type 0 where
  this :
      {k : Option String} {ms rest : PortMatches}
      → key_is k p ≡ true
      → FirstWith p (match_before (port_match k ms) rest) (port_match k ms)
  later :
      {k : Option String} {ms rest : PortMatches} {m : PortMatch}
      → key_is k p ≡ false
      → FirstWith p rest m
      → FirstWith p (match_before (port_match k ms) rest) m

-- No child has the key.
abbrev pub Without : String → PortMatches → Type 0
Without p no_matches = Unit
Without p (match_before (port_match k ms) rest) = (key_is k p ≡ false) × Without p rest

-- A schema leads by keys to a part of it. The items of a list are under `...`, which stands for every key.
pub data Leads : PortMatch → List String → PortMatch → Type 0 where
  arrived : {m : PortMatch} → Leads m [] m
  by_key :
      {k : Option String} {ms : PortMatches} {c n : PortMatch} {p : String} {ps : List String}
      → FirstWith p ms c
      → Leads c ps n
      → Leads (port_match k ms) (p ∷ ps) n
  by_item :
      {k j : Option String} {ms : PortMatches} {n : PortMatch} {p : String} {ps : List String}
      → key_is j p ≡ false
      → key_is j "..." ≡ true
      → Leads (port_match j ms) ps n
      → Leads (port_match k (match_before (port_match j ms) no_matches)) (p ∷ ps) n

find_match-FirstWith :
    (p : String) {ms : PortMatches} {c : PortMatch} → FirstWith p ms c → find_match ms p ≡ some c
unfolding find_match
find_match-FirstWith p (this e) = rw e refl
find_match-FirstWith p (later e f) = rw e (find_match-FirstWith p f)

first_found :
    (ms : PortMatches) (p : String) (c : PortMatch) → find_match ms p ≡ some c → FirstWith p ms c
unfolding find_match
first_found no_matches p c h = absurd (ground (arith, h))
first_found (match_before (port_match k ms) rest) p c h = elim (Bool-cases (key_is k p)) [
  | inl e ↦ let same : port_match k ms ≡ c = ground (arith, rw e at h) in rw (← same) (this e)
  | inr e ↦ later e (first_found rest p c (rw e at h))
]

child_match-key :
    (ms : PortMatches) (p : String) (c : PortMatch)
    → find_match ms p ≡ some c
    → child_match ms p ≡ some c
unfolding child_match
child_match-key ms p c e = rw (child_match, e) refl

child_match-item :
    (j : Option String) (ms : PortMatches) (p : String)
    → key_is j p ≡ false
    → key_is j "..." ≡ true
    → child_match (match_before (port_match j ms) no_matches) p ≡ some (port_match j ms)
unfolding child_match find_match wildcard
child_match-item j ms p e w = rw (child_match, e, w) refl

follow-child :
    (k : Option String) (ms : PortMatches) (p : String) (ps : List String) (c : PortMatch)
    → child_match ms p ≡ some c
    → follow (port_match k ms) (p ∷ ps) ≡ follow c ps
unfolding follow
follow-child k ms p ps c e = rw (follow, e) refl

Leads-follow : {m n : PortMatch} {ps : List String} → Leads m ps n → follow m ps ≡ ok (some n)
unfolding follow
Leads-follow arrived = refl
Leads-follow (by_key {k = k} {ms = ms} {c = c} {p = p} {ps = ps} f l) =
    follow-child k ms p ps c (child_match-key ms p c (find_match-FirstWith p f)) ∙ Leads-follow l
Leads-follow (by_item {k = k} {j = j} {ms = ms} {p = p} {ps = ps} e w l) =
    follow-child k (match_before (port_match j ms) no_matches) p ps (port_match j ms)
      (child_match-item j ms p e w)
    ∙ Leads-follow l

item-Leads :
    (k : Option String) (ms : PortMatches) (p : String) (c : PortMatch)
    → find_match ms p ≡ none
    → wildcard ms ≡ some c
    → (ps : List String) (n : PortMatch) → Leads c ps n
    → Leads (port_match k ms) (p ∷ ps) n
unfolding find_match wildcard
item-Leads k no_matches p c e w ps n l = absurd (ground (arith, w))
item-Leads k (match_before (port_match j ms) no_matches) p c e w ps n l =
    let same : c ≡ port_match j ms = ground (arith, w) in
    by_item (ground (arith, e)) (ground (arith, w)) (rw same at l)
item-Leads k (match_before (port_match j ms) (match_before m rest)) p c e w ps n l =
    absurd (ground (arith, w))

-- The child that a step takes, and why
child-cases :
    (k : Option String) (ms : PortMatches) (p : String) (c : PortMatch)
    → child_match ms p ≡ some c
    → (ps : List String) (n : PortMatch) → Leads c ps n
    → Leads (port_match k ms) (p ∷ ps) n
unfolding child_match
child-cases k ms p c h ps n l = elim (Option-cases (find_match ms p)) [
  | inr (d, e) ↦
      let same : d ≡ c = ground (arith, rw (child_match, e) at h) in
      by_key (first_found ms p c (e ∙ ap some same)) l
  | inl e ↦ item-Leads k ms p c e (rw (child_match, e) at h) ps n l
]

follow-Leads :
    (m : PortMatch) (ps : List String) (n : PortMatch) → follow m ps ≡ ok (some n) → Leads m ps n
unfolding follow
follow-Leads m [] n h = let same : m ≡ n = ground (arith, h) in rw same arrived
follow-Leads (port_match k ms) (p ∷ ps) n h = elim (Option-cases (child_match ms p)) [
  | inl e ↦ absurd (ground (arith, h, e))
  | inr (c, e) ↦
      child-cases k ms p c e ps n (follow-Leads c ps n (sym (follow-child k ms p ps c e) ∙ h))
]

-- A path resolves in a schema, and to a part of it, exactly if the schema leads there by the path: at each
-- step to the first child with that key, or to the only child, where its key is `...`.
pub follow_iff :
    (m : PortMatch) (ps : List String) (n : PortMatch)
    → (resolve_port_match_path (some m) ps ≡ ok (some n)) ↔ Leads m ps n
unfolding resolve_port_match_path
follow_iff m ps n = (follow-Leads m ps n, Leads-follow)
