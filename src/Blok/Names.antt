-- ===== src/Blok/Names.antt =====
-- What the parser of rekuest_next/blok/parser.py makes of the calls that an author writes.
use rekuest_next.Prelude.{
  String, ◌≡◌, refl, ap, ◌∙◌, true, false, Option, none, some, List, [], ◌∷◌, arith, str_eq, ◌==◌,
  all,
}
use rekuest_next.Objects.{text}
use rekuest_next.Blok.Paths.{join, split}
use rekuest_next.Blok.Nodes.{Arguments, no_arguments}
use rekuest_next.Blok.Parsing.{
  route, parse_call, Expr, name, attribute, extract_path, parse_argument, parse_positional,
  parse_keywords, parse_entries, path_argument,
}
use rekuest_next.Blok.Written.{
  Target, util, action, agent, Term, literal, dotted, invoke, listed, tupled, keyed, Terms,
  no_terms, term, NamedTerms, no_named, named, parts, chain, dotted_expr, written, written_each,
  written_keywords, written_entries, meant_target, followed_by, meant, meant_each, meant_named,
  dotless, clear_target, clear, clear_each, clear_named,
}
use Prim.Native.String.{◌++◌ as concat}
use Prim.Native.Char.{char, code}
use package.text.Mathlib.TextLemmas.{nil-append, cons-append, append_assoc}

split-dotless : (p : String) → dotless p ≡ true → split p ≡ p ∷ []
unfolding split
split-dotless String.[] h = refl
split-dotless (String.◌∷◌ c s) h =
    let plain : (code c == b'.') ≡ false = ground (arith, h) in
    let rest : split s ≡ s ∷ [] = split-dotless s (ground (arith, h)) in rw (rest, plain) refl

split-concat : (p s : String) → dotless p ≡ true → split (concat p (concat "." s)) ≡ p ∷ split s
unfolding split
split-concat String.[] s h = ap split (
    nil-append (concat "." s)
    ∙ cons-append (char 46 tt) "" s
    ∙ ap (String.◌∷◌ (char 46 tt)) (nil-append s))
split-concat (String.◌∷◌ c p) s h =
    let plain : (code c == b'.') ≡ false = ground (arith, h) in
    let rest : split (concat p (concat "." s)) ≡ p ∷ split s =
      split-concat p s (ground (arith, h)) in
    ap split (cons-append c p (concat "." s)) ∙ rw (rest, plain) refl

split-join :
    (p : String) (ps : List String) → all dotless (p ∷ ps) ≡ true → split (join (p ∷ ps)) ≡ p ∷ ps
unfolding join
split-join p [] h = split-dotless p (ground (arith, h))
split-join p (q ∷ ps) h =
    split-concat p (join (q ∷ ps)) (ground (arith, h))
    ∙ ap (◌∷◌ p) (split-join q ps (ground (arith, h)))

join_first :
    (r p : String) (ps : List String) → join (concat r (concat "." p) ∷ ps) ≡ join (r ∷ p ∷ ps)
unfolding join
join_first r p [] = refl
join_first r p (q ∷ ps) =
    let tail = concat "." (join (q ∷ ps)) in
    append_assoc r (concat "." p) tail ∙ ap (concat r) (append_assoc "." p tail)

extract_path-chain :
    (e : Expr) (s : String) (ps : List String)
    → extract_path e ≡ some s
    → extract_path (chain e ps) ≡ some (join (s ∷ ps))
unfolding extract_path join
extract_path-chain e s [] h = h
extract_path-chain e s (p ∷ ps) h =
    extract_path-chain (attribute e p) (concat s (concat "." p)) ps (rw h refl)
    ∙ ap some (join_first s p ps)

extract_path-dotted_expr :
    (r : String) (ps : List String) → extract_path (dotted_expr (r ∷ ps)) ≡ some (join (r ∷ ps))
unfolding extract_path
extract_path-dotted_expr r ps = extract_path-chain (name r) r ps refl

route-parts :
    (t : Target) (xs : Arguments)
    → clear_target t ≡ true
    → route (parts t) xs ≡ some (meant_target t xs)
unfolding route
route-parts (util o []) xs h = refl
route-parts (util o (p ∷ ps)) xs h = refl
route-parts (action d o os) xs h = refl
route-parts (agent d o []) xs h =
    let u : str_eq d "utils" ≡ false = ground (arith, h) in
    let a : str_eq d "actions" ≡ false = ground (arith, h) in rw (u, a) refl
route-parts (agent d o (p ∷ ps)) xs h =
    let u : str_eq d "utils" ≡ false = ground (arith, h) in
    let a : str_eq d "actions" ≡ false = ground (arith, h) in rw (u, a) refl

-- The name of a clear target leads to what is meant.
routed :
    (t : Target) (xs : Arguments)
    → clear_target t ≡ true
    → (path : String) × (extract_path (dotted_expr (parts t)) ≡ some path)
      × (route (split path) xs ≡ some (meant_target t xs))
routed (util o os) xs h = (
  join ("utils" ∷ o ∷ os),
  extract_path-dotted_expr "utils" (o ∷ os),
  rw (split-join "utils" (o ∷ os) h) (route-parts (util o os) xs h),
)
routed (action d o os) xs h = (
  join ("actions" ∷ d ∷ o ∷ os),
  extract_path-dotted_expr "actions" (d ∷ o ∷ os),
  rw (split-join "actions" (d ∷ o ∷ os) h) (route-parts (action d o os) xs h),
)
routed (agent d o os) xs h = (
  join (d ∷ o ∷ os),
  extract_path-dotted_expr d (o ∷ os),
  rw (split-join d (o ∷ os) (ground (arith, h))) (route-parts (agent d o os) xs h),
)

parse_argument-chain :
    (key : Option String) (e : Expr) (attr s : String) (ps : List String)
    → extract_path (chain (attribute e attr) ps) ≡ some s
    → parse_argument key (chain (attribute e attr) ps) ≡ some (path_argument key s)
unfolding parse_argument
parse_argument-chain key e attr s [] h = rw h refl
parse_argument-chain key e attr s (p ∷ ps) h = parse_argument-chain key (attribute e attr) p s ps h

single_name :
    (key : Option String) (r : String)
    → parse_argument key (name r) ≡ some (path_argument key (join (r ∷ [])))
unfolding parse_argument join
single_name key r = refl

mutual
  unfolding parse_argument

  argument-written :
      (key : Option String) (x : Term)
      → clear x ≡ true
      → parse_argument key (written x) ≡ some (meant key x)
  argument-written key (literal v) h = refl
  argument-written key (dotted r []) h = single_name key r
  argument-written key (dotted r (p ∷ ps)) h =
      parse_argument-chain key (name r) p (join (r ∷ p ∷ ps)) ps
        (extract_path-dotted_expr r (p ∷ ps))
  argument-written key (invoke t xs ks) h =
      let (path, e, r) =
        routed t (followed_by (meant_each xs) (meant_named ks)) (ground (arith, h)) in
      rw
        (
          e,
          keywords-written ks (ground (arith, h)),
          positional-written xs (meant_named ks) (ground (arith, h)),
          r,
        )
        refl
  argument-written key (listed xs) h = rw (list-written xs h) refl
  argument-written key (tupled xs) h = rw (list-written xs h) refl
  argument-written key (keyed ks) h = rw (entries-written ks h) refl

  positional-written :
      (xs : Terms) (ys : Arguments)
      → clear_each xs ≡ true
      → parse_positional (written_each xs) (some ys) ≡ some (followed_by (meant_each xs) ys)
  positional-written no_terms ys h = refl
  positional-written (term x xs) ys h =
      rw (argument-written none x (ground (arith, h)), positional-written xs ys (ground (arith, h)))
        refl

  list-written :
      (xs : Terms)
      → clear_each xs ≡ true
      → parse_positional (written_each xs) (some no_arguments) ≡ some (meant_each xs)
  list-written no_terms h = refl
  list-written (term x xs) h =
      rw (argument-written none x (ground (arith, h)), list-written xs (ground (arith, h))) refl

  keywords-written :
      (ks : NamedTerms)
      → clear_named ks ≡ true
      → parse_keywords (written_keywords ks) ≡ some (meant_named ks)
  keywords-written no_named h = refl
  keywords-written (named k x ks) h =
      rw (argument-written (some k) x (ground (arith, h)), keywords-written ks (ground (arith, h)))
        refl

  entries-written :
      (ks : NamedTerms)
      → clear_named ks ≡ true
      → parse_entries (written_entries ks) ≡ some (meant_named ks)
  entries-written no_named h = refl
  entries-written (named k x ks) h =
      rw (argument-written (some k) x (ground (arith, h)), entries-written ks (ground (arith, h)))
        refl

-- A call of a utility, of `actions.` and a dependency, or of a dependency itself, with literals, references,
-- nested calls, lists, tuples and dicts with literal keys for arguments, at any depth: the parser makes of the
-- expression the call that is meant, with the dependency and the operation, or the operation of the
-- utility, and all arguments in their order, the positional ones before the named ones. The names of a call
-- have no dots, and a dependency without `actions.` is not called `utils` or `actions`.
pub parse_call-written :
    (t : Target) (xs : Terms) (ks : NamedTerms)
    → clear (invoke t xs ks) ≡ true
    → parse_call (dotted_expr (parts t)) (written_each xs) (written_keywords ks)
      ≡ some (meant_target t (followed_by (meant_each xs) (meant_named ks)))
unfolding parse_call
parse_call-written t xs ks h =
    let (path, e, r) =
      routed t (followed_by (meant_each xs) (meant_named ks)) (ground (arith, h)) in
    rw
      (
        e,
        keywords-written ks (ground (arith, h)),
        positional-written xs (meant_named ks) (ground (arith, h)),
        r,
      )
      refl
