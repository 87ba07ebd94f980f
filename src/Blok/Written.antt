-- ===== src/Blok/Written.antt =====
-- The calls in the attributes of a blok as a language of its own: what an author writes, as a Python
-- expression, and what is meant by it (`_parse_ast_call` and `_parse_ast_argument_value` of
-- rekuest_next/blok/parser.py).
use rekuest_next.Prelude.{
  String, Bool, true, not, ◌&&◌, Option, none, some, List, [], ◌∷◌, str_eq, ◌==◌, all,
}
use rekuest_next.Objects.{Object, text}
use rekuest_next.Blok.Paths.{join}
use rekuest_next.Blok.Nodes.{
  no_agent_call, agent_call, no_util_call, util_call, Argument, Arguments, no_arguments, also,
}
use rekuest_next.Blok.Parsing.{
  Call, Expr, Exprs, Keywords, Entries, name, attribute, constant, call, list_of, tuple_of, dict_of,
  no_exprs, expr, no_keywords, keyword, no_entries, entry, value_argument, path_argument,
  call_argument, list_argument, dict_argument,
}
use Prim.Native.Char.{code}

-- What is called: a utility, or an operation of a dependency, with or without `actions.` before it.
pub data Target : Type 0 where
  util : (operation : String) → List String → Target
  action : (dependency operation : String) → List String → Target
  agent : (dependency operation : String) → List String → Target

mutual
  pub data Term : Type 0 where
    literal : Object → Term
    dotted : (root : String) → List String → Term
    invoke : Target → Terms → NamedTerms → Term
    listed : Terms → Term
    tupled : Terms → Term
    keyed : NamedTerms → Term

  pub data Terms : Type 0 where
    no_terms : Terms
    term : Term → Terms → Terms

  pub data NamedTerms : Type 0 where
    no_named : NamedTerms
    named : (key : String) → Term → NamedTerms → NamedTerms

abbrev pub parts : Target → List String
parts (util o os) = "utils" ∷ o ∷ os
parts (action d o os) = "actions" ∷ d ∷ o ∷ os
parts (agent d o os) = d ∷ o ∷ os

abbrev pub chain : Expr → List String → Expr
chain e [] = e
chain e (p ∷ ps) = chain (attribute e p) ps

abbrev pub dotted_expr : List String → Expr
dotted_expr [] = Expr.other
dotted_expr (r ∷ ps) = chain (name r) ps

-- What an author writes
abbrev mutual
  pub written : Term → Expr
  written (literal v) = constant v
  written (dotted r ps) = chain (name r) ps
  written (invoke t xs ks) = call (dotted_expr (parts t)) (written_each xs) (written_keywords ks)
  written (listed xs) = list_of (written_each xs)
  written (tupled xs) = tuple_of (written_each xs)
  written (keyed ks) = dict_of (written_entries ks)

  pub written_each : Terms → Exprs
  written_each no_terms = no_exprs
  written_each (term x xs) = expr (written x) (written_each xs)

  pub written_keywords : NamedTerms → Keywords
  written_keywords no_named = no_keywords
  written_keywords (named k x ks) = keyword (some k) (written x) (written_keywords ks)

  pub written_entries : NamedTerms → Entries
  written_entries no_named = no_entries
  written_entries (named k x ks) = entry (constant (text k)) (written x) (written_entries ks)

abbrev pub meant_target : Target → Arguments → Call
meant_target (util o os) xs = (no_agent_call, util_call (join (o ∷ os)) xs)
meant_target (action d o os) xs = (agent_call d (join (o ∷ os)) xs, no_util_call)
meant_target (agent d o os) xs = (agent_call d (join (o ∷ os)) xs, no_util_call)

abbrev pub followed_by : Arguments → Arguments → Arguments
followed_by no_arguments ys = ys
followed_by (also x xs) ys = also x (followed_by xs ys)

-- What is meant by it: the positional arguments have no key, and the named ones follow under theirs.
abbrev mutual
  pub meant : Option String → Term → Argument
  meant key (literal v) = value_argument key v
  meant key (dotted r ps) = path_argument key (join (r ∷ ps))
  meant key (invoke t xs ks) =
      call_argument key (meant_target t (followed_by (meant_each xs) (meant_named ks)))
  meant key (listed xs) = list_argument key (meant_each xs)
  meant key (tupled xs) = list_argument key (meant_each xs)
  meant key (keyed ks) = dict_argument key (meant_named ks)

  pub meant_each : Terms → Arguments
  meant_each no_terms = no_arguments
  meant_each (term x xs) = also (meant none x) (meant_each xs)

  pub meant_named : NamedTerms → Arguments
  meant_named no_named = no_arguments
  meant_named (named k x ks) = also (meant (some k) x) (meant_named ks)

-- An identifier, as far as it has no dot
abbrev pub dotless : String → Bool
dotless String.[] = true
dotless (String.◌∷◌ c s) = not (code c == b'.') && dotless s

-- The names of a call are identifiers, and no dependency without `actions.` has the name of a namespace.
abbrev pub clear_target : Target → Bool
clear_target (agent d o os) =
    (not (str_eq d "utils") && not (str_eq d "actions")) && all dotless (d ∷ o ∷ os)
clear_target t = all dotless (parts t)

abbrev mutual
  pub clear : Term → Bool
  clear (literal v) = true
  clear (dotted r ps) = true
  clear (invoke t xs ks) = clear_target t && (clear_each xs && clear_named ks)
  clear (listed xs) = clear_each xs
  clear (tupled xs) = clear_each xs
  clear (keyed ks) = clear_named ks

  pub clear_each : Terms → Bool
  clear_each no_terms = true
  clear_each (term x xs) = clear x && clear_each xs

  pub clear_named : NamedTerms → Bool
  clear_named no_named = true
  clear_named (named k x ks) = clear x && clear_named ks
