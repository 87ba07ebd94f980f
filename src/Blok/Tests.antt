-- ===== src/Blok/Tests.antt =====
-- A blok with a list of images, each with a button.
use rekuest_next.Prelude.{String, ◌≡◌, refl, ◌↔◌, true, some, [], ◌∷◌, str_eq, if◌then◌else◌}
use rekuest_next.Prelude.Dict.{get, has, put, remove}
use rekuest_next.Blok.Paths.{split, join}
use rekuest_next.Blok.Nodes.{
  plain_prop, agent_call, no_util_call, no_arguments, also, Component, node, no_nodes, before,
  port_match, no_matches, match_before, StateDependency, AgentDependency,
}
use rekuest_next.Blok.Parsing.{
  extract_path, path_argument, parse_call, parse_props, parse_element, Expr, name, attribute, call,
  no_exprs, no_keywords, keyword, Element, element, no_elements, elements, Python,
}
use rekuest_next.Blok.Written.{
  util, action, dotted, invoke, listed, keyed, Terms, no_terms, term, NamedTerms, no_named, named,
  written_each, written_keywords, followed_by, meant_each, meant_named,
}
use rekuest_next.Blok.Names.{parse_call-written}
use rekuest_next.Blok.Resolution.{resolve_port_match_path, state_demand_root_match, ok}
use rekuest_next.Blok.Validation.{validate_blok}
use rekuest_next.Blok.Known.{known_node, validate_blok-known}
use rekuest_next.Blok.Follows.{follow_iff, Leads}

abbrev show_call : Expr
show_call =
    call (attribute (attribute (name "actions") "scope") "show") no_exprs
      (keyword (some "label") (attribute (name "im") "label") no_keywords)

-- `ast.parse` of the one expression of the blok
abbrev python : Python
python = record {
  strip = λ s. s;
  is_identifier = λ s. true;
  ast_parse = λ s. some show_call;
  uuid4 = λ e. "new";
}

abbrev page : Element
page = element "ForEach" (("id", "all") ∷ ("let", "#im") ∷ ("items", "$state.scope.images") ∷ []) (
    elements (element "Button" (("click", "@actions.scope.show(label=im.label)") ∷ []) no_elements)
      no_elements)

abbrev images : StateDependency
images = record {
  key = "images";
  matches =
      match_before
        (port_match (some "...") (match_before (port_match (some "label") no_matches) no_matches))
        no_matches;
}

abbrev scope : AgentDependency
scope = record { key = "scope"; app = some "microscope"; state_dependencies = images ∷ [] }

abbrev parsed : Component
parsed =
    node "all" "ForEach"
      (record (plain_prop "let") { static_value = some "im"; declares_value = some "im" }
        ∷ record (plain_prop "items") { dynamic_path = some "state.scope.images" }
        ∷ [])
      (before
        (node "new" "Button"
          (record (plain_prop "click") {
            in_agent_call =
                agent_call "scope" "show"
                  (also (path_argument (some "label") "im.label") no_arguments);
          }
            ∷ [])
          no_nodes)
        no_nodes)

page-parsed : parse_element python page ≡ some parsed
unfolding parse_element get remove parse_props split extract_path join
page-parsed = refl

abbrev lowered : String → String
lowered s = if str_eq s "ForEach" then "foreach" else s

page_valid : validate_blok lowered parsed (scope ∷ []) ≡ ok tt
unfolding validate_blok get has put split
page_valid = refl

validate_blok-known_example : known_node (scope ∷ []) parsed ≡ true
validate_blok-known_example = validate_blok-known lowered parsed (scope ∷ []) page_valid

-- `actions.scope.show([im.label], size={"w": utils.double(im.w)})`
abbrev size_of : NamedTerms
size_of =
    named "size"
      (keyed (
        named "w" (invoke (util "double" []) (term (dotted "im" ("w" ∷ [])) no_terms) no_named)
          no_named))
      no_named

abbrev labels_of : Terms
labels_of = term (listed (term (dotted "im" ("label" ∷ [])) no_terms)) no_terms

parse_call-written_example :
    parse_call
      (attribute (attribute (name "actions") "scope") "show")
      (written_each labels_of)
      (written_keywords size_of)
    ≡ some (
      agent_call "scope" "show" (followed_by (meant_each labels_of) (meant_named size_of)),
      no_util_call,
    )
unfolding join
parse_call-written_example = parse_call-written (action "scope" "show" []) labels_of size_of refl

follow_iff_example :
    (resolve_port_match_path (some (state_demand_root_match images)) ("0" ∷ "label" ∷ [])
      ≡ ok (some (port_match (some "label") no_matches)))
    ↔ Leads
        (state_demand_root_match images)
        ("0" ∷ "label" ∷ [])
        (port_match (some "label") no_matches)
follow_iff_example =
    follow_iff (state_demand_root_match images) ("0" ∷ "label" ∷ [])
      (port_match (some "label") no_matches)
