-- ===== src/Pointer/Tests.antt =====
-- Concrete paths of children.
use rekuest_next.Prelude.{String, ◌≡◌, [], ◌∷◌, ◌++◌}
use rekuest_next.Pointer.{codes, name, make_path}
use rekuest_next.Pointer.Tokens.{tokens, key_tokens, tokens-make_path}

tokens-make_path_example :
    tokens (make_path (codes "/a") (name "x/~y"))
    ≡ tokens (codes "/a") ++ key_tokens (name "x/~y") ∷ []
tokens-make_path_example = tokens-make_path (codes "/a") (name "x/~y")

abbrev odd_key : String
odd_key = "x/~y"
