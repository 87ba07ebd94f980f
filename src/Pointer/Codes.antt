-- ===== src/Pointer/Codes.antt =====
-- A text is determined by its code points, and a key by the path of the child under it.
use Prim.Native.Nat.{Ordering, compare}
use Prim.Native.Char.{Char, char, code, nul, IsLt, IsScalar}
use text.Mathlib.TextEquality.{Char-path}
use rekuest_next.Prelude.{
  ℕ, suc, String, ◌≡◌, refl, sym, ap, ◌∙◌, false, [], ◌∷◌, ◌++◌, length, drop,
}
use rekuest_next.Pointer.{Text, codes, name, make_path, key_text}
use rekuest_next.Pointer.Tokens.{unescape, unescape-key_text, key_tokens}

-- The tests of `IsScalar`, clause by clause.
abbrev BothLess : Ordering → Ordering → Type 0
BothLess Ordering.lt o = IsLt o
BothLess Ordering.eq _ = ⊥
BothLess Ordering.gt _ = ⊥

abbrev ScalarCase : Ordering → Ordering → Ordering → Type 0
ScalarCase Ordering.lt _ _ = Unit
ScalarCase Ordering.eq o p = BothLess o p
ScalarCase Ordering.gt o p = BothLess o p

dec_both : (o p : Ordering) → Dec (BothLess o p)
dec_both Ordering.lt Ordering.lt = yes tt
dec_both Ordering.lt Ordering.eq = no (λ h. h)
dec_both Ordering.lt Ordering.gt = no (λ h. h)
dec_both Ordering.eq p = no (λ h. h)
dec_both Ordering.gt p = no (λ h. h)

dec_scalar : (o p q : Ordering) → Dec (ScalarCase o p q)
dec_scalar Ordering.lt p q = yes tt
dec_scalar Ordering.eq p q = dec_both p q
dec_scalar Ordering.gt p q = dec_both p q

to_char : ℕ → Char
unfolding dec_scalar dec_both
to_char n = elim (dec_scalar (compare n 55296) (compare 57343 n) (compare n 1114112)) [
  | yes h ↦ char n h
  | no _ ↦ nul
]

code-to_char : (n : ℕ) → IsScalar n → code (to_char n) ≡ n
unfolding to_char
code-to_char n s =
    (elim (dec_scalar (compare n 55296) (compare 57343 n) (compare n 1114112))
      as (λ d. code (elim d [ yes h ↦ char n h | no _ ↦ nul ]) ≡ n) [
        | yes h ↦ refl
        | no h ↦ absurd (h s)
      ])

to_char-code : (c : Char) → to_char (code c) ≡ c
to_char-code (char n s) = Char-path (to_char n) (char n s) (code-to_char n s)

pub from_codes : Text → String
from_codes [] = String.[]
from_codes (n ∷ t) = String.◌∷◌ (to_char n) (from_codes t)

pub from_codes-codes : (s : String) → from_codes (codes s) ≡ s
unfolding from_codes
from_codes-codes String.[] = refl
from_codes-codes (String.◌∷◌ c s) = cc (to_char-code c, from_codes-codes s)

-- The key under which a child stands can be read off its path.
pub key_of_path : Text → Text → String
key_of_path base path = from_codes (unescape false (drop (suc (length base)) path))

pub drop-append : (base t : Text) → drop (suc (length base)) (base ++ b'/' ∷ t) ≡ t
drop-append [] t = refl
drop-append (c ∷ base) t = drop-append base t

pub key_of_path-make_path :
    (base : Text) (k : String) → key_of_path base (make_path base (name k)) ≡ k
unfolding key_of_path make_path key_tokens
key_of_path-make_path base k =
    rw (drop-append base (key_text (name k)), unescape-key_text (name k)) (from_codes-codes k)

-- Two text keys of one container never share a path.
pub make_path-injective :
    (base : Text) (j k : String) → make_path base (name j) ≡ make_path base (name k) → j ≡ k
make_path-injective base j k e =
    sym (key_of_path-make_path base j) ∙ ap (key_of_path base) e ∙ key_of_path-make_path base k
