-- ===== src/Pointer.antt =====
-- rekuest_next/state/observable.py, JSON pointers: `_escape_json_pointer` and `_make_path`.
-- A Python `str` that is taken apart is its list of code points.
pub mod Decimal
pub mod Tokens
pub mod Codes
mod Tests
use Prim.Native.Char.{code}
use rekuest_next.Prelude.{
  ℕ, zero, suc, ◌+◌, ◌-◌, ◌/◌, ◌%◌, String, ◌≡◌, refl, ap, List, [], ◌∷◌, ◌++◌, ltb, ◌==◌,
  if◌then◌else◌, take,
}

abbrev pub Text : Type 0
Text = List ℕ

abbrev pub codes : String → Text
codes String.[] = []
codes (String.◌∷◌ c s) = code c ∷ codes s

-- s.replace(c, by), for a text `c` of one character
pub replace : ℕ → Text → Text → Text
replace c by [] = []
replace c by (x ∷ s) = (if x == c then by else x ∷ []) ++ replace c by s

pub escape_json_pointer : Text → Text
unfolding replace
escape_json_pointer key = replace b'/' (b'~' ∷ b'1' ∷ []) (replace b'~' (b'~' ∷ b'0' ∷ []) key)

-- `str` of an int: `negsuc n` is -(n + 1)
pub data ℤ : Type 0 where
  pos : ℕ → ℤ
  negsuc : ℕ → ℤ

decimal_loop : ℕ → ℕ → Text → Text
decimal_loop zero n acc = acc
decimal_loop (suc f) n acc =
    let rest = decimal_loop f (n / 10) ((b'0' + n % 10) ∷ acc) in
    if ltb n 10 then (b'0' + n) ∷ acc else rest

pub decimal : ℕ → Text
unfolding decimal_loop
decimal n = decimal_loop (suc n) n []

pub int_text : ℤ → Text
unfolding decimal
int_text (pos n) = decimal n
int_text (negsuc n) = b'-' ∷ decimal (suc n)

pub data Key : Type 0 where
  name : String → Key
  index : ℤ → Key

pub key_text : Key → Text
unfolding int_text escape_json_pointer
key_text (name k) = escape_json_pointer (codes k)
key_text (index i) = int_text i

unfoldable pub make_path : Text → Key → Text
unfolding key_text
make_path base key = base ++ b'/' ∷ key_text key

make_path_escapes : make_path (codes "/a") (name "x/~y") ≡ codes "/a/x~1~0y"
unfolding make_path
make_path_escapes = refl

make_path_index : make_path [] (index (pos 120)) ≡ codes "/120"
unfolding make_path
make_path_index = refl
