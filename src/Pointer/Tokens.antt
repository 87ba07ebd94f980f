-- ===== src/Pointer/Tokens.antt =====
-- What a JSON pointer refers to by RFC 6901, as an independent reader of the texts of `_make_path`.
use rekuest_next.Prelude.{
  ℕ, suc, ◌≡◌, refl, sym, ap, ◌∙◌, ◌≢◌, Bool, true, false, List, [], ◌∷◌, ◌++◌, map, append_assoc,
  arith, ◌==◌, if◌then◌else◌,
}
use mathlib.Core.List.{map-append}
use rekuest_next.Pointer.{
  Text, codes, replace, escape_json_pointer, Key, name, index, ℤ, pos, negsuc, decimal, int_text,
  key_text, make_path,
}
use rekuest_next.Pointer.Decimal.{Digits, decimal-Digits}

-- `true`: a `~` has been read, and the next character says what it stands for.
pub unescape : Bool → Text → Text
unescape saw [] = []
unescape true (x ∷ s) =
    (if x == b'0' then b'~' else if x == b'1' then b'/' else x) ∷ unescape false s
unescape false (x ∷ s) = elim (x == b'~') [ true ↦ unescape true s | false ↦ x ∷ unescape false s ]

-- The parts of a text between its slashes.
put_front : ℕ → List Text → List Text
put_front x [] = (x ∷ []) ∷ []
put_front x (t ∷ ts) = (x ∷ t) ∷ ts

pub segments : Text → List Text
unfolding put_front
segments [] = [] ∷ []
segments (x ∷ s) = let rest = segments s in if x == b'/' then [] ∷ rest else put_front x rest

-- The reference tokens of a pointer; the first segment is the empty text before the first slash.
pub tokens : Text → List Text
unfolding segments unescape
tokens path = map (unescape false) (segments path)

replace-append :
    (c : ℕ) (by xs ys : Text) → replace c by (xs ++ ys) ≡ replace c by xs ++ replace c by ys
unfolding replace
replace-append c by [] ys = refl
replace-append c by (x ∷ xs) ys =
    rw (replace-append c by xs ys) (sym (append_assoc (if x == c then by else x ∷ []) _ _))

escape_char : ℕ → Text
escape_char x =
    if x == b'~' then b'~' ∷ b'0' ∷ [] else if x == b'/' then b'~' ∷ b'1' ∷ [] else x ∷ []

escape_char_lem :
    (x : ℕ)
    → replace b'/' (b'~' ∷ b'1' ∷ []) (if x == b'~' then b'~' ∷ b'0' ∷ [] else x ∷ [])
      ≡ escape_char x
unfolding replace escape_char
escape_char_lem x = ground arith

escape-cons :
    (x : ℕ) (s : Text) → escape_json_pointer (x ∷ s) ≡ escape_char x ++ escape_json_pointer s
unfolding escape_json_pointer
escape-cons x s =
    replace-append b'/' (b'~' ∷ b'1' ∷ []) (if x == b'~' then b'~' ∷ b'0' ∷ [] else x ∷ []) _
    ∙ ap (λ t. t ++ escape_json_pointer s) (escape_char_lem x)

unescape-escape_char :
    (x : ℕ) (s : Text) → unescape false (escape_char x ++ s) ≡ x ∷ unescape false s
unfolding unescape escape_char
unescape-escape_char x s = ground arith

unescape-escape : (k : Text) → unescape false (escape_json_pointer k) ≡ k
unescape-escape [] = unfold escape_json_pointer unescape in refl
unescape-escape (x ∷ k) =
    ap (unescape false) (escape-cons x k)
    ∙ unescape-escape_char x (escape_json_pointer k)
    ∙ ap (◌∷◌ x) (unescape-escape k)

-- A text with no slash is one segment.
abbrev NoSlash : Text → Type 0
NoSlash [] = Unit
NoSlash (x ∷ s) = ((x == b'/') ≡ false) × NoSlash s

escape_char-NoSlash : (x : ℕ) (s : Text) → NoSlash s → NoSlash (escape_char x ++ s)
unfolding escape_char
escape_char-NoSlash x s h = ground arith

escape-NoSlash : (k : Text) → NoSlash (escape_json_pointer k)
escape-NoSlash [] = unfold escape_json_pointer in tt
escape-NoSlash (x ∷ k) =
    rw (escape-cons x k) (escape_char-NoSlash x (escape_json_pointer k) (escape-NoSlash k))

Digits-NoSlash : (s : Text) → Digits s → NoSlash s
Digits-NoSlash [] h = tt
Digits-NoSlash (d ∷ s) h = (ground arith, Digits-NoSlash s h.2)

unescape-Digits : (s : Text) → Digits s → unescape false s ≡ s
unfolding unescape
unescape-Digits [] h = refl
unescape-Digits (d ∷ s) h = ground (arith, unescape-Digits s h.2)

segments-NoSlash : (s : Text) → NoSlash s → segments s ≡ s ∷ []
unfolding segments
segments-NoSlash [] h = refl
segments-NoSlash (x ∷ s) h = rw (h.0, segments-NoSlash s h.1)

put_front-append :
    (x : ℕ) (ts us : List Text) → ts ≢ [] → put_front x ts ++ us ≡ put_front x (ts ++ us)
unfolding put_front
put_front-append x [] us h = absurd (h refl)
put_front-append x (t ∷ ts) us h = refl

put_front-ne-nil : (x : ℕ) (ts : List Text) → put_front x ts ≢ []
unfolding put_front
put_front-ne-nil x [] e = cc
put_front-ne-nil x (t ∷ ts) e = cc

segments-ne-nil : (s : Text) → segments s ≢ []
unfolding segments
segments-ne-nil [] e = cc
segments-ne-nil (x ∷ s) e = ground (arith, segments-ne-nil s, put_front-ne-nil x (segments s))

segments-append : (base s : Text) → segments (base ++ b'/' ∷ s) ≡ segments base ++ segments s
unfolding segments
segments-append [] s = refl
segments-append (x ∷ base) s = ground (
  arith,
  segments-append base s,
  put_front-append x (segments base) (segments s) (segments-ne-nil base),
)

unfoldable pub key_tokens : Key → Text
unfolding int_text
key_tokens (name k) = codes k
key_tokens (index i) = int_text i

int_text-NoSlash : (i : ℤ) → NoSlash (int_text i)
unfolding int_text
int_text-NoSlash (pos n) = Digits-NoSlash (decimal n) (decimal-Digits n)
int_text-NoSlash (negsuc n) = (refl, Digits-NoSlash (decimal (suc n)) (decimal-Digits (suc n)))

unescape-int_text : (i : ℤ) → unescape false (int_text i) ≡ int_text i
unfolding int_text
unescape-int_text (pos n) = unescape-Digits (decimal n) (decimal-Digits n)
unescape-int_text (negsuc n) =
    unfold unescape in ap (◌∷◌ b'-') (unescape-Digits (decimal (suc n)) (decimal-Digits (suc n)))

key_text-NoSlash : (k : Key) → NoSlash (key_text k)
unfolding key_text
key_text-NoSlash (name k) = escape-NoSlash (codes k)
key_text-NoSlash (index i) = int_text-NoSlash i

pub unescape-key_text : (k : Key) → unescape false (key_text k) ≡ key_tokens k
unfolding key_text key_tokens
unescape-key_text (name k) = unescape-escape (codes k)
unescape-key_text (index i) = unescape-int_text i

-- Read by RFC 6901, the path of a child is the path of its parent with one more token, which is
-- the key as it was before escaping: no key, whatever slashes and tildes it holds, can reach
-- into another part of the document.
pub tokens-make_path :
    (base : Text) (k : Key) → tokens (make_path base k) ≡ tokens base ++ key_tokens k ∷ []
unfolding tokens make_path
tokens-make_path base k =
    rw
      (
        segments-append base (key_text k),
        segments-NoSlash (key_text k) (key_text-NoSlash k),
        map-append,
      )
      (rw (unescape-key_text k))

pub make_path-index :
    (base : Text) (i : ℕ) → make_path base (index (pos i)) ≡ base ++ b'/' ∷ decimal i
unfolding make_path key_text int_text
make_path-index base i = refl
