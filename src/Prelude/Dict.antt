-- ===== src/Prelude/Dict.antt =====
-- Python's `dict` with text keys: entries in insertion order, a write to a present key stays in place.
use Prim.Native.String.{String}
use mathlib.Core.Path.{◌≡◌, refl, ap, ◌∙◌}
use mathlib.Core.Bool.{Bool, true, false}
use mathlib.Core.List.{List, [], ◌∷◌, map}
use mathlib.Core.Option.{Option, none, some}
use native.Mathlib.Omega.{arith}
use text.Mathlib.Text.{◌==◌ as str_eq}
use text.Mathlib.TextEquality.{eq_iff}
use rekuest_next.Prelude.Tests.{if◌then◌else◌}

abbrev pub Dict {ℓ} : Type ℓ → Type ℓ
Dict V = List (String × V)

abbrev pub is_some {ℓ} : {A : Type ℓ} → Option A → Bool
is_some none = false
is_some (some a) = true

module _ {ℓ} {V : Type ℓ} where
  -- d.get(k)
  unfoldable pub get : Dict V → String → Option V
  get [] k = none
  get ((j, v) ∷ d) k = if str_eq j k then some v else get d k

  -- k in d
  unfoldable pub has : Dict V → String → Bool
  has [] k = false
  has ((j, v) ∷ d) k = if str_eq j k then true else has d k

  -- d[k] = v
  unfoldable pub put : Dict V → String → V → Dict V
  put [] k v = (k, v) ∷ []
  put ((j, w) ∷ d) k v = if str_eq j k then (j, v) ∷ d else (j, w) ∷ put d k v

  -- d.pop(k, None), del d[k]
  unfoldable pub remove : Dict V → String → Dict V
  remove [] k = []
  remove ((j, w) ∷ d) k = let rest = remove d k in if str_eq j k then rest else (j, w) ∷ rest

  abbrev pub keys : Dict V → List String
  keys = map (λ e. e.0)

  abbrev pub values : Dict V → List V
  values = map (λ e. e.1)

  pub get-put :
      (d : Dict V) (k j : String) (v : V)
      → get (put d k v) j ≡ (if str_eq k j then some v else get d j)
  unfolding get put
  get-put [] k j v = refl
  get-put ((i, w) ∷ d) k j v = ground (arith, eq_iff k j, eq_iff i k, eq_iff i j, get-put d k j v)

  pub get-remove :
      (d : Dict V) (k j : String) → get (remove d k) j ≡ (if str_eq k j then none else get d j)
  unfolding get remove
  get-remove [] k j = ground arith
  get-remove ((i, w) ∷ d) k j = ground (arith, eq_iff k j, eq_iff i k, eq_iff i j, get-remove d k j)

  pub has-get : (d : Dict V) (k : String) → has d k ≡ is_some (get d k)
  unfolding get has
  has-get [] k = refl
  has-get ((j, v) ∷ d) k = ground (arith, has-get d k)

pub has_of_get {ℓ} :
    {V : Type ℓ} (d : Dict V) (k : String) (v : V) → get d k ≡ some v → has d k ≡ true
has_of_get d k v e = has-get d k ∙ ap is_some e

abbrev pub map_values {ℓ κ} : {V : Type ℓ} {W : Type κ} → (V → W) → Dict V → Dict W
map_values f [] = []
map_values f ((k, v) ∷ d) = (k, f v) ∷ map_values f d

module _ {ℓ κ} {V : Type ℓ} {W : Type κ} (f : V → W) where
  pub map_values-put :
      (d : Dict V) (k : String) (v : V) → map_values f (put d k v) ≡ put (map_values f d) k (f v)
  unfolding put
  map_values-put [] k v = refl
  map_values-put ((j, w) ∷ d) k v = ground (arith, map_values-put d k v)

  pub map_values-remove :
      (d : Dict V) (k : String) → map_values f (remove d k) ≡ remove (map_values f d) k
  unfolding remove
  map_values-remove [] k = refl
  map_values-remove ((j, w) ∷ d) k = ground (arith, map_values-remove d k)

  pub has-map_values : (d : Dict V) (k : String) → has (map_values f d) k ≡ has d k
  unfolding has
  has-map_values [] k = refl
  has-map_values ((j, w) ∷ d) k = rw (has-map_values d k)

pub ruleset dict_laws = (get-put, get-remove)
