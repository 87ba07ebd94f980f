-- ===== src/Serialization/Tests/Example.antt =====
-- A runtime for runs of rekuest_next/structures/serialization: an enum, a structure, a model, and a
-- server that always has a new drawer.
use rekuest_next.Prelude.{
  ◌<◌, String, ◌≡◌, refl, inl, inr, true, false, Option, none, some, [], ◌∷◌, arith, str_eq, eq_iff,
  if◌then◌else◌, Bool-cases,
}
use rekuest_next.Objects.{Object, number, text, items, member, opaque, empty, item}
use rekuest_next.Structures.{
  FullFilledStructure, FullFilledEnum, FullFilledModel, get_fullfilled_structure,
}
use rekuest_next.Serialization.{is_str, Runtime}
use rekuest_next.Serialization.Fits.{IsLawful}
use rekuest_next.Serialization.Shelving.{Shelve}
use mathlib.Core.Path.{subst}
use rekuest_next.Serialization.Sent.{NoTexts}
use rekuest_next.Prelude.Dict.{get, has}
use Prim.Native.String.{◌++◌ as concat, count}
use package.text.Mathlib.TextLemmas.{length-append}
use rekuest_next.Pointer.{pos}

-- A name that is longer than those of all drawers on the shelve.
unfoldable pub fresh : Shelve → String
fresh [] = "d"
fresh ((k, v) ∷ s) = concat k (fresh s)

fresh-pos : (s : Shelve) → 0 < count (fresh s)
unfolding fresh
fresh-pos [] = omega arith
fresh-pos ((k, v) ∷ s) = ground (arith, length-append k (fresh s), fresh-pos s)

fresh-longer : (s : Shelve) (j : String) → has s j ≡ true → count j < count (fresh s)
unfolding fresh has
fresh-longer [] j h = ground (arith, h)
fresh-longer ((k, v) ∷ s) j h =
    ground (arith, eq_iff k j, length-append k (fresh s), fresh-pos s, fresh-longer s j)

fresh-has : (s : Shelve) → has s (fresh s) ≡ false
fresh-has s = elim (Bool-cases (has s (fresh s))) [
  | inl h ↦ absurd (omega (arith, fresh-longer s (fresh s) h))
  | inr h ↦ h
]

-- An image is known by its id.
unfoldable pub shrink_image : Object → Option Object
shrink_image (member c id) = if str_eq c "Image" then some (text id) else none
shrink_image _ = none

abbrev image : FullFilledStructure
image = record {
  cls = "Image";
  identifier = "image";
  aexpand = λ id. some (member "Image" id);
  ashrink = shrink_image;
  predicate = λ v. false;
}

abbrev color : FullFilledEnum
color = record {
  cls = "Color";
  identifier = "color";
  choices = "red" ∷ "blue" ∷ [];
  members = ("red", member "Color" "red") ∷ ("blue", member "Color" "blue") ∷ [];
  attribute = λ s. none;
  by_value = λ n. none;
  convert_default = λ v. some v;
  predicate = λ v. false;
}

abbrev pub plot : Object
plot = opaque "Plot" 7

-- The one plot of the test, by its attributes.
unfoldable pub plot_attribute : Object → String → Option Object
plot_attribute v k =
    get
      (("size", number (pos 3))
        ∷ ("colors", items (item (member "Color" "red") (item (member "Color" "blue") empty)))
        ∷ ("buffer", opaque "Buffer" 1)
        ∷ ("image", member "Image" "i1")
        ∷ ("label", text "x")
        ∷ [])
      k

abbrev plot_model : FullFilledModel
plot_model = record {
  cls = "Plot";
  identifier = "plot";
  construct = λ fs. some plot;
  predicate = λ v. false;
}

abbrev pub runtime : Runtime
runtime = record {
  int_of = λ v. none;
  float_of = λ v. none;
  str_of = λ v. "";
  bool_of = λ v. true;
  lower = λ s. s;
  is_subclass = λ c b. false;
  getattr = plot_attribute;
  isoformat = λ d. d;
  isoformat_of = λ v. none;
  parse_date = λ s. some s;
  validate_id = λ v. elim v [ text s ↦ some s | _ ↦ none ];
  kanne_available = false;
  unit_of_quantity = λ v. none;
  to_pint_string = λ v. "";
  format_short = λ v. none;
  known_unit = λ u. false;
  validate_quantity = λ u v. none;
  dimensionality = λ v. none;
  new_drawer = λ s i v. some (fresh s);
  registry = record {
    allow_auto_register = false;
    identifier_structure_map = ("image", image) ∷ [];
    identifier_enum_map = ("color", color) ∷ [];
    identifier_memory_structure_map = [];
    identifier_model_map = ("plot", plot_model) ∷ [];
    cls_fullfilled_type_map = [];
  };
}

image_restored :
    (s : String) (v : Object) → shrink_image v ≡ some (text s) → some (member "Image" s) ≡ some v
unfolding shrink_image
image_restored s (member c id) h = ground (arith, eq_iff c "Image", h)
image_restored s _ h = ground (arith, h)

only_image :
    (i : String) (f : FullFilledStructure)
    → get_fullfilled_structure runtime.registry i ≡ some f
    → image ≡ f
unfolding get
only_image i f h = ground (arith, h)

structure_restored :
    (i s : String) (f : FullFilledStructure) (v : Object)
    → get_fullfilled_structure runtime.registry i ≡ some f
    → f.ashrink v ≡ some (text s)
    → f.aexpand s ≡ some v
structure_restored i s f v r h =
    subst (λ g. g.ashrink v ≡ some (text s) → g.aexpand s ≡ some v) (only_image i f r)
      (image_restored s v) h

pub runtime-IsLawful : IsLawful runtime
runtime-IsLawful = record {
  dates = λ d. refl;
  ids = λ s. refl;
  structures = structure_restored;
  quantities = λ v u h. ground (arith, h);
  drawers = λ s i v. (fresh s, refl, fresh-has s);
}

image_no_text : (v o : Object) → shrink_image v ≡ some o → is_str runtime v ≡ false
unfolding shrink_image
image_no_text (text s) o h = ground (arith, h)
image_no_text _ o h = refl

pub runtime-NoTexts : NoTexts runtime
runtime-NoTexts i f v o r h =
    subst (λ g. g.ashrink v ≡ some o → is_str runtime v ≡ false) (only_image i f r)
      (image_no_text v o) h
