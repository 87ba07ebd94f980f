-- ===== src/Serialization/Types.antt =====
-- The Python types of the ports, and the kinds without children (`aexpand_arg` of
-- rekuest_next/structures/serialization/actor.py).
use rekuest_next.Prelude.{
  ◌≡◌, refl, ap, ◌⊎◌, inl, inr, Bool, true, false, ◌&&◌, ◌||◌, Option, none, some, arith,
  if◌then◌else◌, Bool-cases, Option-cases,
}
use mathlib.Core.Path.{subst}
use rekuest_next.Objects.{
  is_none, gather_pure, gather_fields_pure, Object, null, truth, number, real, text, moment, items,
  mapping, Objects, empty, item, Fields, end, field,
}
use rekuest_next.Ports.{PortKind, Port, port, Ports, nil, cons, PortInfo}
use rekuest_next.Serialization.{
  is_int, is_float, is_str, to_int, to_float, to_str, to_bool, Runtime,
}
use rekuest_next.Serialization.Shelving.{Shelve}
use rekuest_next.Serialization.Expanding.{
  checked, expand_int, expand_float, expand_date, expand_plain,
}

abbrev pub every : (Object → Bool) → Objects → Bool
every test empty = true
every test (item x xs) = test x && every test xs

abbrev pub every_field : (Object → Bool) → Fields → Bool
every_field test end = true
every_field test (field k x xs) = test x && every_field test xs

-- None, where the port is nullable
abbrev pub absent : PortInfo → Object → Bool
absent info v = is_none v && info.nullable

abbrev pub of_plain : PortKind → Object → Bool
of_plain PortKind.int (number n) = true
of_plain PortKind.int _ = false
of_plain PortKind.float (real x) = true
of_plain PortKind.float _ = false
of_plain PortKind.string (text s) = true
of_plain PortKind.string _ = false
of_plain PortKind.bool (truth b) = true
of_plain PortKind.bool _ = false
of_plain PortKind.date (moment d) = true
of_plain PortKind.date _ = false
of_plain _ v = true

abbrev pub of_list : (Object → Bool) → Object → Bool
of_list test (items xs) = every test xs
of_list test _ = false

abbrev pub of_dict : (Object → Bool) → Object → Bool
of_dict test (mapping fs) = every_field test fs
of_dict test _ = false

-- Is the value of the Python type of the port, as far as its lists, dicts and unions go down to ints, floats,
-- texts, bools and dates? Nothing is asked of a structure, a model, an enum, a quantity and a memory structure.
unfoldable mutual
  pub of_type : Port → Object → Bool
  of_type (port key PortKind.list info (cons c cs)) v = absent info v || of_list (of_type c) v
  of_type (port key PortKind.dict info (cons c cs)) v = absent info v || of_dict (of_type c) v
  of_type (port key PortKind.union info ps) v = absent info v || of_some ps v
  of_type (port key kind info ps) v = absent info v || of_plain kind v

  pub of_some : Ports → Object → Bool
  of_some nil v = false
  of_some (cons p ps) v = of_type p v || of_some ps v

pub some_injective : {A : Type 0} {a b : A} → some a ≡ some b → a ≡ b
some_injective {a = a} h = ap (λ o. elim o [ some x ↦ x | none ↦ a ]) h

-- What a test lets pass
pub passed :
    {A : Type 0} (b : Bool) (o : Option A) (v : A) → (if b then o else none) ≡ some v → o ≡ some v
passed true o v h = h
passed false o v h = absurd (ground (arith, h))

module _ (rt : Runtime) (s : Shelve) where
  pub checked_inverse :
      (info : PortInfo) (w : Object) (expanded : Option Object) (v : Object)
      → checked rt info w expanded ≡ some v
      → (absent info v ≡ true) ⊎ (expanded ≡ some v)
  checked_inverse info null expanded v h = elim (Bool-cases info.nullable) [
    | inl e ↦
        let same : null ≡ v = ground (arith, e, h) in
        subst (λ x. (absent info x ≡ true) ⊎ (expanded ≡ some x)) same (inl e)
    | inr e ↦ absurd (ground (arith, e, h))
  ]
  checked_inverse info w expanded v h = inr (ground (arith, h))

  pub gather_pure-every :
      (f : Object → Option Object) (test : Object → Bool) (xs ys : Objects)
      → ((x y : Object) → f x ≡ some y → test y ≡ true)
      → gather_pure f xs ≡ some ys
      → every test ys ≡ true
  unfolding gather_pure
  gather_pure-every f test empty ys g h =
      let same : empty ≡ ys = ground (arith, h) in subst (λ ws. every test ws ≡ true) same refl
  gather_pure-every f test (item x xs) ys g h = elim (Option-cases (f x)) [
    | inl e ↦ absurd (ground (arith, e, h))
    | inr (y, e) ↦ elim (Option-cases (gather_pure f xs)) [
      | inl u ↦ absurd (ground (arith, e, u, h))
      | inr (zs, u) ↦
          let same : item y zs ≡ ys = ground (arith, e, u, h) in
          subst (λ ws. every test ws ≡ true) same
            (ground (arith, g x y e, gather_pure-every f test xs zs g u))
    ]
  ]

  pub gather_fields_pure-every :
      (f : Object → Option Object) (test : Object → Bool) (xs ys : Fields)
      → ((x y : Object) → f x ≡ some y → test y ≡ true)
      → gather_fields_pure f xs ≡ some ys
      → every_field test ys ≡ true
  unfolding gather_fields_pure
  gather_fields_pure-every f test end ys g h =
      let same : end ≡ ys = ground (arith, h) in subst (λ ws. every_field test ws ≡ true) same refl
  gather_fields_pure-every f test (field k x xs) ys g h = elim (Option-cases (f x)) [
    | inl e ↦ absurd (ground (arith, e, h))
    | inr (y, e) ↦ elim (Option-cases (gather_fields_pure f xs)) [
      | inl u ↦ absurd (ground (arith, e, u, h))
      | inr (zs, u) ↦
          let same : field k y zs ≡ ys = ground (arith, e, u, h) in
          subst (λ ws. every_field test ws ≡ true) same
            (ground (arith, g x y e, gather_fields_pure-every f test xs zs g u))
    ]
  ]

  pub to_int-of_plain : (w v : Object) → to_int rt w ≡ some v → of_plain PortKind.int v ≡ true
  to_int-of_plain (number n) v h =
      subst (λ x. of_plain PortKind.int x ≡ true) (some_injective h) refl
  to_int-of_plain (truth true) v h =
      subst (λ x. of_plain PortKind.int x ≡ true) (some_injective h) refl
  to_int-of_plain (truth false) v h =
      subst (λ x. of_plain PortKind.int x ≡ true) (some_injective h) refl
  to_int-of_plain w v h = elim (Option-cases (rt.int_of w)) [
    | inl e ↦ absurd (ground (arith, e, h))
    | inr (n, e) ↦
        let same : number n ≡ v = ground (arith, e, h) in
        subst (λ x. of_plain PortKind.int x ≡ true) same refl
  ]

  pub to_float-of_plain : (w v : Object) → to_float rt w ≡ some v → of_plain PortKind.float v ≡ true
  to_float-of_plain (real x) v h =
      subst (λ x. of_plain PortKind.float x ≡ true) (some_injective h) refl
  to_float-of_plain w v h = elim (Option-cases (rt.float_of w)) [
    | inl e ↦ absurd (ground (arith, e, h))
    | inr (n, e) ↦
        let same : real n ≡ v = ground (arith, e, h) in
        subst (λ x. of_plain PortKind.float x ≡ true) same refl
  ]

  pub expand_plain-of_plain :
      (kind : PortKind) (info : PortInfo) (w v : Object)
      → expand_plain rt s kind info w ≡ some v
      → of_plain kind v ≡ true
  unfolding expand_plain expand_int expand_float expand_date
  expand_plain-of_plain PortKind.int info w v h =
      to_int-of_plain w v (passed (is_int rt w || is_float rt w || is_str rt w) (to_int rt w) v h)
  expand_plain-of_plain PortKind.float info w v h =
      to_float-of_plain w v
        (passed (is_int rt w || is_float rt w || is_str rt w) (to_float rt w) v h)
  expand_plain-of_plain PortKind.date info w v h =
      elim (Option-cases (rt.parse_date (to_str rt w))) [
        | inl e ↦ absurd (ground (arith, e, passed (is_str rt w) _ v h))
        | inr (d, e) ↦
            let same : moment d ≡ v = ground (arith, e, passed (is_str rt w) _ v h) in
            subst (λ x. of_plain PortKind.date x ≡ true) same refl
      ]
  expand_plain-of_plain PortKind.bool info w v h =
      let same : truth (to_bool rt w) ≡ v = ground (arith, h) in
      subst (λ x. of_plain PortKind.bool x ≡ true) same refl
  expand_plain-of_plain PortKind.string info w v h =
      let same : text (to_str rt w) ≡ v = ground (arith, h) in
      subst (λ x. of_plain PortKind.string x ≡ true) same refl
  expand_plain-of_plain _ info w v h = refl
