-- ===== src/Serialization/Gathered.antt =====
-- What goes out through the ports of a list, a dict or a model at once, and the child of a union
-- (rekuest_next/structures/serialization).
use rekuest_next.Prelude.{ℕ, suc, ◌+◌, ◌≡◌, refl, true, some, arith}
use rekuest_next.Objects.{gather_pure, gather_fields_pure, Object, mapping, Objects, Fields}
use rekuest_next.Ports.{Port, Ports}
use rekuest_next.Serialization.{Runtime}
use rekuest_next.Serialization.Shelving.{Shelve, pass, resume, gather, gather_fields}
use rekuest_next.Serialization.Shrinking.{tagged, ashrink_return, shrink_union, shrink_attributes}
use rekuest_next.Serialization.Expanding.{aexpand_arg, expand_child, expand_attributes}
use rekuest_next.Serialization.Postman.{aexpand_return, return_child}
use rekuest_next.Serialization.Fits.{deliverable, deliverable_all, Chosen, here, there}
use rekuest_next.Serialization.Attributes.{Holds, HoldsZipped}
use rekuest_next.Serialization.Restored.{Kept}

module _ (rt : Runtime) where
  pub record RoundTripAll (c : Port) (xs : Objects) (s : Shelve) : Type 0 where
    pub jsons : Objects
    pub shelve : Shelve
    pub shrinks : gather (ashrink_return rt c) xs s ≡ some (jsons, shelve)
    pub kept : Kept s shelve
    pub expands :
        (t : Shelve)
        → Kept shelve t
        → gather_pure (λ x. aexpand_arg rt t c (some x)) jsons ≡ some xs
    pub returns : deliverable c ≡ true → gather_pure (aexpand_return rt c) jsons ≡ some xs

  pub record RoundTripFields (c : Port) (fs : Fields) (s : Shelve) : Type 0 where
    pub jsons : Fields
    pub shelve : Shelve
    pub shrinks : gather_fields (ashrink_return rt c) fs s ≡ some (jsons, shelve)
    pub kept : Kept s shelve
    pub expands :
        (t : Shelve)
        → Kept shelve t
        → gather_fields_pure (λ x. aexpand_arg rt t c (some x)) jsons ≡ some fs
    pub returns : deliverable c ≡ true → gather_fields_pure (aexpand_return rt c) jsons ≡ some fs

  pub record RoundTripAttributes (ps : Ports) (v : Object) (vs : Objects) (s : Shelve)
      : Type 0 where
    pub jsons : Objects
    pub shelve : Shelve
    pub shrinks : shrink_attributes rt ps v s ≡ some (jsons, shelve)
    pub kept : Kept s shelve
    pub holds : HoldsZipped ps jsons
    pub expands :
        (t : Shelve) (d : Fields)
        → Kept shelve t
        → Holds ps jsons d
        → expand_attributes rt t ps (mapping d) ≡ some vs

  -- A union's child is found by both.
  pub shrink_union-Chosen :
      {ps : Ports} {v : Object} {i : ℕ} {p : Port}
      → Chosen rt ps v i p
      → (n m : ℕ) (s : Shelve) → m ≡ n + i
      → shrink_union rt ps n v s ≡ resume (ashrink_return rt p v s) (λ j. pass (tagged m j))
  unfolding shrink_union
  shrink_union-Chosen (here h) n m s e = let same : m ≡ n = omega arith in rw (h, same) refl
  shrink_union-Chosen (there {i = i} h c) n m s e =
      rw h (shrink_union-Chosen c (suc n) m s (omega arith))

  pub return_child-Chosen :
      {ps : Ports} {v : Object} {i : ℕ} {p : Port}
      → Chosen rt ps v i p
      → (w : Object) → return_child rt ps i w ≡ aexpand_return rt p w
  unfolding return_child
  return_child-Chosen (here h) w = refl
  return_child-Chosen (there h c) w = return_child-Chosen c w

  pub deliverable-Chosen :
      {ps : Ports} {v : Object} {i : ℕ} {p : Port}
      → Chosen rt ps v i p
      → deliverable_all ps ≡ true
      → deliverable p ≡ true
  unfolding deliverable_all
  deliverable-Chosen (here h) d = ground (arith, d)
  deliverable-Chosen (there h c) d = deliverable-Chosen c (ground (arith, d))

  pub expand_child-Chosen :
      {ps : Ports} {v : Object} {i : ℕ} {p : Port}
      → Chosen rt ps v i p
      → (t : Shelve) (w : Object) → expand_child rt t ps i w ≡ aexpand_arg rt t p (some w)
  unfolding expand_child
  expand_child-Chosen (here h) t w = refl
  expand_child-Chosen (there h c) t w = expand_child-Chosen c t w
