-- ===== src/Serialization/SameCalls.antt =====
-- `ashrink_actor_args` of rekuest_next/structures/serialization/actor.py beside `ashrink_args` of
-- rekuest_next/structures/serialization/postman.py.
use rekuest_next.Prelude.{
  ap, Option, none, some, ℕ, suc, ◌≡◌, refl, Bool, true, false, not, ◌&&◌, arith,
}
use mathlib.Core.Path.{fun_ext}
use rekuest_next.Objects.{
  get_field, null, Object, moment, member, items, mapping, Objects, empty, item, Fields, end,
}
use rekuest_next.Ports.{key_of, PortInfo, PortKind, Port, port, Ports, nil, cons}
use rekuest_next.Serialization.{Runtime}
use rekuest_next.Serialization.Shrinking.{unless_none}
use rekuest_next.Serialization.Postman.{
  arg_date, arg_enum, arg_structure, arg_plain, arg_dict, arg_list, arg_model, ashrink_arg,
  arg_union, arg_attributes,
}
use rekuest_next.Serialization.ActorCalls.{
  actor_arg_date, actor_arg_enum, actor_arg_structure, actor_arg_dict, actor_arg_list,
  actor_arg_model, next_actor_arg, actor_arg_plain, ashrink_actor_arg, actor_arg_union,
  actor_arg_attributes, actor_args_onto, ashrink_actor_args,
}
use rekuest_next.Serialization.Calls.{next_arg, shrink_args_onto, ashrink_args}

abbrev in_drawer : PortKind → Bool
in_drawer PortKind.memory_structure = true
in_drawer _ = false

unfoldable mutual
  pub drawerless : Port → Bool
  drawerless (port key kind info ps) = not (in_drawer kind) && drawerless_all ps

  pub drawerless_all : Ports → Bool
  drawerless_all nil = true
  drawerless_all (cons p ps) = drawerless p && drawerless_all ps

module _ (rt : Runtime) where
  -- The two copies of the branches for the kinds without children
  same_plain :
      (kind : PortKind) (info : PortInfo) (v : Object)
      → in_drawer kind ≡ false
      → actor_arg_plain rt kind info v ≡ arg_plain rt kind info v
  unfolding actor_arg_plain actor_arg_date actor_arg_enum actor_arg_structure arg_plain arg_date
      arg_enum arg_structure
  same_plain PortKind.enum info (member c name) d = refl
  same_plain PortKind.enum info v d = refl
  same_plain PortKind.memory_structure info v d = absurd (ground (arith, d))
  same_plain PortKind.date info (moment x) d = refl
  same_plain kind info v d = refl

  same_leaf :
      (kind : PortKind) (info : PortInfo) (v : Object)
      → in_drawer kind ≡ false
      → unless_none info v (some null) none (actor_arg_plain rt kind info v)
        ≡ unless_none info v (some null) none (arg_plain rt kind info v)
  same_leaf kind info v d = ap (unless_none info v (some null) none) (same_plain kind info v d)

  same_dict : (f : Object → Option Object) (v : Object) → actor_arg_dict rt f v ≡ arg_dict rt f v
  unfolding actor_arg_dict arg_dict
  same_dict f (mapping fs) = refl
  same_dict f _ = refl

  same_list : (f : Object → Option Object) (v : Object) → actor_arg_list rt f v ≡ arg_list rt f v
  unfolding actor_arg_list arg_list
  same_list f (items xs) = refl
  same_list f _ = refl

  same_model :
      (info : PortInfo) (ps : Ports) (os : Option Objects)
      → actor_arg_model rt info ps os ≡ arg_model rt info ps os
  unfolding actor_arg_model arg_model
  same_model info ps os = refl

  same_next :
      (p : Port) (args : Objects) (kwargs : Fields)
      → next_actor_arg rt p args kwargs ≡ next_arg rt p args kwargs
  unfolding next_actor_arg next_arg
  same_next p empty kwargs = elim (get_field kwargs (key_of p)) [ some a ↦ refl | none ↦ refl ]
  same_next p (item a args) kwargs = refl

  mutual
    unfolding ashrink_arg ashrink_actor_arg drawerless

    same_arg :
        (p : Port)
        → drawerless p ≡ true
        → (v : Object) → ashrink_actor_arg rt p v ≡ ashrink_arg rt p v
    same_arg (port key PortKind.dict info nil) d v = same_leaf PortKind.dict info v refl
    same_arg (port key PortKind.dict info (cons c nil)) d v =
        let child : ashrink_actor_arg rt c ≡ ashrink_arg rt c =
          fun_ext (same_arg c (ground (arith, d))) in
        rw (child, same_dict (ashrink_arg rt c) v) refl
    same_arg (port key PortKind.dict info (cons c (cons e ps))) d v =
        same_leaf PortKind.dict info v refl
    same_arg (port key PortKind.list info nil) d v = same_leaf PortKind.list info v refl
    same_arg (port key PortKind.list info (cons c nil)) d v =
        let child : ashrink_actor_arg rt c ≡ ashrink_arg rt c =
          fun_ext (same_arg c (ground (arith, d))) in
        rw (child, same_list (ashrink_arg rt c) v) refl
    same_arg (port key PortKind.list info (cons c (cons e ps))) d v =
        same_leaf PortKind.list info v refl
    same_arg (port key PortKind.union info ps) d v = rw (same_union ps (ground (arith, d)) 0 v) refl
    same_arg (port key PortKind.model info nil) d v = same_leaf PortKind.model info v refl
    same_arg (port key PortKind.model info (cons c cs)) d v =
        rw
          (
            same_attributes (cons c cs) (ground (arith, d)) v,
            same_model info (cons c cs) (arg_attributes rt (cons c cs) v),
          )
          refl
    same_arg (port key PortKind.memory_structure info ps) d v = absurd (ground (arith, d))
    same_arg (port key kind info ps) d v = same_leaf kind info v (ground (arith, d))

    same_union :
        (ps : Ports)
        → drawerless_all ps ≡ true
        → (n : ℕ) (v : Object) → actor_arg_union rt ps n v ≡ arg_union rt ps n v
    same_union nil d n v = refl
    same_union (cons p ps) d n v =
        rw (same_arg p (ground (arith, d)) v, same_union ps (ground (arith, d)) (suc n) v) refl

    same_attributes :
        (ps : Ports)
        → drawerless_all ps ≡ true
        → (v : Object) → actor_arg_attributes rt ps v ≡ arg_attributes rt ps v
    same_attributes nil d v = refl
    same_attributes (cons p ps) d v =
        let child : ashrink_actor_arg rt p ≡ ashrink_arg rt p =
          fun_ext (same_arg p (ground (arith, d))) in
        rw (child, same_attributes ps (ground (arith, d)) v) refl

  same_loop :
      (ps : Ports)
      → drawerless_all ps ≡ true
      → (args : Objects) (kwargs acc : Fields)
      → actor_args_onto rt ps args kwargs acc ≡ shrink_args_onto rt ps args kwargs acc
  unfolding actor_args_onto shrink_args_onto drawerless
  same_loop nil d args kwargs acc = refl
  same_loop (cons p ps) d args kwargs acc =
      let child : ashrink_actor_arg rt p ≡ ashrink_arg rt p =
        fun_ext (same_arg p (ground (arith, d))) in
      let rest : actor_args_onto rt ps ≡ shrink_args_onto rt ps =
        fun_ext λ xs. fun_ext λ k. fun_ext λ f. same_loop ps (ground (arith, d)) xs k f in
      rw (child, rest, same_next p args kwargs) refl

  -- Through ports without memory structure ports, an actor's own call and a postman's call with the same
  -- positional and keyword arguments send the same object or raise both, through two copies of the code.
  pub ashrink_actor_args-ashrink_args :
      (ps : Ports) (args : Objects) (kwargs : Fields)
      → drawerless_all ps ≡ true
      → ashrink_actor_args rt ps args kwargs ≡ ashrink_args rt ps args kwargs
  ashrink_actor_args-ashrink_args ps args kwargs d = same_loop ps d args kwargs end
