-- ===== src/Serialization/Tests.antt =====
-- Runs of rekuest_next/structures/serialization in one runtime (Tests/Example).
pub mod Example
use rekuest_next.Prelude.{◌-◌, ◌/◌, String, ◌≡◌, refl, ap, true, false, none, some, [], map, all}
use rekuest_next.Objects.{
  get_field, gather_pure, Object, number, text, items, mapping, member, Objects, empty, item,
  Fields, end, field,
}
use rekuest_next.Ports.{no_info, PortKind, Port, port, Ports, nil, cons}
use rekuest_next.Serialization.{named}
use rekuest_next.Serialization.Predication.{predicate_plain, predicate_port_input}
use rekuest_next.Serialization.Fits.{
  distinct_keys, deliverable, deliverable_all, here, there, Fits, fits_int, fits_string, fits_enum,
  fits_structure, fits_memory_structure, fits_list, fits_dict, fits_union, fits_model, fits_empty,
  fits_item, fits_end, fits_field, fits_nil, fits_cons,
}
use rekuest_next.Serialization.Shelving.{Shelve}
use rekuest_next.Serialization.Shrinking.{tagged, reference, ashrink_return}
use rekuest_next.Serialization.ActorCalls.{aexpand_actor_returns, ashrink_actor_args}
use rekuest_next.Serialization.SameCalls.{
  drawerless, drawerless_all, ashrink_actor_args-ashrink_args,
}
use rekuest_next.Serialization.Expanding.{
  or_default, expand_list, use_index, union_choice, expand_int, expand_plain, aexpand_arg,
  expand_child,
}
use rekuest_next.Serialization.RoundTrip.{expand-shrink, return-shrink}
use rekuest_next.Serialization.Calls.{
  tuple, shrink_outputs, aexpand_returns, ashrink_args, return_of,
}
use rekuest_next.Serialization.Types.{of_type}
use rekuest_next.Serialization.Typed.{aexpand_arg-of_type}
use rekuest_next.Serialization.Sent.{sendable, sendable_all}
use rekuest_next.Serialization.Finished.{aexpand_returns-shrink_outputs}
use rekuest_next.Serialization.Each.{each, none_left}
use rekuest_next.Serialization.Postman.{
  aexpand_return, return_plain, return_structure, return_int, returned_object,
}
use rekuest_next.Serialization.Undelivered.{all_lists, aexpand_return-unreturned}
use rekuest_next.Prelude.Dict.{get}
use rekuest_next.Serialization.SameReturns.{aexpand_actor_returns-aexpand_returns}
use rekuest_next.Pointer.{pos}
use rekuest_next.Serialization.Tests.Example.{
  runtime, runtime-IsLawful, plot, shrink_image, plot_attribute,
}

abbrev child : String → PortKind → Ports → Port
child key kind ps = port key kind (record no_info { identifier = some key }) ps

abbrev plot_ports : Ports
plot_ports = cons (child "size" PortKind.int nil) (
    cons (child "colors" PortKind.list (cons (child "color" PortKind.enum nil) nil)) (
      cons (child "buffer" PortKind.memory_structure nil) (
        cons (child "image" PortKind.structure nil) (
          cons
            (child "label" PortKind.union
              (cons (child "0" PortKind.int nil) (cons (child "1" PortKind.string nil) nil)))
            nil))))

abbrev plot_port : Port
plot_port = child "plot" PortKind.model plot_ports

plot-Fits : Fits runtime plot_port plot
unfolding predicate_port_input predicate_plain plot_attribute get shrink_image distinct_keys
plot-Fits =
    fits_model refl refl refl refl refl refl
      (fits_cons refl (fits_int (pos 3)) (
        fits_cons refl
          (fits_list (
            fits_item (fits_enum refl refl refl) (fits_item (fits_enum refl refl refl) fits_empty)))
          (fits_cons refl (fits_memory_structure refl refl refl) (
            fits_cons refl (fits_structure refl refl refl refl refl) (
              fits_cons refl (fits_union refl (there refl (here refl)) (fits_string "x"))
                fits_nil)))))
      refl

expand-shrink_example :
    (j : Object) × (t : Shelve) × (ashrink_return runtime plot_port plot [] ≡ some (j, t))
    × (aexpand_arg runtime t plot_port (some j) ≡ some plot)
expand-shrink_example = expand-shrink runtime runtime-IsLawful plot-Fits []

abbrev labels_port : Port
labels_port = child "labels" PortKind.list (
    cons
      (child "label" PortKind.union
        (cons (child "0" PortKind.int nil) (cons (child "1" PortKind.string nil) nil)))
      nil)

abbrev labels : Object
labels = items (item (text "x") (item (number (pos 3)) empty))

labels-Fits : Fits runtime labels_port labels
unfolding predicate_port_input predicate_plain
labels-Fits = fits_list (
    fits_item (fits_union refl (there refl (here refl)) (fits_string "x"))
      (fits_item (fits_union refl (here refl) (fits_int (pos 3))) fits_empty))

labels_deliverable : deliverable labels_port ≡ true
unfolding deliverable
labels_deliverable = refl

return-shrink_example :
    (j : Object) × (t : Shelve) × (ashrink_return runtime labels_port labels [] ≡ some (j, t))
    × (aexpand_return runtime labels_port j ≡ some labels)
return-shrink_example = return-shrink runtime runtime-IsLawful labels-Fits labels_deliverable []

two_lists : all_lists (cons (child "xs" PortKind.list nil) (cons labels_port nil)) ≡ true
unfolding all_lists
two_lists = refl

abbrev two_ports : Ports
two_ports = cons labels_port (cons (child "n" PortKind.int nil) nil)

abbrev two_values : Objects
two_values = item labels (item (number (pos 5)) empty)

two_deliverable : (deliverable_all two_ports ≡ true) × (distinct_keys two_ports ≡ true)
unfolding deliverable distinct_keys
two_deliverable = (refl, refl)

aexpand_returns-shrink_outputs_example :
    (fs : Fields) × (t : Shelve) × (shrink_outputs runtime two_ports (tuple two_values) false []
      ≡ some (fs, t))
    × (aexpand_returns runtime two_ports fs ≡ some (two_values, fs))
aexpand_returns-shrink_outputs_example =
    aexpand_returns-shrink_outputs runtime runtime-IsLawful
      (each labels-Fits (each (fits_int (pos 5)) none_left)) two_deliverable.0 two_deliverable.1 []

abbrev drawer_port : Port
drawer_port = child "buffer" PortKind.memory_structure nil

abbrev image_ports : Ports
image_ports = cons (child "image" PortKind.structure nil) (cons (child "n" PortKind.int nil) nil)

abbrev image_returns : Fields
image_returns = field "image" (reference "image" (text "i1")) (field "n" (number (pos 5)) end)

image_drawerless : drawerless_all image_ports ≡ true
unfolding drawerless
image_drawerless = refl

image_returned :
    aexpand_returns runtime image_ports image_returns
    ≡ some (item (member "Image" "i1") (item (number (pos 5)) empty), image_returns)
unfolding aexpand_returns return_of get_field aexpand_return return_plain return_structure
    return_int returned_object named get
image_returned = refl

aexpand_actor_returns-aexpand_returns_example :
    aexpand_actor_returns runtime image_ports image_returns
    ≡ some (item (member "Image" "i1") (item (number (pos 5)) empty), image_returns)
aexpand_actor_returns-aexpand_returns_example =
    aexpand_actor_returns-aexpand_returns runtime image_ports image_returns
      (item (member "Image" "i1") (item (number (pos 5)) empty), image_returns) image_drawerless
      image_returned

two_drawerless : drawerless_all two_ports ≡ true
unfolding drawerless
two_drawerless = refl

ashrink_actor_args-ashrink_args_example :
    ashrink_actor_args runtime two_ports (item labels empty) (field "n" (number (pos 5)) end)
    ≡ ashrink_args runtime two_ports (item labels empty) (field "n" (number (pos 5)) end)
ashrink_actor_args-ashrink_args_example =
    ashrink_actor_args-ashrink_args runtime two_ports (item labels empty)
      (field "n" (number (pos 5)) end) two_drawerless

-- Two tagged values of a union.
aexpand_arg-of_type_example :
    of_type labels_port (items (item (text "x") (item (number (pos 3)) empty))) ≡ true
unfolding aexpand_arg or_default expand_list gather_pure union_choice use_index get_field
    expand_child expand_plain expand_int
aexpand_arg-of_type_example =
    aexpand_arg-of_type runtime [] labels_port
      (some (items (item (tagged 1 (text "x")) (item (tagged 0 (number (pos 3))) empty)))) labels
      refl

-- A dict of lists of images
abbrev album_port : Port
album_port =
    child "album" PortKind.dict
      (cons (child "page" PortKind.list (cons (child "image" PortKind.structure nil) nil)) nil)

abbrev album : Object
album = mapping (field "first" (items (item (member "Image" "i1") empty)) end)

album-Fits : Fits runtime album_port album
unfolding get shrink_image
album-Fits = fits_dict (
    fits_field (fits_list (fits_item (fits_structure refl refl refl refl refl) fits_empty))
      fits_end)

abbrev pages_port : Port
pages_port = child "pages" PortKind.int nil

abbrev call_ports : Ports
call_ports = cons album_port (cons pages_port nil)

call_sendable : (sendable_all call_ports ≡ true) × (distinct_keys call_ports ≡ true)
unfolding sendable distinct_keys
call_sendable = (refl, refl)

abbrev keywords : Fields
keywords = field "pages" (number (pos 2)) end
