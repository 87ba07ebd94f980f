-- ===== src/Actors/Tests.antt =====
-- Runs of actors.
use rekuest_next.Prelude.{String, ◌≡◌, refl, true, false, none, some, List, [], ◌∷◌}
use rekuest_next.Objects.{
  gather_pure, set_field, get_field, Object, number, text, items, Objects, empty, item, Fields, end,
  field,
}
use rekuest_next.Pointer.{pos}
use rekuest_next.Ports.{no_info, PortKind, Port, port, Ports, nil, cons}
use rekuest_next.Serialization.Shelving.{Shelve}
use rekuest_next.Serialization.Shrinking.{ashrink_return, zip_ports, shrink_plain, shrink_int}
use rekuest_next.Serialization.Expanding.{
  aexpand_arg, or_default, expand_list, expand_plain, expand_int,
}
use rekuest_next.Serialization.Calls.{
  expand_each, shrink_each, expand_inputs, shrink_outputs, tuple,
}
use rekuest_next.Serialization.Tests.Example.{runtime}
use rekuest_next.Actors.Reported.{progress, critical, log, yields, returned}
use rekuest_next.Actors.{
  collect_locals, flush, on_assign, raises, gives, SerializingActor, Situation,
}
use rekuest_next.Prelude.Dict.{get, has, put}
use rekuest_next.Actors.Breaks.{on_resume-wakes, on_resume-cancel}
use rekuest_next.Actors.Tasks.{
  Actor, new_actor, move, breaks, assigns, Reach, starts, moves, woken, on_resume, cancel,
}
use rekuest_next.Actors.Reported.{stopped}
use rekuest_next.Actors.Delivered.{gives_each}

abbrev named : String → PortKind → Ports → Port
named key kind ps = port key kind (record no_info { identifier = some key }) ps

-- Counts the words of a list: one positional argument, one keyword, and one value back.
abbrev counter : SerializingActor
counter = record {
  args =
      cons (named "words" PortKind.list (cons (named "word" PortKind.string nil) nil))
        (cons (named "offset" PortKind.int nil) nil);
  returns = cons (named "count" PortKind.int nil) nil;
  context_variables = [];
  write_state_variables = [];
  read_only_variables = [];
  dependency_variables = [];
  expand_inputs = true;
  shrink_outputs = true;
}

abbrev words : Object
words = items (item (text "a") (item (text "b") empty))

abbrev counted : List (Objects × Shelve)
counted = (item (number (pos 5)) empty, []) ∷ (item (number (pos 6)) empty, []) ∷ []

abbrev calm : Situation
calm = record {
  locked = true;
  shelve = [];
  contexts = [];
  states = [];
  proxy = λ i. none;
  iterator = λ params. gives_each counted;
  capture = true;
  logs = "o" ∷ "k" ∷ [];
}

-- The function gives one result and raises at the next.
abbrev failing : Situation
failing = record calm { iterator = λ params. gives (tuple (item (number (pos 5)) empty)) [] raises }

abbrev sent : Fields
sent = field "words" words (field "offset" (number (pos 3)) end)

abbrev keywords : Fields
keywords = field "offset" (number (pos 3)) end

failing_run : on_assign runtime counter failing sent ≡ record {
  reports = progress ∷ yields (field "count" (number (pos 5)) end) ∷ log "ok" ∷ critical ∷ [];
  outcome = returned;
}
unfolding on_assign ashrink_return aexpand_arg expand_inputs shrink_outputs zip_ports expand_each
    or_default get_field expand_list gather_pure expand_plain expand_int collect_locals shrink_each
    shrink_plain shrink_int set_field flush
failing_run = refl

-- A task that is assigned as a step and has come to its first breakpoint
abbrev stepping : Actor
stepping = (move (breaks "t") (move (assigns "t" true) new_actor).0).0

stepping-Reach : Reach stepping
unfolding move get has put
stepping-Reach = moves (moves starts (assigns "t" true) refl) (breaks "t") refl

on_resume-wakes_example :
    let r = on_resume "t" false stepping in
    (r.2 ≡ false)
    × (get r.0.running_asyncio_tasks "t" ≡ some woken)
    × (has r.0.break_futures "t" ≡ false)
unfolding move get put
on_resume-wakes_example = on_resume-wakes stepping-Reach "t" false refl

on_resume-cancel_example :
    let b = (cancel "t" stopped stepping).0 in
    ((on_resume "t" true b).0 ≡ b) × ((on_resume "t" true b).2 ≡ true)
unfolding move get put
on_resume-cancel_example = on_resume-cancel stepping "t" stopped true refl
