-- ===== src/Runtime/Tests.antt =====
-- Runs of an agent with a builder for one interface, and its tear down.
use rekuest_next.Prelude.{
  ℕ, String, ◌≡◌, refl, ◌≢◌, ◌⊎◌, inl, inr, true, false, none, some, List, [], ◌∷◌, arith, str_eq,
}
use rekuest_next.Prelude.Dict.{get, put, has, remove}
use rekuest_next.Caller as Caller
use rekuest_next.Reports.{dispatch, resend}
use rekuest_next.Actors.Reported.{stopped}
use rekuest_next.Actors.Tasks.{new_actor, move, Move, breaks}
use rekuest_next.Runtime.{
  process_assign, process_inquiry, consume, Message, init_message, assign_message, cancel_message,
  assign_inquiry, event_ack, key_error, not_spawned, AgentState, Surroundings,
}
use rekuest_next.Runtime.Managed.{Managed, consume-Managed}
use rekuest_next.Runtime.Teardown.{
  atear_down, fine, cancelled, runtime_error, other_error, Resources, World,
}
use rekuest_next.Runtime.Released.{Released, torn_down, HoldsAs, atear_down-raises}

abbrev surroundings : Surroundings
surroundings = record { builds = λ i. str_eq i "f"; uuid = λ n. "id"; ending = λ t. stopped }

abbrev fresh : AgentState ℕ
fresh = record {
  managed_actors = [];
  outbox = record { event_seq = 0; unacked_events = []; managed_assignments = []; sent = [] };
  connected = false;
  postman = Caller.init;
  shelve = [];
}

abbrev occurrences : List (Message ℕ ⊎ (String × Move))
occurrences =
    inl (init_message [])
    ∷ inl (assign_message "t" "f" true)
    ∷ inr ("f", breaks "t")
    ∷ inl (cancel_message "t")
    ∷ inl (assign_inquiry "t")
    ∷ inl (cancel_message "u")
    ∷ inl (assign_message "u" "g" false)
    ∷ inl (event_ack "id")
    ∷ []

fresh-Managed : Managed fresh
unfolding get
fresh-Managed task i h = absurd (ground (arith, h))

consume-Managed_example :
    let r = consume surroundings occurrences fresh in Managed r.0 × (r.1 ≢ some key_error)
consume-Managed_example = consume-Managed surroundings occurrences fresh fresh-Managed

-- The task waits, is cancelled and forgotten, and the assignment for an unknown interface ends the run.
consumed : (consume surroundings occurrences fresh).1 ≡ some not_spawned
unfolding consume process_inquiry process_assign get put has move dispatch resend remove
consumed = refl

abbrev serving : AgentState ℕ
serving = record fresh { managed_actors = ("f", new_actor) ∷ [] }

abbrev world : World
world = record {
  background_workers = cancelled ∷ fine ∷ [];
  patch_processor = runtime_error;
  shutdown_hooks = "first" ∷ "second" ∷ [];
  hook_fails = str_eq "second";
  consumer_stuck = true;
  assigned = "t" ∷ [];
}

abbrev idle : Resources
idle = record {
  background_tasks = [];
  shutdown = record { ran_startup_hooks = false; called = [] };
  patch_processor_task = none;
  event_queue = false;
  errorfuture = false;
  transport = false;
  connected = false;
  receiver = false;
  running_assignments = [];
}

abbrev broken : Resources
broken = record idle {
  patch_processor_task = some other_error;
  event_queue = true;
  transport = true;
  connected = true;
}

atear_down-raises_example :
    let s = torn_down world 2 broken in ((atear_down world s).1 ≡ true) × HoldsAs s broken
atear_down-raises_example = atear_down-raises world 2 broken refl
