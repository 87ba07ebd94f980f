-- ===== src/Lib.antt =====
-- Verification of rekuest_next, the library by which a Python app serves and calls actions of an
-- Arkitekt backend.
--
-- An app keeps its state in event-emitting lists and dicts (rekuest_next/state/observable.py): a
-- write under the required locks changes the container and publishes a JSON patch. The agent
-- (rekuest_next/agents/base.py) drains the patches into its shrunk states and publishes them,
-- with checkpoints, to a sink, from which a retriever answers what a state was at a revision
-- (rekuest_next/contrib/fastapi). Actor code calls other actions over the socket of the agent
-- (rekuest_next/agents/caller.py), which takes the answers and the mirrors of the delegated tasks
-- back to the calls that wait for them. The agent passes the messages of the backend on to its
-- actors, which run the functions of the app and report on their tasks. A blok is a component
-- tree of a user interface whose references to states and actions are checked against the agents
-- that it depends on.
--
-- The files:
--
--   Prelude: names of the library passed on, Boolean tests, lists over the native ℕ, and
--     association lists (Prelude/Dict) for Python dicts in insertion order.
--   Pointer: `_escape_json_pointer` and `_make_path` of rekuest_next/state/observable.py, on
--     texts as lists of code points; Pointer/Tokens holds the RFC 6901 reading as an independent
--     account.
--   Ports: the port schema that a state's definition is made of.
--   Evented: what both containers share (`_make_patch`, `_publish_patch`, `_resolve_child_port`,
--     the lock check). An operation is a function of the container that returns a result or a
--     raised error beside the new container; the published patches are a field of it. The
--     built-in methods of Python lists and dicts stand for themselves. A publisher and the
--     acquired locks are the environment.
--   Evented/Sequence: `EventedList`, an operation per method (slice assignment is not among the
--     calls of Evented/Sequence/Calls); Evented/Sequence/Mirror states what a receiver of JSON
--     patches has to do, as an interface.
--   Evented/Mapping: `EventedDict`, in the same way, without the inherited `|=`.
--   Evented/Value: `make_evented` on nested values and the paths that it records; values are
--     trees without identity.
--   Messages: the messages of rekuest_next/messages.py that the models read.
--   Agent: the patch queue of rekuest_next/agents/base.py (`_aprocess_patch_event`,
--     `apatch_event_loop`), the initial states and the memory sink of
--     rekuest_next/contrib/fastapi. Serialization and the JSON Patch library are parameters, with
--     what the application of a patch in place makes of the values of stored patches; an
--     exception ends the loop.
--   History: `MemoryRetriever._build_state_snapshot`. History/Steps, History/Checkout and
--     History/Start put it beside the agent, by the rule of History/Loop for what holds between
--     two patches. History/Queries and History/Queries/Snapshots are the other queries;
--     History/Queries/Paging and History/Queries/Segments put them beside the agent.
--   Reports: `_adispatch` and the branches of `process` for `Init` and `EventAck`.
--   Broadcast: rekuest_next/contrib/fastapi/agent.py. Broadcast/Connections is
--     `FastAPIConnectionManager`, its connections, subscriptions and broadcasts, where the
--     disconnections that a broadcast causes are steps of their own; Broadcast is
--     `_squash_state_patches`.
--   Locks: `TaskLock` and `LockGroup` of rekuest_next/agents/lock.py, as one group sees them; how
--     each wait and each notification goes is given by a world. Locks/Groups has the groups of
--     several assignments at once.
--   Objects: the Python objects that pass through ports. Structures: the registered classes;
--     Structures/Registration is `StructureRegistry` of rekuest_next/structures/registry.py, with
--     the conversion of a class as a parameter.
--   Serialization: rekuest_next/structures/serialization. Serialization/Shrinking and
--     Serialization/Expanding are `ashrink_return` and `aexpand_arg` of actor.py,
--     Serialization/Postman is `ashrink_arg` and `aexpand_return` of postman.py,
--     Serialization/ActorCalls the four functions for calls that an actor makes,
--     Serialization/Calls the functions over all ports of an action, Serialization/Predication
--     and Serialization/Quantities the files of those names. Python's conversions, kanne, the
--     classes and the server that hands out drawers are fields of the record `Runtime`; an
--     exception is `none`. Serialization/Fits says which values a port describes.
--   Transport: the connection task and `areceive` of rekuest_next/agents/transport/websocket.py.
--     The backend and the network are a list of rounds, one for each run of the loop's body.
--   Actors: `SerializingActor.aget_locals` and `FunctionalActor.on_assign` of
--     rekuest_next/actors, from the first report of an assignment to the last; the user's
--     function, the shelve at each of its results and the captured output are given by a
--     situation. Actors/Tasks is `Actor` of rekuest_next/actors/base.py with its tasks and break
--     futures, as a step function; an actor is what steps reach. Actors/Delivered puts a call
--     together from the caller to the function and back.
--   Runtime: `BaseAgent.process` of rekuest_next/agents/base.py, over the actors, the reports and
--     the postman, and the loop around it. The builders of the app registry and the ids of new
--     messages are parameters. Runtime/Teardown is the life of an agent, `astart`, `aconnect`,
--     `aloop`, `aprovide` and `atear_down`, over the tasks, connections and running assignments
--     that it holds.
--   Blok: rekuest_next/blok/parser.py. Blok/Parsing goes from XML elements and Python
--     expressions, which are given as trees, to component nodes (Blok/Nodes), beside the calls
--     that an author writes and what is meant by them (Blok/Written); Blok/Resolution looks paths
--     up, and Blok/Validation is `validate_blok`.
--   Hooks: `arun_startup_hooks` and `arun_shutdown_hooks` of rekuest_next/agents/base.py.
--   Caller: `AgentPostman`. Handlers run to completion between two awaits, so an execution is a
--     list of steps. Caller/Stream: the loop of `aassign` and `_confirm_cancellation`; time is
--     left out, and a bounded wait is the list of mirrors that arrive before its deadline.
--
-- No loop of the models runs on fuel but `decimal` (Pointer), whose fuel is the number that it
-- prints, which has at most that many digits and one.
--
-- Not modelled: the input and output of sockets and databases, the generated GraphQL schema, the
-- introspection of Python functions and classes, the registries and routes that only hand on what
-- they are given, user interface bindings, times and time limits, and slices with a step.
mod Prelude
pub mod Pointer
pub mod Objects
pub mod Ports
pub mod Structures
pub mod Serialization
pub mod Evented
pub mod Messages
pub mod Caller
pub mod Actors
pub mod Agent
pub mod Reports
pub mod Runtime
pub mod Blok
pub mod Broadcast
pub mod Transport
pub mod Locks
pub mod Hooks
pub mod History
