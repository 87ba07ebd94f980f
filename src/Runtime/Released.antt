-- ===== src/Runtime/Released.antt =====
-- What an agent has released when it ends (`atear_down` of rekuest_next/agents/base.py).
use rekuest_next.Prelude.{
  ℕ, zero, suc, String, ◌≡◌, refl, ◌∙◌, inl, inr, true, false, Option, none, some, List, [],
  reverse, Bool-cases, all,
}
use rekuest_next.Hooks.{run_shutdown_hooks}
use rekuest_next.Runtime.Teardown.{
  background_ends, processor_ends, await_background, let_go, atear_down, connect_sequence, Phase,
  hooks, acknowledging, Interruption, Resources, World, other_error,
}

-- No task raises while it is cancelled.
abbrev pub Calm : Resources → Type 0
Calm r =
    (all background_ends r.background_tasks ≡ true) × (processor_ends r.patch_processor_task ≡ true)

-- No background task, patch queue, error future, connection, connected signal or receiver is held, and no
-- shutdown hook is owed.
abbrev pub Released : Resources → Type 0
Released r =
    (r.background_tasks ≡ [])
    × (r.event_queue ≡ false)
    × (r.errorfuture ≡ false)
    × (r.transport ≡ false)
    × (r.connected ≡ false)
    × (r.receiver ≡ false)
    × (r.shutdown.ran_startup_hooks ≡ false)

-- The shutdown hooks that a run calls: all of them, the last one first, if the startup hooks have ended
abbrev pub hooks_owed : World → Option (Phase × Interruption) → List String
hooks_owed w (some (hooks, _)) = []
hooks_owed w _ = reverse w.shutdown_hooks

-- What ends a run
abbrev pub ending_of : Option (Phase × Interruption) → Option Interruption → Option Interruption
ending_of none consumption = consumption
ending_of (some (_, i)) _ = some i

module _ (w : World) where
  abbrev cleared : Resources → Resources
  cleared r = let_go (record r {
    background_tasks = [];
    shutdown = run_shutdown_hooks w.hook_fails w.shutdown_hooks r.shutdown;
  })

  -- How far a run gets
  abbrev reached : Option (Phase × Interruption) → Resources → Resources
  reached none r = connect_sequence w none r
  reached (some (phase, _)) r = connect_sequence w (some phase) r

-- The assignments that the actors run when a run is interrupted
abbrev pub left_running : World → Option (Phase × Interruption) → Resources → List String
left_running w none r = w.assigned
left_running w (some (acknowledging, _)) r = w.assigned
left_running w (some _) r = r.running_assignments

-- The agent after a number of tear downs
unfoldable pub torn_down : World → ℕ → Resources → Resources
torn_down w zero r = r
torn_down w (suc n) r = torn_down w n (atear_down w r).0

-- Both hold the same queue, connection and receiver, and the same patch processor.
abbrev pub HoldsAs : Resources → Resources → Type 0
HoldsAs s r =
    (s.event_queue ≡ r.event_queue)
    × (s.transport ≡ r.transport)
    × (s.connected ≡ r.connected)
    × (s.receiver ≡ r.receiver)
    × (s.patch_processor_task ≡ r.patch_processor_task)

HoldsAs-trans : (a b c : Resources) → HoldsAs a b → HoldsAs b c → HoldsAs a c
HoldsAs-trans a b c (p, q, s, t, u) (p', q', s', t', u') = (p ∙ p', q ∙ q', s ∙ s', t ∙ t', u ∙ u')

raises_once :
    (w : World) (r : Resources)
    → r.patch_processor_task ≡ some other_error
    → ((atear_down w r).1 ≡ true) × HoldsAs (atear_down w r).0 r
unfolding atear_down
raises_once w r h = elim (Bool-cases (await_background r.background_tasks).1) [
  | inl e ↦ rw (atear_down, e) (refl, (refl, refl, refl, refl, refl))
  | inr e ↦ rw (atear_down, e, h) (refl, (refl, refl, refl, refl, refl))
]

-- Where the patch processor has ended with another exception, no tear down comes to its end: each of them
-- raises, and the queue, the connection, the receiver and the ended task stay.
pub atear_down-raises :
    (w : World) (n : ℕ) (r : Resources)
    → r.patch_processor_task ≡ some other_error
    → let s = torn_down w n r in ((atear_down w s).1 ≡ true) × HoldsAs s r
unfolding torn_down
atear_down-raises w zero r h = ((raises_once w r h).0, (refl, refl, refl, refl, refl))
atear_down-raises w (suc n) r h =
    let (_, kept) = raises_once w r h in
    let (raised, held) = atear_down-raises w n (atear_down w r).0 (kept.4 ∙ h) in
    (raised, HoldsAs-trans (torn_down w (suc n) r) (atear_down w r).0 r held kept)
