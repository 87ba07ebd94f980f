-- ===== src/History/Start.antt =====
-- A started agent: its store answers for its first revision.
use rekuest_next.Prelude.{
  String, ◌≡◌, refl, sym, ap, ◌∙◌, inl, inr, true, false, Option, none, some, List, [], ◌∷◌, ◌++◌,
  arith, ◌==◌, Bool-cases, Option-cases, all, contains,
}
use rekuest_next.Prelude.Dict.{Dict, get, put}
use rekuest_next.Evented.{Result-cases, ok, raised, Keeps, agent_exception}
use rekuest_next.Agent.{
  Agent, MemoryStore, Shrink, init_each, init_states, start, dump_snapshot, full_snapshot,
  StateSnapshot, QueuedPatch, patch_event_loop,
}
use rekuest_next.History.Sent.{IsScalar}
use rekuest_next.History.Loop.{AllOf}
use rekuest_next.History.Checkout.{checkout_lem}
use rekuest_next.History.Steps.{Consistent, Recalls}
use rekuest_next.History.{
  replay, anchor_of, in_session, build_state_snapshot, extract_state_snapshots, apply_patches,
}
use rekuest_next.History.Bounds.{List-cases}
use rekuest_next.History.Sorting.{sorted_by, max_by}

module _ {ℓ κ μ} {D : Type ℓ} {B : Type κ} {A : Type μ} (env : Shrink D B A) (state_id : String)
    (session_id : Option String) where
  abbrev no_messages : MemoryStore D B
  no_messages = record { patches = []; snapshots = [] }

  -- An agent that has published nothing.
  pub record Unstarted (a : Agent D B) : Type (ℓ ⊔ κ) where
    pub nothing_stored : a.store ≡ no_messages
    pub first_revision : a.global_revision ≡ 0
    pub same_session : in_session session_id a.current_session ≡ true
    pub interval_set : (a.snapshot_interval == 0) ≡ false

  init_each-Unstarted : (started : List String) → Keeps Unstarted (init_each env started)
  unfolding init_each
  init_each-Unstarted [] a u = u
  init_each-Unstarted (i ∷ started) a u = elim (Option-cases (env.shrink_state i)) [
    | inl e ↦ rw e u
    | inr (d, e) ↦ rw e (
        init_each-Unstarted started
          (record a { current_shrunk_states = put a.current_shrunk_states i d })
          (record {
            nothing_stored = u.nothing_stored;
            first_revision = u.first_revision;
            same_session = u.same_session;
            interval_set = u.interval_set;
          }))
  ]

  abbrev once : Agent D B → Agent D B
  once a = record a {
    global_revision = 0;
    store = record a.store { snapshots = a.store.snapshots ++ full_snapshot env a ∷ [] };
  }

  abbrev twice : Agent D B → Agent D B
  twice a = (dump_snapshot env (once a)).1

  get-empty : (k : String) → get {V = D} [] k ≡ none
  unfolding get
  get-empty k = refl

  dumped : (a : Agent D B) → (dump_snapshot env a).1.current_shrunk_states ≡ a.current_shrunk_states
  dumped a = elim (List-cases a.current_shrunk_states) [
    | inl e ↦ rw (e, dump_snapshot) e
    | inr (x, xs, e) ↦ rw (e, dump_snapshot) e
  ]

  -- The snapshot of the first revision, which is stored twice.
  abbrev first_snapshot : Dict D → String → StateSnapshot D
  first_snapshot states session = record {
    session_id = session;
    global_rev = 0;
    snapshots = states;
  }

  extract_one :
      (events : List (StateSnapshot D)) (states : Dict D) (session : String) (d : D)
      → in_session session_id session ≡ true
      → get states state_id ≡ some d
      → extract_state_snapshots state_id session_id (first_snapshot states session ∷ events)
        ≡ record { revision = 0; document = d; session = session }
          ∷ extract_state_snapshots state_id session_id events
  unfolding extract_state_snapshots
  extract_one events states session d i g = rw (i, g) refl

  first_answer :
      (states : Dict D) (session : String) (d : D)
      → in_session session_id session ≡ true
      → get states state_id ≡ some d
      → build_state_snapshot env.apply_patch state_id 0 session_id (record {
        patches = [];
        snapshots = first_snapshot states session ∷ first_snapshot states session ∷ [];
      })
        ≡ ok (some (record { document = d; global_revision = 0; session_id = session }))
  unfolding build_state_snapshot max_by sorted_by apply_patches extract_state_snapshots
  first_answer states session d i g =
      let e = first_snapshot states session in
      let both : extract_state_snapshots state_id session_id (e ∷ e ∷ [])
          ≡ record { revision = 0; document = d; session = session }
            ∷ record { revision = 0; document = d; session = session }
            ∷ [] =
        extract_one (e ∷ []) states session d i g
        ∙ ap (λ zs. record { revision = 0; document = d; session = session } ∷ zs)
            (extract_one [] states session d i g) in
      ap (λ zs. replay env.apply_patch state_id 0 session_id [] (anchor_of 0 zs)) both

  twice-Consistent :
      (a : Agent D B) (d : D)
      → Unstarted a
      → get a.current_shrunk_states state_id ≡ some d
      → Consistent env state_id session_id (twice a)
  twice-Consistent a d u g = elim (List-cases a.current_shrunk_states) [
    | inl e ↦
        let missing : get a.current_shrunk_states state_id ≡ none = rw e (get-empty state_id) in
        ground (arith, sym missing ∙ g)
    | inr (x, xs, e) ↦
        let g' : get (x ∷ xs) state_id ≡ some d = rw (sym e) g in
        rw (e, u.nothing_stored, u.first_revision, dump_snapshot)
          (record {
            document = d;
            current = g';
            recalled = (_, first_answer (x ∷ xs) a.current_session d u.same_session g', refl);
            patches_known = tt;
            snapshots_known = (omega arith, (omega arith, tt));
            scalars = tt;
            same_session = u.same_session;
            interval_set = u.interval_set;
          })
  ]

  -- Starting an agent that has published nothing, where it raises nothing: the store answers for
  -- the first revision of every state that a startup hook has initialized.
  pub start-Consistent :
      (schemas started : List String) (a : Agent D B) (d : D)
      → Unstarted a
      → (start env schemas started a).0 ≡ ok tt
      → get (start env schemas started a).1.current_shrunk_states state_id ≡ some d
      → Consistent env state_id session_id (start env schemas started a).1
  unfolding start init_states
  start-Consistent schemas started a d u fine g =
      elim (Bool-cases (all (contains started) schemas)) [
        | inl e ↦ elim (Result-cases (init_each env started a).0) [
          | inl (x, f) ↦
              let stuck : (start env schemas started a).0 ≡ raised x = rw (e, f) refl in
              ground (arith, sym stuck ∙ fine)
          | inr (x, f) ↦
              let b = (init_each env started a).1 in
              let ran : (start env schemas started a).1 ≡ twice b = rw (e, f) refl in
              let now : get b.current_shrunk_states state_id ≡ some d =
                ap (λ states. get states state_id) (sym (dumped (once b)))
                ∙ ap (λ c. get c.current_shrunk_states state_id) (sym ran)
                ∙ g in
              rw ran (twice-Consistent b d (init_each-Unstarted started a u) now)
        ]
        | inr e ↦
            let stuck : (start env schemas started a).0 ≡ raised agent_exception = rw e refl in
            ground (arith, sym stuck ∙ fine)
      ]

  -- An agent that has published nothing and whose snapshot interval is not 0 is started without
  -- an error, and any patches are processed, of which one may fail and end the loop, then any
  -- later ones; no patch carries a list or a dict. Asked for no session or for that of the agent,
  -- the retriever answers about the revision that the agent had after the first patches with the
  -- shrunk state that an initialized interface had then.
  pub start-checkout :
      (schemas started : List String) (earlier later : List (QueuedPatch A)) (a : Agent D B)
      (c d : D)
      → AllOf env (IsScalar env) earlier
      → AllOf env (IsScalar env) later
      → Unstarted a
      → (start env schemas started a).0 ≡ ok tt
      → get (start env schemas started a).1.current_shrunk_states state_id ≡ some c
      → get
          (patch_event_loop env earlier (start env schemas started a).1).1.current_shrunk_states
          state_id
        ≡ some d
      → Recalls env state_id session_id
          (patch_event_loop env earlier (start env schemas started a).1).1.global_revision
          d
          (patch_event_loop env later
            (patch_event_loop env earlier (start env schemas started a).1).1).1.store
  start-checkout schemas started earlier later a c d es ls u fine g now =
      checkout_lem env state_id session_id earlier later (start env schemas started a).1 d es ls
        (start-Consistent schemas started a c u fine g) now
