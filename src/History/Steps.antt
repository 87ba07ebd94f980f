-- ===== src/History/Steps.antt =====
-- What one patch of the agent's queue does to the answers of the retriever.
use rekuest_next.Prelude.{
  ℕ, suc, ◌%◌, String, ◌≡◌, refl, sym, ◌∙◌, inl, inr, true, false, Option, none, some, arith,
  str_eq, eq_refl, ◌==◌, Bool-cases, String-cases,
}
use rekuest_next.Prelude.Dict.{get, put, get-put}
use rekuest_next.Evented.{ok}
use rekuest_next.Agent.{MemoryStore, Agent, Shrink, QueuedPatch, checkpoint, advance, state_patch}
use rekuest_next.History.Store.{
  PatchesUpTo, SnapshotsUpTo, add_patch, add_snapshot, other_patch, grown_answer,
}
use rekuest_next.History.Bounds.{AllUpTo-append, AllUpTo-weaken}
use rekuest_next.History.Answers.{checkpoint_answer, own_patch}
use rekuest_next.History.Sent.{AllScalar, ScalarValue, AllScalar-append, map-touch}
use rekuest_next.History.{sent_value, in_session, Snapshot, build_state_snapshot}

module _ {ℓ κ μ} {D : Type ℓ} {B : Type κ} {A : Type μ} (env : Shrink D B A) (state_id : String)
    (session_id : Option String) where
  -- The retriever's answer about a revision is a document.
  abbrev pub Recalls : ℕ → D → MemoryStore D B → Type ℓ
  Recalls r d store =
      (s : Snapshot D) × (build_state_snapshot env.apply_patch state_id r session_id store
        ≡ ok (some s))
      × (s.document ≡ d)

  -- What holds between two patches of the queue.
  pub record Consistent (a : Agent D B) : Type ℓ where
    pub document : D
    pub current : get a.current_shrunk_states state_id ≡ some document
    pub recalled : Recalls a.global_revision document a.store
    pub patches_known :
        PatchesUpTo env.apply_patch state_id session_id a.global_revision a.store.patches
    pub snapshots_known :
        SnapshotsUpTo env.apply_patch state_id session_id a.global_revision a.store.snapshots
    pub scalars : AllScalar env a.store.patches
    pub same_session : in_session session_id a.current_session ≡ true
    pub interval_set : (a.snapshot_interval == 0) ≡ false

  pub put_missing :
      (i : String) (d : D) (a : Agent D B)
      → get a.current_shrunk_states i ≡ none
      → Consistent a
      → Consistent (record a { current_shrunk_states = put a.current_shrunk_states i d })
  put_missing i d a e c = record {
    document = c.document;
    current = elim (String-cases i state_id) [
      | inl same ↦
          let missing : get a.current_shrunk_states state_id ≡ none = rw (sym same) e in
          ground (arith, sym missing ∙ c.current)
      | inr differs ↦ rw (get-put, differs) c.current
    ];
    recalled = c.recalled;
    patches_known = c.patches_known;
    snapshots_known = c.snapshots_known;
    scalars = c.scalars;
    same_session = c.same_session;
    interval_set = c.interval_set;
  }

  abbrev grown : QueuedPatch A → D → Agent D B → Agent D B
  grown q d a = record a {
    current_shrunk_states = put a.current_shrunk_states q.interface d;
    global_revision = suc a.global_revision;
  }

  -- The agent after a patch, without a checkpoint and with one.
  abbrev plain_step : QueuedPatch A → Option B → D → Agent D B → Agent D B
  plain_step q v d a = record (grown q d a) {
    store =
        add_patch env.apply_patch state_id session_id a.store (state_patch env q v (grown q d a));
  }

  abbrev due_step : QueuedPatch A → Option B → D → Agent D B → Agent D B
  due_step q v d a = record (grown q d a) {
    store =
        add_snapshot env.apply_patch state_id session_id
          (add_patch env.apply_patch state_id session_id a.store
            (state_patch env q v (grown q d a)))
          (record {
            session_id = a.current_session;
            global_rev = suc a.global_revision;
            snapshots = put a.current_shrunk_states q.interface d;
          });
  }

  grown_patches :
      (q : QueuedPatch A) (v : Option B) (d : D) (a : Agent D B)
      → Consistent a
      → PatchesUpTo env.apply_patch state_id session_id
          (suc a.global_revision)
          (plain_step q v d a).store.patches
  grown_patches q v d a k =
      AllUpTo-append (λ p. p.global_rev) (suc a.global_revision) a.store.patches _
        (AllUpTo-weaken _ a.global_revision _ _ k.patches_known (omega arith)) (omega arith)

  grown_snapshots :
      (a : Agent D B)
      → Consistent a
      → SnapshotsUpTo env.apply_patch state_id session_id (suc a.global_revision) a.store.snapshots
  grown_snapshots a k =
      AllUpTo-weaken (λ e. e.global_rev) a.global_revision _ _ k.snapshots_known (omega arith)

  -- The state that the interface has after a patch.
  new_current :
      (q : QueuedPatch A) (d : D) (a : Agent D B)
      → Consistent a
      → (e : D) × (get (put a.current_shrunk_states q.interface d) state_id ≡ some e)
  new_current q d a k = elim (Bool-cases (str_eq q.interface state_id)) [
    | inl same ↦ (d, rw (get-put, same) refl)
    | inr differs ↦ (k.document, rw (get-put, differs) k.current)
  ]

  due_step-Consistent :
      (q : QueuedPatch A) (v : Option B) (d : D) (a : Agent D B)
      → ScalarValue env v
      → Consistent a
      → Consistent (due_step q v d a)
  due_step-Consistent q v d a sv k =
      let (e, current) = new_current q d a k in
      record {
        document = e;
        current = current;
        recalled = (
          _,
          checkpoint_answer env.apply_patch state_id session_id a.global_revision
              (plain_step q v d a).store _ e k.snapshots_known (grown_patches q v d a k) refl
              k.same_session current,
          refl,
        );
        patches_known = grown_patches q v d a k;
        snapshots_known =
            AllUpTo-append (λ e. e.global_rev) (suc a.global_revision) a.store.snapshots _
              (grown_snapshots a k) (omega arith);
        scalars = AllScalar-append env a.store.patches _ k.scalars sv;
        same_session = k.same_session;
        interval_set = k.interval_set;
      }

  plain_step-Consistent :
      (q : QueuedPatch A) (v : Option B) (c d : D) (a : Agent D B)
      → get a.current_shrunk_states q.interface ≡ some c
      → env.apply_patch c q.patch.op q.patch.path (sent_value q.patch.op v) ≡ some d
      → ScalarValue env v
      → Consistent a
      → Consistent (plain_step q v d a)
  plain_step-Consistent q v c d a now applied sv k =
      let (s, found, same_document) = k.recalled in
      elim (String-cases q.interface state_id) [
        | inl same ↦
            let named : str_eq q.interface state_id ≡ true = rw same (eq_refl state_id) in
            let held : s.document ≡ c =
              same_document ∙ ground (arith, sym k.current ∙ sym (rw same refl) ∙ now) in
            record {
              document = d;
              current = rw (get-put, named) refl;
              recalled = (
                _,
                own_patch env.apply_patch state_id session_id a.global_revision a.store _ s d
                    k.snapshots_known k.patches_known refl named k.same_session found
                    (rw held applied),
                refl,
              );
              patches_known = grown_patches q v d a k;
              snapshots_known = grown_snapshots a k;
              scalars = AllScalar-append env a.store.patches _ k.scalars sv;
              same_session = k.same_session;
              interval_set = k.interval_set;
            }
        | inr differs ↦ record {
          document = k.document;
          current = rw (get-put, differs) k.current;
          recalled = (
            s,
            other_patch env.apply_patch state_id session_id (suc a.global_revision) a.store
                  (state_patch env q v (grown q d a)) differs
                ∙ grown_answer env.apply_patch state_id session_id a.global_revision a.store
                    k.snapshots_known k.patches_known
                ∙ found,
            same_document,
          );
          patches_known = grown_patches q v d a k;
          snapshots_known = grown_snapshots a k;
          scalars = AllScalar-append env a.store.patches _ k.scalars sv;
          same_session = k.same_session;
          interval_set = k.interval_set;
        }
      ]

  pub advance-Consistent :
      (q : QueuedPatch A) (v : Option B) (c d : D) (a : Agent D B)
      → get a.current_shrunk_states q.interface ≡ some c
      → env.apply_patch c q.patch.op q.patch.path (sent_value q.patch.op v) ≡ some d
      → ScalarValue env v
      → Consistent a
      → Consistent (advance env q v d a).1
  unfolding advance
  advance-Consistent q v c d a now applied sv k =
      elim (Bool-cases (suc a.global_revision % a.snapshot_interval == 0)) [
        | inl due ↦
            rw (k.interval_set, due, checkpoint, map-touch env a q v a.store.patches k.scalars)
              (due_step-Consistent q v d a sv k)
        | inr due ↦
            rw (k.interval_set, due, checkpoint, map-touch env a q v a.store.patches k.scalars)
              (plain_step-Consistent q v c d a now applied sv k)
      ]
