-- ===== src/History/Store.antt =====
-- What one more snapshot or patch in the store changes in the answers about a revision.
use rekuest_next.Prelude.{
  ℕ, suc, ◌<◌, String, ◌≡◌, refl, sym, ap, ◌∙◌, inl, inr, true, false, Option, none, some, List, [],
  ◌∷◌, ◌++◌, append-nil, arith, str_eq, leb, Bool-cases, Option-cases, filter,
}
use rekuest_next.Prelude.Dict.{get}
use rekuest_next.Evented.{Result}
use rekuest_next.Evented.Receiver.{Apply}
use rekuest_next.Agent.{StatePatch, StateSnapshot, MemoryStore}
use rekuest_next.History.Sorting.{max_by, AllUpTo}
use rekuest_next.History.Bounds.{filter_drops, filter_all, filter_same}
use rekuest_next.History.{
  in_session, StoredState, Snapshot, extract_state_snapshots, anchor_of, is_between, replay,
  build_state_snapshot, replay_chosen,
}

module _ {ℓ κ} {D : Type ℓ} {B : Type κ} (apply_patch : Apply D B) (state_id : String)
    (session_id : Option String) where
  abbrev pub extract : List (StateSnapshot D) → List (StoredState D)
  extract = extract_state_snapshots state_id session_id

  abbrev pub answer : ℕ → MemoryStore D B → Result (Option (Snapshot D))
  answer r store = build_state_snapshot apply_patch state_id r session_id store

  abbrev pub PatchesUpTo : ℕ → List (StatePatch B) → Type 0
  PatchesUpTo = AllUpTo (λ p. p.global_rev)

  abbrev pub SnapshotsUpTo : ℕ → List (StateSnapshot D) → Type 0
  SnapshotsUpTo = AllUpTo (λ e. e.global_rev)

  abbrev pub add_patch : MemoryStore D B → StatePatch B → MemoryStore D B
  add_patch store p = record store { patches = store.patches ++ p ∷ [] }

  abbrev pub add_snapshot : MemoryStore D B → StateSnapshot D → MemoryStore D B
  add_snapshot store e = record store { snapshots = store.snapshots ++ e ∷ [] }

  pub extract-append :
      (events : List (StateSnapshot D)) (e : StateSnapshot D)
      → extract (events ++ e ∷ []) ≡ extract events ++ extract (e ∷ [])
  unfolding extract_state_snapshots
  extract-append [] e = refl
  extract-append (x ∷ events) e = elim (Bool-cases (in_session session_id x.session_id)) [
    | inl i ↦ elim (Option-cases (get x.snapshots state_id)) [
      | inl g ↦ rw (i, g) (extract-append events e)
      | inr (d, g) ↦
          rw (i, g)
            (ap
              (λ zs. record { revision = x.global_rev; document = d; session = x.session_id } ∷ zs)
              (extract-append events e))
    ]
    | inr i ↦ rw i (extract-append events e)
  ]

  pub extract-UpTo :
      (n : ℕ) (events : List (StateSnapshot D))
      → SnapshotsUpTo n events
      → AllUpTo (λ s. s.revision) n (extract events)
  unfolding extract_state_snapshots
  extract-UpTo n [] h = tt
  extract-UpTo n (x ∷ events) h = elim (Bool-cases (in_session session_id x.session_id)) [
    | inl i ↦ elim (Option-cases (get x.snapshots state_id)) [
      | inl g ↦ rw (i, g) (extract-UpTo n events h.1)
      | inr (d, g) ↦ rw (i, g) (h.0, extract-UpTo n events h.1)
    ]
    | inr i ↦ rw i (extract-UpTo n events h.1)
  ]

  -- A snapshot after the target does not serve as an anchor.
  later_anchor :
      (r : ℕ) (events : List (StateSnapshot D)) (e : StateSnapshot D)
      → r < e.global_rev
      → anchor_of r (extract (events ++ e ∷ [])) ≡ anchor_of r (extract events)
  unfolding extract_state_snapshots
  later_anchor r events e h =
      let late : leb e.global_rev r ≡ false = ground arith in
      rw (extract-append events e) (elim (Bool-cases (in_session session_id e.session_id)) [
        | inl i ↦ elim (Option-cases (get e.snapshots state_id)) [
          | inl g ↦ rw (i, g) (rw (append-nil (extract events)))
          | inr (d, g) ↦ rw (i, g) (ap (max_by _) (filter_drops _ (extract events) _ late))
        ]
        | inr i ↦ rw i (rw (append-nil (extract events)))
      ])

  pub later_snapshot :
      (r : ℕ) (store : MemoryStore D B) (e : StateSnapshot D)
      → r < e.global_rev
      → answer r (add_snapshot store e) ≡ answer r store
  unfolding build_state_snapshot
  later_snapshot r store e h = rw (later_anchor r store.snapshots e h)

  -- A patch that no anchor admits changes no answer.
  same_replay :
      (r : ℕ) (ps : List (StatePatch B)) (p : StatePatch B) (anchor : Option (StoredState D))
      → ((n : ℕ) → is_between apply_patch state_id session_id n r p ≡ false)
      → replay apply_patch state_id r session_id (ps ++ p ∷ []) anchor
        ≡ replay apply_patch state_id r session_id ps anchor
  same_replay r ps p none h = refl
  same_replay r ps p (some a) h =
      ap (λ c. replay_chosen apply_patch c a) (filter_drops _ ps p (h a.revision))

  pub later_patch :
      (r : ℕ) (store : MemoryStore D B) (p : StatePatch B)
      → r < p.global_rev
      → answer r (add_patch store p) ≡ answer r store
  unfolding build_state_snapshot
  later_patch r store p h = same_replay r store.patches p _ (λ n. ground arith)

  pub other_patch :
      (r : ℕ) (store : MemoryStore D B) (p : StatePatch B)
      → str_eq p.state_name state_id ≡ false
      → answer r (add_patch store p) ≡ answer r store
  unfolding build_state_snapshot
  other_patch r store p h = same_replay r store.patches p _ (λ n. rw h refl)

  -- Between the last revision in the store and the next there is nothing yet.
  pub grown_anchor :
      (r : ℕ) (events : List (StateSnapshot D))
      → SnapshotsUpTo r events
      → anchor_of (suc r) (extract events) ≡ anchor_of r (extract events)
  grown_anchor r events h =
      let known = extract-UpTo r events h in
      ap (max_by _) (
        filter_all _ r (suc r) (extract events) known (omega arith)
        ∙ sym (filter_all _ r r (extract events) known (omega arith)))

  pub grown_choice :
      (r n : ℕ) (ps : List (StatePatch B))
      → PatchesUpTo r ps
      → filter (is_between apply_patch state_id session_id n (suc r)) ps
        ≡ filter (is_between apply_patch state_id session_id n r) ps
  grown_choice r n ps h =
      filter_same (λ p. p.global_rev) _ _ r ps h
        (λ p le.
          let before : leb p.global_rev (suc r) ≡ true = ground arith in
          let here : leb p.global_rev r ≡ true = ground arith in rw (before, here) refl)

  pub grown_replay :
      (r : ℕ) (ps : List (StatePatch B)) (anchor : Option (StoredState D))
      → PatchesUpTo r ps
      → replay apply_patch state_id (suc r) session_id ps anchor
        ≡ replay apply_patch state_id r session_id ps anchor
  grown_replay r ps none h = refl
  grown_replay r ps (some a) h =
      ap (λ c. replay_chosen apply_patch c a) (grown_choice r a.revision ps h)

  pub grown_answer :
      (r : ℕ) (store : MemoryStore D B)
      → SnapshotsUpTo r store.snapshots
      → PatchesUpTo r store.patches
      → answer (suc r) store ≡ answer r store
  unfolding build_state_snapshot
  grown_answer r store hs hp =
      ap (replay apply_patch state_id (suc r) session_id store.patches)
        (grown_anchor r store.snapshots hs)
      ∙ grown_replay r store.patches (anchor_of r (extract store.snapshots)) hp
