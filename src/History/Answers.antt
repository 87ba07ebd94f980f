-- ===== src/History/Answers.antt =====
-- What is answered about the revision that a checkpoint or a patch has just made.
use rekuest_next.Prelude.{
  ℕ, suc, ◌≤◌, String, ◌≡◌, refl, ap, ◌∙◌, inl, inr, true, false, Option, none, some, List, [], ◌∷◌,
  ◌++◌, arith, str_eq, leb, Option-cases, filter,
}
use rekuest_next.Prelude.Dict.{get}
use rekuest_next.Evented.{Result, ok, raised}
use rekuest_next.Evented.Receiver.{Apply}
use rekuest_next.Agent.{StatePatch, StateSnapshot, MemoryStore}
use rekuest_next.History.Sorting.{sorted_by, max_by, sorted_by-append, max_by-append}
use rekuest_next.History.Bounds.{
  AllUpTo-weaken, filter_keeps, filter_none, AllUpTo-filter, max_by-UpTo,
}
use rekuest_next.History.Store.{
  answer, extract, extract-append, extract-UpTo, PatchesUpTo, SnapshotsUpTo, add_patch,
  add_snapshot, grown_anchor, grown_choice,
}
use rekuest_next.History.{
  sent_value, in_session, StoredState, Snapshot, extract_state_snapshots, anchor_of, is_between,
  revise, apply_patches, replay, build_state_snapshot, replay_chosen, found, at_anchor,
}

module _ {ℓ κ} {D : Type ℓ} {B : Type κ} (apply_patch : Apply D B) (state_id : String)
    (session_id : Option String) where
  -- A checkpoint at the target is the answer.
  checkpoint_anchor :
      (r : ℕ) (events : List (StateSnapshot D)) (e : StateSnapshot D) (d : D)
      → SnapshotsUpTo apply_patch state_id session_id r events
      → e.global_rev ≡ suc r
      → in_session session_id e.session_id ≡ true
      → get e.snapshots state_id ≡ some d
      → anchor_of (suc r) (extract apply_patch state_id session_id (events ++ e ∷ []))
        ≡ some (record { revision = e.global_rev; document = d; session = e.session_id })
  unfolding extract_state_snapshots
  checkpoint_anchor r events e d h rev i g =
      let in_time : leb e.global_rev (suc r) ≡ true = ground arith in
      rw (extract-append apply_patch state_id session_id events e, i, g)
        (ap (max_by _) (filter_keeps _ (extract apply_patch state_id session_id events) _ in_time)
          ∙ max_by-append _ _ _ r
              (AllUpTo-filter _ r _ (extract apply_patch state_id session_id events)
                (extract-UpTo apply_patch state_id session_id r events h))
              (omega (arith, rev)))

  pub checkpoint_answer :
      (r : ℕ) (store : MemoryStore D B) (e : StateSnapshot D) (d : D)
      → SnapshotsUpTo apply_patch state_id session_id r store.snapshots
      → PatchesUpTo apply_patch state_id session_id (suc r) store.patches
      → e.global_rev ≡ suc r
      → in_session session_id e.session_id ≡ true
      → get e.snapshots state_id ≡ some d
      → answer apply_patch state_id session_id
          (suc r)
          (add_snapshot apply_patch state_id session_id store e)
        ≡ ok (
            some
              (record { document = d; global_revision = e.global_rev; session_id = e.session_id }))
  unfolding build_state_snapshot sorted_by apply_patches
  checkpoint_answer r store e d hs hp rev i g =
      ap (replay apply_patch state_id (suc r) session_id store.patches)
        (checkpoint_anchor r store.snapshots e d hs rev i g)
      ∙ ap
          (λ c.
            replay_chosen apply_patch c
              (record { revision = e.global_rev; document = d; session = e.session_id }))
          (filter_none (λ p. p.global_rev) _ (suc r) store.patches hp
            (λ p le.
              let late : leb (suc e.global_rev) p.global_rev ≡ false = ground (arith, rev) in
              rw late (ground arith)))

  abbrev and_then : StatePatch B → Result (Snapshot D) → Result (Snapshot D)
  and_then p (raised e) = raised e
  and_then p (ok s) = apply_patches apply_patch (p ∷ []) s

  apply_patches-append :
      (ps : List (StatePatch B)) (p : StatePatch B) (s : Snapshot D)
      → apply_patches apply_patch (ps ++ p ∷ []) s ≡ and_then p (apply_patches apply_patch ps s)
  unfolding apply_patches
  apply_patches-append [] p s = refl
  apply_patches-append (q ∷ ps) p s =
      elim (Option-cases (apply_patch s.document q.op q.path (sent_value q.op q.value))) [
        | inl e ↦ rw (e, apply_patches) refl
        | inr (c, e) ↦ rw (e, apply_patches) (apply_patches-append ps p (revise apply_patch s q c))
      ]

  found-and_then :
      (x : Result (Snapshot D)) (p : StatePatch B) (s : Snapshot D) (d : D)
      → found apply_patch x ≡ ok (some s)
      → apply_patch s.document p.op p.path (sent_value p.op p.value) ≡ some d
      → found apply_patch (and_then p x) ≡ ok (some (revise apply_patch s p d))
  unfolding apply_patches
  found-and_then (raised e) p s d h a = ground (arith, h)
  found-and_then (ok t) p s d h a =
      let same : t ≡ s = ground (arith, h) in
      let step : apply_patch t.document p.op p.path (sent_value p.op p.value) ≡ some d =
        rw same a in
      rw (step, apply_patches) (ap (λ u. ok (some (revise apply_patch u p d))) same)

  own_chosen :
      (r n : ℕ) (ps : List (StatePatch B)) (p : StatePatch B)
      → PatchesUpTo apply_patch state_id session_id r ps
      → p.global_rev ≡ suc r
      → n ≤ r
      → str_eq p.state_name state_id ≡ true
      → in_session session_id p.session_id ≡ true
      → filter (is_between apply_patch state_id session_id n (suc r)) (ps ++ p ∷ [])
        ≡ filter (is_between apply_patch state_id session_id n r) ps ++ p ∷ []
  own_chosen r n ps p h rev le named i =
      let low : leb (suc n) p.global_rev ≡ true = ground (arith, rev) in
      let high : leb p.global_rev (suc r) ≡ true = ground (arith, rev) in
      filter_keeps _ ps p (rw (named, low, high, i) refl)
      ∙ ap (λ zs. zs ++ p ∷ []) (grown_choice apply_patch state_id session_id r n ps h)

  -- The patch that makes the next revision is applied to the answer before it.
  own_replay :
      (r : ℕ) (ps : List (StatePatch B)) (p : StatePatch B) (anchor : Option (StoredState D))
      (s : Snapshot D) (d : D)
      → PatchesUpTo apply_patch state_id session_id r ps
      → p.global_rev ≡ suc r
      → ((a : StoredState D) → anchor ≡ some a → a.revision ≤ r)
      → str_eq p.state_name state_id ≡ true
      → in_session session_id p.session_id ≡ true
      → replay apply_patch state_id r session_id ps anchor ≡ ok (some s)
      → apply_patch s.document p.op p.path (sent_value p.op p.value) ≡ some d
      → replay apply_patch state_id (suc r) session_id (ps ++ p ∷ []) anchor
        ≡ ok (some (revise apply_patch s p d))
  own_replay r ps p none s d h rev le named i e a = ground (arith, e)
  own_replay r ps p (some anchor) s d h rev le named i e a =
      let chosen = filter (is_between apply_patch state_id session_id anchor.revision r) ps in
      rw
        (
          own_chosen r anchor.revision ps p h rev (le anchor refl) named i,
          sorted_by-append (λ q. q.global_rev) chosen p
              (AllUpTo-filter (λ q. q.global_rev) p.global_rev _ ps
                (AllUpTo-weaken (λ q. q.global_rev) r p.global_rev ps h (omega (arith, rev)))),
          apply_patches-append (sorted_by (λ q. q.global_rev) chosen) p
              (at_anchor apply_patch anchor),
        )
        (found-and_then _ p s d e a)

  pub own_patch :
      (r : ℕ) (store : MemoryStore D B) (p : StatePatch B) (s : Snapshot D) (d : D)
      → SnapshotsUpTo apply_patch state_id session_id r store.snapshots
      → PatchesUpTo apply_patch state_id session_id r store.patches
      → p.global_rev ≡ suc r
      → str_eq p.state_name state_id ≡ true
      → in_session session_id p.session_id ≡ true
      → answer apply_patch state_id session_id r store ≡ ok (some s)
      → apply_patch s.document p.op p.path (sent_value p.op p.value) ≡ some d
      → answer apply_patch state_id session_id
          (suc r)
          (add_patch apply_patch state_id session_id store p)
        ≡ ok (some (revise apply_patch s p d))
  unfolding build_state_snapshot
  own_patch r store p s d hs hp rev named i e a =
      let known = extract apply_patch state_id session_id store.snapshots in
      rw (grown_anchor apply_patch state_id session_id r store.snapshots hs) (
        own_replay r store.patches p (anchor_of r known) s d hp rev
          (λ x found_x.
            max_by-UpTo _ r _ x
              (AllUpTo-filter _ r _ known
                (extract-UpTo apply_patch state_id session_id r store.snapshots hs))
              found_x)
          named i e a)
