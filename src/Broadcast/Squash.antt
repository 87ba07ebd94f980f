-- ===== src/Broadcast/Squash.antt =====
-- Two appends to one list have the same path, and only the second is sent.
use rekuest_next.Prelude.{
  ℕ, String, ◌≡◌, refl, true, none, some, List, [], ◌∷◌, ◌++◌, append_assoc, arith,
}
use rekuest_next.Pointer.{Text}
use rekuest_next.Evented.{add, ok}
use rekuest_next.Evented.Sequence.Mirror.{ListPatcher}
use rekuest_next.Agent.{StatePatch}
use rekuest_next.History.Sorting.{sorted_by}
use rekuest_next.History.{Snapshot, apply_patches}
use rekuest_next.Broadcast.{same_text, squash_state_patches}

same_text_refl : (t : Text) → same_text t t ≡ true
same_text_refl [] = refl
same_text_refl (c ∷ t) = ground (arith, same_text_refl t)

module _ {κ} {B : Type κ} where
  squash_pair : (p q : StatePatch B) → p.path ≡ q.path → squash_state_patches (p ∷ q ∷ []) ≡ q ∷ []
  unfolding squash_state_patches sorted_by
  squash_pair p q same = rw (same, same_text_refl q.path) refl

  -- The messages of two appends to the array at `base`
  abbrev pub append_patch : Text → String → ℕ → B → String → StatePatch B
  append_patch base state_name rev v session = record {
    global_rev = rev;
    state_name = state_name;
    op = add;
    path = base ++ b'/' ∷ b'-' ∷ [];
    value = some v;
    task_id = none;
    session_id = session;
  }

  -- A client that applies the patches of two appends has both elements; one that gets them through
  -- a buffer has the second element only.
  pub squash_loses :
      (base : Text) (patcher : ListPatcher B base) (state_name session : String) (m n : ℕ) (a b : B)
      (s : Snapshot (List B))
      → (apply_patches patcher.apply
            (append_patch base state_name m a session
              ∷ append_patch base state_name n b session
              ∷ [])
            s
          ≡ ok (record s { document = s.document ++ a ∷ b ∷ []; global_revision = n }))
        × (apply_patches patcher.apply
              (squash_state_patches (
                append_patch base state_name m a session
                ∷ append_patch base state_name n b session
                ∷ []))
              s
            ≡ ok (record s { document = s.document ++ b ∷ []; global_revision = n }))
  unfolding apply_patches
  squash_loses base patcher state_name session m n a b s = (
    rw
        (
          patcher.add_end s.document a,
          patcher.add_end (s.document ++ a ∷ []) b,
          append_assoc s.document (a ∷ []) (b ∷ []),
          apply_patches,
        )
        refl,
    rw
        (squash_pair (append_patch base state_name m a session)
          (append_patch base state_name n b session) refl)
        (rw (patcher.add_end, apply_patches) refl),
  )
