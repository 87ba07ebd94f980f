-- ===== src/Locks/Holding.antt =====
-- A group that could not be entered holds nothing, and one that is left holds nothing.
use rekuest_next.Prelude.{
  String, ◌≡◌, refl, sym, ap, ◌∙◌, ◌⊎◌, inl, inr, List, [], ◌∷◌, ◌++◌, reverse, arith, eq_refl,
}
use mathlib.Core.List.{reverse-reverse}
use rekuest_next.History.Sorting.{sorted_by}
use rekuest_next.Locks.Covers.{
  Covers, contains-reverse, Covers-more, Covers-last, Covers-append, Covers-unheld, Covers-nothing,
}
use rekuest_next.Locks.{
  Acquiring, Releasing, Outcome, Group, World, unheld, hold, unhold, track, acquire_lock,
  release_lock, acquire_each, release_each, acquire, release, enter, new_group, fine, raises,
  granted, refused, interrupted, done, failed, cancelled,
}

Acquiring-cases : (a : Acquiring) → (a ≡ interrupted) ⊎ ((a ≡ refused) ⊎ (a ≡ granted))
Acquiring-cases interrupted = inl refl
Acquiring-cases refused = inr (inl refl)
Acquiring-cases granted = inr (inr refl)

Releasing-cases : (r : Releasing) → (r ≡ cancelled) ⊎ ((r ≡ done) ⊎ (r ≡ failed))
Releasing-cases cancelled = inl refl
Releasing-cases done = inr (inl refl)
Releasing-cases failed = inr (inr refl)

Outcome-cases : (o : Outcome) → (o ≡ fine) ⊎ (o ≡ raises)
Outcome-cases fine = inl refl
Outcome-cases raises = inr refl

module _ (world : World) where
  -- No notification of a release is cancelled.
  abbrev pub Undisturbed : Type 0
  Undisturbed = (k : String) → ¬ (world.releasing k ≡ cancelled)

  Releasing-goes-on :
      (k : String) → Undisturbed → (world.releasing k ≡ done) ⊎ (world.releasing k ≡ failed)
  Releasing-goes-on k calm = elim (Releasing-cases (world.releasing k)) [
    | inl e ↦ absurd (calm k e)
    | inr e ↦ e
  ]

  release_each-frees :
      (keys : List String) (g : Group)
      → Undisturbed
      → Covers keys g.held
      → (release_each world keys g).1.held ≡ []
  unfolding release_each release_lock
  release_each-frees [] g calm h = Covers-nothing g.held h
  release_each-frees (k ∷ keys) g calm h = elim (Releasing-goes-on k calm) [
    | inl e ↦ rw e (release_each-frees keys _ calm (Covers-unheld k keys g.held h))
    | inr e ↦ rw e (release_each-frees keys _ calm (Covers-unheld k keys g.held h))
  ]

  abbrev Tracked : Group → Type 0
  Tracked g = Covers g.acquired_locks g.held

  lock_interrupted :
      (k : String) (g : Group)
      → world.acquiring k ≡ interrupted
      → acquire_lock world k g ≡ (raises, g)
  unfolding acquire_lock
  lock_interrupted k g e = rw (e, acquire_lock) refl

  lock_refused :
      (k : String) (g : Group)
      → world.acquiring k ≡ refused
      → acquire_lock world k g ≡ (raises, unhold world k (hold world k g))
  unfolding acquire_lock
  lock_refused k g e = rw (e, acquire_lock) refl

  lock_granted :
      (k : String) (g : Group)
      → world.acquiring k ≡ granted
      → acquire_lock world k g ≡ (fine, hold world k g)
  unfolding acquire_lock
  lock_granted k g e = rw (e, acquire_lock) refl

  each_stops :
      (k : String) (keys : List String) (g g' : Group)
      → acquire_lock world k g ≡ (raises, g')
      → acquire_each world (k ∷ keys) g ≡ (raises, g')
  unfolding acquire_each
  each_stops k keys g g' e = rw (e, acquire_each) (ap (λ (x : Outcome × Group). (raises, x.1)) e)

  each_goes_on :
      (k : String) (keys : List String) (g g' : Group)
      → acquire_lock world k g ≡ (fine, g')
      → acquire_each world (k ∷ keys) g ≡ acquire_each world keys (track world k g')
  unfolding acquire_each
  each_goes_on k keys g g' e =
      rw (e, acquire_each)
        (ap (λ (x : Outcome × Group). acquire_each world keys (track world k x.1)) e)

  acquire_each-Tracked :
      (keys : List String) (g : Group) → Tracked g → Tracked (acquire_each world keys g).1
  acquire_each-Tracked [] g h = unfold acquire_each in h
  acquire_each-Tracked (k ∷ keys) g h = elim (Acquiring-cases (world.acquiring k)) [
    | inl e ↦ rw (each_stops k keys g _ (lock_interrupted k g e)) h
    | inr (inl e) ↦ rw (each_stops k keys g _ (lock_refused k g e)) (
        Covers-unheld k g.acquired_locks (g.held ++ k ∷ []) (
          Covers-last (k ∷ g.acquired_locks) g.held k
            (Covers-more g.acquired_locks (k ∷ g.acquired_locks) g.held (λ s c. ground (arith, c))
              h)
            (ground (arith, eq_refl k))))
    | inr (inr e) ↦ rw (each_goes_on k keys g _ (lock_granted k g e)) (
        acquire_each-Tracked keys (track world k (hold world k g))
          (Covers-append g.acquired_locks g.held k h))
  ]

  release-frees : (g : Group) → Undisturbed → Tracked g → (release world g).1.held ≡ []
  unfolding release
  release-frees g calm h = release_each-frees (reverse g.acquired_locks) g calm (
      Covers-more g.acquired_locks (reverse g.acquired_locks) g.held
        (λ s c. contains-reverse g.acquired_locks s ∙ c) h)

  -- Where no notification of a release is cancelled, a group whose `__aenter__` raises, at whatever
  -- lock and for whatever reason, holds no lock.
  pub enter-frees :
      (locks : List String)
      → Undisturbed
      → (enter world locks new_group).0 ≡ raises
      → (enter world locks new_group).1.held ≡ []
  unfolding enter acquire
  enter-frees locks calm h =
      let tracked = acquire_each-Tracked (sorted_by world.rank locks) new_group refl in
      elim (Outcome-cases (acquire world locks new_group).0) [
        | inl e ↦
            let entered : (enter world locks new_group).0 ≡ fine = rw (e, enter) refl in
            ground (arith, sym entered ∙ h)
        | inr e ↦ rw (e, enter) (release-frees (acquire world locks new_group).1 calm tracked)
      ]

  -- Where no notification of a release is cancelled, a group that was entered holds no lock after
  -- its `__aexit__`, even if the notifications of some releases fail.
  pub exit-frees :
      (locks : List String)
      → Undisturbed
      → (enter world locks new_group).0 ≡ fine
      → (release world (enter world locks new_group).1).1.held ≡ []
  unfolding enter acquire
  exit-frees locks calm h =
      let tracked = acquire_each-Tracked (sorted_by world.rank locks) new_group refl in
      elim (Outcome-cases (acquire world locks new_group).0) [
        | inl e ↦ rw (e, enter) (release-frees (acquire world locks new_group).1 calm tracked)
        | inr e ↦
            let stopped : (enter world locks new_group).0 ≡ raises = rw (e, enter) refl in
            ground (arith, sym stopped ∙ h)
      ]

  -- A cancellation in the notification of the first release ends the loop: the group gives that one
  -- lock back, and holds the others.
  pub release_cancelled :
      (keys : List String) (key : String) (g : Group)
      → world.releasing key ≡ cancelled
      → g.acquired_locks ≡ reverse (key ∷ keys)
      → (release world g).1.held ≡ unheld key g.held
  unfolding release release_each release_lock
  release_cancelled keys key g e h =
      let order : reverse g.acquired_locks ≡ key ∷ keys =
        ap reverse h ∙ reverse-reverse (key ∷ keys) in
      rw (order, e) refl
