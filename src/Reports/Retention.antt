-- ===== src/Reports/Retention.antt =====
-- A terminal report that the backend has not acknowledged is sent again on every reconnect.
use rekuest_next.Prelude.{
  suc, String, ◌≡◌, refl, sym, ap, ◌∙◌, inl, inr, true, false, some, List, [], ◌∷◌, ◌++◌,
  append-nil, append_assoc, arith, str_eq, eq_refl, Bool-cases,
}
use rekuest_next.Prelude.Dict.{Dict, get, values, get-put, get-remove}
use rekuest_next.Reports.{
  no_event, Report, ReportKind, Outbox, is_event, is_terminal, send, stamp, dispatch, resend,
  acknowledge, inquire, inquire_each, Inquiry, init, Step, reports, acks, connects, after, run,
  no_event,
}

-- `ys` goes on where `xs` ended, and `x` is in what is new.
abbrev pub SendsNew : List Report → Report → List Report → Type 0
SendsNew old x new =
    (before : List Report) × (behind : List Report) × (new ≡ old ++ (before ++ x ∷ behind))

value_of :
    (d : Dict Report) (k : String) (r : Report)
    → get d k ≡ some r
    → (before : List Report) × (behind : List Report) × (values d ≡ before ++ r ∷ behind)
unfolding get values
value_of [] k r h = ground (arith, h)
value_of ((j, w) ∷ d) k r h = elim (Bool-cases (str_eq j k)) [
  | inl same ↦
      let here : w ≡ r = ground (arith, h, same) in ([], values d, ap (λ x. x ∷ values d) here)
  | inr differs ↦
      let (before, behind, e) = value_of d k r (ground (arith, h, differs)) in
      (w ∷ before, behind, ap (λ zs. w ∷ zs) e)
]

sent-resend : (rs : List Report) (o : Outbox) → (resend rs o).sent ≡ o.sent ++ rs
unfolding resend
sent-resend [] o = sym (append-nil o.sent)
sent-resend (r ∷ rs) o = sent-resend rs (send r o) ∙ append_assoc o.sent (r ∷ []) rs

unacked-resend : (rs : List Report) (o : Outbox) → (resend rs o).unacked_events ≡ o.unacked_events
unfolding resend
unacked-resend [] o = refl
unacked-resend (r ∷ rs) o = unacked-resend rs (send r o)

-- A dispatch only adds to what is sent.
sent-dispatch :
    (m : Report) (o : Outbox) → (new : List Report) × ((dispatch m o).sent ≡ o.sent ++ new)
unfolding dispatch
sent-dispatch m o = elim (Bool-cases (is_event m.kind)) [
  | inr e ↦ (m ∷ [], rw e refl)
  | inl e ↦ elim (Bool-cases (is_terminal m.kind)) [
    | inl f ↦ (stamp m (suc o.event_seq) ∷ [], rw (e, f) refl)
    | inr f ↦ (stamp m (suc o.event_seq) ∷ [], rw (e, f) refl)
  ]
]

sent-inquire :
    (qs : List Inquiry) (o : Outbox)
    → (new : List Report) × ((inquire_each qs o).sent ≡ o.sent ++ new)
unfolding inquire_each inquire
sent-inquire [] o = ([], sym (append-nil o.sent))
sent-inquire (q ∷ qs) o =
    let (one, e) = sent-dispatch _ o in
    let (more, f) = sent-inquire qs (inquire q.id q.task q.running o) in
    (one ++ more, f ∙ ap (λ zs. zs ++ more) e ∙ append_assoc o.sent one more)

-- The report of another message, or none at all.
unacked-dispatch :
    (m : Report) (o : Outbox) (id : String)
    → str_eq m.id id ≡ false
    → get (dispatch m o).unacked_events id ≡ get o.unacked_events id
unfolding dispatch
unacked-dispatch m o id h = elim (Bool-cases (is_event m.kind)) [
  | inr e ↦ rw e refl
  | inl e ↦ elim (Bool-cases (is_terminal m.kind)) [
    | inl f ↦ rw (e, f) (get-put _ m.id id _ ∙ rw h refl)
    | inr f ↦ rw (e, f) refl
  ]
]

unfoldable pub AllFresh : String → List Inquiry → Type 0
AllFresh id [] = Unit
AllFresh id (q ∷ qs) = (str_eq q.id id ≡ false) × AllFresh id qs

-- The step neither acknowledges the message of that id nor makes another one of the same id.
abbrev pub Spares : String → Step → Type 0
Spares id (reports m) = str_eq m.id id ≡ false
Spares id (acks event) = str_eq event id ≡ false
Spares id (connects qs) = AllFresh id qs

unfoldable pub AllSpare : String → List Step → Type 0
AllSpare id [] = Unit
AllSpare id (t ∷ ts) = Spares id t × AllSpare id ts

unacked-inquire :
    (qs : List Inquiry) (o : Outbox) (id : String)
    → AllFresh id qs
    → get (inquire_each qs o).unacked_events id ≡ get o.unacked_events id
unfolding inquire_each inquire AllFresh
unacked-inquire [] o id h = refl
unacked-inquire (q ∷ qs) o id h =
    unacked-inquire qs (inquire q.id q.task q.running o) id h.1 ∙ unacked-dispatch _ o id h.0

unacked-after :
    (t : Step) (o : Outbox) (id : String)
    → Spares id t
    → get (after t o).unacked_events id ≡ get o.unacked_events id
unfolding after acknowledge init
unacked-after (reports m) o id h = unacked-dispatch m o id h
unacked-after (acks event) o id h = get-remove o.unacked_events event id ∙ rw h refl
unacked-after (connects qs) o id h =
    unacked-inquire qs _ id h ∙ ap (λ d. get d id) (unacked-resend (values o.unacked_events) o)

unacked-run :
    (ts : List Step) (o : Outbox) (id : String)
    → AllSpare id ts
    → get (run ts o).unacked_events id ≡ get o.unacked_events id
unfolding run AllSpare
unacked-run [] o id h = refl
unacked-run (t ∷ ts) o id h = unacked-run ts (after t o) id h.1 ∙ unacked-after t o id h.0

terminal_event : (k : ReportKind) → is_terminal k ≡ true → is_event k ≡ true
terminal_event no_event h = ground (arith, h)
terminal_event k h = refl

kept :
    (m : Report) (o : Outbox)
    → is_terminal m.kind ≡ true
    → get (dispatch m o).unacked_events m.id ≡ some (stamp m (suc o.event_seq))
unfolding dispatch
kept m o h =
    rw (terminal_event m.kind h, h) (get-put o.unacked_events m.id m.id _ ∙ rw (eq_refl m.id) refl)

init-resends :
    (qs : List Inquiry) (o : Outbox) (id : String) (r : Report)
    → get o.unacked_events id ≡ some r
    → SendsNew o.sent r (init qs o).sent
unfolding init
init-resends qs o id r h =
    let (before, behind, e) = value_of o.unacked_events id r h in
    let (more, f) = sent-inquire qs (resend (values o.unacked_events) o) in
    (
      before,
      behind ++ more,
      f
          ∙ ap (λ zs. zs ++ more)
              (sent-resend (values o.unacked_events) o ∙ ap (λ zs. o.sent ++ zs) e)
          ∙ append_assoc o.sent (before ++ r ∷ behind) more
          ∙ ap (λ zs. o.sent ++ zs) (append_assoc before (r ∷ behind) more),
    )

-- A terminal report is dispatched, and no later step acknowledges it or reuses its id: every later
-- `Init` sends it once more, with the sequence number that it got when it was dispatched.
pub dispatch-resends :
    (m : Report) (ts : List Step) (qs : List Inquiry) (o : Outbox)
    → is_terminal m.kind ≡ true
    → AllSpare m.id ts
    → SendsNew
        (run ts (dispatch m o)).sent
        (stamp m (suc o.event_seq))
        (init qs (run ts (dispatch m o))).sent
dispatch-resends m ts qs o h spare =
    init-resends qs (run ts (dispatch m o)) m.id (stamp m (suc o.event_seq))
      (unacked-run ts (dispatch m o) m.id spare ∙ kept m o h)
