-- ===== src/Reports/Tests.antt =====
-- A concrete outbox over a reconnect.
use rekuest_next.Prelude.{String, refl, true, none, List, [], ◌∷◌}
use rekuest_next.Reports.{
  Report, ReportKind, Outbox, stamp, dispatch, init, Step, reports, acks, connects, run, completed,
  progress, Inquiry,
}
use rekuest_next.Reports.Retention.{SendsNew, AllSpare, AllFresh, dispatch-resends}

abbrev report_of : String → ReportKind → Report
report_of i k = record { id = i; task = "t1"; kind = k; seq = none }

abbrev outbox : Outbox
outbox = record {
  event_seq = 4;
  unacked_events = [];
  managed_assignments = ("t1", "stage") ∷ [];
  sent = [];
}

abbrev asked : List Inquiry
asked = record { id = "q"; task = "t1"; running = true } ∷ []

abbrev story : List Step
story =
    reports (report_of "b" progress)
    ∷ acks "z"
    ∷ connects asked
    ∷ reports (report_of "c" completed)
    ∷ acks "c"
    ∷ []

dispatch-resends_example :
    SendsNew
      (run story (dispatch (report_of "a" completed) outbox)).sent
      (stamp (report_of "a" completed) 5)
      (init asked (run story (dispatch (report_of "a" completed) outbox))).sent
unfolding AllSpare AllFresh
dispatch-resends_example =
    dispatch-resends (report_of "a" completed) story asked outbox refl
      (refl, (refl, ((refl, tt), (refl, (refl, tt)))))
