-- ===== src/Caller/Tests.antt =====
-- Concrete runs of the agent's postman.
use rekuest_next.Prelude.{
  ℕ, ◌+◌, ◌-◌, min, String, ◌≡◌, refl, ap, inl, true, not, none, some, List, [], ◌∷◌, ◌++◌,
  if◌then◌else◌, take, all,
}
use rekuest_next.Messages.{
  ExecutionEvent, AssignResponse, EventKind, started, completed, yielded, cancelled, progress,
}
use rekuest_next.Prelude.Dict.{get, put}
use rekuest_next.Caller.Responses.{answered, all_answers, AllWait, future-run}
use rekuest_next.Caller.{
  begins, begin_call, pending, AgentPostman, init, run, Step, arrives, registers, takes, ends,
  assigned, mirrored, after,
}
use rekuest_next.Caller.Delivery.{mail, all_taken, all_arriving, AllContinue, mail-run}
use rekuest_next.Caller.Stream.{
  stream, adapted, up_to_terminal, endings, stream_lem, confirm_cancellation,
  confirm_cancellation_lem, cancel_request, interrupt_request, kind_arrives,
}

abbrev mirror_of : String → ℕ → EventKind ℕ → ExecutionEvent ℕ
mirror_of t n k = record { task = t; seq = n; kind = k }

abbrev answer : AssignResponse
answer = record { request = "r1"; task = some "t1"; error = none }

-- A mirror overtakes the answer to the request, another call's mirror comes in between.
abbrev race : List (Step ℕ)
race =
    arrives (mirrored (mirror_of "t1" 1 started))
    ∷ arrives (assigned answer)
    ∷ arrives (mirrored (mirror_of "t2" 1 started))
    ∷ registers "a" "t1"
    ∷ takes "t1"
    ∷ arrives (mirrored (mirror_of "t1" 2 (yielded (some 7))))
    ∷ ends "r2" "b" (some "t2")
    ∷ arrives (mirrored (mirror_of "t1" 3 completed))
    ∷ takes "t1"
    ∷ []

abbrev start : AgentPostman ℕ
start = init

mail-run_example :
    all_taken "t1" race start ++ mail "t1" (run race start)
    ≡ mail "t1" start ++ all_arriving "t1" race
unfolding rekuest_next.Prelude.Dict.get AllContinue
mail-run_example =
    mail-run "t1" race start (inl refl) (tt, (tt, (tt, (tt, (tt, (tt, (refl, (tt, (tt, tt)))))))))

abbrev story : List (ExecutionEvent ℕ)
story =
    mirror_of "t1" 1 started
    ∷ mirror_of "t1" 2 (yielded (some 7))
    ∷ mirror_of "t1" 3 completed
    ∷ mirror_of "t1" 4 progress
    ∷ []

stream_lem_example :
    ((stream story).events ≡ adapted (up_to_terminal story))
    × (up_to_terminal story ++ (stream story).queue ≡ story)
    × (endings (stream story).events ≡ (if (stream story).returned then 1 else 0))
stream_lem_example = stream_lem story

confirm_cancellation_lem_example :
    confirm_cancellation "t1" true
      (mirror_of "t1" 1 progress ∷ [])
      (mirror_of "t1" 2 cancelled ∷ [])
    ≡ (cancel_request "t1" ∷ interrupt_request "t1" ∷ [], true)
unfolding kind_arrives
confirm_cancellation_lem_example =
    confirm_cancellation_lem "t1" true (mirror_of "t1" 1 progress ∷ [])
      (mirror_of "t1" 2 cancelled ∷ [])

abbrev waiting : AgentPostman ℕ
waiting = after (begins "r1") start

-- A second answer to the same request arrives, and another call ends.
abbrev answers_twice : List (Step ℕ)
answers_twice =
    arrives (assigned (record { request = "r2"; task = some "t2"; error = none }))
    ∷ arrives (assigned answer)
    ∷ ends "r2" "b" (some "t2")
    ∷ arrives (assigned (record { request = "r1"; task = none; error = some "late" }))
    ∷ []

future-run_example :
    get (run answers_twice waiting).pending_responses "r1"
    ≡ some (answered pending (all_answers "r1" answers_twice))
unfolding rekuest_next.Prelude.Dict.get rekuest_next.Prelude.Dict.put after begin_call AllWait
future-run_example = future-run "r1" answers_twice waiting pending refl (tt, (tt, (refl, (tt, tt))))
