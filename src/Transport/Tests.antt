-- ===== src/Transport/Tests.antt =====
-- Runs of the connection task of rekuest_next/agents/transport/websocket.py.
use rekuest_next.Prelude.{◌≤◌, ◌≡◌, refl, true, false, List, [], ◌∷◌, ◌++◌}
use rekuest_next.Transport.{
  opened, ending_failure, receive, attempt_once, recover, run_round, connect_and_receive,
  connection_loop, areceive, heartbeat, bounce, kick, payload, closed_ok, session, definite, Round,
  round, running, raised, failing, Config,
}
use rekuest_next.Transport.Retries.{
  repeat, refused_round, connect_and_receive-retry, connect_and_receive-refused,
}

abbrev config : Config
config = record { max_retries = 1; allow_reconnect = true }

-- A connection that is bounced after a payload, a refused attempt, and one that is kicked.
abbrev rounds : List Round
rounds =
    round false (session (payload 4 ∷ heartbeat ∷ bounce ∷ payload 5 ∷ []) closed_ok) false
    ∷ refused_round
    ∷ round false (session (payload 6 ∷ kick ∷ []) closed_ok) false
    ∷ round false (session (payload 7 ∷ []) closed_ok) false
    ∷ []

kicked_run :
    areceive (connection_loop config rounds opened).in_queue ≡ (4 ∷ 6 ∷ [], failing definite)
unfolding areceive connection_loop connect_and_receive run_round recover attempt_once receive
    ending_failure
kicked_run = refl

connect_and_receive-retry_example : (connect_and_receive config rounds opened).1.retry ≤ 2
connect_and_receive-retry_example = connect_and_receive-retry config rounds

connect_and_receive-refused_example :
    ((connect_and_receive config (repeat 2 refused_round) opened).0 ≡ running)
    × ((connect_and_receive config (repeat 2 refused_round ++ refused_round ∷ rounds) opened).0
        ≡ raised definite)
connect_and_receive-refused_example = connect_and_receive-refused config rounds refl
