-- ===== src/Transport/Retries.antt =====
-- How often the connection task of rekuest_next/agents/transport/websocket.py tries again.
use rekuest_next.Prelude.{
  ℕ, zero, suc, ◌+◌, ◌≤◌, ◌<◌, ◌≡◌, refl, sym, ap, ◌∙◌, Bool, true, false, Option, none, some, List,
  [], ◌∷◌, ◌++◌, append-nil, arith,
}
use rekuest_next.Transport.{
  opened, put_nowait, answer_heartbeat, ending_failure, receive, attempt_once, recover, run_round,
  connect_and_receive, Frame, heartbeat, bounce, kick, invalid, unreadable, payload, Ending,
  closed_ok, Attempt, refused, failed, session, Failure, correctable, definite, was_kicked,
  already_busy, was_blocked, Round, round, message, Outcome, running, raised, Verdict, again, stop,
  Config, Transport,
}

-- The same round over and over
abbrev pub repeat : ℕ → Round → List Round
repeat zero r = []
repeat (suc n) r = r ∷ repeat n r

abbrev pub refused_round : Round
refused_round = round false refused false

-- A connection that the backend closes normally, before any message.
abbrev pub closed_round : Round
closed_round = round false (session [] closed_ok) false

receive-retry : (fs : List Frame) (e : Ending) (t : Transport) → (receive fs e t).1.retry ≡ t.retry
unfolding receive
receive-retry [] e t = refl
receive-retry (heartbeat ∷ fs) e t = receive-retry fs e (answer_heartbeat t)
receive-retry (bounce ∷ fs) e t = refl
receive-retry (kick ∷ fs) e t = refl
receive-retry (unreadable ∷ fs) e t = refl
receive-retry (invalid ∷ fs) e t = receive-retry fs e t
receive-retry (payload m ∷ fs) e t = receive-retry fs e (put_nowait (message m) t)

attempt_once-bounded : (a : Attempt) (t : Transport) → (attempt_once a t).1.retry ≤ t.retry
unfolding attempt_once
attempt_once-bounded refused t = omega arith
attempt_once-bounded failed t = omega arith
attempt_once-bounded (session fs e) t = omega (arith, receive-retry fs e (record t { retry = 0 }))

abbrev verdict_retry : Verdict → ℕ
verdict_retry (again u) = u.retry
verdict_retry (stop o u) = u.retry

recover-bounded :
    (c : Config) (b : Bool) (f : Option Failure) (u : Transport)
    → u.retry ≤ suc c.max_retries
    → verdict_retry (recover c b f u) ≤ suc c.max_retries
unfolding recover
recover-bounded c b none u h = h
recover-bounded c b (some correctable) u h = ground (arith, h)
recover-bounded c b (some definite) u h = h
recover-bounded c b (some was_kicked) u h = h
recover-bounded c b (some already_busy) u h = h
recover-bounded c b (some was_blocked) u h = h

abbrev go_on : Config → List Round → Verdict → Outcome × Transport
go_on c rs (again u) = connect_and_receive c rs u
go_on c rs (stop o u) = (o, u)

next_bounded :
    (c : Config) (rs : List Round) (v : Verdict)
    → ((u : Transport)
        → u.retry ≤ suc c.max_retries
        → (connect_and_receive c rs u).1.retry ≤ suc c.max_retries)
    → verdict_retry v ≤ suc c.max_retries
    → (go_on c rs v).1.retry ≤ suc c.max_retries
next_bounded c rs (again u) rest k = rest u k
next_bounded c rs (stop o u) rest k = k

bounded_from :
    (c : Config) (rs : List Round) (t : Transport)
    → t.retry ≤ suc c.max_retries
    → (connect_and_receive c rs t).1.retry ≤ suc c.max_retries
unfolding connect_and_receive run_round
bounded_from c [] t h = h
bounded_from c (round true a d ∷ rs) t h = h
bounded_from c (round false a d ∷ rs) t h =
    next_bounded c rs (recover c d (attempt_once a t).0 (attempt_once a t).1) (bounded_from c rs) (
      recover-bounded c d (attempt_once a t).0 (attempt_once a t).1
        (omega (arith, h, attempt_once-bounded a t)))

-- Over every configuration and every run of the connection task, the number of retries never exceeds
-- `max_retries` by more than one.
pub connect_and_receive-retry :
    (c : Config) (rs : List Round) → (connect_and_receive c rs opened).1.retry ≤ suc c.max_retries
connect_and_receive-retry c rs = bounded_from c rs opened (omega arith)

recover_again :
    (c : Config) (t : Transport)
    → c.allow_reconnect ≡ true
    → t.retry ≤ c.max_retries
    → recover c false (some correctable) t ≡ again (record t { retry = suc t.retry })
unfolding recover
recover_again c t a h = ground (arith, a, h)

recover_stop :
    (c : Config) (t : Transport)
    → c.max_retries < t.retry
    → recover c false (some correctable) t ≡ stop (raised definite) t
unfolding recover
recover_stop c t h = ground (arith, h)

refused_while :
    (c : Config) (n m : ℕ) (rs : List Round) (t : Transport)
    → c.allow_reconnect ≡ true
    → m ≡ t.retry + n
    → m ≤ suc c.max_retries
    → connect_and_receive c (repeat n refused_round ++ rs) t
      ≡ connect_and_receive c rs (record t { retry = m })
unfolding connect_and_receive run_round attempt_once
refused_while c zero m rs t a e h = let same : m ≡ t.retry = omega arith in rw same refl
refused_while c (suc n) m rs t a e h =
    rw (recover_again c t a (omega (arith, e, h)), connect_and_receive)
      (refused_while c n m rs (record t { retry = suc t.retry }) a (omega (arith, e)) h)

refused_last :
    (c : Config) (rs : List Round) (t : Transport)
    → t.retry ≡ suc c.max_retries
    → connect_and_receive c (refused_round ∷ rs) t ≡ (raised definite, t)
unfolding connect_and_receive run_round attempt_once
refused_last c rs t e = rw (recover_stop c t (omega (arith, e)), connect_and_receive) refl

-- Where reconnecting is allowed and every attempt fails with an InvalidHandshake, the connection task still runs after
-- `max_retries` + 1 attempts and no fewer, and it ends with a DefiniteConnectionFail at the next one,
-- whatever would follow.
pub connect_and_receive-refused :
    (c : Config) (rs : List Round)
    → c.allow_reconnect ≡ true
    → ((connect_and_receive c (repeat (suc c.max_retries) refused_round) opened).0 ≡ running)
      × ((connect_and_receive c
            (repeat (suc c.max_retries) refused_round ++ refused_round ∷ rs)
            opened).0
          ≡ raised definite)
unfolding connect_and_receive
connect_and_receive-refused c rs a =
    let spent : Transport = record opened { retry = suc c.max_retries } in
    (
      ap (λ (x : Outcome × Transport). x.0)
          (ap (λ xs. connect_and_receive c xs opened)
              (sym (append-nil (repeat (suc c.max_retries) refused_round)))
            ∙ refused_while c (suc c.max_retries) (suc c.max_retries) [] opened a (omega arith)
                (omega arith)),
      ap (λ (x : Outcome × Transport). x.0)
          (refused_while c (suc c.max_retries) (suc c.max_retries) (refused_round ∷ rs) opened a
              (omega arith) (omega arith)
            ∙ refused_last c rs spent refl),
    )

-- A connection that the backend closes normally is opened again at once and any number of times, also
-- where reconnecting is not allowed, and none of it counts as a retry.
pub connect_and_receive-closed :
    (c : Config) (n : ℕ) → connect_and_receive c (repeat n closed_round) opened ≡ (running, opened)
unfolding connect_and_receive run_round recover attempt_once receive ending_failure
connect_and_receive-closed c zero = refl
connect_and_receive-closed c (suc n) = connect_and_receive-closed c n
