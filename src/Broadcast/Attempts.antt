-- ===== src/Broadcast/Attempts.antt =====
-- What a broadcast does for one websocket (`FastAPIConnectionManager.broadcast_model` of
-- rekuest_next/contrib/fastapi/agent.py).
use rekuest_next.Prelude.{
  String, ◌≡◌, refl, sym, ap, ◌∙◌, inl, inr, Bool, true, false, not, ◌&&◌, ◌||◌, Option, List, [],
  ◌∷◌, ◌++◌, append-nil, arith, str_eq, eq_iff, if◌then◌else◌, Bool-cases, String-cases, filter,
  contains,
}
use rekuest_next.Prelude.Dict.{get, has, put, remove, get-put, get-remove, has-get}
use rekuest_next.Broadcast.Connections.{
  connect, disconnect, wants, broadcast_each, Outgoing, Subscriptions, Connections,
}

-- What the websocket has been sent
unfoldable pub received : String → List (String × Outgoing) → List Outgoing
received w [] = []
received w ((v, m) ∷ sent) = let rest = received w sent in if str_eq v w then m ∷ rest else rest

append-either :
    (xs : List Outgoing) (m : Outgoing) (a b t : Bool)
    → (a && b) ≡ false
    → (a || b) ≡ t
    → (xs ++ (if a then m ∷ [] else [])) ++ (if b then m ∷ [] else [])
      ≡ xs ++ (if t then m ∷ [] else [])
append-either xs m true true t h e = absurd (ground (arith, h))
append-either xs m true false t h e = rw (← e) (append-nil (xs ++ m ∷ []))
append-either xs m false b t h e = rw (append-nil xs) (ap (λ c. xs ++ (if c then m ∷ [] else [])) e)

-- No websocket stands twice in the set.
abbrev pub Single : List String → Type 0
Single [] = Unit
Single (w ∷ ws) = (contains ws w ≡ false) × Single ws

-- Every websocket with subscriptions is active.
abbrev pub Paired : Connections → Type 0
Paired c =
    Single c.active_connections
    × ((w : String) → has c.connections w ≡ true → contains c.active_connections w ≡ true)

contains-filter :
    (ws : List String) (v w : String)
    → contains (filter (λ x. not (str_eq x v)) ws) w ≡ (contains ws w && not (str_eq v w))
contains-filter [] v w = refl
contains-filter (x ∷ xs) v w =
    ground (arith, eq_iff v w, eq_iff x w, eq_iff x v, contains-filter xs v w)

Single-filter :
    (ws : List String) (v : String) → Single ws → Single (filter (λ x. not (str_eq x v)) ws)
Single-filter [] v s = tt
Single-filter (x ∷ xs) v s = elim (Bool-cases (str_eq x v)) [
  | inl e ↦ rw (Single, filter, e) (Single-filter xs v s.1)
  | inr e ↦
      rw (Single, filter, e) ((ground (arith, contains-filter xs v x, s.0), Single-filter xs v s.1))
]

pub Paired-disconnect : (v : String) (c : Connections) → Paired c → Paired (disconnect v c)
Paired-disconnect v c (s, p) = (
  Single-filter c.active_connections v s,
  λ w h. ground (
    arith,
    contains-filter c.active_connections v w,
    has-get (remove c.connections v) w,
    has-get c.connections w,
    get-remove c.connections v w,
    p w,
    h,
  ),
)

pub Paired-connect :
    (v : String) (u : Subscriptions) (c : Connections) → Paired c → Paired (connect v u c)
Paired-connect v u c (s, p) = elim (Bool-cases (contains c.active_connections v)) [
  | inl e ↦ rw e (
    s,
    λ w h. ground (
      arith,
      eq_iff v w,
      get-put c.connections v w u,
      has-get (put c.connections v u) w,
      has-get c.connections w,
      p w,
      e,
      h,
    ),
  )
  | inr e ↦ rw e (
    (e, s),
    λ w h. ground (
      arith,
      eq_iff v w,
      get-put c.connections v w u,
      has-get (put c.connections v u) w,
      has-get c.connections w,
      p w,
      e,
      h,
    ),
  )
]

received-append :
    (w v : String) (m : Outgoing) (sent : List (String × Outgoing))
    → received w (sent ++ (v, m) ∷ []) ≡ received w sent ++ (if str_eq v w then m ∷ [] else [])
unfolding received
received-append w v m [] = ground arith
received-append w v m ((u, n) ∷ sent) = elim (Bool-cases (str_eq u w)) [
  | inl e ↦ rw (received, e) (ap (◌∷◌ n) (received-append w v m sent))
  | inr e ↦ rw (received, e) (received-append w v m sent)
]

module _ (routing_key : Option String → Option String) where
  abbrev pub KeepsBoth : Connections → Connections → Type 0
  KeepsBoth c d = (d.connections ≡ c.connections) × (d.active_connections ≡ c.active_connections)

  -- What an attempt to send a message to a websocket leaves
  abbrev offered : (fails : String → Bool) → Outgoing → String → Connections → Connections
  offered fails m v c =
      if wants routing_key m (get c.connections v) && not (fails v)
      then record c { sent = c.sent ++ (v, m) ∷ [] }
      else c

  offered_lem :
      (fails : String → Bool) (m : Outgoing) (v : String) (c : Connections) (w : String)
      → KeepsBoth c (offered fails m v c)
        × (received w (offered fails m v c).sent
            ≡ received w c.sent
              ++ (if str_eq v w && (wants routing_key m (get c.connections v) && not (fails v))
                  then m ∷ []
                  else []))
  offered_lem fails m v c w =
      elim (Bool-cases (wants routing_key m (get c.connections v) && not (fails v))) [
        | inl e ↦ rw (e, received-append w v m c.sent) ((refl, refl), ground arith)
        | inr e ↦ rw e ((refl, refl), ground (arith, append-nil (received w c.sent)))
      ]

  contains-if :
      (b : Bool) (v : String) (ws : List String) (w : String)
      → contains (if b then v ∷ ws else ws) w ≡ ((b && str_eq v w) || contains ws w)
  contains-if true v ws w = refl
  contains-if false v ws w = refl

  -- What the loop over some websockets does for one of them
  pub broadcast_each_lem :
      (fails : String → Bool) (m : Outgoing) (ws : List String) (c : Connections) (w : String)
      → Single ws
      → let (disconnected, after) = broadcast_each routing_key fails m ws c in
        let wanted = contains ws w && wants routing_key m (get c.connections w) in
        KeepsBoth c after
        × (contains disconnected w ≡ (wanted && fails w))
        × (received w after.sent
            ≡ received w c.sent ++ (if wanted && not (fails w) then m ∷ [] else []))
  unfolding broadcast_each
  broadcast_each_lem fails m [] c w s = ((refl, refl), refl, sym (append-nil _))
  broadcast_each_lem fails m (v ∷ ws) c w s =
      let next = offered fails m v c in
      let (kept, got) = offered_lem fails m v c w in
      let (kept', lost, got') = broadcast_each_lem fails m ws next w s.1 in
      let same = ap (λ d. wants routing_key m (get d w)) kept.0 in
      let lost' = rw same at lost in
      let got' = rw (same, got) at got' in
      let all_kept : KeepsBoth c (broadcast_each routing_key fails m (v ∷ ws) c).1 =
        (kept'.0 ∙ kept.0, kept'.1 ∙ kept.1) in
      elim (String-cases v w) [
        | inl e ↦
            let out : contains ws w ≡ false = rw e at s.0 in
            (
              all_kept,
              rw contains-if (
                  ground (
                    arith,
                    e,
                    eq_iff v w,
                    ap (λ x. wants routing_key m (get c.connections x)) e,
                    ap fails e,
                    out,
                    lost',
                  )),
              got'
                  ∙ append-either (received w c.sent) m _ _ _ (ground (arith, out)) (
                      ground (
                        arith,
                        e,
                        eq_iff v w,
                        ap (λ x. wants routing_key m (get c.connections x)) e,
                        ap fails e,
                        out,
                      )),
            )
        | inr e ↦ (
          all_kept,
          rw contains-if (ground (arith, e, lost')),
          got' ∙ append-either (received w c.sent) m _ _ _ (ground (arith, e)) (ground (arith, e)),
        )
      ]
