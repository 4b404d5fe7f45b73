-- ===== src/Client/Backoff/Paced.antt =====
-- The attempts of `client_actor` of src/client.rs are numbered, and the pauses grow with the number.
use remote_open_power.Base.{
  ℕ, zero, suc, true, false, List, [], ◌∷◌, ◌++◌, All, Option, none, some, ◌≡◌, ◌≤◌, ◌+◌, ◌-◌, min,
  ltb, leb, if◌then◌else◌, Instant, Duration, from_secs, refl, sym, arith, Bool-cases, Option-cases,
  inl, inr,
}
use remote_open_power.Protocol.Message.{Header}
use remote_open_power.Client.{ClientEvent, ClientConnectionErrorCode}
use remote_open_power.Client.Commands.{ConnectedClientExit}
use remote_open_power.Client.Run.{Round, run_connected_client}
use remote_open_power.Client.Moves.{
  View, view, IsPlain, Move, Moves, shows, asks, wakes, repeats, receives, observes, prunes, done,
  more,
}
use remote_open_power.Client.Traced.Rounds.{run_connected_client-Traced}
use remote_open_power.Client.Backoff.{
  u32_max, at, reconnect_delays_seconds, reconnect_delay, Waited, wait_for_reconnect, Found, Try,
  report_connection_failure, finish, started, retry, session, attempted, client_actor,
}

-- The number that the next attempt has after these events, the latest first.
abbrev pub next_attempt : List ClientEvent → ℕ
next_attempt [] = 1
next_attempt (ClientEvent.connection_failed attempt code retry_after ∷ events) =
    min (attempt + 1) u32_max
next_attempt (ClientEvent.connected ∷ events) = 1
next_attempt (other ∷ events) = next_attempt events

-- Each attempt has the number that is next, and the pause after it is that of its number.
abbrev pub IsPaced : List ClientEvent → Type 0
IsPaced [] = Unit
IsPaced (ClientEvent.connecting attempt ∷ events) = (attempt ≡ next_attempt events) × IsPaced events
IsPaced (ClientEvent.connection_failed attempt code retry_after ∷ events) =
    (attempt ≡ next_attempt events) × (reconnect_delay attempt ≡ some retry_after) × IsPaced events
IsPaced (other ∷ events) = IsPaced events

-- The table as tests.
abbrev seconds : ℕ → ℕ
seconds a =
    if ltb a 2 then 2 else if ltb a 3 then 5 else if ltb a 4 then 10 else if ltb a 5 then 20 else 30

delay_index : (a : ℕ) → at reconnect_delays_seconds (min (a - 1) 4) ≡ some (seconds a)
delay_index zero = refl
delay_index (suc zero) = refl
delay_index (suc (suc zero)) = refl
delay_index (suc (suc (suc zero))) = refl
delay_index (suc (suc (suc (suc zero)))) = refl
delay_index (suc (suc (suc (suc (suc n))))) =
    let last : min (suc (suc (suc (suc (suc n)))) - 1) 4 ≡ 4 = omega arith in rw last (ground arith)

reconnect_delay_total : (a : ℕ) → reconnect_delay a ≡ some (from_secs (seconds a))
unfolding reconnect_delay
reconnect_delay_total a = ground (arith, delay_index a)

-- The pause after an attempt exists, is at least two seconds and at most thirty, and is not shorter
-- after a later attempt.
reconnect_delay_mono :
    (a b : ℕ)
    → a ≤ b
    → (d e : Duration) × (reconnect_delay a ≡ some d)
      × (reconnect_delay b ≡ some e)
      × (from_secs 2 ≤ d)
      × (d ≤ e)
      × (e ≤ from_secs 30)
reconnect_delay_mono a b h = (
  from_secs (seconds a),
  from_secs (seconds b),
  reconnect_delay_total a,
  reconnect_delay_total b,
  ground arith,
  ground (arith, h),
  ground arith,
)

-- An event of an established connection.
abbrev IsSession : ClientEvent → Type 0
IsSession (ClientEvent.connecting attempt) = ⊥
IsSession (ClientEvent.connection_failed attempt code retry_after) = ⊥
IsSession ClientEvent.connected = ⊥
IsSession ClientEvent.disconnected = ⊥
IsSession other = Unit

plain-IsSession : (e : ClientEvent) → IsPlain e → IsSession e
plain-IsSession (ClientEvent.hosts v s) p = tt
plain-IsSession (ClientEvent.statuses v s) p = tt
plain-IsSession ClientEvent.error p = tt
plain-IsSession (ClientEvent.connecting a) p = p
plain-IsSession (ClientEvent.connection_failed a c d) p = p
plain-IsSession ClientEvent.connected p = p
plain-IsSession ClientEvent.disconnected p = p
plain-IsSession (ClientEvent.command_executed o a t d r) p = tt
plain-IsSession (ClientEvent.target_online o a h) p = tt

move-IsSession :
    (headers : List Header) (v w : View)
    → Move headers v w
    → All IsSession v.events
    → All IsSession w.events
move-IsSession headers v _ (shows _ e plain) s = (plain-IsSession e plain, s)
move-IsSession headers v _ (asks _ envelope query) s = s
move-IsSession headers v _ (wakes _ m c valid slot order) s = s
move-IsSession headers v _ (repeats _ id operation d h) s = s
move-IsSession headers v _ (receives _ id operation ticket d results true h unseen same_ticket same)
      s =
    (tt, s)
move-IsSession headers v _
      (receives _ id operation ticket d results false h unseen same_ticket same) s =
    s
move-IsSession headers v _ (observes _ id operation host_id true h seen accepted new) s = (tt, s)
move-IsSession headers v _ (observes _ id operation host_id false h seen accepted new) s = s
move-IsSession headers v _ (prunes _ now) s = s

moves-IsSession :
    (headers : List Header) (v w : View)
    → Moves headers v w
    → All IsSession v.events
    → All IsSession w.events
moves-IsSession headers v _ (done _) s = s
moves-IsSession headers v w (more _ u _ m ms) s =
    moves-IsSession headers u w ms (move-IsSession headers v u m s)

-- The events, with the number of the next attempt.
abbrev Numbered : ℕ → List ClientEvent → Type 0
Numbered n events = IsPaced events × (next_attempt events ≡ n)

session-Numbered :
    (s events : List ClientEvent) (n : ℕ)
    → All IsSession s
    → Numbered n events
    → Numbered n (s ++ events)
session-Numbered [] events n i p = p
session-Numbered (ClientEvent.hosts v x ∷ s) events n i p = session-Numbered s events n i.1 p
session-Numbered (ClientEvent.statuses v x ∷ s) events n i p = session-Numbered s events n i.1 p
session-Numbered (ClientEvent.error ∷ s) events n i p = session-Numbered s events n i.1 p
session-Numbered (ClientEvent.command_executed o a t d r ∷ s) events n i p =
    session-Numbered s events n i.1 p
session-Numbered (ClientEvent.target_online o a h ∷ s) events n i p =
    session-Numbered s events n i.1 p
session-Numbered (ClientEvent.connecting a ∷ s) events n i p = absurd i.0
session-Numbered (ClientEvent.connection_failed a c d ∷ s) events n i p = absurd i.0
session-Numbered (ClientEvent.connected ∷ s) events n i p = absurd i.0
session-Numbered (ClientEvent.disconnected ∷ s) events n i p = absurd i.0

wait-Numbered :
    (events : List ClientEvent) (deadline : Instant) (waits : List (Instant × Waited)) (n : ℕ)
    → Numbered n events
    → Numbered n (wait_for_reconnect events deadline waits).0
unfolding wait_for_reconnect
wait-Numbered events deadline [] n p = p
wait-Numbered events deadline ((now, Waited.shutdown) ∷ waits) n p =
    elim (Bool-cases (leb deadline now)) [ inl over ↦ rw over p | inr left ↦ rw left (p) ]
wait-Numbered events deadline ((now, Waited.disconnected) ∷ waits) n p =
    elim (Bool-cases (leb deadline now)) [ inl over ↦ rw over p | inr left ↦ rw left (p) ]
wait-Numbered events deadline ((now, Waited.refresh) ∷ waits) n p =
    elim (Bool-cases (leb deadline now)) [
      | inl over ↦ rw over p
      | inr left ↦ rw left (wait-Numbered events deadline waits n p)
    ]
wait-Numbered events deadline ((now, Waited.timeout) ∷ waits) n p =
    elim (Bool-cases (leb deadline now)) [ inl over ↦ rw over p | inr left ↦ rw left (p) ]
wait-Numbered events deadline ((now, Waited.wake true) ∷ waits) n p =
    elim (Bool-cases (leb deadline now)) [
      | inl over ↦ rw over p
      | inr left ↦ rw left (wait-Numbered (ClientEvent.error ∷ events) deadline waits n p)
    ]
wait-Numbered events deadline ((now, Waited.wake false) ∷ waits) n p =
    elim (Bool-cases (leb deadline now)) [ inl over ↦ rw over p | inr left ↦ rw left (p) ]

finish-IsPaced : (events : List ClientEvent) (t : Try) → IsPaced events → IsPaced (finish events t)
finish-IsPaced events t p = elim (Bool-cases t.disconnect_delivered) [
  | inl d ↦ rw d p
  | inr d ↦ rw d p
]

-- What follows an attempt keeps the numbers.
abbrev Continues : (ℕ → List ClientEvent → List ClientEvent) → Type 0
Continues next = (n : ℕ) (events : List ClientEvent) → Numbered n events → IsPaced (next n events)

retry-IsPaced :
    (events : List ClientEvent) (t : Try) (n : ℕ) (code : ClientConnectionErrorCode)
    (next : ℕ → List ClientEvent → List ClientEvent)
    → Continues next
    → Numbered n events
    → IsPaced (retry events t n code next)
unfolding retry report_connection_failure
retry-IsPaced events t n code next k p = elim (Option-cases (reconnect_delay n)) [
  | inl panic ↦
      let e : retry events t n code next ≡ finish events t = ground (arith, panic) in
      rw e (finish-IsPaced events t p.0)
  | inr (d, found) ↦ elim (Bool-cases t.failure_delivered) [
    | inr lost ↦
        let e : retry events t n code next ≡ finish events t = ground (arith, found, lost) in
        rw e (finish-IsPaced events t p.0)
    | inl told ↦
        let failed : List ClientEvent = ClientEvent.connection_failed n code d ∷ events in
        let waited = wait_for_reconnect failed (t.failed_at + d) t.waits in
        let numbered : Numbered (min (n + 1) u32_max) waited.0 =
          wait-Numbered failed (t.failed_at + d) t.waits (min (n + 1) u32_max)
            ((sym p.1, found, p.0), refl) in
        elim (Bool-cases waited.1) [
          | inl again ↦
              let e : retry events t n code next ≡ next (min (n + 1) u32_max) waited.0 =
                ground (arith, found, told, again) in
              rw e (k (min (n + 1) u32_max) waited.0 numbered)
          | inr over ↦
              let e : retry events t n code next ≡ finish waited.0 t =
                ground (arith, found, told, over) in
              rw e (finish-IsPaced waited.0 t numbered.0)
        ]
  ]
]

module _ (headers : List Header) (skew : Duration) where
  ran-Numbered :
      (t : Try) (rounds : List Round) (events : List ClientEvent)
      → IsPaced events
      → Numbered 1 (
          (run_connected_client headers skew (started t.connected_at) rounds).0.events
          ++ (ClientEvent.connected ∷ events))
  ran-Numbered t rounds events p =
      let moves = run_connected_client-Traced headers skew (started t.connected_at) rounds in
      session-Numbered (run_connected_client headers skew (started t.connected_at) rounds).0.events
        (ClientEvent.connected ∷ events) 1
        (moves-IsSession headers (view (started t.connected_at)) _ moves tt) (p, refl)

  exit-IsPaced :
      (events : List ClientEvent) (t : Try) (rounds : List Round)
      (next : ℕ → List ClientEvent → List ClientEvent) (exit : Option ConnectedClientExit)
      → t.connected_delivered ≡ true
      → (run_connected_client headers skew (started t.connected_at) rounds).1 ≡ exit
      → Continues next
      → IsPaced events
      → IsPaced (session headers skew events t rounds next)
  unfolding session
  exit-IsPaced events t rounds next none told h k p =
      let ran = ran-Numbered t rounds events p in
      let e : session headers skew events t rounds next
          ≡ (run_connected_client headers skew (started t.connected_at) rounds).0.events
            ++ (ClientEvent.connected ∷ events) =
        ground (arith, told, h) in
      rw e ran.0
  exit-IsPaced events t rounds next (some ConnectedClientExit.shutdown) told h k p =
      let ran = ran-Numbered t rounds events p in
      let after =
        (run_connected_client headers skew (started t.connected_at) rounds).0.events
        ++ (ClientEvent.connected ∷ events) in
      let e : session headers skew events t rounds next ≡ finish after t =
        ground (arith, told, h) in
      rw e (finish-IsPaced after t ran.0)
  exit-IsPaced events t rounds next (some (ConnectedClientExit.lost code)) told h k p =
      let ran = ran-Numbered t rounds events p in
      let after =
        (run_connected_client headers skew (started t.connected_at) rounds).0.events
        ++ (ClientEvent.connected ∷ events) in
      let e : session headers skew events t rounds next ≡ retry after t 1 code next =
        ground (arith, told, h) in
      rw e (retry-IsPaced after t 1 code next k ran)

  session-IsPaced :
      (events : List ClientEvent) (t : Try) (rounds : List Round)
      (next : ℕ → List ClientEvent → List ClientEvent)
      → Continues next
      → IsPaced events
      → IsPaced (session headers skew events t rounds next)
  unfolding session
  session-IsPaced events t rounds next k p = elim (Bool-cases t.connected_delivered) [
    | inr lost ↦
        let e : session headers skew events t rounds next ≡ events = ground (arith, lost) in rw e p
    | inl told ↦
        exit-IsPaced events t rounds next
          (run_connected_client headers skew (started t.connected_at) rounds).1 told refl k p
  ]

  attempted-IsPaced :
      (n : ℕ) (events : List ClientEvent) (t : Try) (found : Found)
      (next : ℕ → List ClientEvent → List ClientEvent)
      → Continues next
      → Numbered n events
      → IsPaced (attempted headers skew n events t found next)
  attempted-IsPaced n events t Found.unresolved next k p =
      retry-IsPaced events t n ClientConnectionErrorCode.resolve next k p
  attempted-IsPaced n events t Found.unreachable next k p =
      retry-IsPaced events t n ClientConnectionErrorCode.connect next k p
  attempted-IsPaced n events t Found.stopped next k p = finish-IsPaced events t p.0
  attempted-IsPaced n events t Found.unsecured next k p =
      retry-IsPaced events t n ClientConnectionErrorCode.handshake next k p
  attempted-IsPaced n events t (Found.established rounds) next k p =
      session-IsPaced events t rounds next k p.0

  client_actor-Numbered :
      (n : ℕ) (events : List ClientEvent) (tries : List Try)
      → Numbered n events
      → IsPaced (client_actor headers skew n events tries)
  unfolding client_actor
  client_actor-Numbered n events [] p = p.0
  client_actor-Numbered n events (t ∷ tries) p = elim (Bool-cases t.connecting_delivered) [
    | inl told ↦ simp told (
        attempted-IsPaced n (ClientEvent.connecting n ∷ events) t t.found
          (λ m es. client_actor headers skew m es tries)
          (λ m es q. client_actor-Numbered m es tries q) ((sym p.1, p.0), p.1))
    | inr lost ↦ rw lost p.0
  ]

  -- Whatever the attempts find, each has the number one more than the failures since the last
  -- connection, up to the largest `u32`, and the pause told after a failure is that of its number.
  pub client_actor-IsPaced : (tries : List Try) → IsPaced (client_actor headers skew 1 [] tries)
  client_actor-IsPaced tries = client_actor-Numbered 1 [] tries (tt, refl)
