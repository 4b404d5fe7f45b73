-- ===== src/Client/Histories.antt =====
-- How often the actor of src/client.rs reports on an operation, by the moves that it makes.
use remote_open_power.Base.{
  ℕ, suc, Bytes, Bool, false, List, [], ◌∷◌, Option, none, some, ◌≡◌, ◌≤◌, ◌+◌, ◌==◌, ◌&&◌, not,
  contains, if◌then◌else◌, Distinct, get, nat_eq, list_eq, refl, arith, Duration, get-insert,
  get-retain, Distinct-insert, Distinct-retain,
}
use remote_open_power.Protocol.Message.{Header, ClientEnvelope, ClientOperation}
use remote_open_power.Client.{Actor, ClientEvent, PendingOperation}
use remote_open_power.Client.Handle.{with_receipt}
use remote_open_power.Client.Commands.{new_operation}
use remote_open_power.Client.Run.{Round, unexpired, run_connected_client}
use remote_open_power.Client.Moves.{
  View, view, IsPlain, Move, Moves, shows, asks, wakes, repeats, receives, observes, prunes, done,
  more,
}
use remote_open_power.Client.Traced.Rounds.{run_connected_client-Traced}

-- The receipts of an attempt of an operation, and the reports that a host of it is online.
unfoldable pub receipts : Bytes → ℕ → List ClientEvent → ℕ
receipts k n [] = 0
receipts k n
      (ClientEvent.command_executed operation_id attempt retry_ticket deadline_ms results
        ∷ events) =
    if (operation_id == k) && (attempt == n) then suc (receipts k n events) else receipts k n events
receipts k n (other ∷ events) = receipts k n events

unfoldable pub onlines : Bytes → ℕ → Bytes → List ClientEvent → ℕ
onlines k n h [] = 0
onlines k n h (ClientEvent.target_online operation_id attempt host_id ∷ events) =
    if (operation_id == k) && (attempt == n) && (host_id == h)
    then suc (onlines k n h events)
    else onlines k n h events
onlines k n h (other ∷ events) = onlines k n h events

abbrev pub wakes_attempt : Bytes → ℕ → ClientEnvelope → Bool
wakes_attempt k n envelope = elim envelope.operation [
  | ClientOperation.wake catalog_version host_ids attempt boot_nonce retry_ticket ↦
      (envelope.request_id == k) && (attempt == n)
  | other ↦ false
]

-- The wake requests of an attempt of an operation.
unfoldable pub requests : Bytes → ℕ → List ClientEnvelope → ℕ
requests k n [] = 0
requests k n (envelope ∷ sent) =
    if wakes_attempt k n envelope then suc (requests k n sent) else requests k n sent

-- An event about no operation counts for none.
receipts_plain :
    (k : Bytes) (n : ℕ) (e : ClientEvent) (events : List ClientEvent)
    → IsPlain e
    → receipts k n (e ∷ events) ≡ receipts k n events
unfolding receipts
receipts_plain k n (ClientEvent.command_executed o a t d r) events plain = absurd plain
receipts_plain k n (ClientEvent.target_online o a h') events plain = absurd plain
receipts_plain k n (ClientEvent.hosts x s) events plain = refl
receipts_plain k n (ClientEvent.statuses x s) events plain = refl
receipts_plain k n ClientEvent.error events plain = refl
receipts_plain k n (ClientEvent.connecting a) events plain = absurd plain
receipts_plain k n (ClientEvent.connection_failed a c d) events plain = absurd plain
receipts_plain k n ClientEvent.connected events plain = absurd plain
receipts_plain k n ClientEvent.disconnected events plain = absurd plain

onlines_plain :
    (k : Bytes) (n : ℕ) (h : Bytes) (e : ClientEvent) (events : List ClientEvent)
    → IsPlain e
    → onlines k n h (e ∷ events) ≡ onlines k n h events
unfolding onlines
onlines_plain k n h (ClientEvent.command_executed o a t d r) events plain = absurd plain
onlines_plain k n h (ClientEvent.target_online o a h') events plain = absurd plain
onlines_plain k n h (ClientEvent.hosts x s) events plain = refl
onlines_plain k n h (ClientEvent.statuses x s) events plain = refl
onlines_plain k n h ClientEvent.error events plain = refl
onlines_plain k n h (ClientEvent.connecting a) events plain = absurd plain
onlines_plain k n h (ClientEvent.connection_failed a c d) events plain = absurd plain
onlines_plain k n h ClientEvent.connected events plain = absurd plain
onlines_plain k n h ClientEvent.disconnected events plain = absurd plain

-- A receipt that may come yet.
abbrev awaited : ℕ → Option PendingOperation → ℕ
awaited n none = 0
awaited n (some operation) = if (operation.attempt == n) && not operation.receipt_seen then 1 else 0

record Receipted (k : Bytes) (n : ℕ) (v : View) : Type 0 where
  distinct_ids : Distinct v.pending
  balance : receipts k n v.events + awaited n (get k v.pending) ≤ requests k n v.sent

move-Receipted :
    (headers : List Header) (k : Bytes) (n : ℕ) (v w : View)
    → Move headers v w
    → Receipted k n v
    → Receipted k n w
unfolding receipts requests
move-Receipted headers k n v _ (shows _ e plain) r = record {
  distinct_ids = r.distinct_ids;
  balance = omega (arith, r.balance, receipts_plain k n e v.events plain);
}
move-Receipted headers k n v _ (asks _ envelope query) r = record {
  distinct_ids = r.distinct_ids;
  balance = ground (arith, r.balance);
}
move-Receipted headers k n v _ (wakes _ m c valid slot order) r = record {
  distinct_ids =
      Distinct-insert c.operation_id (new_operation headers m c) v.pending r.distinct_ids;
  balance =
      ground (arith, r.balance, get-insert c.operation_id k (new_operation headers m c) v.pending);
}
move-Receipted headers k n v _ (repeats _ id operation d h) r =
    let after : PendingOperation = record operation { deadline_ms = some d } in
    record {
      distinct_ids = Distinct-insert id after v.pending r.distinct_ids;
      balance = ground (arith, r.balance, h, get-insert id k after v.pending);
    }
move-Receipted headers k n v _
      (receives _ id operation ticket d results delivered h unseen same_ticket same) r =
    let after = with_receipt operation operation.attempt ticket d results in
    record {
      distinct_ids = Distinct-insert id after v.pending r.distinct_ids;
      balance = ground (arith, r.balance, h, unseen, get-insert id k after v.pending);
    }
move-Receipted headers k n v _ (observes _ id operation host_id delivered h seen accepted new) r =
    let after : PendingOperation = record operation { online = host_id ∷ operation.online } in
    record {
      distinct_ids = Distinct-insert id after v.pending r.distinct_ids;
      balance = ground (arith, r.balance, h, seen, get-insert id k after v.pending);
    }
move-Receipted headers k n v _ (prunes _ now) r = record {
  distinct_ids = Distinct-retain (unexpired now) v.pending r.distinct_ids;
  balance = ground (arith, r.balance, get-retain (unexpired now) k v.pending r.distinct_ids);
}

moves-Receipted :
    (headers : List Header) (k : Bytes) (n : ℕ) (v w : View)
    → Moves headers v w
    → Receipted k n v
    → Receipted k n w
moves-Receipted headers k n v _ (done _) r = r
moves-Receipted headers k n v w (more _ u _ m ms) r =
    moves-Receipted headers k n u w ms (move-Receipted headers k n v u m r)

-- An actor at the start of `run_connected_client`.
pub record IsNew (a : Actor) : Type 0 where
  pub no_pending : a.pending ≡ []
  pub no_requests : a.pending_requests ≡ []
  pub no_events : a.events ≡ []
  pub none_sent : a.sent ≡ []

-- Whatever the rounds of a connection find, the program gets at most as many receipts of an
-- attempt of an operation as the connection sent wake requests of that attempt.
pub receipts-le-requests :
    (headers : List Header) (skew : Duration) (a : Actor) (rounds : List Round) (k : Bytes) (n : ℕ)
    → IsNew a
    → receipts k n (run_connected_client headers skew a rounds).0.events
      ≤ requests k n (run_connected_client headers skew a rounds).0.sent
unfolding receipts requests get
receipts-le-requests headers skew a rounds k n new =
    let start : Receipted k n (view a) = record {
      distinct_ids = rw new.no_pending tt;
      balance = rw (new.no_pending, new.no_events, new.none_sent) (omega arith);
    } in
    let final =
      moves-Receipted headers k n (view a) _ (run_connected_client-Traced headers skew a rounds)
        start in
    omega (arith, final.balance)

-- A host that is not reported yet.
abbrev silent : ℕ → Bytes → Option PendingOperation → ℕ
silent n h none = 0
silent n h (some operation) =
    if (operation.attempt == n) && not (contains operation.online h) then 1 else 0

record Reported (k : Bytes) (n : ℕ) (h : Bytes) (v : View) : Type 0 where
  distinct_ids : Distinct v.pending
  balance : onlines k n h v.events + silent n h (get k v.pending) ≤ requests k n v.sent

move-Reported :
    (headers : List Header) (k : Bytes) (n : ℕ) (h : Bytes) (v w : View)
    → Move headers v w
    → Reported k n h v
    → Reported k n h w
unfolding onlines requests
move-Reported headers k n h v _ (shows _ e plain) r = record {
  distinct_ids = r.distinct_ids;
  balance = omega (arith, r.balance, onlines_plain k n h e v.events plain);
}
move-Reported headers k n h v _ (asks _ envelope query) r = record {
  distinct_ids = r.distinct_ids;
  balance = ground (arith, r.balance);
}
move-Reported headers k n h v _ (wakes _ m c valid slot order) r = record {
  distinct_ids =
      Distinct-insert c.operation_id (new_operation headers m c) v.pending r.distinct_ids;
  balance =
      ground (arith, r.balance, get-insert c.operation_id k (new_operation headers m c) v.pending);
}
move-Reported headers k n h v _ (repeats _ id operation d found) r =
    let after : PendingOperation = record operation { deadline_ms = some d } in
    record {
      distinct_ids = Distinct-insert id after v.pending r.distinct_ids;
      balance = ground (arith, r.balance, found, get-insert id k after v.pending);
    }
move-Reported headers k n h v _
      (receives _ id operation ticket d results delivered found unseen same_ticket same) r =
    let after = with_receipt operation operation.attempt ticket d results in
    record {
      distinct_ids = Distinct-insert id after v.pending r.distinct_ids;
      balance = ground (arith, r.balance, found, get-insert id k after v.pending);
    }
move-Reported headers k n h v _ (observes _ id operation host_id delivered found seen accepted new)
      r =
    let after : PendingOperation = record operation { online = host_id ∷ operation.online } in
    record {
      distinct_ids = Distinct-insert id after v.pending r.distinct_ids;
      balance = ground (arith, r.balance, found, new, get-insert id k after v.pending);
    }
move-Reported headers k n h v _ (prunes _ now) r = record {
  distinct_ids = Distinct-retain (unexpired now) v.pending r.distinct_ids;
  balance = ground (arith, r.balance, get-retain (unexpired now) k v.pending r.distinct_ids);
}

moves-Reported :
    (headers : List Header) (k : Bytes) (n : ℕ) (h : Bytes) (v w : View)
    → Moves headers v w
    → Reported k n h v
    → Reported k n h w
moves-Reported headers k n h v _ (done _) r = r
moves-Reported headers k n h v w (more _ u _ m ms) r =
    moves-Reported headers k n h u w ms (move-Reported headers k n h v u m r)

-- Whatever the rounds of a connection find, the program is told at most as often that a host of an
-- attempt of an operation is online as the connection sent wake requests of that attempt.
pub onlines-le-requests :
    (headers : List Header) (skew : Duration) (a : Actor) (rounds : List Round) (k : Bytes) (n : ℕ)
    (h : Bytes)
    → IsNew a
    → onlines k n h (run_connected_client headers skew a rounds).0.events
      ≤ requests k n (run_connected_client headers skew a rounds).0.sent
unfolding onlines requests get
onlines-le-requests headers skew a rounds k n h new =
    let start : Reported k n h (view a) = record {
      distinct_ids = rw new.no_pending tt;
      balance = rw (new.no_pending, new.no_events, new.none_sent) (omega arith);
    } in
    let final =
      moves-Reported headers k n h (view a) _ (run_connected_client-Traced headers skew a rounds)
        start in
    omega (arith, final.balance)
