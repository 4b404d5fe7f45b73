-- ===== src/Client/Bounds.antt =====
-- How many operations the actor of src/client.rs keeps.
use remote_open_power.Base.{
  Bytes, true, List, ◌∷◌, some, ◌≡◌, ◌<◌, ◌≤◌, Dict, Distinct, insert, contains_key, length, nat_eq,
  list_eq, arith, inl, inr, ◌⊎◌, Duration, Distinct-insert, Distinct-retain, length-insert,
  length-retain-le,
}
use remote_open_power.Protocol.Message.{Header}
use remote_open_power.Client.{Actor, PendingOperation, max_pending_operations}
use remote_open_power.Client.Handle.{with_receipt}
use remote_open_power.Client.Commands.{new_operation}
use remote_open_power.Client.Run.{Round, unexpired, run_connected_client}
use remote_open_power.Client.Moves.{
  View, view, Move, Moves, shows, asks, wakes, repeats, receives, observes, prunes, done, more,
}
use remote_open_power.Client.Traced.Rounds.{run_connected_client-Traced}
use remote_open_power.Client.Histories.{IsNew}

abbrev pub IsBounded : Dict Bytes PendingOperation → Type 0
IsBounded pending = Distinct pending × (length pending ≤ max_pending_operations)

insert-IsBounded :
    (k : Bytes) (operation : PendingOperation) (pending : Dict Bytes PendingOperation)
    → (length pending < max_pending_operations) ⊎ (contains_key k pending ≡ true)
    → IsBounded pending
    → IsBounded (insert k operation pending)
insert-IsBounded k operation pending (inl room) (d, b) =
    (Distinct-insert k operation pending d, ground (arith, room, length-insert k operation pending))
insert-IsBounded k operation pending (inr known) (d, b) = (
  Distinct-insert k operation pending d,
  ground (arith, known, b, length-insert k operation pending),
)

move-IsBounded :
    (headers : List Header) (v w : View)
    → Move headers v w
    → IsBounded v.pending
    → IsBounded w.pending
move-IsBounded headers v _ (shows _ e plain) b = b
move-IsBounded headers v _ (asks _ envelope query) b = b
move-IsBounded headers v _ (wakes _ m c valid slot order) b =
    insert-IsBounded c.operation_id (new_operation headers m c) v.pending slot b
move-IsBounded headers v _ (repeats _ id operation d h) b =
    insert-IsBounded id (record operation { deadline_ms = some d }) v.pending
      (inr (ground (arith, h))) b
move-IsBounded headers v _
      (receives _ id operation ticket d results delivered h unseen same_ticket same) b =
    insert-IsBounded id (with_receipt operation operation.attempt ticket d results) v.pending
      (inr (ground (arith, h))) b
move-IsBounded headers v _ (observes _ id operation host_id delivered h seen accepted new) b =
    insert-IsBounded id (record operation { online = host_id ∷ operation.online }) v.pending
      (inr (ground (arith, h))) b
move-IsBounded headers v _ (prunes _ now) (d, b) = (
  Distinct-retain (unexpired now) v.pending d,
  ground (arith, b, length-retain-le (unexpired now) v.pending),
)

moves-IsBounded :
    (headers : List Header) (v w : View)
    → Moves headers v w
    → IsBounded v.pending
    → IsBounded w.pending
moves-IsBounded headers v _ (done _) b = b
moves-IsBounded headers v w (more _ u _ m ms) b =
    moves-IsBounded headers u w ms (move-IsBounded headers v u m b)

-- Whatever the rounds of a connection find, the actor keeps at most 32 operations, each once.
pub run_connected_client-IsBounded :
    (headers : List Header) (skew : Duration) (a : Actor) (rounds : List Round)
    → IsNew a
    → IsBounded (run_connected_client headers skew a rounds).0.pending
run_connected_client-IsBounded headers skew a rounds new =
    moves-IsBounded headers (view a) _ (run_connected_client-Traced headers skew a rounds)
      (rw new.no_pending (tt, omega arith))
