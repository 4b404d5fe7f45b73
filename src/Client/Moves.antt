-- ===== src/Client/Moves.antt =====
-- What the actor of src/client.rs does to its operations, as a step relation on the part of its
-- state that its histories are about.
use remote_open_power.Base.{
  ℕ, Bytes, Bool, true, false, List, ◌∷◌, map, some, ◌≡◌, ◌<◌, ◌⊎◌, collect, length, contains,
  if◌then◌else◌, Dict, get, insert, retain, contains_key, is_some_and, nat_eq, list_eq, Instant,
}
use remote_open_power.Protocol.Message.{Header, ClientEnvelope, ClientOperation, WakeResult}
use remote_open_power.Client.{Actor, Moment, ClientEvent, PendingOperation, max_pending_operations}
use remote_open_power.Client.Handle.{with_receipt, same_set}
use remote_open_power.Client.Commands.{
  WakeCommand, wake_envelope, new_operation, out_of_order, invalid_wake,
}
use remote_open_power.Client.Run.{unexpired}

pub record View : Type 0 where
  pub pending : Dict Bytes PendingOperation
  pub events : List ClientEvent
  pub sent : List ClientEnvelope

abbrev pub view : Actor → View
view a = record { pending = a.pending; events = a.events; sent = a.sent }

-- An event of an established connection that is about no operation.
abbrev pub IsPlain : ClientEvent → Type 0
IsPlain (ClientEvent.hosts catalog_version summaries) = Unit
IsPlain (ClientEvent.statuses catalog_version reports) = Unit
IsPlain ClientEvent.error = Unit
IsPlain other = ⊥

abbrev pub IsQuery : ClientOperation → Type 0
IsQuery (ClientOperation.wake catalog_version host_ids attempt boot_nonce retry_ticket) = ⊥
IsQuery other = Unit

abbrev pub shown : Bool → ClientEvent → List ClientEvent → List ClientEvent
shown delivered e events = if delivered then e ∷ events else events

pub data Move (configured_headers : List Header) : View → View → Type 0 where
  shows :
      (v : View) (e : ClientEvent)
      → IsPlain e
      → Move configured_headers v (record v { events = e ∷ v.events })
  asks :
      (v : View) (envelope : ClientEnvelope)
      → IsQuery envelope.operation
      → Move configured_headers v (record v { sent = envelope ∷ v.sent })
  wakes :
      (v : View) (m : Moment) (c : WakeCommand)
      → invalid_wake c ≡ false
      → (length v.pending < max_pending_operations) ⊎ (contains_key c.operation_id v.pending ≡ true)
      → out_of_order (get c.operation_id v.pending) c.attempt ≡ false
      → Move configured_headers v (record v {
        pending = insert c.operation_id (new_operation configured_headers m c) v.pending;
        sent = wake_envelope configured_headers m c ∷ v.sent;
      })
  repeats :
      (v : View) (operation_id : Bytes) (operation : PendingOperation) (deadline_ms : ℕ)
      → get operation_id v.pending ≡ some operation
      → Move configured_headers v (record v {
        pending =
            insert operation_id (record operation { deadline_ms = some deadline_ms }) v.pending;
      })
  receives :
      (v : View) (operation_id : Bytes) (operation : PendingOperation) (retry_ticket : Bytes)
      (deadline_ms : ℕ) (results : List WakeResult) (delivered : Bool)
      → get operation_id v.pending ≡ some operation
      → operation.receipt_seen ≡ false
      → (operation.attempt ≡ 2 → operation.ticket ≡ some retry_ticket)
      → same_set (collect (map (λ r. r.host_id) results)) operation.targets ≡ true
      → Move configured_headers v (record v {
        pending =
            insert operation_id
              (with_receipt operation operation.attempt retry_ticket deadline_ms results)
              v.pending;
        events =
            shown delivered
              (ClientEvent.command_executed operation_id operation.attempt retry_ticket deadline_ms
                results)
              v.events;
      })
  observes :
      (v : View) (operation_id : Bytes) (operation : PendingOperation) (host_id : Bytes)
      (delivered : Bool)
      → get operation_id v.pending ≡ some operation
      → operation.receipt_seen ≡ true
      → is_some_and operation.accepted_targets (λ targets. contains targets host_id) ≡ true
      → contains operation.online host_id ≡ false
      → Move configured_headers v (record v {
        pending =
            insert operation_id
              (record operation { online = host_id ∷ operation.online })
              v.pending;
        events =
            shown delivered
              (ClientEvent.target_online operation_id operation.attempt host_id)
              v.events;
      })
  prunes :
      (v : View) (now : Instant)
      → Move configured_headers v (record v { pending = retain (unexpired now) v.pending })

pub data Moves (configured_headers : List Header) : View → View → Type 0 where
  done : (v : View) → Moves configured_headers v v
  more :
      (v w x : View)
      → Move configured_headers v w
      → Moves configured_headers w x
      → Moves configured_headers v x

pub joined :
    (configured_headers : List Header) (v w x : View)
    → Moves configured_headers v w
    → Moves configured_headers w x
    → Moves configured_headers v x
joined configured_headers v _ x (Moves.done _) n = n
joined configured_headers v w x (Moves.more _ u _ m ms) n =
    Moves.more v u x m (joined configured_headers u w x ms n)

pub once :
    (configured_headers : List Header) (v w : View)
    → Move configured_headers v w
    → Moves configured_headers v w
once configured_headers v w m = Moves.more v w w m (Moves.done w)
