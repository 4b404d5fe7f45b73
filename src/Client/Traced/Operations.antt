-- ===== src/Client/Traced/Operations.antt =====
-- Each call of the actor of src/client.rs about its operations is a sequence of moves.
use remote_open_power.Base.{
  ℕ, Bytes, Bool, true, false, List, ◌∷◌, map, some, ◌≡◌, collect, contains, is_some_and, get,
  insert, nat_eq, list_eq, option_eq, Duration, refl, arith, inl, inr, Option-cases, Bool-cases,
}
use remote_open_power.Protocol.Message.{Header, WakeResult, header_eq}
use remote_open_power.Client.{
  Actor, Moment, ClientEvent, PendingOperation, emit_event, reject_server_event,
}
use remote_open_power.Client.Handle.{
  on_command_executed, on_target_online, with_receipt, same_set, refuses_receipt, refuses_online,
}
use remote_open_power.Client.Moves.{view, shown, repeats, receives, observes, done, once}
use remote_open_power.Client.Traced.{Traced, reject-Traced}

view_emitted :
    (a : Actor) (delivered : Bool) (e : ClientEvent)
    → view (emit_event a delivered e).0
      ≡ record { pending = a.pending; events = shown delivered e a.events; sent = a.sent }
view_emitted a true e = refl
view_emitted a false e = refl

module _ (configured_headers : List Header) (configured_clock_skew : Duration) where
  abbrev executed : Actor → Moment → Bytes → Bytes → ℕ → Bytes → ℕ → List WakeResult → Actor × Bool
  executed = on_command_executed configured_headers configured_clock_skew

  new_receipt-Traced :
      (a : Actor) (k : Bytes) (operation : PendingOperation) (n : ℕ) (ticket : Bytes) (d : ℕ)
      (results : List WakeResult) (delivered : Bool)
      → get k a.pending ≡ some operation
      → n ≡ operation.attempt
      → operation.receipt_seen ≡ false
      → (operation.attempt ≡ 2 → operation.ticket ≡ some ticket)
      → same_set (collect (map (λ r. r.host_id) results)) operation.targets ≡ true
      → Traced configured_headers configured_clock_skew a (
          emit_event
            (record a { pending = insert k (with_receipt operation n ticket d results) a.pending })
            delivered
            (ClientEvent.command_executed k n ticket d results))
  new_receipt-Traced a k operation n ticket d results delivered h right unseen same_ticket same =
      rw
        (
          view_emitted
              (record a {
                pending = insert k (with_receipt operation n ticket d results) a.pending;
              })
              delivered (ClientEvent.command_executed k n ticket d results),
          right,
        )
        (once configured_headers _ _
          (receives (view a) k operation ticket d results delivered h unseen same_ticket same))

  executed_found :
      (a : Actor) (m : Moment) (id k : Bytes) (operation : PendingOperation) (n : ℕ)
      (ticket : Bytes) (d : ℕ) (results : List WakeResult)
      → get k a.pending ≡ some operation
      → Traced configured_headers configured_clock_skew a (executed a m id k n ticket d results)
  unfolding on_command_executed
  executed_found a m id k operation n ticket d results h =
      elim (Bool-cases (
        refuses_receipt configured_headers configured_clock_skew operation m id k n ticket d
          results)) [
            | inl bad ↦
                let e : executed a m id k n ticket d results
                    ≡ reject_server_event a m.first_delivered =
                  ground (arith, h, bad) in
                rw e (reject-Traced configured_headers configured_clock_skew a m.first_delivered)
            | inr good ↦
                let right : n ≡ operation.attempt = ground (arith, good) in
                let same_ticket : operation.attempt ≡ 2 → operation.ticket ≡ some ticket =
                  λ e. ground (arith, good, e) in
                let same : same_set (collect (map (λ r. r.host_id) results)) operation.targets
                    ≡ true =
                  ground (arith, good) in
                elim (Bool-cases operation.receipt_seen) [
                  | inl seen ↦
                      let e : executed a m id k n ticket d results ≡ (
                        record a {
                          pending = insert k (record operation { deadline_ms = some d }) a.pending;
                        },
                        true,
                      ) =
                        ground (arith, h, good, seen) in
                      rw e (once configured_headers _ _ (repeats (view a) k operation d h))
                  | inr unseen ↦
                      let e : executed a m id k n ticket d results
                          ≡ emit_event
                              (record a {
                                pending =
                                    insert k (with_receipt operation n ticket d results) a.pending;
                              })
                              m.first_delivered
                              (ClientEvent.command_executed k n ticket d results) =
                        ground (arith, h, good, unseen) in
                      rw e (
                        new_receipt-Traced a k operation n ticket d results m.first_delivered h
                          right unseen same_ticket same)
                ]
          ]

  pub on_command_executed-Traced :
      (a : Actor) (m : Moment) (id k : Bytes) (n : ℕ) (ticket : Bytes) (d : ℕ)
      (results : List WakeResult)
      → Traced configured_headers configured_clock_skew a (executed a m id k n ticket d results)
  unfolding on_command_executed
  on_command_executed-Traced a m id k n ticket d results = elim (Option-cases (get k a.pending)) [
    | inl h ↦
        let e : executed a m id k n ticket d results ≡ reject_server_event a m.first_delivered =
          ground (arith, h) in
        rw e (reject-Traced configured_headers configured_clock_skew a m.first_delivered)
    | inr (operation, h) ↦ executed_found a m id k operation n ticket d results h
  ]

  abbrev observed : Actor → Moment → Bytes → Bytes → ℕ → Bytes → ℕ → Actor × Bool
  observed = on_target_online configured_headers configured_clock_skew

  new_online-Traced :
      (a : Actor) (k : Bytes) (operation : PendingOperation) (n : ℕ) (host_id : Bytes)
      (delivered : Bool)
      → get k a.pending ≡ some operation
      → n ≡ operation.attempt
      → operation.receipt_seen ≡ true
      → is_some_and operation.accepted_targets (λ targets. contains targets host_id) ≡ true
      → contains operation.online host_id ≡ false
      → Traced configured_headers configured_clock_skew a (
          emit_event
            (record a {
              pending =
                  insert k (record operation { online = host_id ∷ operation.online }) a.pending;
            })
            delivered
            (ClientEvent.target_online k n host_id))
  new_online-Traced a k operation n host_id delivered h right seen accepted new =
      rw
        (
          view_emitted
              (record a {
                pending =
                    insert k (record operation { online = host_id ∷ operation.online }) a.pending;
              })
              delivered (ClientEvent.target_online k n host_id),
          right,
        )
        (once configured_headers _ _
          (observes (view a) k operation host_id delivered h seen accepted new))

  online_found :
      (a : Actor) (m : Moment) (id k : Bytes) (operation : PendingOperation) (n : ℕ)
      (host_id : Bytes) (d : ℕ)
      → get k a.pending ≡ some operation
      → Traced configured_headers configured_clock_skew a (observed a m id k n host_id d)
  unfolding on_target_online
  online_found a m id k operation n host_id d h =
      elim (Bool-cases
        (refuses_online configured_headers configured_clock_skew operation m id k n host_id d)) [
          | inl bad ↦
              let e : observed a m id k n host_id d ≡ reject_server_event a m.first_delivered =
                ground (arith, h, bad) in
              rw e (reject-Traced configured_headers configured_clock_skew a m.first_delivered)
          | inr good ↦ elim (Bool-cases (contains operation.online host_id)) [
            | inl old ↦
                let e : observed a m id k n host_id d ≡ (a, true) = ground (arith, h, good, old) in
                rw e (done (view a))
            | inr new ↦
                let e : observed a m id k n host_id d
                    ≡ emit_event
                        (record a {
                          pending =
                              insert k (record operation { online = host_id ∷ operation.online })
                                a.pending;
                        })
                        m.first_delivered (ClientEvent.target_online k n host_id) =
                  ground (arith, h, good, new) in
                rw e (
                  new_online-Traced a k operation n host_id m.first_delivered h
                    (ground (arith, good)) (ground (arith, good)) (ground (arith, good)) new)
          ]
        ]

  pub on_target_online-Traced :
      (a : Actor) (m : Moment) (id k : Bytes) (n : ℕ) (host_id : Bytes) (d : ℕ)
      → Traced configured_headers configured_clock_skew a (observed a m id k n host_id d)
  unfolding on_target_online
  on_target_online-Traced a m id k n host_id d = elim (Option-cases (get k a.pending)) [
    | inl h ↦
        let e : observed a m id k n host_id d ≡ reject_server_event a m.first_delivered =
          ground (arith, h) in
        rw e (reject-Traced configured_headers configured_clock_skew a m.first_delivered)
    | inr (operation, h) ↦ online_found a m id k operation n host_id d h
  ]
