-- ===== src/Security/Replay/Bounds.antt =====
-- The replay cache of src/security.rs stays within its three limits.
use remote_open_power.Base.{
  Bytes, true, List, [], ◌∷◌, none, some, leb, ◌≤◌, ◌<◌, length, nat_eq, list_eq, ◌≡◌, refl, get,
  insert, retain, count, Instant, arith, Distinct, Distinct-retain, Distinct-insert, Option-cases,
  Bool-cases, inl, inr, length-retain-le, count-retain-le, length-insert, count-insert_new,
  count-insert_old,
}
use remote_open_power.Security.Replay.{
  NonceKey, nonce_key_eq, ReplayEntry, ReplayMap, live, of_client, pending_of, reserve, confirm,
  Call, Event, perform, step, run, max_replay_entries, max_replay_entries_per_client,
  max_pending_replays_per_client,
}

pub record IsValid (m : ReplayMap) : Type 0 where
  pub keys : Distinct m
  pub size : length m ≤ max_replay_entries
  pub quota : (c : Bytes) → count (of_client c) m ≤ max_replay_entries_per_client
  pub pending : (c : Bytes) → count (pending_of c) m ≤ max_pending_replays_per_client

retain-IsValid : (m : ReplayMap) (now : Instant) → IsValid m → IsValid (retain (live now) m)
retain-IsValid m now v = record {
  keys = Distinct-retain (live now) m v.keys;
  size = omega (arith, length-retain-le (live now) m, v.size);
  quota = λ c. omega (arith, count-retain-le (of_client c) (live now) m, v.quota c);
  pending = λ c. omega (arith, count-retain-le (pending_of c) (live now) m, v.pending c);
}

-- An entry is added only below each limit.
add-IsValid :
    (m : ReplayMap) (key : NonceKey) (e : ReplayEntry)
    → get key m ≡ none
    → length m < max_replay_entries
    → count (of_client key.client_key) m < max_replay_entries_per_client
    → count (pending_of key.client_key) m < max_pending_replays_per_client
    → IsValid m
    → IsValid (insert key e m)
add-IsValid m key e free size quota pending v = record {
  keys = Distinct-insert key e m v.keys;
  size = ground (arith, length-insert key e m);
  quota = λ c. ground (arith, count-insert_new (of_client c) key e m free, v.quota c);
  pending = λ c. ground (arith, count-insert_new (pending_of c) key e m free, v.pending c);
}

overwrite-IsValid :
    (m : ReplayMap) (key : NonceKey) (old e : ReplayEntry)
    → get key m ≡ some old
    → e.confirmed ≡ true
    → IsValid m
    → IsValid (insert key e m)
overwrite-IsValid m key old e held done v = record {
  keys = Distinct-insert key e m v.keys;
  size = ground (arith, length-insert key e m, v.size);
  quota = λ c. omega (arith, count-insert_old (of_client c) key e old m held (λ h. h), v.quota c);
  pending = λ c.
      omega
        (arith, count-insert_old (pending_of c) key e old m held (λ h. ground arith), v.pending c);
}

reserve-IsValid :
    (m : ReplayMap) (key : NonceKey) (now : Instant) → IsValid m → IsValid (reserve m key now).0
unfolding reserve
reserve-IsValid m key now v =
    let entries = retain (live now) m in
    let kept = retain-IsValid m now v in
    elim (Option-cases (get key entries)) [
      | inr (e, held) ↦ rw (held, reserve) kept
      | inl free ↦
          rw (free, reserve)
            (elim (Bool-cases
              (leb max_replay_entries_per_client (count (of_client key.client_key) entries))) [
                | inl a ↦ rw a kept
                | inr a ↦
                    rw a
                      (elim (Bool-cases (
                        leb max_pending_replays_per_client
                          (count (pending_of key.client_key) entries))) [
                            | inl b ↦ rw b kept
                            | inr b ↦
                                rw b (elim (Bool-cases (leb max_replay_entries (length entries))) [
                                  | inl c ↦ rw c kept
                                  | inr c ↦ rw c (
                                      add-IsValid entries key _ free (ground arith) (ground arith)
                                        (ground arith) kept)
                                ])
                          ])
              ])
    ]

confirm-IsValid :
    (m : ReplayMap) (key : NonceKey) (now : Instant) → IsValid m → IsValid (confirm m key now).0
unfolding confirm
confirm-IsValid m key now v =
    let kept = retain-IsValid m now v in
    elim (Option-cases (get key (retain (live now) m))) [
      | inl free ↦ rw (free, confirm) kept
      | inr (e, held) ↦ rw (held, confirm) (overwrite-IsValid _ key e _ held refl kept)
    ]

pub perform-IsValid :
    (m : ReplayMap) (now : Instant) (c : Call) → IsValid m → IsValid (perform m now c).0
unfolding perform
perform-IsValid m now (Call.reserves key) v = reserve-IsValid m key now v
perform-IsValid m now (Call.confirms key) v = confirm-IsValid m key now v

empty-IsValid : IsValid []
unfolding count
empty-IsValid = record {
  keys = tt;
  size = omega arith;
  quota = λ c. omega arith;
  pending = λ c. omega arith;
}

run-IsValid : (m : ReplayMap) (es : List Event) → IsValid m → IsValid (run m es)
unfolding run
run-IsValid m [] v = v
run-IsValid m (e ∷ es) v = run-IsValid (step m e) es (perform-IsValid m e.now e.call v)

-- After any history from the empty cache no nonce is stored twice, and there are at most 8192
-- entries, at most 64 of any one client and at most 4 unconfirmed ones of any one client.
pub replay_run-IsValid : (es : List Event) → IsValid (run [] es)
replay_run-IsValid es = run-IsValid [] es empty-IsValid
