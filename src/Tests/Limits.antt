-- ===== src/Tests/Limits.antt =====
-- The replay cache of src/security.rs, and the cooldown and the rate limiter of src/server.rs, at work.
use remote_open_power.Base.{
  bytes, List, [], ◌∷◌, ◌*◌, ◌≤◌, ◌≡◌, refl, arith, insert, get, retain, count, ℕ_eq?, list_eq?,
  Instant, from_secs, inr,
}
use remote_open_power.Security.Replay.{
  NonceKey, NonceKey_eq?, reserve, confirm, accepted, acceptances,
}
use remote_open_power.Security.Replay
use remote_open_power.Security.Replay.Bounds.{replay_run-IsValid}
use remote_open_power.Security.Replay.Once.{reserve_once, confirm_once}
use remote_open_power.Server.Cooldown
use remote_open_power.Server.Cooldown.{
  granted, grants, reserve_wake_targets, drop_stale, is_blocked, insert_all,
}
use remote_open_power.Server.Cooldown.Once.{cooldown_once}
use remote_open_power.Server.Rate
use remote_open_power.Server.Rate.{RateKey, RateKey_eq?, allow, passes, passed}
use remote_open_power.Server.Rate.Window.{rate_limit, rate_run-IsValid}

abbrev nonce : NonceKey
nonce = record { client_key = 1 ∷ []; nonce = 2 ∷ [] }

abbrev handshakes : List Replay.Event
handshakes =
    record { now = from_secs 3; call = Replay.Call.reserves nonce }
    ∷ record { now = from_secs 4; call = Replay.Call.confirms nonce }
    ∷ record { now = from_secs 5; call = Replay.Call.reserves nonce }
    ∷ []

replay_run-IsValid_example : Replay.Bounds.IsValid (Replay.run [] handshakes)
replay_run-IsValid_example = replay_run-IsValid handshakes

reserve_once_example : acceptances nonce (reserve [] nonce 0).0 handshakes ≡ 0
unfolding Replay.run reserve get retain count
reserve_once_example =
    reserve_once [] nonce 0 handshakes (replay_run-IsValid []) refl
      ((omega arith, omega arith), ((omega arith, omega arith), ((omega arith, omega arith), tt)))

confirm_once_example :
    acceptances nonce (confirm (reserve [] nonce 0).0 nonce (from_secs 1)).0 handshakes ≡ 0
unfolding reserve Replay.run get Replay.perform confirm retain count insert NonceKey_eq? ℕ_eq?
confirm_once_example =
    confirm_once (reserve [] nonce 0).0 nonce (from_secs 1) handshakes
      (replay_run-IsValid (record { now = 0; call = Replay.Call.reserves nonce } ∷ [])) refl
      ((omega arith, omega arith), ((omega arith, omega arith), ((omega arith, omega arith), tt)))

abbrev wakes : Instant → Cooldown.Event
wakes t = record { client_key = 1 ∷ []; host_ids = bytes "pc" ∷ bytes "nas" ∷ []; now = t }

cooldown_once_example :
    grants
      (1 ∷ [])
      (bytes "nas")
      (Cooldown.step (Cooldown.run [] (wakes 0 ∷ [])) (wakes (from_secs 11)))
      (wakes (from_secs 12) ∷ wakes (from_secs 20) ∷ [])
    ≡ 0
unfolding granted list_eq? ℕ_eq? reserve_wake_targets is_blocked get drop_stale Cooldown.run insert
    retain insert_all
cooldown_once_example =
    cooldown_once (1 ∷ []) (bytes "nas") (wakes 0 ∷ []) (wakes (from_secs 11))
      (wakes (from_secs 12) ∷ wakes (from_secs 20) ∷ []) refl
      ((omega arith, omega arith), ((omega arith, omega arith), tt))

abbrev source : RateKey
source = RateKey.ip (127 ∷ [])

abbrev asks : Instant → Rate.Event
asks t = record { key = source; limit = 1; now = t }

rate_limit_example :
    passes source
      (from_secs 60)
      (Rate.run (from_secs 60) [] (asks 0 ∷ []))
      (asks (from_secs 10) ∷ asks (from_secs 61) ∷ asks (from_secs 62) ∷ [])
    ≤ 2 * 1
rate_limit_example =
    rate_limit source 1 (from_secs 60) (from_secs 5) (asks 0 ∷ [])
      (asks (from_secs 10) ∷ asks (from_secs 61) ∷ asks (from_secs 62) ∷ []) (omega arith)
      (
        (omega arith, (omega arith, inr refl)),
        ((omega arith, (omega arith, inr refl)), ((omega arith, (omega arith, inr refl)), tt)),
      )

rate_run-IsValid_example : Rate.Window.IsValid (Rate.run (from_secs 60) [] (asks 0 ∷ asks 1 ∷ []))
rate_run-IsValid_example = rate_run-IsValid (from_secs 60) (asks 0 ∷ asks 1 ∷ [])
