-- ===== src/Tests/Permits.antt =====
-- Two permits of a key are given and one dropped; one of two threads gets the last permit.
use remote_open_power.Base.{
  ℕ, ℕ_eq?, nat_eq, false, [], ◌∷◌, ◌≡◌, ◌+◌, refl, arith, get, insert, ltb,
}
use remote_open_power.Server.Keyed
use remote_open_power.Server.Keyed.{acquire, acquired, release}
use remote_open_power.Server.Keyed.Counts.{held, Reachable-IsCounted, acquire_grants}
use remote_open_power.Server.Permits
use remote_open_power.Server.Permits.{Thread, access, try_exchange}
use remote_open_power.Server.Permits.Holders.{interleaved-IsCounted, release_above_zero}

-- After two permits of the key 7 and a refused third.
abbrev fresh : Keyed.World ℕ
fresh = record { active = []; permits = [] }

abbrev full : Keyed.World ℕ
full = acquired 2 (acquired 2 (acquired 2 fresh 7) 7) 7

abbrev full-Reachable : Keyed.Reachable 2 full
full-Reachable =
    Keyed.Reachable.next _ _
      (Keyed.Reachable.next _ _
        (Keyed.Reachable.next _ _ Keyed.Reachable.new (Keyed.Step.acquires fresh 7))
        (Keyed.Step.acquires (acquired 2 fresh 7) 7))
      (Keyed.Step.acquires (acquired 2 (acquired 2 fresh 7) 7) 7)

Reachable-IsCounted_example : Keyed.Counts.IsCounted 2 full
Reachable-IsCounted_example = Reachable-IsCounted 2 full (omega arith) full-Reachable

acquire_grants_example : (acquire 2 full.active 7).1 ≡ ltb (held 7 full.permits) 2
acquire_grants_example = acquire_grants 2 full 7 (omega arith) full-Reachable

abbrev one : Keyed.World ℕ
one = record { active = (7, 1) ∷ []; permits = 7 ∷ [] }

one-Reachable : Keyed.Reachable 2 one
unfolding acquired acquire get insert ℕ_eq?
one-Reachable = Keyed.Reachable.next _ _ Keyed.Reachable.new (Keyed.Step.acquires fresh 7)

-- Both threads have read 0, and the second has exchanged it.
raced :
    Permits.Reachable 1 (record { counter = 1; threads = Thread.trying 0 ∷ Thread.holding ∷ [] })
unfolding access try_exchange ℕ_eq?
raced =
    Permits.Reachable.next _ _
      (Permits.Reachable.next _ _
        (Permits.Reachable.next _ _
          (Permits.Reachable.new (Thread.idle ∷ Thread.idle ∷ []) (refl, (refl, tt)))
          (Permits.Step.moves 0 [] Thread.idle (Thread.idle ∷ []) false))
        (Permits.Step.moves 0 (Thread.trying 0 ∷ []) Thread.idle [] false))
      (Permits.Step.moves 0 (Thread.trying 0 ∷ []) (Thread.trying 0) [] false)

interleaved-IsCounted_example :
    Permits.Holders.IsCounted 1
      (record { counter = 1; threads = Thread.trying 0 ∷ Thread.holding ∷ [] })
interleaved-IsCounted_example = interleaved-IsCounted 1 _ raced

release_above_zero_example : Permits.release 1 + 1 ≡ 1
release_above_zero_example = release_above_zero 1 1 (Thread.trying 0 ∷ []) [] raced
