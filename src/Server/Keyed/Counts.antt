-- ===== src/Server/Keyed/Counts.antt =====
-- The counts that `KeyedConnectionLimiter` of src/server.rs stores are those of the permits held.
use remote_open_power.Base.{
  ℕ, suc, List, [], ◌∷◌, ◌++◌, none, some, ◌+◌, ◌-◌, ◌≤◌, ◌<◌, ◌==◌, ltb, leb, if◌then◌else◌, Eq,
  nat_eq, Dict, get, insert, ◌≡◌, ◌≢◌, refl, arith, get-insert, get-remove, Option-cases, inl, inr,
  ==-refl,
}
use remote_open_power.Server.Keyed.{
  acquire, release, World, acquired, Step, acquires, drops, Reachable, new, next,
}

module _ {K : Type 0} ⦃e : Eq K⦄ where
  -- The permits of a key.
  abbrev pub held : K → List K → ℕ
  held k [] = 0
  held k (p ∷ ps) = if p == k then suc (held k ps) else held k ps

  abbrev pub stored : K → Dict K ℕ → ℕ
  stored k m = elim (get k m) [ none ↦ 0 | some n ↦ n ]

  pub held-append : (k : K) (ps qs : List K) → held k (ps ++ qs) ≡ held k ps + held k qs
  held-append k [] qs = omega arith
  held-append k (p ∷ ps) qs = ground (arith, held-append k ps qs)

  -- Each count is that of the permits held, no more than the maximum, and there is no entry for none.
  pub record IsCounted (maximum : ℕ) (w : World K) : Type 0 where
    pub counts : (k : K) → stored k w.active ≡ held k w.permits
    pub bound : (k : K) → held k w.permits ≤ maximum
    pub nonzero : (k : K) → get k w.active ≢ some 0

  acquire-get :
      (maximum : ℕ) (m : Dict K ℕ) (key k : K)
      → 0 < maximum
      → get k m ≢ some 0
      → (get k (acquire maximum m key).0 ≡ (
          if key == k
          then some (if leb maximum (stored key m) then stored key m else stored key m + 1)
          else get k m))
        × ((acquire maximum m key).1 ≡ ltb (stored key m) maximum)
  unfolding acquire
  acquire-get maximum m key k some_room n = elim (Option-cases (get key m)) [
    | inl a ↦ ground (arith, a, get-insert key k 0 m, get-insert key k (0 + 1) (insert key 0 m))
    | inr (c, a) ↦ ground (arith, a, get-insert key k (c + 1) m)
  ]

  release-get :
      (m : Dict K ℕ) (key k : K)
      → get k m ≢ some 0
      → (stored k (release m key) ≡ (if key == k then stored k m - 1 else stored k m))
        × (get k (release m key) ≢ some 0)
  unfolding release
  release-get m key k n = elim (Option-cases (get key m)) [
    | inl a ↦ ground (arith, a, n)
    | inr (c, a) ↦ ground (arith, a, n, get-remove key k m, get-insert key k (c - 1) m)
  ]

  acquired-IsCounted :
      (maximum : ℕ) (w : World K) (key : K)
      → 0 < maximum
      → IsCounted maximum w
      → IsCounted maximum (acquired maximum w key)
  unfolding acquired
  acquired-IsCounted maximum w key some_room v = record {
    counts = λ k. ground (
      arith,
      acquire-get maximum w.active key k some_room (v.nonzero k),
      v.counts k,
      v.counts key,
      v.bound key,
    );
    bound = λ k. ground (
      arith,
      acquire-get maximum w.active key k some_room (v.nonzero k),
      v.counts k,
      v.counts key,
      v.bound k,
    );
    nonzero = λ k.
        ground (arith, acquire-get maximum w.active key k some_room (v.nonzero k), v.nonzero k);
  }

  dropped-IsCounted :
      (maximum : ℕ) (active : Dict K ℕ) (before : List K) (key : K) (after : List K)
      → IsCounted maximum (record { active = active; permits = before ++ key ∷ after })
      → IsCounted maximum (record { active = release active key; permits = before ++ after })
  dropped-IsCounted maximum active before key after v = record {
    counts = λ k. ground (
      arith,
      release-get active key k (v.nonzero k),
      v.counts k,
      held-append k before (key ∷ after),
      held-append k before after,
    );
    bound = λ k.
        ground (arith, v.bound k, held-append k before (key ∷ after), held-append k before after);
    nonzero = λ k. (release-get active key k (v.nonzero k)).1;
  }

  Step-IsCounted :
      (maximum : ℕ) (w w' : World K)
      → 0 < maximum
      → Step maximum w w'
      → IsCounted maximum w
      → IsCounted maximum w'
  Step-IsCounted maximum w1 w2 some_room (acquires w key) v =
      acquired-IsCounted maximum w key some_room v
  Step-IsCounted maximum w1 w2 some_room (drops active before key after) v =
      dropped-IsCounted maximum active before key after v

  -- However permits are acquired and dropped, for a maximum that is not zero: each count that the
  -- limiter stores is the number of permits of its key that are held, no key has more than the
  -- maximum, and no count of zero stays.
  pub Reachable-IsCounted :
      (maximum : ℕ) (w : World K) → 0 < maximum → Reachable maximum w → IsCounted maximum w
  unfolding get
  Reachable-IsCounted maximum w some_room new = record {
    counts = λ k. refl;
    bound = λ k. omega arith;
    nonzero = λ k h. cc;
  }
  Reachable-IsCounted maximum w some_room (next w0 w1 r s) =
      Step-IsCounted maximum w0 w1 some_room s (Reachable-IsCounted maximum w0 some_room r)

  -- For a maximum that is not zero, and however permits were acquired and dropped: `acquire` gives a
  -- permit exactly when fewer than the maximum of its key are held.
  pub acquire_grants :
      (maximum : ℕ) (w : World K) (key : K)
      → 0 < maximum
      → Reachable maximum w
      → (acquire maximum w.active key).1 ≡ ltb (held key w.permits) maximum
  acquire_grants maximum w key some_room r =
      let v = Reachable-IsCounted maximum w some_room r in
      ground (arith, acquire-get maximum w.active key key some_room (v.nonzero key), v.counts key)

  empty_of_counts :
      (m : Dict K ℕ) → ((k : K) → stored k m ≡ 0) → ((k : K) → get k m ≢ some 0) → m ≡ []
  unfolding get
  empty_of_counts [] zeros nonzero = refl
  empty_of_counts ((k, n) ∷ m) zeros nonzero =
      absurd (ground (arith, zeros k, nonzero k, ==-refl k))

  -- For a maximum that is not zero: when every permit has been dropped, the limiter stores nothing.
  released_all :
      (maximum : ℕ) (w : World K)
      → 0 < maximum
      → Reachable maximum w
      → w.permits ≡ []
      → w.active ≡ []
  released_all maximum w some_room r done =
      let v = Reachable-IsCounted maximum w some_room r in
      empty_of_counts w.active (λ k. ground (arith, v.counts k, done)) v.nonzero
