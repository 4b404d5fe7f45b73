-- ===== src/Wol/Route/Best.antt =====
-- Which interface `select_ipv4_route` of src/wol.rs takes.
use mathlib.Core.List.{Memᴰ}
use remote_open_power.Base.{
  ℕ, Bool, true, false, List, [], ◌∷◌, All, any, Option, none, some, Result, ok, err, ◌≡◌, ◌≤◌,
  ◌==◌, ◌!=◌, ◌&&◌, ltb, nat_eq, refl, sym, ◌∙◌, arith, inl, inr, Bool-cases, Option-cases,
}
use remote_open_power.Wol.Route.{
  Ipv4Interface, Ipv4Route, candidate, consider, scan, unusable, RouteError, select_ipv4_route,
}

-- The routes that the loop considers, the latest first, before those of `seen`.
abbrev pub candidates : ℕ → List Ipv4Route → List Ipv4Interface → List Ipv4Route
candidates target seen [] = seen
candidates target seen (i ∷ interfaces) = elim (candidate target i) [
  | none ↦ candidates target seen interfaces
  | some c ↦ candidates target (c ∷ seen) interfaces
]

-- The same prefix, over another interface.
abbrev pub is_rival : Ipv4Route → Ipv4Route → Bool
is_rival r c = (c.prefix_len == r.prefix_len) && (c.interface != r.interface)

-- No longer prefix; over the same interface with the same prefix, no lower source.
abbrev pub Covers : Ipv4Route → Ipv4Route → Type 0
Covers r c =
    (c.prefix_len ≤ r.prefix_len)
    × (c.prefix_len ≡ r.prefix_len → c.interface ≡ r.interface → r.source ≤ c.source)

-- What the loop has selected from the routes that it has seen.
abbrev pub IsBest : List Ipv4Route → Option Ipv4Route → Bool → Type 0
IsBest seen none several = (seen ≡ []) × (several ≡ false)
IsBest seen (some r) several = Memᴰ r seen × All (Covers r) seen × (several ≡ any (is_rival r) seen)

longer_Covers :
    (r c : Ipv4Route) (seen : List Ipv4Route)
    → ltb r.prefix_len c.prefix_len ≡ true
    → All (Covers r) seen
    → All (Covers c) seen × (any (is_rival c) seen ≡ false)
longer_Covers r c [] h a = (tt, refl)
longer_Covers r c (d ∷ seen) h (x, a) =
    let (rest, none_rival) = longer_Covers r c seen h a in
    (
      ((ground (arith, h, x), λ e. absurd (ground (arith, h, x, e))), rest),
      ground (arith, h, x, none_rival),
    )

lower_Covers :
    (r c : Ipv4Route) (seen : List Ipv4Route)
    → c.prefix_len ≡ r.prefix_len
    → c.interface ≡ r.interface
    → ltb c.source r.source ≡ true
    → All (Covers r) seen
    → All (Covers c) seen × (any (is_rival c) seen ≡ any (is_rival r) seen)
lower_Covers r c [] p i h a = (tt, refl)
lower_Covers r c (d ∷ seen) p i h (x, a) =
    let (rest, same) = lower_Covers r c seen p i h a in
    (
      ((ground (arith, p, x), λ e f. ground (arith, h, x.1 (e ∙ p) (f ∙ i))), rest),
      ground (arith, p, i, same),
    )

consider-IsBest :
    (selected : Option Ipv4Route) (several : Bool) (c : Ipv4Route) (seen : List Ipv4Route)
    → IsBest seen selected several
    → IsBest (c ∷ seen) (consider selected several c).0 (consider selected several c).1
unfolding consider
consider-IsBest none several c seen (empty, one) = (
  Memᴰ.head refl,
  ((omega arith, λ e f. omega arith), rw empty tt),
  rw (empty, one) (ground arith),
)
consider-IsBest (some r) several c seen (found, covers, s) =
    elim (Bool-cases (ltb r.prefix_len c.prefix_len)) [
      | inl longer ↦
          let (rest, none_rival) = longer_Covers r c seen longer covers in
          rw longer
            (Memᴰ.head refl, ((omega arith, λ e f. omega arith), rest), ground (arith, none_rival))
      | inr not_longer ↦ elim (Bool-cases (c.prefix_len == r.prefix_len)) [
        | inr shorter ↦
            rw (not_longer, shorter)
              (
                Memᴰ.tail found,
                ((ground (arith, not_longer), λ e f. absurd (ground (arith, shorter, e))), covers),
                ground (arith, shorter, s),
              )
        | inl equal ↦ elim (Bool-cases (c.interface != r.interface)) [
          | inl rival ↦
              rw (not_longer, equal, rival)
                (
                  Memᴰ.tail found,
                  ((ground (arith, equal), λ e f. absurd (ground (arith, rival, f))), covers),
                  ground (arith, equal, rival, s),
                )
          | inr same ↦ elim (Bool-cases (ltb c.source r.source)) [
            | inl lower ↦
                let (rest, t) =
                  lower_Covers r c seen (ground (arith, equal)) (ground (arith, same)) lower
                    covers in
                rw (not_longer, equal, same, lower)
                  (Memᴰ.head refl, ((omega arith, λ e f. omega arith), rest), ground (arith, s, t))
            | inr higher ↦
                rw (not_longer, equal, same, higher)
                  (
                    Memᴰ.tail found,
                    ((ground (arith, equal), λ e f. ground (arith, higher)), covers),
                    ground (arith, equal, same, s),
                  )
          ]
        ]
      ]
    ]

scan-IsBest :
    (target : ℕ) (selected : Option Ipv4Route) (several : Bool) (interfaces : List Ipv4Interface)
    (seen : List Ipv4Route)
    → IsBest seen selected several
    → IsBest
        (candidates target seen interfaces)
        (scan target selected several interfaces).0
        (scan target selected several interfaces).1
unfolding scan
scan-IsBest target selected several [] seen b = b
scan-IsBest target selected several (i ∷ interfaces) seen b =
    elim (Option-cases (candidate target i)) [
      | inl skipped ↦
          let e : scan target selected several (i ∷ interfaces)
              ≡ scan target selected several interfaces =
            ground (arith, skipped) in
          let f : candidates target seen (i ∷ interfaces) ≡ candidates target seen interfaces =
            ground (arith, skipped) in
          rw (e, f) (scan-IsBest target selected several interfaces seen b)
      | inr (c, taken) ↦
          let next = consider selected several c in
          let e : scan target selected several (i ∷ interfaces)
              ≡ scan target next.0 next.1 interfaces =
            ground (arith, taken) in
          let f : candidates target seen (i ∷ interfaces)
              ≡ candidates target (c ∷ seen) interfaces =
            ground (arith, taken) in
          rw (e, f)
            (scan-IsBest target next.0 next.1 interfaces (c ∷ seen)
              (consider-IsBest selected several c seen b))
    ]

-- What each result says of the routes over the interfaces that the loop does not skip.
abbrev pub IsSelection : ℕ → List Ipv4Route → Result RouteError Ipv4Route → Type 0
IsSelection target seen (ok r) =
    Memᴰ r seen
    × All (Covers r) seen
    × (any (is_rival r) seen ≡ false)
    × (unusable target r ≡ false)
IsSelection target seen (err RouteError.not_found) = seen ≡ []
IsSelection target seen (err RouteError.ambiguous) =
    (r : Ipv4Route) × Memᴰ r seen × All (Covers r) seen × (any (is_rival r) seen ≡ true)
IsSelection target seen (err RouteError.no_broadcast) =
    (r : Ipv4Route) × Memᴰ r seen
    × All (Covers r) seen
    × (any (is_rival r) seen ≡ false)
    × (unusable target r ≡ true)

selected-IsSelection :
    (target : ℕ) (interfaces : List Ipv4Interface) (selected : Option Ipv4Route) (several : Bool)
    → scan target none false interfaces ≡ (selected, several)
    → IsBest (candidates target [] interfaces) selected several
    → IsSelection target (candidates target [] interfaces) (select_ipv4_route target interfaces)
unfolding select_ipv4_route
selected-IsSelection target interfaces none several h b =
    let e : select_ipv4_route target interfaces ≡ err RouteError.not_found = ground (arith, h) in
    rw e b.0
selected-IsSelection target interfaces (some r) true h (found, covers, s) =
    let e : select_ipv4_route target interfaces ≡ err RouteError.ambiguous = ground (arith, h) in
    rw e (r, found, covers, sym s)
selected-IsSelection target interfaces (some r) false h (found, covers, s) =
    elim (Bool-cases (unusable target r)) [
      | inl bad ↦
          let e : select_ipv4_route target interfaces ≡ err RouteError.no_broadcast =
            ground (arith, h, bad) in
          rw e (r, found, covers, sym s, bad)
      | inr good ↦
          let e : select_ipv4_route target interfaces ≡ ok r = ground (arith, h, good) in
          rw e (found, covers, sym s, good)
    ]

-- The result is the route with the longest prefix, and with the lowest source of its interface,
-- where no other interface has that prefix and the target has a directed broadcast; the errors say
-- that there is no route, that two interfaces share the longest prefix, or that there is no
-- broadcast.
pub select_ipv4_route-IsSelection :
    (target : ℕ) (interfaces : List Ipv4Interface)
    → IsSelection target (candidates target [] interfaces) (select_ipv4_route target interfaces)
select_ipv4_route-IsSelection target interfaces =
    selected-IsSelection target interfaces (scan target none false interfaces).0
      (scan target none false interfaces).1 refl
      (scan-IsBest target none false interfaces [] (refl, refl))
