-- ===== src/Wol/Route/Order.antt =====
-- `select_ipv4_route` of src/wol.rs does not depend on the order of the interfaces.
use mathlib.Core.List.{Memᴰ}
use mathlib.Core.List.Memᴰ
use mathlib.Core.Path.{subst}
use remote_open_power.Base.{
  ℕ, false, List, [], ◌∷◌, All, any, some, ok, ◌≡◌, nat_eq, refl, sym, arith, ◌⊎◌, inl, inr,
  Option-cases,
}
use remote_open_power.Wol.Route.{Ipv4Interface, Ipv4Route, candidate, select_ipv4_route}
use remote_open_power.Wol.Route.Best.{
  candidates, is_rival, Covers, IsSelection, select_ipv4_route-IsSelection,
}

-- Each interface of the one list is in the other.
abbrev pub Includes : List Ipv4Interface → List Ipv4Interface → Type 0
Includes xs ys = (i : Ipv4Interface) → Memᴰ i xs → Memᴰ i ys

member_covered :
    (r c : Ipv4Route) (seen : List Ipv4Route) → All (Covers r) seen → Memᴰ c seen → Covers r c
member_covered r c [] a m = absurd (Memᴰ.not-nil m)
member_covered r c (d ∷ seen) (x, a) (Memᴰ.head e) = rw e x
member_covered r c (d ∷ seen) (x, a) (Memᴰ.tail m) = member_covered r c seen a m

no_rival :
    (r c : Ipv4Route) (seen : List Ipv4Route)
    → any (is_rival r) seen ≡ false
    → Memᴰ c seen
    → is_rival r c ≡ false
no_rival r c [] h m = absurd (Memᴰ.not-nil m)
no_rival r c (d ∷ seen) h (Memᴰ.head e) = rw e (ground (arith, h))
no_rival r c (d ∷ seen) h (Memᴰ.tail m) = no_rival r c seen (ground (arith, h)) m

candidates_seen :
    (target : ℕ) (r : Ipv4Route) (seen : List Ipv4Route) (interfaces : List Ipv4Interface)
    → Memᴰ r seen
    → Memᴰ r (candidates target seen interfaces)
candidates_seen target r seen [] m = m
candidates_seen target r seen (i ∷ interfaces) m = elim (Option-cases (candidate target i)) [
  | inl skipped ↦
      let f : candidates target seen (i ∷ interfaces) ≡ candidates target seen interfaces =
        ground (arith, skipped) in
      rw f (candidates_seen target r seen interfaces m)
  | inr (c, taken) ↦
      let f : candidates target seen (i ∷ interfaces) ≡ candidates target (c ∷ seen) interfaces =
        ground (arith, taken) in
      rw f (candidates_seen target r (c ∷ seen) interfaces (Memᴰ.tail m))
]

candidates_found :
    (target : ℕ) (r : Ipv4Route) (i : Ipv4Interface) (seen : List Ipv4Route)
    (interfaces : List Ipv4Interface)
    → Memᴰ i interfaces
    → candidate target i ≡ some r
    → Memᴰ r (candidates target seen interfaces)
candidates_found target r i seen [] m h = absurd (Memᴰ.not-nil m)
candidates_found target r i seen (j ∷ interfaces) (Memᴰ.head e) h =
    let f : candidates target seen (j ∷ interfaces) ≡ candidates target (r ∷ seen) interfaces =
      ground (arith, e, h) in
    rw f (candidates_seen target r (r ∷ seen) interfaces (Memᴰ.head refl))
candidates_found target r i seen (j ∷ interfaces) (Memᴰ.tail m) h =
    elim (Option-cases (candidate target j)) [
      | inl skipped ↦
          let f : candidates target seen (j ∷ interfaces) ≡ candidates target seen interfaces =
            ground (arith, skipped) in
          rw f (candidates_found target r i seen interfaces m h)
      | inr (c, taken) ↦
          let f : candidates target seen (j ∷ interfaces)
              ≡ candidates target (c ∷ seen) interfaces =
            ground (arith, taken) in
          rw f (candidates_found target r i (c ∷ seen) interfaces m h)
    ]

candidates_from :
    (target : ℕ) (r : Ipv4Route) (seen : List Ipv4Route) (interfaces : List Ipv4Interface)
    → Memᴰ r (candidates target seen interfaces)
    → Memᴰ r seen ⊎ ((i : Ipv4Interface) × Memᴰ i interfaces × (candidate target i ≡ some r))
candidates_from target r seen [] m = inl m
candidates_from target r seen (i ∷ interfaces) m = elim (Option-cases (candidate target i)) [
  | inl skipped ↦
      let f : candidates target seen interfaces ≡ candidates target seen (i ∷ interfaces) =
        ground (arith, skipped) in
      elim (candidates_from target r seen interfaces (rw f m)) [
        | inl old ↦ inl old
        | inr (j, n, h) ↦ inr (j, Memᴰ.tail n, h)
      ]
  | inr (c, taken) ↦
      let f : candidates target (c ∷ seen) interfaces ≡ candidates target seen (i ∷ interfaces) =
        ground (arith, taken) in
      elim (candidates_from target r (c ∷ seen) interfaces (rw f m)) [
        | inl (Memᴰ.head e) ↦ inr (i, Memᴰ.head refl, rw e taken)
        | inl (Memᴰ.tail old) ↦ inl old
        | inr (j, n, h) ↦ inr (j, Memᴰ.tail n, h)
      ]
]

candidates-Includes :
    (target : ℕ) (r : Ipv4Route) (xs ys : List Ipv4Interface)
    → Includes xs ys
    → Memᴰ r (candidates target [] xs)
    → Memᴰ r (candidates target [] ys)
candidates-Includes target r xs ys sub m = elim (candidates_from target r [] xs m) [
  | inl none_seen ↦ absurd (Memᴰ.not-nil none_seen)
  | inr (i, n, h) ↦ candidates_found target r i [] ys (sub i n) h
]

-- Of two lists of the same interfaces, in any order and however often each stands, on which a call
-- returns a route: it is over the same interface, from the same source, with the same prefix.
pub select_ipv4_route-Includes :
    (target : ℕ) (xs ys : List Ipv4Interface) (r s : Ipv4Route)
    → Includes xs ys
    → Includes ys xs
    → select_ipv4_route target xs ≡ ok r
    → select_ipv4_route target ys ≡ ok s
    → (r.interface ≡ s.interface) × (r.source ≡ s.source) × (r.prefix_len ≡ s.prefix_len)
select_ipv4_route-Includes target xs ys r s sub sup hr hs =
    let fr : IsSelection target (candidates target [] xs) (ok r) =
      subst (IsSelection target (candidates target [] xs)) hr
        (select_ipv4_route-IsSelection target xs) in
    let fs : IsSelection target (candidates target [] ys) (ok s) =
      subst (IsSelection target (candidates target [] ys)) hs
        (select_ipv4_route-IsSelection target ys) in
    let r_there = candidates-Includes target r xs ys sub fr.0 in
    let s_here = candidates-Includes target s ys xs sup fs.0 in
    let over = member_covered r s (candidates target [] xs) fr.1 s_here in
    let under = member_covered s r (candidates target [] ys) fs.1 r_there in
    let same : r.prefix_len ≡ s.prefix_len = omega (arith, over.0, under.0) in
    let alone : r.interface ≡ s.interface =
      ground (arith, same, no_rival r s (candidates target [] xs) fr.2 s_here) in
    (alone, omega (arith, over.1 (sym same) (sym alone), under.1 same alone), same)
