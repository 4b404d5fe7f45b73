-- ===== src/Tests/Routes.antt =====
-- Interfaces of one host, targets, hardware addresses, a configuration and lines of the log.
use remote_open_power.Base.{ℕ, bytes, true, [], ◌∷◌, ok, ◌≡◌, refl, nat_eq, ℕ_eq?}
use mathlib.Core.List.{Memᴰ}
use mathlib.Core.List.Memᴰ
use remote_open_power.Wol.Route.{
  Ipv4Interface, Ipv4Route, candidate, consider, scan, unusable, select_ipv4_route,
}
use remote_open_power.Wol.Route.Best.{candidates, IsSelection, select_ipv4_route-IsSelection}
use remote_open_power.Wol.Route.Order.{Includes, select_ipv4_route-Includes}
use remote_open_power.Log.{empty_queue, drain, Drained}
use remote_open_power.Log.Latest.{push_all, drain-push_all}

-- 192.168.1.0/24 and, within it, 192.168.1.0/28.
abbrev wide : Ipv4Interface
wide = record { index = 2; address = 0xc0a80105; netmask = 0xffffff00; up = true; broadcast = true }

abbrev narrow : Ipv4Interface
narrow = record {
  index = 3;
  address = 0xc0a80106;
  netmask = 0xfffffff0;
  up = true;
  broadcast = true;
}

abbrev target : ℕ
target = 0xc0a80107

abbrev route : Ipv4Route
route = record { interface = 3; source = 0xc0a80106; broadcast = 0xc0a8010f; prefix_len = 28 }

here_first : select_ipv4_route target (wide ∷ narrow ∷ []) ≡ ok route
unfolding select_ipv4_route scan candidate consider unusable ℕ_eq?
here_first = refl

here_last : select_ipv4_route target (narrow ∷ wide ∷ []) ≡ ok route
unfolding select_ipv4_route scan candidate consider unusable ℕ_eq?
here_last = refl

select_ipv4_route-IsSelection_example :
    IsSelection target
      (candidates target [] (wide ∷ narrow ∷ []))
      (select_ipv4_route target (wide ∷ narrow ∷ []))
select_ipv4_route-IsSelection_example = select_ipv4_route-IsSelection target (wide ∷ narrow ∷ [])

swapped : (a b : Ipv4Interface) → Includes (a ∷ b ∷ []) (b ∷ a ∷ [])
swapped a b i (Memᴰ.head e) = Memᴰ.tail (Memᴰ.head e)
swapped a b i (Memᴰ.tail (Memᴰ.head e)) = Memᴰ.head e
swapped a b i (Memᴰ.tail (Memᴰ.tail m)) = absurd (Memᴰ.not-nil m)

select_ipv4_route-Includes_example :
    (route.interface ≡ route.interface)
    × (route.source ≡ route.source)
    × (route.prefix_len ≡ route.prefix_len)
select_ipv4_route-Includes_example =
    select_ipv4_route-Includes target (wide ∷ narrow ∷ []) (narrow ∷ wide ∷ []) route route
      (swapped wide narrow) (swapped narrow wide) here_first here_last

drain-push_all_example :
    (drain (push_all empty_queue (bytes "a" ∷ bytes "b" ∷ []))).0
    ≡ Drained.text (bytes "a") ∷ Drained.text (bytes "b") ∷ []
unfolding ℕ_eq?
drain-push_all_example = drain-push_all (bytes "a" ∷ bytes "b" ∷ [])
