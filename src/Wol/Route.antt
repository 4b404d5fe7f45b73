-- ===== src/Wol/Route.antt =====
-- `select_ipv4_route` of src/wol.rs. An IPv4 address is a number below 2 ^ 32.
pub mod Best
pub mod Order
use remote_open_power.Base.{
  ℕ, zero, suc, Bool, true, false, List, [], ◌∷◌, Option, none, some, Result, ok, err, ◌+◌, ◌-◌,
  ◌*◌, ◌/◌, ◌%◌, ◌^◌, ◌==◌, ◌!=◌, ◌||◌, not, ltb, leb, if◌then◌else◌, nat_eq,
}

abbrev pub u32_max : ℕ
u32_max = 2 ^ 32 - 1

-- `&` of the lowest bits of two numbers.
abbrev pub land : ℕ → ℕ → ℕ → ℕ
land zero a b = 0
land (suc width) a b = land width (a / 2) (b / 2) * 2 + a % 2 * (b % 2)

abbrev pub lor : ℕ → ℕ → ℕ → ℕ
lor width a b = a + b - land width a b

-- `leading_ones` and `trailing_zeros` of a number of a width.
abbrev pub leading_ones : ℕ → ℕ → ℕ
leading_ones zero x = 0
leading_ones (suc width) x =
    let rest = leading_ones width x in if x / 2 ^ width % 2 == 1 then suc rest else 0

abbrev pub trailing_zeros : ℕ → ℕ → ℕ
trailing_zeros zero x = 0
trailing_zeros (suc width) x =
    let rest = trailing_zeros width (x / 2) in if x % 2 == 0 then suc rest else 0

abbrev pub is_loopback : ℕ → Bool
is_loopback a = a / 2 ^ 24 == 127

abbrev pub is_multicast : ℕ → Bool
is_multicast a = a / 2 ^ 28 == 14

pub record Ipv4Interface : Type 0 where
  pub index : ℕ
  pub address : ℕ
  pub netmask : ℕ
  pub up : Bool
  pub broadcast : Bool

pub record Ipv4Route : Type 0 where
  pub interface : ℕ
  pub source : ℕ
  pub broadcast : ℕ
  pub prefix_len : ℕ

-- The route over an interface, unless the loop skips it.
unfoldable pub candidate : ℕ → Ipv4Interface → Option Ipv4Route
candidate target i =
    let prefix_len = leading_ones 32 i.netmask in
    let subnet = land 32 i.address i.netmask in
    if not i.up
      || not i.broadcast
      || i.index == 0
      || i.address == 0
      || is_loopback i.address
      || is_multicast i.address
      || i.address == u32_max
    then none
    else if prefix_len == 0 || prefix_len + trailing_zeros 32 i.netmask != 32
    then none
    else if land 32 target i.netmask != subnet
    then none
    else some (record {
      interface = i.index;
      source = i.address;
      broadcast = lor 32 subnet (u32_max - i.netmask);
      prefix_len = prefix_len;
    })

-- The `match` on the route selected so far, with whether it is ambiguous.
unfoldable pub consider : Option Ipv4Route → Bool → Ipv4Route → Option Ipv4Route × Bool
consider none ambiguous c = (some c, ambiguous)
consider (some best) ambiguous c =
    if ltb best.prefix_len c.prefix_len
    then (some c, false)
    else if c.prefix_len == best.prefix_len
    then (if c.interface != best.interface
        then (some best, true)
        else if ltb c.source best.source
        then (some c, ambiguous)
        else (some best, ambiguous))
    else (some best, ambiguous)

unfoldable pub scan : ℕ → Option Ipv4Route → Bool → List Ipv4Interface → Option Ipv4Route × Bool
scan target selected ambiguous [] = (selected, ambiguous)
scan target selected ambiguous (i ∷ interfaces) = elim (candidate target i) [
  | none ↦ scan target selected ambiguous interfaces
  | some c ↦ let next = consider selected ambiguous c in scan target next.0 next.1 interfaces
]

-- Whether the target has no directed broadcast in the subnet.
unfoldable pub unusable : ℕ → Ipv4Route → Bool
unusable target route =
    let mask = u32_max * 2 ^ (32 - route.prefix_len) % 2 ^ 32 in
    leb 31 route.prefix_len
    || target == land 32 route.source mask
    || target == route.broadcast
    || route.broadcast == u32_max

pub data RouteError : Type 0 where
  not_found ambiguous no_broadcast : RouteError

unfoldable pub select_ipv4_route : ℕ → List Ipv4Interface → Result RouteError Ipv4Route
select_ipv4_route target interfaces =
    let (selected, several) = scan target none false interfaces in
    elim selected [
      | none ↦ err RouteError.not_found
      | some route ↦
          if several
          then err RouteError.ambiguous
          else if unusable target route
          then err RouteError.no_broadcast
          else ok route
    ]
