-- ===== src/Config/Address/Accepted.antt =====
-- Which hardware and target addresses src/config.rs accepts.
use remote_open_power.Base.{
  ℕ, Bytes, true, false, [], ◌∷◌, All, Option, ok, ◌==◌, ◌!=◌, ◌&&◌, ◌||◌, not, all, filter, length,
  ◌+◌, ◌*◌, ◌/◌, ◌^◌, ◌≤◌, ◌<◌, ◌≡◌, ◌≢◌, ◌⊎◌, inl, inr, sym, arith, nat_eq, list_eq, Bool-cases,
  Option-cases,
}
use remote_open_power.Config.Text.{trim, is_ascii_hexdigit, hex_value}
use remote_open_power.Config.Address.{
  IpAddr, unmapped, is_special, is_lan_ip, is_scoped_link_local, validate_target_address, parse_mac,
  hex_pairs, is_separator, is_group,
}

hex_value_small : (b : ℕ) → is_ascii_hexdigit b ≡ true → hex_value b < 16
hex_value_small b h = ground (arith, h)

hex_pairs_bytes : (s : Bytes) → all is_ascii_hexdigit s ≡ true → All (λ b. b < 256) (hex_pairs s)
hex_pairs_bytes [] h = tt
hex_pairs_bytes (a ∷ []) h = tt
hex_pairs_bytes (a ∷ b ∷ rest) h =
    let high = hex_value_small a (ground (arith, h)) in
    let low = hex_value_small b (ground (arith, h)) in
    (omega (arith, high, low), hex_pairs_bytes rest (ground (arith, h)))

length-hex_pairs :
    (s : Bytes) → (2 * length (hex_pairs s) ≤ length s) × (length s ≤ 2 * length (hex_pairs s) + 1)
length-hex_pairs [] = (omega arith, omega arith)
length-hex_pairs (a ∷ []) = (omega arith, omega arith)
length-hex_pairs (a ∷ b ∷ rest) =
    (omega (arith, length-hex_pairs rest), omega (arith, length-hex_pairs rest))

-- A hardware address that is accepted has six bytes, is no group address and is not zero, and the
-- broadcast address is a group address.
parse_mac_sound :
    (input mac : Bytes)
    → parse_mac input ≡ ok mac
    → (length mac ≡ 6)
      × All (λ b. b < 256) mac
      × (is_group mac ≡ false)
      × (all (λ b. b == 0) mac ≡ false)
unfolding parse_mac
parse_mac_sound input mac h =
    let compact = filter (λ b. not (is_separator b)) input in
    elim (Bool-cases ((length compact != 12) || not (all is_ascii_hexdigit compact))) [
      | inl bad ↦ absurd (ground (arith, h, bad))
      | inr good ↦
          elim (Bool-cases (
            all (λ b. b == 0) (hex_pairs compact)
            || all (λ b. b == 0xff) (hex_pairs compact)
            || is_group (hex_pairs compact))) [
              | inl bad ↦ absurd (ground (arith, h, good, bad))
              | inr unicast ↦
                  let same : hex_pairs compact ≡ mac = ground (arith, h, good, unicast) in
                  let size : length compact ≡ 12 = ground (arith, good) in
                  rw (sym same) (
                    omega (arith, size, length-hex_pairs compact),
                    hex_pairs_bytes compact (ground (arith, good)),
                    ground (arith, unicast),
                    ground (arith, unicast),
                  )
            ]
    ]

-- The address has these bits before the last `width`.
abbrev pub Within : ℕ → ℕ → ℕ → Type 0
Within a width n = (n * 2 ^ width ≤ a) × (a < (n + 1) * 2 ^ width)

-- The private networks of IPv4; unique local addresses of IPv6, or link-local ones with an interface.
abbrev pub IsLanTarget : IpAddr → ℕ → Type 0
IsLanTarget (IpAddr.v4 a) ipv6_interface = Within a 24 10 ⊎ Within a 20 0xac1 ⊎ Within a 16 0xc0a8
IsLanTarget (IpAddr.v6 a) ipv6_interface =
    Within a 121 0x7e ⊎ (Within a 118 0x3fa × (ipv6_interface ≢ 0))

lan_target :
    (ip : IpAddr) (i : ℕ) → (is_lan_ip ip || is_scoped_link_local ip i) ≡ true → IsLanTarget ip i
lan_target (IpAddr.v4 a) i h = elim (Bool-cases (a / 2 ^ 24 == 10)) [
  | inl here ↦
      inl (let e : a / 2 ^ 24 ≡ 10 = ground (arith, here) in (omega (arith, e), omega (arith, e)))
  | inr not_first ↦ elim (Bool-cases (a / 2 ^ 20 == 0xac1)) [
    | inl here ↦ inr (
        inl (
          let e : a / 2 ^ 20 ≡ 0xac1 = ground (arith, here) in
          (omega (arith, e), omega (arith, e))))
    | inr not_second ↦
        let here : (a / 2 ^ 16 == 0xc0a8) ≡ true = ground (arith, h, not_first, not_second) in
        inr (
          inr (
            let e : a / 2 ^ 16 ≡ 0xc0a8 = ground (arith, here) in
            (omega (arith, e), omega (arith, e))))
  ]
]
lan_target (IpAddr.v6 a) i h = elim (Bool-cases (a / 2 ^ 121 == 0x7e)) [
  | inl here ↦
      inl
        (let e : a / 2 ^ 121 ≡ 0x7e = ground (arith, here) in (omega (arith, e), omega (arith, e)))
  | inr not_local ↦
      let here : (a / 2 ^ 118 == 0x3fa) ≡ true = ground (arith, h, not_local) in
      inr (
        (let e : a / 2 ^ 118 ≡ 0x3fa = ground (arith, here) in
            (omega (arith, e), omega (arith, e))),
        λ zero_index. ground (arith, h, not_local, zero_index),
      )
]

-- Without public targets, an address that is accepted is one of the local network, and no
-- unspecified, broadcast, loopback or multicast address.
pub validate_target_address-IsLanTarget :
    (parse_ip : Bytes → Option IpAddr) (value : Bytes) (i : ℕ) (ip : IpAddr)
    → validate_target_address parse_ip value i false ≡ ok ip
    → IsLanTarget ip i × (is_special ip i ≡ false)
unfolding validate_target_address
validate_target_address-IsLanTarget parse_ip value i ip h =
    elim (Option-cases (parse_ip (trim value))) [
      | inl bad ↦ absurd (ground (arith, h, bad))
      | inr (parsed, found) ↦
          elim (Bool-cases (
            is_special (unmapped parsed) i
            || (not (is_lan_ip (unmapped parsed))
                && not (is_scoped_link_local (unmapped parsed) i)))) [
                  | inl bad ↦ absurd (ground (arith, h, found, bad))
                  | inr good ↦
                      let same : unmapped parsed ≡ ip = ground (arith, h, found, good) in
                      rw (sym same) (
                        lan_target (unmapped parsed) i (ground (arith, good)),
                        ground (arith, good),
                      )
                ]
    ]
