-- ===== src/Protocol/Headers/Canonical.antt =====
-- What `canonical_headers` of src/protocol.rs returns.
use mathlib.Core.List.{Perm}
use remote_open_power.Base.{
  ℕ, Bytes, true, false, List, [], ◌∷◌, map, ◌+◌, ◌≤◌, ◌≡◌, refl, ap, ◌∙◌, Result, ok, ◌||◌, ◌==◌,
  length, all, All, contains, to_ascii_lowercase, is_ascii_lowercase, is_ascii_digit,
  bytes_le_total, nat_eq, list_eq, arith, u64_max, Result-cases, inl, inr,
}
use remote_open_power.Base.Sort.{
  sort_by, Ordered, sort_by-Ordered, sort_by_of_Ordered, sort_by-perm, length-sort_by,
}
use remote_open_power.Protocol.Message.{Header, ProtocolError, max_headers, max_header_bytes}
use remote_open_power.Protocol.Headers.{
  is_header_name, is_header_value, name_le, is_reserved, scan_headers, canonical_headers,
}

-- A name that passes the check has no capital.
lower_plain :
    (s : Bytes)
    → all (λ b. is_ascii_lowercase b || is_ascii_digit b || b == b'-') s ≡ true
    → map to_ascii_lowercase s ≡ s
lower_plain [] h = refl
lower_plain (c ∷ s) h = ground (arith, lower_plain s)

lower_valid : (s : Bytes) → is_header_name s ≡ true → map to_ascii_lowercase s ≡ s
unfolding is_header_name
lower_valid s h = lower_plain s (ground arith)

pub record IsHeader (h : Header) : Type 0 where
  pub valid_name : is_header_name h.name ≡ true
  pub valid_value : is_header_value h.value ≡ true
  pub unreserved : is_reserved h.name ≡ false

abbrev pub header_bytes : List Header → ℕ
header_bytes [] = 0
header_bytes (h ∷ hs) = length h.name + length h.value + header_bytes hs

-- No name of the list stands in `seen` or twice.
abbrev pub Fresh : List Bytes → List Header → Type 0
Fresh seen [] = Unit
Fresh seen (h ∷ hs) = (contains seen h.name ≡ false) × Fresh (h.name ∷ seen) hs

pub record Scanned (seen : List Bytes) (total : ℕ) (hs ks : List Header) (final : ℕ) : Type 0 where
  pub same : ks ≡ hs
  pub valid : All IsHeader hs
  pub fresh : Fresh seen hs
  pub size : final ≡ total + header_bytes hs

-- One round of the loop that does not fail.
pub record Round (seen : List Bytes) (total : ℕ) (h : Header) (hs ks : List Header) (final : ℕ)
    : Type 0 where
  pub valid : IsHeader h
  pub unseen : contains seen h.name ≡ false
  pub rest : List Header
  pub built : ks ≡ h ∷ rest
  pub next :
      scan_headers (h.name ∷ seen) (total + length h.name + length h.value) hs ≡ ok (rest, final)

abbrev continue : List Bytes → ℕ → Header → List Header → Result ProtocolError (List Header × ℕ)
continue seen total h hs = scan_headers (h.name ∷ seen) (total + length h.name + length h.value) hs

scan-Round :
    (seen : List Bytes) (total : ℕ) (h : Header) (hs ks : List Header) (final : ℕ)
    → scan_headers seen total (h ∷ hs) ≡ ok (ks, final)
    → Round seen total h hs ks final
unfolding scan_headers
scan-Round seen total h hs ks final e = elim (Result-cases (continue seen total h hs)) [
  | inl ((rest, final'), q) ↦ record {
    valid = record {
      valid_name = ground (arith, lower_valid h.name);
      valid_value = ground arith;
      unreserved = ground (arith, lower_valid h.name);
    };
    unseen = ground (arith, lower_valid h.name);
    rest = rest;
    built = ground (arith, lower_valid h.name);
    next = ground (arith, lower_valid h.name);
  }
  | inr (x, q) ↦ absurd (ground (arith, lower_valid h.name))
]

scan_headers-Scanned :
    (seen : List Bytes) (total : ℕ) (hs ks : List Header) (final : ℕ)
    → scan_headers seen total hs ≡ ok (ks, final)
    → Scanned seen total hs ks final
unfolding scan_headers
scan_headers-Scanned seen total [] ks final e = record {
  same = ground arith;
  valid = tt;
  fresh = tt;
  size = ground arith;
}
scan_headers-Scanned seen total (h ∷ hs) ks final e =
    let r = scan-Round seen total h hs ks final e in
    let s =
      scan_headers-Scanned (h.name ∷ seen) (total + length h.name + length h.value) hs r.rest final
        r.next in
    record {
      same = r.built ∙ ap (◌∷◌ h) s.same;
      valid = (r.valid, s.valid);
      fresh = (r.unseen, s.fresh);
      size = s.size ∙ omega arith;
    }

scan_headers_complete :
    (seen : List Bytes) (total : ℕ) (hs : List Header)
    → All IsHeader hs
    → Fresh seen hs
    → total + header_bytes hs ≤ u64_max
    → scan_headers seen total hs ≡ ok (hs, total + header_bytes hs)
unfolding scan_headers
scan_headers_complete seen total [] v f b = ground arith
scan_headers_complete seen total (h ∷ hs) v f b =
    let open_name = lower_valid h.name v.0.valid_name in
    ground (
      arith,
      open_name,
      v.0.valid_name,
      v.0.valid_value,
      v.0.unreserved,
      scan_headers_complete (h.name ∷ seen) (total + length h.name + length h.value) hs v.1 f.1
          (omega arith),
    )

-- The lists that `canonical_headers` leaves as they are.
pub record IsCanonical (hs : List Header) : Type 0 where
  pub few : length hs ≤ max_headers
  pub valid : All IsHeader hs
  pub fresh : Fresh [] hs
  pub small : header_bytes hs ≤ max_header_bytes
  pub ordered : Ordered name_le hs

name_le_total : (g h : Header) → name_le g h ≡ false → name_le h g ≡ true
name_le_total g h e = bytes_le_total g.name h.name e

sorted-IsCanonical :
    (hs js ks : List Header) (final : ℕ)
    → Scanned [] 0 (sort_by name_le hs) js final
    → scan_headers [] 0 (sort_by name_le hs) ≡ ok (js, final)
    → canonical_headers hs ≡ ok ks
    → IsCanonical (sort_by name_le hs) × (ks ≡ sort_by name_le js)
unfolding canonical_headers
sorted-IsCanonical hs js ks final s q e = (
  record {
    few = ground (arith, length-sort_by name_le hs);
    valid = s.valid;
    fresh = s.fresh;
    small = ground (arith, s.size);
    ordered = sort_by-Ordered name_le name_le_total hs;
  },
  ground arith,
)

pub canonical_headers_complete : (hs : List Header) → IsCanonical hs → canonical_headers hs ≡ ok hs
unfolding canonical_headers
canonical_headers_complete hs c =
    let sorted = sort_by_of_Ordered name_le hs c.ordered in
    let scanned = scan_headers_complete [] 0 hs c.valid c.fresh (omega arith) in
    rw (sorted, scanned) (ground (arith, sorted, c.few, c.small))

-- Whenever `canonical_headers` succeeds, its result is canonical (at most 32 headers and 4096 bytes,
-- every name and value valid, no reserved and no repeated name, names ascending), is a permutation
-- of the input, and is left as it is by another call.
pub canonical_headers_sound :
    (hs ks : List Header)
    → canonical_headers hs ≡ ok ks
    → IsCanonical ks × Perm ks hs × (canonical_headers ks ≡ ok ks)
unfolding canonical_headers
canonical_headers_sound hs ks e = elim (Result-cases (scan_headers [] 0 (sort_by name_le hs))) [
  | inl ((js, final), q) ↦
      let s = scan_headers-Scanned [] 0 (sort_by name_le hs) js final q in
      let (c, built) = sorted-IsCanonical hs js ks final s q e in
      let settled : ks ≡ sort_by name_le hs =
        built
        ∙ ap (sort_by name_le) s.same
        ∙ sort_by_of_Ordered name_le (sort_by name_le hs) c.ordered in
      rw settled (c, sort_by-perm name_le hs, canonical_headers_complete (sort_by name_le hs) c)
  | inr (x, q) ↦ absurd (ground arith)
]
