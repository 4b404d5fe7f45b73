-- ===== src/Protocol/Headers.antt =====
-- `canonical_headers` of src/protocol.rs with `is_header_name` and `is_header_value`.
pub mod Canonical
use remote_open_power.Base.{
  ℕ, Bytes, bytes, Bool, true, false, List, [], ◌∷◌, map, ◌+◌, Result, ok, err, fail_if, ◌>>=◌,
  ◌>>◌, ◌||◌, ◌&&◌, not, ltb, leb, ◌==◌, length, is_empty, is_some_and, first, last, all, contains,
  starts_with, to_ascii_lowercase, bytes_le, is_ascii_alphanumeric, is_ascii_lowercase,
  is_ascii_digit, if◌then◌else◌, nat_eq, list_eq, u64_max,
}
use remote_open_power.Base.Sort.{sort_by}
use remote_open_power.Protocol.Message.{
  Header, ProtocolError, limit, header, max_headers, max_header_bytes,
}

unfoldable pub is_header_name : Bytes → Bool
is_header_name value =
    not (is_empty value)
    && leb (length value) 32
    && is_some_and (first value) is_ascii_alphanumeric
    && is_some_and (last value) is_ascii_alphanumeric
    && all (λ b. is_ascii_lowercase b || is_ascii_digit b || b == b'-') value

unfoldable pub is_header_value : Bytes → Bool
is_header_value value =
    not (is_empty value)
    && leb (length value) 256
    && not (is_some_and (first value) (λ b. b == b' '))
    && not (is_some_and (last value) (λ b. b == b' '))
    && all (λ b. leb 0x20 b && leb b 0x7e) value

abbrev pub name_le : Header → Header → Bool
name_le left right = bytes_le left.name right.name

abbrev pub is_reserved : Bytes → Bool
is_reserved name = starts_with name (bytes "rop-") || starts_with name (bytes "x-rop-")

abbrev pub lower_name : Header → Header
lower_name h = record h { name = map to_ascii_lowercase h.name }

-- `usize::checked_add`, with `None` as the error `Limit`; a `usize` has 64 bits.
abbrev pub checked_add : ℕ → ℕ → Result ProtocolError ℕ
checked_add a b = if ltb u64_max (a + b) then err limit else ok (a + b)

-- The loop over the sorted headers: `seen` and `total` are its variables, and the result is the
-- list with the names lower-cased and the final total.
unfoldable pub scan_headers : List Bytes → ℕ → List Header → Result ProtocolError (List Header × ℕ)
scan_headers seen total [] = ok ([], total)
scan_headers seen total (h ∷ hs) = do
  fail_if (not (is_header_name h.name) || not (is_header_value h.value)) header
  let h' = lower_name h
  fail_if (is_reserved h'.name) header
  fail_if (contains seen h'.name) header
  t ← checked_add total (length h'.name)
  t' ← checked_add t (length h'.value)
  (rest, final) ← scan_headers (h'.name ∷ seen) t' hs
  ok (h' ∷ rest, final)

unfoldable pub canonical_headers : List Header → Result ProtocolError (List Header)
canonical_headers headers = do
  fail_if (ltb max_headers (length headers)) limit
  (scanned, total) ← scan_headers [] 0 (sort_by name_le headers)
  fail_if (ltb max_header_bytes total) limit
  ok (sort_by name_le scanned)
