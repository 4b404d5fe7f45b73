-- ===== src/Config/Text.antt =====
-- Operations of the standard library on text in UTF-8 that src/config.rs uses.
use remote_open_power.Base.{
  ℕ, zero, suc, Bytes, Bool, false, List, [], ◌∷◌, Option, none, some, ◌==◌, ◌&&◌, ◌||◌, ltb, leb,
  length, drop, if◌then◌else◌, is_ascii_digit, ◌-◌, nat_eq, list_eq, starts_with,
}

abbrev pub reverse : Bytes → Bytes → Bytes
reverse acc [] = acc
reverse acc (x ∷ xs) = reverse (x ∷ acc) xs

-- The length of the white space character at the start, zero for none.
unfoldable pub whitespace : Bytes → ℕ
whitespace [] = 0
whitespace (a ∷ []) = if leb 9 a && leb a 13 || a == 32 then 1 else 0
whitespace (a ∷ b ∷ []) =
    if leb 9 a && leb a 13 || a == 32
    then 1
    else if a == 0xc2 && (b == 0x85 || b == 0xa0)
    then 2
    else 0
whitespace (a ∷ b ∷ c ∷ rest) =
    if leb 9 a && leb a 13 || a == 32
    then 1
    else if a == 0xc2 && (b == 0x85 || b == 0xa0)
    then 2
    else if (a == 0xe1 && b == 0x9a && c == 0x80)
        || (a == 0xe2
            && b == 0x80
            && (leb 0x80 c && leb c 0x8a || c == 0xa8 || c == 0xa9 || c == 0xaf))
        || (a == 0xe2 && b == 0x81 && c == 0x9f)
        || (a == 0xe3 && b == 0x80 && c == 0x80)
    then 3
    else 0

-- `trim_start`, on fuel: each round drops a byte at least.
unfoldable pub trim_start : ℕ → Bytes → Bytes
trim_start zero s = s
trim_start (suc fuel) s =
    let rest = trim_start fuel (drop (whitespace s) s) in if whitespace s == 0 then s else rest

-- The white space character at the end of the text whose bytes are given in reverse.
abbrev pub last_whitespace : Bytes → ℕ
last_whitespace [] = 0
last_whitespace (a ∷ []) = whitespace (a ∷ [])
last_whitespace (b ∷ a ∷ []) =
    if whitespace (b ∷ []) == 1 then 1 else if whitespace (a ∷ b ∷ []) == 2 then 2 else 0
last_whitespace (c ∷ b ∷ a ∷ rest) =
    if whitespace (c ∷ []) == 1
    then 1
    else if whitespace (b ∷ c ∷ []) == 2
    then 2
    else if whitespace (a ∷ b ∷ c ∷ []) == 3
    then 3
    else 0

unfoldable pub trim_reversed : ℕ → Bytes → Bytes
trim_reversed zero s = s
trim_reversed (suc fuel) s =
    let rest = trim_reversed fuel (drop (last_whitespace s) s) in
    if last_whitespace s == 0 then s else rest

unfoldable pub trim : Bytes → Bytes
trim s =
    let left = trim_start (length s) s in reverse [] (trim_reversed (length left) (reverse [] left))

-- `chars().any(char::is_control)`
unfoldable pub has_control : Bytes → Bool
has_control [] = false
has_control (a ∷ []) = ltb a 32 || a == 127
has_control (a ∷ b ∷ rest) =
    ltb a 32 || a == 127 || (a == 0xc2 && leb 0x80 b && leb b 0x9f) || has_control (b ∷ rest)

abbrev pub strip_prefix : Bytes → Bytes → Option Bytes
strip_prefix p s = if starts_with s p then some (drop (length p) s) else none

abbrev pub ends_with : Bytes → Bytes → Bool
ends_with s p = starts_with (reverse [] s) (reverse [] p)

abbrev pub is_ascii_control : ℕ → Bool
is_ascii_control b = ltb b 32 || b == 127

abbrev pub is_ascii_hexdigit : ℕ → Bool
is_ascii_hexdigit b = is_ascii_digit b || leb 65 b && leb b 70 || leb 97 b && leb b 102

-- The value of a hexadecimal digit.
abbrev pub hex_value : ℕ → ℕ
hex_value b = if leb b 57 then b - 48 else if leb b 70 then b - 55 else b - 87

-- `split`, with the bytes since the last separator in reverse.
abbrev pub split_from : ℕ → Bytes → Bytes → List Bytes
split_from separator acc [] = reverse [] acc ∷ []
split_from separator acc (b ∷ s) =
    if b == separator
    then reverse [] acc ∷ split_from separator [] s
    else split_from separator (b ∷ acc) s

abbrev pub split : ℕ → Bytes → List Bytes
split separator s = split_from separator [] s
