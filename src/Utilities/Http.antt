-- ===== src/Utilities/Http.antt =====
-- http_utilities.cpp: the encoding of URLs. `static_cast<unsigned char>(ch) >> 4` is `ch / 2^4`. A
-- `char` at 128 or above is negative, so it lies in none of the ranges that are tested.
pub mod Encoded
pub mod RoundTrip
use da4qi.Base.{
  ℕ, ◌+◌, ◌-◌, ◌*◌, ◌/◌, ◌%◌, ◌^◌, List, [], ◌∷◌, Bool, true, false, ◌&&◌, ◌||◌, Option, none, some,
  if◌then◌else◌, leb, ◌==◌, Bytes, codes, get_or, ◌≡◌, refl,
}

pub is_url_encoded : Bytes → Bool
is_url_encoded [] = false
is_url_encoded (c ∷ value) = (c == b'%' || c == b'+') || is_url_encoded value

-- The characters that stay as they are.
pub is_kept : ℕ → Bool
is_kept ch =
    (leb b'0' ch && leb ch b'9')
    || (leb b'A' ch && leb ch b'Z')
    || (leb b'a' ch && leb ch b'z')
    || ch == b'-'
    || ch == b'_'
    || ch == b'!'
    || ch == b'\''
    || ch == b'('
    || ch == b')'
    || ch == b'*'
    || ch == b'~'
    || ch == b'.'

pub hex_digt : ℕ → ℕ
hex_digt i = get_or (codes "0123456789ABCDEF") i 0

unfoldable pub url_encode : Bytes → Bytes
unfolding is_kept hex_digt
url_encode [] = []
url_encode (ch ∷ value) =
    let rest = url_encode value in
    if is_kept ch then ch ∷ rest else b'%' ∷ hex_digt (ch / 2 ^ 4) ∷ hex_digt (ch % 2 ^ 4) ∷ rest

-- The value of a hexadecimal digit.
abbrev digit : ℕ → Option ℕ
digit c =
    if leb b'0' c && leb c b'9'
    then some (c - b'0')
    else if leb b'A' c && leb c b'F'
    then some (c - b'A' + 10)
    else if leb b'a' c && leb c b'f'
    then some (c - b'a' + 10)
    else none

abbrev is_space : ℕ → Bool
is_space c = (leb 9 c && leb c 13) || c == b' '

abbrev digit_or_0 : Option ℕ → ℕ
digit_or_0 none = 0
digit_or_0 (some v) = v

abbrev both_digits : ℕ → Option ℕ → ℕ
both_digits v none = v
both_digits v (some w) = v * 16 + w

-- `static_cast<char>(std::strtol(hex, nullptr, 16))` on a text of two characters, as a byte: spaces
-- and one sign may stand in front, and reading ends at the first character that is no digit.
pub strtol_16 : ℕ → ℕ → ℕ
strtol_16 a b = elim (digit a) [
  | some v ↦ both_digits v (digit b)
  | none ↦
      if is_space a || a == b'+'
      then digit_or_0 (digit b)
      else if a == b'-'
      then (256 - digit_or_0 (digit b)) % 256
      else 0
]

-- What a character becomes that begins no escape.
abbrev pub plus_to_space : ℕ → ℕ
plus_to_space ch = if ch == b'+' then b' ' else ch

unfoldable pub url_decode : Bytes → Bytes
unfolding strtol_16
url_decode [] = []
url_decode (ch ∷ []) = plus_to_space ch ∷ []
url_decode (ch ∷ a ∷ []) = plus_to_space ch ∷ url_decode (a ∷ [])
url_decode (ch ∷ a ∷ b ∷ value) =
    let escaped = url_decode value in
    let rest = url_decode (a ∷ b ∷ value) in
    if ch == b'%' then strtol_16 a b ∷ escaped else plus_to_space ch ∷ rest

unfoldable pub url_decode_if_encoded : Bytes → Bytes
unfolding is_url_encoded url_decode
url_decode_if_encoded value = if is_url_encoded value then url_decode value else value

decode_example : url_decode (codes "a%2Fb+c%2") ≡ codes "a/b c%2"
unfolding url_decode
decode_example = refl
