-- ===== src/Utilities/Base64.antt =====
-- base64_utilities.cpp. `x & (2^k - 1)` is `x % 2^k`, `x >> k` is `x / 2^k` and `x << k` is
-- `x * 2^k`. The inverse of a character that stands for nothing, -1 in the table, is `none`.
pub mod Tables
pub mod RoundTrip
use Prim.Native.Nat.{bit_and}
use da4qi.Base.{
  ℕ, suc, zero, ◌+◌, ◌*◌, ◌/◌, ◌%◌, ◌^◌, List, [], ◌∷◌, ◌++◌, Option, none, some, if◌then◌else◌,
  leb, ◌==◌, Bytes, codes, length, get_or, replicate, ◌≡◌, refl,
}

get_alphabet : Bytes
get_alphabet = codes "ABCDEFGHIJKLMNOPQRSTUVWXYZabcdefghijklmnopqrstuvwxyz0123456789+/"

-- `count` entries of the inverse table, from `v` on.
abbrev entries : ℕ → ℕ → List (Option ℕ)
entries v zero = []
entries v (suc count) = some v ∷ entries (suc v) count

pub get_inverse : List (Option ℕ)
get_inverse =
    replicate 43 none
    ++ some 62 ∷ replicate 3 none
    ++ some 63 ∷ entries 52 10
    ++ replicate 7 none
    ++ entries 0 26
    ++ replicate 6 none
    ++ entries 26 26
    ++ replicate 133 none

pub encoded_size : ℕ → ℕ
encoded_size n = 4 * ((n + 2) / 3)

pub decoded_size : ℕ → ℕ
decoded_size n = n / 4 * 3

-- `tab[v]`.
pub tab : ℕ → ℕ
unfolding get_alphabet
tab v = get_or get_alphabet v 0

abbrev equals_sign : ℕ
equals_sign = 61

-- The characters that `encode` writes.
pub encode : Bytes → Bytes
unfolding tab
encode (a ∷ b ∷ c ∷ rest) =
    tab (bit_and a 0xfc / 2 ^ 2)
    ∷ tab (a % 2 ^ 2 * 2 ^ 4 + bit_and b 0xf0 / 2 ^ 4)
    ∷ tab (bit_and c 0xc0 / 2 ^ 6 + b % 2 ^ 4 * 2 ^ 2)
    ∷ tab (c % 2 ^ 6)
    ∷ encode rest
encode (a ∷ b ∷ []) =
    tab (bit_and a 0xfc / 2 ^ 2)
    ∷ tab (a % 2 ^ 2 * 2 ^ 4 + bit_and b 0xf0 / 2 ^ 4)
    ∷ tab (b % 2 ^ 4 * 2 ^ 2)
    ∷ equals_sign
    ∷ []
encode (a ∷ []) =
    tab (bit_and a 0xfc / 2 ^ 2) ∷ tab (a % 2 ^ 2 * 2 ^ 4) ∷ equals_sign ∷ equals_sign ∷ []
encode [] = []

-- `c3[0]`, `c3[1]` and `c3[2]`.
abbrev c3_0 : ℕ → ℕ → ℕ
c3_0 a b = (a * 2 ^ 2 + bit_and b 0x30 / 2 ^ 4) % 2 ^ 8

abbrev c3_1 : ℕ → ℕ → ℕ
c3_1 b c = (b % 2 ^ 4 * 2 ^ 4 + bit_and c 0x3c / 2 ^ 2) % 2 ^ 8

abbrev c3_2 : ℕ → ℕ → ℕ
c3_2 c d = (c % 2 ^ 2 * 2 ^ 6 + d) % 2 ^ 8

-- A value more in `c4`: what `c4` holds then, and the octets written when it was full.
push : Bytes → ℕ → Bytes × Bytes
push (a ∷ b ∷ c ∷ c4) d = ([], c3_0 a b ∷ c3_1 b c ∷ c3_2 c d ∷ [])
push c4 v = (c4 ++ v ∷ [], [])

-- The `if (i)` behind the loop: `i - 1` octets, which read no entry of `c4` that is not set. The code also
-- computes the third octet there, from entries that may not be set, and does not use it.
flush : Bytes → Bytes
flush (a ∷ b ∷ c ∷ c4) = c3_0 a b ∷ c3_1 b c ∷ []
flush (a ∷ b ∷ []) = c3_0 a b ∷ []
flush c4 = []

-- The loop, with the values in `c4`: the octets written and the number of characters read.
decode_from : Bytes → Bytes → Bytes × ℕ
unfolding get_inverse push flush
decode_from c4 [] = (flush c4, 0)
decode_from c4 (ch ∷ src) =
    if ch == equals_sign then (flush c4, 0) else elim (get_or get_inverse ch none) [
      | none ↦ (flush c4, 0)
      | some v ↦
          let (c4', written) = push c4 v in
          let (rest, n) = decode_from c4' src in (written ++ rest, suc n)
    ]

pub decode : Bytes → Bytes × ℕ
unfolding decode_from
decode src = decode_from [] src

-- `dest` is resized to `encoded_size` and then cut to what was written; `none` when `encode` writes
-- outside of it. In `base64_decode` it is resized to `decoded_size`.
abbrev within : ℕ → Bytes → Option Bytes
within size dest = if leb (length dest) size then some dest else none

unfoldable pub base64_encode : Bytes → Option Bytes
unfolding encoded_size encode
base64_encode data' = within (encoded_size (length data')) (encode data')

unfoldable pub base64_decode : Bytes → Option Bytes
unfolding decoded_size decode
base64_decode data' = within (decoded_size (length data')) (decode data').0

encode_foobar : base64_encode (codes "foobar") ≡ some (codes "Zm9vYmFy")
unfolding base64_encode
encode_foobar = refl

decode_fooba : base64_decode (codes "Zm9vYmE=") ≡ some (codes "fooba")
unfolding base64_decode
decode_fooba = refl

-- Without its padding the same text does not fit.
decode_unpadded : base64_decode (codes "Zm9vYmE") ≡ none
unfolding base64_decode
decode_unpadded = refl
