-- ===== src/Utilities/Base64/RoundTrip.antt =====
-- Decoding what was encoded, in the buffers that the code allots.
use Prim.Native.Nat.{bit_and}
use da4qi.Base.{
  ℕ, suc, ◌+◌, ◌*◌, ◌/◌, ◌%◌, ◌<◌, [], ◌∷◌, ◌++◌, some, le→leb, Bytes, All, length, ◌≡◌, refl, ap,
  ap₂, ◌∙◌, arith, IsByte, ◌>>=◌,
}
use da4qi.Utilities.Base64.{
  tab, equals_sign, encoded_size, decoded_size, encode, c3_0, c3_1, c3_2, push, flush, decode_from,
  decode, base64_encode, base64_decode,
}
use da4qi.Utilities.Base64.Tables.{bits_high, bits_upper, tab-equals_sign, inverse-tab}

-- `decode_from` on one character of the alphabet.
after : Bytes × Bytes → Bytes → Bytes × ℕ
after (c4, written) src = let (rest, n) = decode_from c4 src in (written ++ rest, suc n)

decode_from-tab :
    (c4 src : Bytes) (v : ℕ) → v < 64 → decode_from c4 (tab v ∷ src) ≡ after (push c4 v) src
unfolding decode_from after
decode_from-tab c4 src v h = rw (tab-equals_sign v h, inverse-tab v h) refl

-- Four characters of the alphabet, and the padding behind two or three.
decode_from-four :
    (a b c d : ℕ) (src : Bytes)
    → a < 64
    → b < 64
    → c < 64
    → d < 64
    → (decode_from [] (tab a ∷ tab b ∷ tab c ∷ tab d ∷ src)).0
      ≡ c3_0 a b ∷ c3_1 b c ∷ c3_2 c d ∷ (decode_from [] src).0
unfolding after push
decode_from-four a b c d src ha hb hc hd =
    rw (decode_from-tab [] (tab b ∷ tab c ∷ tab d ∷ src) a ha) (
      rw (decode_from-tab (a ∷ []) (tab c ∷ tab d ∷ src) b hb) (
        rw (decode_from-tab (a ∷ b ∷ []) (tab d ∷ src) c hc)
          (rw (decode_from-tab (a ∷ b ∷ c ∷ []) src d hd) refl)))

decode_from-three :
    (a b c : ℕ)
    → a < 64
    → b < 64
    → c < 64
    → (decode_from [] (tab a ∷ tab b ∷ tab c ∷ equals_sign ∷ [])).0 ≡ c3_0 a b ∷ c3_1 b c ∷ []
unfolding after push
decode_from-three a b c ha hb hc = rw (decode_from-tab [] (tab b ∷ tab c ∷ equals_sign ∷ []) a ha) (
    rw (decode_from-tab (a ∷ []) (tab c ∷ equals_sign ∷ []) b hb) (
      rw (decode_from-tab (a ∷ b ∷ []) (equals_sign ∷ []) c hc)
        (unfold decode_from in unfold flush in refl)))

decode_from-two :
    (a b : ℕ)
    → a < 64
    → b < 64
    → (decode_from [] (tab a ∷ tab b ∷ equals_sign ∷ equals_sign ∷ [])).0 ≡ c3_0 a b ∷ []
unfolding after push
decode_from-two a b ha hb = rw (decode_from-tab [] (tab b ∷ equals_sign ∷ equals_sign ∷ []) a ha) (
    rw (decode_from-tab (a ∷ []) (equals_sign ∷ equals_sign ∷ []) b hb)
      (unfold decode_from in unfold flush in refl))

-- The three octets of a group.
first_octet : (a high : ℕ) → a < 256 → high < 16 → c3_0 (a / 4) (a % 4 * 16 + high) ≡ a
first_octet a high ha h = omega (arith, bits_upper (a % 4 * 16 + high) (omega arith))

second_octet :
    (top b low : ℕ) → top < 4 → b < 256 → low < 4 → c3_1 (top * 16 + b / 16) (low + b % 16 * 4) ≡ b
second_octet top b low ht hb h = omega (arith, bits_upper (low + b % 16 * 4) (omega arith))

third_octet : (c low : ℕ) → c < 256 → low < 16 → c3_2 (c / 64 + low * 4) (c % 64) ≡ c
third_octet c low hc h = omega arith

-- A group as it is written, in terms of quotients and remainders.
encode-one :
    (a : ℕ)
    → a < 256
    → encode (a ∷ []) ≡ tab (a / 4) ∷ tab (a % 4 * 16) ∷ equals_sign ∷ equals_sign ∷ []
unfolding encode
encode-one a ha =
    ap (λ x. tab x ∷ tab (a % 4 * 16) ∷ equals_sign ∷ equals_sign ∷ []) ((bits_high a ha).0)

encode-two :
    (a b : ℕ)
    → a < 256
    → b < 256
    → encode (a ∷ b ∷ [])
      ≡ tab (a / 4) ∷ tab (a % 4 * 16 + b / 16) ∷ tab (b % 16 * 4) ∷ equals_sign ∷ []
unfolding encode
encode-two a b ha hb =
    ap₂ (λ x y. tab x ∷ tab (a % 4 * 16 + y) ∷ tab (b % 16 * 4) ∷ equals_sign ∷ [])
      ((bits_high a ha).0) ((bits_high b hb).1)

encode-three :
    (a b c : ℕ) (s : Bytes)
    → a < 256
    → b < 256
    → c < 256
    → encode (a ∷ b ∷ c ∷ s)
      ≡ tab (a / 4)
        ∷ tab (a % 4 * 16 + b / 16)
        ∷ tab (c / 64 + b % 16 * 4)
        ∷ tab (c % 64)
        ∷ encode s
unfolding encode
encode-three a b c s ha hb hc =
    ap₂
      (λ x y.
        tab x
        ∷ tab (a % 4 * 16 + y)
        ∷ tab (bit_and c 0xc0 / 64 + b % 16 * 4)
        ∷ tab (c % 64)
        ∷ encode s)
      ((bits_high a ha).0) ((bits_high b hb).1)
    ∙ ap
        (λ z.
          tab (a / 4) ∷ tab (a % 4 * 16 + b / 16) ∷ tab (z + b % 16 * 4) ∷ tab (c % 64) ∷ encode s)
        ((bits_high c hc).2)

decode-encode : (s : Bytes) → All IsByte s → (decode (encode s)).0 ≡ s
unfolding decode
decode-encode [] h = unfold encode in unfold decode_from in unfold flush in refl
decode-encode (a ∷ []) (ha, _) =
    ap (λ d. (decode d).0) (encode-one a ha)
    ∙ decode_from-two (a / 4) (a % 4 * 16) (omega arith) (omega arith)
    ∙ ap (λ x. x ∷ []) (ap (c3_0 (a / 4)) (omega arith) ∙ first_octet a 0 ha (omega arith))
decode-encode (a ∷ b ∷ []) (ha, (hb, _)) =
    ap (λ d. (decode d).0) (encode-two a b ha hb)
    ∙ decode_from-three (a / 4) (a % 4 * 16 + b / 16) (b % 16 * 4) (omega arith) (omega arith)
        (omega arith)
    ∙ ap₂ (λ x y. x ∷ y ∷ []) (first_octet a (b / 16) ha (omega arith))
        (ap (c3_1 (a % 4 * 16 + b / 16)) (omega arith)
          ∙ second_octet (a % 4) b 0 (omega arith) hb (omega arith))
decode-encode (a ∷ b ∷ c ∷ s) (ha, (hb, (hc, hs))) =
    ap (λ d. (decode d).0) (encode-three a b c s ha hb hc)
    ∙ decode_from-four (a / 4) (a % 4 * 16 + b / 16) (c / 64 + b % 16 * 4) (c % 64) (encode s)
        (omega arith) (omega arith) (omega arith) (omega arith)
    ∙ ap₂ ◌∷◌ (first_octet a (b / 16) ha (omega arith)) (
        ap₂ ◌∷◌ (second_octet (a % 4) b (c / 64) (omega arith) hb (omega arith))
          (ap₂ ◌∷◌ (third_octet c (b % 16) hc (omega arith)) (decode-encode s hs)))

pub length-encode : (s : Bytes) → length (encode s) ≡ encoded_size (length s)
unfolding encode encoded_size
length-encode [] = refl
length-encode (a ∷ []) = refl
length-encode (a ∷ b ∷ []) = refl
length-encode (a ∷ b ∷ c ∷ s) = ground (arith, length-encode s)

-- The number of characters that encoding writes is the size of the buffer that it is given.
pub base64_encode-some :
    (s : Bytes)
    → (base64_encode s ≡ some (encode s)) × (length (encode s) ≡ encoded_size (length s))
unfolding base64_encode
base64_encode-some s = (
  rw (le→leb (length (encode s)) (encoded_size (length s)) (omega (arith, length-encode s))) refl,
  length-encode s,
)

-- Whatever bytes are encoded, decoding gives them back, and neither direction writes outside of its
-- buffer.
pub base64_decode-base64_encode :
    (s : Bytes) → All IsByte s → (base64_encode s >>= base64_decode) ≡ some s
unfolding base64_decode
base64_decode-base64_encode s h =
    ap (λ o. o >>= base64_decode) (base64_encode-some s).0
    ∙ rw (decode-encode s h) (
        rw
          (le→leb (length s) (decoded_size (length (encode s)))
            (unfold decoded_size in unfold encoded_size in omega (arith, length-encode s)))
          refl)
