-- ===== src/Tests/Utilities.antt =====
-- Base64 and the encoding of URLs.
use da4qi.Base.{Bytes, length, [], ◌∷◌, codes, some, ◌>>=◌, ◌≡◌, arith}
use da4qi.Utilities.Base64.{encoded_size, encode, base64_encode, base64_decode}
use da4qi.Utilities.Http.{url_encode, url_decode, url_decode_if_encoded}
use da4qi.Utilities.Http.RoundTrip.{url_decode-url_encode, url_decode_if_encoded-url_decode}
use da4qi.Utilities.Base64.RoundTrip.{base64_encode-some, base64_decode-base64_encode}

url_decode-url_encode_test : url_decode (url_encode (200 ∷ codes " a+%")) ≡ 200 ∷ codes " a+%"
url_decode-url_encode_test = url_decode-url_encode (200 ∷ codes " a+%") (omega arith)

plus_decoded : url_decode_if_encoded (codes "a+b") ≡ url_decode (codes "a+b")
plus_decoded = url_decode_if_encoded-url_decode (codes "a+b")

base64_decode-base64_encode_example :
    (base64_encode (codes "fooba") >>= base64_decode) ≡ some (codes "fooba")
base64_decode-base64_encode_example = base64_decode-base64_encode (codes "fooba") (omega arith)

abbrev two_bytes : Bytes
two_bytes = 255 ∷ 0 ∷ []

base64_encode-some_test :
    (base64_encode two_bytes ≡ some (encode two_bytes))
    × (length (encode two_bytes) ≡ encoded_size (length two_bytes))
base64_encode-some_test = base64_encode-some two_bytes
