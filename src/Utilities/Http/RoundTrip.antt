-- ===== src/Utilities/Http/RoundTrip.antt =====
-- Decoding what was encoded, and decoding what needs none.
use da4qi.Base.{
  ℕ, ◌/◌, ◌%◌, ◌<◌, [], ◌∷◌, true, false, Bool-cases, not, ◌||◌, if◌then◌else◌, ◌==◌, IsByte, Bytes,
  All, ◌≡◌, refl, sym, ap, ap₂, ◌∙◌, arith, inl, inr,
}
use da4qi.Base.Bits.{true_below, true_below_lem, eq_below}
use da4qi.Utilities.Http.{
  is_url_encoded, is_kept, hex_digt, url_encode, strtol_16, url_decode, url_decode_if_encoded,
}

-- The characters that are kept begin no escape and are no `+`.
kept_plain : true_below 256 (λ c. not (is_kept c) || not (c == b'%' || c == b'+')) ≡ true
unfolding true_below is_kept
kept_plain = refl

escapes : true_below 256 (λ c. strtol_16 (hex_digt (c / 16)) (hex_digt (c % 16)) == c) ≡ true
unfolding true_below strtol_16 hex_digt
escapes = refl

is_kept-plain : (c : ℕ) → c < 256 → is_kept c ≡ true → (c == b'%' || c == b'+') ≡ false
is_kept-plain c h kept = ground (arith, true_below_lem _ kept_plain h)

-- A character that begins no escape and is no `+` is passed on.
url_decode-plain :
    (c : ℕ) (s : Bytes) → (c == b'%' || c == b'+') ≡ false → url_decode (c ∷ s) ≡ c ∷ url_decode s
unfolding url_decode
url_decode-plain c [] h = ground arith
url_decode-plain c (a ∷ []) h = ground arith
url_decode-plain c (a ∷ b ∷ s) h = ground arith

url_decode-escape :
    (a b : ℕ) (s : Bytes) → url_decode (b'%' ∷ a ∷ b ∷ s) ≡ strtol_16 a b ∷ url_decode s
unfolding url_decode
url_decode-escape a b s = refl

url_encode-kept : (c : ℕ) (s : Bytes) → is_kept c ≡ true → url_encode (c ∷ s) ≡ c ∷ url_encode s
unfolding url_encode
url_encode-kept c s h = rw h refl

url_encode-escaped :
    (c : ℕ) (s : Bytes)
    → is_kept c ≡ false
    → url_encode (c ∷ s) ≡ b'%' ∷ hex_digt (c / 16) ∷ hex_digt (c % 16) ∷ url_encode s
unfolding url_encode
url_encode-escaped c s h = rw h refl

-- Every text of bytes is given back by decoding its encoding.
pub url_decode-url_encode : (s : Bytes) → All IsByte s → url_decode (url_encode s) ≡ s
url_decode-url_encode [] h = unfold url_encode in unfold url_decode in refl
url_decode-url_encode (c ∷ s) (h, hs) = elim (Bool-cases (is_kept c)) [
  | inl kept ↦
      ap url_decode (url_encode-kept c s kept)
      ∙ url_decode-plain c (url_encode s) (is_kept-plain c h kept)
      ∙ ap (◌∷◌ c) (url_decode-url_encode s hs)
  | inr escaped ↦
      ap url_decode (url_encode-escaped c s escaped)
      ∙ url_decode-escape (hex_digt (c / 16)) (hex_digt (c % 16)) (url_encode s)
      ∙ ap₂ ◌∷◌
          (eq_below 256 (λ x. strtol_16 (hex_digt (x / 16)) (hex_digt (x % 16))) (λ x. x) escapes c
            h)
          (url_decode-url_encode s hs)
]

url_decode-clear : (s : Bytes) → is_url_encoded s ≡ false → url_decode s ≡ s
unfolding is_url_encoded
url_decode-clear [] h = unfold url_decode in refl
url_decode-clear (c ∷ s) h =
    url_decode-plain c s (ground arith) ∙ ap (◌∷◌ c) (url_decode-clear s (ground arith))

-- Where the test finds no encoded character, decoding changes nothing, so leaving it out is the same.
pub url_decode_if_encoded-url_decode : (s : Bytes) → url_decode_if_encoded s ≡ url_decode s
unfolding url_decode_if_encoded
url_decode_if_encoded-url_decode s = elim (Bool-cases (is_url_encoded s)) [
  | inl encoded ↦ ap (λ b. if b then url_decode s else s) encoded
  | inr clear ↦ ap (λ b. if b then url_decode s else s) clear ∙ sym (url_decode-clear s clear)
]
