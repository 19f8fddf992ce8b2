-- ===== src/Utilities/Http/Encoded.antt =====
-- The characters of an encoded text.
use da4qi.Base.{
  ℕ, ◌/◌, ◌%◌, [], ◌∷◌, Bool, true, not, ◌&&◌, ◌||◌, Bool-cases, ltb, ◌==◌, Bytes, IsByte, All, ◌≡◌,
  refl, inl, inr, arith,
}
use da4qi.Base.Bits.{true_below, true_below_lem}
use da4qi.Utilities.Http.{is_kept, hex_digt, url_encode}

-- A character that may stand in an encoded text.
abbrev pub is_encoded : ℕ → Bool
is_encoded x = ltb 32 x && ltb x 127 && not (x == b'&') && not (x == b'=')

kept_encoded : true_below 256 (λ c. not (is_kept c) || is_encoded c) ≡ true
unfolding true_below is_kept
kept_encoded = refl

digits_encoded :
    true_below 256 (λ c. is_encoded (hex_digt (c / 16)) && is_encoded (hex_digt (c % 16))) ≡ true
unfolding true_below hex_digt
digits_encoded = refl

pub url_encode-encoded : (s : Bytes) → All IsByte s → All (λ x. is_encoded x ≡ true) (url_encode s)
unfolding url_encode
url_encode-encoded [] h = tt
url_encode-encoded (c ∷ s) (h, hs) = elim (Bool-cases (is_kept c)) [
  | inl kept ↦ rw kept (ground (arith, true_below_lem _ kept_encoded h), url_encode-encoded s hs)
  | inr other ↦ rw other (
    refl,
    (
      ground (arith, true_below_lem _ digits_encoded h),
      (ground (arith, true_below_lem _ digits_encoded h), url_encode-encoded s hs),
    ),
  )
]
