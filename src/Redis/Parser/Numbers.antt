-- ===== src/Redis/Parser/Numbers.antt =====
-- `buf_to_long` reads what `std::to_string` prints.
use da4qi.Base.{
  ℕ, suc, ◌+◌, ◌-◌, ◌*◌, ◌%◌, ◌^◌, ◌≤◌, ◌<◌, [], ◌∷◌, ◌≡◌, refl, ap, ◌∙◌, arith, Bytes, All,
  is_empty, false, ◌==◌,
}
use da4qi.Base.Int.{ℤ, pos, negsuc, IsInt64, of_word64, of_word64-pos, of_word64-neg}
use da4qi.Base.Decimal.{
  to_string, to_string_ℤ, to_string-IsDigit, is_empty-to_string, value, value-to_string, IsDigit,
}
use da4qi.Redis.Parser.{buf_to_long, accumulate}

le-value : (s : Bytes) (n : ℕ) → n ≤ value n s
unfolding value
le-value [] n = omega arith
le-value (c ∷ s) n = omega (arith, le-value s (n * 10 + (c - b'0')))

-- While the number fits, nothing wraps around.
accumulate-value :
    (s : Bytes) (n : ℕ) → All IsDigit s → value n s < 2 ^ 64 → accumulate n s ≡ value n s
unfolding accumulate value
accumulate-value [] n d h = refl
accumulate-value (c ∷ s) n (d, ds) h =
    let exact : (n * 10 + c + 2 ^ 64 - b'0') % 2 ^ 64 ≡ n * 10 + (c - b'0') =
      omega (arith, le-value s (n * 10 + (c - b'0'))) in
    rw exact (accumulate-value s (n * 10 + (c - b'0')) ds h)

buf_to_long-digits :
    (s : Bytes) → All IsDigit s → is_empty s ≡ false → buf_to_long s ≡ of_word64 (accumulate 0 s)
unfolding buf_to_long
buf_to_long-digits [] d e = cc
buf_to_long-digits (c ∷ s) (d, ds) e =
    let not_minus : (c == b'-') ≡ false = ground arith in rw not_minus refl

accumulate-to_string : (n : ℕ) → n < 2 ^ 64 → accumulate 0 (to_string n) ≡ n
accumulate-to_string n h =
    accumulate-value (to_string n) 0 (to_string-IsDigit n) (omega (arith, value-to_string n))
    ∙ value-to_string n

pub buf_to_long-to_string : (n : ℕ) → n < 2 ^ 63 → buf_to_long (to_string n) ≡ pos n
buf_to_long-to_string n h =
    buf_to_long-digits (to_string n) (to_string-IsDigit n) (is_empty-to_string n)
    ∙ ap of_word64 (accumulate-to_string n (omega arith))
    ∙ of_word64-pos n h

-- The decimal text of a 64-bit signed number, its sign included, is read as that number.
pub buf_to_long-to_string_ℤ : (i : ℤ) → IsInt64 i → buf_to_long (to_string_ℤ i) ≡ i
unfolding to_string_ℤ
buf_to_long-to_string_ℤ (pos n) h = buf_to_long-to_string n h
buf_to_long-to_string_ℤ (negsuc n) h =
    unfold buf_to_long in
    rw (is_empty-to_string (suc n), accumulate-to_string (suc n) (omega arith)) (of_word64-neg n h)
