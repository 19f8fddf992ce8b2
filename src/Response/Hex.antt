-- ===== src/Response/Hex.antt =====
-- string_utilities.cpp, DecIntToHexStr: the hexadecimal digits of a size.
use da4qi.Base.{
  ℕ, zero, suc, ◌+◌, ◌-◌, ◌*◌, ◌/◌, ◌%◌, ◌<◌, [], ◌∷◌, ◌++◌, Bool, true, ltb, leb, ◌||◌, ◌&&◌,
  if◌then◌else◌, Bytes, All, All-append, ◌≡◌, refl, ◌∙◌, arith, codes, Bool-cases, if-cases, inl,
  inr,
}

abbrev hex_digit : ℕ → ℕ
hex_digit remainder = if ltb remainder 10 then b'0' + remainder else b'A' + remainder - 10

-- The `do … while (quotient > 0)`. A round divides by 16, so one more than the number is enough.
remainders : ℕ → ℕ → Bytes
remainders zero quotient = []
remainders (suc fuel) quotient =
    let rest = remainders fuel (quotient / 16) in
    hex_digit (quotient % 16) ∷ (if ltb 0 (quotient / 16) then rest else [])

abbrev reversed : Bytes → Bytes
reversed [] = []
reversed (c ∷ s) = reversed s ++ c ∷ []

unfoldable pub dec_int_to_hex_str : ℕ → Bytes
unfolding remainders
dec_int_to_hex_str num = reversed (remainders (suc num) num)

-- What a reader of hexadecimal digits makes of them.
abbrev pub is_hex_digit : ℕ → Bool
is_hex_digit c = (leb b'0' c && leb c b'9') || (leb b'A' c && leb c b'F')

abbrev pub hex_of : ℕ → ℕ
hex_of c = if leb c b'9' then c - b'0' else c - b'A' + 10

unfoldable pub hex_value : ℕ → Bytes → ℕ
hex_value n [] = n
hex_value n (c ∷ s) = hex_value (n * 16 + hex_of c) s

-- The value of digits that come with the lowest first.
abbrev low_value : Bytes → ℕ
low_value [] = 0
low_value (c ∷ s) = hex_of c + 16 * low_value s

hex_value-append : (s t : Bytes) (n : ℕ) → hex_value n (s ++ t) ≡ hex_value (hex_value n s) t
unfolding hex_value
hex_value-append [] t n = refl
hex_value-append (c ∷ s) t n = hex_value-append s t (n * 16 + hex_of c)

hex_value-reversed : (s : Bytes) → hex_value 0 (reversed s) ≡ low_value s
unfolding hex_value
hex_value-reversed [] = refl
hex_value-reversed (c ∷ s) =
    hex_value-append (reversed s) (c ∷ []) 0 ∙ omega (arith, hex_value-reversed s)

hex_of-hex_digit : (r : ℕ) → r < 16 → hex_of (hex_digit r) ≡ r
hex_of-hex_digit r h = ground arith

low_value-remainders : (fuel n : ℕ) → n < fuel → low_value (remainders fuel n) ≡ n
unfolding remainders
low_value-remainders zero n h = absurd (omega arith)
low_value-remainders (suc fuel) n h = elim (Bool-cases (ltb 0 (n / 16))) [
  | inl more ↦ rw more (
      omega (
        arith,
        hex_of-hex_digit (n % 16) (omega arith),
        low_value-remainders fuel (n / 16) (ground arith),
      ))
  | inr last ↦ rw last (ground (arith, hex_of-hex_digit (n % 16) (omega arith)))
]

-- The digits are read back as the number.
pub hex_value-dec_int_to_hex_str : (n : ℕ) → hex_value 0 (dec_int_to_hex_str n) ≡ n
unfolding dec_int_to_hex_str
hex_value-dec_int_to_hex_str n =
    hex_value-reversed (remainders (suc n) n) ∙ low_value-remainders (suc n) n (omega arith)

abbrev pub IsHexDigit : ℕ → Type 0
IsHexDigit c = is_hex_digit c ≡ true

remainders-IsHexDigit : (fuel n : ℕ) → All IsHexDigit (remainders fuel n)
unfolding remainders
remainders-IsHexDigit zero n = tt
remainders-IsHexDigit (suc fuel) n = (
  ground arith,
  if-cases (All IsHexDigit) (ltb 0 (n / 16)) _ _ (remainders-IsHexDigit fuel (n / 16)) tt,
)

reversed-IsHexDigit : (s : Bytes) → All IsHexDigit s → All IsHexDigit (reversed s)
reversed-IsHexDigit [] h = tt
reversed-IsHexDigit (c ∷ s) (h, hs) =
    All-append IsHexDigit (reversed s) (c ∷ []) (reversed-IsHexDigit s hs) (h, tt)

pub dec_int_to_hex_str-IsHexDigit : (n : ℕ) → All IsHexDigit (dec_int_to_hex_str n)
unfolding dec_int_to_hex_str
dec_int_to_hex_str-IsHexDigit n =
    reversed-IsHexDigit (remainders (suc n) n) (remainders-IsHexDigit (suc n) n)

hex_of_4660 : dec_int_to_hex_str 48879 ≡ codes "BEEF"
unfolding dec_int_to_hex_str
hex_of_4660 = refl
