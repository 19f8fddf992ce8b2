-- ===== src/Websocket/Frame/Octets.antt =====
-- The bytes of a frame header, field by field, and masking.
use Prim.Native.Nat.{bit_and, bit_or, bit_xor}
use da4qi.Base.{
  ℕ, suc, zero, ◌+◌, ◌%◌, ◌<◌, [], ◌∷◌, ◌++◌, true, ◌≡◌, refl, ap, ap₂, ◌∙◌, ◌⊎◌, inl, inr, arith,
  IsByte, Bytes, All, length, get_or, ◌==◌,
}
use da4qi.Base.Bits.{true_below, eq_below, bit_xor_twice}
use da4qi.Websocket.Frame.{xor_from, key_bytes}

-- A flag of the header: clear, or the top bit of a byte.
abbrev pub IsFlag : ℕ → Type 0
IsFlag f = (f ≡ 0) ⊎ (f ≡ 0x80)

-- The first byte and what the parser takes from it.
fin_set_low : true_below 16 (λ x. bit_or 0x80 x % 16 == x) ≡ true
unfolding true_below
fin_set_low = refl

fin_set_high : true_below 16 (λ x. bit_and (bit_or 0x80 x) 0xf0 == 0x80) ≡ true
unfolding true_below
fin_set_high = refl

fin_clear_low : true_below 16 (λ x. bit_or 0 x % 16 == x) ≡ true
unfolding true_below
fin_clear_low = refl

fin_clear_high : true_below 16 (λ x. bit_and (bit_or 0 x) 0xf0 == 0) ≡ true
unfolding true_below
fin_clear_high = refl

pub first_byte-opcode :
    (fin opcode : ℕ) → IsFlag fin → opcode < 16 → bit_or (bit_or 0 fin) opcode % 16 ≡ opcode
first_byte-opcode fin opcode (inl e) h =
    rw e (eq_below 16 (λ x. bit_or 0 x % 16) (λ x. x) fin_clear_low opcode h)
first_byte-opcode fin opcode (inr e) h =
    rw e (eq_below 16 (λ x. bit_or 0x80 x % 16) (λ x. x) fin_set_low opcode h)

pub first_byte-fin :
    (fin opcode : ℕ) → IsFlag fin → opcode < 16 → bit_and (bit_or (bit_or 0 fin) opcode) 0xf0 ≡ fin
first_byte-fin fin opcode (inl e) h =
    rw e (eq_below 16 (λ x. bit_and (bit_or 0 x) 0xf0) (λ x. 0) fin_clear_high opcode h)
first_byte-fin fin opcode (inr e) h =
    rw e (eq_below 16 (λ x. bit_and (bit_or 0x80 x) 0xf0) (λ x. 0x80) fin_set_high opcode h)

-- The second byte.
mask_set_low : true_below 128 (λ x. bit_or 0x80 x % 128 == x) ≡ true
unfolding true_below
mask_set_low = refl

mask_set_high : true_below 128 (λ x. bit_and (bit_or 0x80 x) 0x80 == 0x80) ≡ true
unfolding true_below
mask_set_high = refl

mask_clear_low : true_below 128 (λ x. bit_or 0 x % 128 == x) ≡ true
unfolding true_below
mask_clear_low = refl

mask_clear_high : true_below 128 (λ x. bit_and (bit_or 0 x) 0x80 == 0) ≡ true
unfolding true_below
mask_clear_high = refl

pub second_byte-len :
    (mask len : ℕ) → IsFlag mask → len < 128 → bit_or (bit_or 0 mask) len % 128 ≡ len
second_byte-len mask len (inl e) h =
    rw e (eq_below 128 (λ x. bit_or 0 x % 128) (λ x. x) mask_clear_low len h)
second_byte-len mask len (inr e) h =
    rw e (eq_below 128 (λ x. bit_or 0x80 x % 128) (λ x. x) mask_set_low len h)

pub second_byte-mask :
    (mask len : ℕ) → IsFlag mask → len < 128 → bit_and (bit_or (bit_or 0 mask) len) 0x80 ≡ mask
second_byte-mask mask len (inl e) h =
    rw e (eq_below 128 (λ x. bit_and (bit_or 0 x) 0x80) (λ x. 0) mask_clear_high len h)
second_byte-mask mask len (inr e) h =
    rw e (eq_below 128 (λ x. bit_and (bit_or 0x80 x) 0x80) (λ x. 0x80) mask_set_high len h)

get_or-IsByte : (m : Bytes) (i : ℕ) → All IsByte m → get_or m i 0 < 256
get_or-IsByte [] i h = omega arith
get_or-IsByte (b ∷ m) zero h = h.0
get_or-IsByte (b ∷ m) (suc i) h = get_or-IsByte m i h.1

-- Masking twice with one key gives the data back.
pub xor_from_twice :
    (mask ds : Bytes) (i : ℕ)
    → All IsByte mask
    → All IsByte ds
    → xor_from mask i (xor_from mask i ds) ≡ ds
unfolding xor_from
xor_from_twice mask [] i hm h = refl
xor_from_twice mask (d ∷ ds) i hm (h, hs) =
    ap₂ ◌∷◌ (bit_xor_twice d (get_or mask (i % 4) 0) h (get_or-IsByte mask (i % 4) hm))
      (xor_from_twice mask ds (suc i) hm hs)

pub length-xor_from : (mask ds : Bytes) (i : ℕ) → length (xor_from mask i ds) ≡ length ds
unfolding xor_from
length-xor_from mask [] i = refl
length-xor_from mask (d ∷ ds) i = ap suc (length-xor_from mask ds (suc i))

pub key_bytes-IsByte : (key : ℕ) → All IsByte (key_bytes key)
unfolding key_bytes
key_bytes-IsByte key = omega arith

-- A masked text is masked in two parts: the index goes on over the second one.
pub xor_from-append :
    (mask xs ys : Bytes) (i : ℕ)
    → xor_from mask i (xs ++ ys) ≡ xor_from mask i xs ++ xor_from mask (i + length xs) ys
unfolding xor_from
xor_from-append mask [] ys i = ap (λ n. xor_from mask n ys) (omega arith)
xor_from-append mask (x ∷ xs) ys i = ap (◌∷◌ (bit_xor x (get_or mask (i % 4) 0))) (
    xor_from-append mask xs ys (suc i)
    ∙ ap (λ n. xor_from mask (suc i) xs ++ xor_from mask n ys) (omega arith))
