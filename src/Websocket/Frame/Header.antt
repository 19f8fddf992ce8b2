-- ===== src/Websocket/Frame/Header.antt =====
-- The first phases of a round of `Parse`: the two fixed bytes and the extended length.
use Prim.Native.Nat.{bit_and}
use da4qi.Base.{
  ℕ, suc, ◌%◌, ◌^◌, ◌<◌, ◌≤◌, min, List, [], ◌∷◌, ◌++◌, true, false, ◌≡◌, refl, ap, ◌∙◌, inl, inr,
  arith, Bytes, length, ◌==◌, leb,
}
use da4qi.Websocket.Frame.{
  FrameHeader, FrameParser, Message, e_extened_payload_len, new_parser, big_endian, after_length,
  zero_header, skip, parse_fixed_header, parse_payload_len, parse_extened_payload_len,
  decode_extened_payload_len, try_fixed_header, try_payload_len, try_extened_payload_len,
  try_masking_key, try_payload, round,
}
use da4qi.Websocket.Frame.Octets.{IsFlag}
use da4qi.Websocket.Frame.Body.{key_and_payload, measured, fresh, message}

-- From the extended length on.
unfoldable pub from_length : FrameParser → Bytes → FrameParser × Bytes
unfolding key_and_payload
from_length p data' =
    let (q, rest) = try_extened_payload_len p.parser_step p data' in key_and_payload q rest

pub round-two_bytes :
    (ms : List Message) (a b : ℕ) (tail : Bytes)
    → round (fresh ms) (a ∷ b ∷ tail)
      ≡ from_length (parse_payload_len (parse_fixed_header (fresh ms) a) b) tail
unfolding round from_length new_parser try_fixed_header try_payload_len
round-two_bytes ms a b tail = refl

-- A frame whose length is 0 ends behind its second byte, also where that has the mask bit.
two_bytes_empty :
    (ms : List Message) (a b : ℕ)
    → b % 2 ^ 7 ≡ 0
    → parse_payload_len (parse_fixed_header (fresh ms) a) b
      ≡ fresh (ms ++ message [] (a % 2 ^ 4) (bit_and a 0xf0) ∷ [])
unfolding parse_payload_len parse_fixed_header new_parser
two_bytes_empty ms a b e = rw e refl

-- A frame whose length is 0 ends behind its second byte, whatever that has as its mask bit: a masking
-- key that follows is not taken.
pub round-empty :
    (ms : List Message) (a b : ℕ) (rest : Bytes)
    → b % 2 ^ 7 ≡ 0
    → round (fresh ms) (a ∷ b ∷ rest)
      ≡ (fresh (ms ++ message [] (a % 2 ^ 4) (bit_and a 0xf0) ∷ []), rest)
unfolding from_length key_and_payload try_extened_payload_len try_masking_key try_payload new_parser
round-empty ms a b rest e =
    round-two_bytes ms a b rest ∙ ap (λ p. from_length p rest) (two_bytes_empty ms a b e)

-- The header after the first two bytes `a` and `b`, for the length `len`.
abbrev pub header : ℕ → ℕ → ℕ → ℕ → FrameHeader
header a mask n len = record zero_header {
  fin = bit_and a 0xf0;
  rsv1 = bit_and a 0x40;
  rsv2 = bit_and a 0x20;
  rsv3 = bit_and a 0x10;
  opcode = a % 2 ^ 4;
  mask = mask;
  payload_len = n;
  payload_realy_len = len;
}

pub two_bytes_short :
    (ms : List Message) (a b mask n : ℕ)
    → bit_and b 0x80 ≡ mask
    → b % 2 ^ 7 ≡ n
    → 0 < n
    → n ≤ 125
    → parse_payload_len (parse_fixed_header (fresh ms) a) b
      ≡ measured (after_length mask) 0 (header a mask n n) ms
unfolding parse_payload_len parse_fixed_header new_parser
two_bytes_short ms a b mask n e f pos small =
    let some_len : (n == 0) ≡ false = ground arith in
    let fits : leb n 125 ≡ true = ground arith in rw (e, f) (rw (some_len, fits) refl)

pub two_bytes_long :
    (ms : List Message) (a b mask n : ℕ)
    → bit_and b 0x80 ≡ mask
    → b % 2 ^ 7 ≡ n
    → 125 < n
    → parse_payload_len (parse_fixed_header (fresh ms) a) b
      ≡ measured e_extened_payload_len 0 (header a mask n 0) ms
unfolding parse_payload_len parse_fixed_header new_parser
two_bytes_long ms a b mask n e f large =
    let some_len : (n == 0) ≡ false = ground arith in
    let extended : leb n 125 ≡ false = ground arith in rw (e, f) (rw (some_len, extended) refl)

pub extended_16 :
    (ms : List Message) (a mask x y : ℕ) (tail : Bytes)
    → try_extened_payload_len e_extened_payload_len
        (measured e_extened_payload_len 0 (header a mask 126 0) ms)
        (x ∷ y ∷ tail)
      ≡ (
        measured
            (after_length mask)
            2
            (record (header a mask 126 (big_endian 0 (x ∷ y ∷ []))) {
              ext_payload_len_16 = x ∷ y ∷ [];
            })
            ms,
        tail,
      )
unfolding try_extened_payload_len parse_extened_payload_len decode_extened_payload_len skip
extended_16 ms a mask x y tail =
    let two : min 2 (suc (suc (length tail))) ≡ 2 = omega arith in rw two refl

pub extended_64 :
    (ms : List Message) (a mask b₀ b₁ b₂ b₃ b₄ b₅ b₆ b₇ : ℕ) (tail : Bytes)
    → let ext : Bytes = b₀ ∷ b₁ ∷ b₂ ∷ b₃ ∷ b₄ ∷ b₅ ∷ b₆ ∷ b₇ ∷ [] in
      try_extened_payload_len e_extened_payload_len
        (measured e_extened_payload_len 0 (header a mask 127 0) ms)
        (ext ++ tail)
      ≡ (
        measured
            (after_length mask)
            8
            (record (header a mask 127 (big_endian 0 ext)) { ext_payload_len_64 = ext })
            ms,
        tail,
      )
unfolding try_extened_payload_len parse_extened_payload_len decode_extened_payload_len skip
extended_64 ms a mask b₀ b₁ b₂ b₃ b₄ b₅ b₆ b₇ tail =
    let eight : min 8 (suc (suc (suc (suc (suc (suc (suc (suc (length tail))))))))) ≡ 8 =
      omega arith in
    rw eight refl

pub not_extended :
    (mask : ℕ)
    → IsFlag mask
    → (p : FrameParser) (data' : Bytes)
    → try_extened_payload_len (after_length mask) p data' ≡ (p, data')
unfolding try_extened_payload_len
not_extended mask (inl e) p data' = rw e refl
not_extended mask (inr e) p data' = rw e refl
