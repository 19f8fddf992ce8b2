-- ===== src/Websocket/Frame/RoundTrip.antt =====
-- The parser reads back the frames that the builder writes.
use Prim.Native.Nat.{bit_and, bit_or}
use da4qi.Base.{
  ℕ, ◌/◌, ◌%◌, ◌^◌, ◌<◌, ◌≤◌, List, [], ◌∷◌, ◌++◌, append_assoc, true, false, ◌≡◌, refl, ap, ◌∙◌,
  inl, inr, arith, IsByte, Bytes, All, length, ◌==◌, leb, Bool-cases,
}
use da4qi.Websocket.Frame.{
  FrameBuilder, FrameParser, Message, build, length_bytes, big_endian, round,
}
use da4qi.Websocket.Frame.Octets.{
  IsFlag, first_byte-opcode, first_byte-fin, second_byte-len, second_byte-mask,
}
use da4qi.Websocket.Frame.Body.{key_and_payload, body, fresh, message, measured-body}
use da4qi.Websocket.Frame.Header.{
  round-two_bytes, round-empty, from_length, two_bytes_short, two_bytes_long, extended_16,
  extended_64, not_extended,
}

-- A builder that its four setters can produce.
pub record IsBuilder (h : FrameBuilder) : Type 0 where
  pub flag : IsFlag h.fin
  pub type : h.opcode < 16
  pub mask_flag : IsFlag h.mask

length_short :
    (mask len : ℕ) → 0 < len → len ≤ 125 → length_bytes mask len ≡ bit_or (bit_or 0 mask) len ∷ []
unfolding length_bytes
length_short mask len pos small =
    let some_len : (len == 0) ≡ false = ground arith in
    let fits : leb len 125 ≡ true = ground arith in
    let byte : len % 2 ^ 8 ≡ len = omega arith in rw (some_len, fits, byte) refl

length_medium :
    (mask len : ℕ)
    → 125 < len
    → len ≤ 65535
    → length_bytes mask len ≡ bit_or (bit_or 0 mask) 126 ∷ len / 2 ^ 8 % 2 ^ 8 ∷ len % 2 ^ 8 ∷ []
unfolding length_bytes
length_medium mask len large small =
    let some_len : (len == 0) ≡ false = ground arith in
    let extended : leb len 125 ≡ false = ground arith in
    let fits : leb len 65535 ≡ true = ground arith in rw (some_len, extended, fits) refl

long_bytes : ℕ → Bytes
long_bytes len =
    len / 2 ^ 56 % 2 ^ 8
    ∷ len / 2 ^ 48 % 2 ^ 8
    ∷ len / 2 ^ 40 % 2 ^ 8
    ∷ len / 2 ^ 32 % 2 ^ 8
    ∷ len / 2 ^ 24 % 2 ^ 8
    ∷ len / 2 ^ 16 % 2 ^ 8
    ∷ len / 2 ^ 8 % 2 ^ 8
    ∷ len % 2 ^ 8
    ∷ []

length_long :
    (mask len : ℕ)
    → 65535 < len
    → length_bytes mask len ≡ bit_or (bit_or 0 mask) 127 ∷ long_bytes len
unfolding length_bytes long_bytes
length_long mask len large =
    let some_len : (len == 0) ≡ false = ground arith in
    let extended : leb len 125 ≡ false = ground arith in
    let longer : leb len 65535 ≡ false = ground arith in rw (some_len, extended, longer) refl

big_endian-long_bytes : (len : ℕ) → len < 2 ^ 64 → big_endian 0 (long_bytes len) ≡ len
unfolding long_bytes
big_endian-long_bytes len h = omega arith

module _ (h : FrameBuilder) (valid : IsBuilder h) (ms : List Message) (x : ℕ) (xs rest : Bytes)
    (small : length (x ∷ xs) < 2 ^ 32) (octets : All IsByte (x ∷ xs)) where
  abbrev len : ℕ
  len = length (x ∷ xs)

  abbrev first : ℕ
  first = bit_or (bit_or 0 h.fin) h.opcode

  abbrev payload_bytes : Bytes
  payload_bytes = body h.mask h.masking_key (x ∷ xs)

  abbrev second : ℕ → ℕ
  second n = bit_or (bit_or 0 h.mask) n

  abbrev received : FrameParser
  received = fresh (ms ++ message (x ∷ xs) h.opcode h.fin ∷ [])

  -- The message of a header that began with the first byte.
  arrived : fresh (ms ++ message (x ∷ xs) (first % 2 ^ 4) (bit_and first 0xf0) ∷ []) ≡ received
  arrived =
      rw
        (
          first_byte-opcode h.fin h.opcode valid.flag valid.type,
          first_byte-fin h.fin h.opcode valid.flag valid.type,
        )
        refl

  round_short :
      len ≤ 125 → round (fresh ms) (first ∷ second len ∷ (payload_bytes ++ rest)) ≡ (received, rest)
  unfolding from_length
  round_short fits =
      let tail = payload_bytes ++ rest in
      round-two_bytes ms first (second len) tail
      ∙ ap (λ p. from_length p tail)
          (two_bytes_short ms first (second len) h.mask len
            (second_byte-mask h.mask len valid.mask_flag (omega arith))
            (second_byte-len h.mask len valid.mask_flag (omega arith)) (omega arith) fits)
      ∙ ap (λ r. key_and_payload r.0 r.1) (not_extended h.mask valid.mask_flag _ tail)
      ∙ measured-body 0 _ ms x xs refl small h.mask h.masking_key rest refl valid.mask_flag refl
          octets
      ∙ ap (λ p. (p, rest)) arrived

  round_medium :
      125 < len
      → len ≤ 65535
      → round
          (fresh ms)
          (first ∷ second 126 ∷ len / 2 ^ 8 % 2 ^ 8 ∷ len % 2 ^ 8 ∷ (payload_bytes ++ rest))
        ≡ (received, rest)
  unfolding from_length
  round_medium large fits =
      let tail = payload_bytes ++ rest in
      let exact : big_endian 0 (len / 2 ^ 8 % 2 ^ 8 ∷ len % 2 ^ 8 ∷ []) ≡ len = omega arith in
      round-two_bytes ms first (second 126) _
      ∙ ap (λ p. from_length p (len / 2 ^ 8 % 2 ^ 8 ∷ len % 2 ^ 8 ∷ tail))
          (two_bytes_long ms first (second 126) h.mask 126
            (second_byte-mask h.mask 126 valid.mask_flag (omega arith))
            (second_byte-len h.mask 126 valid.mask_flag (omega arith)) (omega arith))
      ∙ ap (λ r. key_and_payload r.0 r.1) (extended_16 ms first h.mask _ _ tail)
      ∙ measured-body 2 _ ms x xs exact small h.mask h.masking_key rest refl valid.mask_flag refl
          octets
      ∙ ap (λ p. (p, rest)) arrived

  round_long :
      65535 < len
      → round (fresh ms) (first ∷ second 127 ∷ (long_bytes len ++ (payload_bytes ++ rest)))
        ≡ (received, rest)
  unfolding from_length long_bytes
  round_long large =
      let tail = payload_bytes ++ rest in
      round-two_bytes ms first (second 127) _
      ∙ ap (λ p. from_length p (long_bytes len ++ tail))
          (two_bytes_long ms first (second 127) h.mask 127
            (second_byte-mask h.mask 127 valid.mask_flag (omega arith))
            (second_byte-len h.mask 127 valid.mask_flag (omega arith)) (omega arith))
      ∙ ap (λ r. key_and_payload r.0 r.1) (extended_64 ms first h.mask _ _ _ _ _ _ _ _ tail)
      ∙ measured-body 8 _ ms x xs (big_endian-long_bytes len (omega arith)) small h.mask
          h.masking_key rest refl valid.mask_flag refl octets
      ∙ ap (λ p. (p, rest)) arrived

-- One round of the loop reads one frame that a builder wrote, of a payload shorter than 2^32 bytes:
-- the payload, with its type and its final flag, reaches the callback, and the parser is as before.
pub round-build :
    (h : FrameBuilder) (ms : List Message) (payload rest : Bytes)
    → IsBuilder h
    → length payload < 2 ^ 32
    → All IsByte payload
    → round (fresh ms) (build h payload ++ rest)
      ≡ (fresh (ms ++ message payload h.opcode h.fin ∷ []), rest)
unfolding build
round-build h ms [] rest valid small octets =
    round-empty ms (bit_or (bit_or 0 h.fin) h.opcode) 0 rest refl
    ∙ rw
        (
          first_byte-opcode h.fin h.opcode valid.flag valid.type,
          first_byte-fin h.fin h.opcode valid.flag valid.type,
        )
        refl
round-build h ms (x ∷ xs) rest valid small octets = elim (Bool-cases (leb (length (x ∷ xs)) 125)) [
  | inl fits ↦
      rw (length_short h.mask (length (x ∷ xs)) (omega arith) (ground arith))
        (round_short h valid ms x xs rest small octets (ground arith))
  | inr large ↦ elim (Bool-cases (leb (length (x ∷ xs)) 65535)) [
    | inl fits ↦
        rw (length_medium h.mask (length (x ∷ xs)) (ground arith) (ground arith))
          (round_medium h valid ms x xs rest small octets (ground arith) (ground arith))
    | inr longer ↦
        rw (length_long h.mask (length (x ∷ xs)) (ground arith), append_assoc)
          (round_long h valid ms x xs rest small octets (ground arith))
  ]
]
