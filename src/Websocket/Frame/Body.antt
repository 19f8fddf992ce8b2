-- ===== src/Websocket/Frame/Body.antt =====
-- The last two phases of a round of `Parse`: the masking key and the payload.
use da4qi.Base.{
  ℕ, suc, ◌%◌, ◌^◌, ◌<◌, min, List, [], ◌∷◌, ◌++◌, append_assoc, true, not, ◌≡◌, refl, sym, ap, ◌∙◌,
  inl, inr, arith, IsByte, Bytes, All, length, length-append, drop, take-length-append,
  drop-length-append, replicate, ◌==◌, ==_iff, if◌then◌else◌,
}
use da4qi.Websocket.Frame.{
  FrameHeader, FrameParser, Message, ParserStep, e_masking_key, e_payload_data, new_parser,
  key_bytes, xor_from, deliver, sub32, after_length, skip, parse_masking_key, parse_payload,
  try_masking_key, try_payload,
}
use da4qi.Websocket.Frame.Octets.{IsFlag, xor_from_twice, length-xor_from, key_bytes-IsByte}

-- What arrives as the payload, as the callback is given it.
abbrev pub unmasked : FrameHeader → Bytes → Bytes
unmasked h xs = if h.mask == 0 then xs else xor_from h.masking_key 0 xs

pub length-unmasked : (h : FrameHeader) (xs : Bytes) → length (unmasked h xs) ≡ length xs
length-unmasked h xs = ground (arith, length-xor_from h.masking_key xs 0)

-- A payload that is there as a whole is delivered.
parse_payload_whole :
    (p : FrameParser) (xs rest : Bytes)
    → p.payload ≡ []
    → p.frame_header.payload_realy_len ≡ length xs
    → length xs < 2 ^ 32
    → parse_payload p (xs ++ rest) ≡ (deliver (unmasked p.frame_header xs) p, length xs)
unfolding parse_payload
parse_payload_whole p xs rest empty len small =
    let n : min (sub32 (p.frame_header.payload_realy_len % 2 ^ 32) (length p.payload % 2 ^ 32))
          (length (xs ++ rest))
        ≡ length xs =
      omega (arith, length-append xs rest, ap length empty) in
    let u = unmasked p.frame_header xs in
    let full : (length (p.payload ++ u) == p.frame_header.payload_realy_len) ≡ true =
      (==_iff _ _).1
        (ap (λ q. length (q ++ u)) empty ∙ length-unmasked p.frame_header xs ∙ sym len) in
    rw (n, take-length-append xs rest, full, empty) refl

-- The payload phase.
try_payload_whole :
    (p : FrameParser) (x : ℕ) (xs rest : Bytes)
    → p.payload ≡ []
    → p.frame_header.payload_realy_len ≡ length (x ∷ xs)
    → length (x ∷ xs) < 2 ^ 32
    → try_payload e_payload_data p (x ∷ (xs ++ rest))
      ≡ (deliver (unmasked p.frame_header (x ∷ xs)) p, rest)
unfolding try_payload
try_payload_whole p x xs rest empty len small =
    ap (λ r. skip r (x ∷ (xs ++ rest))) (parse_payload_whole p (x ∷ xs) rest empty len small)
    ∙ (unfold skip in rw (drop-length-append (x ∷ xs) rest) refl)

-- The two last phases of a round.
unfoldable pub key_and_payload : FrameParser → Bytes → FrameParser × Bytes
key_and_payload p data' =
    let (q, rest) = try_masking_key p.parser_step p data' in try_payload q.parser_step q rest

-- The bytes behind the length: the key, if the frame is masked, and the payload.
abbrev pub body : ℕ → ℕ → Bytes → Bytes
body mask key xs = if mask == 0 then xs else key_bytes key ++ xor_from (key_bytes key) 0 xs

-- A parser that knows the length of its payload and stands in the step `step`.
abbrev pub measured : ParserStep → ℕ → FrameHeader → List Message → FrameParser
measured step offset h ms = record {
  parser_step = step;
  payload_len_offset = offset;
  masking_key_pos = 0;
  payload = [];
  frame_header = h;
  messages = ms;
}

abbrev pub fresh : List Message → FrameParser
fresh ms = record new_parser { messages = ms }

abbrev pub message : Bytes → ℕ → ℕ → Message
message payload opcode fin = record { payload = payload; opcode = opcode; fin = not (fin == 0) }

-- What a delivery leaves.
pub deliver-fresh :
    (xs : Bytes) (p : FrameParser)
    → deliver xs p ≡ fresh (p.messages ++ message xs p.frame_header.opcode p.frame_header.fin ∷ [])
unfolding new_parser
deliver-fresh xs p = refl

module _ (offset : ℕ) (h : FrameHeader) (ms : List Message) (x : ℕ) (xs : Bytes)
    (len : h.payload_realy_len ≡ length (x ∷ xs)) (small : length (x ∷ xs) < 2 ^ 32) where
  abbrev pub delivered : FrameParser
  delivered = fresh (ms ++ message (x ∷ xs) h.opcode h.fin ∷ [])

  unmasked_body :
      (rest : Bytes)
      → h.mask ≡ 0
      → key_and_payload (measured e_payload_data offset h ms) (x ∷ (xs ++ rest)) ≡ (delivered, rest)
  unfolding key_and_payload try_masking_key new_parser
  unmasked_body rest clear =
      let plain : unmasked h (x ∷ xs) ≡ x ∷ xs = ground arith in
      try_payload_whole (measured e_payload_data offset h ms) x xs rest refl len small
      ∙ ap (λ ys. (deliver ys (measured e_payload_data offset h ms), rest)) plain

  abbrev with_key : Bytes → FrameParser
  with_key key = record (measured e_payload_data offset h ms) {
    frame_header = record h { masking_key = key };
    masking_key_pos = 4;
  }

  -- The key as it arrives.
  key_phase :
      (a b c d : ℕ) (tail : Bytes)
      → h.masking_key ≡ replicate 4 0
      → try_masking_key e_masking_key (measured e_masking_key offset h ms) (a ∷ b ∷ c ∷ d ∷ tail)
        ≡ (with_key (a ∷ b ∷ c ∷ d ∷ []), tail)
  unfolding try_masking_key parse_masking_key skip
  key_phase a b c d tail zeros =
      let four : min 4 (suc (suc (suc (suc (length tail))))) ≡ 4 = omega arith in
      let all_new : drop 4 h.masking_key ≡ [] = ap (drop 4) zeros in rw (four, all_new) refl

  -- A masked payload behind its key.
  payload_phase :
      (key rest : Bytes)
      → h.mask ≡ 0x80
      → All IsByte key
      → All IsByte (x ∷ xs)
      → try_payload e_payload_data (with_key key) (xor_from key 0 (x ∷ xs) ++ rest)
        ≡ (delivered, rest)
  unfolding xor_from new_parser
  payload_phase key rest masked k octets =
      let ys = xor_from key 0 (x ∷ xs) in
      let same_length : length ys ≡ length (x ∷ xs) = length-xor_from key (x ∷ xs) 0 in
      let plain : unmasked (record h { masking_key = key }) ys ≡ x ∷ xs =
        ground (arith, xor_from_twice key (x ∷ xs) 0 k octets) in
      try_payload_whole (with_key key) _ _ rest refl (len ∙ sym same_length)
        (omega (arith, same_length))
      ∙ ap (λ zs. (deliver zs (with_key key), rest)) plain

  masked_body :
      (key : ℕ) (rest : Bytes)
      → h.mask ≡ 0x80
      → h.masking_key ≡ replicate 4 0
      → All IsByte (x ∷ xs)
      → key_and_payload
          (measured e_masking_key offset h ms)
          (key_bytes key ++ (xor_from (key_bytes key) 0 (x ∷ xs) ++ rest))
        ≡ (delivered, rest)
  unfolding key_and_payload key_bytes
  masked_body key rest masked zeros octets =
      let tail = xor_from (key_bytes key) 0 (x ∷ xs) ++ rest in
      ap (λ r. try_payload r.0.parser_step r.0 r.1) (key_phase _ _ _ _ tail zeros)
      ∙ payload_phase (key_bytes key) rest masked (key_bytes-IsByte key) octets

  pub measured-body :
      (mask key : ℕ) (rest : Bytes)
      → h.mask ≡ mask
      → IsFlag mask
      → h.masking_key ≡ replicate 4 0
      → All IsByte (x ∷ xs)
      → key_and_payload (measured (after_length mask) offset h ms) (body mask key (x ∷ xs) ++ rest)
        ≡ (delivered, rest)
  measured-body mask key rest e (inl clear) zeros octets = rw clear (unmasked_body rest (e ∙ clear))
  measured-body mask key rest e (inr masked) zeros octets =
      rw (masked, append_assoc) (masked_body key rest (e ∙ masked) zeros octets)
