-- ===== src/Websocket/Frame/Chunks.antt =====
-- frame_websocket.cpp: a payload that arrives in pieces.
use da4qi.Base.{
  ℕ, suc, ◌+◌, ◌%◌, ◌^◌, ◌<◌, min, List, [], ◌∷◌, ◌++◌, append-nil, true, false, Bool-cases, some,
  ◌≡◌, refl, sym, ap, ◌∙◌, ◌⊎◌, inl, inr, arith, Bytes, length, length-append, take-length-append,
  take-length, drop-length, ◌==◌, ==_iff, ◌>>=◌,
}
use da4qi.Websocket.Frame.{
  FrameHeader, FrameParser, Message, e_payload_data, xor_from, deliver, sub32, skip, parse_payload,
  try_fixed_header, try_payload_len, try_extened_payload_len, try_masking_key, try_payload, round,
  parse,
}
use da4qi.Websocket.Frame.Octets.{xor_from-append}
use da4qi.Websocket.Frame.Body.{unmasked, length-unmasked}
use da4qi.Websocket.Frame.Streams.{loop-last}

-- The index of a byte counts modulo 4 only.
xor_from-aligned :
    (mask ys : Bytes) (i j : ℕ) → i % 4 ≡ j % 4 → xor_from mask i ys ≡ xor_from mask j ys
unfolding xor_from
xor_from-aligned mask [] i j e = refl
xor_from-aligned mask (y ∷ ys) i j e =
    rw (e, xor_from-aligned mask ys (suc i) (suc j) (omega arith)) refl

unmasked-append :
    (h : FrameHeader) (xs ys : Bytes)
    → (h.mask ≡ 0) ⊎ (length xs % 4 ≡ 0)
    → unmasked h xs ++ unmasked h ys ≡ unmasked h (xs ++ ys)
unmasked-append h xs ys (inl clear) =
    let off : (h.mask == 0) ≡ true = (==_iff h.mask 0).1 clear in rw off refl
unmasked-append h xs ys (inr aligned) =
    let whole : xor_from h.masking_key 0 (xs ++ ys)
        ≡ xor_from h.masking_key 0 xs ++ xor_from h.masking_key 0 ys =
      xor_from-append h.masking_key xs ys 0
      ∙ ap (◌++◌ (xor_from h.masking_key 0 xs))
          (xor_from-aligned h.masking_key ys (0 + length xs) 0 (omega arith)) in
    elim (Bool-cases (h.mask == 0)) [ inl off ↦ rw off refl | inr on ↦ rw (on, whole) refl ]

module _ (offset pos : ℕ) (h : FrameHeader) (ms : List Message) where
  -- A parser in the payload phase that has `payload` of it.
  abbrev pub receiving : Bytes → FrameParser
  receiving payload = record {
    parser_step = e_payload_data;
    payload_len_offset = offset;
    masking_key_pos = pos;
    payload = payload;
    frame_header = h;
    messages = ms;
  }

  round-receiving :
      (payload : Bytes) (x : ℕ) (xs : Bytes)
      → round (receiving payload) (x ∷ xs)
        ≡ skip (parse_payload (receiving payload) (x ∷ xs)) (x ∷ xs)
  unfolding round try_fixed_header try_payload_len try_extened_payload_len try_masking_key
      try_payload
  round-receiving payload x xs = refl

  parse_payload_partial :
      (payload data' : Bytes)
      → length payload + length data' < h.payload_realy_len
      → h.payload_realy_len < 2 ^ 32
      → parse_payload (receiving payload) data'
        ≡ (receiving (payload ++ unmasked h data'), length data')
  unfolding parse_payload
  parse_payload_partial payload data' more small =
      let n : min (sub32 (h.payload_realy_len % 2 ^ 32) (length payload % 2 ^ 32)) (length data')
          ≡ length data' =
        omega arith in
      let unfinished : (length (payload ++ unmasked h data') == h.payload_realy_len) ≡ false =
        ground (arith, length-append payload (unmasked h data'), length-unmasked h data') in
      rw (n, take-length data') (rw unfinished refl)

  parse_payload_last :
      (payload data' rest : Bytes)
      → length payload + length data' ≡ h.payload_realy_len
      → h.payload_realy_len < 2 ^ 32
      → parse_payload (receiving payload) (data' ++ rest)
        ≡ (deliver (payload ++ unmasked h data') (receiving []), length data')
  unfolding parse_payload
  parse_payload_last payload data' rest all small =
      let n : min (sub32 (h.payload_realy_len % 2 ^ 32) (length payload % 2 ^ 32))
            (length (data' ++ rest))
          ≡ length data' =
        omega (arith, length-append data' rest) in
      let finished : (length (payload ++ unmasked h data') == h.payload_realy_len) ≡ true =
        ground (arith, length-append payload (unmasked h data'), length-unmasked h data') in
      rw (n, take-length-append data' rest) (rw finished refl)

  -- Not all of it yet: the piece is unmasked from the first byte of the key on and kept.
  parse-partial :
      (payload : Bytes) (x : ℕ) (xs : Bytes)
      → length payload + length (x ∷ xs) < h.payload_realy_len
      → h.payload_realy_len < 2 ^ 32
      → parse (receiving payload) (x ∷ xs) ≡ some (receiving (payload ++ unmasked h (x ∷ xs)))
  unfolding parse
  parse-partial payload x xs more small =
      loop-last _ (receiving payload) (receiving (payload ++ unmasked h (x ∷ xs))) (x ∷ xs) (
        round-receiving payload x xs
        ∙ ap (λ r. skip r (x ∷ xs)) (parse_payload_partial payload (x ∷ xs) more small)
        ∙ (unfold skip in
            ap (λ r. (receiving (payload ++ unmasked h (x ∷ xs)), r)) (drop-length (x ∷ xs))))

  parse-last :
      (payload : Bytes) (x : ℕ) (xs : Bytes)
      → length payload + length (x ∷ xs) ≡ h.payload_realy_len
      → h.payload_realy_len < 2 ^ 32
      → parse (receiving payload) (x ∷ xs)
        ≡ some (deliver (payload ++ unmasked h (x ∷ xs)) (receiving []))
  unfolding parse
  parse-last payload x xs all small =
      let q = deliver (payload ++ unmasked h (x ∷ xs)) (receiving []) in
      loop-last _ (receiving payload) q (x ∷ xs) (
        round-receiving payload x xs
        ∙ ap (λ ys. skip (parse_payload (receiving payload) ys) (x ∷ xs))
            (sym (append-nil (x ∷ xs)))
        ∙ ap (λ r. skip r (x ∷ xs)) (parse_payload_last payload (x ∷ xs) [] all small)
        ∙ (unfold skip in ap (λ r. (q, r)) (drop-length (x ∷ xs))))

  -- A payload shorter than 2^32 bytes that arrives in two pieces is unmasked piece by piece, each
  -- from the first byte of the key on.
  pub payload_two_chunks :
      (x : ℕ) (xs : Bytes) (y : ℕ) (ys : Bytes)
      → length (x ∷ xs) + length (y ∷ ys) ≡ h.payload_realy_len
      → h.payload_realy_len < 2 ^ 32
      → (parse (receiving []) (x ∷ xs) >>= λ p. parse p (y ∷ ys))
        ≡ some (deliver (unmasked h (x ∷ xs) ++ unmasked h (y ∷ ys)) (receiving []))
  payload_two_chunks x xs y ys all small =
      ap (λ o. o >>= λ p. parse p (y ∷ ys)) (parse-partial [] x xs (omega arith) small)
      ∙ parse-last (unmasked h (x ∷ xs)) y ys
          (ap (λ n. n + length (y ∷ ys)) (length-unmasked h (x ∷ xs)) ∙ all) small

  -- If the frame is not masked, or the first piece ends at a multiple of four bytes, a payload
  -- shorter than 2^32 bytes in two pieces is delivered as in one.
  pub payload_chunks_aligned :
      (x : ℕ) (xs : Bytes) (y : ℕ) (ys : Bytes)
      → length (x ∷ xs) + length (y ∷ ys) ≡ h.payload_realy_len
      → h.payload_realy_len < 2 ^ 32
      → (h.mask ≡ 0) ⊎ (length (x ∷ xs) % 4 ≡ 0)
      → (parse (receiving []) (x ∷ xs) >>= λ p. parse p (y ∷ ys))
        ≡ parse (receiving []) ((x ∷ xs) ++ y ∷ ys)
  payload_chunks_aligned x xs y ys all small aligned =
      payload_two_chunks x xs y ys all small
      ∙ ap (λ zs. some (deliver zs (receiving []))) (unmasked-append h (x ∷ xs) (y ∷ ys) aligned)
      ∙ sym (parse-last [] x (xs ++ y ∷ ys) (omega (arith, length-append xs (y ∷ ys))) small)
