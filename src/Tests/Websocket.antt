-- ===== src/Tests/Websocket.antt =====
-- Frames of websockets.
use da4qi.Base.{List, [], ◌∷◌, ◌++◌, Bytes, codes, some, ◌>>=◌, ◌≡◌, refl, arith, inl, inr}
use da4qi.Websocket.Frame.{
  FrameBuilder, FrameHeader, build, parse, round, deliver, zero_header, e_text,
}
use da4qi.Websocket.Frame.Body.{fresh, message, unmasked}
use da4qi.Websocket.Frame.Header.{round-empty}
use da4qi.Websocket.Frame.RoundTrip.{IsBuilder, round-build}
use da4qi.Websocket.Frame.Streams.{stream, sent, parse-stream}
use da4qi.Websocket.Frame.Chunks.{receiving, payload_two_chunks, payload_chunks_aligned}

-- A masked text frame, and one without a mask.
abbrev masked : FrameBuilder
masked = record { fin = 0x80; opcode = e_text; mask = 0x80; masking_key = 0x37fa213d }

abbrev plain : FrameBuilder
plain = record { fin = 0; opcode = e_text; mask = 0; masking_key = 0 }

masked-IsBuilder : IsBuilder masked
masked-IsBuilder = record { flag = inr refl; type = omega arith; mask_flag = inr refl }

plain-IsBuilder : IsBuilder plain
plain-IsBuilder = record { flag = inl refl; type = omega arith; mask_flag = inl refl }

abbrev two_frames : List (FrameBuilder × Bytes)
two_frames = (masked, codes "hello") ∷ (plain, []) ∷ []

parse-stream_example : parse (fresh []) (stream two_frames) ≡ some (fresh ([] ++ sent two_frames))
parse-stream_example =
    parse-stream two_frames []
      ((masked-IsBuilder, omega arith, omega arith), ((plain-IsBuilder, omega arith, tt), tt))

masked_read :
    round (fresh []) (build masked (codes "hello") ++ codes "x")
    ≡ (fresh ([] ++ message (codes "hello") e_text 0x80 ∷ []), codes "x")
masked_read =
    round-build masked [] (codes "hello") (codes "x") masked-IsBuilder (omega arith) (omega arith)

-- A masked frame without a payload, as RFC 6455 has it, with its key behind the length.
masked_empty :
    round (fresh []) (0x81 ∷ 0x80 ∷ 1 ∷ 2 ∷ 3 ∷ 4 ∷ [])
    ≡ (fresh ([] ++ message [] 1 0x80 ∷ []), 1 ∷ 2 ∷ 3 ∷ 4 ∷ [])
masked_empty = round-empty [] 0x81 0x80 (1 ∷ 2 ∷ 3 ∷ 4 ∷ []) refl

abbrev six_masked : FrameHeader
six_masked = record zero_header {
  fin = 0x80;
  opcode = 1;
  mask = 0x80;
  payload_len = 6;
  payload_realy_len = 6;
  masking_key = 1 ∷ 2 ∷ 3 ∷ 4 ∷ [];
}

payload_two_chunks_test :
    (parse (receiving 0 4 six_masked [] []) (97 ∷ 98 ∷ []) >>= λ p.
    parse p (99 ∷ 100 ∷ 101 ∷ 102 ∷ []))
    ≡ some (
        deliver
          (unmasked six_masked (97 ∷ 98 ∷ []) ++ unmasked six_masked (99 ∷ 100 ∷ 101 ∷ 102 ∷ []))
          (receiving 0 4 six_masked [] []))
payload_two_chunks_test =
    payload_two_chunks 0 4 six_masked [] 97 (98 ∷ []) 99 (100 ∷ 101 ∷ 102 ∷ []) refl (omega arith)

payload_chunks_aligned_test :
    (parse (receiving 0 4 six_masked [] []) (97 ∷ 98 ∷ 99 ∷ 100 ∷ []) >>= λ p.
    parse p (101 ∷ 102 ∷ []))
    ≡ parse (receiving 0 4 six_masked [] []) ((97 ∷ 98 ∷ 99 ∷ 100 ∷ []) ++ 101 ∷ 102 ∷ [])
payload_chunks_aligned_test =
    payload_chunks_aligned 0 4 six_masked [] 97 (98 ∷ 99 ∷ 100 ∷ []) 101 (102 ∷ []) refl
      (omega arith) (inr refl)
