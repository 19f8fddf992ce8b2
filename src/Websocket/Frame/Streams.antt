-- ===== src/Websocket/Frame/Streams.antt =====
-- Streams of frames that are parsed in one call.
use da4qi.Base.{
  ℕ, suc, zero, ◌*◌, ◌^◌, ◌<◌, ◌≤◌, List, [], ◌∷◌, ◌++◌, append-nil, append-cons, false, some, ◌≡◌,
  refl, sym, ap, ◌∙◌, arith, IsByte, Bytes, All, length, length-append, is_empty, if◌then◌else◌,
}
use da4qi.Websocket.Frame.{
  FrameBuilder, FrameParser, Message, new_parser, build, round, loop, parse,
}
use da4qi.Websocket.Frame.Body.{fresh, message}
use da4qi.Websocket.Frame.RoundTrip.{IsBuilder, round-build}

-- Frames written one behind the other.
unfoldable pub stream : List (FrameBuilder × Bytes) → Bytes
stream [] = []
stream ((h, payload) ∷ fs) = build h payload ++ stream fs

abbrev pub sent : List (FrameBuilder × Bytes) → List Message
sent [] = []
sent ((h, payload) ∷ fs) = message payload h.opcode h.fin ∷ sent fs

abbrev pub CanSend : FrameBuilder × Bytes → Type 0
CanSend (h, payload) = IsBuilder h × (length payload < 2 ^ 32) × All IsByte payload

is_empty-build :
    (h : FrameBuilder) (payload rest : Bytes) → is_empty (build h payload ++ rest) ≡ false
unfolding build
is_empty-build h [] rest = refl
is_empty-build h (x ∷ xs) rest = refl

length-build : (h : FrameBuilder) (payload : Bytes) → 1 ≤ length (build h payload)
unfolding build
length-build h [] = omega arith
length-build h (x ∷ xs) = omega arith

length-stream : (fs : List (FrameBuilder × Bytes)) → length fs ≤ length (stream fs)
unfolding stream
length-stream [] = omega arith
length-stream ((h, payload) ∷ fs) =
    omega
      (arith, length-append (build h payload) (stream fs), length-build h payload, length-stream fs)

-- A round of the loop that leaves nothing, and one that leaves something.
pub loop-last :
    (fuel : ℕ) (p q : FrameParser) (data' : Bytes)
    → round p data' ≡ (q, [])
    → loop (suc fuel) p data' ≡ some q
unfolding loop
loop-last fuel p q data' e = ap (λ r. if is_empty r.1 then some r.0 else loop fuel r.0 r.1) e

pub loop-next :
    (fuel : ℕ) (p q : FrameParser) (data' rest : Bytes)
    → round p data' ≡ (q, rest)
    → is_empty rest ≡ false
    → loop (suc fuel) p data' ≡ loop fuel q rest
unfolding loop
loop-next fuel p q data' rest e more =
    ap (λ r. if is_empty r.1 then some r.0 else loop fuel r.0 r.1) e
    ∙ ap (λ b. if b then some q else loop fuel q rest) more

loop-stream :
    (fs : List (FrameBuilder × Bytes)) (fuel : ℕ) (ms : List Message)
    → length fs < fuel
    → All CanSend fs
    → loop fuel (fresh ms) (stream fs) ≡ some (fresh (ms ++ sent fs))
unfolding stream
loop-stream fs zero ms enough can = absurd (omega arith)
loop-stream [] (suc fuel) ms enough can =
    loop-last fuel (fresh ms) (fresh (ms ++ [])) (stream [])
      (unfold round in unfold new_parser in ap (λ xs. (fresh xs, [])) (sym (append-nil ms)))
loop-stream ((h, payload) ∷ []) (suc fuel) ms enough ((valid, small, octets), _) =
    loop-last fuel (fresh ms) (fresh (ms ++ sent ((h, payload) ∷ []))) (build h payload ++ [])
      (round-build h ms payload [] valid small octets)
loop-stream ((h, payload) ∷ (g, more) ∷ fs) (suc fuel) ms enough ((valid, small, octets), can) =
    let ms' = ms ++ message payload h.opcode h.fin ∷ [] in
    let rest = stream ((g, more) ∷ fs) in
    loop-next fuel (fresh ms) (fresh ms') (build h payload ++ rest) rest
      (round-build h ms payload rest valid small octets) (is_empty-build g more (stream fs))
    ∙ loop-stream ((g, more) ∷ fs) fuel ms' (omega arith) can
    ∙ ap (λ xs. some (fresh xs)) (sym (append-cons ms _ _))

-- Frames that builders wrote, each with a payload shorter than 2^32 bytes, are sent in one piece to
-- a parser in which no frame is begun: each reaches the callback once, in order, with its payload,
-- type and final flag, and the parser is as before.
pub parse-stream :
    (fs : List (FrameBuilder × Bytes)) (ms : List Message)
    → All CanSend fs
    → parse (fresh ms) (stream fs) ≡ some (fresh (ms ++ sent fs))
unfolding parse
parse-stream fs ms can =
    loop-stream fs (suc (2 * length (stream fs))) ms (omega (arith, length-stream fs)) can
