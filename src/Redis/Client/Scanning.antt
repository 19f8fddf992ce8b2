-- ===== src/Redis/Client/Scanning.antt =====
-- The loop of the read handler: it parses what has come once.
use da4qi.Base.{
  lt→ltb, ℕ, zero, suc, ◌+◌, ◌≤◌, ◌<◌, [], ◌∷◌, Bytes, length, drop, length-drop, append-nil, ◌≡◌,
  ◌≢◌, refl, ap, arith,
}
use da4qi.Redis.Parser.{Parser, parse, Parsed, ParseResult, completed, incompleted, error}
use da4qi.Redis.Parser.Chunks.{IsResumable, parse-append, position-le}
use da4qi.Redis.Client.{Scan, parse_loop}

-- A chunk that leaves the parser inside a reply is read to its end.
pub position-incompleted :
    (p : Parser) (xs : Bytes)
    → IsResumable p
    → xs ≢ []
    → (parse p xs).result ≡ incompleted
    → (parse p xs).position ≡ length xs
position-incompleted p xs ready more e = omega (
  arith,
  position-le p xs ready,
  rw append-nil at (ap (λ (r : Parsed). r.position) (parse-append p xs [] ready more e)),
)

abbrev pub scan_of : ℕ → Parsed → Scan
scan_of beg r = record { parser = r.after; beg = beg + r.position; verdict = r.result }

parse_loop-end :
    (fuel : ℕ) (p : Parser) (beg : ℕ) (buf : Bytes)
    → length buf ≤ beg
    → parse_loop fuel p beg buf ≡ record { parser = p; beg = beg; verdict = incompleted }
unfolding parse_loop
parse_loop-end zero p beg buf h = refl
parse_loop-end (suc fuel) p beg buf h = ground arith

nonempty : (xs : Bytes) → 0 < length xs → xs ≢ []
nonempty [] h = absurd (omega arith)
nonempty (x ∷ xs) h = cc

parse_loop-step :
    (fuel : ℕ) (p : Parser) (beg : ℕ) (buf : Bytes) (v : ParseResult)
    → (parse p (drop beg buf)).result ≡ v
    → beg < length buf
    → (v ≡ incompleted → length buf ≤ beg + (parse p (drop beg buf)).position)
    → parse_loop (suc fuel) p beg buf ≡ scan_of beg (parse p (drop beg buf))
unfolding parse_loop
parse_loop-step fuel p beg buf completed e more stops = rw (lt→ltb beg (length buf) more, e) refl
parse_loop-step fuel p beg buf incompleted e more stops =
    rw (lt→ltb beg (length buf) more, e)
      (parse_loop-end fuel (parse p (drop beg buf)).after (beg + (parse p (drop beg buf)).position)
        buf (stops refl))
parse_loop-step fuel p beg buf error e more stops = rw (lt→ltb beg (length buf) more, e) refl

-- Between two calls of the parser, the loop of the read handler has nothing left to do: with bytes
-- to parse and whatever fuel above 0, it calls `Parse` once, on all of them.
pub parse_loop-once :
    (fuel : ℕ) (p : Parser) (beg : ℕ) (buf : Bytes)
    → IsResumable p
    → beg < length buf
    → parse_loop (suc fuel) p beg buf ≡ scan_of beg (parse p (drop beg buf))
parse_loop-once fuel p beg buf ready more = parse_loop-step fuel p beg buf _ refl more (λ e. omega (
  arith,
  length-drop beg buf,
  position-incompleted p (drop beg buf) ready
      (nonempty (drop beg buf) (omega (arith, length-drop beg buf))) e,
))
