-- ===== src/Redis/Parser/Replies.antt =====
-- Whole replies: what `Parse` answers for the bytes of a reply, in one chunk or in two.
use da4qi.Base.{
  ℕ, suc, ◌+◌, ◌<◌, List, [], ◌∷◌, ◌++◌, append-nil, ◌≡◌, ◌≢◌, ◌⊎◌, inl, inr, refl, ap, ◌∙◌, arith,
  Bytes, length, length-append,
}
use da4qi.Redis.Value.{RedisValue, Values, push_back}
use da4qi.Redis.Wire.{Reply, value_of, wire, encode, encode-append, IsWire}
use da4qi.Redis.Parser.{
  Parser, start, Frame, breaks, settle, settle_start, stopped, parse, Parsed, ParseResult,
  completed, incompleted, error, conclude, close_arrays, top_state, pop,
}
use da4qi.Redis.Parser.Stepwise.{run, proceed}
use da4qi.Redis.Parser.Chunks.{
  IsResumable, at_offset, begin, parse-run, parse-append, parse-append_settled, position-le,
}
use da4qi.Redis.Parser.Lines.{with_value}
use da4qi.Redis.Parser.Elements.{frame, proceed_into, settle_more}
use da4qi.Redis.Parser.RoundTrip.{start-IsStarting, run-wire}

-- No reply is begun: the state of a new parser, and of one that completed a reply.
abbrev pub IsFresh : Parser → Type 0
IsFresh p = (p.states ≡ []) × (p.frames ≡ [])

pub IsFresh-IsResumable : (p : Parser) → IsFresh p → IsResumable p
unfolding top_state
IsFresh-IsResumable p h = rw (h.0, top_state) tt

-- What the call answers for a complete reply.
abbrev pub Completes : Parsed → ℕ → RedisValue → Type 0
Completes r n v =
    (r.position ≡ n) × (r.result ≡ completed) × (r.after.redis_value ≡ v) × IsFresh r.after

settle_closed : (p : Parser) → p.frames ≡ [] → settle start p ≡ breaks (record p { frames = [] })
unfolding settle
settle_closed p e =
    ap (λ l. settle_start (close_arrays l p.redis_value).0 (close_arrays l p.redis_value).1 p) e
    ∙ (unfold settle_start close_arrays in refl)

proceed_closed :
    (p : Parser) (rest : Bytes)
    → p.frames ≡ []
    → proceed start p rest ≡ stopped start (record p { frames = [] }) rest
unfolding proceed
proceed_closed p rest e = rw (settle_closed p e, proceed) refl

finished :
    (p : Parser) (rest : Bytes) (n : ℕ)
    → IsFresh p
    → Completes (conclude (n + length rest) (proceed start p rest)) n p.redis_value
unfolding conclude
finished p rest n h = rw (proceed_closed p rest h.1) (omega arith, refl, refl, (h.0, refl))

-- A parser in which no reply is begun reads the bytes of a reply as its value, up to its last byte,
-- whatever follows: a status or an error of printable ASCII, a number, a bulk string of any bytes, a
-- null of both forms, an array of replies of all these kinds, nested arrays included, when its numbers
-- and sizes fit their types.
pub parse-encode :
    (p : Parser) (r : Reply) (rest : Bytes)
    → IsFresh p
    → IsWire r
    → Completes (parse p (encode r ++ rest)) (length (encode r)) (value_of r)
unfolding begin top_state
parse-encode p r rest fresh h =
    let q : Parser = record p { states = [] } in
    let (b, k, same) = run-wire r h start start-IsStarting q rest in
    rw (parse-run p (encode r ++ rest) (IsFresh-IsResumable p fresh)) (
      rw (length-append, fresh.0, encode-append)
        (unfold pop in
          rw same
            (finished (with_value q b k (value_of r)) rest (length (encode r)) (refl, fresh.1))))

pub is_incompleted : (r : ParseResult) → (r ≡ incompleted) ⊎ (r ≢ incompleted)
is_incompleted completed = inr (cc)
is_incompleted incompleted = inl refl
is_incompleted error = inr (cc)

pub length-pos : (xs : Bytes) → xs ≢ [] → 0 < length xs
length-pos [] h = absurd (h refl)
length-pos (x ∷ xs) h = omega arith

-- Wherever the bytes of a reply are cut in two parts that are not empty, a parser in which no reply
-- is begun answers Incompleted for the first part, and the second part completes the reply.
pub parse-encode_split :
    (p : Parser) (r : Reply) (xs ys : Bytes)
    → IsFresh p
    → IsWire r
    → encode r ≡ xs ++ ys
    → xs ≢ []
    → ys ≢ []
    → ((parse p xs).result ≡ incompleted)
      × Completes (parse (parse p xs).after ys) (length ys) (value_of r)
parse-encode_split p r xs ys fresh h cut nx ny = elim (is_incompleted (parse p xs).result) [
  | inl e ↦ (e, moved (rw (parse-append p xs ys ready nx e) at whole))
  | inr e ↦ absurd (too_short (rw (parse-append_settled p xs ys ready nx e) at whole))
]
  where
    ready : IsResumable p
    ready = IsFresh-IsResumable p fresh

    whole : Completes (parse p (xs ++ ys)) (length (xs ++ ys)) (value_of r)
    whole = rw (← cut) (rw append-nil at (parse-encode p r [] fresh h))

    moved :
        Completes
          (at_offset (length xs) (parse (parse p xs).after ys))
          (length (xs ++ ys))
          (value_of r)
        → Completes (parse (parse p xs).after ys) (length ys) (value_of r)
    moved c = (omega (arith, c.0, length-append xs ys), c.1, c.2, c.3)

    too_short : Completes (parse p xs) (length (xs ++ ys)) (value_of r) → ⊥
    too_short c = omega (arith, c.0, length-append xs ys, position-le p xs ready, length-pos ys ny)

-- An error clears the states but not the open arrays. With two or more elements missing there, the
-- next reply, though it is whole, is taken for an element and answered `Incompleted`.
pub parse-encode_stale :
    (p : Parser) (r : Reply) (n : ℕ) (acc : Values) (fs : List Frame)
    → p.states ≡ []
    → p.frames ≡ frame (suc (suc n)) acc ∷ fs
    → IsWire r
    → ((parse p (encode r)).result ≡ incompleted)
      × ((parse p (encode r)).after.frames ≡ frame (suc n) (push_back acc (value_of r)) ∷ fs)
unfolding begin top_state pop encode
parse-encode_stale p r n acc fs none open_array h =
    let q : Parser = record p { states = [] } in
    let (b, k, same) = run-wire r h start start-IsStarting q [] in
    let after : Parser = record q {
      buf = b;
      bulk_size = k;
      redis_value = value_of r;
      frames = frame (suc n) (push_back acc (value_of r)) ∷ fs;
    } in
    let all_read : run start q (wire r []) ≡ stopped start after [] =
      same
      ∙ proceed_into start _ after [] (settle_more n q b k (value_of r) acc fs open_array)
      ∙ (unfold run in refl) in
    rw (parse-run p (encode r) (rw none tt)) (unfold conclude in rw none (rw all_read (refl, refl)))
