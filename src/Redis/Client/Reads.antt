-- ===== src/Redis/Client/Reads.antt =====
-- The read handler: a reply is answered however it is cut.
use da4qi.Base.{
  ℕ, suc, ◌+◌, ◌-◌, ◌≤◌, List, [], ◌∷◌, ◌++◌, Option, none, Bytes, length, All, length-append,
  drop-length-append, append-nil, append_assoc, ◌≡◌, ◌≢◌, refl, ap, ◌∙◌, inl, inr, arith,
}
use da4qi.Redis.Value.{RedisValue}
use da4qi.Redis.Wire.{Reply, value_of, encode, IsWire}
use da4qi.Redis.Parser.{Parser, new_parser, parse, Parsed, completed, incompleted}
use da4qi.Redis.Parser.Chunks.{
  IsResumable, at_offset, parse-append, parse-append_settled, parse-IsResumable, position-le,
}
use da4qi.Redis.Parser.Replies.{
  IsFresh, IsFresh-IsResumable, parse-encode, is_incompleted, length-pos,
}
use da4qi.Redis.Client.{
  Client, CommandNode, reading, Order, parse_loop, received, answer, on_read, on_scan, on_write,
  do_async_read_and_parse, start_async_read_and_parse, move_front, front_on, unparsed,
}
use da4qi.Redis.Client.Answered.{idle_with, after_answer, answer-first}
use da4qi.Redis.Client.Scanning.{position-incompleted, scan_of, parse_loop-once}

abbrev pub concat : List Bytes → Bytes
concat [] = []
concat (chunk ∷ chunks) = chunk ++ concat chunks

-- The value that a call of the parser completes with, and where.
abbrev Gives : Parsed → ℕ → RedisValue → Type 0
Gives r n v = (r.position ≡ n) × (r.result ≡ completed) × (r.after.redis_value ≡ v)

-- The first of several chunks ends inside the reply that they make up.
inside :
    (p : Parser) (xs ys : Bytes) (v : RedisValue)
    → IsResumable p
    → xs ≢ []
    → ys ≢ []
    → Gives (parse p (xs ++ ys)) (length (xs ++ ys)) v
    → ((parse p xs).result ≡ incompleted) × Gives (parse (parse p xs).after ys) (length ys) v
inside p xs ys v ready nx ny g = elim (is_incompleted (parse p xs).result) [
  | inl e ↦ (e, moved (rw (parse-append p xs ys ready nx e) at g))
  | inr e ↦ absurd (too_short (rw (parse-append_settled p xs ys ready nx e) at g))
]
  where
    moved :
        Gives (at_offset (length xs) (parse (parse p xs).after ys)) (length (xs ++ ys)) v
        → Gives (parse (parse p xs).after ys) (length ys) v
    moved (n, e, value) = (omega (arith, n, length-append xs ys), e, value)

    too_short : Gives (parse p xs) (length (xs ++ ys)) v → ⊥
    too_short (n, e, value) =
        omega (arith, n, length-append xs ys, position-le p xs ready, length-pos ys ny)

unparsed-IsParsed : (buf : Bytes) (beg : ℕ) → length buf ≤ beg → unparsed buf beg ≡ []
unparsed-IsParsed buf beg h = ground arith

module _ {H C : Type 0} (react : H → RedisValue → List (Order H)) where
  -- A chunk comes for the read in flight.
  abbrev pub deliver : Bytes → Client H C → Client H C
  deliver chunk c = elim c.operations [
    | reading p on ∷ ops ↦ on_read react p on (received chunk) (record c { operations = ops })
    | _ ↦ c
  ]

  abbrev pub deliver_all : List Bytes → Client H C → Client H C
  deliver_all [] c = c
  deliver_all (chunk ∷ chunks) c = deliver_all chunks (deliver chunk c)

  -- A client that reads for `on` into a buffer that is all parsed.
  abbrev read_into : Parser → Option H → Bytes → Client H C → Client H C
  read_into p on xs c = record c {
    operations = reading p on ∷ [];
    reply_buf = xs;
    reply_parse_beg = length xs;
  }

  on_read-parse :
      (p : Parser) (on : Option H) (xs chunk : Bytes) (c : Client H C)
      → IsResumable p
      → chunk ≢ []
      → on_read react p on (received chunk) (idle_with xs c)
        ≡ on_scan react on (scan_of (length xs) (parse p chunk)) (record c {
          operations = [];
          reply_buf = xs ++ chunk;
          reply_parse_beg = length xs + (parse p chunk).position;
        })
  unfolding on_read
  on_read-parse p on xs [] c ready more = absurd (more refl)
  on_read-parse p on xs (x ∷ bytes) c ready more = rw (one p xs (x ∷ bytes) ready more) refl
    where
      one :
          (p : Parser) (xs chunk : Bytes)
          → IsResumable p
          → chunk ≢ []
          → parse_loop (length (xs ++ chunk) - length xs) p (length xs) (xs ++ chunk)
            ≡ scan_of (length xs) (parse p chunk)
      one p xs [] ready more = absurd (more refl)
      one p xs (x ∷ bytes) ready more =
          let size : length (xs ++ x ∷ bytes) - length xs ≡ suc (length bytes) =
            omega (arith, length-append xs (x ∷ bytes)) in
          rw
            (
              size,
              parse_loop-once (length bytes) p (length xs) (xs ++ x ∷ bytes) ready
                  (omega (arith, length-append xs (x ∷ bytes))),
              drop-length-append,
            )
            refl

  -- The chunk that ends the reply.
  deliver-last :
      (p : Parser) (on : Option H) (xs chunk : Bytes) (v : RedisValue) (c : Client H C)
      → IsResumable p
      → chunk ≢ []
      → Gives (parse p chunk) (length chunk) v
      → deliver chunk (read_into p on xs c) ≡ answer react on v (idle_with (xs ++ chunk) c)
  deliver-last p on xs chunk v c ready more (n, e, value) =
      on_read-parse p on xs chunk c ready more
      ∙ (unfold on_scan in rw (n, e, value) (rw (← length-append xs chunk) refl))

  -- A chunk that ends inside the reply.
  deliver-inside :
      (p : Parser) (on : Option H) (xs chunk : Bytes) (c : Client H C)
      → IsResumable p
      → chunk ≢ []
      → (parse p chunk).result ≡ incompleted
      → deliver chunk (read_into p on xs c) ≡ read_into (parse p chunk).after on (xs ++ chunk) c
  deliver-inside p on xs chunk c ready more e =
      on_read-parse p on xs chunk c ready more
      ∙ (unfold on_scan do_async_read_and_parse in
          rw (e, position-incompleted p chunk ready more e) (rw (← length-append xs chunk) refl))

  deliver_all-from :
      (chunk : Bytes) (chunks : List Bytes) (p : Parser) (on : Option H) (xs : Bytes)
      (v : RedisValue) (c : Client H C)
      → IsResumable p
      → All (λ chunk. chunk ≢ []) (chunk ∷ chunks)
      → Gives (parse p (chunk ++ concat chunks)) (length (chunk ++ concat chunks)) v
      → deliver_all (chunk ∷ chunks) (read_into p on xs c)
        ≡ answer react on v (idle_with (xs ++ chunk ++ concat chunks) c)
  deliver_all-from chunk [] p on xs v c ready (n, _) g =
      rw append-nil (deliver-last p on xs chunk v c ready n (rw append-nil at g))
  deliver_all-from chunk (next ∷ chunks) p on xs v c ready (n, (m, ns)) g =
      let (e, g') =
        inside p chunk (concat (next ∷ chunks)) v ready n (more next (concat chunks) m) g in
      ap (λ d. deliver_all (next ∷ chunks) d) (deliver-inside p on xs chunk c ready n e)
      ∙ deliver_all-from next chunks (parse p chunk).after on (xs ++ chunk) v c
          (parse-IsResumable p chunk ready e) (m, ns) g'
      ∙ ap (λ buf. answer react on v (idle_with buf c))
          (append_assoc (xs ++ chunk) next (concat chunks))
    where
      more : (xs ys : Bytes) → xs ≢ [] → xs ++ ys ≢ []
      more [] ys h = absurd (h refl)
      more (x ∷ xs) ys h = cc

  -- Everything read before has been parsed.
  abbrev pub IsParsed : Client H C → Type 0
  IsParsed c = length c.reply_buf ≤ c.reply_parse_beg

  on_write-started :
      (c : Client H C)
      → c.operations ≡ []
      → IsParsed c
      → on_write react none c
        ≡ read_into new_parser
            (front_on c.command_queue)
            []
            (record c { command_queue = move_front c.command_queue })
  unfolding on_write start_async_read_and_parse do_async_read_and_parse
  on_write-started c idle clean =
      rw (idle, unparsed-IsParsed c.reply_buf c.reply_parse_beg clean) refl

  -- After the first command of the queue has been written by a client that has parsed all it has read,
  -- let the reply come in any chunks, none of them empty: after the last one the handler of the command
  -- has been called with the value of the reply, once; the command has left the queue; the commands that
  -- the handler gave stand behind those that waited; and the first of all these is being written, if
  -- there is one. The reply is in the buffer, all of it parsed, and nothing else has changed.
  pub deliver_all-answer :
      (c : Client H C) (node : CommandNode H) (waiting : List (CommandNode H)) (r : Reply)
      (chunk : Bytes) (chunks : List Bytes)
      → c.command_queue ≡ node ∷ waiting
      → c.operations ≡ []
      → IsParsed c
      → IsWire r
      → All (λ chunk. chunk ≢ []) (chunk ∷ chunks)
      → concat (chunk ∷ chunks) ≡ encode r
      → deliver_all (chunk ∷ chunks) (on_write react none c)
        ≡ after_answer react node waiting (value_of r) (encode r) c
  deliver_all-answer c node waiting r chunk chunks first idle clean w ns whole =
      let c' : Client H C = record c { command_queue = move_front c.command_queue } in
      let v = value_of r in
      let fresh : IsFresh new_parser = (unfold new_parser in (refl, refl)) in
      let (n', e', value', _) = rw append-nil at (parse-encode new_parser r [] fresh w) in
      let g : Gives (parse new_parser (chunk ++ concat chunks)) (length (chunk ++ concat chunks))
          v =
        rw whole (n', e', value') in
      ap (deliver_all (chunk ∷ chunks)) (on_write-started c idle clean)
      ∙ deliver_all-from chunk chunks new_parser (front_on c.command_queue) [] v c'
          (IsFresh-IsResumable new_parser fresh) ns g
      ∙ ap (λ buf. answer react (front_on c.command_queue) v (idle_with buf c')) whole
      ∙ ap
          (λ q.
            answer react (front_on q) v
              (idle_with (encode r) (record c { command_queue = move_front q })))
          first
      ∙ answer-first react node waiting v (encode r) c
