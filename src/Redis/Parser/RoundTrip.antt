-- ===== src/Redis/Parser/RoundTrip.antt =====
-- The parser reads back what a redis server sends.
use da4qi.Base.{suc, ◌^◌, ◌<◌, List, [], ◌∷◌, ◌≡◌, refl, ap, ◌∙◌, arith, Bytes}
use da4qi.Base.Int.{ℤ}
use da4qi.Base.Decimal.{to_string, to_string-IsDigit, is_empty-to_string}
use da4qi.Redis.Value.{RedisValue, Values, nil, cons, append, push_back, array_value}
use da4qi.Redis.Wire.{
  Reply, simple_string, error_line, number, bulk_string, null_bulk, null_array, array_of, Replies,
  no_more, and_then, count, value_of, values_of, wire, wire_items, IsWire, IsWireItems,
}
use da4qi.Redis.Parser.{
  Parser, State, start, start_array, array_size, array_size_lf, handle, start_reply, array_header,
  Frame, settle,
}
use da4qi.Redis.Parser.Stepwise.{run, proceed}
use da4qi.Redis.Parser.Numbers.{buf_to_long-to_string}
use da4qi.Redis.Parser.Lines.{step_end, step_on, Reads, numerals, IsStarting, read_number_line}
use da4qi.Redis.Parser.Elements.{frame, settle_last, settle_more, proceed-settle, proceed_into}
use da4qi.Redis.Parser.Scalars.{
  Reads-null, Reads-int, Reads-error, Reads-simple, Reads-null_array, Reads-bulk,
}

push_back-append :
    (acc : Values) (v : RedisValue) (vs : Values)
    → append (push_back acc v) vs ≡ append acc (cons v vs)
push_back-append nil v vs = refl
push_back-append (cons u acc) v vs = ap (cons u) (push_back-append acc v vs)

append-nil_values : (acc : Values) (v : RedisValue) → push_back acc v ≡ append acc (cons v nil)
append-nil_values nil v = refl
append-nil_values (cons u acc) v = ap (cons u) (append-nil_values acc v)

-- The elements `vs` of the innermost array, of which `acc` are read, are read as the full array.
abbrev ReadsItems : State → Parser → Replies → Values → List Frame → Type 0
ReadsItems state p rs acc fs =
    (rest : Bytes)
    → (b : Bytes) × (k : ℤ) × (run state p (wire_items rs rest)
        ≡ proceed start
            (record p {
              buf = b;
              bulk_size = k;
              redis_value = array_value (append acc (values_of rs));
              frames = fs;
            })
            rest)

read_cons :
    (state : State) (p : Parser) (r : Reply) (rs : Replies) (acc : Values) (fs : List Frame)
    → p.frames ≡ frame (suc (count rs)) acc ∷ fs
    → Reads state p (wire r) (value_of r)
    → ((q : Parser)
        → q.frames ≡ frame (count rs) (push_back acc (value_of r)) ∷ fs
        → 0 < count rs
        → ReadsItems start q rs (push_back acc (value_of r)) fs)
    → ReadsItems state p (and_then r rs) acc fs
unfolding wire
read_cons state p r no_more acc fs e head tail rest =
    let (b, k, same) = head rest in
    (
      b,
      k,
      same
          ∙ proceed-settle start _ _ rest (settle_last p b k (value_of r) acc fs e)
          ∙ rw append-nil_values refl,
    )
read_cons state p r (and_then w rs) acc fs e head tail rest =
    let v = value_of r in
    let (b, k, same) = head (wire_items (and_then w rs) rest) in
    let q : Parser = record p {
      buf = b;
      bulk_size = k;
      redis_value = v;
      frames = frame (suc (count rs)) (push_back acc v) ∷ fs;
    } in
    let (b', k', more) = tail q refl (omega arith) rest in
    (
      b',
      k',
      same
          ∙ proceed_into start _ q _ (settle_more (count rs) p b k v acc fs e)
          ∙ more
          ∙ rw push_back-append refl,
    )

module _ (state : State) (starting : IsStarting state) where
  -- An empty array is a value at once.
  Reads-empty : (p : Parser) → Reads state p (wire (array_of no_more)) (array_value nil)
  unfolding wire handle settle
  Reads-empty p rest = (
    to_string 0,
    p.bulk_size,
    read_number_line state array_size array_size_lf b'*' p (record p { buf = [] }) (to_string 0)
          rest (starting b'*' p ∙ (unfold start_reply in refl)) refl (λ r c. refl) (λ r. refl)
          (λ r. refl) (numerals (to_string 0) (to_string-IsDigit 0)) (is_empty-to_string 0)
        ∙ step_end array_size_lf _ b'\n' _ rest (
            ap (λ j. array_header j (record p { buf = to_string 0 }) [])
              (buf_to_long-to_string 0 (omega arith))
            ∙ (unfold array_header in refl)),
  )

  Reads-array :
      (p : Parser) (r : Reply) (rs : Replies)
      → count (and_then r rs) < 2 ^ 63
      → ((q : Parser)
          → q.frames ≡ frame (count (and_then r rs)) nil ∷ p.frames
          → ReadsItems start_array q (and_then r rs) nil p.frames)
      → Reads state p (wire (array_of (and_then r rs))) (value_of (array_of (and_then r rs)))
  unfolding wire handle settle
  Reads-array p r rs h items rest =
      let n = count rs in
      let s = to_string (suc n) in
      let q : Parser = record p { buf = s; frames = frame (suc n) nil ∷ p.frames } in
      let (b, k, same) = items q refl rest in
      (
        b,
        k,
        read_number_line state array_size array_size_lf b'*' p (record p { buf = [] }) s
              (wire_items (and_then r rs) rest) (starting b'*' p ∙ (unfold start_reply in refl))
              refl (λ r c. refl) (λ r. refl) (λ r. refl) (numerals s (to_string-IsDigit (suc n)))
              (is_empty-to_string (suc n))
            ∙ step_on array_size_lf _ b'\n' start_array q (wire_items (and_then r rs) rest)
                (ap (λ j. array_header j (record p { buf = s }) [])
                    (buf_to_long-to_string (suc n) h)
                  ∙ (unfold array_header in refl))
                refl
            ∙ same,
      )

pub start-IsStarting : IsStarting start
unfolding handle
start-IsStarting c p = refl

start_array_IsStarting : IsStarting start_array
unfolding handle
start_array_IsStarting c p = refl

mutual
  unfolding wire

  reads :
      (r : Reply)
      → IsWire r
      → (state : State) → IsStarting state
      → (p : Parser) → Reads state p (wire r) (value_of r)
  reads (simple_string b) h state starting p = Reads-simple state starting p b h
  reads (error_line b) h state starting p = Reads-error state starting p b h
  reads (number i) h state starting p = Reads-int state starting p i h
  reads (bulk_string b) h state starting p = Reads-bulk state starting p b h
  reads null_bulk h state starting p = Reads-null state starting p
  reads null_array h state starting p = Reads-null_array state starting p
  reads (array_of no_more) h state starting p = Reads-empty state starting p
  reads (array_of (and_then r rs)) h state starting p =
      Reads-array state starting p r rs h.0 (λ q same.
        read_items (and_then r rs) h.1 start_array start_array_IsStarting q nil p.frames same
          (omega arith))

  read_items :
      (rs : Replies)
      → IsWireItems rs
      → (state : State) → IsStarting state
      → (p : Parser) → (acc : Values) (fs : List Frame) → p.frames ≡ frame (count rs) acc ∷ fs
      → 0 < count rs
      → ReadsItems state p rs acc fs
  read_items no_more h state starting p acc fs e full = absurd (omega arith)
  read_items (and_then r rs) h state starting p acc fs e full =
      read_cons state p r rs acc fs e (reads r h.0 state starting p) (λ q same more.
        read_items rs h.1 start start-IsStarting q (push_back acc (value_of r)) fs same more)

-- From a starting state the bytes of a reply are read as its value.
pub run-wire :
    (r : Reply)
    → IsWire r
    → (state : State) → IsStarting state
    → (p : Parser) → Reads state p (wire r) (value_of r)
run-wire r h state starting p = reads r h state starting p
