-- ===== src/Redis/Parser.antt =====
-- redis_parser.hpp and redis_parser.cpp: the incremental parser of redis replies.
-- A chunk is the list of its bytes and `position` is kept as the list of the bytes not yet read;
-- a chunk is shorter than 2^63 bytes, so that `static_cast<long>` keeps its size. There is room for what a
-- length asks `reserve` for: its exceptions are left out.
pub mod Stepwise
pub mod Chunks
pub mod Numbers
pub mod Lines
pub mod Elements
pub mod Scalars
pub mod RoundTrip
pub mod Replies
use da4qi.Base.{
  ℕ, suc, zero, ◌+◌, ◌-◌, ◌*◌, ◌%◌, ◌^◌, min, List, [], ◌∷◌, ◌++◌, Bool, true, false, ◌&&◌, ◌||◌,
  not, if◌then◌else◌, ltb, leb, ◌==◌, Bytes, length, take, drop, is_empty, codes, ◌≡◌, refl,
}
use da4qi.Base.Int.{ℤ, pos, negsuc, of_word64, neg_word64}
use da4qi.Redis.Value.{
  RedisValue, Values, nil, cons, null_value, int_value, bytes_value, error_value, array_value,
  push_back,
}

pub data ParseResult : Type 0 where
  completed incompleted error : ParseResult

pub data State : Type 0 where
  start start_array : State
  string string_lf : State
  error_string error_lf : State
  integer integer_lf : State
  bulk_size bulk_size_lf bulk bulk_cr bulk_lf : State
  array_size array_size_lf : State

-- `arraySizes` and `arrayValues` are pushed and popped together; a frame holds the two tops. A size
-- is pushed only when it is positive, and is popped when it reaches 0.
pub record Frame : Type 0 where
  pub pending : ℕ
  pub items : Values

pub record Parser : Type 0 where
  pub states : List State
  pub bulk_size : ℤ
  pub buf : Bytes
  pub redis_value : RedisValue
  pub frames : List Frame

unfoldable pub new_parser : Parser
new_parser = record {
  states = [];
  bulk_size = pos 0;
  buf = [];
  redis_value = null_value;
  frames = [];
}

-- A `char` at 128 or above is negative.
is_char : ℕ → Bool
is_char c = leb c 127

is_control : ℕ → Bool
is_control c = leb c 31 || c == 127

pub is_digit : ℕ → Bool
is_digit c = leb b'0' c && leb c b'9'

-- The loop of `buf_to_long` on the 64-bit pattern of `value`; a '-' behind the first byte fails the
-- assertion, and without assertions adds `'-' - '0'`.
accumulate : ℕ → Bytes → ℕ
accumulate value [] = value
accumulate value (c ∷ s) = accumulate ((value * 10 + c + 2 ^ 64 - b'0') % 2 ^ 64) s

pub buf_to_long : Bytes → ℤ
unfolding accumulate
buf_to_long [] = pos 0
buf_to_long (c ∷ s) =
    if c == b'-'
    then (if is_empty s then pos 0 else of_word64 (neg_word64 (accumulate 0 s)))
    else of_word64 (accumulate 0 (c ∷ s))

-- What one round of the loop does before it looks at `state == Start`.
pub data Step : Type 0 where
  reject : Parser → Bytes → Step
  next : State → Parser → Bytes → Step

-- `std::stack<State>().swap(states); return Error`.
fail : Parser → Bytes → Step
fail p rest = reject (record p { states = [] }) rest

pub start_reply : ℕ → Parser → Bytes → Step
start_reply c p rest =
    let q : Parser = record p { buf = [] } in
    if c == b'+'
    then next string q rest
    else if c == b'-'
    then next error_string q rest
    else if c == b':'
    then next integer q rest
    else if c == b'$'
    then next bulk_size (record q { bulk_size = pos 0 }) rest
    else if c == b'*'
    then next array_size q rest
    else reject q rest

-- A byte of a line of text in state `here`, which ends in state `lf`.
pub text_byte : State → State → ℕ → Parser → Bytes → Step
unfolding fail is_char is_control
text_byte here lf c p rest =
    if c == b'\r'
    then next lf p rest
    else if is_char c && not (is_control c)
    then next here (record p { buf = p.buf ++ c ∷ [] }) rest
    else fail p rest

-- A byte of a number in state `here`, which ends in state `lf`.
pub number_byte : State → State → ℕ → Parser → Bytes → Step
unfolding fail is_digit
number_byte here lf c p rest =
    if c == b'\r'
    then (if is_empty p.buf then fail p rest else next lf p rest)
    else if is_digit c || c == b'-'
    then next here (record p { buf = p.buf ++ c ∷ [] }) rest
    else fail p rest

-- A line feed that ends a line with the value `v`.
finish_line : RedisValue → ℕ → Parser → Bytes → Step
unfolding fail
finish_line v c p rest =
    if c == b'\n' then next start (record p { redis_value = v }) rest else fail p rest

-- The branches on `bulkSize`, whose buffer is cleared; `available` is what the chunk still holds.
bulk_header : ℤ → Parser → Bytes → Step
unfolding fail
bulk_header (negsuc zero) p rest = next start (record p { redis_value = null_value }) rest
bulk_header (negsuc (suc n)) p rest = fail p rest
bulk_header (pos zero) p rest = next bulk_cr p rest
bulk_header (pos (suc n)) p rest =
    let can_read = min (suc n) (length rest) in
    let q : Parser =
      (if ltb 0 can_read
        then record p { buf = take can_read rest; bulk_size = pos (suc n - can_read) }
        else p) in
    let state : State = if ltb 0 (suc n - can_read) then bulk else bulk_cr in
    next state q (drop can_read rest)

-- `chunk` begins with the byte just read. `assert(bulkSize > 0)` stops the program in the second
-- clause, which no run reaches.
pub bulk_bytes : ℤ → Parser → Bytes → Step
unfolding fail
bulk_bytes (pos n) p chunk =
    let can_read = min (length chunk) n in
    let state : State = if n - can_read == 0 then bulk_cr else bulk in
    next state (record p { buf = p.buf ++ take can_read chunk; bulk_size = pos (n - can_read) })
      (drop can_read chunk)
bulk_bytes (negsuc n) p chunk = fail p chunk

array_header : ℤ → Parser → Bytes → Step
unfolding fail
array_header (negsuc zero) p rest = next start (record p { redis_value = null_value }) rest
array_header (negsuc (suc n)) p rest = fail p rest
array_header (pos zero) p rest = next start (record p { redis_value = array_value nil }) rest
array_header (pos (suc n)) p rest =
    next start_array (record p { frames = record { pending = suc n; items = nil } ∷ p.frames }) rest

-- The switch of `parse_chunk` on the byte `c` with `rest` behind it.
pub handle : State → ℕ → Parser → Bytes → Step
unfolding fail start_reply text_byte number_byte finish_line bulk_header bulk_bytes array_header
    buf_to_long
handle start_array c p rest = start_reply c p rest
handle start c p rest = start_reply c p rest
handle string c p rest = text_byte string string_lf c p rest
handle error_string c p rest = text_byte error_string error_lf c p rest
handle bulk_size c p rest = number_byte bulk_size bulk_size_lf c p rest
handle string_lf c p rest = finish_line (bytes_value p.buf) c p rest
handle error_lf c p rest = finish_line (error_value p.buf) c p rest
handle bulk_size_lf c p rest =
    let n = buf_to_long p.buf in
    if c == b'\n' then bulk_header n (record p { bulk_size = n; buf = [] }) rest else fail p rest
handle bulk c p rest = bulk_bytes p.bulk_size p (c ∷ rest)
handle bulk_cr c p rest = if c == b'\r' then next bulk_lf p rest else fail p rest
handle bulk_lf c p rest = finish_line (bytes_value p.buf) c p rest
handle array_size c p rest = number_byte array_size array_size_lf c p rest
handle array_size_lf c p rest =
    if c == b'\n' then array_header (buf_to_long p.buf) p rest else fail p rest
handle integer c p rest = number_byte integer integer_lf c p rest
handle integer_lf c p rest =
    if c == b'\n'
    then next start (record p { buf = []; redis_value = int_value (buf_to_long p.buf) }) rest
    else fail p rest

-- The value `v` goes to the innermost open array; an array that is then full is a value itself.
close_arrays : List Frame → RedisValue → List Frame × RedisValue
close_arrays [] v = ([], v)
close_arrays (f ∷ fs) v =
    let items = push_back f.items v in
    let closed = close_arrays fs (array_value items) in
    if f.pending - 1 == 0
    then closed
    else (record { pending = f.pending - 1; items = items } ∷ fs, v)

-- The block under `if (state == Start)`, and whether it breaks the loop.
pub data Settled : Type 0 where
  breaks goes_on : Parser → Settled

settle_start : List Frame → RedisValue → Parser → Settled
settle_start fs v p =
    let q : Parser = record p { frames = fs; redis_value = v } in
    if is_empty fs then breaks q else goes_on q

pub settle : State → Parser → Settled
unfolding close_arrays settle_start
settle start p = let (fs, v) = close_arrays p.frames p.redis_value in settle_start fs v p
settle _ p = goes_on p

-- The loop ends by an error, or by its test or its `break`, in a state and with bytes unread.
pub data Outcome : Type 0 where
  rejected : Parser → Bytes → Outcome
  stopped : State → Parser → Bytes → Outcome

-- The `while` loop. Each round reads a byte, so the length of the chunk is fuel enough.
pub loop : ℕ → State → Parser → Bytes → Outcome
unfolding handle settle
loop fuel state p [] = stopped state p []
loop zero state p (c ∷ rest) = stopped state p (c ∷ rest)
loop (suc fuel) state p (c ∷ rest) = elim (handle state c p rest) [
  | reject q unread ↦ rejected q unread
  | next state' q unread ↦ elim (settle state' q) [
    | breaks r ↦ stopped state' r unread
    | goes_on r ↦ loop fuel state' r unread
  ]
]

abbrev pub is_start : State → Bool
is_start start = true
is_start _ = false

-- The state on top of the stack, or `Start`.
pub top_state : List State → State
top_state [] = start
top_state (s ∷ ss) = s

pub pop : List State → List State
pop [] = []
pop (s ∷ ss) = ss

-- A call's result: the position, what `Parse` says, and the parser after it.
pub record Parsed : Type 0 where
  pub position : ℕ
  pub result : ParseResult
  pub after : Parser

pub conclude : ℕ → Outcome → Parsed
conclude size (rejected p unread) = record {
  position = size - length unread;
  result = error;
  after = p;
}
conclude size (stopped state p unread) =
    if is_empty p.frames && is_start state
    then record { position = size - length unread; result = completed; after = p }
    else record {
      position = size - length unread;
      result = incompleted;
      after = record p { states = state ∷ p.states };
    }

unfoldable pub parse : Parser → Bytes → Parsed
unfolding loop top_state pop conclude
parse p chunk =
    conclude (length chunk)
      (loop (length chunk) (top_state p.states) (record p { states = pop p.states }) chunk)

-- `+OK` in two chunks, a nested array, and an error in the third byte.
run_two_chunks : (parse new_parser (codes "+O")).result ≡ incompleted
unfolding parse new_parser
run_two_chunks = refl

run_nested :
    (parse new_parser (codes "*2\r\n*1\r\n:7\r\n$2\r\nab\r\nrest")).after.redis_value
    ≡ array_value
        (cons (array_value (cons (int_value (pos 7)) nil)) (cons (bytes_value (codes "ab")) nil))
unfolding parse new_parser
run_nested = refl
