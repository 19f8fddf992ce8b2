-- ===== src/Redis/Client.antt =====
-- redis_client.hpp and redis_client.cpp: RedisClient. An asynchronous operation that has not ended is
-- an entry of `operations`, `connects` or `waits`; `issued`, `sent` and `answers` are the history of
-- the commands, of the data given to `async_write` and of the calls of their handlers. A handler of
-- type `H` gives further commands while it runs, `react on value`; one of type `C`, for the result of
-- a connect, is only called.
pub mod Steps
pub mod Flight
pub mod Orderly
pub mod Safety
pub mod Stalled
pub mod Scanning
pub mod Answered
pub mod Reads
use da4qi.Base.{
  ℕ, suc, zero, ◌+◌, ◌-◌, ◌%◌, ◌^◌, List, [], ◌∷◌, ◌++◌, Bool, true, false, not, ◌||◌,
  if◌then◌else◌, ltb, leb, Option, none, some, Bytes, length, drop, is_empty, codes,
}
use da4qi.Redis.Value.{RedisValue, error_value}
use da4qi.Redis.Parser.{Parser, new_parser, parse, ParseResult, completed, incompleted, error}
use da4qi.Redis.Command.{make_command}

pub data ErrorHandlePolicy : Type 0 where
  do_nothing auto_reconnect : ErrorHandlePolicy

pub data ConnectStatus : Type 0 where
  not_connect is_connectting is_connected : ConnectStatus

-- The error codes that the client itself reports, and those that come from the network.
pub data ErrorCode : Type 0 where
  operation_in_progress already_connected : ErrorCode
  network : Bytes → ErrorCode

unfoldable pub reconnect_interval_seconds : ℕ → ℕ
reconnect_interval_seconds reconnect_count =
    if ltb reconnect_count 10
    then 1
    else if ltb reconnect_count 32
    then 5
    else if ltb reconnect_count 200
    then 10
    else if ltb reconnect_count 260
    then 30
    else 300

pub record CommandNode (H : Type 0) : Type 0 where
  pub bytes : Bytes
  pub on : Option H

-- What the client has asked of its socket: `async_write`, or `async_read_some` for a parser.
pub data Operation (H : Type 0) : Type 0 where
  writing : Bytes → Operation H
  reading : Parser → Option H → Operation H

pub record Client (H C : Type 0) : Type 0 where
  pub policy : ErrorHandlePolicy
  pub host : Bytes
  pub port : ℕ
  pub reconnect_count : ℕ
  pub connect_status : ConnectStatus
  pub command_queue : List (CommandNode H)
  pub reply_buf : Bytes
  pub reply_parse_beg : ℕ
  pub operations : List (Operation H)
  pub connects : List (Option C)
  pub waits : List (ℕ × Option C)
  pub issued : List (CommandNode H)
  pub sent : List Bytes
  pub answers : List (Option H × RedisValue)
  pub reports : List (C × Option ErrorCode)

-- A command that a handler gives while it runs.
pub record Order (H : Type 0) : Type 0 where
  pub cmd : Bytes
  pub args : List Bytes
  pub on : Option H

unfoldable pub new_client : {H C : Type 0} → ErrorHandlePolicy → Client H C
new_client policy = record {
  policy = policy;
  host = [];
  port = 0;
  reconnect_count = 0;
  connect_status = not_connect;
  command_queue = [];
  reply_buf = [];
  reply_parse_beg = 0;
  operations = [];
  connects = [];
  waits = [];
  issued = [];
  sent = [];
  answers = [];
  reports = [];
}

abbrev pub is_connected_status : ConnectStatus → Bool
is_connected_status is_connected = true
is_connected_status _ = false

abbrev pub is_connectting_status : ConnectStatus → Bool
is_connectting_status is_connectting = true
is_connectting_status _ = false

abbrev pub reconnects : ErrorHandlePolicy → Bool
reconnects auto_reconnect = true
reconnects do_nothing = false

module _ {H : Type 0} where
  abbrev pub pop : List (CommandNode H) → List (CommandNode H)
  pop [] = []
  pop (node ∷ nodes) = nodes

  -- What `std::move` leaves of the front: its data and handler are gone.
  abbrev pub move_front : List (CommandNode H) → List (CommandNode H)
  move_front [] = []
  move_front (node ∷ nodes) = record { bytes = []; on = none } ∷ nodes

  abbrev pub front_on : List (CommandNode H) → Option H
  front_on [] = none
  front_on (node ∷ nodes) = node.on

-- The buffer that a new reply begins with.
abbrev pub unparsed : Bytes → ℕ → Bytes
unparsed buf beg = if leb (length buf) beg then [] else drop beg buf

module _ {H C : Type 0} where
  unfoldable pub do_async_connect : Option C → Client H C → Client H C
  do_async_connect on c = record c {
    connect_status = is_connectting;
    connects = c.connects ++ on ∷ [];
  }

  unfoldable pub connect : Option C → Bytes → ℕ → Client H C → Client H C
  unfolding do_async_connect
  connect on host port c =
      if is_connected_status c.connect_status || is_connectting_status c.connect_status
      then c
      else do_async_connect on (record c { host = host; port = port })

  -- `_reconnect_count` is an `unsigned int`; the timer takes its expiry time.
  unfoldable pub start_reconnect_timer : Option C → Client H C → Client H C
  start_reconnect_timer on c =
      let count = (c.reconnect_count + 1) % 2 ^ 32 in
      record c {
        reconnect_count = count;
        waits = c.waits ++ (reconnect_interval_seconds count, on) ∷ [];
      }

  -- The call of a connect handler, or nothing where there is none.
  unfoldable pub report : Option C → Option ErrorCode → Client H C → Client H C
  report none ec c = c
  report (some on) ec c = record c { reports = c.reports ++ (on, ec) ∷ [] }

  unfoldable pub reconnect : Option C → Client H C → Client H C
  unfolding report start_reconnect_timer
  reconnect on c =
      if is_connectting_status c.connect_status
      then report on (some operation_in_progress) c
      else if not (is_connected_status c.connect_status)
      then start_reconnect_timer on c
      else report on (some already_connected) c

  unfoldable pub on_connect_finished : Option C → Option ErrorCode → Client H C → Client H C
  unfolding report start_reconnect_timer
  on_connect_finished on none c =
      report on none (record c { connect_status = is_connected; reconnect_count = 0 })
  on_connect_finished on (some ec) c =
      let failed = report on (some ec) (record c { connect_status = not_connect }) in
      if reconnects c.policy then start_reconnect_timer on failed else failed

  -- The handler of the timer: an error, a cancelled wait too, ends it.
  unfoldable pub on_timer : Option C → Option ErrorCode → Client H C → Client H C
  unfolding do_async_connect
  on_timer on none c = do_async_connect on c
  on_timer on (some ec) c = c

  -- Closing the socket makes its operations end with an error, which is a step of its own.
  unfoldable pub disconnect : Client H C → Client H C
  disconnect c =
      if is_connected_status c.connect_status then record c { connect_status = not_connect } else c

  unfoldable pub start_async_write : Client H C → Client H C
  start_async_write c = elim c.command_queue [
    | [] ↦ c
    | node ∷ nodes ↦ record c {
      operations = c.operations ++ writing node.bytes ∷ [];
      sent = c.sent ++ node.bytes ∷ [];
    }
  ]

  unfoldable pub command : Bytes → List Bytes → Option H → Client H C → Client H C
  unfolding start_async_write
  command cmd args on c =
      let node : CommandNode H = record { bytes = make_command (cmd ∷ args); on = on } in
      let queued = record c {
        command_queue = c.command_queue ++ node ∷ [];
        issued = c.issued ++ node ∷ [];
      } in
      if is_empty c.command_queue then start_async_write queued else queued

  unfoldable pub pop_front : Client H C → Client H C
  pop_front c = record c { command_queue = pop c.command_queue }

  unfoldable pub do_async_read_and_parse : Parser → Option H → Client H C → Client H C
  do_async_read_and_parse parser on c = record c {
    operations = c.operations ++ reading parser on ∷ [];
  }

  unfoldable pub start_async_read_and_parse : Option H → Client H C → Client H C
  unfolding do_async_read_and_parse
  start_async_read_and_parse on c =
      do_async_read_and_parse new_parser on
        (record c { reply_buf = unparsed c.reply_buf c.reply_parse_beg; reply_parse_beg = 0 })

-- Where the loop over the bytes not yet parsed ends.
pub record Scan : Type 0 where
  pub parser : Parser
  pub beg : ℕ
  pub verdict : ParseResult

-- The loop of the read handler.
unfoldable pub parse_loop : ℕ → Parser → ℕ → Bytes → Scan
parse_loop zero parser beg buf = record { parser = parser; beg = beg; verdict = incompleted }
parse_loop (suc fuel) parser beg buf =
    let r = parse parser (drop beg buf) in
    let more = parse_loop fuel r.after (beg + r.position) buf in
    if ltb beg (length buf)
    then elim r.result [
      | completed ↦ record { parser = r.after; beg = beg + r.position; verdict = completed }
      | incompleted ↦ more
      | error ↦ record { parser = r.after; beg = beg + r.position; verdict = error }
    ]
    else record { parser = parser; beg = beg; verdict = incompleted }

-- What a read ends with.
pub data Received : Type 0 where
  failed : Bytes → Received
  received : Bytes → Received

module _ {H C : Type 0} (react : H → RedisValue → List (Order H)) where
  unfoldable pub obey : List (Order H) → Client H C → Client H C
  unfolding command
  obey [] c = c
  obey (o ∷ orders) c = obey orders (command o.cmd o.args o.on c)

  unfoldable pub try_on_redis_handler : Option H → RedisValue → Client H C → Client H C
  unfolding obey
  try_on_redis_handler none value c = record c { answers = c.answers ++ (none, value) ∷ [] }
  try_on_redis_handler (some on) value c =
      obey (react on value) (record c { answers = c.answers ++ (some on, value) ∷ [] })

  unfoldable pub on_write : Option Bytes → Client H C → Client H C
  unfolding try_on_redis_handler pop_front reconnect start_async_read_and_parse
  on_write ec c =
      let on = front_on c.command_queue in
      let moved = record c { command_queue = move_front c.command_queue } in
      elim ec [
        | some message ↦
            let answered = pop_front (try_on_redis_handler on (error_value message) moved) in
            if reconnects c.policy then reconnect none answered else answered
        | none ↦ start_async_read_and_parse on moved
      ]

  -- The answer, the end of the command, and the next one.
  unfoldable pub answer : Option H → RedisValue → Client H C → Client H C
  unfolding try_on_redis_handler pop_front start_async_write
  answer on value c = start_async_write (pop_front (try_on_redis_handler on value c))

  -- The handler of a read behind which the loop has ended.
  unfoldable pub on_scan : Option H → Scan → Client H C → Client H C
  unfolding answer do_async_read_and_parse
  on_scan on s c = elim s.verdict [
    | completed ↦ answer on s.parser.redis_value c
    | incompleted ↦ do_async_read_and_parse s.parser on c
    | error ↦ answer on (error_value (codes "parse error. " ++ c.reply_buf)) c
  ]

  -- Each round parses a byte at least, so the number of bytes is fuel enough.
  unfoldable pub on_read : Parser → Option H → Received → Client H C → Client H C
  unfolding try_on_redis_handler pop_front do_async_read_and_parse on_scan
  on_read parser on (failed message) c = pop_front (try_on_redis_handler on (error_value message) c)
  on_read parser on (received []) c = do_async_read_and_parse parser on c
  on_read parser on (received (x ∷ bytes)) c =
      let buf = c.reply_buf ++ x ∷ bytes in
      let s = parse_loop (length buf - c.reply_parse_beg) parser c.reply_parse_beg buf in
      on_scan on s (record c { reply_buf = buf; reply_parse_beg = s.beg })
