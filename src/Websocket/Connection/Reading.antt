-- ===== src/Websocket/Connection/Reading.antt =====
-- connection_websocket.cpp: what a connection does with the frames that it reads, and when a write
-- ends. `react event` are the calls that a handler makes while it runs. A read gives some bytes; that they
-- are at most the 4 KB of the buffer, which the code asserts, is not used.
use da4qi.Base.{List, [], ◌∷◌, ◌++◌, Bool, if◌then◌else◌, ◌==◌, Option, none, some, Bytes}
use da4qi.Websocket.Frame.{
  e_continuation, e_text, e_connection_close, e_ping, Message, FrameParser, parse,
}
use da4qi.Websocket.Connection.{
  Connection, e_binary, read_event, write_event, ErrorCode, eof, failure, Event, on_text, on_binary,
  on_close, on_error, Request, write_request, stop_request, write, stop, pong, start_read,
  start_write,
}

abbrev pub pop : List Bytes → List Bytes
pop [] = []
pop (x ∷ l) = l

unfoldable pub read_again : Connection → Connection
unfolding start_read
read_again c = if c.error_on_parse == 0 then start_read c else c

module _ (react : Event → List Request) where
  unfoldable pub obey : List Request → Connection → Connection
  unfolding write stop
  obey [] c = c
  obey (write_request data' type finished ∷ rs) c = obey rs (write data' type finished c)
  obey (stop_request ∷ rs) c = obey rs (stop c)

  -- The call of the events' handler.
  unfoldable pub raise : Event → Connection → Connection
  unfolding obey
  raise e c = obey (react e) (record c { events = c.events ++ e ∷ [] })

  -- The second `switch` of on_read_frame.
  unfoldable pub on_data : Bytes → Bool → Connection → Connection
  unfolding raise
  on_data data' fin c =
      if c.last_data_type == e_text
      then raise (on_text data' fin) c
      else if c.last_data_type == e_binary
      then raise (on_binary data' fin) c
      else record c { error_on_parse = 2 }

  unfoldable pub on_read_frame : Message → Connection → Connection
  unfolding on_data stop pong
  on_read_frame m c' =
      let c = record c' { error_on_parse = 0 } in
      if m.opcode == e_connection_close
      then (if c.stop_by_self then c else stop c)
      else if m.opcode == e_continuation
      then on_data m.payload m.fin c
      else if m.opcode == e_text
      then on_data m.payload m.fin (record c { last_data_type = e_text })
      else if m.opcode == e_binary
      then on_data m.payload m.fin (record c { last_data_type = e_binary })
      else if m.opcode == e_ping
      then pong c
      else record c { error_on_parse = 1 }

  unfoldable pub on_read_frames : List Message → Connection → Connection
  unfolding on_read_frame
  on_read_frames [] c = c
  on_read_frames (m ∷ ms) c = on_read_frames ms (on_read_frame m c)

  -- What follows the call of `Parse`. The callbacks of a chunk do not touch the parser, so they are
  -- made behind the call, in its order.
  unfoldable pub on_parsed : Option FrameParser → Connection → Connection
  unfolding on_read_frames read_again
  on_parsed none c = c
  on_parsed (some p) c =
      read_again (on_read_frames p.messages (record c { parser = record p { messages = [] } }))

  -- The handler of a read.
  unfoldable pub on_read : Option ErrorCode → Bytes → Connection → Connection
  unfolding raise on_parsed read_again
  on_read (some eof) bytes c = raise (on_close read_event) c
  on_read (some (failure code message)) bytes c = raise (on_error read_event code message) c
  on_read none [] c = read_again c
  on_read none (x ∷ bytes) c = on_parsed (parse (record c.parser { messages = [] }) (x ∷ bytes)) c

  -- The handler of a write.
  unfoldable pub on_write : Option ErrorCode → Connection → Connection
  unfolding raise start_write
  on_write (some eof) c = raise (on_close write_event) c
  on_write (some (failure code message)) c = raise (on_error write_event code message) c
  on_write none c = start_write (record c { data_4_write = pop c.data_4_write })
