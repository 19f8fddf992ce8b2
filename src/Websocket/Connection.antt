-- ===== src/Websocket/Connection.antt =====
-- connection_websocket.hpp and connection_websocket.cpp: Websocket::Connection. `writing` and `reads`
-- are the operations of the socket that have not ended, `events` the calls of the handler of the
-- connection's events, `issued` and `sent` the data appended to the list and given to the socket. A
-- handler may write and stop while it runs: `react event` are its calls. `sha1` is Utilities::SHA1.
pub mod Handshake
pub mod Reading
pub mod Steps
pub mod Orderly
pub mod Heard
use da4qi.Base.{
  ℕ, zero, suc, ◌+◌, List, [], ◌∷◌, ◌++◌, Bool, true, false, not, if◌then◌else◌, ◌==◌, Option, none,
  some, Bytes, is_empty, codes, length, take, ◌≡◌,
}
use da4qi.Router.Order.{Algorithms}
use da4qi.Router.Map.{find}
use da4qi.Utilities.Base64.{base64_encode}
use da4qi.Websocket.Frame.{
  FrameType, e_continuation, e_text, e_connection_close, e_ping, new_builder, set_fin,
  set_frame_type, build, Message, FrameParser, new_parser, parse,
}

abbrev pub e_binary : FrameType
e_binary = 0x02

abbrev pub e_pong : FrameType
e_pong = 0x0A

pub data WriteDataType : Type 0 where
  continuation text binary : WriteDataType

pub data EventOn : Type 0 where
  read_event write_event : EventOn

pub data ErrorCode : Type 0 where
  eof : ErrorCode
  failure : ℕ → Bytes → ErrorCode

pub data Event : Type 0 where
  on_text on_binary : Bytes → Bool → Event
  on_close : EventOn → Event
  on_error : EventOn → ℕ → Bytes → Event

-- What a handler calls.
pub data Request : Type 0 where
  write_request : Bytes → WriteDataType → Bool → Request
  stop_request : Request

pub record Connection : Type 0 where
  pub id : Bytes
  pub full_url_path : Bytes
  pub url : Option Bytes  -- the member `full` of the Url, where there is one
  pub headers : List (Bytes × Bytes)
  pub data_4_write : List Bytes
  pub parser : FrameParser
  pub last_data_type : ℕ
  pub error_on_parse : ℕ
  pub stop_by_self : Bool
  pub writing : List Bytes
  pub reads : ℕ
  pub events : List Event
  pub issued : List Bytes
  pub sent : List Bytes

unfoldable pub new_connection : Bytes → List (Bytes × Bytes) → Connection
new_connection url headers = record {
  id = [];
  full_url_path = [];
  url = some url;
  headers = headers;
  data_4_write = [];
  parser = new_parser;
  last_data_type = 0;
  error_on_parse = 0;
  stop_by_self = false;
  writing = [];
  reads = 0;
  events = [];
  issued = [];
  sent = [];
}

abbrev pub or_empty : Option Bytes → Bytes
or_empty none = []
or_empty (some full) = full

unfoldable pub get_url_path : Connection → Bytes
get_url_path c = if not (is_empty c.full_url_path) then c.full_url_path else or_empty c.url

pub makesure_url_path_storaged : Connection → Connection
makesure_url_path_storaged c =
    if is_empty c.full_url_path then record c { full_url_path = or_empty c.url } else c

abbrev cleared : Option Bytes → Option Bytes
cleared none = none
cleared (some full) = some []

unfoldable pub clear_url_data : Connection → Connection
unfolding makesure_url_path_storaged
clear_url_data c = record (makesure_url_path_storaged c) { url = cleared c.url }

unfoldable pub release_url_data : Connection → Connection
unfolding makesure_url_path_storaged
release_url_data c = record (makesure_url_path_storaged c) { url = none }

-- `FromWriteDataType`.
abbrev pub frame_type : WriteDataType → FrameType
frame_type continuation = e_continuation
frame_type text = e_text
frame_type binary = e_binary

unfoldable pub start_write : Connection → Connection
start_write c = elim c.data_4_write [
  | [] ↦ c
  | front ∷ _ ↦ record c { writing = c.writing ++ front ∷ []; sent = c.sent ++ front ∷ [] }
]

unfoldable pub append_write_data : Bytes → Connection → Connection
unfolding start_write
append_write_data data' c =
    let appended = record c {
      data_4_write = c.data_4_write ++ data' ∷ [];
      issued = c.issued ++ data' ∷ [];
    } in
    if is_empty c.data_4_write then start_write appended else appended

abbrev pub frame : WriteDataType → Bool → Bytes → Bytes
frame type finished data' =
    build (set_frame_type (frame_type type) (set_fin finished new_builder)) data'

unfoldable pub write : Bytes → WriteDataType → Bool → Connection → Connection
unfolding append_write_data
write data' type finished c = append_write_data (frame type finished data') c

unfoldable pub stop : Connection → Connection
unfolding append_write_data
stop c =
    append_write_data (build (set_frame_type e_connection_close (set_fin true new_builder)) [])
      (record c { stop_by_self = true })

unfoldable pub pong : Connection → Connection
unfolding append_write_data
pong c = append_write_data (build (set_fin true (set_frame_type e_pong new_builder)) []) c

unfoldable pub start_read : Connection → Connection
start_read c = record c { reads = c.reads + 1 }
