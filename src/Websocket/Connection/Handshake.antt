-- ===== src/Websocket/Connection/Handshake.antt =====
-- connection_websocket.cpp: the answer to a websocket handshake. `sha1` is Utilities::SHA1.
use da4qi.Base.{List, [], ◌∷◌, ◌++◌, Bytes, is_empty, codes, take, if◌then◌else◌}
use da4qi.Router.Order.{Algorithms}
use da4qi.Router.Map.{find}
use da4qi.Utilities.Base64.{base64_encode}
use da4qi.Websocket.Connection.{Connection, or_empty, append_write_data, start_read}

abbrev accept_key : Bytes → Bytes
accept_key key = key ++ codes "258EAFA5-E914-47DA-95CA-C5AB0DC85B11"

abbrev protocol_line : Bytes → Bytes
protocol_line protocol =
    if is_empty protocol then [] else codes "Sec-WebSocket-Protocol: " ++ (protocol ++ codes "\r\n")

-- `data.append` of each text.
abbrev append_all : List Bytes → Bytes
append_all [] = []
append_all (text' ∷ texts) = text' ++ append_all texts

-- `make_handshake_http_response`.
module _ (sha1 : Bytes → Bytes) where
  unfoldable pub make_handshake_http_response : Bytes → Bytes → Bytes
  make_handshake_http_response key protocol = append_all (
      codes "HTTP/1.1 101 Switching Protocols\r\n"
      ∷ codes "Upgrade: websocket\r\n"
      ∷ codes "Connection: Upgrade\r\n"
      ∷ codes "Server: da4qi4\r\n"
      ∷ codes "Sec-WebSocket-Accept: "
      ∷ or_empty (base64_encode (take 20 (sha1 (accept_key key))))
      ∷ codes "\r\n"
      ∷ protocol_line protocol
      ∷ codes "\r\n"
      ∷ [])

  -- `Start`: the handshake's answer, and the first read.
  unfoldable pub start_handshake : Algorithms → Bytes → Connection → Connection
  unfolding make_handshake_http_response append_write_data start_read
  start_handshake B key c =
      let protocol = or_empty (find B.iless (codes "Sec-WebSocket-Protocol") c.headers) in
      start_read (append_write_data (make_handshake_http_response key protocol) c)
