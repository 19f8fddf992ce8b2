-- ===== src/Connection/Receiving/Message.antt =====
-- connection.cpp: the calls that llhttp makes for a message, one after another, and what do_read does
-- with a message that is complete.
use da4qi.Base.{List, [], ◌∷◌, if◌then◌else◌, Bool, ◌&&◌, Option, Bytes}
use da4qi.Router.Order.{Algorithms}
use da4qi.Utilities.Strings.{StringAlgorithms}
use da4qi.Application.Manager.{App, Manager}
use da4qi.Request.Url.{UrlParser}
use da4qi.Request.Members.{parse_form_url_encoded_data}
use da4qi.Request.FormData.{SaveOptions, Disk, transfer_multiparts}
use da4qi.Connection.Headers.{Reading}
use da4qi.Connection.Arrivals.{Arrival, receive}
use da4qi.Connection.Receiving.{
  MultipartParser, Receiving, on_message_begin, on_url, on_message_complete, free_multipart_parser,
  reset,
}
use da4qi.Connection.Receiving.Body.{Answer, hpe_ok, stop_with_payload_too_large, stop}
use da4qi.Connection.Receiving.Limit.{receive_body}
use da4qi.Connection.Receiving.Head.{
  Parsed, HeadAnswer, head_ok, head_continue, stop_with_nofound, stop_with_too_large,
  on_headers_complete,
}

pub record Message : Type 0 where
  pub target : List Bytes
  pub headers : List Arrival
  pub parsed : Parsed
  pub pieces : List Bytes

-- What the connection has around it.
pub record Around (S : Type 0) : Type 0 where
  pub algorithms : Algorithms
  pub strings : StringAlgorithms
  pub url_parser : UrlParser
  pub multipart_parser : MultipartParser S
  pub manager : Manager
  pub abortive : Bytes → Option App
  pub fallback : Option App

-- What became of the message. When the application is to be asked for 100-continue, the reply 100 is
-- written while llhttp goes on; the end of that write, do_write's callback, is an event between the calls
-- for what comes next, so the message ends `asked` here.
pub data Outcome : Type 0 where
  complete refused_head refused_body asked : Outcome

module _ {S : Type 0} (C : Around S) where
  abbrev pub receive_target : List Bytes → Receiving S → Receiving S
  receive_target [] s = s
  receive_target (p ∷ ps) s = receive_target ps (on_url p s)

  -- The headers that arrive, up to the last one's last piece.
  abbrev pub arrive : List Arrival → Reading → Reading
  arrive [] r = r
  arrive (a ∷ as') r = arrive as' (receive C.algorithms a r)

  abbrev pub receive_headers : List Arrival → Receiving S → Receiving S
  receive_headers as' s = record s { reading = arrive as' s.reading }

  abbrev pub finish_body : Answer × Receiving S → Outcome × Receiving S
  finish_body (hpe_ok, s) = (complete, on_message_complete s)
  finish_body (stop_with_payload_too_large, s) = (refused_body, s)
  finish_body (stop, s) = (refused_body, s)

  abbrev pub finish : List Bytes → HeadAnswer × Receiving S → Outcome × Receiving S
  finish pieces (head_ok, s) = finish_body (receive_body C.multipart_parser pieces s)
  finish pieces (head_continue, s) = (asked, s)
  finish pieces (stop_with_nofound, s) = (refused_head, s)
  finish pieces (stop_with_too_large, s) = (refused_head, s)

  abbrev pub complete_headers : Parsed → Receiving S → HeadAnswer × Receiving S
  complete_headers =
      on_headers_complete C.algorithms C.strings C.multipart_parser C.abortive C.fallback C.manager
        C.url_parser

  abbrev pub receive_message : Message → Receiving S → Outcome × Receiving S
  receive_message m s = finish m.pieces (
      complete_headers m.parsed
        (receive_headers m.headers (receive_target m.target (on_message_begin s))))

  -- do_write, behind a response that was written without an error: where the request and the response
  -- keep the connection it is reset, and what comes is read. Behind the reply 100 this happens in the
  -- middle of a message.
  unfoldable pub on_written : Bool → Receiving S → Receiving S
  unfolding reset
  on_written response_keeps_alive s =
      if s.request.is_keep_alive && response_keeps_alive then reset s else s

  -- do_read, of a complete message that is no upgrade.
  unfoldable pub complete_request : SaveOptions → Disk → Bytes → Receiving S → Receiving S
  unfolding free_multipart_parser
  complete_request options disk dir s =
      let t = free_multipart_parser s in
      let r = t.request in
      let (parts, formdata) =
        transfer_multiparts C.algorithms C.strings options disk dir 0 r.multiparts r.formdata in
      if r.content.is_form_urlencoded
      then record t { request = parse_form_url_encoded_data C.strings r }
      else if r.content.is_formdata
      then record t { request = record r { multiparts = parts; formdata = formdata } }
      else t
