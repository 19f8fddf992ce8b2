-- ===== src/Connection/Receiving.antt =====
-- connection.hpp and connection.cpp: what a connection holds while it receives a message, and the
-- callbacks for its beginning, its target and its end. What llhttp tells of a message is a parameter, as
-- is the parser of multipart bodies.
pub mod Body
pub mod Head
pub mod Limit
pub mod Bound
pub mod Message
pub mod Whole
pub mod Asked
use da4qi.Base.{ℕ, List, [], ◌++◌, Option, none, Bytes}
use da4qi.Application.Manager.{App}
use da4qi.Request.Members.{Request, no_request}
use da4qi.Request.Members
use da4qi.Connection.Headers.{header_none_part, Reading}
use da4qi.Connection.Multipart.{Multipart}

pub data ReadCompletePart : Type 0 where
  read_none_complete read_header_complete read_message_complete : ReadCompletePart

-- multipart_parser_init and multipart_parser_execute, which calls back and tells how many bytes it read.
pub record MultipartParser (S : Type 0) : Type 0 where
  pub init : Bytes → S
  pub execute : S → Bytes → Multipart → S × Multipart × ℕ

-- `reading` has the buffers for headers and the headers of the request, `part_headers` and `part_buffer`
-- what was read of a part of the body.
pub record Receiving (S : Type 0) : Type 0 where
  pub url_buffer : Bytes
  pub reading : Reading
  pub body_buffer : Bytes
  pub read_complete : ReadCompletePart
  pub mp_parser : Option S
  pub part_headers : List (Bytes × Bytes)
  pub part_buffer : Bytes
  pub request : Request
  pub response_version : ℕ × ℕ
  pub app : Option App

abbrev pub no_reading : Reading
no_reading = record { part = header_none_part; field = []; value = []; headers = [] }

module _ {S : Type 0} where
  unfoldable pub on_message_begin : Receiving S → Receiving S
  on_message_begin s = record s { read_complete = read_none_complete; body_buffer = [] }

  unfoldable pub on_url : Bytes → Receiving S → Receiving S
  on_url at' s = record s { url_buffer = s.url_buffer ++ at' }

  -- SetBody swaps the buffer and the body.
  unfoldable pub on_message_complete : Receiving S → Receiving S
  on_message_complete s = record s {
    request = record s.request { body = s.body_buffer };
    body_buffer = s.request.body;
    read_complete = read_message_complete;
  }

  unfoldable pub free_multipart_parser : Receiving S → Receiving S
  free_multipart_parser s = record s { mp_parser = none }

  -- Connection::reset; Response::Reset sets the version 1.1.
  unfoldable pub reset : Receiving S → Receiving S
  unfolding Members.reset
  reset s = record s {
    url_buffer = [];
    body_buffer = [];
    reading = no_reading;
    read_complete = read_none_complete;
    part_headers = [];
    part_buffer = [];
    request = Members.reset s.request;
    response_version = (1, 1);
    app = none;
  }
