-- ===== src/Connection/Receiving/Body.antt =====
-- connection.cpp: the callback of llhttp for a piece of the body.
use da4qi.Base.{
  ℕ, ◌+◌, ◌-◌, ◌*◌, ◌/◌, [], ◌∷◌, ◌++◌, ◌&&◌, if◌then◌else◌, ◌==◌, ltb, Option, none, some, Bytes,
  codes, length, take, drop,
}
use da4qi.Router.Order.{starts_with, tail_is}
use da4qi.Request.ContentType.{find_text}
use da4qi.Application.Manager.{App}
use da4qi.Connection.Multipart.{Multipart}
use da4qi.Connection.Receiving.{MultipartParser, Receiving}

pub data MultpartParseStatus : Type 0 where
  mp_cannot_init mp_parsing mp_parse_fail : MultpartParseStatus

-- What the callback tells llhttp: to go on, or, with -1, to stop; for a body that is too large it has sent
-- a reply by then.
pub data Answer : Type 0 where
  hpe_ok stop_with_payload_too_large stop : Answer

abbrev pub upload_max_size_limit_kb : Option App → ℕ
upload_max_size_limit_kb none = 15 * 1024
upload_max_size_limit_kb (some app) = app.upload_max_size_limit_kb

-- The boundary is the first line behind its two dashes, less two dashes at its end.
unfoldable pub boundary_of : Bytes → Bytes
boundary_of line =
    if ltb 2 (length line) && tail_is line (codes "--") then take (length line - 2) line else line

unfoldable pub answer_of : MultpartParseStatus → Answer
answer_of mp_cannot_init = hpe_ok
answer_of mp_parsing = hpe_ok
answer_of mp_parse_fail = stop

module _ {S : Type 0} where
  -- What the callbacks of the parser of the parts see of the connection, and what they leave there.
  abbrev pub multipart_of : Receiving S → Multipart
  multipart_of s = record {
    reading = record s.reading { headers = s.part_headers };
    part_buffer = s.part_buffer;
    multiparts = s.request.multiparts;
  }

  abbrev pub with_multipart : Multipart → Receiving S → Receiving S
  with_multipart m s = record s {
    reading = record m.reading { headers = s.reading.headers };
    part_headers = m.reading.headers;
    part_buffer = m.part_buffer;
    request = record s.request { multiparts = m.multiparts };
  }

  module _ (P : MultipartParser S) where
    -- init_multipart_parser, where there is no parser.
    unfoldable pub init_multipart_parser : Bytes → Receiving S → Receiving S
    init_multipart_parser boundary s = record s {
      mp_parser = some (P.init (codes "--" ++ boundary));
    }

    unfoldable pub fix_with : Bytes → Option Bytes → Receiving S → Receiving S
    unfolding init_multipart_parser
    fix_with behind none s = s
    fix_with behind (some rest) s =
        let boundary = boundary_of (take (length behind - length rest) behind) in
        let content = record s.request.content { boundary = boundary } in
        init_multipart_parser boundary
          (record s { request = record s.request { content = content } })

    unfoldable pub try_fix_multipart_bad_request_without_boundary : Receiving S → Receiving S
    unfolding fix_with
    try_fix_multipart_bad_request_without_boundary s =
        let behind = drop 2 s.body_buffer in
        if starts_with s.body_buffer (codes "--")
        then fix_with behind (find_text (b'\r' ∷ b'\n' ∷ []) behind) s
        else s

    unfoldable pub execute_with : Option S → Receiving S → MultpartParseStatus × Receiving S
    execute_with none s = (mp_cannot_init, s)
    execute_with (some p) s =
        let (p', m, parsed_bytes) = P.execute p s.body_buffer (multipart_of s) in
        let executed = record (with_multipart m s) { mp_parser = some p' } in
        if parsed_bytes == length s.body_buffer
        then (mp_parsing, record executed { body_buffer = [] })
        else (mp_parse_fail, executed)

    unfoldable pub with_parser : Option S → Receiving S → Receiving S
    unfolding try_fix_multipart_bad_request_without_boundary
    with_parser none s = try_fix_multipart_bad_request_without_boundary s
    with_parser (some p) s = s

    unfoldable pub do_multipart_parse : Receiving S → MultpartParseStatus × Receiving S
    unfolding execute_with with_parser
    do_multipart_parse s =
        let ready = with_parser s.mp_parser s in execute_with ready.mp_parser ready

    unfoldable pub on_body : Bytes → Receiving S → Answer × Receiving S
    unfolding do_multipart_parse answer_of
    on_body at' s =
        let total_byte_kb = (length s.body_buffer + length at') / 1024 in
        let appended = record s { body_buffer = s.body_buffer ++ at' } in
        let (status, parsed) = do_multipart_parse appended in
        if ltb (upload_max_size_limit_kb s.app) total_byte_kb
        then (stop_with_payload_too_large, s)
        else if s.request.content.is_multipart
        then (answer_of status, parsed)
        else (hpe_ok, appended)
