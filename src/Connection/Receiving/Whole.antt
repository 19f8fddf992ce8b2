-- ===== src/Connection/Receiving/Whole.antt =====
-- A message that arrives in pieces on a connection that was reset.
use da4qi.Base.{
  ◌/◌, ◌||◌, not, List, [], ◌∷◌, ◌++◌, Bool, true, false, if◌then◌else◌, ltb, Option, none, some,
  Bytes, codes, is_empty, length, ◌≡◌, refl, ap, ◌∙◌, arith,
}
use da4qi.Router.Map.{find}
use da4qi.Utilities.Parameters.{transfer_headers_to_cookies}
use da4qi.Application.Manager.{App, find_by_url}
use da4qi.Request.Url.{Url, no_url, parse, under_application}
use da4qi.Request.Under.{stale, parse-stale}
use da4qi.Request.Members.{Request, no_request, no_content, clear}
use da4qi.Request.Members
use da4qi.Request.ContentType.{parse_content_type}
use da4qi.Connection.Headers.{Reading, try_commit}
use da4qi.Connection.Arrivals.{
  Arrival, joined, clean, receive, receive_all, inserted, AreNew, receive_all-inserted,
}
use da4qi.Connection.Receiving.{
  Receiving, read_none_complete, read_header_complete, read_message_complete, on_message_begin,
  on_url, on_message_complete, free_multipart_parser, reset,
}
use da4qi.Connection.Receiving.Head.{
  HeadAnswer, head_ok, stop_with_nofound, told, headers_used, update_request_after_header_parsed,
  is_100_continue, with_app, routed, on_headers_complete,
}
use da4qi.Connection.Receiving.Limit.{fits, receive_body-whole}
use da4qi.Connection.Receiving.Message.{
  Message, Around, complete, receive_target, arrive, receive_headers, finish_body, finish,
  complete_headers, receive_message,
}

module _ {S : Type 0} (C : Around S) (m : Message) where
  abbrev pub whole_target : Bytes
  whole_target = joined [] m.target

  abbrev pub whole_headers : List (Bytes × Bytes)
  whole_headers = inserted C.algorithms m.headers []

  abbrev pub whole_url : Url
  whole_url = parse C.strings C.url_parser whole_target no_url

  -- The request of the message, before its body, under an application that is still to be found.
  abbrev pub headed_request : Url → Request
  headed_request u = record no_request {
    url = u;
    method_number = m.parsed.method_number;
    version_major = m.parsed.http_major;
    version_minor = m.parsed.http_minor;
    content_length = if m.parsed.has_content_length then m.parsed.content_length else 0;
    is_keep_alive = m.parsed.should_keep_alive;
    is_upgrade = m.parsed.upgrade;
    content = parse_content_type C.algorithms whole_headers no_content;
    cookies = transfer_headers_to_cookies C.strings C.algorithms whole_headers [];
  }

  abbrev pub whole_request : App → Request
  whole_request app = record (headed_request (under_application app.url_root whole_url)) {
    body = joined [] m.pieces;
  }

  -- The states on the way: `r` is the request, `u` the buffer of the target.
  abbrev pub state : Bytes → Reading → Request → Receiving S
  state u reading r = record {
    url_buffer = u;
    reading = reading;
    body_buffer = [];
    read_complete = read_none_complete;
    mp_parser = none;
    part_headers = [];
    part_buffer = [];
    request = r;
    response_version = (1, 1);
    app = none;
  }

  abbrev pub headed : Option App → Url → Receiving S
  headed app u = record (state [] (clean whole_headers) (headed_request u)) {
    read_complete = read_header_complete;
    response_version = (m.parsed.http_major, m.parsed.http_minor);
    app = app;
  }

  abbrev pub whole : App → Receiving S
  whole app = record (state [] (clean whole_headers) (whole_request app)) {
    read_complete = read_message_complete;
    response_version = (m.parsed.http_major, m.parsed.http_minor);
    app = some app;
  }

  receive_target-joined :
      (ps : List Bytes) (s : Receiving S)
      → receive_target C ps s ≡ record s { url_buffer = joined s.url_buffer ps }
  unfolding on_url
  receive_target-joined [] s = refl
  receive_target-joined (p ∷ ps) s =
      receive_target-joined ps (record s { url_buffer = s.url_buffer ++ p })

  try_commit-arrive :
      (as' : List Arrival) (r : Reading)
      → try_commit C.algorithms (arrive C as' r) ≡ receive_all C.algorithms as' r
  unfolding receive_all
  try_commit-arrive [] r = refl
  try_commit-arrive (a ∷ as') r = try_commit-arrive as' (receive C.algorithms a r)

  updated :
      (s : Receiving S)
      → is_empty whole_target ≡ false
      → AreNew C.algorithms m.headers []
      → record (update_request_after_header_parsed C.algorithms C.strings C.url_parser m.parsed
          (state whole_target (arrive C m.headers (clean [])) (Members.reset s.request))) {
            read_complete = read_header_complete;
          }
        ≡ headed none (stale s.request.url.full_under_app s.request.url.path_under_app whole_url)
  unfolding update_request_after_header_parsed told headers_used clear Members.reset
  updated s named new =
      rw
        (
          named,
          parse-stale C.strings C.url_parser whole_target s.request.url.full_under_app
              s.request.url.path_under_app no_url,
          try_commit-arrive m.headers (clean []),
          receive_all-inserted C.algorithms m.headers new,
        )
        refl

  -- What the callback does behind the update.
  abbrev pub behind_update : Receiving S → HeadAnswer × Receiving S
  behind_update t =
      if not (is_empty t.request.url.schema) || not (is_empty t.request.url.host)
      then (stop_with_nofound, t)
      else routed C.algorithms C.strings C.multipart_parser
          (find_by_url C.algorithms C.abortive C.fallback t.request.url.path C.manager) t

  -- The target is a path, and an application is found for it.
  abbrev pub IsRouted : App → Type 0
  IsRouted app =
      (whole_url.schema ≡ [])
      × (whole_url.host ≡ [])
      × (find_by_url C.algorithms C.abortive C.fallback whole_url.path C.manager ≡ some app)

  -- Neither what the message says of its size nor its size is beyond the limit.
  abbrev pub IsSmall : App → Type 0
  IsSmall app =
      (fits (some app) (headed_request whole_url).content_length ≡ true)
      × (fits (some app) (length (joined [] m.pieces)) ≡ true)

  abbrev pub IsPlain : Type 0
  IsPlain = (parse_content_type C.algorithms whole_headers no_content).is_multipart ≡ false

  -- Whether the message asks for the reply 100 before its body.
  abbrev pub expects_continue : Bool
  expects_continue =
      is_100_continue C.algorithms (find C.algorithms.iless (codes "Expect") whole_headers)

  pub within_limit :
      (app : App)
      → fits (some app) (headed_request whole_url).content_length ≡ true
      → ltb app.upload_max_size_limit_kb ((headed_request whole_url).content_length / 1024) ≡ false
  within_limit app small = ground arith

  behind_update-app :
      (x y : Bytes) (app : App)
      → IsRouted app
      → fits (some app) (headed_request whole_url).content_length ≡ true
      → expects_continue ≡ false
      → IsPlain
      → behind_update (headed none (stale x y whole_url))
        ≡ (head_ok, headed (some app) (under_application app.url_root whole_url))
  unfolding routed with_app under_application
  behind_update-app x y app (no_schema, no_host, found) small other plain =
      rw (no_schema, no_host, found, within_limit app small, plain, other) refl

  finish-whole :
      (app : App)
      → fits (some app) (length (joined [] m.pieces)) ≡ true
      → IsPlain
      → finish C m.pieces (head_ok, headed (some app) (under_application app.url_root whole_url))
        ≡ (complete, whole app)
  unfolding on_message_complete
  finish-whole app small plain = ap (finish_body C) (
      receive_body-whole C.multipart_parser m.pieces
        (headed (some app) (under_application app.url_root whole_url)) plain small)

  -- Up to the end of the headers.
  pub receive_message-headed :
      (s : Receiving S)
      → is_empty whole_target ≡ false
      → AreNew C.algorithms m.headers []
      → receive_message C m (reset (free_multipart_parser s))
        ≡ finish C m.pieces (
            behind_update (
              headed none
                (stale s.request.url.full_under_app s.request.url.path_under_app whole_url)))
  unfolding on_message_begin reset free_multipart_parser on_headers_complete
  receive_message-headed s named new =
      ap (λ t. finish C m.pieces (complete_headers C m.parsed (receive_headers C m.headers t)))
        (receive_target-joined m.target (state [] (clean []) (Members.reset s.request)))
      ∙ ap (λ t. finish C m.pieces (behind_update t)) (updated s named new)

  -- On a connection that was reset when a message was complete, whatever it held before, a message in
  -- pieces is received whole, however it was cut, if its headers have different names, its target is
  -- not empty, has neither schema nor host and is one that an application is found for, it does not
  -- expect 100-continue, its body does not come in parts, and its size, as it is told and as it is
  -- sent, is within the limit: the request has the target, the headers and the body that were sent and
  -- what follows from them, and nothing of another request.
  pub receive_message-whole :
      (s : Receiving S) (app : App)
      → is_empty whole_target ≡ false
      → AreNew C.algorithms m.headers []
      → IsRouted app
      → IsSmall app
      → expects_continue ≡ false
      → IsPlain
      → receive_message C m (reset (free_multipart_parser s)) ≡ (complete, whole app)
  receive_message-whole s app named new routed_to (small_head, small) other plain =
      receive_message-headed s named new
      ∙ ap (finish C m.pieces) (
          behind_update-app s.request.url.full_under_app s.request.url.path_under_app app routed_to
            small_head other plain)
      ∙ finish-whole app small plain
