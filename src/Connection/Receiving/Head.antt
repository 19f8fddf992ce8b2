-- ===== src/Connection/Receiving/Head.antt =====
-- connection.cpp: the end of the headers of a message. What llhttp tells of the message is a parameter.
use da4qi.Base.{
  ℕ, ◌/◌, List, [], Bool, false, ◌||◌, not, if◌then◌else◌, ltb, Option, none, some, Bytes, codes,
  is_empty,
}
use da4qi.Router.Order.{Algorithms}
use da4qi.Router.Map.{find}
use da4qi.Utilities.Strings.{StringAlgorithms}
use da4qi.Utilities.Parameters.{transfer_headers_to_cookies}
use da4qi.Application.Manager.{App, Manager, find_by_url}
use da4qi.Request.Url.{UrlParser, parse, under_application}
use da4qi.Request.Members.{Request}
use da4qi.Request.ContentType.{parse_content_type}
use da4qi.Connection.Headers.{try_commit}
use da4qi.Connection.Receiving.{MultipartParser, read_header_complete, Receiving}
use da4qi.Connection.Receiving.Body.{init_multipart_parser}

-- The members of the parser of llhttp that are read, and llhttp_should_keep_alive.
pub record Parsed : Type 0 where
  pub has_content_length : Bool
  pub content_length : ℕ
  pub should_keep_alive : Bool
  pub upgrade : Bool
  pub method_number : ℕ
  pub http_major : ℕ
  pub http_minor : ℕ

-- What the callback does: it lets llhttp go on, with or without a reply 100, whose write only begins here
-- (`on_written` of Connection/Receiving/Message is its end), or it replies 404 or 413 and
-- stops llhttp with -1.
pub data HeadAnswer : Type 0 where
  head_ok head_continue stop_with_nofound stop_with_too_large : HeadAnswer

module _ (A : Algorithms) where
  unfoldable pub is_100_continue : Option Bytes → Bool
  is_100_continue none = false
  is_100_continue (some value) = A.iequals value (codes "100-continue")

  module _ (B : StringAlgorithms) where
    -- What is made of the headers.
    unfoldable pub headers_used : List (Bytes × Bytes) → Request → Request
    headers_used headers r = record r {
      cookies = transfer_headers_to_cookies B A headers r.cookies;
      content = parse_content_type A headers r.content;
    }

module _ {S : Type 0} where
  -- What llhttp tells, with the URL.
  unfoldable pub told : StringAlgorithms → UrlParser → Parsed → Receiving S → Receiving S
  told B U v s =
      let r = s.request in
      record s {
        url_buffer = [];
        request = record r {
          url = if is_empty s.url_buffer then r.url else parse B U s.url_buffer r.url;
          content_length = if v.has_content_length then v.content_length else r.content_length;
          is_keep_alive = v.should_keep_alive;
          is_upgrade = v.upgrade;
          method_number = v.method_number;
          version_major = v.http_major;
          version_minor = v.http_minor;
        };
        response_version = (v.http_major, v.http_minor);
      }

  module _ (A : Algorithms) (B : StringAlgorithms) where
    unfoldable pub update_request_after_header_parsed :
        UrlParser → Parsed → Receiving S → Receiving S
    unfolding told headers_used
    update_request_after_header_parsed U v s =
        let t = told B U v s in
        let reading = try_commit A t.reading in
        record t { reading = reading; request = headers_used A B reading.headers t.request }

    module _ (P : MultipartParser S) where
      unfoldable pub try_init_multipart_parser : Receiving S → Receiving S
      unfolding init_multipart_parser
      try_init_multipart_parser s =
          let boundary = s.request.content.boundary in
          if is_empty boundary then s else init_multipart_parser P boundary s

      -- What follows when the application is known.
      unfoldable pub with_app : App → Receiving S → HeadAnswer × Receiving S
      unfolding is_100_continue try_init_multipart_parser
      with_app app s =
          let url = under_application app.url_root s.request.url in
          let t = record s { app = some app; request = record s.request { url = url } } in
          let expect = find A.iless (codes "Expect") t.reading.headers in
          if ltb app.upload_max_size_limit_kb (t.request.content_length / 1024)
          then (stop_with_too_large, t)
          else if is_100_continue A expect
          then (head_continue, t)
          else if t.request.content.is_multipart
          then (head_ok, try_init_multipart_parser t)
          else (head_ok, t)

      unfoldable pub routed : Option App → Receiving S → HeadAnswer × Receiving S
      unfolding with_app
      routed none s = (stop_with_nofound, record s { app = none })
      routed (some app) s = with_app app s

      unfoldable pub on_headers_complete :
          (Bytes → Option App)
          → Option App
          → Manager
          → UrlParser
          → Parsed
          → Receiving S
          → HeadAnswer × Receiving S
      unfolding routed update_request_after_header_parsed
      on_headers_complete abortive fallback mgr U v s =
          let t = record (update_request_after_header_parsed U v s) {
            read_complete = read_header_complete;
          } in
          if not (is_empty t.request.url.schema) || not (is_empty t.request.url.host)
          then (stop_with_nofound, t)
          else routed (find_by_url A abortive fallback t.request.url.path mgr) t
