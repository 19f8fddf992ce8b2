-- ===== src/Tests/Receiving.antt =====
-- A message in pieces, on a connection that was used before.
use da4qi.Base.{
  ℕ, ◌+◌, [], ◌∷◌, true, false, if◌then◌else◌, ◌==◌, none, some, Bytes, codes, length, ◌≡◌, refl,
}
use da4qi.Router.Order.{lexicographical_compare, starts_with, iless_desc}
use da4qi.Router.Map.{find, insert, lower_bound}
use da4qi.Application.Manager.{App, Manager, find_by_url, find_entry}
use da4qi.Request.Url.{
  UrlParser, no_url, uf_path, uf_query, parse, set_parts, set_fields, get_url_part_value,
  under_application, parse-origin_form,
}
use da4qi.Request.Members.{no_request, no_content}
use da4qi.Request.ContentType.{parse_content_type, parse_found, parse_content_type-form}
use da4qi.Utilities.Parameters.{parse_query_parameters}
use da4qi.Connection.Arrivals.{Arrival, AreNew, clean}
use da4qi.Connection.Receiving.{
  MultipartParser, Receiving, read_message_complete, free_multipart_parser, reset,
}
use da4qi.Connection.Receiving.Body.{hpe_ok, on_body}
use da4qi.Connection.Receiving.Limit.{fits, receive_body, receive_body-answer}
use da4qi.Connection.Receiving.Bound.{on_body-fits_kept}
use da4qi.Connection.Receiving.Message.{Message, Around, complete, receive_message}
use da4qi.Connection.Receiving.Head.{is_100_continue}
use da4qi.Connection.Receiving.Whole.{
  IsRouted, IsPlain, expects_continue, whole, receive_message-whole,
}
use da4qi.Response.Text.{new_response, try_get_header, is_keep_alive}
use da4qi.Connection.Reply.{prepare_response_headers_about_connection, is_keep_alive-prepared}
use da4qi.Tests.Boost.{c_locale}
use da4qi.Tests.BoostStrings.{c_strings}

-- The place of the question mark, or the size of the text.
abbrev path_size : Bytes → ℕ
path_size [] = 0
path_size (x ∷ s) = let rest = path_size s in if x == b'?' then 0 else rest + 1

abbrev query_size : Bytes → ℕ
query_size [] = 0
query_size (x ∷ s) = let rest = query_size s in if x == b'?' then length s else rest

-- A parser of targets of a path and a query.
abbrev plain_targets : UrlParser
plain_targets v = some (
  0,
  record { field = uf_path; off = 0; len = path_size v }
      ∷ record { field = uf_query; off = path_size v + 1; len = query_size v }
      ∷ [],
)

abbrev reads_all : MultipartParser Unit
reads_all = record { init = λ b. tt; execute = λ p b m. (tt, m, length b) }

abbrev shop : App
shop = record {
  name = codes "shop";
  url_root = codes "/shop";
  disabled = false;
  upload_max_size_limit_kb = 1;
}

abbrev one_shop : Manager
one_shop = record { mounted = true; applications = (codes "/shop", shop) ∷ []; app_loggers = [] }

abbrev around : Around Unit
around = record {
  algorithms = c_locale;
  strings = c_strings;
  url_parser = plain_targets;
  multipart_parser = reads_all;
  manager = one_shop;
  abortive = λ name. none;
  fallback = none;
}

abbrev host : Arrival
host = record {
  first = b'H';
  name_start = codes "o";
  name_rest = codes "st" ∷ [];
  value_start = codes "a.";
  value_rest = codes "b" ∷ [];
}

abbrev message : Message
message = record {
  target = codes "/shop/ca" ∷ codes "rt" ∷ [];
  headers = host ∷ [];
  parsed = record {
    has_content_length = true;
    content_length = 4;
    should_keep_alive = true;
    upgrade = false;
    method_number = 3;
    http_major = 1;
    http_minor = 1;
  };
  pieces = codes "ab" ∷ codes "cd" ∷ [];
}

-- A connection that was in the middle of a message for the application.
abbrev used : Receiving Unit
used = record {
  url_buffer = codes "/old";
  reading = record (clean ((codes "X", codes "y") ∷ [])) { field = codes "Z" };
  body_buffer = codes "xyz";
  read_complete = read_message_complete;
  mp_parser = some tt;
  part_headers = [];
  part_buffer = codes "p";
  request = record no_request { body = codes "old"; cookies = (codes "a", codes "b") ∷ [] };
  response_version = (1, 0);
  app = some shop;
}

host_new : AreNew c_locale (host ∷ []) []
unfolding find insert lexicographical_compare
host_new = (refl, tt)

message-IsRouted : IsRouted around message shop
unfolding find_by_url find_entry lower_bound parse set_parts set_fields get_url_part_value
    lexicographical_compare starts_with iless_desc
message-IsRouted = (refl, refl, refl)

message-IsPlain : IsPlain around message
unfolding parse_content_type parse_found find insert lexicographical_compare
message-IsPlain = refl

not_expected : expects_continue around message ≡ false
unfolding find insert lexicographical_compare is_100_continue
not_expected = refl

receive_message-whole_example :
    receive_message around message (reset (free_multipart_parser used))
    ≡ (complete, whole around message shop)
receive_message-whole_example =
    receive_message-whole around message used shop refl host_new message-IsRouted (refl, refl)
      not_expected message-IsPlain

-- A message that waits for the reply 100.
abbrev expect : Arrival
expect = record {
  first = b'E';
  name_start = codes "xpect";
  name_rest = [];
  value_start = codes "100-";
  value_rest = codes "continue" ∷ [];
}

abbrev cautious : Message
cautious = record message { headers = expect ∷ [] }

-- Two bytes fit, and 2048 do not.
receive_body-answer_example : (receive_body reads_all (codes "ab" ∷ codes "c" ∷ []) used).0 ≡ hpe_ok
receive_body-answer_example =
    receive_body-answer reads_all (codes "ab" ∷ codes "c" ∷ []) used refl refl

on_body-fits_kept_example :
    fits
      (on_body reads_all (codes "ab") used).1.app
      (length (on_body reads_all (codes "ab") used).1.body_buffer)
    ≡ true
on_body-fits_kept_example = on_body-fits_kept reads_all (codes "ab") used refl

parse-origin_form_example :
    under_application (codes "/shop") (parse c_strings plain_targets (codes "/shop/a?b=c") no_url)
    ≡ record no_url {
      full = codes "/shop/a?b=c";
      path = codes "/shop/a";
      query = codes "b=c";
      parameters = parse_query_parameters c_strings (codes "b=c");
      full_under_app = codes "/a?b=c";
      path_under_app = codes "/a";
    }
parse-origin_form_example =
    parse-origin_form c_strings plain_targets (codes "/shop") (codes "/a") (codes "b=c") 0 refl refl

form_type :
    find c_locale.iless
      (codes "Content-Type")
      ((codes "content-type", codes "multipart/form-data; boundary=xyz") ∷ [])
    ≡ some (codes "multipart/form-data; boundary=xyz")
unfolding find lexicographical_compare
form_type = refl

parse_content_type-form_test :
    parse_content_type c_locale
      ((codes "content-type", codes "multipart/form-data; boundary=xyz") ∷ [])
      no_content
    ≡ record no_content { is_multipart = true; is_formdata = true; boundary = codes "xyz" }
parse_content_type-form_test =
    parse_content_type-form c_locale
      ((codes "content-type", codes "multipart/form-data; boundary=xyz") ∷ []) (codes "xyz")
      no_content form_type

-- A request of HTTP 1.0 that does not keep its connection.
bare_response : try_get_header c_locale (codes "Connection") (new_response (codes "da4qi4")) ≡ none
unfolding try_get_header find lexicographical_compare
bare_response = refl

is_keep_alive-prepared_example :
    is_keep_alive c_locale
      (prepare_response_headers_about_connection c_locale 1 0 false (new_response (codes "da4qi4")))
    ≡ false
is_keep_alive-prepared_example =
    is_keep_alive-prepared c_locale 1 0 false (new_response (codes "da4qi4")) bare_response
