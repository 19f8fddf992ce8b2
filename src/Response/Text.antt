-- ===== src/Response/Text.antt =====
-- response.hpp and response.cpp: Response, what its calls set, and its text. The value of the header
-- Server is a parameter, and its chunks are kept apart, in Response/Chunked.
pub mod Reader
pub mod Expected
pub mod Head
use da4qi.Base.{
  ℕ, List, [], ◌∷◌, ◌++◌, Bool, true, false, not, ◌&&◌, ◌||◌, if◌then◌else◌, ltb, ◌==◌, Option,
  none, some, Bytes, codes, is_empty, length, drop,
}
use da4qi.Base.Decimal.{to_string}
use da4qi.Router.Order.{Algorithms, starts_with, equal}
use da4qi.Router.Map.{find, insert, modify}
use da4qi.Router.Table.{is_some}
use da4qi.Response.Cookie.{Cookie}
use da4qi.Response.Status.{http_status_summary_getter}

pub record Response : Type 0 where
  pub status_code : ℕ
  pub headers : List (Bytes × Bytes)
  pub body : Bytes
  pub charset : Bytes
  pub version_major : ℕ
  pub version_minor : ℕ
  pub cookies : List Cookie

abbrev pub new_response : Bytes → Response
new_response server = record {
  status_code = 200;
  headers = (codes "Server", server) ∷ [];
  body = [];
  charset = codes "UTF-8";
  version_major = 1;
  version_minor = 1;
  cookies = [];
}

abbrev with_first : ℕ → Option (Bytes × Bytes) → Option (Bytes × Bytes)
with_first x none = none
with_first x (some (before, after)) = some (x ∷ before, after)

-- A text up to the first place where another one stands in it, and what stands behind.
abbrev split_text : Bytes → Bytes → Option (Bytes × Bytes)
split_text s [] = none
split_text s (x ∷ m) =
    let later = with_first x (split_text s m) in
    if starts_with (x ∷ m) s then some ([], drop (length s) (x ∷ m)) else later

abbrev pub split_content_type_value : Bytes → Bytes × Bytes
split_content_type_value value = parts (split_text (codes " ;") value)
  where
    parts : Option (Bytes × Bytes) → Bytes × Bytes
    parts none = (value, [])
    parts (some pair) = pair

abbrev before_semicolon : Bytes → Option (Bytes × Bytes) → Bytes
before_semicolon value none = value
before_semicolon value (some (type, after)) = type

abbrev get_or_empty : Option Bytes → Bytes
get_or_empty none = []
get_or_empty (some value) = value

abbrev pub line_end : Bytes
line_end = b'\r' ∷ b'\n' ∷ []

unfoldable pub headers_text : List (Bytes × Bytes) → Bytes
headers_text [] = []
headers_text ((field, value) ∷ headers) =
    (field ++ b':' ∷ value) ++ line_end ++ headers_text headers

unfoldable pub cookies_text : (Cookie → Bytes) → List Cookie → Bytes
cookies_text cookie_text [] = []
cookies_text cookie_text (c ∷ cookies) =
    (codes "Set-Cookie:" ++ cookie_text c) ++ line_end ++ cookies_text cookie_text cookies

unfoldable pub status_line : Response → Bytes
status_line r =
    codes "HTTP/"
    ++ to_string r.version_major
    ++ b'.' ∷ to_string r.version_minor
    ++ b' ' ∷ to_string r.status_code
    ++ b' ' ∷ http_status_summary_getter r.status_code

unfoldable pub length_line : Response → Bytes
length_line r = codes "Content-Length:" ++ to_string (length r.body)

module _ (A : Algorithms) where
  unfoldable pub append_header : Bytes → Bytes → Response → Response
  append_header field value r =
      if is_some (find A.iless field r.headers)
      then record r { headers = modify A.iless field (λ old. value) r.headers }
      else record r { headers = insert A.iless field value r.headers }

  unfoldable pub try_get_header : Bytes → Response → Option Bytes
  try_get_header field r = find A.iless field r.headers

  unfoldable pub get_content_type : Bool → Response → Bytes
  unfolding try_get_header
  get_content_type with_charset r =
      let value = get_or_empty (try_get_header (codes "Content-Type") r) in
      if with_charset then value else before_semicolon value (split_text (codes ";") value)

  abbrev is_content_type_need_charset : Bytes → Bool
  is_content_type_need_charset content_type = A.istarts_with content_type (codes "text/")

  unfoldable pub set_content_type : Bytes → Response → Response
  unfolding append_header
  set_content_type content_type r =
      append_header (codes "Content-Type")
        (content_type
          ++ (if is_content_type_need_charset content_type && not (is_empty r.charset)
              then codes "; charset=" ++ r.charset
              else []))
        r

  unfoldable pub set_content_type_charset : Bytes → Bytes → Response → Response
  unfolding append_header
  set_content_type_charset content_type content_charset r =
      append_header (codes "Content-Type") (content_type ++ codes "; charset=" ++ content_charset) r

  unfoldable pub set_charset : Bytes → Response → Response
  unfolding set_content_type_charset try_get_header
  set_charset charset r =
      let changed = record r { charset = charset } in
      elim (try_get_header (codes "Content-Type") r) [
        | none ↦ changed
        | some value ↦
            let (type, old) = split_content_type_value value in
            if not (equal charset old) && is_content_type_need_charset type
            then set_content_type_charset type charset changed
            else changed
      ]

  abbrev pub value_is : Bytes → Option Bytes → Bool
  value_is text none = false
  value_is text (some value) = A.iequals value text

  unfoldable pub is_chunked : Response → Bool
  unfolding try_get_header
  is_chunked r = value_is (codes "chunked") (try_get_header (codes "Transfer-Encoding") r)

  unfoldable pub mark_chunked : Response → Response
  unfolding append_header
  mark_chunked r =
      let marked = append_header (codes "Transfer-Encoding") (codes "chunked") r in
      if ltb r.version_major 1 || ltb r.version_minor 1
      then record marked { version_major = 1; version_minor = 1 }
      else marked

  unfoldable pub mark_keep_alive : Response → Response
  unfolding append_header
  mark_keep_alive r = append_header (codes "Connection") (codes "keep-alive") r

  unfoldable pub mark_close : Response → Response
  unfolding append_header
  mark_close r = append_header (codes "Connection") (codes "close") r

  unfoldable pub is_keep_alive : Response → Bool
  unfolding try_get_header
  is_keep_alive r =
      let value = try_get_header (codes "Connection") r in
      if ltb r.version_major 1 || (r.version_major == 1 && r.version_minor == 0)
      then value_is (codes "keep-alive") value
      else not (value_is (codes "close") value)

  unfoldable pub set_or_default_body : Bytes → Bool → Response → Response
  unfolding set_content_type
  set_or_default_body body provide_default r =
      if not (is_empty body)
      then record r { body = body }
      else if provide_default
      then record (set_content_type (codes "text/plain") r) {
        body = http_status_summary_getter r.status_code;
      }
      else r

  unfoldable pub reply_status : ℕ → Bytes → Response → Response
  unfolding set_or_default_body
  reply_status code body r = set_or_default_body body true (record r { status_code = code })

  -- `operator<<`, with the text of a cookie, which depends on the time.
  unfoldable pub response_text : (Cookie → Bytes) → Response → Bytes
  unfolding headers_text cookies_text status_line length_line is_chunked
  response_text cookie_text r =
      status_line r
      ++ line_end
      ++ headers_text r.headers
      ++ cookies_text cookie_text r.cookies
      ++ (if not (is_chunked r) then length_line r ++ line_end ++ line_end ++ r.body else line_end)
