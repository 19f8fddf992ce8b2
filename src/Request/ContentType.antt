-- ===== src/Request/ContentType.antt =====
-- request.cpp, ParseContentType: what a request says of its body.
use da4qi.Base.{
  List, [], ◌∷◌, ◌++◌, Bool, true, if◌then◌else◌, Option, none, some, Bytes, codes, drop, ◌≡◌, ap,
}
use da4qi.Router.Order.{Algorithms, starts_with}
use da4qi.Router.Map.{find}
use da4qi.Router.Table.{is_some}

-- The marks of the request and the boundary of its parts.
pub record Content : Type 0 where
  pub is_multipart : Bool
  pub is_formdata : Bool
  pub is_form_urlencoded : Bool
  pub is_octet_stream : Bool
  pub boundary : Bytes

-- `find` of a text: the rest of the string from the first place on where the text stands.
unfoldable pub find_text : Bytes → Bytes → Option Bytes
unfolding starts_with
find_text t [] = if starts_with [] t then some [] else none
find_text t (x ∷ m) =
    let later = find_text t m in if starts_with (x ∷ m) t then some (x ∷ m) else later

-- What stands behind `multipart/`.
unfoldable pub parse_multipart : Bytes → Content → Content
unfolding find_text
parse_multipart rest c =
    let marked = record c {
      is_multipart = true;
      is_formdata = if is_some (find_text (codes "form-data") rest) then true else c.is_formdata;
    } in
    elim (find_text (codes "boundary=") rest) [
      | none ↦ marked
      | some at' ↦ record marked { boundary = drop 9 at' }
    ]

unfoldable pub parse_content_value : Bytes → Content → Content
unfolding find_text parse_multipart
parse_content_value value c = elim (find_text (codes "multipart/") value) [
  | some at' ↦ parse_multipart (drop 10 at') c
  | none ↦
      if is_some (find_text (codes "application/x-www-form-urlencoded") value)
      then record c { is_form_urlencoded = true }
      else if is_some (find_text (codes "application/octet-stream") value)
      then record c { is_octet_stream = true }
      else c
]

unfoldable pub parse_found : Option Bytes → Content → Content
unfolding parse_content_value
parse_found none c = c
parse_found (some value) c = parse_content_value value c

module _ (A : Algorithms) where
  unfoldable pub parse_content_type : List (Bytes × Bytes) → Content → Content
  unfolding parse_found
  parse_content_type headers = parse_found (find A.iless (codes "Content-Type") headers)

  -- A request whose `Content-Type` is `multipart/form-data; boundary=` with a text behind it is marked as
  -- a form in parts, whose boundary is that text.
  pub parse_content_type-form :
      (headers : List (Bytes × Bytes)) (text : Bytes) (c : Content)
      → find A.iless (codes "Content-Type") headers
        ≡ some (codes "multipart/form-data; boundary=" ++ text)
      → parse_content_type headers c
        ≡ record c { is_multipart = true; is_formdata = true; boundary = text }
  unfolding parse_content_type parse_found parse_content_value parse_multipart find_text starts_with
  parse_content_type-form headers text c h = ap (λ o. parse_found o c) h
