-- ===== src/Utilities/Parameters.antt =====
-- http_utilities.cpp, ParseQueryParameters and ParsePlainTextFormData, string_utilities.cpp,
-- SplitByLine, and request.cpp, TransferHeadersToCookies.
pub mod Written
pub mod Query
pub mod Form
pub mod Cookies
use da4qi.Base.{
  ℕ, List, [], ◌∷◌, ◌++◌, Bool, true, false, Option, none, some, if◌then◌else◌, ◌==◌, Bytes, codes,
  is_empty, map,
}
use da4qi.Router.Order.{Algorithms, lexicographical_compare}
use da4qi.Router.Map.{insert, find}
use da4qi.Utilities.Http.{url_decode_if_encoded}
use da4qi.Utilities.Strings
use da4qi.Utilities.Strings.{StringAlgorithms, TrimOptions, keep_space, trim_all, trim_on_options}

-- The lines that `while (ss)` and `getline` read, of which the last one, for which there is no text
-- left, is empty.
unfoldable pub read_lines : Bytes → Bytes → List Bytes
read_lines line [] = if is_empty line then [] ∷ [] else line ∷ [] ∷ []
read_lines line (x ∷ m) =
    let next = read_lines [] m in
    let more = read_lines (line ++ x ∷ []) m in if x == b'\n' then line ∷ next else more

module _ (B : StringAlgorithms) where
  unfoldable pub split_by_line : Bytes → TrimOptions → List Bytes
  unfolding read_lines
  split_by_line m opt = map (trim_on_options B opt) (read_lines [] m)

  -- The switch on the number of parts.
  unfoldable pub insert_query : List Bytes → List (Bytes × Bytes) → List (Bytes × Bytes)
  insert_query [] m = m
  insert_query (k ∷ []) m = insert lexicographical_compare (url_decode_if_encoded (B.trim k)) [] m
  insert_query (k ∷ v ∷ []) m =
      insert lexicographical_compare (url_decode_if_encoded (B.trim k))
        (url_decode_if_encoded (B.trim v)) m
  insert_query (k ∷ v ∷ w ∷ rest) m = m

  unfoldable pub query_loop : List Bytes → List (Bytes × Bytes) → List (Bytes × Bytes)
  unfolding insert_query
  query_loop [] m = m
  query_loop (part ∷ parts) m =
      query_loop parts (insert_query (Strings.split B part b'=' keep_space) m)

  unfoldable pub parse_query_parameters : Bytes → List (Bytes × Bytes)
  unfolding query_loop
  parse_query_parameters query = query_loop (Strings.split B query b'&' keep_space) []

  unfoldable pub insert_form : List Bytes → List (Bytes × Bytes) → List (Bytes × Bytes)
  insert_form [] m = m
  insert_form (k ∷ []) m = insert lexicographical_compare (B.trim k) [] m
  insert_form (k ∷ v ∷ []) m = insert lexicographical_compare (B.trim k) (B.trim v) m
  insert_form (k ∷ v ∷ w ∷ rest) m = m

  unfoldable pub form_loop : List Bytes → List (Bytes × Bytes) → List (Bytes × Bytes)
  unfolding insert_form
  form_loop [] m = m
  form_loop (line ∷ lines) m =
      let part = B.trim line in
      let inserted = insert_form (Strings.split B part b'=' keep_space) m in
      form_loop lines (if is_empty part then m else inserted)

  unfoldable pub parse_plain_text_form_data : Bytes → List (Bytes × Bytes)
  unfolding split_by_line form_loop
  parse_plain_text_form_data body = form_loop (split_by_line body keep_space) []

  module _ (A : Algorithms) where
    -- The map of the cookies ignores case, as that of the headers.
    unfoldable pub insert_cookie : List Bytes → List (Bytes × Bytes) → List (Bytes × Bytes)
    insert_cookie [] m = m
    insert_cookie (k ∷ []) m = insert A.iless k [] m
    insert_cookie (k ∷ v ∷ rest) m = insert A.iless k v m

    unfoldable pub cookie_loop : List Bytes → List (Bytes × Bytes) → List (Bytes × Bytes)
    unfolding insert_cookie
    cookie_loop [] m = m
    cookie_loop (part ∷ parts) m =
        cookie_loop parts (insert_cookie (Strings.split B part b'=' trim_all) m)

    -- The header that `GetHeader` finds, or an empty text.
    abbrev pub header_or_empty : Option Bytes → Bytes
    header_or_empty none = []
    header_or_empty (some value) = value

    unfoldable pub transfer_headers_to_cookies :
        List (Bytes × Bytes) → List (Bytes × Bytes) → List (Bytes × Bytes)
    unfolding cookie_loop
    transfer_headers_to_cookies headers cookies =
        let value = header_or_empty (find A.iless (codes "Cookie") headers) in
        if is_empty value
        then cookies
        else cookie_loop (Strings.split B value b';' keep_space) cookies
