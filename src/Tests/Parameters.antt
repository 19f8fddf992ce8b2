-- ===== src/Tests/Parameters.antt =====
-- Queries, cookies and forms.
use da4qi.Base.{
  ℕ, Bool, true, not, ◌&&◌, ◌==◌, all, All, ◌++◌, List, [], ◌∷◌, some, Bytes, codes, ◌≡◌, refl,
  arith,
}
use da4qi.Router.Order.{lexicographical_compare}
use da4qi.Router.Map.{find}
use da4qi.Utilities.Parameters.{
  parse_query_parameters, parse_plain_text_form_data, transfer_headers_to_cookies,
}
use da4qi.Utilities.Parameters.Query.{query, find-parse_query_parameters}
use da4qi.Utilities.Parameters.Form.{form, find-parse_plain_text_form_data}
use da4qi.Utilities.Parameters.Cookies.{cookie_header, find-transfer_headers_to_cookies}
use da4qi.Utilities.Parameters.Written.{IsToken, AreTokens}
use da4qi.Tests.Boost.{c_locale}
use da4qi.Tests.BoostStrings.{c_strings}

abbrev name : Bytes × Bytes
name = (codes "name", codes "a b&c=d")

abbrev again : Bytes × Bytes
again = (codes "name", codes "e")

-- Two values of one name: the first one is found.
find-parse_query_parameters_example :
    find lexicographical_compare
      (codes "name")
      (parse_query_parameters c_strings (query name (again ∷ [])))
    ≡ some (codes "a b&c=d")
unfolding find lexicographical_compare
find-parse_query_parameters_example =
    find-parse_query_parameters c_strings name (again ∷ []) (codes "name")
      ((omega arith, omega arith), ((omega arith, omega arith), tt))

abbrev is_token : ℕ → ℕ → Bool
is_token c x = not (x == c) && not (x == b'=') && not (c_strings.is_space x)

all-IsToken : (c : ℕ) (s : Bytes) → all (is_token c) s ≡ true → IsToken c_strings c s
all-IsToken c [] h = tt
all-IsToken c (x ∷ s) h =
    ((ground arith, ground arith, ground arith), all-IsToken c s (ground arith))

abbrev id : Bytes × Bytes
id = (codes "id", codes "17")

abbrev lang : Bytes × Bytes
lang = (codes "lang", codes "en")

both :
    (c : ℕ)
    → all (is_token c) (id.0 ++ id.1) ≡ true
    → all (is_token c) (lang.0 ++ lang.1) ≡ true
    → All (AreTokens c_strings c) (id ∷ lang ∷ [])
both c h k = (
  (all-IsToken c id.0 (ground arith), all-IsToken c id.1 (ground arith)),
  ((all-IsToken c lang.0 (ground arith), all-IsToken c lang.1 (ground arith)), tt),
)

find-parse_plain_text_form_data_example :
    find lexicographical_compare
      (codes "lang")
      (parse_plain_text_form_data c_strings (form id (lang ∷ [])))
    ≡ some (codes "en")
unfolding find lexicographical_compare
find-parse_plain_text_form_data_example =
    find-parse_plain_text_form_data c_strings id (lang ∷ []) (codes "lang") (both b'\n' refl refl)

abbrev headers : List (Bytes × Bytes)
headers = (codes "cookie", cookie_header id (lang ∷ [])) ∷ []

find-transfer_headers_to_cookies_example :
    find c_locale.iless (codes "LANG") (transfer_headers_to_cookies c_strings c_locale headers [])
    ≡ some (codes "en")
unfolding find lexicographical_compare
find-transfer_headers_to_cookies_example =
    find-transfer_headers_to_cookies c_strings c_locale id (lang ∷ []) headers [] (codes "LANG")
      (both b';' refl refl) tt refl
