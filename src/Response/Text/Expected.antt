-- ===== src/Response/Text/Expected.antt =====
-- The lines of a response as a reader expects them, and that the program writes the same.
use da4qi.Base.{◌∷◌, ◌++◌, Bool, false, Option, none, some, Bytes, codes, length, ◌≡◌, refl}
use da4qi.Base.Decimal.{to_string}
use da4qi.Router.Order.{Algorithms}
use da4qi.Router.Map.{find}
use da4qi.Response.Status.{http_status_summary_getter}
use da4qi.Response.Text.{Response, status_line, is_chunked, length_line, value_is, try_get_header}

-- The lines that a reader is to find, said without those that the program writes: a chunked response is
-- one whose header Transfer-Encoding is `chunked`, in any case.
abbrev pub status_expected : Response → Bytes
status_expected r =
    codes "HTTP/"
    ++ to_string r.version_major
    ++ b'.' ∷ to_string r.version_minor
    ++ b' ' ∷ to_string r.status_code
    ++ b' ' ∷ http_status_summary_getter r.status_code

abbrev pub length_expected : Response → Bytes
length_expected r = codes "Content-Length:" ++ to_string (length r.body)

abbrev pub chunked_value : Algorithms → Option Bytes → Bool
chunked_value A none = false
chunked_value A (some value) = A.iequals value (codes "chunked")

abbrev pub is_sent_chunked : Algorithms → Response → Bool
is_sent_chunked A r = chunked_value A (find A.iless (codes "Transfer-Encoding") r.headers)

pub status_line-expected : (r : Response) → status_line r ≡ status_expected r
unfolding status_line
status_line-expected r = refl

pub length_line-expected : (r : Response) → length_line r ≡ length_expected r
unfolding length_line
length_line-expected r = refl

pub is_chunked-expected : (A : Algorithms) (r : Response) → is_chunked A r ≡ is_sent_chunked A r
unfolding is_chunked try_get_header
is_chunked-expected A r =
    elim (find A.iless (codes "Transfer-Encoding") r.headers)
      as (λ o. value_is A (codes "chunked") o ≡ chunked_value A o) [ none ↦ refl | some v ↦ refl ]
