-- ===== src/Response/Text/Head.antt =====
-- What a reader of lines makes of the text of a response.
use da4qi.Base.{
  ℕ, List, [], ◌∷◌, ◌++◌, append_assoc, map, Bool, true, false, Bool-cases, not, if◌then◌else◌,
  ◌==◌, all, some, Bytes, codes, is_empty, length, All, All-append, ◌≡◌, refl, sym, ap, ap₂, ◌∙◌,
  inl, inr, arith,
}
use da4qi.Base.Decimal.{to_string, to_string-IsDigit, IsDigit}
use da4qi.Router.Order.{Algorithms}
use da4qi.Utilities.Strings.{IsFree}
use da4qi.Response.Cookie.{Cookie}
use da4qi.Response.Status.{summaries, summary_at, http_status_summary_getter}
use da4qi.Response.Text.{
  Response, headers_text, cookies_text, status_line, response_text, is_chunked, line_end,
  length_line,
}
use da4qi.Response.Text.Reader.{
  read_head, header_line, IsLine, ended, read_head-ended, ended-append, all-IsFree,
}
use da4qi.Response.Text.Expected.{
  status_expected, length_expected, is_sent_chunked, status_line-expected, length_line-expected,
  is_chunked-expected,
}

-- A header without carriage returns.
abbrev pub IsClean : Bytes × Bytes → Type 0
IsClean (field, value) = IsFree b'\r' field × IsFree b'\r' value

digits_no_return : (s : Bytes) → All IsDigit s → IsFree b'\r' s
digits_no_return [] h = tt
digits_no_return (x ∷ s) ((low, high), hs) = (ground arith, digits_no_return s hs)

summary_at-IsFree :
    (code : ℕ) (m : List (ℕ × Bytes))
    → all (λ e. all (λ x. not (x == b'\r')) e.1) m ≡ true
    → IsFree b'\r' (summary_at code m)
summary_at-IsFree code [] h = tt
summary_at-IsFree code ((known, summary) ∷ m) h = elim (Bool-cases (code == known)) [
  | inl here ↦ rw here (all-IsFree summary (ground arith))
  | inr later ↦ rw later (summary_at-IsFree code m (ground arith))
]

number_no_return : (n : ℕ) → IsFree b'\r' (to_string n)
number_no_return n = digits_no_return (to_string n) (to_string-IsDigit n)

length_line-IsLine : (r : Response) → IsLine (length_line r)
unfolding length_line
length_line-IsLine r = (
  All-append _ (codes "Content-Length:") (to_string (length r.body))
      (all-IsFree (codes "Content-Length:") refl) (number_no_return (length r.body)),
  refl,
)

summary_no_return : (code : ℕ) → IsFree b'\r' (http_status_summary_getter code)
unfolding http_status_summary_getter
summary_no_return code = summary_at-IsFree code summaries refl

-- A number behind a text, with a character between.
behind_number :
    (s : Bytes) (c n : ℕ)
    → (c == b'\r') ≡ false
    → IsFree b'\r' s
    → IsFree b'\r' (s ++ c ∷ to_string n)
behind_number s c n h hs = All-append _ s (c ∷ to_string n) hs (h, number_no_return n)

status_line-IsLine : (r : Response) → IsLine (status_line r)
unfolding status_line
status_line-IsLine r = (
  All-append _
      (((codes "HTTP/" ++ to_string r.version_major) ++ b'.' ∷ to_string r.version_minor)
        ++ b' ' ∷ to_string r.status_code)
      (b' ' ∷ http_status_summary_getter r.status_code)
      (behind_number
        ((codes "HTTP/" ++ to_string r.version_major) ++ b'.' ∷ to_string r.version_minor) b' '
        r.status_code refl
        (behind_number (codes "HTTP/" ++ to_string r.version_major) b'.' r.version_minor refl (
          All-append _ (codes "HTTP/") (to_string r.version_major) (all-IsFree (codes "HTTP/") refl)
            (number_no_return r.version_major))))
      (refl, summary_no_return r.status_code),
  refl,
)

headers_text-ended :
    (headers : List (Bytes × Bytes)) → headers_text headers ≡ ended (map header_line headers)
unfolding headers_text
headers_text-ended [] = refl
headers_text-ended ((field, value) ∷ headers) =
    append_assoc (field ++ b':' ∷ value) line_end (headers_text headers)
    ∙ ap (λ t. (field ++ b':' ∷ value) ++ (line_end ++ t)) (headers_text-ended headers)

module _ (cookie_text : Cookie → Bytes) where
  abbrev pub cookie_line : Cookie → Bytes
  cookie_line c = codes "Set-Cookie:" ++ cookie_text c

  cookies_text-ended :
      (cookies : List Cookie) → cookies_text cookie_text cookies ≡ ended (map cookie_line cookies)
  unfolding cookies_text
  cookies_text-ended [] = refl
  cookies_text-ended (c ∷ cookies) =
      append_assoc (cookie_line c) line_end (cookies_text cookie_text cookies)
      ∙ ap (λ t. cookie_line c ++ (line_end ++ t)) (cookies_text-ended cookies)

  -- The lines of a response, in the two forms that it can have.
  abbrev lines_with : Response → List Bytes → List Bytes
  lines_with r last =
      status_line r ∷ (map header_line r.headers ++ (map cookie_line r.cookies ++ last))

  text_with : (r : Response) (last : Bytes) → Bytes
  text_with r last =
      status_line r
      ++ line_end
      ++ headers_text r.headers
      ++ cookies_text cookie_text r.cookies
      ++ last

  text_with-ended :
      (r : Response) (last : List Bytes) (rest : Bytes)
      → text_with r (ended last ++ rest) ≡ ended (lines_with r last) ++ rest
  unfolding text_with
  text_with-ended r last rest =
      let hs = ended (map header_line r.headers) in
      let cs = ended (map cookie_line r.cookies) in
      ap₂ (λ h c. status_line r ++ line_end ++ h ++ c ++ (ended last ++ rest))
        (headers_text-ended r.headers) (cookies_text-ended r.cookies)
      ∙ sym (append_assoc (status_line r ++ line_end ++ hs ++ cs) (ended last) rest)
      ∙ ap (λ t. t ++ rest)
          (append_assoc (status_line r ++ line_end ++ hs) cs (ended last)
            ∙ append_assoc (status_line r ++ line_end) hs (cs ++ ended last)
            ∙ append_assoc (status_line r) line_end (hs ++ (cs ++ ended last))
            ∙ ap (λ t. status_line r ++ (line_end ++ t))
                (ap (λ t. hs ++ t) (sym (ended-append (map cookie_line r.cookies) last))
                  ∙ sym (
                      ended-append (map header_line r.headers)
                        (map cookie_line r.cookies ++ last))))

  module _ (A : Algorithms) where
    -- The lines of a response, and the body that is sent with them.
    abbrev pub head_lines : Response → List Bytes
    head_lines r = lines_with r (if not (is_chunked A r) then length_line r ∷ [] else [])

    abbrev pub sent_body : Response → Bytes
    sent_body r = if not (is_chunked A r) then r.body else []

    -- The text as lines, an empty one, and the body.
    response_text-ended :
        (r : Response)
        → response_text A cookie_text r ≡ ended (head_lines r) ++ (line_end ++ sent_body r)
    unfolding response_text text_with
    response_text-ended r = elim (Bool-cases (is_chunked A r)) [
      | inl chunked ↦ rw chunked (text_with-ended r [] line_end)
      | inr whole ↦ rw whole (
          ap (λ t. text_with r t)
            (append_assoc (length_line r ++ line_end) line_end r.body
              ∙ append_assoc (length_line r) line_end (line_end ++ r.body)
              ∙ sym (append_assoc (length_line r) line_end (line_end ++ r.body)))
          ∙ text_with-ended r (length_line r ∷ []) (line_end ++ r.body))
    ]

    header_lines-IsLine :
        (headers : List (Bytes × Bytes))
        → All IsClean headers
        → All IsLine (map header_line headers)
    header_lines-IsLine [] h = tt
    header_lines-IsLine ((field, value) ∷ headers) ((f, v), hs) = (
      (All-append _ field (b':' ∷ value) f (refl, v), filled field value),
      header_lines-IsLine headers hs,
    )
      where
        filled : (field value : Bytes) → is_empty (field ++ b':' ∷ value) ≡ false
        filled [] value = refl
        filled (x ∷ field) value = refl

    cookie_lines-IsLine :
        (cookies : List Cookie)
        → All (λ c. IsFree b'\r' (cookie_text c)) cookies
        → All IsLine (map cookie_line cookies)
    cookie_lines-IsLine [] h = tt
    cookie_lines-IsLine (c ∷ cookies) (h, hs) = (
      (
        All-append _ (codes "Set-Cookie:") (cookie_text c) (all-IsFree (codes "Set-Cookie:") refl)
            h,
        refl,
      ),
      cookie_lines-IsLine cookies hs,
    )

    at_end-IsLine : (r : Response) (b : Bool) → All IsLine (if b then length_line r ∷ [] else [])
    at_end-IsLine r true = (length_line-IsLine r, tt)
    at_end-IsLine r false = tt

    -- All the lines that a reader is to find, and the body.
    abbrev pub expected_lines : Response → List Bytes
    expected_lines r =
        status_expected r
        ∷ (map header_line r.headers
            ++ (map cookie_line r.cookies
                ++ (if is_sent_chunked A r then [] else length_expected r ∷ [])))

    abbrev pub expected_body : Response → Bytes
    expected_body r = if is_sent_chunked A r then [] else r.body

    head_lines-expected : (r : Response) → head_lines r ≡ expected_lines r
    head_lines-expected r = elim (Bool-cases (is_sent_chunked A r)) [
      | inl chunked ↦ rw (is_chunked-expected A r, chunked, status_line-expected r) refl
      | inr whole ↦
          rw (is_chunked-expected A r, whole, status_line-expected r, length_line-expected r) refl
    ]

    sent_body-expected : (r : Response) → sent_body r ≡ expected_body r
    sent_body-expected r = elim (Bool-cases (is_sent_chunked A r)) [
      | inl chunked ↦ rw (is_chunked-expected A r, chunked) refl
      | inr whole ↦ rw (is_chunked-expected A r, whole) refl
    ]

    read_lines :
        (r : Response) (rest : Bytes)
        → All IsClean r.headers
        → All (λ c. IsFree b'\r' (cookie_text c)) r.cookies
        → read_head [] (response_text A cookie_text r ++ rest)
          ≡ some (head_lines r, sent_body r ++ rest)
    read_lines r rest hs cs =
        ap (λ t. read_head [] (t ++ rest)) (response_text-ended r)
        ∙ ap (read_head []) (append_assoc (ended (head_lines r)) (line_end ++ sent_body r) rest)
        ∙ read_head-ended (head_lines r) (sent_body r ++ rest) (
          status_line-IsLine r,
          All-append _ (map header_line r.headers) _ (header_lines-IsLine r.headers hs) (
              All-append _ (map cookie_line r.cookies) _ (cookie_lines-IsLine r.cookies cs)
                (at_end-IsLine r (not (is_chunked A r)))),
        )

    -- Where no header and no cookie of a response holds a carriage return, its text is read, whatever
    -- follows, as the status line `HTTP/x.y code summary`, one line for each header and each cookie, in
    -- their order, and, unless its header Transfer-Encoding is `chunked`, the line `Content-Length:` with
    -- the length of its body; and behind an empty line comes the body, which a chunked response does not
    -- have here.
    pub read_head-response_text :
        (r : Response) (rest : Bytes)
        → All IsClean r.headers
        → All (λ c. IsFree b'\r' (cookie_text c)) r.cookies
        → read_head [] (response_text A cookie_text r ++ rest)
          ≡ some (expected_lines r, expected_body r ++ rest)
    read_head-response_text r rest hs cs =
        read_lines r rest hs cs
        ∙ ap₂ (λ l b. some (l, b ++ rest)) (head_lines-expected r) (sent_body-expected r)
