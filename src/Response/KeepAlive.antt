-- ===== src/Response/KeepAlive.antt =====
-- The header Connection: what marks a response is what it is asked for.
use da4qi.Base.{
  map, true, false, Bool-cases, ◌||◌, if◌then◌else◌, ltb, Option, Option-cases, some, Bytes, codes,
  ◌≡◌, ap, ◌∙◌, inl, inr, arith,
}
use da4qi.Router.Order.{Algorithms, equal_refl, iless-IsStrictWeakOrder}
use da4qi.Router.Map.{find, insert, modify, find-insert, find-modify}
use da4qi.Router.Table.{is_some}
use da4qi.Response.Text.{
  Response, append_header, try_get_header, is_keep_alive, mark_keep_alive, mark_close, mark_chunked,
  is_chunked,
}

module _ (A : Algorithms) where
  -- A header that was set is found.
  pub try_get_header-append_header :
      (field value : Bytes) (r : Response)
      → try_get_header A field (append_header A field value r) ≡ some value
  unfolding try_get_header append_header
  try_get_header-append_header field value r = elim (Option-cases (find A.iless field r.headers)) [
    | inl e ↦
        ap (λ o. find A.iless field (either o).headers) e
        ∙ find-insert A.iless (iless-IsStrictWeakOrder A) field value r.headers e
    | inr (v, e) ↦
        ap (λ o. find A.iless field (either o).headers) e
        ∙ find-modify A.iless (iless-IsStrictWeakOrder A) field (λ old. value) v r.headers e
  ]
    where
      either : Option Bytes → Response
      either o =
          if is_some o
          then record r { headers = modify A.iless field (λ old. value) r.headers }
          else record r { headers = insert A.iless field value r.headers }

  iequals_self : (s : Bytes) → A.iequals s s ≡ true
  iequals_self s = A.iequals_law s s ∙ equal_refl (map A.upper s)

  close_other : A.iequals (codes "close") (codes "keep-alive") ≡ false
  close_other = A.iequals_law (codes "close") (codes "keep-alive") ∙ ground arith

  keep_alive_other : A.iequals (codes "keep-alive") (codes "close") ≡ false
  keep_alive_other = A.iequals_law (codes "keep-alive") (codes "close") ∙ ground arith

  -- Whatever HTTP version a response has and whatever was marked before: marked with keep-alive, the
  -- connection is kept, and marked with close, it is not.
  pub is_keep_alive-marked :
      (r : Response)
      → (is_keep_alive A (mark_keep_alive A r) ≡ true) × (is_keep_alive A (mark_close A r) ≡ false)
  unfolding is_keep_alive mark_keep_alive mark_close
  is_keep_alive-marked r = (
    rw (try_get_header-append_header (codes "Connection") (codes "keep-alive") r)
        (ground (arith, iequals_self (codes "keep-alive"), keep_alive_other)),
    rw (try_get_header-append_header (codes "Connection") (codes "close") r)
        (ground (arith, iequals_self (codes "close"), close_other)),
  )

  -- A response that was marked as chunked is one, and of HTTP 1.1 at least.
  pub is_chunked-mark_chunked : (r : Response) → is_chunked A (mark_chunked A r) ≡ true
  unfolding is_chunked mark_chunked
  is_chunked-mark_chunked r = elim (Bool-cases (ltb r.version_major 1 || ltb r.version_minor 1)) [
    | inl old ↦ rw old (
        rw (try_get_header-append_header (codes "Transfer-Encoding") (codes "chunked") r)
          (iequals_self (codes "chunked")))
    | inr new ↦ rw new (
        rw (try_get_header-append_header (codes "Transfer-Encoding") (codes "chunked") r)
          (iequals_self (codes "chunked")))
  ]
