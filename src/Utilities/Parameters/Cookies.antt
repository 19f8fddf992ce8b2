-- ===== src/Utilities/Parameters/Cookies.antt =====
-- The cookies of a request, as a browser writes them into a header.
use da4qi.Base.{
  List, [], ◌∷◌, ◌++◌, map, false, Bytes, All, All-append, some, codes, is_empty, if◌then◌else◌,
  ◌≡◌, refl, ap, ap₂, ◌∙◌,
}
use da4qi.Router.Order.{Algorithms, iless-IsStrictWeakOrder}
use da4qi.Router.Map.{insert, find, IsSorted}
use da4qi.Router.Inserts.{or_else, insert_all, find-insert_all}
use da4qi.Utilities.Strings.{
  StringAlgorithms, IsFree, joined, keep_space, trim_all, trim_on_options,
}
use da4qi.Utilities.Strings
use da4qi.Utilities.Parameters.{
  insert_cookie, cookie_loop, header_or_empty, transfer_headers_to_cookies,
}
use da4qi.Utilities.Parameters.Written.{
  pair_text, IsToken, AreTokens, no_separator, no_equals, no_space, split-pair_text, trim-plain,
  trim-after_space,
}

abbrev pub cookie_text : Bytes × Bytes → Bytes
cookie_text (k, v) = pair_text k v

-- What stands behind a semicolon: a space and the next cookie.
abbrev pub next_cookie : Bytes × Bytes → Bytes
next_cookie cookie = b' ' ∷ cookie_text cookie

abbrev pub cookie_header : Bytes × Bytes → List (Bytes × Bytes) → Bytes
cookie_header cookie cookies = joined b';' (cookie_text cookie) (map next_cookie cookies)

pair_text-filled : (k v more : Bytes) → is_empty (pair_text k v ++ more) ≡ false
pair_text-filled [] v more = refl
pair_text-filled (x ∷ k) v more = refl

cookie_header-filled :
    (k v : Bytes) (parts : List Bytes) → is_empty (joined b';' (pair_text k v) parts) ≡ false
cookie_header-filled [] v [] = refl
cookie_header-filled (x ∷ k) v [] = refl
cookie_header-filled k v (next ∷ parts) = pair_text-filled k v (b';' ∷ joined b';' next parts)

module _ (B : StringAlgorithms) where
  cookie_text_no_semicolon : (c : Bytes × Bytes) → AreTokens B b';' c → IsFree b';' (cookie_text c)
  cookie_text_no_semicolon (k, v) (hk, hv) =
      All-append _ k (b'=' ∷ v) (no_separator B b';' k hk) (refl, no_separator B b';' v hv)

  next_cookies_no_semicolon :
      (cookies : List (Bytes × Bytes))
      → All (AreTokens B b';') cookies
      → All (IsFree b';') (map next_cookie cookies)
  next_cookies_no_semicolon [] h = tt
  next_cookies_no_semicolon (c ∷ cookies) (h, hs) =
      ((refl, cookie_text_no_semicolon c h), next_cookies_no_semicolon cookies hs)

  module _ (A : Algorithms) where
    insert_cookie-first :
        (k v : Bytes) (m : List (Bytes × Bytes))
        → IsToken B b';' k
        → IsToken B b';' v
        → insert_cookie B A (Strings.split B (pair_text k v) b'=' trim_all) m ≡ insert A.iless k v m
    unfolding insert_cookie Strings.split trim_on_options
    insert_cookie-first k v m hk hv =
        ap (λ parts. insert_cookie B A (map (trim_on_options B trim_all) parts) m)
          (split-pair_text B k v (no_equals B b';' k hk) (no_equals B b';' v hv))
        ∙ ap₂ (λ x y. insert A.iless x y m) (trim-plain B k (no_space B b';' k hk))
            (trim-plain B v (no_space B b';' v hv))

    insert_cookie-next :
        (k v : Bytes) (m : List (Bytes × Bytes))
        → IsToken B b';' k
        → IsToken B b';' v
        → insert_cookie B A (Strings.split B (b' ' ∷ pair_text k v) b'=' trim_all) m
          ≡ insert A.iless k v m
    unfolding insert_cookie Strings.split trim_on_options
    insert_cookie-next k v m hk hv =
        ap (λ parts. insert_cookie B A (map (trim_on_options B trim_all) parts) m)
          (split-pair_text B (b' ' ∷ k) v (refl, no_equals B b';' k hk) (no_equals B b';' v hv))
        ∙ ap₂ (λ x y. insert A.iless x y m) (trim-after_space B k (no_space B b';' k hk))
            (trim-plain B v (no_space B b';' v hv))

    cookie_loop-next :
        (cookies m : List (Bytes × Bytes))
        → All (AreTokens B b';') cookies
        → cookie_loop B A (map next_cookie cookies) m ≡ insert_all A.iless cookies m
    unfolding cookie_loop insert_all
    cookie_loop-next [] m h = refl
    cookie_loop-next ((k, v) ∷ cookies) m ((hk, hv), hs) =
        ap (cookie_loop B A (map next_cookie cookies)) (insert_cookie-next k v m hk hv)
        ∙ cookie_loop-next cookies (insert A.iless k v m) hs

    cookie_loop-texts :
        (cookie : Bytes × Bytes) (cookies m : List (Bytes × Bytes))
        → All (AreTokens B b';') (cookie ∷ cookies)
        → cookie_loop B A (cookie_text cookie ∷ map next_cookie cookies) m
          ≡ insert_all A.iless (cookie ∷ cookies) m
    unfolding cookie_loop insert_all
    cookie_loop-texts (k, v) cookies m ((hk, hv), hs) =
        ap (cookie_loop B A (map next_cookie cookies)) (insert_cookie-first k v m hk hv)
        ∙ cookie_loop-next cookies (insert A.iless k v m) hs

    -- Where the header Cookie holds cookies, names and values without semicolons, equals signs and
    -- spaces, with a semicolon and a space between two, each name finds afterwards, case ignored,
    -- the cookie that the request had already, or else the first value that the header has for it.
    pub find-transfer_headers_to_cookies :
        (cookie : Bytes × Bytes) (cookies headers m : List (Bytes × Bytes)) (name : Bytes)
        → All (AreTokens B b';') (cookie ∷ cookies)
        → IsSorted A.iless m
        → find A.iless (codes "Cookie") headers ≡ some (cookie_header cookie cookies)
        → find A.iless name (transfer_headers_to_cookies B A headers m)
          ≡ or_else (find A.iless name m) (find A.iless name (cookie ∷ cookies))
    unfolding transfer_headers_to_cookies Strings.split
    find-transfer_headers_to_cookies (k, v) cookies headers m name (h, hs) sorted e =
        ap
          (λ o. find A.iless name (
            if is_empty (header_or_empty B A o)
            then m
            else cookie_loop B A (B.split b';' (header_or_empty B A o)) m))
          e
        ∙ ap
            (λ b.
              find A.iless name
                (if b then m else cookie_loop B A (B.split b';' (cookie_header (k, v) cookies)) m))
            (cookie_header-filled k v (map next_cookie cookies))
        ∙ ap (λ parts. find A.iless name (cookie_loop B A parts m))
            (B.split_law b';' (pair_text k v) (map next_cookie cookies)
              (cookie_text_no_semicolon (k, v) h, next_cookies_no_semicolon cookies hs))
        ∙ ap (find A.iless name) (cookie_loop-texts (k, v) cookies m (h, hs))
        ∙ find-insert_all A.iless (iless-IsStrictWeakOrder A) name ((k, v) ∷ cookies) m sorted
