-- ===== src/Utilities/Parameters/Query.antt =====
-- A query that was written with UrlEncode is parsed to what was written.
use da4qi.Base.{List, [], ◌∷◌, map, Bytes, IsByte, All, All-append, ◌≡◌, refl, ap, ap₂, ◌∙◌}
use da4qi.Router.Order.{lexicographical_compare, lexicographical_compare-IsStrictWeakOrder}
use da4qi.Router.Map.{insert, find}
use da4qi.Router.Inserts.{insert_all, find-insert_all}
use da4qi.Utilities.Http.{url_encode, url_decode_if_encoded}
use da4qi.Utilities.Http.Encoded.{url_encode-encoded}
use da4qi.Utilities.Http.RoundTrip.{url_decode-url_encode, url_decode_if_encoded-url_decode}
use da4qi.Utilities.Strings.{StringAlgorithms, IsFree, joined, keep_space}
use da4qi.Utilities.Strings
use da4qi.Utilities.Parameters.{insert_query, query_loop, parse_query_parameters}
use da4qi.Utilities.Parameters.Written.{
  pair_text, split-pair_text, trim-plain, encoded_no_space, encoded_no_equals, encoded_no_and,
}

-- A name and a value in a query.
abbrev pub query_pair : Bytes × Bytes → Bytes
query_pair (k, v) = pair_text (url_encode k) (url_encode v)

abbrev pub AreBytes : Bytes × Bytes → Type 0
AreBytes (k, v) = All IsByte k × All IsByte v

abbrev pub query : Bytes × Bytes → List (Bytes × Bytes) → Bytes
query pair pairs = joined b'&' (query_pair pair) (map query_pair pairs)

query_pair_no_and : (pair : Bytes × Bytes) → AreBytes pair → IsFree b'&' (query_pair pair)
query_pair_no_and (k, v) (hk, hv) =
    All-append _ (url_encode k) (b'=' ∷ url_encode v)
      (encoded_no_and (url_encode k) (url_encode-encoded k hk))
      (refl, encoded_no_and (url_encode v) (url_encode-encoded v hv))

query_pairs_no_and :
    (pairs : List (Bytes × Bytes)) → All AreBytes pairs → All (IsFree b'&') (map query_pair pairs)
query_pairs_no_and [] h = tt
query_pairs_no_and (pair ∷ pairs) (h, hs) = (query_pair_no_and pair h, query_pairs_no_and pairs hs)

module _ (B : StringAlgorithms) where
  decoded : (s : Bytes) → All IsByte s → url_decode_if_encoded (B.trim (url_encode s)) ≡ s
  decoded s h =
      ap url_decode_if_encoded
        (trim-plain B (url_encode s) (encoded_no_space B (url_encode s) (url_encode-encoded s h)))
      ∙ url_decode_if_encoded-url_decode (url_encode s)
      ∙ url_decode-url_encode s h

  insert_query-pair :
      (k v : Bytes) (m : List (Bytes × Bytes))
      → All IsByte k
      → All IsByte v
      → insert_query B (Strings.split B (query_pair (k, v)) b'=' keep_space) m
        ≡ insert lexicographical_compare k v m
  unfolding insert_query Strings.split
  insert_query-pair k v m hk hv =
      ap (λ parts. insert_query B parts m)
        (split-pair_text B (url_encode k) (url_encode v)
          (encoded_no_equals (url_encode k) (url_encode-encoded k hk))
          (encoded_no_equals (url_encode v) (url_encode-encoded v hv)))
      ∙ ap₂ (λ x y. insert lexicographical_compare x y m) (decoded k hk) (decoded v hv)

  query_loop-pairs :
      (pairs m : List (Bytes × Bytes))
      → All AreBytes pairs
      → query_loop B (map query_pair pairs) m ≡ insert_all lexicographical_compare pairs m
  unfolding query_loop insert_all
  query_loop-pairs [] m h = refl
  query_loop-pairs ((k, v) ∷ pairs) m ((hk, hv), hs) =
      ap (query_loop B (map query_pair pairs)) (insert_query-pair k v m hk hv)
      ∙ query_loop-pairs pairs (insert lexicographical_compare k v m) hs

  -- A query of names and values, texts of bytes that are encoded with UrlEncode, is parsed to a map in
  -- which each name has the first value that was written for it, and nothing else is found.
  pub find-parse_query_parameters :
      (pair : Bytes × Bytes) (pairs : List (Bytes × Bytes)) (name : Bytes)
      → All AreBytes (pair ∷ pairs)
      → find lexicographical_compare name (parse_query_parameters B (query pair pairs))
        ≡ find lexicographical_compare name (pair ∷ pairs)
  unfolding parse_query_parameters Strings.split find
  find-parse_query_parameters pair pairs name (h, hs) =
      ap (λ parts. find lexicographical_compare name (query_loop B parts []))
        (B.split_law b'&' (query_pair pair) (map query_pair pairs)
          (query_pair_no_and pair h, query_pairs_no_and pairs hs))
      ∙ ap (find lexicographical_compare name) (query_loop-pairs (pair ∷ pairs) [] (h, hs))
      ∙ find-insert_all lexicographical_compare lexicographical_compare-IsStrictWeakOrder name
          (pair ∷ pairs) [] tt
