-- ===== src/Request/Url.antt =====
-- url.hpp and url.cpp: the URL of a request and its part under an application. llhttp's parser of URLs is
-- a parameter.
use da4qi.Base.{
  ℕ, ◌+◌, List, [], ◌∷◌, ◌++◌, Option, none, some, Bytes, is_empty, length, take, drop,
  take-length-append, drop-length-append, take-length, length-append, append_assoc, append-cons,
  if◌then◌else◌, false, ◌≡◌, refl, sym, ap, ap₂, ◌∙◌,
}
use da4qi.Utilities.Strings.{StringAlgorithms}
use da4qi.Utilities.Parameters.{parse_query_parameters}

pub record Url : Type 0 where
  pub full : Bytes
  pub schema : Bytes
  pub host : Bytes
  pub port : ℕ
  pub path : Bytes
  pub query : Bytes
  pub fragment : Bytes
  pub userinfo : Bytes
  pub parameters : List (Bytes × Bytes)
  pub full_under_app : Bytes
  pub path_under_app : Bytes

abbrev pub no_url : Url
no_url = record {
  full = [];
  schema = [];
  host = [];
  port = 0;
  path = [];
  query = [];
  fragment = [];
  userinfo = [];
  parameters = [];
  full_under_app = [];
  path_under_app = [];
}

-- The fields of llhttp, in the order of their numbers.
pub data UrlField : Type 0 where
  uf_schema uf_host uf_port uf_path uf_query uf_fragment uf_userinfo : UrlField

-- Where the parser found a field.
pub record FieldData : Type 0 where
  pub field : UrlField
  pub off : ℕ
  pub len : ℕ

-- http_parser_parse_url: nothing on an error, or else the port and the fields that are set, in order.
abbrev pub UrlParser : Type 0
UrlParser = Bytes → Option (ℕ × List FieldData)

unfoldable pub get_url_part_value : UrlField → Bytes → Url → Url
get_url_part_value uf_schema v u = record u { schema = v }
get_url_part_value uf_host v u = record u { host = v }
get_url_part_value uf_port v u = u
get_url_part_value uf_path v u = record u { path = v }
get_url_part_value uf_query v u = record u { query = v }
get_url_part_value uf_fragment v u = record u { fragment = v }
get_url_part_value uf_userinfo v u = record u { userinfo = v }

unfoldable pub set_fields : Bytes → List FieldData → Url → Url
unfolding get_url_part_value
set_fields value [] u = u
set_fields value (f ∷ fs) u =
    set_fields value fs (get_url_part_value f.field (take f.len (drop f.off value)) u)

module _ (B : StringAlgorithms) where
  unfoldable pub set_parts : Bytes → Option (ℕ × List FieldData) → Url → Url
  unfolding set_fields
  set_parts value none u = u
  set_parts value (some (port, fs)) u =
      let v = set_fields value fs (record u { port = port }) in
      if is_empty v.query then v else record v { parameters = parse_query_parameters B v.query }

  -- UrlBase::Parse, without what it returns.
  unfoldable pub parse : UrlParser → Bytes → Url → Url
  unfolding set_parts
  parse P value u = record (set_parts value (P value) u) { full = value }

unfoldable pub under_application : Bytes → Url → Url
under_application root u = record u {
  full_under_app = drop (length root) u.full;
  path_under_app = drop (length root) u.path;
}

-- `/path?query`, and what a parser finds there.
abbrev pub origin_form : Bytes → Bytes → Bytes
origin_form path query = path ++ b'?' ∷ query

abbrev pub origin_fields : Bytes → Bytes → List FieldData
origin_fields path query =
    record { field = uf_path; off = 0; len = length path }
    ∷ record { field = uf_query; off = length path + 1; len = length query }
    ∷ []

module _ (B : StringAlgorithms) (P : UrlParser) where
  query-origin_form :
      (path query : Bytes)
      → take (length query) (drop (length path + 1) (origin_form path query)) ≡ query
  query-origin_form path query =
      let size : length path + 1 ≡ length (path ++ b'?' ∷ []) =
        sym (length-append path (b'?' ∷ [])) in
      ap₂ (λ n t. take (length query) (drop n t)) size (append-cons path b'?' query)
      ∙ ap (take (length query)) (drop-length-append (path ++ b'?' ∷ []) query)
      ∙ take-length query

  -- A target of a path and a query that is not empty, in which the parser finds them, is taken apart: the URL
  -- has the path, the query and the parameters of the query, and under an application whose root begins the
  -- path, what stands behind the root.
  pub parse-origin_form :
      (root rest query : Bytes) (port : ℕ)
      → is_empty query ≡ false
      → P (origin_form (root ++ rest) query) ≡ some (port, origin_fields (root ++ rest) query)
      → under_application root (parse B P (origin_form (root ++ rest) query) no_url)
        ≡ record no_url {
          full = origin_form (root ++ rest) query;
          port = port;
          path = root ++ rest;
          query = query;
          parameters = parse_query_parameters B query;
          full_under_app = origin_form rest query;
          path_under_app = rest;
        }
  unfolding parse set_parts set_fields get_url_part_value under_application
  parse-origin_form root rest query port full found =
      rw
        (
          found,
          take-length-append (root ++ rest) (b'?' ∷ query),
          query-origin_form (root ++ rest) query,
          full,
          append_assoc root rest (b'?' ∷ query),
          drop-length-append root (rest ++ b'?' ∷ query),
          drop-length-append root rest,
        )
        refl
