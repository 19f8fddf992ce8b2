-- ===== src/Request/Under.antt =====
-- url.cpp: what an earlier request left in a URL is not in what is parsed after it.
use da4qi.Base.{
  ℕ, List, [], ◌∷◌, Bool-cases, if◌then◌else◌, Option, none, some, Bytes, is_empty, take, drop, inl,
  inr, ◌≡◌, refl, ap, ◌∙◌,
}
use da4qi.Utilities.Strings.{StringAlgorithms}
use da4qi.Utilities.Parameters.{parse_query_parameters}
use da4qi.Request.Url.{
  Url, FieldData, UrlField, uf_schema, uf_host, uf_port, uf_path, uf_query, uf_fragment,
  uf_userinfo, UrlParser, get_url_part_value, set_fields, set_parts, parse,
}

-- The parts under an application do not matter to what is parsed.
abbrev pub stale : Bytes → Bytes → Url → Url
stale x y u = record u { full_under_app = x; path_under_app = y }

get_url_part_value-stale :
    (f : UrlField) (v x y : Bytes) (u : Url)
    → get_url_part_value f v (stale x y u) ≡ stale x y (get_url_part_value f v u)
unfolding get_url_part_value
get_url_part_value-stale uf_schema v x y u = refl
get_url_part_value-stale uf_host v x y u = refl
get_url_part_value-stale uf_port v x y u = refl
get_url_part_value-stale uf_path v x y u = refl
get_url_part_value-stale uf_query v x y u = refl
get_url_part_value-stale uf_fragment v x y u = refl
get_url_part_value-stale uf_userinfo v x y u = refl

set_fields-stale :
    (value x y : Bytes) (fs : List FieldData) (u : Url)
    → set_fields value fs (stale x y u) ≡ stale x y (set_fields value fs u)
unfolding set_fields
set_fields-stale value x y [] u = refl
set_fields-stale value x y (f ∷ fs) u =
    ap (set_fields value fs)
      (get_url_part_value-stale f.field (take f.len (drop f.off value)) x y u)
    ∙ set_fields-stale value x y fs (get_url_part_value f.field (take f.len (drop f.off value)) u)

module _ (B : StringAlgorithms) where
  set_parts-stale :
      (value x y : Bytes) (o : Option (ℕ × List FieldData)) (u : Url)
      → set_parts B value o (stale x y u) ≡ stale x y (set_parts B value o u)
  unfolding set_parts
  set_parts-stale value x y none u = refl
  set_parts-stale value x y (some (port, fs)) u =
      ap with_parameters (set_fields-stale value x y fs (record u { port = port }))
      ∙ kept (set_fields value fs (record u { port = port }))
    where
      with_parameters : Url → Url
      with_parameters v =
          if is_empty v.query then v else record v { parameters = parse_query_parameters B v.query }

      kept : (v : Url) → with_parameters (stale x y v) ≡ stale x y (with_parameters v)
      kept v = elim (Bool-cases (is_empty v.query)) [ inl h ↦ rw h refl | inr h ↦ rw h refl ]

  pub parse-stale :
      (U : UrlParser) (value x y : Bytes) (u : Url)
      → parse B U value (stale x y u) ≡ stale x y (parse B U value u)
  unfolding parse
  parse-stale U value x y u =
      ap (λ (t : Url). record t { full = value }) (set_parts-stale value x y (U value) u)
