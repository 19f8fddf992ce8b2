-- ===== src/Request/Lookup.antt =====
-- request.hpp and request.cpp: where a request looks for a parameter.
use da4qi.Base.{List, if◌then◌else◌, Option, none, Option-cases, Bytes, inl, inr, ◌≡◌, refl}
use da4qi.Router.Order.{Algorithms, lexicographical_compare}
use da4qi.Router.Map.{find}
use da4qi.Router.Inserts.{or_else}
use da4qi.Router.Table.{is_some}
use da4qi.Utilities.Strings.{StringAlgorithms}
use da4qi.Request.FormData.{FormDataItem, try_get_form_data}

pub data ParameterSrc : Type 0 where
  from_unknown from_url from_path from_form from_header from_cookie : ParameterSrc

-- The parts of a request that have parameters.
pub record Sources : Type 0 where
  pub url_parameters : List (Bytes × Bytes)
  pub path_parameters : List (Bytes × Bytes)
  pub formdata : List FormDataItem
  pub headers : List (Bytes × Bytes)
  pub cookies : List (Bytes × Bytes)

module _ (A : Algorithms) (B : StringAlgorithms) where
  unfoldable pub is_exists_parameter : Bytes → Sources → ParameterSrc
  is_exists_parameter name s =
      if is_some (find lexicographical_compare name s.url_parameters)
      then from_url
      else if is_some (find lexicographical_compare name s.path_parameters)
      then from_path
      else if is_some (try_get_form_data A B name s.formdata)
      then from_form
      else if is_some (find A.iless name s.headers)
      then from_header
      else if is_some (find A.iless name s.cookies)
      then from_cookie
      else from_unknown

  unfoldable pub get_from : ParameterSrc → Bytes → Sources → Option Bytes
  get_from from_unknown name s = none
  get_from from_url name s = find lexicographical_compare name s.url_parameters
  get_from from_path name s = find lexicographical_compare name s.path_parameters
  get_from from_form name s = try_get_form_data A B name s.formdata
  get_from from_header name s = find A.iless name s.headers
  get_from from_cookie name s = find A.iless name s.cookies

  unfoldable pub try_get_parameter : Bytes → Sources → Option Bytes
  unfolding is_exists_parameter get_from
  try_get_parameter name s = get_from (is_exists_parameter name s) name s

  -- A parameter is the first that is found in the URL, the path, the form, the headers and the cookies, in this
  -- order, and none is found only if none of them has it.
  pub try_get_parameter-first :
      (name : Bytes) (s : Sources)
      → try_get_parameter name s
        ≡ or_else (find lexicographical_compare name s.url_parameters) (
            or_else (find lexicographical_compare name s.path_parameters) (
              or_else
                (try_get_form_data A B name s.formdata)
                (or_else (find A.iless name s.headers) (find A.iless name s.cookies))))
  unfolding try_get_parameter is_exists_parameter get_from
  try_get_parameter-first name s =
      elim (Option-cases (find lexicographical_compare name s.url_parameters)) [
        | inr (v, url) ↦ rw url url
        | inl no_url ↦ elim (Option-cases (find lexicographical_compare name s.path_parameters)) [
          | inr (v, path) ↦ rw (no_url, path) path
          | inl no_path ↦ elim (Option-cases (try_get_form_data A B name s.formdata)) [
            | inr (v, form) ↦ rw (no_url, no_path, form) form
            | inl no_form ↦ elim (Option-cases (find A.iless name s.headers)) [
              | inr (v, header) ↦ rw (no_url, no_path, no_form, header) header
              | inl no_header ↦ elim (Option-cases (find A.iless name s.cookies)) [
                | inr (v, cookie) ↦ rw (no_url, no_path, no_form, no_header, cookie) cookie
                | inl no_cookie ↦ rw (no_url, no_path, no_form, no_header, no_cookie) refl
              ]
            ]
          ]
        ]
      ]
