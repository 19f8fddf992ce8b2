-- ===== src/Request/Members.antt =====
-- request.hpp and request.cpp: what a request holds besides its headers, which are with the buffers that
-- read them, its path parameters, which are the context's, and the flags of llhttp, which are not read.
use da4qi.Base.{ℕ, List, [], ◌++◌, map, Bool, false, if◌then◌else◌, Bytes, is_empty}
use da4qi.Utilities.Strings.{StringAlgorithms}
use da4qi.Utilities.Parameters.{parse_query_parameters}
use da4qi.Connection.Multipart.{MultiPart}
use da4qi.Request.Url.{Url, no_url}
use da4qi.Request.ContentType.{Content}
use da4qi.Request.FormData.{FormDataItem, new_item}

pub record Request : Type 0 where
  pub url : Url
  pub method_number : ℕ
  pub version_major : ℕ
  pub version_minor : ℕ
  pub content_length : ℕ
  pub is_keep_alive : Bool
  pub is_upgrade : Bool
  pub content : Content
  pub body : Bytes
  pub multiparts : List MultiPart
  pub cookies : List (Bytes × Bytes)
  pub formdata : List FormDataItem

abbrev pub no_content : Content
no_content = record {
  is_multipart = false;
  is_formdata = false;
  is_form_urlencoded = false;
  is_octet_stream = false;
  boundary = [];
}

-- HTTP_GET has the number 1.
abbrev pub no_request : Request
no_request = record {
  url = no_url;
  method_number = 1;
  version_major = 0;
  version_minor = 0;
  content_length = 0;
  is_keep_alive = false;
  is_upgrade = false;
  content = no_content;
  body = [];
  multiparts = [];
  cookies = [];
  formdata = [];
}

-- Url::Clear, which leaves the two parts under an application.
unfoldable pub clear : Url → Url
clear u = record no_url { full_under_app = u.full_under_app; path_under_app = u.path_under_app }

unfoldable pub reset : Request → Request
unfolding clear
reset r = record r {
  url = clear r.url;
  method_number = 1;
  version_major = 0;
  version_minor = 0;
  content_length = 0;
  is_keep_alive = false;
  is_upgrade = false;
  content = no_content;
  body = [];
  multiparts = [];
  cookies = [];
  formdata = [];
}

module _ (B : StringAlgorithms) where
  unfoldable pub parse_form_url_encoded_data : Request → Request
  parse_form_url_encoded_data r =
      let items =
        map (λ (p : Bytes × Bytes). record new_item { name = p.0; data' = p.1 })
          (parse_query_parameters B r.body) in
      if is_empty r.body then r else record r { formdata = r.formdata ++ items }
