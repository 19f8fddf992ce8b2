-- ===== src/StaticFile.antt =====
-- intercepters/static_file.hpp and intercepters/static_file.cpp: which file a request asks for, and how it is
-- sent. The file system is a parameter; an answer of `none` is an exception or a failure to open.
pub mod Entries
pub mod Chunks
pub mod Answers
use da4qi.Base.{
  ℕ, zero, suc, ◌+◌, ◌*◌, List, [], ◌∷◌, ◌++◌, Bool, true, false, not, ◌||◌, ◌&&◌, if◌then◌else◌,
  ltb, Option, none, some, Bytes, codes, is_empty, length, take, drop,
}
use da4qi.Router.Order.{Algorithms, equal, lexicographical_compare}
use da4qi.Router.Map.{insert}
use da4qi.Request.FormData.{cut_at}

pub data PathResolve : Type 0 where
  is_relative is_absolute : PathResolve

pub record StaticFile : Type 0 where
  pub cache_max_age : ℕ
  pub url_resolve_type : PathResolve
  pub dir_resolve_type : PathResolve
  pub root_entries : List (Bytes × Bytes)
  pub default_filenames : List Bytes

-- Utilities::CompareDESC.
unfoldable pub compare_desc : Bytes → Bytes → Bool
compare_desc l r = lexicographical_compare r l

unfoldable pub add_entry : Bytes → Bytes → StaticFile → StaticFile
add_entry url_root dir_root f = record f {
  root_entries =
      insert compare_desc url_root (if is_empty dir_root then url_root else dir_root)
        f.root_entries;
}

abbrev pub is_among : Bytes → List Bytes → Bool
is_among name [] = false
is_among name (fn ∷ names) = equal fn name || is_among name names

unfoldable pub add_default_file_name : Bytes → StaticFile → StaticFile
add_default_file_name name f =
    if is_among name f.default_filenames
    then f
    else record f { default_filenames = f.default_filenames ++ name ∷ [] }

unfoldable pub add_default_file_names : List Bytes → StaticFile → StaticFile
unfolding add_default_file_name
add_default_file_names [] f = f
add_default_file_names (s ∷ names) f = add_default_file_names names (add_default_file_name s f)

-- The application's root in URLs and its root for static files; `append` is the `/` of fs::path.
pub record Roots : Type 0 where
  pub url_root : Bytes
  pub static_root_path : Bytes
  pub append : Bytes → Bytes → Bytes

abbrev pub resolve : PathResolve → Bytes → Bytes → Bytes
resolve is_relative root path = root ++ path
resolve is_absolute root path = path

-- The part of the URL in front of a question mark.
abbrev pub before_query : Option (Bytes × Bytes) → Bytes → Bytes
before_query none rest = rest
before_query (some (before, after)) rest = before

module _ (A : Algorithms) where
  -- The loop over the entries: the first one whose root begins the URL, and the root.
  unfoldable pub first_entry :
      (Bytes → Bytes) → Bytes → List (Bytes × Bytes) → Option (Bytes × Bytes)
  first_entry starts url [] = none
  first_entry starts url ((root, dir) ∷ entries) =
      let later = first_entry starts url entries in
      if A.istarts_with url (starts root) then some (root, dir) else later

  unfoldable pub file_of : StaticFile → Roots → Bytes → Option (Bytes × Bytes) → Option Bytes
  file_of f r url none = none
  file_of f r url (some (root, dir)) =
      let rest = drop (length (resolve f.url_resolve_type r.url_root root)) url in
      some (
        r.append (resolve f.dir_resolve_type r.static_root_path dir)
          (before_query (cut_at b'?' rest) rest))

  -- The file that is saved with the context, which stops then, or nothing, and it passes.
  unfoldable pub on_request : Bool → StaticFile → Roots → Bytes → Option Bytes
  unfolding first_entry file_of
  on_request is_get f r url =
      if not is_get
      then none
      else file_of f r url (first_entry (resolve f.url_resolve_type r.url_root) url f.root_entries)

-- What on_response does with the context, in order.
pub data Action : Type 0 where
  render_bad_request render_nofound render_internal_server_error : Action
  set_content_type : Bytes → Action
  cache_control_max_age : ℕ → Action
  start_chunked_response : Action
  next_chunked_response : Bytes → Action
  remove_data : Action
  stop_chunked_response : Action
  pass : Action

-- The file system. `is_file` is has_filename with a name that is not a dot.
pub record Files : Type 0 where
  pub is_file : Bytes → Bool
  pub exists : Bytes → Option Bool
  pub open_file : Bytes → Option Bytes
  pub append : Bytes → Bytes → Bytes
  pub mime_type : Bytes → Bytes

abbrev pub max_byte_read_one_time : ℕ
max_byte_read_one_time = 1024 * 10

abbrev pub max_byte_one_chunked_body : ℕ
max_byte_one_chunked_body = 1024 * 100

abbrev pub last_chunk : Bytes → List Bytes
last_chunk [] = []
last_chunk (x ∷ buf) = (x ∷ buf) ∷ []

-- The loop that reads: `rest` is what was not read yet. A read of fewer bytes than it asks for is the last.
unfoldable pub chunks_loop : ℕ → Bytes → Bytes → List Bytes
chunks_loop zero rest buf = []
chunks_loop (suc fuel) rest buf =
    let read = buf ++ take max_byte_read_one_time rest in
    let behind = drop max_byte_read_one_time rest in
    let more = chunks_loop fuel behind read in
    let more_flushed = chunks_loop fuel behind [] in
    if ltb (length rest) max_byte_read_one_time
    then (if ltb max_byte_one_chunked_body (length read) then read ∷ [] else last_chunk read)
    else if ltb max_byte_one_chunked_body (length read)
    then read ∷ more_flushed
    else more

-- Each read takes a byte at least, or it is the last.
unfoldable pub chunks : Bytes → List Bytes
unfolding chunks_loop
chunks content = chunks_loop (length content + 1) content []

abbrev pub sent : List Bytes → List Action → List Action
sent [] done = done
sent (b ∷ bs) done = next_chunked_response b ∷ sent bs done

module _ (F : Files) where
  -- Sending of the file that was found, and the cases where it is not.
  unfoldable pub send_file : StaticFile → Bytes → Option Bytes → List Action
  unfolding chunks
  send_file f name none = render_internal_server_error ∷ pass ∷ []
  send_file f name (some content) =
      let sending =
        cache_control_max_age f.cache_max_age
        ∷ start_chunked_response
        ∷ sent (chunks content) (remove_data ∷ stop_chunked_response ∷ pass ∷ []) in
      if is_empty (F.mime_type name) then sending else set_content_type (F.mime_type name) ∷ sending

  -- The first default file that exists: nothing if a test throws, none if there is no such file.
  unfoldable pub default_file : Bytes → List Bytes → Option (Option Bytes)
  default_file dir [] = some none
  default_file dir (fn ∷ names) =
      let later = default_file dir names in
      elim (F.exists (F.append dir fn)) [
        | none ↦ none
        | some there ↦ if there then some (some (F.append dir fn)) else later
      ]

  unfoldable pub located : StaticFile → Option (Option Bytes) → List Action
  unfolding send_file
  located f none = render_internal_server_error ∷ pass ∷ []
  located f (some none) = render_nofound ∷ pass ∷ []
  located f (some (some name)) = send_file f name (F.open_file name)

  -- Where the file is: what is no file is a directory, for which the default names are tried.
  unfoldable pub locate : StaticFile → Bytes → Option (Option Bytes)
  unfolding default_file
  locate f name =
      if F.is_file name
      then elim (F.exists name) [
        | none ↦ none
        | some there ↦ some (if there then some name else none)
      ]
      else default_file name f.default_filenames

  -- The data that on_request saved.
  unfoldable pub on_response : StaticFile → Option Bytes → List Action
  unfolding located locate
  on_response f none = pass ∷ []
  on_response f (some name) =
      if is_empty name then render_bad_request ∷ [] else located f (locate f name)
