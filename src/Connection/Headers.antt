-- ===== src/Connection/Headers.antt =====
-- connection.cpp and request.cpp: the callbacks of llhttp for header fields. llhttp calls them with
-- the pieces of a name and then with the pieces of its value, and `on_headers_complete` at the end.
-- A string that was moved from is empty, as it is in the common standard libraries.
use da4qi.Base.{List, [], ◌++◌, Bool, true, false, not, ◌&&◌, if◌then◌else◌, Bytes, is_empty}
use da4qi.Router.Order.{Algorithms}
use da4qi.Router.Map.{insert, find, modify}
use da4qi.Router.Table.{is_some}

pub data HeaderPart : Type 0 where
  header_none_part header_field_part header_value_part : HeaderPart

abbrev pub is_value_part : HeaderPart → Bool
is_value_part header_value_part = true
is_value_part _ = false

abbrev pub is_field_part : HeaderPart → Bool
is_field_part header_field_part = true
is_field_part _ = false

-- `_reading_header_part`, `_reading_header_field`, `_reading_header_value` and the headers of the
-- request, a map with the comparison that ignores case.
pub record Reading : Type 0 where
  pub part : HeaderPart
  pub field : Bytes
  pub value : Bytes
  pub headers : List (Bytes × Bytes)

module _ (B : Algorithms) where
  -- Request::AppendHeader on the field and the value that are being read, which it may move from.
  unfoldable pub append_header : Reading → Reading
  append_header s =
      if is_some (find B.iless s.field s.headers)
      then record s { headers = modify B.iless s.field (λ old. s.value) s.headers; value = [] }
      else record s { headers = insert B.iless s.field s.value s.headers; field = []; value = [] }

  unfoldable pub try_commit : Reading → Reading
  unfolding append_header
  try_commit s =
      if is_value_part s.part && not (is_empty s.field)
      then record (append_header s) { part = header_none_part }
      else s

  unfoldable pub on_header_field : Bytes → Reading → Reading
  unfolding try_commit
  on_header_field at' s =
      let q = try_commit s in
      if is_empty at' then q else record q { part = header_field_part; field = q.field ++ at' }

  unfoldable pub on_header_value : Bytes → Reading → Reading
  on_header_value at' s =
      let kept = if is_field_part s.part && not (is_empty s.value) then [] else s.value in
      record s { value = kept ++ at'; part = header_value_part }
