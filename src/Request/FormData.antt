-- ===== src/Request/FormData.antt =====
-- request.cpp: the parts of a request as form data. The file system is a parameter.
use da4qi.Base.{
  ℕ, ◌+◌, ◌-◌, ◌/◌, List, [], ◌∷◌, ◌++◌, Bool, true, false, not, ◌&&◌, ◌||◌, if◌then◌else◌, ◌==◌,
  ltb, leb, Option, none, some, Bytes, codes, is_empty, length, take, drop,
}
use da4qi.Router.Order.{Algorithms, starts_with, tail_is}
use da4qi.Router.Map.{find, insert}
use da4qi.Router.Table.{is_some}
use da4qi.Utilities.Strings.{StringAlgorithms, keep_space}
use da4qi.Utilities.Strings
use da4qi.Utilities.Parameters.{header_or_empty}
use da4qi.Connection.Multipart.{
  MultiPart, transfer_none, tranfer_formdata, transfer_file_memory, transfer_file_saved,
}

pub data DataFlag : Type 0 where
  is_data is_file_data is_file_temporary_name : DataFlag

pub record FormDataItem : Type 0 where
  pub name : Bytes
  pub data_flag : DataFlag
  pub filename : Bytes
  pub content_type : Bytes
  pub data' : Bytes

abbrev pub new_item : FormDataItem
new_item = record { name = []; data_flag = is_data; filename = []; content_type = []; data' = [] }

-- UploadFileSaveOptions, of application.hpp.
pub data Strategy : Type 0 where
  always_save alway_no_save size_greater_than size_lesser_than extension_is extension_is_not :
      Strategy

pub record SaveOptions : Type 0 where
  pub strategy : Strategy
  pub size_base_kb : ℕ
  pub extensions : List (Bytes × Unit {0})

pub record SubHeaders : Type 0 where
  pub value : Bytes
  pub sub_headers : List (Bytes × Bytes)

abbrev onto_first : ℕ → Option (Bytes × Bytes) → Option (Bytes × Bytes)
onto_first x none = none
onto_first x (some (before, after)) = some (x ∷ before, after)

-- `find` of a character: the text before it, and the text behind it.
abbrev pub cut_at : ℕ → Bytes → Option (Bytes × Bytes)
cut_at c [] = none
cut_at c (x ∷ s) = let later = onto_first x (cut_at c s) in if x == c then some ([], s) else later

abbrev pub unquoted : Bytes → Bytes
unquoted v =
    if leb 2 (length v) && starts_with v (b'"' ∷ []) && tail_is v (b'"' ∷ [])
    then take (length v - 2) (drop 1 v)
    else v

-- What the request asks of the file system; a name is empty where none is found.
pub record Disk : Type 0 where
  pub extension : Bytes → Bytes
  pub temporary_name : ℕ → Bytes → Bytes → Bytes
  pub save_data_to_file : Bytes → Bytes → Bool

module _ (A : Algorithms) (B : StringAlgorithms) where
  unfoldable pub is_need_save : SaveOptions → Bytes → ℕ → Bool
  is_need_save options extension filesize_kb = elim options.strategy [
    | always_save ↦ true
    | alway_no_save ↦ false
    | size_greater_than ↦ ltb options.size_base_kb filesize_kb
    | size_lesser_than ↦ ltb filesize_kb options.size_base_kb
    | extension_is ↦ is_some (find A.iless extension options.extensions)
    | extension_is_not ↦ not (is_some (find A.iless extension options.extensions))
  ]

  -- One part of the value.
  unfoldable pub add_sub_header : Bytes → Option (Bytes × Bytes) → SubHeaders → SubHeaders
  add_sub_header p none h = if is_empty h.value then record h { value = p } else h
  add_sub_header p (some (f, v)) h =
      let name = B.trim f in
      if not (is_empty name)
      then record h { sub_headers = insert A.iless name (unquoted (B.trim v)) h.sub_headers }
      else h

  unfoldable pub sub_headers_loop : List Bytes → SubHeaders → SubHeaders
  unfolding add_sub_header
  sub_headers_loop [] h = h
  sub_headers_loop (p ∷ parts) h = sub_headers_loop parts (add_sub_header p (cut_at b'=' p) h)

  unfoldable pub get_sub_headers : Bytes → MultiPart → SubHeaders
  unfolding sub_headers_loop
  get_sub_headers field part =
      let value = header_or_empty B A (find A.iless field part.headers) in
      let empty : SubHeaders = record { value = []; sub_headers = [] } in
      if is_empty value
      then empty
      else sub_headers_loop (Strings.split B value b';' keep_space) empty

  -- The item of a part with a name, which takes the data of the part.
  unfoldable pub named_item :
      Bytes → Option Bytes → Option Bytes → MultiPart → MultiPart × FormDataItem
  named_item name filename content_type part = (
    record part {
      data' = [];
      transfer_result = if is_some filename then transfer_file_memory else tranfer_formdata;
    },
    record {
      name = name;
      data_flag = if is_some filename then is_file_data else is_data;
      filename = header_or_empty B A filename;
      content_type = header_or_empty B A content_type;
      data' = part.data';
    },
  )

  -- The part, the item and whether the transfer is done.
  unfoldable pub transfer_part : MultiPart → MultiPart × FormDataItem × Bool
  unfolding get_sub_headers named_item
  transfer_part part =
      let h = get_sub_headers (codes "Content-Disposition") part in
      let name = header_or_empty B A (find A.iless (codes "name") h.sub_headers) in
      let (taken, item) =
        named_item name (find A.iless (codes "filename") h.sub_headers)
          (find A.iless (codes "Content-Type") part.headers) part in
      if is_empty h.value || not (A.iequals h.value (codes "form-data"))
      then (part, new_item, false)
      else if is_empty name
      then (record part { transfer_result = transfer_none }, new_item, false)
      else (taken, item, true)

  is_file : DataFlag → Bool
  is_file is_file_data = true
  is_file _ = false

  -- What is done with a file that was uploaded; `index` is the number of the part.
  unfoldable pub save_item :
      SaveOptions → Disk → Bytes → ℕ → MultiPart → FormDataItem → MultiPart × FormDataItem
  unfolding is_file is_need_save
  save_item options disk dir index part item =
      let ext = disk.extension item.filename in
      let file_name = disk.temporary_name index ext dir in
      if is_file item.data_flag
        && not (is_empty item.filename)
        && not (is_empty item.data')
        && not (is_empty dir)
        && is_need_save options ext (length item.data' / 1024)
        && not (is_empty file_name)
        && disk.save_data_to_file item.data' file_name
      then (
        record part { transfer_result = transfer_file_saved },
        record item { data' = file_name; data_flag = is_file_temporary_name },
      )
      else (part, item)

  -- Each part adds an item, one that is not transferred too.
  unfoldable pub transfer_multiparts :
      SaveOptions
      → Disk
      → Bytes
      → ℕ
      → List MultiPart
      → List FormDataItem
      → List MultiPart × List FormDataItem
  unfolding transfer_part save_item
  transfer_multiparts options disk dir index [] formdata = ([], formdata)
  transfer_multiparts options disk dir index (part ∷ parts) formdata =
      let (taken, item, done) = transfer_part part in
      let (saved, kept) =
        if done then save_item options disk dir index taken item else (taken, item) in
      let (rest, all) =
        transfer_multiparts options disk dir (index + 1) parts (formdata ++ kept ∷ []) in
      (saved ∷ rest, all)

  unfoldable pub try_get_form_data : Bytes → List FormDataItem → Option Bytes
  try_get_form_data name [] = none
  try_get_form_data name (item ∷ formdata) =
      let later = try_get_form_data name formdata in
      if A.iequals item.name name then some item.data' else later
