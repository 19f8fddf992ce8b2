-- ===== src/Connection/Multipart.antt =====
-- connection.cpp and request.hpp: the callbacks of the multipart parser, which hands over the headers
-- and the data of each part in pieces. They share the buffers of the request's headers, so that `field`,
-- `value` and `part` of `reading` are those of the connection, and its `headers` those of the part that
-- is being read. The mark of the last callback, which nothing reads, is left out.
pub mod Parts
use da4qi.Base.{List, [], ◌∷◌, ◌++◌, ◌&&◌, not, if◌then◌else◌, Bytes, is_empty}
use da4qi.Router.Order.{Algorithms}
use da4qi.Connection.Headers.{
  header_none_part, header_field_part, is_value_part, Reading, append_header, on_header_value,
}

pub data TransferResult : Type 0 where
  transfer_none tranfer_formdata transfer_file_memory transfer_file_saved : TransferResult

pub record MultiPart : Type 0 where
  pub headers : List (Bytes × Bytes)
  pub data' : Bytes
  pub transfer_result : TransferResult

pub record Multipart : Type 0 where
  pub reading : Reading
  pub part_buffer : Bytes
  pub multiparts : List MultiPart

module _ (B : Algorithms) where
  unfoldable pub on_multipart_header_field : Bytes → Multipart → Multipart
  unfolding append_header
  on_multipart_header_field at' s =
      let r = s.reading in
      let committed =
        if is_value_part r.part && not (is_empty r.field)
        then record (append_header B r) { part = header_field_part }
        else r in
      record s { reading = record committed { field = committed.field ++ at' } }

  unfoldable pub on_multipart_header_value : Bytes → Multipart → Multipart
  unfolding on_header_value
  on_multipart_header_value at' s = record s { reading = on_header_value B at' s.reading }

  unfoldable pub on_multipart_headers_complete : Multipart → Multipart
  unfolding append_header
  on_multipart_headers_complete s =
      let r = s.reading in
      if is_value_part r.part && not (is_empty r.field)
      then record s { reading = record (append_header B r) { part = header_none_part } }
      else s

unfoldable pub on_multipart_data_begin : Multipart → Multipart
on_multipart_data_begin s = record s {
  reading = record s.reading { part = header_none_part; field = []; value = [] };
  part_buffer = [];
}

unfoldable pub on_multipart_data : Bytes → Multipart → Multipart
on_multipart_data at' s = record s { part_buffer = s.part_buffer ++ at' }

-- The part is moved to the request, with its headers and its data.
unfoldable pub on_multipart_data_end : Multipart → Multipart
on_multipart_data_end s = record s {
  reading = record s.reading { headers = [] };
  part_buffer = [];
  multiparts =
      s.multiparts
      ++ (record {
        headers = s.reading.headers;
        data' = s.part_buffer;
        transfer_result = transfer_none;
      })
        ∷ [];
}
