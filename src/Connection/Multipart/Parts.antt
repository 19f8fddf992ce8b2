-- ===== src/Connection/Multipart/Parts.antt =====
-- Parts whose headers and data arrive in pieces.
use da4qi.Base.{
  List, [], ◌∷◌, ◌++◌, append_assoc, append-nil, map, false, Bytes, is_empty, none, All, ◌≡◌, refl,
  sym, ap, ◌∙◌,
}
use da4qi.Router.Order.{Algorithms}
use da4qi.Router.Map.{insert, find}
use da4qi.Connection.Headers.{
  HeaderPart, header_none_part, header_field_part, header_value_part, is_value_part, append_header,
  on_header_value,
}
use da4qi.Connection.Arrivals.{
  Arrival, joined, name_of, value_of, is_empty-joined, inserted, AreNew,
}
use da4qi.Connection.Multipart.{
  MultiPart, transfer_none, Multipart, on_multipart_header_field, on_multipart_header_value,
  on_multipart_headers_complete, on_multipart_data_begin, on_multipart_data, on_multipart_data_end,
}

-- A part in the pieces in which it is handed over.
pub record PartArrival : Type 0 where
  pub part_headers : List Arrival
  pub pieces : List Bytes

-- What is being read of a part.
abbrev in_part :
    HeaderPart → Bytes → Bytes → List (Bytes × Bytes) → Bytes → List MultiPart → Multipart
in_part p name value hs buf parts = record {
  reading = record { part = p; field = name; value = value; headers = hs };
  part_buffer = buf;
  multiparts = parts;
}

-- No part is being read.
abbrev pub between : List MultiPart → Multipart
between parts = in_part header_none_part [] [] [] [] parts

module _ (B : Algorithms) where
  abbrev fields : List Bytes → Multipart → Multipart
  fields [] s = s
  fields (p ∷ ps) s = fields ps (on_multipart_header_field B p s)

  abbrev values : List Bytes → Multipart → Multipart
  values [] s = s
  values (p ∷ ps) s = values ps (on_multipart_header_value B p s)

  abbrev datas : List Bytes → Multipart → Multipart
  datas [] s = s
  datas (p ∷ ps) s = datas ps (on_multipart_data p s)

  -- The calls for a header of a part.
  pub receive_header : Arrival → Multipart → Multipart
  receive_header a s = values a.value_rest (
      on_multipart_header_value B a.value_start
        (fields a.name_rest (on_multipart_header_field B (a.first ∷ a.name_start) s)))

  pub receive_headers : List Arrival → Multipart → Multipart
  receive_headers [] s = s
  receive_headers (a ∷ as') s = receive_headers as' (receive_header a s)

  -- The calls of multipart_parser.c for a part: its beginning is behind the boundary, in front of its headers,
  -- the end of the headers in front of its data. And the calls for parts one after another.
  pub receive_part : PartArrival → Multipart → Multipart
  receive_part p s = on_multipart_data_end (
      datas p.pieces (
        on_multipart_headers_complete B
          (receive_headers p.part_headers (on_multipart_data_begin s))))

  pub receive_parts : List PartArrival → Multipart → Multipart
  receive_parts [] s = s
  receive_parts (p ∷ ps) s = receive_parts ps (receive_part p s)

  fields-in_part :
      (ps : List Bytes) (p : HeaderPart) (name value buf : Bytes) (hs : List (Bytes × Bytes))
      (parts : List MultiPart)
      → is_value_part p ≡ false
      → fields ps (in_part p name value hs buf parts)
        ≡ in_part p (joined name ps) value hs buf parts
  unfolding on_multipart_header_field
  fields-in_part [] p name value buf hs parts h = refl
  fields-in_part (x ∷ ps) p name value buf hs parts h =
      rw h (fields-in_part ps p (name ++ x) value buf hs parts h)

  values-in_part :
      (ps : List Bytes) (name value buf : Bytes) (hs : List (Bytes × Bytes))
      (parts : List MultiPart)
      → values ps (in_part header_value_part name value hs buf parts)
        ≡ in_part header_value_part name (joined value ps) hs buf parts
  unfolding on_multipart_header_value on_header_value
  values-in_part [] name value buf hs parts = refl
  values-in_part (x ∷ ps) name value buf hs parts = values-in_part ps name (value ++ x) buf hs parts

  datas-in_part :
      (ps : List Bytes) (hs : List (Bytes × Bytes)) (buf : Bytes) (parts : List MultiPart)
      → datas ps (in_part header_none_part [] [] hs buf parts)
        ≡ in_part header_none_part [] [] hs (joined buf ps) parts
  unfolding on_multipart_data
  datas-in_part [] hs buf parts = refl
  datas-in_part (x ∷ ps) hs buf parts = datas-in_part ps hs (buf ++ x) parts

  -- The calls for a header behind its first piece.
  after_first :
      (a : Arrival) (p : HeaderPart) (buf : Bytes) (hs : List (Bytes × Bytes))
      (parts : List MultiPart)
      → is_value_part p ≡ false
      → values a.value_rest (
          on_multipart_header_value B a.value_start
            (fields a.name_rest (in_part p (a.first ∷ a.name_start) [] hs buf parts)))
        ≡ in_part header_value_part (name_of a) (value_of a) hs buf parts
  unfolding on_multipart_header_value on_header_value
  after_first a p buf hs parts h =
      ap (λ s. values a.value_rest (on_multipart_header_value B a.value_start s))
        (fields-in_part a.name_rest p (a.first ∷ a.name_start) [] buf hs parts h)
      ∙ ap (values a.value_rest) (begun p)
      ∙ values-in_part a.value_rest (name_of a) a.value_start buf hs parts
    where
      begun :
          (p : HeaderPart)
          → on_multipart_header_value B a.value_start (in_part p (name_of a) [] hs buf parts)
            ≡ in_part header_value_part (name_of a) a.value_start hs buf parts
      begun header_none_part = refl
      begun header_field_part = refl
      begun header_value_part = refl

  receive_header-first :
      (a : Arrival) (p : HeaderPart) (buf : Bytes) (hs : List (Bytes × Bytes))
      (parts : List MultiPart)
      → is_value_part p ≡ false
      → receive_header a (in_part p [] [] hs buf parts)
        ≡ in_part header_value_part (name_of a) (value_of a) hs buf parts
  unfolding receive_header on_multipart_header_field
  receive_header-first a p buf hs parts h = rw h (after_first a p buf hs parts h)

  receive_header-next :
      (a : Arrival) (name value buf : Bytes) (hs : List (Bytes × Bytes)) (parts : List MultiPart)
      → is_empty name ≡ false
      → find B.iless name hs ≡ none
      → receive_header a (in_part header_value_part name value hs buf parts)
        ≡ in_part header_value_part
            (name_of a)
            (value_of a)
            (insert B.iless name value hs)
            buf
            parts
  unfolding receive_header on_multipart_header_field append_header
  receive_header-next a name value buf hs parts named new =
      rw (named, new)
        (after_first a header_field_part buf (insert B.iless name value hs) parts refl)

  -- The headers of a part, up to their end.
  receive_headers-pending :
      (as' : List Arrival) (a : Arrival) (buf : Bytes) (hs : List (Bytes × Bytes))
      (parts : List MultiPart)
      → AreNew B (a ∷ as') hs
      → on_multipart_headers_complete B
          (receive_headers as' (in_part header_value_part (name_of a) (value_of a) hs buf parts))
        ≡ in_part header_none_part [] [] (inserted B (a ∷ as') hs) buf parts
  unfolding receive_headers on_multipart_headers_complete append_header
  receive_headers-pending [] a buf hs parts (new, _) =
      rw (is_empty-joined a.first a.name_start a.name_rest, new) refl
  receive_headers-pending (b ∷ as') a buf hs parts (new, later) =
      ap (λ s. on_multipart_headers_complete B (receive_headers as' s))
        (receive_header-next b (name_of a) (value_of a) buf hs parts
          (is_empty-joined a.first a.name_start a.name_rest) new)
      ∙ receive_headers-pending as' b buf (insert B.iless (name_of a) (value_of a) hs) parts later

  receive_headers-inserted :
      (as' : List Arrival) (parts : List MultiPart)
      → AreNew B as' []
      → on_multipart_headers_complete B (receive_headers as' (between parts))
        ≡ in_part header_none_part [] [] (inserted B as' []) [] parts
  unfolding receive_headers on_multipart_headers_complete
  receive_headers-inserted [] parts new = refl
  receive_headers-inserted (a ∷ as') parts new =
      ap (λ s. on_multipart_headers_complete B (receive_headers as' s))
        (receive_header-first a header_none_part [] [] parts refl)
      ∙ receive_headers-pending as' a [] [] parts new

  abbrev pub whole_part : PartArrival → MultiPart
  whole_part p = record {
    headers = inserted B p.part_headers [];
    data' = joined [] p.pieces;
    transfer_result = transfer_none;
  }

  receive_part-whole :
      (p : PartArrival) (parts : List MultiPart)
      → AreNew B p.part_headers []
      → receive_part p (between parts) ≡ between (parts ++ whole_part p ∷ [])
  unfolding receive_part on_multipart_data_begin on_multipart_data_end
  receive_part-whole p parts new =
      ap (λ s. on_multipart_data_end (datas p.pieces s))
        (receive_headers-inserted p.part_headers parts new)
      ∙ ap on_multipart_data_end (datas-in_part p.pieces (inserted B p.part_headers []) [] parts)

  -- Where no part is being read, parts, in each of which the names of the headers differ, are put
  -- together from their pieces, however these are cut: each is handed to the request once, in order,
  -- with its headers and its data, and nothing is left over.
  pub receive_parts-whole :
      (ps : List PartArrival) (parts : List MultiPart)
      → All (λ p. AreNew B p.part_headers []) ps
      → receive_parts ps (between parts) ≡ between (parts ++ map whole_part ps)
  unfolding receive_parts
  receive_parts-whole [] parts h = ap between (sym (append-nil parts))
  receive_parts-whole (p ∷ ps) parts (h, hs) =
      ap (receive_parts ps) (receive_part-whole p parts h)
      ∙ receive_parts-whole ps (parts ++ whole_part p ∷ []) hs
      ∙ ap between (append_assoc parts (whole_part p ∷ []) (map whole_part ps))
