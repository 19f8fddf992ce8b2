-- ===== src/Request/Arrival.antt =====
-- A form that the parser hands over in pieces, up to the field that a handler asks for.
use da4qi.Base.{List, [], ◌∷◌, ◌++◌, map, Option, false, some, Bytes, All, ◌≡◌, refl, ap, ◌∙◌}
use da4qi.Router.Order.{Algorithms}
use da4qi.Utilities.Strings.{StringAlgorithms}
use da4qi.Connection.Arrivals.{AreNew, joined}
use da4qi.Connection.Multipart.{MultiPart, Multipart}
use da4qi.Connection.Multipart.Parts.{
  PartArrival, between, receive_parts, whole_part, receive_parts-whole,
}
use da4qi.Request.FormData.{SaveOptions, Disk, transfer_multiparts, try_get_form_data}
use da4qi.Request.Fields.{
  IsField, field_parts, field_items, transfer_multiparts-fields, try_get_form_data-first,
}

-- A field and the pieces of its part.
abbrev pub FieldArrival : Type 0
FieldArrival = Bytes × PartArrival

module _ (A : Algorithms) (B : StringAlgorithms) where
  -- The headers of the part differ, and its disposition is that of the field.
  abbrev pub ArrivesAs : FieldArrival → Type 0
  ArrivesAs (name, p) = AreNew A p.part_headers [] × IsField A B name (whole_part A p)

  abbrev whole_field : FieldArrival → Bytes × MultiPart
  whole_field (name, p) = (name, whole_part A p)

  new_parts :
      (fs : List FieldArrival)
      → All ArrivesAs fs
      → All (λ p. AreNew A p.part_headers []) (map (λ f. f.1) fs)
  new_parts [] h = tt
  new_parts (f ∷ fs) ((new, _), hs) = (new, new_parts fs hs)

  whole_fields :
      (fs : List FieldArrival)
      → All ArrivesAs fs
      → All (λ f. IsField A B f.0 f.1) (map whole_field fs)
  whole_fields [] h = tt
  whole_fields (f ∷ fs) ((_, field), hs) = (field, whole_fields fs hs)

  whole_parts :
      (fs : List FieldArrival)
      → map (whole_part A) (map (λ f. f.1) fs) ≡ field_parts A B (map whole_field fs)
  whole_parts [] = refl
  whole_parts (f ∷ fs) = ap (λ l. whole_part A f.1 ∷ l) (whole_parts fs)

  map-append :
      (fs gs : List FieldArrival)
      → map whole_field (fs ++ gs) ≡ map whole_field fs ++ map whole_field gs
  map-append [] gs = refl
  map-append (f ∷ fs) gs = ap (λ l. whole_field f ∷ l) (map-append fs gs)

  other_names :
      (name : Bytes) (fs : List FieldArrival)
      → All (λ f. A.iequals f.0 name ≡ false) fs
      → All (λ f. A.iequals f.0 name ≡ false) (map whole_field fs)
  other_names name [] h = tt
  other_names name (f ∷ fs) (h, hs) = (h, other_names name fs hs)

  -- What the request finds under the name when all parts were handed over and transferred.
  abbrev pub received_field : SaveOptions → Disk → Bytes → List FieldArrival → Bytes → Option Bytes
  received_field options disk dir fs name =
      let received : Multipart = receive_parts A (map (λ f. f.1) fs) (between []) in
      try_get_form_data A B name
        (transfer_multiparts A B options disk dir 0 received.multiparts []).1

  -- A form of parts that are fields, each with headers of different names and a disposition that is
  -- "form-data" and a name in quotes, which is not empty and has no semicolons, equals signs and
  -- spaces, gives a handler that asks for a name the data of the first field with that name, as they
  -- were sent, however the headers and the data of the parts were cut.
  pub received_field-first :
      (options : SaveOptions) (disk : Disk) (dir : Bytes) (before : List FieldArrival)
      (name : Bytes) (p : PartArrival) (after : List FieldArrival)
      → All ArrivesAs (before ++ (name, p) ∷ after)
      → All (λ f. A.iequals f.0 name ≡ false) before
      → received_field options disk dir (before ++ (name, p) ∷ after) name
        ≡ some (joined [] p.pieces)
  received_field-first options disk dir before name p after h others =
      let fs : List FieldArrival = before ++ (name, p) ∷ after in
      let get = λ (parts : List MultiPart).
        try_get_form_data A B name (transfer_multiparts A B options disk dir 0 parts []).1 in
      ap (λ (r : Multipart). get r.multiparts)
        (receive_parts-whole A (map (λ f. f.1) fs) [] (new_parts fs h))
      ∙ ap get (whole_parts fs)
      ∙ ap (λ r. try_get_form_data A B name r.1)
          (transfer_multiparts-fields A B options disk dir 0 (map whole_field fs) []
            (whole_fields fs h))
      ∙ ap (λ l. try_get_form_data A B name (field_items A B l))
          (map-append before ((name, p) ∷ after))
      ∙ try_get_form_data-first A B (map whole_field before) name (whole_part A p)
          (map whole_field after) (other_names name before others)
