-- ===== src/Tests/Form.antt =====
-- A form of two fields in pieces, and its transfer.
use da4qi.Base.{[], ◌∷◌, ◌++◌, false, some, Bytes, codes, ◌≡◌, refl}
use da4qi.Router.Order.{lexicographical_compare}
use da4qi.Router.Map.{find, insert}
use da4qi.Connection.Arrivals.{Arrival, AreNew}
use da4qi.Connection.Multipart.Parts.{between, receive_parts, whole_part, receive_parts-whole}
use da4qi.Request.FormData.{SaveOptions, always_save, Disk}
use da4qi.Request.Fields.{IsField, field_items, field_taken, transfer_multiparts-fields}
use da4qi.Request.FormData.{transfer_multiparts}
use da4qi.Request.Arrival.{FieldArrival, received_field, received_field-first}
use da4qi.Tests.Boost.{c_locale}
use da4qi.Tests.BoostStrings.{c_strings}

-- The headers `Content-Disposition` and `Content-Type` of a part, cut.
abbrev disposition_of : Bytes → Arrival
disposition_of name = record {
  first = b'C';
  name_start = codes "ontent-Dis";
  name_rest = codes "position" ∷ [];
  value_start = codes "form-data; na";
  value_rest = (codes "me=" ++ b'"' ∷ name) ∷ (b'"' ∷ []) ∷ [];
}

abbrev plain_type : Arrival
plain_type = record {
  first = b'C';
  name_start = codes "ontent-Type";
  name_rest = [];
  value_start = codes "text/plain";
  value_rest = [];
}

abbrev city : FieldArrival
city = (
  codes "city",
  record {
    part_headers = disposition_of (codes "city") ∷ [];
    pieces = codes "Fu" ∷ codes "zhou" ∷ [];
  },
)

abbrev street : FieldArrival
street = (
  codes "street",
  record {
    part_headers = disposition_of (codes "street") ∷ plain_type ∷ [];
    pieces = codes "a" ∷ codes "=b;" ∷ [];
  },
)

city_new : AreNew c_locale city.1.part_headers []
unfolding find insert lexicographical_compare
city_new = (refl, tt)

street_new : AreNew c_locale street.1.part_headers []
unfolding find insert lexicographical_compare
street_new = (refl, (refl, tt))

receive_parts-whole_example :
    receive_parts c_locale (city.1 ∷ street.1 ∷ []) (between [])
    ≡ between (whole_part c_locale city.1 ∷ whole_part c_locale street.1 ∷ [])
receive_parts-whole_example =
    receive_parts-whole c_locale (city.1 ∷ street.1 ∷ []) [] (city_new, (street_new, tt))

city-IsField : IsField c_locale c_strings (codes "city") (whole_part c_locale city.1)
unfolding find insert lexicographical_compare
city-IsField = (
  (((refl, refl, refl), ((refl, refl, refl), ((refl, refl, refl), ((refl, refl, refl), tt))))),
  refl,
  refl,
)

street-IsField : IsField c_locale c_strings (codes "street") (whole_part c_locale street.1)
unfolding find insert lexicographical_compare
street-IsField = (
  ((
    (refl, refl, refl),
    (
      (refl, refl, refl),
      ((refl, refl, refl), ((refl, refl, refl), ((refl, refl, refl), ((refl, refl, refl), tt)))),
    ),
  )),
  refl,
  refl,
)

abbrev no_disk : Disk
no_disk = record {
  extension = λ f. [];
  temporary_name = λ n e d. [];
  save_data_to_file = λ d f. false;
}

abbrev saving : SaveOptions
saving = record { strategy = always_save; size_base_kb = 0; extensions = [] }

transfer_multiparts-fields_test :
    transfer_multiparts c_locale c_strings saving no_disk
      (codes "/up")
      0
      (whole_part c_locale city.1 ∷ whole_part c_locale street.1 ∷ [])
      []
    ≡ (
      field_taken c_locale c_strings (whole_part c_locale city.1)
          ∷ field_taken c_locale c_strings (whole_part c_locale street.1)
          ∷ [],
      field_items c_locale c_strings (
          (codes "city", whole_part c_locale city.1)
          ∷ (codes "street", whole_part c_locale street.1)
          ∷ []),
    )
transfer_multiparts-fields_test =
    transfer_multiparts-fields c_locale c_strings saving no_disk (codes "/up") 0
      ((codes "city", whole_part c_locale city.1)
        ∷ (codes "street", whole_part c_locale street.1)
        ∷ [])
      [] (city-IsField, (street-IsField, tt))

-- The second field is found behind the first.
received_field-first_example :
    received_field c_locale c_strings saving no_disk
      (codes "/up")
      (city ∷ street ∷ [])
      (codes "street")
    ≡ some (codes "a=b;")
received_field-first_example =
    received_field-first c_locale c_strings saving no_disk (codes "/up") (city ∷ [])
      (codes "street") street.1 [] ((city_new, city-IsField), ((street_new, street-IsField), tt))
      (refl, tt)
