-- ===== src/Request/Fields.antt =====
-- The fields of a form that arrives in parts: what names them, and where their data goes.
use da4qi.Base.{
  inl, inr, ℕ, suc, ◌+◌, ◌-◌, ◌≤◌, List, [], ◌∷◌, ◌++◌, append_assoc, append-nil, map, true, false,
  if◌then◌else◌, ◌==◌, none, some, Bytes, codes, is_empty, length, length-append, take, drop, leb,
  ◌&&◌, take-length-append, drop-length-append, All, All-append, ◌≡◌, refl, sym, ap, ap₂, ◌∙◌,
  arith,
}
use da4qi.Router.Order.{
  Algorithms, equal, equal_refl, starts_with, tail_is, not_equal→less, iless-IsStrictWeakOrder,
}
use da4qi.Router.Map.{find, insert}
use da4qi.Utilities.Strings.{StringAlgorithms, IsFree}
use da4qi.Utilities.Strings
use da4qi.Utilities.Parameters.{header_or_empty}
use da4qi.Utilities.Parameters.Written.{
  IsToken, pair_text, no_separator, no_space, trim-plain, trim-after_space,
}
use da4qi.Connection.Multipart.{MultiPart, tranfer_formdata}
use da4qi.Request.FormData.{
  SaveOptions, Disk, save_item, transfer_multiparts, try_get_form_data, SubHeaders, FormDataItem,
  is_data, cut_at, unquoted, add_sub_header, sub_headers_loop, get_sub_headers, named_item,
  transfer_part,
}

abbrev pub quoted : Bytes → Bytes
quoted v = b'"' ∷ (v ++ b'"' ∷ [])

-- `form-data; name="..."`.
abbrev pub disposition : Bytes → Bytes
disposition name = codes "form-data" ++ b';' ∷ (b' ' ∷ pair_text (codes "name") (quoted name))

-- The size of a quoted text, less both quotes, and less the last one.
size-quoted : (v : Bytes) → length (quoted v) ≡ suc (suc (length v))
size-quoted v = omega (arith, length-append v (b'"' ∷ []))

two-quoted : (v : Bytes) (k : ℕ) → k ≤ 2 → leb k (length (quoted v)) ≡ true
two-quoted v k h = ground (arith, size-quoted v)

tail_is-quoted : (v : Bytes) → tail_is (quoted v) (b'"' ∷ []) ≡ true
tail_is-quoted v =
    let less : length (quoted v) - 1 ≡ suc (length v) = omega (arith, size-quoted v) in
    ap₂ (λ b n. b && equal (drop n (quoted v)) (b'"' ∷ [])) (two-quoted v 1 (ground arith)) less
    ∙ ap (λ l. equal l (b'"' ∷ [])) (drop-length-append v (b'"' ∷ []))

pub unquoted-quoted : (v : Bytes) → unquoted (quoted v) ≡ v
unfolding starts_with
unquoted-quoted v =
    let less : length (quoted v) - 2 ≡ length v = omega (arith, size-quoted v) in
    ap₂
      (λ b c.
        if b && starts_with (quoted v) (b'"' ∷ []) && c
        then take (length (quoted v) - 2) (drop 1 (quoted v))
        else quoted v)
      (two-quoted v 2 (ground arith)) (tail_is-quoted v)
    ∙ ap (λ n. take n (drop 1 (quoted v))) less
    ∙ take-length-append v (b'"' ∷ [])

module _ (A : Algorithms) (B : StringAlgorithms) where
  name-IsFree :
      (name : Bytes)
      → IsToken B b';' name
      → IsFree b';' (b' ' ∷ pair_text (codes "name") (quoted name))
  name-IsFree name h = (
    refl,
    (
      refl,
      (
        refl,
        (
          refl,
          (
            refl,
            (
              refl,
              (
                refl,
                All-append (λ x. (x == b';') ≡ false) name (b'"' ∷ []) (no_separator B b';' name h)
                    (refl, tt),
              ),
            ),
          ),
        ),
      ),
    ),
  )

  split-disposition :
      (name : Bytes)
      → IsToken B b';' name
      → Strings.split B (disposition name) b';' Strings.keep_space
        ≡ codes "form-data" ∷ (b' ' ∷ pair_text (codes "name") (quoted name)) ∷ []
  unfolding Strings.split Strings.trim_on_options
  split-disposition name h =
      B.split_law b';' (codes "form-data") ((b' ' ∷ pair_text (codes "name") (quoted name)) ∷ []) (
        (refl, (refl, (refl, (refl, (refl, (refl, (refl, (refl, (refl, tt))))))))),
        (name-IsFree name h, tt),
      )

  trim-quoted : (name : Bytes) → IsToken B b';' name → B.trim (quoted name) ≡ quoted name
  trim-quoted name h =
      let graphic = B.graphic_law b'"' (ground arith) (ground arith) in
      trim-plain B (quoted name) (
        graphic,
        All-append (λ x. B.is_space x ≡ false) name (b'"' ∷ []) (no_space B b';' name h)
            (graphic, tt),
      )

  trim-name : B.trim (codes " name") ≡ codes "name"
  trim-name = trim-after_space B (codes "name") (
    B.graphic_law b'n' (ground arith) (ground arith),
    (
      B.graphic_law b'a' (ground arith) (ground arith),
      (
        B.graphic_law b'm' (ground arith) (ground arith),
        (B.graphic_law b'e' (ground arith) (ground arith), tt),
      ),
    ),
  )

  add_sub_header-name :
      (name : Bytes) (h : SubHeaders)
      → IsToken B b';' name
      → add_sub_header A B
          (b' ' ∷ pair_text (codes "name") (quoted name))
          (cut_at b'=' (b' ' ∷ pair_text (codes "name") (quoted name)))
          h
        ≡ record h { sub_headers = insert A.iless (codes "name") name h.sub_headers }
  unfolding add_sub_header
  add_sub_header-name name h token =
      rw (trim-name, trim-quoted name token, unquoted-quoted name) refl

  get_sub_headers-disposition :
      (name : Bytes) (part : MultiPart)
      → IsToken B b';' name
      → find A.iless (codes "Content-Disposition") part.headers ≡ some (disposition name)
      → get_sub_headers A B (codes "Content-Disposition") part
        ≡ record { value = codes "form-data"; sub_headers = (codes "name", name) ∷ [] }
  unfolding get_sub_headers sub_headers_loop insert add_sub_header
  get_sub_headers-disposition name part token found =
      rw (found, split-disposition name token)
        (add_sub_header-name name (record { value = codes "form-data"; sub_headers = [] }) token)

  -- A part that is a field of the form: its disposition has a name and nothing else.
  abbrev pub IsField : Bytes → MultiPart → Type 0
  IsField name part =
      IsToken B b';' name
      × (is_empty name ≡ false)
      × (find A.iless (codes "Content-Disposition") part.headers ≡ some (disposition name))

  abbrev pub field_item : Bytes → MultiPart → FormDataItem
  field_item name part = record {
    name = name;
    data_flag = is_data;
    filename = [];
    content_type = header_or_empty B A (find A.iless (codes "Content-Type") part.headers);
    data' = part.data';
  }

  abbrev pub field_taken : MultiPart → MultiPart
  field_taken part = record part { data' = []; transfer_result = tranfer_formdata }

  no_filename : (name : Bytes) → find A.iless (codes "filename") ((codes "name", name) ∷ []) ≡ none
  unfolding find
  no_filename name =
      elim (not_equal→less (map A.upper (codes "filename")) (map A.upper (codes "name"))
        (ground arith)) [
          | inl h ↦ rw (A.iless_law (codes "filename") (codes "name") ∙ h) refl
          | inr h ↦ rw (A.iless_law (codes "name") (codes "filename") ∙ h) (ground arith)
        ]

  found_name : (name : Bytes) → find A.iless (codes "name") ((codes "name", name) ∷ []) ≡ some name
  unfolding find
  found_name name = rw ((iless-IsStrictWeakOrder A).irrefl (codes "name")) refl

  iequals_refl : (a : Bytes) → A.iequals a a ≡ true
  iequals_refl a = A.iequals_law a a ∙ equal_refl (map A.upper a)

  transfer_part-field :
      (name : Bytes) (part : MultiPart)
      → IsField name part
      → transfer_part A B part ≡ (field_taken part, field_item name part, true)
  unfolding transfer_part named_item
  transfer_part-field name part (token, named, found) =
      rw
        (
          get_sub_headers-disposition name part token found,
          found_name name,
          no_filename name,
          iequals_refl (codes "form-data"),
          named,
        )
        refl

  -- The parts of the fields, and the items and the parts that the transfer leaves.
  abbrev pub field_parts : List (Bytes × MultiPart) → List MultiPart
  field_parts fs = map (λ f. f.1) fs

  abbrev pub field_items : List (Bytes × MultiPart) → List FormDataItem
  field_items fs = map (λ f. field_item f.0 f.1) fs

  pub transfer_multiparts-fields :
      (options : SaveOptions) (disk : Disk) (dir : Bytes) (index : ℕ)
      (fs : List (Bytes × MultiPart)) (formdata : List FormDataItem)
      → All (λ f. IsField f.0 f.1) fs
      → transfer_multiparts A B options disk dir index (field_parts fs) formdata
        ≡ (map (λ f. field_taken f.1) fs, formdata ++ field_items fs)
  unfolding transfer_multiparts save_item
  transfer_multiparts-fields options disk dir index [] formdata h =
      ap (λ l. ([], l)) (sym (append-nil formdata))
  transfer_multiparts-fields options disk dir index ((name, part) ∷ fs) formdata (h, hs) =
      rw
        (
          transfer_part-field name part h,
          transfer_multiparts-fields options disk dir (index + 1) fs
              (formdata ++ field_item name part ∷ []) hs,
        )
        (ap (λ l. (map (λ f. field_taken f.1) ((name, part) ∷ fs), l))
          (append_assoc formdata (field_item name part ∷ []) (field_items fs)))

  pub try_get_form_data-first :
      (before : List (Bytes × MultiPart)) (name : Bytes) (part : MultiPart)
      (after : List (Bytes × MultiPart))
      → All (λ f. A.iequals f.0 name ≡ false) before
      → try_get_form_data A B name (field_items (before ++ (name, part) ∷ after)) ≡ some part.data'
  unfolding try_get_form_data
  try_get_form_data-first [] name part after h = rw (iequals_refl name) refl
  try_get_form_data-first (f ∷ before) name part after (h, hs) =
      rw (h, try_get_form_data-first before name part after hs) refl
