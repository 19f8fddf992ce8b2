-- ===== src/Utilities/Parameters/Form.antt =====
-- A form of plain text, one pair in each line.
use da4qi.Base.{
  List, [], ◌∷◌, ◌++◌, append_assoc, append-nil, map, false, Bytes, All, All-append, is_empty,
  if◌then◌else◌, ◌≡◌, refl, sym, ap, ap₂, ◌∙◌, arith,
}
use da4qi.Router.Order.{lexicographical_compare, lexicographical_compare-IsStrictWeakOrder}
use da4qi.Router.Map.{insert, find}
use da4qi.Router.Inserts.{insert_all, find-insert_all}
use da4qi.Utilities.Strings.{StringAlgorithms, IsFree, joined, keep_space, trim_on_options}
use da4qi.Utilities.Strings
use da4qi.Utilities.Parameters.{
  read_lines, split_by_line, insert_form, form_loop, parse_plain_text_form_data,
}
use da4qi.Utilities.Parameters.Written.{
  pair_text, AreTokens, no_separator, no_equals, no_space, split-pair_text, trim-plain,
}

abbrev pub form_line : Bytes × Bytes → Bytes
form_line (k, v) = pair_text k v

abbrev pub form : Bytes × Bytes → List (Bytes × Bytes) → Bytes
form pair pairs = joined b'\n' (form_line pair) (map form_line pairs)

read_lines-ended :
    (line s rest : Bytes)
    → IsFree b'\n' s
    → read_lines line (s ++ b'\n' ∷ rest) ≡ (line ++ s) ∷ read_lines [] rest
unfolding read_lines
read_lines-ended line [] rest h = ap (λ l. l ∷ read_lines [] rest) (sym (append-nil line))
read_lines-ended line (x ∷ s) rest (h, hs) = rw h (
    read_lines-ended (line ++ x ∷ []) s rest hs
    ∙ ap (λ l. l ∷ read_lines [] rest) (append_assoc line (x ∷ []) s))

read_lines-last : (line s : Bytes) → IsFree b'\n' s → read_lines line s ≡ read_lines (line ++ s) []
unfolding read_lines
read_lines-last line [] h = ap (λ l. read_lines l []) (sym (append-nil line))
read_lines-last line (x ∷ s) (h, hs) = rw h (
    read_lines-last (line ++ x ∷ []) s hs
    ∙ ap (λ l. read_lines l []) (append_assoc line (x ∷ []) s))

read_lines-filled : (k v : Bytes) → read_lines (pair_text k v) [] ≡ pair_text k v ∷ [] ∷ []
unfolding read_lines
read_lines-filled [] v = refl
read_lines-filled (x ∷ k) v = refl

module _ (B : StringAlgorithms) where
  form_line_one : (pair : Bytes × Bytes) → AreTokens B b'\n' pair → IsFree b'\n' (form_line pair)
  form_line_one (k, v) (hk, hv) =
      All-append _ k (b'=' ∷ v) (no_separator B b'\n' k hk) (refl, no_separator B b'\n' v hv)

  -- The lines of a form, and the empty one behind them.
  read_lines-form :
      (pair : Bytes × Bytes) (pairs : List (Bytes × Bytes))
      → All (AreTokens B b'\n') (pair ∷ pairs)
      → read_lines [] (form pair pairs) ≡ map form_line (pair ∷ pairs) ++ [] ∷ []
  read_lines-form (k, v) [] (h, hs) =
      read_lines-last [] (pair_text k v) (form_line_one (k, v) h) ∙ read_lines-filled k v
  read_lines-form pair (next ∷ pairs) (h, hs) =
      read_lines-ended [] (form_line pair) (form next pairs) (form_line_one pair h)
      ∙ ap (λ l. form_line pair ∷ l) (read_lines-form next pairs hs)

  kept_lines : (lines : List Bytes) → map (trim_on_options B keep_space) lines ≡ lines
  unfolding trim_on_options
  kept_lines [] = refl
  kept_lines (line ∷ lines) = ap (λ l. line ∷ l) (kept_lines lines)

  trim-form_line : (k v : Bytes) → AreTokens B b'\n' (k, v) → B.trim (pair_text k v) ≡ pair_text k v
  trim-form_line k v (hk, hv) = trim-plain B (pair_text k v) (
      All-append _ k (b'=' ∷ v) (no_space B b'\n' k hk)
        (B.graphic_law b'=' (omega arith) (omega arith), no_space B b'\n' v hv))

  insert_form-pair :
      (k v : Bytes) (m : List (Bytes × Bytes))
      → AreTokens B b'\n' (k, v)
      → insert_form B (Strings.split B (pair_text k v) b'=' keep_space) m
        ≡ insert lexicographical_compare k v m
  unfolding insert_form Strings.split
  insert_form-pair k v m (hk, hv) =
      ap (λ parts. insert_form B parts m)
        (split-pair_text B k v (no_equals B b'\n' k hk) (no_equals B b'\n' v hv))
      ∙ ap₂ (λ x y. insert lexicographical_compare x y m) (trim-plain B k (no_space B b'\n' k hk))
          (trim-plain B v (no_space B b'\n' v hv))

  pair_text-filled : (k v : Bytes) → is_empty (pair_text k v) ≡ false
  pair_text-filled [] v = refl
  pair_text-filled (x ∷ k) v = refl

  form_loop-pair :
      (k v : Bytes) (lines : List Bytes) (m : List (Bytes × Bytes))
      → AreTokens B b'\n' (k, v)
      → form_loop B (pair_text k v ∷ lines) m
        ≡ form_loop B lines (insert lexicographical_compare k v m)
  unfolding form_loop
  form_loop-pair k v lines m h =
      ap
        (λ part.
          form_loop B lines
            (if is_empty part then m else insert_form B (Strings.split B part b'=' keep_space) m))
        (trim-form_line k v h)
      ∙ ap
          (λ b.
            form_loop B lines
              (if b then m else insert_form B (Strings.split B (pair_text k v) b'=' keep_space) m))
          (pair_text-filled k v)
      ∙ ap (form_loop B lines) (insert_form-pair k v m h)

  form_loop-pairs :
      (pairs m : List (Bytes × Bytes))
      → All (AreTokens B b'\n') pairs
      → form_loop B (map form_line pairs ++ [] ∷ []) m ≡ insert_all lexicographical_compare pairs m
  unfolding form_loop insert_all
  form_loop-pairs [] m h =
      ap
        (λ part.
          if is_empty part then m else insert_form B (Strings.split B part b'=' keep_space) m)
        (trim-plain B [] tt)
  form_loop-pairs ((k, v) ∷ pairs) m (h, hs) =
      form_loop-pair k v (map form_line pairs ++ [] ∷ []) m h
      ∙ form_loop-pairs pairs (insert lexicographical_compare k v m) hs

  -- A form of names and values without line ends, equals signs and spaces, one pair in each line, is
  -- parsed to a map in which each name has the first value that was written for it, and nothing
  -- else is found.
  pub find-parse_plain_text_form_data :
      (pair : Bytes × Bytes) (pairs : List (Bytes × Bytes)) (name : Bytes)
      → All (AreTokens B b'\n') (pair ∷ pairs)
      → find lexicographical_compare name (parse_plain_text_form_data B (form pair pairs))
        ≡ find lexicographical_compare name (pair ∷ pairs)
  unfolding parse_plain_text_form_data split_by_line find
  find-parse_plain_text_form_data pair pairs name h =
      ap (λ lines. find lexicographical_compare name (form_loop B lines []))
        (kept_lines (read_lines [] (form pair pairs)) ∙ read_lines-form pair pairs h)
      ∙ ap (find lexicographical_compare name) (form_loop-pairs (pair ∷ pairs) [] h)
      ∙ find-insert_all lexicographical_compare lexicographical_compare-IsStrictWeakOrder name
          (pair ∷ pairs) [] tt
