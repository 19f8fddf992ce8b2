-- ===== src/Redis/Parser/Scalars.antt =====
-- The replies that are no arrays are read as their values.
use da4qi.Base.{◌^◌, ◌<◌, [], ◌∷◌, refl, ap, ◌∙◌, Bytes, length, All}
use da4qi.Base.Int.{ℤ, pos, negsuc, IsInt64}
use da4qi.Base.Decimal.{to_string, to_string_ℤ, to_string-IsDigit, is_empty-to_string}
use da4qi.Redis.Value.{null_value, int_value, bytes_value, error_value}
use da4qi.Redis.Wire.{
  simple_string, error_line, number, bulk_string, null_bulk, null_array, line, wire, IsText,
}
use da4qi.Redis.Parser.{
  Parser, State, start, string, string_lf, error_string, error_lf, integer, integer_lf, bulk_size,
  bulk_size_lf, array_size, array_size_lf, next, handle, start_reply, finish_line, bulk_header,
  array_header, buf_to_long, is_digit, settle,
}
use da4qi.Redis.Parser.Numbers.{buf_to_long-to_string_ℤ}
use da4qi.Redis.Parser.Lines.{
  step_end, step_on, run_text, with_value, Reads, numerals, numerals_ℤ, is_empty-to_string_ℤ,
  IsStarting, read_number_line, read_bulk_header,
}

module _ (state : State) (starting : IsStarting state) where
  pub Reads-null : (p : Parser) → Reads state p (wire null_bulk) null_value
  unfolding wire handle settle
  Reads-null p rest = (
    [],
    negsuc 0,
    read_number_line state bulk_size bulk_size_lf b'$' p (record p { buf = []; bulk_size = pos 0 })
          (b'-' ∷ b'1' ∷ []) rest (starting b'$' p ∙ (unfold start_reply in refl)) refl
          (λ r c. refl) (λ r. refl) (λ r. refl) (unfold is_digit in (refl, (refl, tt))) refl
        ∙ step_end bulk_size_lf _ b'\n' _ rest (unfold bulk_header buf_to_long in refl),
  )

  pub Reads-int : (p : Parser) (i : ℤ) → IsInt64 i → Reads state p (wire (number i)) (int_value i)
  unfolding wire handle settle
  Reads-int p i h rest = (
    [],
    p.bulk_size,
    read_number_line state integer integer_lf b':' p (record p { buf = [] }) (to_string_ℤ i) rest
          (starting b':' p ∙ (unfold start_reply in refl)) refl (λ r c. refl) (λ r. refl)
          (λ r. refl) (numerals_ℤ i) (is_empty-to_string_ℤ i)
        ∙ step_end integer_lf _ b'\n' _ rest (
            ap (λ j. next start (with_value p [] p.bulk_size (int_value j)) [])
              (buf_to_long-to_string_ℤ i h)),
  )

  pub Reads-error :
      (p : Parser) (b : Bytes) → All IsText b → Reads state p (wire (error_line b)) (error_value b)
  unfolding wire handle settle
  Reads-error p b h rest =
      let q : Parser = record p { buf = [] } in
      (
        b,
        p.bulk_size,
        step_on state p b'-' error_string q (line b rest)
              (starting b'-' p ∙ (unfold start_reply in refl)) refl
            ∙ run_text error_string error_lf b (b'\n' ∷ rest) q (λ r c. refl) (λ r. refl)
                (λ r. refl) h
            ∙ step_end error_lf _ b'\n' _ rest (unfold finish_line in refl),
      )

  pub Reads-simple :
      (p : Parser) (b : Bytes)
      → All IsText b
      → Reads state p (wire (simple_string b)) (bytes_value b)
  unfolding wire handle settle
  Reads-simple p b h rest =
      let q : Parser = record p { buf = [] } in
      (
        b,
        p.bulk_size,
        step_on state p b'+' string q (line b rest) (starting b'+' p ∙ (unfold start_reply in refl))
              refl
            ∙ run_text string string_lf b (b'\n' ∷ rest) q (λ r c. refl) (λ r. refl) (λ r. refl) h
            ∙ step_end string_lf _ b'\n' _ rest (unfold finish_line in refl),
      )

  pub Reads-null_array : (p : Parser) → Reads state p (wire null_array) null_value
  unfolding wire handle settle
  Reads-null_array p rest = (
    b'-' ∷ b'1' ∷ [],
    p.bulk_size,
    read_number_line state array_size array_size_lf b'*' p (record p { buf = [] })
          (b'-' ∷ b'1' ∷ []) rest (starting b'*' p ∙ (unfold start_reply in refl)) refl
          (λ r c. refl) (λ r. refl) (λ r. refl) (unfold is_digit in (refl, (refl, tt))) refl
        ∙ step_end array_size_lf _ b'\n' _ rest (unfold array_header buf_to_long in refl),
  )

  pub Reads-bulk :
      (p : Parser) (b : Bytes)
      → length b < 2 ^ 63
      → Reads state p (wire (bulk_string b)) (bytes_value b)
  unfolding wire handle settle
  Reads-bulk p b h rest =
      let q : Parser = record p { buf = []; bulk_size = pos 0 } in
      (
        b,
        pos 0,
        read_number_line state bulk_size bulk_size_lf b'$' p q (to_string (length b)) (line b rest)
              (starting b'$' p ∙ (unfold start_reply in refl)) refl (λ r c. refl) (λ r. refl)
              (λ r. refl) (numerals (to_string (length b)) (to_string-IsDigit (length b)))
              (is_empty-to_string (length b))
            ∙ read_bulk_header p b rest h,
      )
