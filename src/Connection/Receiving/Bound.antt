-- ===== src/Connection/Receiving/Bound.antt =====
-- connection.cpp, on_body: what the buffer of the body holds at most.
use da4qi.Base.{
  ◌+◌, ◌/◌, [], ◌∷◌, ◌++◌, Bool-cases, true, false, ltb, ◌==◌, Option, none, some, Bytes, length,
  codes, drop, length-append, inl, inr, ◌⊎◌, ◌≡◌, refl, sym, ap, subst, ◌∙◌, arith,
}
use da4qi.Router.Order.{starts_with}
use da4qi.Request.ContentType.{find_text}
use da4qi.Connection.Receiving.{MultipartParser, Receiving}
use da4qi.Connection.Receiving.Body.{
  on_body, do_multipart_parse, execute_with, with_parser, multipart_of, fix_with,
  try_fix_multipart_bad_request_without_boundary, upload_max_size_limit_kb, init_multipart_parser,
}
use da4qi.Connection.Receiving.Limit.{fits, on_body-fits, on_body-too_large, with_body}

module _ {S : Type 0} (P : MultipartParser S) where
  -- The application is the same, and the buffer too, or it is empty.
  abbrev Parsed : Receiving S → Receiving S → Type 0
  Parsed s t = (t.app ≡ s.app) × ((t.body_buffer ≡ s.body_buffer) ⊎ (t.body_buffer ≡ []))

  fix_with-keeps :
      (behind : Bytes) (o : Option Bytes) (s : Receiving S)
      → ((fix_with P behind o s).app ≡ s.app)
        × ((fix_with P behind o s).body_buffer ≡ s.body_buffer)
  unfolding fix_with init_multipart_parser
  fix_with-keeps behind none s = (refl, refl)
  fix_with-keeps behind (some rest) s = (refl, refl)

  with_parser-keeps :
      (o : Option S) (s : Receiving S)
      → ((with_parser P o s).app ≡ s.app) × ((with_parser P o s).body_buffer ≡ s.body_buffer)
  unfolding with_parser try_fix_multipart_bad_request_without_boundary
  with_parser-keeps (some p) s = (refl, refl)
  with_parser-keeps none s = elim (Bool-cases (starts_with s.body_buffer (codes "--"))) [
    | inl h ↦ rw h (
        fix_with-keeps (drop 2 s.body_buffer)
          (find_text (b'\r' ∷ b'\n' ∷ []) (drop 2 s.body_buffer)) s)
    | inr h ↦ rw h (refl, refl)
  ]

  execute_with-Parsed : (o : Option S) (s : Receiving S) → Parsed s (execute_with P o s).1
  unfolding execute_with
  execute_with-Parsed none s = (refl, inl refl)
  execute_with-Parsed (some p) s =
      let (p', m, parsed_bytes) = P.execute p s.body_buffer (multipart_of s) in
      elim (Bool-cases (parsed_bytes == length s.body_buffer)) [
        | inl h ↦ rw h (refl, inr refl)
        | inr h ↦ rw h (refl, inl refl)
      ]

  do_multipart_parse-Parsed : (s : Receiving S) → Parsed s (do_multipart_parse P s).1
  unfolding do_multipart_parse
  do_multipart_parse-Parsed s =
      let (app, buffer) = with_parser-keeps s.mp_parser s in
      let ready = with_parser P s.mp_parser s in
      let (executed, outcome) = execute_with-Parsed ready.mp_parser ready in
      (executed ∙ app, elim outcome [ inl e ↦ inl (e ∙ buffer) | inr e ↦ inr e ])

  -- What fits with a piece still fits after the parser ran.
  fits-Parsed :
      (p : Bytes) (s t : Receiving S)
      → Parsed (with_body P s (s.body_buffer ++ p)) t
      → fits s.app (length s.body_buffer + length p) ≡ true
      → fits t.app (length t.body_buffer) ≡ true
  fits-Parsed p s t (app, outcome) within =
      ap (λ a. fits a (length t.body_buffer)) app ∙ elim outcome [
        | inl kept ↦
            ap (λ b. fits s.app (length b)) kept
            ∙ ap (fits s.app) (length-append s.body_buffer p)
            ∙ within
        | inr cleared ↦ ap (λ b. fits s.app (length b)) cleared ∙ (ground arith)
      ]

  on_body-parts :
      (p : Bytes) (s : Receiving S)
      → s.request.content.is_multipart ≡ true
      → fits s.app (length s.body_buffer + length p) ≡ true
      → (on_body P p s).1 ≡ (do_multipart_parse P (with_body P s (s.body_buffer ++ p))).1
  unfolding on_body
  on_body-parts p s parts h =
      let within : ltb (upload_max_size_limit_kb s.app) ((length s.body_buffer + length p) / 1024)
          ≡ false =
        ground arith in
      rw (within, parts) refl

  -- Whatever arrives, in parts or not, and whether it is accepted or refused: the size in KB of what the buffer
  -- of the body holds stays within the limit of the application.
  pub on_body-fits_kept :
      (p : Bytes) (s : Receiving S)
      → fits s.app (length s.body_buffer) ≡ true
      → let after = (on_body P p s).1 in fits after.app (length after.body_buffer) ≡ true
  on_body-fits_kept p s h = elim (Bool-cases (fits s.app (length s.body_buffer + length p))) [
    | inr beyond ↦
        subst (λ r. fits r.1.app (length r.1.body_buffer) ≡ true)
          (sym (on_body-too_large P p s beyond)) h
    | inl within ↦ elim (Bool-cases s.request.content.is_multipart) [
      | inl parts ↦
          subst (λ t. fits t.app (length t.body_buffer) ≡ true)
            (sym (on_body-parts p s parts within))
            (fits-Parsed p s (do_multipart_parse P (with_body P s (s.body_buffer ++ p))).1
              (do_multipart_parse-Parsed (with_body P s (s.body_buffer ++ p))) within)
      | inr plain ↦
          subst (λ r. fits r.1.app (length r.1.body_buffer) ≡ true)
            (sym (on_body-fits P p s plain within))
            (ap (fits s.app) (length-append s.body_buffer p) ∙ within)
    ]
  ]
