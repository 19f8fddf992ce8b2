-- ===== src/Connection/Receiving/Limit.antt =====
-- connection.cpp, on_body: the limit of an application for what is sent to it.
use da4qi.Base.{
  ℕ, ◌+◌, ◌/◌, ◌≤◌, List, [], ◌∷◌, ◌++◌, Bool, Bool-cases, true, false, if◌then◌else◌, ltb, leb,
  Option, Bytes, length, length-append, inl, inr, ◌≡◌, refl, sym, ap, ◌∙◌, arith,
}
use da4qi.Application.Manager.{App}
use da4qi.Connection.Arrivals.{joined}
use da4qi.Connection.Receiving.{MultipartParser, Receiving}
use da4qi.Connection.Receiving.Body.{
  Answer, hpe_ok, stop_with_payload_too_large, stop, upload_max_size_limit_kb, on_body,
}

-- The size in KB is within the limit of the application.
abbrev pub fits : Option App → ℕ → Bool
fits app size = leb (size / 1024) (upload_max_size_limit_kb app)

module _ {S : Type 0} (P : MultipartParser S) where
  -- The calls for the pieces of a body, up to the one at which llhttp is told to stop.
  continue_with : (Receiving S → Answer × Receiving S) → Answer × Receiving S → Answer × Receiving S
  continue_with f (hpe_ok, s) = f s
  continue_with f (stop_with_payload_too_large, s) = (stop_with_payload_too_large, s)
  continue_with f (stop, s) = (stop, s)

  pub receive_body : List Bytes → Receiving S → Answer × Receiving S
  receive_body [] s = (hpe_ok, s)
  receive_body (p ∷ ps) s = continue_with (receive_body ps) (on_body P p s)

  abbrev pub with_body : Receiving S → Bytes → Receiving S
  with_body s body = record s { body_buffer = body }

  pub on_body-fits :
      (p : Bytes) (s : Receiving S)
      → s.request.content.is_multipart ≡ false
      → fits s.app (length s.body_buffer + length p) ≡ true
      → on_body P p s ≡ (hpe_ok, with_body s (s.body_buffer ++ p))
  unfolding on_body
  on_body-fits p s plain h =
      let within : ltb (upload_max_size_limit_kb s.app) ((length s.body_buffer + length p) / 1024)
          ≡ false =
        ground arith in
      rw (within, plain) refl

  pub on_body-too_large :
      (p : Bytes) (s : Receiving S)
      → fits s.app (length s.body_buffer + length p) ≡ false
      → on_body P p s ≡ (stop_with_payload_too_large, s)
  unfolding on_body
  on_body-too_large p s h =
      let beyond : ltb (upload_max_size_limit_kb s.app) ((length s.body_buffer + length p) / 1024)
          ≡ true =
        ground arith in
      rw beyond refl

length-joined : (b : Bytes) (ps : List Bytes) → length b ≤ length (joined b ps)
length-joined b [] = omega arith
length-joined b (p ∷ ps) = omega (arith, length-joined (b ++ p) ps, length-append b p)

fits-less : (app : Option App) (n k : ℕ) → n ≤ k → fits app k ≡ true → fits app n ≡ true
fits-less app n k le h = ground arith

fits-more : (app : Option App) (n k : ℕ) → n ≤ k → fits app n ≡ false → fits app k ≡ false
fits-more app n k le h = ground arith

module _ {S : Type 0} (P : MultipartParser S) where
  -- A body that is within the limit is in the buffer as a whole.
  pub receive_body-whole :
      (ps : List Bytes) (s : Receiving S)
      → s.request.content.is_multipart ≡ false
      → fits s.app (length (joined s.body_buffer ps)) ≡ true
      → receive_body P ps s ≡ (hpe_ok, with_body P s (joined s.body_buffer ps))
  unfolding receive_body continue_with
  receive_body-whole [] s plain h = refl
  receive_body-whole (p ∷ ps) s plain h =
      let size : length (s.body_buffer ++ p) ≡ length s.body_buffer + length p =
        length-append s.body_buffer p in
      let start =
        fits-less s.app (length s.body_buffer + length p) (length (joined (s.body_buffer ++ p) ps))
          (omega (arith, size, length-joined (s.body_buffer ++ p) ps)) h in
      ap (continue_with P (receive_body P ps)) (on_body-fits P p s plain start)
      ∙ receive_body-whole ps (with_body P s (s.body_buffer ++ p)) plain h

  -- A body that does not come in parts is accepted, however it is cut, if its size in KB, with what
  -- the buffer holds before it, is within the limit of the application, and refused as too large
  -- otherwise, where what the buffer holds before it is within the limit.
  pub receive_body-answer :
      (ps : List Bytes) (s : Receiving S)
      → s.request.content.is_multipart ≡ false
      → fits s.app (length s.body_buffer) ≡ true
      → (receive_body P ps s).0 ≡ (
          if fits s.app (length (joined s.body_buffer ps))
          then hpe_ok
          else stop_with_payload_too_large)
  unfolding receive_body continue_with
  receive_body-answer [] s plain h =
      sym (ap (λ b. if b then hpe_ok else stop_with_payload_too_large) h)
  receive_body-answer (p ∷ ps) s plain h =
      let size : length (s.body_buffer ++ p) ≡ length s.body_buffer + length p =
        length-append s.body_buffer p in
      elim (Bool-cases (fits s.app (length s.body_buffer + length p))) [
        | inl within ↦
            ap (λ r. (continue_with P (receive_body P ps) r).0) (on_body-fits P p s plain within)
            ∙ receive_body-answer ps (with_body P s (s.body_buffer ++ p)) plain
                (ap (fits s.app) size ∙ within)
        | inr beyond ↦
            ap (λ r. (continue_with P (receive_body P ps) r).0) (on_body-too_large P p s beyond)
            ∙ sym (
                ap (λ b. if b then hpe_ok else stop_with_payload_too_large)
                  (fits-more s.app (length s.body_buffer + length p)
                    (length (joined (s.body_buffer ++ p) ps))
                    (omega (arith, size, length-joined (s.body_buffer ++ p) ps)) beyond))
      ]
