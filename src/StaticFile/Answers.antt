-- ===== src/StaticFile/Answers.antt =====
-- static_file.cpp, on_response: what the context is asked to do, on every branch.
use da4qi.Base.{
  ℕ, List, [], ◌∷◌, Bool, Bool-cases, not, true, false, Option, none, some, Bytes, is_empty, inl,
  inr, ◌≡◌, refl, ap, ◌∙◌,
}
use da4qi.StaticFile.{
  StaticFile, Files, Action, next_chunked_response, remove_data, stop_chunked_response, pass, sent,
  chunks, send_file, located, locate, on_response,
}
use da4qi.StaticFile.Chunks.{together, chunks-Sends}

-- Whether the context is passed on once, and that is the last that is done with it.
abbrev pub passes_last : List Action → Bool
passes_last [] = false
passes_last (pass ∷ as') = is_empty as'
passes_last (_ ∷ as') = passes_last as'

-- The bodies that are sent.
abbrev pub bodies : List Action → List Bytes
bodies [] = []
bodies (next_chunked_response b ∷ as') = b ∷ bodies as'
bodies (_ ∷ as') = bodies as'

-- The data of a context that has a name for the file, or no data.
abbrev pub is_named : Option Bytes → Bool
is_named none = true
is_named (some name) = not (is_empty name)

bodies-sent :
    (bs : List Bytes) → bodies (sent bs (remove_data ∷ stop_chunked_response ∷ pass ∷ [])) ≡ bs
bodies-sent [] = refl
bodies-sent (b ∷ bs) = ap (◌∷◌ b) (bodies-sent bs)

module _ (F : Files) where
  send_file-bodies :
      (f : StaticFile) (name content : Bytes)
      → bodies (send_file F f name (some content)) ≡ chunks content
  unfolding send_file
  send_file-bodies f name content = elim (Bool-cases (is_empty (F.mime_type name))) [
    | inl h ↦ rw h (bodies-sent (chunks content))
    | inr h ↦ rw h (bodies-sent (chunks content))
  ]

  -- A file that is there and can be opened is sent with its content, whatever its type and size.
  pub on_response-content :
      (f : StaticFile) (x : ℕ) (name content : Bytes)
      → F.is_file (x ∷ name) ≡ true
      → F.exists (x ∷ name) ≡ some true
      → F.open_file (x ∷ name) ≡ some content
      → together (bodies (on_response F f (some (x ∷ name)))) ≡ content
  unfolding on_response located locate
  on_response-content f x name content file there opened =
      rw (file, there, opened)
        (ap together (send_file-bodies f (x ∷ name) content) ∙ (chunks-Sends content).0)
