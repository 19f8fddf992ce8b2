-- ===== src/Connection/Arrivals.antt =====
-- Headers that arrive in pieces.
use da4qi.Base.{
  List, [], ◌∷◌, ◌++◌, append-nil, false, ℕ, Bytes, is_empty, none, some, ◌≡◌, refl, sym, ap, ◌∙◌,
}
use da4qi.Router.Order.{Algorithms}
use da4qi.Router.Map.{insert, find, modify}
use da4qi.Connection.Headers.{
  header_none_part, header_field_part, header_value_part, Reading, append_header, try_commit,
  on_header_field, on_header_value,
}

-- A header in the pieces in which it is handed over; the first piece of the name is not empty.
pub record Arrival : Type 0 where
  pub first : ℕ
  pub name_start : Bytes
  pub name_rest : List Bytes
  pub value_start : Bytes
  pub value_rest : List Bytes

abbrev pub joined : Bytes → List Bytes → Bytes
joined s [] = s
joined s (p ∷ ps) = joined (s ++ p) ps

abbrev pub name_of : Arrival → Bytes
name_of a = joined (a.first ∷ a.name_start) a.name_rest

abbrev pub value_of : Arrival → Bytes
value_of a = joined a.value_start a.value_rest

pub is_empty-joined : (c : ℕ) (s : Bytes) (ps : List Bytes) → is_empty (joined (c ∷ s) ps) ≡ false
is_empty-joined c s [] = refl
is_empty-joined c s (p ∷ ps) = is_empty-joined c (s ++ p) ps

-- Nothing is being read; and a header was read that is not yet among the others.
abbrev pub clean : List (Bytes × Bytes) → Reading
clean hs = record { part = header_none_part; field = []; value = []; headers = hs }

abbrev pub pending : Bytes → Bytes → List (Bytes × Bytes) → Reading
pending name value hs = record {
  part = header_value_part;
  field = name;
  value = value;
  headers = hs;
}

module _ (B : Algorithms) where
  abbrev fields : List Bytes → Reading → Reading
  fields [] s = s
  fields (p ∷ ps) s = fields ps (on_header_field B p s)

  abbrev values : List Bytes → Reading → Reading
  values [] s = s
  values (p ∷ ps) s = values ps (on_header_value B p s)

  -- The calls for a header.
  pub receive : Arrival → Reading → Reading
  receive a s = values a.value_rest (
      on_header_value B a.value_start
        (fields a.name_rest (on_header_field B (a.first ∷ a.name_start) s)))

  abbrev in_field : Bytes → Bytes → List (Bytes × Bytes) → Reading
  in_field name value hs = record {
    part = header_field_part;
    field = name;
    value = value;
    headers = hs;
  }

  fields-in_field :
      (ps : List Bytes) (name value : Bytes) (hs : List (Bytes × Bytes))
      → fields ps (in_field name value hs) ≡ in_field (joined name ps) value hs
  unfolding on_header_field
  fields-in_field [] name value hs = refl
  fields-in_field ([] ∷ ps) name value hs =
      fields-in_field ps name value hs
      ∙ ap (λ n. in_field (joined n ps) value hs) (sym (append-nil name))
  fields-in_field ((c ∷ p) ∷ ps) name value hs = fields-in_field ps (name ++ c ∷ p) value hs

  values-pending :
      (ps : List Bytes) (name value : Bytes) (hs : List (Bytes × Bytes))
      → values ps (pending name value hs) ≡ pending name (joined value ps) hs
  unfolding on_header_value
  values-pending [] name value hs = refl
  values-pending (p ∷ ps) name value hs = values-pending ps name (value ++ p) hs

  -- The calls for a header behind its first piece.
  after_first :
      (a : Arrival) (before : Bytes) (hs : List (Bytes × Bytes))
      → values a.value_rest (
          on_header_value B a.value_start
            (fields a.name_rest (in_field (before ++ a.first ∷ a.name_start) [] hs)))
        ≡ pending (joined (before ++ a.first ∷ a.name_start) a.name_rest) (value_of a) hs
  unfolding on_header_value
  after_first a before hs =
      ap (λ s. values a.value_rest (on_header_value B a.value_start s))
        (fields-in_field a.name_rest (before ++ a.first ∷ a.name_start) [] hs)
      ∙ values-pending a.value_rest _ a.value_start hs

  -- A pending header goes to the others when the next one begins.
  commit-new :
      (name value : Bytes) (hs : List (Bytes × Bytes))
      → is_empty name ≡ false
      → find B.iless name hs ≡ none
      → try_commit B (pending name value hs) ≡ clean (insert B.iless name value hs)
  unfolding try_commit append_header
  commit-new name value hs named new = rw (named, new) refl

  -- The name of a header that is there already is not moved from, and stays.
  commit-known :
      (name value old : Bytes) (hs : List (Bytes × Bytes))
      → is_empty name ≡ false
      → find B.iless name hs ≡ some old
      → try_commit B (pending name value hs)
        ≡ record (clean (modify B.iless name (λ v. value) hs)) { field = name }
  unfolding try_commit append_header
  commit-known name value old hs named known = rw (named, known) refl

  receive-commit :
      (a : Arrival) (s : Reading) (before : Bytes) (hs : List (Bytes × Bytes))
      → try_commit B s ≡ record (clean hs) { field = before }
      → receive a s
        ≡ pending (joined (before ++ a.first ∷ a.name_start) a.name_rest) (value_of a) hs
  unfolding receive on_header_field
  receive-commit a s before hs e =
      ap
        (λ q. values a.value_rest (
          on_header_value B a.value_start (
            fields a.name_rest
              (record q { part = header_field_part; field = q.field ++ a.first ∷ a.name_start }))))
        e
      ∙ after_first a before hs

  -- The calls for the headers one after another, and the commit at the end of the headers.
  unfoldable pub receive_all : List Arrival → Reading → Reading
  receive_all [] s = try_commit B s
  receive_all (a ∷ as') s = receive_all as' (receive a s)

  abbrev pub inserted : List Arrival → List (Bytes × Bytes) → List (Bytes × Bytes)
  inserted [] hs = hs
  inserted (a ∷ as') hs = inserted as' (insert B.iless (name_of a) (value_of a) hs)

  -- No name is, without regard to case, that of a header before it.
  abbrev pub AreNew : List Arrival → List (Bytes × Bytes) → Type 0
  AreNew [] hs = Unit
  AreNew (a ∷ as') hs =
      (find B.iless (name_of a) hs ≡ none) × AreNew as' (insert B.iless (name_of a) (value_of a) hs)

  receive_all-pending :
      (as' : List Arrival) (a : Arrival) (hs : List (Bytes × Bytes))
      → AreNew (a ∷ as') hs
      → receive_all as' (pending (name_of a) (value_of a) hs) ≡ clean (inserted (a ∷ as') hs)
  unfolding receive_all
  receive_all-pending [] a hs (new, _) =
      commit-new (name_of a) (value_of a) hs (is_empty-joined a.first a.name_start a.name_rest) new
  receive_all-pending (b ∷ as') a hs (new, later) =
      ap (receive_all as') (
        receive-commit b (pending (name_of a) (value_of a) hs) []
          (insert B.iless (name_of a) (value_of a) hs)
          (commit-new (name_of a) (value_of a) hs (is_empty-joined a.first a.name_start a.name_rest)
            new))
      ∙ receive_all-pending as' b (insert B.iless (name_of a) (value_of a) hs) later

  -- Headers whose names all differ are put together from their pieces, however these are cut: each is
  -- in the map with its whole name and its whole value, and nothing is left over.
  pub receive_all-inserted :
      (as' : List Arrival) → AreNew as' [] → receive_all as' (clean []) ≡ clean (inserted as' [])
  unfolding receive_all
  receive_all-inserted [] new = unfold try_commit in refl
  receive_all-inserted (a ∷ as') new =
      ap (receive_all as') (receive-commit a (clean []) [] [] (unfold try_commit in refl))
      ∙ receive_all-pending as' a [] new

  -- Behind a header that was there before, the next one is read with the name of that header in front
  -- of its own.
  pub receive-known :
      (a : Arrival) (name value old : Bytes) (hs : List (Bytes × Bytes))
      → is_empty name ≡ false
      → find B.iless name hs ≡ some old
      → receive a (pending name value hs)
        ≡ pending
            (joined (name ++ a.first ∷ a.name_start) a.name_rest)
            (value_of a)
            (modify B.iless name (λ v. value) hs)
  receive-known a name value old hs named known =
      receive-commit a (pending name value hs) name (modify B.iless name (λ v. value) hs)
        (commit-known name value old hs named known)
