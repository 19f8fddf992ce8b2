-- ===== src/Redis/Wire.antt =====
-- The redis wire protocol (RESP) as a redis server writes it: the description that the parser of
-- redis_parser.cpp is held against. It is not part of the program.
use da4qi.Base.{
  ℕ, suc, ◌^◌, ◌≤◌, ◌<◌, [], ◌∷◌, ◌++◌, ◌≡◌, refl, sym, ap, ◌∙◌, append_assoc, Bytes, length, All,
}
use da4qi.Base.Int.{ℤ, IsInt64}
use da4qi.Base.Decimal.{to_string, to_string_ℤ}
use da4qi.Redis.Value.{
  RedisValue, Values, nil, cons, null_value, int_value, bytes_value, error_value, array_value,
}

-- What a server replies with: the five kinds of RESP, and the two forms of the null.
mutual
  pub data Reply : Type 0 where
    simple_string : Bytes → Reply
    error_line : Bytes → Reply
    number : ℤ → Reply
    bulk_string : Bytes → Reply
    null_bulk : Reply
    null_array : Reply
    array_of : Replies → Reply

  pub data Replies : Type 0 where
    no_more : Replies
    and_then : Reply → Replies → Replies

abbrev pub count : Replies → ℕ
count no_more = 0
count (and_then r rs) = suc (count rs)

-- The value that the program is to make of a reply.
abbrev mutual
  pub value_of : Reply → RedisValue
  value_of (simple_string b) = bytes_value b
  value_of (error_line b) = error_value b
  value_of (number i) = int_value i
  value_of (bulk_string b) = bytes_value b
  value_of null_bulk = null_value
  value_of null_array = null_value
  value_of (array_of rs) = array_value (values_of rs)

  pub values_of : Replies → Values
  values_of no_more = nil
  values_of (and_then r rs) = cons (value_of r) (values_of rs)

-- A line and what follows it.
abbrev pub line : Bytes → Bytes → Bytes
line s rest = s ++ b'\r' ∷ b'\n' ∷ rest

-- The bytes of a reply, followed by `rest`.
unfoldable mutual
  pub wire : Reply → Bytes → Bytes
  wire (simple_string b) rest = b'+' ∷ line b rest
  wire (error_line b) rest = b'-' ∷ line b rest
  wire (number i) rest = b':' ∷ line (to_string_ℤ i) rest
  wire (bulk_string b) rest = b'$' ∷ line (to_string (length b)) (line b rest)
  wire null_bulk rest = b'$' ∷ line (b'-' ∷ b'1' ∷ []) rest
  wire null_array rest = b'*' ∷ line (b'-' ∷ b'1' ∷ []) rest
  wire (array_of rs) rest = b'*' ∷ line (to_string (count rs)) (wire_items rs rest)

  pub wire_items : Replies → Bytes → Bytes
  wire_items no_more rest = rest
  wire_items (and_then r rs) rest = wire r (wire_items rs rest)

unfoldable pub encode : Reply → Bytes
unfolding wire
encode r = wire r []

line-append : (s xs ys : Bytes) → line s (xs ++ ys) ≡ line s xs ++ ys
line-append s xs ys = rw append_assoc refl

mutual
  unfolding wire

  wire-append_lem : (r : Reply) (xs ys : Bytes) → wire r (xs ++ ys) ≡ wire r xs ++ ys
  wire-append_lem (simple_string b) xs ys = ap (◌∷◌ b'+') (line-append b xs ys)
  wire-append_lem (error_line b) xs ys = ap (◌∷◌ b'-') (line-append b xs ys)
  wire-append_lem (number i) xs ys = ap (◌∷◌ b':') (line-append (to_string_ℤ i) xs ys)
  wire-append_lem (bulk_string b) xs ys = ap (◌∷◌ b'$') (
      ap (line (to_string (length b))) (line-append b xs ys)
      ∙ line-append (to_string (length b)) (line b xs) ys)
  wire-append_lem null_bulk xs ys = refl
  wire-append_lem null_array xs ys = refl
  wire-append_lem (array_of rs) xs ys = ap (◌∷◌ b'*') (
      ap (line (to_string (count rs))) (items-append rs xs ys)
      ∙ line-append (to_string (count rs)) (wire_items rs xs) ys)

  items-append : (rs : Replies) (xs ys : Bytes) → wire_items rs (xs ++ ys) ≡ wire_items rs xs ++ ys
  items-append no_more xs ys = refl
  items-append (and_then r rs) xs ys =
      ap (wire r) (items-append rs xs ys) ∙ wire-append_lem r (wire_items rs xs) ys

pub encode-append : (r : Reply) (rest : Bytes) → encode r ++ rest ≡ wire r rest
unfolding encode
encode-append r rest = sym (wire-append_lem r [] rest)

-- A printable ASCII byte.
abbrev pub IsText : ℕ → Type 0
IsText c = (32 ≤ c) × (c ≤ 126)

-- The replies that the program can hold: the text of a status or an error is printable ASCII, numbers
-- and sizes fit their types.
abbrev mutual
  pub IsWire : Reply → Type 0
  IsWire (simple_string b) = All IsText b
  IsWire (error_line b) = All IsText b
  IsWire (number i) = IsInt64 i
  IsWire (bulk_string b) = length b < 2 ^ 63
  IsWire null_bulk = Unit
  IsWire null_array = Unit
  IsWire (array_of rs) = (count rs < 2 ^ 63) × IsWireItems rs

  pub IsWireItems : Replies → Type 0
  IsWireItems no_more = Unit
  IsWireItems (and_then r rs) = IsWire r × IsWireItems rs
