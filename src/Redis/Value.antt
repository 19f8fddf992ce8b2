-- ===== src/Redis/Value.antt =====
-- redis_value.hpp and redis_value.cpp: the variant of a reply with its error flag.
pub mod Inspect
use da4qi.Base.{ℕ, suc, [], ◌∷◌, ◌++◌, Bool, true, false, not, if◌then◌else◌, Bytes, codes}
use da4qi.Base.Int.{ℤ, pos}
use da4qi.Base.Decimal.{to_string_ℤ}

-- `std::vector<RedisValue>` is `Values`, since the value holds a vector of itself.
mutual
  pub data RedisValue : Type 0 where
    redis_value : Variant → Bool → RedisValue

  pub data Variant : Type 0 where
    null_tag : Variant
    int64 : ℤ → Variant
    bytes : Bytes → Variant
    array : Values → Variant

  pub data Values : Type 0 where
    nil : Values
    cons : RedisValue → Values → Values

-- The constructors of `RedisValue`.
abbrev pub null_value : RedisValue
null_value = redis_value null_tag false

abbrev pub int_value : ℤ → RedisValue
int_value i = redis_value (int64 i) false

abbrev pub bytes_value : Bytes → RedisValue
bytes_value b = redis_value (bytes b) false

abbrev pub error_value : Bytes → RedisValue
error_value b = redis_value (bytes b) true

abbrev pub array_value : Values → RedisValue
array_value vs = redis_value (array vs) false

abbrev pub push_back : Values → RedisValue → Values
push_back nil v = cons v nil
push_back (cons u vs) v = cons u (push_back vs v)

abbrev pub size : Values → ℕ
size nil = 0
size (cons v vs) = suc (size vs)

abbrev pub append : Values → Values → Values
append nil ws = ws
append (cons v vs) ws = cons v (append vs ws)

unfoldable pub is_error : RedisValue → Bool
is_error (redis_value _ e) = e

unfoldable pub is_ok : RedisValue → Bool
unfolding is_error
is_ok v = not (is_error v)

unfoldable pub is_null : RedisValue → Bool
is_null (redis_value null_tag _) = true
is_null (redis_value _ _) = false

unfoldable pub is_int : RedisValue → Bool
is_int (redis_value (int64 _) _) = true
is_int (redis_value _ _) = false

unfoldable pub is_string : RedisValue → Bool
is_string (redis_value (bytes _) _) = true
is_string (redis_value _ _) = false

unfoldable pub is_array : RedisValue → Bool
is_array (redis_value (array _) _) = true
is_array (redis_value _ _) = false

-- `cast_to<T>`: the content when the variant holds a `T`, else a default `T`.
unfoldable pub to_int : RedisValue → ℤ
to_int (redis_value (int64 i) _) = i
to_int (redis_value _ _) = pos 0

unfoldable pub to_byte_array : RedisValue → Bytes
to_byte_array (redis_value (bytes b) _) = b
to_byte_array (redis_value _ _) = []

unfoldable pub to_array : RedisValue → Values
to_array (redis_value (array vs) _) = vs
to_array (redis_value _ _) = nil

-- `result.resize(result.size() - 1); result[result.size() - 1] = ']'`: the last byte goes and the
-- one before it becomes `c`.
abbrev pub close_with : ℕ → Bytes → Bytes
close_with c [] = []
close_with c (x ∷ []) = []
close_with c (x ∷ y ∷ []) = c ∷ []
close_with c (x ∷ y ∷ z ∷ s) = x ∷ close_with c (y ∷ z ∷ s)

abbrev pub ends_list : Values → Bytes → Bytes
ends_list nil result = result ++ codes "]"
ends_list (cons _ _) result = close_with b']' result

unfoldable mutual
  -- The tests of `Inspect` in their order; an error prints its bytes.
  pub inspect : RedisValue → Bytes
  inspect (redis_value v e) =
      if e then codes "_error: " ++ to_byte_array (redis_value v e) else inspect_variant v

  pub inspect_variant : Variant → Bytes
  inspect_variant null_tag = codes "(null)"
  inspect_variant (int64 i) = to_string_ℤ i
  inspect_variant (bytes b) = b
  inspect_variant (array vs) = ends_list vs (codes "[" ++ inspect_items vs)

  -- What the loop appends: each element behind it `", "`.
  pub inspect_items : Values → Bytes
  inspect_items nil = []
  inspect_items (cons v vs) = inspect v ++ codes ", " ++ inspect_items vs
