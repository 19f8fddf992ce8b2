-- ===== src/Tests/Redis.antt =====
-- Replies and commands of redis.
use da4qi.Base.{
  ℕ, [], ◌∷◌, ◌++◌, Bytes, codes, length, Bool, true, false, ◌≡◌, ◌≢◌, refl, ap, arith,
}
use da4qi.Base.Int.{pos, negsuc}
use da4qi.Base.Decimal.{to_string, to_string_ℤ}
use da4qi.Redis.Value.{
  redis_value, array, Values, nil, cons, push_back, int_value, bytes_value, array_value, inspect,
}
use da4qi.Redis.Wire.{
  Reply, simple_string, error_line, number, bulk_string, null_array, array_of, no_more, and_then,
  value_of, encode, IsWire,
}
use da4qi.Redis.Value.Inspect.{joined, inspect-joined}
use da4qi.Redis.Parser.{Parser, ParseResult, new_parser, parse, incompleted, buf_to_long}
use da4qi.Redis.Parser.Chunks.{
  IsResumable, at_offset, parse-append, parse-append_settled, parse-IsResumable,
}
use da4qi.Redis.Parser.Numbers.{buf_to_long-to_string_ℤ}
use da4qi.Redis.Parser.Elements.{frame}
use da4qi.Redis.Parser.Replies.{
  IsFresh, IsFresh-IsResumable, Completes, parse-encode, parse-encode_split, parse-encode_stale,
}
use da4qi.Redis.Command.{make_command, bulks, bulk_replies, make_command-encode, parse-make_command}

abbrev reply : Reply
reply = array_of (
    and_then (number (negsuc 41)) (
      and_then (bulk_string (codes "ab")) (
        and_then (error_line (codes "ERR"))
          (and_then null_array (and_then (simple_string (codes "OK")) no_more)))))

cons-ne-nil : (c : ℕ) (s : Bytes) → c ∷ s ≢ []
cons-ne-nil c s e = absurd (omega (arith, ap length e))

new_parser-IsFresh : IsFresh new_parser
unfolding new_parser
new_parser-IsFresh = (refl, refl)

new_parser-IsResumable : IsResumable new_parser
new_parser-IsResumable = IsFresh-IsResumable new_parser new_parser-IsFresh

reply-IsWire : IsWire reply
reply-IsWire = (omega arith, (omega arith, (omega arith, (omega arith, (tt, (omega arith, tt))))))

parse-encode_example :
    Completes
      (parse new_parser (encode reply ++ codes "+x"))
      (length (encode reply))
      (value_of reply)
parse-encode_example = parse-encode new_parser reply (codes "+x") new_parser-IsFresh reply-IsWire

-- A bulk string that is cut in its bytes.
hello_cut : encode (bulk_string (codes "hello")) ≡ codes "$5\r\nhel" ++ codes "lo\r\n"
unfolding encode to_string
hello_cut = refl

parse-encode_split_example :
    ((parse new_parser (codes "$5\r\nhel")).result ≡ incompleted)
    × Completes
        (parse (parse new_parser (codes "$5\r\nhel")).after (codes "lo\r\n"))
        4
        (bytes_value (codes "hello"))
parse-encode_split_example =
    parse-encode_split new_parser (bulk_string (codes "hello")) (codes "$5\r\nhel") (codes "lo\r\n")
      new_parser-IsFresh (omega arith) hello_cut (cons-ne-nil _ _) (cons-ne-nil _ _)

hello_incompleted : (parse new_parser (codes "$5\r\nhel")).result ≡ incompleted
unfolding parse new_parser
hello_incompleted = refl

parse-append_example :
    parse new_parser (codes "$5\r\nhel" ++ codes "lo\r\n")
    ≡ at_offset 7 (parse (parse new_parser (codes "$5\r\nhel")).after (codes "lo\r\n"))
parse-append_example =
    parse-append new_parser (codes "$5\r\nhel") (codes "lo\r\n") new_parser-IsResumable
      (cons-ne-nil _ _) hello_incompleted

parse-IsResumable_test : IsResumable (parse new_parser (codes "$5\r\nhel")).after
parse-IsResumable_test =
    parse-IsResumable new_parser (codes "$5\r\nhel") new_parser-IsResumable hello_incompleted

is_settled : ParseResult → Bool
is_settled incompleted = false
is_settled _ = true

refused : (parse new_parser (codes "+O\n")).result ≢ incompleted
unfolding parse new_parser is_settled
refused e = absurd (ground (arith, ap is_settled e))

settled_before_more : parse new_parser (codes "+O\n" ++ codes "K") ≡ parse new_parser (codes "+O\n")
settled_before_more =
    parse-append_settled new_parser (codes "+O\n") (codes "K") new_parser-IsResumable
      (cons-ne-nil _ _) refused

-- A parser that refused the second of three elements.
abbrev stale : Parser
stale = record new_parser { frames = frame 3 nil ∷ [] }

parse-encode-stale_test :
    ((parse stale (encode (number (pos 7)))).result ≡ incompleted)
    × ((parse stale (encode (number (pos 7)))).after.frames
        ≡ frame 2 (push_back nil (int_value (pos 7))) ∷ [])
parse-encode-stale_test =
    parse-encode_stale stale (number (pos 7)) 1 nil [] (new_parser-IsFresh.0) refl (omega arith)

get_as_array :
    make_command (codes "GET" ∷ codes "k" ∷ [])
    ≡ encode (array_of (bulk_replies (codes "GET" ∷ codes "k" ∷ [])))
get_as_array = make_command-encode (codes "GET" ∷ codes "k" ∷ [])

parse-make_command_example :
    Completes
      (parse new_parser (make_command (codes "GET" ∷ codes "k" ∷ []) ++ []))
      (length (make_command (codes "GET" ∷ codes "k" ∷ [])))
      (array_value (bulks (codes "GET" ∷ codes "k" ∷ [])))
parse-make_command_example =
    parse-make_command new_parser (codes "GET" ∷ codes "k" ∷ []) [] new_parser-IsFresh (omega arith)
      (omega arith)

minus_42_read : buf_to_long (to_string_ℤ (negsuc 41)) ≡ negsuc 41
minus_42_read = buf_to_long-to_string_ℤ (negsuc 41) (omega arith)

abbrev two_items : Values
two_items = cons (int_value (pos 1)) (cons (bytes_value (codes "b")) nil)

two_items_shown :
    inspect (redis_value (array two_items) false) ≡ codes "[" ++ joined two_items ++ codes "]"
two_items_shown = inspect-joined two_items
