-- ===== src/Redis/Command.antt =====
-- redis_command.cpp and redis_buffer.hpp: the bytes of a command. A `RedisBuffer` is its data.
use da4qi.Base.{
  suc, ◌^◌, ◌<◌, List, [], ◌∷◌, ◌++◌, append-nil, append_assoc, ◌≡◌, refl, sym, ap, Bytes, length,
  All, codes,
}
use da4qi.Base.Decimal.{to_string}
use da4qi.Redis.Value.{Values, nil, cons, bytes_value, array_value}
use da4qi.Redis.Wire.{
  Replies, no_more, and_then, bulk_string, array_of, count, values_of, wire, wire_items, encode,
  IsWireItems,
}
use da4qi.Redis.Parser.{Parser, parse}
use da4qi.Redis.Parser.Replies.{IsFresh, Completes, parse-encode}

abbrev RedisBuffer : Type 0
RedisBuffer = Bytes

-- `bufferAppend`, whose overloads all append the bytes.
abbrev buffer_append : Bytes → Bytes → Bytes
buffer_append vec s = vec ++ s

abbrev crlf : Bytes
crlf = b'\r' ∷ b'\n' ∷ []

append_items : Bytes → List RedisBuffer → Bytes
append_items result [] = result
append_items result (item ∷ items) =
    let size_mark = buffer_append result (b'$' ∷ []) in
    let size_text = buffer_append size_mark (to_string (length item)) in
    let size_line = buffer_append size_text crlf in
    append_items (buffer_append (buffer_append size_line item) crlf) items

unfoldable pub make_command : List RedisBuffer → Bytes
unfolding append_items
make_command items =
    let count_text = buffer_append (buffer_append [] (b'*' ∷ [])) (to_string (length items)) in
    append_items (buffer_append count_text crlf) items

-- The command as a value: an array of bulk strings.
abbrev pub bulks : List RedisBuffer → Values
bulks [] = nil
bulks (item ∷ items) = cons (bytes_value item) (bulks items)

-- The same array on the wire.
abbrev pub bulk_replies : List RedisBuffer → Replies
bulk_replies [] = no_more
bulk_replies (item ∷ items) = and_then (bulk_string item) (bulk_replies items)

values_of-bulk_replies : (items : List RedisBuffer) → values_of (bulk_replies items) ≡ bulks items
values_of-bulk_replies [] = refl
values_of-bulk_replies (item ∷ items) = ap (cons (bytes_value item)) (values_of-bulk_replies items)

append_items-wire :
    (items : List RedisBuffer) (result : Bytes)
    → append_items result items ≡ result ++ wire_items (bulk_replies items) []
unfolding append_items wire
append_items-wire [] result = sym (append-nil result)
append_items-wire (item ∷ items) result = simp (append_items-wire items, append_assoc)

count-bulk_replies : (items : List RedisBuffer) → count (bulk_replies items) ≡ length items
count-bulk_replies [] = refl
count-bulk_replies (item ∷ items) = ap suc (count-bulk_replies items)

-- A command is sent as the wire form of an array of bulk strings.
pub make_command-encode :
    (items : List RedisBuffer) → make_command items ≡ encode (array_of (bulk_replies items))
unfolding make_command encode
make_command-encode items = simp (append_items-wire, append_assoc, count-bulk_replies)

IsWireItems-bulk_replies :
    (items : List RedisBuffer)
    → All (λ item. length item < 2 ^ 63) items
    → IsWireItems (bulk_replies items)
IsWireItems-bulk_replies [] h = tt
IsWireItems-bulk_replies (item ∷ items) (h, hs) = (h, IsWireItems-bulk_replies items hs)

-- A parser in which no reply is begun reads the bytes of a command, of fewer than 2^63 items
-- shorter than 2^63 bytes, as the array of its items, whatever bytes they hold.
pub parse-make_command :
    (p : Parser) (items : List RedisBuffer) (rest : Bytes)
    → IsFresh p
    → length items < 2 ^ 63
    → All (λ item. length item < 2 ^ 63) items
    → Completes
        (parse p (make_command items ++ rest))
        (length (make_command items))
        (array_value (bulks items))
parse-make_command p items rest fresh few short =
    rw (make_command-encode, ← values_of-bulk_replies items)
      (parse-encode p (array_of (bulk_replies items)) rest fresh
        (rw count-bulk_replies few, IsWireItems-bulk_replies items short))

get_command : make_command (codes "GET" ∷ codes "k" ∷ []) ≡ codes "*2\r\n$3\r\nGET\r\n$1\r\nk\r\n"
unfolding make_command to_string
get_command = refl
