-- ===== src/Websocket/Frame.antt =====
-- frame_websocket.hpp and frame_websocket.cpp: building and parsing websocket frames.
-- `x & (2^k - 1)` is `x % 2^k` and `x >> k` is `x / 2^k`. The integers into which the parser copies
-- raw bytes (`EXT_PAYLOAD_LEN_16`, `EXT_PAYLOAD_LEN_64`, `MASKING_KEY`) are kept as those bytes. The
-- calls of the message callback are collected in `messages`, oldest first; it does not throw. A payload
-- has room: `_payload.reserve`, which throws for a length that a string cannot have, and the answer
-- `{false, what}` that `Parse` then gives are left out, so the model is that of lengths for which there is
-- memory. A chunk is shorter than 2^32 bytes, as `len` of `Parse` has 32 bits.
pub mod Octets
pub mod Body
pub mod Header
pub mod RoundTrip
pub mod Streams
pub mod Chunks
use Prim.Native.Nat.{bit_and, bit_or, bit_xor}
use da4qi.Base.{
  ℕ, suc, zero, ◌+◌, ◌-◌, ◌*◌, ◌/◌, ◌%◌, ◌^◌, min, List, [], ◌∷◌, ◌++◌, Bool, true, false, not,
  Option, none, some, if◌then◌else◌, ltb, leb, ◌==◌, Bytes, length, take, drop, get_or, replicate,
  is_empty, ◌≡◌, refl,
}

-- Frame types are the numbers of their enumerators; the parser casts any four bits to one.
abbrev pub FrameType : Type 0
FrameType = ℕ

abbrev pub e_continuation : FrameType
e_continuation = 0x00

abbrev pub e_text : FrameType
e_text = 0x01

abbrev pub e_connection_close : FrameType
e_connection_close = 0x08

abbrev pub e_ping : FrameType
e_ping = 0x09

-- The fields of the header that a builder uses.
pub record FrameBuilder : Type 0 where
  pub fin : ℕ
  pub opcode : FrameType
  pub mask : ℕ
  pub masking_key : ℕ

unfoldable pub new_builder : FrameBuilder
new_builder = record { fin = 0; opcode = e_continuation; mask = 0; masking_key = 0 }

pub reset_masking_key : FrameBuilder → FrameBuilder
reset_masking_key h = record h { mask = 0x00 }

pub set_masking_key : ℕ → FrameBuilder → FrameBuilder
set_masking_key key h = record h { mask = 0x80; masking_key = key }

unfoldable pub set_fin : Bool → FrameBuilder → FrameBuilder
set_fin val h = record h { fin = (if val then 0x80 else 0) }

unfoldable pub set_frame_type : FrameType → FrameBuilder → FrameBuilder
set_frame_type type h = record h { opcode = type }

-- `ptr[1]` and the extended length behind it, for a payload of `len` bytes.
pub length_bytes : ℕ → ℕ → Bytes
length_bytes mask len =
    let second = if len == 0 then 0 else bit_or 0 mask in
    if leb len 125
    then bit_or second (len % 2 ^ 8) ∷ []
    else if leb len 65535
    then bit_or second 126 ∷ len / 2 ^ 8 % 2 ^ 8 ∷ len % 2 ^ 8 ∷ []
    else bit_or second 127
      ∷ len / 2 ^ 56 % 2 ^ 8
      ∷ len / 2 ^ 48 % 2 ^ 8
      ∷ len / 2 ^ 40 % 2 ^ 8
      ∷ len / 2 ^ 32 % 2 ^ 8
      ∷ len / 2 ^ 24 % 2 ^ 8
      ∷ len / 2 ^ 16 % 2 ^ 8
      ∷ len / 2 ^ 8 % 2 ^ 8
      ∷ len % 2 ^ 8
      ∷ []

-- The four bytes of `MASKING_KEY` as they are sent.
pub key_bytes : ℕ → Bytes
key_bytes key = key / 2 ^ 24 % 2 ^ 8 ∷ key / 2 ^ 16 % 2 ^ 8 ∷ key / 2 ^ 8 % 2 ^ 8 ∷ key % 2 ^ 8 ∷ []

-- `data[i] ^ mask[i % 4]` from the index `i` on.
pub xor_from : Bytes → ℕ → Bytes → Bytes
xor_from mask i [] = []
xor_from mask i (d ∷ ds) = bit_xor d (get_or mask (i % 4) 0) ∷ xor_from mask (suc i) ds

-- The bytes that `Build` writes, in the order of their offsets. The index of its masking loop has 32
-- bits, so a masked payload is shorter than 2^32.
unfoldable pub build : FrameBuilder → Bytes → Bytes
unfolding length_bytes key_bytes xor_from
build h [] = bit_or (bit_or 0 h.fin) h.opcode ∷ length_bytes h.mask 0
build h (d ∷ ds) =
    let len = length (d ∷ ds) in
    let mask = key_bytes h.masking_key in
    let body = if h.mask == 0 then d ∷ ds else mask ++ xor_from mask 0 (d ∷ ds) in
    bit_or (bit_or 0 h.fin) h.opcode ∷ (length_bytes h.mask len ++ body)

pub record FrameHeader : Type 0 where
  pub fin : ℕ
  pub rsv1 : ℕ
  pub rsv2 : ℕ
  pub rsv3 : ℕ
  pub opcode : FrameType
  pub mask : ℕ
  pub payload_len : ℕ
  pub ext_payload_len_16 : Bytes
  pub ext_payload_len_64 : Bytes
  pub payload_realy_len : ℕ
  pub masking_key : Bytes

-- `memset(&_frame_header, 0, sizeof(_frame_header))`.
abbrev pub zero_header : FrameHeader
zero_header = record {
  fin = 0;
  rsv1 = 0;
  rsv2 = 0;
  rsv3 = 0;
  opcode = 0;
  mask = 0;
  payload_len = 0;
  ext_payload_len_16 = replicate 2 0;
  ext_payload_len_64 = replicate 8 0;
  payload_realy_len = 0;
  masking_key = replicate 4 0;
}

pub data ParserStep : Type 0 where
  e_fixed_header e_payload_len e_extened_payload_len e_masking_key e_payload_data : ParserStep

-- The arguments of a call of the message callback.
pub record Message : Type 0 where
  pub payload : Bytes
  pub opcode : FrameType
  pub fin : Bool

pub record FrameParser : Type 0 where
  pub parser_step : ParserStep
  pub payload_len_offset : ℕ
  pub masking_key_pos : ℕ
  pub payload : Bytes
  pub frame_header : FrameHeader
  pub messages : List Message

abbrev pub reset : FrameParser → FrameParser
reset p = record p {
  parser_step = e_fixed_header;
  masking_key_pos = 0;
  payload_len_offset = 0;
  payload = [];
  frame_header = zero_header;
}

unfoldable pub new_parser : FrameParser
new_parser = record {
  parser_step = e_fixed_header;
  payload_len_offset = 0;
  masking_key_pos = 0;
  payload = [];
  frame_header = zero_header;
  messages = [];
}

-- `_msb_cb(payload, OPCODE, !!FIN)` and the `reset()` behind it.
abbrev pub deliver : Bytes → FrameParser → FrameParser
deliver payload p =
    let h = p.frame_header in
    let m : Message = record { payload = payload; opcode = h.opcode; fin = not (h.fin == 0) } in
    reset (record p { messages = p.messages ++ m ∷ [] })

-- uint32_t a - b.
abbrev pub sub32 : ℕ → ℕ → ℕ
sub32 a b = (a + 2 ^ 32 - b) % 2 ^ 32

-- `memcpy(dst, src, length src)`.
abbrev pub memcpy : Bytes → Bytes → Bytes
memcpy dst src = src ++ drop (length src) dst

pub parse_fixed_header : FrameParser → ℕ → FrameParser
parse_fixed_header p b = record p {
  payload_len_offset = 0;
  frame_header = record zero_header {
    fin = bit_and b 0xf0;
    rsv1 = bit_and b 0x40;
    rsv2 = bit_and b 0x20;
    rsv3 = bit_and b 0x10;
    opcode = b % 2 ^ 4;
  };
  parser_step = e_payload_len;
}

-- Where the payload begins once its length is known.
abbrev pub after_length : ℕ → ParserStep
after_length mask = if mask == 0 then e_payload_data else e_masking_key

pub parse_payload_len : FrameParser → ℕ → FrameParser
parse_payload_len p b =
    let mask = bit_and b 0x80 in
    let len = b % 2 ^ 7 in
    let h = record (p.frame_header) { mask = mask; payload_len = len } in
    let q : FrameParser =
      (if leb len 125
        then record p {
          frame_header = record h { payload_realy_len = len };
          parser_step = after_length mask;
        }
        else record p { frame_header = h; parser_step = e_extened_payload_len }) in
    if len == 0 then deliver [] q else q

-- The bytes of a number, most significant first; as the fields of `|` do not overlap it is `+`.
abbrev pub big_endian : ℕ → Bytes → ℕ
big_endian n [] = n
big_endian n (b ∷ bs) = big_endian (n * 2 ^ 8 + b) bs

decode_extened_payload_len : FrameParser → FrameParser
decode_extened_payload_len p =
    let h = p.frame_header in
    let len : ℕ =
      (if h.payload_len == 126
        then big_endian 0 h.ext_payload_len_16
        else if h.payload_len == 127
        then big_endian 0 h.ext_payload_len_64
        else h.payload_realy_len) in
    record p {
      frame_header = record h { payload_realy_len = len };
      parser_step = after_length h.mask;
    }

-- A parse function returns how many bytes it took.
parse_extened_payload_len : FrameParser → Bytes → FrameParser × ℕ
unfolding decode_extened_payload_len
parse_extened_payload_len p data' =
    let h = p.frame_header in
    if h.payload_len == 126
    then (let n = min (sub32 2 p.payload_len_offset) (length data') in
        let q : FrameParser = record p {
          frame_header = record h {
            ext_payload_len_16 = memcpy h.ext_payload_len_16 (take n data');
          };
          payload_len_offset = p.payload_len_offset + n;
        } in
        (if q.payload_len_offset == 2 then decode_extened_payload_len q else q, n))
    else if h.payload_len == 127
    then (let n = min (sub32 8 p.payload_len_offset) (length data') in
        let q : FrameParser = record p {
          frame_header = record h {
            ext_payload_len_64 = memcpy h.ext_payload_len_64 (take n data');
          };
          payload_len_offset = p.payload_len_offset + n;
        } in
        (if q.payload_len_offset == 8 then decode_extened_payload_len q else q, n))
    else (p, 0)

-- It is called in the step `e_masking_key` only.
parse_masking_key : FrameParser → Bytes → FrameParser × ℕ
parse_masking_key p data' =
    let h = p.frame_header in
    let n = min (sub32 4 p.masking_key_pos) (length data') in
    let q : FrameParser = record p {
      frame_header = record h { masking_key = memcpy h.masking_key (take n data') };
      masking_key_pos = p.masking_key_pos + n;
    } in
    (if q.masking_key_pos == 4 then record q { parser_step = e_payload_data } else q, n)

pub parse_payload : FrameParser → Bytes → FrameParser × ℕ
unfolding xor_from
parse_payload p data' =
    let h = p.frame_header in
    let remain = sub32 (h.payload_realy_len % 2 ^ 32) (length p.payload % 2 ^ 32) in
    let n = min remain (length data') in
    let bytes = if h.mask == 0 then take n data' else xor_from h.masking_key 0 (take n data') in
    let q : FrameParser = record p { payload = p.payload ++ bytes } in
    (if length q.payload == h.payload_realy_len then deliver q.payload q else q, n)

-- `if (_parser_step == … && remain_len)`: the parser and the bytes that remain.
skip : FrameParser × ℕ → Bytes → FrameParser × Bytes
skip (p, n) data' = (p, drop n data')

try_fixed_header : ParserStep → FrameParser → Bytes → FrameParser × Bytes
unfolding parse_fixed_header
try_fixed_header e_fixed_header p (b ∷ rest) = (parse_fixed_header p b, rest)
try_fixed_header _ p rest = (p, rest)

try_payload_len : ParserStep → FrameParser → Bytes → FrameParser × Bytes
unfolding parse_payload_len
try_payload_len e_payload_len p (b ∷ rest) = (parse_payload_len p b, rest)
try_payload_len _ p rest = (p, rest)

pub try_extened_payload_len : ParserStep → FrameParser → Bytes → FrameParser × Bytes
unfolding parse_extened_payload_len skip
try_extened_payload_len e_extened_payload_len p (b ∷ rest) =
    skip (parse_extened_payload_len p (b ∷ rest)) (b ∷ rest)
try_extened_payload_len _ p rest = (p, rest)

pub try_masking_key : ParserStep → FrameParser → Bytes → FrameParser × Bytes
unfolding parse_masking_key skip
try_masking_key e_masking_key p (b ∷ rest) = skip (parse_masking_key p (b ∷ rest)) (b ∷ rest)
try_masking_key _ p rest = (p, rest)

pub try_payload : ParserStep → FrameParser → Bytes → FrameParser × Bytes
unfolding parse_payload skip
try_payload e_payload_data p (b ∷ rest) = skip (parse_payload p (b ∷ rest)) (b ∷ rest)
try_payload _ p rest = (p, rest)

-- One round of the loop in `Parse`.
pub round : FrameParser → Bytes → FrameParser × Bytes
unfolding try_fixed_header try_payload_len try_extened_payload_len try_masking_key try_payload
round p data' =
    let (p₁, d₁) = try_fixed_header p.parser_step p data' in
    let (p₂, d₂) = try_payload_len p₁.parser_step p₁ d₁ in
    let (p₃, d₃) = try_extened_payload_len p₂.parser_step p₂ d₂ in
    let (p₄, d₄) = try_masking_key p₃.parser_step p₃ d₃ in try_payload p₄.parser_step p₄ d₄

-- `do … while (offset < len)`; `none` when the rounds do not suffice.
pub loop : ℕ → FrameParser → Bytes → Option FrameParser
unfolding round
loop zero p data' = none
loop (suc fuel) p data' =
    let (q, rest) = round p data' in
    let more = loop fuel q rest in if is_empty rest then some q else more

-- A round takes a byte, or ends a frame without a payload and the next round takes one.
unfoldable pub parse : FrameParser → Bytes → Option FrameParser
unfolding loop
parse p data' = loop (suc (2 * length data')) p data'

abbrev hello : Bytes
hello = 72 ∷ 101 ∷ 108 ∷ 108 ∷ 111 ∷ []

-- The masked text frame of RFC 6455, section 5.7.
hello_frame :
    build (set_fin true (set_frame_type e_text (set_masking_key 0x37fa213d new_builder))) hello
    ≡ 0x81 ∷ 0x85 ∷ 0x37 ∷ 0xfa ∷ 0x21 ∷ 0x3d ∷ 0x7f ∷ 0x9f ∷ 0x4d ∷ 0x51 ∷ 0x58 ∷ []
unfolding build set_fin set_frame_type set_masking_key new_builder
hello_frame = refl

hello_parsed :
    parse new_parser
      (0x81 ∷ 0x85 ∷ 0x37 ∷ 0xfa ∷ 0x21 ∷ 0x3d ∷ 0x7f ∷ 0x9f ∷ 0x4d ∷ 0x51 ∷ 0x58 ∷ [])
    ≡ some (record new_parser {
      messages = record { payload = hello; opcode = e_text; fin = true } ∷ [];
    })
unfolding parse new_parser
hello_parsed = refl
