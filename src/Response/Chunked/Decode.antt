-- ===== src/Response/Chunked/Decode.antt =====
-- A reader of the chunked transfer coding, by its definition in RFC 7230, section 4.1, without
-- extensions and trailers, and that it reads back the chunks that were written.
use da4qi.Base.{
  ℕ, zero, suc, ◌+◌, ◌*◌, ◌<◌, List, [], ◌∷◌, ◌++◌, false, if◌then◌else◌, ◌==◌, ◌>>=◌, Option, none,
  some, Bytes, All, length, take, drop, take-length-append, drop-length-append, append_assoc, codes,
  ◌≡◌, ◌≢◌, refl, ap, ◌∙◌, arith,
}
use da4qi.Response.Hex.{
  dec_int_to_hex_str, is_hex_digit, hex_of, hex_value, IsHexDigit, hex_value-dec_int_to_hex_str,
  dec_int_to_hex_str-IsHexDigit,
}
use da4qi.Response.Chunked.{chunk_data, last_data}

-- The text behind a line's end.
abbrev after_line_end : Bytes → Option Bytes
after_line_end [] = none
after_line_end (c ∷ []) = none
after_line_end (c ∷ d ∷ s) = if c == b'\r' then (if d == b'\n' then some s else none) else none

-- The size at the beginning of a chunk, on top of the digits read so far, and the text behind it.
read_size : ℕ → Bytes → Option (ℕ × Bytes)
read_size n [] = none
read_size n (c ∷ s) =
    let rest = read_size (n * 16 + hex_of c) s in
    if is_hex_digit c then rest else after_line_end (c ∷ s) >>= λ t. some (n, t)

-- Cut a chunk's data off, and its line's end.
abbrev read_data : ℕ → Bytes → Option (Bytes × Bytes)
read_data size s = after_line_end (drop size s) >>= λ t. some (take size s, t)

abbrev last_chunk : Bytes → Option (List Bytes × Bytes)
last_chunk s = after_line_end s >>= λ t. some ([], t)

abbrev data_chunk : (Bytes → Option (List Bytes × Bytes)) → ℕ → Bytes → Option (List Bytes × Bytes)
data_chunk more size s = read_data size s >>= λ d. more d.1 >>= λ e. some (d.0 ∷ e.0, e.1)

-- What follows a size: the end, or the data of a chunk and the chunks behind it, read by `more`.
decode_sized : (Bytes → Option (List Bytes × Bytes)) → ℕ × Bytes → Option (List Bytes × Bytes)
decode_sized more (size, s) = if size == 0 then last_chunk s else data_chunk more size s

-- The bodies, and the text behind the last chunk.
unfoldable pub decode : ℕ → Bytes → Option (List Bytes × Bytes)
unfolding read_size decode_sized
decode zero s = none
decode (suc fuel) s = read_size 0 s >>= decode_sized (decode fuel)

read_size-append :
    (ds : Bytes) (n : ℕ) (t : Bytes)
    → All IsHexDigit ds
    → read_size n (ds ++ (codes "\r\n" ++ t)) ≡ some (hex_value n ds, t)
unfolding read_size hex_value
read_size-append [] n t h = refl
read_size-append (c ∷ ds) n t (h, hs) = rw h (read_size-append ds (n * 16 + hex_of c) t hs)

abbrev pub chunks : List Bytes → Bytes
chunks [] = last_data
chunks (b ∷ bs) = chunk_data b ++ chunks bs

chunk_data-append :
    (b t : Bytes)
    → chunk_data b ++ t
      ≡ dec_int_to_hex_str (length b) ++ (codes "\r\n" ++ (b ++ (codes "\r\n" ++ t)))
chunk_data-append b t = simp append_assoc refl

decode_sized-data :
    (more : Bytes → Option (List Bytes × Bytes)) (b t : Bytes)
    → b ≢ []
    → decode_sized more (length b, b ++ (codes "\r\n" ++ t)) ≡ (more t >>= λ e. some (b ∷ e.0, e.1))
unfolding decode_sized
decode_sized-data more [] t h = absurd (h refl)
decode_sized-data more (c ∷ b) t h =
    rw (suc_not_zero (length b), take-length-append (c ∷ b), drop-length-append (c ∷ b)) refl
  where
    suc_not_zero : (n : ℕ) → (suc n == 0) ≡ false
    suc_not_zero n = ground arith

decode-chunk :
    (fuel : ℕ) (b t : Bytes)
    → b ≢ []
    → decode (suc fuel) (chunk_data b ++ t) ≡ (decode fuel t >>= λ e. some (b ∷ e.0, e.1))
unfolding decode
decode-chunk fuel b t more =
    let t' = b ++ (codes "\r\n" ++ t) in
    ap (λ s. read_size 0 s >>= decode_sized (decode fuel)) (chunk_data-append b t)
    ∙ ap (λ o. o >>= decode_sized (decode fuel))
        (read_size-append (dec_int_to_hex_str (length b)) 0 t'
          (dec_int_to_hex_str-IsHexDigit (length b)))
    ∙ ap (λ n. decode_sized (decode fuel) (n, t')) (hex_value-dec_int_to_hex_str (length b))
    ∙ decode_sized-data (decode fuel) b t more

-- Bodies that are not empty are read back from the data of their chunks, with the last chunk behind
-- them, whatever follows.
pub decode-chunks :
    (fuel : ℕ) (bs : List Bytes) (rest : Bytes)
    → length bs < fuel
    → All (λ b. b ≢ []) bs
    → decode fuel (chunks bs ++ rest) ≡ some (bs, rest)
decode-chunks zero bs rest enough h = absurd (omega arith)
decode-chunks (suc fuel) [] rest enough h = unfold decode in unfold read_size in refl
decode-chunks (suc fuel) (b ∷ bs) rest enough (h, hs) =
    ap (decode (suc fuel)) (append_assoc (chunk_data b) (chunks bs) rest)
    ∙ decode-chunk fuel b (chunks bs ++ rest) h
    ∙ ap (λ o. o >>= λ (e : List Bytes × Bytes). some (b ∷ e.0, e.1))
        (decode-chunks fuel bs rest (omega arith) hs)
