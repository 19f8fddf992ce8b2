-- ===== src/StaticFile/Chunks.antt =====
-- static_file.cpp, on_response: the chunks in which a file is sent.
use da4qi.Base.{
  ℕ, zero, suc, ◌+◌, ◌-◌, ◌≤◌, ◌<◌, min, List, [], ◌∷◌, ◌++◌, append_assoc, append-nil, Bool-cases,
  false, if◌then◌else◌, ltb, ltb→lt, ltb→ge, Bytes, All, is_empty, length, take, drop,
  length-append, length-take, length-drop, inl, inr, ◌≡◌, refl, subst, ap, ◌∙◌, arith,
}
use da4qi.StaticFile.{
  max_byte_read_one_time, max_byte_one_chunked_body, last_chunk, chunks_loop, chunks,
}

abbrev pub together : List Bytes → Bytes
together [] = []
together (b ∷ bs) = b ++ together bs

-- A chunk is not empty, and holds at most what fits and one more read.
abbrev pub IsChunk : Bytes → Type 0
IsChunk b = (is_empty b ≡ false) × (length b ≤ max_byte_one_chunked_body + max_byte_read_one_time)

take-drop-append : (n : ℕ) (xs : Bytes) → take n xs ++ drop n xs ≡ xs
take-drop-append zero xs = refl
take-drop-append (suc n) [] = refl
take-drop-append (suc n) (x ∷ xs) = ap (◌∷◌ x) (take-drop-append n xs)

take_everything : (n : ℕ) (xs : Bytes) → length xs ≤ n → take n xs ≡ xs
take_everything zero [] h = refl
take_everything zero (x ∷ xs) h = absurd (omega arith)
take_everything (suc n) [] h = refl
take_everything (suc n) (x ∷ xs) h = ap (◌∷◌ x) (take_everything n xs (omega arith))

filled : (b : Bytes) → 1 ≤ length b → is_empty b ≡ false
filled [] h = absurd (omega arith)
filled (x ∷ b) h = refl

-- What is sent is the text, in chunks.
abbrev Sends : Bytes → List Bytes → Type 0
Sends text bs = (together bs ≡ text) × All IsChunk bs

last_chunk-Sends :
    (b : Bytes)
    → length b ≤ max_byte_one_chunked_body + max_byte_read_one_time
    → Sends b (last_chunk b)
last_chunk-Sends [] h = (refl, tt)
last_chunk-Sends (x ∷ b) h = (append-nil (x ∷ b), ((refl, h), tt))

one-Sends :
    (b : Bytes)
    → 1 ≤ length b
    → length b ≤ max_byte_one_chunked_body + max_byte_read_one_time
    → Sends b (b ∷ [])
one-Sends b h k = (append-nil b, ((filled b h, k), tt))

-- The last read is flushed, or what is left is sent behind the loop.
last-Sends :
    (read : Bytes)
    → length read ≤ max_byte_one_chunked_body + max_byte_read_one_time
    → Sends read
        (if ltb max_byte_one_chunked_body (length read) then read ∷ [] else last_chunk read)
last-Sends read h = elim (Bool-cases (ltb max_byte_one_chunked_body (length read))) [
  | inl much ↦ rw much (one-Sends read (ground arith) h)
  | inr less ↦ rw less (last_chunk-Sends read h)
]

-- Where a chunk is sent and the rest is sent after it.
next-Sends :
    (read behind text : Bytes) (bs : List Bytes)
    → IsChunk read
    → read ++ behind ≡ text
    → Sends behind bs
    → Sends text (read ∷ bs)
next-Sends read behind text bs chunk e (same, all) = (ap (λ t. read ++ t) same ∙ e, (chunk, all))

chunks_loop-Sends :
    (fuel : ℕ) (rest buf : Bytes)
    → length rest < fuel
    → length buf ≤ max_byte_one_chunked_body
    → Sends (buf ++ rest) (chunks_loop fuel rest buf)
unfolding chunks_loop
chunks_loop-Sends zero rest buf h k = absurd (omega arith)
chunks_loop-Sends (suc fuel) rest buf h k =
    let read = buf ++ take max_byte_read_one_time rest in
    let behind = drop max_byte_read_one_time rest in
    let size : length read ≡ length buf + min max_byte_read_one_time (length rest) =
      length-append buf (take max_byte_read_one_time rest)
      ∙ ap (λ n. length buf + n) (length-take max_byte_read_one_time rest) in
    let left : length behind ≡ length rest - max_byte_read_one_time =
      length-drop max_byte_read_one_time rest in
    let text : read ++ behind ≡ buf ++ rest =
      append_assoc buf (take max_byte_read_one_time rest) behind
      ∙ ap (λ t. buf ++ t) (take-drop-append max_byte_read_one_time rest) in
    elim (Bool-cases (ltb (length rest) max_byte_read_one_time)) [
      | inl last ↦ rw last (
          subst
            (λ t.
              Sends t (
                if ltb max_byte_one_chunked_body (length read) then read ∷ [] else last_chunk read))
            (ap (λ t. buf ++ t)
              (take_everything max_byte_read_one_time rest
                (omega (arith, ltb→lt (length rest) max_byte_read_one_time last))))
            (last-Sends read (omega (arith, size))))
      | inr full ↦
          let enough = ltb→ge (length rest) max_byte_read_one_time full in
          elim (Bool-cases (ltb max_byte_one_chunked_body (length read))) [
            | inl much ↦
                rw (full, much)
                  (next-Sends read behind (buf ++ rest) (chunks_loop fuel behind [])
                    (filled read (omega (arith, size, enough)), omega (arith, size)) text
                    (chunks_loop-Sends fuel behind [] (omega (arith, left, enough)) (omega arith)))
            | inr less ↦
                rw (full, less)
                  (subst (λ t. Sends t (chunks_loop fuel behind read)) text
                    (chunks_loop-Sends fuel behind read (omega (arith, left, enough))
                      (ltb→ge max_byte_one_chunked_body (length read) less)))
          ]
    ]

-- A file, of any size, is sent as it is: put together, the chunks are its content, none of them is empty, and
-- none is larger than the size at which a chunk is sent and one read.
pub chunks-Sends :
    (content : Bytes) → (together (chunks content) ≡ content) × All IsChunk (chunks content)
unfolding chunks
chunks-Sends content = chunks_loop-Sends (length content + 1) content [] (omega arith) (omega arith)
