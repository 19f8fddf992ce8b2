-- ===== src/Response/Text/Reader.antt =====
-- A reader of lines up to an empty one, as a client reads the head of a response. It is not part of the
-- program.
use da4qi.Base.{
  ℕ, List, [], ◌∷◌, ◌++◌, append_assoc, append-nil, true, false, not, ◌&&◌, if◌then◌else◌, ◌==◌,
  all, Option, none, some, Bytes, is_empty, All, ◌≡◌, refl, sym, ap, ◌∙◌, arith,
}
use da4qi.Utilities.Strings.{IsFree}
use da4qi.Response.Text.{line_end}

abbrev add_line : Bytes → Option (List Bytes × Bytes) → Option (List Bytes × Bytes)
add_line line none = none
add_line line (some (lines, rest)) = some (line ∷ lines, rest)

-- The lines up to an empty one, and what stands behind it; `line` is the part of a line already read.
unfoldable pub read_head : Bytes → Bytes → Option (List Bytes × Bytes)
read_head line [] = none
read_head line (x ∷ []) = none
read_head line (x ∷ y ∷ s) =
    let next = add_line line (read_head [] s) in
    let more = read_head (line ++ x ∷ []) (y ∷ s) in
    if x == b'\r' && y == b'\n' then (if is_empty line then some ([], s) else next) else more

abbrev pub header_line : Bytes × Bytes → Bytes
header_line (field, value) = field ++ b':' ∷ value

abbrev pub IsLine : Bytes → Type 0
IsLine line = IsFree b'\r' line × (is_empty line ≡ false)

abbrev pub ended : List Bytes → Bytes
ended [] = []
ended (line ∷ lines) = line ++ (line_end ++ ended lines)

read_head-plain :
    (before : Bytes) (x y : ℕ) (s : Bytes)
    → (x == b'\r') ≡ false
    → read_head before (x ∷ y ∷ s) ≡ read_head (before ++ x ∷ []) (y ∷ s)
unfolding read_head
read_head-plain before x y s h = rw h refl

read_head-line :
    (before line rest : Bytes)
    → IsFree b'\r' line
    → read_head before (line ++ b'\r' ∷ b'\n' ∷ rest)
      ≡ read_head (before ++ line) (b'\r' ∷ b'\n' ∷ rest)
read_head-line before [] rest h =
    ap (λ l. read_head l (b'\r' ∷ b'\n' ∷ rest)) (sym (append-nil before))
read_head-line before (x ∷ []) rest (h, hs) = read_head-plain before x b'\r' (b'\n' ∷ rest) h
read_head-line before (x ∷ y ∷ line) rest (h, hs) =
    read_head-plain before x y (line ++ b'\r' ∷ b'\n' ∷ rest) h
    ∙ read_head-line (before ++ x ∷ []) (y ∷ line) rest hs
    ∙ ap (λ l. read_head l (b'\r' ∷ b'\n' ∷ rest)) (append_assoc before (x ∷ []) (y ∷ line))

read_head-next :
    (line rest : Bytes)
    → IsLine line
    → read_head [] (line ++ b'\r' ∷ b'\n' ∷ rest) ≡ add_line line (read_head [] rest)
read_head-next line rest (free, filled) = read_head-line [] line rest free ∙ at_end line rest filled
  where
    at_end :
        (line rest : Bytes)
        → is_empty line ≡ false
        → read_head line (b'\r' ∷ b'\n' ∷ rest) ≡ add_line line (read_head [] rest)
    at_end line rest h = unfold read_head in rw h refl

-- Lines that are ended each, and an empty one.
pub read_head-ended :
    (lines : List Bytes) (rest : Bytes)
    → All IsLine lines
    → read_head [] (ended lines ++ (line_end ++ rest)) ≡ some (lines, rest)
read_head-ended [] rest h = unfold read_head in refl
read_head-ended (line ∷ lines) rest (h, hs) =
    ap (read_head []) (append_assoc line (line_end ++ ended lines) (line_end ++ rest))
    ∙ read_head-next line (ended lines ++ (line_end ++ rest)) h
    ∙ ap (add_line line) (read_head-ended lines rest hs)

pub ended-append : (xs ys : List Bytes) → ended (xs ++ ys) ≡ ended xs ++ ended ys
ended-append [] ys = refl
ended-append (x ∷ xs) ys =
    ap (λ t. x ++ (line_end ++ t)) (ended-append xs ys)
    ∙ sym (append_assoc x (line_end ++ ended xs) (ended ys))

pub all-IsFree : (s : Bytes) → all (λ x. not (x == b'\r')) s ≡ true → IsFree b'\r' s
all-IsFree [] h = tt
all-IsFree (x ∷ s) h = (ground arith, all-IsFree s (ground arith))
