-- ===== src/Redis/Parser/Lines.antt =====
-- How the parser reads lines of text, numbers and bulk strings.
use da4qi.Base.{
  ℕ, suc, ◌-◌, ◌^◌, ◌<◌, min, [], ◌∷◌, ◌++◌, append-nil, append-cons, true, false, ◌≡◌, refl, ap,
  ◌∙◌, arith, Bytes, length, length-append, take-length-append, drop-length-append, All, is_empty,
  ◌==◌, ◌||◌,
}
use da4qi.Base.Int.{ℤ, pos, negsuc}
use da4qi.Base.Decimal.{to_string, to_string_ℤ, to_string-IsDigit, is_empty-to_string, IsDigit}
use da4qi.Redis.Value.{RedisValue, redis_value, bytes}
use da4qi.Redis.Wire.{line, IsText}
use da4qi.Redis.Parser.{
  Parser, State, start, bulk_size_lf, bulk, bulk_cr, bulk_lf, next, handle, start_reply, text_byte,
  number_byte, finish_line, bulk_header, bulk_bytes, is_digit, goes_on, settle,
}
use da4qi.Redis.Parser.Stepwise.{run, proceed, resume, resume_on, run-cons, run_bulk}
use da4qi.Redis.Parser.Numbers.{buf_to_long-to_string}

proceed_on :
    (state : State) (p : Parser) (rest : Bytes)
    → settle state p ≡ goes_on p
    → proceed state p rest ≡ run state p rest
unfolding proceed
proceed_on state p rest e = rw (e, proceed) refl

pub step_end :
    (state : State) (p : Parser) (c : ℕ) (q : Parser) (rest : Bytes)
    → handle state c p [] ≡ next start q []
    → run state p (c ∷ rest) ≡ proceed start q rest
step_end state p c q rest e = run-cons state p c rest ∙ (unfold resume_on in rw e refl)

pub step_on :
    (state : State) (p : Parser) (c : ℕ) (next_state : State) (q : Parser) (rest : Bytes)
    → handle state c p [] ≡ next next_state q []
    → settle next_state q ≡ goes_on q
    → run state p (c ∷ rest) ≡ run next_state q rest
step_on state p c next_state q rest e stays =
    run-cons state p c rest ∙ (unfold resume_on in rw e (proceed_on next_state q rest stays))

-- A byte that a number may hold.
abbrev IsNumeral : ℕ → Type 0
IsNumeral c = (is_digit c || c == b'-') ≡ true

number_cr :
    (here lf : State) (p : Parser)
    → is_empty p.buf ≡ false
    → number_byte here lf b'\r' p [] ≡ next lf p []
unfolding number_byte
number_cr here lf p e = rw e refl

number_digit :
    (here lf : State) (p : Parser) (c : ℕ)
    → IsNumeral c
    → number_byte here lf c p [] ≡ next here (record p { buf = p.buf ++ c ∷ [] }) []
unfolding number_byte
number_digit here lf p c h = ground arith

run_number :
    (here lf : State) (s rest : Bytes) (p : Parser)
    → ((q : Parser) (c : ℕ) → handle here c q [] ≡ number_byte here lf c q [])
    → ((q : Parser) → settle here q ≡ goes_on q)
    → ((q : Parser) → settle lf q ≡ goes_on q)
    → All IsNumeral s
    → is_empty (p.buf ++ s) ≡ false
    → run here p (s ++ b'\r' ∷ rest) ≡ run lf (record p { buf = p.buf ++ s }) rest
run_number here lf [] rest p is_number stays ends d e = rw append-nil (
    step_on here p b'\r' lf p rest (is_number p b'\r' ∙ number_cr here lf p (rw append-nil at e))
      (ends p))
run_number here lf (c ∷ s) rest p is_number stays ends (d, ds) e =
    let q : Parser = record p { buf = p.buf ++ c ∷ [] } in
    step_on here p c here q (s ++ b'\r' ∷ rest) (is_number p c ∙ number_digit here lf p c d)
      (stays q)
    ∙ run_number here lf s rest q is_number stays ends ds (rw (← append-cons) e)
    ∙ rw (← append-cons) refl

text_cr : (here lf : State) (p : Parser) → text_byte here lf b'\r' p [] ≡ next lf p []
unfolding text_byte
text_cr here lf p = refl

text_char :
    (here lf : State) (p : Parser) (c : ℕ)
    → IsText c
    → text_byte here lf c p [] ≡ next here (record p { buf = p.buf ++ c ∷ [] }) []
unfolding text_byte
text_char here lf p c h = ground arith

-- The text of a line, from its first byte up to its carriage return.
pub run_text :
    (here lf : State) (s rest : Bytes) (p : Parser)
    → ((q : Parser) (c : ℕ) → handle here c q [] ≡ text_byte here lf c q [])
    → ((q : Parser) → settle here q ≡ goes_on q)
    → ((q : Parser) → settle lf q ≡ goes_on q)
    → All IsText s
    → run here p (s ++ b'\r' ∷ rest) ≡ run lf (record p { buf = p.buf ++ s }) rest
run_text here lf [] rest p is_text stays ends d =
    rw append-nil (step_on here p b'\r' lf p rest (is_text p b'\r' ∙ text_cr here lf p) (ends p))
run_text here lf (c ∷ s) rest p is_text stays ends (d, ds) =
    let q : Parser = record p { buf = p.buf ++ c ∷ [] } in
    step_on here p c here q (s ++ b'\r' ∷ rest) (is_text p c ∙ text_char here lf p c d) (stays q)
    ∙ run_text here lf s rest q is_text stays ends ds
    ∙ rw (← append-cons) refl

-- The parser after a value: what a reply leaves in the two scratch fields is of no matter.
abbrev pub with_value : Parser → Bytes → ℤ → RedisValue → Parser
with_value p b k v = record p { buf = b; bulk_size = k; redis_value = v }

-- In the state `state` the bytes of `v` are read as the value `v`.
abbrev pub Reads : State → Parser → (Bytes → Bytes) → RedisValue → Type 0
Reads state p spell v =
    (rest : Bytes)
    → (b : Bytes) × (k : ℤ) × (run state p (spell rest) ≡ proceed start (with_value p b k v) rest)

pub numerals : (s : Bytes) → All IsDigit s → All IsNumeral s
numerals [] d = tt
numerals (c ∷ s) (d, ds) = (unfold is_digit in ground arith, numerals s ds)

pub numerals_ℤ : (i : ℤ) → All IsNumeral (to_string_ℤ i)
unfolding to_string_ℤ
numerals_ℤ (pos n) = numerals (to_string n) (to_string-IsDigit n)
numerals_ℤ (negsuc n) =
    (unfold is_digit in refl, numerals (to_string (suc n)) (to_string-IsDigit (suc n)))

pub is_empty-to_string_ℤ : (i : ℤ) → is_empty (to_string_ℤ i) ≡ false
unfolding to_string_ℤ
is_empty-to_string_ℤ (pos n) = is_empty-to_string n
is_empty-to_string_ℤ (negsuc n) = refl

-- The two states in which a reply may start.
abbrev pub IsStarting : State → Type 0
IsStarting state = (c : ℕ) (p : Parser) → handle state c p [] ≡ start_reply c p []

-- A number line from its type byte on, up to its line feed.
pub read_number_line :
    (state here lf : State) (mark : ℕ) (p q : Parser) (s rest : Bytes)
    → handle state mark p [] ≡ next here q []
    → q.buf ≡ []
    → ((r : Parser) (c : ℕ) → handle here c r [] ≡ number_byte here lf c r [])
    → ((r : Parser) → settle here r ≡ goes_on r)
    → ((r : Parser) → settle lf r ≡ goes_on r)
    → All IsNumeral s
    → is_empty s ≡ false
    → run state p (mark ∷ line s rest) ≡ run lf (record q { buf = s }) (b'\n' ∷ rest)
read_number_line state here lf mark p q s rest e b is_number stays ends d full =
    step_on state p mark here q (line s rest) e (stays q)
    ∙ run_number here lf s (b'\n' ∷ rest) q is_number stays ends d (rw b full)
    ∙ rw b refl

-- The line end behind the content of a bulk string.
read_bulk_end :
    (p : Parser) (rest : Bytes)
    → run bulk_cr p (b'\r' ∷ b'\n' ∷ rest)
      ≡ proceed start (record p { redis_value = redis_value (bytes p.buf) false }) rest
unfolding handle settle
read_bulk_end p rest =
    step_on bulk_cr p b'\r' bulk_lf p (b'\n' ∷ rest) refl refl
    ∙ step_end bulk_lf p b'\n' _ rest (unfold finish_line in refl)

-- The content of a bulk string, which `bulkSize` counts.
bulk_bytes-content :
    (n : ℕ) (b tail : Bytes) (p : Parser)
    → length b ≡ suc n
    → p.buf ≡ []
    → resume (bulk_bytes (pos (suc n)) p (b ++ tail))
      ≡ proceed bulk_cr (record p { buf = b; bulk_size = pos 0 }) tail
unfolding resume bulk_bytes
bulk_bytes-content n b tail p e empty =
    let all_read : min (length (b ++ tail)) (suc n) ≡ length b =
      omega (arith, length-append b tail) in
    rw (all_read, take-length-append b tail, drop-length-append b tail, empty, e)
      (let none_left : suc n - suc n ≡ 0 = omega arith in rw none_left refl)

-- From the line feed behind the length on.
pub read_bulk_header :
    (p : Parser) (b rest : Bytes)
    → length b < 2 ^ 63
    → run bulk_size_lf
        (record p { buf = to_string (length b); bulk_size = pos 0 })
        (b'\n' ∷ line b rest)
      ≡ proceed start (with_value p b (pos 0) (redis_value (bytes b) false)) rest
unfolding handle settle
read_bulk_header p [] rest h =
    let q : Parser = record p { buf = []; bulk_size = pos 0 } in
    step_on bulk_size_lf _ b'\n' bulk_cr q (line [] rest)
      (ap (λ j. bulk_header j (record p { buf = []; bulk_size = j }) []) (buf_to_long-to_string 0 h)
        ∙ (unfold bulk_header in refl))
      refl
    ∙ read_bulk_end q rest
read_bulk_header p (c ∷ b) rest h =
    let n = length b in
    let q : Parser = record p { buf = []; bulk_size = pos (suc n) } in
    step_on bulk_size_lf _ b'\n' bulk q (line (c ∷ b) rest)
      (ap (λ j. bulk_header j (record p { buf = []; bulk_size = j }) [])
          (buf_to_long-to_string (suc n) h)
        ∙ (unfold bulk_header in ground arith))
      refl
    ∙ run_bulk (line (c ∷ b) rest) q n refl
    ∙ bulk_bytes-content n (c ∷ b) (b'\r' ∷ b'\n' ∷ rest) q refl refl
    ∙ proceed_on bulk_cr (record p { buf = c ∷ b; bulk_size = pos 0 }) (b'\r' ∷ b'\n' ∷ rest) refl
    ∙ read_bulk_end (record p { buf = c ∷ b; bulk_size = pos 0 }) rest
