-- ===== src/Redis/Parser/Stepwise.antt =====
-- The loop of `parse_chunk` against a run that is given one byte at a time: the block copies of bulk
-- strings change nothing.
use da4qi.Base.{
  ℕ, suc, zero, ◌-◌, ◌≤◌, ◌<◌, min, [], ◌∷◌, ◌++◌, append-nil, append_assoc, ◌≡◌, refl, sym, ◌∙◌,
  arith, Bytes, length, take, length-drop, if◌then◌else◌, ◌==◌, inl, inr, Bool-cases,
}
use da4qi.Base.Int.{ℤ, pos, negsuc, pos_part}
use da4qi.Redis.Parser.{
  Parser, State, start, start_array, string, string_lf, error_string, error_lf, integer, integer_lf,
  bulk_size, bulk_size_lf, bulk, bulk_cr, bulk_lf, array_size, array_size_lf, Step, reject, next,
  fail, start_reply, text_byte, number_byte, finish_line, bulk_header, bulk_bytes, array_header,
  buf_to_long, handle, Settled, breaks, goes_on, settle, settle_start, Outcome, rejected, stopped,
  loop,
}

-- In the state `Bulk` bytes are missing: the assertion of that state.
abbrev pub IsReady : State → Parser → Type 0
IsReady bulk p = 0 < pos_part p.bulk_size
IsReady _ p = Unit

-- A run by single bytes: each is handled with no byte behind it.
unfoldable pub run : State → Parser → Bytes → Outcome
unfolding handle settle
run state p [] = stopped state p []
run state p (c ∷ rest) = elim (handle state c p []) [
  | reject q _ ↦ rejected q rest
  | next state' q _ ↦ elim (settle state' q) [
    | breaks r ↦ stopped state' r rest
    | goes_on r ↦ run state' r rest
  ]
]

unfoldable pub proceed : State → Parser → Bytes → Outcome
unfolding settle run
proceed state p rest = elim (settle state p) [
  | breaks q ↦ stopped state q rest
  | goes_on q ↦ run state q rest
]

unfoldable pub resume : Step → Outcome
unfolding proceed
resume (reject p rest) = rejected p rest
resume (next state p rest) = proceed state p rest

one_step-bulk :
    (c : ℕ) (rest : Bytes) (p : Parser) (n : ℕ)
    → p.bulk_size ≡ pos (suc n)
    → run bulk p (c ∷ rest)
      ≡ proceed
          (if n == 0 then bulk_cr else bulk)
          (record p { buf = p.buf ++ c ∷ []; bulk_size = pos n })
          rest
unfolding run handle bulk_bytes proceed
one_step-bulk c rest p n e = ground arith

pub proceed-bulk : (p : Parser) (rest : Bytes) → proceed bulk p rest ≡ run bulk p rest
unfolding proceed settle
proceed-bulk p rest = refl

pub run_bulk :
    (rest : Bytes) (p : Parser) (n : ℕ)
    → p.bulk_size ≡ pos (suc n)
    → run bulk p rest ≡ resume (bulk_bytes (pos (suc n)) p rest)
unfolding resume bulk_bytes
run_bulk [] p n e = unfold run in unfold proceed settle in ground (arith, append-nil p.buf)
run_bulk (c ∷ rest) p zero e = one_step-bulk c rest p 0 e ∙ ground arith
run_bulk (c ∷ rest) p (suc n) e =
    let q : Parser = record p { buf = p.buf ++ c ∷ []; bulk_size = pos (suc n) } in
    one_step-bulk c rest p (suc n) e
    ∙ ground (
      arith,
      proceed-bulk q rest,
      run_bulk rest q n refl,
      append_assoc p.buf (c ∷ []) (take (min (length rest) (suc n)) rest),
    )

-- A step with other bytes behind it.
unfoldable pub resume_on : Step → Bytes → Outcome
unfolding proceed
resume_on (reject p _) rest = rejected p rest
resume_on (next state p _) rest = proceed state p rest

resume-bulk_header :
    (z : ℤ) (p : Parser) (rest : Bytes)
    → p.bulk_size ≡ z
    → p.buf ≡ []
    → resume_on (bulk_header z p []) rest ≡ resume (bulk_header z p rest)
unfolding resume resume_on bulk_header
resume-bulk_header (negsuc zero) p rest e b = refl
resume-bulk_header (negsuc (suc n)) p rest e b = unfold fail in refl
resume-bulk_header (pos zero) p rest e b = refl
resume-bulk_header (pos (suc n)) p rest e b =
    unfold bulk_bytes in ground (arith, proceed-bulk p rest, run_bulk rest p n e, append-nil p.buf)

positive : (z : ℤ) → 0 < pos_part z → z ≡ pos (suc (pos_part z - 1))
positive (pos n) h = ground arith
positive (negsuc n) h = absurd (omega arith)

pub run-cons :
    (state : State) (p : Parser) (c : ℕ) (rest : Bytes)
    → run state p (c ∷ rest) ≡ resume_on (handle state c p []) rest
unfolding run resume_on
run-cons state p c rest = go (handle state c p [])
  where
    go :
        (s : Step)
        → (elim s [
          | reject q _ ↦ rejected q rest
          | next state' q _ ↦ elim (settle state' q) [
            | breaks r ↦ stopped state' r rest
            | goes_on r ↦ run state' r rest
          ]
        ])
          ≡ resume_on s rest
    go (reject q _) = refl
    go (next state' q _) = refl

-- A round of the loop, from a state that is ready, does what the single bytes do.
resume-handle :
    (state : State) (p : Parser) (c : ℕ) (rest : Bytes)
    → IsReady state p
    → run state p (c ∷ rest) ≡ resume (handle state c p rest)
unfolding run handle resume
resume-handle start p c rest h = unfold start_reply proceed in ground arith
resume-handle start_array p c rest h = unfold start_reply proceed in ground arith
resume-handle string p c rest h = unfold text_byte proceed in ground arith
resume-handle string_lf p c rest h = unfold finish_line proceed in ground arith
resume-handle error_string p c rest h = unfold text_byte proceed in ground arith
resume-handle error_lf p c rest h = unfold finish_line proceed in ground arith
resume-handle integer p c rest h = unfold number_byte proceed in ground arith
resume-handle integer_lf p c rest h = unfold fail proceed in ground arith
resume-handle bulk_size p c rest h = unfold number_byte proceed in ground arith
resume-handle bulk_size_lf p c rest h =
    run-cons bulk_size_lf p c rest ∙ elim (Bool-cases (c == b'\n')) [
      | inl e ↦ rw e (
          resume-bulk_header (buf_to_long p.buf)
            (record p { bulk_size = buf_to_long p.buf; buf = [] }) rest refl refl)
      | inr e ↦ unfold fail resume_on in rw e refl
    ]
resume-handle bulk p c rest h =
    let n = pos_part p.bulk_size - 1 in
    let e : p.bulk_size ≡ pos (suc n) = positive p.bulk_size h in
    ground (arith, run_bulk (c ∷ rest) p n e)
resume-handle bulk_cr p c rest h = unfold fail proceed in ground arith
resume-handle bulk_lf p c rest h = unfold finish_line proceed in ground arith
resume-handle array_size p c rest h = unfold number_byte proceed in ground arith
resume-handle array_size_lf p c rest h = unfold array_header proceed in ground arith

-- What a round leaves: a ready state, and no more bytes than it was given.
abbrev pub Leaves : Bytes → Step → Type 0
Leaves rest (reject q unread) = length unread ≤ length rest
Leaves rest (next state q unread) = IsReady state q × (length unread ≤ length rest)

bulk_header-Leaves :
    (z : ℤ) (p : Parser) (rest : Bytes) → p.bulk_size ≡ z → Leaves rest (bulk_header z p rest)
unfolding bulk_header fail
bulk_header-Leaves (negsuc zero) p rest e = omega arith
bulk_header-Leaves (negsuc (suc n)) p rest e = omega arith
bulk_header-Leaves (pos zero) p rest e = omega arith
bulk_header-Leaves (pos (suc n)) p rest e =
    ground (arith, length-drop (min (suc n) (length rest)) rest)

bulk_bytes-Leaves :
    (z : ℤ) (p : Parser) (c : ℕ) (rest : Bytes)
    → 0 < pos_part z
    → Leaves rest (bulk_bytes z p (c ∷ rest))
unfolding bulk_bytes fail
bulk_bytes-Leaves (pos n) p c rest h =
    ground (arith, length-drop (min (suc (length rest)) n) (c ∷ rest))
bulk_bytes-Leaves (negsuc n) p c rest h = omega arith

array_header-Leaves : (z : ℤ) (p : Parser) (rest : Bytes) → Leaves rest (array_header z p rest)
unfolding array_header fail
array_header-Leaves (negsuc zero) p rest = omega arith
array_header-Leaves (negsuc (suc n)) p rest = omega arith
array_header-Leaves (pos zero) p rest = omega arith
array_header-Leaves (pos (suc n)) p rest = omega arith

pub handle-Leaves :
    (state : State) (p : Parser) (c : ℕ) (rest : Bytes)
    → IsReady state p
    → Leaves rest (handle state c p rest)
unfolding handle
handle-Leaves start p c rest h = unfold start_reply in ground arith
handle-Leaves start_array p c rest h = unfold start_reply in ground arith
handle-Leaves string p c rest h = unfold text_byte in ground arith
handle-Leaves string_lf p c rest h = unfold finish_line in ground arith
handle-Leaves error_string p c rest h = unfold text_byte in ground arith
handle-Leaves error_lf p c rest h = unfold finish_line in ground arith
handle-Leaves integer p c rest h = unfold number_byte in ground arith
handle-Leaves integer_lf p c rest h = unfold fail in ground arith
handle-Leaves bulk_size p c rest h = unfold number_byte in ground arith
handle-Leaves bulk_size_lf p c rest h = elim (Bool-cases (c == b'\n')) [
  | inl e ↦ rw e (bulk_header-Leaves _ _ rest refl)
  | inr e ↦ unfold fail in rw e (omega arith)
]
handle-Leaves bulk p c rest h = bulk_bytes-Leaves p.bulk_size p c rest h
handle-Leaves bulk_cr p c rest h = unfold fail in ground arith
handle-Leaves bulk_lf p c rest h = unfold finish_line in ground arith
handle-Leaves array_size p c rest h = unfold number_byte in ground arith
handle-Leaves array_size_lf p c rest h = elim (Bool-cases (c == b'\n')) [
  | inl e ↦ rw e (array_header-Leaves (buf_to_long p.buf) p rest)
  | inr e ↦ unfold fail in rw e (omega arith)
]

abbrev pub Settles : State → Settled → Type 0
Settles state (breaks q) = IsReady state q
Settles state (goes_on q) = IsReady state q

pub settle-Settles : (state : State) (p : Parser) → IsReady state p → Settles state (settle state p)
unfolding settle
settle-Settles start p h = unfold settle_start in ground arith
settle-Settles bulk p h = h
settle-Settles _ p h = tt

loop_round :
    (fuel : ℕ) (s : Step) (rest : Bytes)
    → Leaves rest s
    → length rest ≤ fuel
    → ((state : State) (p : Parser) (chunk : Bytes)
        → IsReady state p
        → length chunk ≤ fuel
        → loop fuel state p chunk ≡ run state p chunk)
    → (elim s [
      | reject q unread ↦ rejected q unread
      | next state q unread ↦ elim (settle state q) [
        | breaks r ↦ stopped state r unread
        | goes_on r ↦ loop fuel state r unread
      ]
    ])
      ≡ resume s
unfolding resume
loop_round fuel (reject q unread) rest l short ih = refl
loop_round fuel (next state q unread) rest (ready, l) short ih =
    go (settle state q) (settle-Settles state q ready)
  where
    go :
        (t : Settled)
        → Settles state t
        → (elim t [ breaks r ↦ stopped state r unread | goes_on r ↦ loop fuel state r unread ])
          ≡ (elim t [ breaks r ↦ stopped state r unread | goes_on r ↦ run state r unread ])
    go (breaks r) _ = refl
    go (goes_on r) ready' = ih state r unread ready' (omega arith)

-- With fuel for every byte the loop is the run by single bytes.
pub loop-run :
    (fuel : ℕ) (state : State) (p : Parser) (chunk : Bytes)
    → IsReady state p
    → length chunk ≤ fuel
    → loop fuel state p chunk ≡ run state p chunk
unfolding loop
loop-run zero state p [] ready short = unfold run in refl
loop-run (suc fuel) state p [] ready short = unfold run in refl
loop-run zero state p (c ∷ rest) ready short = absurd (omega arith)
loop-run (suc fuel) state p (c ∷ rest) ready short =
    loop_round fuel (handle state c p rest) rest (handle-Leaves state p c rest ready) (omega arith)
      (loop-run fuel)
    ∙ sym (resume-handle state p c rest ready)
