-- ===== src/Redis/Parser/Chunks.antt =====
-- How a reply that comes in several chunks is read.
use da4qi.Base.{
  ℕ, ◌+◌, ◌≤◌, [], ◌∷◌, ◌++◌, Bool, true, false, ◌&&◌, ◌≡◌, ◌≢◌, refl, sym, subst, ap, ◌∙◌, arith,
  Bytes, length, length-append, if◌then◌else◌, inl, inr, Bool-cases, is_empty,
}
use da4qi.Base.Int.{pos_part}
use da4qi.Redis.Parser.{
  Parser, State, start, bulk, Step, reject, next, handle, Settled, breaks, goes_on, settle,
  settle_start, Outcome, rejected, stopped, parse, Parsed, incompleted, conclude, top_state, pop,
  is_start,
}
use da4qi.Redis.Parser.Stepwise.{
  IsReady, run, proceed, resume_on, run-cons, Leaves, handle-Leaves, Settles, settle-Settles,
  loop-run,
}

-- Between two replies: no array is open and the next byte starts a reply.
abbrev is_idle : State → Parser → Bool
is_idle state p = is_empty p.frames && is_start state

-- What more bytes do to a run that has ended.
extend : Outcome → Bytes → Outcome
extend (rejected p unread) ys = rejected p (unread ++ ys)
extend (stopped state p unread) ys =
    if is_idle state p then stopped state p (unread ++ ys) else run state p ys

-- A break leaves the parser idle, and going on leaves it busy.
abbrev Marks : State → Settled → Type 0
Marks state (breaks q) = is_idle state q ≡ true
Marks state (goes_on q) = is_idle state q ≡ false

settle-Marks : (state : State) (p : Parser) → Marks state (settle state p)
unfolding settle
settle-Marks start p = unfold settle_start in ground arith
settle-Marks _ p = ground arith

proceed-append :
    (state : State) (p : Parser) (xs ys : Bytes)
    → ((q : Parser) → is_idle state q ≡ false → run state q (xs ++ ys) ≡ extend (run state q xs) ys)
    → proceed state p (xs ++ ys) ≡ extend (proceed state p xs) ys
unfolding proceed
proceed-append state p xs ys ih = go (settle state p) (settle-Marks state p)
  where
    go :
        (t : Settled)
        → Marks state t
        → (elim t [ breaks q ↦ stopped state q (xs ++ ys) | goes_on q ↦ run state q (xs ++ ys) ])
          ≡ extend (elim t [ breaks q ↦ stopped state q xs | goes_on q ↦ run state q xs ]) ys
    go (breaks q) e = unfold extend in rw e refl
    go (goes_on q) e = ih q e

resume_on-append :
    (s : Step) (xs ys : Bytes)
    → ((state : State) (q : Parser)
        → is_idle state q ≡ false
        → run state q (xs ++ ys) ≡ extend (run state q xs) ys)
    → resume_on s (xs ++ ys) ≡ extend (resume_on s xs) ys
unfolding resume_on extend
resume_on-append (reject q _) xs ys ih = refl
resume_on-append (next state q _) xs ys ih = proceed-append state q xs ys (ih state)

run-append :
    (xs ys : Bytes) (state : State) (p : Parser)
    → is_idle state p ≡ false
    → run state p (xs ++ ys) ≡ extend (run state p xs) ys
run-append [] ys state p busy = unfold run extend in rw busy refl
run-append (c ∷ xs) ys state p busy =
    run-cons state p c (xs ++ ys)
    ∙ resume_on-append (handle state c p []) xs ys (run-append xs ys)
    ∙ ap (λ o. extend o ys) (sym (run-cons state p c xs))

-- A run ends ready, with no more bytes unread than it was given, and with none unless it is idle.
abbrev Ends : ℕ → Outcome → Type 0
Ends n (rejected p unread) = length unread ≤ n
Ends n (stopped state p unread) =
    IsReady state p × (length unread ≤ n) × (is_idle state p ≡ false → unread ≡ [])

proceed-Ends :
    (n : ℕ) (state : State) (p : Parser) (rest : Bytes)
    → IsReady state p
    → length rest ≤ n
    → ((q : Parser) → IsReady state q → Ends n (run state q rest))
    → Ends n (proceed state p rest)
unfolding proceed
proceed-Ends n state p rest ready short ih =
    go (settle state p) (settle-Settles state p ready) (settle-Marks state p)
  where
    go :
        (t : Settled)
        → Settles state t
        → Marks state t
        → Ends n (elim t [ breaks q ↦ stopped state q rest | goes_on q ↦ run state q rest ])
    go (breaks q) ready' idle = (ready', short, λ busy. cc)
    go (goes_on q) ready' _ = ih q ready'

step-Ends :
    (xs : Bytes) (n : ℕ) (s : Step)
    → Leaves [] s
    → length xs ≤ n
    → ((state : State) (p : Parser) → IsReady state p → Ends n (run state p xs))
    → Ends n (resume_on s xs)
unfolding resume_on
step-Ends xs n (reject q _) l short ih = short
step-Ends xs n (next state q _) l short ih = proceed-Ends n state q xs l.0 short (ih state)

run-Ends :
    (xs : Bytes) (n : ℕ) (state : State) (p : Parser)
    → IsReady state p
    → length xs ≤ n
    → Ends n (run state p xs)
run-Ends [] n state p ready short = unfold run in (ready, short, λ _. refl)
run-Ends (c ∷ xs) n state p ready short = rw run-cons (
    step-Ends xs n (handle state c p []) (handle-Leaves state p c [] ready) (omega arith)
      (λ s q ready'. run-Ends xs n s q ready' (omega arith)))

-- The state in which the next chunk begins.
abbrev pub IsResumable : Parser → Type 0
IsResumable p = IsReady (top_state p.states) p

IsReady-size :
    (state : State) (p q : Parser) → p.bulk_size ≡ q.bulk_size → IsReady state p → IsReady state q
IsReady-size bulk p q e h = omega (arith, ap pos_part e)
IsReady-size _ p q e h = tt

unfoldable pub begin : Parser → Parser
begin p = record p { states = pop p.states }

pub parse-run :
    (p : Parser) (xs : Bytes)
    → IsResumable p
    → parse p xs ≡ conclude (length xs) (run (top_state p.states) (begin p) xs)
unfolding parse begin
parse-run p xs ready = ap (conclude (length xs)) (
    loop-run (length xs) (top_state p.states) (begin p) xs
      (IsReady-size (top_state p.states) p (begin p) refl ready) (omega arith))

abbrev pub at_offset : ℕ → Parsed → Parsed
at_offset n r = record r { position = n + r.position }

conclude_offset :
    (n m : ℕ) (o : Outcome) → Ends m o → conclude (n + m) o ≡ at_offset n (conclude m o)
unfolding conclude
conclude_offset n m (rejected p unread) ends = ground arith
conclude_offset n m (stopped state p unread) ends = ground arith

conclude-extend_idle :
    (xs ys : Bytes) (o : Outcome)
    → (conclude (length xs) o).result ≢ incompleted
    → conclude (length (xs ++ ys)) (extend o ys) ≡ conclude (length xs) o
unfolding conclude extend
conclude-extend_idle xs ys (rejected p unread) h =
    ground (arith, length-append xs ys, length-append unread ys)
conclude-extend_idle xs ys (stopped state p unread) h =
    ground (arith, length-append xs ys, length-append unread ys)

continued :
    (state : State) (p : Parser) (xs ys : Bytes)
    → IsReady state p
    → conclude (length xs + length ys) (run state p ys)
      ≡ at_offset (length xs) (parse (record p { states = state ∷ p.states }) ys)
continued state p xs ys ready =
    let q : Parser = record p { states = state ∷ p.states } in
    let same : parse q ys ≡ conclude (length ys) (run state p ys) =
      (unfold top_state pop begin in parse-run q ys (IsReady-size state p q refl ready)) in
    conclude_offset (length xs) (length ys) (run state p ys)
      (run-Ends ys (length ys) state p ready (omega arith))
    ∙ ap (at_offset (length xs)) (sym same)

conclude-extend_busy :
    (xs ys : Bytes) (o : Outcome)
    → (conclude (length xs) o).result ≡ incompleted
    → Ends (length xs) o
    → conclude (length (xs ++ ys)) (extend o ys)
      ≡ at_offset (length xs) (parse (conclude (length xs) o).after ys)
unfolding conclude extend
conclude-extend_busy xs ys (rejected p unread) h ends = cc
conclude-extend_busy xs ys (stopped state p unread) h (ready, short, none_left) =
    elim (Bool-cases (is_idle state p)) [
      | inl idle ↦ cc (rw idle at h)
      | inr busy ↦ rw (busy, length-append) (continued state p xs ys ready)
    ]

-- The outcome of a chunk that ys follow.
run-extend :
    (xs ys : Bytes) (state : State) (p : Parser)
    → xs ≢ []
    → run state p (xs ++ ys) ≡ extend (run state p xs) ys
run-extend [] ys state p h = absurd (h refl)
run-extend (c ∷ xs) ys state p h =
    run-cons state p c (xs ++ ys)
    ∙ resume_on-append (handle state c p []) xs ys (run-append xs ys)
    ∙ ap (λ o. extend o ys) (sym (run-cons state p c xs))

parse-extend :
    (p : Parser) (xs ys : Bytes)
    → IsResumable p
    → xs ≢ []
    → parse p (xs ++ ys)
      ≡ conclude (length (xs ++ ys)) (extend (run (top_state p.states) (begin p) xs) ys)
parse-extend p xs ys ready h =
    parse-run p (xs ++ ys) ready
    ∙ ap (conclude (length (xs ++ ys))) (run-extend xs ys (top_state p.states) (begin p) h)

-- If a parser that is ready for a chunk is left inside a reply by a chunk that is not empty, it
-- reads the reply from the next chunk as if both had come as one: the result, the parser and the
-- position, which counts on from the first chunk, are the same.
pub parse-append :
    (p : Parser) (xs ys : Bytes)
    → IsResumable p
    → xs ≢ []
    → (parse p xs).result ≡ incompleted
    → parse p (xs ++ ys) ≡ at_offset (length xs) (parse (parse p xs).after ys)
unfolding begin
parse-append p xs ys ready h e =
    let same = parse-run p xs ready in
    let o = run (top_state p.states) (begin p) xs in
    let ends : Ends (length xs) o =
      run-Ends xs (length xs) (top_state p.states) (begin p)
        (IsReady-size (top_state p.states) p (begin p) refl ready) (omega arith) in
    parse-extend p xs ys ready h
    ∙ conclude-extend_busy xs ys o (ap (λ r. r.result) (sym same) ∙ e) ends
    ∙ ap (λ (r : Parsed). at_offset (length xs) (parse r.after ys)) (sym same)

-- Once a parser that was ready for a chunk has completed or refused a reply in it, the bytes behind
-- the chunk change nothing.
pub parse-append_settled :
    (p : Parser) (xs ys : Bytes)
    → IsResumable p
    → xs ≢ []
    → (parse p xs).result ≢ incompleted
    → parse p (xs ++ ys) ≡ parse p xs
parse-append_settled p xs ys ready h e =
    let same = parse-run p xs ready in
    parse-extend p xs ys ready h ∙ conclude-extend_idle xs ys _ (rw same at e) ∙ sym same

-- The position lies in the chunk.
pub position-le : (p : Parser) (xs : Bytes) → IsResumable p → (parse p xs).position ≤ length xs
position-le p xs ready = rw (parse-run p xs ready) (conclude_le (length xs) (run _ _ xs))
  where
    conclude_le : (n : ℕ) (o : Outcome) → (conclude n o).position ≤ n
    conclude_le n (rejected p unread) = unfold conclude in omega arith
    conclude_le n (stopped state p unread) = unfold conclude in ground arith

conclude-IsResumable :
    (n m : ℕ) (o : Outcome)
    → Ends m o
    → (conclude n o).result ≡ incompleted
    → IsResumable (conclude n o).after
unfolding conclude top_state
conclude-IsResumable n m (rejected p unread) ends e = cc
conclude-IsResumable n m (stopped state p unread) ends e = elim (Bool-cases (is_idle state p)) [
  | inl idle ↦ absurd (ground arith)
  | inr busy ↦ rw busy (IsReady-size state p (record p { states = state ∷ p.states }) refl (ends.0))
]

-- A parser that a chunk leaves inside a reply is ready for the next chunk: with a bulk string open, a
-- positive number of its bytes is missing.
pub parse-IsResumable :
    (p : Parser) (xs : Bytes)
    → IsResumable p
    → (parse p xs).result ≡ incompleted
    → IsResumable (parse p xs).after
parse-IsResumable p xs ready e =
    let same = parse-run p xs ready in
    let o = run (top_state p.states) (begin p) xs in
    let ends : Ends (length xs) o =
      run-Ends xs (length xs) (top_state p.states) (begin p)
        (unfold begin in IsReady-size (top_state p.states) p (begin p) refl ready) (omega arith) in
    subst (λ (r : Parsed). IsResumable r.after) (sym same)
      (conclude-IsResumable (length xs) (length xs) o ends
        (ap (λ (r : Parsed). r.result) (sym same) ∙ e))
