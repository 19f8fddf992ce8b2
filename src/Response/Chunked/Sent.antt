-- ===== src/Response/Chunked/Sent.antt =====
-- What the connection has sent when it has taken the end of a chunked body.
use da4qi.Base.{
  List, [], ◌∷◌, ◌++◌, Bool, true, false, Bytes, ℕ, is_empty, All-append, append-cons, ◌≡◌, ◌≢◌,
  refl, sym, ap, ap₂, subst, ◌∙◌, inl, inr, append_assoc, append-nil, All, length, ◌<◌, some, codes,
  List-cases,
}
use da4qi.Response.Hex.{dec_int_to_hex_str}
use da4qi.Response.Chunked.{ChunkedBodies, chunk_data, last_data, push_back}
use da4qi.Response.Chunked.Decode.{decode, chunks, decode-chunks}
use da4qi.Response.Chunked.Sender.{
  Task, next_due, writing, ended, given_up, Sender, new_sender, push_chunked_body, write_popped,
  do_write_next_chunked_body, do_write_chunked_body_finished, Step, pushed, taken, written, Reach,
  here, later,
}

-- The entries that calls of PushBack leave.
abbrev entries : List (Bytes × Bool) → ChunkedBodies
entries [] = []
entries ((body, true) ∷ ps) = (last_data, false) ∷ ([], true) ∷ entries ps
entries ((body, false) ∷ ps) = (chunk_data body, false) ∷ entries ps

-- The data of entries that are not the mark.
abbrev contents : ChunkedBodies → List Bytes
contents [] = []
contents ((data', true) ∷ es) = contents es
contents ((data', false) ∷ es) = data' ∷ contents es

abbrev IsBody : Bytes × Bool → Type 0
IsBody (data', is_last) = is_last ≡ false

-- What was taken: bodies, and the mark as the last entry when the sender has ended.
abbrev TakenSoFar : Task → ChunkedBodies → Type 0
TakenSoFar ended popped = (es : ChunkedBodies) × All IsBody es × (popped ≡ es ++ ([], true) ∷ [])
TakenSoFar _ popped = All IsBody popped

record IsSending (s : Sender) : Type 0 where
  all_kept : s.popped ++ s.bodies ≡ entries s.pushes
  in_order : s.sent ≡ contents s.popped
  taken_so_far : TakenSoFar s.task s.popped

-- Only the mark is empty.
abbrev IsEntry : Bytes × Bool → Type 0
IsEntry (data', true) = data' ≡ []
IsEntry (data', false) = is_empty data' ≡ false

is_empty-append : (xs : Bytes) (y : ℕ) (ys : Bytes) → is_empty (xs ++ y ∷ ys) ≡ false
is_empty-append [] y ys = refl
is_empty-append (x ∷ xs) y ys = refl

is_empty-chunk_data : (b : Bytes) → is_empty (chunk_data b) ≡ false
is_empty-chunk_data b =
    ap is_empty (append_assoc (dec_int_to_hex_str (length b)) (codes "\r\n") (b ++ codes "\r\n"))
    ∙ is_empty-append (dec_int_to_hex_str (length b)) 13 (10 ∷ b ++ codes "\r\n")

entries-IsEntry : (ps : List (Bytes × Bool)) → All IsEntry (entries ps)
entries-IsEntry [] = tt
entries-IsEntry ((b, true) ∷ ps) = (refl, (refl, entries-IsEntry ps))
entries-IsEntry ((b, false) ∷ ps) = (is_empty-chunk_data b, entries-IsEntry ps)

All-middle :
    (xs : ChunkedBodies) (y : Bytes × Bool) (ys : ChunkedBodies)
    → All IsEntry (xs ++ y ∷ ys)
    → IsEntry y
All-middle [] y ys (h, _) = h
All-middle (x ∷ xs) y ys (_, h) = All-middle xs y ys h

contents-append : (es fs : ChunkedBodies) → contents (es ++ fs) ≡ contents es ++ contents fs
contents-append [] fs = refl
contents-append ((data', true) ∷ es) fs = contents-append es fs
contents-append ((data', false) ∷ es) fs = ap (◌∷◌ data') (contents-append es fs)

push_back-append :
    (body : Bytes) (is_last : Bool) (es fs : ChunkedBodies)
    → es ++ push_back body is_last fs ≡ push_back body is_last (es ++ fs)
unfolding push_back
push_back-append body true es fs = simp append_assoc refl
push_back-append body false es fs = simp append_assoc refl

entries-append :
    (ps : List (Bytes × Bool)) (body : Bytes) (is_last : Bool)
    → entries (ps ++ (body, is_last) ∷ []) ≡ push_back body is_last (entries ps)
entries-append [] body true = unfold push_back in refl
entries-append [] body false = unfold push_back in refl
entries-append ((b, true) ∷ ps) body is_last =
    ap (λ es. (last_data, false) ∷ ([], true) ∷ es) (entries-append ps body is_last)
    ∙ push_back-append body is_last ((last_data, false) ∷ ([], true) ∷ []) (entries ps)
entries-append ((b, false) ∷ ps) body is_last =
    ap (◌∷◌ (chunk_data b, false)) (entries-append ps body is_last)
    ∙ push_back-append body is_last ((chunk_data b, false) ∷ []) (entries ps)

pushed-IsSending :
    (body : Bytes) (is_last : Bool) (s : Sender)
    → IsSending s
    → IsSending (push_chunked_body body is_last s)
unfolding push_chunked_body
pushed-IsSending body is_last s h = record {
  all_kept =
      push_back-append body is_last s.popped s.bodies
      ∙ ap (push_back body is_last) h.all_kept
      ∙ sym (entries-append s.pushes body is_last);
  in_order = h.in_order;
  taken_so_far = h.taken_so_far;
}

bodies_taken :
    (t : Task) (popped : ChunkedBodies) → t ≡ next_due → TakenSoFar t popped → All IsBody popped
bodies_taken next_due popped e h = h
bodies_taken writing popped e h = h
bodies_taken ended popped e h = cc
bodies_taken given_up popped e h = h

popped-IsSending :
    (timeout : Bool) (data' : Bytes) (is_last : Bool) (bodies : ChunkedBodies) (s : Sender)
    → IsEntry (data', is_last)
    → All IsBody s.popped
    → s.bodies ≡ (data', is_last) ∷ bodies
    → IsSending s
    → IsSending (
        write_popped timeout data' is_last
          (record s { bodies = bodies; popped = s.popped ++ (data', is_last) ∷ [] }))
unfolding write_popped
popped-IsSending timeout data' true bodies s entry before e h = record {
  all_kept =
      sym (append-cons s.popped (data', true) bodies)
      ∙ ap (λ l. s.popped ++ l) (sym e)
      ∙ h.all_kept;
  in_order =
      h.in_order
      ∙ sym (append-nil (contents s.popped))
      ∙ sym (contents-append s.popped ((data', true) ∷ []));
  taken_so_far = (s.popped, before, rw entry refl);
}
popped-IsSending timeout data' false bodies s entry before e h = rw entry (record {
  all_kept =
      sym (append-cons s.popped (data', false) bodies)
      ∙ ap (λ l. s.popped ++ l) (sym e)
      ∙ h.all_kept;
  in_order =
      ap (λ l. l ++ data' ∷ []) h.in_order ∙ sym (contents-append s.popped ((data', false) ∷ []));
  taken_so_far = All-append IsBody s.popped ((data', false) ∷ []) before (refl, tt);
})

idle-IsSending :
    (timeout : Bool) (s : Sender)
    → s.task ≡ next_due
    → IsSending s
    → IsSending (write_popped timeout [] false s)
unfolding write_popped
idle-IsSending true s due h = record {
  all_kept = h.all_kept;
  in_order = h.in_order;
  taken_so_far = bodies_taken s.task s.popped due h.taken_so_far;
}
idle-IsSending false s due h = record {
  all_kept = h.all_kept;
  in_order = h.in_order;
  taken_so_far = bodies_taken s.task s.popped due h.taken_so_far;
}

taken-IsSending :
    (timeout : Bool) (s : Sender)
    → s.task ≡ next_due
    → IsSending s
    → IsSending (do_write_next_chunked_body timeout s)
unfolding do_write_next_chunked_body write_popped
taken-IsSending timeout s due h = elim (List-cases s.bodies) [
  | inl e ↦ subst IsSending (empty timeout s e) (idle-IsSending timeout s due h)
  | inr ((data', is_last), bodies, e) ↦ rw e (
      popped-IsSending timeout data' is_last bodies s
        (All-middle s.popped (data', is_last) bodies
          (rw (← h.all_kept, e) at (entries-IsEntry s.pushes)))
        (bodies_taken s.task s.popped due h.taken_so_far) e h)
]
  where
    empty :
        (timeout : Bool) (s : Sender)
        → s.bodies ≡ []
        → write_popped timeout [] false s ≡ do_write_next_chunked_body timeout s
    empty timeout s e = rw e refl

writing_taken :
    (t : Task) (popped : ChunkedBodies) → t ≡ writing → TakenSoFar t popped → All IsBody popped
writing_taken next_due popped e h = h
writing_taken writing popped e h = h
writing_taken ended popped e h = cc
writing_taken given_up popped e h = h

written-IsSending :
    (failed : Bool) (s : Sender)
    → s.task ≡ writing
    → IsSending s
    → IsSending (do_write_chunked_body_finished failed s)
unfolding do_write_chunked_body_finished
written-IsSending true s w h = record {
  all_kept = h.all_kept;
  in_order = h.in_order;
  taken_so_far = writing_taken s.task s.popped w h.taken_so_far;
}
written-IsSending false s w h = record {
  all_kept = h.all_kept;
  in_order = h.in_order;
  taken_so_far = writing_taken s.task s.popped w h.taken_so_far;
}

Step-IsSending : {s t : Sender} → Step s t → IsSending s → IsSending t
Step-IsSending {s} (pushed body is_last) h = pushed-IsSending body is_last s h
Step-IsSending {s} (taken timeout due) h = taken-IsSending timeout s due h
Step-IsSending {s} (written failed w) h = written-IsSending failed s w h

Reach-IsSending : {s t : Sender} → IsSending s → Reach s t → IsSending t
Reach-IsSending h here = h
Reach-IsSending h (later r st) = Step-IsSending st (Reach-IsSending h r)

new_sender-IsSending : IsSending new_sender
unfolding new_sender
new_sender-IsSending = record { all_kept = refl; in_order = refl; taken_so_far = tt }

-- The bodies given before the last one is marked.
abbrev pub given : List (Bytes × Bool) → List Bytes
given [] = []
given ((body, true) ∷ ps) = []
given ((body, false) ∷ ps) = body ∷ given ps

abbrev pub concat : List Bytes → Bytes
concat [] = []
concat (d ∷ ds) = d ++ concat ds

uncons : {A : Type 0} {x y : A} {xs ys : List A} → x ∷ xs ≡ y ∷ ys → (x ≡ y) × (xs ≡ ys)
uncons e = (cc, cc)

-- The data taken up to the mark.
contents-chunks :
    (ps : List (Bytes × Bool)) (es bodies : ChunkedBodies)
    → All IsBody es
    → (es ++ ([], true) ∷ []) ++ bodies ≡ entries ps
    → concat (contents (es ++ ([], true) ∷ [])) ≡ chunks (given ps)
contents-chunks [] [] bodies h e = cc
contents-chunks [] (x ∷ es) bodies h e = cc
contents-chunks ((b, true) ∷ ps) [] bodies h e = cc
contents-chunks ((b, true) ∷ ps) ((d, l) ∷ []) bodies h e =
    let first = (uncons e).0 in
    rw (ap (λ (p : Bytes × Bool). p.1) first)
      (ap (λ t. t ++ []) (ap (λ (p : Bytes × Bool). p.0) first))
contents-chunks ((b, true) ∷ ps) (x ∷ y ∷ es) bodies (_, (hy, _)) e =
    cc (ap (λ (p : Bytes × Bool). p.1) (uncons (uncons e).1).0, hy)
contents-chunks ((b, false) ∷ ps) [] bodies h e = cc
contents-chunks ((b, false) ∷ ps) ((d, l) ∷ es) bodies (_, hs) e =
    let first = (uncons e).0 in
    rw (ap (λ (p : Bytes × Bool). p.1) first) (
      ap₂ ◌++◌ (ap (λ (p : Bytes × Bool). p.0) first)
        (contents-chunks ps es bodies hs (uncons e).1))

ended_taken :
    (t : Task) (popped : ChunkedBodies)
    → t ≡ ended
    → TakenSoFar t popped
    → (es : ChunkedBodies) × All IsBody es × (popped ≡ es ++ ([], true) ∷ [])
ended_taken next_due popped e h = cc
ended_taken writing popped e h = cc
ended_taken ended popped e h = h
ended_taken given_up popped e h = cc

-- Whatever calls a handler makes to give the chunks, none of them empty, and however these calls
-- come between the steps of the connection that sends them: once the connection has taken the end,
-- what it has sent is read as exactly the bodies given before the end, in order, whatever follows.
pub decode-sent :
    (s : Sender) (fuel : ℕ) (rest : Bytes)
    → Reach new_sender s
    → s.task ≡ ended
    → All (λ b. b ≢ []) (given s.pushes)
    → length (given s.pushes) < fuel
    → decode fuel (concat s.sent ++ rest) ≡ some (given s.pushes, rest)
decode-sent s fuel rest r e some_bytes enough =
    let h = Reach-IsSending new_sender-IsSending r in
    let (es, bodies, popped) = ended_taken s.task s.popped e h.taken_so_far in
    let wire : concat s.sent ≡ chunks (given s.pushes) =
      ap concat (h.in_order ∙ ap contents popped)
      ∙ contents-chunks s.pushes es s.bodies bodies
          (ap (λ l. l ++ s.bodies) (sym popped) ∙ h.all_kept) in
    ap (λ t. decode fuel (t ++ rest)) wire
    ∙ decode-chunks fuel (given s.pushes) rest enough some_bytes
