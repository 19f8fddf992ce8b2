-- ===== src/Tests/Response.antt =====
-- Responses that are sent in chunks.
use da4qi.Base.{[], ◌++◌, true, false, some, codes, ◌≡◌, refl, arith}
use da4qi.Response.Hex.{dec_int_to_hex_str}
use da4qi.Response.Chunked.{push_back}
use da4qi.Response.Chunked.Decode.{decode}
use da4qi.Response.Chunked.Sender.{
  Sender, new_sender, push_chunked_body, do_write_next_chunked_body, do_write_chunked_body_finished,
  pushed, taken, written, Reach, here, later,
}
use da4qi.Response.Chunked.Sent.{given, concat, decode-sent}

-- Two chunks and the end, the first one taken before the second one is given.
abbrev first_given : Sender
first_given = push_chunked_body (codes "hello") false new_sender

abbrev first_taken : Sender
first_taken = do_write_next_chunked_body false first_given

abbrev all_given : Sender
all_given = push_chunked_body [] true (push_chunked_body (codes "world!") false first_taken)

abbrev second_taken : Sender
second_taken = do_write_next_chunked_body false (do_write_chunked_body_finished false all_given)

abbrev last_taken : Sender
last_taken = do_write_next_chunked_body false (do_write_chunked_body_finished false second_taken)

abbrev all_sent : Sender
all_sent = do_write_next_chunked_body false (do_write_chunked_body_finished false last_taken)

all_sent-Reach : Reach new_sender all_sent
unfolding new_sender push_chunked_body do_write_next_chunked_body do_write_chunked_body_finished
    push_back dec_int_to_hex_str
all_sent-Reach =
    let one : Reach new_sender first_given = later here (pushed (codes "hello") false) in
    let two : Reach new_sender first_taken = later one (taken false refl) in
    let three : Reach new_sender (push_chunked_body (codes "world!") false first_taken) =
      later two (pushed (codes "world!") false) in
    let four : Reach new_sender all_given = later three (pushed [] true) in
    let five : Reach new_sender (do_write_chunked_body_finished false all_given) =
      later four (written false refl) in
    let six : Reach new_sender second_taken = later five (taken false refl) in
    let seven : Reach new_sender (do_write_chunked_body_finished false second_taken) =
      later six (written false refl) in
    let eight : Reach new_sender last_taken = later seven (taken false refl) in
    let nine : Reach new_sender (do_write_chunked_body_finished false last_taken) =
      later eight (written false refl) in
    later nine (taken false refl)

decode-sent_example :
    decode 3 (concat all_sent.sent ++ codes "rest") ≡ some (given all_sent.pushes, codes "rest")
unfolding new_sender push_chunked_body do_write_next_chunked_body do_write_chunked_body_finished
    push_back dec_int_to_hex_str
decode-sent_example =
    decode-sent all_sent 3 (codes "rest") all_sent-Reach refl ((λ e. cc e), ((λ e. cc e), tt))
      (omega arith)
