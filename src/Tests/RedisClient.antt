-- ===== src/Tests/RedisClient.antt =====
-- The redis client.
use da4qi.Base.{ℕ, ◌+◌, ◌≤◌, List, [], ◌∷◌, ◌++◌, none, some, codes, length, drop, ◌≡◌, refl, arith}
use da4qi.Base.Decimal.{to_string}
use da4qi.Redis.Value.{RedisValue, bytes_value, error_value}
use da4qi.Redis.Wire.{bulk_string, encode, wire}
use da4qi.Redis.Command.{make_command}
use da4qi.Redis.Parser.{new_parser, parse}
use da4qi.Redis.Parser.Replies.{IsFresh-IsResumable}
use da4qi.Redis.Client.{
  auto_reconnect, Client, CommandNode, Order, failed, parse_loop, new_client, command,
  start_async_write, on_read, on_write,
}
use da4qi.Redis.Client.Steps
use da4qi.Redis.Client.Steps.{Reach, here, later}
use da4qi.Redis.Client.Orderly.{IsOrderly}
use da4qi.Redis.Client.Safety.{Reach-IsOrderly, sent_one_ahead}
use da4qi.Redis.Client.Scanning.{parse_loop-once, scan_of}
use da4qi.Redis.Client.Reads.{deliver_all, deliver_all-answer}
use da4qi.Redis.Client.Answered.{after_answer}
use da4qi.Redis.Client.Stalled.{IsStalled, on_read-IsStalled}

-- Handlers are numbers; the first one asks for a further key when it gets its answer.
abbrev react : ℕ → RedisValue → List (Order ℕ)
react h v = record { cmd = codes "GET"; args = codes "next" ∷ []; on = none } ∷ []

abbrev client : Client ℕ ℕ
client = new_client auto_reconnect

abbrev asked : Client ℕ ℕ
asked = command (codes "GET") (codes "a" ∷ []) (some 1) client

abbrev asked_twice : Client ℕ ℕ
asked_twice = command (codes "GET") (codes "b" ∷ []) (some 2) asked

asked_twice-Reach : Reach react client asked_twice
asked_twice-Reach =
    let one : Reach react client asked =
      later here (Steps.Step.command (codes "GET") (codes "a" ∷ []) (some 1)) in
    later one (Steps.Step.command (codes "GET") (codes "b" ∷ []) (some 2))

Reach-IsOrderly_example : IsOrderly asked_twice
Reach-IsOrderly_example = Reach-IsOrderly react auto_reconnect asked_twice-Reach

one_ahead :
    (length asked_twice.answers ≤ length asked_twice.sent)
    × (length asked_twice.sent ≤ length asked_twice.answers + 1)
one_ahead = sent_one_ahead react auto_reconnect asked_twice-Reach

one_call :
    parse_loop 9 new_parser 2 (codes "xx+OK\r\nmore")
    ≡ scan_of 2 (parse new_parser (drop 2 (codes "xx+OK\r\nmore")))
one_call =
    parse_loop-once 8 new_parser 2 (codes "xx+OK\r\nmore")
      (IsFresh-IsResumable new_parser (unfold new_parser in (refl, refl))) (omega arith)

-- The write has ended, and the reply comes in two chunks.
abbrev waiting : Client ℕ ℕ
waiting = record asked_twice { operations = [] }

abbrev first_of_two : CommandNode ℕ
first_of_two = record { bytes = make_command (codes "GET" ∷ codes "a" ∷ []); on = some 1 }

abbrev second_of_two : CommandNode ℕ
second_of_two = record { bytes = make_command (codes "GET" ∷ codes "b" ∷ []); on = some 2 }

deliver_all-answer_example :
    deliver_all react (codes "$2\r\nh" ∷ codes "i\r\n" ∷ []) (on_write react none waiting)
    ≡ after_answer react first_of_two
        (second_of_two ∷ [])
        (bytes_value (codes "hi"))
        (encode (bulk_string (codes "hi")))
        waiting
unfolding command new_client start_async_write encode wire to_string
deliver_all-answer_example =
    deliver_all-answer react waiting first_of_two (second_of_two ∷ []) (bulk_string (codes "hi"))
      (codes "$2\r\nh") (codes "i\r\n" ∷ []) refl refl (omega arith) (omega arith)
      ((λ e. cc e), ((λ e. cc e), tt)) refl

on_read-IsStalled_example :
    IsStalled waiting.sent (waiting.answers ++ (some 1, error_value (codes "reset")) ∷ []) (
      command
        (codes "GET")
        (codes "c" ∷ [])
        (some 3)
        (on_read react new_parser (some 1) (failed (codes "reset")) waiting))
unfolding command new_client start_async_write
on_read-IsStalled_example =
    on_read-IsStalled react new_parser (some 1) (codes "reset") waiting refl (λ e. cc e)
      (later here (Steps.Step.command (codes "GET") (codes "c" ∷ []) (some 3)))
