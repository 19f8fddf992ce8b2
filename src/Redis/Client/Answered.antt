-- ===== src/Redis/Client/Answered.antt =====
-- What the answer of a command changes, said without the operations of the client (Redis/Client).
use da4qi.Base.{
  List, [], ◌∷◌, ◌++◌, Option, none, some, Bytes, length, append-nil, append_assoc, ◌≡◌, refl, ap,
  ◌∙◌,
}
use da4qi.Redis.Value.{RedisValue}
use da4qi.Redis.Command.{make_command}
use da4qi.Redis.Client.{
  Client, CommandNode, Operation, writing, Order, command, obey, try_on_redis_handler, pop_front,
  start_async_write, answer, move_front,
}

module _ {H : Type 0} where
  -- The data and handlers of the commands that a handler gives for a value.
  abbrev pub node_of : Order H → CommandNode H
  node_of o = record { bytes = make_command (o.cmd ∷ o.args); on = o.on }

  abbrev pub nodes_of : List (Order H) → List (CommandNode H)
  nodes_of [] = []
  nodes_of (o ∷ orders) = node_of o ∷ nodes_of orders

  -- What is sent and written for a queue: the data of its first command.
  abbrev pub next_data : List (CommandNode H) → List Bytes
  next_data [] = []
  next_data (node ∷ nodes) = node.bytes ∷ []

  abbrev pub next_writes : List (CommandNode H) → List (Operation H)
  next_writes [] = []
  next_writes (node ∷ nodes) = writing node.bytes ∷ []

  module _ (react : H → RedisValue → List (Order H)) where
    abbrev pub given_by : Option H → RedisValue → List (CommandNode H)
    given_by none v = []
    given_by (some on) v = nodes_of (react on v)

module _ {H C : Type 0} where
  abbrev pub idle_with : Bytes → Client H C → Client H C
  idle_with xs c = record c { operations = []; reply_buf = xs; reply_parse_beg = length xs }

  start_async_write-first :
      (queue : List (CommandNode H)) (c : Client H C)
      → c.command_queue ≡ queue
      → start_async_write c ≡ record c {
        operations = c.operations ++ next_writes queue;
        sent = c.sent ++ next_data queue;
      }
  unfolding start_async_write
  start_async_write-first [] c e = rw (e, append-nil c.operations, append-nil c.sent) refl
  start_async_write-first (node ∷ nodes) c e = rw e refl

module _ {H C : Type 0} (react : H → RedisValue → List (Order H)) where
  -- The client whose first command is answered: the handler was called, the command has left the
  -- queue, what the handler asked for stands at its end, and the command that is first now is written.
  abbrev pub after_answer :
      CommandNode H → List (CommandNode H) → RedisValue → Bytes → Client H C → Client H C
  after_answer node waiting v buf c =
      let queue = waiting ++ given_by react node.on v in
      record c {
        command_queue = queue;
        operations = next_writes queue;
        reply_buf = buf;
        reply_parse_beg = length buf;
        issued = c.issued ++ given_by react node.on v;
        sent = c.sent ++ next_data queue;
        answers = c.answers ++ (node.on, v) ∷ [];
      }

  -- While a command is in the queue, further ones are only queued.
  obey-queued :
      (orders : List (Order H)) (n : CommandNode H) (ns : List (CommandNode H)) (c : Client H C)
      → obey react orders (record c { command_queue = n ∷ ns }) ≡ record c {
        command_queue = n ∷ ns ++ nodes_of orders;
        issued = c.issued ++ nodes_of orders;
      }
  unfolding obey command
  obey-queued [] n ns c = rw (append-nil ns, append-nil c.issued) refl
  obey-queued (o ∷ orders) n ns c =
      obey-queued orders n (ns ++ node_of o ∷ []) (record c { issued = c.issued ++ node_of o ∷ [] })
      ∙ rw (append_assoc ns (node_of o ∷ []) (nodes_of orders))
          (rw (append_assoc c.issued (node_of o ∷ []) (nodes_of orders)) refl)

  try_on_redis_handler-queued :
      (on : Option H) (v : RedisValue) (n : CommandNode H) (ns : List (CommandNode H))
      (c : Client H C)
      → try_on_redis_handler react on v (record c { command_queue = n ∷ ns }) ≡ record c {
        command_queue = n ∷ ns ++ given_by react on v;
        issued = c.issued ++ given_by react on v;
        answers = c.answers ++ (on, v) ∷ [];
      }
  unfolding try_on_redis_handler
  try_on_redis_handler-queued none v n ns c = rw (append-nil ns, append-nil c.issued) refl
  try_on_redis_handler-queued (some on) v n ns c =
      obey-queued (react on v) n ns (record c { answers = c.answers ++ (some on, v) ∷ [] })

  pub answer-first :
      (node : CommandNode H) (waiting : List (CommandNode H)) (v : RedisValue) (buf : Bytes)
      (c : Client H C)
      → answer react node.on v
          (idle_with buf (record c { command_queue = move_front (node ∷ waiting) }))
        ≡ after_answer node waiting v buf c
  unfolding answer pop_front
  answer-first node waiting v buf c =
      ap (λ d. start_async_write (pop_front d))
        (try_on_redis_handler-queued node.on v (record { bytes = []; on = none }) waiting
          (idle_with buf c))
      ∙ start_async_write-first (waiting ++ given_by react node.on v)
          (record (idle_with buf c) {
            command_queue = waiting ++ given_by react node.on v;
            issued = c.issued ++ given_by react node.on v;
            answers = c.answers ++ (node.on, v) ∷ [];
          })
          refl
