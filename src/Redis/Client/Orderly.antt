-- ===== src/Redis/Client/Orderly.antt =====
-- One command at a time, in the order given: what holds of a client in every state it can reach.
use da4qi.Base.{
  ℕ, List, [], ◌∷◌, ◌++◌, List-cases, Option, none, some, Bytes, append_assoc, ◌≡◌, ◌≢◌, refl, inl,
  inr, arith,
}
use da4qi.Redis.Value.{RedisValue}
use da4qi.Redis.Parser.{Parser}
use da4qi.Redis.Command.{make_command}
use da4qi.Redis.Client.{
  ErrorCode, Client, CommandNode, Order, connect, do_async_connect, reconnect, report,
  start_reconnect_timer, on_connect_finished, on_timer, disconnect, start_async_write, command, pop,
  pop_front, do_async_read_and_parse, start_async_read_and_parse, obey, try_on_redis_handler,
  answer,
}
use da4qi.Redis.Client.Flight.{
  handlers, contents, called, owed, unsent, IsFlight, AreOrderly, handlers-append, contents-append,
  called-append, AreOrderly-first, AreOrderly-queued,
}

pub record IsOrderly {H C : Type 0} (c : Client H C) : Type 0 where
  pub flight : IsFlight c.operations c.command_queue
  pub answered : called c.answers ++ owed c.operations c.command_queue ≡ handlers c.issued
  pub written : c.sent ++ unsent c.operations c.command_queue ≡ contents c.issued

module _ {H C : Type 0} where
  parts :
      (c : Client H C)
      → IsOrderly c
      → AreOrderly c.operations c.command_queue c.answers c.sent c.issued
  parts c h = (h.flight, h.answered, h.written)

  whole :
      (c : Client H C)
      → AreOrderly c.operations c.command_queue c.answers c.sent c.issued
      → IsOrderly c
  whole c (f, a, w) = record { flight = f; answered = a; written = w }

  pub command-IsOrderly :
      (cmd : Bytes) (args : List Bytes) (on : Option H) (c : Client H C)
      → IsOrderly c
      → IsOrderly (command cmd args on c)
  unfolding command start_async_write
  command-IsOrderly cmd args on c h =
      let node : CommandNode H = record { bytes = make_command (cmd ∷ args); on = on } in
      elim (List-cases c.command_queue) [
        | inl e ↦ rw e (
            whole _
              (AreOrderly-first c.answers c.sent c.issued c.operations node (rw e at (parts c h))))
        | inr (n, q, e) ↦ rw e (
            whole _ (
              AreOrderly-queued c.answers c.sent c.issued c.operations n node q
                (rw e at (parts c h))))
      ]

  -- The operation of the front has ended, and the call of its handler is owed.
  pub record IsAwaiting (on : Option H) (c : Client H C) : Type 0 where
    pub idle : c.operations ≡ []
    pub some_queued : c.command_queue ≢ []
    pub answered : called c.answers ++ on ∷ handlers (pop c.command_queue) ≡ handlers c.issued
    pub written : c.sent ++ contents (pop c.command_queue) ≡ contents c.issued

  -- The front has got its answer and is still in the queue.
  pub record IsFinishing (c : Client H C) : Type 0 where
    pub idle : c.operations ≡ []
    pub some_queued : c.command_queue ≢ []
    pub answered : called c.answers ++ handlers (pop c.command_queue) ≡ handlers c.issued
    pub written : c.sent ++ contents (pop c.command_queue) ≡ contents c.issued

  command-IsFinishing :
      (cmd : Bytes) (args : List Bytes) (on : Option H) (c : Client H C)
      → IsFinishing c
      → IsFinishing (command cmd args on c)
  unfolding command start_async_write
  command-IsFinishing cmd args on c h = elim (List-cases c.command_queue) [
    | inl e ↦ absurd (h.some_queued e)
    | inr (n, q, e) ↦ rw e (record {
      idle = h.idle;
      some_queued = cc;
      answered = rw (handlers-append, handlers-append, ← append_assoc, rw e at h.answered) refl;
      written = rw (contents-append, contents-append, ← append_assoc, rw e at h.written) refl;
    })
  ]

  pub pop_front-IsOrderly : (c : Client H C) → IsFinishing c → IsOrderly (pop_front c)
  unfolding pop_front
  pop_front-IsOrderly c h =
      rw h.idle (record { flight = tt; answered = h.answered; written = h.written })

  start_async_write-IsOrderly :
      (c : Client H C) → c.operations ≡ [] → IsOrderly c → IsOrderly (start_async_write c)
  unfolding start_async_write
  start_async_write-IsOrderly c idle h = elim (List-cases c.command_queue) [
    | inl e ↦ rw e (rw e at h)
    | inr (n, q, e) ↦
        rw (e, idle)
          (record {
            flight = refl;
            answered = rw (e, idle) at h.answered;
            written = rw append_assoc (rw (e, idle) at h.written);
          })
  ]

  pub start_async_read-IsOrderly :
      (on : Option H) (c : Client H C)
      → IsAwaiting on c
      → IsOrderly (start_async_read_and_parse on c)
  unfolding start_async_read_and_parse do_async_read_and_parse
  start_async_read-IsOrderly on c h = elim (List-cases c.command_queue) [
    | inl e ↦ absurd (h.some_queued e)
    | inr (n, q, e) ↦
        rw (h.idle, e)
          (record { flight = tt; answered = rw e at h.answered; written = rw e at h.written })
  ]

  pub read_again-IsOrderly :
      (parser : Parser) (on : Option H) (c : Client H C) (buf : Bytes) (beg : ℕ)
      → IsAwaiting on c
      → IsOrderly
          (do_async_read_and_parse parser on (record c { reply_buf = buf; reply_parse_beg = beg }))
  unfolding do_async_read_and_parse
  read_again-IsOrderly parser on c buf beg h = elim (List-cases c.command_queue) [
    | inl e ↦ absurd (h.some_queued e)
    | inr (n, q, e) ↦
        rw (h.idle, e)
          (record { flight = tt; answered = rw e at h.answered; written = rw e at h.written })
  ]

  -- Calls that leave the queue, the operations and the history of the commands alone.
  abbrev pub Keeps : Client H C → Client H C → Type 0
  Keeps c d =
      (d.operations ≡ c.operations)
      × (d.command_queue ≡ c.command_queue)
      × (d.answers ≡ c.answers)
      × (d.sent ≡ c.sent)
      × (d.issued ≡ c.issued)

  pub Keeps-IsOrderly : (c d : Client H C) → Keeps c d → IsOrderly c → IsOrderly d
  Keeps-IsOrderly c d (o, q, a, s, i) h = record {
    flight = rw (o, q) h.flight;
    answered = rw (o, q, a, i) h.answered;
    written = rw (o, q, s, i) h.written;
  }

  pub connect-Keeps :
      (on : Option C) (host : Bytes) (port : ℕ) (c : Client H C) → Keeps c (connect on host port c)
  unfolding connect do_async_connect
  connect-Keeps on host port c = ground arith

  report-Keeps : (on : Option C) (ec : Option ErrorCode) (c : Client H C) → Keeps c (report on ec c)
  unfolding report
  report-Keeps none ec c = (refl, refl, refl, refl, refl)
  report-Keeps (some on) ec c = (refl, refl, refl, refl, refl)

  pub reconnect-Keeps : (on : Option C) (c : Client H C) → Keeps c (reconnect on c)
  unfolding reconnect start_reconnect_timer
  reconnect-Keeps on c = ground (
    arith,
    report-Keeps on (some ErrorCode.operation_in_progress) c,
    report-Keeps on (some ErrorCode.already_connected) c,
  )

  pub on_connect_finished-Keeps :
      (on : Option C) (ec : Option ErrorCode) (c : Client H C)
      → Keeps c (on_connect_finished on ec c)
  unfolding on_connect_finished start_reconnect_timer report
  on_connect_finished-Keeps on ec c = ground arith

  pub on_timer-Keeps :
      (on : Option C) (ec : Option ErrorCode) (c : Client H C) → Keeps c (on_timer on ec c)
  unfolding on_timer do_async_connect
  on_timer-Keeps on ec c = ground arith

  pub disconnect-Keeps : (c : Client H C) → Keeps c (disconnect c)
  unfolding disconnect
  disconnect-Keeps c = ground arith

  module _ (react : H → RedisValue → List (Order H)) where
    obey-IsFinishing :
        (orders : List (Order H)) (c : Client H C)
        → IsFinishing c
        → IsFinishing (obey react orders c)
    unfolding obey
    obey-IsFinishing [] c h = h
    obey-IsFinishing (o ∷ orders) c h =
        obey-IsFinishing orders (command o.cmd o.args o.on c)
          (command-IsFinishing o.cmd o.args o.on c h)

    called_one :
        (on : Option H) (value : RedisValue) (c : Client H C)
        → IsAwaiting on c
        → IsFinishing (record c { answers = c.answers ++ (on, value) ∷ [] })
    called_one on value c h = record {
      idle = h.idle;
      some_queued = h.some_queued;
      answered = rw (called-append, append_assoc) h.answered;
      written = h.written;
    }

    pub handler-IsFinishing :
        (on : Option H) (value : RedisValue) (c : Client H C)
        → IsAwaiting on c
        → IsFinishing (try_on_redis_handler react on value c)
    unfolding try_on_redis_handler
    handler-IsFinishing none value c h = called_one none value c h
    handler-IsFinishing (some on) value c h =
        obey-IsFinishing (react on value) _ (called_one (some on) value c h)

    pub answer-IsOrderly :
        (on : Option H) (value : RedisValue) (c : Client H C)
        → IsAwaiting on c
        → IsOrderly (answer react on value c)
    unfolding answer
    answer-IsOrderly on value c h =
        let f = handler-IsFinishing on value c h in
        start_async_write-IsOrderly _ (unfold pop_front in f.idle) (pop_front-IsOrderly _ f)
