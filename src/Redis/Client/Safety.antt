-- ===== src/Redis/Client/Safety.antt =====
-- What holds of a client in every state it can reach: one operation at a time, commands sent and
-- answered in the order in which they were given.
use da4qi.Base.{
  ℕ, List, [], ◌∷◌, ◌++◌, ◌-◌, ◌+◌, Bool-cases, List-cases, Option, none, some, Bytes, ◌≡◌, refl,
  subst, ◌∙◌, inl, inr, length, ◌≤◌,
}
use da4qi.Redis.Value.{RedisValue, error_value}
use da4qi.Redis.Parser.{Parser, ParseResult, completed, incompleted, error}
use da4qi.Redis.Client.{
  ErrorHandlePolicy, Client, Operation, writing, reading, Order, Received, failed, received, Scan,
  new_client, move_front, front_on, on_write, on_scan, on_read, reconnects, parse_loop,
}
use da4qi.Redis.Client.Flight.{IsFlight, IsFlight-only, balance}
use da4qi.Redis.Client.Orderly.{
  IsOrderly, IsAwaiting, command-IsOrderly, pop_front-IsOrderly, start_async_read-IsOrderly,
  read_again-IsOrderly, Keeps-IsOrderly, connect-Keeps, reconnect-Keeps, on_connect_finished-Keeps,
  on_timer-Keeps, disconnect-Keeps, handler-IsFinishing, answer-IsOrderly,
}
use da4qi.Redis.Client.Steps.{Step, Reach, here, later}

module _ {H C : Type 0} where
  -- An operation that ends leaves none, and the front waits for its answer.
  read-IsAwaiting :
      (c : Client H C) (before after : List (Operation H)) (parser : Parser) (on : Option H)
      → c.operations ≡ before ++ reading parser on ∷ after
      → IsOrderly c
      → IsAwaiting on (record c { operations = before ++ after })
  read-IsAwaiting c before after parser on e h =
      let (single, gone, f) =
        IsFlight-only before after (reading parser on) c.command_queue
          (subst (λ ops. IsFlight ops c.command_queue) e h.flight) in
      let one : c.operations ≡ reading parser on ∷ [] = e ∙ single in
      elim (List-cases c.command_queue) [
        | inl q ↦ absurd (rw q at f)
        | inr (n, q, eq) ↦
            rw (gone, eq)
              (record {
                idle = refl;
                some_queued = cc;
                answered = rw (one, eq) at h.answered;
                written = rw (one, eq) at h.written;
              })
      ]

  write-IsAwaiting :
      (c : Client H C) (before after : List (Operation H)) (bytes : Bytes)
      → c.operations ≡ before ++ writing bytes ∷ after
      → IsOrderly c
      → IsAwaiting
          (front_on c.command_queue)
          (record c { operations = before ++ after; command_queue = move_front c.command_queue })
  write-IsAwaiting c before after bytes e h =
      let (single, gone, f) =
        IsFlight-only before after (writing bytes) c.command_queue
          (subst (λ ops. IsFlight ops c.command_queue) e h.flight) in
      let one : c.operations ≡ writing bytes ∷ [] = e ∙ single in
      elim (List-cases c.command_queue) [
        | inl q ↦ absurd (rw q at f)
        | inr (n, q, eq) ↦
            rw (gone, eq)
              (record {
                idle = refl;
                some_queued = cc;
                answered = rw (one, eq) at h.answered;
                written = rw (one, eq) at h.written;
              })
      ]

  rebuffered :
      (on : Option H) (c : Client H C) (buf : Bytes) (beg : ℕ)
      → IsAwaiting on c
      → IsAwaiting on (record c { reply_buf = buf; reply_parse_beg = beg })
  rebuffered on c buf beg h = record {
    idle = h.idle;
    some_queued = h.some_queued;
    answered = h.answered;
    written = h.written;
  }

  module _ (react : H → RedisValue → List (Order H)) where
    on_write-IsOrderly :
        (ec : Option Bytes) (c : Client H C)
        → IsAwaiting
            (front_on c.command_queue)
            (record c { command_queue = move_front c.command_queue })
        → IsOrderly (on_write react ec c)
    unfolding on_write
    on_write-IsOrderly none c h = start_async_read-IsOrderly _ _ h
    on_write-IsOrderly (some message) c h =
        let answered =
          pop_front-IsOrderly _ (handler-IsFinishing react _ (error_value message) _ h) in
        elim (Bool-cases (reconnects c.policy)) [
          | inl again ↦ rw again (Keeps-IsOrderly _ _ (reconnect-Keeps none _) answered)
          | inr idle ↦ rw idle answered
        ]

    on_scan-IsOrderly :
        (on : Option H) (s : Scan) (buf : Bytes) (c : Client H C)
        → IsAwaiting on c
        → (v : ParseResult) → s.verdict ≡ v
        → IsOrderly (on_scan react on s (record c { reply_buf = buf; reply_parse_beg = s.beg }))
    unfolding on_scan
    on_scan-IsOrderly on s buf c h completed e =
        rw e (answer-IsOrderly react on _ _ (rebuffered on c buf s.beg h))
    on_scan-IsOrderly on s buf c h incompleted e =
        rw e (read_again-IsOrderly s.parser on c buf s.beg h)
    on_scan-IsOrderly on s buf c h error e =
        rw e (answer-IsOrderly react on _ _ (rebuffered on c buf s.beg h))

    on_read-IsOrderly :
        (parser : Parser) (on : Option H) (r : Received) (c : Client H C)
        → IsAwaiting on c
        → IsOrderly (on_read react parser on r c)
    unfolding on_read
    on_read-IsOrderly parser on (failed message) c h =
        pop_front-IsOrderly _ (handler-IsFinishing react on (error_value message) c h)
    on_read-IsOrderly parser on (received []) c h =
        read_again-IsOrderly parser on c c.reply_buf c.reply_parse_beg h
    on_read-IsOrderly parser on (received (x ∷ bytes)) c h =
        let buf = c.reply_buf ++ x ∷ bytes in
        on_scan-IsOrderly on
          (parse_loop (length buf - c.reply_parse_beg) parser c.reply_parse_beg buf) buf c h _ refl

    Step-IsOrderly : {c d : Client H C} → Step react c d → IsOrderly c → IsOrderly d
    Step-IsOrderly {c} (Step.connect on host port) h =
        Keeps-IsOrderly c _ (connect-Keeps on host port c) h
    Step-IsOrderly {c} (Step.reconnect on) h = Keeps-IsOrderly c _ (reconnect-Keeps on c) h
    Step-IsOrderly {c} Step.disconnect h = Keeps-IsOrderly c _ (disconnect-Keeps c) h
    Step-IsOrderly {c} (Step.command cmd args on) h = command-IsOrderly cmd args on c h
    Step-IsOrderly {c} (Step.on_connect before after on ec e) h =
        Keeps-IsOrderly c _
          (on_connect_finished-Keeps on ec (record c { connects = before ++ after })) h
    Step-IsOrderly {c} (Step.on_timer before after seconds on ec e) h =
        Keeps-IsOrderly c _ (on_timer-Keeps on ec (record c { waits = before ++ after })) h
    Step-IsOrderly {c} (Step.on_write before after bytes ec e) h =
        on_write-IsOrderly ec _ (write-IsAwaiting c before after bytes e h)
    Step-IsOrderly {c} (Step.on_read before after parser on r e) h =
        on_read-IsOrderly parser on r _ (read-IsAwaiting c before after parser on e h)

    Reach-IsOrderly_from : {c d : Client H C} → IsOrderly c → Reach react c d → IsOrderly d
    Reach-IsOrderly_from h here = h
    Reach-IsOrderly_from h (later r st) = Step-IsOrderly st (Reach-IsOrderly_from h r)

  new_client-IsOrderly :
      (policy : ErrorHandlePolicy) → IsOrderly (new_client {H = H} {C = C} policy)
  unfolding new_client
  new_client-IsOrderly policy = record { flight = tt; answered = refl; written = refl }

module _ {H C : Type 0} (react : H → RedisValue → List (Order H)) where
  -- In every state that a new client reaches, whatever calls are made, further ones by the handlers
  -- included, and however and in whatever order its operations end: at most one write or read is in
  -- flight, and it is for the front of the queue; the handlers called so far and those still owed
  -- are those of all commands given, in the order given, each once; and so are the data sent and
  -- those still to be sent.
  pub Reach-IsOrderly :
      (policy : ErrorHandlePolicy) {c : Client H C}
      → Reach react (new_client policy) c
      → IsOrderly c
  Reach-IsOrderly policy r = Reach-IsOrderly_from react (new_client-IsOrderly policy) r

  -- In every state that a new client reaches, the data of at most one command has been sent whose
  -- handler has not been called, and no handler is called before the data of its command is sent.
  pub sent_one_ahead :
      (policy : ErrorHandlePolicy) {c : Client H C}
      → Reach react (new_client policy) c
      → (length c.answers ≤ length c.sent) × (length c.sent ≤ length c.answers + 1)
  sent_one_ahead policy {c} r =
      let h = Reach-IsOrderly policy r in
      balance c.answers c.sent c.issued c.operations c.command_queue h.answered h.written
