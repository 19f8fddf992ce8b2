-- ===== src/Redis/Client/Stalled.antt =====
-- After a failed write or read: with another command in the queue, the client stops for good.
use da4qi.Base.{
  List, [], ◌∷◌, ◌++◌, List-cases, Bool-cases, Option, none, some, Bytes, ◌≡◌, ◌≢◌, refl, sym, ◌∙◌,
  inl, inr,
}
use da4qi.Redis.Value.{RedisValue, error_value}
use da4qi.Redis.Parser.{Parser}
use da4qi.Redis.Client.{
  Client, Operation, Order, failed, command, pop, pop_front, move_front, front_on, obey, reconnects,
  try_on_redis_handler, on_write, on_read,
}
use da4qi.Redis.Client.Orderly.{
  Keeps, connect-Keeps, reconnect-Keeps, on_connect_finished-Keeps, on_timer-Keeps,
  disconnect-Keeps,
}
use da4qi.Redis.Client.Steps.{Step, Reach, here, later}

no_operation :
    {H : Type 0}
    → (before after : List (Operation H)) (op : Operation H) → [] ≡ before ++ op ∷ after
    → ⊥
no_operation [] after op e = absurd (cc)
no_operation (x ∷ before) after op e = absurd (cc)

module _ {H C : Type 0} where
  -- Commands wait and no operation is in flight; what was sent and answered.
  pub record IsStalled (sent : List Bytes) (answers : List (Option H × RedisValue)) (c : Client H C)
      : Type 0 where
    idle : c.operations ≡ []
    some_queued : c.command_queue ≢ []
    same_sent : c.sent ≡ sent
    same_answers : c.answers ≡ answers

  module _ (sent : List Bytes) (answers : List (Option H × RedisValue)) where
    Keeps-IsStalled :
        (c d : Client H C) → Keeps c d → IsStalled sent answers c → IsStalled sent answers d
    Keeps-IsStalled c d (o, q, a, s, i) h = record {
      idle = o ∙ h.idle;
      some_queued = rw q h.some_queued;
      same_sent = s ∙ h.same_sent;
      same_answers = a ∙ h.same_answers;
    }

    command-IsStalled :
        (cmd : Bytes) (args : List Bytes) (on : Option H) (c : Client H C)
        → IsStalled sent answers c
        → IsStalled sent answers (command cmd args on c)
    unfolding command
    command-IsStalled cmd args on c h = elim (List-cases c.command_queue) [
      | inl e ↦ absurd (h.some_queued e)
      | inr (n, q, e) ↦ rw e (record {
        idle = h.idle;
        some_queued = cc;
        same_sent = h.same_sent;
        same_answers = h.same_answers;
      })
    ]

    module _ (react : H → RedisValue → List (Order H)) where
      Step-IsStalled :
          {c d : Client H C} → Step react c d → IsStalled sent answers c → IsStalled sent answers d
      Step-IsStalled {c} (Step.connect on host port) h =
          Keeps-IsStalled c _ (connect-Keeps on host port c) h
      Step-IsStalled {c} (Step.reconnect on) h = Keeps-IsStalled c _ (reconnect-Keeps on c) h
      Step-IsStalled {c} Step.disconnect h = Keeps-IsStalled c _ (disconnect-Keeps c) h
      Step-IsStalled {c} (Step.command cmd args on) h = command-IsStalled cmd args on c h
      Step-IsStalled {c} (Step.on_connect before after on ec e) h =
          Keeps-IsStalled c _
            (on_connect_finished-Keeps on ec (record c { connects = before ++ after }))
            (record {
              idle = h.idle;
              some_queued = h.some_queued;
              same_sent = h.same_sent;
              same_answers = h.same_answers;
            })
      Step-IsStalled {c} (Step.on_timer before after seconds on ec e) h =
          Keeps-IsStalled c _ (on_timer-Keeps on ec (record c { waits = before ++ after }))
            (record {
              idle = h.idle;
              some_queued = h.some_queued;
              same_sent = h.same_sent;
              same_answers = h.same_answers;
            })
      Step-IsStalled {c} (Step.on_write before after bytes ec e) h =
          absurd (no_operation before after _ (sym h.idle ∙ e))
      Step-IsStalled {c} (Step.on_read before after parser on r e) h =
          absurd (no_operation before after _ (sym h.idle ∙ e))

      Reach-IsStalled :
          {c d : Client H C} → IsStalled sent answers c → Reach react c d → IsStalled sent answers d
      Reach-IsStalled h here = h
      Reach-IsStalled h (later r st) = Step-IsStalled st (Reach-IsStalled h r)

  -- The front is being answered, and another command waits behind it.
  record IsFailing (sent : List Bytes) (answers : List (Option H × RedisValue)) (c : Client H C)
      : Type 0 where
    idle : c.operations ≡ []
    more_queued : pop c.command_queue ≢ []
    same_sent : c.sent ≡ sent
    same_answers : c.answers ≡ answers

  module _ (sent : List Bytes) (answers : List (Option H × RedisValue)) where
    command-IsFailing :
        (cmd : Bytes) (args : List Bytes) (on : Option H) (c : Client H C)
        → IsFailing sent answers c
        → IsFailing sent answers (command cmd args on c)
    unfolding command
    command-IsFailing cmd args on c h = elim (List-cases c.command_queue) [
      | inl e ↦ absurd (h.more_queued (rw e refl))
      | inr (n, q, e) ↦ rw e (record {
        idle = h.idle;
        more_queued = more q _ (rw e at h.more_queued);
        same_sent = h.same_sent;
        same_answers = h.same_answers;
      })
    ]
      where
        more : {A : Type 0} → (q r : List A) → q ≢ [] → q ++ r ≢ []
        more [] r h = absurd (h refl)
        more (x ∷ q) r h = cc

    pop_front-IsStalled :
        (c : Client H C) → IsFailing sent answers c → IsStalled sent answers (pop_front c)
    unfolding pop_front
    pop_front-IsStalled c h = record {
      idle = h.idle;
      some_queued = h.more_queued;
      same_sent = h.same_sent;
      same_answers = h.same_answers;
    }

    obey-IsFailing :
        (react : H → RedisValue → List (Order H)) (orders : List (Order H)) (c : Client H C)
        → IsFailing sent answers c
        → IsFailing sent answers (obey react orders c)
    unfolding obey
    obey-IsFailing react [] c h = h
    obey-IsFailing react (o ∷ orders) c h =
        obey-IsFailing react orders (command o.cmd o.args o.on c)
          (command-IsFailing o.cmd o.args o.on c h)

  module _ (react : H → RedisValue → List (Order H)) where
    handler-IsFailing :
        (on : Option H) (v : RedisValue) (c : Client H C)
        → c.operations ≡ []
        → pop c.command_queue ≢ []
        → IsFailing c.sent (c.answers ++ (on, v) ∷ []) (try_on_redis_handler react on v c)
    unfolding try_on_redis_handler
    handler-IsFailing none v c idle more = record {
      idle = idle;
      more_queued = more;
      same_sent = refl;
      same_answers = refl;
    }
    handler-IsFailing (some on) v c idle more =
        obey-IsFailing c.sent (c.answers ++ (some on, v) ∷ []) react (react on v) _
          (record { idle = idle; more_queued = more; same_sent = refl; same_answers = refl })

    -- A read that fails while another command waits: whatever calls are made and whatever ends
    -- afterwards, commands, connects and reconnects included, no write and no read is ever started,
    -- nothing more is sent, a command stays in the queue, and no handler of a command is called but that
    -- of the failed read, with the error.
    pub on_read-IsStalled :
        (parser : Parser) (on : Option H) (message : Bytes) (c : Client H C) {d : Client H C}
        → c.operations ≡ []
        → pop c.command_queue ≢ []
        → Reach react (on_read react parser on (failed message) c) d
        → IsStalled c.sent (c.answers ++ (on, error_value message) ∷ []) d
    unfolding on_read
    on_read-IsStalled parser on message c idle more r =
        Reach-IsStalled c.sent (c.answers ++ (on, error_value message) ∷ []) react
          (pop_front-IsStalled _ _ _ (handler-IsFailing on (error_value message) c idle more)) r

    -- A write that fails while another command waits: with auto_reconnect too, whatever calls are made
    -- and whatever ends afterwards, no write and no read is ever started, nothing more is sent and no
    -- handler of a command is called but that of the failed command, with the error.
    pub on_write-IsStalled :
        (message : Bytes) (c : Client H C) {d : Client H C}
        → c.operations ≡ []
        → pop c.command_queue ≢ []
        → Reach react (on_write react (some message) c) d
        → IsStalled c.sent (c.answers ++ (front_on c.command_queue, error_value message) ∷ []) d
    unfolding on_write
    on_write-IsStalled message c idle more r = elim (List-cases c.command_queue) [
      | inl e ↦ absurd (more (rw e refl))
      | inr (n, q, e) ↦
          let answered = pop_front-IsStalled _ _ _ (
            handler-IsFailing (front_on c.command_queue) (error_value message)
              (record c { command_queue = move_front c.command_queue }) idle
              (rw e (rw e at more))) in
          Reach-IsStalled c.sent (c.answers ++ (front_on c.command_queue, error_value message) ∷ [])
            react
            (elim (Bool-cases (reconnects c.policy)) [
              | inl again ↦ rw again (Keeps-IsStalled _ _ _ _ (reconnect-Keeps none _) answered)
              | inr idle ↦ rw idle answered
            ])
            r
    ]
