-- ===== src/Redis/Client/Steps.antt =====
-- The steps of a client: a call from outside, or the end of an operation, which may end in any way
-- and in any order with the others.
use da4qi.Base.{ℕ, List, ◌∷◌, ◌++◌, Option, Bytes, ◌≡◌}
use da4qi.Redis.Value.{RedisValue}
use da4qi.Redis.Parser.{Parser}
use da4qi.Redis.Client
use da4qi.Redis.Client.{
  ErrorHandlePolicy, ErrorCode, Operation, writing, reading, Order, Received, new_client,
}

module _ {H C : Type 0} (react : H → RedisValue → List (Order H)) where
  pub data Step (c : Client.Client H C) : Client.Client H C → Type 0 where
    connect : (on : Option C) (host : Bytes) (port : ℕ) → Step c (Client.connect on host port c)
    reconnect : (on : Option C) → Step c (Client.reconnect on c)
    disconnect : Step c (Client.disconnect c)
    command :
        (cmd : Bytes) (args : List Bytes) (on : Option H) → Step c (Client.command cmd args on c)
    on_connect :
        (before after : List (Option C)) (on : Option C) (ec : Option ErrorCode)
        → c.connects ≡ before ++ on ∷ after
        → Step c (Client.on_connect_finished on ec (record c { connects = before ++ after }))
    on_timer :
        (before after : List (ℕ × Option C)) (seconds : ℕ) (on : Option C) (ec : Option ErrorCode)
        → c.waits ≡ before ++ (seconds, on) ∷ after
        → Step c (Client.on_timer on ec (record c { waits = before ++ after }))
    on_write :
        (before after : List (Operation H)) (bytes : Bytes) (ec : Option Bytes)
        → c.operations ≡ before ++ writing bytes ∷ after
        → Step c (Client.on_write react ec (record c { operations = before ++ after }))
    on_read :
        (before after : List (Operation H)) (parser : Parser) (on : Option H) (r : Received)
        → c.operations ≡ before ++ reading parser on ∷ after
        → Step c (Client.on_read react parser on r (record c { operations = before ++ after }))

  -- The clients that steps lead to.
  pub data Reach (c : Client.Client H C) : Client.Client H C → Type 0 where
    here : Reach c c
    later : {d e : Client.Client H C} → Reach c d → Step d e → Reach c e
