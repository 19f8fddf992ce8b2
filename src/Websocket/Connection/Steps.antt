-- ===== src/Websocket/Connection/Steps.antt =====
-- The steps of a websocket connection: a call from outside, or the end of an operation, which may end
-- in any way.
use da4qi.Base.{ℕ, suc, List, ◌∷◌, ◌++◌, Bool, Option, Bytes, ◌≡◌}
use da4qi.Router.Order.{Algorithms}
use da4qi.Websocket.Connection.{Connection, ErrorCode, Event, Request, WriteDataType, write, stop}
use da4qi.Websocket.Connection.Handshake.{start_handshake}
use da4qi.Websocket.Connection.Reading.{on_read, on_write}

module _ (react : Event → List Request) where
  -- A call from outside, or the end of an operation.
  pub data Step (c : Connection) : Connection → Type 0 where
    write_step :
        (data' : Bytes) (type : WriteDataType) (finished : Bool)
        → Step c (write data' type finished c)
    stop_step : Step c (stop c)
    handshake_step :
        (sha1 : Bytes → Bytes) (B : Algorithms) (key : Bytes)
        → Step c (start_handshake sha1 B key c)
    read_step :
        (n : ℕ) (ec : Option ErrorCode) (bytes : Bytes)
        → c.reads ≡ suc n
        → Step c (on_read react ec bytes (record c { reads = n }))
    written_step :
        (before after : List Bytes) (data' : Bytes) (ec : Option ErrorCode)
        → c.writing ≡ before ++ data' ∷ after
        → Step c (on_write react ec (record c { writing = before ++ after }))

  pub data Reach (c : Connection) : Connection → Type 0 where
    here : Reach c c
    later : {d e : Connection} → Reach c d → Step d e → Reach c e
