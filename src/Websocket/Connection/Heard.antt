-- ===== src/Websocket/Connection/Heard.antt =====
-- From one connection to the other: what is written is heard as it was written.
use da4qi.Base.{
  ℕ, ◌^◌, ◌<◌, List, [], ◌∷◌, ◌++◌, Bool, true, false, if◌then◌else◌, none, some, IsByte, Bytes,
  All, length, append_assoc, append-nil, ◌≡◌, ◌≢◌, refl, sym, ap, ap₂, ◌∙◌, inl, inr, arith,
}
use da4qi.Websocket.Frame.{
  FrameBuilder, e_connection_close, new_builder, set_fin, set_frame_type, build, Message,
  FrameParser, new_parser, parse,
}
use da4qi.Websocket.Frame.Octets.{IsFlag}
use da4qi.Websocket.Frame.Body.{fresh, message}
use da4qi.Websocket.Frame.RoundTrip.{IsBuilder}
use da4qi.Websocket.Frame.Streams.{stream, sent, CanSend, parse-stream}
use da4qi.Websocket.Connection.{
  Connection, WriteDataType, continuation, text, binary, frame_type, frame, Event, on_text,
  on_binary, Request, write_request, stop_request, write, stop, append_write_data, start_write,
  start_read,
}
use da4qi.Websocket.Connection.Reading.{
  obey, raise, on_data, on_read_frame, on_read_frames, read_again, on_parsed, on_read,
}

-- A call of `Write`.
pub record Writing : Type 0 where
  pub payload : Bytes
  pub type : WriteDataType
  pub finished : Bool

unfoldable pub write_all : List Writing → Connection → Connection
write_all [] c = c
write_all (w ∷ ws) c = write_all ws (write w.payload w.type w.finished c)

abbrev pub concat : List Bytes → Bytes
concat [] = []
concat (d ∷ ds) = d ++ concat ds

abbrev frames : List Writing → List Bytes
frames [] = []
frames (w ∷ ws) = frame w.type w.finished w.payload ∷ frames ws

append-issued : (d : Bytes) (c : Connection) → (append_write_data d c).issued ≡ c.issued ++ d ∷ []
unfolding append_write_data start_write
append-issued d c = ground arith

write_all-issued :
    (ws : List Writing) (c : Connection) → (write_all ws c).issued ≡ c.issued ++ frames ws
unfolding write_all write
write_all-issued [] c = sym (append-nil c.issued)
write_all-issued (w ∷ ws) c =
    write_all-issued ws (write w.payload w.type w.finished c)
    ∙ ap (λ l. l ++ frames ws) (append-issued (frame w.type w.finished w.payload) c)
    ∙ append_assoc c.issued (frame w.type w.finished w.payload ∷ []) (frames ws)

-- What a text or a binary message has begun.
pub data Kind : Type 0 where
  unset texts binaries : Kind

abbrev said : Kind → Bytes → Bool → List Event
said unset d fin = []
said texts d fin = on_text d fin ∷ []
said binaries d fin = on_binary d fin ∷ []

-- The kind of the message that a piece of data belongs to.
abbrev begun : Kind → WriteDataType → Kind
begun k continuation = k
begun k text = texts
begun k binary = binaries

-- What is heard of some writes: a continuation is heard as a piece of the message begun last.
abbrev pub heard : Kind → List Writing → List Event
heard k [] = []
heard k (w ∷ ws) = said (begun k w.type) w.payload w.finished ++ heard (begun k w.type) ws

abbrev data_type : Kind → ℕ
data_type unset = 0
data_type texts = 1
data_type binaries = 2

abbrev received : Writing → Message
received w = record { payload = w.payload; opcode = frame_type w.type; fin = w.finished }

abbrev received_all : List Writing → List Message
received_all [] = []
received_all (w ∷ ws) = received w ∷ received_all ws

-- Data that a frame can carry.
abbrev pub CanWrite : Writing → Type 0
CanWrite w = (length w.payload < 2 ^ 32) × All IsByte w.payload

abbrev builders : List Writing → List (FrameBuilder × Bytes)
builders [] = []
builders (w ∷ ws) =
    (set_frame_type (frame_type w.type) (set_fin w.finished new_builder), w.payload) ∷ builders ws

frames-stream : (ws : List Writing) → concat (frames ws) ≡ stream (builders ws)
unfolding stream
frames-stream [] = refl
frames-stream (w ∷ ws) = ap (λ t. frame w.type w.finished w.payload ++ t) (frames-stream ws)

message-received :
    (d : Bytes) (type : WriteDataType) (fin : Bool)
    → message d
        (set_frame_type (frame_type type) (set_fin fin new_builder)).opcode
        (set_frame_type (frame_type type) (set_fin fin new_builder)).fin
      ≡ received (record { payload = d; type = type; finished = fin })
unfolding set_frame_type set_fin
message-received d type true = refl
message-received d type false = refl

sent-builders : (ws : List Writing) → sent (builders ws) ≡ received_all ws
sent-builders [] = refl
sent-builders (w ∷ ws) = ap₂ ◌∷◌ (message-received w.payload w.type w.finished) (sent-builders ws)

set_frame_type-IsBuilder :
    (type : WriteDataType) (fin : Bool)
    → IsBuilder (set_frame_type (frame_type type) (set_fin fin new_builder))
unfolding set_frame_type set_fin new_builder
set_frame_type-IsBuilder type fin = record {
  flag = flag fin;
  type = type_small type;
  mask_flag = inl refl;
}
  where
    flag : (fin : Bool) → IsFlag (if fin then 0x80 else 0)
    flag true = inr refl
    flag false = inl refl

    type_small : (type : WriteDataType) → frame_type type < 16
    type_small continuation = omega arith
    type_small text = omega arith
    type_small binary = omega arith

builders-CanSend : (ws : List Writing) → All CanWrite ws → All CanSend (builders ws)
builders-CanSend [] h = tt
builders-CanSend (w ∷ ws) ((short, octets), hs) =
    ((set_frame_type-IsBuilder w.type w.finished, short, octets), builders-CanSend ws hs)

frame_nonempty :
    (type : WriteDataType) (fin : Bool) (d rest : Bytes) → frame type fin d ++ rest ≢ []
unfolding build
frame_nonempty type fin [] rest = cc
frame_nonempty type fin (x ∷ d) rest = cc

-- What a write leaves alone.
abbrev Same : Connection → Connection → Type 0
Same c d = (d.events ≡ c.events) × (d.last_data_type ≡ c.last_data_type)

append-Same : (d : Bytes) (c : Connection) → Same c (append_write_data d c)
unfolding append_write_data start_write
append-Same d c = ground arith

module _ (react : Event → List Request) where
  obey-Same : (rs : List Request) (c : Connection) → Same c (obey react rs c)
  unfolding obey write stop
  obey-Same [] c = (refl, refl)
  obey-Same (write_request d type fin ∷ rs) c =
      let (e, t) = obey-Same rs (write d type fin c) in
      let (e', t') = append-Same (frame type fin d) c in (e ∙ e', t ∙ t')
  obey-Same (stop_request ∷ rs) c =
      let (e, t) = obey-Same rs (stop c) in
      let (e', t') =
        append-Same (build (set_frame_type e_connection_close (set_fin true new_builder)) [])
          (record c { stop_by_self = true }) in
      (e ∙ e', t ∙ t')

  raise-events :
      (e : Event) (c : Connection)
      → ((raise react e c).events ≡ c.events ++ e ∷ [])
        × ((raise react e c).last_data_type ≡ c.last_data_type)
  unfolding raise
  raise-events e c = obey-Same (react e) (record c { events = c.events ++ e ∷ [] })

  -- The events and the kind of message behind some data.
  abbrev Hears : Connection → Kind → List Event → Connection → Type 0
  Hears c k es d = (d.events ≡ c.events ++ es) × (d.last_data_type ≡ data_type k)

  on_data-Hears :
      (k : Kind) (d : Bytes) (fin : Bool) (c : Connection)
      → c.last_data_type ≡ data_type k
      → Hears c k (said k d fin) (on_data react d fin c)
  unfolding on_data
  on_data-Hears unset d fin c e = rw e (sym (append-nil c.events), refl)
  on_data-Hears texts d fin c e =
      rw e (raise-events (on_text d fin) (record c { last_data_type = 1 }))
  on_data-Hears binaries d fin c e =
      rw e (raise-events (on_binary d fin) (record c { last_data_type = 2 }))

  on_read_frame-Hears :
      (d : Bytes) (type : WriteDataType) (fin : Bool) (k : Kind) (c : Connection)
      → c.last_data_type ≡ data_type k
      → Hears c
          (begun k type)
          (said (begun k type) d fin)
          (on_read_frame react (received (record { payload = d; type = type; finished = fin })) c)
  unfolding on_read_frame
  on_read_frame-Hears d continuation fin k c e =
      on_data-Hears k d fin (record c { error_on_parse = 0 }) e
  on_read_frame-Hears d text fin k c e =
      on_data-Hears texts d fin (record c { error_on_parse = 0; last_data_type = 1 }) refl
  on_read_frame-Hears d binary fin k c e =
      on_data-Hears binaries d fin (record c { error_on_parse = 0; last_data_type = 2 }) refl

  on_read_frames-heard :
      (ws : List Writing) (k : Kind) (c : Connection)
      → c.last_data_type ≡ data_type k
      → (on_read_frames react (received_all ws) c).events ≡ c.events ++ heard k ws
  unfolding on_read_frames
  on_read_frames-heard [] k c e = sym (append-nil c.events)
  on_read_frames-heard (w ∷ ws) k c e =
      let (es, t) = on_read_frame-Hears w.payload w.type w.finished k c e in
      on_read_frames-heard ws (begun k w.type) (on_read_frame react (received w) c) t
      ∙ ap (λ l. l ++ heard (begun k w.type) ws) es
      ∙ append_assoc c.events (said (begun k w.type) w.payload w.finished)
          (heard (begun k w.type) ws)

  on_read-on_parsed :
      (bytes : Bytes) (c : Connection)
      → bytes ≢ []
      → on_read react none bytes c
        ≡ on_parsed react (parse (record c.parser { messages = [] }) bytes) c
  unfolding on_read
  on_read-on_parsed [] c h = absurd (h refl)
  on_read-on_parsed (x ∷ bytes) c h = refl

  on_parsed-events :
      (p : FrameParser) (c : Connection)
      → (on_parsed react (some p) c).events
        ≡ (on_read_frames react p.messages
            (record c { parser = record p { messages = [] } })).events
  unfolding on_parsed read_again start_read
  on_parsed-events p c = ground arith

  -- Let one connection, to which nothing has been written, be given some data to write, in text and
  -- binary messages cut into any pieces, each shorter than 2^32 bytes, and let another, in which no
  -- frame and no message is begun, read what the first has to send in one chunk: its handler hears
  -- each piece once, in order, as a part of the message that it was written for, with its final flag.
  pub on_read-heard :
      (w : Writing) (ws : List Writing) (a c : Connection)
      → a.issued ≡ []
      → c.parser ≡ new_parser
      → c.last_data_type ≡ 0
      → All CanWrite (w ∷ ws)
      → (on_read react none (concat (write_all (w ∷ ws) a).issued) c).events
        ≡ c.events ++ heard unset (w ∷ ws)
  on_read-heard w ws a c idle new first can =
      let wire : concat (write_all (w ∷ ws) a).issued ≡ stream (builders (w ∷ ws)) =
        ap concat (write_all-issued (w ∷ ws) a ∙ ap (λ l. l ++ frames (w ∷ ws)) idle)
        ∙ frames-stream (w ∷ ws) in
      let parsed : parse (record c.parser { messages = [] }) (stream (builders (w ∷ ws)))
          ≡ some (fresh (received_all (w ∷ ws))) =
        rw new (
          parse-stream (builders (w ∷ ws)) [] (builders-CanSend (w ∷ ws) can)
          ∙ ap (λ ms. some (fresh ms)) (sent-builders (w ∷ ws))) in
      let c' : Connection = record c { parser = fresh [] } in
      ap (λ bytes. (on_read react none bytes c).events) wire
      ∙ ap (λ (d : Connection). d.events)
          (on_read-on_parsed (stream (builders (w ∷ ws))) c
            (unfold stream in frame_nonempty w.type w.finished w.payload (stream (builders ws))))
      ∙ ap (λ o. (on_parsed react o c).events) parsed
      ∙ on_parsed-events (fresh (received_all (w ∷ ws))) c
      ∙ on_read_frames-heard (w ∷ ws) unset c' first
