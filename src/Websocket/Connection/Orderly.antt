-- ===== src/Websocket/Connection/Orderly.antt =====
-- The list of data to write: one write at a time, in the order in which the data was appended.
use da4qi.Base.{
  ℕ, List, [], ◌∷◌, ◌++◌, Bool, true, if-cases, List-cases, ◌==◌, Option, none, some, Bytes,
  append_assoc, append-nil, ◌≡◌, refl, ap, subst, inl, inr, arith,
}
use da4qi.Websocket.Frame.{
  e_continuation, e_text, e_connection_close, e_ping, Message, FrameParser, parse,
}
use da4qi.Websocket.Connection.{
  Connection, e_binary, ErrorCode, eof, failure, Event, Request, write_request, stop_request,
  WriteDataType, new_connection, write, stop, pong, append_write_data, start_read, start_write,
}
use da4qi.Websocket.Connection.Handshake.{start_handshake}
use da4qi.Websocket.Connection.Reading.{
  obey, raise, on_data, on_read_frame, on_read_frames, read_again, on_parsed, on_read, on_write,
  pop,
}
use da4qi.Websocket.Connection.Steps.{
  Step, Reach, write_step, stop_step, handshake_step, read_step, written_step, here, later,
}

-- No write is in flight, or one of the front of the list.
abbrev pub IsFlight : List Bytes → List Bytes → Type 0
IsFlight [] l = Unit
IsFlight (d ∷ []) (x ∷ l) = d ≡ x
IsFlight _ _ = ⊥

pub record IsInOrder (c : Connection) : Type 0 where
  pub flight : IsFlight c.writing c.data_4_write
  pub written : c.sent ++ pop c.data_4_write ≡ c.issued

IsFlight-append :
    (w : List Bytes) (x : Bytes) (l m : List Bytes) → IsFlight w (x ∷ l) → IsFlight w (x ∷ l ++ m)
IsFlight-append [] x l m h = tt
IsFlight-append (d ∷ []) x l m h = h
IsFlight-append (d ∷ e ∷ w) x l m h = h

IsFlight-empty : (w : List Bytes) → IsFlight w [] → w ≡ []
IsFlight-empty [] h = refl
IsFlight-empty (d ∷ []) h = absurd h
IsFlight-empty (d ∷ e ∷ w) h = absurd h

IsFlight-only :
    (before after : List Bytes) (d : Bytes) (l : List Bytes)
    → IsFlight (before ++ d ∷ after) l
    → (before ++ after ≡ []) × IsFlight (d ∷ []) l
IsFlight-only [] [] d l h = (refl, h)
IsFlight-only [] (e ∷ after) d l h = absurd h
IsFlight-only (x ∷ []) after d l h = absurd h
IsFlight-only (x ∷ y ∷ before) after d l h = absurd h

append-IsInOrder : (d : Bytes) (c : Connection) → IsInOrder c → IsInOrder (append_write_data d c)
unfolding append_write_data start_write
append-IsInOrder d c h = elim (List-cases c.data_4_write) [
  | inl e ↦
      rw (e, IsFlight-empty c.writing (rw e at h.flight))
        (record {
          flight = refl;
          written = rw append-nil (ap (λ l. l ++ d ∷ []) (rw append-nil at (rw e at h.written)));
        })
  | inr (x, l, e) ↦ rw e (record {
    flight = IsFlight-append c.writing x l (d ∷ []) (rw e at h.flight);
    written = rw (← append_assoc) (ap (λ l. l ++ d ∷ []) (rw e at h.written));
  })
]

-- Changes that leave the writes alone.
abbrev Keeps : Connection → Connection → Type 0
Keeps c d =
    (d.writing ≡ c.writing)
    × (d.data_4_write ≡ c.data_4_write)
    × (d.sent ≡ c.sent)
    × (d.issued ≡ c.issued)

Keeps-IsInOrder : (c d : Connection) → Keeps c d → IsInOrder c → IsInOrder d
Keeps-IsInOrder c d (w, l, s, i) h = record {
  flight = rw (w, l) h.flight;
  written = rw (l, s, i) h.written;
}

write-IsInOrder :
    (d : Bytes) (type : WriteDataType) (fin : Bool) (c : Connection)
    → IsInOrder c
    → IsInOrder (write d type fin c)
unfolding write
write-IsInOrder d type fin c h = append-IsInOrder _ c h

stop-IsInOrder : (c : Connection) → IsInOrder c → IsInOrder (stop c)
unfolding stop
stop-IsInOrder c h =
    append-IsInOrder _ _
      (Keeps-IsInOrder c (record c { stop_by_self = true }) (refl, refl, refl, refl) h)

pong-IsInOrder : (c : Connection) → IsInOrder c → IsInOrder (pong c)
unfolding pong
pong-IsInOrder c h = append-IsInOrder _ c h

new_connection-IsInOrder :
    (url : Bytes) (headers : List (Bytes × Bytes)) → IsInOrder (new_connection url headers)
unfolding new_connection
new_connection-IsInOrder url headers = record { flight = tt; written = refl }

module _ (react : Event → List Request) where
  obey-IsInOrder : (rs : List Request) (c : Connection) → IsInOrder c → IsInOrder (obey react rs c)
  unfolding obey
  obey-IsInOrder [] c h = h
  obey-IsInOrder (write_request d type fin ∷ rs) c h =
      obey-IsInOrder rs (write d type fin c) (write-IsInOrder d type fin c h)
  obey-IsInOrder (stop_request ∷ rs) c h = obey-IsInOrder rs (stop c) (stop-IsInOrder c h)

  raise-IsInOrder : (e : Event) (c : Connection) → IsInOrder c → IsInOrder (raise react e c)
  unfolding raise
  raise-IsInOrder e c h =
      obey-IsInOrder (react e) _ (Keeps-IsInOrder c _ (refl, refl, refl, refl) h)

  on_data-IsInOrder :
      (d : Bytes) (fin : Bool) (c : Connection) → IsInOrder c → IsInOrder (on_data react d fin c)
  unfolding on_data
  on_data-IsInOrder d fin c h =
      if-cases IsInOrder (c.last_data_type == e_text) _ _ (raise-IsInOrder _ c h) (
        if-cases IsInOrder (c.last_data_type == e_binary) _ _ (raise-IsInOrder _ c h)
          (Keeps-IsInOrder c _ (refl, refl, refl, refl) h))

  on_read_frame-IsInOrder :
      (m : Message) (c : Connection) → IsInOrder c → IsInOrder (on_read_frame react m c)
  unfolding on_read_frame
  on_read_frame-IsInOrder m c' h' =
      let c : Connection = record c' { error_on_parse = 0 } in
      let h : IsInOrder c = Keeps-IsInOrder c' c (refl, refl, refl, refl) h' in
      let typed : (t : ℕ) → IsInOrder (record c { last_data_type = t }) =
        λ t. Keeps-IsInOrder c' _ (refl, refl, refl, refl) h' in
      if-cases IsInOrder (m.opcode == e_connection_close) _ _
        (if-cases IsInOrder c.stop_by_self _ _ h (stop-IsInOrder c h))
        (if-cases IsInOrder (m.opcode == e_continuation) _ _ (on_data-IsInOrder m.payload m.fin c h)
          (if-cases IsInOrder (m.opcode == e_text) _ _
            (on_data-IsInOrder m.payload m.fin _ (typed e_text))
            (if-cases IsInOrder (m.opcode == e_binary) _ _
              (on_data-IsInOrder m.payload m.fin _ (typed e_binary))
              (if-cases IsInOrder (m.opcode == e_ping) _ _ (pong-IsInOrder c h)
                (Keeps-IsInOrder c' _ (refl, refl, refl, refl) h')))))

  on_read_frames-IsInOrder :
      (ms : List Message) (c : Connection) → IsInOrder c → IsInOrder (on_read_frames react ms c)
  unfolding on_read_frames
  on_read_frames-IsInOrder [] c h = h
  on_read_frames-IsInOrder (m ∷ ms) c h =
      on_read_frames-IsInOrder ms _ (on_read_frame-IsInOrder m c h)

  read_again-IsInOrder : (c : Connection) → IsInOrder c → IsInOrder (read_again c)
  unfolding read_again start_read
  read_again-IsInOrder c h = Keeps-IsInOrder c _ (ground arith) h

  on_parsed-IsInOrder :
      (o : Option FrameParser) (c : Connection) → IsInOrder c → IsInOrder (on_parsed react o c)
  unfolding on_parsed
  on_parsed-IsInOrder none c h = h
  on_parsed-IsInOrder (some p) c h =
      read_again-IsInOrder _
        (on_read_frames-IsInOrder p.messages _ (Keeps-IsInOrder c _ (refl, refl, refl, refl) h))

  on_read-IsInOrder :
      (ec : Option ErrorCode) (bytes : Bytes) (c : Connection)
      → IsInOrder c
      → IsInOrder (on_read react ec bytes c)
  unfolding on_read
  on_read-IsInOrder (some eof) bytes c h = raise-IsInOrder _ c h
  on_read-IsInOrder (some (failure code message)) bytes c h = raise-IsInOrder _ c h
  on_read-IsInOrder none [] c h = read_again-IsInOrder c h
  on_read-IsInOrder none (x ∷ bytes) c h =
      on_parsed-IsInOrder (parse (record c.parser { messages = [] }) (x ∷ bytes)) c h

  start_write-IsInOrder :
      (c : Connection)
      → c.writing ≡ []
      → c.sent ++ c.data_4_write ≡ c.issued
      → IsInOrder (start_write c)
  unfolding start_write
  start_write-IsInOrder c idle e = elim (List-cases c.data_4_write) [
    | inl q ↦ rw (q, idle) (record { flight = tt; written = rw q at e })
    | inr (x, l, q) ↦ rw (q, idle) (record { flight = refl; written = rw append_assoc (rw q at e) })
  ]

  ended :
      (ec : Option ErrorCode) (c : Connection)
      → c.writing ≡ []
      → c.sent ++ pop c.data_4_write ≡ c.issued
      → IsInOrder (on_write react ec c)
  unfolding on_write
  ended (some eof) c gone e = raise-IsInOrder _ c (record { flight = rw gone tt; written = e })
  ended (some (failure code message)) c gone e =
      raise-IsInOrder _ c (record { flight = rw gone tt; written = e })
  ended none c gone e =
      start_write-IsInOrder (record c { data_4_write = pop c.data_4_write }) gone e

  on_write-IsInOrder :
      (ec : Option ErrorCode) (c : Connection) (before after : List Bytes) (d : Bytes)
      → c.writing ≡ before ++ d ∷ after
      → IsInOrder c
      → IsInOrder (on_write react ec (record c { writing = before ++ after }))
  on_write-IsInOrder ec c before after d e h =
      let (gone, _) =
        IsFlight-only before after d c.data_4_write
          (subst (λ w. IsFlight w c.data_4_write) e h.flight) in
      ended ec (record c { writing = before ++ after }) gone h.written

  Step-IsInOrder : {c d : Connection} → Step react c d → IsInOrder c → IsInOrder d
  Step-IsInOrder {c} (write_step data' type fin) h = write-IsInOrder data' type fin c h
  Step-IsInOrder {c} stop_step h = stop-IsInOrder c h
  Step-IsInOrder {c} (handshake_step sha1 B key) h =
      unfold start_handshake start_read in
      Keeps-IsInOrder (append_write_data _ c) _ (refl, refl, refl, refl) (append-IsInOrder _ c h)
  Step-IsInOrder {c} (read_step n ec bytes e) h =
      on_read-IsInOrder ec bytes _ (Keeps-IsInOrder c _ (refl, refl, refl, refl) h)
  Step-IsInOrder {c} (written_step before after data' ec e) h =
      on_write-IsInOrder ec c before after data' e h

  Reach-IsInOrder_from : {c d : Connection} → IsInOrder c → Reach react c d → IsInOrder d
  Reach-IsInOrder_from h here = h
  Reach-IsInOrder_from h (later r st) = Step-IsInOrder st (Reach-IsInOrder_from h r)

  -- In every state that a new connection reaches, whatever is written to it, from outside and by the
  -- handlers of its events, whatever it reads and however its operations end: at most one write is
  -- in flight, of the front of the list, and the data given to the socket with the data behind the
  -- front is all the data appended, in the order in which it was appended.
  pub Reach-IsInOrder :
      (url : Bytes) (headers : List (Bytes × Bytes)) {c : Connection}
      → Reach react (new_connection url headers) c
      → IsInOrder c
  Reach-IsInOrder url headers r = Reach-IsInOrder_from (new_connection-IsInOrder url headers) r
