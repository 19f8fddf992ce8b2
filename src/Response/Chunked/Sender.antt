-- ===== src/Response/Chunked/Sender.antt =====
-- connection.cpp, do_write_next_chunked_body and do_write_chunked_body_finished: the connection takes
-- chunks from the queue while a handler, on any thread, gives more. `pushes`, `popped` and `sent` are
-- the history of the calls of PushBack, of the entries taken and of the data given to `async_write`.
use da4qi.Base.{List, [], ◌∷◌, ◌++◌, Bool, false, if◌then◌else◌, Bytes, is_empty, ◌≡◌}
use da4qi.Response.Chunked.{ChunkedBodies, push_back, pop_front}

-- A call of do_write_next_chunked_body is due, or a write is in flight; or the end was taken, or the
-- wait was given up or a write failed.
pub data Task : Type 0 where
  next_due writing ended given_up : Task

pub record Sender : Type 0 where
  pub bodies : ChunkedBodies
  pub task : Task
  pub pushes : List (Bytes × Bool)
  pub popped : ChunkedBodies
  pub sent : List Bytes

unfoldable pub new_sender : Sender
new_sender = record { bodies = []; task = next_due; pushes = []; popped = []; sent = [] }

unfoldable pub push_chunked_body : Bytes → Bool → Sender → Sender
push_chunked_body body is_last s = record s {
  bodies = push_back body is_last s.bodies;
  pushes = s.pushes ++ (body, is_last) ∷ [];
}

-- What follows the pop; `timeout` is whether the wait has lasted too long.
unfoldable pub write_popped : Bool → Bytes → Bool → Sender → Sender
write_popped timeout data' is_last s =
    if is_last
    then record s { task = ended }
    else if is_empty data'
    then (if timeout then record s { task = given_up } else record s { task = next_due })
    else record s { task = writing; sent = s.sent ++ data' ∷ [] }

unfoldable pub do_write_next_chunked_body : Bool → Sender → Sender
unfolding pop_front write_popped
do_write_next_chunked_body timeout s = elim s.bodies [
  | [] ↦ write_popped timeout [] false s
  | (data', is_last) ∷ bodies ↦
      write_popped timeout data' is_last
        (record s { bodies = bodies; popped = s.popped ++ (data', is_last) ∷ [] })
]

unfoldable pub do_write_chunked_body_finished : Bool → Sender → Sender
do_write_chunked_body_finished failed s =
    if failed then record s { task = given_up } else record s { task = next_due }

pub data Step (s : Sender) : Sender → Type 0 where
  pushed : (body : Bytes) (is_last : Bool) → Step s (push_chunked_body body is_last s)
  taken : (timeout : Bool) → s.task ≡ next_due → Step s (do_write_next_chunked_body timeout s)
  written : (failed : Bool) → s.task ≡ writing → Step s (do_write_chunked_body_finished failed s)

pub data Reach (s : Sender) : Sender → Type 0 where
  here : Reach s s
  later : {t u : Sender} → Reach s t → Step t u → Reach s u
