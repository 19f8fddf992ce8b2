-- ===== src/Tests/WebsocketConnection.antt =====
-- Connections of websockets.
use da4qi.Base.{
  List, [], ◌∷◌, ◌++◌, true, false, none, some, codes, if◌then◌else◌, ◌≡◌, refl, arith,
}
use da4qi.Router.Order.{equal, lexicographical_compare}
use da4qi.Router.Map.{find, insert}
use da4qi.Websocket.Connection.{
  Connection, Event, Request, stop_request, new_connection, continuation, text, binary, write,
}
use da4qi.Websocket.Connection.Reading.{on_read}
use da4qi.Websocket.Connection.Steps.{Reach, write_step, here, later}
use da4qi.Websocket.Connection.Orderly.{IsInOrder}
use da4qi.Websocket.Connection.Orderly
use da4qi.Websocket.Connection.Heard.{Writing, write_all, concat, heard, unset, on_read-heard}
use da4qi.Websocket.Connections.{Connections, set_id, add, get, rename_id}
use da4qi.Websocket.Connections.Rename.{IsRegistry, get-rename_id}
use da4qi.Websocket.Connections.Registry.{born, added, moved, Change-IsRegistry}

-- A handler that stops when it is called.
abbrev stops : Event → List Request
stops e = stop_request ∷ []

abbrev server : Connection
server = new_connection (codes "/chat") []

abbrev twice_written : Connection
twice_written = write (codes "b") text true (write (codes "a") binary true server)

twice_written-Reach : Reach stops server twice_written
twice_written-Reach =
    let one : Reach stops server (write (codes "a") binary true server) =
      later here (write_step (codes "a") binary true) in
    later one (write_step (codes "b") text true)

Reach-IsInOrder_example : IsInOrder twice_written
Reach-IsInOrder_example = Orderly.Reach-IsInOrder stops (codes "/chat") [] twice_written-Reach

-- A text in three pieces.
abbrev first : Writing
first = record { payload = codes "Hel"; type = text; finished = false }

abbrev others : List Writing
others =
    record { payload = codes "lo "; type = continuation; finished = false }
    ∷ record { payload = codes "you"; type = continuation; finished = true }
    ∷ []

on_read-heard_example :
    (on_read stops none (concat (write_all (first ∷ others) server).issued) server).events
    ≡ server.events ++ heard unset (first ∷ others)
unfolding new_connection
on_read-heard_example =
    on_read-heard stops first others server server refl refl refl
      ((omega arith, omega arith), ((omega arith, omega arith), ((omega arith, omega arith), tt)))

-- Two living connections, each under its id.
abbrev nobody : Connections
nobody = record { storage = []; ids = λ cnt. none }

abbrev born_two : Connections
born_two = record nobody { ids = set_id 2 (codes "b") (set_id 1 (codes "a") nobody.ids) }

abbrev two : Connections
two = add 2 (codes "b") (add 1 (codes "a") born_two)

nobody-IsRegistry : IsRegistry nobody
unfolding find
nobody-IsRegistry = record { sorted = tt; known = λ id cnt own found lives. cc found }

two-IsRegistry : IsRegistry two
unfolding find add
two-IsRegistry =
    let one_born =
      Change-IsRegistry (born 1 (codes "a") (λ key found. cc found)) nobody-IsRegistry in
    let both_born = Change-IsRegistry (born 2 (codes "b") (λ key found. cc found)) one_born in
    let one_added = Change-IsRegistry (added 1 (codes "a") refl) both_born in
    Change-IsRegistry (added 2 (codes "b") refl) one_added

get-rename_id_example :
    ((rename_id (codes "a") (codes "b") two).1 ≡ true)
    × (get (codes "b") (rename_id (codes "a") (codes "b") two).0 ≡ (
        if equal (codes "b") (codes "b")
        then some 1
        else if equal (codes "b") (codes "a")
        then none
        else get (codes "b") two))
unfolding get add insert find lexicographical_compare
get-rename_id_example =
    get-rename_id (codes "a") (codes "b") 1 two (codes "b") two-IsRegistry
      (unfold find in unfold lexicographical_compare in refl)

Change-IsRegistry_example : IsRegistry (rename_id (codes "a") (codes "c") two).0
Change-IsRegistry_example = Change-IsRegistry (moved (codes "a") (codes "c")) two-IsRegistry
