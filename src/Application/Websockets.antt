-- ===== src/Application/Websockets.antt =====
-- application.cpp: the websocket connections of an application, by their paths and ids, and url.cpp,
-- MakesureFullUrlPath. `ids` gives the ids of the connections that live, whichever path they have.
pub mod Added
use da4qi.Base.{ℕ, List, [], ◌∷◌, Bool, true, false, Option, none, some, Bytes}
use da4qi.Router.Order.{lexicographical_compare}
use da4qi.Router.Map.{find, insert, modify}
use da4qi.Application.Url.{join_url_path}
use da4qi.Websocket.Connections
use da4qi.Websocket.Connections.{Connections}

pub data UrlFlag : Type 0 where
  url_full_path url_without_app_root : UrlFlag

unfoldable pub makesure_full_url_path : Bytes → UrlFlag → Bytes → Bytes
unfolding join_url_path
makesure_full_url_path path url_full_path app_root = path
makesure_full_url_path path url_without_app_root app_root = join_url_path app_root path

pub record Websockets : Type 0 where
  pub root_url : Bytes
  pub connections : List (Bytes × List (Bytes × ℕ))
  pub ids : ℕ → Option Bytes

-- The registry of one path.
abbrev pub registry : Websockets → List (Bytes × ℕ) → Connections
registry w storage = record { storage = storage; ids = w.ids }

-- The state after a call of the registry of a path that is there.
abbrev pub changed : Bytes → Connections → Websockets → Websockets
changed path c w = record w {
  connections = modify lexicographical_compare path (λ old. c.storage) w.connections;
  ids = c.ids;
}

-- A connection with its id and its path; a new registry holds the connection.
pub add_found : ℕ → Bytes → Bytes → Option (List (Bytes × ℕ)) → Websockets → Websockets
unfolding Connections.add
add_found cnt id path none w = record w {
  connections =
      insert lexicographical_compare path (insert lexicographical_compare id cnt []) w.connections;
}
add_found cnt id path (some storage) w =
    changed path (Connections.add cnt id (registry w storage)) w

unfoldable pub add_websocket_connection : ℕ → Bytes → Bytes → Websockets → Websockets
unfolding add_found
add_websocket_connection cnt id path w =
    add_found cnt id path (find lexicographical_compare path w.connections) w

pub remove_found : Bytes → Bytes → Option (List (Bytes × ℕ)) → Websockets → Websockets × Bool
unfolding Connections.remove
remove_found id path none w = (w, false)
remove_found id path (some storage) w =
    let (c, removed) = Connections.remove id (registry w storage) in (changed path c w, removed)

unfoldable pub remove_websocket_connection :
    Bytes → UrlFlag → Bytes → Websockets → Websockets × Bool
unfolding remove_found makesure_full_url_path
remove_websocket_connection url flag id w =
    let path = makesure_full_url_path url flag w.root_url in
    remove_found id path (find lexicographical_compare path w.connections) w

pub rename_found :
    Bytes → Bytes → Bytes → Option (List (Bytes × ℕ)) → Websockets → Websockets × Bool
unfolding Connections.rename_id
rename_found old_id new_id path none w = (w, false)
rename_found old_id new_id path (some storage) w =
    let (c, renamed) = Connections.rename_id old_id new_id (registry w storage) in
    (changed path c w, renamed)

unfoldable pub rename_websocket_connection_id :
    Bytes → UrlFlag → Bytes → Bytes → Websockets → Websockets × Bool
unfolding rename_found makesure_full_url_path
rename_websocket_connection_id url flag old_id new_id w =
    let path = makesure_full_url_path url flag w.root_url in
    rename_found old_id new_id path (find lexicographical_compare path w.connections) w

unfoldable pub get_found : Bytes → Option (List (Bytes × ℕ)) → (ℕ → Option Bytes) → Option ℕ
unfolding Connections.get
get_found id none ids = none
get_found id (some storage) ids = Connections.get id (record { storage = storage; ids = ids })

unfoldable pub websocket_connection : Bytes → UrlFlag → Bytes → Websockets → Option ℕ
unfolding get_found makesure_full_url_path
websocket_connection url flag id w =
    get_found id
      (find lexicographical_compare (makesure_full_url_path url flag w.root_url) w.connections)
      w.ids
