-- ===== src/Tests/Websockets.antt =====
-- The websocket connections of an application.
use da4qi.Base.{[], ◌∷◌, none, some, codes, if◌then◌else◌, ◌==◌, ◌≡◌, refl}
use da4qi.Router.Map.{find}
use da4qi.Router.Order.{lexicographical_compare}
use da4qi.Application.Url.{join_url_path}
use da4qi.Application.Websockets.{
  Websockets, url_without_app_root, makesure_full_url_path, add_websocket_connection,
  websocket_connection,
}
use da4qi.Application.Websockets.Added.{websocket_connection-added}

-- One connection to /app/chat, and another one that lives.
abbrev one : Websockets
one = record {
  root_url = codes "/app/";
  connections = (codes "/app/chat", (codes "a", 1) ∷ []) ∷ [];
  ids = λ cnt. if cnt == 1 then some (codes "a") else if cnt == 2 then some (codes "b") else none;
}

websocket_connection-added_example :
    websocket_connection
      (codes "chat")
      url_without_app_root
      (codes "b")
      (add_websocket_connection 2 (codes "b") (codes "/app/chat") one)
    ≡ some 2
unfolding find lexicographical_compare makesure_full_url_path join_url_path
websocket_connection-added_example =
    websocket_connection-added 2 (codes "b") (codes "/app/chat") (codes "chat") (codes "b")
      url_without_app_root one refl refl
