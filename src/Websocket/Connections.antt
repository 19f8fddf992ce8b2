-- ===== src/Websocket/Connections.antt =====
-- connection_websocket.cpp: Websocket::Connections, the connections of one path by their ids. The
-- storage holds weak pointers: a pointer is a number, and `ids` gives the id of the connection that it
-- points to while that connection lives. Only one thread at a time is in a call, by the mutex.
pub mod Rename
pub mod Registry
use da4qi.Base.{ℕ, List, [], ◌∷◌, Bool, true, false, Option, none, some, if◌then◌else◌, ◌==◌, Bytes}
use da4qi.Router.Order.{lexicographical_compare}
use da4qi.Router.Map.{find, insert, assign}
use da4qi.Router.Erase.{erase}

pub record Connections : Type 0 where
  pub storage : List (Bytes × ℕ)
  pub ids : ℕ → Option Bytes

-- The pointer, while the connection lives: `weak_ptr::lock`.
abbrev pub living : ℕ → Option Bytes → Option ℕ
living cnt none = none
living cnt (some id) = some cnt

-- `cnt->SetID(id)`.
abbrev pub set_id : ℕ → Bytes → (ℕ → Option Bytes) → ℕ → Option Bytes
set_id cnt id ids other = if other == cnt then some id else ids other

-- The caller holds the connection, whose id is `id`.
unfoldable pub add : ℕ → Bytes → Connections → Connections
add cnt id c = record c { storage = insert lexicographical_compare id cnt c.storage }

abbrev pub locked : (ℕ → Option Bytes) → Option ℕ → Option ℕ
locked ids none = none
locked ids (some cnt) = living cnt (ids cnt)

unfoldable pub get : Bytes → Connections → Option ℕ
get id c = locked c.ids (find lexicographical_compare id c.storage)

abbrev pub all_id : Connections → List Bytes
all_id c = keys c.storage
  where
    keys : List (Bytes × ℕ) → List Bytes
    keys [] = []
    keys ((id, cnt) ∷ m) = id ∷ keys m

pub removed : Bytes → Option ℕ → Connections → Connections × Bool
removed id none c = (c, false)
removed id (some cnt) c = (record c { storage = erase lexicographical_compare id c.storage }, true)

unfoldable pub remove : Bytes → Connections → Connections × Bool
unfolding removed
remove id c = removed id (find lexicographical_compare id c.storage) c

-- The part of RenameID behind `_storage.erase(it)`. An equal id is not set again, which is the same.
pub renamed : Bytes → ℕ → Option Bytes → Connections → Connections × Bool
renamed new_id cnt none c = (c, false)
renamed new_id cnt (some id) c = (
  record c {
    storage = assign lexicographical_compare new_id cnt c.storage;
    ids = set_id cnt new_id c.ids;
  },
  true,
)

-- The part behind `_storage.find(old_id)`.
pub rename_found : Bytes → Bytes → Option ℕ → Connections → Connections × Bool
unfolding renamed
rename_found old_id new_id none c = (c, false)
rename_found old_id new_id (some cnt) c =
    renamed new_id cnt (c.ids cnt)
      (record c { storage = erase lexicographical_compare old_id c.storage })

unfoldable pub rename_id : Bytes → Bytes → Connections → Connections × Bool
unfolding rename_found
rename_id old_id new_id c =
    rename_found old_id new_id (find lexicographical_compare old_id c.storage) c
