-- ===== src/Application/Websockets/Added.antt =====
-- Whom a path and an id find after a connection was added.
use da4qi.Base.{
  ℕ, List, [], Bool, true, false, Bool-cases, ◌&&◌, if◌then◌else◌, Option, Option-cases, none, some,
  Bytes, ◌≡◌, refl, sym, ap, ◌∙◌, inl, inr,
}
use da4qi.Router.Order.{
  lexicographical_compare, lexicographical_compare-IsStrictWeakOrder, equal, equal→eq,
  not_equal→less,
}
use da4qi.Router.Map.{
  find, insert, modify, find-insert, find-insert_other, find-modify, find-modify_other,
}
use da4qi.Websocket.Connections.{locked, get, add}
use da4qi.Websocket.Connections.Rename.{less}
use da4qi.Application.Websockets.{
  UrlFlag, makesure_full_url_path, Websockets, add_found, add_websocket_connection, get_found,
  websocket_connection,
}

module _ {ℓ} {V : Type ℓ} where
  find-insert_if :
      (k j : Bytes) (v : V) (m : List (Bytes × V))
      → find less k m ≡ none
      → find less j (insert less k v m) ≡ (if equal j k then some v else find less j m)
  find-insert_if k j v m new = elim (Bool-cases (equal j k)) [
    | inl same ↦
        rw (same, equal→eq j k same)
          (find-insert less lexicographical_compare-IsStrictWeakOrder k v m new)
    | inr differ ↦ rw differ (
        find-insert_other less lexicographical_compare-IsStrictWeakOrder k j v m
          (not_equal→less j k differ))
  ]

  find-modify_if :
      (k j : Bytes) (f : V → V) (v : V) (m : List (Bytes × V))
      → find less k m ≡ some v
      → find less j (modify less k f m) ≡ (if equal j k then some (f v) else find less j m)
  find-modify_if k j f v m known = elim (Bool-cases (equal j k)) [
    | inl same ↦
        rw (same, equal→eq j k same)
          (find-modify less lexicographical_compare-IsStrictWeakOrder k f v m known)
    | inr differ ↦ rw differ (
        find-modify_other less lexicographical_compare-IsStrictWeakOrder k j f m
          (not_equal→less j k differ))
  ]

-- The entry of an id in the registry of a path, if there is one.
abbrev pub entry_of : Bytes → Option (List (Bytes × ℕ)) → Option ℕ
entry_of id none = none
entry_of id (some storage) = find less id storage

locked_new :
    (ids : ℕ → Option Bytes) (b : Bool) (cnt : ℕ) (own : Bytes) (o : Option ℕ)
    → ids cnt ≡ some own
    → locked ids (if b then some cnt else o) ≡ (if b then some cnt else locked ids o)
locked_new ids true cnt own o lives = rw lives refl
locked_new ids false cnt own o lives = refl

-- The registry of the path with the new connection.
get_found-inserted :
    (id own : Bytes) (cnt : ℕ) (storage : List (Bytes × ℕ)) (ids : ℕ → Option Bytes)
    → ids cnt ≡ some own
    → find less own storage ≡ none
    → get_found id (some (insert less own cnt storage)) ids
      ≡ (if equal id own then some cnt else get_found id (some storage) ids)
unfolding get_found get
get_found-inserted id own cnt storage ids lives new =
    ap (locked ids) (find-insert_if own id cnt storage new)
    ∙ locked_new ids (equal id own) cnt own (find less id storage) lives

found_if :
    (a b : Bool) (cnt : ℕ) (r s t : Option ℕ)
    → r ≡ (if b then some cnt else s)
    → (a ≡ true → s ≡ t)
    → (if a then r else t) ≡ (if a && b then some cnt else t)
found_if true true cnt r s t e h = e
found_if true false cnt r s t e h = e ∙ h refl
found_if false b cnt r s t e h = refl

get_found_if :
    (a : Bool) (id : Bytes) (storage : List (Bytes × ℕ)) (o : Option (List (Bytes × ℕ)))
    (ids : ℕ → Option Bytes)
    → get_found id (if a then some storage else o) ids
      ≡ (if a then get_found id (some storage) ids else get_found id o ids)
get_found_if true id storage o ids = refl
get_found_if false id storage o ids = refl

empty_as_none :
    (id : Bytes) (ids : ℕ → Option Bytes) → get_found id (some []) ids ≡ get_found id none ids
unfolding get_found get find
empty_as_none id ids = refl

at_path :
    (p path : Bytes) (w : Websockets)
    → equal p path ≡ true
    → find less p w.connections ≡ find less path w.connections
at_path p path w same = ap (λ q. find less q w.connections) (equal→eq p path same)

added-path :
    (cnt : ℕ) (own path p id : Bytes) (w : Websockets)
    → w.ids cnt ≡ some own
    → entry_of own (find less path w.connections) ≡ none
    → get_found id
        (find less p (add_found cnt own path (find less path w.connections) w).connections)
        (add_found cnt own path (find less path w.connections) w).ids
      ≡ (if equal p path && equal id own
          then some cnt
          else get_found id (find less p w.connections) w.ids)
unfolding add_found add
added-path cnt own path p id w lives new = elim (Option-cases (find less path w.connections)) [
  | inl absent ↦ rw absent (
      ap (λ o. get_found id o w.ids)
        (find-insert_if path p (insert less own cnt []) w.connections absent)
      ∙ get_found_if (equal p path) id (insert less own cnt []) (find less p w.connections) w.ids
      ∙ found_if (equal p path) (equal id own) cnt _ (get_found id (some []) w.ids) _
          (get_found-inserted id own cnt [] w.ids lives (unfold find in refl))
          (λ same.
            empty_as_none id w.ids
            ∙ ap (λ o. get_found id o w.ids) (sym (at_path p path w same ∙ absent))))
  | inr (storage, known) ↦ rw known (
      ap (λ o. get_found id o w.ids)
        (find-modify_if path p (λ old. insert less own cnt storage) storage w.connections known)
      ∙ get_found_if (equal p path) id (insert less own cnt storage) (find less p w.connections)
          w.ids
      ∙ found_if (equal p path) (equal id own) cnt _ (get_found id (some storage) w.ids) _
          (get_found-inserted id own cnt storage w.ids lives (sym (ap (entry_of own) known) ∙ new))
          (λ same. ap (λ o. get_found id o w.ids) (sym (at_path p path w same ∙ known))))
]

root_url-add_found :
    (cnt : ℕ) (own path : Bytes) (o : Option (List (Bytes × ℕ))) (w : Websockets)
    → (add_found cnt own path o w).root_url ≡ w.root_url
unfolding add_found
root_url-add_found cnt own path none w = refl
root_url-add_found cnt own path (some storage) w = refl

-- A living connection is added under its path with an id that the registry of the path does not have:
-- the path and the id find it afterwards, and any other path or id finds what it found before.
pub websocket_connection-added :
    (cnt : ℕ) (own path url id : Bytes) (flag : UrlFlag) (w : Websockets)
    → w.ids cnt ≡ some own
    → entry_of own (find lexicographical_compare path w.connections) ≡ none
    → websocket_connection url flag id (add_websocket_connection cnt own path w) ≡ (
        if equal (makesure_full_url_path url flag w.root_url) path && equal id own
        then some cnt
        else websocket_connection url flag id w)
unfolding websocket_connection add_websocket_connection
websocket_connection-added cnt own path url id flag w lives new =
    let after = add_found cnt own path (find less path w.connections) w in
    ap
      (λ root.
        get_found id (find less (makesure_full_url_path url flag root) after.connections) after.ids)
      (root_url-add_found cnt own path (find less path w.connections) w)
    ∙ added-path cnt own path (makesure_full_url_path url flag w.root_url) id w lives new
